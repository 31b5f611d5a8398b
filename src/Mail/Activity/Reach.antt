-- ===== src/Mail/Activity/Reach.antt =====
-- The histories of the activity log (mail/activity.go).
use Prim.Native.Nat.{◌≤◌}
use vpn_subscription_managem.Base.{
  ℕ, suc, ◌≡◌, refl, Bool-cases, Option-cases, inl, inr, Bool, true, List, [], ◌∷◌, Option, none,
  some, leb, length, drop, length-append, arith,
}
use vpn_subscription_managem.Mail.Activity.{
  Status, queued, sending, Stage, Entry, ActivityRecord, Log, new_log, append, queued_record,
  sending_record, failed_record, try_record, begin_queued, begin_sending, record_terminal_failed,
  find_locked, put, marked, write, write_terminal, to_sending, mark_sending, to_accepted,
  mark_accepted, to_send_failed, mark_send_failed, to_queued_failed, mark_queued_failed, clear,
  same_status,
}
use vpn_subscription_managem.Mail.Activity.Items.{
  is_consistent, Between, Consistent, Between-append, Between-drop, length-drop, Between-put,
  length-put, Consistent-put, Consistent-append, Consistent-drop, Consistent-find_locked,
}

-- The operations that change the log, with the time at which each runs.
pub data Op : Type 0 where
  queue : ℕ → Entry → Op
  send : ℕ → Entry → Op
  refuse : ℕ → Entry → Stage → Op
  start : ℕ → ℕ → Op
  accept : ℕ → ℕ → Op
  fail : ℕ → ℕ → Stage → Op
  cancel : ℕ → ℕ → Stage → Op
  forget : Op

unfoldable pub step : Op → Log → Log
step (queue now e) l = begin_queued now e l
step (send now e) l = begin_sending now e l
step (refuse now e stage) l = record_terminal_failed now e stage l
step (start now id) l = mark_sending now id l
step (accept now id) l = mark_accepted now id l
step (fail now id stage) l = mark_send_failed now id stage l
step (cancel now id stage) l = mark_queued_failed now id stage l
step forget l = clear l

unfoldable pub run : List Op → Log → Log
run [] l = l
run (op ∷ ops) l = run ops (step op l)

pub record IsValid (l : Log) : Type 0 where
  pub ordered : Between 0 l.next_id l.items
  pub bounded : length l.items ≤ l.max
  pub positive : 1 ≤ l.max
  pub consistent : Consistent l.items

-- Handing a result to the recorder leaves the records.
pub try_record-log :
    (r : ActivityRecord) (l : Log)
    → ((try_record r l).items ≡ l.items)
      × ((try_record r l).max ≡ l.max)
      × ((try_record r l).next_id ≡ l.next_id)
unfolding try_record
try_record-log r l = ground arith

append-IsValid :
    (make : ℕ → ActivityRecord) (l : Log)
    → ((id : ℕ) → (make id).id ≡ id)
    → ((id : ℕ) → is_consistent (make id) ≡ true)
    → IsValid l
    → IsValid (append make l)
unfolding append
append-IsValid make l named good h =
    let new = make (suc l.next_id) in
    elim (Bool-cases (leb l.max (length l.items))) [
      | inl full ↦ rw full (record {
        ordered =
            Between-append 0 l.next_id (suc l.next_id) (drop 1 l.items) new (omega arith)
              (named (suc l.next_id)) (Between-drop 0 l.next_id l.items h.ordered);
        bounded = ground (
          arith,
          length-append (drop 1 l.items) (new ∷ []),
          length-drop l.items,
          h.bounded,
          h.positive,
        );
        positive = h.positive;
        consistent =
            Consistent-append (drop 1 l.items) new (good (suc l.next_id))
              (Consistent-drop l.items h.consistent);
      })
      | inr room ↦ rw room (record {
        ordered =
            Between-append 0 l.next_id (suc l.next_id) l.items new (omega arith)
              (named (suc l.next_id)) h.ordered;
        bounded = ground (arith, length-append l.items (new ∷ []));
        positive = h.positive;
        consistent = Consistent-append l.items new (good (suc l.next_id)) h.consistent;
      })
    ]

put-IsValid :
    (l : Log) (new : ActivityRecord)
    → is_consistent new ≡ true
    → IsValid l
    → IsValid (record l { items = put new l.items })
put-IsValid l new p h = record {
  ordered = Between-put 0 l.next_id new l.items h.ordered;
  bounded = rw (length-put new l.items) h.bounded;
  positive = h.positive;
  consistent = Consistent-put new l.items p h.consistent;
}

try_record-IsValid : (r : ActivityRecord) (l : Log) → IsValid l → IsValid (try_record r l)
try_record-IsValid r l h =
    let (same, cap, next) = try_record-log r l in
    record {
      ordered = rw (same, next) h.ordered;
      bounded = rw (same, cap) h.bounded;
      positive = rw cap h.positive;
      consistent = rw same h.consistent;
    }

-- What a mark writes comes from a record that the log has, in the status that the mark asks for.
pub marked-inv :
    (id : ℕ) (from : Status) (f : ActivityRecord → ActivityRecord) (l : Log) {new : ActivityRecord}
    → marked id from f l ≡ some new
    → (r : ActivityRecord) × (find_locked id l.items ≡ some r)
      × (same_status r.status from ≡ true)
      × (new ≡ f r)
unfolding marked
marked-inv id from f l {new} h = elim (Option-cases (find_locked id l.items)) [
  | inl (r, found) ↦ (r, found, ground arith, ground arith)
  | inr missing ↦ absurd (ground arith)
]

module _ (l : Log) (h : IsValid l) where
  write-IsValid :
      (m : Option ActivityRecord)
      → ((r : ActivityRecord) → m ≡ some r → is_consistent r ≡ true)
      → IsValid (write m l)
  unfolding write
  write-IsValid none good = h
  write-IsValid (some r) good = put-IsValid l r (good r refl) h

  write_terminal-IsValid :
      (m : Option ActivityRecord)
      → ((r : ActivityRecord) → m ≡ some r → is_consistent r ≡ true)
      → IsValid (write_terminal m l)
  unfolding write_terminal
  write_terminal-IsValid none good = h
  write_terminal-IsValid (some r) good =
      try_record-IsValid r (record l { items = put r l.items }) (put-IsValid l r (good r refl) h)

  -- A mark that turns consistent records into consistent ones writes a consistent record.
  marked-consistent :
      (id : ℕ) (from : Status) (f : ActivityRecord → ActivityRecord)
      → ((r : ActivityRecord)
          → same_status r.status from ≡ true
          → is_consistent r ≡ true
          → is_consistent (f r) ≡ true)
      → {new : ActivityRecord} → marked id from f l ≡ some new
      → is_consistent new ≡ true
  marked-consistent id from f good e =
      let (r, found, held, same) = marked-inv id from f l e in
      rw same (good r held (Consistent-find_locked id l.items found h.consistent))

to_sending-consistent :
    (now : ℕ) (r : ActivityRecord)
    → same_status r.status queued ≡ true
    → is_consistent r ≡ true
    → is_consistent (to_sending now r) ≡ true
unfolding to_sending is_consistent same_status
to_sending-consistent now r from c = ground arith

to_accepted-consistent :
    (now : ℕ) (r : ActivityRecord)
    → same_status r.status sending ≡ true
    → is_consistent r ≡ true
    → is_consistent (to_accepted now r) ≡ true
unfolding to_accepted is_consistent same_status
to_accepted-consistent now r from c = ground arith

to_send_failed-consistent :
    (now : ℕ) (stage : Stage) (r : ActivityRecord)
    → same_status r.status sending ≡ true
    → is_consistent r ≡ true
    → is_consistent (to_send_failed now stage r) ≡ true
unfolding to_send_failed is_consistent same_status
to_send_failed-consistent now stage r from c = ground arith

to_queued_failed-consistent :
    (now : ℕ) (stage : Stage) (r : ActivityRecord)
    → same_status r.status queued ≡ true
    → is_consistent r ≡ true
    → is_consistent (to_queued_failed now stage r) ≡ true
unfolding to_queued_failed is_consistent same_status
to_queued_failed-consistent now stage r from c = ground arith

pub step-IsValid : (op : Op) (l : Log) → IsValid l → IsValid (step op l)
unfolding step begin_queued begin_sending record_terminal_failed mark_sending mark_accepted
    mark_send_failed mark_queued_failed clear queued_record sending_record failed_record
    is_consistent
step-IsValid (queue now e) l h = append-IsValid (queued_record now e) l (λ id. refl) (λ id. refl) h
step-IsValid (send now e) l h = append-IsValid (sending_record now e) l (λ id. refl) (λ id. refl) h
step-IsValid (refuse now e stage) l h =
    try_record-IsValid (failed_record now e stage (suc l.next_id))
      (append (failed_record now e stage) l)
      (append-IsValid (failed_record now e stage) l (λ id. refl) (λ id. refl) h)
step-IsValid (start now id) l h =
    write-IsValid l h (marked id queued (to_sending now) l)
      (λ r e. marked-consistent l h id queued (to_sending now) (to_sending-consistent now) e)
step-IsValid (accept now id) l h =
    write_terminal-IsValid l h (marked id sending (to_accepted now) l)
      (λ r e. marked-consistent l h id sending (to_accepted now) (to_accepted-consistent now) e)
step-IsValid (fail now id stage) l h =
    write_terminal-IsValid l h (marked id sending (to_send_failed now stage) l) (λ r e.
      marked-consistent l h id sending (to_send_failed now stage)
        (to_send_failed-consistent now stage) e)
step-IsValid (cancel now id stage) l h =
    write_terminal-IsValid l h (marked id queued (to_queued_failed now stage) l) (λ r e.
      marked-consistent l h id queued (to_queued_failed now stage)
        (to_queued_failed-consistent now stage) e)
step-IsValid forget l h = record {
  ordered = omega arith;
  bounded = omega arith;
  positive = h.positive;
  consistent = tt;
}

run_from-IsValid : (ops : List Op) (l : Log) → IsValid l → IsValid (run ops l)
unfolding run
run_from-IsValid [] l h = h
run_from-IsValid (op ∷ ops) l h = run_from-IsValid ops (step op l) (step-IsValid op l h)

new_log-IsValid : (max : ℕ) (recorder : Bool) → IsValid (new_log max recorder)
unfolding new_log
new_log-IsValid max recorder = record {
  ordered = omega arith;
  bounded = omega arith;
  positive = ground arith;
  consistent = tt;
}

-- Whatever operations run on a new log, in any order and at any times, it holds at most its
-- capacity of records, their ids increase strictly up to the counter, and each record has exactly
-- the times and the failure stage that its status allows.
pub run-IsValid :
    (max : ℕ) (recorder : Bool) (ops : List Op) → IsValid (run ops (new_log max recorder))
run-IsValid max recorder ops =
    run_from-IsValid ops (new_log max recorder) (new_log-IsValid max recorder)
