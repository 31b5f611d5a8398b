-- ===== src/Mail/Activity/Life.antt =====
-- The life of one record of the activity log, over any history (mail/activity.go).
use Prim.Native.Nat.{◌≤◌}
use vpn_subscription_managem.Base.{
  ℕ, suc, ◌≡◌, refl, ap, sym, ◌∙◌, Bool-cases, Option-cases, inl, inr, ◌⊎◌, some-injective, Bool,
  true, false, some, ◌==◌, arith,
}
use vpn_subscription_managem.Mail.Activity.{
  ActivityRecord, Log, append, find_locked, put, Status, Stage, queued, sending, accepted, failed,
  marked, same_status, write, write_terminal, begin_queued, begin_sending, record_terminal_failed,
  mark_sending, mark_accepted, mark_send_failed, mark_queued_failed, clear, queued_record,
  sending_record, failed_record, to_sending, to_accepted, to_send_failed, to_queued_failed,
}
use vpn_subscription_managem.Mail.Activity.Reach.{
  IsValid, Op, queue, send, refuse, start, accept, fail, cancel, forget, step, marked-inv,
  try_record-log,
}
use vpn_subscription_managem.Mail.Activity.Order.{
  find_locked-appended, find_locked-put, find_locked-put_self, find_locked-range,
}

-- queued → sending → accepted or failed, and queued → failed
unfoldable pub is_move : Status → Status → Bool
is_move queued sending = true
is_move queued failed = true
is_move sending accepted = true
is_move sending failed = true
is_move _ _ = false

-- What an operation may do to a record: nothing, or one move; and it keeps what it was made with.
pub record IsStep (r r' : ActivityRecord) : Type 0 where
  pub moved : (r' ≡ r) ⊎ (is_move r.status r'.status ≡ true)
  pub entry : r'.entry ≡ r.entry
  pub id : r'.id ≡ r.id
  pub created : r'.created_at ≡ r.created_at

IsStep-self : (r : ActivityRecord) → IsStep r r
IsStep-self r = record { moved = inl refl; entry = refl; id = refl; created = refl }

-- A record that the log has after an operation comes from the record of that id before it.
module _ (l : Log) (h : IsValid l) (id : ℕ) (le : id ≤ l.next_id) where
  abbrev From : ActivityRecord → Type 0
  From r' = (r : ActivityRecord) × (find_locked id l.items ≡ some r) × IsStep r r'

  found-put :
      (key : ℕ) (from : Status) (f : ActivityRecord → ActivityRecord) {new r' : ActivityRecord}
      → ((q : ActivityRecord) → same_status q.status from ≡ true → IsStep q (f q))
      → marked key from f l ≡ some new
      → find_locked id (put new l.items) ≡ some r'
      → From r'
  found-put key from f {new} {r'} steps m e' =
      let (q, found, held, eq) = marked-inv key from f l m in
      let (q_id, above, below) = find_locked-range 0 l.next_id key l.items h.ordered found in
      let new_id : new.id ≡ key = ap (λ (x : ActivityRecord). x.id) eq ∙ (steps q held).id ∙ q_id in
      elim (Bool-cases (key == id)) [
        | inl here ↦
            let same_id : key ≡ id = ground arith in
            let found_id : find_locked id l.items ≡ some q =
              ap (λ n. find_locked n l.items) (sym same_id) ∙ found in
            let same_new : new ≡ r' =
              some-injective
                (sym (find_locked-put_self id new l.items (new_id ∙ same_id) found_id) ∙ e') in
            (q, found_id, rw (sym same_new, eq) (steps q held))
        | inr there ↦
            (r', sym (find_locked-put id new l.items (λ n. ground arith)) ∙ e', IsStep-self r')
      ]

  -- a write through `write`
  found-write :
      (key : ℕ) (from : Status) (f : ActivityRecord → ActivityRecord) {r' : ActivityRecord}
      → ((q : ActivityRecord) → same_status q.status from ≡ true → IsStep q (f q))
      → find_locked id (write (marked key from f l) l).items ≡ some r'
      → From r'
  unfolding write
  found-write key from f {r'} steps e' = elim (Option-cases (marked key from f l)) [
    | inl (new, m) ↦ found-put key from f steps m (rw m at e')
    | inr m ↦ (r', rw m at e', IsStep-self r')
  ]

  found-write_terminal :
      (key : ℕ) (from : Status) (f : ActivityRecord → ActivityRecord) {r' : ActivityRecord}
      → ((q : ActivityRecord) → same_status q.status from ≡ true → IsStep q (f q))
      → find_locked id (write_terminal (marked key from f l) l).items ≡ some r'
      → From r'
  unfolding write_terminal
  found-write_terminal key from f {r'} steps e' = elim (Option-cases (marked key from f l)) [
    | inl (new, m) ↦
        let after = record l { items = put new l.items } in
        found-put key from f steps m
          (ap (find_locked id) (sym (try_record-log new after).0) ∙ rw m at e')
    | inr m ↦ (r', rw m at e', IsStep-self r')
  ]

  found-append :
      (make : ℕ → ActivityRecord) {r' : ActivityRecord}
      → ((n : ℕ) → (make n).id ≡ n)
      → find_locked id (append make l).items ≡ some r'
      → From r'
  found-append make {r'} named e' =
      (r', find_locked-appended id make l named h le e', IsStep-self r')

to_sending-IsStep :
    (now : ℕ) (q : ActivityRecord)
    → same_status q.status queued ≡ true
    → IsStep q (to_sending now q)
unfolding to_sending same_status is_move
to_sending-IsStep now q held = record {
  moved = inr (ground arith);
  entry = refl;
  id = refl;
  created = refl;
}

to_accepted-IsStep :
    (now : ℕ) (q : ActivityRecord)
    → same_status q.status sending ≡ true
    → IsStep q (to_accepted now q)
unfolding to_accepted same_status is_move
to_accepted-IsStep now q held = record {
  moved = inr (ground arith);
  entry = refl;
  id = refl;
  created = refl;
}

to_send_failed-IsStep :
    (now : ℕ) (stage : Stage) (q : ActivityRecord)
    → same_status q.status sending ≡ true
    → IsStep q (to_send_failed now stage q)
unfolding to_send_failed same_status is_move
to_send_failed-IsStep now stage q held = record {
  moved = inr (ground arith);
  entry = refl;
  id = refl;
  created = refl;
}

to_queued_failed-IsStep :
    (now : ℕ) (stage : Stage) (q : ActivityRecord)
    → same_status q.status queued ≡ true
    → IsStep q (to_queued_failed now stage q)
unfolding to_queued_failed same_status is_move
to_queued_failed-IsStep now stage q held = record {
  moved = inr (ground arith);
  entry = refl;
  id = refl;
  created = refl;
}

-- On a well-formed log, whatever operation runs, a record that is there after it, with an id given
-- before it, was there before it: it is unchanged or has made one of the moves queued to sending,
-- queued to failed, sending to accepted, sending to failed; and it keeps its id, its entry and its
-- creation time.
pub step-IsStep :
    (op : Op) (l : Log) (id : ℕ) {r' : ActivityRecord}
    → IsValid l
    → id ≤ l.next_id
    → find_locked id (step op l).items ≡ some r'
    → (r : ActivityRecord) × (find_locked id l.items ≡ some r) × IsStep r r'
unfolding step begin_queued begin_sending record_terminal_failed mark_sending mark_accepted
    mark_send_failed mark_queued_failed clear queued_record sending_record failed_record find_locked
step-IsStep (queue now t) l id h le e' = found-append l h id le (queued_record now t) (λ n. refl) e'
step-IsStep (send now t) l id h le e' = found-append l h id le (sending_record now t) (λ n. refl) e'
step-IsStep (refuse now t stage) l id h le e' =
    let made = failed_record now t stage (suc l.next_id) in
    let after = append (failed_record now t stage) l in
    found-append l h id le (failed_record now t stage) (λ n. refl)
      (ap (find_locked id) (sym (try_record-log made after).0) ∙ e')
step-IsStep (start now key) l id h le e' =
    found-write l h id le key queued (to_sending now) (to_sending-IsStep now) e'
step-IsStep (accept now key) l id h le e' =
    found-write_terminal l h id le key sending (to_accepted now) (to_accepted-IsStep now) e'
step-IsStep (fail now key stage) l id h le e' =
    found-write_terminal l h id le key sending (to_send_failed now stage)
      (to_send_failed-IsStep now stage) e'
step-IsStep (cancel now key stage) l id h le e' =
    found-write_terminal l h id le key queued (to_queued_failed now stage)
      (to_queued_failed-IsStep now stage) e'
step-IsStep forget l id h le e' = cc
