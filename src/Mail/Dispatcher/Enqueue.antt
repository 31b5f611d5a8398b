-- ===== src/Mail/Dispatcher/Enqueue.antt =====
-- What a dispatch leaves in the queue and in the log (mail/dispatcher.go: enqueuePrepared).
use Prim.Native.Nat.{◌≤◌, ◌<◌}
use vpn_subscription_managem.Base.{
  ℕ, suc, ◌≡◌, refl, ap, ◌∙◌, true, false, Bool-cases, List, [], ◌∷◌, ◌++◌, some, inl, inr, ltb,
  leb, length, drop, arith,
}
use vpn_subscription_managem.Mail.Activity.{
  ActivityRecord, Log, Status, failed, Stage, queue_full, dispatcher_unavailable, begin_queued,
  mark_queued_failed, record_terminal_failed, append, queued_record, failed_record, find_locked,
  put, marked, write_terminal, to_queued_failed, same_status, try_record,
}
use vpn_subscription_managem.Mail.Activity.Reach.{IsValid, try_record-log}
use vpn_subscription_managem.Mail.Activity.Items.{Between, Between-drop}
use vpn_subscription_managem.Mail.Activity.Order.{Between-le, find_locked-put_self}
use vpn_subscription_managem.Mail.Dispatcher.{
  DispatchResult, queued, rejected, reason_queue_full, Dispatcher, Mail, Values, entry_of,
  enqueue_prepared, reject_unavailable, unavailable, dispatcher_queue_size,
}

-- The record of the newest id.
find_locked-fresh :
    (lo hi id : ℕ) (rs : List ActivityRecord) (r : ActivityRecord)
    → Between lo hi rs
    → hi < id
    → r.id ≡ id
    → find_locked id (rs ++ r ∷ []) ≡ some r
unfolding find_locked
find_locked-fresh lo hi id [] r h lt eq = ground arith
find_locked-fresh lo hi id (q ∷ rs) r h lt eq =
    ground (arith, Between-le q.id hi rs h.1, find_locked-fresh q.id hi id rs r h.1 lt eq)

find_locked-append_self :
    (make : ℕ → ActivityRecord) (l : Log)
    → ((n : ℕ) → (make n).id ≡ n)
    → IsValid l
    → find_locked (suc l.next_id) (append make l).items ≡ some (make (suc l.next_id))
unfolding append
find_locked-append_self make l named h = elim (Bool-cases (leb l.max (length l.items))) [
  | inl full ↦ rw full (
      find_locked-fresh 0 l.next_id (suc l.next_id) (drop 1 l.items) (make (suc l.next_id))
        (Between-drop 0 l.next_id l.items h.ordered) (omega arith) (named (suc l.next_id)))
  | inr room ↦ rw room (
      find_locked-fresh 0 l.next_id (suc l.next_id) l.items (make (suc l.next_id)) h.ordered
        (omega arith) (named (suc l.next_id)))
]

-- The log has a record of this id, failed at this stage.
pub Failed : ℕ → Stage → Log → Type 0
Failed id stage l =
    (r : ActivityRecord) × (find_locked id l.items ≡ some r)
    × (r.status ≡ failed)
    × (r.failure_stage ≡ some stage)

-- What an enqueue has done, by what it returned.
pub Enqueued : DispatchResult → Mail → Values → Dispatcher → Dispatcher → Type 0
Enqueued (DispatchResult.skipped r) m v d d' = ⊥
Enqueued (queued id) m v d d' =
    (unavailable d ≡ false)
    × (d'.queue ≡ d.queue ++ (record { log_id = id; mail = m; values = v }) ∷ [])
    × (length d.queue < dispatcher_queue_size)
    × (r : ActivityRecord) × (find_locked id d'.logs.items ≡ some r)
    × (r.status ≡ Status.queued)
Enqueued (rejected reason_queue_full id) m v d d' =
    (dispatcher_queue_size ≤ length d.queue) × (d'.queue ≡ d.queue) × Failed id queue_full d'.logs
Enqueued (rejected reason id) m v d d' =
    (unavailable d ≡ true) × (d'.queue ≡ d.queue) × Failed id dispatcher_unavailable d'.logs

rejected_record :
    (now : ℕ) (m : Mail) (stage : Stage) (l : Log)
    → IsValid l
    → Failed (suc l.next_id) stage (record_terminal_failed now (entry_of m) stage l)
unfolding Failed record_terminal_failed failed_record queued_record
rejected_record now m stage l h =
    let make = failed_record now (entry_of m) stage in
    (
      make (suc l.next_id),
      ap (find_locked (suc l.next_id)) (try_record-log (make (suc l.next_id)) (append make l)).0
          ∙ find_locked-append_self make l (λ n. refl) h,
      refl,
      refl,
    )

next_id-record_terminal_failed :
    (now : ℕ) (m : Mail) (stage : Stage) (l : Log)
    → (record_terminal_failed now (entry_of m) stage l).next_id ≡ suc l.next_id
unfolding record_terminal_failed append try_record
next_id-record_terminal_failed now m stage l = ground arith

-- A mark on the record just appended finds it.
marked-append :
    (make : ℕ → ActivityRecord) (f : ActivityRecord → ActivityRecord) (l : Log)
    → ((n : ℕ) → (make n).id ≡ n)
    → (make (suc l.next_id)).status ≡ Status.queued
    → IsValid l
    → marked (suc l.next_id) Status.queued f (append make l) ≡ some (f (make (suc l.next_id)))
unfolding marked same_status
marked-append make f l named s h = ground (arith, find_locked-append_self make l named h, s)

-- A record just queued that is marked as failed.
full_record :
    (now : ℕ) (m : Mail) (l : Log)
    → IsValid l
    → Failed
        (suc l.next_id)
        queue_full
        (mark_queued_failed now (suc l.next_id) queue_full (begin_queued now (entry_of m) l))
unfolding Failed begin_queued queued_record to_queued_failed mark_queued_failed find_locked
    write_terminal try_record
full_record now m l h =
    let id = suc l.next_id in
    let make = queued_record now (entry_of m) in
    let f = to_queued_failed now queue_full in
    let l' = append make l in
    let new = f (make id) in
    (
      new,
      rw (marked-append make f l (λ n. refl) refl h, mark_queued_failed, write_terminal)
          (ap (find_locked id) (try_record-log new (record l' { items = put new l'.items })).0
            ∙ find_locked-put_self id new l'.items refl
                (find_locked-append_self make l (λ n. refl) h)),
      refl,
      refl,
    )

-- On a well-formed log, the result of an enqueue says what it did. Queued: the dispatcher was
-- available and had room, the job is the last of the queue, and its record is queued. Queue full:
-- there was no room, the queue is as it was, and the record has failed for that reason. Otherwise
-- the dispatcher was paused, stopped or without workers, and the queue is as it was.
pub enqueue_prepared-Enqueued :
    (now : ℕ) (m : Mail) (v : Values) (d : Dispatcher)
    → IsValid d.logs
    → Enqueued (enqueue_prepared now m v d).0 m v d (enqueue_prepared now m v d).1
unfolding enqueue_prepared reject_unavailable queued_record begin_queued append
    record_terminal_failed try_record
enqueue_prepared-Enqueued now m v d h = elim (Bool-cases (unavailable d)) [
  | inl shut ↦ rw shut (
      unfold Enqueued in
      (
        shut,
        refl,
        rw (next_id-record_terminal_failed now m dispatcher_unavailable d.logs)
            (rejected_record now m dispatcher_unavailable d.logs h),
      ))
  | inr ready ↦ elim (Bool-cases (ltb (length d.queue) 100)) [
    | inl room ↦
        rw (ready, room)
          (unfold Enqueued in
            (
              ready,
              refl,
              ground arith,
              queued_record now (entry_of m) (suc d.logs.next_id),
              find_locked-append_self (queued_record now (entry_of m)) d.logs (λ n. refl) h,
              refl,
            ))
    | inr full ↦
        rw (ready, full) (unfold Enqueued in (ground arith, refl, full_record now m d.logs h))
  ]
]
