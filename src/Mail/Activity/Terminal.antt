-- ===== src/Mail/Activity/Terminal.antt =====
-- Records of the activity log that have ended (mail/activity.go).
use Prim.Native.Nat.{◌≤◌}
use vpn_subscription_managem.Base.{
  ℕ, ◌≡◌, ap, sym, ◌∙◌, inl, inr, some-injective, Bool, true, false, List, [], ◌∷◌, some, arith,
}
use vpn_subscription_managem.Mail.Activity.{
  ActivityRecord, Log, append, find_locked, Status, accepted, failed, write, write_terminal,
  try_record, begin_queued, begin_sending, record_terminal_failed, mark_sending, mark_accepted,
  mark_send_failed, mark_queued_failed, clear,
}
use vpn_subscription_managem.Mail.Activity.Reach.{
  IsValid, Op, queue, send, refuse, start, accept, fail, cancel, forget, step, run, step-IsValid,
}
use vpn_subscription_managem.Mail.Activity.Order.{find_locked-range}
use vpn_subscription_managem.Mail.Activity.Life.{is_move, IsStep, step-IsStep}

-- The counter of the ids never goes back.
next_id-step : (op : Op) (l : Log) → l.next_id ≤ (step op l).next_id
unfolding step begin_queued begin_sending record_terminal_failed mark_sending mark_accepted
    mark_send_failed mark_queued_failed clear append write write_terminal try_record
next_id-step (queue now t) l = omega arith
next_id-step (send now t) l = omega arith
next_id-step (refuse now t stage) l = ground arith
next_id-step (start now key) l = ground arith
next_id-step (accept now key) l = ground arith
next_id-step (fail now key stage) l = ground arith
next_id-step (cancel now key stage) l = ground arith
next_id-step forget l = omega arith

-- A record that is there after a history, with an id given before it, was there at its start.
run_found :
    (ops : List Op) (l : Log) (id : ℕ) {r' : ActivityRecord}
    → IsValid l
    → id ≤ l.next_id
    → find_locked id (run ops l).items ≡ some r'
    → (r : ActivityRecord) × (find_locked id l.items ≡ some r)
unfolding run
run_found [] l id {r'} h le e' = (r', e')
run_found (op ∷ ops) l id h le e' =
    let (mid, found) =
      run_found ops (step op l) id (step-IsValid op l h) (omega (arith, next_id-step op l)) e' in
    let (before, found_before, moved) = step-IsStep op l id h le found in (before, found_before)

abbrev pub is_terminal : Status → Bool
is_terminal accepted = true
is_terminal failed = true
is_terminal _ = false

IsStep-terminal : {r r' : ActivityRecord} → is_terminal r.status ≡ true → IsStep r r' → r' ≡ r
unfolding is_move
IsStep-terminal t s = elim s.moved [ inl same ↦ same | inr moved ↦ absurd (ground arith) ]

-- A record that has ended, accepted or failed, is never written again: whatever runs after, in any
-- order, the log has that very record under its id, or none.
pub run_terminal :
    (ops : List Op) (l : Log) (id : ℕ) {r r' : ActivityRecord}
    → IsValid l
    → find_locked id l.items ≡ some r
    → is_terminal r.status ≡ true
    → find_locked id (run ops l).items ≡ some r'
    → r' ≡ r
unfolding run
run_terminal [] l id h e t e' = some-injective (sym e' ∙ e)
run_terminal (op ∷ ops) l id {r} h e t e' =
    let (eq, above, below) = find_locked-range 0 l.next_id id l.items h.ordered e in
    let (mid, found) =
      run_found ops (step op l) id (step-IsValid op l h) (omega (arith, next_id-step op l)) e' in
    let (before, found_before, moved) = step-IsStep op l id h below found in
    let same : mid ≡ r =
      IsStep-terminal (rw (some-injective (sym found_before ∙ e)) t) moved
      ∙ some-injective (sym found_before ∙ e) in
    run_terminal ops (step op l) id (step-IsValid op l h) (found ∙ ap some same) t e'
