-- ===== src/Mail/Activity/Tests.antt =====
-- A short history of the activity log, run, and the theorems at it (mail/activity.go).
use Prim.Native.Nat.{◌≤◌}
use vpn_subscription_managem.Base.{List, ◌≡◌, refl, true, [], ◌∷◌, ◌++◌, none, some, codes, arith}
use vpn_subscription_managem.Mail.Activity.{
  ActivityRecord, Entry, Log, accepted, password_reset, queue_full, auth, new_log, append,
  queued_record, failed_record, sending_record, try_record, begin_queued, begin_sending,
  record_terminal_failed, find_locked, put, marked, write, write_terminal, to_sending, to_accepted,
  to_send_failed, to_queued_failed, mark_sending, mark_accepted, mark_send_failed,
  mark_queued_failed, duration_ms, same_status,
}
use vpn_subscription_managem.Mail.Activity.Reach.{
  Op, queue, refuse, start, accept, fail, step, run, IsValid, run-IsValid,
}
use vpn_subscription_managem.Mail.Activity.Life.{step-IsStep, IsStep}
use vpn_subscription_managem.Mail.Activity.Terminal.{run_terminal}

abbrev reset : Entry
reset = record {
  kind = password_reset;
  source = codes "public_forgot";
  user_id = some 4;
  recipient = codes "a***@b.c";
}

abbrev first : List Op
first = queue 1000000 reset ∷ start 4000000 1 ∷ accept 9000000 1 ∷ []

abbrev second : List Op
second = queue 10000000 reset ∷ fail 11000000 1 auth ∷ start 12000000 2 ∷ []

play : List Op → Log → Log
unfolding run step new_log append queued_record failed_record sending_record try_record begin_queued
    begin_sending record_terminal_failed find_locked put marked write write_terminal to_sending
    to_accepted to_send_failed to_queued_failed mark_sending mark_accepted mark_send_failed
    mark_queued_failed duration_ms same_status
play ops l = run ops l

-- a log for two records
start_log : Log
unfolding new_log
start_log = new_log 2 true

abbrev done : ActivityRecord
done = record {
  id = 1;
  created_at = 1000000;
  started_at = some 4000000;
  finished_at = some 9000000;
  entry = reset;
  status = accepted;
  failure_stage = none;
  queue_ms = some 3;
  send_ms = some 5;
}

found_after : find_locked 1 (run first start_log).items ≡ some done
unfolding play start_log
found_after = refl

still_done : find_locked 1 (run second (run first start_log)).items ≡ some done
unfolding play start_log
still_done = refl

-- The third record pushes the first out.
full :
    find_locked 1 (run (second ++ refuse 1 reset queue_full ∷ []) (run first start_log)).items
    ≡ none
unfolding play start_log
full = refl

run-IsValid_example : IsValid (run (first ++ second) (new_log 2 true))
run-IsValid_example = run-IsValid 2 true (first ++ second)

first-IsValid : IsValid (run first start_log)
unfolding start_log
first-IsValid = run-IsValid 2 true first

in_range : 1 ≤ (run first start_log).next_id
unfolding play start_log
in_range = omega arith

after_fail : find_locked 1 (step (fail 11000000 1 auth) (run first start_log)).items ≡ some done
unfolding play start_log
after_fail = refl

step-IsStep_example :
    (r : ActivityRecord) × (find_locked 1 (run first start_log).items ≡ some r) × IsStep r done
step-IsStep_example =
    step-IsStep (fail 11000000 1 auth) (run first start_log) 1 first-IsValid in_range after_fail

run_terminal_example : done ≡ done
run_terminal_example =
    run_terminal second (run first start_log) 1 first-IsValid found_after refl still_done
