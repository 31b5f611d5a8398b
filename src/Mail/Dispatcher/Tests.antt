-- ===== src/Mail/Dispatcher/Tests.antt =====
-- A dispatcher that is paused and stopped in the middle of its work, run, and the theorems at it
-- (mail/dispatcher.go).
use vpn_subscription_managem.Base.{◌≡◌, refl, true, false, List, [], ◌∷◌, ◌++◌, some, codes}
use vpn_subscription_managem.Mail.Activity.{
  Log, new_log, append, queued_record, failed_record, try_record, begin_queued,
  record_terminal_failed, find_locked, put, marked, write, write_terminal, to_sending, to_accepted,
  to_send_failed, to_queued_failed, mark_sending, mark_accepted, mark_send_failed,
  mark_queued_failed, duration_ms, same_status,
}
use vpn_subscription_managem.Mail.Activity.Reach.{run-IsValid, IsValid}
use vpn_subscription_managem.Mail.Dispatcher.{
  Dispatcher, Mail, Values, welcome_local, free, pausing, enqueue_prepared, reject_unavailable,
  reject_before_enqueue, template_kind, queued,
}
use vpn_subscription_managem.Mail.Dispatcher.Events.{
  Event, enqueue, worker, call_pause, call_stop, return, sent, step, run, new_dispatcher, resume,
  start_generation, pause_begin, pause_end, stop_begin, stop_end, work, receive_from, finish_log,
  worker_at, set_phase, all_exited, has_exited,
}
use vpn_subscription_managem.Mail.Dispatcher.Drain.{IsDrained, pause-IsDrained, stop-IsDrained}
use vpn_subscription_managem.Mail.Dispatcher.Enqueue.{Enqueued, enqueue_prepared-Enqueued}

abbrev hello : Mail
hello = record {
  kind = welcome_local;
  source = codes "local";
  user_id = 3;
  to = codes "a@b.c";
  masked = codes "a***@b.c";
}

abbrev site : Values
site = record { site_name = codes "S"; login_url = codes "/login"; reset_url = [] }

-- Two mails; worker 0 sends one while a pause begins, worker 1 drains the other.
abbrev busy_pause : List Event
busy_pause =
    enqueue 1 hello site
    ∷ enqueue 2 hello site
    ∷ worker 3 0 false sent
    ∷ worker 3 0 false sent
    ∷ worker 3 0 false sent
    ∷ call_pause
    ∷ worker 4 1 true sent
    ∷ worker 5 1 true sent
    ∷ worker 5 1 true sent
    ∷ worker 5 1 true sent
    ∷ worker 6 0 true sent
    ∷ worker 7 0 true sent
    ∷ worker 8 0 true sent
    ∷ []

start_log : Log
unfolding new_log
start_log = new_log 10 true

play : List Event → Dispatcher → Dispatcher
unfolding run step new_dispatcher resume start_generation pause_begin pause_end stop_begin stop_end
    work receive_from finish_log worker_at set_phase all_exited has_exited enqueue_prepared
    reject_unavailable reject_before_enqueue template_kind append queued_record failed_record
    try_record begin_queued record_terminal_failed find_locked put marked write write_terminal
    to_sending to_accepted to_send_failed to_queued_failed mark_sending mark_accepted
    mark_send_failed mark_queued_failed duration_ms same_status
play es d = run es d

waits : (run busy_pause (new_dispatcher start_log)).life ≡ pausing (some 0)
unfolding play start_log
waits = refl

returns : (step return (run busy_pause (new_dispatcher start_log))).life ≡ free
unfolding play start_log
returns = refl

pause-IsDrained_example : IsDrained (step return (run busy_pause (new_dispatcher start_log)))
pause-IsDrained_example = pause-IsDrained start_log busy_pause (some 0) waits returns

abbrev stop : List Event
stop = return ∷ call_stop ∷ []

stops : (run (busy_pause ++ stop) (new_dispatcher start_log)).stopped ≡ true
unfolding play start_log
stops = refl

idle_after :
    (run
      (return ∷ enqueue 9 hello site ∷ [])
      (run (busy_pause ++ stop) (new_dispatcher start_log))).life
    ≡ free
unfolding play start_log
idle_after = refl

stop-IsDrained_example :
    let d =
      run
        (return ∷ enqueue 9 hello site ∷ [])
        (run (busy_pause ++ stop) (new_dispatcher start_log)) in
    (d.stopped ≡ true) × IsDrained d
stop-IsDrained_example =
    stop-IsDrained start_log (busy_pause ++ stop) (return ∷ enqueue 9 hello site ∷ []) stops
      idle_after

start_log-IsValid : IsValid (new_dispatcher start_log).logs
unfolding play start_log vpn_subscription_managem.Mail.Activity.Reach.run
start_log-IsValid = run-IsValid 10 true []

enqueue_prepared-Enqueued_example :
    Enqueued
      (queued 1)
      hello
      site
      (new_dispatcher start_log)
      (enqueue_prepared 1 hello site (new_dispatcher start_log)).1
unfolding play start_log
enqueue_prepared-Enqueued_example =
    enqueue_prepared-Enqueued 1 hello site (new_dispatcher start_log) start_log-IsValid
