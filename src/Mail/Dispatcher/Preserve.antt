-- ===== src/Mail/Dispatcher/Preserve.antt =====
-- The events of the dispatcher and its invariant (mail/dispatcher.go).
use vpn_subscription_managem.Base.{refl, List, [], ◌∷◌}
use vpn_subscription_managem.Mail.Dispatcher.{Dispatcher}
use vpn_subscription_managem.Mail.Dispatcher.Events.{
  pause_begin, resume, resume_after_clear, stop_begin, Event, enqueue, refuse_config,
  refuse_unavailable, worker, call_pause, call_resume, call_resume_after_clear, call_stop, return,
  step, run,
}
use vpn_subscription_managem.Mail.Dispatcher.Lifecycle.{IsSound}
use vpn_subscription_managem.Mail.Dispatcher.Queue.{
  reject_unavailable-IsSound, reject_before_enqueue-IsSound, enqueue_prepared-IsSound,
  worker-IsSound,
}
use vpn_subscription_managem.Mail.Dispatcher.Calls.{
  resume-IsSound, resume_after_clear-IsSound, pause_begin-IsSound, stop_begin-IsSound,
  when_free-IsSound, return-IsSound,
}

pub step-IsSound : (e : Event) (d : Dispatcher) → IsSound d → IsSound (step e d)
unfolding step
step-IsSound (enqueue now m v) d h = enqueue_prepared-IsSound now m v d h
step-IsSound (refuse_config now m) d h = reject_before_enqueue-IsSound now m d h
step-IsSound (refuse_unavailable now m) d h = reject_unavailable-IsSound now m d h
step-IsSound (worker now i done o) d h = worker-IsSound now i done o d h
step-IsSound call_pause d h =
    when_free-IsSound pause_begin d d.life refl h (pause_begin-IsSound d h)
step-IsSound call_resume d h = when_free-IsSound resume d d.life refl h (resume-IsSound d h)
step-IsSound call_resume_after_clear d h =
    when_free-IsSound resume_after_clear d d.life refl h (resume_after_clear-IsSound d h)
step-IsSound call_stop d h = when_free-IsSound stop_begin d d.life refl h (stop_begin-IsSound d h)
step-IsSound return d h = return-IsSound d d.life refl h

pub run-IsSound : (es : List Event) (d : Dispatcher) → IsSound d → IsSound (run es d)
unfolding run
run-IsSound [] d h = h
run-IsSound (e ∷ es) d h = run-IsSound es (step e d) (step-IsSound e d h)
