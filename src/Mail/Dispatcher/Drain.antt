-- ===== src/Mail/Dispatcher/Drain.antt =====
-- The dispatcher when PauseAndDrain and Stop return, and after a stop (mail/dispatcher.go).
use vpn_subscription_managem.Base.{
  ℕ, ◌≡◌, refl, ◌∙◌, Bool, true, false, &&-left, &&-right, &&-both, ◌&&◌, List, [], ◌∷◌, Option,
  none, some, inl, inr, arith, Option-cases,
}
use vpn_subscription_managem.Mail.Activity.{Log}
use vpn_subscription_managem.Mail.Dispatcher.{
  Dispatcher, Worker, Phase, waiting, draining, exited, received, starting, working, dropping, free,
  pausing, enqueue_prepared, reject_before_enqueue, reject_unavailable,
}
use vpn_subscription_managem.Mail.Dispatcher.Events.{
  is_empty, Event, enqueue, refuse_config, refuse_unavailable, worker, call_pause, call_resume,
  call_resume_after_clear, call_stop, return, step, run, resume, resume_after_clear, new_dispatcher,
  has_exited, pause_begin, pause_end, stop_begin, stop_end, work, receive_from, finish_log, Outcome,
  sent, panicked, send_error, worker_at,
}
use vpn_subscription_managem.Mail.Dispatcher.Lifecycle.{IsSound, fits, all_fit, has_crew, all_below}
use vpn_subscription_managem.Mail.Dispatcher.Preserve.{run-IsSound, step-IsSound}
use vpn_subscription_managem.Mail.Dispatcher.Calls.{resume-IsSound}

new_dispatcher-IsSound : (l : Log) → IsSound (new_dispatcher l)
unfolding new_dispatcher
new_dispatcher-IsSound l =
    resume-IsSound _
      (record {
        fit = unfold all_fit in refl;
        context = λ g e. absurd (ground arith);
        drained = λ e. refl;
        crew = unfold has_crew in refl;
        below = unfold all_below in refl;
        quiet = λ b. absurd (ground arith);
        final = λ s. absurd (ground arith);
        held = λ g e. absurd (ground arith);
        halted = λ g e. absurd (ground arith);
      })
      refl

-- Every worker there ever was has returned.
unfoldable pub none_at_work : List Worker → Bool
none_at_work [] = true
none_at_work (w ∷ ws) = has_exited w.phase && none_at_work ws

fits-has_exited : (e q : Bool) (p : Phase) → fits false e q p ≡ true → has_exited p ≡ true
unfolding fits has_exited
fits-has_exited e q waiting h = cc
fits-has_exited e q draining h = cc
fits-has_exited e q exited h = refl
fits-has_exited e q (received j) h = cc
fits-has_exited e q (starting j) h = cc
fits-has_exited e q (working j) h = cc
fits-has_exited e q (dropping j) h = cc

all_fit-none_at_work :
    (e q : Bool) (ws : List Worker) → all_fit none e q ws ≡ true → none_at_work ws ≡ true
unfolding all_fit none_at_work
all_fit-none_at_work e q [] h = refl
all_fit-none_at_work e q (w ∷ ws) h =
    let f = fits false e q w.phase in
    &&-both (has_exited w.phase) (none_at_work ws)
      (fits-has_exited e q w.phase (&&-left f (all_fit none e q ws) h))
      (all_fit-none_at_work e q ws (&&-right f (all_fit none e q ws) h))

-- The dispatcher at rest.
pub record IsDrained (d : Dispatcher) : Type 0 where
  pub queue : d.queue ≡ []
  pub workers : none_at_work d.workers ≡ true
  pub paused : d.paused ≡ true
  pub generation : d.generation ≡ none

at_rest :
    (d : Dispatcher)
    → IsSound d
    → d.life ≡ free
    → d.generation ≡ none
    → d.paused ≡ true
    → IsDrained d
at_rest d h idle e p = record {
  queue = h.drained (rw idle e);
  workers = all_fit-none_at_work false (is_empty d.queue) d.workers (rw (idle, e) at h.fit);
  paused = p;
  generation = e;
}

pause_end-free :
    (g : Option ℕ) (d : Dispatcher)
    → d.life ≡ pausing g
    → d.generation ≡ g
    → (pause_end g d).life ≡ free
    → ((pause_end g d).generation ≡ none) × ((pause_end g d).paused ≡ d.paused)
unfolding pause_end
pause_end-free none d waits e idle = ground arith
pause_end-free (some g) d waits e idle = ground arith

-- Whatever dispatches, worker steps and life cycle calls came before, in any order, and whatever
-- the sends returned: when a PauseAndDrain that waits for its workers returns, the queue is empty,
-- every worker has returned, the dispatcher is paused, and no generation is at work.
pub pause-IsDrained :
    (l : Log) (es : List Event) (g : Option ℕ)
    → (run es (new_dispatcher l)).life ≡ pausing g
    → (step return (run es (new_dispatcher l))).life ≡ free
    → IsDrained (step return (run es (new_dispatcher l)))
unfolding step
pause-IsDrained l es g waits idle =
    let d = run es (new_dispatcher l) in
    let h = run-IsSound es (new_dispatcher l) (new_dispatcher-IsSound l) in
    let after = step-IsSound return d h in
    let (e, p) = pause_end-free g d waits (h.held g waits) (rw (waits, step) at idle) in
    at_rest (step return d) after idle (rw (waits, step) e)
      (rw (waits, step) (p ∙ h.quiet (rw waits refl)))

stopped-work :
    (now i : ℕ) (done : Bool) (o : Outcome) (g : ℕ) (p : Phase) (d : Dispatcher)
    → ((work now i done o g p d).stopped ≡ d.stopped)
unfolding work receive_from finish_log
stopped-work now i true o g waiting d = ground arith
stopped-work now i false o g waiting d = ground arith
stopped-work now i done o g draining d = ground arith
stopped-work now i done o g exited d = refl
stopped-work now i done o g (received j) d = ground arith
stopped-work now i done o g (starting j) d = refl
stopped-work now i done sent g (working j) d = refl
stopped-work now i done panicked g (working j) d = refl
stopped-work now i done (send_error s) g (working j) d = refl
stopped-work now i done o g (dropping j) d = refl

stopped-step : (e : Event) (d : Dispatcher) → d.stopped ≡ true → (step e d).stopped ≡ true
unfolding step enqueue_prepared reject_before_enqueue reject_unavailable resume resume_after_clear
    pause_begin pause_end stop_begin stop_end
stopped-step (enqueue now m v) d h = ground arith
stopped-step (refuse_config now m) d h = ground arith
stopped-step (refuse_unavailable now m) d h = ground arith
stopped-step (worker now i done o) d h = elim (Option-cases (worker_at i d.workers)) [
  | inl (w, at) ↦ rw (at, step) (stopped-work now i done o w.generation w.phase d ∙ h)
  | inr missing ↦ rw (missing, step) h
]
stopped-step call_pause d h = ground arith
stopped-step call_resume d h = ground arith
stopped-step call_resume_after_clear d h = ground arith
stopped-step call_stop d h = ground arith
stopped-step return d h = ground arith

run_stopped : (es : List Event) (d : Dispatcher) → d.stopped ≡ true → (run es d).stopped ≡ true
unfolding run
run_stopped [] d h = h
run_stopped (e ∷ es) d h = run_stopped es (step e d) (stopped-step e d h)

-- A stop is final: from any moment of any history at which the dispatcher is stopped, whatever
-- calls follow, it stays stopped, and whenever no life cycle call is under way its queue is empty,
-- every worker has returned and no generation is at work.
pub stop-IsDrained :
    (l : Log) (before after : List Event)
    → (run before (new_dispatcher l)).stopped ≡ true
    → (run after (run before (new_dispatcher l))).life ≡ free
    → ((run after (run before (new_dispatcher l))).stopped ≡ true)
      × IsDrained (run after (run before (new_dispatcher l)))
stop-IsDrained l before after stop idle =
    let d = run before (new_dispatcher l) in
    let h = run-IsSound before (new_dispatcher l) (new_dispatcher-IsSound l) in
    let h' = run-IsSound after d h in
    let stays = run_stopped after d stop in
    let (p, e) = h'.final stays in (stays, at_rest (run after d) h' idle e p)
