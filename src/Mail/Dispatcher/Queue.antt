-- ===== src/Mail/Dispatcher/Queue.antt =====
-- What the queue and the workers do to the invariant of the dispatcher (mail/dispatcher.go).
use vpn_subscription_managem.Base.{
  ℕ, ◌≡◌, refl, ap, ◌∙◌, Bool, true, false, Bool-cases, ==_iff, List, [], ◌∷◌, Option, none, some,
  ltb, inl, inr, arith, Option-cases, length,
}
use vpn_subscription_managem.Mail.Activity.{Log}
use vpn_subscription_managem.Mail.Dispatcher.{
  Dispatcher, Worker, Phase, waiting, draining, exited, received, starting, working, dropping, Job,
  enqueue_prepared, reject_before_enqueue, reject_unavailable, unavailable, Mail, Values,
}
use vpn_subscription_managem.Mail.Dispatcher.Events.{
  is_empty, Outcome, sent, panicked, send_error, worker_at, finish_log, receive_from, work,
  is_empty, worker, step, go_to,
}
use vpn_subscription_managem.Mail.Dispatcher.Lifecycle.{
  IsSound, owner, busy, owns, fits, all_fit, all_fit-set_phase, fits_at, has_crew-set_phase,
  all_below-set_phase, all_fit-empty, all_fit-filled,
}

-- The log is no part of the invariant.
pub with_logs : (l : Log) (d : Dispatcher) → IsSound d → IsSound (record d { logs = l })
with_logs l d h = record {
  fit = h.fit;
  context = h.context;
  drained = h.drained;
  crew = h.crew;
  below = h.below;
  quiet = h.quiet;
  final = h.final;
  held = h.held;
  halted = h.halted;
}

-- A worker has gone where it may stand.
go_to-IsSound :
    (d : Dispatcher) (i : ℕ) (p : Phase) {w : Worker}
    → IsSound d
    → worker_at i d.workers ≡ some w
    → fits (owns (owner d) w.generation) (busy d.life) (is_empty d.queue) p ≡ true
    → IsSound (go_to i p d)
go_to-IsSound d i p h at f = record {
  fit = all_fit-set_phase (owner d) (busy d.life) (is_empty d.queue) i p d.workers at f h.fit;
  context = h.context;
  drained = h.drained;
  crew = has_crew-set_phase (owner d) i p d.workers ∙ h.crew;
  below = all_below-set_phase d.next_generation i p d.workers ∙ h.below;
  quiet = h.quiet;
  final = h.final;
  held = h.held;
  halted = h.halted;
}

-- A job has left the queue.
received-IsSound :
    (d : Dispatcher) (j : Job) (js : List Job)
    → d.queue ≡ j ∷ js
    → IsSound d
    → IsSound (record d { queue = js })
received-IsSound d j js q h = record {
  fit = fit_less js (rw q at h.fit);
  context = h.context;
  drained = λ o. absurd (ground (arith, h.drained o));
  crew = h.crew;
  below = h.below;
  quiet = h.quiet;
  final = h.final;
  held = h.held;
  halted = h.halted;
}
  where
    fit_less :
        (js : List Job)
        → all_fit (owner d) (busy d.life) false d.workers ≡ true
        → all_fit (owner d) (busy d.life) (is_empty js) d.workers ≡ true
    fit_less [] f = all_fit-empty (owner d) (busy d.life) false d.workers f
    fit_less (k ∷ ks) f = f

pub reject_unavailable-IsSound :
    (now : ℕ) (m : Mail) (d : Dispatcher) → IsSound d → IsSound (reject_unavailable now m d).1
unfolding reject_unavailable
reject_unavailable-IsSound now m d h = with_logs _ d h

pub reject_before_enqueue-IsSound :
    (now : ℕ) (m : Mail) (d : Dispatcher) → IsSound d → IsSound (reject_before_enqueue now m d).1
unfolding reject_before_enqueue reject_unavailable
reject_before_enqueue-IsSound now m d h = elim (Bool-cases (unavailable d)) [
  | inl shut ↦ rw shut (with_logs _ d h)
  | inr ready ↦ rw ready (with_logs _ d h)
]

-- Nothing enters the queue but between a start and the pause or stop after it.
queued-IsSound :
    (d : Dispatcher) (l : Log) (js : List Job)
    → unavailable d ≡ false
    → IsSound d
    → IsSound (record d { logs = l; queue = js })
queued-IsSound d l js ready h =
    let calm : busy d.life ≡ false = ground (arith, h.quiet) in
    record {
      fit =
          rw calm (
            all_fit-filled (owner d) (is_empty d.queue) (is_empty js) d.workers (rw calm at h.fit));
      context = h.context;
      drained = λ o. absurd (ground arith);
      crew = h.crew;
      below = h.below;
      quiet = h.quiet;
      final = h.final;
      held = h.held;
      halted = h.halted;
    }

pub enqueue_prepared-IsSound :
    (now : ℕ) (m : Mail) (v : Values) (d : Dispatcher)
    → IsSound d
    → IsSound (enqueue_prepared now m v d).1
unfolding enqueue_prepared reject_unavailable
enqueue_prepared-IsSound now m v d h = elim (Bool-cases (unavailable d)) [
  | inl shut ↦ rw shut (with_logs _ d h)
  | inr ready ↦ elim (Bool-cases (ltb (length d.queue) 100)) [
    | inl room ↦ rw (ready, room) (queued-IsSound d _ _ ready h)
    | inr full ↦ rw (ready, full) (with_logs _ d h)
  ]
]

go_to-finish_log :
    (now id : ℕ) (ended : Bool) (o : Outcome) (d : Dispatcher) (i : ℕ) {w : Worker}
    → IsSound d
    → worker_at i d.workers ≡ some w
    → owns (owner d) w.generation ≡ true
    → IsSound (go_to i waiting (finish_log now id ended o d))
unfolding finish_log fits
go_to-finish_log now id ended sent d i h at f = go_to-IsSound _ i waiting (with_logs _ d h) at f
go_to-finish_log now id ended panicked d i h at f = go_to-IsSound _ i waiting (with_logs _ d h) at f
go_to-finish_log now id ended (send_error stage) d i h at f =
    go_to-IsSound _ i waiting (with_logs _ d h) at f

go_to-receive_from :
    (d : Dispatcher) (i : ℕ) (to : Job → Phase) (q : List Job) {w : Worker}
    → d.queue ≡ q
    → IsSound d
    → worker_at i d.workers ≡ some w
    → ((j : Job) (e : Bool) → fits (owns (owner d) w.generation) (busy d.life) e (to j) ≡ true)
    → IsSound (receive_from i to q d)
unfolding receive_from
go_to-receive_from d i to [] q h at f = h
go_to-receive_from d i to (j ∷ js) q h at f =
    go_to-IsSound (record d { queue = js }) i (to j) (received-IsSound d j js q h) at
      (f j (is_empty js))

-- The context of a worker that is at work is the one of its generation.
owns-context :
    (d : Dispatcher) (o : Option ℕ) (g : ℕ)
    → IsSound d
    → owner d ≡ o
    → owns o g ≡ true
    → d.cancelled g ≡ busy d.life
owns-context d none g h e own = cc
owns-context d (some k) g h e own = ap d.cancelled ((==_iff g k).0 own) ∙ h.context k e

module _ (now : ℕ) (d : Dispatcher) (h : IsSound d) (i : ℕ) (done : Bool) (o : Outcome) (w : Worker)
    (at : worker_at i d.workers ≡ some w) where
  work-IsSound :
      (p : Phase)
      → fits (owns (owner d) w.generation) (busy d.life) (is_empty d.queue) p ≡ true
      → (owns (owner d) w.generation ≡ true → d.cancelled w.generation ≡ busy d.life)
      → IsSound (work now i done o w.generation p d)
  unfolding work fits
  work-IsSound waiting f c = elim (Bool-cases done) [
    | inl t ↦ rw t (elim (Bool-cases (d.cancelled w.generation)) [
      | inl x ↦ rw x (go_to-IsSound d i draining h at (ground (arith, c f)))
      | inr x ↦ rw x h
    ])
    | inr t ↦ rw t (go_to-receive_from d i received d.queue refl h at (λ j e. f))
  ]
  work-IsSound (received j) f c = elim (Bool-cases (d.cancelled w.generation)) [
    | inl x ↦ rw x (go_to-IsSound _ i draining (with_logs _ d h) at (ground (arith, c f)))
    | inr x ↦ rw x (go_to-IsSound d i (starting j) h at f)
  ]
  work-IsSound (starting j) f c = go_to-IsSound _ i (working j) (with_logs _ d h) at f
  work-IsSound (working j) f c =
      go_to-finish_log now j.log_id (d.cancelled w.generation) o d i h at f
  work-IsSound draining f c = elim (Bool-cases (is_empty d.queue)) [
    | inl x ↦ rw x (go_to-IsSound d i exited h at (ground arith))
    | inr x ↦ rw x (go_to-receive_from d i dropping d.queue refl h at (λ j e. f))
  ]
  work-IsSound (dropping j) f c = go_to-IsSound _ i draining (with_logs _ d h) at f
  work-IsSound exited f c = h

pub worker-IsSound :
    (now i : ℕ) (done : Bool) (o : Outcome) (d : Dispatcher)
    → IsSound d
    → IsSound (step (worker now i done o) d)
unfolding step
worker-IsSound now i done o d h = elim (Option-cases (worker_at i d.workers)) [
  | inl (w, at) ↦
      rw (at, step)
        (work-IsSound now d h i done o w at w.phase
          (fits_at (owner d) (busy d.life) (is_empty d.queue) i d.workers at h.fit)
          (owns-context d (owner d) w.generation h refl))
  | inr missing ↦ rw (missing, step) h
]
