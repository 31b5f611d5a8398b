-- ===== src/Mail/Dispatcher/Calls.antt =====
-- What the calls of the life cycle do to the invariant of the dispatcher (mail/dispatcher.go).
use vpn_subscription_managem.Base.{
  ℕ, suc, ◌≡◌, refl, Bool, true, false, ==_self, some-injective, List, [], ◌∷◌, Option, none, some,
  if◌then◌else◌, arith,
}
use vpn_subscription_managem.Mail.Dispatcher.{
  is_none, Dispatcher, Worker, waiting, Job, Life, free, pausing, stopping,
}
use vpn_subscription_managem.Mail.Dispatcher.Events.{
  is_empty, is_empty, all_exited, start_generation, pause_begin, pause_end, resume,
  resume_after_clear, stop_begin, stop_end, same_generation, cancel,
}
use vpn_subscription_managem.Mail.Dispatcher.Lifecycle.{
  IsSound, owner, busy, fits, all_fit, has_crew, all_below, all_fit-cancelled, all_fit-all_exited,
  empty-all_exited, all_fit-start, all_below-start, has_crew-start,
}
use vpn_subscription_managem.Mail.Dispatcher.Queue.{with_logs}

-- A generation starts when none is at work and nobody waits.
start_generation-IsSound :
    (d : Dispatcher)
    → IsSound d
    → d.life ≡ free
    → d.generation ≡ none
    → d.stopped ≡ false
    → IsSound (start_generation d)
unfolding start_generation
start_generation-IsSound d h idle idle_generation going =
    let g = d.next_generation in
    let w : Worker = record { generation = g; phase = waiting } in
    record {
      fit = rw idle (
          all_fit-start g false (is_empty d.queue) (is_empty d.queue) d.workers (w ∷ w ∷ []) h.below
            (rw (idle, idle_generation) at h.fit) (unfold all_fit fits in ground arith));
      context = λ k e. ground (arith, idle);
      drained = λ e. ground (arith, idle);
      crew = rw idle (has_crew-start g d.workers (w ∷ w ∷ []) (unfold has_crew in ground arith));
      below =
          all_below-start g (suc g) d.workers (w ∷ w ∷ []) (omega arith) h.below
            (unfold all_below in ground arith);
      quiet = λ b. ground (arith, idle);
      final = λ s. absurd (ground (arith, s));
      held = λ k e. absurd (ground (arith, idle));
      halted = λ k e. absurd (ground (arith, idle));
    }

IsSound-if :
    (b : Bool) (x y : Dispatcher)
    → (b ≡ true → IsSound x)
    → (b ≡ false → IsSound y)
    → IsSound (if b then x else y)
IsSound-if true x y f g = f refl
IsSound-if false x y f g = g refl

is_none-eq : (o : Option ℕ) → is_none o ≡ true → o ≡ none
is_none-eq none h = refl
is_none-eq (some n) h = cc

pub resume-IsSound : (d : Dispatcher) → IsSound d → d.life ≡ free → IsSound (resume d)
unfolding resume
resume-IsSound d h idle =
    IsSound-if d.stopped d _ (λ s. h)
      (λ s.
        IsSound-if (is_none d.generation) (start_generation d) _
          (λ e. start_generation-IsSound d h idle (is_none-eq d.generation e) s)
          (λ e. record {
            fit = h.fit;
            context = h.context;
            drained = h.drained;
            crew = h.crew;
            below = h.below;
            quiet = λ b. absurd (ground (arith, idle));
            final = λ t. absurd (ground arith);
            held = h.held;
            halted = h.halted;
          }))

pub resume_after_clear-IsSound :
    (d : Dispatcher) → IsSound d → d.life ≡ free → IsSound (resume_after_clear d)
unfolding resume_after_clear
resume_after_clear-IsSound d h idle =
    IsSound-if d.stopped d _ (λ s. h)
      (λ s.
        IsSound-if (is_none d.generation) _ d
          (λ e. start_generation-IsSound _ (with_logs _ d h) idle (is_none-eq d.generation e) s)
          (λ e. h))

cancel-context : (o : Option ℕ) (c : ℕ → Bool) (g : ℕ) → o ≡ some g → cancel o c g ≡ true
cancel-context none c g e = cc
cancel-context (some k) c g e = ground (arith, some-injective e)

pub pause_begin-IsSound : (d : Dispatcher) → IsSound d → d.life ≡ free → IsSound (pause_begin d)
unfolding pause_begin
pause_begin-IsSound d h idle =
    IsSound-if d.stopped d _ (λ s. h)
      (λ s. record {
        fit = all_fit-cancelled d.generation (is_empty d.queue) d.workers (rw idle at h.fit);
        context = λ g e. cancel-context d.generation d.cancelled g e;
        drained = λ e. h.drained (rw idle e);
        crew = rw idle at h.crew;
        below = h.below;
        quiet = λ b. refl;
        final = λ t. absurd (ground arith);
        held = λ g e. ground arith;
        halted = λ g e. absurd (ground arith);
      })

pub stop_begin-IsSound : (d : Dispatcher) → IsSound d → d.life ≡ free → IsSound (stop_begin d)
unfolding stop_begin
stop_begin-IsSound d h idle =
    IsSound-if d.stopped _ _
      (λ s. record {
        fit = all_fit-cancelled d.generation (is_empty d.queue) d.workers (rw idle at h.fit);
        context = λ g e. absurd (ground (arith, (h.final s).1));
        drained = λ e. h.drained (rw idle e);
        crew = rw idle at h.crew;
        below = h.below;
        quiet = λ b. (h.final s).0;
        final = h.final;
        held = λ g e. absurd (ground arith);
        halted = λ g e. s;
      })
      (λ s. record {
        fit = all_fit-cancelled d.generation (is_empty d.queue) d.workers (rw idle at h.fit);
        context = λ g e. cancel-context d.generation d.cancelled g e;
        drained = λ e. h.drained (rw idle e);
        crew = rw idle at h.crew;
        below = h.below;
        quiet = λ b. refl;
        final = λ t. (refl, refl);
        held = λ g e. absurd (ground arith);
        halted = λ g e. refl;
      })

is_empty-eq : (js : List Job) → is_empty js ≡ true → js ≡ []
is_empty-eq [] h = refl
is_empty-eq (j ∷ js) h = cc

pub empty_queue :
    (o : Option ℕ) (d : Dispatcher)
    → IsSound d
    → owner d ≡ o
    → all_exited o d.workers ≡ true
    → d.queue ≡ []
empty_queue none d h own x = h.drained own
empty_queue (some g) d h own x = is_empty-eq d.queue (
    empty-all_exited g (busy d.life) (is_empty d.queue) d.workers (rw own at h.crew) x
      (rw own at h.fit))

-- Where the workers that the caller waits for have returned, no worker is at work.
released :
    (d : Dispatcher) (o n : Option ℕ)
    → IsSound d
    → owner d ≡ o
    → all_exited o d.workers ≡ true
    → n ≡ none
    → IsSound (record d { generation = n; life = free })
released d o n h own x e = record {
  fit = rw e (
      all_fit-all_exited o (busy d.life) (is_empty d.queue) false (is_empty d.queue) d.workers x
        (rw own at h.fit));
  context = λ g s. absurd (ground arith);
  drained = λ s. empty_queue o d h own x;
  crew = rw e (unfold has_crew in refl);
  below = h.below;
  quiet = λ b. absurd (ground arith);
  final = λ s. ((h.final s).0, e);
  held = λ g s. absurd (ground arith);
  halted = λ g s. absurd (ground arith);
}

same_generation_self : (g : Option ℕ) → same_generation g g ≡ true
same_generation_self none = refl
same_generation_self (some g) = ==_self g

pause_end-IsSound :
    (g : Option ℕ) (d : Dispatcher) → IsSound d → d.life ≡ pausing g → IsSound (pause_end g d)
unfolding pause_end
pause_end-IsSound g d h waits =
    IsSound-if (all_exited g d.workers) _ d
      (λ x. released d g _ h (rw waits refl) x (rw (h.held g waits, same_generation_self g) refl))
      (λ x. h)

stop_end-IsSound :
    (g : Option ℕ) (d : Dispatcher) → IsSound d → d.life ≡ stopping g → IsSound (stop_end g d)
unfolding stop_end
stop_end-IsSound g d h waits =
    IsSound-if (all_exited g d.workers) _ d
      (λ x. released d g d.generation h (rw waits refl) x (h.final (h.halted g waits)).1) (λ x. h)

pub when_free-IsSound :
    (f : Dispatcher → Dispatcher) (d : Dispatcher) (l : Life)
    → d.life ≡ l
    → IsSound d
    → (d.life ≡ free → IsSound (f d))
    → IsSound (elim l [ free ↦ f d | pausing g ↦ d | stopping g ↦ d ])
when_free-IsSound f d free e h k = k e
when_free-IsSound f d (pausing g) e h k = h
when_free-IsSound f d (stopping g) e h k = h

pub return-IsSound :
    (d : Dispatcher) (l : Life)
    → d.life ≡ l
    → IsSound d
    → IsSound (elim l [ free ↦ d | pausing g ↦ pause_end g d | stopping g ↦ stop_end g d ])
return-IsSound d free e h = h
return-IsSound d (pausing g) e h = pause_end-IsSound g d h e
return-IsSound d (stopping g) e h = stop_end-IsSound g d h e
