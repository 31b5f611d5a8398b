-- ===== src/Mail/Dispatcher/Lifecycle.antt =====
-- The invariant of the workers and the callers of the life cycle (mail/dispatcher.go): the generation at work, is_empty, its context, the queue and the pause.
use Prim.Native.Nat.{◌≤◌}
use vpn_subscription_managem.Base.{
  ℕ, zero, suc, ◌≡◌, refl, Bool, true, false, ◌||◌, ◌&&◌, not, &&-left, &&-right, &&-both, List, [],
  ◌∷◌, ◌++◌, Option, none, some, ◌==◌, ltb, arith,
}
use vpn_subscription_managem.Mail.Dispatcher.{
  Dispatcher, Worker, Phase, waiting, draining, exited, received, starting, working, dropping, Life,
  free, pausing, stopping,
}
use vpn_subscription_managem.Mail.Dispatcher.Events.{
  is_empty, worker_at, set_phase, has_exited, all_exited,
}

-- The generation that the workers at work belong to.
abbrev pub owner : Dispatcher → Option ℕ
owner d = elim d.life [ free ↦ d.generation | pausing g ↦ g | stopping g ↦ g ]

-- Someone waits for the workers.
abbrev pub busy : Life → Bool
busy free = false
busy _ = true

abbrev pub owns : Option ℕ → ℕ → Bool
owns none n = false
owns (some g) n = n == g

-- Where a worker may stand, its generation being at work or not, cancelled or not, and the queue
-- being empty or not.
unfoldable pub fits : Bool → Bool → Bool → Phase → Bool
fits own ended empty draining = own && ended
fits own ended empty (dropping j) = own && ended
fits own ended empty exited = not own || (ended && empty)
fits own ended empty _ = own

unfoldable pub all_fit : Option ℕ → Bool → Bool → List Worker → Bool
all_fit o ended empty [] = true
all_fit o ended empty (w ∷ ws) =
    fits (owns o w.generation) ended empty w.phase && all_fit o ended empty ws

unfoldable pub has_crew : Option ℕ → List Worker → Bool
has_crew none ws = true
has_crew (some g) [] = false
has_crew (some g) (w ∷ ws) = w.generation == g || has_crew (some g) ws

unfoldable pub all_below : ℕ → List Worker → Bool
all_below n [] = true
all_below n (w ∷ ws) = ltb w.generation n && all_below n ws

pub record IsSound (d : Dispatcher) : Type 0 where
  pub fit : all_fit (owner d) (busy d.life) (is_empty d.queue) d.workers ≡ true
  pub context : (g : ℕ) → owner d ≡ some g → d.cancelled g ≡ busy d.life
  pub drained : owner d ≡ none → d.queue ≡ []
  pub crew : has_crew (owner d) d.workers ≡ true
  pub below : all_below d.next_generation d.workers ≡ true
  pub quiet : busy d.life ≡ true → d.paused ≡ true
  pub final : d.stopped ≡ true → (d.paused ≡ true) × (d.generation ≡ none)
  pub held : (g : Option ℕ) → d.life ≡ pausing g → d.generation ≡ g
  pub halted : (g : Option ℕ) → d.life ≡ stopping g → d.stopped ≡ true

-- Where one worker has gone somewhere else, it is enough that the new place fits.
pub all_fit-set_phase :
    (o : Option ℕ) (e q : Bool) (i : ℕ) (p : Phase) (ws : List Worker) {w : Worker}
    → worker_at i ws ≡ some w
    → fits (owns o w.generation) e q p ≡ true
    → all_fit o e q ws ≡ true
    → all_fit o e q (set_phase i p ws) ≡ true
unfolding all_fit set_phase worker_at
all_fit-set_phase o e q i p [] at h all = cc
all_fit-set_phase o e q zero p (v ∷ ws) {w} at h all = ground arith
all_fit-set_phase o e q (suc i) p (v ∷ ws) {w} at h all =
    ground (arith, all_fit-set_phase o e q i p ws {w = w} at h)

pub fits_at :
    (o : Option ℕ) (e q : Bool) (i : ℕ) (ws : List Worker) {w : Worker}
    → worker_at i ws ≡ some w
    → all_fit o e q ws ≡ true
    → fits (owns o w.generation) e q w.phase ≡ true
unfolding all_fit worker_at
fits_at o e q i [] at all = cc
fits_at o e q zero (v ∷ ws) {w} at all = ground arith
fits_at o e q (suc i) (v ∷ ws) {w} at all = ground (arith, fits_at o e q i ws {w = w} at)

pub has_crew-set_phase :
    (o : Option ℕ) (i : ℕ) (p : Phase) (ws : List Worker)
    → has_crew o (set_phase i p ws) ≡ has_crew o ws
unfolding has_crew set_phase
has_crew-set_phase none i p ws = refl
has_crew-set_phase (some g) i p [] = refl
has_crew-set_phase (some g) zero p (v ∷ ws) = refl
has_crew-set_phase (some g) (suc i) p (v ∷ ws) = ground (arith, has_crew-set_phase (some g) i p ws)

pub all_below-set_phase :
    (n i : ℕ) (p : Phase) (ws : List Worker) → all_below n (set_phase i p ws) ≡ all_below n ws
unfolding all_below set_phase
all_below-set_phase n i p [] = refl
all_below-set_phase n zero p (v ∷ ws) = refl
all_below-set_phase n (suc i) p (v ∷ ws) = ground (arith, all_below-set_phase n i p ws)

-- The queue may become empty at any time, and fill while the generation is not cancelled.
pub all_fit-empty :
    (o : Option ℕ) (e q : Bool) (ws : List Worker)
    → all_fit o e q ws ≡ true
    → all_fit o e true ws ≡ true
unfolding all_fit fits
all_fit-empty o e q [] h = refl
all_fit-empty o e q (w ∷ ws) h = ground (arith, all_fit-empty o e q ws)

pub all_fit-filled :
    (o : Option ℕ) (q q' : Bool) (ws : List Worker)
    → all_fit o false q ws ≡ true
    → all_fit o false q' ws ≡ true
unfolding all_fit fits
all_fit-filled o q q' [] h = refl
all_fit-filled o q q' (w ∷ ws) h = ground (arith, all_fit-filled o q q' ws)

pub all_fit-cancelled :
    (o : Option ℕ) (q : Bool) (ws : List Worker)
    → all_fit o false q ws ≡ true
    → all_fit o true q ws ≡ true
unfolding all_fit fits
all_fit-cancelled o q [] h = refl
all_fit-cancelled o q (w ∷ ws) h = ground (arith, all_fit-cancelled o q ws)

fits-exited :
    (own e q e' q' : Bool) (p : Phase)
    → (not own || has_exited p) ≡ true
    → fits own e q p ≡ true
    → fits false e' q' p ≡ true
unfolding fits has_exited
fits-exited own e q e' q' waiting x h = ground arith
fits-exited own e q e' q' draining x h = ground arith
fits-exited own e q e' q' exited x h = refl
fits-exited own e q e' q' (received j) x h = ground arith
fits-exited own e q e' q' (starting j) x h = ground arith
fits-exited own e q e' q' (working j) x h = ground arith
fits-exited own e q e' q' (dropping j) x h = ground arith

-- When all workers of the generation at work have returned, none is at work any more.
pub all_fit-all_exited :
    (o : Option ℕ) (e q e' q' : Bool) (ws : List Worker)
    → all_exited o ws ≡ true
    → all_fit o e q ws ≡ true
    → all_fit none e' q' ws ≡ true
unfolding all_fit all_exited
all_fit-all_exited o e q e' q' [] x h = refl
all_fit-all_exited none e q e' q' (w ∷ ws) x h =
    let f = fits false e q w.phase in
    &&-both (fits false e' q' w.phase) (all_fit none e' q' ws)
      (fits-exited false e q e' q' w.phase refl (&&-left f (all_fit none e q ws) h))
      (all_fit-all_exited none e q e' q' ws refl (&&-right f (all_fit none e q ws) h))
all_fit-all_exited (some g) e q e' q' (w ∷ ws) x h =
    let own = w.generation == g in
    let f = fits own e q w.phase in
    let gone = not own || has_exited w.phase in
    &&-both (fits false e' q' w.phase) (all_fit none e' q' ws)
      (fits-exited own e q e' q' w.phase (&&-left gone (all_exited (some g) ws) x)
        (&&-left f (all_fit (some g) e q ws) h))
      (all_fit-all_exited (some g) e q e' q' ws (&&-right gone (all_exited (some g) ws) x)
        (&&-right f (all_fit (some g) e q ws) h))

-- And one of them left an empty queue.
pub empty-all_exited :
    (g : ℕ) (e q : Bool) (ws : List Worker)
    → has_crew (some g) ws ≡ true
    → all_exited (some g) ws ≡ true
    → all_fit (some g) e q ws ≡ true
    → q ≡ true
unfolding all_fit fits all_exited has_exited has_crew
empty-all_exited g e q [] c x h = cc
empty-all_exited g e q (w ∷ ws) c x h = ground (arith, empty-all_exited g e q ws)

-- A generation that is new owns none of the workers there were.
pub all_fit-start :
    (g : ℕ) (e q q' : Bool) (ws new : List Worker)
    → all_below g ws ≡ true
    → all_fit none e q ws ≡ true
    → all_fit (some g) false q' new ≡ true
    → all_fit (some g) false q' (ws ++ new) ≡ true
unfolding all_fit fits all_below
all_fit-start g e q q' [] new b h n = n
all_fit-start g e q q' (w ∷ ws) new b h n = ground (arith, all_fit-start g e q q' ws new)

pub all_below-start :
    (n m : ℕ) (ws new : List Worker)
    → n ≤ m
    → all_below n ws ≡ true
    → all_below m new ≡ true
    → all_below m (ws ++ new) ≡ true
unfolding all_below
all_below-start n m [] new le b h = h
all_below-start n m (w ∷ ws) new le b h = ground (arith, all_below-start n m ws new le)

pub has_crew-start :
    (g : ℕ) (ws new : List Worker)
    → has_crew (some g) new ≡ true
    → has_crew (some g) (ws ++ new) ≡ true
unfolding has_crew
has_crew-start g [] new h = h
has_crew-start g (w ∷ ws) new h = ground (arith, has_crew-start g ws new h)
