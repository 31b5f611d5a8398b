-- ===== src/Pool/TaskRows.antt =====
-- How the rows of the synchronisation tasks change (pool/sync.go).
use vpn_subscription_managem.Base.{
  ℕ, ◌≡◌, ◌≤◌, refl, sym, ◌∙◌, Bool, true, false, not, ◌&&◌, List, [], ◌∷◌, ◌++◌, Text, ◌==◌,
  Option, none, some, Option-cases, if◌then◌else◌, map, keep_if, arith, Bool-cases, inl, inr, ◌⊎◌,
}
use vpn_subscription_managem.Pool.Task.{
  SyncStatus, failed, SyncTask, Cause, is_running, has_running,
}
use vpn_subscription_managem.Pool.TaskEnd.{
  end_row, cancel_row, end_task, is_old, delete_old, is_finished, interrupt_row, clean_task,
  is_past,
}

-- A row stays, or it was running and ends, as failed if its context has a cause.
pub data Moves (causes : ℕ → Option Cause) (t u : SyncTask) : Type 0 where
  stays : t ≡ u → Moves causes t u
  ends :
      is_running t.status ≡ true
      → u.id ≡ t.id
      → u.pool_id ≡ t.pool_id
      → is_running u.status ≡ false
      → (causes t.id ≡ none) ⊎ (u.status ≡ failed)
      → Moves causes t u

-- Row by row; only a row with an end is deleted.
pub data Evolves (causes : ℕ → Option Cause) : List SyncTask → List SyncTask → Type 0 where
  no_rows : Evolves causes [] []
  moved :
      {t u : SyncTask} {ts us : List SyncTask}
      → Moves causes t u
      → Evolves causes ts us
      → Evolves causes (t ∷ ts) (u ∷ us)
  deleted :
      {t : SyncTask} {ts us : List SyncTask} (at : ℕ)
      → t.finished_at ≡ some at
      → Evolves causes ts us
      → Evolves causes (t ∷ ts) us

-- Row by row, the texts are cleaned; a row with an end may be deleted.
pub data Tidied : List SyncTask → List SyncTask → Type 0 where
  no_texts : Tidied [] []
  cleaned :
      {t u : SyncTask} {ts us : List SyncTask}
      → u.id ≡ t.id
      → u.pool_id ≡ t.pool_id
      → u.status ≡ t.status
      → u.finished_at ≡ t.finished_at
      → Tidied ts us
      → Tidied (t ∷ ts) (u ∷ us)
  past :
      {t : SyncTask} {ts us : List SyncTask} (at : ℕ)
      → t.finished_at ≡ some at
      → Tidied ts us
      → Tidied (t ∷ ts) us

-- A change is an evolution of the rows, one new row of a pool that has no running one, a cleaning of
-- the texts with the deletion of rows with an end, or the deletion of all rows of a pool.
pub data Change (causes : ℕ → Option Cause) (ts us : List SyncTask) : Type 0 where
  evolved : Evolves causes ts us → Change causes ts us
  started :
      (t : SyncTask)
      → is_running t.status ≡ true
      → has_running t.pool_id ts ≡ false
      → us ≡ ts ++ t ∷ []
      → Change causes ts us
  tidied : Tidied ts us → Change causes ts us
  pool_deleted : (pool : ℕ) → us ≡ keep_if (λ t. not (t.pool_id == pool)) ts → Change causes ts us

pub Evolves-same : (causes : ℕ → Option Cause) (ts : List SyncTask) → Evolves causes ts ts
Evolves-same causes [] = no_rows
Evolves-same causes (t ∷ ts) = moved (stays refl) (Evolves-same causes ts)

-- One row under the update that ends a task.
abbrev ended : ℕ → (SyncTask → SyncTask) → SyncTask → SyncTask
ended task f t = if t.id == task && is_running t.status then f t else t

-- The update of a row that ends a task, with a status that its context allows.
pub record IsEnding (causes : ℕ → Option Cause) (task : ℕ) (f : SyncTask → SyncTask) : Type 0 where
  pub same_id : (t : SyncTask) → (f t).id ≡ t.id
  pub same_pool : (t : SyncTask) → (f t).pool_id ≡ t.pool_id
  pub at_rest : (t : SyncTask) → is_running (f t).status ≡ false
  pub cause : (t : SyncTask) → (causes task ≡ none) ⊎ ((f t).status ≡ failed)

ended-Moves :
    (causes : ℕ → Option Cause) (task : ℕ) (f : SyncTask → SyncTask) (t : SyncTask)
    → IsEnding causes task f
    → Moves causes t (ended task f t)
ended-Moves causes task f t h = elim (Bool-cases (t.id == task && is_running t.status)) [
  | inr e ↦ rw e (stays refl)
  | inl e ↦
      let same : t.id ≡ task = ground (arith, e) in
      let runs : is_running t.status ≡ true = ground (arith, e) in
      rw e (ends runs (h.same_id t) (h.same_pool t) (h.at_rest t) (rw (sym same) at (h.cause t)))
]

pub end_task-Evolves :
    (causes : ℕ → Option Cause) (task : ℕ) (f : SyncTask → SyncTask) (ts : List SyncTask)
    → IsEnding causes task f
    → Evolves causes ts (end_task task f ts)
unfolding end_task
end_task-Evolves causes task f [] h = no_rows
end_task-Evolves causes task f (t ∷ ts) h =
    moved (ended-Moves causes task f t h) (end_task-Evolves causes task f ts h)

pub end_row-IsEnding :
    (causes : ℕ → Option Cause) (task : ℕ) (status : SyncStatus) (per_url message : Text) (now : ℕ)
    → is_running status ≡ false
    → (causes task ≡ none) ⊎ (status ≡ failed)
    → IsEnding causes task (end_row status per_url message now)
end_row-IsEnding causes task status per_url message now h c = record {
  same_id = λ t. refl;
  same_pool = λ t. refl;
  at_rest = λ t. h;
  cause = λ t. c;
}

pub cancel_row-IsEnding :
    (causes : ℕ → Option Cause) (task now : ℕ) → IsEnding causes task (cancel_row now)
unfolding is_running
cancel_row-IsEnding causes task now = record {
  same_id = λ t. refl;
  same_pool = λ t. refl;
  at_rest = λ t. refl;
  cause = λ t. inr refl;
}

-- Deleting rows with an end, of which none ended in this change.
kept :
    (causes : ℕ → Option Cause) (p : SyncTask → Bool) (t u : SyncTask) (ts us : List SyncTask)
    → Moves causes t u
    → (p u ≡ false → (at : ℕ) × (t.finished_at ≡ some at))
    → Evolves causes ts us
    → Evolves causes (t ∷ ts) (if p u then u ∷ us else us)
kept causes p t u ts us m d rest = elim (Bool-cases (p u)) [
  | inl e ↦ rw e (moved m rest)
  | inr e ↦ let (at, end) = d e in rw e (deleted at end rest)
]

pub old_end :
    (pool cutoff : ℕ) (t : SyncTask)
    → not (is_old pool cutoff t) ≡ false
    → (at : ℕ) × (t.finished_at ≡ some at)
old_end pool cutoff t o = elim (Option-cases t.finished_at) [
  | inl (at, e) ↦ (at, e)
  | inr e ↦ ground (arith, o, e)
]

pub finished_end :
    (pool : ℕ) (t : SyncTask)
    → not (t.pool_id == pool && is_finished t) ≡ false
    → (at : ℕ) × (t.finished_at ≡ some at)
unfolding is_finished
finished_end pool t o = elim (Option-cases t.finished_at) [
  | inl (at, e) ↦ (at, e)
  | inr e ↦ ground (arith, o, e)
]

failed_ends : is_running failed ≡ false
unfolding is_running
failed_ends = refl

interrupted :
    (causes : ℕ → Option Cause) (now : ℕ) (t : SyncTask) → Moves causes t (interrupt_row now t)
unfolding interrupt_row
interrupted causes now t = elim (Bool-cases (is_running t.status)) [
  | inl r ↦ rw r (ends r refl refl failed_ends (inr refl))
  | inr r ↦ rw r (stays refl)
]

ended-old :
    (task : ℕ) (status : SyncStatus) (per_url message : Text) (now pool cutoff : ℕ) (t : SyncTask)
    → cutoff ≤ now
    → not (is_old pool cutoff (ended task (end_row status per_url message now) t)) ≡ false
    → (at : ℕ) × (t.finished_at ≡ some at)
ended-old task status per_url message now pool cutoff t l o =
    elim (Bool-cases (t.id == task && is_running t.status)) [
      | inl e ↦ ground (arith, rw e at o)
      | inr e ↦ old_end pool cutoff t (rw e at o)
    ]

pub end_task-delete_old-Evolves :
    (causes : ℕ → Option Cause) (task : ℕ) (status : SyncStatus) (per_url message : Text)
    (now pool cutoff : ℕ) (ts : List SyncTask)
    → IsEnding causes task (end_row status per_url message now)
    → cutoff ≤ now
    → Evolves causes ts
        (delete_old pool cutoff (end_task task (end_row status per_url message now) ts))
unfolding end_task delete_old keep_if
end_task-delete_old-Evolves causes task status per_url message now pool cutoff [] h l = no_rows
end_task-delete_old-Evolves causes task status per_url message now pool cutoff (t ∷ ts) h l =
    kept causes (λ u. not (is_old pool cutoff u)) t
      (ended task (end_row status per_url message now) t) ts _
      (ended-Moves causes task (end_row status per_url message now) t h)
      (ended-old task status per_url message now pool cutoff t l)
      (end_task-delete_old-Evolves causes task status per_url message now pool cutoff ts h l)

pub keep_if-Evolves :
    (causes : ℕ → Option Cause) (p : SyncTask → Bool) (ts : List SyncTask)
    → ((t : SyncTask) → p t ≡ false → (at : ℕ) × (t.finished_at ≡ some at))
    → Evolves causes ts (keep_if p ts)
unfolding keep_if
keep_if-Evolves causes p [] d = no_rows
keep_if-Evolves causes p (t ∷ ts) d =
    kept causes p t t ts (keep_if p ts) (stays refl) (d t) (keep_if-Evolves causes p ts d)

pub interrupt_row-Evolves :
    (causes : ℕ → Option Cause) (now : ℕ) (ts : List SyncTask)
    → Evolves causes ts (map (interrupt_row now) ts)
interrupt_row-Evolves causes now [] = no_rows
interrupt_row-Evolves causes now (t ∷ ts) =
    moved (interrupted causes now t) (interrupt_row-Evolves causes now ts)

pub Tidied-same : (ts : List SyncTask) → Tidied ts ts
Tidied-same [] = no_texts
Tidied-same (t ∷ ts) = cleaned refl refl refl refl (Tidied-same ts)

pub Tidied-texts :
    (per_url message : Text → Text) (ts : List SyncTask)
    → Tidied ts (map (clean_task per_url message) ts)
Tidied-texts per_url message [] = no_texts
Tidied-texts per_url message (t ∷ ts) =
    cleaned refl refl refl refl (Tidied-texts per_url message ts)

past_end :
    (cutoff : ℕ) (t : SyncTask)
    → not (is_past cutoff t) ≡ false
    → (at : ℕ) × (t.finished_at ≡ some at)
past_end cutoff t o = elim (Option-cases t.finished_at) [
  | inl (at, e) ↦ (at, e)
  | inr e ↦ ground (arith, o, e)
]

-- The rows after the cleaning, without those that ended before the cutoff.
pub Tidied-past :
    (cutoff : ℕ) (ts us : List SyncTask)
    → Tidied ts us
    → Tidied ts (keep_if (λ t. not (is_past cutoff t)) us)
unfolding keep_if
Tidied-past cutoff [] [] no_texts = no_texts
Tidied-past cutoff [] (u ∷ us) x = elim x [ ]
Tidied-past cutoff (t ∷ ts) (u ∷ us) (cleaned i p s f rest) =
    elim (Bool-cases (not (is_past cutoff u))) [
      | inl e ↦ rw e (cleaned i p s f (Tidied-past cutoff ts us rest))
      | inr e ↦
          let (at, end) = past_end cutoff u e in
          rw e (past at (sym f ∙ end) (Tidied-past cutoff ts us rest))
    ]
Tidied-past cutoff (t ∷ ts) us (past at e rest) = past at e (Tidied-past cutoff ts us rest)
