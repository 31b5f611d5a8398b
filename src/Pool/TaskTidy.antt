-- ===== src/Pool/TaskTidy.antt =====
-- The rows of the synchronisation tasks under ClearFinishedTasks, CleanupOldTasks and the deletion of
-- a pool (pool/sync.go, pool/sanitize.go, pool/pool.go).
use vpn_subscription_managem.Base.{
  ℕ, ◌≡◌, refl, ap, ◌∙◌, not, ◌&&◌, Text, ◌==◌, keep_if, map, Option, arith, Bool-cases, inl, inr,
  ◌⊎◌, ok, Result,
}
use vpn_subscription_managem.Pool.Task.{
  SyncError, TaskDb, Cause, SyncService, SyncFaults, sync_tx, has_pool, check_pool, delete_tasks,
}
use vpn_subscription_managem.Pool.TaskEnd.{
  is_finished, is_past, clear_body, clear_finished_tasks, clean_task, sanitize_body, cleanup_body,
  cleanup_old_tasks, delete_pool_body, delete_pool,
}
use vpn_subscription_managem.Pool.TaskRows.{
  Change, evolved, tidied, pool_deleted, Tidied, Tidied-same, Tidied-texts, Tidied-past,
  Evolves-same, keep_if-Evolves, finished_end,
}
use vpn_subscription_managem.Pool.TaskSteps.{sync_tx-cases}

clear_body-tasks :
    (fails : SyncFaults) (pool : ℕ) (d : TaskDb)
    → ((clear_body fails pool d).1.tasks ≡ d.tasks)
      ⊎ ((clear_body fails pool d).1.tasks
          ≡ keep_if (λ t. not (t.pool_id == pool && is_finished t)) d.tasks)
unfolding clear_body
clear_body-tasks fails pool d = elim (Bool-cases (fails check_pool)) [
  | inl e ↦ inl (rw e refl)
  | inr e ↦ elim (Bool-cases (has_pool pool d.pools)) [
    | inr k ↦ inl (rw (e, k) refl)
    | inl k ↦ elim (Bool-cases (fails delete_tasks)) [
      | inl g ↦ inl (rw (e, k, g) refl)
      | inr g ↦ inr (rw (e, k, g) refl)
    ]
  ]
]

pub clear_finished_tasks-Change :
    (fails : SyncFaults) (pool : ℕ) (s : SyncService) (causes : ℕ → Option Cause)
    → Change causes s.db.tasks (clear_finished_tasks fails pool s).db.tasks
unfolding clear_finished_tasks
clear_finished_tasks-Change fails pool s causes = elim (clear_body-tasks fails pool s.db) [
  | inl e ↦ rw e (evolved (Evolves-same causes s.db.tasks))
  | inr e ↦ rw e (
      evolved (
        keep_if-Evolves causes (λ t. not (t.pool_id == pool && is_finished t)) s.db.tasks
          (finished_end pool)))
]

sanitize_body-ok :
    (fails : SyncFaults) (per_url message : Text → Text) (d : TaskDb) (u : Unit {0})
    → (sanitize_body fails per_url message d).0 ≡ ok u
    → (sanitize_body fails per_url message d).1.tasks ≡ map (clean_task per_url message) d.tasks
unfolding sanitize_body
sanitize_body-ok fails per_url message d u h = ground (arith, h)

cleanup_body-ok :
    (fails : SyncFaults) (cutoff : ℕ) (d : TaskDb) (u : Unit {0})
    → (cleanup_body fails cutoff d).0 ≡ ok u
    → (cleanup_body fails cutoff d).1.tasks ≡ keep_if (λ t. not (is_past cutoff t)) d.tasks
unfolding cleanup_body
cleanup_body-ok fails cutoff d u h = ground (arith, h)

delete_pool_body-ok :
    (fails : SyncFaults) (pool : ℕ) (d : TaskDb) (u : Unit {0})
    → (delete_pool_body fails pool d).0 ≡ ok u
    → (delete_pool_body fails pool d).1.tasks ≡ keep_if (λ t. not (t.pool_id == pool)) d.tasks
unfolding delete_pool_body
delete_pool_body-ok fails pool d u h = ground (arith, h)

sanitized-Tidied :
    (fails : SyncFaults) (per_url message : Text → Text) (d : TaskDb)
    → Tidied d.tasks (sync_tx fails (sanitize_body fails per_url message) d).1.tasks
sanitized-Tidied fails per_url message d =
    elim (sync_tx-cases fails (sanitize_body fails per_url message) d) [
      | inr (x, e) ↦ rw e (Tidied-same d.tasks)
      | inl (u, h, e) ↦
          rw (e, sanitize_body-ok fails per_url message d u h)
            (Tidied-texts per_url message d.tasks)
    ]

pub cleanup_old_tasks-Change :
    (texts fails : SyncFaults) (cutoff : ℕ) (per_url message : Text → Text) (s : SyncService)
    (causes : ℕ → Option Cause)
    → Change causes s.db.tasks (cleanup_old_tasks texts fails cutoff per_url message s).db.tasks
unfolding cleanup_old_tasks
cleanup_old_tasks-Change texts fails cutoff per_url message s causes =
    let d = (sync_tx texts (sanitize_body texts per_url message) s.db).1 in
    let clean = sanitized-Tidied texts per_url message s.db in
    tidied (elim (sync_tx-cases fails (cleanup_body fails cutoff) d) [
      | inr (x, e) ↦ rw e clean
      | inl (u, h, e) ↦
          rw (e, cleanup_body-ok fails cutoff d u h) (Tidied-past cutoff s.db.tasks d.tasks clean)
    ])

pub delete_pool-Change :
    (fails : SyncFaults) (pool : ℕ) (s : SyncService) (causes : ℕ → Option Cause)
    → Change causes s.db.tasks (delete_pool fails pool s).db.tasks
unfolding delete_pool
delete_pool-Change fails pool s causes =
    elim (sync_tx-cases fails (delete_pool_body fails pool) s.db) [
      | inr (x, e) ↦ rw e (evolved (Evolves-same causes s.db.tasks))
      | inl (u, h, e) ↦ pool_deleted pool (
          ap (λ (r : Result SyncError (Unit {0}) × TaskDb). r.1.tasks) e
          ∙ delete_pool_body-ok fails pool s.db u h)
    ]
