-- ===== src/Pool/Task.antt =====
-- The synchronisation tasks of the pools (pool/sync.go: SubmitSync, CancelSync, finishTask, failTask,
-- ClearFinishedTasks; the reset of cmd/server/main.go). Times are numbers. The texts that
-- SanitizeTaskError and the JSON encoding give are arguments.
use vpn_subscription_managem.Base.{
  ℕ, suc, Bool, true, false, not, ◌&&◌, ◌||◌, List, [], ◌∷◌, ◌++◌, Text, codes, ◌==◌, Option, none,
  some, if◌then◌else◌, map, Result, ok, err,
}
use vpn_subscription_managem.Base.Procs.{Proc, ◌>>=◌, ◌>>◌, pure, raise, gets, modify, transact}

pub data SyncStatus : Type 0 where
  running succeeded failed partial : SyncStatus

pub record SyncTask : Type 0 where
  pub id : ℕ
  pub pool_id : ℕ
  pub status : SyncStatus
  pub per_url : Text
  pub error : Text
  pub finished_at : Option ℕ

-- `sync_status` is `none` before the first task.
pub record PoolRow : Type 0 where
  pub id : ℕ
  pub sync_status : Option SyncStatus
  pub sync_error : Text
  pub last_synced_at : Option ℕ

pub record TaskDb : Type 0 where
  pub pools : List PoolRow
  pub tasks : List SyncTask
  pub next_id : ℕ

pub data Cause : Type 0 where
  cancelled timed_out : Cause

-- The database, the map `cancels`, and the causes of the contexts of the tasks.
pub record SyncService : Type 0 where
  pub db : TaskDb
  pub cancels : List ℕ
  pub causes : ℕ → Option Cause

pub data TaskStep : Type 0 where
  check_pool count_running insert_task update_pool select_task update_task commit_task : TaskStep
  delete_tasks delete_row clean_texts : TaskStep

pub data SyncError : Type 0 where
  pool_not_found sync_running not_cancellable task_not_found task_not_running : SyncError
  sync_failed : TaskStep → SyncError

abbrev pub SyncTx : Type 0 → Type 0
SyncTx A = Proc TaskDb SyncError A

abbrev pub SyncFaults : Type 0
SyncFaults = TaskStep → Bool

abbrev pub try_step : SyncFaults → TaskStep → SyncTx Unit
try_step fails st = if fails st then raise (sync_failed st) else pure tt

unfoldable pub sync_tx {ℓ} :
    {A : Type ℓ} → SyncFaults → Proc TaskDb SyncError A → Proc TaskDb SyncError A
sync_tx fails = transact (λ before after. before) (fails commit_task) (sync_failed commit_task)

unfoldable pub is_running : SyncStatus → Bool
is_running running = true
is_running _ = false

abbrev pub runs_in : ℕ → SyncTask → Bool
runs_in pool t = t.pool_id == pool && is_running t.status

unfoldable pub has_running : ℕ → List SyncTask → Bool
has_running pool [] = false
has_running pool (t ∷ ts) = runs_in pool t || has_running pool ts

unfoldable pub has_pool : ℕ → List PoolRow → Bool
has_pool pool [] = false
has_pool pool (p ∷ ps) = p.id == pool || has_pool pool ps

-- UPDATE rule_pools ... WHERE id = ?
unfoldable pub set_pool : ℕ → SyncStatus → Text → List PoolRow → List PoolRow
set_pool pool status message ps =
    map
      (λ p.
        if p.id == pool then record p { sync_status = some status; sync_error = message } else p)
      ps

-- and `last_synced_at`, where the task succeeded
unfoldable pub set_synced : ℕ → ℕ → List PoolRow → List PoolRow
set_synced pool now ps =
    map
      (λ p.
        if p.id == pool
        then record p { sync_status = some succeeded; sync_error = []; last_synced_at = some now }
        else p)
      ps

abbrev pub new_task : ℕ → ℕ → SyncTask
new_task id pool = record {
  id = id;
  pool_id = pool;
  status = running;
  per_url = codes "[]";
  error = [];
  finished_at = none;
}

abbrev add_task : ℕ → TaskDb → TaskDb
add_task pool d = record d {
  tasks = d.tasks ++ new_task d.next_id pool ∷ [];
  next_id = suc d.next_id;
}

-- The transaction of `SubmitSync`.
unfoldable pub submit_body : SyncFaults → ℕ → SyncTx ℕ
submit_body fails pool = do
  try_step fails check_pool
  known ← gets (λ d. has_pool pool d.pools)
  if not known then raise pool_not_found else do
    try_step fails count_running
    busy ← gets (λ d. has_running pool d.tasks)
    if busy then raise sync_running else do
      try_step fails insert_task
      id ← gets (λ d. d.next_id)
      modify (add_task pool)
      try_step fails update_pool
      modify (λ d. record d { pools = set_pool pool running [] d.pools })
      pure id

unfoldable pub set_cause : ℕ → Option Cause → (ℕ → Option Cause) → ℕ → Option Cause
set_cause task cause causes n = if n == task then cause else causes n

-- `SubmitSync`: a task that is stored has a context of its own.
unfoldable pub start_task :
    SyncService → Result SyncError ℕ × TaskDb → Result SyncError ℕ × SyncService
start_task s (err e, d) = (err e, record s { db = d })
start_task s (ok id, d) =
    (ok id, record { db = d; cancels = id ∷ s.cancels; causes = set_cause id none s.causes })

unfoldable pub submit_sync : SyncFaults → ℕ → SyncService → Result SyncError ℕ × SyncService
submit_sync fails pool s = start_task s (sync_tx fails (submit_body fails pool) s.db)
