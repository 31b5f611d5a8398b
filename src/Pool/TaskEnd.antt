-- ===== src/Pool/TaskEnd.antt =====
-- How the synchronisation tasks end (pool/sync.go: CancelSync, finishTask, failTask,
-- ClearFinishedTasks, CleanupOldTasks; pool/sanitize.go: SanitizeStoredSyncOutputs; pool/pool.go:
-- Delete; the reset of cmd/server/main.go).
use vpn_subscription_managem.Base.{
  ℕ, Bool, true, false, not, ◌&&◌, ◌||◌, List, [], ◌∷◌, Text, codes, text_eq, ◌==◌, ltb, Option,
  none, some, if◌then◌else◌, map, keep_if, Result, ok, err,
}
use vpn_subscription_managem.Base.Procs.{◌>>=◌, ◌>>◌, pure, raise, gets, modify}
use vpn_subscription_managem.Pool.Task.{
  SyncStatus, succeeded, failed, SyncTask, PoolRow, TaskDb, Cause, cancelled, timed_out,
  SyncService, SyncError, not_cancellable, task_not_found, task_not_running, SyncTx, SyncFaults,
  try_step, sync_tx, is_running, has_pool, pool_not_found, check_pool, delete_tasks, delete_row,
  clean_texts, set_pool, set_synced, set_cause, select_task, update_task, update_pool,
}

-- The texts of errSyncCancelled and errSyncTimeout.
unfoldable pub cause_text : Cause → Text
cause_text cancelled = codes "同步任务已取消"
cause_text timed_out = codes "同步任务超时（30 分钟）"

abbrev pub end_row : SyncStatus → Text → Text → ℕ → SyncTask → SyncTask
end_row status per_url message now t = record t {
  status = status;
  per_url = per_url;
  error = message;
  finished_at = some now;
}

-- UPDATE pool_sync_tasks ... WHERE id = ? AND status = 'running'
unfoldable pub end_task : ℕ → (SyncTask → SyncTask) → List SyncTask → List SyncTask
end_task task f ts = map (λ t. if t.id == task && is_running t.status then f t else t) ts

-- The rows that this changes: RowsAffected() > 0
unfoldable pub can_end : ℕ → List SyncTask → Bool
can_end task [] = false
can_end task (t ∷ ts) = t.id == task && is_running t.status || can_end task ts

unfoldable pub find_in_pool : ℕ → ℕ → List SyncTask → Option SyncTask
find_in_pool pool task [] = none
find_in_pool pool task (t ∷ ts) =
    if t.id == task && t.pool_id == pool then some t else find_in_pool pool task ts

unfoldable pub is_failed : SyncStatus → Bool
is_failed failed = true
is_failed _ = false

abbrev pub cancel_row : ℕ → SyncTask → SyncTask
cancel_row now t = end_row failed t.per_url (cause_text cancelled) now t

-- The two updates of the transaction of `CancelSync`.
unfoldable pub cancel_running : SyncFaults → ℕ → ℕ → ℕ → SyncTx Unit
cancel_running fails now pool task = do
  try_step fails update_task
  changed ← gets (λ d. can_end task d.tasks)
  if not changed then raise task_not_running else do
    modify (λ d. record d { tasks = end_task task (cancel_row now) d.tasks })
    try_step fails update_pool
    modify (λ d. record d { pools = set_pool pool failed (cause_text cancelled) d.pools })

-- The guards on the row; one that was cancelled before is left.
unfoldable pub cancel_found : SyncFaults → ℕ → ℕ → ℕ → Option SyncTask → SyncTx Unit
cancel_found fails now pool task none = raise task_not_found
cancel_found fails now pool task (some t) =
    if is_failed t.status && text_eq t.error (cause_text cancelled)
    then pure tt
    else if not (is_running t.status)
    then raise task_not_running
    else cancel_running fails now pool task

unfoldable pub cancel_body : SyncFaults → ℕ → ℕ → ℕ → SyncTx Unit
cancel_body fails now pool task = do
  try_step fails select_task
  row ← gets (λ d. find_in_pool pool task d.tasks)
  cancel_found fails now pool task row

unfoldable pub mem_id : ℕ → List ℕ → Bool
mem_id n [] = false
mem_id n (m ∷ ms) = m == n || mem_id n ms

-- `cancel(cause)` of the context: the first cause stays.
unfoldable pub interrupt : ℕ → Cause → SyncService → SyncService
interrupt task cause s = elim (s.causes task) [
  | none ↦ record s { causes = set_cause task (some cause) s.causes }
  | some old ↦ s
]

abbrev with_db :
    SyncService → Result SyncError (Unit {0}) × TaskDb → Result SyncError (Unit {0}) × SyncService
with_db s (r, d) = (r, record s { db = d })

-- `CancelSync`: the context is cancelled before the transaction, whether that succeeds or not.
unfoldable pub cancel_sync :
    SyncFaults → ℕ → ℕ → ℕ → SyncService → Result SyncError (Unit {0}) × SyncService
cancel_sync fails now pool task s =
    if not (mem_id task s.cancels)
    then (err not_cancellable, s)
    else with_db (interrupt task cancelled s) (sync_tx fails (cancel_body fails now pool task) s.db)

-- The status and the message that a task ends with: a cause of its context wins.
unfoldable pub end_status : Option Cause → SyncStatus → SyncStatus
end_status none status = status
end_status (some cause) status = failed

unfoldable pub end_message : Option Cause → Text → Text
end_message none message = message
end_message (some cause) message = cause_text cause

unfoldable pub report_pool : ℕ → ℕ → SyncStatus → Text → List PoolRow → List PoolRow
report_pool pool now succeeded message ps = set_synced pool now ps
report_pool pool now status message ps = set_pool pool status message ps

-- The transaction of `finishTask`.
unfoldable pub finish_body :
    SyncFaults → ℕ → Option Cause → ℕ → ℕ → SyncStatus → Text → Text → SyncTx Unit
finish_body fails now cause pool task status message per_url = do
  try_step fails update_task
  changed ← gets (λ d. can_end task d.tasks)
  if not changed then pure tt else do
    modify (λ d. record d {
      tasks =
          end_task task (end_row (end_status cause status) per_url (end_message cause message) now)
            d.tasks;
    })
    try_step fails update_pool
    modify (λ d. record d {
      pools = report_pool pool now (end_status cause status) (end_message cause message) d.pools;
    })

-- DELETE ... WHERE pool_id = ? AND finished_at < cutoff
abbrev pub is_old : ℕ → ℕ → SyncTask → Bool
is_old pool cutoff t =
    t.pool_id == pool && (elim t.finished_at [ none ↦ false | some at ↦ ltb at cutoff ])

unfoldable pub delete_old : ℕ → ℕ → List SyncTask → List SyncTask
delete_old pool cutoff ts = keep_if (λ t. not (is_old pool cutoff t)) ts

-- `finishTask`; whether the cleaning at its end fails is an argument.
abbrev pub clean_old : Bool → ℕ → ℕ → Result SyncError (Unit {0}) × TaskDb → TaskDb
clean_old unclean pool cutoff (err e, d) = d
clean_old unclean pool cutoff (ok u, d) =
    if unclean then d else record d { tasks = delete_old pool cutoff d.tasks }

unfoldable pub finish_task :
    SyncFaults → Bool → ℕ → ℕ → ℕ → ℕ → SyncStatus → Text → Text → SyncService → SyncService
finish_task fails unclean now cutoff pool task status message per_url s = record s {
  db =
      clean_old unclean pool cutoff (
        sync_tx fails (finish_body fails now (s.causes task) pool task status message per_url)
          s.db);
}

-- `failTask`: without the cleaning
unfoldable pub fail_sync_task : SyncFaults → ℕ → ℕ → ℕ → Text → Text → SyncService → SyncService
fail_sync_task fails now pool task message per_url s = record s {
  db =
      (sync_tx fails (finish_body fails now (s.causes task) pool task failed message per_url)
        s.db).1;
}

unfoldable pub is_finished : SyncTask → Bool
is_finished t = not (is_running t.status) && (elim t.finished_at [ none ↦ false | some at ↦ true ])

-- The DELETE of `ClearFinishedTasks`, which is no transaction.
unfoldable pub clear_body : SyncFaults → ℕ → SyncTx Unit
clear_body fails pool = do
  try_step fails check_pool
  known ← gets (λ d. has_pool pool d.pools)
  if not known then raise pool_not_found else do
    try_step fails delete_tasks
    modify
        (λ d. record d { tasks = keep_if (λ t. not (t.pool_id == pool && is_finished t)) d.tasks })

-- `ClearFinishedTasks`
unfoldable pub clear_finished_tasks : SyncFaults → ℕ → SyncService → SyncService
clear_finished_tasks fails pool s = record s { db = (clear_body fails pool s.db).1 }

-- The updates of `SanitizeStoredSyncOutputs`, with what it makes of the two texts of a row; a row
-- whose texts stay is not written.
abbrev pub clean_task : (Text → Text) → (Text → Text) → SyncTask → SyncTask
clean_task per_url message t = record t { per_url = per_url t.per_url; error = message t.error }

abbrev pub clean_pool : (Text → Text) → PoolRow → PoolRow
clean_pool message p = record p { sync_error = message p.sync_error }

unfoldable pub sanitize_body : SyncFaults → (Text → Text) → (Text → Text) → SyncTx Unit
sanitize_body fails per_url message = do
  try_step fails clean_texts
  modify (λ d. record d { tasks = map (clean_task per_url message) d.tasks })
  try_step fails update_pool
  modify (λ d. record d { pools = map (clean_pool message) d.pools })

abbrev pub is_past : ℕ → SyncTask → Bool
is_past cutoff t = elim t.finished_at [ none ↦ false | some at ↦ ltb at cutoff ]

-- `CleanupOldTasks`, its statements on the tasks: the cleaning of the texts is a transaction of its
-- own, whose error is dropped.
unfoldable pub cleanup_body : SyncFaults → ℕ → SyncTx Unit
cleanup_body fails cutoff = do
  try_step fails delete_tasks
  modify (λ d. record d { tasks = keep_if (λ t. not (is_past cutoff t)) d.tasks })

unfoldable pub cleanup_old_tasks :
    SyncFaults → SyncFaults → ℕ → (Text → Text) → (Text → Text) → SyncService → SyncService
cleanup_old_tasks texts fails cutoff per_url message s =
    let d = (sync_tx texts (sanitize_body texts per_url message) s.db).1 in
    record s { db = (sync_tx fails (cleanup_body fails cutoff) d).1 }

-- `Delete` of a pool, with the cascade on its tasks
unfoldable pub delete_pool_body : SyncFaults → ℕ → SyncTx Unit
delete_pool_body fails pool = do
  try_step fails check_pool
  known ← gets (λ d. has_pool pool d.pools)
  if not known then raise pool_not_found else do
    try_step fails delete_row
    modify (λ d. record d {
      pools = keep_if (λ p. not (p.id == pool)) d.pools;
      tasks = keep_if (λ t. not (t.pool_id == pool)) d.tasks;
    })

unfoldable pub delete_pool : SyncFaults → ℕ → SyncService → SyncService
delete_pool fails pool s = record s { db = (sync_tx fails (delete_pool_body fails pool) s.db).1 }

-- The end of the goroutine: `delete(s.cancels, taskID)`
unfoldable pub release_task : ℕ → SyncService → SyncService
release_task task s = record s { cancels = keep_if (λ n. not (n == task)) s.cancels }

abbrev pub restart_text : Text
restart_text = codes "服务重启，任务中断"

-- SELECT DISTINCT pool_id ... WHERE status = 'failed' AND error = ...
unfoldable pub was_interrupted : ℕ → List SyncTask → Bool
was_interrupted pool [] = false
was_interrupted pool (t ∷ ts) =
    t.pool_id == pool && (is_failed t.status && text_eq t.error restart_text)
    || was_interrupted pool ts

unfoldable pub interrupt_row : ℕ → SyncTask → SyncTask
interrupt_row now t =
    if is_running t.status
    then record t { status = failed; error = restart_text; finished_at = some now }
    else t

unfoldable pub interrupt_pool : List SyncTask → PoolRow → PoolRow
interrupt_pool ts p =
    if was_interrupted p.id ts
    then record p { sync_status = some failed; sync_error = restart_text }
    else p

-- The start of the server: what was running failed; contexts are gone.
unfoldable pub restart_tasks : ℕ → SyncService → SyncService
restart_tasks now s =
    let tasks = map (interrupt_row now) s.db.tasks in
    record {
      db = record s.db { tasks = tasks; pools = map (interrupt_pool tasks) s.db.pools };
      cancels = [];
      causes = λ n. none;
    }
