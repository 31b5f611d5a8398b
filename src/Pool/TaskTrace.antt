-- ===== src/Pool/TaskTrace.antt =====
-- Runs of the synchronisation service (pool/sync.go, pool/sanitize.go, pool/pool.go,
-- cmd/server/main.go). The clearing of all data (dataclear) is no step.
use vpn_subscription_managem.Base.{
  ℕ, ◌≡◌, ◌≤◌, refl, Bool, true, false, [], Text, arith, Result, ok, err,
}
use vpn_subscription_managem.Pool.Task.{
  SyncStatus, failed, TaskDb, Cause, timed_out, SyncService, SyncFaults, SyncError, is_running,
  submit_sync,
}
use vpn_subscription_managem.Pool.TaskEnd.{
  interrupt, cancel_sync, clean_old, finish_task, fail_sync_task, clear_finished_tasks,
  cleanup_old_tasks, delete_pool, release_task, restart_tasks,
}
use vpn_subscription_managem.Pool.TaskRows.{Change, evolved, Evolves-same, interrupt_row-Evolves}
use vpn_subscription_managem.Pool.TaskCount.{running_count, running_count-Change}
use vpn_subscription_managem.Pool.TaskTidy.{
  clear_finished_tasks-Change, cleanup_old_tasks-Change, delete_pool-Change,
}
use vpn_subscription_managem.Pool.TaskChange.{
  submit_sync-Change, cancel_sync-Change, finish_rows-Evolves,
}

-- One operation, with any failures inside it. A task is finished with a terminal status, and what is
-- cleaned then ended before.
pub data SyncStep (s : SyncService) : SyncService → Type 0 where
  submits : (fails : SyncFaults) (pool : ℕ) → SyncStep s (submit_sync fails pool s).1
  cancels_task :
      (fails : SyncFaults) (now pool task : ℕ) → SyncStep s (cancel_sync fails now pool task s).1
  times_out : (task : ℕ) → SyncStep s (interrupt task timed_out s)
  finishes :
      (fails : SyncFaults) (unclean : Bool) (now cutoff pool task : ℕ) (status : SyncStatus)
      (message per_url : Text)
      → is_running status ≡ false
      → cutoff ≤ now
      → SyncStep s (finish_task fails unclean now cutoff pool task status message per_url s)
  gives_up :
      (fails : SyncFaults) (now pool task : ℕ) (message per_url : Text)
      → SyncStep s (fail_sync_task fails now pool task message per_url s)
  clears : (fails : SyncFaults) (pool : ℕ) → SyncStep s (clear_finished_tasks fails pool s)
  cleans_up :
      (texts fails : SyncFaults) (cutoff : ℕ) (per_url message : Text → Text)
      → SyncStep s (cleanup_old_tasks texts fails cutoff per_url message s)
  deletes_pool : (fails : SyncFaults) (pool : ℕ) → SyncStep s (delete_pool fails pool s)
  releases : (task : ℕ) → SyncStep s (release_task task s)
  restarts : (now : ℕ) → SyncStep s (restart_tasks now s)

interrupt_db : (task : ℕ) (c : Cause) (s : SyncService) → (interrupt task c s).db ≡ s.db
unfolding interrupt
interrupt_db task c s = ground arith

clean_old-none :
    (pool cutoff : ℕ) (r : Result SyncError (Unit {0}) × TaskDb)
    → clean_old true pool cutoff r ≡ r.1
clean_old-none pool cutoff (ok u, d) = refl
clean_old-none pool cutoff (err e, d) = refl

failed_ends : is_running failed ≡ false
unfolding is_running
failed_ends = refl

pub SyncStep-Change : (s s' : SyncService) → SyncStep s s' → Change s.causes s.db.tasks s'.db.tasks
unfolding finish_task fail_sync_task release_task restart_tasks
SyncStep-Change s s' (submits fails pool) = submit_sync-Change fails pool s s.causes
SyncStep-Change s s' (cancels_task fails now pool task) =
    cancel_sync-Change fails now pool task s s.causes
SyncStep-Change s s' (times_out task) =
    rw (interrupt_db task timed_out s) (evolved (Evolves-same s.causes s.db.tasks))
SyncStep-Change s s' (finishes fails unclean now cutoff pool task status message per_url r l) =
    evolved (finish_rows-Evolves fails unclean now cutoff pool task status message per_url s r l)
SyncStep-Change s s' (gives_up fails now pool task message per_url) = evolved (
    rw (clean_old-none pool now _) at (
      finish_rows-Evolves fails true now now pool task failed message per_url s failed_ends
        (omega arith)))
SyncStep-Change s s' (clears fails pool) = clear_finished_tasks-Change fails pool s s.causes
SyncStep-Change s s' (cleans_up texts fails cutoff per_url message) =
    cleanup_old_tasks-Change texts fails cutoff per_url message s s.causes
SyncStep-Change s s' (deletes_pool fails pool) = delete_pool-Change fails pool s s.causes
SyncStep-Change s s' (releases task) = evolved (Evolves-same s.causes s.db.tasks)
SyncStep-Change s s' (restarts now) = evolved (interrupt_row-Evolves s.causes now s.db.tasks)

-- The states that are reached from one without tasks.
pub data IsReached : SyncService → Type 0 where
  empty : {s : SyncService} → s.db.tasks ≡ [] → IsReached s
  after : {s s' : SyncService} → IsReached s → SyncStep s s' → IsReached s'

-- Whatever operations are run, in any order and with any failures, a pool never has more than one
-- running task.
pub running_count_reached :
    (s : SyncService) → IsReached s → (pool : ℕ) → running_count pool s.db.tasks ≤ 1
unfolding running_count
running_count_reached s (empty e) pool = rw e (omega arith)
running_count_reached s' (after {s = s} r step) pool =
    running_count-Change s.causes s.db.tasks s'.db.tasks (SyncStep-Change s s' step)
      (running_count_reached s r) pool
