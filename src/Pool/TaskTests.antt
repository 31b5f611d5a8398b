-- ===== src/Pool/TaskTests.antt =====
-- A pool whose task is cancelled while it runs, and a second one after it.
use vpn_subscription_managem.Base.{
  ◌≡◌, ◌≤◌, refl, false, [], ◌∷◌, codes, none, map, keep_if, text_eq, arith, err,
}
use vpn_subscription_managem.Base.Procs.{transact}
use vpn_subscription_managem.Pool.Task.{
  running, succeeded, failed, SyncService, SyncFaults, is_running, submit_sync, submit_body,
  sync_tx, start_task, has_pool, has_running, set_pool, set_synced, set_cause, sync_running,
}
use vpn_subscription_managem.Pool.TaskEnd.{
  finish_task, cancel_sync, cancel_body, cancel_found, cancel_running, mem_id, interrupt,
  find_in_pool, is_failed, end_task, can_end, end_status, end_message, finish_body, report_pool,
  delete_old, cause_text,
}
use vpn_subscription_managem.Pool.TaskCount.{running_count}
use vpn_subscription_managem.Pool.TaskTrace.{
  submits, cancels_task, finishes, IsReached, empty, after, running_count_reached,
}

abbrev well : SyncFaults
well = λ st. false

abbrev start : SyncService
start = record {
  db = record {
    pools = record { id = 1; sync_status = none; sync_error = []; last_synced_at = none } ∷ [];
    tasks = [];
    next_id = 1;
  };
  cancels = [];
  causes = λ n. none;
}

abbrev submitted : SyncService
submitted = (submit_sync well 1 start).1

abbrev cancelled_one : SyncService
cancelled_one = (cancel_sync well 5 1 1 submitted).1

abbrev finished_one : SyncService
finished_one = finish_task well false 6 0 1 1 succeeded [] (codes "[]") cancelled_one

-- A second submission is refused while the task runs; the cancelled task ends as failed, though it
-- reports success.
sync_run :
    ((submit_sync well 1 submitted).0 ≡ err sync_running)
    × (map (λ t. t.status) submitted.db.tasks ≡ running ∷ [])
    × (map (λ t. t.status) finished_one.db.tasks ≡ failed ∷ [])
unfolding submit_sync submit_body sync_tx transact start_task has_pool has_running set_pool
    set_synced set_cause is_running finish_task cancel_sync cancel_body cancel_found cancel_running
    mem_id interrupt find_in_pool is_failed end_task can_end end_status end_message finish_body
    report_pool delete_old cause_text keep_if text_eq
sync_run = (refl, refl, refl)

ends_succeeded : is_running succeeded ≡ false
unfolding is_running
ends_succeeded = refl

reached : IsReached finished_one
reached =
    after (after (after (empty refl) (submits well 1)) (cancels_task well 5 1 1))
      (finishes well false 6 0 1 1 succeeded [] (codes "[]") ends_succeeded (omega arith))

running_count_reached_example : running_count 1 finished_one.db.tasks ≤ 1
running_count_reached_example = running_count_reached finished_one reached 1
