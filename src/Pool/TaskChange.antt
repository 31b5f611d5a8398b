-- ===== src/Pool/TaskChange.antt =====
-- The task rows under SubmitSync, CancelSync, finishTask and failTask (pool/sync.go).
use vpn_subscription_managem.Base.{
  ℕ, ◌≡◌, ◌≤◌, refl, Bool, true, false, not, List, Text, Option, none, some, Bool-cases, inl, inr,
  ◌⊎◌, ok,
}
use vpn_subscription_managem.Pool.Task.{
  SyncStatus, failed, SyncTask, TaskDb, Cause, SyncService, SyncFaults, sync_tx, is_running,
  new_task, submit_body, submit_sync, start_task,
}
use vpn_subscription_managem.Pool.TaskEnd.{
  cancel_row, cancel_body, mem_id, cancel_sync, end_status, end_message, finish_body, delete_old,
  is_old, clean_old,
}
use vpn_subscription_managem.Pool.TaskRows.{
  Evolves, Change, evolved, started, Evolves-same, end_task-Evolves, end_row-IsEnding,
  cancel_row-IsEnding, end_task-delete_old-Evolves, keep_if-Evolves, old_end,
}
use vpn_subscription_managem.Pool.TaskSteps.{
  sync_tx-cases, submit_body-ok, finish_body-ok, cancel_body-ok,
}

pub submit_sync-Change :
    (fails : SyncFaults) (pool : ℕ) (s : SyncService) (causes : ℕ → Option Cause)
    → Change causes s.db.tasks (submit_sync fails pool s).1.db.tasks
unfolding submit_sync start_task is_running
submit_sync-Change fails pool s causes = elim (sync_tx-cases fails (submit_body fails pool) s.db) [
  | inl (id, h, e) ↦
      let (free, same, tasks) = submit_body-ok fails pool id s.db h in
      rw e (started (new_task s.db.next_id pool) refl free tasks)
  | inr (x, e) ↦ rw e (evolved (Evolves-same causes s.db.tasks))
]

pub cancel_sync-Change :
    (fails : SyncFaults) (now pool task : ℕ) (s : SyncService) (causes : ℕ → Option Cause)
    → Change causes s.db.tasks (cancel_sync fails now pool task s).1.db.tasks
unfolding cancel_sync is_running
cancel_sync-Change fails now pool task s causes = elim (Bool-cases (mem_id task s.cancels)) [
  | inr m ↦ rw m (evolved (Evolves-same causes s.db.tasks))
  | inl m ↦ elim (sync_tx-cases fails (cancel_body fails now pool task) s.db) [
    | inr (x, e) ↦ rw (m, e) (evolved (Evolves-same causes s.db.tasks))
    | inl (u, h, e) ↦ elim (cancel_body-ok fails now pool task s.db h) [
      | inl k ↦ rw (m, e, k) (evolved (Evolves-same causes s.db.tasks))
      | inr k ↦
          rw (m, e, k)
            (evolved (
              end_task-Evolves causes task (cancel_row now) s.db.tasks
                (cancel_row-IsEnding causes task now)))
    ]
  ]
]

-- A cause leaves only the status failed.
end_status-cause :
    (causes : ℕ → Option Cause) (task : ℕ) (cause : Option Cause) (status : SyncStatus)
    → causes task ≡ cause
    → (causes task ≡ none) ⊎ (end_status cause status ≡ failed)
unfolding end_status
end_status-cause causes task none status e = inl e
end_status-cause causes task (some c) status e = inr refl

end_status-ended :
    (cause : Option Cause) (status : SyncStatus)
    → is_running status ≡ false
    → is_running (end_status cause status) ≡ false
unfolding end_status is_running
end_status-ended none status h = h
end_status-ended (some c) status h = refl

clean_old-Evolves :
    (causes : ℕ → Option Cause) (unclean : Bool) (pool cutoff : ℕ) (u : Unit {0})
    (ts : List SyncTask) (d : TaskDb)
    → Evolves causes ts d.tasks
    → Evolves causes ts (delete_old pool cutoff d.tasks)
    → Evolves causes ts (clean_old unclean pool cutoff (ok u, d)).tasks
clean_old-Evolves causes true pool cutoff u ts d h k = h
clean_old-Evolves causes false pool cutoff u ts d h k = k

delete_old-Evolves :
    (causes : ℕ → Option Cause) (pool cutoff : ℕ) (ts : List SyncTask)
    → Evolves causes ts (delete_old pool cutoff ts)
unfolding delete_old
delete_old-Evolves causes pool cutoff ts =
    keep_if-Evolves causes (λ t. not (is_old pool cutoff t)) ts (old_end pool cutoff)

-- What `finishTask` and `failTask` leave of the rows.
pub finish_rows-Evolves :
    (fails : SyncFaults) (unclean : Bool) (now cutoff pool task : ℕ) (status : SyncStatus)
    (message per_url : Text) (s : SyncService)
    → is_running status ≡ false
    → cutoff ≤ now
    → Evolves s.causes s.db.tasks
        (clean_old unclean pool cutoff (
          sync_tx fails
            (finish_body fails now (s.causes task) pool task status message per_url)
            s.db)).tasks
finish_rows-Evolves fails unclean now cutoff pool task status message per_url s r l =
    let cause = s.causes task in
    let body = finish_body fails now cause pool task status message per_url in
    let ending =
      end_row-IsEnding s.causes task (end_status cause status) per_url (end_message cause message)
        now (end_status-ended cause status r) (end_status-cause s.causes task cause status refl) in
    elim (sync_tx-cases fails body s.db) [
      | inr (x, e) ↦ rw e (Evolves-same s.causes s.db.tasks)
      | inl (u, h, e) ↦
          elim (finish_body-ok fails now cause pool task status message per_url s.db h) [
            | inl k ↦ rw e (
                clean_old-Evolves s.causes unclean pool cutoff u s.db.tasks (body s.db).1
                  (rw k (Evolves-same s.causes s.db.tasks))
                  (rw k (delete_old-Evolves s.causes pool cutoff s.db.tasks)))
            | inr k ↦ rw e (
                clean_old-Evolves s.causes unclean pool cutoff u s.db.tasks (body s.db).1
                  (rw k (end_task-Evolves s.causes task _ s.db.tasks ending))
                  (rw k (
                    end_task-delete_old-Evolves s.causes task (end_status cause status) per_url
                      (end_message cause message) now pool cutoff s.db.tasks ending l)))
          ]
    ]
