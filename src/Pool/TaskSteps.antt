-- ===== src/Pool/TaskSteps.antt =====
-- The operations on the synchronisation tasks as steps (pool/sync.go).
use vpn_subscription_managem.Base.{
  ℕ, ◌≡◌, refl, false, [], ◌∷◌, ◌++◌, Text, Option, none, some, arith, Bool-cases, inl, inr, ◌⊎◌,
  ok, err, Result-cases, err-ne-ok,
}
use vpn_subscription_managem.Base.Procs.{transact}
use vpn_subscription_managem.Pool.Task.{
  SyncStatus, SyncTask, TaskDb, Cause, SyncError, SyncTx, SyncFaults, sync_tx, sync_failed,
  has_running, new_task, submit_body, update_pool, select_task, update_task, commit_task,
}
use vpn_subscription_managem.Pool.TaskEnd.{
  end_row, end_task, can_end, find_in_pool, cancel_running, cancel_row, cancel_found, cancel_body,
  end_status, end_message, finish_body,
}

-- A committed transaction is its body; another one leaves the database.
pub sync_tx-cases :
    {A : Type 0} (fails : SyncFaults) (body : SyncTx A) (d : TaskDb)
    → ((a : A) × ((body d).0 ≡ ok a) × (sync_tx fails body d ≡ (ok a, (body d).1)))
      ⊎ ((e : SyncError) × (sync_tx fails body d ≡ (err e, d)))
unfolding sync_tx transact
sync_tx-cases fails body d = elim (Result-cases (body d).0) [
  | inl (a, h) ↦ elim (Bool-cases (fails commit_task)) [
    | inl l ↦ inr (sync_failed commit_task, rw (h, l) refl)
    | inr l ↦ inl (a, h, rw (h, l) refl)
  ]
  | inr (e, h) ↦ inr (e, rw h refl)
]

pub submit_body-ok :
    (fails : SyncFaults) (pool id : ℕ) (d : TaskDb)
    → (submit_body fails pool d).0 ≡ ok id
    → (has_running pool d.tasks ≡ false)
      × (id ≡ d.next_id)
      × ((submit_body fails pool d).1.tasks ≡ d.tasks ++ new_task d.next_id pool ∷ [])
unfolding submit_body
submit_body-ok fails pool id d h = (ground (arith, h), ground (arith, h), ground (arith, h))

pub finish_body-ok :
    (fails : SyncFaults) (now : ℕ) (cause : Option Cause) (pool task : ℕ) (status : SyncStatus)
    (message per_url : Text) (d : TaskDb)
    → (finish_body fails now cause pool task status message per_url d).0 ≡ ok tt
    → ((finish_body fails now cause pool task status message per_url d).1.tasks ≡ d.tasks)
      ⊎ ((finish_body fails now cause pool task status message per_url d).1.tasks
          ≡ end_task task
              (end_row (end_status cause status) per_url (end_message cause message) now)
              d.tasks)
unfolding finish_body
finish_body-ok fails now cause pool task status message per_url d h =
    elim (Bool-cases (fails update_task)) [
      | inl e ↦ absurd (err-ne-ok (rw e at h))
      | inr e ↦ elim (Bool-cases (can_end task d.tasks)) [
        | inr c ↦ inl (rw (e, c) refl)
        | inl c ↦ elim (Bool-cases (fails update_pool)) [
          | inl u ↦ absurd (err-ne-ok (rw (e, c, u) at h))
          | inr u ↦ inr (rw (e, c, u) refl)
        ]
      ]
    ]

cancel_found-ok :
    (fails : SyncFaults) (now pool task : ℕ) (row : Option SyncTask) (d : TaskDb)
    → (cancel_found fails now pool task row d).0 ≡ ok tt
    → ((cancel_found fails now pool task row d).1.tasks ≡ d.tasks)
      ⊎ ((cancel_found fails now pool task row d).1.tasks ≡ end_task task (cancel_row now) d.tasks)
unfolding cancel_found cancel_running
cancel_found-ok fails now pool task none d h = ground (arith, h)
cancel_found-ok fails now pool task (some t) d h = ground (arith, h)

pub cancel_body-ok :
    (fails : SyncFaults) (now pool task : ℕ) (d : TaskDb)
    → (cancel_body fails now pool task d).0 ≡ ok tt
    → ((cancel_body fails now pool task d).1.tasks ≡ d.tasks)
      ⊎ ((cancel_body fails now pool task d).1.tasks ≡ end_task task (cancel_row now) d.tasks)
unfolding cancel_body
cancel_body-ok fails now pool task d h = elim (Bool-cases (fails select_task)) [
  | inl e ↦ absurd (err-ne-ok (rw e at h))
  | inr e ↦
      rw e (cancel_found-ok fails now pool task (find_in_pool pool task d.tasks) d (rw e at h))
]
