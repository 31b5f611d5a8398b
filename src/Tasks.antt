-- ===== src/Tasks.antt =====
-- The registry of long-running tasks: backend/internal/tasks/registry.go. The map is an
-- association list, and what json.Marshal gives for a result is an argument.
pub mod Ids
pub mod Registry
mod Tests
use vpn_subscription_managem.Base.{
  ℕ, zero, suc, ◌+◌, ◌/◌, ◌%◌, Bool, true, false, List, [], ◌∷◌, ◌++◌, Option, none, some, Text,
  text_eq, codes, ◌==◌, if◌then◌else◌, Result, ok, err,
}

pub data TaskKind : Type 0 where
  instance_delete xray_init reconcile_exec off_clear import_data : TaskKind

pub data TaskStatus : Type 0 where
  running succeeded failed : TaskStatus

pub record Task : Type 0 where
  pub id : Text
  -- `none` in the answer for an unknown id
  pub kind : Option TaskKind
  pub status : TaskStatus
  pub result : Text
  pub error : Text

pub record Tasks : Type 0 where
  pub next_id : ℕ
  pub tasks : List (Text × Task)

abbrev pub new_registry : Tasks
new_registry = record { next_id = 0; tasks = [] }

-- The loop of `formatID`, which fills its buffer from the end. The fuel `n` is enough for `n`: the
-- loop divides by ten.
unfoldable pub digits_from : ℕ → ℕ → Text → Text
digits_from zero n buf = buf
digits_from (suc fuel) n buf =
    let rest = digits_from fuel (n / 10) ((48 + n % 10) ∷ buf) in if n == 0 then buf else rest

-- `formatID` for the ids that the registry counts, which are not negative
unfoldable pub format_id : ℕ → Text
format_id n = if n == 0 then codes "task-0" else codes "task-" ++ digits_from n n []

unfoldable pub lookup_task : Text → List (Text × Task) → Option Task
lookup_task k [] = none
lookup_task k ((j, t) ∷ ts) = if text_eq j k then some t else lookup_task k ts

-- `r.tasks[id] = ...`
unfoldable pub set_task : Text → Task → List (Text × Task) → List (Text × Task)
set_task k t [] = (k, t) ∷ []
set_task k t ((j, u) ∷ ts) = if text_eq j k then (k, t) ∷ ts else (j, u) ∷ set_task k t ts

-- `Register`: the id of the new task, and the registry
unfoldable pub register : TaskKind → Tasks → Text × Tasks
register kind r =
    let id = format_id (suc r.next_id) in
    let task : Task = record {
      id = id;
      kind = some kind;
      status = running;
      result = [];
      error = [];
    } in
    (id, record { next_id = suc r.next_id; tasks = set_task id task r.tasks })

abbrev pub marshalled : Result Text Text → Task → Task
marshalled (ok raw) t = record t { status = succeeded; result = raw; error = [] }
marshalled (err e) t = record t { status = failed; error = codes "序列化任务结果失败: " ++ e }

-- a write through the pointer in the map, where there is one
unfoldable pub update_task : Text → (Task → Task) → Tasks → Tasks
update_task id f r = elim (lookup_task id r.tasks) [
  | none ↦ r
  | some t ↦ record r { tasks = set_task id (f t) r.tasks }
]

-- `Succeed`, `Fail`
unfoldable pub succeed : Text → Result Text Text → Tasks → Tasks
succeed id result r = update_task id (marshalled result) r

unfoldable pub fail_task : Text → Text → Tasks → Tasks
fail_task id msg r = update_task id (λ t. record t { status = failed; error = msg }) r

-- `Get`
unfoldable pub get_task : Text → Tasks → Task
get_task id r = elim (lookup_task id r.tasks) [
  | none ↦ record { id = id; kind = none; status = failed; result = []; error = codes "服务重启，任务中断" }
  | some t ↦ t
]
