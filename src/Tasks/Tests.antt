-- ===== src/Tasks/Tests.antt =====
-- A short history of the registry (tasks/registry.go).
use vpn_subscription_managem.Base.{◌≡◌, [], ◌∷◌, some, codes, ok, List}
use vpn_subscription_managem.Tasks.{off_clear, xray_init, new_registry, register, get_task}
use vpn_subscription_managem.Tasks.Registry.{
  TaskOp, registers, succeeds, fails, apply_all, IsRegistered, register-IsRegistered,
  get_task-register,
}

abbrev before : List TaskOp
before = registers off_clear ∷ succeeds (codes "task-1") (ok (codes "{}")) ∷ []

abbrev after : List TaskOp
after = fails (codes "task-2") (codes "lost") ∷ registers off_clear ∷ []

register-IsRegistered_example : IsRegistered xray_init (apply_all before new_registry)
register-IsRegistered_example = register-IsRegistered before xray_init

get_task-register_example :
    let r = register xray_init (apply_all before new_registry) in
    (get_task r.0 (apply_all after r.1)).kind ≡ some xray_init
get_task-register_example = get_task-register before after xray_init
