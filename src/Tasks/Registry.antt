-- ===== src/Tasks/Registry.antt =====
-- The registry over any history of registrations and results (tasks/registry.go).
use Prim.Native.Nat.{◌≤◌}
use vpn_subscription_managem.Base.{
  ℕ, suc, ◌≡◌, ◌≢◌, refl, ap, sym, ◌∙◌, false, Bool-cases, inl, inr, List, [], ◌∷◌, Option, none,
  some, Option-cases, some-injective, Text, text_eq, text_eq_iff, text_eq_self, Result, ok, err,
  arith,
}
use vpn_subscription_managem.Tasks.{
  TaskKind, running, Task, Tasks, new_registry, format_id, lookup_task, set_task, register,
  marshalled, update_task, succeed, fail_task, get_task,
}
use vpn_subscription_managem.Tasks.Ids.{format_id-injective}

pub data TaskOp : Type 0 where
  registers : TaskKind → TaskOp
  succeeds : Text → Result Text Text → TaskOp
  fails : Text → Text → TaskOp

unfoldable pub apply : TaskOp → Tasks → Tasks
apply (registers kind) r = (register kind r).1
apply (succeeds id result) r = succeed id result r
apply (fails id msg) r = fail_task id msg r

unfoldable pub apply_all : List TaskOp → Tasks → Tasks
apply_all [] r = r
apply_all (op ∷ ops) r = apply_all ops (apply op r)

-- Every id in the map was given by the counter.
abbrev pub Given : ℕ → List (Text × Task) → Type 0
Given n [] = Unit
Given n ((j, t) ∷ ts) = ((i : ℕ) × (j ≡ format_id i) × (i ≤ n)) × Given n ts

Given-weaken : (n : ℕ) (ts : List (Text × Task)) → Given n ts → Given (suc n) ts
Given-weaken n [] h = tt
Given-weaken n ((j, t) ∷ ts) h =
    let (i, e, le) = h.0 in ((i, e, omega arith), Given-weaken n ts h.1)

Given-set_task :
    (n i : ℕ) (k : Text) (t : Task) (ts : List (Text × Task))
    → k ≡ format_id i
    → i ≤ n
    → Given n ts
    → Given n (set_task k t ts)
unfolding set_task
Given-set_task n i k t [] e le h = ((i, e, le), tt)
Given-set_task n i k t ((j, u) ∷ ts) e le h = elim (Bool-cases (text_eq j k)) [
  | inl same ↦ rw same ((i, e, le), h.1)
  | inr other ↦ rw other (h.0, Given-set_task n i k t ts e le h.1)
]

lookup_task-Given :
    (n : ℕ) (k : Text) (ts : List (Text × Task)) {t : Task}
    → Given n ts
    → lookup_task k ts ≡ some t
    → (i : ℕ) × (k ≡ format_id i) × (i ≤ n)
unfolding lookup_task
lookup_task-Given n k [] h e = cc
lookup_task-Given n k ((j, u) ∷ ts) h e = elim (Bool-cases (text_eq j k)) [
  | inl same ↦ let (i, eq, le) = h.0 in (i, sym ((text_eq_iff j k).0 same) ∙ eq, le)
  | inr other ↦ lookup_task-Given n k ts h.1 (rw (other, lookup_task) at e)
]

lookup_task-set_task_self :
    (k : Text) (t : Task) (ts : List (Text × Task)) → lookup_task k (set_task k t ts) ≡ some t
unfolding lookup_task set_task
lookup_task-set_task_self k t [] = ground (arith, text_eq_self k)
lookup_task-set_task_self k t ((j, u) ∷ ts) =
    ground (arith, text_eq_self k, lookup_task-set_task_self k t ts)

lookup_task-set_task :
    (k j : Text) (t : Task) (ts : List (Text × Task))
    → text_eq k j ≡ false
    → lookup_task j (set_task k t ts) ≡ lookup_task j ts
unfolding lookup_task set_task
lookup_task-set_task k j t [] ne = ground arith
lookup_task-set_task k j t ((i, u) ∷ ts) ne =
    ground (arith, lookup_task-set_task k j t ts, text_eq_iff i k)

update_task-Given :
    (id : Text) (f : Task → Task) (r : Tasks)
    → Given r.next_id r.tasks
    → Given (update_task id f r).next_id (update_task id f r).tasks
unfolding update_task
update_task-Given id f r h = elim (Option-cases (lookup_task id r.tasks)) [
  | inl (t, found) ↦
      let (i, e, le) = lookup_task-Given r.next_id id r.tasks h found in
      rw (found, update_task) (Given-set_task r.next_id i id (f t) r.tasks e le h)
  | inr missing ↦ rw (missing, update_task) h
]

apply-Given :
    (op : TaskOp) (r : Tasks)
    → Given r.next_id r.tasks
    → Given (apply op r).next_id (apply op r).tasks
unfolding apply register succeed fail_task
apply-Given (registers kind) r h =
    Given-set_task (suc r.next_id) (suc r.next_id) (format_id (suc r.next_id)) _ r.tasks refl
      (omega arith) (Given-weaken r.next_id r.tasks h)
apply-Given (succeeds id result) r h = update_task-Given id (marshalled result) r h
apply-Given (fails id msg) r h = update_task-Given id _ r h

apply_all-Given :
    (ops : List TaskOp) (r : Tasks)
    → Given r.next_id r.tasks
    → Given (apply_all ops r).next_id (apply_all ops r).tasks
unfolding apply_all
apply_all-Given [] r h = h
apply_all-Given (op ∷ ops) r h = apply_all-Given ops (apply op r) (apply-Given op r h)

too_large : (n i : ℕ) → i ≤ n → suc n ≡ i → ⊥
too_large n i le e = omega arith

get_task-found :
    (id : Text) (r : Tasks) {t : Task} → lookup_task id r.tasks ≡ some t → get_task id r ≡ t
unfolding get_task
get_task-found id r e = ground (arith, e)

-- What a registration does to the registry.
pub record IsRegistered (kind : TaskKind) (r : Tasks) : Type 0 where
  pub fresh : lookup_task (register kind r).0 r.tasks ≡ none
  pub started : (get_task (register kind r).0 (register kind r).1).status ≡ running
  pub others :
      (j : Text)
      → j ≢ (register kind r).0
      → lookup_task j (register kind r).1.tasks ≡ lookup_task j r.tasks

-- After any history, Register gives an id that no task has, starts its task as running, and leaves
-- every other task as it was.
pub register-IsRegistered :
    (ops : List TaskOp) (kind : TaskKind) → IsRegistered kind (apply_all ops new_registry)
unfolding register
register-IsRegistered ops kind =
    let r = apply_all ops new_registry in
    let id = format_id (suc r.next_id) in
    let given = apply_all-Given ops new_registry tt in
    record {
      fresh = elim (Option-cases (lookup_task id r.tasks)) [
        | inr missing ↦ missing
        | inl (t, found) ↦
            let (i, e, le) = lookup_task-Given r.next_id id r.tasks given found in
            absurd (too_large r.next_id i le (format_id-injective (suc r.next_id) i e))
      ];
      started =
          ap (λ (x : Task). x.status)
            (get_task-found id (register kind r).1 (lookup_task-set_task_self id _ r.tasks));
      others = λ j ne. lookup_task-set_task id j _ r.tasks (ground (arith, text_eq_iff id j, ne));
    }

-- A task of this kind, under this id.
abbrev Holds : Text → Option TaskKind → Tasks → Type 0
Holds id kind r = (t : Task) × (lookup_task id r.tasks ≡ some t) × (t.kind ≡ kind)

marshalled_kind : (result : Result Text Text) (t : Task) → (marshalled result t).kind ≡ t.kind
marshalled_kind (ok raw) t = refl
marshalled_kind (err e) t = refl

update_task-Holds :
    (key id : Text) (kind : Option TaskKind) (f : Task → Task) (r : Tasks)
    → ((t : Task) → (f t).kind ≡ t.kind)
    → Holds id kind r
    → Holds id kind (update_task key f r)
unfolding update_task
update_task-Holds key id kind f r keeps (t, found, same) =
    elim (Option-cases (lookup_task key r.tasks)) [
      | inr missing ↦ rw (missing, update_task) (t, found, same)
      | inl (u, at) ↦
          rw (at, update_task)
            (elim (Bool-cases (text_eq key id)) [
              | inl here ↦
                  let e = (text_eq_iff key id).0 here in
                  (
                    f u,
                    rw (sym e) (lookup_task-set_task_self key (f u) r.tasks),
                    keeps u
                        ∙ ap (λ (x : Task). x.kind)
                            (some-injective (sym at ∙ ap (λ k. lookup_task k r.tasks) e ∙ found))
                        ∙ same,
                  )
              | inr other ↦ (t, lookup_task-set_task key id (f u) r.tasks other ∙ found, same)
            ])
    ]

apply-Holds :
    (op : TaskOp) (id : Text) (kind : Option TaskKind) (r : Tasks)
    → Given r.next_id r.tasks
    → Holds id kind r
    → Holds id kind (apply op r)
unfolding apply register succeed fail_task
apply-Holds (registers k) id kind r h (t, found, same) =
    let (i, e, le) = lookup_task-Given r.next_id id r.tasks h found in
    let new = format_id (suc r.next_id) in
    let other : text_eq new id ≡ false = elim (Bool-cases (text_eq new id)) [
      | inr x ↦ x
      | inl x ↦ absurd (
          too_large r.next_id i le
            (format_id-injective (suc r.next_id) i ((text_eq_iff new id).0 x ∙ e)))
    ] in
    (t, lookup_task-set_task new id _ r.tasks other ∙ found, same)
apply-Holds (succeeds key result) id kind r h held =
    update_task-Holds key id kind (marshalled result) r (marshalled_kind result) held
apply-Holds (fails key msg) id kind r h held = update_task-Holds key id kind _ r (λ t. refl) held

apply_all-Holds :
    (ops : List TaskOp) (id : Text) (kind : Option TaskKind) (r : Tasks)
    → Given r.next_id r.tasks
    → Holds id kind r
    → Holds id kind (apply_all ops r)
unfolding apply_all
apply_all-Holds [] id kind r h held = held
apply_all-Holds (op ∷ ops) id kind r h held =
    apply_all-Holds ops id kind (apply op r) (apply-Given op r h) (apply-Holds op id kind r h held)

started_task :
    (kind : TaskKind) (r : Tasks) → Holds (register kind r).0 (some kind) (register kind r).1
unfolding register
started_task kind r = (_, lookup_task-set_task_self (format_id (suc r.next_id)) _ r.tasks, refl)

-- A task is never lost while the process runs: whatever is registered or written back after it,
-- Get still finds a task of its kind under the id that Register returned.
pub get_task-register :
    (before after : List TaskOp) (kind : TaskKind)
    → let r = register kind (apply_all before new_registry) in
      (get_task r.0 (apply_all after r.1)).kind ≡ some kind
unfolding apply
get_task-register before after kind =
    let r = apply_all before new_registry in
    let given = apply_all-Given before new_registry tt in
    let (t, found, same) =
      apply_all-Holds after (register kind r).0 (some kind) (register kind r).1
        (apply-Given (registers kind) r given) (started_task kind r) in
    ap (λ (x : Task). x.kind) (get_task-found (register kind r).0 _ found) ∙ same
