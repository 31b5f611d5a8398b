-- ===== src/Version/Delete.antt =====
-- DeleteVersion and SwitchVersion (version.go).
use mathlib.Core.Path.{subst}
use vpn_subscription_managem.Base.{
  ℕ, zero, suc, ◌≤◌, ◌≡◌, ◌≢◌, refl, ap, Bool, true, false, List, [], ◌∷◌, Option, none, some,
  length, ok, arith, keep_if, not, ◌==◌, ◌⊎◌, ◌↔◌, Bool-cases, inl, inr,
}
use vpn_subscription_managem.Base.Procs.{transact}
use vpn_subscription_managem.Version.{
  Faults, Step, select_total, select_current, delete_row, begin, commit, State, Source, Version,
  in_tx, attempt, remove_quietly, delete_body, delete_version, switch_version, owner_current,
  remove_row, create_version,
}
use vpn_subscription_managem.Version.Tables.{
  Owner, Row, Db, owned, delete_no, same_owner, write_file,
}
use vpn_subscription_managem.Version.Outcome.{activated, set_current-ok}
use vpn_subscription_managem.Version.Rows.{
  max_of, mem_no, without, Ascending-without, mem_no-without, length-without, nos-delete_no,
  nos-touch, has_no-nos, max_no-nos, length-nos,
}
use vpn_subscription_managem.Version.Bounds.{numbers, le_max_of}
use vpn_subscription_managem.Version.Invariant.{
  IsValid, HasActive, set_owner_current_self, HasActive-some,
}
use vpn_subscription_managem.Version.Frame.{SameOwner, delete_version-SameOwner}
use vpn_subscription_managem.Version.Create.{in_tx-ok, db-remove_quietly, create_version-no}

-- The database without one version.
pub dropped : Owner → ℕ → Db → Db
dropped o n d = record d { rows = delete_no o n d.rows }

mem_no-nil : (n : ℕ) (ns : List ℕ) → ns ≡ [] → mem_no n ns ≡ true → ⊥
unfolding mem_no
mem_no-nil n ns e h = cc (subst (λ l. mem_no n l ≡ true) e h)

without-HasActive :
    (n : ℕ) (current : Option ℕ) (ns : List ℕ)
    → current ≢ some n
    → HasActive current ns
    → mem_no n ns ≡ true
    → HasActive current (without n ns)
without-HasActive n none ns ne active listed = absurd (mem_no-nil n ns active listed)
without-HasActive n (some zero) ns ne active listed = absurd (mem_no-nil n ns active listed)
without-HasActive n (some (suc k)) ns ne active listed =
    ground (arith, mem_no-without (suc k) n ns, ne)

dropped-IsValid :
    (o : Owner) (n : ℕ) (d : Db)
    → d.current o ≢ some n
    → mem_no n (numbers o d) ≡ true
    → IsValid o d
    → IsValid o (dropped o n d)
unfolding dropped
dropped-IsValid o n d inactive listed valid =
    let ns = numbers o d in
    let same = nos-delete_no o n d.rows in
    record {
      ascending = rw same (Ascending-without n ns valid.ascending);
      bounded = rw same (omega (arith, length-without n ns valid.ascending listed, valid.bounded));
      active = rw same (without-HasActive n (d.current o) ns inactive valid.active listed);
    }

-- The rows of the resource under the deletion of one of its versions.
owned-delete_no_self :
    (o : Owner) (n : ℕ) (rows : List Row)
    → owned o (delete_no o n rows) ≡ keep_if (λ r. not (r.no == n)) (owned o rows)
unfolding owned keep_if delete_no
owned-delete_no_self o n [] = refl
owned-delete_no_self o n (r ∷ rows) = ground (arith, owned-delete_no_self o n rows)

module _ (fails : Faults) (o : Owner) (n : ℕ) (s : State) where
  -- Only a version that exists, is not current and is not the last one is deleted.
  pub record IsDeletable : Type 0 where
    pub several : 2 ≤ length (numbers o s.db)
    pub listed : mem_no n (numbers o s.db) ≡ true
    pub inactive : s.db.current o ≢ some n

  delete_body-ok :
      {u : Unit {0}}
      → (delete_body fails o n s).0 ≡ ok u
      → IsDeletable × ((delete_body fails o n s).1.db ≡ dropped o n s.db)
  unfolding delete_body owner_current dropped remove_row
  delete_body-ok h =
      let rows = owned o s.db.rows in
      (
        record {
          several = ground (arith, length-nos rows);
          listed = ground (arith, has_no-nos n rows);
          inactive = ground arith;
        },
        ground arith,
      )

  -- What a DeleteVersion that returns no error has done.
  delete_version-ok :
      {u : Unit {0}}
      → (delete_version fails o n s).0 ≡ ok u
      → IsDeletable × ((delete_version fails o n s).1.db ≡ dropped o n s.db)
  unfolding delete_version
  delete_version-ok h =
      let t = in_tx fails (delete_body fails o n) s in
      let body : (delete_body fails o n s).0 ≡ ok tt =
        ground (arith, in_tx-ok fails (delete_body fails o n) s {a = tt}) in
      let (able, same_db) = delete_body-ok body in
      (
        able,
        ground (
          arith,
          in_tx-ok fails (delete_body fails o n) s {a = tt},
          same_db,
          db-remove_quietly fails o n t.1,
        ),
      )

  -- The rows of the version are gone and those of the other versions are left; so are their files,
  -- the link, and all that belongs to another resource.
  pub record IsRemoved (p : Owner) (s' : State) : Type 0 where
    pub rows : owned o s'.db.rows ≡ keep_if (λ r. not (r.no == n)) (owned o s.db.rows)
    pub files : (m : ℕ) → (m ≡ n) ⊎ (s'.files o m ≡ s.files o m)
    pub link : s'.link o ≡ s.link o
    pub others : SameOwner p s s'

  delete_version-files :
      (m : ℕ) → (m ≡ n) ⊎ ((delete_version fails o n s).1.files o m ≡ s.files o m)
  unfolding delete_version delete_body remove_row owner_current in_tx transact remove_quietly
      write_file
  delete_version-files m = elim (Bool-cases (m == n)) [
    | inl e ↦ inl (ground (arith, e))
    | inr e ↦ inr (ground (arith, e))
  ]

  delete_version-link : (delete_version fails o n s).1.link o ≡ s.link o
  unfolding delete_version delete_body remove_row owner_current in_tx transact remove_quietly
  delete_version-link = ground arith

  -- A DeleteVersion that succeeds was asked for a version that exists, is not the current one and
  -- is not the last one. It removes its row and leaves the other rows of the resource, its other
  -- files, its link and its current version; it leaves the rows, the current version, the files and
  -- the link of any other resource; and it keeps the invariant.
  pub delete_version-IsValid :
      {u : Unit {0}} {p : Owner}
      → same_owner p o ≡ false
      → IsValid o s.db
      → (delete_version fails o n s).0 ≡ ok u
      → let s' = (delete_version fails o n s).1 in
        IsDeletable
        × IsRemoved p s'
        × IsValid o s'.db
        × (numbers o s'.db ≡ without n (numbers o s.db))
        × (s'.db.current ≡ s.db.current)
  delete_version-IsValid {p = p} other valid h =
      let (able, same_db) = delete_version-ok h in
      (
        able,
        record {
          rows = rw same_db (unfold dropped in owned-delete_no_self o n s.db.rows);
          files = delete_version-files;
          link = delete_version-link;
          others = delete_version-SameOwner o p other fails n s;
        },
        rw same_db (dropped-IsValid o n s.db able.inactive able.listed valid),
        rw same_db (unfold dropped in nos-delete_no o n s.db.rows),
        rw same_db (unfold dropped in refl),
      )

  set_current-IsValid :
      (now : ℕ) (d : Db) {k : ℕ}
      → d.current o ≡ some k
      → n ≢ 0
      → mem_no n (numbers o d) ≡ true
      → IsValid o d
      → IsValid o (activated now o n d)
  unfolding activated
  set_current-IsValid now d row pos listed valid =
      let same = nos-touch o o n now d.rows in
      record {
        ascending = rw same valid.ascending;
        bounded = rw same valid.bounded;
        active =
            rw same
              (rw (set_owner_current_self o n d row) (HasActive-some n (numbers o d) listed pos));
      }

  switch_version-ok :
      (now : ℕ) {u : Unit {0}}
      → (switch_version fails now o n s).0 ≡ ok u
      → (mem_no n (numbers o s.db) ≡ true)
        × ((switch_version fails now o n s).1.db ≡ activated now o n s.db)
  unfolding switch_version in_tx transact attempt
  switch_version-ok now h =
      let rows = owned o s.db.rows in
      (ground (arith, has_no-nos n rows), ground (arith, set_current-ok fails now o n s {u = tt}))

  has_row :
      (current : Option ℕ) (ns : List ℕ)
      → HasActive current ns
      → mem_no n ns ≡ true
      → (k : ℕ) × (current ≡ some k)
  has_row none ns active listed = absurd (mem_no-nil n ns active listed)
  has_row (some k) ns active listed = (k, refl)

  delete_version_able :
      ((st : Step) → fails st ≡ false)
      → {k : ℕ} → s.db.current o ≡ some k
      → IsDeletable
      → (delete_version fails o n s).0 ≡ ok tt
  unfolding delete_version in_tx transact delete_body owner_current remove_row
  delete_version_able fine row able = ground (
    arith,
    fine select_total,
    fine select_current,
    fine delete_row,
    fine begin,
    fine commit,
    able.several,
    able.listed,
    able.inactive,
    length-nos (owned o s.db.rows),
    has_no-nos n (owned o s.db.rows),
  )

  -- From a valid state and where no step fails, DeleteVersion succeeds exactly if the resource has
  -- two versions or more, the given one is among them, and it is not the current one.
  pub delete_version_complete :
      IsValid o s.db
      → ((st : Step) → fails st ≡ false)
      → ((delete_version fails o n s).0 ≡ ok tt) ↔ IsDeletable
  delete_version_complete valid fine = (
    λ h. (delete_version-ok h).0,
    λ able.
        let (k, row) = has_row (s.db.current o) (numbers o s.db) valid.active able.listed in
        delete_version_able fine row able,
  )

  -- A SwitchVersion that succeeds was asked for a version that exists; it makes that version the
  -- current one, keeps the set of versions, and keeps the invariant.
  pub switch_version-IsValid :
      (now : ℕ) {u : Unit {0}}
      → IsValid o s.db
      → n ≢ 0
      → (switch_version fails now o n s).0 ≡ ok u
      → let d = (switch_version fails now o n s).1.db in
        (mem_no n (numbers o s.db) ≡ true)
        × IsValid o d
        × (d.current o ≡ some n)
        × (numbers o d ≡ numbers o s.db)
  switch_version-IsValid now valid pos h =
      let (listed, same_db) = switch_version-ok now h in
      let (k, row) = has_row (s.db.current o) (numbers o s.db) valid.active listed in
      (
        listed,
        rw same_db (set_current-IsValid now s.db row pos listed valid),
        rw same_db (unfold activated in set_owner_current_self o n s.db row),
        rw same_db (unfold activated in nos-touch o o n now s.db.rows),
      )

max_of-without : (n : ℕ) (ns : List ℕ) → max_of ns ≤ suc n → max_of (without (suc n) ns) ≤ n
unfolding max_of without
max_of-without n [] h = omega arith
max_of-without n (m ∷ ns) h = ground (arith, max_of-without n ns)

max_of_freed :
    (n : ℕ) (ns : List ℕ) → max_of ns ≡ suc n → mem_no n ns ≡ true → max_of (without (suc n) ns) ≡ n
max_of_freed n ns top below =
    ground
      (arith, max_of-without n ns, le_max_of n (without (suc n) ns), mem_no-without n (suc n) ns)

-- Deleting the newest version frees its number: from a valid state, if n + 1 is the largest number
-- of the resource and the version n exists, then after a DeleteVersion of n + 1 that succeeds the
-- next CreateVersion that succeeds numbers its version n + 1 again.
pub create-delete_reuses :
    (fails : Faults) (now : ℕ) (o : Owner) (n : ℕ) (s : State) (src : Option Source) (a : Bool)
    {u : Unit {0}} {v : Version}
    → IsValid o s.db
    → (delete_version fails o (suc n) s).0 ≡ ok u
    → mem_no n (numbers o s.db) ≡ true
    → max_of (numbers o s.db) ≡ suc n
    → (create_version fails now o src a (delete_version fails o (suc n) s).1).0 ≡ ok v
    → v.no ≡ suc n
create-delete_reuses fails now o n s src a valid deleted below top created =
    let t = (delete_version fails o (suc n) s).1 in
    let same_db = (delete_version-ok fails o (suc n) s deleted).1 in
    let same_numbers : numbers o t.db ≡ without (suc n) (numbers o s.db) =
      rw same_db (unfold dropped in nos-delete_no o (suc n) s.db.rows) in
    omega (
      arith,
      create_version-no fails now o t src a created,
      max_no-nos (owned o t.db.rows),
      ap max_of same_numbers,
      max_of_freed n (numbers o s.db) top below,
    )
