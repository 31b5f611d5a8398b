-- ===== src/Version/Create.antt =====
-- CreateVersion as a whole, with its transaction and its failures (version.go).
use vpn_subscription_managem.Base.{
  ℕ, ◌+◌, ◌≡◌, refl, ◌∙◌, Bool, false, ◌||◌, List, [], ◌∷◌, Option, none, some, Text, ◌==◌, ok, err,
  arith, inl, inr, payload, Result-cases, err-ne-ok,
}
use vpn_subscription_managem.Base.Procs.{transact}
use vpn_subscription_managem.Version.{
  Faults, State, Tx, VersionError, Source, Version, Created, content_of, in_tx, remove_quietly,
  remove_all_quietly, create_body, create_with, create_version, current_no, file_name_for,
  after_commit,
}
use vpn_subscription_managem.Version.Tables.{Owner, owned, max_no}
use vpn_subscription_managem.Version.Outcome.{created_db, create_body-ok}
use vpn_subscription_managem.Version.Invariant.{IsValid, IsCreated, created_db-IsCreated}

module _ (fails : Faults) {A : Type 0} (body : Tx A) (s : State) where
  -- A transaction that succeeds has left what its function left.
  pub in_tx-ok :
      {a : A}
      → (in_tx fails body s).0 ≡ ok a
      → ((body s).0 ≡ ok a) × ((in_tx fails body s).1 ≡ (body s).1)
  unfolding in_tx transact
  in_tx-ok h = (ground arith, ground arith)

  -- A transaction that fails has left the database as it was.
  pub db-in_tx :
      {e : VersionError} → (in_tx fails body s).0 ≡ err e → (in_tx fails body s).1.db ≡ s.db
  unfolding in_tx transact
  db-in_tx h = ground arith

pub db-remove_quietly :
    (fails : Faults) (o : Owner) (n : ℕ) (s : State) → (remove_quietly fails o n s).db ≡ s.db
unfolding remove_quietly
db-remove_quietly fails o n s = ground arith

pub db-remove_all :
    (fails : Faults) (o : Owner) (ns : List ℕ) (s : State)
    → (remove_all_quietly fails o ns s).db ≡ s.db
unfolding remove_all_quietly
db-remove_all fails o [] s = refl
db-remove_all fails o (n ∷ ns) s =
    db-remove_all fails o ns (remove_quietly fails o n s) ∙ db-remove_quietly fails o n s

module _ (fails : Faults) (now : ℕ) (o : Owner) (s : State) where
  pub create_with-err :
      (content name : Text) (a : Bool) {e : VersionError}
      → (create_with fails now o content name a s).0 ≡ err e
      → (create_with fails now o content name a s).1.db ≡ s.db
  unfolding create_with after_commit
  create_with-err content name a {e} h =
      let body = create_body fails now o content name a in
      ground (arith, db-in_tx fails body s {e = e})

  pub create_with-ok :
      (content name : Text) (a : Bool) {v : Version}
      → (create_with fails now o content name a s).0 ≡ ok v
      → ((create_with fails now o content name a s).1.db ≡ created_db now o name a s.db)
        × (v.no ≡ max_no (owned o s.db.rows) + 1)
        × (v.is_current ≡ (current_no s.db o == 0 || a))
        × (s.db.current o ≡ some (current_no s.db o))
  unfolding create_with after_commit
  create_with-ok content name a h =
      let body = create_body fails now o content name a in
      let t = in_tx fails body s in
      let none_created : Created = record {
        version = record { id = 0; no = 0; file_name = []; is_current = false };
        evicted = [];
      } in
      let c = payload none_created t.0 in
      ground (
        arith,
        in_tx-ok fails body s {a = c},
        create_body-ok fails now o content name a s {c = c},
        db-remove_all fails o c.evicted t.1,
      )

  pub create_with-IsCreated :
      (content name : Text) (a : Bool) {v : Version}
      → IsValid o s.db
      → (create_with fails now o content name a s).0 ≡ ok v
      → IsCreated o v.is_current v.no s.db (create_with fails now o content name a s).1.db
        × (v.is_current ≡ (current_no s.db o == 0 || a))
  create_with-IsCreated content name a valid h =
      let (same_db, number, active, row) = create_with-ok content name a h in
      (
        rw (same_db, number, active)
            (created_db-IsCreated now o name a s.db (current_no s.db o) row valid),
        active,
      )

  -- Whatever fails, and wherever, CreateVersion leaves the database as it was when it returns an
  -- error.
  pub create_version_error :
      (src : Option Source) (a : Bool) {e : VersionError}
      → (create_version fails now o src a s).0 ≡ err e
      → (create_version fails now o src a s).1.db ≡ s.db
  unfolding create_version
  create_version_error none a h = refl
  create_version_error (some src) a {e} h =
      let name = file_name_for o src in
      ground (arith, create_with-err (payload [] (content_of src)) name a {e = e})

  -- From a valid state, a CreateVersion that succeeds keeps the resource valid (at most five
  -- versions in increasing order, the current one among them), keeps the new version, numbers it
  -- above all others, gives up at most one version, and makes the new one current exactly when
  -- the resource had none or activation was asked for.
  pub create_version-IsCreated :
      (src : Option Source) (a : Bool) {v : Version}
      → IsValid o s.db
      → (create_version fails now o src a s).0 ≡ ok v
      → IsCreated o v.is_current v.no s.db (create_version fails now o src a s).1.db
        × (v.is_current ≡ (current_no s.db o == 0 || a))
  unfolding create_version
  create_version-IsCreated none a valid h = cc
  create_version-IsCreated (some src) a {v} valid h = elim (Result-cases (content_of src)) [
    | inl (content, read) ↦
        rw (read, create_version)
          (create_with-IsCreated content (file_name_for o src) a valid
            (rw (read, create_version) at h))
    | inr (e, failed) ↦ absurd (err-ne-ok (rw (failed, create_version) at h))
  ]

  -- The number is the largest number in the table and one.
  pub create_version-no :
      (src : Option Source) (a : Bool) {v : Version}
      → (create_version fails now o src a s).0 ≡ ok v
      → v.no ≡ max_no (owned o s.db.rows) + 1
  unfolding create_version
  create_version-no none a h = cc
  create_version-no (some src) a {v} h =
      ground (arith, create_with-ok (payload [] (content_of src)) (file_name_for o src) a {v = v})
