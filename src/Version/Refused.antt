-- ===== src/Version/Refused.antt =====
-- What a CreateVersion that returns an error leaves of what ReadCurrent distributes (version.go).
use vpn_subscription_managem.Base.{
  ℕ, ◌+◌, ◌≤◌, ◌≡◌, refl, Bool, false, List, [], ◌∷◌, Option, none, some, Text, ◌==◌, if◌then◌else◌,
  err, arith, payload, Option-cases, inl, inr,
}
use vpn_subscription_managem.Base.Procs.{transact}
use vpn_subscription_managem.Version.{
  Faults, State, Source, VersionError, Tx, create_version, create_with, create_body, record_version,
  insert_version, set_current_locked, activate_if, owner_current, cleaning, evict_oldest,
  remove_quietly, content_of, file_name_for, in_tx, after_commit, read_file, read_current,
}
use vpn_subscription_managem.Version.Tables.{Owner, Row, owned, max_no, find_no, write_file}
use vpn_subscription_managem.Version.Create.{create_version_error}

find_no-max_no : (n : ℕ) (rows : List Row) {r : Row} → find_no n rows ≡ some r → r.no ≤ max_no rows
unfolding find_no max_no
find_no-max_no n [] h = cc
find_no-max_no n (q ∷ rows) {r} h = ground (arith, find_no-max_no n rows {r = r})

module _ (fails : Faults) (now : ℕ) (o : Owner) where
  files-set_current : (n : ℕ) (s : State) → (set_current_locked fails now o n s).1.files ≡ s.files
  unfolding set_current_locked
  files-set_current n s = ground arith

  files-record_version :
      (n : ℕ) (name : Text) (a : Bool) (s : State)
      → (record_version fails now o n name a s).1.files ≡ s.files
  unfolding record_version owner_current activate_if insert_version
  files-record_version n name a s =
      ground (arith, files-set_current n (record s { db = insert_version now o n name s.db }))

  files-evict_oldest : (k : ℕ) (s : State) → (evict_oldest fails o k s).1.files ≡ s.files
  unfolding evict_oldest
  files-evict_oldest k s = ground arith

  files-cleaning :
      (m n : ℕ) {A : Type 0} (body : Tx A) (s : State)
      → (m == n) ≡ false
      → (cleaning fails o n body s).1.files o m ≡ (body s).1.files o m
  unfolding cleaning remove_quietly write_file
  files-cleaning m n body s h = ground (arith, h)

  -- The files of the versions before stay, whatever fails.
  files-create_body :
      (m : ℕ) (content name : Text) (a : Bool) (s : State)
      → (m == max_no (owned o s.db.rows) + 1) ≡ false
      → (create_body fails now o content name a s).1.files o m ≡ s.files o m
  unfolding create_body write_file
  files-create_body m content name a s h =
      let n = max_no (owned o s.db.rows) + 1 in
      let s1 : State = record s { files = write_file o n (some content) s.files } in
      let body = record_version fails now o n name a in
      let t = cleaning fails o n body s1 in
      let r = payload (0, 0, false) t.0 in
      ground (
        arith,
        h,
        files-cleaning m n body s1 h,
        files-record_version n name a s1,
        files-evict_oldest (if r.2 then n else r.1) t.1,
      )

  files-in_tx :
      (m : ℕ) {A : Type 0} (body : Tx A) (s : State)
      → (body s).1.files o m ≡ s.files o m
      → (in_tx fails body s).1.files o m ≡ s.files o m
  unfolding in_tx transact
  files-in_tx m body s h = ground (arith, h)

  files-create_with_error :
      (m : ℕ) (content name : Text) (a : Bool) (s : State) {e : VersionError}
      → (m == max_no (owned o s.db.rows) + 1) ≡ false
      → (create_with fails now o content name a s).0 ≡ err e
      → (create_with fails now o content name a s).1.files o m ≡ s.files o m
  unfolding create_with after_commit
  files-create_with_error m content name a s h e =
      let body = create_body fails now o content name a in
      ground (arith, e, files-in_tx m body s (files-create_body m content name a s h))

  files-create_version_error :
      (m : ℕ) (src : Option Source) (a : Bool) (s : State) {e : VersionError}
      → (m == max_no (owned o s.db.rows) + 1) ≡ false
      → (create_version fails now o src a s).0 ≡ err e
      → (create_version fails now o src a s).1.files o m ≡ s.files o m
  unfolding create_version
  files-create_version_error m none a s h x = refl
  files-create_version_error m (some src) a s {e} h x = ground (
    arith,
    x,
    files-create_with_error m (payload [] (content_of src)) (file_name_for o src) a s {e = e} h,
  )

read_file_same :
    (o : Owner) (n : ℕ) (s t : State)
    → ((m : ℕ) → (m == max_no (owned o s.db.rows) + 1) ≡ false → t.files o m ≡ s.files o m)
    → read_file t o (find_no n (owned o s.db.rows)) ≡ read_file s o (find_no n (owned o s.db.rows))
unfolding read_file
read_file_same o n s t h = elim (Option-cases (find_no n (owned o s.db.rows))) [
  | inl (r, e) ↦
      let low = find_no-max_no n (owned o s.db.rows) {r = r} e in
      ground (arith, e, h r.no (ground (arith, low)))
  | inr e ↦ rw e refl
]

read_current_same :
    (o : Owner) (s t : State)
    → t.db ≡ s.db
    → ((m : ℕ) → (m == max_no (owned o s.db.rows) + 1) ≡ false → t.files o m ≡ s.files o m)
    → read_current o t ≡ read_current o s
unfolding read_current
read_current_same o s t d h = elim (Option-cases (s.db.current o)) [
  | inl (n, e) ↦ ground (arith, d, e, read_file_same o n s t h)
  | inr e ↦ ground (arith, d, e)
]

-- A CreateVersion that returns an error, at whatever step and with whatever clean-up failing,
-- leaves the database as it was, and ReadCurrent goes on to return what it returned.
pub read_current-create_version_error :
    (fails : Faults) (now : ℕ) (o : Owner) (s : State) (src : Option Source) (a : Bool)
    {e : VersionError}
    → (create_version fails now o src a s).0 ≡ err e
    → ((create_version fails now o src a s).1.db ≡ s.db)
      × (read_current o (create_version fails now o src a s).1 ≡ read_current o s)
read_current-create_version_error fails now o s src a {e} h =
    let same_db = create_version_error fails now o s src a h in
    (
      same_db,
      read_current_same o s (create_version fails now o src a s).1 same_db
          (λ m other. files-create_version_error fails now o m src a s {e = e} other h),
    )
