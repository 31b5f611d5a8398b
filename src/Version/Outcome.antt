-- ===== src/Version/Outcome.antt =====
-- The database after a successful CreateVersion, as a function of the one before (version.go).
use vpn_subscription_managem.Base.{
  ℕ, ◌+◌, ◌-◌, ◌≡◌, Bool, false, ◌||◌, List, [], some, Text, ◌==◌, leb, if◌then◌else◌, length, ok,
  arith, payload,
}
use vpn_subscription_managem.Version.{
  Faults, State, Tx, owner_current, set_current_locked, activate_if, record_version, insert_version,
  evict_oldest, oldest, delete_each, create_body, cleaning, Created, current_no, max_versions,
}
use vpn_subscription_managem.Version.Tables.{
  Owner, Db, owned, max_no, touch, set_owner_current, write_file,
}

-- `setCurrentLocked` on the database
unfoldable pub activated : ℕ → Owner → ℕ → Db → Db
activated now o n d = record d {
  current = set_owner_current o n d.current;
  rows = touch o n now d.rows;
}

unfoldable pub recorded : ℕ → Owner → ℕ → Text → Bool → Db → Db
unfolding activated
recorded now o n name activate d =
    let d' = insert_version now o n name d in if activate then activated now o n d' else d'

unfoldable pub trimmed : Owner → ℕ → Db → Db
trimmed o current d =
    let rows = owned o d.rows in
    if leb (length rows) max_versions
    then d
    else record d { rows = delete_each o (oldest (length rows - max_versions) current rows) d.rows }

module _ (fails : Faults) (now : ℕ) (o : Owner) (n : ℕ) where
  pub set_current-ok :
      (s : State) {u : Unit {0}}
      → (set_current_locked fails now o n s).0 ≡ ok u
      → ((set_current_locked fails now o n s).1.db ≡ activated now o n s.db)
        × ((set_current_locked fails now o n s).1.files ≡ s.files)
  unfolding set_current_locked activated
  set_current-ok s h = ground arith

  record_version-ok :
      (name : Text) (a : Bool) (s : State) {r : ℕ × ℕ × Bool}
      → (record_version fails now o n name a s).0 ≡ ok r
      → ((record_version fails now o n name a s).1.db ≡ recorded now o n name r.2 s.db)
        × (r.0 ≡ s.db.next_id)
        × (s.db.current o ≡ some r.1)
        × (r.2 ≡ (r.1 == 0 || a))
        × ((record_version fails now o n name a s).1.files ≡ s.files)
  unfolding record_version recorded owner_current activate_if insert_version
  record_version-ok name a s h =
      ground (arith, set_current-ok (record s { db = insert_version now o n name s.db }))

  evict_oldest-ok :
      (s : State) {gone : List ℕ}
      → (evict_oldest fails o n s).0 ≡ ok gone
      → ((evict_oldest fails o n s).1.db ≡ trimmed o n s.db)
        × ((trimmed o n s.db).rows ≡ delete_each o gone s.db.rows)
        × ((evict_oldest fails o n s).1.files ≡ s.files)
  unfolding evict_oldest trimmed delete_each
  evict_oldest-ok s h = ground arith

-- What CreateVersion's transaction leaves in the database, from the version that it returns.
unfoldable pub created_db : ℕ → Owner → Text → Bool → Db → Db
created_db now o name a d =
    let n = max_no (owned o d.rows) + 1 in
    let a' = current_no d o == 0 || a in
    trimmed o (if a' then n else current_no d o) (recorded now o n name a' d)

-- The removal on an error changes neither the result nor a success.
cleaning-ok :
    (fails : Faults) (o : Owner) (n : ℕ) {A : Type 0} (body : Tx A) (s : State) {r : A}
    → ((cleaning fails o n body s).0 ≡ (body s).0)
      × ((body s).0 ≡ ok r → (cleaning fails o n body s).1 ≡ (body s).1)
unfolding cleaning
cleaning-ok fails o n body s = (ground arith, λ h. ground arith)

pub create_body-ok :
    (fails : Faults) (now : ℕ) (o : Owner) (content name : Text) (a : Bool) (s : State)
    {c : Created}
    → (create_body fails now o content name a s).0 ≡ ok c
    → ((create_body fails now o content name a s).1.db ≡ created_db now o name a s.db)
      × (c.version.no ≡ max_no (owned o s.db.rows) + 1)
      × (c.version.is_current ≡ (current_no s.db o == 0 || a))
      × (s.db.current o ≡ some (current_no s.db o))
      × (let act = current_no s.db o == 0 || a in
          let n = max_no (owned o s.db.rows) + 1 in
          ((create_body fails now o content name a s).1.db.rows
            ≡ delete_each o c.evicted (recorded now o n name act s.db).rows)
          × ((create_body fails now o content name a s).1.files
              ≡ write_file o n (some content) s.files))
unfolding create_body created_db
create_body-ok fails now o content name a s h =
    let n = max_no (owned o s.db.rows) + 1 in
    let s1 : State = record s { files = write_file o n (some content) s.files } in
    let m = record_version fails now o n name a s1 in
    let r = payload (0, 0, false) m.0 in
    let cur = if r.2 then n else r.1 in
    ground (
      arith,
      cleaning-ok fails o n (record_version fails now o n name a) s1 {r = r},
      record_version-ok fails now o n name a s1 {r = r},
      evict_oldest-ok fails now o cur m.1 {gone = payload [] (evict_oldest fails o cur m.1).0},
    )
