-- ===== src/Version/Read.antt =====
-- What is distributed after a version is created: ReadCurrent reads the row of the current version
-- and then its file (version.go).
use vpn_subscription_managem.Base.{
  ℕ, ◌+◌, ◌<◌, ◌≡◌, ◌≢◌, refl, ap, ◌∙◌, Bool, true, false, ◌||◌, List, [], ◌∷◌, ◌++◌, Option, some,
  Text, ◌==◌, ok, arith, payload, keep_if,
}
use vpn_subscription_managem.Version.{
  Faults, State, Source, Version, Created, in_tx, remove_quietly, remove_all_quietly, content_of,
  file_name_for, create_body, create_with, create_version, after_commit, current_no, delete_each,
  insert_version, read_file, read_current,
}
use vpn_subscription_managem.Version.Tables.{
  Owner, Row, Db, owned, max_no, find_no, delete_no, touch, touch_row, write_file, same_owner,
}
use vpn_subscription_managem.Version.Outcome.{activated, recorded, create_body-ok}
use vpn_subscription_managem.Version.Rows.{
  nos, max_of, mem_no, without, without_each, mem_no-without, max_no-nos, same_owner_self,
  nos-delete_each,
}
use vpn_subscription_managem.Version.Bounds.{numbers, le_max_of}
use vpn_subscription_managem.Version.Invariant.{IsValid}
use vpn_subscription_managem.Version.Create.{
  in_tx-ok, create_with-ok, create_with-IsCreated, db-remove_all,
}

module _ (o : Owner) (n : ℕ) where
  find_no-delete_no :
      (g : ℕ) (rows : List Row)
      → (g == n) ≡ false
      → find_no n (owned o (delete_no o g rows)) ≡ find_no n (owned o rows)
  unfolding find_no owned keep_if delete_no
  find_no-delete_no g [] h = refl
  find_no-delete_no g (r ∷ rows) h = ground (arith, find_no-delete_no g rows h)

  find_no-delete_each :
      (gone : List ℕ) (rows : List Row)
      → mem_no n gone ≡ false
      → find_no n (owned o (delete_each o gone rows)) ≡ find_no n (owned o rows)
  unfolding delete_each mem_no
  find_no-delete_each [] rows h = refl
  find_no-delete_each (g ∷ gone) rows h =
      find_no-delete_each gone (delete_no o g rows) (ground arith)
      ∙ find_no-delete_no g rows (ground arith)

  find_no-touch :
      (m now : ℕ) (rows : List Row) {r : Row}
      → find_no n (owned o rows) ≡ some r
      → find_no n (owned o (touch o m now rows)) ≡ some (touch_row o m now r)
  unfolding find_no owned keep_if touch touch_row
  find_no-touch m now [] h = cc
  find_no-touch m now (q ∷ rows) {r} h = ground (arith, find_no-touch m now rows {r = r})

  find_no-append :
      (rows : List Row) (r : Row)
      → mem_no n (nos (owned o rows)) ≡ false
      → same_owner r.owner o ≡ true
      → r.no ≡ n
      → find_no n (owned o (rows ++ r ∷ [])) ≡ some r
  unfolding find_no owned keep_if mem_no
  find_no-append [] r h mine e = ground arith
  find_no-append (q ∷ rows) r h mine e = ground (arith, find_no-append rows r)

  mem_without_each :
      (gone ns : List ℕ) → mem_no n (without_each gone ns) ≡ true → mem_no n ns ≡ true
  unfolding without_each
  mem_without_each [] ns h = h
  mem_without_each (g ∷ gone) ns h =
      ground (arith, mem_without_each gone (without g ns) h, mem_no-without n g ns)

  not_gone : (gone ns : List ℕ) → mem_no n (without_each gone ns) ≡ true → mem_no n gone ≡ false
  unfolding mem_no without_each
  not_gone [] ns h = refl
  not_gone (g ∷ gone) ns h = ground (
    arith,
    not_gone gone (without g ns) h,
    mem_without_each gone (without g ns) h,
    mem_no-without n g ns,
  )

  files-remove_all :
      (fails : Faults) (gone : List ℕ) (s : State)
      → mem_no n gone ≡ false
      → (remove_all_quietly fails o gone s).files o n ≡ s.files o n
  unfolding remove_all_quietly remove_quietly write_file mem_no
  files-remove_all fails [] s h = refl
  files-remove_all fails (g ∷ gone) s h =
      ground (arith, files-remove_all fails gone (remove_quietly fails o g s))

above_not_mem : (n : ℕ) (ns : List ℕ) → max_of ns < n → mem_no n ns ≡ false
above_not_mem n ns h = ground (arith, le_max_of n ns)

-- The row that CreateVersion has inserted is found under its number.
find_no-recorded :
    (now : ℕ) (o : Owner) (n : ℕ) (name : Text) (a : Bool) (d : Db)
    → mem_no n (numbers o d) ≡ false
    → (r : Row) × (find_no n (owned o (recorded now o n name a d).rows) ≡ some r)
      × (r.no ≡ n)
      × (r.file_name ≡ name)
unfolding recorded activated insert_version touch_row
find_no-recorded now o n name true d fresh =
    let row : Row = record {
      id = d.next_id;
      owner = o;
      no = n;
      file_name = name;
      updated_at = now;
    } in
    (
      touch_row o n now row,
      find_no-touch o n n now (d.rows ++ row ∷ [])
          (find_no-append o n d.rows row fresh (same_owner_self o) refl),
      ground arith,
      ground arith,
    )
find_no-recorded now o n name false d fresh =
    let row : Row = record {
      id = d.next_id;
      owner = o;
      no = n;
      file_name = name;
      updated_at = now;
    } in
    (row, find_no-append o n d.rows row fresh (same_owner_self o) refl, refl, refl)

read_found :
    (o : Owner) (n : ℕ) (s : State) (content name : Text) {r : Row}
    → n ≢ 0
    → s.db.current o ≡ some n
    → find_no n (owned o s.db.rows) ≡ some r
    → r.no ≡ n
    → r.file_name ≡ name
    → s.files o n ≡ some content
    → read_current o s ≡ ok (content, name)
unfolding read_current read_file
read_found o n s content name pos cur found no_eq name_eq file = ground arith

write_file_self :
    (o : Owner) (n : ℕ) (content : Option Text) (files : Owner → ℕ → Option Text)
    → write_file o n content files o n ≡ content
unfolding write_file
write_file_self o n content files = ground (arith, same_owner_self o)

module _ (fails : Faults) (now : ℕ) (o : Owner) (s : State) (content name : Text) (a : Bool) where
  -- The rows and the files behind a version that was created.
  create_with-rows :
      {v : Version}
      → (create_with fails now o content name a s).0 ≡ ok v
      → (gone : List ℕ) × (t : State) × ((create_with fails now o content name a s).1
          ≡ remove_all_quietly fails o gone t)
        × (t.db.rows
            ≡ delete_each o gone
                (recorded now o
                  (max_no (owned o s.db.rows) + 1)
                  name
                  (current_no s.db o == 0 || a)
                  s.db).rows)
        × (t.files ≡ write_file o (max_no (owned o s.db.rows) + 1) (some content) s.files)
  unfolding create_with after_commit
  create_with-rows h =
      let body = create_body fails now o content name a in
      let t = in_tx fails body s in
      let none_created : Created = record {
        version = record { id = 0; no = 0; file_name = []; is_current = false };
        evicted = [];
      } in
      let c = payload none_created t.0 in
      (
        c.evicted,
        t.1,
        ground (arith, in_tx-ok fails body s {a = c}),
        ground (
          arith,
          in_tx-ok fails body s {a = c},
          create_body-ok fails now o content name a s {c = c},
        ),
        ground (
          arith,
          in_tx-ok fails body s {a = c},
          create_body-ok fails now o content name a s {c = c},
        ),
      )

  create_with-read :
      {v : Version}
      → IsValid o s.db
      → (create_with fails now o content name a s).0 ≡ ok v
      → v.is_current ≡ true
      → read_current o (create_with fails now o content name a s).1 ≡ ok (content, name)
  create_with-read {v} valid h active =
      let n = max_no (owned o s.db.rows) + 1 in
      let act = current_no s.db o == 0 || a in
      let s' = (create_with fails now o content name a s).1 in
      let new_rows = (recorded now o n name act s.db).rows in
      let (same_db, number, flag, row) = create_with-ok fails now o s content name a h in
      let (made, same_flag) = create_with-IsCreated fails now o s content name a valid h in
      let (gone, t, end_state, t_rows, t_files) = create_with-rows h in
      let rows_eq : s'.db.rows ≡ delete_each o gone new_rows =
        ap (λ (x : State). x.db.rows) end_state
        ∙ ap (λ (x : Db). x.rows) (db-remove_all fails o gone t)
        ∙ t_rows in
      let shape : numbers o s'.db ≡ without_each gone (nos (owned o new_rows)) =
        ap (λ (x : List Row). nos (owned o x)) rows_eq ∙ nos-delete_each o gone new_rows in
      let listed : mem_no n (without_each gone (nos (owned o new_rows))) ≡ true =
        cc (made.kept, number, shape) in
      let kept : mem_no n gone ≡ false = not_gone o n gone (nos (owned o new_rows)) listed in
      let fresh : mem_no n (numbers o s.db) ≡ false =
        above_not_mem n (numbers o s.db) (omega (arith, max_no-nos (owned o s.db.rows))) in
      let (r, found, r_no, r_name) = find_no-recorded now o n name act s.db fresh in
      read_found o n s' content name {r = r} (omega arith) (ground (arith, made.switched, number))
        (ap (λ (x : List Row). find_no n (owned o x)) rows_eq
          ∙ find_no-delete_each o n gone new_rows kept
          ∙ found)
        r_no r_name
        (ap (λ (x : State). x.files o n) end_state
          ∙ files-remove_all o n fails gone t kept
          ∙ ap (λ (f : Owner → ℕ → Option Text). f o n) t_files
          ∙ write_file_self o n (some content) s.files)

-- What is distributed after a CreateVersion that activates its version is that version: from a
-- valid state, if the source delivers `content`, CreateVersion succeeds and the new version is
-- current, then ReadCurrent returns `content` under the file name of the source (or the default
-- one of the resource type), whichever clean-up steps failed.
pub read_current-create_version :
    (fails : Faults) (now : ℕ) (o : Owner) (s : State) (src : Source) (content : Text) (a : Bool)
    {v : Version}
    → IsValid o s.db
    → content_of src ≡ ok content
    → (create_version fails now o (some src) a s).0 ≡ ok v
    → v.is_current ≡ true
    → read_current o (create_version fails now o (some src) a s).1
      ≡ ok (content, file_name_for o src)
unfolding create_version
read_current-create_version fails now o s src content a valid read h active =
    rw (read, create_version)
      (create_with-read fails now o s content (file_name_for o src) a valid
        (rw (read, create_version) at h) active)
