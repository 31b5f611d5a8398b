-- ===== src/Version/Frame.antt =====
-- Two resources under CreateVersion, SwitchVersion and DeleteVersion (version.go).
use vpn_subscription_managem.Base.{
  ℕ, ◌+◌, ◌-◌, length, ◌≡◌, refl, Bool, false, List, [], ◌∷◌, Option, none, some, Text,
  if◌then◌else◌, keep_if, arith, payload,
}
use vpn_subscription_managem.Base.Procs.{transact}
use vpn_subscription_managem.Version.{
  Faults, State, Source, Created, create_version, create_with, create_body, record_version,
  insert_version, set_current_locked, activate_if, owner_current, cleaning, evict_oldest,
  remove_quietly, remove_all_quietly, content_of, file_name_for, in_tx, after_commit, attempt,
  switch_version, delete_version, delete_body, remove_row, Tx, oldest, max_versions,
}
use vpn_subscription_managem.Version.Tables.{
  Owner, Row, owned, max_no, touch, touch_row, same_owner, set_owner_current, set_link, write_file,
}
use vpn_subscription_managem.Version.Rows.{
  owned-delete_each, owned-delete_no, owned-append_row, same_owner-eq, same_owner_self,
}

-- Two states agree on a resource: its rows, its current version, its files and its link.
pub record SameOwner (p : Owner) (s s' : State) : Type 0 where
  pub rows : owned p s'.db.rows ≡ owned p s.db.rows
  pub current : s'.db.current p ≡ s.db.current p
  pub files : (m : ℕ) → s'.files p m ≡ s.files p m
  pub link : s'.link p ≡ s.link p

module _ (o p : Owner) (other : same_owner p o ≡ false) where
  owned-touch : (n now : ℕ) (rows : List Row) → owned p (touch o n now rows) ≡ owned p rows
  unfolding owned keep_if touch touch_row
  owned-touch n now [] = refl
  owned-touch n now (r ∷ rows) = ground (
    arith,
    owned-touch n now rows,
    other,
    same_owner-eq r.owner o,
    same_owner-eq r.owner p,
    same_owner_self o,
    same_owner_self p,
  )

  swapped : same_owner o p ≡ false
  swapped = ground (arith, same_owner-eq o p, other, same_owner_self o)

  module _ (m : ℕ) where
    abbrev Same : State → State → Type 0
    Same s s' =
        (owned p s'.db.rows ≡ owned p s.db.rows)
        × (s'.db.current p ≡ s.db.current p)
        × (s'.files p m ≡ s.files p m)
        × (s'.link p ≡ s.link p)

    set_current-Same :
        (fails : Faults) (now n : ℕ) (s : State) → Same s (set_current_locked fails now o n s).1
    unfolding set_current_locked set_owner_current set_link
    set_current-Same fails now n s = ground (arith, other, owned-touch n now s.db.rows)

    insert_version-rows :
        (now n : ℕ) (name : Text) (s : State)
        → owned p (insert_version now o n name s.db).rows ≡ owned p s.db.rows
    unfolding insert_version
    insert_version-rows now n name s =
        owned-append_row p s.db.rows
          (record { id = s.db.next_id; owner = o; no = n; file_name = name; updated_at = now })
          swapped

    record_version-Same :
        (fails : Faults) (now n : ℕ) (name : Text) (a : Bool) (s : State)
        → Same s (record_version fails now o n name a s).1
    unfolding record_version owner_current activate_if insert_version
    record_version-Same fails now n name a s = ground (
      arith,
      insert_version-rows now n name s,
      set_current-Same fails now n (record s { db = insert_version now o n name s.db }),
    )

    remove_quietly-Same : (fails : Faults) (n : ℕ) (s : State) → Same s (remove_quietly fails o n s)
    unfolding remove_quietly write_file
    remove_quietly-Same fails n s = ground (arith, other)

    remove_all-Same :
        (fails : Faults) (ns : List ℕ) (s : State) → Same s (remove_all_quietly fails o ns s)
    unfolding remove_all_quietly
    remove_all-Same fails [] s = (refl, refl, refl, refl)
    remove_all-Same fails (n ∷ ns) s = ground (
      arith,
      remove_quietly-Same fails n s,
      remove_all-Same fails ns (remove_quietly fails o n s),
    )

    cleaning-Same :
        (fails : Faults) (n : ℕ) {A : Type 0} (body : Tx A) (s : State)
        → Same s (body s).1
        → Same s (cleaning fails o n body s).1
    unfolding cleaning
    cleaning-Same fails n body s h = ground (arith, h, remove_quietly-Same fails n (body s).1)

    evict_oldest-Same : (fails : Faults) (k : ℕ) (s : State) → Same s (evict_oldest fails o k s).1
    unfolding evict_oldest
    evict_oldest-Same fails k s =
        let rows = owned o s.db.rows in
        ground (
          arith,
          owned-delete_each p o (oldest (length rows - max_versions) k rows) s.db.rows other,
        )

    create_body-Same :
        (fails : Faults) (now : ℕ) (content name : Text) (a : Bool) (s : State)
        → Same s (create_body fails now o content name a s).1
    unfolding create_body write_file
    create_body-Same fails now content name a s =
        let n = max_no (owned o s.db.rows) + 1 in
        let s1 : State = record s { files = write_file o n (some content) s.files } in
        let body = record_version fails now o n name a in
        let t = cleaning fails o n body s1 in
        let r = payload (0, 0, false) t.0 in
        ground (
          arith,
          other,
          cleaning-Same fails n body s1 (record_version-Same fails now n name a s1),
          evict_oldest-Same fails (if r.2 then n else r.1) t.1,
        )

    in_tx-Same :
        (fails : Faults) {A : Type 0} (body : Tx A) (s : State)
        → Same s (body s).1
        → Same s (in_tx fails body s).1
    unfolding in_tx transact
    in_tx-Same fails body s h = ground (arith, h)

    create_with-Same :
        (fails : Faults) (now : ℕ) (content name : Text) (a : Bool) (s : State)
        → Same s (create_with fails now o content name a s).1
    unfolding create_with after_commit
    create_with-Same fails now content name a s =
        let body = create_body fails now o content name a in
        let t = in_tx fails body s in
        let none_created : Created = record {
          version = record { id = 0; no = 0; file_name = []; is_current = false };
          evicted = [];
        } in
        ground (
          arith,
          in_tx-Same fails body s (create_body-Same fails now content name a s),
          remove_all-Same fails (payload none_created t.0).evicted t.1,
        )

    create_version-Same :
        (fails : Faults) (now : ℕ) (src : Option Source) (a : Bool) (s : State)
        → Same s (create_version fails now o src a s).1
    unfolding create_version
    create_version-Same fails now none a s = (refl, refl, refl, refl)
    create_version-Same fails now (some src) a s =
        ground (
          arith,
          create_with-Same fails now (payload [] (content_of src)) (file_name_for o src) a s,
        )

    switch_version-Same :
        (fails : Faults) (now n : ℕ) (s : State) → Same s (switch_version fails now o n s).1
    unfolding switch_version attempt in_tx transact
    switch_version-Same fails now n s = ground (arith, set_current-Same fails now n s)

    delete_body-Same : (fails : Faults) (n : ℕ) (s : State) → Same s (delete_body fails o n s).1
    unfolding delete_body remove_row owner_current
    delete_body-Same fails n s = ground (arith, owned-delete_no p o n s.db.rows other)

    delete_version-Same :
        (fails : Faults) (n : ℕ) (s : State) → Same s (delete_version fails o n s).1
    unfolding delete_version
    delete_version-Same fails n s =
        let t = in_tx fails (delete_body fails o n) s in
        ground (
          arith,
          in_tx-Same fails (delete_body fails o n) s (delete_body-Same fails n s),
          remove_quietly-Same fails n t.1,
        )

  Same-SameOwner : (s s' : State) → ((m : ℕ) → Same m s s') → SameOwner p s s'
  Same-SameOwner s s' h = record {
    rows = (h 0).0;
    current = (h 0).1;
    files = λ m. (h m).2;
    link = (h 0).3;
  }

  pub delete_version-SameOwner :
      (fails : Faults) (n : ℕ) (s : State) → SameOwner p s (delete_version fails o n s).1
  delete_version-SameOwner fails n s =
      Same-SameOwner s (delete_version fails o n s).1 (λ m. delete_version-Same m fails n s)

  -- Whatever it returns, CreateVersion for one resource leaves the versions, the current version,
  -- the files and the link of every other resource as they were; so do SwitchVersion and
  -- DeleteVersion.
  pub operations-SameOwner :
      (fails : Faults) (now n : ℕ) (src : Option Source) (a : Bool) (s : State)
      → SameOwner p s (create_version fails now o src a s).1
        × SameOwner p s (switch_version fails now o n s).1
        × SameOwner p s (delete_version fails o n s).1
  operations-SameOwner fails now n src a s = (
    Same-SameOwner s (create_version fails now o src a s).1
        (λ m. create_version-Same m fails now src a s),
    Same-SameOwner s (switch_version fails now o n s).1 (λ m. switch_version-Same m fails now n s),
    delete_version-SameOwner fails n s,
  )
