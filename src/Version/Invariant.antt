-- ===== src/Version/Invariant.antt =====
-- The invariant of a resource's versions, and what CreateVersion does to it (version.go).
use mathlib.Core.Path.{subst}
use vpn_subscription_managem.Base.{
  ℕ, zero, suc, ◌+◌, ◌≤◌, ◌<◌, ◌≡◌, ◌≢◌, refl, ap, ◌∙◌, Bool, true, false, ◌||◌, List, [], ◌∷◌,
  ◌++◌, Option, none, some, Text, ◌==◌, if◌then◌else◌, length, length-append, arith,
}
use vpn_subscription_managem.Version.{current_no, insert_version, max_versions}
use vpn_subscription_managem.Version.Tables.{Owner, Db, owned, max_no, set_owner_current}
use vpn_subscription_managem.Version.Rows.{
  max_of, mem_no, Ascending, Ascending-append, mem_no-append, max_no-nos, nos-append_row, nos-touch,
  same_owner_self,
}
use vpn_subscription_managem.Version.Outcome.{trimmed, recorded, created_db}
use vpn_subscription_managem.Version.Bounds.{
  numbers, trim, IsTrim, trim-IsTrim, numbers-trimmed, max_of-append,
}

-- A resource without versions has no current one; otherwise the current one is among them.
abbrev pub HasActive : Option ℕ → List ℕ → Type 0
HasActive none ns = ns ≡ []
HasActive (some zero) ns = ns ≡ []
HasActive (some (suc n)) ns = mem_no (suc n) ns ≡ true

pub record IsValid (o : Owner) (d : Db) : Type 0 where
  pub ascending : Ascending (numbers o d)
  pub bounded : length (numbers o d) ≤ max_versions
  pub active : HasActive (d.current o) (numbers o d)

pub set_owner_current_self :
    (o : Owner) (n : ℕ) (d : Db)
    → {k : ℕ} → d.current o ≡ some k
    → set_owner_current o n d.current o ≡ some n
unfolding set_owner_current
set_owner_current_self o n d h = ground (arith, same_owner_self o)

numbers-insert_version :
    (now : ℕ) (o : Owner) (n : ℕ) (name : Text) (d : Db)
    → numbers o (insert_version now o n name d) ≡ numbers o d ++ n ∷ []
unfolding insert_version
numbers-insert_version now o n name d =
    nos-append_row o d.rows
      (record { id = d.next_id; owner = o; no = n; file_name = name; updated_at = now })
      (same_owner_self o)

numbers-recorded :
    (now : ℕ) (o : Owner) (n : ℕ) (name : Text) (a : Bool) (d : Db)
    → numbers o (recorded now o n name a d) ≡ numbers o d ++ n ∷ []
unfolding recorded
numbers-recorded now o n name true d =
    nos-touch o o n now (insert_version now o n name d).rows ∙ numbers-insert_version now o n name d
numbers-recorded now o n name false d = numbers-insert_version now o n name d

current-recorded :
    (now : ℕ) (o : Owner) (n : ℕ) (name : Text) (a : Bool) (d : Db) {k : ℕ}
    → d.current o ≡ some k
    → (recorded now o n name a d).current o ≡ some (if a then n else k)
unfolding recorded insert_version
current-recorded now o n name true d h =
    set_owner_current_self o n (insert_version now o n name d) h
current-recorded now o n name false d h = h

current-trimmed : (o : Owner) (k : ℕ) (d : Db) → (trimmed o k d).current ≡ d.current
unfolding trimmed
current-trimmed o k d = ground arith

-- What a committed CreateVersion has done to the resource.
pub record IsCreated (o : Owner) (a : Bool) (n : ℕ) (d d' : Db) : Type 0 where
  pub valid : IsValid o d'
  pub switched : d'.current o ≡ some (if a then n else current_no d o)
  pub kept : mem_no n (numbers o d') ≡ true
  pub largest : max_of (numbers o d) < n
  pub gives_up_one : length (numbers o d) ≤ length (numbers o d')

HasActive-mem :
    (k n : ℕ) (ns : List ℕ) (a : Bool)
    → 0 < n
    → HasActive (some k) ns
    → let c = (if k == 0 || a then n else k) in (mem_no c (ns ++ n ∷ []) ≡ true) × (c ≢ 0)
HasActive-mem zero n ns a pos h = ground (arith, mem_no-append n n ns)
HasActive-mem (suc k) n ns a pos h =
    ground (arith, mem_no-append n n ns, mem_no-append (suc k) n ns)

pub HasActive-some : (k : ℕ) (ns : List ℕ) → mem_no k ns ≡ true → k ≢ 0 → HasActive (some k) ns
HasActive-some zero ns h p = absurd (p refl)
HasActive-some (suc k) ns h p = h

created_db-eq :
    (now : ℕ) (o : Owner) (name : Text) (a : Bool) (d : Db) (k : ℕ)
    → d.current o ≡ some k
    → let n = max_no (owned o d.rows) + 1 in
      created_db now o name a d
      ≡ trimmed o (if k == 0 || a then n else k) (recorded now o n name (k == 0 || a) d)
unfolding created_db
created_db-eq now o name a d k row = rw (row, current_no) refl

IsCreated-of :
    (o : Owner) (a : Bool) (n c : ℕ) (d d' : Db)
    → max_of (numbers o d) < n
    → c ≡ (if a then n else current_no d o)
    → c ≢ 0
    → d'.current o ≡ some c
    → IsTrim c n (numbers o d ++ n ∷ []) (numbers o d')
    → IsCreated o a n d d'
IsCreated-of o a n c d d' top c-eq nonzero cur t = record {
  valid = record {
    ascending = t.ascending;
    bounded = t.bounded;
    active = rw cur (HasActive-some c (numbers o d') t.keeps_current nonzero);
  };
  switched = cur ∙ ap some c-eq;
  kept = t.keeps_last;
  largest = top;
  gives_up_one = omega (arith, t.keeps_most, length-append {0} (numbers o d) (n ∷ []));
}

-- Creating a version of a resource that has its row keeps the invariant: at most five versions,
-- the new one among them, and the current one among them.
pub created_db-IsCreated :
    (now : ℕ) (o : Owner) (name : Text) (a : Bool) (d : Db) (k : ℕ)
    → d.current o ≡ some k
    → IsValid o d
    → IsCreated o (k == 0 || a) (max_no (owned o d.rows) + 1) d (created_db now o name a d)
created_db-IsCreated now o name a d k row v =
    let n = max_no (owned o d.rows) + 1 in
    let act = k == 0 || a in
    let c = if act then n else k in
    let d1 = recorded now o n name act d in
    let ns = numbers o d ++ n ∷ [] in
    let top : max_of (numbers o d) < n = omega (arith, max_no-nos (owned o d.rows)) in
    let active : HasActive (some k) (numbers o d) =
      subst (λ x. HasActive x (numbers o d)) row v.active in
    let (here, nonzero) = HasActive-mem k n (numbers o d) a (omega arith) active in
    let asc = Ascending-append n (numbers o d) v.ascending top in
    let six : length ns ≤ 6 = omega (arith, length-append {0} (numbers o d) (n ∷ []), v.bounded) in
    let t =
      trim-IsTrim c n ns asc six here (ground (arith, mem_no-append n n (numbers o d)))
        (omega (arith, max_of-append n (numbers o d))) in
    let same = numbers-recorded now o n name act d in
    let shape : numbers o (trimmed o c d1) ≡ trim c ns =
      numbers-trimmed o c d1 (rw same asc) (rw same six) ∙ ap (trim c) same in
    rw (created_db-eq now o name a d k row) (
      IsCreated-of o act n c d (trimmed o c d1) top (rw (row, current_no) refl) nonzero
        (rw (current-trimmed o c d1) (current-recorded now o n name act d row)) (rw shape t))
