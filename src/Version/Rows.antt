-- ===== src/Version/Rows.antt =====
-- The version numbers of a resource under the statements of version.go: inserting, stamping and
-- deleting rows, for the resource itself and for the others.
use Prim.Native.Nat.{max}
use vpn_subscription_managem.Base.{
  ℕ, suc, ◌+◌, ◌<◌, ◌≡◌, refl, ap, ◌∙◌, Bool, true, false, ◌&&◌, ◌||◌, not, List, [], ◌∷◌, ◌++◌,
  ◌==◌, if◌then◌else◌, keep_if, map, length, All, arith,
}
use vpn_subscription_managem.Version.{delete_each}
use vpn_subscription_managem.Version.Tables.{
  OwnerType, subscription, rule, custom, share, Owner, Row, owned, max_no, find_no, has_no,
  delete_no, touch, touch_row, order_by_no, insert_by_no, same_kind, same_owner,
}

-- The version numbers of a list of rows.
abbrev pub nos : List Row → List ℕ
nos rows = map (λ r. r.no) rows

unfoldable pub max_of : List ℕ → ℕ
max_of [] = 0
max_of (n ∷ ns) = max n (max_of ns)

unfoldable pub mem_no : ℕ → List ℕ → Bool
mem_no n [] = false
mem_no n (m ∷ ns) = m == n || mem_no n ns

unfoldable pub without : ℕ → List ℕ → List ℕ
without n [] = []
without n (m ∷ ns) = if m == n then without n ns else m ∷ without n ns

same_kind-eq : (a b : OwnerType) → same_kind a b ≡ true → a ≡ b
unfolding same_kind
same_kind-eq subscription b h = ground arith
same_kind-eq rule b h = ground arith
same_kind-eq custom b h = ground arith
same_kind-eq share b h = ground arith

pub same_owner-eq : (o p : Owner) → same_owner o p ≡ true → o ≡ p
unfolding same_owner
same_owner-eq o p h = ground (arith, same_kind-eq o.kind p.kind)

same_kind_self : (a : OwnerType) → same_kind a a ≡ true
unfolding same_kind
same_kind_self subscription = refl
same_kind_self rule = refl
same_kind_self custom = refl
same_kind_self share = refl

pub same_owner_self : (o : Owner) → same_owner o o ≡ true
unfolding same_owner
same_owner_self o = ground (arith, same_kind_self o.kind)

pub max_no-nos : (rows : List Row) → max_no rows ≡ max_of (nos rows)
unfolding max_no max_of
max_no-nos [] = refl
max_no-nos (r ∷ rows) = ap (max r.no) (max_no-nos rows)

pub length-nos : (rows : List Row) → length rows ≡ length (nos rows)
length-nos [] = refl
length-nos (r ∷ rows) = ap suc (length-nos rows)

pub has_no-nos : (n : ℕ) (rows : List Row) → has_no n rows ≡ mem_no n (nos rows)
unfolding find_no mem_no
has_no-nos n [] = refl
has_no-nos n (r ∷ rows) = ground (arith, has_no-nos n rows)

module _ (o : Owner) where
  pub owned-append : (xs ys : List Row) → owned o (xs ++ ys) ≡ owned o xs ++ owned o ys
  unfolding owned keep_if
  owned-append [] ys = refl
  owned-append (r ∷ xs) ys = ground (arith, owned-append xs ys)

  pub nos-touch :
      (p : Owner) (n now : ℕ) (rows : List Row)
      → nos (owned o (touch p n now rows)) ≡ nos (owned o rows)
  unfolding owned keep_if touch touch_row
  nos-touch p n now [] = refl
  nos-touch p n now (r ∷ rows) = ground (arith, nos-touch p n now rows)

  pub nos-delete_no :
      (n : ℕ) (rows : List Row)
      → nos (owned o (delete_no o n rows)) ≡ without n (nos (owned o rows))
  unfolding owned keep_if delete_no without
  nos-delete_no n [] = refl
  nos-delete_no n (r ∷ rows) = ground (arith, nos-delete_no n rows)

  -- Deleting a version of another resource leaves the rows of this one.
  pub owned-delete_no :
      (p : Owner) (n : ℕ) (rows : List Row)
      → same_owner o p ≡ false
      → owned o (delete_no p n rows) ≡ owned o rows
  unfolding owned keep_if delete_no
  owned-delete_no p n [] h = refl
  owned-delete_no p n (r ∷ rows) h = ground (
    arith,
    owned-delete_no p n rows h,
    same_owner-eq r.owner o,
    same_owner-eq r.owner p,
    same_owner_self p,
  )

-- The deletes of an eviction, on the numbers.
unfoldable pub without_each : List ℕ → List ℕ → List ℕ
without_each [] ns = ns
without_each (g ∷ gone) ns = without_each gone (without g ns)

pub nos-delete_each :
    (o : Owner) (gone : List ℕ) (rows : List Row)
    → nos (owned o (delete_each o gone rows)) ≡ without_each gone (nos (owned o rows))
unfolding delete_each without_each
nos-delete_each o [] rows = refl
nos-delete_each o (g ∷ gone) rows =
    nos-delete_each o gone (delete_no o g rows) ∙ ap (without_each gone) (nos-delete_no o g rows)

pub owned-delete_each :
    (o p : Owner) (gone : List ℕ) (rows : List Row)
    → same_owner o p ≡ false
    → owned o (delete_each p gone rows) ≡ owned o rows
unfolding delete_each
owned-delete_each o p [] rows h = refl
owned-delete_each o p (g ∷ gone) rows h =
    owned-delete_each o p gone (delete_no p g rows) h ∙ owned-delete_no o p g rows h

abbrev pub Above : ℕ → List ℕ → Type 0
Above n = All (λ m. n < m)

-- Strictly increasing numbers.
abbrev pub Ascending : List ℕ → Type 0
Ascending [] = Unit
Ascending (n ∷ ns) = Above n ns × Ascending ns

abbrev pub AscendingRows : List Row → Type 0
AscendingRows rows = Ascending (nos rows)

insert_by_no-head :
    (r : Row) (rows : List Row) → Above r.no (nos rows) → insert_by_no r rows ≡ r ∷ rows
unfolding insert_by_no
insert_by_no-head r [] h = refl
insert_by_no-head r (q ∷ rows) h = ground arith

-- Rows that are in order already are left as they are by ORDER BY.
pub order_by_no-id : (rows : List Row) → AscendingRows rows → order_by_no rows ≡ rows
unfolding order_by_no
order_by_no-id [] h = refl
order_by_no-id (r ∷ rows) (a, h) = rw (order_by_no-id rows h) (insert_by_no-head r rows a)

Above-without : (n k : ℕ) (ns : List ℕ) → Above n ns → Above n (without k ns)
unfolding without
Above-without n k [] h = tt
Above-without n k (m ∷ ns) h = ground (arith, Above-without n k ns)

pub Ascending-without : (k : ℕ) (ns : List ℕ) → Ascending ns → Ascending (without k ns)
unfolding without
Ascending-without k [] h = tt
Ascending-without k (m ∷ ns) h = ground (arith, Ascending-without k ns, Above-without m k ns)

Above-append : (n m : ℕ) (ns : List ℕ) → Above n ns → n < m → Above n (ns ++ m ∷ [])
Above-append n m [] h lt = (lt, tt)
Above-append n m (k ∷ ns) (a, h) lt = (a, Above-append n m ns h lt)

-- One more than the largest number goes behind the others.
pub Ascending-append :
    (m : ℕ) (ns : List ℕ) → Ascending ns → max_of ns < m → Ascending (ns ++ m ∷ [])
unfolding max_of
Ascending-append m [] h lt = (tt, tt)
Ascending-append m (k ∷ ns) (a, h) lt =
    (Above-append k m ns a (omega arith), Ascending-append m ns h (omega arith))

pub mem_no-append : (n m : ℕ) (ns : List ℕ) → mem_no n (ns ++ m ∷ []) ≡ (mem_no n ns || m == n)
unfolding mem_no
mem_no-append n m [] = ground arith
mem_no-append n m (k ∷ ns) = ground (arith, mem_no-append n m ns)

pub mem_no-without :
    (n k : ℕ) (ns : List ℕ) → mem_no n (without k ns) ≡ (mem_no n ns && not (k == n))
unfolding mem_no without
mem_no-without n k [] = refl
mem_no-without n k (m ∷ ns) = ground (arith, mem_no-without n k ns)

without-Above : (k : ℕ) (ns : List ℕ) → Above k ns → without k ns ≡ ns
unfolding without
without-Above k [] h = refl
without-Above k (m ∷ ns) h = ground (arith, without-Above k ns)

-- Distinct numbers: deleting one of them leaves one row less.
pub length-without :
    (k : ℕ) (ns : List ℕ)
    → Ascending ns
    → mem_no k ns ≡ true
    → length ns ≡ length (without k ns) + 1
unfolding mem_no without
length-without k [] h e = cc
length-without k (m ∷ ns) h e = ground (arith, length-without k ns, without-Above k ns)

pub nos-keep :
    (k : ℕ) (rows : List Row) → nos (keep_if (λ r. not (r.no == k)) rows) ≡ without k (nos rows)
unfolding keep_if without
nos-keep k [] = refl
nos-keep k (r ∷ rows) = ground (arith, nos-keep k rows)

-- A new row goes behind the rows of its resource, and is not among those of another.
pub nos-append_row :
    (o : Owner) (rows : List Row) (r : Row)
    → same_owner r.owner o ≡ true
    → nos (owned o (rows ++ r ∷ [])) ≡ nos (owned o rows) ++ r.no ∷ []
unfolding owned keep_if
nos-append_row o [] r h = rw h refl
nos-append_row o (q ∷ rows) r h = ground (arith, nos-append_row o rows r h)

pub owned-append_row :
    (o : Owner) (rows : List Row) (r : Row)
    → same_owner r.owner o ≡ false
    → owned o (rows ++ r ∷ []) ≡ owned o rows
unfolding owned keep_if
owned-append_row o [] r h = rw h refl
owned-append_row o (q ∷ rows) r h = ground (arith, owned-append_row o rows r h)
