-- ===== src/Version/Bounds.antt =====
-- The bound on the versions of a resource, and which version an eviction removes (evictOldest in
-- version.go).
use Prim.Native.Nat.{max}
use mathlib.Core.Path.{subst}
use vpn_subscription_managem.Base.{
  ℕ, ◌+◌, ◌-◌, ◌≤◌, ◌<◌, ◌≡◌, refl, ap, ◌∙◌, true, false, not, List, [], ◌∷◌, ◌++◌, ◌==◌, leb,
  if◌then◌else◌, keep_if, map, length, arith, Bool-cases, inl, inr, take,
}
use vpn_subscription_managem.Version.{oldest, max_versions}
use vpn_subscription_managem.Version.Tables.{Owner, Row, Db, owned}
use vpn_subscription_managem.Version.Rows.{
  nos, max_of, mem_no, without, without_each, nos-delete_each, order_by_no-id, Ascending,
  Ascending-without, mem_no-without, length-without, nos-keep, length-nos,
}
use vpn_subscription_managem.Version.Outcome.{trimmed}

-- The version numbers of a resource.
abbrev pub numbers : Owner → Db → List ℕ
numbers o d = nos (owned o d.rows)

abbrev without_head : List ℕ → List ℕ → List ℕ
without_head [] ns = ns
without_head (g ∷ gs) ns = without g ns

-- The smallest number that is not the current one is given up once there are six.
pub trim : ℕ → List ℕ → List ℕ
trim current ns = if leb (length ns) max_versions then ns else without_head (without current ns) ns

take_one-nos : (rows : List Row) → map (λ r. r.no) (take 1 rows) ≡ take 1 (nos rows)
take_one-nos [] = refl
take_one-nos (r ∷ rows) = refl

without_each-take : (gs ns : List ℕ) → without_each (take 1 gs) ns ≡ without_head gs ns
unfolding without_each
without_each-take [] ns = refl
without_each-take (g ∷ gs) ns = refl

oldest_one :
    (current : ℕ) (rows : List Row)
    → Ascending (nos rows)
    → oldest 1 current rows ≡ take 1 (without current (nos rows))
unfolding oldest
oldest_one current rows h =
    let kept = keep_if (λ r. not (r.no == current)) rows in
    rw (order_by_no-id kept (rw (nos-keep current rows) (Ascending-without current (nos rows) h)))
      (take_one-nos kept ∙ ap (take 1) (nos-keep current rows))

excess_one :
    (rows : List Row)
    → leb (length rows) max_versions ≡ false
    → length (nos rows) ≤ 6
    → length rows - max_versions ≡ 1
excess_one rows many six = ground (arith, length-nos rows)

pub numbers-trimmed :
    (o : Owner) (current : ℕ) (d : Db)
    → Ascending (numbers o d)
    → length (numbers o d) ≤ 6
    → numbers o (trimmed o current d) ≡ trim current (numbers o d)
unfolding trimmed trim
numbers-trimmed o current d h six =
    let rows = owned o d.rows in
    elim (Bool-cases (leb (length rows) max_versions)) [
      | inl few ↦ rw (few, ← length-nos rows) (rw few refl)
      | inr many ↦
          rw (many, ← length-nos rows)
            (rw many (
              nos-delete_each o (oldest (length rows - max_versions) current rows) d.rows
              ∙ rw (excess_one rows many six) (
                  rw (oldest_one current rows h)
                    (without_each-take (without current (nos rows)) (nos rows)))))
    ]

pub le_max_of : (n : ℕ) (ns : List ℕ) → mem_no n ns ≡ true → n ≤ max_of ns
unfolding mem_no max_of
le_max_of n [] h = cc
le_max_of n (m ∷ ns) h = ground (arith, le_max_of n ns)

pub max_of-append : (m : ℕ) (ns : List ℕ) → max_of (ns ++ m ∷ []) ≡ max (max_of ns) m
unfolding max_of
max_of-append m [] = omega arith
max_of-append m (k ∷ ns) = omega (arith, max_of-append m ns)

-- What an eviction does to at most six numbers, of which `m` is the largest and the last.
pub record IsTrim (current m : ℕ) (ns gs : List ℕ) : Type 0 where
  pub ascending : Ascending gs
  pub bounded : length gs ≤ max_versions
  pub keeps_current : mem_no current gs ≡ true
  pub keeps_last : mem_no m gs ≡ true
  pub keeps_most : length ns ≤ length gs + 1

without_head-IsTrim :
    (current m g h : ℕ) (gs ns : List ℕ)
    → Ascending ns
    → length ns ≤ 6
    → mem_no current ns ≡ true
    → mem_no m ns ≡ true
    → max_of ns ≤ m
    → without current ns ≡ g ∷ h ∷ gs
    → IsTrim current m ns (without g ns)
unfolding mem_no
without_head-IsTrim current m g h gs ns asc six c l top e =
    let g_in : mem_no g (without current ns) ≡ true = rw e (ground arith) in
    let h_in : mem_no h (without current ns) ≡ true = rw e (ground arith) in
    let sorted : Ascending (g ∷ h ∷ gs) = subst Ascending e (Ascending-without current ns asc) in
    let in_g : mem_no g ns ≡ true = ground (arith, mem_no-without g current ns) in
    let below : g < m = ground (arith, mem_no-without h current ns, le_max_of h ns) in
    record {
      ascending = Ascending-without g ns asc;
      bounded = omega (arith, length-without g ns asc in_g);
      keeps_current = ground (arith, mem_no-without current g ns, mem_no-without g current ns);
      keeps_last = ground (arith, mem_no-without m g ns);
      keeps_most = omega (arith, length-without g ns asc in_g);
    }

IsTrim-cases :
    (current m : ℕ) (ns rest : List ℕ)
    → Ascending ns
    → length ns ≡ 6
    → mem_no current ns ≡ true
    → mem_no m ns ≡ true
    → max_of ns ≤ m
    → without current ns ≡ rest
    → IsTrim current m ns (without_head rest ns)
IsTrim-cases current m ns [] asc six c l top e =
    absurd (omega (arith, length-without current ns asc c, ap (length {A = ℕ}) e))
IsTrim-cases current m ns (g ∷ []) asc six c l top e =
    absurd (omega (arith, length-without current ns asc c, ap (length {A = ℕ}) e))
IsTrim-cases current m ns (g ∷ h ∷ gs) asc six c l top e =
    without_head-IsTrim current m g h gs ns asc (omega arith) c l top e

pub trim-IsTrim :
    (current m : ℕ) (ns : List ℕ)
    → Ascending ns
    → length ns ≤ 6
    → mem_no current ns ≡ true
    → mem_no m ns ≡ true
    → max_of ns ≤ m
    → IsTrim current m ns (trim current ns)
unfolding trim
trim-IsTrim current m ns asc six c l top = elim (Bool-cases (leb (length ns) max_versions)) [
  | inl few ↦ rw few (record {
    ascending = asc;
    bounded = ground arith;
    keeps_current = c;
    keeps_last = l;
    keeps_most = omega arith;
  })
  | inr many ↦
      rw many (IsTrim-cases current m ns (without current ns) asc (ground arith) c l top refl)
]
