-- ===== src/RateLimit/Limit.antt =====
-- The requests of one scope, address and minute (ratelimit/ratelimit.go: Middleware).
use Prim.Native.Nat.{◌≤◌, min}
use vpn_subscription_managem.Base.{
  ℕ, suc, ◌+◌, ◌-◌, ◌≡◌, refl, ap, sym, ◌∙◌, true, false, ◌&&◌, List, [], ◌∷◌, Text, text_eq,
  text_eq_iff, text_eq_self, if◌then◌else◌, keep_if, Bool-cases, inl, inr, arith,
}
use vpn_subscription_managem.RateLimit.{
  Buckets, count_of, set_count, is_expired, gc, Request, key_of, limit_request,
}

count_of-set_count_self : (k : Text) (n : ℕ) (bs : Buckets) → count_of k (set_count k n bs) ≡ n
unfolding count_of set_count
count_of-set_count_self k n [] = ground (arith, text_eq_self k)
count_of-set_count_self k n ((j, m) ∷ bs) =
    ground (arith, text_eq_self k, count_of-set_count_self k n bs)

count_of-set_count :
    (k j : Text) (n : ℕ) (bs : Buckets)
    → text_eq k j ≡ false
    → count_of j (set_count k n bs) ≡ count_of j bs
unfolding count_of set_count
count_of-set_count k j n [] ne = ground arith
count_of-set_count k j n ((i, m) ∷ bs) ne =
    ground (arith, count_of-set_count k j n bs, text_eq_iff i k)

-- The collection leaves the buckets that have not expired.
count_of-gc :
    (cutoff k : Text) (bs : Buckets)
    → is_expired cutoff k ≡ false
    → count_of k (gc cutoff bs) ≡ count_of k bs
unfolding count_of gc keep_if
count_of-gc cutoff k [] h = refl
count_of-gc cutoff k ((j, m) ∷ bs) h = ground (arith, count_of-gc cutoff k bs h, text_eq_iff j k)

-- How many of the requests under a key pass, one after another.
unfoldable pub passed : Text → List Request → Buckets → ℕ
passed k [] bs = 0
passed k (r ∷ rs) bs =
    let rest = passed k rs (limit_request r bs).1 in
    if text_eq (key_of r) k && (limit_request r bs).0 then suc rest else rest

-- Under the key the limit is the same at every request, and the key does not expire: the requests
-- are of its minute.
abbrev pub Steady : Text → ℕ → List Request → Type 0
Steady k limit [] = Unit
Steady k limit (r ∷ rs) =
    (is_expired r.cutoff k ≡ false)
    × (text_eq (key_of r) k ≡ true → r.limit ≡ limit)
    × Steady k limit rs

-- The requests under a key.
unfoldable pub asked : Text → List Request → ℕ
asked k [] = 0
asked k (r ∷ rs) = let rest = asked k rs in if text_eq (key_of r) k then suc rest else rest

passed_left :
    (k : Text) (limit : ℕ) (rs : List Request) (bs : Buckets)
    → Steady k limit rs
    → passed k rs bs ≡ min (asked k rs) (limit - count_of k bs)
unfolding passed limit_request asked
passed_left k limit [] bs h = omega arith
passed_left k limit (r ∷ rs) bs h =
    let count = count_of (key_of r) bs + 1 in
    let after = set_count (key_of r) count bs in
    let rest = passed_left k limit rs (gc r.cutoff after) h.2 in
    let kept = count_of-gc r.cutoff k after h.0 in
    elim (Bool-cases (text_eq (key_of r) k)) [
      | inl mine ↦
          let e = (text_eq_iff (key_of r) k).0 mine in
          let same = h.1 mine in
          let now =
            kept
            ∙ ap (λ j. count_of j after) (sym e)
            ∙ count_of-set_count_self (key_of r) count bs in
          let before = ap (λ j. count_of j bs) e in ground (arith, rest, now, before, same, mine)
      | inr other ↦
          let now = kept ∙ count_of-set_count (key_of r) k count bs other in
          ground (arith, rest, now, other)
    ]

-- Of the requests of one scope, address and minute exactly as many pass as the limit leaves after
-- those counted before, and the limit at most, whatever other requests come between, while the
-- limit stays the same and no cutoff is later than that minute.
pub passed_lem :
    (k : Text) (limit : ℕ) (rs : List Request) (bs : Buckets)
    → Steady k limit rs
    → (passed k rs bs ≡ min (asked k rs) (limit - count_of k bs)) × (passed k rs bs ≤ limit)
passed_lem k limit rs bs h = let left = passed_left k limit rs bs h in (left, omega (arith, left))
