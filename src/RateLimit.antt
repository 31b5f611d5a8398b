-- ===== src/RateLimit.antt =====
-- The request limiter by address and minute: backend/internal/ratelimit/ratelimit.go. The minute
-- of a request and the cutoff of the collection, as the library formats them, are arguments; so is
-- the limit, which is read at each request.
pub mod Limit
mod Tests
use vpn_subscription_managem.Base.{
  ℕ, zero, suc, ◌+◌, Bool, true, false, ◌&&◌, ◌||◌, not, List, [], ◌∷◌, ◌++◌, Option, none, some,
  Text, text_eq, ◌==◌, ltb, if◌then◌else◌, keep_if, drop,
}

abbrev pub Buckets : Type 0
Buckets = List (Text × ℕ)

-- `l.buckets[key]`: the zero bucket on a missing key
unfoldable pub count_of : Text → Buckets → ℕ
count_of k [] = 0
count_of k ((j, n) ∷ bs) = if text_eq j k then n else count_of k bs

unfoldable pub set_count : Text → ℕ → Buckets → Buckets
set_count k n [] = (k, n) ∷ []
set_count k n ((j, m) ∷ bs) = if text_eq j k then (k, n) ∷ bs else (j, m) ∷ set_count k n bs

-- `lastSep`: none for -1
unfoldable pub last_sep : Text → Option ℕ
last_sep [] = none
last_sep (c ∷ cs) = elim (last_sep cs) [
  | some i ↦ some (suc i)
  | none ↦ if c == b'|' then some 0 else none
]

-- `a < b` on strings
unfoldable pub text_lt : Text → Text → Bool
text_lt a [] = false
text_lt [] (y ∷ ys) = true
text_lt (x ∷ xs) (y ∷ ys) = if ltb x y then true else x == y && text_lt xs ys

unfoldable pub is_expired : Text → Text → Bool
is_expired cutoff k = elim (last_sep k) [ none ↦ false | some i ↦ text_lt (drop (suc i) k) cutoff ]

unfoldable pub gc : Text → Buckets → Buckets
gc cutoff bs = keep_if (λ b. not (is_expired cutoff b.0)) bs

pub record Request : Type 0 where
  pub scope : Text
  pub ip : Text
  pub slot : Text
  pub cutoff : Text
  pub limit : ℕ

unfoldable pub key_of : Request → Text
key_of r = r.scope ++ b'|' ∷ r.ip ++ b'|' ∷ r.slot

-- `Middleware`: whether the request passes, and the buckets
unfoldable pub limit_request : Request → Buckets → Bool × Buckets
limit_request r bs =
    let count = count_of (key_of r) bs + 1 in
    (not (ltb r.limit count), gc r.cutoff (set_count (key_of r) count bs))
