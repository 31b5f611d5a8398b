-- ===== src/Slug.antt =====
-- Generated identifiers of resources: backend/internal/slug/slug.go. The random source of each
-- attempt (`none` where it fails, and otherwise as many bytes as are read) and the test for an
-- identifier in use are arguments.
pub mod Generate
mod Tests
use vpn_subscription_managem.Base.{
  ℕ, zero, suc, ◌%◌, Bool, true, false, ◌||◌, List, [], ◌∷◌, ◌++◌, Option, none, some, Text,
  text_eq, codes, if◌then◌else◌, map, length, Result, ok, err, ◌>>=◌,
}

pub data SlugError : Type 0 where
  random_failed collisions query_failed : SlugError

abbrev pub slug_charset : Text
slug_charset = codes "abcdefghjkmnpqrstuvwxyz23456789"

abbrev pub char_at : ℕ → Text → ℕ
char_at n [] = 0
char_at zero (c ∷ cs) = c
char_at (suc n) (c ∷ cs) = char_at n cs

-- the first n bytes of the random source
unfoldable pub first_bytes : ℕ → (ℕ → ℕ) → List ℕ
first_bytes zero source = []
first_bytes (suc n) source = source 0 ∷ first_bytes n (λ i. source (suc i))

-- `randomCode`
unfoldable pub random_code : ℕ → Option (ℕ → ℕ) → Result SlugError Text
random_code n none = err random_failed
random_code n (some source) =
    ok (map (λ b. char_at (b % length slug_charset) slug_charset) (first_bytes n source))

-- the answer of `exists`, `none` for its error
unfoldable pub answered : Option Bool → Result SlugError Bool
answered none = err query_failed
answered (some dup) = ok dup

-- the loop of `Generate`, with the attempts that are left and the number of the next one
unfoldable pub generate_from :
    ℕ → ℕ → Text → (ℕ → Option (ℕ → ℕ)) → (Text → Option Bool) → Result SlugError Text
generate_from zero attempt prefix draw exists = err collisions
generate_from (suc left) attempt prefix draw exists = do
  code ← random_code 8 (draw attempt)
  dup ← answered (exists (prefix ++ code))
  if dup then generate_from left (suc attempt) prefix draw exists else ok (prefix ++ code)

-- `Generate`: three attempts
unfoldable pub generate : Text → (ℕ → Option (ℕ → ℕ)) → (Text → Option Bool) → Result SlugError Text
generate prefix draw exists = generate_from 3 0 prefix draw exists
