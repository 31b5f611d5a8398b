-- ===== src/Slug/Generate.antt =====
-- What Generate returns (slug/slug.go).
use mathlib.Core.Path.{subst}
use Prim.Native.Nat.{◌<◌}
use vpn_subscription_managem.Base.{
  ℕ, zero, suc, ◌+◌, ◌%◌, ◌≡◌, ◌↔◌, refl, ap, ◌∙◌, sym, Bool, true, false, Bool-cases, List, [],
  ◌∷◌, ◌++◌, Option, none, some, Text, ok, err, >>=-eq-ok, ok-injective, inl, inr, map, length,
  arith, ◌==◌, ◌>>=◌, if◌then◌else◌, Result-cases,
}
use vpn_subscription_managem.Slug.{
  collisions, first_bytes, random_code, answered, generate_from, generate, slug_charset, char_at,
}
use vpn_subscription_managem.Emergency.OpCode.{AllOccur, occurs}

length-first_bytes : (n : ℕ) (source : ℕ → ℕ) → length (first_bytes n source) ≡ n
unfolding first_bytes
length-first_bytes zero source = refl
length-first_bytes (suc n) source = ap suc (length-first_bytes n (λ i. source (suc i)))

abbrev slug_char : ℕ → ℕ
slug_char b = char_at (b % length slug_charset) slug_charset

length-slug_chars : (bytes : List ℕ) → length (map slug_char bytes) ≡ length bytes
length-slug_chars [] = refl
length-slug_chars (b ∷ bs) = ap suc (length-slug_chars bs)

occurs-char_at : (n : ℕ) (cs : Text) → n < length cs → occurs (char_at n cs) cs ≡ true
unfolding occurs
occurs-char_at n [] lt = absurd (omega arith)
occurs-char_at zero (c ∷ cs) lt = ground arith
occurs-char_at (suc n) (c ∷ cs) lt = ground (arith, occurs-char_at n cs)

slug_chars-AllOccur : (bytes : List ℕ) → AllOccur (map slug_char bytes) slug_charset
slug_chars-AllOccur [] = tt
slug_chars-AllOccur (b ∷ bs) =
    (occurs-char_at (b % length slug_charset) slug_charset (omega arith), slug_chars-AllOccur bs)

random_code-ok :
    (n : ℕ) (source : Option (ℕ → ℕ)) {code : Text}
    → random_code n source ≡ ok code
    → (length code ≡ n) × AllOccur code slug_charset
unfolding random_code
random_code-ok n none h = cc
random_code-ok n (some source) h = rw (sym (ok-injective h)) (
  length-slug_chars (first_bytes n source) ∙ length-first_bytes n source,
  slug_chars-AllOccur (first_bytes n source),
)

not_collisions : (source : Option (ℕ → ℕ)) → random_code 8 source ≡ err collisions → ⊥
unfolding random_code
not_collisions none h = cc
not_collisions (some source) h = cc

module _ (prefix : Text) (draw : ℕ → Option (ℕ → ℕ)) (exists : Text → Option Bool) where
  -- The identifier of the attempt is in use.
  pub record IsUsed (attempt : ℕ) : Type 0 where
    pub code : Text
    pub drawn : random_code 8 (draw attempt) ≡ ok code
    pub used : exists (prefix ++ code) ≡ some true

  -- So are those of all attempts below.
  pub AllUsed : ℕ → Type 0
  AllUsed zero = Unit
  AllUsed (suc attempt) = IsUsed attempt × AllUsed attempt

  -- The identifier of an attempt that is not in use, where those before it are.
  pub record IsFree (value : Text) : Type 0 where
    pub attempt : ℕ
    pub code : Text
    pub drawn : random_code 8 (draw attempt) ≡ ok code
    pub made : value ≡ prefix ++ code
    pub free : exists value ≡ some false
    pub few : attempt < 3
    pub earlier : AllUsed attempt
    pub eight : length code ≡ 8
    pub readable : AllOccur code slug_charset

  no_attempt : AllUsed 0
  unfolding AllUsed
  no_attempt = tt

  answered-ok : (answer : Option Bool) {dup : Bool} → answered answer ≡ ok dup → answer ≡ some dup
  unfolding answered
  answered-ok none h = cc
  answered-ok (some b) h = ap some (ok-injective h)

  generate_from-IsFree :
      (left attempt : ℕ) {value : Text}
      → attempt + left ≡ 3
      → AllUsed attempt
      → generate_from left attempt prefix draw exists ≡ ok value
      → IsFree value
  unfolding generate_from AllUsed
  generate_from-IsFree zero attempt few before h = cc
  generate_from-IsFree (suc left) attempt few before h =
      let (code, drawn, then_) = >>=-eq-ok (random_code 8 (draw attempt)) _ h in
      let (dup, answer, last) = >>=-eq-ok (answered (exists (prefix ++ code))) _ then_ in
      let known = answered-ok (exists (prefix ++ code)) answer in
      let (eight, readable) = random_code-ok 8 (draw attempt) drawn in
      elim (Bool-cases dup) [
        | inl used ↦
            generate_from-IsFree left (suc attempt) (omega (arith, few))
              (record { code = code; drawn = drawn; used = known ∙ ap some used }, before)
              (rw used at last)
        | inr free ↦
            let same = ok-injective (rw free at last) in
            record {
              attempt = attempt;
              code = code;
              drawn = drawn;
              made = sym same;
              free = rw (sym same) (known ∙ ap some free);
              few = omega (arith, few);
              earlier = before;
              eight = eight;
              readable = readable;
            }
      ]

  -- An identifier that Generate returns is the prefix with a code of eight characters of the charset.
  -- It comes from one of three attempts and is not in use, while those of the attempts before it are.
  pub generate-IsFree : {value : Text} → generate prefix draw exists ≡ ok value → IsFree value
  unfolding generate AllUsed
  generate-IsFree h = generate_from-IsFree 3 0 refl tt h

  IsUsed-below : (n attempt : ℕ) → attempt < n → AllUsed n → IsUsed attempt
  unfolding AllUsed
  IsUsed-below zero attempt lt h = absurd (omega arith)
  IsUsed-below (suc n) attempt lt h = elim (Bool-cases (attempt == n)) [
    | inl e ↦ subst IsUsed (ground (arith, e)) h.0
    | inr e ↦ IsUsed-below n attempt (ground (arith, lt, e)) h.1
  ]

  generate_from-used :
      (left attempt : ℕ)
      → attempt + left ≡ 3
      → AllUsed 3
      → generate_from left attempt prefix draw exists ≡ err collisions
  unfolding generate_from answered
  generate_from-used zero attempt few h = refl
  generate_from-used (suc left) attempt few h =
      let this = IsUsed-below 3 attempt (omega (arith, few)) h in
      rw (this.drawn, this.used) (generate_from-used left (suc attempt) (omega (arith, few)) h)

  IsUsed-answered :
      (left attempt : ℕ) (code : Text) (answer : Option Bool)
      → random_code 8 (draw attempt) ≡ ok code
      → exists (prefix ++ code) ≡ answer
      → (answered answer >>= λ dup.
          if dup then generate_from left (suc attempt) prefix draw exists else ok (prefix ++ code))
        ≡ err collisions
      → IsUsed attempt × (generate_from left (suc attempt) prefix draw exists ≡ err collisions)
  unfolding answered
  IsUsed-answered left attempt code none drawn used h = cc
  IsUsed-answered left attempt code (some false) drawn used h = cc
  IsUsed-answered left attempt code (some true) drawn used h =
      (record { code = code; drawn = drawn; used = used }, h)

  generate_from-collisions :
      (left attempt : ℕ)
      → attempt + left ≡ 3
      → AllUsed attempt
      → generate_from left attempt prefix draw exists ≡ err collisions
      → AllUsed 3
  unfolding generate_from AllUsed
  generate_from-collisions zero attempt few before h =
      let three : attempt ≡ 3 = omega (arith, few) in subst AllUsed three before
  generate_from-collisions (suc left) attempt few before h =
      elim (Result-cases (random_code 8 (draw attempt))) [
        | inl (code, drawn) ↦
            let (this, rest) =
              IsUsed-answered left attempt code (exists (prefix ++ code)) drawn refl
                (rw drawn at h) in
            generate_from-collisions left (suc attempt) (omega (arith, few)) (this, before) rest
        | inr (e, failed) ↦ absurd (not_collisions (draw attempt) (failed ∙ (rw failed at h)))
      ]

  -- Generate returns the collision error exactly where each of three attempts draws a code whose
  -- identifier is in use.
  pub generate_collisions : (generate prefix draw exists ≡ err collisions) ↔ AllUsed 3
  unfolding generate
  generate_collisions =
      (λ h. generate_from-collisions 3 0 refl no_attempt h, λ h. generate_from-used 3 0 refl h)
