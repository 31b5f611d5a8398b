-- ===== src/RuleSpec/Trim.antt =====
-- Text without space at its ends, and text without commas
-- (rulespec/spec.go: the calls of TrimSpace, Split and IndexByte).
use vpn_subscription_managem.Base.{
  ℕ, ◌≡◌, refl, ap, ◌∙◌, Bool, false, ◌||◌, [], ◌∷◌, ◌++◌, Text, length, some, if◌then◌else◌, arith,
}
use vpn_subscription_managem.RuleSpec.Strings.{
  is_empty, contains_char, is_space, trim_left, trim_right, trim_space, index_of, split_at,
}

unfoldable pub starts_space : Text → Bool
starts_space [] = false
starts_space (c ∷ cs) = is_space c

unfoldable pub ends_space : Text → Bool
ends_space [] = false
ends_space (c ∷ cs) = let rest = ends_space cs in if is_empty cs then is_space c else rest

trim_left_self : (t : Text) → starts_space t ≡ false → trim_left t ≡ t
unfolding trim_left starts_space
trim_left_self [] h = refl
trim_left_self (c ∷ cs) h = ground arith

trim_right_self : (t : Text) → ends_space t ≡ false → trim_right t ≡ t
unfolding trim_right ends_space is_empty
trim_right_self [] h = refl
trim_right_self (c ∷ []) h = ground arith
trim_right_self (c ∷ d ∷ cs) h = let rest = trim_right_self (d ∷ cs) h in rw rest (ground arith)

pub trim_space_self : (t : Text) → starts_space t ≡ false → ends_space t ≡ false → trim_space t ≡ t
unfolding trim_space
trim_space_self t h k = ap trim_right (trim_left_self t h) ∙ trim_right_self t k

starts_space-trim_left : (t : Text) → starts_space (trim_left t) ≡ false
unfolding trim_left starts_space
starts_space-trim_left [] = refl
starts_space-trim_left (c ∷ cs) = ground (arith, starts_space-trim_left cs)

starts_space-trim_right : (t : Text) → starts_space t ≡ false → starts_space (trim_right t) ≡ false
unfolding trim_right starts_space
starts_space-trim_right [] h = refl
starts_space-trim_right (c ∷ cs) h = ground arith

ends_space-trim_right : (t : Text) → ends_space (trim_right t) ≡ false
unfolding trim_right ends_space is_empty
ends_space-trim_right [] = refl
ends_space-trim_right (c ∷ cs) = ground (arith, ends_space-trim_right cs)

pub starts_space-trim_space : (t : Text) → starts_space (trim_space t) ≡ false
unfolding trim_space
starts_space-trim_space t = starts_space-trim_right (trim_left t) (starts_space-trim_left t)

pub ends_space-trim_space : (t : Text) → ends_space (trim_space t) ≡ false
unfolding trim_space
ends_space-trim_space t = ends_space-trim_right (trim_left t)

-- The first character of a nonempty first part, and the last one of a nonempty last part.
pub starts_space-append : (a b : Text) → is_empty a ≡ false → starts_space (a ++ b) ≡ starts_space a
unfolding starts_space is_empty
starts_space-append [] b h = ground arith
starts_space-append (c ∷ a) b h = refl

pub is_empty-append : (a b : Text) → is_empty b ≡ false → is_empty (a ++ b) ≡ false
unfolding is_empty
is_empty-append [] b h = h
is_empty-append (c ∷ a) b h = refl

pub ends_space-append : (a b : Text) → is_empty b ≡ false → ends_space (a ++ b) ≡ ends_space b
unfolding ends_space
ends_space-append [] b h = refl
ends_space-append (c ∷ a) b h = ground (arith, is_empty-append a b h, ends_space-append a b h)

pub contains_char-append :
    (c : ℕ) (a b : Text) → contains_char c (a ++ b) ≡ (contains_char c a || contains_char c b)
unfolding contains_char
contains_char-append c [] b = refl
contains_char-append c (x ∷ a) b = ground (arith, contains_char-append c a b)

pub index_of-append :
    (c : ℕ) (a b : Text) → contains_char c a ≡ false → index_of c (a ++ c ∷ b) ≡ some (length a)
unfolding contains_char index_of
index_of-append c [] b h = ground arith
index_of-append c (x ∷ a) b h = ground (arith, index_of-append c a b)

pub split_at-single : (c : ℕ) (a : Text) → contains_char c a ≡ false → split_at c a ≡ a ∷ []
unfolding contains_char split_at
split_at-single c [] h = refl
split_at-single c (x ∷ a) h = ground (arith, split_at-single c a)

pub split_at-append :
    (c : ℕ) (a b : Text) → contains_char c a ≡ false → split_at c (a ++ c ∷ b) ≡ a ∷ split_at c b
unfolding contains_char split_at
split_at-append c [] b h = ground arith
split_at-append c (x ∷ a) b h = ground (arith, split_at-append c a b)
