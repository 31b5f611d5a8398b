-- ===== src/SsPlugin/Sort.antt =====
-- Sorting keys (sort.Strings).
use mathlib.Core.List.{Permᴰ}
use mathlib.Core.Path.{ap₂}
use vpn_subscription_managem.Base.{
  ◌≡◌, refl, ap, ◌∙◌, Bool, true, false, ◌||◌, ◌⊎◌, inl, inr, List, [], ◌∷◌, Text, arith, text_eq,
  text_eq_iff,
}
use vpn_subscription_managem.SsPlugin.{text_le, insert_key, sort_keys}

text_le_total : (a b : Text) → (text_le a b ≡ true) ⊎ (text_le b a ≡ true)
unfolding text_le
text_le_total [] b = inl refl
text_le_total (x ∷ a) [] = inr refl
text_le_total (x ∷ a) (y ∷ b) = ground (arith, text_le_total a b)

text_le_antisymm : (a b : Text) → text_le a b ≡ true → text_le b a ≡ true → a ≡ b
unfolding text_le
text_le_antisymm [] [] h k = refl
text_le_antisymm [] (y ∷ b) h k = cc
text_le_antisymm (x ∷ a) [] h k = cc
text_le_antisymm (x ∷ a) (y ∷ b) h k = ground (arith, text_le_antisymm a b)

text_le_trans : (a b c : Text) → text_le a b ≡ true → text_le b c ≡ true → text_le a c ≡ true
unfolding text_le
text_le_trans [] b c h k = refl
text_le_trans (x ∷ a) [] c h k = cc
text_le_trans (x ∷ a) (y ∷ b) [] h k = cc
text_le_trans (x ∷ a) (y ∷ b) (z ∷ c) h k = ground (arith, text_le_trans a b c)

insert_comm :
    (a b : Text) (ks : List Text) → insert_key a (insert_key b ks) ≡ insert_key b (insert_key a ks)
unfolding insert_key
insert_comm a b [] = ground (arith, text_le_total a b, text_le_antisymm a b)
insert_comm a b (k ∷ ks) = ground (
  arith,
  insert_comm a b ks,
  text_le_total a b,
  text_le_antisymm a b,
  text_le_trans a b k,
  text_le_trans b a k,
  text_le_total a k,
  text_le_total b k,
  text_le_trans a k b,
  text_le_trans b k a,
)

-- Sorting forgets the order of its input.
pub sort_keys-perm : {ks js : List Text} → Permᴰ ks js → sort_keys ks ≡ sort_keys js
unfolding sort_keys
sort_keys-perm Permᴰ.nil = refl
sort_keys-perm (Permᴰ.cons {a = k} {b = j} {l₁ = ks} {l₂ = js} e p) =
    ap₂ insert_key e (sort_keys-perm p)
sort_keys-perm (Permᴰ.swap {a = a} {b = b} {l = l} p q) =
    insert_comm a b (sort_keys l)
    ∙ ap₂ (λ (x y : Text). insert_key x (insert_key y (sort_keys l))) q p
sort_keys-perm (Permᴰ.trans p q) = sort_keys-perm p ∙ sort_keys-perm q

unfoldable pub mem_key : Text → List Text → Bool
mem_key k [] = false
mem_key k (j ∷ ks) = text_eq k j || mem_key k ks

abbrev pub Distinct : List Text → Type 0
Distinct [] = Unit
Distinct (k ∷ ks) = (mem_key k ks ≡ false) × Distinct ks

mem_key-insert_key :
    (k j : Text) (ks : List Text) → mem_key k (insert_key j ks) ≡ (text_eq k j || mem_key k ks)
unfolding mem_key insert_key
mem_key-insert_key k j [] = refl
mem_key-insert_key k j (i ∷ ks) = ground (arith, mem_key-insert_key k j ks)

pub mem_key-sort_keys : (k : Text) (ks : List Text) → mem_key k (sort_keys ks) ≡ mem_key k ks
unfolding mem_key sort_keys
mem_key-sort_keys k [] = refl
mem_key-sort_keys k (j ∷ ks) =
    mem_key-insert_key k j (sort_keys ks)
    ∙ ap (λ (b : Bool). text_eq k j || b) (mem_key-sort_keys k ks)

text_eq_symm : (a b : Text) → text_eq a b ≡ text_eq b a
text_eq_symm a b = ground (arith, text_eq_iff a b, text_eq_iff b a)

Distinct-insert_key :
    (k : Text) (ks : List Text) → mem_key k ks ≡ false → Distinct ks → Distinct (insert_key k ks)
unfolding mem_key insert_key
Distinct-insert_key k [] h d = (refl, tt)
Distinct-insert_key k (j ∷ ks) h d =
    ground (arith, Distinct-insert_key k ks, mem_key-insert_key j k ks, text_eq_symm k j)

pub Distinct-sort_keys : (ks : List Text) → Distinct ks → Distinct (sort_keys ks)
unfolding sort_keys
Distinct-sort_keys [] d = tt
Distinct-sort_keys (k ∷ ks) (h, d) =
    Distinct-insert_key k (sort_keys ks) (mem_key-sort_keys k ks ∙ h) (Distinct-sort_keys ks d)
