-- ===== src/Tasks/Ids.antt =====
-- The ids of the tasks (tasks/registry.go: formatID).
use Prim.Native.Nat.{◌≤◌}
use vpn_subscription_managem.Base.{
  ℕ, zero, suc, ◌+◌, ◌-◌, ◌*◌, ◌/◌, ◌%◌, ◌≡◌, ap, sym, ◌∙◌, false, Bool-cases, inl, inr, [], ◌∷◌,
  Text, ◌==◌, arith, drop,
}
use vpn_subscription_managem.Tasks.{digits_from, format_id}

-- The number that decimal digits stand for, after those that stand for `n`.
unfoldable pub value_from : ℕ → Text → ℕ
value_from n [] = n
value_from n (c ∷ cs) = value_from (n * 10 + (c - 48)) cs

div_mod : (n : ℕ) → n / 10 * 10 + (48 + n % 10 - 48) ≡ n
div_mod n = omega arith

smaller : (n fuel : ℕ) → n ≤ suc fuel → (n == 0) ≡ false → n / 10 ≤ fuel
smaller n fuel le p = let pos : 1 ≤ n = ground arith in omega arith

value_from-digits_from :
    (fuel n : ℕ) (buf : Text) → n ≤ fuel → value_from 0 (digits_from fuel n buf) ≡ value_from n buf
unfolding digits_from value_from
value_from-digits_from zero n buf le = ap (λ m. value_from m buf) (omega arith)
value_from-digits_from (suc fuel) n buf le = elim (Bool-cases (n == 0)) [
  | inl z ↦ rw z (ap (λ m. value_from m buf) (ground arith))
  | inr p ↦ rw p (
      value_from-digits_from fuel (n / 10) ((48 + n % 10) ∷ buf) (smaller n fuel le p)
      ∙ ap (λ m. value_from m buf) (div_mod n))
]

-- The number of an id: what its digits stand for.
unfoldable pub read_id : Text → ℕ
read_id id = value_from 0 (drop 5 id)

read_id-format_id : (n : ℕ) → read_id (format_id n) ≡ n
unfolding read_id format_id value_from
read_id-format_id n = elim (Bool-cases (n == 0)) [
  | inl z ↦ rw (z, format_id) (ground arith)
  | inr p ↦ rw (p, format_id) (value_from-digits_from n n [] (omega arith))
]

-- formatID gives different numbers different ids.
pub format_id-injective : (m n : ℕ) → format_id m ≡ format_id n → m ≡ n
format_id-injective m n e = sym (read_id-format_id m) ∙ ap read_id e ∙ read_id-format_id n
