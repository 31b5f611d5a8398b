-- ===== src/Emergency/OpCode.antt =====
-- The operation code (emergency/emergency.go: regenerateOpCode, VerifyOpCode).
use Prim.Native.Nat.{◌<◌}
use vpn_subscription_managem.Base.{
  ℕ, zero, suc, ◌%◌, ◌≡◌, ◌↔◌, refl, ap, ◌∙◌, Bool, true, false, List, [], ◌∷◌, some, Text,
  text_eq_iff, length, arith, ◌==◌, ◌||◌,
}
use vpn_subscription_managem.Emergency.{
  nth, op_code_charset, op_code_of, regenerate_op_code, verify_op_code,
}

-- The character is one of the text.
unfoldable pub occurs : ℕ → Text → Bool
occurs c [] = false
occurs c (d ∷ ds) = d == c || occurs c ds

occurs-nth : (n : ℕ) (cs : Text) → n < length cs → occurs (nth n cs) cs ≡ true
unfolding occurs
occurs-nth n [] lt = absurd (omega arith)
occurs-nth zero (c ∷ cs) lt = ground arith
occurs-nth (suc n) (c ∷ cs) lt = ground (arith, occurs-nth n cs)

abbrev pub AllOccur : Text → Text → Type 0
AllOccur [] cs = Unit
AllOccur (d ∷ ds) cs = (occurs d cs ≡ true) × AllOccur ds cs

op_code_of-AllOccur : (bytes : List ℕ) → AllOccur (op_code_of bytes) op_code_charset
unfolding op_code_of
op_code_of-AllOccur [] = tt
op_code_of-AllOccur (b ∷ bs) =
    (occurs-nth (b % length op_code_charset) op_code_charset (omega arith), op_code_of-AllOccur bs)

length-op_code_of : (bytes : List ℕ) → length (op_code_of bytes) ≡ length bytes
unfolding op_code_of
length-op_code_of [] = refl
length-op_code_of (b ∷ bs) = ap suc (length-op_code_of bs)

-- Where the random source gives its eight bytes, a submission is accepted exactly when it is the
-- code, and leaves a new code of eight characters of the charset, which is what the bytes say and
-- nothing of the old code.
pub verify_op_code_lem :
    (bytes : List ℕ) (input code : Text)
    → length bytes ≡ 8
    → let r = verify_op_code (some bytes) input code in
      ((r.0 ≡ true) ↔ (input ≡ code))
      × (length r.1 ≡ 8)
      × AllOccur r.1 op_code_charset
      × ((other : Text) → (verify_op_code (some bytes) input other).1 ≡ r.1)
unfolding verify_op_code regenerate_op_code
verify_op_code_lem bytes input code eight = (
  text_eq_iff input code,
  length-op_code_of bytes ∙ eight,
  op_code_of-AllOccur bytes,
  λ other. refl,
)
