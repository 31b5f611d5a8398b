-- ===== src/RuleSpec/Limits.antt =====
-- The numbers that ValidateValue accepts (rulespec/spec.go).
use mathlib.Core.Path.{subst}
use vpn_subscription_managem.Base.{
  ℕ, ◌≡◌, ◌≤◌, refl, ap, ◌∙◌, true, false, ◌||◌, [], ◌∷◌, Text, codes, text_eq, text_eq_iff, Option,
  none, some, Option-cases, if◌then◌else◌, ◌⊎◌, arith, Bool-cases, inl, inr, ok, err, ◌>>=◌,
  >>=-eq-ok, err-ne-ok, ok-injective, guard-eq-ok,
}
use vpn_subscription_managem.RuleSpec.Strings.{
  trim_space, Library, byte_len, pos, negsuc, atoi, is_empty, contains_char, contains_any,
}
use vpn_subscription_managem.RuleSpec.Tables.{RuleDef, definitions}
use vpn_subscription_managem.RuleSpec.Legacy.{find_text}
use vpn_subscription_managem.RuleSpec.Value.{
  ValueError, value_empty, illegal_character, illegal_comma, not_port, not_dscp, contains_control,
  one_of, logical_types, port_types, number_within, check_value, check_number, limit_length,
  check_required, check_def, check_found, type_of, validate_value,
}
use vpn_subscription_managem.RuleSpec.Rendered.{comma}
use vpn_subscription_managem.RuleSpec.Accepted.{limit_length_lem}
use vpn_subscription_managem.RuleSpec.Types.{definitions-IsType}

-- The value reads as a number between the two.
abbrev pub IsNumber : ℕ → ℕ → Text → Type 0
IsNumber low high v = (n : ℕ) × (atoi v ≡ some (pos n)) × (low ≤ n) × (n ≤ high)

number_within-IsNumber :
    (low high : ℕ) (v : Text) → number_within low high v ≡ true → IsNumber low high v
unfolding number_within
number_within-IsNumber low high v h = elim (Option-cases (atoi v)) [
  | inl (pos n, e) ↦ (n, e, ground (arith, h, e), ground (arith, h, e))
  | inl (negsuc n, e) ↦ ground (arith, h, e)
  | inr e ↦ ground (arith, h, e)
]

passed-IsNumber :
    (low high : ℕ) (value v : Text) (x : ValueError)
    → (if number_within low high value then ok value else err x) ≡ ok v
    → IsNumber low high v
passed-IsNumber low high value v x h = number_within-IsNumber low high v (ground (arith, h))

-- The three types of a port, and that of DSCP, reach their own branch.
port_type :
    (typ : Text)
    → one_of typ port_types ≡ true
    → (typ ≡ codes "SRC-PORT") ⊎ ((typ ≡ codes "DST-PORT") ⊎ (typ ≡ codes "IN-PORT"))
unfolding one_of
port_type typ h = ground (
  arith,
  h,
  text_eq_iff typ (codes "SRC-PORT"),
  text_eq_iff typ (codes "DST-PORT"),
  text_eq_iff typ (codes "IN-PORT"),
)

check_port :
    (lib : Library) (typ value v : Text)
    → one_of typ port_types ≡ true
    → check_value lib typ value ≡ ok v
    → IsNumber 1 65535 v
unfolding one_of check_value check_number text_eq
check_port lib typ value v o h = elim (port_type typ o) [
  | inl e ↦ passed-IsNumber 1 65535 value v not_port (rw e at h)
  | inr (inl e) ↦ passed-IsNumber 1 65535 value v not_port (rw e at h)
  | inr (inr e) ↦ passed-IsNumber 1 65535 value v not_port (rw e at h)
]

check_dscp :
    (lib : Library) (typ value v : Text)
    → typ ≡ codes "DSCP"
    → check_value lib typ value ≡ ok v
    → IsNumber 0 63 v
unfolding one_of check_value check_number text_eq
check_dscp lib typ value v e h = passed-IsNumber 0 63 value v not_dscp (rw e at h)

-- The limits of a value that does not stand in brackets.
pub record IsLimited (typ v : Text) : Type 0 where
  pub port : one_of typ port_types ≡ true → IsNumber 1 65535 v
  pub dscp : typ ≡ codes "DSCP" → IsNumber 0 63 v
  pub size : byte_len v ≤ 4096

checked-IsLimited :
    (lib : Library) (typ value v : Text)
    → (check_value lib typ value >>= limit_length) ≡ ok v
    → IsLimited typ v
checked-IsLimited lib typ value v h =
    let (w, c, k) = >>=-eq-ok (check_value lib typ value) limit_length h in
    let (same, short) = limit_length_lem w v k in
    let now = c ∙ ap (λ (t : Text). ok t) same in
    record {
      port = λ o. check_port lib typ value v o now;
      dscp = λ e. check_dscp lib typ value v e now;
      size = short;
    }

required-IsLimited :
    (lib : Library) (typ value v : Text)
    → one_of typ logical_types ≡ false
    → check_required lib typ value ≡ ok v
    → IsLimited typ v
unfolding check_required
required-IsLimited lib typ value v o h =
    let (n, h1) = guard-eq-ok (is_empty value) value_empty _ h in
    let (_, h2) =
      guard-eq-ok (contains_any (13 ∷ 10 ∷ []) value || contains_control value) illegal_character _
        h1 in
    let (c, h3) = guard-eq-ok (contains_char comma value) illegal_comma _ (rw o at h2) in
    checked-IsLimited lib typ value v h3

bare-IsLimited :
    (typ : Text) (d : RuleDef)
    → find_text typ definitions ≡ some d
    → d.value_required ≡ false
    → IsLimited typ []
unfolding one_of text_eq byte_len
bare-IsLimited typ d e q =
    let type = definitions-IsType typ d e in
    let terminal = (text_eq_iff typ (codes "MATCH")).0 (ground (arith, type.valued, q)) in
    rw terminal (record { port = λ o. cc; dscp = λ x. cc; size = ground arith })

def-IsLimited :
    (lib : Library) (typ value v : Text) (d : RuleDef)
    → find_text typ definitions ≡ some d
    → check_def lib typ value d ≡ ok v
    → one_of typ logical_types ≡ false
    → IsLimited typ v
unfolding check_def
def-IsLimited lib typ value v d e h o = elim (Bool-cases d.value_required) [
  | inl q ↦ required-IsLimited lib typ value v o (rw q at h)
  | inr q ↦ let empty : v ≡ [] = ground (arith, h, q) in rw empty (bare-IsLimited typ d e q)
]

found-IsLimited :
    (lib : Library) (key value typ v : Text) (m : Option RuleDef)
    → find_text key definitions ≡ m
    → check_found lib key value m ≡ ok (typ, v)
    → one_of typ logical_types ≡ false
    → IsLimited typ v
unfolding check_found
found-IsLimited lib key value typ v none e h = absurd (err-ne-ok h)
found-IsLimited lib key value typ v (some d) e h =
    let (w, c, k) = >>=-eq-ok (check_def lib key value d) _ h in
    subst (λ (p : Text × Text). one_of p.0 logical_types ≡ false → IsLimited p.0 p.1)
      (ok-injective k) (def-IsLimited lib key value w d e c)

-- Of a type other than AND, OR and NOT an accepted value has at most 4096 bytes, that of a port type
-- is a number from 1 to 65535 and that of DSCP one from 0 to 63.
pub validate_value-IsLimited :
    (lib : Library) (rule_type value typ v : Text)
    → validate_value lib rule_type value ≡ ok (typ, v)
    → one_of typ logical_types ≡ false
    → IsLimited typ v
unfolding validate_value
validate_value-IsLimited lib rule_type value typ v h o =
    found-IsLimited lib (type_of lib rule_type) (trim_space value) typ v _ refl h o
