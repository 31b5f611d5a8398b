-- ===== src/RuleSpec/Accepted.antt =====
-- What ValidateValue accepts (rulespec/spec.go): the value it returns is a field of a rule line.
use mathlib.Core.Path.{subst}
use vpn_subscription_managem.Base.{
  ◌≡◌, ap, ◌≤◌, refl, sym, Bool, true, false, ◌&&◌, ◌||◌, [], ◌∷◌, Text, ◌==◌, leb, Option, none,
  some, if◌then◌else◌, arith, Bool-cases, inl, inr, ok, err, guard-eq-ok, ok-injective, ◌>>=◌,
  >>=-eq-ok, err-ne-ok,
}
use vpn_subscription_managem.RuleSpec.Strings.{
  is_empty, contains_char, contains_any, trim_space, Library, byte_len,
}
use vpn_subscription_managem.RuleSpec.Tables.{RuleDef, definitions}
use vpn_subscription_managem.RuleSpec.Legacy.{find_text}
use vpn_subscription_managem.RuleSpec.Value.{
  value_empty, illegal_character, illegal_comma, unbalanced, one_of, logical_types, check_value,
  check_number, check_network, not_cidr, limit_length, check_required, check_def, check_found,
  type_of, validate_value, closes_last, starts_open, contains_control,
}
use vpn_subscription_managem.RuleSpec.Rendered.{comma}
use vpn_subscription_managem.RuleSpec.Trim.{
  starts_space, ends_space, starts_space-trim_space, ends_space-trim_space,
}
use vpn_subscription_managem.RuleSpec.ReadBack.{IsTrimmed, IsField}

-- Upper-case letters, digits and hyphens.
unfoldable pub is_name : Text → Bool
is_name [] = true
is_name (c ∷ cs) = (leb b'A' c && leb c b'Z' || leb b'0' c && leb c b'9' || c == b'-') && is_name cs

-- ToUpper leaves the names of the table as they are, and ToLower and the printed network have no
-- spaces at the ends and no commas where the value has none.
pub record IsLibrary (lib : Library) : Type 0 where
  pub upper_name : (t : Text) → is_name t ≡ true → lib.to_upper t ≡ t
  pub lower_field : (t : Text) → IsField t → IsField (lib.to_lower t)
  pub cidr_field : (t v : Text) → IsField t → lib.parse_cidr t ≡ some v → IsField v

check_network-IsField :
    (lib : Library) (typ value v : Text)
    → IsLibrary lib
    → IsField value
    → check_network lib typ value ≡ ok v
    → IsField v
unfolding check_network
check_network-IsField lib typ value v l h e = ground (arith, l.lower_field value h)

check_number-IsField :
    (lib : Library) (typ value v : Text)
    → IsLibrary lib
    → IsField value
    → check_number lib typ value ≡ ok v
    → IsField v
unfolding check_number
check_number-IsField lib typ value v l h e =
    ground (arith, check_network-IsField lib typ value v l h)

parsed_cidr :
    (m : Option Text) (v : Text)
    → (elim m [ none ↦ err not_cidr | some w ↦ ok w ]) ≡ ok v
    → m ≡ some v
parsed_cidr none v e = absurd (err-ne-ok e)
parsed_cidr (some w) v e = ap (λ (t : Text). some t) (ok-injective e)

check_value-IsField :
    (lib : Library) (typ value v : Text)
    → IsLibrary lib
    → IsField value
    → check_value lib typ value ≡ ok v
    → IsField v
unfolding check_value
check_value-IsField lib typ value v l h e = ground (
  arith,
  l.lower_field value h,
  l.cidr_field value v h,
  parsed_cidr (lib.parse_cidr value) v,
  check_number-IsField lib typ value v l h,
)

pub limit_length_lem : (w v : Text) → limit_length w ≡ ok v → (w ≡ v) × (byte_len v ≤ 4096)
unfolding limit_length
limit_length_lem w v h = ground (arith, h)

-- The value of a type that requires one.
pub data IsValue (typ v : Text) : Type 0 where
  bracketed : one_of typ logical_types ≡ true → IsTrimmed v → closes_last v ≡ true → IsValue typ v
  plain : one_of typ logical_types ≡ false → IsField v → byte_len v ≤ 4096 → IsValue typ v

check_plain-IsValue :
    (lib : Library) (typ value v : Text)
    → IsLibrary lib
    → IsTrimmed value
    → one_of typ logical_types ≡ false
    → contains_char comma value ≡ false
    → (check_value lib typ value >>= limit_length) ≡ ok v
    → IsValue typ v
check_plain-IsValue lib typ value v l t o c h =
    let (w, e, k) = >>=-eq-ok (check_value lib typ value) limit_length h in
    let short = limit_length_lem w v k in
    let field = check_value-IsField lib typ value w l (record { trimmed = t; single = c }) e in
    plain o (rw (sym short.0) field) short.1

bracketed_value :
    (value v : Text)
    → (if starts_open value && closes_last value then ok value else err unbalanced) ≡ ok v
    → (closes_last value ≡ true) × (value ≡ v)
bracketed_value value v h = ground (arith, h)

check_required-IsValue :
    (lib : Library) (typ value v : Text)
    → IsLibrary lib
    → starts_space value ≡ false
    → ends_space value ≡ false
    → check_required lib typ value ≡ ok v
    → IsValue typ v
unfolding check_required
check_required-IsValue lib typ value v l s f h =
    let (n, h1) = guard-eq-ok (is_empty value) value_empty _ h in
    let (_, h2) =
      guard-eq-ok (contains_any (13 ∷ 10 ∷ []) value || contains_control value) illegal_character _
        h1 in
    let t : IsTrimmed value = record { nonempty = n; start = s; finish = f } in
    elim (Bool-cases (one_of typ logical_types)) [
      | inl o ↦
          let (c, e) = bracketed_value value v (rw o at h2) in
          bracketed o (rw (sym e) t) (rw (sym e) c)
      | inr o ↦
          let (c, h3) = guard-eq-ok (contains_char comma value) illegal_comma _ (rw o at h2) in
          check_plain-IsValue lib typ value v l t o c h3
    ]

-- An accepted type stands in the table, and the value is of that entry.
pub record IsAccepted (typ v : Text) (d : RuleDef) : Type 0 where
  pub found : find_text typ definitions ≡ some d
  pub valued : d.value_required ≡ true → IsValue typ v
  pub bare : d.value_required ≡ false → v ≡ []

check_def-IsAccepted :
    (lib : Library) (typ value v : Text) (d : RuleDef)
    → IsLibrary lib
    → find_text typ definitions ≡ some d
    → check_def lib typ (trim_space value) d ≡ ok v
    → IsAccepted typ v d
unfolding check_def
check_def-IsAccepted lib typ value v d l e h = record {
  found = e;
  valued = λ q.
      check_required-IsValue lib typ (trim_space value) v l (starts_space-trim_space value)
        (ends_space-trim_space value) (rw q at h);
  bare = λ q. ground (arith, h, q);
}

check_found-IsAccepted :
    (lib : Library) (key value typ v : Text) (m : Option RuleDef)
    → IsLibrary lib
    → find_text key definitions ≡ m
    → check_found lib key (trim_space value) m ≡ ok (typ, v)
    → (d : RuleDef) × IsAccepted typ v d
unfolding check_found
check_found-IsAccepted lib key value typ v none l e h = absurd (err-ne-ok h)
check_found-IsAccepted lib key value typ v (some d) l e h =
    let (w, c, k) = >>=-eq-ok (check_def lib key (trim_space value) d) _ h in
    let same = ok-injective k in
    let kept = check_def-IsAccepted lib key value w d l e c in
    (d, subst (λ (p : Text × Text). IsAccepted p.0 p.1 d) same kept)

pub validate_value-IsAccepted :
    (lib : Library) (rule_type value typ v : Text)
    → IsLibrary lib
    → validate_value lib rule_type value ≡ ok (typ, v)
    → (d : RuleDef) × IsAccepted typ v d
unfolding validate_value
validate_value-IsAccepted lib rule_type value typ v l h =
    check_found-IsAccepted lib (type_of lib rule_type) value typ v _ l refl h
