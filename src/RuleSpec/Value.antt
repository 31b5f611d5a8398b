-- ===== src/RuleSpec/Value.antt =====
-- The values of a rule (rulespec/spec.go: ValidateValue, balancedCloseParen, containsControl).
use vpn_subscription_managem.Base.{
  ℕ, suc, ◌-◌, Bool, false, not, ◌&&◌, ◌||◌, List, [], ◌∷◌, Text, codes, text_eq, ◌==◌, ltb, leb,
  length, Option, none, some, if◌then◌else◌, Result, ok, err, ◌>>=◌,
}
use vpn_subscription_managem.RuleSpec.Strings.{
  is_empty, contains_char, contains_any, trim_space, byte_len, parse_uint, pos, negsuc, atoi,
  Library,
}
use vpn_subscription_managem.RuleSpec.Tables.{RuleDef, definitions}
use vpn_subscription_managem.RuleSpec.Legacy.{find_text}

-- The messages that `ValidateValue` returns.
pub data ValueError : Type 0 where
  unknown_type takes_no_value value_empty illegal_character unbalanced illegal_comma : ValueError
  not_domain bad_regexp not_cidr not_positive not_port not_dscp not_network too_long : ValueError

-- The depth behind a character.
unfoldable pub depth_after : ℕ → ℕ → ℕ
depth_after depth c = if c == b'(' then suc depth else if c == b')' then depth - 1 else depth

-- The loop of `balancedCloseParen` at the position i: none for -1, which a bracket at depth 0 gives.
unfoldable pub close_from : ℕ → ℕ → Text → Option ℕ
close_from i depth [] = none
close_from i depth (c ∷ cs) =
    let rest = close_from (suc i) (depth_after depth c) cs in
    if c == b')' && leb depth 1 then (if depth == 1 then some i else none) else rest

unfoldable pub balanced_close_paren : Text → Option ℕ
balanced_close_paren value = close_from 0 0 value

unfoldable pub contains_control : Text → Bool
contains_control [] = false
contains_control (c ∷ cs) = ltb c 32 || c == 127 || contains_control cs

unfoldable pub one_of : Text → List Text → Bool
one_of t [] = false
one_of t (k ∷ ks) = text_eq t k || one_of t ks

abbrev pub logical_types : List Text
logical_types = codes "AND" ∷ codes "OR" ∷ codes "NOT" ∷ []

abbrev pub domain_types : List Text
domain_types = codes "DOMAIN" ∷ codes "DOMAIN-SUFFIX" ∷ codes "DOMAIN-KEYWORD" ∷ []

abbrev pub regexp_types : List Text
regexp_types = codes "DOMAIN-REGEX" ∷ codes "PROCESS-NAME-REGEX" ∷ codes "PROCESS-PATH-REGEX" ∷ []

abbrev pub cidr_types : List Text
cidr_types =
    codes "IP-CIDR"
    ∷ codes "IP-CIDR6"
    ∷ codes "SRC-IP-CIDR"
    ∷ codes "IP-SUFFIX"
    ∷ codes "SRC-IP-SUFFIX"
    ∷ []

abbrev pub positive_types : List Text
positive_types = codes "IP-ASN" ∷ codes "SRC-IP-ASN" ∷ codes "UID" ∷ []

abbrev pub port_types : List Text
port_types = codes "SRC-PORT" ∷ codes "DST-PORT" ∷ codes "IN-PORT" ∷ []

-- strconv.Atoi succeeds with a number between the two.
unfoldable pub number_within : ℕ → ℕ → Text → Bool
number_within low high t = elim (atoi t) [
  | none ↦ false
  | some z ↦ elim z [ pos n ↦ leb low n && leb n high | negsuc n ↦ false ]
]

unfoldable pub is_positive : Text → Bool
is_positive t = elim (parse_uint t) [ none ↦ false | some n ↦ not (n == 0) ]

-- The switch on the type, from the case of NETWORK on
unfoldable pub check_network : Library → Text → Text → Result ValueError Text
check_network lib typ value =
    if text_eq typ (codes "NETWORK")
    then (if text_eq (lib.to_lower value) (codes "tcp")
          || text_eq (lib.to_lower value) (codes "udp")
        then ok (lib.to_lower value)
        else err not_network)
    else ok value

-- The switch on the type, from the cases of numbers on
unfoldable pub check_number : Library → Text → Text → Result ValueError Text
check_number lib typ value =
    if one_of typ positive_types
    then (if is_positive value then ok value else err not_positive)
    else if one_of typ port_types
    then (if number_within 1 65535 value then ok value else err not_port)
    else if text_eq typ (codes "DSCP")
    then (if number_within 0 63 value then ok value else err not_dscp)
    else check_network lib typ value

-- The switch on the type.
unfoldable pub check_value : Library → Text → Text → Result ValueError Text
check_value lib typ value =
    if one_of typ domain_types
    then (if contains_any (codes "/: ") (lib.to_lower value)
        then err not_domain
        else ok (lib.to_lower value))
    else if one_of typ regexp_types
    then (if lib.compiles value then ok value else err bad_regexp)
    else if one_of typ cidr_types
    then elim (lib.parse_cidr value) [ none ↦ err not_cidr | some v ↦ ok v ]
    else check_number lib typ value

unfoldable pub limit_length : Text → Result ValueError Text
limit_length v = if ltb 4096 (byte_len v) then err too_long else ok v

unfoldable pub starts_open : Text → Bool
starts_open [] = false
starts_open (c ∷ cs) = c == b'('

-- `balancedCloseParen(value) == len(value)-1` for a value that is not empty
unfoldable pub closes_last : Text → Bool
closes_last v = elim (balanced_close_paren v) [ none ↦ false | some i ↦ suc i == length v ]

-- A type that requires a value.
unfoldable pub check_required : Library → Text → Text → Result ValueError Text
check_required lib typ value =
    if is_empty value
    then err value_empty
    else if contains_any (13 ∷ 10 ∷ []) value || contains_control value
    then err illegal_character
    else if one_of typ logical_types
    then (if starts_open value && closes_last value then ok value else err unbalanced)
    else if contains_char b',' value
    then err illegal_comma
    else check_value lib typ value >>= limit_length

unfoldable pub check_def : Library → Text → Text → RuleDef → Result ValueError Text
check_def lib typ value d =
    if d.value_required
    then check_required lib typ value
    else if is_empty value
    then ok []
    else err takes_no_value

abbrev pub type_of : Library → Text → Text
type_of lib rule_type = lib.to_upper (trim_space rule_type)

-- `Definitions[typ]`, and the rest
unfoldable pub check_found :
    Library → Text → Text → Option RuleDef → Result ValueError (Text × Text)
check_found lib typ value none = err unknown_type
check_found lib typ value (some d) = check_def lib typ value d >>= λ v. ok (typ, v)

-- `ValidateValue`: the type and the value
unfoldable pub validate_value : Library → Text → Text → Result ValueError (Text × Text)
validate_value lib rule_type value =
    let typ = type_of lib rule_type in
    check_found lib typ (trim_space value) (find_text typ definitions)
