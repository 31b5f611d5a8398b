-- ===== src/RuleSpec/Tests.antt =====
-- Concrete rules and values, and a library for them.
use vpn_subscription_managem.Base.{
  ℕ, ◌+◌, ◌≡◌, refl, ◌∙◌, true, ◌&&◌, [], ◌∷◌, Text, codes, text_eq, leb, some, some-injective,
  if◌then◌else◌, map, arith, Result, ok, err, ◌↔◌,
}
use vpn_subscription_managem.RuleSpec.Strings.{
  Library, is_empty, contains_char, contains_any, trim_space, trim_left, trim_right, is_space,
  byte_len, atoi, read_digits, parse_uint,
}
use vpn_subscription_managem.RuleSpec.Canonical.{CanonicalRule, Family, Matcher, semantic_key}
use vpn_subscription_managem.RuleSpec.Key.{semantic_key-injective}
use vpn_subscription_managem.RuleSpec.Capability.{clash, supports_and_map}
use vpn_subscription_managem.RuleSpec.Scope.{IsMapped, supports_and_map-IsMapped}
use vpn_subscription_managem.RuleSpec.Tables.{definitions}
use vpn_subscription_managem.RuleSpec.Legacy.{find_text, normalize_rule_type}
use vpn_subscription_managem.RuleSpec.Value.{
  ValueError, validate_value, check_found, check_def, check_required, check_value, check_number,
  check_network, limit_length, contains_control, one_of, number_within, is_positive, starts_open,
  closes_last, balanced_close_paren, close_from, depth_after, not_port, unbalanced,
}
use vpn_subscription_managem.RuleSpec.Rendered.{comma}
use vpn_subscription_managem.RuleSpec.Trim.{starts_space, ends_space}
use vpn_subscription_managem.RuleSpec.Accepted.{IsLibrary, is_name}
use vpn_subscription_managem.RuleSpec.Limits.{IsLimited, validate_value-IsLimited}

-- ASCII letters only; every regular expression compiles, and a network is printed as it stands.
abbrev lower : ℕ → ℕ
lower c = if leb b'A' c && leb c b'Z' then c + 32 else c

unfoldable pub to_lower : Text → Text
to_lower t = map lower t

abbrev pub library : Library
library = record {
  to_upper = normalize_rule_type;
  to_lower = to_lower;
  compiles = λ t. true;
  parse_cidr = λ t. some t;
}

upper_name : (t : Text) → is_name t ≡ true → normalize_rule_type t ≡ t
unfolding is_name normalize_rule_type
upper_name [] h = refl
upper_name (c ∷ cs) h = ground (arith, h, upper_name cs)

is_empty-to_lower : (t : Text) → is_empty (to_lower t) ≡ is_empty t
unfolding to_lower is_empty
is_empty-to_lower [] = refl
is_empty-to_lower (c ∷ cs) = refl

is_space-lower : (c : ℕ) → is_space (lower c) ≡ is_space c
unfolding is_space
is_space-lower c = ground arith

starts_space-to_lower : (t : Text) → starts_space (to_lower t) ≡ starts_space t
unfolding to_lower starts_space
starts_space-to_lower [] = refl
starts_space-to_lower (c ∷ cs) = is_space-lower c

ends_space-to_lower : (t : Text) → ends_space (to_lower t) ≡ ends_space t
unfolding to_lower ends_space
ends_space-to_lower [] = refl
ends_space-to_lower (c ∷ cs) =
    ground (arith, is_space-lower c, ends_space-to_lower cs, is_empty-to_lower cs)

contains_char-to_lower : (t : Text) → contains_char comma (to_lower t) ≡ contains_char comma t
unfolding to_lower contains_char
contains_char-to_lower [] = refl
contains_char-to_lower (c ∷ cs) = ground (arith, contains_char-to_lower cs)

pub library-IsLibrary : IsLibrary library
library-IsLibrary = record {
  upper_name = upper_name;
  lower_field = λ t f. record {
    trimmed = record {
      nonempty = is_empty-to_lower t ∙ f.trimmed.nonempty;
      start = starts_space-to_lower t ∙ f.trimmed.start;
      finish = ends_space-to_lower t ∙ f.trimmed.finish;
    };
    single = contains_char-to_lower t ∙ f.single;
  };
  cidr_field = λ t v f e. rw (some-injective e) at f;
}

-- The same value with and without the option.
abbrev rule_a : CanonicalRule
rule_a = record {
  family = Family.ip;
  matcher = Matcher.cidr;
  value = codes "fd00::/8";
  options = record { no_resolve = true };
}

semantic_key-injective_example : (semantic_key rule_a ≡ semantic_key rule_a) ↔ (rule_a ≡ rule_a)
semantic_key-injective_example = semantic_key-injective rule_a rule_a

supports_and_map-IsMapped_example : IsMapped rule_a clash (supports_and_map rule_a clash)
supports_and_map-IsMapped_example = supports_and_map-IsMapped rule_a clash

abbrev check : Text → Text → Result ValueError (Text × Text)
check t v = validate_value library t v

checks :
    (check (codes " dst-port") (codes "443 ") ≡ ok (codes "DST-PORT", codes "443"))
    × (check (codes "IN-PORT") (codes "65536") ≡ err not_port)
    × (check (codes "AND") (codes "((NETWORK,udp),(DST-PORT,443))")
        ≡ ok (codes "AND", codes "((NETWORK,udp),(DST-PORT,443))"))
    × (check (codes "OR") (codes "(a),(b)") ≡ err unbalanced)
unfolding validate_value check_found check_def check_required check_value check_number check_network
    limit_length find_text definitions text_eq trim_space trim_left trim_right is_space is_empty
    contains_any contains_control contains_char one_of byte_len number_within is_positive atoi
    read_digits parse_uint normalize_rule_type starts_open closes_last balanced_close_paren
    close_from depth_after to_lower
checks = (refl, refl, refl, refl)

validate_value-IsLimited_example : IsLimited (codes "DST-PORT") (codes "443")
unfolding text_eq one_of
validate_value-IsLimited_example =
    validate_value-IsLimited library (codes " dst-port") (codes "443 ") (codes "DST-PORT")
      (codes "443") checks.0 refl
