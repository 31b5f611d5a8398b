-- ===== src/RuleSpec/Legacy.antt =====
-- The rule types by name, for the two targets (rulespec/legacy.go).
use vpn_subscription_managem.Base.{
  ℕ, ◌-◌, Bool, true, false, ◌&&◌, List, [], ◌∷◌, Text, codes, text_eq, leb, Option, none, some,
  if◌then◌else◌, map,
}
use vpn_subscription_managem.RuleSpec.Capability.{Target, MappingResult, clash, sr, other, unmapped}
use vpn_subscription_managem.RuleSpec.Tables.{
  LegacyCapability, legacy_capability_map, legacy_canonical_map,
}
use vpn_subscription_managem.RuleSpec.Canonical.{Family, Matcher}
use vpn_subscription_managem.RuleSpec.Strings.{Library, trim_space}

-- `m[key]` with its second result
unfoldable pub find_text {ℓ} : {A : Type ℓ} → Text → List (Text × A) → Option A
find_text k [] = none
find_text k ((j, a) ∷ rows) = if text_eq j k then some a else find_text k rows

-- `normalizeRuleType`, on one character
abbrev upper : ℕ → ℕ
upper c = if leb b'a' c && leb c b'z' then c - 32 else c

unfoldable pub normalize_rule_type : Text → Text
normalize_rule_type t = map upper t

-- `IsMaterialPoolType`
unfoldable pub is_material_pool_type : Text → Bool
is_material_pool_type type = elim (find_text (normalize_rule_type type) legacy_capability_map) [
  | none ↦ false
  | some c ↦ c.material_pool
]

unfoldable pub legacy_to : LegacyCapability → Text → MappingResult
legacy_to c [] = record {
  supported = false;
  render_type = [];
  conversion_kind = [];
  supports_no_resolve = c.supports_no_resolve;
  target_scope = c.scope;
}
legacy_to c (x ∷ xs) = record {
  supported = true;
  render_type = x ∷ xs;
  conversion_kind = codes "direct";
  supports_no_resolve = c.supports_no_resolve;
  target_scope = c.scope;
}

-- `SupportsAndMapLegacy`
unfoldable pub supports_and_map_legacy : Text → Target → MappingResult
supports_and_map_legacy type t = elim (find_text (normalize_rule_type type) legacy_capability_map) [
  | none ↦ unmapped
  | some c ↦ elim t [
    | clash ↦ legacy_to c c.clash_render_type
    | sr ↦ legacy_to c c.sr_render_type
    | other ↦ unmapped
  ]
]

-- `CanonicalizeLegacyType`
unfoldable pub canonicalize_legacy_type : Library → Text → Option (Family × Matcher)
canonicalize_legacy_type lib type =
    elim (find_text (lib.to_upper (trim_space type)) legacy_canonical_map) [
      | none ↦ none
      | some c ↦ some (c.family, c.matcher)
    ]
