-- ===== src/RuleSpec/Types.antt =====
-- The names, the Clash types and the MATCH flags of the rule types (rulespec/spec.go: Definitions;
-- legacy.go: legacyCapabilityMap).
use vpn_subscription_managem.Base.{
  ◌≡◌, refl, Bool, true, false, not, ◌&&◌, ◌||◌, List, [], ◌∷◌, Text, codes, text_eq, text_eq_iff,
  some, if◌then◌else◌, arith, Bool-cases, &&-left, &&-right, all_pass,
}
use vpn_subscription_managem.RuleSpec.Strings.{is_empty, contains_char, is_space}
use vpn_subscription_managem.RuleSpec.Tables.{RuleDef, definitions, legacy_capability_map}
use vpn_subscription_managem.RuleSpec.Capability.{clash}
use vpn_subscription_managem.RuleSpec.Legacy.{
  find_text, normalize_rule_type, supports_and_map_legacy, legacy_to,
}
use vpn_subscription_managem.RuleSpec.Rendered.{comma}
use vpn_subscription_managem.RuleSpec.Trim.{starts_space, ends_space}
use vpn_subscription_managem.RuleSpec.ReadBack.{IsField}
use vpn_subscription_managem.RuleSpec.Accepted.{is_name}

unfoldable pub type_agrees : Text × RuleDef → Bool
type_agrees (k, d) =
    let mapped = supports_and_map_legacy k clash in
    is_name k
    && (not (is_empty k)
        && (not (contains_char comma k)
            && (not (starts_space k)
                && (not (ends_space k)
                    && ((not mapped.supported || text_eq mapped.render_type k)
                        && (if text_eq k (codes "MATCH")
                            then not d.value_required && not mapped.supports_no_resolve
                            else d.value_required))))))

definitions-agree : all_pass type_agrees definitions ≡ true
unfolding all_pass type_agrees definitions is_name is_empty contains_char starts_space ends_space
    is_space supports_and_map_legacy legacy_to find_text normalize_rule_type legacy_capability_map
    text_eq
definitions-agree = refl

find_text-pass :
    (p : Text × RuleDef → Bool) (k : Text) (rows : List (Text × RuleDef)) (d : RuleDef)
    → all_pass p rows ≡ true
    → find_text k rows ≡ some d
    → p (k, d) ≡ true
unfolding find_text all_pass
find_text-pass p k [] d h e = ground arith
find_text-pass p k ((j, c) ∷ rows) d h e = ground (
  arith,
  Bool-cases (text_eq j k),
  text_eq_iff j k,
  find_text-pass p k rows d,
  &&-left (p (j, c)) (all_pass p rows) h,
  &&-right (p (j, c)) (all_pass p rows) h,
)

pub definitions-type_agrees :
    (k : Text) (d : RuleDef) → find_text k definitions ≡ some d → type_agrees (k, d) ≡ true
definitions-type_agrees k d e = find_text-pass type_agrees k definitions d definitions-agree e

-- A type of the table is a name and a field, and the line of a supported one starts with it.
pub record IsType (k : Text) (d : RuleDef) : Type 0 where
  pub name : is_name k ≡ true
  pub field : IsField k
  pub renders :
      (supports_and_map_legacy k clash).supported ≡ true
      → (supports_and_map_legacy k clash).render_type ≡ k
  pub terminal :
      text_eq k (codes "MATCH") ≡ true
      → (d.value_required ≡ false) × ((supports_and_map_legacy k clash).supports_no_resolve ≡ false)
  pub valued : text_eq k (codes "MATCH") ≡ false → d.value_required ≡ true

pub definitions-IsType : (k : Text) (d : RuleDef) → find_text k definitions ≡ some d → IsType k d
unfolding type_agrees
definitions-IsType k d e =
    let h = definitions-type_agrees k d e in
    record {
      name = ground (arith, h);
      field = record {
        trimmed = record {
          nonempty = ground (arith, h);
          start = ground (arith, h);
          finish = ground (arith, h);
        };
        single = ground (arith, h);
      };
      renders = λ s. ground (arith, h, text_eq_iff (supports_and_map_legacy k clash).render_type k);
      terminal = λ m. ground (arith, h);
      valued = λ m. ground (arith, h);
    }
