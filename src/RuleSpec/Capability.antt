-- ===== src/RuleSpec/Capability.antt =====
-- The registry of what the targets support (rulespec/capability.go).
use vpn_subscription_managem.Base.{
  Bool, true, false, ◌&&◌, List, [], ◌∷◌, Text, codes, text_eq, Option, none, some, if◌then◌else◌,
}
use vpn_subscription_managem.RuleSpec.Strings.{contains_char}
use vpn_subscription_managem.RuleSpec.Canonical.{
  Family, Matcher, CanonicalRule, family_text, matcher_text,
}

-- `other`: any other string of the type Target
pub data Target : Type 0 where
  clash sr other : Target

pub data TargetScope : Type 0 where
  common clash_only sr_only unsupported : TargetScope

pub record MappingResult : Type 0 where
  pub supported : Bool
  pub render_type : Text
  pub conversion_kind : Text
  pub supports_no_resolve : Bool
  pub target_scope : TargetScope

pub record Capability : Type 0 where
  pub family : Family
  pub matcher : Matcher
  pub scope : TargetScope
  pub clash_render_type : Text
  pub sr_render_type : Text
  pub supports_no_resolve : Bool
  pub material_pool : Bool
  pub advanced : Bool

-- One row of the registry; every row has `Advanced: true`.
abbrev row : Family → Matcher → TargetScope → Text → Text → Bool → Bool → Capability
row f m s clash_type sr_type no_resolve pool = record {
  family = f;
  matcher = m;
  scope = s;
  clash_render_type = clash_type;
  sr_render_type = sr_type;
  supports_no_resolve = no_resolve;
  material_pool = pool;
  advanced = true;
}

unfoldable pub capability_registry : List Capability
capability_registry =
    row Family.domain Matcher.exact common (codes "DOMAIN") (codes "DOMAIN") false true
    ∷ row Family.domain Matcher.suffix common (codes "DOMAIN-SUFFIX") (codes "DOMAIN-SUFFIX") false
        true
    ∷ row Family.domain Matcher.keyword common (codes "DOMAIN-KEYWORD") (codes "DOMAIN-KEYWORD")
        false true
    ∷ row Family.domain Matcher.regex clash_only (codes "DOMAIN-REGEX") [] false true
    ∷ row Family.domain Matcher.subdomain_only unsupported [] [] false false
    ∷ row Family.domain Matcher.provider_label_wildcard unsupported [] [] false false
    ∷ row Family.domain Matcher.route_wildcard unsupported [] [] false false
    ∷ row Family.ip Matcher.cidr common (codes "IP-CIDR") (codes "IP-CIDR") true true
    ∷ row Family.ip Matcher.asn common (codes "IP-ASN") (codes "IP-ASN") true true
    ∷ row Family.user_agent Matcher.exact sr_only [] (codes "USER-AGENT") false true
    ∷ row Family.process Matcher.exact common (codes "PROCESS-NAME") (codes "PROCESS-NAME") false
        true
    ∷ row Family.process Matcher.regex common (codes "PROCESS-NAME-REGEX")
        (codes "PROCESS-NAME-REGEX") false true
    ∷ row Family.process Matcher.equals clash_only (codes "PROCESS-PATH") [] false false
    ∷ row Family.network Matcher.equals clash_only (codes "NETWORK") [] false false
    ∷ row Family.port Matcher.equals clash_only (codes "DST-PORT") [] false false
    ∷ row Family.geo Matcher.equals common (codes "GEOIP") (codes "GEOIP") true true
    ∷ row Family.geo Matcher.exact clash_only (codes "GEOSITE") [] false false
    ∷ row Family.process Matcher.equals unsupported [] [] false false
    ∷ []

unfoldable pub find_in : Family → Matcher → List Capability → Option Capability
find_in f m [] = none
find_in f m (c ∷ cs) =
    if text_eq (family_text c.family) (family_text f)
      && text_eq (matcher_text c.matcher) (matcher_text m)
    then some c
    else find_in f m cs

-- `findCapability`, and the loop of `capabilityForRule` in pool/pipeline.go
unfoldable pub find_capability : Family → Matcher → Option Capability
find_capability f m = find_in f m capability_registry

-- `canonicalRenderType`
unfoldable pub canonical_render_type : CanonicalRule → Text → Text
canonical_render_type r default =
    if text_eq (family_text r.family) (codes "ip")
      && text_eq (matcher_text r.matcher) (codes "cidr")
      && contains_char b':' r.value
    then codes "IP-CIDR6"
    else default

abbrev pub unmapped : MappingResult
unmapped = record {
  supported = false;
  render_type = [];
  conversion_kind = [];
  supports_no_resolve = false;
  target_scope = unsupported;
}

-- The result for a capability whose render type for the target is the third argument.
unfoldable pub map_to : CanonicalRule → Capability → Text → MappingResult
map_to r c [] = record {
  supported = false;
  render_type = [];
  conversion_kind = [];
  supports_no_resolve = c.supports_no_resolve;
  target_scope = c.scope;
}
map_to r c (x ∷ xs) = record {
  supported = true;
  render_type = canonical_render_type r (x ∷ xs);
  conversion_kind = codes "direct";
  supports_no_resolve = c.supports_no_resolve;
  target_scope = c.scope;
}

-- `SupportsAndMap`
unfoldable pub supports_and_map : CanonicalRule → Target → MappingResult
supports_and_map r t = elim (find_capability r.family r.matcher) [
  | none ↦ unmapped
  | some c ↦ elim t [
    | clash ↦ map_to r c c.clash_render_type
    | sr ↦ map_to r c c.sr_render_type
    | other ↦ unmapped
  ]
]
