-- ===== src/RuleSpec/Tables.antt =====
-- The tables of the rule types by name (rulespec/spec.go: Definitions; canonical.go:
-- legacyCanonicalMap; legacy.go: legacyCapabilityMap). A Go map is the list of its entries; every
-- name stands once.
use vpn_subscription_managem.Base.{Bool, true, false, List, [], ◌∷◌, Text, codes}
use vpn_subscription_managem.RuleSpec.Canonical.{Family, Matcher}
use vpn_subscription_managem.RuleSpec.Capability.{TargetScope, common, clash_only, sr_only}

pub record RuleDef : Type 0 where
  pub sr : Bool
  pub no_resolve : Bool
  pub value_required : Bool

abbrev def : Text → Bool → Bool → Bool → Text × RuleDef
def type on_sr resolve required =
    (type, record { sr = on_sr; no_resolve = resolve; value_required = required })

unfoldable pub definitions : List (Text × RuleDef)
definitions =
    def (codes "DOMAIN") true false true
    ∷ def (codes "DOMAIN-SUFFIX") true false true
    ∷ def (codes "DOMAIN-KEYWORD") true false true
    ∷ def (codes "DOMAIN-REGEX") false false true
    ∷ def (codes "GEOSITE") false false true
    ∷ def (codes "GEOIP") true true true
    ∷ def (codes "SRC-GEOIP") false false true
    ∷ def (codes "IP-ASN") false true true
    ∷ def (codes "SRC-IP-ASN") false false true
    ∷ def (codes "IP-CIDR") true true true
    ∷ def (codes "IP-CIDR6") true true true
    ∷ def (codes "SRC-IP-CIDR") false false true
    ∷ def (codes "IP-SUFFIX") false true true
    ∷ def (codes "SRC-IP-SUFFIX") false false true
    ∷ def (codes "SRC-PORT") false false true
    ∷ def (codes "DST-PORT") false false true
    ∷ def (codes "IN-PORT") false false true
    ∷ def (codes "DSCP") false false true
    ∷ def (codes "PROCESS-NAME") true false true
    ∷ def (codes "PROCESS-PATH") false false true
    ∷ def (codes "PROCESS-NAME-REGEX") true false true
    ∷ def (codes "PROCESS-PATH-REGEX") false false true
    ∷ def (codes "NETWORK") false false true
    ∷ def (codes "UID") false false true
    ∷ def (codes "IN-TYPE") false false true
    ∷ def (codes "IN-USER") false false true
    ∷ def (codes "IN-NAME") false false true
    ∷ def (codes "SUB-RULE") false false true
    ∷ def (codes "RULE-SET") false true true
    ∷ def (codes "AND") false false true
    ∷ def (codes "OR") false false true
    ∷ def (codes "NOT") false false true
    ∷ def (codes "MATCH") false false false
    ∷ def (codes "USER-AGENT") true false true
    ∷ []

pub record LegacyCanonical : Type 0 where
  pub family : Family
  pub matcher : Matcher

abbrev to : Text → Family → Matcher → Text × LegacyCanonical
to type f m = (type, record { family = f; matcher = m })

unfoldable pub legacy_canonical_map : List (Text × LegacyCanonical)
legacy_canonical_map =
    to (codes "DOMAIN") Family.domain Matcher.exact
    ∷ to (codes "DOMAIN-SUFFIX") Family.domain Matcher.suffix
    ∷ to (codes "DOMAIN-KEYWORD") Family.domain Matcher.keyword
    ∷ to (codes "DOMAIN-REGEX") Family.domain Matcher.regex
    ∷ to (codes "GEOSITE") Family.geo Matcher.exact
    ∷ to (codes "GEOIP") Family.geo Matcher.equals
    ∷ to (codes "SRC-GEOIP") Family.geo Matcher.equals
    ∷ to (codes "IP-ASN") Family.ip Matcher.asn
    ∷ to (codes "SRC-IP-ASN") Family.ip Matcher.asn
    ∷ to (codes "IP-CIDR") Family.ip Matcher.cidr
    ∷ to (codes "IP-CIDR6") Family.ip Matcher.cidr
    ∷ to (codes "SRC-IP-CIDR") Family.ip Matcher.cidr
    ∷ to (codes "IP-SUFFIX") Family.ip Matcher.suffix
    ∷ to (codes "SRC-IP-SUFFIX") Family.ip Matcher.suffix
    ∷ to (codes "SRC-PORT") Family.port Matcher.equals
    ∷ to (codes "DST-PORT") Family.port Matcher.equals
    ∷ to (codes "IN-PORT") Family.port Matcher.equals
    ∷ to (codes "DSCP") Family.network Matcher.equals
    ∷ to (codes "PROCESS-NAME") Family.process Matcher.exact
    ∷ to (codes "PROCESS-PATH") Family.process Matcher.exact
    ∷ to (codes "PROCESS-NAME-REGEX") Family.process Matcher.regex
    ∷ to (codes "PROCESS-PATH-REGEX") Family.process Matcher.regex
    ∷ to (codes "NETWORK") Family.network Matcher.equals
    ∷ to (codes "UID") Family.process Matcher.equals
    ∷ to (codes "IN-TYPE") Family.network Matcher.equals
    ∷ to (codes "IN-USER") Family.process Matcher.equals
    ∷ to (codes "IN-NAME") Family.process Matcher.equals
    ∷ to (codes "SUB-RULE") Family.process Matcher.equals
    ∷ to (codes "RULE-SET") Family.process Matcher.equals
    ∷ to (codes "AND") Family.network Matcher.equals
    ∷ to (codes "OR") Family.network Matcher.equals
    ∷ to (codes "NOT") Family.network Matcher.equals
    ∷ to (codes "MATCH") Family.network Matcher.equals
    ∷ to (codes "USER-AGENT") Family.user_agent Matcher.exact
    ∷ []

pub record LegacyCapability : Type 0 where
  pub rule_type : Text
  pub scope : TargetScope
  pub clash_render_type : Text
  pub sr_render_type : Text
  pub supports_no_resolve : Bool
  pub material_pool : Bool
  pub advanced : Bool

-- One entry of the map; every entry has `Advanced: true` and its key as `RuleType`.
abbrev row : Text → TargetScope → Text → Text → Bool → Bool → Text × LegacyCapability
row type s clash_type sr_type no_resolve pool = (
  type,
  record {
    rule_type = type;
    scope = s;
    clash_render_type = clash_type;
    sr_render_type = sr_type;
    supports_no_resolve = no_resolve;
    material_pool = pool;
    advanced = true;
  },
)

unfoldable pub legacy_capability_map : List (Text × LegacyCapability)
legacy_capability_map =
    row (codes "DOMAIN") common (codes "DOMAIN") (codes "DOMAIN") false true
    ∷ row (codes "DOMAIN-SUFFIX") common (codes "DOMAIN-SUFFIX") (codes "DOMAIN-SUFFIX") false true
    ∷ row (codes "DOMAIN-KEYWORD") common (codes "DOMAIN-KEYWORD") (codes "DOMAIN-KEYWORD") false
        true
    ∷ row (codes "DOMAIN-REGEX") clash_only (codes "DOMAIN-REGEX") [] false true
    ∷ row (codes "GEOSITE") clash_only (codes "GEOSITE") [] false false
    ∷ row (codes "GEOIP") common (codes "GEOIP") (codes "GEOIP") true true
    ∷ row (codes "SRC-GEOIP") clash_only (codes "SRC-GEOIP") [] false false
    ∷ row (codes "IP-ASN") common (codes "IP-ASN") (codes "IP-ASN") true true
    ∷ row (codes "SRC-IP-ASN") clash_only (codes "SRC-IP-ASN") [] false false
    ∷ row (codes "IP-CIDR") common (codes "IP-CIDR") (codes "IP-CIDR") true true
    ∷ row (codes "IP-CIDR6") common (codes "IP-CIDR6") (codes "IP-CIDR6") true true
    ∷ row (codes "SRC-IP-CIDR") clash_only (codes "SRC-IP-CIDR") [] false false
    ∷ row (codes "IP-SUFFIX") clash_only (codes "IP-SUFFIX") [] true false
    ∷ row (codes "SRC-IP-SUFFIX") clash_only (codes "SRC-IP-SUFFIX") [] false false
    ∷ row (codes "SRC-PORT") clash_only (codes "SRC-PORT") [] false false
    ∷ row (codes "DST-PORT") clash_only (codes "DST-PORT") [] false false
    ∷ row (codes "IN-PORT") clash_only (codes "IN-PORT") [] false false
    ∷ row (codes "DSCP") clash_only (codes "DSCP") [] false false
    ∷ row (codes "PROCESS-NAME") common (codes "PROCESS-NAME") (codes "PROCESS-NAME") false true
    ∷ row (codes "PROCESS-PATH") clash_only (codes "PROCESS-PATH") [] false false
    ∷ row (codes "PROCESS-NAME-REGEX") common (codes "PROCESS-NAME-REGEX")
        (codes "PROCESS-NAME-REGEX") false true
    ∷ row (codes "PROCESS-PATH-REGEX") clash_only (codes "PROCESS-PATH-REGEX") [] false false
    ∷ row (codes "NETWORK") clash_only (codes "NETWORK") [] false false
    ∷ row (codes "UID") clash_only (codes "UID") [] false false
    ∷ row (codes "IN-TYPE") clash_only (codes "IN-TYPE") [] false false
    ∷ row (codes "IN-USER") clash_only (codes "IN-USER") [] false false
    ∷ row (codes "IN-NAME") clash_only (codes "IN-NAME") [] false false
    ∷ row (codes "SUB-RULE") clash_only (codes "SUB-RULE") [] false false
    ∷ row (codes "RULE-SET") clash_only (codes "RULE-SET") [] true false
    ∷ row (codes "AND") clash_only (codes "AND") [] false false
    ∷ row (codes "OR") clash_only (codes "OR") [] false false
    ∷ row (codes "NOT") clash_only (codes "NOT") [] false false
    ∷ row (codes "MATCH") clash_only (codes "MATCH") [] false false
    ∷ row (codes "USER-AGENT") sr_only [] (codes "USER-AGENT") false true
    ∷ []
