-- ===== src/RuleSpec/Canonical.antt =====
-- Canonical rules and their key (rulespec/canonical.go).
use vpn_subscription_managem.Base.{Bool, true, false, ◌∷◌, ◌++◌, Text, codes}

pub data Family : Type 0 where
  domain ip user_agent process network port geo : Family

pub data Matcher : Type 0 where
  exact suffix keyword route_wildcard subdomain_only provider_label_wildcard : Matcher
  regex cidr asn equals : Matcher

-- The strings that the constants stand for.
unfoldable pub family_text : Family → Text
family_text domain = codes "domain"
family_text ip = codes "ip"
family_text user_agent = codes "user_agent"
family_text process = codes "process"
family_text network = codes "network"
family_text port = codes "port"
family_text geo = codes "geo"

unfoldable pub matcher_text : Matcher → Text
matcher_text exact = codes "exact"
matcher_text suffix = codes "suffix"
matcher_text keyword = codes "keyword"
matcher_text route_wildcard = codes "route_wildcard"
matcher_text subdomain_only = codes "subdomain_only"
matcher_text provider_label_wildcard = codes "provider_label_wildcard"
matcher_text regex = codes "regex"
matcher_text cidr = codes "cidr"
matcher_text asn = codes "asn"
matcher_text equals = codes "equals"

pub record RuleOptions : Type 0 where
  pub no_resolve : Bool

pub record CanonicalRule : Type 0 where
  pub family : Family
  pub matcher : Matcher
  pub value : Text
  pub options : RuleOptions

-- strconv.FormatBool
unfoldable pub bool_text : Bool → Text
bool_text true = codes "true"
bool_text false = codes "false"

-- `SemanticKey`: the four fields joined by NUL
unfoldable pub semantic_key : CanonicalRule → Text
semantic_key r =
    family_text r.family
    ++ 0 ∷ (matcher_text r.matcher ++ 0 ∷ (r.value ++ 0 ∷ bool_text r.options.no_resolve))
