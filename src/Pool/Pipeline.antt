-- ===== src/Pool/Pipeline.antt =====
-- The rules that a parsed source brings to its pool (pool/types.go, pool/pipeline.go:
-- finalizeParseResult). The parsed items and their diagnostics are arguments.
use vpn_subscription_managem.Base.{
  ℕ, suc, ◌*◌, Bool, false, not, ◌||◌, List, [], ◌∷◌, ◌++◌, Text, codes, text_eq, ◌==◌, ltb, leb,
  none, some, if◌then◌else◌,
}
use vpn_subscription_managem.RateLimit.{text_lt}
use vpn_subscription_managem.RuleSpec.Strings.{is_empty}
use vpn_subscription_managem.RuleSpec.Canonical.{
  CanonicalRule, family_text, matcher_text, semantic_key,
}
use vpn_subscription_managem.RuleSpec.Capability.{
  Target, TargetScope, clash, sr, common, clash_only, sr_only, unsupported, find_capability,
  supports_and_map,
}

pub data SourceMode : Type 0 where
  mode_clash mode_shadowrocket mode_auto : SourceMode

pub data DetectedFormat : Type 0 where
  legacy_domain_text plain_domain_text mihomo_domain_yaml mihomo_ipcidr_yaml : DetectedFormat
  mihomo_classical_yaml typed_rule_text plain_ipcidr_text sing_box_source_json : DetectedFormat

pub record ParseDiagnostic : Type 0 where
  pub line : ℕ
  pub kind : Text
  pub message : Text
  pub raw : Text

pub record RuleOriginMeta : Type 0 where
  pub line : ℕ
  pub raw : Text
  pub order : ℕ

pub record ParsedRule : Type 0 where
  pub rule : CanonicalRule
  pub origin : RuleOriginMeta

pub record RuleCountStat : Type 0 where
  pub family : Text
  pub matcher : Text
  pub scope : Text
  pub accepted : ℕ
  pub excluded : ℕ
  pub rejected : ℕ
  pub duplicates : ℕ

pub data Profile : Type 0 where
  profile_common profile_clash profile_shadowrocket : Profile

pub record ParseResult : Type 0 where
  pub format : DetectedFormat
  pub profile : Profile
  pub rules : List CanonicalRule
  pub items : List ParsedRule
  pub diagnostics : List ParseDiagnostic
  pub input : ℕ
  pub recognized : ℕ
  pub accepted : ℕ
  pub excluded : ℕ
  pub rejected : ℕ
  pub duplicates : ℕ
  pub rule_counts : List RuleCountStat
  pub unclassified_rejected : ℕ

pub data ParseError : Type 0 where
  unrecognized_source ambiguous_source_format conflicting_document_format : ParseError
  mixed_platform_source html_source no_accepted_rules threshold_not_met : ParseError

-- The strings of the scopes; the zero Capability has the empty one.
unfoldable pub scope_text : TargetScope → Text
scope_text common = codes "common"
scope_text clash_only = codes "clash_only"
scope_text sr_only = codes "sr_only"
scope_text unsupported = codes "unsupported"

-- `capabilityForRule(rule).MaterialPool` and `.Scope`
unfoldable pub is_material : CanonicalRule → Bool
is_material r = elim (find_capability r.family r.matcher) [
  | none ↦ false
  | some c ↦ c.material_pool
]

unfoldable pub scope_of : CanonicalRule → Text
scope_of r = elim (find_capability r.family r.matcher) [ none ↦ [] | some c ↦ scope_text c.scope ]

-- `supportsTarget`
unfoldable pub supports_target : CanonicalRule → Target → Bool
supports_target r t = (supports_and_map r t).supported

-- `meetsRecognitionThreshold`
unfoldable pub meets_recognition_threshold : ℕ → ℕ → Bool
meets_recognition_threshold input recognized =
    if ltb input 10 then recognized == input else leb (input * 9) (recognized * 10)

-- The entry of the map that `ensureRuleCountStat` returns, made if it is missing, with a change.
unfoldable pub stat_key : CanonicalRule → Text
stat_key r = family_text r.family ++ 0 ∷ (matcher_text r.matcher ++ 0 ∷ scope_of r)

abbrev pub fresh_stat : CanonicalRule → RuleCountStat
fresh_stat r = record {
  family = family_text r.family;
  matcher = matcher_text r.matcher;
  scope = scope_of r;
  accepted = 0;
  excluded = 0;
  rejected = 0;
  duplicates = 0;
}

unfoldable pub count_in :
    CanonicalRule
    → (RuleCountStat → RuleCountStat)
    → List (Text × RuleCountStat)
    → List (Text × RuleCountStat)
count_in r f [] = (stat_key r, f (fresh_stat r)) ∷ []
count_in r f ((k, s) ∷ rest) =
    if text_eq k (stat_key r) then (k, f s) ∷ rest else (k, s) ∷ count_in r f rest

unfoldable pub stat_before : RuleCountStat → RuleCountStat → Bool
stat_before a b =
    if not (text_eq a.family b.family)
    then text_lt a.family b.family
    else if not (text_eq a.matcher b.matcher)
    then text_lt a.matcher b.matcher
    else text_lt a.scope b.scope

unfoldable pub insert_stat : RuleCountStat → List RuleCountStat → List RuleCountStat
insert_stat s [] = s ∷ []
insert_stat s (t ∷ ts) = if stat_before t s then t ∷ insert_stat s ts else s ∷ t ∷ ts

-- `sortedRuleCounts`
unfoldable pub sorted_rule_counts : List (Text × RuleCountStat) → List RuleCountStat
sorted_rule_counts [] = []
sorted_rule_counts ((k, s) ∷ rest) = insert_stat s (sorted_rule_counts rest)

-- What the loop over the items keeps.
pub record Tally : Type 0 where
  pub accepted : List CanonicalRule
  pub items : List ParsedRule
  pub seen : List Text
  pub counts : List (Text × RuleCountStat)
  pub diagnostics : List ParseDiagnostic
  pub excluded : ℕ
  pub rejected : ℕ
  pub duplicates : ℕ

pub data Verdict : Type 0 where
  reject exclude duplicate accept : Verdict

unfoldable pub mem_text : Text → List Text → Bool
mem_text k [] = false
mem_text k (j ∷ ks) = text_eq j k || mem_text k ks

-- Whether the mode leaves the rule out.
unfoldable pub leaves_out : SourceMode → CanonicalRule → Bool
leaves_out mode_clash r = not (supports_target r clash)
leaves_out mode_shadowrocket r = not (supports_target r sr)
leaves_out mode_auto r = false

-- The branch of the loop that an item takes.
unfoldable pub verdict : SourceMode → List Text → CanonicalRule → Verdict
verdict mode seen r =
    if not (is_material r)
    then reject
    else if leaves_out mode r
    then exclude
    else if mem_text (semantic_key r) seen
    then duplicate
    else accept

abbrev pub rejection : ParsedRule → ParseDiagnostic
rejection item = record {
  line = 0;
  kind = codes "reject";
  message = codes "不是素材池可选能力";
  raw = if is_empty item.origin.raw then item.rule.value else item.origin.raw;
}

-- The increments of an entry.
abbrev pub more_accepted : RuleCountStat → RuleCountStat
more_accepted s = record s { accepted = suc s.accepted }

abbrev pub more_excluded : RuleCountStat → RuleCountStat
more_excluded s = record s { excluded = suc s.excluded }

abbrev pub more_rejected : RuleCountStat → RuleCountStat
more_rejected s = record s { rejected = suc s.rejected }

abbrev pub more_duplicates : RuleCountStat → RuleCountStat
more_duplicates s = record s { duplicates = suc s.duplicates }

unfoldable pub settle : Verdict → ParsedRule → Tally → Tally
settle reject item t = record t {
  rejected = suc t.rejected;
  counts = count_in item.rule more_rejected t.counts;
  diagnostics = t.diagnostics ++ rejection item ∷ [];
}
settle exclude item t = record t {
  excluded = suc t.excluded;
  counts = count_in item.rule more_excluded t.counts;
}
settle duplicate item t = record t {
  items = t.items ++ item ∷ [];
  duplicates = suc t.duplicates;
  counts = count_in item.rule more_duplicates t.counts;
}
settle accept item t = record t {
  items = t.items ++ item ∷ [];
  seen = semantic_key item.rule ∷ t.seen;
  accepted = t.accepted ++ item.rule ∷ [];
  counts = count_in item.rule more_accepted t.counts;
}

unfoldable pub tally_all : SourceMode → List ParsedRule → Tally → Tally
tally_all mode [] t = t
tally_all mode (item ∷ items) t =
    tally_all mode items (settle (verdict mode t.seen item.rule) item t)
