-- ===== src/Pool/Finalize.antt =====
-- The result of a parsed source (pool/pipeline.go: finalizeParseResult).
use vpn_subscription_managem.Base.{
  ℕ, suc, ◌+◌, Bool, true, false, not, ◌&&◌, ◌||◌, List, [], ◌∷◌, codes, text_eq, ◌==◌, length,
  if◌then◌else◌, Result, ok, err,
}
use vpn_subscription_managem.RuleSpec.Capability.{Target, clash, sr}
use vpn_subscription_managem.Pool.Pipeline.{
  SourceMode, mode_auto, DetectedFormat, ParseDiagnostic, ParsedRule, Profile, profile_common,
  profile_clash, profile_shadowrocket, ParseResult, ParseError, mixed_platform_source,
  no_accepted_rules, threshold_not_met, supports_target, meets_recognition_threshold,
  sorted_rule_counts, Tally, tally_all,
}

-- The diagnostics with `Kind == "reject"`.
unfoldable pub reject_count : List ParseDiagnostic → ℕ
reject_count [] = 0
reject_count (d ∷ ds) =
    let rest = reject_count ds in if text_eq d.kind (codes "reject") then suc rest else rest

-- Some rule that the target does not support.
unfoldable pub has_private : Target → List ParsedRule → Bool
has_private t [] = false
has_private t (i ∷ is) = not (supports_target i.rule t) || has_private t is

unfoldable pub profile_of : List ParsedRule → Profile
profile_of items =
    if has_private sr items
    then profile_clash
    else if has_private clash items
    then profile_shadowrocket
    else profile_common

unfoldable pub is_auto : SourceMode → Bool
is_auto mode_auto = true
is_auto _ = false

abbrev pub start_tally : List ParseDiagnostic → Tally
start_tally diagnostics = record {
  accepted = [];
  items = [];
  seen = [];
  counts = [];
  diagnostics = diagnostics;
  excluded = 0;
  rejected = reject_count diagnostics;
  duplicates = 0;
}

abbrev pub result_of : DetectedFormat → List ParsedRule → List ParseDiagnostic → Tally → ParseResult
result_of format items diagnostics t = record {
  format = format;
  profile = profile_of items;
  rules = t.accepted;
  items = t.items;
  diagnostics = t.diagnostics;
  input = length items + reject_count diagnostics;
  recognized = length items;
  accepted = length t.accepted;
  excluded = t.excluded;
  rejected = t.rejected;
  duplicates = t.duplicates;
  rule_counts = sorted_rule_counts t.counts;
  unclassified_rejected = reject_count diagnostics;
}

-- The errors at the end.
unfoldable pub check_result : ParseResult → Result ParseError ParseResult
check_result res =
    if res.accepted == 0
    then err no_accepted_rules
    else if not (meets_recognition_threshold res.input res.recognized)
    then err threshold_not_met
    else ok res

-- `finalizeParseResult`
unfoldable pub finalize_parse_result :
    DetectedFormat
    → List ParsedRule
    → List ParseDiagnostic
    → SourceMode
    → Result ParseError ParseResult
finalize_parse_result format items diagnostics mode =
    if is_auto mode && (has_private sr items && has_private clash items)
    then err mixed_platform_source
    else check_result
        (result_of format items diagnostics (tally_all mode items (start_tally diagnostics)))
