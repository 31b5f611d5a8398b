-- ===== src/Pool/Counts.antt =====
-- The counters of a parsed source (pool/pipeline.go: finalizeParseResult, ensureRuleCountStat,
-- sortedRuleCounts).
use mathlib.Core.Path.{subst}
use vpn_subscription_managem.Base.{
  ℕ, ◌+◌, ◌*◌, ◌≡◌, ◌≤◌, ◌<◌, refl, ◌∙◌, true, not, ◌&&◌, List, ◌==◌, length, arith, ok,
  guard-eq-ok, ok-injective,
}
use vpn_subscription_managem.RuleSpec.Canonical.{CanonicalRule}
use vpn_subscription_managem.RuleSpec.Capability.{clash, sr}
use vpn_subscription_managem.Pool.Pipeline.{
  SourceMode, DetectedFormat, ParseDiagnostic, ParsedRule, ParseResult, mixed_platform_source,
  no_accepted_rules, threshold_not_met, meets_recognition_threshold, tally_all,
}
use vpn_subscription_managem.Pool.Stats.{
  accepted_of, excluded_of, rejected_of, duplicates_of, total, total-sorted,
}
use vpn_subscription_managem.Pool.Tallied.{tally_all-IsTallied, start_tally-IsTallied}
use vpn_subscription_managem.Pool.ByType.{in_type, rules_in, items_in}
use vpn_subscription_managem.Pool.TypedTally.{
  taken_of, listed_of, all_of, tally_all-IsTyped, start_tally-IsTyped,
}
use vpn_subscription_managem.Pool.Finalize.{
  reject_count, has_private, is_auto, start_tally, result_of, check_result, finalize_parse_result,
}

-- The counters of a result, in whole and by type.
pub record IsCounted (res : ParseResult) : Type 0 where
  pub input : res.input ≡ res.accepted + res.excluded + res.rejected + res.duplicates
  pub items : length res.items ≡ res.accepted + res.duplicates
  pub rules : length res.rules ≡ res.accepted
  pub by_accepted : total accepted_of res.rule_counts ≡ res.accepted
  pub by_excluded : total excluded_of res.rule_counts ≡ res.excluded
  pub by_rejected : total rejected_of res.rule_counts + res.unclassified_rejected ≡ res.rejected
  pub by_duplicates : total duplicates_of res.rule_counts ≡ res.duplicates

-- The counters of a result for the rules of one family, matcher and scope: the accepted are the
-- rules of that type, with the duplicates they are the items of it, and in all they are the items of
-- the input of it.
pub record IsTypeCounted (r : CanonicalRule) (items : List ParsedRule) (res : ParseResult)
    : Type 0 where
  pub rules : total (in_type r taken_of) res.rule_counts ≡ rules_in r res.rules
  pub listed : total (in_type r listed_of) res.rule_counts ≡ items_in r res.items
  pub all : total (in_type r all_of) res.rule_counts ≡ items_in r items

-- A source is accepted only with a rule, and with nine tenths of its input recognized, or all of it
-- below ten.
pub record IsEnough (res : ParseResult) : Type 0 where
  pub some_rule : 1 ≤ res.accepted
  pub tenths : res.input * 9 ≤ res.recognized * 10
  pub whole : res.input < 10 → res.recognized ≡ res.input

result_of-IsCounted :
    (format : DetectedFormat) (items : List ParsedRule) (diagnostics : List ParseDiagnostic)
    (mode : SourceMode)
    → IsCounted
        (result_of format items diagnostics (tally_all mode items (start_tally diagnostics)))
result_of-IsCounted format items diagnostics mode =
    let t = tally_all mode items (start_tally diagnostics) in
    let h =
      tally_all-IsTallied (reject_count diagnostics) 0 mode items (start_tally diagnostics)
        (start_tally-IsTallied diagnostics) in
    record {
      input = omega (arith, h.all);
      items = h.listed;
      rules = refl;
      by_accepted = total-sorted accepted_of t.counts ∙ h.by_accepted;
      by_excluded = total-sorted excluded_of t.counts ∙ h.by_excluded;
      by_rejected = omega (arith, total-sorted rejected_of t.counts, h.by_rejected);
      by_duplicates = total-sorted duplicates_of t.counts ∙ h.by_duplicates;
    }

result_of-IsTypeCounted :
    (r : CanonicalRule) (format : DetectedFormat) (items : List ParsedRule)
    (diagnostics : List ParseDiagnostic) (mode : SourceMode)
    → IsTypeCounted r items
        (result_of format items diagnostics (tally_all mode items (start_tally diagnostics)))
result_of-IsTypeCounted r format items diagnostics mode =
    let t = tally_all mode items (start_tally diagnostics) in
    let h =
      tally_all-IsTyped r 0 mode items (start_tally diagnostics)
        (start_tally-IsTyped r diagnostics) in
    record {
      rules = total-sorted (in_type r taken_of) t.counts ∙ h.by_rules;
      listed = total-sorted (in_type r listed_of) t.counts ∙ h.by_items;
      all = omega (arith, total-sorted (in_type r all_of) t.counts, h.by_all);
    }

meets-tenths :
    (input recognized : ℕ)
    → meets_recognition_threshold input recognized ≡ true
    → (input * 9 ≤ recognized * 10) × (input < 10 → recognized ≡ input)
unfolding meets_recognition_threshold
meets-tenths input recognized h = (ground (arith, h), λ l. ground (arith, h, l))

pub check_result-IsEnough : (r res : ParseResult) → check_result r ≡ ok res → (r ≡ res) × IsEnough r
unfolding check_result
check_result-IsEnough r res h =
    let (some, h1) = guard-eq-ok (r.accepted == 0) no_accepted_rules _ h in
    let (met, h2) =
      guard-eq-ok (not (meets_recognition_threshold r.input r.recognized)) threshold_not_met (ok r)
        h1 in
    let enough = meets-tenths r.input r.recognized (ground (arith, met)) in
    (
      ok-injective h2,
      record { some_rule = ground (arith, some); tenths = enough.0; whole = enough.1 },
    )

-- Of every accepted source each item of the input, the recognized and the rejected, is counted once
-- as accepted, excluded, rejected or duplicate; and for each family, matcher and scope, the counters
-- of that type give the accepted rules of it, with the duplicates the items of it, and in all the
-- recognized items of it. The source has a rule, and nine tenths of its input are recognized, or all
-- of it where it has fewer than ten items.
pub finalize_parse_result-IsCounted :
    (format : DetectedFormat) (items : List ParsedRule) (diagnostics : List ParseDiagnostic)
    (mode : SourceMode) (res : ParseResult) (r : CanonicalRule)
    → finalize_parse_result format items diagnostics mode ≡ ok res
    → IsCounted res × IsTypeCounted r items res × IsEnough res
unfolding finalize_parse_result
finalize_parse_result-IsCounted format items diagnostics mode res r h =
    let made =
      result_of format items diagnostics (tally_all mode items (start_tally diagnostics)) in
    let (_, h1) =
      guard-eq-ok (is_auto mode && (has_private sr items && has_private clash items))
        mixed_platform_source (check_result made) h in
    let (same, enough) = check_result-IsEnough made res h1 in
    subst (λ (x : ParseResult). IsCounted x × IsTypeCounted r items x × IsEnough x) same
      (
        result_of-IsCounted format items diagnostics mode,
        result_of-IsTypeCounted r format items diagnostics mode,
        enough,
      )
