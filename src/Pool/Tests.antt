-- ===== src/Pool/Tests.antt =====
-- A source of four items: a rule twice, one for Shadowrocket only, and one that is not material.
use vpn_subscription_managem.Base.{
  ◌≡◌, refl, false, List, [], ◌∷◌, Text, codes, text_eq, Result, ok, payload, keep_if,
}
use vpn_subscription_managem.RateLimit.{text_lt}
use vpn_subscription_managem.RuleSpec.Strings.{is_empty, contains_char}
use vpn_subscription_managem.RuleSpec.Canonical.{
  Family, Matcher, family_text, matcher_text, bool_text, semantic_key,
}
use vpn_subscription_managem.RuleSpec.Capability.{
  capability_registry, find_in, find_capability, canonical_render_type, map_to, supports_and_map,
}
use vpn_subscription_managem.Pool.Pipeline.{
  SourceMode, mode_clash, typed_rule_text, ParsedRule, ParseResult, ParseError, profile_common,
  scope_text, is_material, scope_of, supports_target, meets_recognition_threshold, stat_key,
  count_in, stat_before, insert_stat, sorted_rule_counts, mem_text, leaves_out, verdict, settle,
  tally_all,
}
use vpn_subscription_managem.Pool.Finalize.{
  reject_count, has_private, profile_of, is_auto, check_result, finalize_parse_result,
}
use vpn_subscription_managem.Pool.Counts.{
  IsCounted, IsTypeCounted, IsEnough, finalize_parse_result-IsCounted,
}
use vpn_subscription_managem.Pool.Unique.{IsSelection, finalize_parse_result-IsSelection}

abbrev item : Family → Matcher → Text → ParsedRule
item f m v = record {
  rule = record { family = f; matcher = m; value = v; options = record { no_resolve = false } };
  origin = record { line = 1; raw = v; order = 1 };
}

abbrev items : List ParsedRule
items =
    item Family.domain Matcher.suffix (codes "a.org")
    ∷ item Family.user_agent Matcher.exact (codes "Safari")
    ∷ item Family.geo Matcher.exact (codes "cn")
    ∷ item Family.domain Matcher.suffix (codes "a.org")
    ∷ []

abbrev none_yet : ParseResult
none_yet = record {
  format = typed_rule_text;
  profile = profile_common;
  rules = [];
  items = [];
  diagnostics = [];
  input = 0;
  recognized = 0;
  accepted = 0;
  excluded = 0;
  rejected = 0;
  duplicates = 0;
  rule_counts = [];
  unclassified_rejected = 0;
}

unfoldable finalize_items : SourceMode → Result ParseError ParseResult
unfolding text_eq keep_if text_lt is_empty contains_char family_text matcher_text bool_text
    semantic_key capability_registry find_in find_capability canonical_render_type map_to
    supports_and_map scope_text is_material scope_of supports_target meets_recognition_threshold
    stat_key count_in stat_before insert_stat sorted_rule_counts mem_text leaves_out verdict settle
    tally_all reject_count has_private profile_of is_auto check_result finalize_parse_result
finalize_items mode = finalize_parse_result typed_rule_text items [] mode

abbrev result : ParseResult
result = payload none_yet (finalize_parse_result typed_rule_text items [] mode_clash)

finalize_clash :
    (finalize_items mode_clash ≡ ok result)
    × (result.accepted ≡ 1)
    × (result.excluded ≡ 1)
    × (result.rejected ≡ 1)
    × (result.duplicates ≡ 1)
unfolding finalize_items
finalize_clash = (refl, refl, refl, refl, refl)

finalize_parse_result-IsCounted_example :
    IsCounted result
    × IsTypeCounted (item Family.domain Matcher.suffix (codes "a.org")).rule items result
    × IsEnough result
unfolding finalize_items
finalize_parse_result-IsCounted_example =
    finalize_parse_result-IsCounted typed_rule_text items [] mode_clash result
      (item Family.domain Matcher.suffix (codes "a.org")).rule finalize_clash.0

finalize_parse_result-IsSelection_example : IsSelection mode_clash items result
unfolding finalize_items
finalize_parse_result-IsSelection_example =
    finalize_parse_result-IsSelection typed_rule_text items [] mode_clash result finalize_clash.0
