-- ===== src/Pool/SnapshotTests.antt =====
-- A source whose twenty rules shrink to ten.
use vpn_subscription_managem.Base.{
  ◌≡◌, refl, true, [], ◌∷◌, codes, none, some, all_pass, ltb, text_eq,
}
use vpn_subscription_managem.Pool.Pipeline.{mode_auto, typed_rule_text, ParseResult, profile_common}
use vpn_subscription_managem.Pool.Snapshot.{
  SnapshotRow, SourceRow, SnapshotDb, snapshot_active, first_success, find_source, find_snapshot,
  old_active, is_pending, format_differs, profile_differs, drop_triggered, format_text,
  profile_text, apply_parse_result, add_items, update_source, point_pending,
}
use vpn_subscription_managem.Pool.Decision.{IsDecided, apply_parse_result-IsDecided}

abbrev first_snapshot : SnapshotRow
first_snapshot = record {
  id = 1;
  source_id = 7;
  format = codes "typed-rule-text";
  profile = codes "common";
  status = snapshot_active;
  input = 20;
  recognized = 20;
  accepted = 20;
  excluded = 0;
  rejected = 0;
  duplicates = 0;
  reasons = first_success ∷ [];
  activated_at = none;
}

abbrev source : SourceRow
source = record { id = 7; pool_id = 3; source_mode = mode_auto; active = some 1; pending = none }

abbrev db : SnapshotDb
db = record {
  sources = source ∷ [];
  snapshots = first_snapshot ∷ [];
  canonicals = [];
  origins = [];
  next_snapshot = 2;
  next_canonical = 1;
}

abbrev shrunk : ParseResult
shrunk = record {
  format = typed_rule_text;
  profile = profile_common;
  rules = [];
  items = [];
  diagnostics = [];
  input = 10;
  recognized = 10;
  accepted = 10;
  excluded = 0;
  rejected = 0;
  duplicates = 0;
  rule_counts = [];
  unclassified_rejected = 0;
}

waits :
    ((apply_parse_result 3 7 shrunk db).0 ≡ (2, true))
    × (find_source 7 (apply_parse_result 3 7 shrunk db).1.sources ≡ some (point_pending 2 source))
unfolding apply_parse_result add_items update_source find_source find_snapshot old_active is_pending
    format_differs profile_differs drop_triggered format_text profile_text text_eq
waits = (refl, refl)

numbered : all_pass (λ r. ltb r.id 2) db.snapshots ≡ true
unfolding all_pass
numbered = refl

known : find_source 7 db.sources ≡ some source
unfolding find_source
known = refl

apply_parse_result-IsDecided_example : IsDecided 100 3 7 shrunk db source
apply_parse_result-IsDecided_example =
    apply_parse_result-IsDecided 100 3 7 shrunk db source refl numbered known
