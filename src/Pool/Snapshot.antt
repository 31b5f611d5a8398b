-- ===== src/Pool/Snapshot.antt =====
-- The snapshots of a source (pool/sync.go: applyParseResultTx, recordFailedSnapshotTx,
-- ActivatePending, DiscardPending; pool/pool.go: ensureCanonicalTx, cleanupOrphanCanonicalTx). A
-- failing statement rolls its transaction back and is left out.
use vpn_subscription_managem.Base.{
  ℕ, suc, ◌*◌, Bool, true, false, not, ◌&&◌, ◌||◌, List, [], ◌∷◌, ◌++◌, Text, codes, text_eq, ◌==◌,
  ltb, leb, Option, none, some, if◌then◌else◌, map,
}
use vpn_subscription_managem.RuleSpec.Canonical.{CanonicalRule, semantic_key}
use vpn_subscription_managem.Pool.Pipeline.{
  SourceMode, DetectedFormat, legacy_domain_text, plain_domain_text, mihomo_domain_yaml,
  mihomo_ipcidr_yaml, mihomo_classical_yaml, typed_rule_text, plain_ipcidr_text,
  sing_box_source_json, ParsedRule, Profile, profile_common, profile_clash, profile_shadowrocket,
  ParseResult,
}

unfoldable pub format_text : DetectedFormat → Text
format_text legacy_domain_text = codes "legacy-domain-text"
format_text plain_domain_text = codes "plain-domain-text"
format_text mihomo_domain_yaml = codes "mihomo-domain-yaml"
format_text mihomo_ipcidr_yaml = codes "mihomo-ipcidr-yaml"
format_text mihomo_classical_yaml = codes "mihomo-classical-yaml"
format_text typed_rule_text = codes "typed-rule-text"
format_text plain_ipcidr_text = codes "plain-ipcidr-text"
format_text sing_box_source_json = codes "sing-box-source-json"

unfoldable pub profile_text : Profile → Text
profile_text profile_common = codes "common"
profile_text profile_clash = codes "clash"
profile_text profile_shadowrocket = codes "shadowrocket"

pub data SnapshotStatus : Type 0 where
  snapshot_active snapshot_pending snapshot_failed : SnapshotStatus

-- `ReasonCodes`; a failure has a code of its own.
pub data ReasonCode : Type 0 where
  first_success normal format_changed profile_changed accepted_below_threshold : ReasonCode
  failure : Text → ReasonCode

pub record SnapshotRow : Type 0 where
  pub id : ℕ
  pub source_id : ℕ
  pub format : Text
  pub profile : Text
  pub status : SnapshotStatus
  pub input : ℕ
  pub recognized : ℕ
  pub accepted : ℕ
  pub excluded : ℕ
  pub rejected : ℕ
  pub duplicates : ℕ
  pub reasons : List ReasonCode
  pub activated_at : Option ℕ

pub record SourceRow : Type 0 where
  pub id : ℕ
  pub pool_id : ℕ
  pub source_mode : SourceMode
  pub active : Option ℕ
  pub pending : Option ℕ

pub record CanonicalRow : Type 0 where
  pub id : ℕ
  pub pool_id : ℕ
  pub rule : CanonicalRule

pub record OriginRow : Type 0 where
  pub pool_id : ℕ
  pub canonical_id : ℕ
  pub source_id : ℕ
  pub snapshot_id : Option ℕ
  pub sort_order : ℕ
  pub raw_line : Text
  pub line_no : ℕ

pub record SnapshotDb : Type 0 where
  pub sources : List SourceRow
  pub snapshots : List SnapshotRow
  pub canonicals : List CanonicalRow
  pub origins : List OriginRow
  pub next_snapshot : ℕ
  pub next_canonical : ℕ

unfoldable pub find_source : ℕ → List SourceRow → Option SourceRow
find_source id [] = none
find_source id (s ∷ ss) = if s.id == id then some s else find_source id ss

unfoldable pub find_snapshot : ℕ → List SnapshotRow → Option SnapshotRow
find_snapshot id [] = none
find_snapshot id (s ∷ ss) = if s.id == id then some s else find_snapshot id ss

-- The LEFT JOIN on `active_snapshot_id`; a missing source has no active snapshot.
unfoldable pub old_active : ℕ → SnapshotDb → Option SnapshotRow
old_active source d = elim (find_source source d.sources) [
  | none ↦ none
  | some s ↦ elim s.active [ none ↦ none | some id ↦ find_snapshot id d.snapshots ]
]

unfoldable pub format_differs : SnapshotRow → ParseResult → Bool
format_differs old parsed = not (text_eq old.format (format_text parsed.format))

unfoldable pub profile_differs : SnapshotRow → ParseResult → Bool
profile_differs old parsed = not (text_eq old.profile (profile_text parsed.profile))

unfoldable pub drop_triggered : SnapshotRow → ParseResult → Bool
drop_triggered old parsed = leb 20 old.accepted && ltb (parsed.accepted * 10) (old.accepted * 7)

unfoldable pub is_pending : Option SnapshotRow → ParseResult → Bool
is_pending none parsed = false
is_pending (some old) parsed =
    format_differs old parsed || profile_differs old parsed || drop_triggered old parsed

abbrev reason_if : Bool → ReasonCode → List ReasonCode
reason_if true r = r ∷ []
reason_if false r = []

unfoldable pub reasons_of : Option SnapshotRow → ParseResult → List ReasonCode
reasons_of none parsed = first_success ∷ []
reasons_of (some old) parsed =
    reason_if (not (is_pending (some old) parsed)) normal
    ++ (reason_if (format_differs old parsed) format_changed
        ++ (reason_if (profile_differs old parsed) profile_changed
            ++ reason_if (drop_triggered old parsed) accepted_below_threshold))

unfoldable pub find_canonical : ℕ → CanonicalRule → List CanonicalRow → Option ℕ
find_canonical pool r [] = none
find_canonical pool r (c ∷ cs) =
    if c.pool_id == pool && text_eq (semantic_key c.rule) (semantic_key r)
    then some c.id
    else find_canonical pool r cs

-- `ensureCanonicalTx`
unfoldable pub ensure_canonical : ℕ → CanonicalRule → SnapshotDb → ℕ × SnapshotDb
ensure_canonical pool r d = elim (find_canonical pool r d.canonicals) [
  | some id ↦ (id, d)
  | none ↦ (
    d.next_canonical,
    record d {
      canonicals = d.canonicals ++ record { id = d.next_canonical; pool_id = pool; rule = r } ∷ [];
      next_canonical = suc d.next_canonical;
    },
  )
]

abbrev pub add_origin : ℕ → ℕ → ℕ → ParsedRule → ℕ × SnapshotDb → SnapshotDb
add_origin pool source snapshot item (canonical, d) = record d {
  origins =
      d.origins
      ++ record {
        pool_id = pool;
        canonical_id = canonical;
        source_id = source;
        snapshot_id = some snapshot;
        sort_order = item.origin.order;
        raw_line = item.origin.raw;
        line_no = item.origin.line;
      }
        ∷ [];
}

-- The loop over `parsed.Items`
unfoldable pub add_items : ℕ → ℕ → ℕ → List ParsedRule → SnapshotDb → SnapshotDb
add_items pool source snapshot [] d = d
add_items pool source snapshot (i ∷ is) d =
    add_items pool source snapshot is
      (add_origin pool source snapshot i (ensure_canonical pool i.rule d))

-- UPDATE rule_pool_sources ... WHERE id = ?
unfoldable pub update_source : ℕ → (SourceRow → SourceRow) → List SourceRow → List SourceRow
update_source source f ss = map (λ s. if s.id == source then f s else s) ss

abbrev pub point_pending : ℕ → SourceRow → SourceRow
point_pending snapshot s = record s { pending = some snapshot }

abbrev pub point_active : ℕ → SourceRow → SourceRow
point_active snapshot s = record s { active = some snapshot; pending = none }

abbrev pub snapshot_of : ℕ → ParseResult → SnapshotDb → SnapshotRow
snapshot_of source parsed d = record {
  id = d.next_snapshot;
  source_id = source;
  format = format_text parsed.format;
  profile = profile_text parsed.profile;
  status = if is_pending (old_active source d) parsed then snapshot_pending else snapshot_active;
  input = parsed.input;
  recognized = parsed.recognized;
  accepted = parsed.accepted;
  excluded = parsed.excluded;
  rejected = parsed.rejected;
  duplicates = parsed.duplicates;
  reasons = reasons_of (old_active source d) parsed;
  activated_at = none;
}

abbrev pub insert_snapshot : SnapshotRow → SnapshotDb → SnapshotDb
insert_snapshot row d = record d {
  snapshots = d.snapshots ++ row ∷ [];
  next_snapshot = suc d.next_snapshot;
}

-- `applyParseResultTx`: the number of the snapshot and whether it is pending
unfoldable pub apply_parse_result : ℕ → ℕ → ParseResult → SnapshotDb → (ℕ × Bool) × SnapshotDb
apply_parse_result pool source parsed d =
    let pending = is_pending (old_active source d) parsed in
    let id = d.next_snapshot in
    let filled =
      add_items pool source id parsed.items (insert_snapshot (snapshot_of source parsed d) d) in
    (
      (id, pending),
      record filled {
        sources =
            update_source source (if pending then point_pending id else point_active id)
              filled.sources;
      },
    )
