-- ===== src/Pool/Review.antt =====
-- What becomes of a pending snapshot, and failed ones (pool/sync.go: recordFailedSnapshotTx,
-- ActivatePending, DiscardPending).
use vpn_subscription_managem.Base.{
  ℕ, Bool, true, false, not, ◌&&◌, ◌||◌, List, [], ◌∷◌, Text, ◌==◌, Option, none, some,
  if◌then◌else◌, map, keep_if, ok, err,
}
use vpn_subscription_managem.Base.Procs.{Proc}
use vpn_subscription_managem.Pool.Snapshot.{
  SnapshotStatus, snapshot_active, snapshot_pending, snapshot_failed, failure, SnapshotRow,
  SourceRow, OriginRow, SnapshotDb, find_source, update_source, point_active, insert_snapshot,
}

pub data ReviewError : Type 0 where
  review_not_found review_expired source_missing : ReviewError

abbrev failed_snapshot : ℕ → Text → SnapshotDb → SnapshotRow
failed_snapshot source reason d = record {
  id = d.next_snapshot;
  source_id = source;
  format = [];
  profile = [];
  status = snapshot_failed;
  input = 0;
  recognized = 0;
  accepted = 0;
  excluded = 0;
  rejected = 0;
  duplicates = 0;
  reasons = failure reason ∷ [];
  activated_at = none;
}

-- `recordFailedSnapshotTxWithReasonAndMarshal`
unfoldable pub record_failed_snapshot : ℕ → Text → Proc SnapshotDb ReviewError (Unit {0})
record_failed_snapshot source reason d = elim (find_source source d.sources) [
  | none ↦ (err source_missing, d)
  | some s ↦ (ok tt, insert_snapshot (failed_snapshot source reason d) d)
]

-- SELECT pending_snapshot_id ... WHERE id = ? AND pool_id = ?: NULL is not found either
unfoldable pub pending_of : ℕ → ℕ → List SourceRow → Option ℕ
pending_of pool source [] = none
pending_of pool source (s ∷ ss) =
    if s.id == source && s.pool_id == pool then s.pending else pending_of pool source ss

-- The guards that both operations begin with.
unfoldable pub guard_found :
    Option ℕ → ℕ → (SnapshotDb → SnapshotDb) → Proc SnapshotDb ReviewError (Unit {0})
guard_found none snapshot f d = (err review_not_found, d)
guard_found (some current) snapshot f d =
    if current == snapshot then (ok tt, f d) else (err review_expired, d)

unfoldable pub guard_pending :
    ℕ → ℕ → ℕ → (SnapshotDb → SnapshotDb) → Proc SnapshotDb ReviewError (Unit {0})
guard_pending pool source snapshot f d = guard_found (pending_of pool source d.sources) snapshot f d

abbrev activate_row : ℕ → SnapshotRow → SnapshotRow
activate_row now s = record s { status = snapshot_active; activated_at = some now }

-- The updates of `ActivatePending`.
unfoldable pub activate_snapshot : ℕ → ℕ → ℕ → SnapshotDb → SnapshotDb
activate_snapshot now source snapshot d = record d {
  sources = update_source source (point_active snapshot) d.sources;
  snapshots = map (λ s. if s.id == snapshot then activate_row now s else s) d.snapshots;
}

-- `ActivatePending`
unfoldable pub activate_pending : ℕ → ℕ → ℕ → ℕ → Proc SnapshotDb ReviewError (Unit {0})
activate_pending now pool source snapshot =
    guard_pending pool source snapshot (activate_snapshot now source snapshot)

unfoldable pub is_pending_status : SnapshotStatus → Bool
is_pending_status snapshot_pending = true
is_pending_status _ = false

abbrev pub is_discarded : ℕ → SnapshotRow → Bool
is_discarded snapshot s = s.id == snapshot && is_pending_status s.status

unfoldable pub any_discarded : ℕ → List SnapshotRow → Bool
any_discarded snapshot [] = false
any_discarded snapshot (s ∷ ss) = is_discarded snapshot s || any_discarded snapshot ss

abbrev of_snapshot : ℕ → OriginRow → Bool
of_snapshot snapshot o = elim o.snapshot_id [ none ↦ false | some id ↦ id == snapshot ]

-- DELETE FROM pool_source_snapshots WHERE id = ? AND status = 'pending', with the cascade on the
-- origins
unfoldable pub delete_pending : ℕ → SnapshotDb → SnapshotDb
delete_pending snapshot d = record d {
  snapshots = keep_if (λ s. not (is_discarded snapshot s)) d.snapshots;
  origins =
      if any_discarded snapshot d.snapshots
      then keep_if (λ o. not (of_snapshot snapshot o)) d.origins
      else d.origins;
}

unfoldable pub has_origin : ℕ → ℕ → List OriginRow → Bool
has_origin pool canonical [] = false
has_origin pool canonical (o ∷ os) =
    o.pool_id == pool && o.canonical_id == canonical || has_origin pool canonical os

-- `cleanupOrphanCanonicalTx`
unfoldable pub cleanup_orphans : ℕ → SnapshotDb → SnapshotDb
cleanup_orphans pool d = record d {
  canonicals =
      keep_if (λ c. not (c.pool_id == pool && not (has_origin pool c.id d.origins))) d.canonicals;
}

abbrev pub point_none : SourceRow → SourceRow
point_none s = record s { pending = none }

-- The updates of `DiscardPending`.
unfoldable pub discard_snapshot : ℕ → ℕ → ℕ → SnapshotDb → SnapshotDb
discard_snapshot pool source snapshot d =
    cleanup_orphans pool
      (delete_pending snapshot (record d { sources = update_source source point_none d.sources }))

-- `DiscardPending`
unfoldable pub discard_pending : ℕ → ℕ → ℕ → Proc SnapshotDb ReviewError (Unit {0})
discard_pending pool source snapshot =
    guard_pending pool source snapshot (discard_snapshot pool source snapshot)
