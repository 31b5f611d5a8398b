-- ===== src/Pool/Decision.antt =====
-- The decision on a result, and the review of one that waits (pool/sync.go: applyParseResultTx,
-- ActivatePending, DiscardPending).
use vpn_subscription_managem.Base.{
  ℕ, ◌≡◌, refl, ap, sym, ◌∙◌, Bool, true, false, not, ==_self, Option, none, some, some-injective,
  some-ne-none, if◌then◌else◌, keep_if, Bool-cases, inl, inr, ok,
}
use vpn_subscription_managem.Pool.Pipeline.{ParseResult}
use vpn_subscription_managem.Pool.Snapshot.{
  SnapshotRow, SourceRow, SnapshotDb, find_source, point_pending, point_active, old_active,
  is_pending, snapshot_of, apply_parse_result,
}
use vpn_subscription_managem.Pool.Review.{
  pending_of, guard_pending, guard_found, activate_snapshot, discard_snapshot, activate_pending,
  is_pending_status, is_discarded, delete_pending, cleanup_orphans, point_none, discard_pending,
}
use vpn_subscription_managem.Pool.Sources.{find_source-update_source, pending_of-find_source}
use vpn_subscription_managem.Pool.Guard.{
  IsSuspicious, is_pending-IsSuspicious, calm, apply_rows, IsNumbered, keep_if-fresh,
}

guard_pending_lem :
    (pool source snapshot : ℕ) (f : SnapshotDb → SnapshotDb) (d : SnapshotDb)
    → pending_of pool source d.sources ≡ some snapshot
    → guard_pending pool source snapshot f d ≡ (ok tt, f d)
unfolding guard_pending guard_found
guard_pending_lem pool source snapshot f d e = rw (e, ==_self snapshot) refl

module _ (now pool source : ℕ) (parsed : ParseResult) (d : SnapshotDb) where
  abbrev pub after : SnapshotDb
  after = (apply_parse_result pool source parsed d).1

  -- The review of a result that waits: with its number it can be activated, or discarded, which
  -- leaves the snapshots as they were.
  pub record IsReviewable (s : SourceRow) : Type 0 where
    pub activated : (activate_pending now pool source d.next_snapshot after).0 ≡ ok tt
    pub activated_source :
        find_source source (activate_pending now pool source d.next_snapshot after).1.sources
        ≡ some (point_active d.next_snapshot s)
    pub discarded : (discard_pending pool source d.next_snapshot after).0 ≡ ok tt
    pub discarded_source :
        find_source source (discard_pending pool source d.next_snapshot after).1.sources
        ≡ some (point_none s)
    pub discarded_snapshots :
        (discard_pending pool source d.next_snapshot after).1.snapshots ≡ d.snapshots

  -- A result becomes active at once, or it is suspicious and waits while the active snapshot stays.
  pub data IsDecided (s : SourceRow) : Type 0 where
    at_once :
        (apply_parse_result pool source parsed d).0 ≡ (d.next_snapshot, false)
        → ((old : SnapshotRow) → old_active source d ≡ some old → ¬ IsSuspicious old parsed)
        → find_source source after.sources ≡ some (point_active d.next_snapshot s)
        → IsDecided s
    held :
        (old : SnapshotRow)
        → (apply_parse_result pool source parsed d).0 ≡ (d.next_snapshot, true)
        → old_active source d ≡ some old
        → IsSuspicious old parsed
        → find_source source after.sources ≡ some (point_pending d.next_snapshot s)
        → IsReviewable s
        → IsDecided s

  apply_verdict :
      (b : Bool)
      → is_pending (old_active source d) parsed ≡ b
      → (apply_parse_result pool source parsed d).0 ≡ (d.next_snapshot, b)
  unfolding apply_parse_result
  apply_verdict b e = rw e refl

  apply_find :
      (s : SourceRow) (b : Bool)
      → is_pending (old_active source d) parsed ≡ b
      → find_source source d.sources ≡ some s
      → find_source source after.sources
        ≡ some (if b then point_pending d.next_snapshot s else point_active d.next_snapshot s)
  apply_find s true e h =
      rw ((apply_rows pool source parsed d).0, e)
        (find_source-update_source source (point_pending d.next_snapshot) d.sources s (λ t. refl) h)
  apply_find s false e h =
      rw ((apply_rows pool source parsed d).0, e)
        (find_source-update_source source (point_active d.next_snapshot) d.sources s (λ t. refl) h)

  pending_row :
      (s : SourceRow)
      → IsNumbered d
      → is_pending (old_active source d) parsed ≡ true
      → keep_if (λ r. not (is_discarded d.next_snapshot r)) after.snapshots ≡ d.snapshots
  unfolding is_pending_status
  pending_row s n e =
      let row : is_discarded d.next_snapshot (snapshot_of source parsed d) ≡ true =
        rw (e, ==_self d.next_snapshot) refl in
      rw (apply_rows pool source parsed d).1
        (keep_if-fresh d.next_snapshot d.snapshots (snapshot_of source parsed d) n row)

  reviewable :
      (s : SourceRow)
      → s.pool_id ≡ pool
      → IsNumbered d
      → is_pending (old_active source d) parsed ≡ true
      → find_source source d.sources ≡ some s
      → IsReviewable s
  unfolding activate_pending discard_pending activate_snapshot discard_snapshot cleanup_orphans
      delete_pending
  reviewable s p n e h =
      let id = d.next_snapshot in
      let found = apply_find s true e h in
      let waiting = pending_of-find_source pool source after.sources (point_pending id s) p found in
      let a = guard_pending_lem pool source id (activate_snapshot now source id) after waiting in
      let b = guard_pending_lem pool source id (discard_snapshot pool source id) after waiting in
      record {
        activated = ap (λ r. r.0) a;
        activated_source =
            ap (λ r. find_source source r.1.sources) a
            ∙ find_source-update_source source (point_active id) after.sources (point_pending id s)
                (λ t. refl) found;
        discarded = ap (λ r. r.0) b;
        discarded_source =
            ap (λ r. find_source source r.1.sources) b
            ∙ find_source-update_source source point_none after.sources (point_pending id s)
                (λ t. refl) found;
        discarded_snapshots = ap (λ r. r.1.snapshots) b ∙ pending_row s n e;
      }

  decided :
      (s : SourceRow)
      → s.pool_id ≡ pool
      → IsNumbered d
      → find_source source d.sources ≡ some s
      → (m : Option SnapshotRow) → old_active source d ≡ m
      → IsDecided s
  unfolding is_pending
  decided s p n h none e =
      let calm_result = ap (λ m. is_pending m parsed) e in
      at_once (apply_verdict false calm_result) (λ old x. absurd (some-ne-none (sym x ∙ e)))
        (apply_find s false calm_result h)
  decided s p n h (some old) e = elim (Bool-cases (is_pending (some old) parsed)) [
    | inl q ↦
        let now_pending = ap (λ m. is_pending m parsed) e ∙ q in
        held old (apply_verdict true now_pending) e (is_pending-IsSuspicious old parsed q)
          (apply_find s true now_pending h) (reviewable s p n now_pending h)
    | inr q ↦
        let now_calm = ap (λ m. is_pending m parsed) e ∙ q in
        at_once (apply_verdict false now_calm)
          (λ x y. rw (some-injective (sym y ∙ e)) (calm old parsed q))
          (apply_find s false now_calm h)
  ]

  -- A result of a known source becomes active at once exactly if it is not suspicious beside the
  -- active snapshot, or there is none; else the active snapshot stays while the result waits, and with
  -- its number it can be activated, or discarded, which leaves the snapshots as they were.
  pub apply_parse_result-IsDecided :
      (s : SourceRow)
      → s.pool_id ≡ pool
      → IsNumbered d
      → find_source source d.sources ≡ some s
      → IsDecided s
  apply_parse_result-IsDecided s p n h = decided s p n h (old_active source d) refl
