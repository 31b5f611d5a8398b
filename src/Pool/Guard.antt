-- ===== src/Pool/Guard.antt =====
-- The test for a suspicious result (pool/sync.go: applyParseResultTx, ActivatePending,
-- DiscardPending).
use vpn_subscription_managem.Base.{
  ℕ, ◌*◌, ◌≡◌, ◌≢◌, ◌<◌, ◌≤◌, refl, ap, true, false, not, List, [], ◌∷◌, ◌++◌, ltb, text_eq,
  text_eq_iff, all_pass, &&-left, &&-right, some, if◌then◌else◌, keep_if, arith, Bool-cases, inl,
  inr,
}
use vpn_subscription_managem.Pool.Pipeline.{ParseResult}
use vpn_subscription_managem.Pool.Snapshot.{
  SnapshotRow, SnapshotDb, format_text, profile_text, update_source, point_pending, point_active,
  old_active, is_pending, format_differs, profile_differs, drop_triggered, snapshot_of,
  insert_snapshot, apply_parse_result,
}
use vpn_subscription_managem.Pool.Review.{is_discarded}
use vpn_subscription_managem.Pool.Sources.{add_items-kept}

-- The result has another format or profile than the active snapshot, or less than seven tenths of
-- its rules where it has twenty.
pub data IsSuspicious (old : SnapshotRow) (parsed : ParseResult) : Type 0 where
  other_format : old.format ≢ format_text parsed.format → IsSuspicious old parsed
  other_profile : old.profile ≢ profile_text parsed.profile → IsSuspicious old parsed
  dropped : 20 ≤ old.accepted → parsed.accepted * 10 < old.accepted * 7 → IsSuspicious old parsed

pub is_pending-IsSuspicious :
    (old : SnapshotRow) (parsed : ParseResult)
    → is_pending (some old) parsed ≡ true
    → IsSuspicious old parsed
unfolding is_pending format_differs profile_differs drop_triggered
is_pending-IsSuspicious old parsed h =
    elim (Bool-cases (text_eq old.format (format_text parsed.format))) [
      | inr f ↦
          other_format
            (λ e. ground (arith, f, (text_eq_iff old.format (format_text parsed.format)).1 e))
      | inl f ↦ elim (Bool-cases (text_eq old.profile (profile_text parsed.profile))) [
        | inr p ↦
            other_profile
              (λ e. ground (arith, p, (text_eq_iff old.profile (profile_text parsed.profile)).1 e))
        | inl p ↦ dropped (ground (arith, h, f, p)) (ground (arith, h, f, p))
      ]
    ]

pub calm :
    (old : SnapshotRow) (parsed : ParseResult)
    → is_pending (some old) parsed ≡ false
    → ¬ IsSuspicious old parsed
unfolding is_pending format_differs profile_differs drop_triggered
calm old parsed h (other_format n) =
    n ((text_eq_iff old.format (format_text parsed.format)).0 (ground (arith, h)))
calm old parsed h (other_profile n) =
    n ((text_eq_iff old.profile (profile_text parsed.profile)).0 (ground (arith, h)))
calm old parsed h (dropped a b) = ground (arith, h, a, b)

-- What the apply leaves of the sources and the snapshots.
pub apply_rows :
    (pool source : ℕ) (parsed : ParseResult) (d : SnapshotDb)
    → ((apply_parse_result pool source parsed d).1.sources
        ≡ update_source source
            (if is_pending (old_active source d) parsed
              then point_pending d.next_snapshot
              else point_active d.next_snapshot)
            d.sources)
      × ((apply_parse_result pool source parsed d).1.snapshots
          ≡ d.snapshots ++ snapshot_of source parsed d ∷ [])
unfolding apply_parse_result
apply_rows pool source parsed d =
    let kept =
      add_items-kept pool source d.next_snapshot parsed.items
        (insert_snapshot (snapshot_of source parsed d) d) in
    (rw kept.0 refl, kept.1)

-- Every snapshot has a number below the next one.
abbrev pub IsNumbered : SnapshotDb → Type 0
IsNumbered d = all_pass (λ r. ltb r.id d.next_snapshot) d.snapshots ≡ true

pub keep_if-fresh :
    (n : ℕ) (rows : List SnapshotRow) (row : SnapshotRow)
    → all_pass (λ r. ltb r.id n) rows ≡ true
    → is_discarded n row ≡ true
    → keep_if (λ s. not (is_discarded n s)) (rows ++ row ∷ []) ≡ rows
unfolding keep_if all_pass
keep_if-fresh n [] row h e = rw e refl
keep_if-fresh n (r ∷ rows) row h e =
    let low = &&-left (ltb r.id n) (all_pass (λ x. ltb x.id n) rows) h in
    let rest =
      keep_if-fresh n rows row (&&-right (ltb r.id n) (all_pass (λ x. ltb x.id n) rows) h) e in
    let other : is_discarded n r ≡ false = ground (arith, low) in
    rw other (ap (λ (l : List SnapshotRow). r ∷ l) rest)
