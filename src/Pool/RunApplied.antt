-- ===== src/Pool/RunApplied.antt =====
-- When a run ends with success (pool/sync.go: runSyncTask, syncOne).
use vpn_subscription_managem.Base.{
  ℕ, ◌≡◌, ◌≢◌, ◌↔◌, ◌⊎◌, refl, true, List, [], ◌∷◌, ◌++◌, none, inl, inr, &&-left, &&-right,
  &&-both,
}
use vpn_subscription_managem.Pool.Pipeline.{ParseResult}
use vpn_subscription_managem.Pool.Task.{succeeded}
use vpn_subscription_managem.Pool.Snapshot.{SnapshotDb, apply_parse_result}
use vpn_subscription_managem.Pool.Run.{
  Visit, PerUrlResult, applied, parsed_url, store_fetch, stored_unless, sync_one, all_ok,
  has_results, run_status, finish_interrupted, run_sources,
}
use vpn_subscription_managem.Pool.RunSuccess.{
  IsStored, AllApplied, all_done, then_apply, run_sources-AllApplied_lem, run_sources-nonempty,
}

sync_one_stored :
    (pool : ℕ) (v : Visit) (d : SnapshotDb) (res : ParseResult)
    → IsStored v res
    → let (stored, next) = apply_parse_result pool v.source_id res d in
      sync_one pool v d ≡ (parsed_url v res true stored.1 none, next)
unfolding sync_one stored_unless store_fetch applied
sync_one_stored pool v d res s = rw (s.no_cause, s.was_parsed, s.was_committed) refl

all_ok-append :
    (rs : List PerUrlResult) (r : PerUrlResult)
    → all_ok rs ≡ true
    → r.is_ok ≡ true
    → all_ok (rs ++ r ∷ []) ≡ true
unfolding all_ok
all_ok-append [] r h e = rw e refl
all_ok-append (x ∷ xs) r h e =
    let rest = all_ok-append xs r (&&-right x.is_ok (all_ok xs) h) e in
    &&-both x.is_ok (all_ok (xs ++ r ∷ [])) (&&-left x.is_ok (all_ok xs) h) rest

has_results-append : (rs : List PerUrlResult) (r : PerUrlResult) → has_results (rs ++ r ∷ []) ≡ true
unfolding has_results
has_results-append [] r = refl
has_results-append (x ∷ xs) r = refl

run_status_lem :
    (rs : List PerUrlResult) → all_ok rs ≡ true → has_results rs ≡ true → run_status rs ≡ succeeded
unfolding run_status
run_status_lem rs h e = rw (h, e) refl

-- A run with the results so far, where every source left is applied, succeeds.
AllApplied-succeeded :
    (pool : ℕ) (vs : List Visit) (d last : SnapshotDb) (rs : List PerUrlResult)
    → AllApplied pool vs d last
    → all_ok rs ≡ true
    → (has_results rs ≡ true) ⊎ (vs ≢ [])
    → (run_sources pool vs rs d).status ≡ succeeded
unfolding run_sources finish_interrupted
AllApplied-succeeded pool [] d last rs all_done h (inl e) = run_status_lem rs h e
AllApplied-succeeded pool [] d last rs all_done h (inr e) = absurd (e refl)
AllApplied-succeeded pool (v ∷ vs) d last rs (then_apply res s before after rest) h e =
    let (stored, next) = apply_parse_result pool v.source_id res d in
    let r = parsed_url v res true stored.1 none in
    rw (sync_one_stored pool v d res s, before, after)
      (AllApplied-succeeded pool vs next last (rs ++ r ∷ []) rest (all_ok-append rs r h refl)
        (inl (has_results-append rs r)))

-- A run ends with success exactly if it had a source, met no interruption, and applied the results
-- of all its sources, each downloaded, parsed and committed, in their order.
pub run_sources-AllApplied :
    (pool : ℕ) (vs : List Visit) (d : SnapshotDb)
    → ((run_sources pool vs [] d).status ≡ succeeded)
      ↔ (AllApplied pool vs d (run_sources pool vs [] d).db × (vs ≢ []))
unfolding all_ok
run_sources-AllApplied pool vs d = (
  λ h. (run_sources-AllApplied_lem pool vs [] d h, run_sources-nonempty pool vs d h),
  λ a. AllApplied-succeeded pool vs d (run_sources pool vs [] d).db [] a.0 refl (inr a.1),
)
