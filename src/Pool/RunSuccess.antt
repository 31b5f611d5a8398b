-- ===== src/Pool/RunSuccess.antt =====
-- A run that ends with success (pool/sync.go: runSyncTask, syncOne).
use mathlib.Core.Path.{subst}
use vpn_subscription_managem.Base.{
  ℕ, ◌≡◌, ◌≢◌, refl, ap, sym, ◌∙◌, Bool, true, false, ◌&&◌, List, [], ◌∷◌, ◌++◌, Text, Option, none,
  some, ok, err, Bool-cases, inl, inr, &&-left, &&-right, &&-both, Result,
}
use vpn_subscription_managem.Pool.Pipeline.{ParseResult}
use vpn_subscription_managem.Pool.Task.{SyncStatus, succeeded, failed, partial}
use vpn_subscription_managem.Pool.Snapshot.{SnapshotDb, apply_parse_result}
use vpn_subscription_managem.Pool.Review.{ReviewError, record_failed_snapshot}
use vpn_subscription_managem.Pool.Run.{
  Visit, PerUrlResult, RunEnd, Commit, committed, not_run, not_committed, SourceFailure,
  SourceMessage, judge_fetch, noted, fail_source, applied, store_fetch, stored_unless, sync_one,
  all_ok, any_ok, has_results, run_status, finish_interrupted, run_sources,
}

-- A source that is downloaded, parsed and stored without a cause between.
pub record IsStored (v : Visit) (res : ParseResult) : Type 0 where
  pub was_parsed : judge_fetch v.fetch ≡ ok res
  pub was_committed : v.commit ≡ committed
  pub no_cause : v.fetched ≡ none

-- Every source in its order gives a result that is applied to what the ones before it left.
pub data AllApplied (pool : ℕ) : List Visit → SnapshotDb → SnapshotDb → Type 0 where
  all_done : {d : SnapshotDb} → AllApplied pool [] d d
  then_apply :
      {v : Visit} {vs : List Visit} {d last : SnapshotDb} (res : ParseResult)
      → IsStored v res
      → v.before ≡ none
      → v.after ≡ none
      → AllApplied pool vs (apply_parse_result pool v.source_id res d).1 last
      → AllApplied pool (v ∷ vs) d last

failed-ne : ◌≡◌ {A = SyncStatus} failed succeeded → ⊥
failed-ne h = cc

partial-ne : ◌≡◌ {A = SyncStatus} partial succeeded → ⊥
partial-ne h = cc

false-ne : ◌≡◌ {A = Bool} false true → ⊥
false-ne h = cc

all_ok-snoc :
    (rs : List PerUrlResult) (r : PerUrlResult)
    → all_ok (rs ++ r ∷ []) ≡ true
    → (all_ok rs ≡ true) × (r.is_ok ≡ true)
unfolding all_ok
all_ok-snoc [] r h = (refl, &&-left r.is_ok true h)
all_ok-snoc (x ∷ xs) r h =
    let (a, b) = all_ok-snoc xs r (&&-right x.is_ok (all_ok (xs ++ r ∷ [])) h) in
    (&&-both x.is_ok (all_ok xs) (&&-left x.is_ok (all_ok (xs ++ r ∷ [])) h) a, b)

run_status-succeeded :
    (rs : List PerUrlResult)
    → run_status rs ≡ succeeded
    → (all_ok rs ≡ true) × (has_results rs ≡ true)
unfolding run_status
run_status-succeeded rs h = elim (Bool-cases (all_ok rs && has_results rs)) [
  | inl e ↦ (&&-left (all_ok rs) (has_results rs) e, &&-right (all_ok rs) (has_results rs) e)
  | inr e ↦ elim (Bool-cases (any_ok rs)) [
    | inl a ↦ absurd (partial-ne (rw (e, a) at h))
    | inr a ↦ absurd (failed-ne (rw (e, a) at h))
  ]
]

finish_interrupted-succeeded :
    (c : Option Text) (rs : List PerUrlResult) (d : SnapshotDb) (rest : RunEnd)
    → (finish_interrupted c rs d rest).status ≡ succeeded
    → (c ≡ none) × (finish_interrupted c rs d rest ≡ rest)
unfolding finish_interrupted
finish_interrupted-succeeded none rs d rest h = (refl, refl)
finish_interrupted-succeeded (some cause) rs d rest h = absurd (failed-ne h)

module _ (pool : ℕ) (v : Visit) (d : SnapshotDb) where
  stored-at :
      (c : Commit) (res : ParseResult)
      → (applied v res c (apply_parse_result pool v.source_id res d) d).0.is_ok ≡ true
      → (c ≡ committed)
        × ((applied v res c (apply_parse_result pool v.source_id res d) d).1
            ≡ (apply_parse_result pool v.source_id res d).1)
  unfolding applied
  stored-at committed res h = (refl, refl)
  stored-at (not_run e) res h = absurd (false-ne h)
  stored-at (not_committed e) res h = absurd (false-ne h)

  noted-fails :
      (m : SourceMessage) (c : Commit) (r : Result ReviewError (Unit {0}) × SnapshotDb)
      → (noted v m c r d).0.is_ok ≡ false
  unfolding noted
  noted-fails m committed (ok u, next) = refl
  noted-fails m committed (err e, next) = refl
  noted-fails m (not_run e) r = refl
  noted-fails m (not_committed e) r = refl

  store_fetch-stored :
      (m : Result SourceFailure ParseResult)
      → (store_fetch pool v m d).0.is_ok ≡ true
      → (res : ParseResult) × (m ≡ ok res)
        × (v.commit ≡ committed)
        × ((store_fetch pool v m d).1 ≡ (apply_parse_result pool v.source_id res d).1)
  unfolding store_fetch fail_source
  store_fetch-stored (err f) h = absurd (
      false-ne
        (sym (noted-fails f.message v.commit (record_failed_snapshot v.source_id f.reason d)) ∙ h))
  store_fetch-stored (ok res) h =
      let (was_committed, next) = stored-at v.commit res h in (res, refl, was_committed, next)

  stored_unless-stored :
      (c : Option Text)
      → (stored_unless pool v c d).0.is_ok ≡ true
      → (c ≡ none) × (stored_unless pool v c d ≡ store_fetch pool v (judge_fetch v.fetch) d)
  unfolding stored_unless
  stored_unless-stored none h = (refl, refl)
  stored_unless-stored (some cause) h = absurd (false-ne h)

  sync_one-IsStored :
      (sync_one pool v d).0.is_ok ≡ true
      → (res : ParseResult) × (IsStored v res)
        × ((sync_one pool v d).1 ≡ (apply_parse_result pool v.source_id res d).1)
  unfolding sync_one
  sync_one-IsStored h =
      let (no_cause, e) = stored_unless-stored v.fetched h in
      let (res, was_parsed, was_committed, next) =
        store_fetch-stored (judge_fetch v.fetch) (rw e at h) in
      (
        res,
        record { was_parsed = was_parsed; was_committed = was_committed; no_cause = no_cause },
        ap (λ r. r.1) e ∙ next,
      )

not_interrupted :
    (pool : ℕ) (v : Visit) (vs : List Visit) (rs : List PerUrlResult) (d : SnapshotDb)
    → (run_sources pool (v ∷ vs) rs d).status ≡ succeeded
    → let (r, next) = sync_one pool v d in
      (v.before ≡ none)
      × (v.after ≡ none)
      × (run_sources pool (v ∷ vs) rs d ≡ run_sources pool vs (rs ++ r ∷ []) next)
unfolding run_sources
not_interrupted pool v vs rs d h =
    let (r, next) = sync_one pool v d in
    let rest = run_sources pool vs (rs ++ r ∷ []) next in
    let behind = finish_interrupted v.after (rs ++ r ∷ []) next rest in
    let (before, e) = finish_interrupted-succeeded v.before rs d behind h in
    let (after, f) =
      finish_interrupted-succeeded v.after (rs ++ r ∷ []) next rest
        (ap (λ x. x.status) (sym e) ∙ h) in
    (before, after, e ∙ f)

-- The results so far of a run that succeeds are all ok.
run_sources-all_ok :
    (pool : ℕ) (vs : List Visit) (rs : List PerUrlResult) (d : SnapshotDb)
    → (run_sources pool vs rs d).status ≡ succeeded
    → all_ok rs ≡ true
unfolding run_sources
run_sources-all_ok pool [] rs d h = (run_status-succeeded rs h).0
run_sources-all_ok pool (v ∷ vs) rs d h =
    let (r, next) = sync_one pool v d in
    let (before, after, e) = not_interrupted pool v vs rs d h in
    (all_ok-snoc rs r
      (run_sources-all_ok pool vs (rs ++ r ∷ []) next (ap (λ x. x.status) (sym e) ∙ h))).0

pub run_sources-AllApplied_lem :
    (pool : ℕ) (vs : List Visit) (rs : List PerUrlResult) (d : SnapshotDb)
    → (run_sources pool vs rs d).status ≡ succeeded
    → AllApplied pool vs d (run_sources pool vs rs d).db
unfolding run_sources
run_sources-AllApplied_lem pool [] rs d h = all_done
run_sources-AllApplied_lem pool (v ∷ vs) rs d h =
    let (r, next) = sync_one pool v d in
    let (before, after, e) = not_interrupted pool v vs rs d h in
    let rest_succeeded = ap (λ x. x.status) (sym e) ∙ h in
    let ok_so_far = run_sources-all_ok pool vs (rs ++ r ∷ []) next rest_succeeded in
    let (res, stored, f) = sync_one-IsStored pool v d (all_ok-snoc rs r ok_so_far).1 in
    let rest = run_sources-AllApplied_lem pool vs (rs ++ r ∷ []) next rest_succeeded in
    then_apply res stored before after (
      subst (λ x. AllApplied pool vs x (run_sources pool (v ∷ vs) rs d).db) f
        (subst (λ x. AllApplied pool vs next x.db) (sym e) rest))

pub run_sources-nonempty :
    (pool : ℕ) (vs : List Visit) (d : SnapshotDb)
    → (run_sources pool vs [] d).status ≡ succeeded
    → vs ≢ []
unfolding run_sources run_status all_ok any_ok has_results
run_sources-nonempty pool [] d h = absurd (failed-ne h)
run_sources-nonempty pool (v ∷ vs) d h = λ e. cc
