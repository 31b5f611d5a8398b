-- ===== src/Pool/Tallied.antt =====
-- The counters of the loop over the items (pool/pipeline.go: finalizeParseResult).
use native.Mathlib.Nat.{add-zero, add-suc, suc-add}
use vpn_subscription_managem.Base.{
  ℕ, suc, ◌+◌, ◌≡◌, refl, sym, List, [], ◌∷◌, length, length-append, arith,
}
use vpn_subscription_managem.Pool.Pipeline.{
  SourceMode, ParseDiagnostic, ParsedRule, Tally, Verdict, reject, exclude, duplicate, accept,
  verdict, settle, tally_all, more_accepted, more_excluded, more_rejected, more_duplicates,
}
use vpn_subscription_managem.Pool.Stats.{
  accepted_of, excluded_of, rejected_of, duplicates_of, total_in, total_in-count_in,
}
use vpn_subscription_managem.Pool.Finalize.{reject_count, start_tally}

-- The tally after n items, of which the diagnostics rejected u more before.
pub record IsTallied (u n : ℕ) (t : Tally) : Type 0 where
  pub all : length t.accepted + t.excluded + t.rejected + t.duplicates ≡ n + u
  pub listed : length t.items ≡ length t.accepted + t.duplicates
  pub by_accepted : total_in accepted_of t.counts ≡ length t.accepted
  pub by_excluded : total_in excluded_of t.counts ≡ t.excluded
  pub by_rejected : total_in rejected_of t.counts + u ≡ t.rejected
  pub by_duplicates : total_in duplicates_of t.counts ≡ t.duplicates

settle-IsTallied :
    (u n : ℕ) (v : Verdict) (item : ParsedRule) (t : Tally)
    → IsTallied u n t
    → IsTallied u (suc n) (settle v item t)
unfolding settle
settle-IsTallied u n reject item t h = record {
  all = omega (arith, h.all);
  listed = h.listed;
  by_accepted = omega (
    arith,
    h.by_accepted,
    total_in-count_in accepted_of 0 item.rule more_rejected t.counts (λ s. omega arith) refl,
  );
  by_excluded = omega (
    arith,
    h.by_excluded,
    total_in-count_in excluded_of 0 item.rule more_rejected t.counts (λ s. omega arith) refl,
  );
  by_rejected = omega (
    arith,
    h.by_rejected,
    total_in-count_in rejected_of 1 item.rule more_rejected t.counts (λ s. omega arith) refl,
  );
  by_duplicates = omega (
    arith,
    h.by_duplicates,
    total_in-count_in duplicates_of 0 item.rule more_rejected t.counts (λ s. omega arith) refl,
  );
}
settle-IsTallied u n exclude item t h = record {
  all = omega (arith, h.all);
  listed = h.listed;
  by_accepted = omega (
    arith,
    h.by_accepted,
    total_in-count_in accepted_of 0 item.rule more_excluded t.counts (λ s. omega arith) refl,
  );
  by_excluded = omega (
    arith,
    h.by_excluded,
    total_in-count_in excluded_of 1 item.rule more_excluded t.counts (λ s. omega arith) refl,
  );
  by_rejected = omega (
    arith,
    h.by_rejected,
    total_in-count_in rejected_of 0 item.rule more_excluded t.counts (λ s. omega arith) refl,
  );
  by_duplicates = omega (
    arith,
    h.by_duplicates,
    total_in-count_in duplicates_of 0 item.rule more_excluded t.counts (λ s. omega arith) refl,
  );
}
settle-IsTallied u n duplicate item t h = record {
  all = omega (arith, h.all);
  listed = omega (arith, h.listed, length-append t.items (item ∷ []));
  by_accepted = omega (
    arith,
    h.by_accepted,
    total_in-count_in accepted_of 0 item.rule more_duplicates t.counts (λ s. omega arith) refl,
  );
  by_excluded = omega (
    arith,
    h.by_excluded,
    total_in-count_in excluded_of 0 item.rule more_duplicates t.counts (λ s. omega arith) refl,
  );
  by_rejected = omega (
    arith,
    h.by_rejected,
    total_in-count_in rejected_of 0 item.rule more_duplicates t.counts (λ s. omega arith) refl,
  );
  by_duplicates = omega (
    arith,
    h.by_duplicates,
    total_in-count_in duplicates_of 1 item.rule more_duplicates t.counts (λ s. omega arith) refl,
  );
}
settle-IsTallied u n accept item t h = record {
  all = omega (arith, h.all, length-append t.accepted (item.rule ∷ []));
  listed = omega (
    arith,
    h.listed,
    length-append t.accepted (item.rule ∷ []),
    length-append t.items (item ∷ []),
  );
  by_accepted = omega (
    arith,
    h.by_accepted,
    length-append t.accepted (item.rule ∷ []),
    total_in-count_in accepted_of 1 item.rule more_accepted t.counts (λ s. omega arith) refl,
  );
  by_excluded = omega (
    arith,
    h.by_excluded,
    total_in-count_in excluded_of 0 item.rule more_accepted t.counts (λ s. omega arith) refl,
  );
  by_rejected = omega (
    arith,
    h.by_rejected,
    total_in-count_in rejected_of 0 item.rule more_accepted t.counts (λ s. omega arith) refl,
  );
  by_duplicates = omega (
    arith,
    h.by_duplicates,
    total_in-count_in duplicates_of 0 item.rule more_accepted t.counts (λ s. omega arith) refl,
  );
}

pub tally_all-IsTallied :
    (u n : ℕ) (mode : SourceMode) (items : List ParsedRule) (t : Tally)
    → IsTallied u n t
    → IsTallied u (n + length items) (tally_all mode items t)
unfolding tally_all
tally_all-IsTallied u n mode [] t h = rw add-zero h
tally_all-IsTallied u n mode (item ∷ items) t h =
    let v = verdict mode t.seen item.rule in
    let step = settle-IsTallied u n v item t h in
    rw (add-suc, sym (suc-add n (length items)))
      (tally_all-IsTallied u (suc n) mode items (settle v item t) step)

pub start_tally-IsTallied :
    (diagnostics : List ParseDiagnostic)
    → IsTallied (reject_count diagnostics) 0 (start_tally diagnostics)
unfolding total_in
start_tally-IsTallied diagnostics = record {
  all = omega arith;
  listed = omega arith;
  by_accepted = refl;
  by_excluded = refl;
  by_rejected = omega arith;
  by_duplicates = refl;
}
