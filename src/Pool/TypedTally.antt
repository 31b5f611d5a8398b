-- ===== src/Pool/TypedTally.antt =====
-- The counters of the loop over the items, for the rules of one type (pool/pipeline.go:
-- finalizeParseResult).
use native.Mathlib.Nat.{add-zero}
use vpn_subscription_managem.Base.{ℕ, ◌+◌, ◌≡◌, refl, List, [], ◌∷◌, if◌then◌else◌, arith}
use vpn_subscription_managem.RuleSpec.Canonical.{CanonicalRule}
use vpn_subscription_managem.Pool.Pipeline.{
  SourceMode, ParseDiagnostic, ParsedRule, RuleCountStat, Tally, Verdict, reject, exclude,
  duplicate, accept, verdict, settle, tally_all, more_accepted, more_excluded, more_rejected,
  more_duplicates,
}
use vpn_subscription_managem.Pool.Stats.{total_in}
use vpn_subscription_managem.Pool.ByType.{
  same_type, in_type, rules_in, items_in, rules_in-append, items_in-append, Keyed, IsIncrement,
  count_in-Keyed, total_in-in_type,
}
use vpn_subscription_managem.Pool.Finalize.{start_tally}

abbrev pub taken_of : RuleCountStat → ℕ
taken_of s = s.accepted

abbrev pub listed_of : RuleCountStat → ℕ
listed_of s = s.accepted + s.duplicates

abbrev pub all_of : RuleCountStat → ℕ
all_of s = s.accepted + s.excluded + s.rejected + s.duplicates

more_accepted-IsIncrement : IsIncrement more_accepted
more_accepted-IsIncrement = record { family = λ s. refl; matcher = λ s. refl; scope = λ s. refl }

more_excluded-IsIncrement : IsIncrement more_excluded
more_excluded-IsIncrement = record { family = λ s. refl; matcher = λ s. refl; scope = λ s. refl }

more_rejected-IsIncrement : IsIncrement more_rejected
more_rejected-IsIncrement = record { family = λ s. refl; matcher = λ s. refl; scope = λ s. refl }

more_duplicates-IsIncrement : IsIncrement more_duplicates
more_duplicates-IsIncrement = record { family = λ s. refl; matcher = λ s. refl; scope = λ s. refl }

module _ (r : CanonicalRule) where
  -- The tally after items of which m are of the type.
  pub record IsTyped (m : ℕ) (t : Tally) : Type 0 where
    pub keyed : Keyed t.counts
    pub by_rules : total_in (in_type r taken_of) t.counts ≡ rules_in r t.accepted
    pub by_items : total_in (in_type r listed_of) t.counts ≡ items_in r t.items
    pub by_all : total_in (in_type r all_of) t.counts ≡ m

  settle-IsTyped :
      (m : ℕ) (v : Verdict) (i : ParsedRule) (t : Tally)
      → IsTyped m t
      → IsTyped (m + (if same_type r i.rule then 1 else 0)) (settle v i t)
  unfolding settle
  settle-IsTyped m reject i t h = record {
    keyed = count_in-Keyed i.rule more_rejected t.counts more_rejected-IsIncrement h.keyed;
    by_rules = ground (
      arith,
      h.by_rules,
      total_in-in_type r i.rule taken_of 0 more_rejected t.counts more_rejected-IsIncrement
          (λ s. omega arith) refl h.keyed,
    );
    by_items = ground (
      arith,
      h.by_items,
      total_in-in_type r i.rule listed_of 0 more_rejected t.counts more_rejected-IsIncrement
          (λ s. omega arith) refl h.keyed,
    );
    by_all = ground (
      arith,
      h.by_all,
      total_in-in_type r i.rule all_of 1 more_rejected t.counts more_rejected-IsIncrement
          (λ s. omega arith) refl h.keyed,
    );
  }
  settle-IsTyped m exclude i t h = record {
    keyed = count_in-Keyed i.rule more_excluded t.counts more_excluded-IsIncrement h.keyed;
    by_rules = ground (
      arith,
      h.by_rules,
      total_in-in_type r i.rule taken_of 0 more_excluded t.counts more_excluded-IsIncrement
          (λ s. omega arith) refl h.keyed,
    );
    by_items = ground (
      arith,
      h.by_items,
      total_in-in_type r i.rule listed_of 0 more_excluded t.counts more_excluded-IsIncrement
          (λ s. omega arith) refl h.keyed,
    );
    by_all = ground (
      arith,
      h.by_all,
      total_in-in_type r i.rule all_of 1 more_excluded t.counts more_excluded-IsIncrement
          (λ s. omega arith) refl h.keyed,
    );
  }
  settle-IsTyped m duplicate i t h = record {
    keyed = count_in-Keyed i.rule more_duplicates t.counts more_duplicates-IsIncrement h.keyed;
    by_rules = ground (
      arith,
      h.by_rules,
      total_in-in_type r i.rule taken_of 0 more_duplicates t.counts more_duplicates-IsIncrement
          (λ s. omega arith) refl h.keyed,
    );
    by_items = ground (
      arith,
      h.by_items,
      total_in-in_type r i.rule listed_of 1 more_duplicates t.counts more_duplicates-IsIncrement
          (λ s. omega arith) refl h.keyed,
      items_in-append r i t.items,
    );
    by_all = ground (
      arith,
      h.by_all,
      total_in-in_type r i.rule all_of 1 more_duplicates t.counts more_duplicates-IsIncrement
          (λ s. omega arith) refl h.keyed,
    );
  }
  settle-IsTyped m accept i t h = record {
    keyed = count_in-Keyed i.rule more_accepted t.counts more_accepted-IsIncrement h.keyed;
    by_rules = ground (
      arith,
      h.by_rules,
      total_in-in_type r i.rule taken_of 1 more_accepted t.counts more_accepted-IsIncrement
          (λ s. omega arith) refl h.keyed,
      rules_in-append r i.rule t.accepted,
    );
    by_items = ground (
      arith,
      h.by_items,
      total_in-in_type r i.rule listed_of 1 more_accepted t.counts more_accepted-IsIncrement
          (λ s. omega arith) refl h.keyed,
      items_in-append r i t.items,
    );
    by_all = ground (
      arith,
      h.by_all,
      total_in-in_type r i.rule all_of 1 more_accepted t.counts more_accepted-IsIncrement
          (λ s. omega arith) refl h.keyed,
    );
  }

  pub tally_all-IsTyped :
      (m : ℕ) (mode : SourceMode) (items : List ParsedRule) (t : Tally)
      → IsTyped m t
      → IsTyped (m + items_in r items) (tally_all mode items t)
  unfolding tally_all items_in
  tally_all-IsTyped m mode [] t h = rw add-zero h
  tally_all-IsTyped m mode (i ∷ items) t h =
      let v = verdict mode t.seen i.rule in
      let one = if same_type r i.rule then 1 else 0 in
      let sum : m + (one + items_in r items) ≡ m + one + items_in r items = omega arith in
      rw sum (tally_all-IsTyped (m + one) mode items (settle v i t) (settle-IsTyped m v i t h))

  pub start_tally-IsTyped :
      (diagnostics : List ParseDiagnostic) → IsTyped 0 (start_tally diagnostics)
  unfolding total_in rules_in items_in
  start_tally-IsTyped diagnostics = record {
    keyed = tt;
    by_rules = refl;
    by_items = refl;
    by_all = refl;
  }
