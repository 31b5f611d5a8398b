-- ===== src/Pool/Stats.antt =====
-- Totals over the counters by type (pool/pipeline.go: ensureRuleCountStat, sortedRuleCounts).
use vpn_subscription_managem.Base.{ℕ, ◌+◌, ◌≡◌, refl, List, [], ◌∷◌, Text, arith}
use vpn_subscription_managem.RuleSpec.Canonical.{CanonicalRule}
use vpn_subscription_managem.Pool.Pipeline.{
  RuleCountStat, fresh_stat, count_in, insert_stat, sorted_rule_counts,
}

abbrev pub accepted_of : RuleCountStat → ℕ
accepted_of s = s.accepted

abbrev pub excluded_of : RuleCountStat → ℕ
excluded_of s = s.excluded

abbrev pub rejected_of : RuleCountStat → ℕ
rejected_of s = s.rejected

abbrev pub duplicates_of : RuleCountStat → ℕ
duplicates_of s = s.duplicates

-- One counter over all types.
unfoldable pub total : (RuleCountStat → ℕ) → List RuleCountStat → ℕ
total g [] = 0
total g (s ∷ ss) = g s + total g ss

unfoldable pub total_in : (RuleCountStat → ℕ) → List (Text × RuleCountStat) → ℕ
total_in g [] = 0
total_in g ((k, s) ∷ rest) = g s + total_in g rest

total-insert_stat :
    (g : RuleCountStat → ℕ) (s : RuleCountStat) (ss : List RuleCountStat)
    → total g (insert_stat s ss) ≡ g s + total g ss
unfolding total insert_stat
total-insert_stat g s [] = refl
total-insert_stat g s (t ∷ ts) = ground (arith, total-insert_stat g s ts)

pub total-sorted :
    (g : RuleCountStat → ℕ) (rest : List (Text × RuleCountStat))
    → total g (sorted_rule_counts rest) ≡ total_in g rest
unfolding total total_in sorted_rule_counts
total-sorted g [] = refl
total-sorted g ((k, s) ∷ rest) =
    ground (arith, total-sorted g rest, total-insert_stat g s (sorted_rule_counts rest))

-- A change that adds d to the counter of every entry.
pub total_in-count_in :
    (g : RuleCountStat → ℕ) (d : ℕ) (r : CanonicalRule) (f : RuleCountStat → RuleCountStat)
    (rest : List (Text × RuleCountStat))
    → ((s : RuleCountStat) → g (f s) ≡ d + g s)
    → g (fresh_stat r) ≡ 0
    → total_in g (count_in r f rest) ≡ d + total_in g rest
unfolding total_in count_in
total_in-count_in g d r f [] h z = omega (arith, h (fresh_stat r), z)
total_in-count_in g d r f ((k, s) ∷ rest) h z =
    ground (arith, total_in-count_in g d r f rest h z, h s)
