-- ===== src/Pool/ByType.antt =====
-- The counters of a parsed source type by type (pool/pipeline.go: ensureRuleCountStat).
use vpn_subscription_managem.Base.{
  ℕ, ◌+◌, ◌≡◌, refl, sym, ◌∙◌, Bool, true, false, ◌&&◌, List, [], ◌∷◌, ◌++◌, Text, text_eq,
  text_eq_self, text_eq_sound, if◌then◌else◌, All, arith, Bool-cases, inl, inr,
}
use vpn_subscription_managem.RuleSpec.Canonical.{CanonicalRule, family_text, matcher_text}
use vpn_subscription_managem.RuleSpec.Key.{
  has_nul, first_part, family_text-no_nul, matcher_text-no_nul,
}
use vpn_subscription_managem.Pool.Pipeline.{
  ParsedRule, RuleCountStat, fresh_stat, count_in, stat_key, scope_of,
}
use vpn_subscription_managem.Pool.Stats.{total_in}

-- A type of rules, given by one of them: its family, its matcher and its scope.
unfoldable pub same_type : CanonicalRule → CanonicalRule → Bool
same_type r q =
    text_eq (family_text q.family) (family_text r.family)
    && (text_eq (matcher_text q.matcher) (matcher_text r.matcher)
        && text_eq (scope_of q) (scope_of r))

-- The counter is the one of the type.
unfoldable pub of_type : CanonicalRule → RuleCountStat → Bool
of_type r s =
    text_eq s.family (family_text r.family)
    && (text_eq s.matcher (matcher_text r.matcher) && text_eq s.scope (scope_of r))

-- A number of a counter of the type, and 0 for the others.
unfoldable pub in_type : CanonicalRule → (RuleCountStat → ℕ) → RuleCountStat → ℕ
in_type r g s = if of_type r s then g s else 0

-- The rules of the type.
unfoldable pub rules_in : CanonicalRule → List CanonicalRule → ℕ
rules_in r [] = 0
rules_in r (q ∷ qs) = (if same_type r q then 1 else 0) + rules_in r qs

unfoldable pub items_in : CanonicalRule → List ParsedRule → ℕ
items_in r [] = 0
items_in r (i ∷ is) = (if same_type r i.rule then 1 else 0) + items_in r is

pub rules_in-append :
    (r q : CanonicalRule) (qs : List CanonicalRule)
    → rules_in r (qs ++ q ∷ []) ≡ (if same_type r q then 1 else 0) + rules_in r qs
unfolding rules_in
rules_in-append r q [] = refl
rules_in-append r q (p ∷ qs) = omega (arith, rules_in-append r q qs)

pub items_in-append :
    (r : CanonicalRule) (i : ParsedRule) (is : List ParsedRule)
    → items_in r (is ++ i ∷ []) ≡ (if same_type r i.rule then 1 else 0) + items_in r is
unfolding items_in
items_in-append r i [] = refl
items_in-append r i (j ∷ is) = omega (arith, items_in-append r i is)

-- The key of a counter is made of its type.
pub record IsKeyed (e : Text × RuleCountStat) : Type 0 where
  pub key : e.0 ≡ e.1.family ++ 0 ∷ (e.1.matcher ++ 0 ∷ e.1.scope)
  pub family : has_nul e.1.family ≡ false
  pub matcher : has_nul e.1.matcher ≡ false

abbrev pub Keyed : List (Text × RuleCountStat) → Type 0
Keyed = All IsKeyed

-- A change of a counter that leaves its type.
pub record IsIncrement (f : RuleCountStat → RuleCountStat) : Type 0 where
  pub family : (s : RuleCountStat) → (f s).family ≡ s.family
  pub matcher : (s : RuleCountStat) → (f s).matcher ≡ s.matcher
  pub scope : (s : RuleCountStat) → (f s).scope ≡ s.scope

IsKeyed-increment :
    (f : RuleCountStat → RuleCountStat) (k : Text) (s : RuleCountStat)
    → IsIncrement f
    → IsKeyed (k, s)
    → IsKeyed (k, f s)
IsKeyed-increment f k s i h = record {
  key = rw (i.family s, i.matcher s, i.scope s) h.key;
  family = rw (i.family s) h.family;
  matcher = rw (i.matcher s) h.matcher;
}

fresh-IsKeyed : (q : CanonicalRule) → IsKeyed (stat_key q, fresh_stat q)
unfolding stat_key
fresh-IsKeyed q = record {
  key = refl;
  family = family_text-no_nul q.family;
  matcher = matcher_text-no_nul q.matcher;
}

pub count_in-Keyed :
    (q : CanonicalRule) (f : RuleCountStat → RuleCountStat) (rest : List (Text × RuleCountStat))
    → IsIncrement f
    → Keyed rest
    → Keyed (count_in q f rest)
unfolding count_in
count_in-Keyed q f [] i h =
    (IsKeyed-increment f (stat_key q) (fresh_stat q) i (fresh-IsKeyed q), tt)
count_in-Keyed q f ((k, s) ∷ rest) i (h, hs) = elim (Bool-cases (text_eq k (stat_key q))) [
  | inl e ↦ rw e (IsKeyed-increment f k s i h, hs)
  | inr e ↦ rw e (h, count_in-Keyed q f rest i hs)
]

of_type-increment :
    (r : CanonicalRule) (f : RuleCountStat → RuleCountStat) (s : RuleCountStat)
    → IsIncrement f
    → of_type r (f s) ≡ of_type r s
unfolding of_type
of_type-increment r f s i = rw (i.family s, i.matcher s, i.scope s) refl

-- The counter under the key of a rule is the one of its type.
of_type-key :
    (r q : CanonicalRule) (k : Text) (s : RuleCountStat)
    → IsKeyed (k, s)
    → text_eq k (stat_key q) ≡ true
    → of_type r s ≡ same_type r q
unfolding of_type same_type stat_key
of_type-key r q k s h e =
    let whole = sym h.key ∙ text_eq_sound k (stat_key q) e in
    let outer =
      first_part s.family (family_text q.family) _ _ h.family (family_text-no_nul q.family) whole in
    let inner =
      first_part s.matcher (matcher_text q.matcher) _ _ h.matcher (matcher_text-no_nul q.matcher)
        outer.1 in
    rw (outer.0, inner.0, inner.1) refl

pub total_in-in_type :
    (r q : CanonicalRule) (g : RuleCountStat → ℕ) (d : ℕ) (f : RuleCountStat → RuleCountStat)
    (rest : List (Text × RuleCountStat))
    → IsIncrement f
    → ((s : RuleCountStat) → g (f s) ≡ d + g s)
    → g (fresh_stat q) ≡ 0
    → Keyed rest
    → total_in (in_type r g) (count_in q f rest)
      ≡ (if same_type r q then d else 0) + total_in (in_type r g) rest
unfolding total_in count_in in_type
total_in-in_type r q g d f [] i h z k =
    let fresh =
      of_type-increment r f (fresh_stat q) i
      ∙ of_type-key r q (stat_key q) (fresh_stat q) (fresh-IsKeyed q) (text_eq_self (stat_key q)) in
    ground (arith, fresh, h (fresh_stat q), z)
total_in-in_type r q g d f ((k, s) ∷ rest) i h z (keyed, ks) =
    elim (Bool-cases (text_eq k (stat_key q))) [
      | inl e ↦
          let same = of_type-key r q k s keyed e in
          ground (arith, e, same, of_type-increment r f s i, h s)
      | inr e ↦ ground (arith, e, total_in-in_type r q g d f rest i h z ks)
    ]
