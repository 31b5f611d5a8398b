-- ===== src/RuleSpec/Key.antt =====
-- The key of a canonical rule (rulespec/canonical.go: SemanticKey).
use vpn_subscription_managem.Base.{
  ◌≡◌, ◌↔◌, refl, sym, ap, ◌∙◌, Bool, true, false, ◌||◌, [], ◌∷◌, ◌++◌, Text, codes, Option, none,
  some, text_eq, ◌==◌, arith, if◌then◌else◌, some-injective,
}
use vpn_subscription_managem.RuleSpec.Canonical.{
  Family, Matcher, family_text, matcher_text, CanonicalRule, bool_text, semantic_key, domain, ip,
  user_agent, process, network, port, geo, exact, suffix, keyword, route_wildcard, subdomain_only,
  provider_label_wildcard, regex, cidr, asn, equals,
}

unfoldable pub has_nul : Text → Bool
has_nul [] = false
has_nul (c ∷ cs) = c == 0 || has_nul cs

has_nul-middle : (u p : Text) → has_nul (u ++ 0 ∷ p) ≡ true
unfolding has_nul
has_nul-middle [] p = refl
has_nul-middle (c ∷ u) p = ground (arith, has_nul-middle u p)

-- A first part without NUL ends at the first NUL.
pub first_part :
    (a b x y : Text)
    → has_nul a ≡ false
    → has_nul b ≡ false
    → a ++ 0 ∷ x ≡ b ++ 0 ∷ y
    → (a ≡ b) × (x ≡ y)
unfolding has_nul
first_part [] [] x y h k e = ground arith
first_part [] (d ∷ b) x y h k e = ground arith
first_part (c ∷ a) [] x y h k e = ground arith
first_part (c ∷ a) (d ∷ b) x y h k e = ground (arith, first_part a b x y)

-- A last part without NUL starts at the last NUL.
last_part :
    (u v p q : Text)
    → has_nul p ≡ false
    → has_nul q ≡ false
    → u ++ 0 ∷ p ≡ v ++ 0 ∷ q
    → (u ≡ v) × (p ≡ q)
unfolding has_nul
last_part [] [] p q h k e = ground arith
last_part [] (d ∷ v) p q h k e = ground (arith, has_nul-middle v q)
last_part (c ∷ u) [] p q h k e = ground (arith, has_nul-middle u p)
last_part (c ∷ u) (d ∷ v) p q h k e = ground (arith, last_part u v p q)

pub family_text-no_nul : (f : Family) → has_nul (family_text f) ≡ false
unfolding has_nul family_text
family_text-no_nul domain = refl
family_text-no_nul ip = refl
family_text-no_nul user_agent = refl
family_text-no_nul process = refl
family_text-no_nul network = refl
family_text-no_nul port = refl
family_text-no_nul geo = refl

pub matcher_text-no_nul : (m : Matcher) → has_nul (matcher_text m) ≡ false
unfolding has_nul matcher_text
matcher_text-no_nul exact = refl
matcher_text-no_nul suffix = refl
matcher_text-no_nul keyword = refl
matcher_text-no_nul route_wildcard = refl
matcher_text-no_nul subdomain_only = refl
matcher_text-no_nul provider_label_wildcard = refl
matcher_text-no_nul regex = refl
matcher_text-no_nul cidr = refl
matcher_text-no_nul asn = refl
matcher_text-no_nul equals = refl

bool_text-no_nul : (b : Bool) → has_nul (bool_text b) ≡ false
unfolding has_nul bool_text
bool_text-no_nul true = refl
bool_text-no_nul false = refl

unfoldable read_family : Text → Option Family
read_family t =
    if text_eq t (codes "domain")
    then some domain
    else if text_eq t (codes "ip")
    then some ip
    else if text_eq t (codes "user_agent")
    then some user_agent
    else if text_eq t (codes "process")
    then some process
    else if text_eq t (codes "network")
    then some network
    else if text_eq t (codes "port")
    then some port
    else if text_eq t (codes "geo")
    then some geo
    else none

read_family-text : (f : Family) → read_family (family_text f) ≡ some f
unfolding read_family family_text text_eq
read_family-text domain = refl
read_family-text ip = refl
read_family-text user_agent = refl
read_family-text process = refl
read_family-text network = refl
read_family-text port = refl
read_family-text geo = refl

unfoldable read_matcher : Text → Option Matcher
read_matcher t =
    if text_eq t (codes "exact")
    then some exact
    else if text_eq t (codes "suffix")
    then some suffix
    else if text_eq t (codes "keyword")
    then some keyword
    else if text_eq t (codes "route_wildcard")
    then some route_wildcard
    else if text_eq t (codes "subdomain_only")
    then some subdomain_only
    else if text_eq t (codes "provider_label_wildcard")
    then some provider_label_wildcard
    else if text_eq t (codes "regex")
    then some regex
    else if text_eq t (codes "cidr")
    then some cidr
    else if text_eq t (codes "asn")
    then some asn
    else if text_eq t (codes "equals")
    then some equals
    else none

read_matcher-text : (m : Matcher) → read_matcher (matcher_text m) ≡ some m
unfolding read_matcher matcher_text text_eq
read_matcher-text exact = refl
read_matcher-text suffix = refl
read_matcher-text keyword = refl
read_matcher-text route_wildcard = refl
read_matcher-text subdomain_only = refl
read_matcher-text provider_label_wildcard = refl
read_matcher-text regex = refl
read_matcher-text cidr = refl
read_matcher-text asn = refl
read_matcher-text equals = refl

pub family_text-injective : (f g : Family) → family_text f ≡ family_text g → f ≡ g
family_text-injective f g e =
    some-injective (sym (read_family-text f) ∙ ap read_family e ∙ read_family-text g)

pub matcher_text-injective : (m n : Matcher) → matcher_text m ≡ matcher_text n → m ≡ n
matcher_text-injective m n e =
    some-injective (sym (read_matcher-text m) ∙ ap read_matcher e ∙ read_matcher-text n)

bool_text-injective : (b c : Bool) → bool_text b ≡ bool_text c → b ≡ c
unfolding bool_text
bool_text-injective true true e = refl
bool_text-injective true false e = ground arith
bool_text-injective false true e = ground arith
bool_text-injective false false e = refl

abbrev key_end : CanonicalRule → Text
key_end r = r.value ++ 0 ∷ bool_text r.options.no_resolve

abbrev key_rest : CanonicalRule → Text
key_rest r = matcher_text r.matcher ++ 0 ∷ key_end r

CanonicalRule-ext :
    (r s : CanonicalRule)
    → r.family ≡ s.family
    → r.matcher ≡ s.matcher
    → r.value ≡ s.value
    → r.options.no_resolve ≡ s.options.no_resolve
    → r ≡ s
CanonicalRule-ext r s f m v b =
    λ i. record { family = f i; matcher = m i; value = v i; options = record { no_resolve = b i } }

same_rule : (r s : CanonicalRule) → semantic_key r ≡ semantic_key s → r ≡ s
unfolding semantic_key
same_rule r s e =
    let outer =
      first_part (family_text r.family) (family_text s.family) (key_rest r) (key_rest s)
        (family_text-no_nul r.family) (family_text-no_nul s.family) e in
    let inner =
      first_part (matcher_text r.matcher) (matcher_text s.matcher) (key_end r) (key_end s)
        (matcher_text-no_nul r.matcher) (matcher_text-no_nul s.matcher) outer.1 in
    let flags =
      last_part r.value s.value _ _ (bool_text-no_nul r.options.no_resolve)
        (bool_text-no_nul s.options.no_resolve) inner.1 in
    CanonicalRule-ext r s (family_text-injective r.family s.family outer.0)
      (matcher_text-injective r.matcher s.matcher inner.0) flags.0
      (bool_text-injective r.options.no_resolve s.options.no_resolve flags.1)

-- Two rules have the same key exactly if they agree on the family, the matcher, the value and the
-- option, whatever characters the values hold.
pub semantic_key-injective : (r s : CanonicalRule) → (semantic_key r ≡ semantic_key s) ↔ (r ≡ s)
semantic_key-injective r s = (same_rule r s, ap semantic_key)
