-- ===== src/Pool/Unique.antt =====
-- The items and the rules of a parsed source (pool/pipeline.go:
-- finalizeParseResult).
use mathlib.Core.Path.{subst}
use mathlib.Core.List.{append_assoc, append-nil}
use vpn_subscription_managem.Base.{
  ◌≡◌, refl, ap, sym, ◌∙◌, Bool, true, false, not, ◌&&◌, List, [], ◌∷◌, ◌++◌, Text, text_eq,
  text_eq_iff, map, keep_if, arith, Bool-cases, inl, inr, ◌⊎◌, ok, guard-eq-ok,
}
use vpn_subscription_managem.RuleSpec.Canonical.{CanonicalRule, semantic_key}
use vpn_subscription_managem.RuleSpec.Capability.{clash, sr}
use vpn_subscription_managem.Pool.Pipeline.{
  SourceMode, DetectedFormat, ParseDiagnostic, ParsedRule, ParseResult, mixed_platform_source,
  Verdict, reject, exclude, duplicate, accept, is_material, mem_text, leaves_out, Tally, verdict,
  settle, tally_all,
}
use vpn_subscription_managem.Pool.Finalize.{
  has_private, is_auto, start_tally, result_of, check_result, finalize_parse_result,
}
use vpn_subscription_managem.Pool.Counts.{check_result-IsEnough}

-- A rule of the material pool that the mode does not leave out.
unfoldable pub is_admitted : SourceMode → CanonicalRule → Bool
is_admitted mode r = is_material r && not (leaves_out mode r)

unfoldable pub admitted : SourceMode → List ParsedRule → List ParsedRule
admitted mode items = keep_if (λ i. is_admitted mode i.rule) items

abbrev pub same_key : CanonicalRule → CanonicalRule → Bool
same_key r s = text_eq (semantic_key r) (semantic_key s)

-- Of the rules with one key only the first.
unfoldable pub first_of_each : List CanonicalRule → List CanonicalRule
first_of_each [] = []
first_of_each (r ∷ rs) = r ∷ keep_if (λ s. not (same_key r s)) (first_of_each rs)

abbrev pub rules_of : List ParsedRule → List CanonicalRule
rules_of items = map (λ i. i.rule) items

abbrev unseen : List Text → List CanonicalRule → List CanonicalRule
unseen seen rs = keep_if (λ r. not (mem_text (semantic_key r) seen)) rs

-- Behind an accepted rule its key counts as seen.
unseen-accept :
    (seen : List Text) (r : CanonicalRule) (rs : List CanonicalRule)
    → unseen (semantic_key r ∷ seen) rs ≡ unseen seen (keep_if (λ s. not (same_key r s)) rs)
unfolding keep_if mem_text
unseen-accept seen r [] = refl
unseen-accept seen r (s ∷ rs) = ground (arith, unseen-accept seen r rs)

-- The repetitions of a seen rule are seen.
unseen-duplicate :
    (seen : List Text) (r : CanonicalRule) (rs : List CanonicalRule)
    → mem_text (semantic_key r) seen ≡ true
    → unseen seen rs ≡ unseen seen (keep_if (λ s. not (same_key r s)) rs)
unfolding keep_if
unseen-duplicate seen r [] h = refl
unseen-duplicate seen r (s ∷ rs) h = elim (Bool-cases (same_key r s)) [
  | inl e ↦
      let known = rw ((text_eq_iff (semantic_key r) (semantic_key s)).0 e) at h in
      ground (arith, unseen-duplicate seen r rs h, known, e)
  | inr e ↦ ground (arith, unseen-duplicate seen r rs h, e)
]

-- The verdicts and what they say of the rule.
data IsVerdict (mode : SourceMode) (seen : List Text) (r : CanonicalRule) : Type 0 where
  dropped :
      (v : Verdict)
      → (v ≡ reject) ⊎ (v ≡ exclude)
      → verdict mode seen r ≡ v
      → is_admitted mode r ≡ false
      → IsVerdict mode seen r
  repeated :
      verdict mode seen r ≡ duplicate
      → is_admitted mode r ≡ true
      → mem_text (semantic_key r) seen ≡ true
      → IsVerdict mode seen r
  first :
      verdict mode seen r ≡ accept
      → is_admitted mode r ≡ true
      → mem_text (semantic_key r) seen ≡ false
      → IsVerdict mode seen r

verdict-IsVerdict :
    (mode : SourceMode) (seen : List Text) (r : CanonicalRule) → IsVerdict mode seen r
unfolding verdict is_admitted
verdict-IsVerdict mode seen r = elim (Bool-cases (is_material r)) [
  | inr m ↦ dropped reject (inl refl) (rw m refl) (rw m refl)
  | inl m ↦ elim (Bool-cases (leaves_out mode r)) [
    | inl l ↦ dropped exclude (inr refl) (rw (m, l) refl) (rw (m, l) refl)
    | inr l ↦ elim (Bool-cases (mem_text (semantic_key r) seen)) [
      | inl k ↦ repeated (rw (m, l, k) refl) (rw (m, l) refl) k
      | inr k ↦ first (rw (m, l, k) refl) (rw (m, l) refl) k
    ]
  ]
]

-- A dropped item leaves the rules, the items and the keys as they are.
settle-dropped :
    (v : Verdict) (i : ParsedRule) (t : Tally)
    → (v ≡ reject) ⊎ (v ≡ exclude)
    → ((settle v i t).items ≡ t.items)
      × ((settle v i t).accepted ≡ t.accepted)
      × ((settle v i t).seen ≡ t.seen)
unfolding settle
settle-dropped reject i t h = (refl, refl, refl)
settle-dropped exclude i t h = (refl, refl, refl)
settle-dropped duplicate i t h = ground (arith, h)
settle-dropped accept i t h = ground (arith, h)

tally_all-cons :
    (mode : SourceMode) (i : ParsedRule) (is : List ParsedRule) (t : Tally) (v : Verdict)
    → verdict mode t.seen i.rule ≡ v
    → tally_all mode (i ∷ is) t ≡ tally_all mode is (settle v i t)
unfolding tally_all
tally_all-cons mode i is t v e = ap (λ (w : Verdict). tally_all mode is (settle w i t)) e

abbrev items_of : Tally → List ParsedRule
items_of t = t.items

abbrev accepted_of : Tally → List CanonicalRule
accepted_of t = t.accepted

-- What the loop adds to the items.
tally_all-items :
    (mode : SourceMode) (items : List ParsedRule) (t : Tally)
    → (tally_all mode items t).items ≡ t.items ++ admitted mode items
unfolding tally_all admitted keep_if settle
tally_all-items mode [] t = sym (append-nil t.items)
tally_all-items mode (i ∷ is) t = elim (verdict-IsVerdict mode t.seen i.rule) [
  | dropped v k e a ↦ rw a (
      ap items_of (tally_all-cons mode i is t v e)
      ∙ tally_all-items mode is (settle v i t)
      ∙ ap (λ (l : List ParsedRule). l ++ admitted mode is) (settle-dropped v i t k).0)
  | repeated e a k ↦ rw a (
      ap items_of (tally_all-cons mode i is t duplicate e)
      ∙ tally_all-items mode is (settle duplicate i t)
      ∙ append_assoc t.items (i ∷ []) (admitted mode is))
  | first e a k ↦ rw a (
      ap items_of (tally_all-cons mode i is t accept e)
      ∙ tally_all-items mode is (settle accept i t)
      ∙ append_assoc t.items (i ∷ []) (admitted mode is))
]

-- What the loop adds to the rules.
tally_all-accepted :
    (mode : SourceMode) (items : List ParsedRule) (t : Tally)
    → (tally_all mode items t).accepted
      ≡ t.accepted ++ unseen t.seen (first_of_each (rules_of (admitted mode items)))
unfolding tally_all admitted keep_if settle first_of_each
tally_all-accepted mode [] t = sym (append-nil t.accepted)
tally_all-accepted mode (i ∷ is) t =
    let rest = first_of_each (rules_of (admitted mode is)) in
    elim (verdict-IsVerdict mode t.seen i.rule) [
      | dropped v k e a ↦
          let kept = settle-dropped v i t k in
          rw a (
            ap accepted_of (tally_all-cons mode i is t v e)
            ∙ (rw (kept.1, kept.2) at (tally_all-accepted mode is (settle v i t))))
      | repeated e a k ↦
          rw (a, k)
            (ap accepted_of (tally_all-cons mode i is t duplicate e)
              ∙ tally_all-accepted mode is (settle duplicate i t)
              ∙ ap (λ (l : List CanonicalRule). t.accepted ++ l)
                  (unseen-duplicate t.seen i.rule rest k))
      | first e a k ↦
          rw (a, k)
            (ap accepted_of (tally_all-cons mode i is t accept e)
              ∙ tally_all-accepted mode is (settle accept i t)
              ∙ append_assoc t.accepted (i.rule ∷ []) (unseen (semantic_key i.rule ∷ t.seen) rest)
              ∙ ap (λ (l : List CanonicalRule). t.accepted ++ i.rule ∷ l)
                  (unseen-accept t.seen i.rule rest))
    ]

-- The rules and the items of a result.
pub record IsSelection (mode : SourceMode) (items : List ParsedRule) (res : ParseResult)
    : Type 0 where
  pub selected : res.items ≡ admitted mode items
  pub unique : res.rules ≡ first_of_each (rules_of res.items)

unseen-none : (rs : List CanonicalRule) → unseen [] rs ≡ rs
unfolding keep_if mem_text
unseen-none [] = refl
unseen-none (r ∷ rs) = ap (λ (l : List CanonicalRule). r ∷ l) (unseen-none rs)

result_of-IsSelection :
    (format : DetectedFormat) (items : List ParsedRule) (diagnostics : List ParseDiagnostic)
    (mode : SourceMode)
    → IsSelection mode items
        (result_of format items diagnostics (tally_all mode items (start_tally diagnostics)))
result_of-IsSelection format items diagnostics mode =
    let kept = tally_all-items mode items (start_tally diagnostics) in
    let rules = tally_all-accepted mode items (start_tally diagnostics) in
    record {
      selected = kept;
      unique =
          rules
          ∙ unseen-none (first_of_each (rules_of (admitted mode items)))
          ∙ ap (λ (l : List ParsedRule). first_of_each (rules_of l)) (sym kept);
    }

-- Of every accepted source the items are those of the input, in order, that belong to the material
-- pool and that the mode does not leave out, and the rules are these items with only the first of
-- those with the same key.
pub finalize_parse_result-IsSelection :
    (format : DetectedFormat) (items : List ParsedRule) (diagnostics : List ParseDiagnostic)
    (mode : SourceMode) (res : ParseResult)
    → finalize_parse_result format items diagnostics mode ≡ ok res
    → IsSelection mode items res
unfolding finalize_parse_result
finalize_parse_result-IsSelection format items diagnostics mode res h =
    let r = result_of format items diagnostics (tally_all mode items (start_tally diagnostics)) in
    let (_, h1) =
      guard-eq-ok (is_auto mode && (has_private sr items && has_private clash items))
        mixed_platform_source (check_result r) h in
    subst (IsSelection mode items) (check_result-IsEnough r res h1).0
      (result_of-IsSelection format items diagnostics mode)
