-- ===== src/RuleSpec/Scope.antt =====
-- What a target supports, and the scopes (rulespec/capability.go: SupportsAndMap).
use vpn_subscription_managem.Base.{
  ◌≡◌, refl, Bool, true, false, ◌&&◌, not, List, [], ◌∷◌, Text, some, all_pass, &&-left, &&-right,
  Option-cases, inl, inr, arith, text_eq, Bool-cases,
}
use vpn_subscription_managem.RuleSpec.Canonical.{
  Family, Matcher, CanonicalRule, family_text, matcher_text,
}
use vpn_subscription_managem.RuleSpec.Capability.{
  Target, TargetScope, MappingResult, Capability, capability_registry, find_in, find_capability,
  canonical_render_type, map_to, supports_and_map, clash, sr, other, common, clash_only, sr_only,
}

-- The targets that a scope names.
unfoldable pub covers : TargetScope → Target → Bool
covers common clash = true
covers common sr = true
covers clash_only clash = true
covers sr_only sr = true
covers _ _ = false

unfoldable pub is_empty : Text → Bool
is_empty [] = true
is_empty (c ∷ cs) = false

unfoldable same : Bool → Bool → Bool
same true b = b
same false b = not b

-- The render types of a row are those of the targets that its scope names.
unfoldable row_scoped : Capability → Bool
row_scoped c =
    same (is_empty c.clash_render_type) (not (covers c.scope clash))
    && same (is_empty c.sr_render_type) (not (covers c.scope sr))

capability_registry-scoped : all_pass row_scoped capability_registry ≡ true
unfolding all_pass row_scoped capability_registry covers is_empty same
capability_registry-scoped = refl

find_in-row_scoped :
    (f : Family) (m : Matcher) (cs : List Capability) (c : Capability)
    → all_pass row_scoped cs ≡ true
    → find_in f m cs ≡ some c
    → row_scoped c ≡ true
unfolding find_in all_pass
find_in-row_scoped f m [] c h e = ground arith
find_in-row_scoped f m (d ∷ cs) c h e =
    let test =
      text_eq (family_text d.family) (family_text f)
      && text_eq (matcher_text d.matcher) (matcher_text m) in
    ground (
      arith,
      Bool-cases test,
      find_in-row_scoped f m cs c,
      &&-left (row_scoped d) (all_pass row_scoped cs) h,
      &&-right (row_scoped d) (all_pass row_scoped cs) h,
    )

-- What a mapping result says of the target.
pub record IsMapped (r : CanonicalRule) (t : Target) (res : MappingResult) : Type 0 where
  pub by_scope : res.supported ≡ covers res.target_scope t
  pub rendered : is_empty res.render_type ≡ not res.supported

map_to-IsMapped :
    (r : CanonicalRule) (c : Capability) (type : Text) (t : Target)
    → is_empty type ≡ not (covers c.scope t)
    → IsMapped r t (map_to r c type)
unfolding map_to is_empty canonical_render_type
map_to-IsMapped r c [] t h = record { by_scope = ground arith; rendered = refl }
map_to-IsMapped r c (x ∷ xs) t h = record { by_scope = ground arith; rendered = ground arith }

same_sound : (a b : Bool) → same a b ≡ true → a ≡ b
unfolding same
same_sound true true h = refl
same_sound false false h = refl
same_sound true false h = ground arith
same_sound false true h = ground arith

capability-IsMapped :
    (r : CanonicalRule) (t : Target) (c : Capability)
    → row_scoped c ≡ true
    → find_capability r.family r.matcher ≡ some c
    → IsMapped r t (supports_and_map r t)
unfolding row_scoped covers is_empty supports_and_map
capability-IsMapped r clash c h e =
    rw (e, supports_and_map)
      (map_to-IsMapped r c c.clash_render_type clash (same_sound _ _ (&&-left _ _ h)))
capability-IsMapped r sr c h e =
    rw (e, supports_and_map)
      (map_to-IsMapped r c c.sr_render_type sr (same_sound _ _ (&&-right _ _ h)))
capability-IsMapped r other c h e =
    rw (e, supports_and_map) (record { by_scope = refl; rendered = refl })

found :
    (r : CanonicalRule) (c : Capability)
    → find_capability r.family r.matcher ≡ some c
    → find_in r.family r.matcher capability_registry ≡ some c
unfolding find_capability
found r c e = e

-- A canonical rule maps to a target exactly if the scope in the answer names the target, and the
-- render type is empty exactly if it does not.
pub supports_and_map-IsMapped :
    (r : CanonicalRule) (t : Target) → IsMapped r t (supports_and_map r t)
unfolding covers is_empty supports_and_map
supports_and_map-IsMapped r t = elim (Option-cases (find_capability r.family r.matcher)) [
  | inl (c, e) ↦
      capability-IsMapped r t c
        (find_in-row_scoped r.family r.matcher capability_registry c capability_registry-scoped
          (found r c e))
        e
  | inr e ↦ rw (e, supports_and_map) (record { by_scope = refl; rendered = refl })
]
