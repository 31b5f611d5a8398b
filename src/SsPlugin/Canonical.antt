-- ===== src/SsPlugin/Canonical.antt =====
-- The form of what ParsePluginString returns, and of what SerializePluginString writes (sip002.go).
use mathlib.Core.List.{Permᴰ}
use mathlib.Core.Path.{subst}
use vpn_subscription_managem.Base.{
  ◌≡◌, ◌≢◌, refl, sym, ap, ◌∙◌, Bool, true, false, ◌||◌, inl, inr, List, [], ◌∷◌, ◌++◌, Text, arith,
  text_eq, text_eq_iff, Bool-cases, map, none, ok, Result, ◌>>◌, >>=-eq-ok, fail_if, ok-injective,
  payload,
}
use vpn_subscription_managem.SsPlugin.{
  Opts, lookup, unescape, render_part, parse_part, parse_parts, is_present, parse_split,
  parse_plugin_string, serialize_plugin_string, sort_keys, split_escaped, cut_at, index_unescaped,
}
use vpn_subscription_managem.SsPlugin.Serialize.{keys, IsOptions, collect_keys-eq, mem_key-keys}
use vpn_subscription_managem.SsPlugin.Sort.{mem_key, Distinct, mem_key-sort_keys, sort_keys-perm}

render_parts-eq :
    (a b : Opts) (ks : List Text)
    → ((k : Text) → lookup k a ≡ lookup k b)
    → map (render_part a) ks ≡ map (render_part b) ks
unfolding render_part
render_parts-eq a b [] h = refl
render_parts-eq a b (k ∷ ks) h = cc (h k, render_parts-eq a b ks h)

mem_key-perm : (k : Text) {ks js : List Text} → Permᴰ ks js → mem_key k ks ≡ mem_key k js
mem_key-perm k {ks} {js} p =
    sym (mem_key-sort_keys k ks) ∙ ap (mem_key k) (sort_keys-perm p) ∙ mem_key-sort_keys k js

-- SerializePluginString does not depend on the order in which a map is walked: two association
-- lists with the same keys in any order and the same value at every key have the same result,
-- the error for an empty name or key included.
pub serialize_stable :
    (name : Text) (a b : Opts)
    → Permᴰ (keys a) (keys b)
    → ((k : Text) → lookup k a ≡ lookup k b)
    → serialize_plugin_string name a ≡ serialize_plugin_string name b
unfolding serialize_plugin_string
serialize_stable name a b p h =
    rw (collect_keys-eq a, collect_keys-eq b)
      (rw (mem_key-perm [] p) (elim (Bool-cases (mem_key [] (keys b))) [
        | inl e ↦ rw e refl
        | inr e ↦
            rw e (rw (sort_keys-perm p) (rw (render_parts-eq a b (sort_keys (keys b)) h) refl))
      ]))

keys-append : (a : Opts) (k v : Text) → keys (a ++ (k, v) ∷ []) ≡ keys a ++ k ∷ []
keys-append [] k v = refl
keys-append ((j, w) ∷ a) k v = ap (λ (t : List Text). j ∷ t) (keys-append a k v)

mem_key-append :
    (k j : Text) (ks : List Text) → mem_key k (ks ++ j ∷ []) ≡ (mem_key k ks || text_eq k j)
unfolding mem_key
mem_key-append k j [] = ground arith
mem_key-append k j (i ∷ ks) = ground (arith, mem_key-append k j ks)

Distinct-append :
    (k : Text) (ks : List Text) → mem_key k ks ≡ false → Distinct ks → Distinct (ks ++ k ∷ [])
unfolding mem_key
Distinct-append k [] h d = (refl, tt)
Distinct-append k (j ∷ ks) h d =
    ground (arith, Distinct-append k ks, mem_key-append j k ks, text_eq_iff j k, text_eq_iff k j)

IsOptions-append :
    (a : Opts) (k v : Text)
    → IsOptions a
    → text_eq k [] ≡ false
    → is_present (lookup k a) ≡ false
    → IsOptions (a ++ (k, v) ∷ [])
IsOptions-append a k v h named new = record {
  distinct =
      rw (keys-append a k v) (Distinct-append k (keys a) (mem_key-keys k a ∙ new) h.distinct);
  named =
      rw (keys-append a k v, mem_key-append [] k (keys a), h.named)
        (ground (arith, text_eq_iff k [], text_eq_iff [] k));
}

fail_if-ok :
    {E : Type 0} (b : Bool) (e : E) {B : Type 0} (k : Result E B) {r : B}
    → (fail_if b e >> k) ≡ ok r
    → (b ≡ false) × (k ≡ ok r)
fail_if-ok true e k h = cc
fail_if-ok false e k h = (refl, h)

-- What an accepted parameter adds.
parse_part-inv :
    (a : Opts) (part : Text) {b : Opts}
    → parse_part a part ≡ ok b
    → (k : Text) × (v : Text) × (text_eq k [] ≡ false)
      × (is_present (lookup k a) ≡ false)
      × (b ≡ a ++ (k, v) ∷ [])
unfolding parse_part
parse_part-inv a part h =
    let raw = cut_at part (payload none (index_unescaped part b'=')) in
    (
      payload [] (unescape raw.0),
      payload [] (unescape raw.1),
      ground arith,
      ground arith,
      ground arith,
    )

parse_part-IsOptions :
    (a : Opts) (part : Text) {b : Opts} → IsOptions a → parse_part a part ≡ ok b → IsOptions b
parse_part-IsOptions a part h e =
    let (k, v, named, new, eq) = parse_part-inv a part e in
    rw eq (IsOptions-append a k v h named new)

parse_parts-IsOptions :
    (parts : List Text) (a : Opts) {b : Opts}
    → IsOptions a
    → parse_parts a parts ≡ ok b
    → IsOptions b
unfolding parse_parts
parse_parts-IsOptions [] a h e = subst IsOptions (ok-injective e) h
parse_parts-IsOptions (p ∷ parts) a h e =
    let (a', here, rest) = >>=-eq-ok (parse_part a p) (λ o. parse_parts o parts) e in
    parse_parts-IsOptions parts a' (parse_part-IsOptions a p h here) rest

IsOptions-nil : IsOptions []
unfolding mem_key
IsOptions-nil = record { distinct = tt; named = refl }

parse_split-IsOptions :
    (parts : List Text) (name : Text) (opts : Opts)
    → parse_split parts ≡ ok (name, opts)
    → (name ≢ []) × IsOptions opts
unfolding parse_split
parse_split-IsOptions [] name opts h = cc
parse_split-IsOptions (first ∷ parts) name opts h = (
  ground (arith, text_eq_iff name []),
  parse_parts-IsOptions parts [] IsOptions-nil (ground arith),
)

-- What ParsePluginString accepts has a non-empty name, and parameters with non-empty keys, none of
-- them twice.
pub parse-IsOptions :
    (raw name : Text) (opts : Opts)
    → parse_plugin_string raw ≡ ok (name, opts)
    → (name ≢ []) × IsOptions opts
unfolding parse_plugin_string
parse-IsOptions raw name opts h =
    let (parts, split, rest) = >>=-eq-ok (split_escaped raw b';') parse_split h in
    parse_split-IsOptions parts name opts rest
