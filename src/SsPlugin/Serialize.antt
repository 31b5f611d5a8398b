-- ===== src/SsPlugin/Serialize.antt =====
-- SerializePluginString, and ParsePluginString on what it writes (sip002.go).
use mathlib.Core.List.{append_assoc, append-nil}
use vpn_subscription_managem.Base.{
  ◌≡◌, ◌≢◌, refl, ap, ◌∙◌, false, ◌||◌, List, [], ◌∷◌, ◌++◌, Text, arith, text_eq, text_eq_iff,
  if◌then◌else◌, All, map, none, some, ok, err,
}
use vpn_subscription_managem.SsPlugin.{
  empty_key, Opts, lookup, escape, value_of, render_part, render_value, parse_part, parse_parts,
  parse_split, parse_plugin_string, collect_keys, serialize_plugin_string, sort_keys, is_present,
  join,
}
use vpn_subscription_managem.SsPlugin.Escape.{unescape-escape}
use vpn_subscription_managem.SsPlugin.Split.{
  IsSolid, escape-IsSolid, part-IsSolid, split_escaped-join, index_part, cut_part,
}
use vpn_subscription_managem.SsPlugin.Sort.{
  mem_key, Distinct, mem_key-sort_keys, Distinct-sort_keys,
}

abbrev pub keys : Opts → List Text
keys opts = map (λ p. p.0) opts

-- The parameters in the order in which they are written.
pub entries_of : Opts → List Text → Opts
entries_of opts [] = []
entries_of opts (k ∷ ks) = (k, value_of (lookup k opts)) ∷ entries_of opts ks

pub lookup-append :
    (k j : Text) (v : Text) (acc : Opts)
    → is_present (lookup k (acc ++ (j, v) ∷ [])) ≡ (is_present (lookup k acc) || text_eq k j)
unfolding lookup
lookup-append k j v [] = ground arith
lookup-append k j v ((i, w) ∷ acc) = ground (arith, lookup-append k j v acc)

abbrev Absent : Opts → List Text → Type 0
Absent acc = All (λ k. is_present (lookup k acc) ≡ false)

Absent-append :
    (acc : Opts) (j v : Text) (ks : List Text)
    → mem_key j ks ≡ false
    → Absent acc ks
    → Absent (acc ++ (j, v) ∷ []) ks
unfolding mem_key
Absent-append acc j v [] h a = tt
Absent-append acc j v (k ∷ ks) h (a, as') = (
  ground (arith, lookup-append k j v acc, text_eq_iff k j, text_eq_iff j k),
  Absent-append acc j v ks (ground arith) as',
)

Absent-nil : (ks : List Text) → Absent [] ks
unfolding lookup
Absent-nil [] = tt
Absent-nil (k ∷ ks) = (refl, Absent-nil ks)

-- A rendered parameter with a new key is read back as the key and its value.
parse_part-render :
    (acc : Opts) (k v : Text)
    → text_eq k [] ≡ false
    → is_present (lookup k acc) ≡ false
    → parse_part acc (escape k ++ render_value v) ≡ ok (acc ++ (k, v) ∷ [])
unfolding parse_part
parse_part-render acc k v named new =
    rw (index_part k v)
      (rw (cut_part k v) (rw (unescape-escape k) (rw (named, new, unescape-escape v))))

parse_parts-render :
    (opts acc : Opts) (ks : List Text)
    → mem_key [] ks ≡ false
    → Distinct ks
    → Absent acc ks
    → parse_parts acc (map (render_part opts) ks) ≡ ok (acc ++ entries_of opts ks)
unfolding parse_parts render_part entries_of mem_key
parse_parts-render opts acc [] h d a = rw append-nil
parse_parts-render opts acc (k ∷ ks) h (fresh, d) (a, as') =
    let v = value_of (lookup k opts) in
    rw (parse_part-render acc k v (ground (arith, text_eq_iff k [], text_eq_iff [] k)) a) (
      parse_parts-render opts (acc ++ (k, v) ∷ []) ks (ground arith) d
        (Absent-append acc k v ks fresh as')
      ∙ ap ok (append_assoc acc ((k, v) ∷ []) (entries_of opts ks)))

pub collect_keys-eq :
    (opts : Opts)
    → collect_keys opts ≡ (if mem_key [] (keys opts) then err empty_key else ok (keys opts))
unfolding collect_keys mem_key
collect_keys-eq [] = refl
collect_keys-eq ((k, v) ∷ opts) =
    rw (collect_keys-eq opts) (ground (arith, text_eq_iff k [], text_eq_iff [] k))

lookup-entries_of :
    (k : Text) (opts : Opts) (ks : List Text)
    → lookup k (entries_of opts ks)
      ≡ (if mem_key k ks then some (value_of (lookup k opts)) else none)
unfolding lookup entries_of mem_key
lookup-entries_of k opts [] = refl
lookup-entries_of k opts (j ∷ ks) = ground (arith, lookup-entries_of k opts ks, text_eq_iff k j)

pub mem_key-keys : (k : Text) (opts : Opts) → mem_key k (keys opts) ≡ is_present (lookup k opts)
unfolding lookup mem_key
mem_key-keys k [] = refl
mem_key-keys k ((j, v) ∷ opts) = ground (arith, mem_key-keys k opts)

-- Sorting the keys of a map and looking the values up again gives the same map.
lookup-sorted :
    (k : Text) (opts : Opts) → lookup k (entries_of opts (sort_keys (keys opts))) ≡ lookup k opts
unfolding value_of
lookup-sorted k opts =
    rw (lookup-entries_of k opts (sort_keys (keys opts)))
      (rw (mem_key-sort_keys k (keys opts)) (rw (mem_key-keys k opts) (ground arith)))

-- A Go map: no key twice; and here no empty key.
pub record IsOptions (opts : Opts) : Type 0 where
  pub distinct : Distinct (keys opts)
  pub named : mem_key [] (keys opts) ≡ false

abbrev written : Text → Opts → Text
written name opts = join b';' (escape name ∷ map (render_part opts) (sort_keys (keys opts)))

serialize-written :
    (name : Text) (opts : Opts)
    → text_eq name [] ≡ false
    → mem_key [] (keys opts) ≡ false
    → serialize_plugin_string name opts ≡ ok (written name opts)
unfolding serialize_plugin_string
serialize-written name opts named h = rw (named, collect_keys-eq opts, h)

render_parts-IsSolid :
    (opts : Opts) (ks : List Text) → All (IsSolid b';') (map (render_part opts) ks)
unfolding render_part
render_parts-IsSolid opts [] = tt
render_parts-IsSolid opts (k ∷ ks) =
    (part-IsSolid k (value_of (lookup k opts)), render_parts-IsSolid opts ks)

parse-written :
    (name : Text) (opts : Opts)
    → text_eq name [] ≡ false
    → IsOptions opts
    → parse_plugin_string (written name opts) ≡ ok (name, entries_of opts (sort_keys (keys opts)))
unfolding parse_plugin_string parse_split
parse-written name opts named h =
    let ks = sort_keys (keys opts) in
    rw
      (split_escaped-join (escape name) (map (render_part opts) ks) (escape-IsSolid name)
        (render_parts-IsSolid opts ks))
      (rw (unescape-escape name, named)
        (rw (
          parse_parts-render opts [] ks (mem_key-sort_keys [] (keys opts) ∙ h.named)
            (Distinct-sort_keys (keys opts) h.distinct) (Absent-nil ks))))

-- For a non-empty name and a map of parameters with no empty key, SerializePluginString succeeds,
-- and ParsePluginString reads its output back as the name and the same map.
pub parse-serialize :
    (name : Text) (opts : Opts)
    → name ≢ []
    → IsOptions opts
    → (out : Text) × (serialize_plugin_string name opts ≡ ok out)
      × (opts' : Opts) × (parse_plugin_string out ≡ ok (name, opts'))
      × ((k : Text) → lookup k opts' ≡ lookup k opts)
parse-serialize name opts ne h =
    let named : text_eq name [] ≡ false = ground (arith, text_eq_iff name []) in
    (
      written name opts,
      serialize-written name opts named h.named,
      entries_of opts (sort_keys (keys opts)),
      parse-written name opts named h,
      λ k. lookup-sorted k opts,
    )
