-- ===== src/SsPlugin/Tests.antt =====
-- Runs of the SIP002 functions, and the theorems at concrete inputs (sip002.go).
use mathlib.Core.List.{Permᴰ}
use vpn_subscription_managem.Base.{
  ◌≡◌, ◌≢◌, refl, [], ◌∷◌, Text, codes, text_eq, text_eq_iff, ok, err, arith,
}
use vpn_subscription_managem.SsPlugin.{
  Opts, escape, unescape, lookup, parse_plugin_string, parse_split, parse_parts, parse_part,
  split_escaped, index_unescaped, is_escaped_rune, cut_at, serialize_plugin_string, collect_keys,
  sort_keys, render_part, render_value, value_of, join, invalid_escape, duplicate_key,
}
use vpn_subscription_managem.SsPlugin.Sort.{mem_key}
use vpn_subscription_managem.SsPlugin.Serialize.{keys, IsOptions, parse-serialize}
use vpn_subscription_managem.SsPlugin.Canonical.{parse-IsOptions, serialize_stable}

abbrev obfs : Opts
obfs = (codes "obfs", codes "http") ∷ (codes "host;x", codes "a=b") ∷ (codes "fast", []) ∷ []

abbrev obfs_swapped : Opts
obfs_swapped =
    (codes "host;x", codes "a=b") ∷ (codes "obfs", codes "http") ∷ (codes "fast", []) ∷ []

serialize_run :
    serialize_plugin_string (codes "obfs-local") obfs
    ≡ ok (codes "obfs-local;fast;host\\;x=a\\=b;obfs=http")
unfolding serialize_plugin_string collect_keys sort_keys render_part render_value value_of lookup
    join escape text_eq is_escaped_rune
serialize_run = refl

abbrev raw : Text
raw = codes "obfs-local;fast;host\\;x=a\\=b"

abbrev parsed : Opts
parsed = (codes "fast", []) ∷ (codes "host;x", codes "a=b") ∷ []

parse_run : parse_plugin_string raw ≡ ok (codes "obfs-local", parsed)
unfolding parse_plugin_string parse_split parse_parts parse_part split_escaped index_unescaped
    cut_at unescape lookup text_eq is_escaped_rune
parse_run = refl

parse_refuses :
    (parse_plugin_string (codes "p;a=1;a=2") ≡ err (duplicate_key (codes "a")))
    × (parse_plugin_string (codes "p;\\x") ≡ err (invalid_escape b'x'))
unfolding parse_plugin_string parse_split parse_parts parse_part split_escaped index_unescaped
    cut_at unescape lookup text_eq is_escaped_rune
parse_refuses = (refl, refl)

obfs-IsOptions : IsOptions obfs
unfolding mem_key text_eq
obfs-IsOptions = record { distinct = (refl, (refl, (refl, tt))); named = refl }

parse-serialize_example :
    (out : Text) × (serialize_plugin_string (codes "p") obfs ≡ ok out)
    × (opts' : Opts) × (parse_plugin_string out ≡ ok (codes "p", opts'))
    × ((k : Text) → lookup k opts' ≡ lookup k obfs)
parse-serialize_example = parse-serialize (codes "p") obfs (λ e. cc) obfs-IsOptions

parse-IsOptions_example : (codes "obfs-local" ≢ []) × IsOptions parsed
parse-IsOptions_example = parse-IsOptions raw (codes "obfs-local") parsed parse_run

swapped_keys : Permᴰ (keys obfs) (keys obfs_swapped)
swapped_keys = Permᴰ.swap refl refl

swapped_lookup : (k : Text) → lookup k obfs ≡ lookup k obfs_swapped
unfolding lookup
swapped_lookup k = ground (arith, text_eq_iff k (codes "obfs"), text_eq_iff k (codes "host;x"))

serialize_stable_example :
    serialize_plugin_string (codes "p") obfs ≡ serialize_plugin_string (codes "p") obfs_swapped
serialize_stable_example =
    serialize_stable (codes "p") obfs obfs_swapped swapped_keys swapped_lookup
