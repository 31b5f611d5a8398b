-- ===== src/SsPlugin.antt =====
-- SIP002 plugin strings: backend/internal/ssplugin/sip002.go. A Go string is its list of code
-- points (valid UTF-8 is assumed), so an index counts code points where the source counts bytes;
-- it is only used to cut the text at a one-byte separator. A Go map is an association list whose
-- order means nothing.
pub mod Escape
pub mod Split
pub mod Sort
pub mod Serialize
pub mod Canonical
mod Tests
use vpn_subscription_managem.Base.{
  ℕ, zero, suc, ◌+◌, Bool, true, false, ◌||◌, ◌&&◌, List, [], ◌∷◌, ◌++◌, Option, none, some, Text,
  text_eq, ◌==◌, leb, if◌then◌else◌, Result, ok, err, ◌>>=◌, ◌>>◌, fail_if, take, drop, map,
}

pub data PluginError : Type 0 where
  empty_name empty_key dangling_backslash : PluginError
  invalid_escape : ℕ → PluginError
  duplicate_key : Text → PluginError

abbrev pub backslash : ℕ
backslash = b'\\'

unfoldable pub is_escaped_rune : ℕ → Bool
is_escaped_rune r = r == b':' || r == b';' || r == b'=' || r == backslash

unfoldable pub escape : Text → Text
escape [] = []
escape (r ∷ rs) = if is_escaped_rune r then backslash ∷ r ∷ escape rs else r ∷ escape rs

-- the loop of `unescape`; the first argument is `escaped`
unfoldable pub unescape_from : Bool → Text → Result PluginError Text
unescape_from true [] = err dangling_backslash
unescape_from false [] = ok []
unescape_from true (r ∷ rs) =
    let rest = unescape_from false rs in
    if is_escaped_rune r then rest >>= (λ out. ok (r ∷ out)) else err (invalid_escape r)
unescape_from false (r ∷ rs) =
    let skip = unescape_from true rs in
    let rest = unescape_from false rs in
    if r == backslash then skip else rest >>= (λ out. ok (r ∷ out))

unfoldable pub unescape : Text → Result PluginError Text
unfolding unescape_from
unescape value = unescape_from false value

-- the loop of `splitEscaped`: `cur` is `value[start:idx]`
unfoldable pub split_from : ℕ → Bool → Text → List Text → Text → Result PluginError (List Text)
split_from separator true cur parts [] = err dangling_backslash
split_from separator false cur parts [] = ok (parts ++ cur ∷ [])
split_from separator true cur parts (r ∷ rs) = split_from separator false (cur ++ r ∷ []) parts rs
split_from separator false cur parts (r ∷ rs) =
    let skip = split_from separator true (cur ++ r ∷ []) parts rs in
    let cut = split_from separator false [] (parts ++ cur ∷ []) rs in
    let more = split_from separator false (cur ++ r ∷ []) parts rs in
    if r == backslash then skip else if r == separator then cut else more

unfoldable pub split_escaped : Text → ℕ → Result PluginError (List Text)
unfolding split_from
split_escaped value separator = split_from separator false [] [] value

-- the loop of `indexUnescaped`; `none` is the index -1
unfoldable pub index_from : ℕ → Bool → ℕ → Text → Result PluginError (Option ℕ)
index_from separator true idx [] = err dangling_backslash
index_from separator false idx [] = ok none
index_from separator true idx (r ∷ rs) = index_from separator false (idx + 1) rs
index_from separator false idx (r ∷ rs) =
    let skip = index_from separator true (idx + 1) rs in
    let more = index_from separator false (idx + 1) rs in
    if r == backslash then skip else if r == separator then ok (some idx) else more

unfoldable pub index_unescaped : Text → ℕ → Result PluginError (Option ℕ)
unfolding index_from
index_unescaped value separator = index_from separator false 0 value

abbrev pub Opts : Type 0
Opts = List (Text × Text)

unfoldable pub lookup : Text → Opts → Option Text
lookup k [] = none
lookup k ((j, v) ∷ opts) = if text_eq k j then some v else lookup k opts

abbrev pub is_present : Option Text → Bool
is_present none = false
is_present (some v) = true

-- `keyRaw, valueRaw`: the part before the first bare `=` and what follows it
unfoldable pub cut_at : Text → Option ℕ → Text × Text
cut_at part none = (part, [])
cut_at part (some idx) = (take idx part, drop (idx + 1) part)

-- one round of the parameter loop of `ParsePluginString`
unfoldable pub parse_part : Opts → Text → Result PluginError Opts
parse_part opts part = do
  idx ← index_unescaped part b'='
  let raw = cut_at part idx
  key ← unescape raw.0
  fail_if (text_eq key []) empty_key
  fail_if (is_present (lookup key opts)) (duplicate_key key)
  value ← unescape raw.1
  ok (opts ++ (key, value) ∷ [])

unfoldable pub parse_parts : Opts → List Text → Result PluginError Opts
parse_parts opts [] = ok opts
parse_parts opts (part ∷ parts) = parse_part opts part >>= (λ opts'. parse_parts opts' parts)

-- what `ParsePluginString` does with the parts
unfoldable pub parse_split : List Text → Result PluginError (Text × Opts)
parse_split [] = err empty_name
parse_split (first ∷ parts) = do
  name ← unescape first
  fail_if (text_eq name []) empty_name
  opts ← parse_parts [] parts
  ok (name, opts)

unfoldable pub parse_plugin_string : Text → Result PluginError (Text × Opts)
parse_plugin_string raw = split_escaped raw b';' >>= parse_split

-- byte order of two strings, which is the order of their code points
unfoldable pub text_le : Text → Text → Bool
text_le [] b = true
text_le (x ∷ a) [] = false
text_le (x ∷ a) (y ∷ b) = if x == y then text_le a b else leb x y

unfoldable pub insert_key : Text → List Text → List Text
insert_key k [] = k ∷ []
insert_key k (j ∷ ks) = if text_le k j then k ∷ j ∷ ks else j ∷ insert_key k ks

-- `sort.Strings`
unfoldable pub sort_keys : List Text → List Text
unfolding insert_key text_le
sort_keys [] = []
sort_keys (k ∷ ks) = insert_key k (sort_keys ks)

-- the loop that collects the keys
unfoldable pub collect_keys : Opts → Result PluginError (List Text)
collect_keys [] = ok []
collect_keys ((k, v) ∷ opts) = do
  fail_if (text_eq k []) empty_key
  keys ← collect_keys opts
  ok (k ∷ keys)

-- `opts[key]`: the empty string where the key is missing
unfoldable pub value_of : Option Text → Text
value_of none = []
value_of (some v) = v

unfoldable pub render_value : Text → Text
render_value [] = []
render_value (c ∷ v) = b'=' ∷ escape (c ∷ v)

unfoldable pub render_part : Opts → Text → Text
render_part opts key = escape key ++ render_value (value_of (lookup key opts))

-- `strings.Join(parts, sep)`
unfoldable pub join : ℕ → List Text → Text
join sep [] = []
join sep (p ∷ []) = p
join sep (p ∷ q ∷ ps) = p ++ (sep ∷ join sep (q ∷ ps))

unfoldable pub serialize_plugin_string : Text → Opts → Result PluginError Text
serialize_plugin_string name opts = do
  fail_if (text_eq name []) empty_name
  keys ← collect_keys opts
  ok (join b';' (escape name ∷ map (render_part opts) (sort_keys keys)))
