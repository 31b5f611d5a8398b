-- ===== src/SsPlugin/Split.antt =====
-- Cutting at a bare separator, over escaped text (sip002.go: splitEscaped, indexUnescaped).
use mathlib.Core.List.{append_assoc, append-nil}
use native.Mathlib.Nat.{add-zero}
use vpn_subscription_managem.Base.{
  ℕ, ◌+◌, ◌≡◌, refl, sym, ap, ◌∙◌, false, List, [], ◌∷◌, ◌++◌, some, none, Option, Text, arith, ok,
  take-length, drop-length, length, Bool-cases, inl, inr, All,
}
use vpn_subscription_managem.SsPlugin.{
  escape, is_escaped_rune, backslash, split_from, split_escaped, index_from, join, index_unescaped,
  render_value, cut_at,
}

-- Text that the splitting loop at `sep` reads as a whole.
pub record IsSolid (sep : ℕ) (p : Text) : Type 0 where
  pub keeps :
      (cur rest : Text) (parts : List Text)
      → split_from sep false cur parts (p ++ rest) ≡ split_from sep false (cur ++ p) parts rest

split_plain :
    (r : ℕ) (cur rest : Text) (parts : List Text)
    → is_escaped_rune r ≡ false
    → split_from b';' false cur parts (r ∷ rest) ≡ split_from b';' false (cur ++ r ∷ []) parts rest
unfolding split_from is_escaped_rune
split_plain r cur rest parts h = ground arith

split_hidden :
    (r : ℕ) (cur rest : Text) (parts : List Text)
    → split_from b';' false cur parts (backslash ∷ r ∷ rest)
      ≡ split_from b';' false (cur ++ backslash ∷ r ∷ []) parts rest
unfolding split_from
split_hidden r cur rest parts =
    ap (λ (t : Text). split_from b';' false t parts rest)
      (append_assoc cur (backslash ∷ []) (r ∷ []))

split_escape :
    (v cur rest : Text) (parts : List Text)
    → split_from b';' false cur parts (escape v ++ rest)
      ≡ split_from b';' false (cur ++ escape v) parts rest
unfolding escape
split_escape [] cur rest parts = rw append-nil
split_escape (r ∷ rs) cur rest parts = elim (Bool-cases (is_escaped_rune r)) [
  | inl hidden ↦ rw hidden (
      split_hidden r cur (escape rs ++ rest) parts
      ∙ split_escape rs (cur ++ backslash ∷ r ∷ []) rest parts
      ∙ ap (λ (t : Text). split_from b';' false t parts rest)
          (append_assoc cur (backslash ∷ r ∷ []) (escape rs)))
  | inr plain ↦ rw plain (
      split_plain r cur (escape rs ++ rest) parts plain
      ∙ split_escape rs (cur ++ r ∷ []) rest parts
      ∙ ap (λ (t : Text). split_from b';' false t parts rest)
          (append_assoc cur (r ∷ []) (escape rs)))
]

-- Escaped text has no bare semicolon.
pub escape-IsSolid : (v : Text) → IsSolid b';' (escape v)
escape-IsSolid v = record { keeps = split_escape v }

IsSolid-append : {p q : Text} → IsSolid b';' p → IsSolid b';' q → IsSolid b';' (p ++ q)
IsSolid-append {p} {q} hp hq = record {
  keeps = λ cur rest parts. rw append_assoc (
      hp.keeps cur (q ++ rest) parts
      ∙ hq.keeps (cur ++ p) rest parts
      ∙ ap (λ (t : Text). split_from b';' false t parts rest) (append_assoc cur p q));
}

equals-IsSolid : IsSolid b';' (b'=' ∷ [])
equals-IsSolid = record { keeps = λ cur rest parts. unfold is_escaped_rune split_from in refl }

pub render_value-IsSolid : (v : Text) → IsSolid b';' (render_value v)
unfolding render_value
render_value-IsSolid [] = record { keeps = λ cur rest parts. rw append-nil }
render_value-IsSolid (c ∷ v) = IsSolid-append equals-IsSolid (escape-IsSolid (c ∷ v))

pub part-IsSolid : (k v : Text) → IsSolid b';' (escape k ++ render_value v)
part-IsSolid k v = IsSolid-append (escape-IsSolid k) (render_value-IsSolid v)

split_join_from :
    (p : Text) (ps : List Text) (parts : List Text)
    → IsSolid b';' p
    → All (IsSolid b';') ps
    → split_from b';' false [] parts (join b';' (p ∷ ps)) ≡ ok (parts ++ p ∷ ps)
unfolding join split_from
split_join_from p [] parts hp hs =
    ap (λ (t : Text). split_from b';' false [] parts t) (sym (append-nil p)) ∙ hp.keeps [] [] parts
split_join_from p (q ∷ ps) parts hp (hq, hs) =
    hp.keeps [] (b';' ∷ join b';' (q ∷ ps)) parts
    ∙ split_join_from q ps (parts ++ p ∷ []) hq hs
    ∙ ap ok (append_assoc parts (p ∷ []) (q ∷ ps))

-- A list of texts without bare semicolons is read back from its join.
pub split_escaped-join :
    (p : Text) (ps : List Text)
    → IsSolid b';' p
    → All (IsSolid b';') ps
    → split_escaped (join b';' (p ∷ ps)) b';' ≡ ok (p ∷ ps)
unfolding split_escaped
split_escaped-join p ps hp hs = split_join_from p ps [] hp hs

index_plain :
    (r : ℕ) (rest : Text) (i : ℕ)
    → is_escaped_rune r ≡ false
    → index_from b'=' false i (r ∷ rest) ≡ index_from b'=' false (i + 1) rest
unfolding index_from is_escaped_rune
index_plain r rest i h = ground arith

index_escape :
    (k rest : Text) (i : ℕ)
    → index_from b'=' false i (escape k ++ rest)
      ≡ index_from b'=' false (i + length (escape k)) rest
unfolding index_from escape
index_escape [] rest i = rw add-zero
index_escape (r ∷ rs) rest i = elim (Bool-cases (is_escaped_rune r)) [
  | inl hidden ↦ rw hidden (
      index_escape rs rest (i + 1 + 1) ∙ ap (λ (n : ℕ). index_from b'=' false n rest) (omega arith))
  | inr plain ↦ rw plain (
      index_plain r (escape rs ++ rest) i plain
      ∙ index_escape rs rest (i + 1)
      ∙ ap (λ (n : ℕ). index_from b'=' false n rest) (omega arith))
]

-- Where the rendered parameter has its bare `=`.
abbrev pub equals_at : Text → Text → Option ℕ
equals_at k [] = none
equals_at k (c ∷ v) = some (length (escape k))

pub index_part :
    (k v : Text) → index_unescaped (escape k ++ render_value v) b'=' ≡ ok (equals_at k v)
unfolding index_unescaped render_value index_from
index_part k [] = index_escape k [] 0
index_part k (c ∷ v) =
    index_escape k (b'=' ∷ escape (c ∷ v)) 0 ∙ ap (λ (n : ℕ). ok (some n)) (omega arith)

-- The two sides of the cut are the escaped key and the escaped value.
pub cut_part :
    (k v : Text) → cut_at (escape k ++ render_value v) (equals_at k v) ≡ (escape k, escape v)
unfolding cut_at render_value escape
cut_part k [] = rw append-nil
cut_part k (c ∷ v) = rw (take-length, drop-length)
