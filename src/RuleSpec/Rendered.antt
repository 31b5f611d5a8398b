-- ===== src/RuleSpec/Rendered.antt =====
-- Reading a rendered rule (rulespec/spec.go: ParseRendered).
use vpn_subscription_managem.Base.{
  ℕ, zero, suc, Bool, true, false, ◌&&◌, ◌||◌, List, [], ◌∷◌, Text, codes, text_eq, ◌==◌, length,
  take, drop, Option, none, some, if◌then◌else◌, Result, ok, err,
}
use vpn_subscription_managem.RuleSpec.Strings.{
  is_empty, contains_char, trim_space, index_of, split_at, join_at, Library,
}
use vpn_subscription_managem.RuleSpec.Value.{balanced_close_paren, one_of, logical_types}

pub data RenderedError : Type 0 where
  no_separator match_target brackets no_target field_count bad_target : RenderedError

pub record Rendered : Type 0 where
  pub type : Text
  pub value : Text
  pub target : Text
  pub no_resolve : Bool

abbrev pub comma : ℕ
comma = b','

abbrev no_more : List Text → Bool
no_more [] = true
no_more (q ∷ qs) = false

unfoldable pub finish_rendered : Text → Text → Text → Bool → Result RenderedError Rendered
finish_rendered typ value target no_resolve =
    if is_empty (trim_space target)
    then err bad_target
    else ok
        (record { type = typ; value = value; target = trim_space target; no_resolve = no_resolve })

-- The target, with or without `no-resolve`.
unfoldable pub parse_target : Text → Text → Text → Result RenderedError Rendered
parse_target typ value rest = elim (split_at comma rest) [
  | [] ↦ err bad_target
  | p ∷ ps ↦ elim ps [
    | [] ↦ finish_rendered typ value p false
    | q ∷ qs ↦
        if no_more qs && text_eq (trim_space q) (codes "no-resolve")
        then finish_rendered typ value p true
        else err bad_target
  ]
]

-- What follows the value of a logical rule.
unfoldable pub parse_after : Text → Text → Text → Result RenderedError Rendered
parse_after typ value [] = err no_target
parse_after typ value (c ∷ cs) =
    if c == comma then parse_target typ value (trim_space cs) else err no_target

-- AND, OR and NOT: the value ends with the bracket that closes its first one.
unfoldable pub parse_closed : Text → Text → Option ℕ → Result RenderedError Rendered
parse_closed typ rest none = err brackets
parse_closed typ rest (some i) =
    parse_after typ (trim_space (take (suc i) rest)) (trim_space (drop (suc i) rest))

unfoldable pub parse_logical : Text → Text → Result RenderedError Rendered
parse_logical typ rest = parse_closed typ rest (balanced_close_paren rest)

unfoldable pub parse_plain : Text → Text → Result RenderedError Rendered
parse_plain typ rest = elim (split_at comma rest) [
  | [] ↦ err field_count
  | p ∷ ps ↦
      if length ps == 1 || length ps == 2
      then parse_target typ (trim_space p) (join_at comma ps)
      else err field_count
]

-- What follows the type.
unfoldable pub parse_fields : Text → Text → Result RenderedError Rendered
parse_fields typ rest =
    if text_eq typ (codes "MATCH")
    then (if is_empty rest || contains_char comma rest
        then err match_target
        else ok (record { type = typ; value = []; target = rest; no_resolve = false }))
    else if one_of typ logical_types
    then parse_logical typ rest
    else parse_plain typ rest

-- `ParseRendered`, with the position of the first comma
unfoldable pub split_rendered : Library → Text → Option ℕ → Result RenderedError Rendered
split_rendered lib line none = err no_separator
split_rendered lib line (some zero) = err no_separator
split_rendered lib line (some (suc i)) =
    parse_fields (lib.to_upper (trim_space (take (suc i) line)))
      (trim_space (drop (suc (suc i)) line))

unfoldable pub parse_rendered : Library → Text → Result RenderedError Rendered
parse_rendered lib line = split_rendered lib line (index_of comma line)
