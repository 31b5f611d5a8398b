-- ===== src/RuleSpec/ReadBack.antt =====
-- Reading a line of well-formed fields (rulespec/spec.go: ParseRendered).
use vpn_subscription_managem.Base.{
  ℕ, suc, ◌≡◌, refl, ◌∙◌, Bool, true, false, [], ◌∷◌, ◌++◌, Text, codes, text_eq, length, drop,
  take-length, some, Option-cases, arith, inl, inr, Result, ok,
}
use vpn_subscription_managem.RuleSpec.Strings.{
  is_empty, contains_char, is_space, trim_left, trim_right, trim_space, split_at, join_at,
}
use vpn_subscription_managem.RuleSpec.Value.{
  depth_after, close_from, balanced_close_paren, closes_last,
}
use vpn_subscription_managem.RuleSpec.Rendered.{
  Rendered, RenderedError, comma, finish_rendered, parse_target, parse_logical, parse_plain,
  parse_closed, parse_after,
}
use vpn_subscription_managem.RuleSpec.Trim.{
  starts_space, ends_space, trim_space_self, starts_space-append, ends_space-append,
  split_at-single, split_at-append, is_empty-append,
}

-- Text with no space at its ends.
pub record IsTrimmed (t : Text) : Type 0 where
  pub nonempty : is_empty t ≡ false
  pub start : starts_space t ≡ false
  pub finish : ends_space t ≡ false

-- A field of a line: no commas either.
pub record IsField (t : Text) : Type 0 where
  pub trimmed : IsTrimmed t
  pub single : contains_char comma t ≡ false

pub trim_space-IsTrimmed : (t : Text) → IsTrimmed t → trim_space t ≡ t
trim_space-IsTrimmed t h = trim_space_self t h.start h.finish

pub IsTrimmed-append : (a b : Text) → IsTrimmed a → IsTrimmed b → IsTrimmed (a ++ comma ∷ b)
unfolding ends_space is_empty
IsTrimmed-append a b h k = record {
  nonempty = is_empty-append a (comma ∷ b) refl;
  start = starts_space-append a (comma ∷ b) h.nonempty ∙ h.start;
  finish = ends_space-append a (comma ∷ b) refl ∙ ground (arith, k.nonempty, k.finish);
}

close_from-append :
    (i depth n : ℕ) (v w : Text)
    → close_from i depth v ≡ some n
    → close_from i depth (v ++ w) ≡ some n
unfolding close_from
close_from-append i depth n [] w h = ground arith
close_from-append i depth n (c ∷ v) w h =
    ground (arith, close_from-append (suc i) (depth_after depth c) n v w)

-- The target with the suffix that it was printed with.
abbrev pub printed : Text → Bool → Text
printed target true = target ++ codes ",no-resolve"
printed target false = target

abbrev pub rendered : Text → Text → Text → Bool → Result RenderedError Rendered
rendered typ value target b =
    ok (record { type = typ; value = value; target = target; no_resolve = b })

finish_rendered_lem :
    (typ value target : Text) (b : Bool)
    → IsTrimmed target
    → finish_rendered typ value target b ≡ rendered typ value target b
unfolding finish_rendered
finish_rendered_lem typ value target b h = rw (trim_space-IsTrimmed target h, h.nonempty) refl

split_at_printed :
    (target : Text)
    → IsField target
    → split_at comma (target ++ codes ",no-resolve") ≡ target ∷ codes "no-resolve" ∷ []
unfolding split_at
split_at_printed target h = split_at-append comma target (codes "no-resolve") h.single

trim_no_resolve : text_eq (trim_space (codes "no-resolve")) (codes "no-resolve") ≡ true
unfolding text_eq trim_space trim_left trim_right is_space is_empty
trim_no_resolve = refl

pub parse_target_lem :
    (typ value target : Text) (b : Bool)
    → IsField target
    → parse_target typ value (printed target b) ≡ rendered typ value target b
unfolding parse_target
parse_target_lem typ value target false h =
    rw (split_at-single comma target h.single, parse_target)
      (finish_rendered_lem typ value target false h.trimmed)
parse_target_lem typ value target true h =
    rw (split_at_printed target h, parse_target, trim_no_resolve)
      (finish_rendered_lem typ value target true h.trimmed)

pub printed-IsTrimmed : (target : Text) (b : Bool) → IsTrimmed target → IsTrimmed (printed target b)
unfolding is_empty starts_space ends_space is_space
printed-IsTrimmed target false h = h
printed-IsTrimmed target true h =
    IsTrimmed-append target (codes "no-resolve") h
      (record { nonempty = refl; start = refl; finish = refl })

split_at-printed :
    (target : Text) (b : Bool)
    → IsField target
    → join_at comma (split_at comma (printed target b)) ≡ printed target b
unfolding join_at
split_at-printed target false h = rw (split_at-single comma target h.single) refl
split_at-printed target true h = rw (split_at_printed target h) refl

-- A value without commas and a target.
pub parse_plain_lem :
    (typ value target : Text) (b : Bool)
    → IsField value
    → IsField target
    → parse_plain typ (value ++ comma ∷ printed target b) ≡ rendered typ value target b
unfolding parse_plain join_at
parse_plain_lem typ value target false v h =
    rw
      (
        split_at-append comma value target v.single,
        split_at-single comma target h.single,
        parse_plain,
        trim_space-IsTrimmed value v.trimmed,
      )
      (parse_target_lem typ value target false h)
parse_plain_lem typ value target true v h =
    rw
      (
        split_at-append comma value (printed target true) v.single,
        split_at_printed target h,
        parse_plain,
        trim_space-IsTrimmed value v.trimmed,
      )
      (parse_target_lem typ value target true h)

closes_last_eq :
    (v : Text)
    → closes_last v ≡ true
    → (i : ℕ) × (balanced_close_paren v ≡ some i) × (suc i ≡ length v)
unfolding closes_last
closes_last_eq v h = elim (Option-cases (balanced_close_paren v)) [
  | inl (i, e) ↦ (i, e, ground (arith, e))
  | inr e ↦ ground (arith, e)
]

drop_whole : (v w : Text) → drop (length v) (v ++ w) ≡ w
drop_whole [] w = refl
drop_whole (c ∷ v) w = drop_whole v w

balanced_close_paren-append :
    (i : ℕ) (v w : Text) → balanced_close_paren v ≡ some i → balanced_close_paren (v ++ w) ≡ some i
unfolding balanced_close_paren
balanced_close_paren-append i v w e = close_from-append 0 0 i v w e

parse_bracketed :
    (typ value target : Text) (b : Bool) (i : ℕ)
    → IsTrimmed value
    → IsField target
    → balanced_close_paren value ≡ some i
    → suc i ≡ length value
    → parse_logical typ (value ++ comma ∷ printed target b) ≡ rendered typ value target b
unfolding parse_logical parse_closed parse_after starts_space ends_space is_empty is_space
    balanced_close_paren
parse_bracketed typ value target b i v h e n =
    let last = printed-IsTrimmed target b h.trimmed in
    let after =
      trim_space_self (comma ∷ printed target b) refl
        (ends_space-append (comma ∷ []) (printed target b) last.nonempty ∙ last.finish) in
    rw
      (
        close_from-append 0 0 i value (comma ∷ printed target b) e,
        n,
        drop_whole value (comma ∷ printed target b),
        after,
        take-length value (comma ∷ printed target b),
        trim_space-IsTrimmed value v,
        trim_space-IsTrimmed (printed target b) last,
      )
      (parse_target_lem typ value target b h)

-- A bracketed value and a target.
pub parse_logical_lem :
    (typ value target : Text) (b : Bool)
    → IsTrimmed value
    → closes_last value ≡ true
    → IsField target
    → parse_logical typ (value ++ comma ∷ printed target b) ≡ rendered typ value target b
parse_logical_lem typ value target b v c h =
    let (i, e, n) = closes_last_eq value c in parse_bracketed typ value target b i v h e n
