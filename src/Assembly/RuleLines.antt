-- ===== src/Assembly/RuleLines.antt =====
-- Writing a rule line of a Clash configuration and reading it
-- (assembly/render_clash.go: appendRule; rulespec/spec.go: ParseRendered).
use mathlib.Core.List.{append-nil}
use vpn_subscription_managem.Base.{
  ℕ, suc, ◌≡◌, refl, ◌∙◌, Bool, true, false, ◌&&◌, List, [], ◌∷◌, ◌++◌, Text, codes, text_eq,
  length, drop, take-length, arith, Bool-cases, inl, inr, ok, err,
}
use vpn_subscription_managem.RuleSpec.Strings.{is_empty, Library}
use vpn_subscription_managem.RuleSpec.Tables.{RuleDef}
use vpn_subscription_managem.RuleSpec.Capability.{clash}
use vpn_subscription_managem.RuleSpec.Legacy.{supports_and_map_legacy}
use vpn_subscription_managem.RuleSpec.Value.{ValueError, validate_value}
use vpn_subscription_managem.RuleSpec.Rendered.{comma, parse_fields, split_rendered, parse_rendered}
use vpn_subscription_managem.RuleSpec.Trim.{index_of-append}
use vpn_subscription_managem.RuleSpec.ReadBack.{
  IsTrimmed, IsField, IsTrimmed-append, trim_space-IsTrimmed, printed, printed-IsTrimmed, rendered,
  parse_plain_lem, parse_logical_lem,
}
use vpn_subscription_managem.RuleSpec.Accepted.{IsLibrary, IsValue, IsAccepted, bracketed, plain}
use vpn_subscription_managem.RuleSpec.Types.{definitions-IsType}
use vpn_subscription_managem.Assembly.{RuleEntry, resolve_suffix, rule_line}

drop_past : (a : Text) (c : ℕ) (b : Text) → drop (suc (length a)) (a ++ c ∷ b) ≡ b
drop_past [] c b = refl
drop_past (x ∷ a) c b = drop_past a c b

-- The type ends at the first comma.
parse_rendered_fields :
    (lib : Library) (typ rest : Text)
    → lib.to_upper typ ≡ typ
    → IsField typ
    → IsTrimmed rest
    → parse_rendered lib (typ ++ comma ∷ rest) ≡ parse_fields typ rest
unfolding parse_rendered split_rendered is_empty
parse_rendered_fields lib [] rest u f r = ground (arith, f.trimmed.nonempty)
parse_rendered_fields lib (c ∷ cs) rest u f r =
    rw
      (
        index_of-append comma (c ∷ cs) rest f.single,
        take-length cs (comma ∷ rest),
        drop_past cs comma rest,
        trim_space-IsTrimmed (c ∷ cs) f.trimmed,
        trim_space-IsTrimmed rest r,
        u,
      )
      refl

resolve_suffix-printed : (target : Text) (b : Bool) → target ++ resolve_suffix b ≡ printed target b
unfolding resolve_suffix
resolve_suffix-printed target true = refl
resolve_suffix-printed target false = append-nil target

parse_fields_value :
    (typ v target : Text) (b : Bool)
    → text_eq typ (codes "MATCH") ≡ false
    → IsValue typ v
    → IsField target
    → parse_fields typ (v ++ comma ∷ printed target b) ≡ rendered typ v target b
unfolding parse_fields
parse_fields_value typ v target b m (bracketed o t c) h =
    rw (m, o) (parse_logical_lem typ v target b t c h)
parse_fields_value typ v target b m (plain o f s) h = rw (m, o) (parse_plain_lem typ v target b f h)

parse_fields_match :
    (typ target : Text)
    → text_eq typ (codes "MATCH") ≡ true
    → IsField target
    → parse_fields typ target ≡ rendered typ [] target false
unfolding parse_fields
parse_fields_match typ target m h = rw (m, h.trimmed.nonempty, h.single) refl

match_line :
    (lib : Library) (typ v target : Text) (b : Bool)
    → lib.to_upper typ ≡ typ
    → IsField typ
    → text_eq typ (codes "MATCH") ≡ true
    → v ≡ []
    → b ≡ false
    → IsField target
    → parse_rendered lib (typ ++ comma ∷ printed target b) ≡ rendered typ v target b
match_line lib typ v target b u f m e n h =
    rw (e, n)
      (parse_rendered_fields lib typ target u f h.trimmed ∙ parse_fields_match typ target m h)

IsValue-IsTrimmed : (typ v : Text) → IsValue typ v → IsTrimmed v
IsValue-IsTrimmed typ v (bracketed o t c) = t
IsValue-IsTrimmed typ v (plain o f s) = f.trimmed

value_line :
    (lib : Library) (typ v target : Text) (b : Bool)
    → lib.to_upper typ ≡ typ
    → IsField typ
    → text_eq typ (codes "MATCH") ≡ false
    → IsValue typ v
    → IsField target
    → parse_rendered lib (typ ++ comma ∷ (v ++ comma ∷ printed target b)) ≡ rendered typ v target b
value_line lib typ v target b u f m a h =
    let last = printed-IsTrimmed target b h.trimmed in
    let rest = IsTrimmed-append v (printed target b) (IsValue-IsTrimmed typ v a) last in
    parse_rendered_fields lib typ (v ++ comma ∷ printed target b) u f rest
    ∙ parse_fields_value typ v target b m a h

&&-false : (a b : Bool) → b ≡ false → (a && b) ≡ false
&&-false true b h = h
&&-false false b h = refl

-- The line of an accepted and supported rule.
pub rule_line-parsed :
    (lib : Library) (typ v target : Text) (resolve : Bool) (d : RuleDef)
    → IsLibrary lib
    → IsAccepted typ v d
    → IsField target
    → (supports_and_map_legacy typ clash).supported ≡ true
    → parse_rendered lib (rule_line (supports_and_map_legacy typ clash) v target resolve)
      ≡ rendered typ v target (resolve && (supports_and_map_legacy typ clash).supports_no_resolve)
unfolding rule_line
rule_line-parsed lib typ v target resolve d l a h s =
    let type = definitions-IsType typ d a.found in
    let answer = (supports_and_map_legacy typ clash).supports_no_resolve in
    let upper = l.upper_name typ type.name in
    rw (type.renders s, resolve_suffix-printed target (resolve && answer))
      (elim (Bool-cases (text_eq typ (codes "MATCH"))) [
        | inl m ↦
            let (bare, plain_target) = type.terminal m in
            rw m (
              match_line lib typ v target (resolve && answer) upper type.field m (a.bare bare)
                (&&-false resolve answer plain_target) h)
        | inr m ↦ rw m (
            value_line lib typ v target (resolve && answer) upper type.field m
              (a.valued (type.valued m)) h)
      ])

-- A line is read back as the rule that validation accepts of the entry, with the entry's target.
pub record IsLineOf (lib : Library) (e : RuleEntry) (line : Text) : Type 0 where
  pub typ : Text
  pub value : Text
  pub accepted : validate_value lib e.rule_type e.match_value ≡ ok (typ, value)
  pub supported : (supports_and_map_legacy typ clash).supported ≡ true
  pub parsed :
      parse_rendered lib line
      ≡ rendered typ value e.target
          (e.no_resolve && (supports_and_map_legacy typ clash).supports_no_resolve)

-- An entry that validation refuses, or that Clash does not support.
pub data IsOmitted (lib : Library) (e : RuleEntry) : Type 0 where
  refused :
      (x : ValueError) → validate_value lib e.rule_type e.match_value ≡ err x → IsOmitted lib e
  unfit :
      (typ v : Text)
      → validate_value lib e.rule_type e.match_value ≡ ok (typ, v)
      → (supports_and_map_legacy typ clash).supported ≡ false
      → IsOmitted lib e

-- The lines are those of the entries in order, without the omitted ones.
pub data AreLinesOf (lib : Library) : List RuleEntry → List Text → Type 0 where
  done : AreLinesOf lib [] []
  written :
      {e : RuleEntry} {line : Text} {es : List RuleEntry} {lines : List Text}
      → IsLineOf lib e line
      → AreLinesOf lib es lines
      → AreLinesOf lib (e ∷ es) (line ∷ lines)
  omitted :
      {e : RuleEntry} {es : List RuleEntry} {lines : List Text}
      → IsOmitted lib e
      → AreLinesOf lib es lines
      → AreLinesOf lib (e ∷ es) lines
