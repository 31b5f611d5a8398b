-- ===== src/Assembly/Section.antt =====
-- The rule section as a whole (assembly/render_clash.go: the calls of appendRule).
use mathlib.Core.List.{append_assoc, append-nil}
use vpn_subscription_managem.Base.{
  ◌≡◌, refl, ap, sym, ◌∙◌, List, [], ◌∷◌, ◌++◌, Text, codes, text_eq, Bool-cases, inl, inr, ok,
  Result-cases, All,
}
use vpn_subscription_managem.RuleSpec.Tables.{definitions, legacy_capability_map}
use vpn_subscription_managem.RuleSpec.Strings.{
  Library, trim_space, trim_left, trim_right, is_space, is_empty, contains_any, contains_char,
  byte_len,
}
use vpn_subscription_managem.RuleSpec.Capability.{clash}
use vpn_subscription_managem.RuleSpec.Legacy.{
  find_text, supports_and_map_legacy, legacy_to, normalize_rule_type,
}
use vpn_subscription_managem.RuleSpec.Value.{
  validate_value, check_found, check_def, check_required, check_value, check_number, check_network,
  limit_length, contains_control, one_of,
}
use vpn_subscription_managem.RuleSpec.ReadBack.{IsField}
use vpn_subscription_managem.RuleSpec.Accepted.{IsLibrary, is_name, validate_value-IsAccepted}
use vpn_subscription_managem.Assembly.{
  RuleEntry, Lines, resolve_suffix, rule_line, append_mapped, append_checked, append_rule,
  append_all, closing_entries, force_fallback, render_rules,
}
use vpn_subscription_managem.Assembly.RuleLines.{
  rule_line-parsed, IsLineOf, IsOmitted, refused, unfit, AreLinesOf, done, written, omitted,
}

-- What one call adds to the rules.
data Added (lib : Library) (e : RuleEntry) (before after : List Text) : Type 0 where
  one : (line : Text) → IsLineOf lib e line → after ≡ before ++ line ∷ [] → Added lib e before after
  nothing : IsOmitted lib e → after ≡ before → Added lib e before after

append_mapped-Added :
    (lib : Library) (out : Lines) (e : RuleEntry) (typ v : Text)
    → IsLibrary lib
    → IsField e.target
    → validate_value lib e.rule_type e.match_value ≡ ok (typ, v)
    → Added lib e out.rules (append_mapped (supports_and_map_legacy typ clash) v e out).rules
unfolding append_mapped
append_mapped-Added lib out e typ v l h a =
    elim (Bool-cases (supports_and_map_legacy typ clash).supported) [
      | inl s ↦
          let (d, acc) = validate_value-IsAccepted lib e.rule_type e.match_value typ v l a in
          one (rule_line (supports_and_map_legacy typ clash) v e.target e.no_resolve)
            (record {
              typ = typ;
              value = v;
              accepted = a;
              supported = s;
              parsed = rule_line-parsed lib typ v e.target e.no_resolve d l acc h s;
            })
            (rw s refl)
      | inr s ↦ nothing (unfit typ v a s) (rw s refl)
    ]

append_rule-Added :
    (lib : Library) (out : Lines) (e : RuleEntry)
    → IsLibrary lib
    → IsField e.target
    → Added lib e out.rules (append_rule lib out e).rules
unfolding append_rule append_checked
append_rule-Added lib out e l h =
    elim (Result-cases (validate_value lib e.rule_type e.match_value)) [
      | inl ((typ, v), a) ↦ rw a (append_mapped-Added lib out e typ v l h a)
      | inr (x, r) ↦ rw r (nothing (refused x r) refl)
    ]

Added-AreLinesOf :
    (lib : Library) (e : RuleEntry) (es : List RuleEntry) (before after lines all : List Text)
    → Added lib e before after
    → AreLinesOf lib es lines
    → all ≡ after ++ lines
    → (more : List Text) × (all ≡ before ++ more) × AreLinesOf lib (e ∷ es) more
Added-AreLinesOf lib e es before after lines all (one line i p) h q = (
  line ∷ lines,
  q ∙ ap (λ (t : List Text). t ++ lines) p ∙ append_assoc before (line ∷ []) lines,
  written i h,
)
Added-AreLinesOf lib e es before after lines all (nothing o p) h q =
    (lines, q ∙ ap (λ (t : List Text). t ++ lines) p, omitted o h)

append_all-AreLinesOf :
    (lib : Library) (es : List RuleEntry) (out : Lines)
    → IsLibrary lib
    → All (λ e. IsField e.target) es
    → (lines : List Text) × ((append_all lib es out).rules ≡ out.rules ++ lines)
      × AreLinesOf lib es lines
unfolding append_all
append_all-AreLinesOf lib [] out l h = ([], sym (append-nil out.rules), done)
append_all-AreLinesOf lib (e ∷ es) out l (f, fs) =
    let (lines, p, k) = append_all-AreLinesOf lib es (append_rule lib out e) l fs in
    Added-AreLinesOf lib e es out.rules (append_rule lib out e).rules lines _
      (append_rule-Added lib out e l f) k p

-- The closing rules are accepted.
geoip_accepted :
    (lib : Library)
    → IsLibrary lib
    → validate_value lib (codes "GEOIP") (codes "CN") ≡ ok (codes "GEOIP", codes "CN")
unfolding validate_value is_name check_found check_def check_required check_value check_number
    check_network limit_length find_text definitions text_eq trim_space trim_left trim_right
    is_space is_empty contains_any contains_control contains_char one_of byte_len
geoip_accepted lib l = rw (l.upper_name (codes "GEOIP") refl) refl

match_accepted :
    (lib : Library) → IsLibrary lib → validate_value lib (codes "MATCH") [] ≡ ok (codes "MATCH", [])
unfolding validate_value is_name check_found check_def check_required check_value check_number
    check_network limit_length find_text definitions text_eq trim_space trim_left trim_right
    is_space is_empty contains_any contains_control contains_char one_of byte_len
match_accepted lib l = rw (l.upper_name (codes "MATCH") refl) refl

closing_rules :
    (lib : Library) (out : Lines)
    → IsLibrary lib
    → (append_all lib closing_entries out).rules
      ≡ out.rules ++ codes "GEOIP,CN,DIRECT" ∷ (codes "MATCH," ++ force_fallback) ∷ []
unfolding append_all append_rule append_checked append_mapped rule_line resolve_suffix
    supports_and_map_legacy legacy_capability_map legacy_to normalize_rule_type find_text text_eq
closing_rules lib out l =
    rw (geoip_accepted lib l, match_accepted lib l)
      (append_assoc out.rules (codes "GEOIP,CN,DIRECT" ∷ [])
        ((codes "MATCH," ++ force_fallback) ∷ []))

-- Where the targets of the entries are names without commas and spaces at the ends, the rules of a
-- configuration are, in the order of the entries, a line for each one that validation accepts and
-- Clash supports, and ParseRendered reads it back as the accepted type and value with the entry's
-- target, and with no-resolve exactly if the entry asks for it and the type supports it; behind them
-- stand the two closing rules.
pub render_rules-AreLinesOf :
    (lib : Library) (es : List RuleEntry)
    → IsLibrary lib
    → All (λ e. IsField e.target) es
    → (lines : List Text) × ((render_rules lib es).rules
        ≡ lines ++ codes "GEOIP,CN,DIRECT" ∷ (codes "MATCH," ++ force_fallback) ∷ [])
      × AreLinesOf lib es lines
unfolding render_rules
render_rules-AreLinesOf lib es l h =
    let start : Lines = record { rules = []; skipped = [] } in
    let (lines, p, k) = append_all-AreLinesOf lib es start l h in
    let tail = codes "GEOIP,CN,DIRECT" ∷ (codes "MATCH," ++ force_fallback) ∷ [] in
    (lines, closing_rules lib (append_all lib es start) l ∙ ap (λ (t : List Text). t ++ tail) p, k)
