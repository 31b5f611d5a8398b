-- ===== src/Assembly.antt =====
-- The rule lines of a Clash configuration: backend/internal/assembly/render_clash.go, appendRule and
-- its calls. The rules of the pools that the input selects are an argument.
pub mod RuleLines
pub mod Section
mod Tests
use vpn_subscription_managem.Base.{
  Bool, true, false, ◌&&◌, List, [], ◌∷◌, ◌++◌, Text, codes, text_eq, if◌then◌else◌, Result, ok,
  err,
}
use vpn_subscription_managem.RuleSpec.Capability.{MappingResult, clash}
use vpn_subscription_managem.RuleSpec.Legacy.{supports_and_map_legacy}
use vpn_subscription_managem.RuleSpec.Strings.{Library}
use vpn_subscription_managem.RuleSpec.Value.{ValueError, validate_value}

pub record SkipItem : Type 0 where
  pub kind : Text
  pub name : Text
  pub reason : Text

-- `rules` and `skipped`
pub record Lines : Type 0 where
  pub rules : List Text
  pub skipped : List SkipItem

-- One rule with its target, as `appendRule` takes it.
pub record RuleEntry : Type 0 where
  pub rule_type : Text
  pub match_value : Text
  pub target : Text
  pub no_resolve : Bool

unfoldable pub resolve_suffix : Bool → Text
resolve_suffix true = codes ",no-resolve"
resolve_suffix false = []

-- The line of a supported rule.
unfoldable pub rule_line : MappingResult → Text → Text → Bool → Text
rule_line mapped normalized target no_resolve =
    let last = target ++ resolve_suffix (no_resolve && mapped.supports_no_resolve) in
    mapped.render_type
    ++ b','
      ∷ (if text_eq mapped.render_type (codes "MATCH") then last else normalized ++ b',' ∷ last)

unfoldable pub append_mapped : MappingResult → Text → RuleEntry → Lines → Lines
append_mapped mapped normalized e out =
    if mapped.supported
    then record out { rules = out.rules ++ rule_line mapped normalized e.target e.no_resolve ∷ [] }
    else record out {
      skipped =
          out.skipped
          ++ record {
            kind = codes "rule";
            name = e.rule_type ++ b',' ∷ e.match_value;
            reason = codes "Clash 不支持该规则类型";
          }
            ∷ [];
    }

-- Behind the validation; a rule that it refuses leaves no trace.
unfoldable pub append_checked : Result ValueError (Text × Text) → RuleEntry → Lines → Lines
append_checked (err x) e out = out
append_checked (ok (typ, normalized)) e out =
    append_mapped (supports_and_map_legacy typ clash) normalized e out

-- `appendRule`
unfoldable pub append_rule : Library → Lines → RuleEntry → Lines
append_rule lib out e = append_checked (validate_value lib e.rule_type e.match_value) e out

unfoldable pub append_all : Library → List RuleEntry → Lines → Lines
append_all lib [] out = out
append_all lib (e ∷ es) out = append_all lib es (append_rule lib out e)

-- The two rules behind those of the input; node.ForceFallback is the target of the last.
abbrev pub force_fallback : Text
force_fallback = codes "🛟无法归属的流量"

abbrev pub closing_entries : List RuleEntry
closing_entries =
    record {
      rule_type = codes "GEOIP";
      match_value = codes "CN";
      target = codes "DIRECT";
      no_resolve = false;
    }
    ∷ record {
      rule_type = codes "MATCH";
      match_value = [];
      target = force_fallback;
      no_resolve = false;
    }
    ∷ []

-- `rules` and the skipped rules, of the entries of the pools and the custom rules in order.
unfoldable pub render_rules : Library → List RuleEntry → Lines
render_rules lib entries =
    append_all lib closing_entries (append_all lib entries (record { rules = []; skipped = [] }))
