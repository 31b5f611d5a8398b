-- ===== src/Assembly/Tests.antt =====
-- A rule section of three entries, one of them for Shadowrocket only.
use vpn_subscription_managem.Base.{◌≡◌, refl, true, false, List, [], ◌∷◌, ◌++◌, Text, codes}
use vpn_subscription_managem.RuleSpec.Strings.{is_empty, contains_char, is_space}
use vpn_subscription_managem.RuleSpec.Trim.{starts_space, ends_space}
use vpn_subscription_managem.RuleSpec.ReadBack.{IsField}
use vpn_subscription_managem.RuleSpec.Tests.{library, library-IsLibrary}
use vpn_subscription_managem.Assembly.{RuleEntry, render_rules, force_fallback}
use vpn_subscription_managem.Assembly.RuleLines.{AreLinesOf}
use vpn_subscription_managem.Assembly.Section.{render_rules-AreLinesOf}

abbrev proxy : Text
proxy = codes "PROXY"

abbrev entries : List RuleEntry
entries =
    record {
      rule_type = codes "ip-cidr";
      match_value = codes "10.0.0.0/8";
      target = proxy;
      no_resolve = true;
    }
    ∷ record {
      rule_type = codes "USER-AGENT";
      match_value = codes "Safari*";
      target = proxy;
      no_resolve = false;
    }
    ∷ record {
      rule_type = codes "AND";
      match_value = codes "((NETWORK,udp),(DST-PORT,443))";
      target = proxy;
      no_resolve = false;
    }
    ∷ []

proxy-IsField : IsField proxy
unfolding is_empty contains_char is_space starts_space ends_space
proxy-IsField = record {
  trimmed = record { nonempty = refl; start = refl; finish = refl };
  single = refl;
}

render_rules-AreLinesOf_example :
    (lines : List Text) × ((render_rules library entries).rules
      ≡ lines ++ codes "GEOIP,CN,DIRECT" ∷ (codes "MATCH," ++ force_fallback) ∷ [])
    × AreLinesOf library entries lines
render_rules-AreLinesOf_example =
    render_rules-AreLinesOf library entries library-IsLibrary
      (proxy-IsField, (proxy-IsField, (proxy-IsField, tt)))
