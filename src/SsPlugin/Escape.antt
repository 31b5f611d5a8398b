-- ===== src/SsPlugin/Escape.antt =====
-- Escaping and unescaping (sip002.go: escape, unescape).
use vpn_subscription_managem.Base.{◌≡◌, refl, [], ◌∷◌, Text, arith, ok}
use vpn_subscription_managem.SsPlugin.{escape, unescape, is_escaped_rune}

-- Unescaping an escaped text gives the text back.
pub unescape-escape : (value : Text) → unescape (escape value) ≡ ok value
unfolding unescape escape is_escaped_rune
unescape-escape [] = refl
unescape-escape (r ∷ rs) = ground (arith, unescape-escape rs)
