-- ===== src/Emergency/Tests.antt =====
-- Emergency mode at concrete inputs (emergency/emergency.go, server/emergency_gate.go).
use vpn_subscription_managem.Base.{
  ℕ, ◌≡◌, ◌≢◌, ◌↔◌, refl, true, false, [], ◌∷◌, ◌++◌, List, Option, some, Text, text_eq, codes,
  length,
}
use vpn_subscription_managem.Emergency.{
  op_code_charset, verify_op_code, emergency_gate, can_reset_password, detect, probe_db_readable,
}
use vpn_subscription_managem.Emergency.OpCode.{AllOccur, verify_op_code_lem}
use vpn_subscription_managem.Emergency.Gate.{
  emergency_gate-subscriptions, can_reset_password-detect,
}

abbrev eight : List ℕ
eight = 0 ∷ 31 ∷ 255 ∷ 7 ∷ 8 ∷ 9 ∷ 100 ∷ 200 ∷ []

verify_op_code_lem_example :
    let r = verify_op_code (some eight) (codes "ABCDEFGH") (codes "ABCDEFGH") in
    ((r.0 ≡ true) ↔ (codes "ABCDEFGH" ≡ codes "ABCDEFGH"))
    × (length r.1 ≡ 8)
    × AllOccur r.1 op_code_charset
    × ((other : Text) → (verify_op_code (some eight) (codes "ABCDEFGH") other).1 ≡ r.1)
verify_op_code_lem_example = verify_op_code_lem eight (codes "ABCDEFGH") (codes "ABCDEFGH") refl

emergency_gate-subscriptions_example :
    emergency_gate (codes "GET") (codes "/subscriptions/" ++ codes "team/token") ≡ some 503
emergency_gate-subscriptions_example =
    emergency_gate-subscriptions (codes "GET") (codes "team/token")

can_reset :
    can_reset_password
      (detect (codes "1") (some (codes "ok")) true []).0
      (detect (codes "1") (some (codes "ok")) true []).1
      (some 2)
    ≡ true
unfolding can_reset_password detect probe_db_readable text_eq
can_reset = refl

can_reset_password-detect_example :
    (text_eq (codes "1") [] ≡ false)
    × (probe_db_readable (some (codes "ok")) ≡ true)
    × (n : ℕ) × (◌≡◌ {A = Option ℕ} (some 2) (some n))
    × (n ≢ 0)
can_reset_password-detect_example =
    can_reset_password-detect (codes "1") [] (some (codes "ok")) true (some 2) can_reset
