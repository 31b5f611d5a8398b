-- ===== src/Emergency/Gate.antt =====
-- The gate of emergency mode on the paths below /subscriptions/ (server/emergency_gate.go), and the
-- reset of an administrator's password (emergency/emergency.go: Detect, CanResetPassword).
use vpn_subscription_managem.Base.{
  ℕ, ◌≡◌, ◌≢◌, refl, Bool, true, false, [], ◌++◌, Option, none, some, Text, text_eq, codes, arith,
}
use vpn_subscription_managem.Emergency.{
  has_prefix, any_prefix, is_one_of, is_spa_path, is_emergency_allowed, emergency_gate, detect,
  probe_db_readable, can_reset_password,
}

-- Whatever the method and whatever follows, a path under /subscriptions/ has status 503.
pub emergency_gate-subscriptions :
    (method rest : Text) → emergency_gate method (codes "/subscriptions/" ++ rest) ≡ some 503
unfolding emergency_gate is_emergency_allowed is_spa_path any_prefix is_one_of has_prefix text_eq
emergency_gate-subscriptions method rest = ground arith

-- With the reason and readability that Detect gives, an administrator's password can be reset only
-- where RESET_ADMIN_PASSWORD is set, the integrity check has passed, and there is a user.
pub can_reset_password-detect :
    (reset key : Text) (integrity : Option Text) (configured : Bool) (users : Option ℕ)
    → let (reason, readable) = detect reset integrity configured key in
      can_reset_password reason readable users ≡ true
      → (text_eq reset [] ≡ false)
        × (probe_db_readable integrity ≡ true)
        × (n : ℕ) × (users ≡ some n)
        × (n ≢ 0)
unfolding detect can_reset_password
can_reset_password-detect reset key integrity configured none h = cc
can_reset_password-detect reset key integrity configured (some n) h =
    (ground arith, ground arith, n, refl, ground arith)
