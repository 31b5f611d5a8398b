-- ===== src/Emergency.antt =====
-- Emergency mode: backend/internal/emergency/emergency.go (trigger, operation code, capabilities)
-- and backend/internal/server/emergency_gate.go (the paths that are served in it). What the
-- environment, the database and the random source answer are arguments.
pub mod OpCode
pub mod Gate
mod Tests
use vpn_subscription_managem.Base.{
  ℕ, zero, suc, ◌+◌, ◌%◌, Bool, true, false, ◌&&◌, ◌||◌, not, List, [], ◌∷◌, ◌++◌, Option, none,
  some, Text, text_eq, codes, ◌==◌, if◌then◌else◌, map, length, drop,
}

pub data TriggerReason : Type 0 where
  trigger_none trigger_manual trigger_db_corrupt trigger_key_missing : TriggerReason

-- `probeDBReadable`: the answer of PRAGMA integrity_check, `none` where the query fails
unfoldable pub probe_db_readable : Option Text → Bool
probe_db_readable none = false
probe_db_readable (some answer) = text_eq answer (codes "ok")

-- `Detect`: RESET_ADMIN_PASSWORD, the integrity check, `configured` and the signing key
unfoldable pub detect : Text → Option Text → Bool → Text → TriggerReason × Bool
detect reset integrity configured signing_key =
    if not (text_eq reset [])
    then (trigger_manual, probe_db_readable integrity)
    else (if not (probe_db_readable integrity)
        then (trigger_db_corrupt, false)
        else (if configured && text_eq signing_key []
            then (trigger_key_missing, true)
            else (trigger_none, true)))

abbrev pub op_code_charset : Text
op_code_charset = codes "ABCDEFGHJKMNPQRSTUVWXYZ23456789"

abbrev pub nth : ℕ → Text → ℕ
nth n [] = 0
nth zero (c ∷ cs) = c
nth (suc n) (c ∷ cs) = nth n cs

-- what `regenerateOpCode` makes of eight random bytes
unfoldable pub op_code_of : List ℕ → Text
op_code_of bytes = map (λ b. nth (b % length op_code_charset) op_code_charset) bytes

-- `regenerateOpCode`: the code before it, and the random bytes, `none` where the source fails
unfoldable pub regenerate_op_code : Option (List ℕ) → Text → Text
regenerate_op_code none code = code
regenerate_op_code (some bytes) code = op_code_of bytes

-- `VerifyOpCode`: whether the input is accepted, and the code after it
unfoldable pub verify_op_code : Option (List ℕ) → Text → Text → Bool × Text
verify_op_code random input code = (text_eq input code, regenerate_op_code random code)

abbrev pub is_manual : TriggerReason → Bool
is_manual trigger_manual = true
is_manual _ = false

-- `CanResetPassword`; the number of users, `none` where the query fails
unfoldable pub can_reset_password : TriggerReason → Bool → Option ℕ → Bool
can_reset_password reason db_readable none = false
can_reset_password reason db_readable (some n) =
    if not (is_manual reason) || not db_readable then false else not (n == 0)

-- strings.HasPrefix(path, prefix)
unfoldable pub has_prefix : Text → Text → Bool
has_prefix path [] = true
has_prefix [] (p ∷ ps) = false
has_prefix (c ∷ cs) (p ∷ ps) = if c == p then has_prefix cs ps else false

unfoldable pub any_prefix : Text → List Text → Bool
any_prefix path [] = false
any_prefix path (p ∷ ps) = has_prefix path p || any_prefix path ps

unfoldable pub is_one_of : Text → List Text → Bool
is_one_of path [] = false
is_one_of path (p ∷ ps) = text_eq path p || is_one_of path ps

abbrev pub served_prefixes : List Text
served_prefixes =
    codes "/api/system/status"
    ∷ codes "/api/site/info"
    ∷ codes "/api/emergency/"
    ∷ codes "/assets/"
    ∷ codes "/public/"
    ∷ []

abbrev pub spa_paths : List Text
spa_paths =
    codes "/"
    ∷ codes "/emergency"
    ∷ codes "/setup"
    ∷ codes "/login"
    ∷ codes "/register"
    ∷ codes "/forgot"
    ∷ codes "/reset"
    ∷ codes "/pending"
    ∷ codes "/login/callback"
    ∷ codes "/rules"
    ∷ codes "/profile"
    ∷ []

-- `isSPAPath`
unfoldable pub is_spa_path : Text → Bool
is_spa_path path =
    is_one_of path spa_paths || (text_eq path (codes "/admin") || has_prefix path (codes "/admin/"))

-- `isEmergencyAllowed`
unfoldable pub is_emergency_allowed : Text → Text → Bool
is_emergency_allowed method path =
    if any_prefix path served_prefixes || text_eq path (codes "/health")
    then true
    else text_eq method (codes "GET") && is_spa_path path

-- `emergencyGate`: the status of a path that is not served
unfoldable pub emergency_gate : Text → Text → Option ℕ
emergency_gate method path = if is_emergency_allowed method path then none else some 503
