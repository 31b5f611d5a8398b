-- ===== src/Version/Startup.antt =====
-- The self-check at start-up (version.go: StartupCheck).
use vpn_subscription_managem.Base.{
  ℕ, ◌≡◌, Bool, true, false, ◌||◌, List, [], ◌∷◌, Option, none, some, ◌==◌, if◌then◌else◌, not, ok,
  err,
}
use vpn_subscription_managem.Version.{
  Faults, State, Tx, select_total, rebuild_link, select_current, step_failed,
}
use vpn_subscription_managem.Version.Tables.{Owner, Row, owned, has_no, same_owner, set_link}

has_owner : Owner → List Owner → Bool
has_owner o [] = false
has_owner o (p ∷ ps) = same_owner p o || has_owner o ps

-- SELECT DISTINCT owner_type, owner_id
distinct_owners : List Row → List Owner
unfolding has_owner
distinct_owners [] = []
distinct_owners (r ∷ rows) =
    let rest = distinct_owners rows in if has_owner r.owner rest then rest else r.owner ∷ rest

-- one round of StartupCheck's loop, its current version being given
check_current : Faults → Owner → Option ℕ → State → State
check_current fails o none s = s
check_current fails o (some n) s =
    if n == 0 || (not (has_no n (owned o s.db.rows)) || fails rebuild_link)
    then s
    else record s { link = set_link o n s.link }

check_owner : Faults → State → Owner → State
check_owner fails s o = if fails select_current then s else check_current fails o (s.db.current o) s

check_owners : Faults → List Owner → State → State
check_owners fails [] s = s
check_owners fails (o ∷ os) s = check_owners fails os (check_owner fails s o)

pub startup_check : Faults → Tx Unit
startup_check fails s =
    if fails select_total
    then (err (step_failed select_total), s)
    else (ok tt, check_owners fails (distinct_owners s.db.rows) s)

module _ (fails : Faults) (o : Owner) (n : ℕ) where
  -- What the check needs to know of the resource.
  record IsChecked (s : State) : Type 0 where
    current : s.db.current o ≡ some n
    listed : has_no n (owned o s.db.rows) ≡ true
