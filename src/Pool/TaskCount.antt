-- ===== src/Pool/TaskCount.antt =====
-- How many synchronisation tasks of a pool are running (pool/sync.go).
use vpn_subscription_managem.Base.{
  ℕ, suc, ◌+◌, ◌≡◌, ◌≤◌, refl, sym, false, List, [], ◌∷◌, ◌++◌, Option, Bool, not, ◌==◌, keep_if,
  if◌then◌else◌, arith,
}
use vpn_subscription_managem.Pool.Task.{SyncTask, Cause, runs_in, has_running}
use vpn_subscription_managem.Pool.TaskRows.{
  stays, ends, Evolves, no_rows, moved, deleted, Change, evolved, started, tidied, pool_deleted,
  Tidied, no_texts, cleaned, past,
}

-- How many tasks of a pool are running.
unfoldable pub running_count : ℕ → List SyncTask → ℕ
running_count pool [] = 0
running_count pool (t ∷ ts) =
    let rest = running_count pool ts in if runs_in pool t then suc rest else rest

running_count-Evolves :
    (causes : ℕ → Option Cause) (pool : ℕ) (ts us : List SyncTask)
    → Evolves causes ts us
    → running_count pool us ≤ running_count pool ts
unfolding running_count
running_count-Evolves causes pool [] [] no_rows = omega arith
running_count-Evolves causes pool [] (u ∷ us) x = elim x [ ]
running_count-Evolves causes pool (t ∷ ts) (u ∷ us) (moved (stays e) rest) =
    rw (sym e) (ground (arith, running_count-Evolves causes pool ts us rest))
running_count-Evolves causes pool (t ∷ ts) (u ∷ us) (moved (ends r i p f c) rest) =
    ground (arith, running_count-Evolves causes pool ts us rest, r, p, f)
running_count-Evolves causes pool (t ∷ ts) us (deleted at e rest) =
    ground (arith, running_count-Evolves causes pool ts us rest)

running_count-Tidied :
    (pool : ℕ) (ts us : List SyncTask)
    → Tidied ts us
    → running_count pool us ≤ running_count pool ts
unfolding running_count
running_count-Tidied pool [] [] no_texts = omega arith
running_count-Tidied pool [] (u ∷ us) x = elim x [ ]
running_count-Tidied pool (t ∷ ts) (u ∷ us) (cleaned i p s f rest) =
    ground (arith, running_count-Tidied pool ts us rest, p, s)
running_count-Tidied pool (t ∷ ts) us (past at e rest) =
    ground (arith, running_count-Tidied pool ts us rest)

running_count-keep_if :
    (pool : ℕ) (p : SyncTask → Bool) (ts : List SyncTask)
    → running_count pool (keep_if p ts) ≤ running_count pool ts
unfolding running_count keep_if
running_count-keep_if pool p [] = omega arith
running_count-keep_if pool p (t ∷ ts) = ground (arith, running_count-keep_if pool p ts)

running_count-none :
    (pool : ℕ) (ts : List SyncTask) → has_running pool ts ≡ false → running_count pool ts ≡ 0
unfolding running_count has_running
running_count-none pool [] h = refl
running_count-none pool (t ∷ ts) h = ground (arith, h, running_count-none pool ts)

running_count-append :
    (pool : ℕ) (ts : List SyncTask) (t : SyncTask)
    → running_count pool (ts ++ t ∷ []) ≡ running_count pool ts + (if runs_in pool t then 1 else 0)
unfolding running_count
running_count-append pool [] t = ground arith
running_count-append pool (u ∷ ts) t = ground (arith, running_count-append pool ts t)

pub running_count-Change :
    (causes : ℕ → Option Cause) (ts us : List SyncTask)
    → Change causes ts us
    → ((pool : ℕ) → running_count pool ts ≤ 1)
    → (pool : ℕ) → running_count pool us ≤ 1
running_count-Change causes ts us (evolved e) h pool =
    omega (arith, h pool, running_count-Evolves causes pool ts us e)
running_count-Change causes ts us (started t r n e) h pool =
    rw e (ground (arith, h pool, running_count-append pool ts t, running_count-none t.pool_id ts n))
running_count-Change causes ts us (tidied e) h pool =
    omega (arith, h pool, running_count-Tidied pool ts us e)
running_count-Change causes ts us (pool_deleted gone e) h pool =
    rw e (omega (arith, h pool, running_count-keep_if pool (λ t. not (t.pool_id == gone)) ts))
