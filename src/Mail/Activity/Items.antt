-- ===== src/Mail/Activity/Items.antt =====
-- The list of records of the activity log under the operations: its ids and the fields of its
-- records (mail/activity.go).
use Prim.Native.Nat.{◌≤◌, ◌<◌}
use vpn_subscription_managem.Base.{
  ℕ, ◌-◌, ◌≡◌, refl, Bool, true, false, ◌||◌, ◌&&◌, not, List, [], ◌∷◌, ◌++◌, Option, none, some,
  length, drop, arith,
}
use vpn_subscription_managem.Mail.Activity.{
  queued, sending, accepted, failed, ActivityRecord, find_locked, put,
}

abbrev pub present {ℓ} : {A : Type ℓ} → Option A → Bool
present none = false
present (some a) = true

-- The fields that each status has: times, durations and the stage of the failure.
unfoldable pub is_consistent : ActivityRecord → Bool
is_consistent r = elim r.status [
  | queued ↦ not (
      present r.started_at
      || (present r.finished_at
          || (present r.failure_stage || (present r.queue_ms || present r.send_ms))))
  | sending ↦
      present r.started_at
      && not (present r.finished_at || (present r.failure_stage || present r.send_ms))
  | accepted ↦ present r.started_at && (present r.finished_at && not (present r.failure_stage))
  | failed ↦
      present r.finished_at
      && (present r.failure_stage && (present r.started_at || not (present r.send_ms)))
]

-- The ids increase strictly, from above `lo` up to at most `hi`.
abbrev pub Between : ℕ → ℕ → List ActivityRecord → Type 0
Between lo hi [] = lo ≤ hi
Between lo hi (r ∷ rs) = (lo < r.id) × Between r.id hi rs

abbrev pub Consistent : List ActivityRecord → Type 0
Consistent [] = Unit
Consistent (r ∷ rs) = (is_consistent r ≡ true) × Consistent rs

pub Between-weaken :
    (lo lo' hi : ℕ) (rs : List ActivityRecord) → lo' ≤ lo → Between lo hi rs → Between lo' hi rs
Between-weaken lo lo' hi [] le h = omega arith
Between-weaken lo lo' hi (r ∷ rs) le h = (omega arith, h.1)

pub Between-append :
    (lo hi id : ℕ) (rs : List ActivityRecord) (r : ActivityRecord)
    → hi < id
    → r.id ≡ id
    → Between lo hi rs
    → Between lo id (rs ++ r ∷ [])
Between-append lo hi id [] r lt eq h = (omega arith, omega arith)
Between-append lo hi id (q ∷ rs) r lt eq h = (h.0, Between-append q.id hi id rs r lt eq h.1)

pub Between-drop :
    (lo hi : ℕ) (rs : List ActivityRecord) → Between lo hi rs → Between lo hi (drop 1 rs)
Between-drop lo hi [] h = h
Between-drop lo hi (r ∷ rs) h = Between-weaken r.id lo hi rs (omega (arith, h.0)) h.1

pub length-drop : (rs : List ActivityRecord) → length (drop 1 rs) ≡ length rs - 1
length-drop [] = refl
length-drop (r ∷ rs) = omega arith

pub Between-put :
    (lo hi : ℕ) (new : ActivityRecord) (rs : List ActivityRecord)
    → Between lo hi rs
    → Between lo hi (put new rs)
unfolding put
Between-put lo hi new [] h = h
Between-put lo hi new (r ∷ rs) h = ground (arith, Between-put r.id hi new rs h.1, h.0)

pub length-put : (new : ActivityRecord) (rs : List ActivityRecord) → length (put new rs) ≡ length rs
unfolding put
length-put new [] = refl
length-put new (r ∷ rs) = ground (arith, length-put new rs)

pub Consistent-put :
    (new : ActivityRecord) (rs : List ActivityRecord)
    → is_consistent new ≡ true
    → Consistent rs
    → Consistent (put new rs)
unfolding put
Consistent-put new [] p h = h
Consistent-put new (r ∷ rs) p h = ground (arith, p, h.0, h.1, Consistent-put new rs p h.1)

pub Consistent-append :
    (rs : List ActivityRecord) (r : ActivityRecord)
    → is_consistent r ≡ true
    → Consistent rs
    → Consistent (rs ++ r ∷ [])
Consistent-append [] r p h = (p, tt)
Consistent-append (q ∷ rs) r p h = (h.0, Consistent-append rs r p h.1)

pub Consistent-drop : (rs : List ActivityRecord) → Consistent rs → Consistent (drop 1 rs)
Consistent-drop [] h = h
Consistent-drop (r ∷ rs) h = h.1

pub Consistent-find_locked :
    (id : ℕ) (rs : List ActivityRecord) {r : ActivityRecord}
    → find_locked id rs ≡ some r
    → Consistent rs
    → is_consistent r ≡ true
unfolding find_locked
Consistent-find_locked id [] e h = cc
Consistent-find_locked id (q ∷ rs) {r} e h =
    ground (arith, h.0, Consistent-find_locked id rs {r = r}, h.1)
