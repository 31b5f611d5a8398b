-- ===== src/Mail/Activity/Order.antt =====
-- Looking up a record after each operation of the activity log (mail/activity.go).
use Prim.Native.Nat.{◌≤◌, ◌<◌}
use vpn_subscription_managem.Base.{
  ℕ, suc, ◌≡◌, ◌≢◌, refl, Bool-cases, inl, inr, List, [], ◌∷◌, ◌++◌, some, ◌==◌, leb, length, drop,
  arith,
}
use vpn_subscription_managem.Mail.Activity.{ActivityRecord, Log, append, find_locked, put}
use vpn_subscription_managem.Mail.Activity.Reach.{IsValid}
use vpn_subscription_managem.Mail.Activity.Items.{Between}

find_locked-append :
    (id : ℕ) (rs : List ActivityRecord) (r : ActivityRecord)
    → r.id ≢ id
    → find_locked id (rs ++ r ∷ []) ≡ find_locked id rs
unfolding find_locked
find_locked-append id [] r ne = ground arith
find_locked-append id (q ∷ rs) r ne = ground (arith, find_locked-append id rs r ne)

pub Between-le : (lo hi : ℕ) (rs : List ActivityRecord) → Between lo hi rs → lo ≤ hi
Between-le lo hi [] h = h
Between-le lo hi (r ∷ rs) h = omega (arith, h.0, Between-le r.id hi rs h.1)

-- The id of a record that is found is in range.
pub find_locked-range :
    (lo hi id : ℕ) (rs : List ActivityRecord) {r : ActivityRecord}
    → Between lo hi rs
    → find_locked id rs ≡ some r
    → (r.id ≡ id) × (lo < id) × (id ≤ hi)
unfolding find_locked
find_locked-range lo hi id [] h e = cc
find_locked-range lo hi id (q ∷ rs) {r} h e = elim (Bool-cases (q.id == id)) [
  | inl here ↦ (ground arith, ground (arith, h.0), ground (arith, Between-le q.id hi rs h.1))
  | inr there ↦
      let (eq, above, below) = find_locked-range q.id hi id rs {r = r} h.1 (ground arith) in
      (eq, omega (arith, h.0), below)
]

pub find_locked-drop :
    (lo hi id : ℕ) (rs : List ActivityRecord) {r : ActivityRecord}
    → Between lo hi rs
    → find_locked id (drop 1 rs) ≡ some r
    → find_locked id rs ≡ some r
unfolding find_locked
find_locked-drop lo hi id [] h e = e
find_locked-drop lo hi id (q ∷ rs) {r} h e =
    ground (arith, find_locked-range q.id hi id rs {r = r} h.1 e)

pub find_locked-put :
    (id : ℕ) (new : ActivityRecord) (rs : List ActivityRecord)
    → new.id ≢ id
    → find_locked id (put new rs) ≡ find_locked id rs
unfolding find_locked put
find_locked-put id new [] ne = refl
find_locked-put id new (q ∷ rs) ne = ground (arith, find_locked-put id new rs ne)

pub find_locked-put_self :
    (id : ℕ) (new : ActivityRecord) (rs : List ActivityRecord) {r : ActivityRecord}
    → new.id ≡ id
    → find_locked id rs ≡ some r
    → find_locked id (put new rs) ≡ some new
unfolding find_locked put
find_locked-put_self id new [] eq e = cc
find_locked-put_self id new (q ∷ rs) {r} eq e =
    ground (arith, find_locked-put_self id new rs {r = r})

-- After an append, an id that was given before has the record it had, or none.
pub find_locked-appended :
    (id : ℕ) (make : ℕ → ActivityRecord) (l : Log) {r : ActivityRecord}
    → ((n : ℕ) → (make n).id ≡ n)
    → IsValid l
    → id ≤ l.next_id
    → find_locked id (append make l).items ≡ some r
    → find_locked id l.items ≡ some r
unfolding append
find_locked-appended id make l {r} named h le e =
    let new = make (suc l.next_id) in
    let other : new.id ≢ id = (λ eq. omega (arith, named (suc l.next_id), eq)) in
    elim (Bool-cases (leb l.max (length l.items))) [
      | inl full ↦
          find_locked-drop 0 l.next_id id l.items h.ordered
            (ground (arith, find_locked-append id (drop 1 l.items) new other))
      | inr room ↦ ground (arith, find_locked-append id l.items new other)
    ]
