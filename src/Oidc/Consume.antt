-- ===== src/Oidc/Consume.antt =====
-- Exchanging a ticket for a session (oidc/ticket.go: ConsumeLoginTicket).
use Prim.Native.Nat.{◌≤◌}
use vpn_subscription_managem.Base.{
  ℕ, ◌≡◌, ◌≢◌, refl, ap, ◌∙◌, sym, true, Bool-cases, List, [], ◌∷◌, Option, none, some,
  some-injective, some-ne-none, Text, text_eq_iff, codes, ltb, keep_if, Result, ok, err, arith, inl,
  inr, err-ne-ok, payload,
}
use vpn_subscription_managem.Base.Procs.{transact}
use vpn_subscription_managem.Oidc.{
  Strings, Faults, Db, Ticket, TicketError, ticket_invalid, flow_invalid, disabled, session_empty,
  step_failed, select, find_ticket, delete_ticket, assert_flow_current, assert_enabled,
  remove_ticket, judged, check_ticket, consume_body, answer_with, consume_login_ticket, in_tx,
  attempt, current_flow,
}

find_ticket-delete_ticket :
    (t : Text) (rs : List Ticket) → find_ticket t (delete_ticket t rs) ≡ none
unfolding find_ticket delete_ticket keep_if
find_ticket-delete_ticket t [] = refl
find_ticket-delete_ticket t (r ∷ rs) = ground (arith, find_ticket-delete_ticket t rs)

module _ (strings : Strings) (fails : Faults) where
  remove_ticket-ok :
      (t : Text) (a : Option Text) (d : Db) {b : Option Text}
      → (remove_ticket strings fails t a d).0 ≡ ok b
      → (b ≡ a)
        × ((remove_ticket strings fails t a d).1 ≡ record d { tickets = delete_ticket t d.tickets })
  unfolding remove_ticket attempt
  remove_ticket-ok t a d h = (ground arith, ground arith)

  -- A ticket in force for the current flow, and what giving it away leaves.
  pub record IsGiven (now : ℕ) (t session : Text) (d d' : Db) : Type 0 where
    pub ticket : Ticket
    pub found : find_ticket t d.tickets ≡ some ticket
    pub own : ticket.session ≡ session
    pub in_time : now ≤ ticket.expires_at
    pub flow : ticket.flow_hash ≡ d.flow
    pub enabled : strings.equal_fold (strings.trim_space d.configured) (codes "true") ≡ true
    pub left : d' ≡ record d { tickets = delete_ticket t d.tickets }

  assert_enabled-ok :
      (d : Db) {u : Unit {0}}
      → (assert_enabled strings fails d).0 ≡ ok u
      → (strings.equal_fold (strings.trim_space d.configured) (codes "true") ≡ true)
        × ((assert_enabled strings fails d).1 ≡ d)
  unfolding assert_enabled attempt
  assert_enabled-ok d h = (ground arith, ground arith)

  current_flow-ok : (d : Db) {v : Text} → (current_flow strings fails d).0 ≡ ok v → v ≡ d.flow
  unfolding current_flow attempt
  current_flow-ok d h = ground arith

  assert_flow_current-ok :
      (f : Text) (d : Db) {u : Unit {0}}
      → (assert_flow_current strings fails f d).0 ≡ ok u
      → (f ≡ d.flow) × (strings.equal_fold (strings.trim_space d.configured) (codes "true") ≡ true)
  unfolding assert_flow_current attempt
  assert_flow_current-ok f d h =
      let flow = payload [] (current_flow strings fails d).0 in
      (
        ground (
          arith,
          assert_enabled-ok d {u = tt},
          current_flow-ok d {v = flow},
          text_eq_iff d.flow f,
        ),
        ground (arith, assert_enabled-ok d {u = tt}),
      )

  judged-ok :
      (t : Text) (r : Ticket) (v : Result TicketError (Unit {0})) (d : Db) {s : Text}
      → (judged strings fails t r v d).0 ≡ ok (some s)
      → (v ≡ ok tt)
        × (r.session ≡ s)
        × ((judged strings fails t r v d).1 ≡ record d { tickets = delete_ticket t d.tickets })
  unfolding judged
  judged-ok t r (ok u) d h =
      let (e, left) = remove_ticket-ok t (some r.session) d h in
      (refl, sym (some-injective e), left)
  judged-ok t r (err disabled) d h = ground (arith, remove_ticket-ok t none d h)
  judged-ok t r (err flow_invalid) d h = ground (arith, remove_ticket-ok t none d h)
  judged-ok t r (err ticket_invalid) d h = cc
  judged-ok t r (err session_empty) d h = cc
  judged-ok t r (err (step_failed st)) d h = cc

  check_ticket-ok :
      (now : ℕ) (t : Text) (d : Db) (m : Option Ticket) {s : Text}
      → find_ticket t d.tickets ≡ m
      → (check_ticket strings fails now t m d).0 ≡ ok (some s)
      → IsGiven now t s d (check_ticket strings fails now t m d).1
  unfolding check_ticket
  check_ticket-ok now t d none e h = cc
  check_ticket-ok now t d (some r) e h = elim (Bool-cases (ltb r.expires_at now)) [
    | inl late ↦ absurd (some-ne-none (remove_ticket-ok t none d (rw (late, check_ticket) at h)).0)
    | inr in_time ↦
        let v = (assert_flow_current strings fails r.flow_hash d).0 in
        let (fine, own, left) = judged-ok t r v d (rw (in_time, check_ticket) at h) in
        let (flow, enabled) = assert_flow_current-ok r.flow_hash d fine in
        rw (in_time, check_ticket)
          (record {
            ticket = r;
            found = e;
            own = own;
            in_time = ground arith;
            flow = flow;
            enabled = enabled;
            left = left;
          })
  ]

  consume_body-ok :
      (now : ℕ) (t : Text) (d : Db) {s : Text}
      → (consume_body strings fails now t d).0 ≡ ok (some s)
      → IsGiven now t s d (consume_body strings fails now t d).1
  unfolding consume_body attempt
  consume_body-ok now t d {s} h = elim (Bool-cases (fails select)) [
    | inl x ↦ absurd (err-ne-ok (rw (x, consume_body) at h))
    | inr x ↦
        rw (x, consume_body)
          (check_ticket-ok now t d (find_ticket t d.tickets) refl (rw (x, consume_body) at h))
  ]

  -- A consumption that succeeds is its committed transaction.
  consume_login_ticket-body :
      (now : ℕ) (t : Text) (d : Db) {s : Text}
      → (consume_login_ticket strings fails now t d).0 ≡ ok s
      → ((consume_body strings fails now t d).0 ≡ ok (some s))
        × ((consume_login_ticket strings fails now t d).1 ≡ (consume_body strings fails now t d).1)
  unfolding consume_login_ticket in_tx transact answer_with
  consume_login_ticket-body now t d h = (ground arith, ground arith)

  -- A ticket that ConsumeLoginTicket gives a session for was in the table with that session, had
  -- not expired, and was issued for the flow that is current, with OIDC enabled; all it changes is
  -- that the ticket is deleted.
  pub consume_login_ticket-IsGiven :
      (now : ℕ) (t : Text) (d : Db) {s : Text}
      → (consume_login_ticket strings fails now t d).0 ≡ ok s
      → IsGiven now t s d (consume_login_ticket strings fails now t d).1
  consume_login_ticket-IsGiven now t d {s} h =
      let (given, same) = consume_login_ticket-body now t d h in
      rw same (consume_body-ok now t d given)

-- A ticket is strictly single-use: after a ConsumeLoginTicket that gave a session for it, another
-- one for the same ticket gives none, at any time and whatever fails in it.
pub consume_login_ticket_once :
    (strings : Strings) (fails again : Faults) (now later : ℕ) (t : Text) (d : Db) {s s' : Text}
    → (consume_login_ticket strings fails now t d).0 ≡ ok s
    → (consume_login_ticket strings again later t (consume_login_ticket strings fails now t d).1).0
      ≢ ok s'
consume_login_ticket_once strings fails again now later t d h h' =
    let first = consume_login_ticket-IsGiven strings fails now t d h in
    let d' = (consume_login_ticket strings fails now t d).1 in
    let second = consume_login_ticket-IsGiven strings again later t d' h' in
    some-ne-none (
      sym second.found
      ∙ ap (λ (x : Db). find_ticket t x.tickets) first.left
      ∙ find_ticket-delete_ticket t d.tickets)
