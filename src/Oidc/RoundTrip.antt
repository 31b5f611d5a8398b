-- ===== src/Oidc/RoundTrip.antt =====
-- A ticket from its issue to its consumption (oidc/ticket.go: IssueLoginSessionForFlow,
-- ConsumeLoginTicket).
use Prim.Native.Nat.{◌≤◌}
use vpn_subscription_managem.Base.{
  ℕ, ◌+◌, ◌≡◌, refl, false, List, [], ◌∷◌, ◌++◌, none, some, Text, text_eq, text_eq_self, ltb, ok,
  arith,
}
use vpn_subscription_managem.Base.Procs.{transact}
use vpn_subscription_managem.Oidc.{
  Strings, Faults, Step, read_enabled, read_provider, read_params, read_epoch, select, delete,
  commit, Db, Ticket, find_ticket, drop_expired, attempt, in_tx, assert_enabled, current_flow,
  assert_flow_current, insert_row, insert_login_ticket, issue_session, issue_login_session,
  remove_ticket, judged, check_ticket, consume_body, answer_with, consume_login_ticket,
  login_ticket_ttl,
}

find_ticket-append :
    (t : Text) (rs : List Ticket) (r : Ticket)
    → find_ticket t rs ≡ none
    → r.ticket ≡ t
    → find_ticket t (rs ++ r ∷ []) ≡ some r
unfolding find_ticket
find_ticket-append t [] r h e = ground (arith, text_eq_self t, e)
find_ticket-append t (q ∷ rs) r h e = ground (arith, h, e, find_ticket-append t rs r)

abbrev new_ticket : ℕ → Text → Text → Text → Ticket
new_ticket now fresh token flow_hash = record {
  ticket = fresh;
  session = token;
  expires_at = now + login_ticket_ttl;
  flow_hash = flow_hash;
}

module _ (strings : Strings) (fails : Faults) (now : ℕ) (fresh token flow_hash : Text)
    (d : Db) where
  abbrev issued : Db
  issued = record d {
    tickets = drop_expired now d.tickets ++ new_ticket now fresh token flow_hash ∷ [];
  }

  issue_login_session-ok :
      {t : Text}
      → (issue_login_session strings fails now fresh token flow_hash d).0 ≡ ok t
      → (t ≡ fresh)
        × ((issue_login_session strings fails now fresh token flow_hash d).1 ≡ issued)
        × (find_ticket fresh (drop_expired now d.tickets) ≡ none)
  unfolding issue_login_session in_tx transact assert_flow_current assert_enabled current_flow
      issue_session insert_login_ticket insert_row attempt
  issue_login_session-ok h = (ground (arith, h), ground (arith, h), ground (arith, h))

  -- The guard of the flow holds at a state with the same settings.
  flow_stays :
      {t : Text} (again : Faults) (e : Db)
      → (issue_login_session strings fails now fresh token flow_hash d).0 ≡ ok t
      → ((st : Step) → again st ≡ false)
      → e.configured ≡ d.configured
      → e.provider ≡ d.provider
      → e.params ≡ d.params
      → e.flow ≡ d.flow
      → (assert_flow_current strings again flow_hash e).0 ≡ ok tt
  unfolding issue_login_session in_tx transact assert_flow_current assert_enabled current_flow
      attempt
  flow_stays again e h fine a b c f = ground (
    arith,
    h,
    fine read_enabled,
    fine read_provider,
    fine read_params,
    fine read_epoch,
    a,
    b,
    c,
    f,
  )

consume_given :
    (strings : Strings) (fails : Faults) (later : ℕ) (t : Text) (r : Ticket) (e : Db)
    → ((st : Step) → fails st ≡ false)
    → text_eq t [] ≡ false
    → find_ticket t e.tickets ≡ some r
    → later ≤ r.expires_at
    → (assert_flow_current strings fails r.flow_hash e).0 ≡ ok tt
    → (consume_login_ticket strings fails later t e).0 ≡ ok r.session
unfolding consume_login_ticket in_tx transact consume_body check_ticket judged remove_ticket
    answer_with attempt
consume_given strings fails later t r e fine named found young guard =
    let in_time : ltb r.expires_at later ≡ false = ground (arith, young) in
    rw (named, fine select, found, in_time, guard, fine delete, fine commit) refl

-- A ticket that IssueLoginSessionForFlow issues, if it is not the empty text, can be exchanged: where
-- no step of the exchange fails, ConsumeLoginTicket gives for it the session that was issued, up to
-- the end of its lifetime.
pub consume_login_ticket-issue :
    (strings : Strings) (fails again : Faults) (now later : ℕ) (fresh token flow_hash : Text)
    (d : Db) {t : Text}
    → (issue_login_session strings fails now fresh token flow_hash d).0 ≡ ok t
    → text_eq fresh [] ≡ false
    → ((st : Step) → again st ≡ false)
    → later ≤ now + login_ticket_ttl
    → (consume_login_ticket strings again later t
        (issue_login_session strings fails now fresh token flow_hash d).1).0
      ≡ ok token
consume_login_ticket-issue strings fails again now later fresh token flow_hash d h named fine
      young =
    let r = new_ticket now fresh token flow_hash in
    let e = issued strings fails now fresh token flow_hash d in
    let (same, left, unused) = issue_login_session-ok strings fails now fresh token flow_hash d h in
    rw (same, left)
      (consume_given strings again later fresh r e fine named
        (find_ticket-append fresh (drop_expired now d.tickets) r unused refl) young
        (flow_stays strings fails now fresh token flow_hash d again e h fine refl refl refl refl))
