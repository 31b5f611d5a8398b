-- ===== src/Oidc.antt =====
-- The tickets that an OIDC login is exchanged for: backend/internal/oidc/ticket.go, with the guard
-- of backend/internal/oidc/flow.go. Times are in nanoseconds. The random ticket, the session that
-- the auth package issues, and the library's TrimSpace and EqualFold are arguments.
pub mod Consume
pub mod RoundTrip
mod Tests
use vpn_subscription_managem.Base.{
  ℕ, ◌+◌, ◌*◌, ◌^◌, Bool, true, false, not, List, [], ◌∷◌, ◌++◌, Option, none, some, Text, text_eq,
  codes, ltb, if◌then◌else◌, keep_if, Result, ok, err,
}
use vpn_subscription_managem.Base.Procs.{Proc, ◌>>=◌, ◌>>◌, pure, raise, gets, modify, transact}

-- loginTicketTTL
abbrev pub login_ticket_ttl : ℕ
login_ticket_ttl = 60 * 10 ^ 9

pub data Step : Type 0 where
  random clean insert issue select delete read_enabled read_provider read_params read_epoch commit :
      Step

pub data TicketError : Type 0 where
  ticket_invalid flow_invalid disabled session_empty : TicketError
  step_failed : Step → TicketError

pub record Ticket : Type 0 where
  pub ticket : Text
  pub session : Text
  pub expires_at : ℕ
  pub flow_hash : Text

pub record Db : Type 0 where
  pub tickets : List Ticket
  -- the settings: enabled or not, the provider and its parameters
  pub configured : Text
  pub provider : Text
  pub params : Text
  -- flowConfigHash of the settings, the mode and the epoch
  pub flow : Text

-- strings.TrimSpace and strings.EqualFold
pub record Strings : Type 0 where
  pub trim_space : Text → Text
  pub equal_fold : Text → Text → Bool

abbrev pub Tx : Type 0 → Type 0
Tx A = Proc Db TicketError A

abbrev pub Faults : Type 0
Faults = Step → Bool

pub attempt : Faults → Step → Tx Unit
attempt fails st = if fails st then raise (step_failed st) else pure tt

pub in_tx {ℓ} : {A : Type ℓ} → Faults → Proc Db TicketError A → Proc Db TicketError A
in_tx fails = transact (λ before after. before) (fails commit) (step_failed commit)

unfoldable pub find_ticket : Text → List Ticket → Option Ticket
find_ticket t [] = none
find_ticket t (r ∷ rs) = if text_eq r.ticket t then some r else find_ticket t rs

-- DELETE FROM oidc_login_tickets WHERE ticket = ?
unfoldable pub delete_ticket : Text → List Ticket → List Ticket
delete_ticket t rs = keep_if (λ r. not (text_eq r.ticket t)) rs

-- DELETE FROM oidc_login_tickets WHERE expires_at < ?
unfoldable pub drop_expired : ℕ → List Ticket → List Ticket
drop_expired now rs = keep_if (λ r. not (ltb r.expires_at now)) rs

module _ (strings : Strings) (fails : Faults) where
  -- `assertOidcEnabledTx`
  pub assert_enabled : Tx Unit
  unfolding attempt
  assert_enabled = do
    attempt fails read_enabled
    configured ← gets (λ d. d.configured)
    if strings.equal_fold (strings.trim_space configured) (codes "true")
        then pure tt
        else raise disabled

  -- `currentFlowHashTx`
  pub current_flow : Tx Text
  unfolding attempt
  current_flow = do
    attempt fails read_provider
    provider ← gets (λ d. d.provider)
    if text_eq (strings.trim_space provider) [] then raise disabled else do
      attempt fails read_params
      params ← gets (λ d. d.params)
      if text_eq (strings.trim_space params) []
          then raise disabled
          else do attempt fails read_epoch; gets (λ d. d.flow)

  -- `assertFlowCurrentTx`
  pub assert_flow_current : Text → Tx Unit
  unfolding attempt
  assert_flow_current expected =
      if text_eq (strings.trim_space expected) [] then raise flow_invalid else do
        assert_enabled
        flow ← current_flow
        if text_eq flow expected then pure tt else raise flow_invalid

  -- the INSERT, with the primary key on the ticket
  pub insert_row : Ticket → Tx Unit
  insert_row r d = elim (find_ticket r.ticket d.tickets) [
    | none ↦ (ok tt, record d { tickets = d.tickets ++ r ∷ [] })
    | some old ↦ (err (step_failed insert), d)
  ]

  -- `insertLoginTicketTx`; `fresh` is what the random source gives
  pub insert_login_ticket : ℕ → Text → Text → Text → Tx Text
  unfolding attempt
  insert_login_ticket now fresh session flow_hash = do
    attempt fails random
    attempt fails clean
    modify (λ d. record d { tickets = drop_expired now d.tickets })
    attempt fails insert
    insert_row (record {
      ticket = fresh;
      session = session;
      expires_at = now + login_ticket_ttl;
      flow_hash = flow_hash;
    })
    pure fresh

  -- `IssueLoginTicketForFlow`
  pub issue_login_ticket : ℕ → Text → Text → Text → Tx Text
  issue_login_ticket now fresh session flow_hash =
      if text_eq session []
      then raise session_empty
      else if text_eq flow_hash []
      then raise flow_invalid
      else in_tx fails
          (do assert_flow_current flow_hash; insert_login_ticket now fresh session flow_hash)

  -- `IssueTx` of the auth package: it signs a token, and writes nothing
  pub issue_session : Text → Tx Text
  unfolding attempt
  issue_session token = do attempt fails issue; pure token

  -- `IssueLoginSessionForFlow`
  pub issue_login_session : ℕ → Text → Text → Text → Tx Text
  issue_login_session now fresh token flow_hash =
      if text_eq flow_hash []
      then raise flow_invalid
      else in_tx fails (do
        assert_flow_current flow_hash
        session ← issue_session token
        insert_login_ticket now fresh session flow_hash)

  -- `IssueDirectSessionForFlow`
  pub issue_direct_session : Text → Text → Tx Text
  issue_direct_session token flow_hash =
      if text_eq flow_hash []
      then raise flow_invalid
      else in_tx fails (do assert_flow_current flow_hash; issue_session token)

  -- the DELETE of a ticket, and then the answer
  pub remove_ticket : Text → Option Text → Tx (Option Text)
  unfolding attempt
  remove_ticket t answer = do
    attempt fails delete
    modify (λ d. record d { tickets = delete_ticket t d.tickets })
    pure answer

  -- The answer on a ticket in force, by the result of the guard: a disabled or changed flow makes
  -- it invalid, and any other error is passed on.
  pub judged : Text → Ticket → Result TicketError (Unit {0}) → Tx (Option Text)
  judged t r (ok u) = remove_ticket t (some r.session)
  judged t r (err disabled) = remove_ticket t none
  judged t r (err flow_invalid) = remove_ticket t none
  judged t r (err e) = raise e

  pub check_ticket : ℕ → Text → Option Ticket → Tx (Option Text)
  check_ticket now t none d = (err ticket_invalid, d)
  check_ticket now t (some r) d =
      if ltb r.expires_at now
      then remove_ticket t none d
      else judged t r (assert_flow_current r.flow_hash d).0 d

  -- the function that ConsumeLoginTicket runs in its transaction: `none` for an expired or
  -- invalid ticket
  pub consume_body : ℕ → Text → Tx (Option Text)
  unfolding attempt
  consume_body now t = do
    attempt fails select
    rows ← gets (λ d. d.tickets)
    check_ticket now t (find_ticket t rows)

  pub answer_with : Option Text → Tx Text
  answer_with none = raise ticket_invalid
  answer_with (some session) = pure session

  -- `ConsumeLoginTicket`
  pub consume_login_ticket : ℕ → Text → Tx Text
  consume_login_ticket now t =
      if text_eq t []
      then raise ticket_invalid
      else (in_tx fails (consume_body now t) >>= answer_with)
