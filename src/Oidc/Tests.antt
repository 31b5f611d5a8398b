-- ===== src/Oidc/Tests.antt =====
-- A ticket issued, consumed and consumed again (oidc/ticket.go).
use vpn_subscription_managem.Base.{
  ◌≡◌, ◌≢◌, refl, true, false, [], text_eq, codes, ok, err, keep_if, arith,
}
use vpn_subscription_managem.Base.Procs.{transact}
use vpn_subscription_managem.Oidc.{
  Strings, Faults, Db, insert, step_failed, find_ticket, delete_ticket, drop_expired, attempt,
  in_tx, assert_enabled, assert_flow_current, current_flow, insert_row, insert_login_ticket,
  issue_session, issue_login_session, remove_ticket, judged, check_ticket, consume_body,
  answer_with, consume_login_ticket,
}
use vpn_subscription_managem.Oidc.Consume.{
  IsGiven, consume_login_ticket-IsGiven, consume_login_ticket_once,
}
use vpn_subscription_managem.Oidc.RoundTrip.{consume_login_ticket-issue}

abbrev ascii : Strings
ascii = record { trim_space = λ t. t; equal_fold = text_eq }

abbrev fine : Faults
fine st = false

abbrev no_insert : Faults
no_insert insert = true
no_insert st = false

abbrev idle : Db
idle = record {
  tickets = [];
  configured = codes "true";
  provider = codes "generic";
  params = codes "{}";
  flow = codes "h1";
}

signed_in : Faults → Db
unfolding issue_login_session issue_session insert_login_ticket insert_row assert_flow_current
    current_flow assert_enabled attempt in_tx transact find_ticket drop_expired keep_if text_eq
    consume_login_ticket consume_body check_ticket judged remove_ticket answer_with delete_ticket
signed_in fails = (issue_login_session ascii fails 5 (codes "t") (codes "jwt") (codes "h1") idle).1

gives :
    (consume_login_ticket ascii fine 60000000005 (codes "t") (signed_in fine)).0 ≡ ok (codes "jwt")
unfolding signed_in
gives = refl

consume_login_ticket-IsGiven_example :
    IsGiven ascii fine 60000000005
      (codes "t")
      (codes "jwt")
      (signed_in fine)
      (consume_login_ticket ascii fine 60000000005 (codes "t") (signed_in fine)).1
consume_login_ticket-IsGiven_example =
    consume_login_ticket-IsGiven ascii fine 60000000005 (codes "t") (signed_in fine) gives

consume_login_ticket_once_example :
    (consume_login_ticket ascii fine 60000000005
      (codes "t")
      (consume_login_ticket ascii fine 60000000005 (codes "t") (signed_in fine)).1).0
    ≢ ok (codes "jwt")
consume_login_ticket_once_example =
    consume_login_ticket_once ascii fine fine 60000000005 60000000005 (codes "t") (signed_in fine)
      gives

issues :
    (issue_login_session ascii fine 5 (codes "t") (codes "jwt") (codes "h1") idle).0
    ≡ ok (codes "t")
unfolding signed_in
issues = refl

fails_to_insert :
    (issue_login_session ascii no_insert 5 (codes "t") (codes "jwt") (codes "h1") idle).0
    ≡ err (step_failed insert)
unfolding signed_in
fails_to_insert = refl

named : text_eq (codes "t") [] ≡ false
unfolding text_eq
named = refl

consume_login_ticket-issue_example :
    (consume_login_ticket ascii fine 60000000005
      (codes "t")
      (issue_login_session ascii fine 5 (codes "t") (codes "jwt") (codes "h1") idle).1).0
    ≡ ok (codes "jwt")
consume_login_ticket-issue_example =
    consume_login_ticket-issue ascii fine fine 5 60000000005 (codes "t") (codes "jwt") (codes "h1")
      idle {t = codes "t"} issues named (λ st. refl) (omega arith)
