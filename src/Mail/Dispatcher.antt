-- ===== src/Mail/Dispatcher.antt =====
-- The asynchronous mail dispatcher: backend/internal/mail/dispatcher.go.
-- The state holds what the mutexes protect, the channel, and the workers with the place where each
-- stands. Every critical section, channel operation and log call is one event, so a history is a
-- list of events in any order; an event that is not enabled leaves the state. What the transport
-- answers (availability, site values, the result of a send) is an argument.
pub mod Events
pub mod Enqueue
pub mod Lifecycle
pub mod Queue
pub mod Calls
pub mod Preserve
pub mod Drain
mod Tests
use vpn_subscription_managem.Base.{
  ℕ, zero, suc, ◌+◌, Bool, true, false, ◌||◌, ◌&&◌, not, List, [], ◌∷◌, ◌++◌, Option, none, some,
  Text, ◌==◌, ltb, if◌then◌else◌, length, Result, ok, err,
}
use vpn_subscription_managem.Mail.Activity.{
  Kind, Entry, Log, Stage, queue_full, dispatcher_unavailable, config, canceled, internal,
  begin_queued, begin_sending, record_terminal_failed, mark_sending, mark_accepted,
  mark_send_failed, mark_queued_failed, clear,
}

abbrev pub dispatcher_workers : ℕ
dispatcher_workers = 2

abbrev pub dispatcher_queue_size : ℕ
dispatcher_queue_size = 100

pub data JobKind : Type 0 where
  welcome_local welcome_oidc approval_approved approval_rejected password_reset : JobKind

pub data Scope : Type 0 where
  scope_welcome scope_approval_notify scope_password_reset : Scope

-- `templateKind`
unfoldable pub template_kind : JobKind → Kind
template_kind welcome_local = Kind.welcome_local
template_kind welcome_oidc = Kind.welcome_oidc
template_kind approval_approved = Kind.approval_approved
template_kind approval_rejected = Kind.approval_rejected
template_kind password_reset = Kind.password_reset

unfoldable pub scope_for_job : JobKind → Scope
scope_for_job welcome_local = scope_welcome
scope_for_job welcome_oidc = scope_welcome
scope_for_job approval_approved = scope_approval_notify
scope_for_job approval_rejected = scope_approval_notify
scope_for_job password_reset = scope_password_reset

-- RenderValues
pub record Values : Type 0 where
  pub site_name : Text
  pub login_url : Text
  pub reset_url : Text

-- What a dispatch is asked for: the recipient as it is sent to and as the log shows it.
pub record Mail : Type 0 where
  pub kind : JobKind
  pub source : Text
  pub user_id : ℕ
  pub to : Text
  pub masked : Text

pub record Job : Type 0 where
  pub log_id : ℕ
  pub mail : Mail
  pub values : Values

abbrev pub entry_of : Mail → Entry
entry_of m = record {
  kind = template_kind m.kind;
  source = m.source;
  user_id = some m.user_id;
  recipient = m.masked;
}

pub data Reason : Type 0 where
  scope_disabled config_unavailable reason_queue_full reason_unavailable : Reason
  config_read_failed empty_recipient : Reason

-- DispatchResult: the status with its reason and the id of the log record
pub data DispatchResult : Type 0 where
  skipped : Reason → DispatchResult
  queued : ℕ → DispatchResult
  rejected : Reason → ℕ → DispatchResult

-- Where a worker stands: at its `select`, with a job from it, before and during the send, in
-- `drainCanceled` before a receive, with a job from there, and returned.
pub data Phase : Type 0 where
  waiting draining exited : Phase
  received starting working dropping : Job → Phase

pub record Worker : Type 0 where
  pub generation : ℕ
  pub phase : Phase

-- The holder of `lifecycleMu`, where it waits for the workers of a generation.
pub data Life : Type 0 where
  free : Life
  pausing stopping : Option ℕ → Life

pub record Dispatcher : Type 0 where
  pub logs : Log
  pub queue : List Job
  pub generation : Option ℕ
  pub next_generation : ℕ
  -- the cancelled contexts
  pub cancelled : ℕ → Bool
  pub workers : List Worker
  pub paused : Bool
  pub stopped : Bool
  pub life : Life

abbrev pub is_none {ℓ} : {A : Type ℓ} → Option A → Bool
is_none none = true
is_none (some a) = false

abbrev pub unavailable : Dispatcher → Bool
unavailable d = d.stopped || (d.paused || is_none d.generation)

-- `rejectUnavailableLocked`
unfoldable pub reject_unavailable : ℕ → Mail → Dispatcher → DispatchResult × Dispatcher
reject_unavailable now m d =
    let logs = record_terminal_failed now (entry_of m) dispatcher_unavailable d.logs in
    (rejected reason_unavailable logs.next_id, record d { logs = logs })

-- `enqueuePrepared`: the log record and the send that does not block, in one critical section
unfoldable pub enqueue_prepared : ℕ → Mail → Values → Dispatcher → DispatchResult × Dispatcher
enqueue_prepared now m values d =
    if unavailable d
    then reject_unavailable now m d
    else let logs = begin_queued now (entry_of m) d.logs in
      let id = logs.next_id in
      if ltb (length d.queue) dispatcher_queue_size
      then (
        queued id,
        record d {
          logs = logs;
          queue = d.queue ++ (record { log_id = id; mail = m; values = values }) ∷ [];
        },
      )
      else (
        rejected reason_queue_full id,
        record d { logs = mark_queued_failed now id queue_full logs },
      )

-- `rejectBeforeEnqueue`
unfoldable pub reject_before_enqueue : ℕ → Mail → Dispatcher → DispatchResult × Dispatcher
reject_before_enqueue now m d =
    if unavailable d
    then reject_unavailable now m d
    else let logs = record_terminal_failed now (entry_of m) config d.logs in
      (rejected config_read_failed logs.next_id, record d { logs = logs })

-- what `availability` answers: an error, available, or not and why
pub data Availability : Type 0 where
  read_error available : Availability
  unavailable_for : Reason → Availability

-- `preflight`: `none` where the dispatch may go on; `blank` is the test of the trimmed recipient
unfoldable pub preflight :
    ℕ → Bool → (Scope → Availability) → Mail → Dispatcher → Option DispatchResult × Dispatcher
preflight now blank availability m d =
    if blank
    then (some (skipped empty_recipient), d)
    else if unavailable d
    then (let (r, d') = reject_unavailable now m d in (some r, d'))
    else elim (availability (scope_for_job m.kind)) [
      | read_error ↦ (let (r, d') = reject_before_enqueue now m d in (some r, d'))
      | available ↦ (none, d)
      | unavailable_for reason ↦ (some (skipped reason), d)
    ]

-- `dispatch` after `preflight`: the site values, `none` where reading them failed
unfoldable pub dispatch_ready :
    ℕ → Option Values → Mail → Option DispatchResult × Dispatcher → DispatchResult × Dispatcher
dispatch_ready now values m (some r, d) = (r, d)
dispatch_ready now none m (none, d) = reject_before_enqueue now m d
dispatch_ready now (some values) m (none, d) = enqueue_prepared now m values d

unfoldable pub dispatch :
    ℕ
    → Bool
    → (Scope → Availability)
    → Option Values
    → Mail
    → Dispatcher
    → DispatchResult × Dispatcher
dispatch now blank availability values m d =
    dispatch_ready now values m (preflight now blank availability m d)
