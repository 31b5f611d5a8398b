-- ===== src/Mail/Activity.antt =====
-- The short-term log of mail activity: backend/internal/mail/activity.go.
-- Times are in nanoseconds and are arguments (the clock is outside). The recipient of an entry is
-- the masked one. What the log hands to its result recorder is kept in `results`.
pub mod Items
pub mod Reach
pub mod Order
pub mod Life
pub mod Terminal
mod Tests
use vpn_subscription_managem.Base.{
  ℕ, zero, suc, ◌+◌, ◌-◌, ◌/◌, Bool, true, false, ◌||◌, not, List, [], ◌∷◌, ◌++◌, Option, none,
  some, Text, ◌==◌, ltb, leb, if◌then◌else◌, length, drop,
}

-- ActivityLogCapacity
abbrev pub capacity : ℕ
capacity = 500

pub data Status : Type 0 where
  queued sending accepted failed : Status

unfoldable pub same_status : Status → Status → Bool
same_status queued queued = true
same_status sending sending = true
same_status accepted accepted = true
same_status failed failed = true
same_status _ _ = false

-- FailureStage
pub data Stage : Type 0 where
  queue_full dispatcher_unavailable config render connect handshake start_tls auth : Stage
  mail_from rcpt_to send_data quit timeout canceled internal : Stage

-- TemplateKind, and the type of a synchronous SMTP test
pub data Kind : Type 0 where
  password_reset approval_approved approval_rejected welcome_local welcome_oidc smtp_test : Kind

-- what the caller gives for a new record
pub record Entry : Type 0 where
  pub kind : Kind
  pub source : Text
  pub user_id : Option ℕ
  pub recipient : Text

pub record ActivityRecord : Type 0 where
  pub id : ℕ
  pub created_at : ℕ
  pub started_at : Option ℕ
  pub finished_at : Option ℕ
  pub entry : Entry
  pub status : Status
  pub failure_stage : Option Stage
  pub queue_ms : Option ℕ
  pub send_ms : Option ℕ

pub record ResultRecord : Type 0 where
  pub entry : Entry
  pub result : Status
  pub failure_stage : Option Stage
  pub recorded_at : ℕ

pub record Log : Type 0 where
  pub max : ℕ
  pub next_id : ℕ
  pub items : List ActivityRecord
  pub recorder : Bool
  pub results : List ResultRecord

-- `NewActivityLog`, and `SetResultRecorder` before the first mail
unfoldable pub new_log : ℕ → Bool → Log
new_log max recorder = record {
  max = if max == 0 then capacity else max;
  next_id = 0;
  items = [];
  recorder = recorder;
  results = [];
}

unfoldable pub duration_ms : ℕ → ℕ → Option ℕ
duration_ms start end = if ltb end start then none else some ((end - start) / 1000000)

abbrev pub since : Option ℕ → ℕ → Option ℕ
since none now = none
since (some start) now = duration_ms start now

-- `append`: the id is the next one; a full log gives up its oldest record
unfoldable pub append : (ℕ → ActivityRecord) → Log → Log
append make l =
    let kept = if leb l.max (length l.items) then drop 1 l.items else l.items in
    record l { next_id = suc l.next_id; items = kept ++ make (suc l.next_id) ∷ [] }

unfoldable pub queued_record : ℕ → Entry → ℕ → ActivityRecord
queued_record now e id = record {
  id = id;
  created_at = now;
  started_at = none;
  finished_at = none;
  entry = e;
  status = queued;
  failure_stage = none;
  queue_ms = none;
  send_ms = none;
}

unfoldable pub sending_record : ℕ → Entry → ℕ → ActivityRecord
sending_record now e id = record (queued_record now e id) {
  started_at = some now;
  status = sending;
}

unfoldable pub failed_record : ℕ → Entry → Stage → ℕ → ActivityRecord
failed_record now e stage id = record (queued_record now e id) {
  finished_at = some now;
  status = failed;
  failure_stage = some stage;
}

-- `tryRecordResult`
unfoldable pub try_record : ActivityRecord → Log → Log
try_record r l = elim r.finished_at [
  | none ↦ l
  | some t ↦
      if l.recorder
      then (if same_status r.status accepted || same_status r.status failed
          then record l {
            results =
                l.results
                ++ (record {
                  entry = r.entry;
                  result = r.status;
                  failure_stage = r.failure_stage;
                  recorded_at = t;
                })
                  ∷ [];
          }
          else l)
      else l
]

-- The id that these three return is `next_id` of the log they leave.
unfoldable pub begin_queued : ℕ → Entry → Log → Log
begin_queued now e l = append (queued_record now e) l

unfoldable pub begin_sending : ℕ → Entry → Log → Log
begin_sending now e l = append (sending_record now e) l

unfoldable pub record_terminal_failed : ℕ → Entry → Stage → Log → Log
record_terminal_failed now e stage l =
    try_record (failed_record now e stage (suc l.next_id)) (append (failed_record now e stage) l)

-- `findLocked`
unfoldable pub find_locked : ℕ → List ActivityRecord → Option ActivityRecord
find_locked id [] = none
find_locked id (r ∷ rs) = if r.id == id then some r else find_locked id rs

-- a write through the pointer that `findLocked` returned
unfoldable pub put : ActivityRecord → List ActivityRecord → List ActivityRecord
put new [] = []
put new (r ∷ rs) = if r.id == new.id then new ∷ rs else r ∷ put new rs

-- The new record where the log has one of this id that is in the status `from`.
unfoldable pub marked : ℕ → Status → (ActivityRecord → ActivityRecord) → Log → Option ActivityRecord
marked id from f l = elim (find_locked id l.items) [
  | none ↦ none
  | some r ↦ if same_status r.status from then some (f r) else none
]

unfoldable pub write : Option ActivityRecord → Log → Log
write none l = l
write (some r) l = record l { items = put r l.items }

unfoldable pub write_terminal : Option ActivityRecord → Log → Log
write_terminal none l = l
write_terminal (some r) l = try_record r (record l { items = put r l.items })

unfoldable pub to_sending : ℕ → ActivityRecord → ActivityRecord
to_sending now r = record r {
  status = sending;
  started_at = some now;
  queue_ms = duration_ms r.created_at now;
}

unfoldable pub mark_sending : ℕ → ℕ → Log → Log
mark_sending now id l = write (marked id queued (to_sending now) l) l

unfoldable pub to_accepted : ℕ → ActivityRecord → ActivityRecord
to_accepted now r = record r {
  status = accepted;
  finished_at = some now;
  send_ms = elim r.started_at [ none ↦ r.send_ms | some t ↦ duration_ms t now ];
  failure_stage = none;
}

unfoldable pub mark_accepted : ℕ → ℕ → Log → Log
mark_accepted now id l = write_terminal (marked id sending (to_accepted now) l) l

unfoldable pub to_send_failed : ℕ → Stage → ActivityRecord → ActivityRecord
to_send_failed now stage r = record r {
  status = failed;
  finished_at = some now;
  failure_stage = some stage;
  send_ms = elim r.started_at [ none ↦ r.send_ms | some t ↦ duration_ms t now ];
}

unfoldable pub mark_send_failed : ℕ → ℕ → Stage → Log → Log
mark_send_failed now id stage l = write_terminal (marked id sending (to_send_failed now stage) l) l

unfoldable pub to_queued_failed : ℕ → Stage → ActivityRecord → ActivityRecord
to_queued_failed now stage r = record r {
  status = failed;
  finished_at = some now;
  failure_stage = some stage;
  started_at = none;
  queue_ms = none;
  send_ms = none;
}

unfoldable pub mark_queued_failed : ℕ → ℕ → Stage → Log → Log
mark_queued_failed now id stage l =
    write_terminal (marked id queued (to_queued_failed now stage) l) l

-- newest first
unfoldable pub snapshot_from : List ActivityRecord → List ActivityRecord → List ActivityRecord
snapshot_from out [] = out
snapshot_from out (r ∷ rs) = snapshot_from (r ∷ out) rs

abbrev pub snapshot : Log → List ActivityRecord
snapshot l = snapshot_from [] l.items

unfoldable pub clear : Log → Log
clear l = record l { items = [] }
