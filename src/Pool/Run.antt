-- ===== src/Pool/Run.antt =====
-- One run of a synchronisation task over the sources of its pool (pool/sync.go: runSyncTask, syncOne,
-- failSourceWithError, parseFailureReason). What a download comes to and whether a transaction ends
-- are arguments, and so is the cause that the context of the task has at each place that asks. An
-- error stays a value: SanitizeTaskError and its suffix print it.
use vpn_subscription_managem.Base.{
  ℕ, Bool, true, false, ◌&&◌, ◌||◌, List, [], ◌∷◌, ◌++◌, Text, codes, Option, none, some,
  if◌then◌else◌, Result, ok, err,
}
use vpn_subscription_managem.Pool.Pipeline.{
  ParseResult, ParseError, unrecognized_source, ambiguous_source_format,
  conflicting_document_format, mixed_platform_source, html_source, no_accepted_rules,
  threshold_not_met,
}
use vpn_subscription_managem.Pool.Task.{SyncStatus, succeeded, failed, partial}
use vpn_subscription_managem.Pool.Snapshot.{
  SnapshotDb, apply_parse_result, format_text, profile_text,
}
use vpn_subscription_managem.Pool.Review.{ReviewError, record_failed_snapshot}

-- `parseFailureReason`
unfoldable pub parse_failure_reason : ParseError → Text
parse_failure_reason unrecognized_source = codes "unrecognized_source"
parse_failure_reason ambiguous_source_format = codes "ambiguous_format"
parse_failure_reason conflicting_document_format = codes "conflicting_format"
parse_failure_reason mixed_platform_source = codes "mixed_platform"
parse_failure_reason html_source = codes "html_source"
parse_failure_reason no_accepted_rules = codes "no_accepted_rules"
parse_failure_reason threshold_not_met = codes "recognition_threshold_not_met"

-- What the download of a source comes to; the texts are those of the errors.
pub data Fetch : Type 0 where
  request_invalid network_error body_read_error : Text → Fetch
  http_status_error : ℕ → Fetch
  body_too_large : Fetch
  parsed : Text → Result ParseError ParseResult → Fetch

-- `sourceFailure`; the status of a response is the message of its own.
pub data SourceMessage : Type 0 where
  error_message : Text → SourceMessage
  http_message : ℕ → SourceMessage

pub record SourceFailure : Type 0 where
  pub reason : Text
  pub message : SourceMessage

unfoldable pub judge_fetch : Fetch → Result SourceFailure ParseResult
judge_fetch (request_invalid m) =
    err (record { reason = codes "request_invalid"; message = error_message m })
judge_fetch (network_error m) =
    err (record { reason = codes "network_error"; message = error_message m })
judge_fetch (http_status_error n) =
    err (record { reason = codes "http_status_error"; message = http_message n })
judge_fetch (body_read_error m) =
    err (record { reason = codes "body_read_error"; message = error_message m })
judge_fetch body_too_large =
    err (record { reason = codes "body_too_large"; message = error_message (codes "内容超过 50MB") })
judge_fetch (parsed m (err e)) =
    err (record { reason = parse_failure_reason e; message = error_message m })
judge_fetch (parsed m (ok res)) = ok res

-- How the transaction at the end of a source ends.
pub data Commit : Type 0 where
  committed : Commit
  not_run not_committed : Text → Commit

-- A source in the run: the cause before it, behind its download, and after it.
pub record Visit : Type 0 where
  pub url : Text
  pub source_id : ℕ
  pub before : Option Text
  pub fetched : Option Text
  pub after : Option Text
  pub fetch : Fetch
  pub commit : Commit

pub data UrlError : Type 0 where
  interrupted not_stored : Text → UrlError
  source_failed source_failed_unsaved : SourceMessage → UrlError

pub record PerUrlResult : Type 0 where
  pub url : Text
  pub source_id : ℕ
  pub is_ok : Bool
  pub format : Text
  pub profile : Text
  pub accepted : ℕ
  pub excluded : ℕ
  pub rejected : ℕ
  pub duplicates : ℕ
  pub has_pending : Bool
  pub error : Option UrlError

abbrev pub failed_url : Visit → UrlError → PerUrlResult
failed_url v e = record {
  url = v.url;
  source_id = v.source_id;
  is_ok = false;
  format = [];
  profile = [];
  accepted = 0;
  excluded = 0;
  rejected = 0;
  duplicates = 0;
  has_pending = false;
  error = some e;
}

abbrev pub parsed_url : Visit → ParseResult → Bool → Bool → Option UrlError → PerUrlResult
parsed_url v res is_ok pending e = record {
  url = v.url;
  source_id = v.source_id;
  is_ok = is_ok;
  format = format_text res.format;
  profile = profile_text res.profile;
  accepted = res.accepted;
  excluded = res.excluded;
  rejected = res.rejected;
  duplicates = res.duplicates;
  has_pending = pending;
  error = e;
}

unfoldable pub noted :
    Visit
    → SourceMessage
    → Commit
    → Result ReviewError (Unit {0}) × SnapshotDb
    → SnapshotDb
    → PerUrlResult × SnapshotDb
noted v m committed (ok u, next) d = (failed_url v (source_failed m), next)
noted v m committed (err e, next) d = (failed_url v (source_failed_unsaved m), d)
noted v m (not_run e) r d = (failed_url v (source_failed_unsaved m), d)
noted v m (not_committed e) r d = (failed_url v (source_failed_unsaved m), d)

-- `failSourceWithError`, behind its check of the cause
unfoldable pub fail_source : Visit → SourceFailure → SnapshotDb → PerUrlResult × SnapshotDb
fail_source v f d = noted v f.message v.commit (record_failed_snapshot v.source_id f.reason d) d

unfoldable pub applied :
    Visit → ParseResult → Commit → (ℕ × Bool) × SnapshotDb → SnapshotDb → PerUrlResult × SnapshotDb
applied v res committed ((id, pending), next) d = (parsed_url v res true pending none, next)
applied v res (not_run e) r d = (parsed_url v res false false (some (not_stored e)), d)
applied v res (not_committed e) ((id, pending), next) d =
    (parsed_url v res false pending (some (not_stored e)), d)

unfoldable pub store_fetch :
    ℕ → Visit → Result SourceFailure ParseResult → SnapshotDb → PerUrlResult × SnapshotDb
store_fetch pool v (err failure) d = fail_source v failure d
store_fetch pool v (ok res) d = applied v res v.commit (apply_parse_result pool v.source_id res d) d

unfoldable pub stored_unless : ℕ → Visit → Option Text → SnapshotDb → PerUrlResult × SnapshotDb
stored_unless pool v (some cause) d = (failed_url v (interrupted cause), d)
stored_unless pool v none d = store_fetch pool v (judge_fetch v.fetch) d

-- `syncOne`: a cause behind the download leaves the database.
unfoldable pub sync_one : ℕ → Visit → SnapshotDb → PerUrlResult × SnapshotDb
sync_one pool v d = stored_unless pool v v.fetched d

unfoldable pub all_ok : List PerUrlResult → Bool
all_ok [] = true
all_ok (r ∷ rs) = r.is_ok && all_ok rs

unfoldable pub any_ok : List PerUrlResult → Bool
any_ok [] = false
any_ok (r ∷ rs) = r.is_ok || any_ok rs

unfoldable pub has_results : List PerUrlResult → Bool
has_results [] = false
has_results (r ∷ rs) = true

unfoldable pub run_status : List PerUrlResult → SyncStatus
run_status rs =
    if all_ok rs && has_results rs then succeeded else if any_ok rs then partial else failed

-- What `finishTask` is called with, and the database that it finds.
pub record RunEnd : Type 0 where
  pub status : SyncStatus
  pub cause : Option Text
  pub results : List PerUrlResult
  pub db : SnapshotDb

-- `finishInterrupted`, with the rest of the run
unfoldable pub finish_interrupted : Option Text → List PerUrlResult → SnapshotDb → RunEnd → RunEnd
finish_interrupted none rs d rest = rest
finish_interrupted (some cause) rs d rest = record {
  status = failed;
  cause = some cause;
  results = rs;
  db = d;
}

-- The loop of `runSyncTask` and its end, with the results so far.
unfoldable pub run_sources : ℕ → List Visit → List PerUrlResult → SnapshotDb → RunEnd
run_sources pool [] rs d = record { status = run_status rs; cause = none; results = rs; db = d }
run_sources pool (v ∷ vs) rs d =
    let (r, next) = sync_one pool v d in
    let rest = run_sources pool vs (rs ++ r ∷ []) next in
    finish_interrupted v.before rs d (finish_interrupted v.after (rs ++ r ∷ []) next rest)
