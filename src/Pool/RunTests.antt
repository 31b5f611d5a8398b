-- ===== src/Pool/RunTests.antt =====
-- A run over one source whose result is the first one.
use vpn_subscription_managem.Base.{
  ◌≡◌, ◌≢◌, ◌↔◌, refl, [], ◌∷◌, codes, none, some, ok, Option, Text, List,
}
use vpn_subscription_managem.Pool.Pipeline.{mode_auto, typed_rule_text, ParseResult, profile_common}
use vpn_subscription_managem.Pool.Task.{succeeded, failed}
use vpn_subscription_managem.Pool.Snapshot.{SourceRow, SnapshotDb}
use vpn_subscription_managem.Pool.Run.{
  Visit, parsed, committed, judge_fetch, applied, store_fetch, stored_unless, sync_one, all_ok,
  any_ok, has_results, run_status, finish_interrupted, run_sources,
}
use vpn_subscription_managem.Pool.RunSuccess.{AllApplied}
use vpn_subscription_managem.Pool.RunApplied.{run_sources-AllApplied}

abbrev source : SourceRow
source = record { id = 7; pool_id = 3; source_mode = mode_auto; active = none; pending = none }

abbrev db : SnapshotDb
db = record {
  sources = source ∷ [];
  snapshots = [];
  canonicals = [];
  origins = [];
  next_snapshot = 1;
  next_canonical = 1;
}

abbrev result : ParseResult
result = record {
  format = typed_rule_text;
  profile = profile_common;
  rules = [];
  items = [];
  diagnostics = [];
  input = 10;
  recognized = 10;
  accepted = 10;
  excluded = 0;
  rejected = 0;
  duplicates = 0;
  rule_counts = [];
  unclassified_rejected = 0;
}

abbrev visit : Option Text → Visit
visit after = record {
  url = codes "https://example.org/a";
  source_id = 7;
  before = none;
  fetched = none;
  after = after;
  fetch = parsed (codes "") (ok result);
  commit = committed;
}

run_succeeds : (run_sources 3 (visit none ∷ []) [] db).status ≡ succeeded
unfolding run_sources sync_one stored_unless store_fetch judge_fetch applied finish_interrupted
    run_status all_ok any_ok has_results
run_succeeds = refl

run_cancelled : (run_sources 3 (visit (some (codes "cancel")) ∷ []) [] db).status ≡ failed
unfolding run_sources sync_one stored_unless store_fetch judge_fetch applied finish_interrupted
    run_status all_ok any_ok has_results
run_cancelled = refl

run_sources-AllApplied_example : ((run_sources 3 (visit none ∷ []) [] db).status ≡ succeeded) ↔ (
    AllApplied 3 (visit none ∷ []) db (run_sources 3 (visit none ∷ []) [] db).db
    × (◌≢◌ {A = List Visit} (visit none ∷ []) []))
run_sources-AllApplied_example = run_sources-AllApplied 3 (visit none ∷ []) db
