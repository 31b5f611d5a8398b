-- ===== src/Mail/Dispatcher/Events.antt =====
-- The workers and the life cycle of the dispatcher (mail/dispatcher.go): worker, process,
-- drainCanceled, PauseAndDrain, Resume, ResumeAfterClear, Stop.
use vpn_subscription_managem.Base.{
  ℕ, zero, suc, Bool, true, false, ◌||◌, ◌&&◌, not, List, [], ◌∷◌, ◌++◌, Option, none, some, ◌==◌,
  if◌then◌else◌,
}
use vpn_subscription_managem.Mail.Activity.{
  Log, Stage, canceled, internal, mark_sending, mark_accepted, mark_send_failed, mark_queued_failed,
  clear,
}
use vpn_subscription_managem.Mail.Dispatcher.{
  Dispatcher, Worker, Phase, waiting, draining, exited, received, starting, working, dropping, Job,
  free, pausing, stopping, Mail, Values, enqueue_prepared, reject_before_enqueue,
  reject_unavailable, is_none,
}

-- How `sendJob` ends.
pub data Outcome : Type 0 where
  sent panicked : Outcome
  send_error : Stage → Outcome

unfoldable pub worker_at : ℕ → List Worker → Option Worker
worker_at i [] = none
worker_at zero (w ∷ ws) = some w
worker_at (suc i) (w ∷ ws) = worker_at i ws

unfoldable pub set_phase : ℕ → Phase → List Worker → List Worker
set_phase i p [] = []
set_phase zero p (w ∷ ws) = record w { phase = p } ∷ ws
set_phase (suc i) p (w ∷ ws) = w ∷ set_phase i p ws

abbrev pub go_to : ℕ → Phase → Dispatcher → Dispatcher
go_to i p d = record d { workers = set_phase i p d.workers }

-- the log calls at the end of `process`
unfoldable pub finish_log : ℕ → ℕ → Bool → Outcome → Dispatcher → Dispatcher
finish_log now id ended sent d = record d { logs = mark_accepted now id d.logs }
finish_log now id ended panicked d = record d { logs = mark_send_failed now id internal d.logs }
finish_log now id ended (send_error stage) d = record d {
  logs = mark_send_failed now id (if ended then canceled else stage) d.logs;
}

abbrev pub drop_log : ℕ → ℕ → Dispatcher → Dispatcher
drop_log now id d = record d { logs = mark_queued_failed now id canceled d.logs }

abbrev pub is_empty : List Job → Bool
is_empty [] = true
is_empty (j ∷ js) = false

-- one receive: the job goes to the phase
unfoldable pub receive_from : ℕ → (Job → Phase) → List Job → Dispatcher → Dispatcher
receive_from i to [] d = d
receive_from i to (j ∷ js) d = go_to i (to j) (record d { queue = js })

-- What worker `i` of generation `g` does next; `done` tells which ready case of the `select` it
-- takes.
unfoldable pub work : ℕ → ℕ → Bool → Outcome → ℕ → Phase → Dispatcher → Dispatcher
work now i true outcome g waiting d = if d.cancelled g then go_to i draining d else d
work now i false outcome g waiting d = receive_from i received d.queue d
work now i done outcome g (received j) d =
    if d.cancelled g then go_to i draining (drop_log now j.log_id d) else go_to i (starting j) d
work now i done outcome g (starting j) d =
    go_to i (working j) (record d { logs = mark_sending now j.log_id d.logs })
work now i done outcome g (working j) d =
    go_to i waiting (finish_log now j.log_id (d.cancelled g) outcome d)
work now i done outcome g draining d =
    if is_empty d.queue then go_to i exited d else receive_from i dropping d.queue d
work now i done outcome g (dropping j) d = go_to i draining (drop_log now j.log_id d)
work now i done outcome g exited d = d

unfoldable pub has_exited : Phase → Bool
has_exited exited = true
has_exited _ = false

-- `gen.wg.Wait()` returns
unfoldable pub all_exited : Option ℕ → List Worker → Bool
all_exited none ws = true
all_exited (some g) [] = true
all_exited (some g) (w ∷ ws) =
    (not (w.generation == g) || has_exited w.phase) && all_exited (some g) ws

abbrev pub cancel : Option ℕ → (ℕ → Bool) → ℕ → Bool
cancel none c n = c n
cancel (some g) c n = n == g || c n

-- `startGenerationLocked`
unfoldable pub start_generation : Dispatcher → Dispatcher
start_generation d =
    let g = d.next_generation in
    let worker : Worker = record { generation = g; phase = waiting } in
    record d {
      generation = some g;
      next_generation = suc g;
      cancelled = λ n. not (n == g) && d.cancelled n;
      paused = false;
      workers = d.workers ++ worker ∷ worker ∷ [];
    }

unfoldable pub pause_begin : Dispatcher → Dispatcher
pause_begin d = if d.stopped then d else record d {
  paused = true;
  cancelled = cancel d.generation d.cancelled;
  life = pausing d.generation;
}

abbrev pub same_generation : Option ℕ → Option ℕ → Bool
same_generation none none = true
same_generation (some a) (some b) = a == b
same_generation _ _ = false

unfoldable pub pause_end : Option ℕ → Dispatcher → Dispatcher
pause_end g d =
    if all_exited g d.workers
    then record d {
      generation = if same_generation d.generation g then none else d.generation;
      life = free;
    }
    else d

unfoldable pub resume : Dispatcher → Dispatcher
resume d =
    if d.stopped
    then d
    else (if is_none d.generation then start_generation d else record d { paused = false })

unfoldable pub resume_after_clear : Dispatcher → Dispatcher
resume_after_clear d =
    if d.stopped
    then d
    else (if is_none d.generation then start_generation (record d { logs = clear d.logs }) else d)

unfoldable pub stop_begin : Dispatcher → Dispatcher
stop_begin d = if d.stopped then record d { life = stopping d.generation } else record d {
  stopped = true;
  paused = true;
  cancelled = cancel d.generation d.cancelled;
  generation = none;
  life = stopping d.generation;
}

unfoldable pub stop_end : Option ℕ → Dispatcher → Dispatcher
stop_end g d = if all_exited g d.workers then record d { life = free } else d

pub data Event : Type 0 where
  enqueue : ℕ → Mail → Values → Event
  refuse_config refuse_unavailable : ℕ → Mail → Event
  worker : ℕ → ℕ → Bool → Outcome → Event
  call_pause call_resume call_resume_after_clear call_stop return : Event

-- a call of the life cycle runs when `lifecycleMu` is free
abbrev pub when_free : (Dispatcher → Dispatcher) → Dispatcher → Dispatcher
when_free f d = elim d.life [ free ↦ f d | pausing g ↦ d | stopping g ↦ d ]

unfoldable pub step : Event → Dispatcher → Dispatcher
step (enqueue now m values) d = (enqueue_prepared now m values d).1
step (refuse_config now m) d = (reject_before_enqueue now m d).1
step (refuse_unavailable now m) d = (reject_unavailable now m d).1
step (worker now i done outcome) d = elim (worker_at i d.workers) [
  | none ↦ d
  | some w ↦ work now i done outcome w.generation w.phase d
]
step call_pause d = when_free pause_begin d
step call_resume d = when_free resume d
step call_resume_after_clear d = when_free resume_after_clear d
step call_stop d = when_free stop_begin d
step return d = elim d.life [ free ↦ d | pausing g ↦ pause_end g d | stopping g ↦ stop_end g d ]

unfoldable pub run : List Event → Dispatcher → Dispatcher
run [] d = d
run (e ∷ es) d = run es (step e d)

-- `newDispatcherWithTransport`: the first generation is started by `Resume`
unfoldable pub new_dispatcher : Log → Dispatcher
new_dispatcher l = resume (record {
  logs = l;
  queue = [];
  generation = none;
  next_generation = 0;
  cancelled = λ g. false;
  workers = [];
  paused = false;
  stopped = false;
  life = free;
})
