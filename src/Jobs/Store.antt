-- ===== src/Jobs/Store.antt =====
-- src/aiops_k8s_agents/experiment_jobs.py: the operations of `SQLiteExperimentJobStore`. The time of
-- a call is its argument `now`.
use aiops_research.Base.{
  ℕ, zero, suc, ℤ, pos, negsuc, leb, Bool, true, false, not, ◌&&◌, Option, none, some, List, [],
  ◌∷◌, ◌++◌, map, Text, codes, text_eq, Result, ok, err, ◌==◌, ltb, if◌then◌else◌, any, select,
}
use aiops_research.Python.Strip.{strip}
use aiops_research.Json.{Json}
use aiops_research.Jobs.Rows.{
  ExperimentJobStatus, terminal, RuntimeStage, stage_value, ExperimentRuntimeRequest, RuntimeEvent,
  ExperimentJob, JobError, or_else, or_keep, Action, ◌>>=◌, ◌>>◌, raise_if, return, modify_jobs,
  find, update, remove, is_found, required, running, cleanup, empty_id, already_exists, bad_limit,
  event_exists, bad_sequence, result_not_terminal, delete_not_terminal,
}

abbrev pub new_job : Text → ExperimentRuntimeRequest → Text → ExperimentJob
new_job i request now = record {
  experiment_id = i;
  request = request;
  status = ExperimentJobStatus.queued;
  current_stage = stage_value RuntimeStage.queued;
  created_at = now;
  updated_at = now;
  started_at = none;
  finished_at = none;
  cancel_requested = false;
  result = none;
  error = [];
}

-- `create` from the test that the id is not empty.
unfoldable pub create_with : ExperimentRuntimeRequest → Text → Text → Action ExperimentJob
unfolding required
create_with request now [] s = (err empty_id, s)
create_with request now (c ∷ t) s =
    (do
      raise_if (is_found (find (c ∷ t) s.jobs)) already_exists
      modify_jobs (λ js. js ++ new_job (c ∷ t) request now ∷ [])
      required (c ∷ t))
      s

-- `fresh` is the generated id that serves when none is given.
unfoldable pub create : ExperimentRuntimeRequest → Option Text → Text → Text → Action ExperimentJob
unfolding create_with
create request given fresh now = create_with request now (strip (or_else given fresh))

unfoldable pub take_rows : ℕ → List ExperimentJob → List ExperimentJob
take_rows zero js = []
take_rows (suc n) [] = []
take_rows (suc n) (j ∷ js) = j ∷ take_rows n js

-- `ORDER BY rowid DESC LIMIT n`
unfoldable pub latest : List ExperimentJob → List ExperimentJob → List ExperimentJob
latest [] acc = acc
latest (j ∷ js) acc = latest js (j ∷ acc)

abbrev pub listed : ℤ → List ExperimentJob → Result JobError (List ExperimentJob)
listed (pos zero) js = err bad_limit
listed (pos (suc n)) js = ok (take_rows (suc n) (latest js []))
listed (negsuc n) js = err bad_limit

unfoldable pub list_jobs : ℤ → Action (List ExperimentJob)
unfolding latest take_rows
list_jobs limit s = (listed limit s.jobs, s)

abbrev pub is_running_status : ExperimentJobStatus → Bool
is_running_status running = true
is_running_status _ = false

-- `started_at` is set by the first move to `running`.
abbrev pub started : ExperimentJobStatus → Option Text → Text → Option Text
started st none now = if is_running_status st then some now else none
started st (some t) now = some t

abbrev pub moved :
    ExperimentJob
    → ExperimentJobStatus
    → Option Text
    → Option Text
    → Text
    → ExperimentJob
    → ExperimentJob
moved existing st stage error now j = record j {
  status = st;
  current_stage = or_else stage existing.current_stage;
  updated_at = now;
  started_at = started st existing.started_at now;
  finished_at = if terminal st then some now else existing.finished_at;
  error = or_keep error existing.error;
}

unfoldable pub transition :
    Text → ExperimentJobStatus → Option Text → Option Text → Text → Action ExperimentJob
unfolding update required
transition i st stage error now = do
  existing ← required i
  modify_jobs (update i (moved existing st stage error now))
  required i

abbrev pub is_same_event : Text → ℕ → RuntimeEvent → Bool
is_same_event i n e = text_eq e.experiment_id i && e.sequence == n

unfoldable pub has_event : Text → ℕ → List RuntimeEvent → Bool
has_event i n es = any (is_same_event i n) es

abbrev pub staged : RuntimeEvent → Text → ExperimentJob → ExperimentJob
staged e now j = record j { current_stage = stage_value e.stage; updated_at = now }

unfoldable pub append_event : RuntimeEvent → Text → Action RuntimeEvent
unfolding update required has_event
append_event e now s =
    (do
      required e.experiment_id
      raise_if (has_event e.experiment_id e.sequence s.events) event_exists
      (λ s'. (ok tt, record s' { events = s'.events ++ e ∷ [] }))
      modify_jobs (update e.experiment_id (staged e now))
      return e)
      s

-- `ORDER BY sequence ASC`
unfoldable pub insert_event : RuntimeEvent → List RuntimeEvent → List RuntimeEvent
insert_event e [] = e ∷ []
insert_event e (f ∷ fs) = if leb e.sequence f.sequence then e ∷ f ∷ fs else f ∷ insert_event e fs

unfoldable pub sort_events : List RuntimeEvent → List RuntimeEvent
unfolding insert_event
sort_events [] = []
sort_events (e ∷ es) = insert_event e (sort_events es)

abbrev pub is_after : Text → ℕ → RuntimeEvent → Bool
is_after i n e = text_eq e.experiment_id i && ltb n e.sequence

abbrev pub selected : Text → ℤ → List RuntimeEvent → Result JobError (List RuntimeEvent)
selected i (pos n) es = ok (sort_events (select (is_after i n) es))
selected i (negsuc n) es = err bad_sequence

unfoldable pub events_after : Text → ℤ → Action (List RuntimeEvent)
unfolding required sort_events
events_after i sequence = do required i; λ s. (selected i sequence s.events, s)

abbrev pub answer : ExperimentJobStatus → Json → Text → Text → ExperimentJob → ExperimentJob
answer st result error now j = record j {
  status = st;
  current_stage = stage_value RuntimeStage.completed;
  updated_at = now;
  finished_at = some now;
  result = some result;
  error = error;
}

unfoldable pub set_result : Text → ExperimentJobStatus → Json → Text → Text → Action ExperimentJob
unfolding update required
set_result i st result error now = do
  raise_if (not (terminal st)) result_not_terminal
  required i
  modify_jobs (update i (answer st result error now))
  required i

abbrev pub cancelled_row : Text → ExperimentJob → ExperimentJob
cancelled_row now j = record j {
  status = ExperimentJobStatus.cancelling;
  updated_at = now;
  cancel_requested = true;
}

-- The write of `request_cancel`, which stands in a transaction of its own.
unfoldable pub cancel_write : Text → Text → List ExperimentJob → List ExperimentJob
unfolding update
cancel_write i now = update i (cancelled_row now)

-- What `request_cancel` does after its read, which found `existing`.
unfoldable pub cancel_found : ExperimentJob → Text → Text → Action ExperimentJob
unfolding cancel_write required
cancel_found existing i now =
    if terminal existing.status
    then return existing
    else (modify_jobs (cancel_write i now) >> required i)

unfoldable pub request_cancel : Text → Text → Action ExperimentJob
unfolding cancel_found required
request_cancel i now = do existing ← required i; cancel_found existing i now

-- `ON DELETE CASCADE` deletes the events of the job.
unfoldable pub delete : Text → Action ExperimentJob
unfolding required
delete i = do
  existing ← required i
  raise_if (not (terminal existing.status)) delete_not_terminal
  λ s. (
    ok tt,
    record {
      jobs = remove i s.jobs;
      events = select (λ e. not (text_eq e.experiment_id i)) s.events;
    },
  )
  return existing

abbrev pub stopped_row : Text → ExperimentJob → ExperimentJob
stopped_row now j = record j {
  status = ExperimentJobStatus.interrupted;
  current_stage = stage_value cleanup;
  updated_at = now;
  finished_at = some now;
  error = codes "server restarted while the experiment was nonterminal";
}

abbrev pub interrupted_job : Text → ExperimentJob → ExperimentJob
interrupted_job now j = if terminal j.status then j else stopped_row now j

unfoldable pub interrupt_nonterminal_jobs : Text → Action (List Text)
interrupt_nonterminal_jobs now s = (
  ok (map (λ j. j.experiment_id) (select (λ j. not (terminal j.status)) s.jobs)),
  record s { jobs = map (interrupted_job now) s.jobs },
)
