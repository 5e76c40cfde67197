-- ===== src/Jobs/Runner.antt =====
-- src/aiops_k8s_agents/experiment_job_runner.py: `_run_job`, the sink of its events and the mapping of
-- statuses. What the incident adapter, the runtime and the cancellation event do in an attempt is
-- an argument, a function of the attempt's number. What others write to the store in a run is left
-- out, the write of `cancel` included: the runs are those that nothing of the kind meets.
use aiops_research.Base.{
  ℕ, zero, suc, pos, Bool, true, false, Option, none, some, List, [], ◌∷◌, ◌++◌, map, Text, codes,
  contains_text, select, length, if◌then◌else◌,
}
use aiops_research.Python.Strip.{strip, lower}
use aiops_research.Json.{
  Json, string, number, object, array, Fields, end, fields, items, get_field, set_field,
}
use aiops_research.Jobs.Rows.{
  ExperimentJobStatus, running, completed, failed, blocked, cancelled, interrupted,
  ExperimentRuntimeRequest, IncidentSource, chaos_mesh, aiopslab, ExperimentJob, RuntimeEvent,
  Store, find,
}
use aiops_research.Jobs.Store.{transition, append_event, set_result}

abbrev completed_names : List Text
completed_names =
    codes "completed"
    ∷ codes "recovered"
    ∷ codes "recovered_after_replan"
    ∷ codes "no_action_required"
    ∷ codes "dry_run_validated"
    ∷ []

abbrev cancelled_names : List Text
cancelled_names = codes "cancelled" ∷ codes "cancelling" ∷ []

abbrev blocked_names : List Text
blocked_names =
    codes "blocked"
    ∷ codes "safe_failure"
    ∷ codes "safe_stopped"
    ∷ codes "consensus_rejected"
    ∷ codes "configuration_rejected"
    ∷ []

unfoldable pub classify : Text → ExperimentJobStatus
classify name =
    if contains_text name completed_names
    then completed
    else if contains_text name cancelled_names
    then cancelled
    else if contains_text name blocked_names
    then blocked
    else if contains_text name (codes "interrupted" ∷ [])
    then interrupted
    else failed

-- `_job_status`
unfoldable pub job_status : Text → ExperimentJobStatus
unfolding classify
job_status runtime_status = classify (lower (strip runtime_status))

abbrev pub status_value : ExperimentJobStatus → Text
status_value ExperimentJobStatus.queued = codes "queued"
status_value running = codes "running"
status_value ExperimentJobStatus.cancelling = codes "cancelling"
status_value completed = codes "completed"
status_value failed = codes "failed"
status_value blocked = codes "blocked"
status_value cancelled = codes "cancelled"
status_value interrupted = codes "interrupted"

-- `str(serialized.get("status", "failed"))`; the `str` of a value that is no text is the name of
-- no status, as `None` is none.
abbrev status_text : Option Json → Text
status_text none = codes "failed"
status_text (some (string t)) = t
status_text (some j) = codes "None"

unfoldable pub mapped_status : Fields → ExperimentJobStatus
unfolding job_status
mapped_status serialized = job_status (status_text (get_field (codes "status") serialized))

-- What the incident adapter answers: there is none, it raises, or it returns a detection.
pub data Prepared : Type 0 where
  unavailable : Prepared
  prepare_raised : Text → Prepared
  detected : Fields → Prepared

-- How the runtime ends: an exception with its text, or a serialized result.
pub data Outcome : Type 0 where
  raised : Text → Outcome
  returned : Fields → Outcome

pub record Attempt : Type 0 where
  -- Whether the cancellation is set at the head of the loop, and when an exception is caught.
  pub cancelled_before : Bool
  pub cancelled_at_raise : Bool
  pub prepared : Prepared
  pub outcome : Outcome
  -- The events that are emitted meanwhile, each with the time of its write.
  pub emitted : List (RuntimeEvent × Text)

-- The local variables of `_run_job`, and the sink's counter.
pub record Progress : Type 0 where
  pub status : ExperimentJobStatus
  pub attempts : List Fields
  pub error : Text
  pub sequence : ℕ

-- `_PersistentRuntimeEventSink.emit`: the event as it is persisted.
abbrev with_attempt : ℕ → RuntimeEvent → Json → Json
with_attempt attempt e (object fs) = object (
    set_field (codes "runtime_experiment_id") (string e.experiment_id)
      (set_field (codes "attempt") (number (pos attempt)) fs))
with_attempt attempt e j = j

abbrev pub persisted : Text → ℕ → ℕ → RuntimeEvent → RuntimeEvent
persisted i attempt sequence e = record e {
  experiment_id = i;
  sequence = sequence;
  payload = with_attempt attempt e e.payload;
}

-- The writes of a list of events; an error of a write is the runtime's to handle, and shows in its
-- outcome.
unfoldable pub emit_all : Text → ℕ → List (RuntimeEvent × Text) → ℕ → Store → ℕ × Store
unfolding append_event
emit_all i attempt [] n s = (n, s)
emit_all i attempt ((e, now) ∷ es) n s =
    emit_all i attempt es (suc n) (append_event (persisted i attempt (suc n) e) now s).1

-- An exception in the body of the loop.
abbrev pub caught : Attempt → Text → Progress → Progress
caught a message p = record p {
  status = if a.cancelled_at_raise then cancelled else failed;
  error = message;
}

-- The new value of `terminal_status`, and whether the loop goes on.
abbrev pub after_status : ExperimentJobStatus → ExperimentJobStatus → Bool × ExperimentJobStatus
after_status cancelled st = (false, cancelled)
after_status blocked st = (true, blocked)
after_status failed st = (true, failed)
after_status mapped st = (true, st)

abbrev pub with_detection : Fields → Fields → Fields
with_detection end serialized = serialized
with_detection detection serialized = set_field (codes "detection") (object detection) serialized

unfoldable pub finish_attempt : Attempt → Fields → Outcome → Progress → Bool × Progress
finish_attempt a detection (raised message) p = (false, caught a message p)
finish_attempt a detection (returned serialized) p =
    let s = with_detection detection serialized in
    let (go_on, st) = after_status (mapped_status s) p.status in
    (go_on, record p { status = st; attempts = p.attempts ++ s ∷ [] })

-- The body of the loop from the incident's source on.
unfoldable pub attempt_body : IncidentSource → Attempt → Prepared → Progress → Bool × Progress
unfolding finish_attempt
attempt_body chaos_mesh a prepared p = finish_attempt a end a.outcome p
attempt_body aiopslab a unavailable p =
    (false, caught a (codes "AIOpsLab incident adapter is unavailable") p)
attempt_body aiopslab a (prepare_raised message) p = (false, caught a message p)
attempt_body aiopslab a (detected detection) p = finish_attempt a detection a.outcome p

module _ (i : Text) (source : IncidentSource) (env : ℕ → Attempt) where
  -- One round: the events of the attempt are written, unless it is cancelled before it begins.
  unfoldable pub round : ℕ → Progress → Store → (Bool × Progress) × Store
  unfolding emit_all attempt_body
  round k p s =
      let a = env k in
      if a.cancelled_before
      then ((false, record p { status = cancelled }), s)
      else (let (n, s') = emit_all i k a.emitted p.sequence s in
          (attempt_body source a a.prepared (record p { sequence = n }), s'))

  -- The loop over the attempts `k`, `k + 1`, ...
  unfoldable pub attempt_loop : ℕ → ℕ → Progress → Store → Progress × Store
  attempt_loop zero k p s = (p, s)
  attempt_loop (suc left) k p s =
      let (r, s') = round k p s in
      let rest = attempt_loop left (suc k) r.1 s' in if r.0 then rest else (r.1, s')

abbrev is_completed : ExperimentJobStatus → Bool
is_completed completed = true
is_completed _ = false

abbrev is_failed_or_blocked : ExperimentJobStatus → Bool
is_failed_or_blocked failed = true
is_failed_or_blocked blocked = true
is_failed_or_blocked _ = false

abbrev count : (ExperimentJobStatus → Bool) → List Fields → ℕ
count test attempts = length (select (λ a. test (mapped_status a)) attempts)

-- The `finally` block: a cancellation that came after the last attempt still counts.
abbrev pub final_status : Bool → ExperimentJobStatus → ExperimentJobStatus
final_status true completed = cancelled
final_status cancelled_finally st = st

abbrev source_value : IncidentSource → Text
source_value chaos_mesh = codes "chaos_mesh"
source_value aiopslab = codes "aiopslab"

unfoldable pub aggregate :
    Text → ExperimentRuntimeRequest → ExperimentJobStatus → List Fields → Json
aggregate i request st attempts = object (
    fields (
      (codes "experiment_id", string i)
      ∷ (codes "status", string (status_value st))
      ∷ (codes "incident_source", string (source_value request.incident_source))
      ∷ (codes "benchmark_id", string request.benchmark_id)
      ∷ (codes "attempts", array (items (map object attempts)))
      ∷ (codes "successful_attempts", number (pos (count is_completed attempts)))
      ∷ (codes "failed_attempts", number (pos (count is_failed_or_blocked attempts)))
      ∷ []))

abbrev pub started_progress : Progress
started_progress = record { status = completed; attempts = []; error = []; sequence = 0 }

-- What `_run_job` does for the job that it read.
unfoldable pub run_found : Text → (ℕ → Attempt) → Bool → Text → Text → ExperimentJob → Store → Store
unfolding attempt_loop aggregate transition set_result
run_found i env cancelled_finally now later job s =
    let moved = (transition i running none none now s).1 in
    let (p, s') =
      attempt_loop i job.request.incident_source env job.request.repetitions 1 started_progress
        moved in
    let st = final_status cancelled_finally p.status in
    (set_result i st (aggregate i job.request st p.attempts) p.error later s').1

abbrev pub run_read :
    Text → (ℕ → Attempt) → Bool → Text → Text → Option ExperimentJob → Store → Store
run_read i env cancelled_finally now later none s = s
run_read i env cancelled_finally now later (some job) s =
    run_found i env cancelled_finally now later job s

-- `_run_job`, whose first write is at `now` and whose last is at `later`.
unfoldable pub run_job : Text → (ℕ → Attempt) → Bool → Text → Text → Store → Store
unfolding run_found
run_job i env cancelled_finally now later s =
    run_read i env cancelled_finally now later (find i s.jobs) s
