-- ===== src/Examples/Runs.antt =====
-- A store with one job, and a run of it (src/aiops_k8s_agents/experiment_jobs.py and
-- src/aiops_k8s_agents/experiment_job_runner.py).
use aiops_research.Base.{
  ℕ, zero, suc, pos, ◌≡◌, refl, ◌≢◌, ◌↔◌, true, false, none, some, [], ◌∷◌, Text, codes, text_eq,
}
use aiops_research.Json.{string, number, Fields, fields}
use aiops_research.Jobs.Rows.{
  cancelling, completed, terminal, RuntimeStage, ExperimentRuntimeRequest, chaos_mesh, RuntimeEvent,
  ExperimentJob, Store, find,
}
use aiops_research.Jobs.Store.{new_job, has_event, cancel_found, set_result}
use aiops_research.Jobs.Invariant.{IsValid, add_event, perform, perform-IsValid}
use aiops_research.Jobs.Runner.{Attempt, unavailable, returned, run_job, mapped_status}
use aiops_research.Jobs.Ending.{run_job_ends}
use aiops_research.Jobs.Race.{request_cancel_race}
use aiops_research.Jobs.Verdict.{AllFrom, Passes, run_job_completed_iff}

abbrev job_id : Text
job_id = codes "exp-1"

abbrev request : ExperimentRuntimeRequest
request = record {
  repetitions = 2;
  incident_source = chaos_mesh;
  benchmark_id = codes "b";
  detection_context = number (pos 0);
  settings = number (pos 0);
}

abbrev job : ExperimentJob
job = new_job job_id request (codes "t0")

abbrev event : RuntimeEvent
event = record {
  experiment_id = job_id;
  sequence = 1;
  stage = RuntimeStage.executing;
  status = codes "ok";
  message = [];
  created_at = codes "t1";
  payload = number (pos 0);
}

abbrev store : Store
store = record { jobs = job ∷ []; events = event ∷ [] }

store-IsValid : IsValid store
unfolding find text_eq has_event
store-IsValid = record {
  unique = (refl, tt);
  sound = (record { finished = λ t. cc; begun = λ t. cc; answered = λ r. absurd (r refl) }, tt);
  linked = (refl, tt);
  distinct = (refl, tt);
}

job_is_found : find job_id store.jobs ≡ some job
unfolding find text_eq
job_is_found = refl

perform-IsValid_example :
    IsValid (perform (add_event (record event { sequence = 2 }) (codes "t2")) store)
perform-IsValid_example =
    perform-IsValid (add_event (record event { sequence = 2 }) (codes "t2")) store store-IsValid

-- A first attempt that is interrupted, and others that recover.
abbrev result_of : ℕ → Fields
result_of (suc zero) = fields ((codes "status", string (codes "interrupted")) ∷ [])
result_of k = fields ((codes "status", string (codes "recovered")) ∷ [])

abbrev attempts : ℕ → Attempt
attempts k = record {
  cancelled_before = false;
  cancelled_at_raise = false;
  prepared = unavailable;
  outcome = returned (result_of k);
  emitted = (event, codes "t2") ∷ [];
}

run_job_ends_example :
    IsValid (run_job job_id attempts true (codes "t2") (codes "t3") store)
    × ((j : ExperimentJob) × (find job_id
            (run_job job_id attempts true (codes "t2") (codes "t3") store).jobs
          ≡ some j)
        × (terminal j.status ≡ true)
        × (j.result ≢ none)
        × (j.finished_at ≡ some (codes "t3")))
run_job_ends_example =
    run_job_ends job_id attempts true (codes "t2") (codes "t3") store store-IsValid
      (rw job_is_found refl)

run_job_completed_iff_example :
    (j : ExperimentJob) × (find job_id
        (run_job job_id attempts false (codes "t2") (codes "t3") store).jobs
      ≡ some j)
    × ((j.status ≡ completed) ↔ AllFrom 2 1 (λ m. Passes (mapped_status (result_of m))))
run_job_completed_iff_example =
    run_job_completed_iff job_id attempts result_of (codes "t2") (codes "t3") store job
      store-IsValid job_is_found refl (λ k. (refl, refl))

request_cancel_race_example :
    (j : ExperimentJob) × (find job_id
        (cancel_found job job_id
          (codes "t2")
          (set_result job_id completed (number (pos 1)) [] (codes "t1") store).1).1.jobs
      ≡ some j)
    × (j.status ≡ cancelling)
    × (j.result ≡ some (number (pos 1)))
    × (j.finished_at ≡ some (codes "t1"))
request_cancel_race_example =
    request_cancel_race job_id (codes "t1") (codes "t2") store job completed (number (pos 1)) []
      job_is_found refl refl
