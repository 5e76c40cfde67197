-- ===== src/Jobs/Rows.antt =====
-- src/aiops_k8s_agents/experiment_jobs.py: the rows of the two tables of the job store, and reads and
-- writes of rows. The tables are lists in the order of their row ids.
use aiops_research.Base.{
  ℕ, Bool, true, false, not, Option, none, some, List, [], ◌∷◌, Text, codes, text_eq, Result, ok,
  err, if◌then◌else◌, select,
}
use aiops_research.Json.{Json}

pub data ExperimentJobStatus : Type 0 where
  queued running cancelling completed failed blocked cancelled interrupted : ExperimentJobStatus

abbrev pub terminal : ExperimentJobStatus → Bool
terminal queued = false
terminal running = false
terminal cancelling = false
terminal completed = true
terminal failed = true
terminal blocked = true
terminal cancelled = true
terminal interrupted = true

-- `RuntimeStage` of src/aiops_k8s_agents/experiment_runtime_models.py.
pub data RuntimeStage : Type 0 where
  queued preflight injecting_fault collecting_evidence agent_reasoning negotiating : RuntimeStage
  validating executing observing_recovery analyzing cleanup completed : RuntimeStage

abbrev pub stage_value : RuntimeStage → Text
stage_value RuntimeStage.queued = codes "queued"
stage_value preflight = codes "preflight"
stage_value injecting_fault = codes "injecting_fault"
stage_value collecting_evidence = codes "collecting_evidence"
stage_value agent_reasoning = codes "agent_reasoning"
stage_value negotiating = codes "negotiating"
stage_value validating = codes "validating"
stage_value executing = codes "executing"
stage_value observing_recovery = codes "observing_recovery"
stage_value analyzing = codes "analyzing"
stage_value cleanup = codes "cleanup"
stage_value RuntimeStage.completed = codes "completed"

-- Where an incident comes from.
pub data IncidentSource : Type 0 where
  chaos_mesh aiopslab : IncidentSource

-- The fields of a request that the jobs' code reads, and the JSON value of the other ones.
pub record ExperimentRuntimeRequest : Type 0 where
  pub repetitions : ℕ
  pub incident_source : IncidentSource
  pub benchmark_id : Text
  pub detection_context : Json
  pub settings : Json

pub record RuntimeEvent : Type 0 where
  pub experiment_id : Text
  pub sequence : ℕ
  pub stage : RuntimeStage
  pub status : Text
  pub message : Text
  pub created_at : Text
  pub payload : Json

-- A row of the table of jobs.
pub record ExperimentJob : Type 0 where
  pub experiment_id : Text
  pub request : ExperimentRuntimeRequest
  pub status : ExperimentJobStatus
  pub current_stage : Text
  pub created_at : Text
  pub updated_at : Text
  pub started_at : Option Text
  pub finished_at : Option Text
  pub cancel_requested : Bool
  pub result : Option Json
  pub error : Text

pub record Store : Type 0 where
  pub jobs : List (ExperimentJob)
  pub events : List (RuntimeEvent)

pub data JobError : Type 0 where
  empty_id already_exists not_found bad_limit event_exists bad_sequence : JobError
  result_not_terminal delete_not_terminal : JobError

-- `current_stage or existing`, and `experiment_id or fresh`.
abbrev pub or_else : Option Text → Text → Text
or_else (some (c ∷ t)) d = c ∷ t
or_else (some []) d = d
or_else none d = d

abbrev pub or_keep : {A : Type 0} → Option A → A → A
or_keep none d = d
or_keep (some a) d = a

abbrev pub Action : Type 0 → Type 0
Action A = Store → Result JobError A × Store

-- The rest of a method, where its first part returned.
abbrev pub continued :
    {A B : Type 0} → (A → Action B) → Result JobError A → Store → Result JobError B × Store
continued next (err e) s = (err e, s)
continued next (ok a) s = next a s

infixl 5 ◌>>=◌ ◌>>◌
abbrev pub ◌>>=◌ : {A B : Type 0} → Action A → (A → Action B) → Action B
◌>>=◌ first next s = continued next (first s).0 (first s).1

abbrev pub ◌>>◌ : {A B : Type 0} → Action A → Action B → Action B
◌>>◌ first next s = continued (λ _. next) (first s).0 (first s).1

abbrev pub raise_if : Bool → JobError → Action Unit
raise_if test e s = (if test then err e else ok tt, s)

abbrev pub return : {A : Type 0} → A → Action A
return a s = (ok a, s)

abbrev pub modify_jobs : (List ExperimentJob → List ExperimentJob) → Action Unit
modify_jobs f s = (ok tt, record s { jobs = f s.jobs })

unfoldable pub find : Text → List ExperimentJob → Option ExperimentJob
find i [] = none
find i (j ∷ js) = if text_eq j.experiment_id i then some j else find i js

-- `UPDATE ... WHERE experiment_id = i`
unfoldable pub update :
    Text → (ExperimentJob → ExperimentJob) → List ExperimentJob → List ExperimentJob
update i f [] = []
update i f (j ∷ js) = (if text_eq j.experiment_id i then f j else j) ∷ update i f js

-- `DELETE ... WHERE experiment_id = i`
abbrev pub remove : Text → List ExperimentJob → List ExperimentJob
remove i = select (λ j. not (text_eq j.experiment_id i))

abbrev pub is_found : Option ExperimentJob → Bool
is_found none = false
is_found (some j) = true

abbrev pub or_missing : Option ExperimentJob → Action ExperimentJob
or_missing none s = (err not_found, s)
or_missing (some j) s = (ok j, s)

unfoldable pub get : Text → Action (Option ExperimentJob)
get i s = (ok (find i s.jobs), s)

unfoldable pub required : Text → Action ExperimentJob
unfolding get
required i s = or_missing (find i s.jobs) s
