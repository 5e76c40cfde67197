-- ===== src/Runtime.antt =====
-- src/aiops_k8s_agents/experiment_runtime.py: the requests of `ExperimentRuntime`, the checks of
-- `_validate_request`, and the answers of the objects that the runtime calls.
pub mod Run
pub mod Balance
pub mod Cleanup
pub mod Safety
pub mod Preflight
use aiops_research.Base.{
  Bool, true, false, not, Option, none, some, List, [], ◌∷◌, Text, text_eq, contains_text, Result,
  ok, err, ◌>>=◌, ◌>>◌, raise_if, if◌then◌else◌,
}
use aiops_research.Floats.{Floats}
use aiops_research.Executor.{ExecutionMode}
use aiops_research.Jobs.Rows.{IncidentSource, chaos_mesh, aiopslab}

-- The exceptions, by the clauses that catch them, with their texts: `_BlockedRequest` and
-- `OperationLockError`, `RuntimeCancelled`, `TimeoutError` and `InterruptedError`, and others.
pub data Exn : Type 0 where
  blocked cancelled interrupted other : Text → Exn

abbrev pub same_source : IncidentSource → IncidentSource → Bool
same_source chaos_mesh chaos_mesh = true
same_source aiopslab aiopslab = true
same_source _ _ = false

-- What `chaos.preflight`, `chaos.inject` and `chaos.cleanup` return, as far as the runtime reads it.
pub record ChaosAnswer : Type 0 where
  pub valid : Bool
  pub stderr : Text

-- The report of the coordinator: its status, and whether its later stages hold anything.
pub record CoordinatorReport : Type 0 where
  pub final_status : Text
  pub human_review_required : Bool
  pub has_validation : Bool
  pub has_execution : Bool
  pub has_monitoring : Bool

module _ (floats : Floats) where
  open floats use {F, eqb}

  pub record RuntimeRequest : Type 0 where
    pub scenario_id : Text
    pub namespace : Text
    pub deployment : Text
    pub metric : Text
    pub threshold : F
    pub mode : ExecutionMode
    pub incident_source : IncidentSource
    pub benchmark_id : Text

  -- A registered scenario; a binding may be missing.
  pub record Scenario : Type 0 where
    pub manifest : Text
    pub incident_source : IncidentSource
    pub benchmark_id : Text
    pub namespace : Option Text
    pub deployment : Option Text
    pub metric : Option Text
    pub threshold : Option F

  pub record RuntimeConfiguration : Type 0 where
    pub allowed_namespaces : List Text
    pub allowed_deployments : List Text
    pub scenarios : List (Text × Scenario)
    pub metric_queries : List Text

  unfoldable pub scenario_of : Text → List (Text × Scenario) → Option Scenario
  scenario_of i [] = none
  scenario_of i ((k, s) ∷ ss) = if text_eq k i then some s else scenario_of i ss

  abbrev pub refused : Result Exn Unit
  refused = err (blocked [])

  -- `if test: raise _BlockedRequest`
  abbrev pub block_if : Bool → Result Exn Unit
  block_if test = raise_if test (blocked [])

  abbrev pub bound_text : Text → Option Text → Result Exn Unit
  bound_text actual none = refused
  bound_text actual (some expected) = block_if (not (text_eq actual expected))

  abbrev pub bound_float : F → Option F → Result Exn Unit
  bound_float actual none = refused
  bound_float actual (some expected) = block_if (not (eqb actual expected))

  -- The checks that follow the look-up of the scenario.
  unfoldable pub validate_scenario :
      RuntimeConfiguration → RuntimeRequest → Option Scenario → Result Exn Unit
  validate_scenario c r none = refused
  validate_scenario c r (some s) = do
    block_if (not (contains_text r.metric c.metric_queries))
    block_if (not (same_source r.incident_source s.incident_source))
    block_if (not (text_eq r.benchmark_id s.benchmark_id))
    bound_text r.namespace s.namespace
    bound_text r.deployment s.deployment
    bound_text r.metric s.metric
    bound_float r.threshold s.threshold

  unfoldable pub validate_request : RuntimeConfiguration → RuntimeRequest → Result Exn Unit
  unfolding validate_scenario scenario_of
  validate_request c r = do
    block_if (not (contains_text r.namespace c.allowed_namespaces))
    block_if (not (contains_text r.deployment c.allowed_deployments))
    validate_scenario c r (scenario_of r.scenario_id c.scenarios)
