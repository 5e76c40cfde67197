-- ===== src/Coordinator/Run.antt =====
-- src/aiops_k8s_agents/mutual_supervision.py: `MutualSupervisionCoordinator.run`.
use aiops_research.Base.{
  ℤ, Bool, false, ◌&&◌, Option, none, some, List, [], ◌∷◌, map, length, Text, codes, Result, ok,
  err, ◌>>◌, text_eq, if◌then◌else◌,
}
use aiops_research.Floats.{Floats}
use aiops_research.Actions.{RecoveryAction}
use aiops_research.Executor.{ExecutionMode}
use aiops_research.Protocol.{ProfileError, ResearchProtocolProfile, validate_integrity}
use aiops_research.Coordinator.{
  SupervisionDecision, SemanticError, OutputError, action_semantic_error,
}
use aiops_research.Coordinator.Outputs.{
  Diagnosis, DiagnosisDecision, normalize_diagnosis_output, normalize_proposal_output,
}
use aiops_research.Coordinator.State.{
  RunError, unsound_profile, raised, World, FinalStatus, safe_stopped, no_action_required, NextStep,
  human_review_required, try_next_candidate, semantic, ReplanningAttempt, ConfigurationError,
  adapter_failed, not_validated, Report, Progress, empty_result, slice, attempt_limit, capable,
  required_capability_errors,
}
use aiops_research.Coordinator.Attempts.{Coordinator, base_report, attempts}

-- The names of the first capable adapter; a run without one has stopped before.
abbrev pub first_name : List Text → Text
first_name [] = []
first_name (t ∷ ts) = t

abbrev pub is_unknown : Text → Bool
is_unknown t = text_eq t (codes "unknown_metric")

-- The proposed actions that the protocol allows, and those that it does not.
abbrev pub sorted_out :
    RecoveryAction
    → Option SemanticError
    → List RecoveryAction × List (RecoveryAction × SemanticError)
    → List RecoveryAction × List (RecoveryAction × SemanticError)
sorted_out a none rest = (a ∷ rest.0, rest.1)
sorted_out a (some e) rest = (rest.0, (a, e) ∷ rest.1)

abbrev pub first_step : List RecoveryAction → NextStep
first_step [] = human_review_required
first_step (a ∷ bs) = try_next_candidate

abbrev pub start : ExecutionMode → List SupervisionDecision → List ReplanningAttempt → Progress
start mode decisions replans = record {
  decisions = decisions;
  reviews = [];
  rounds = [];
  post_reviews = [];
  executed = [];
  dispatched = [];
  replans = replans;
  last_action = none;
  last_validation = not_validated;
  last_execution = empty_result mode (codes "no action executed");
  last_assessment = none;
}

module _ (floats : Floats) (hash : ResearchProtocolProfile floats → Text) (c : Coordinator floats)
    (world : World) (namespace deployment : Text) where
  -- `_configuration_failure_report`
  unfoldable pub configuration_failure : List ConfigurationError → Report
  configuration_failure errors =
      record (base_report c.mode safe_stopped c.protocol.human_review_on_failure
        (start c.mode [] [])) {
          configuration_errors = errors;
          execution_result =
              empty_result c.mode (codes "required coordinator capability is unavailable");
        }

  unfoldable pub candidates_of :
      List RecoveryAction → List RecoveryAction × List (RecoveryAction × SemanticError)
  candidates_of [] = ([], [])
  candidates_of (a ∷ bs) =
      sorted_out a
        (action_semantic_error c.protocol.action_space world.evidence namespace deployment a)
        (candidates_of bs)

  abbrev pub refused_attempts :
      NextStep → List (RecoveryAction × SemanticError) → List ReplanningAttempt
  refused_attempts step rs =
      map
        (λ (r : RecoveryAction × SemanticError). record {
          failed_action = r.0.kind;
          reason = semantic r.1;
          next_step = step;
        })
        rs

  abbrev pub limit_of : List RecoveryAction → ℤ
  limit_of candidates = attempt_limit (length candidates) c.protocol.max_replan_attempts

  unfoldable pub try_candidates :
      Text
      → SupervisionDecision
      → List RecoveryAction × List (RecoveryAction × SemanticError)
      → Result RunError Report
  try_candidates proposer d (candidates, refused) =
      attempts floats hash c world namespace deployment proposer (limit_of candidates) 0
        (slice (limit_of candidates) candidates)
        (start c.mode (d ∷ []) (refused_attempts (first_step candidates) refused))

  abbrev pub stopped : SupervisionDecision → FinalStatus → Bool → Report
  stopped d status human = base_report c.mode status human (start c.mode (d ∷ []) [])

  unfoldable pub after_proposal :
      Text → SupervisionDecision → Result OutputError (List RecoveryAction) → Result RunError Report
  unfolding try_candidates
  after_proposal proposer d (err e) =
      ok (record (stopped d safe_stopped c.protocol.human_review_on_failure) {
        configuration_errors = adapter_failed proposer e ∷ [];
      })
  after_proposal proposer d (ok proposed) = try_candidates proposer d (candidates_of proposed)

  abbrev pub proposed_by : Text → Diagnosis → Result OutputError (List RecoveryAction)
  proposed_by proposer diagnosis = normalized (world.propose proposer diagnosis world.evidence)
    where
      normalized :
          Result OutputError (Option (List RecoveryAction))
          → Result OutputError (List RecoveryAction)
      normalized (err e) = err e
      normalized (ok o) = normalize_proposal_output o

  unfoldable pub after_diagnosis :
      Text → Result OutputError (Diagnosis × SupervisionDecision) → Result RunError Report
  unfolding after_proposal
  after_diagnosis diagnoser (err e) = ok (configuration_failure (adapter_failed diagnoser e ∷ []))
  after_diagnosis diagnoser (ok (diagnosis, d)) =
      let missing = is_unknown diagnosis.cause && diagnosis.missing_evidence in
      let proposer = first_name (capable (codes "propose") c.adapters) in
      if d.approved
      then after_proposal proposer d (proposed_by proposer diagnosis)
      else if missing
      then ok (stopped d safe_stopped c.protocol.human_review_on_failure)
      else ok (stopped d no_action_required false)

  abbrev pub diagnosed_by : Text → Result OutputError (Diagnosis × SupervisionDecision)
  diagnosed_by diagnoser = normalized (world.diagnose diagnoser world.evidence)
    where
      normalized :
          Result OutputError (Diagnosis × DiagnosisDecision)
          → Result OutputError (Diagnosis × SupervisionDecision)
      normalized (err e) = err e
      normalized (ok o) = normalize_diagnosis_output diagnoser deployment world.diagnosis_id o

  unfoldable pub after_collection : Option Text → Result RunError Report
  unfolding after_diagnosis
  after_collection (some message) = err (raised message [])
  after_collection none =
      let diagnoser = first_name (capable (codes "diagnose") c.adapters) in
      after_diagnosis diagnoser (diagnosed_by diagnoser)

  abbrev pub sound_profile : Result ProfileError (Unit {0}) → Result RunError (Unit {0})
  sound_profile (ok u) = ok u
  sound_profile (err e) = err (unsound_profile e)

  unfoldable pub with_capabilities : List ConfigurationError → Result RunError Report
  unfolding after_collection
  with_capabilities [] = after_collection world.uncollected
  with_capabilities (e ∷ es) = ok (configuration_failure (e ∷ es))

  -- The identity of the profile that the adapters get at the start of a run checks the profile first.
  unfoldable pub run : Result RunError Report
  unfolding with_capabilities validate_integrity
  run = do
    sound_profile (validate_integrity floats hash c.protocol)
    with_capabilities (required_capability_errors c.adapters)
