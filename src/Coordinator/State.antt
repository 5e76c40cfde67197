-- ===== src/Coordinator/State.antt =====
-- src/aiops_k8s_agents/mutual_supervision.py: the state and the report of the run. The cluster, the agents and
-- the lock are a world of answers; the number of the attempt tells the calls of a run apart. The event store,
-- the runtime control and the `begin_run` of the adapters are left out: the run is one in which none of them raises.
use aiops_research.Base.{
  ℕ, zero, suc, ℤ, pos, negsuc, ltb_ℤ, ltb, ◌-◌, Bool, true, false, Option, none, some, List, [],
  ◌∷◌, ◌++◌, length, ◌==◌, Text, codes, contains_text, Result, ok, err, ◌>>=◌, if◌then◌else◌,
}
use aiops_research.Actions.{RecoveryActionKind, RecoveryAction, CommandResult}
use aiops_research.Validator.{
  Error, CommandValidator, validate_recovery_action, render_recovery_command,
}
use aiops_research.Executor.{ExecutionMode, mock, dry_run, real, mode_value}
use aiops_research.Protocol.{ProfileError}
use aiops_research.Consensus.{PeerReview}
use aiops_research.Monitor.{EvidenceSnapshot, RecoveryAssessment, Problem}
use aiops_research.Coordinator.{SupervisionDecision, SemanticError, OutputError}
use aiops_research.Coordinator.Outputs.{Diagnosis, DiagnosisDecision, PostExecutionReview}
use aiops_research.Coordinator.Negotiation.{AgentAdapter, NegotiationRound, Failure, Reviewers}

-- The exceptions that leave `run`: the refusal of a profile, or one of the evidence provider, the executor or the
-- monitor, with the actions that the executor had been given before it.
pub data RunError : Type 0 where
  unsound_profile : ProfileError → RunError
  raised : Text → List RecoveryAction → RunError

-- What the run asks of its agents, of the cluster and of the lock.
pub record World : Type 0 where
  pub agents : Reviewers
  pub diagnosis_id : Text
  pub diagnose : Text → EvidenceSnapshot → Result OutputError (Diagnosis × DiagnosisDecision)
  pub propose :
      Text → Diagnosis → EvidenceSnapshot → Result OutputError (Option (List RecoveryAction))
  pub post_review :
      ℕ
      → Text
      → RecoveryAction
      → RecoveryAssessment
      → EvidenceSnapshot
      → Result OutputError (Option PostExecutionReview)
  -- What the first collection of evidence raises, if it does; else the evidence is what it returns.
  pub uncollected : Option Text
  pub evidence : EvidenceSnapshot
  -- The evidence after each attempt, and what the executor and the monitor answer or raise.
  pub after : ℕ → Result Text EvidenceSnapshot
  -- Whether the target lock of an attempt is taken.
  pub locks : ℕ → Bool
  pub execute : ℕ → RecoveryAction → Result Text CommandResult
  pub assess :
      ℕ
      → RecoveryAction
      → EvidenceSnapshot
      → EvidenceSnapshot
      → CommandResult
      → Result Text RecoveryAssessment

pub data FinalStatus : Type 0 where
  safe_stopped no_action_required dry_run_validated safe_failure recovered recovered_after_replan :
      FinalStatus

pub data NextStep : Type 0 where
  human_review_required try_next_candidate : NextStep

pub data ReplanReason : Type 0 where
  semantic : SemanticError → ReplanReason
  remaining : Problem → ReplanReason
  stderr : Text → ReplanReason
  dry_run_failed reviews_rejected : ReplanReason

pub record ReplanningAttempt : Type 0 where
  pub failed_action : RecoveryActionKind
  pub reason : ReplanReason
  pub next_step : NextStep

-- An entry of `configuration_errors`.
pub data ConfigurationError : Type 0 where
  wrong_adapter_count : Text → ℕ → ConfigurationError
  adapter_failed : Text → OutputError → ConfigurationError
  negotiation_failed : Failure → ConfigurationError

-- `safety_validation`: the command, or why there is none.
pub data Validation : Type 0 where
  not_validated : Validation
  valid_command : Text → Validation
  invalid_command : Error → Validation
  semantic_failure : SemanticError → Validation

-- The report; `dispatched` are the actions of the dispatch events, that is those given to the executor.
pub record Report : Type 0 where
  pub final_status : FinalStatus
  pub human_review_required : Bool
  pub valid : Bool
  pub configuration_errors : List ConfigurationError
  pub initial_decisions : List SupervisionDecision
  pub peer_reviews : List PeerReview
  pub rounds : List NegotiationRound
  pub selected_action : Option RecoveryAction
  pub safety_validation : Validation
  pub execution_result : CommandResult
  pub recovery_monitoring : Option RecoveryAssessment
  pub validated_actions : List RecoveryAction
  pub executed_actions : List RecoveryAction
  pub post_execution_reviews : List PostExecutionReview
  pub replanning_attempts : List ReplanningAttempt
  pub dispatched : List RecoveryAction

-- The local variables of the loop.
pub record Progress : Type 0 where
  pub decisions : List SupervisionDecision
  pub reviews : List PeerReview
  pub rounds : List NegotiationRound
  pub post_reviews : List PostExecutionReview
  pub executed : List RecoveryAction
  pub dispatched : List RecoveryAction
  pub replans : List ReplanningAttempt
  pub last_action : Option RecoveryAction
  pub last_validation : Validation
  pub last_execution : CommandResult
  pub last_assessment : Option RecoveryAssessment

-- `_empty_result`
abbrev pub empty_result : ExecutionMode → Text → CommandResult
empty_result mode message = record {
  command = [];
  mode = mode_value mode;
  valid = false;
  stdout = [];
  stderr = message;
  by_go_guard = false;
}

abbrev pub is_dry : ExecutionMode → Bool
is_dry dry_run = true
is_dry real = false
is_dry mock = false

abbrev pub is_real_mode : ExecutionMode → Bool
is_real_mode real = true
is_real_mode dry_run = false
is_real_mode mock = false

abbrev pub step_after : ℕ → ℤ → NextStep
step_after i m = if ltb_ℤ (pos (suc i)) m then try_next_candidate else human_review_required

abbrev pub is_empty_text : Text → Bool
is_empty_text [] = true
is_empty_text (c ∷ t) = false

abbrev pub dry_run_reason : Text → ReplanReason
dry_run_reason t = if is_empty_text t then dry_run_failed else stderr t

abbrev pub replan_reason : Option Problem → Text → ReplanReason
replan_reason (some p) t = remaining p
replan_reason none t = if is_empty_text t then reviews_rejected else stderr t

-- `items[:k]`: a negative number counts from the end.
abbrev pub take : {A : Type 0} → ℕ → List A → List A
take zero items = []
take (suc n) [] = []
take (suc n) (a ∷ items) = a ∷ take n items

abbrev pub slice : {A : Type 0} → ℤ → List A → List A
slice (pos n) items = take n items
slice (negsuc n) items = take (length items - suc n) items

-- `min(n, m + 1)`
abbrev pub attempt_limit : ℕ → ℤ → ℤ
attempt_limit n (pos m) = pos (if ltb (suc m) n then suc m else n)
attempt_limit n (negsuc zero) = pos 0
attempt_limit n (negsuc (suc m)) = negsuc m

-- The names of the adapters with a capability.
unfoldable pub capable : Text → List AgentAdapter → List Text
capable c [] = []
capable c (a ∷ bs) = if contains_text c a.capabilities then a.name ∷ capable c bs else capable c bs

abbrev pub count_error : Text → ℕ → List ConfigurationError
count_error c n = if n == 1 then [] else wrong_adapter_count c n ∷ []

-- `_required_capability_errors`
unfoldable pub required_capability_errors : List AgentAdapter → List ConfigurationError
unfolding capable
required_capability_errors adapters =
    count_error (codes "diagnose") (length (capable (codes "diagnose") adapters))
    ++ count_error (codes "propose") (length (capable (codes "propose") adapters))

abbrev pub validation_of : Result Error Text → Validation
validation_of (ok command) = valid_command command
validation_of (err e) = invalid_command e

-- `_validate_action`
unfoldable pub validate_action : CommandValidator → RecoveryAction → Validation
validate_action v a =
    validation_of (do validated ← validate_recovery_action v a; render_recovery_command validated)
