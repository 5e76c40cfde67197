-- ===== src/Coordinator/Attempts.antt =====
-- src/aiops_k8s_agents/mutual_supervision.py: the loop of `MutualSupervisionCoordinator.run` over the
-- candidates, and `_post_execution_reviews`.
use aiops_research.Base.{
  ◌>>=◌, ℕ, suc, ℤ, Bool, true, false, not, ◌&&◌, Option, none, some, List, [], ◌∷◌, ◌++◌, all,
  length, ◌==◌, Text, codes, contains_text, Result, ok, err, if◌then◌else◌,
}
use aiops_research.Floats.{Floats}
use aiops_research.Actions.{RecoveryAction, CommandResult}
use aiops_research.Validator.{CommandValidator}
use aiops_research.Executor.{ExecutionMode}
use aiops_research.Protocol.{ResearchProtocolProfile}
use aiops_research.Monitor.{EvidenceSnapshot, RecoveryAssessment}
use aiops_research.Coordinator.{SemanticError, OutputError, action_semantic_error}
use aiops_research.Coordinator.Outputs.{PostExecutionReview, normalize_post_review_output}
use aiops_research.Coordinator.Negotiation.{
  AgentAdapter, Trace, Negotiated, agreed, declined, failed, unsound, negotiate,
}
use aiops_research.Coordinator.State.{
  RunError, unsound_profile, raised, World, FinalStatus, safe_stopped, dry_run_validated,
  safe_failure, recovered, recovered_after_replan, ReplanReason, semantic, adapter_failed,
  negotiation_failed, Validation, not_validated, valid_command, semantic_failure, Report, Progress,
  empty_result, is_dry, is_real_mode, step_after, dry_run_reason, replan_reason, validate_action,
}

pub record Coordinator (floats : Floats) : Type 0 where
  pub validator : CommandValidator
  pub mode : ExecutionMode
  pub protocol : ResearchProtocolProfile floats
  pub adapters : List AgentAdapter
  pub operation_lock_owned_externally : Bool

-- `_base_report`
unfoldable pub base_report : ExecutionMode → FinalStatus → Bool → Progress → Report
base_report mode status human p = record {
  final_status = status;
  human_review_required = human;
  valid = false;
  configuration_errors = [];
  initial_decisions = p.decisions;
  peer_reviews = p.reviews;
  rounds = p.rounds;
  selected_action = none;
  safety_validation = not_validated;
  execution_result = empty_result mode (codes "no action executed");
  recovery_monitoring = none;
  validated_actions = [];
  executed_actions = [];
  post_execution_reviews = [];
  replanning_attempts = [];
  dispatched = p.dispatched;
}

-- `initial_decisions.extend(...)` and the like.
abbrev pub extend : Progress → Trace → Progress
extend p t = record p {
  decisions = p.decisions ++ t.decisions;
  reviews = p.reviews ++ t.reviews;
  rounds = p.rounds ++ t.rounds;
}

-- What the reports after an execution add.
abbrev pub after_execution :
    RecoveryAction → Validation → CommandResult → RecoveryAssessment → Progress → Report → Report
after_execution a validation execution assessment p r = record r {
  selected_action = some a;
  safety_validation = validation;
  execution_result = execution;
  recovery_monitoring = some assessment;
  executed_actions = p.executed;
  post_execution_reviews = p.post_reviews;
  replanning_attempts = p.replans;
}

abbrev pub PostReviews : Type 0
PostReviews = List PostExecutionReview × Option (Text × OutputError)

abbrev pub with_post_review :
    Text → Result OutputError (Option PostExecutionReview) → PostReviews → PostReviews
with_post_review name (err e) rest = ([], some (name, e))
with_post_review name (ok none) rest = rest
with_post_review name (ok (some r)) rest = (r ∷ rest.0, rest.1)

unfoldable pub normalized_post_review :
    Text
    → Result OutputError (Option PostExecutionReview)
    → Result OutputError (Option PostExecutionReview)
normalized_post_review name (err e) = err e
normalized_post_review name (ok none) = ok none
normalized_post_review name (ok (some r)) = kept (normalize_post_review_output name r)
  where
    kept : Result OutputError PostExecutionReview → Result OutputError (Option PostExecutionReview)
    kept (err e) = err e
    kept (ok q) = ok (some q)

-- `_post_execution_reviews`
unfoldable pub post_execution_reviews :
    (Text → Result OutputError (Option PostExecutionReview)) → List AgentAdapter → PostReviews
unfolding normalized_post_review
post_execution_reviews ask [] = ([], none)
post_execution_reviews ask (a ∷ bs) =
    let rest = post_execution_reviews ask bs in
    if contains_text (codes "post_review") a.capabilities
    then with_post_review a.name (normalized_post_review a.name (ask a.name)) rest
    else rest

module _ (floats : Floats) (hash : ResearchProtocolProfile floats → Text) (c : Coordinator floats)
    (world : World) (namespace deployment proposer : Text) (limit : ℤ) where
  abbrev pub Next : Type 0
  Next = Progress → Result RunError Report

  abbrev pub report : FinalStatus → Bool → Progress → Report
  report = base_report c.mode

  abbrev pub replan : ℕ → RecoveryAction → ReplanReason → Progress → Progress
  replan i a why p = record p {
    replans =
        p.replans
        ++ record { failed_action = a.kind; reason = why; next_step = step_after i limit } ∷ [];
  }

  abbrev pub human_on_failure : Bool
  human_on_failure = c.protocol.human_review_on_failure

  abbrev pub is_recovered : CommandResult → RecoveryAssessment → List PostExecutionReview → Bool
  is_recovered execution assessment reviews =
      execution.valid
      && (assessment.recovery_success && all (λ (r : PostExecutionReview). r.approved) reviews)

  -- After the reviews of the execution.
  unfoldable pub conclude :
      ℕ
      → Next
      → RecoveryAction
      → Validation
      → CommandResult
      → RecoveryAssessment
      → Progress
      → PostReviews
      → Result RunError Report
  unfolding base_report
  conclude i next a validation execution assessment p (reviews, some (name, e)) =
      let q = record p { post_reviews = p.post_reviews ++ reviews } in
      ok
        (record (after_execution a validation execution assessment q
          (report safe_failure human_on_failure q)) {
            configuration_errors = adapter_failed name e ∷ [];
          })
  conclude i next a validation execution assessment p (reviews, none) =
      let q = record p { post_reviews = p.post_reviews ++ reviews } in
      if is_recovered execution assessment reviews
      then ok
          (record (after_execution a validation execution assessment q
            (report (if i == 0 then recovered else recovered_after_replan) false q)) {
              valid = true;
            })
      else next (replan i a (replan_reason assessment.remaining_problem execution.stderr) q)

  abbrev pub dry_run_report : RecoveryAction → Validation → CommandResult → Progress → Report
  dry_run_report a validation execution p = record (report dry_run_validated false p) {
    valid = true;
    selected_action = some a;
    safety_validation = validation;
    execution_result = execution;
    validated_actions = a ∷ [];
    replanning_attempts = p.replans;
  }

  abbrev pub note_execution : RecoveryAction → CommandResult → Progress → Progress
  note_execution a execution p = record p {
    dispatched = p.dispatched ++ a ∷ [];
    last_execution = execution;
  }

  abbrev pub note_assessment :
      RecoveryAction → CommandResult → RecoveryAssessment → Progress → Progress
  note_assessment a execution assessment p = record p {
    executed = if execution.valid then p.executed ++ a ∷ [] else p.executed;
    last_assessment = some assessment;
  }

  -- The evidence after an attempt with the monitor's assessment of it.
  abbrev pub observe :
      ℕ → RecoveryAction → CommandResult → Result Text (EvidenceSnapshot × RecoveryAssessment)
  observe i a execution = do
    after ← world.after i
    assessment ← world.assess i a world.evidence after execution
    ok (after, assessment)

  unfoldable pub after_observation :
      ℕ
      → Next
      → RecoveryAction
      → Validation
      → CommandResult
      → Progress
      → Result Text (EvidenceSnapshot × RecoveryAssessment)
      → Result RunError Report
  unfolding conclude post_execution_reviews
  after_observation i next a validation execution q (err message) =
      err (raised message q.dispatched)
  after_observation i next a validation execution q (ok (after, assessment)) =
      conclude i next a validation execution assessment (note_assessment a execution assessment q)
        (post_execution_reviews (λ name. world.post_review i name a assessment after) c.adapters)

  unfoldable pub after_execution_of :
      ℕ
      → Next
      → RecoveryAction
      → Validation
      → Progress
      → Result Text CommandResult
      → Result RunError Report
  unfolding after_observation
  after_execution_of i next a validation p (err message) =
      err (raised message (p.dispatched ++ a ∷ []))
  after_execution_of i next a validation p (ok execution) =
      let q = note_execution a execution p in
      if is_dry c.mode
      then if execution.valid
        then ok (dry_run_report a validation execution q)
        else next (replan i a (dry_run_reason execution.stderr) q)
      else after_observation i next a validation execution q (observe i a execution)

  -- Inside the operation lock.
  unfoldable pub operate :
      ℕ → Next → RecoveryAction → Validation → Progress → Result RunError Report
  unfolding after_execution_of
  operate i next a validation p = after_execution_of i next a validation p (world.execute i a)

  abbrev pub needs_lock : Bool
  needs_lock = is_real_mode c.mode && not c.operation_lock_owned_externally

  -- `_operation_context`, and what happens when the lock is held.
  unfoldable pub lock_and_operate :
      ℕ → Next → RecoveryAction → Validation → Progress → Result RunError Report
  unfolding operate
  lock_and_operate i next a validation p =
      if needs_lock && not (world.locks i)
      then ok (record (report safe_stopped true p) {
        selected_action = some a;
        safety_validation = validation;
        execution_result = empty_result c.mode (codes "target operation lock is held");
      })
      else operate i next a validation p

  unfoldable pub act_on : ℕ → Next → RecoveryAction → Progress → Validation → Result RunError Report
  unfolding lock_and_operate
  act_on i next a p (valid_command command) =
      lock_and_operate i next a (valid_command command)
        (record p { last_validation = valid_command command })
  act_on i next a p validation = ok (record (report safe_stopped true p) {
    selected_action = some a;
    safety_validation = validation;
  })

  unfoldable pub attempt_agreed :
      ℕ → Next → RecoveryAction → Progress → Option SemanticError → Result RunError Report
  unfolding act_on
  attempt_agreed i next a p (some e) = next (
      replan i a (semantic e)
        (record p { last_action = some a; last_validation = semantic_failure e }))
  attempt_agreed i next a p none =
      act_on i next a (record p { last_action = some a }) (validate_action c.validator a)

  unfoldable pub after_negotiation : ℕ → Next → Progress → Negotiated → Result RunError Report
  unfolding attempt_agreed
  after_negotiation i next p (unsound e) = err (unsound_profile e)
  after_negotiation i next p (failed f t) =
      ok (record (report safe_stopped human_on_failure (extend p t)) {
        configuration_errors = negotiation_failed f ∷ [];
        replanning_attempts = p.replans;
      })
  after_negotiation i next p (declined t) =
      ok (record (report safe_stopped true (extend p t)) { replanning_attempts = p.replans })
  after_negotiation i next p (agreed a t) =
      attempt_agreed i next a (extend p t)
        (action_semantic_error c.protocol.action_space world.evidence namespace deployment a)

  -- The report after the last candidate.
  unfoldable pub exhausted : Progress → Report
  exhausted p = record (report safe_failure true p) {
    selected_action = p.last_action;
    safety_validation = p.last_validation;
    execution_result = p.last_execution;
    recovery_monitoring = p.last_assessment;
    executed_actions = p.executed;
    post_execution_reviews = p.post_reviews;
    replanning_attempts = p.replans;
  }

  -- The loop from candidate `i` on.
  unfoldable pub attempts : ℕ → List RecoveryAction → Next
  unfolding after_negotiation exhausted
  attempts i [] p = ok (exhausted p)
  attempts i (candidate ∷ candidates) p = after_negotiation i (attempts (suc i) candidates) p (
      negotiate floats hash c.protocol c.adapters world.agents proposer world.evidence candidate
        (length p.rounds))
