-- ===== src/Coordinator/Outputs.antt =====
-- src/aiops_k8s_agents/mutual_supervision.py: the checks of what the adapters return. The types of the
-- values are checked by the types of the model; of a number the model keeps what its check finds.
use aiops_research.Base.{
  ℕ, Bool, true, false, not, ◌||◌, Option, none, some, List, [], ◌∷◌, Text, text_eq, Result, ok,
  ◌>>◌, raise_if,
}
use aiops_research.Python.Strip.{strip}
use aiops_research.Actions.{RecoveryActionKind, foreign, Replicas, int, bool, other, RecoveryAction}
use aiops_research.Consensus.{PeerReview}
use aiops_research.Coordinator.{
  SupervisionDecision, OutputError, service_mismatch, empty_text, bad_confidence, bad_reward,
  agent_mismatch, target_differs, action_present, not_action_kind, bad_replicas,
}

pub record Diagnosis : Type 0 where
  pub service : Text
  pub cause : Text
  pub severity : Text
  pub is_confidence : Bool
  -- Whether `evidence["missing_evidence"]` holds anything.
  pub missing_evidence : Bool

-- The decision that comes with a diagnosis.
pub record DiagnosisDecision : Type 0 where
  pub agent : Text
  pub approved : Bool
  pub decision_type : Text
  pub reason : Text
  pub is_confidence : Bool
  pub is_finite_reward : Bool
  pub proposed_action : Option RecoveryAction

pub record ReviewOutput : Type 0 where
  pub review : PeerReview
  pub is_confidence : Bool

pub record PostExecutionReview : Type 0 where
  pub agent : Text
  pub approved : Bool
  pub reason : Text
  pub is_confidence : Bool

abbrev Checks : Type 0
Checks = Result OutputError (Unit {0})

abbrev is_empty : Text → Bool
is_empty [] = true
is_empty (c ∷ t) = false

-- `_require_output_text`
unfoldable pub require_output_text : Text → Checks
require_output_text t = raise_if (is_empty (strip t)) empty_text

abbrev pub require_output_confidence : Bool → Checks
require_output_confidence b = raise_if (not b) bad_confidence

abbrev is_foreign : RecoveryActionKind → Bool
is_foreign foreign = true
is_foreign _ = false

abbrev is_integer_or_none : Option Replicas → Bool
is_integer_or_none none = true
is_integer_or_none (some (int z)) = true
is_integer_or_none (some (bool b)) = false
is_integer_or_none (some (other t)) = false

-- `_validate_recovery_action_output`
unfoldable pub validate_recovery_action_output : RecoveryAction → Checks
unfolding require_output_text
validate_recovery_action_output a = do
  require_output_text a.namespace
  require_output_text a.deployment
  raise_if (is_foreign a.kind) not_action_kind
  raise_if (not (is_integer_or_none a.replicas)) bad_replicas

abbrev is_some : Option RecoveryAction → Bool
is_some none = false
is_some (some a) = true

-- `_normalize_diagnosis_output`
unfoldable pub normalize_diagnosis_output :
    Text
    → Text
    → Text
    → Diagnosis × DiagnosisDecision
    → Result OutputError (Diagnosis × SupervisionDecision)
unfolding require_output_text
normalize_diagnosis_output adapter expected_service decision_id (d, s) = do
  raise_if (not (text_eq d.service expected_service)) service_mismatch
  require_output_text d.cause
  require_output_text d.severity
  require_output_confidence d.is_confidence
  raise_if (not (text_eq s.agent adapter)) agent_mismatch
  require_output_text s.decision_type
  require_output_text s.reason
  require_output_confidence s.is_confidence
  raise_if (not s.is_finite_reward) bad_reward
  raise_if (is_some s.proposed_action) action_present
  ok (
    d,
    record {
      decision_id = decision_id;
      round_index = 0;
      agent = adapter;
      proposed_action = s.proposed_action;
      approved = s.approved;
      reason = s.reason;
    },
  )

unfoldable pub validate_actions : List RecoveryAction → Checks
unfolding validate_recovery_action_output
validate_actions [] = ok tt
validate_actions (a ∷ bs) = do validate_recovery_action_output a; validate_actions bs

-- `_normalize_proposal_output`
unfoldable pub normalize_proposal_output :
    Option (List RecoveryAction) → Result OutputError (List RecoveryAction)
unfolding validate_actions
normalize_proposal_output none = ok []
normalize_proposal_output (some bs) = do validate_actions bs; ok bs

abbrev pub validate_suggestion : Option RecoveryAction → Checks
validate_suggestion none = ok tt
validate_suggestion (some a) = validate_recovery_action_output a

-- `_normalize_peer_review_output`
unfoldable pub normalize_peer_review_output :
    Text → SupervisionDecision → ℕ → Text → ReviewOutput → Result OutputError PeerReview
unfolding validate_recovery_action_output require_output_text
normalize_peer_review_output adapter d i review_id o = do
  raise_if (not (text_eq o.review.reviewer adapter)) agent_mismatch
  raise_if
      (not (text_eq o.review.target_agent d.agent)
        || not (text_eq o.review.target_decision_id d.decision_id))
      target_differs
  validate_suggestion o.review.suggested_action
  require_output_text o.review.reason
  require_output_confidence o.is_confidence
  ok (record o.review {
    review_id = review_id;
    round_index = i;
    reviewer = adapter;
    target_agent = d.agent;
    target_decision_id = d.decision_id;
  })

-- `_normalize_post_review_output`
unfoldable pub normalize_post_review_output :
    Text → PostExecutionReview → Result OutputError PostExecutionReview
unfolding require_output_text
normalize_post_review_output adapter r = do
  raise_if (not (text_eq r.agent adapter)) agent_mismatch
  require_output_text r.reason
  require_output_confidence r.is_confidence
  ok (record r { agent = adapter })
