-- ===== src/Coordinator/Sound.antt =====
-- src/aiops_k8s_agents/mutual_supervision.py: what the checks of an action mean.
use aiops_research.Base.{
  ltb_ℤ, true, Option, none, some, List, Text, text_eq, text_eq_iff, Result-cases, &&-eq-true, ◌≡◌,
  inl, inr, arith,
}
use aiops_research.Actions.{
  RecoveryActionKind, observe_only, rollout_restart, scale_out, foreign, Replicas, int, bool, other,
  RecoveryAction,
}
use aiops_research.Validator.{CommandValidator, validate_recovery_action}
use aiops_research.Validator.Safety.{IsSafe, validate_recovery_action_iff}
use aiops_research.Protocol.{contains_kind}
use aiops_research.Monitor.{EvidenceSnapshot}
use aiops_research.Coordinator.{is_aligned, kind_error, scale_error, action_semantic_error}
use aiops_research.Coordinator.State.{valid_command, validate_action}

-- A scale-out asks for a whole number of replicas above the wanted one.
abbrev pub Grows : EvidenceSnapshot → RecoveryActionKind → Option Replicas → Type 0
Grows e scale_out (some (int z)) = ltb_ℤ e.desired_replicas z ≡ true
Grows e scale_out _ = ⊥
Grows e _ r = Unit

-- An action that the protocol allows for the target.
pub record IsAllowed (space : List RecoveryActionKind) (e : EvidenceSnapshot)
    (namespace deployment : Text) (a : RecoveryAction) : Type 0 where
  pub same_namespace : a.namespace ≡ namespace
  pub same_deployment : a.deployment ≡ deployment
  pub kind : contains_kind a.kind space ≡ true
  pub grows : Grows e a.kind a.replicas

kind_error-Grows :
    (e : EvidenceSnapshot) (k : RecoveryActionKind) (r : Option Replicas)
    → kind_error e k r ≡ none
    → Grows e k r
unfolding kind_error scale_error
kind_error-Grows e observe_only r h = tt
kind_error-Grows e rollout_restart r h = tt
kind_error-Grows e foreign r h = tt
kind_error-Grows e scale_out (some (int z)) h = ground (arith, h)
kind_error-Grows e scale_out (some (bool b)) h = cc
kind_error-Grows e scale_out (some (other t)) h = cc
kind_error-Grows e scale_out none h = cc

pub action_semantic_error-IsAllowed :
    (space : List RecoveryActionKind) (e : EvidenceSnapshot) (namespace deployment : Text)
    (a : RecoveryAction)
    → action_semantic_error space e namespace deployment a ≡ none
    → IsAllowed space e namespace deployment a
unfolding action_semantic_error
action_semantic_error-IsAllowed space e namespace deployment a h =
    let aligned : is_aligned namespace deployment a ≡ true = ground (arith, h) in
    let parts =
      &&-eq-true (text_eq a.namespace namespace) (text_eq a.deployment deployment) aligned in
    let allowed : contains_kind a.kind space ≡ true = ground (arith, h) in
    record {
      same_namespace = (text_eq_iff a.namespace namespace).0 parts.0;
      same_deployment = (text_eq_iff a.deployment deployment).0 parts.1;
      kind = allowed;
      grows = kind_error-Grows e a.kind a.replicas (ground (arith, h));
    }

pub validate_action-IsSafe :
    (v : CommandValidator) (a : RecoveryAction) (command : Text)
    → validate_action v a ≡ valid_command command
    → IsSafe v a
unfolding validate_action
validate_action-IsSafe v a command h = elim (Result-cases (validate_recovery_action v a)) [
  | inl (b, passed) ↦ ((validate_recovery_action_iff v a b).0 passed).1
  | inr (e, refused) ↦ ground (arith, h, refused)
]
