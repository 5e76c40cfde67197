-- ===== src/Coordinator.antt =====
-- src/aiops_k8s_agents/mutual_supervision.py: what the coordinator asks of its agents and of the world, the
-- checks of an action against the protocol and the evidence, and the revisions of an action.
pub mod Outputs
pub mod Negotiation
pub mod State
pub mod Attempts
pub mod Run
pub mod Asked
pub mod Heard
pub mod Consent
pub mod Sound
pub mod Invariant
pub mod Keeping
pub mod Steps
pub mod Safety
pub mod Promise
pub mod Revision
use aiops_research.Base.{
  ℕ, zero, suc, ℤ, pos, negsuc, ltb_ℤ, min_ℤ, Bool, true, false, not, ◌&&◌, ◌||◌, Option, none,
  some, List, [], ◌∷◌, ◌++◌, Text, text_eq, codes, Result, ok, err, ◌>>=◌, ◌>>◌, raise_if, any,
  if◌then◌else◌,
}
use aiops_research.Actions.{
  RecoveryActionKind, observe_only, rollout_restart, scale_out, foreign, Replicas, int, bool, other,
  RecoveryAction,
}
use aiops_research.Protocol.{same_kind, contains_kind}
use aiops_research.Consensus.{PeerReview}
use aiops_research.Monitor.{EvidenceSnapshot}

-- A decision of an agent; its run, confidence, evidence and reward are left out.
pub record SupervisionDecision : Type 0 where
  pub decision_id : Text
  pub round_index : ℕ
  pub agent : Text
  pub proposed_action : Option RecoveryAction
  pub approved : Bool
  pub reason : Text

pub data SemanticError : Type 0 where
  target_mismatch outside_action_space replicas_not_integer replicas_not_greater : SemanticError

-- The reasons of `AdapterOutputError`, and an exception of the adapter itself.
pub data OutputError : Type 0 where
  raised service_mismatch empty_text bad_confidence bad_reward agent_mismatch target_differs :
      OutputError
  action_present not_action_kind bad_replicas : OutputError
  cross_kind not_integers : OutputError
  rejected : SemanticError → OutputError

-- `_target_alignment_error`
abbrev pub is_aligned : Text → Text → RecoveryAction → Bool
is_aligned namespace deployment a = text_eq a.namespace namespace && text_eq a.deployment deployment

-- A scale-out needs an `int` above the wanted count; a `bool` is none here.
unfoldable pub scale_error : EvidenceSnapshot → Option Replicas → Option SemanticError
scale_error e (some (int z)) =
    if ltb_ℤ e.desired_replicas z then none else some replicas_not_greater
scale_error e (some (bool b)) = some replicas_not_integer
scale_error e (some (other t)) = some replicas_not_integer
scale_error e none = some replicas_not_integer

unfoldable pub kind_error :
    EvidenceSnapshot → RecoveryActionKind → Option Replicas → Option SemanticError
unfolding scale_error
kind_error e scale_out r = scale_error e r
kind_error e _ r = none

-- `_action_semantic_error`
unfoldable pub action_semantic_error :
    List RecoveryActionKind → EvidenceSnapshot → Text → Text → RecoveryAction → Option SemanticError
unfolding kind_error
action_semantic_error space e namespace deployment a =
    if not (is_aligned namespace deployment a)
    then some target_mismatch
    else if not (contains_kind a.kind space)
    then some outside_action_space
    else kind_error e a.kind a.replicas

abbrev pub add_suggestion : Option RecoveryAction → List RecoveryAction → List RecoveryAction
add_suggestion none bs = bs
add_suggestion (some a) bs = a ∷ bs

abbrev pub suggestions_of : List PeerReview → List RecoveryAction
suggestions_of [] = []
suggestions_of (r ∷ rs) = add_suggestion r.suggested_action (suggestions_of rs)

-- The notes of a revision.
pub data RevisionNote : Type 0 where
  replicas_note : Option Replicas → ℤ → RevisionNote
  reviewer_revision : RecoveryActionKind → RevisionNote
  rejection : OutputError → RevisionNote

-- The smallest count of the suggestions, if each of them is an `int`.
unfoldable pub lowest : Option Replicas → List RecoveryAction → Result OutputError ℤ
lowest (some (int z)) [] = ok z
lowest (some (int z)) (a ∷ bs) = do rest ← lowest a.replicas bs; ok (min_ℤ z rest)
lowest _ bs = err not_integers

abbrev pub all_kind : RecoveryActionKind → List RecoveryAction → Bool
all_kind k [] = true
all_kind k (a ∷ bs) = same_kind a.kind k && all_kind k bs

unfoldable pub revise_kind :
    RecoveryActionKind
    → RecoveryAction
    → RecoveryAction
    → List RecoveryAction
    → Result OutputError (RecoveryAction × List RevisionNote)
unfolding lowest
revise_kind scale_out a s ss = do
  replicas ← lowest s.replicas ss
  ok (
    record a { replicas = some (int replicas); reason = s.reason },
    replicas_note a.replicas replicas ∷ [],
  )
revise_kind k a s ss = ok (s, reviewer_revision k ∷ [])

unfoldable pub revise_with :
    RecoveryAction → List RecoveryAction → Result OutputError (RecoveryAction × List RevisionNote)
unfolding revise_kind
revise_with a [] = ok (a, [])
revise_with a (s ∷ ss) =
    if all_kind a.kind (s ∷ ss) then revise_kind a.kind a s ss else err cross_kind

-- `_apply_revisions`
unfoldable pub apply_revisions :
    RecoveryAction → List PeerReview → Result OutputError (RecoveryAction × List RevisionNote)
unfolding revise_with
apply_revisions a reviews = revise_with a (suggestions_of reviews)

-- `_decision_scopes`; a value that is no kind is in no action space, and never gets here.
abbrev pub decision_scopes : RecoveryActionKind → List Text
decision_scopes observe_only =
    codes "action_validity" ∷ codes "target_alignment" ∷ codes "availability" ∷ []
decision_scopes rollout_restart =
    codes "action_validity"
    ∷ codes "target_alignment"
    ∷ codes "availability"
    ∷ codes "recovery"
    ∷ codes "executability"
    ∷ []
decision_scopes scale_out =
    codes "action_validity"
    ∷ codes "target_alignment"
    ∷ codes "capacity"
    ∷ codes "resource_safety"
    ∷ codes "budget"
    ∷ codes "cost_efficiency"
    ∷ []
decision_scopes foreign = []
