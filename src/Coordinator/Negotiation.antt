-- ===== src/Coordinator/Negotiation.antt =====
-- src/aiops_k8s_agents/mutual_supervision.py: `_review_application_action` and `_negotiate`. What the agents
-- answer and the ids are parameters; the number of the round tells the calls of a run apart.
use aiops_research.Base.{
  ℕ, zero, suc, ℤ, pos, negsuc, Bool, true, false, not, Option, none, some, List, [], ◌∷◌, ◌++◌,
  map, select, codes, Text, text_eq, contains_text, Result, ok, err, ◌>>=◌, if◌then◌else◌,
}
use aiops_research.Floats.{Floats}
use aiops_research.Actions.{RecoveryAction}
use aiops_research.Protocol.{ProfileError, ResearchProtocolProfile}
use aiops_research.Consensus.{ReviewVerdict, abstain, PeerReview, ConsensusOutcome, resolve}
use aiops_research.Monitor.{EvidenceSnapshot}
use aiops_research.Coordinator.{
  SupervisionDecision, SemanticError, OutputError, rejected, action_semantic_error, RevisionNote,
  rejection, apply_revisions, decision_scopes,
}
use aiops_research.Coordinator.Outputs.{ReviewOutput, normalize_peer_review_output}

pub record AgentAdapter : Type 0 where
  pub name : Text
  pub capabilities : List Text

pub data ConsensusStatus : Type 0 where
  consensus_rejected revision_rejected revision_required approved : ConsensusStatus

pub record NegotiationRound : Type 0 where
  pub round_index : ℕ
  pub input_decision_id : Text
  pub review_ids : List Text
  pub revisions : List RevisionNote
  pub remaining_vetoes : List Text
  pub remaining_abstentions : List Text
  pub consensus_status : ConsensusStatus
  pub selected_action_id : Option Text
  pub decision_scopes : List Text
  pub non_blocking_objections : List Text

-- What a negotiation leaves in the report.
pub record Trace : Type 0 where
  pub decisions : List SupervisionDecision
  pub reviews : List PeerReview
  pub rounds : List NegotiationRound

abbrev pub no_trace : Trace
no_trace = record { decisions = []; reviews = []; rounds = [] }

-- `NegotiationFailure`: a reviewer failed, or the revision was refused.
pub data Failure : Type 0 where
  review_failed : Text → OutputError → Failure
  revision_failed : OutputError → Failure

-- How `_negotiate` ends: with an action, with `None`, or with an exception.
pub data Negotiated : Type 0 where
  agreed : RecoveryAction → Trace → Negotiated
  declined : Trace → Negotiated
  failed : Failure → Trace → Negotiated
  unsound : ProfileError → Negotiated

-- The agents, as far as a negotiation asks them, and the ids that it makes up.
pub record Reviewers : Type 0 where
  pub review : Text → SupervisionDecision → Result OutputError (Option ReviewOutput)
  pub decision_id : ℕ → Text
  pub review_id : ℕ → Text → Text
  pub action_id : ℕ → Text

unfoldable pub adapter_of : Text → List AgentAdapter → Option AgentAdapter
adapter_of name [] = none
adapter_of name (a ∷ bs) = if text_eq a.name name then some a else adapter_of name bs

unfoldable pub reviewers_of : Text → List (Text × List Text) → List Text
reviewers_of name [] = []
reviewers_of name ((target, rs) ∷ m) = if text_eq target name then rs else reviewers_of name m

abbrev is_abstain : ReviewVerdict → Bool
is_abstain abstain = true
is_abstain _ = false

-- `range(1, n + 1)` has `n` numbers, and none for a negative `n`.
abbrev pub count_of : ℤ → ℕ
count_of (pos n) = n
count_of (negsuc n) = 0

module _ (floats : Floats) (hash : ResearchProtocolProfile floats → Text)
    (protocol : ResearchProtocolProfile floats) (adapters : List AgentAdapter)
    (agents : Reviewers) where
  -- The review of one capable adapter, if it gives one.
  unfoldable pub ask : AgentAdapter → SupervisionDecision → Result OutputError (Option PeerReview)
  ask a d = do answer ← agents.review a.name d; normalized a.name d answer
    where
      normalized :
          Text → SupervisionDecision → Option ReviewOutput → Result OutputError (Option PeerReview)
      normalized name d none = ok none
      normalized name d (some o) = do
        review ←
            normalize_peer_review_output name d d.round_index (agents.review_id d.round_index name)
              o
        ok (some review)

  abbrev pub with_review :
      Text
      → Result OutputError (Option PeerReview)
      → List PeerReview × Option Failure
      → List PeerReview × Option Failure
  with_review name (err e) rest = ([], some (review_failed name e))
  with_review name (ok none) rest = rest
  with_review name (ok (some r)) rest = (r ∷ rest.0, rest.1)

  abbrev pub ask_adapter :
      Option AgentAdapter
      → SupervisionDecision
      → List PeerReview × Option Failure
      → List PeerReview × Option Failure
  ask_adapter none d rest = rest
  ask_adapter (some a) d rest =
      if contains_text (codes "review") a.capabilities
      then with_review a.name (ask a d) rest
      else rest

  -- The reviews until one fails, and the failure.
  unfoldable pub collect_reviews :
      List Text → SupervisionDecision → List PeerReview × Option Failure
  unfolding ask adapter_of
  collect_reviews [] d = ([], none)
  collect_reviews (name ∷ names) d =
      let rest = collect_reviews names d in ask_adapter (adapter_of name adapters) d rest

  abbrev pub review_application_action : SupervisionDecision → List PeerReview × Option Failure
  review_application_action d = collect_reviews (reviewers_of d.agent protocol.review_matrix) d

  abbrev pub round_of :
      SupervisionDecision
      → RecoveryAction
      → List PeerReview
      → ConsensusOutcome floats
      → ConsensusStatus
      → List RevisionNote
      → Option Text
      → NegotiationRound
  round_of d a reviews outcome status notes selected = record {
    round_index = d.round_index;
    input_decision_id = d.decision_id;
    review_ids = map (λ r. r.review_id) reviews;
    revisions = notes;
    remaining_vetoes = outcome.blocking_vetoes;
    remaining_abstentions =
        map (λ r. r.reviewer) (select (λ (r : PeerReview). is_abstain r.verdict) reviews);
    consensus_status = status;
    selected_action_id = selected;
    decision_scopes = decision_scopes a.kind;
    non_blocking_objections = outcome.non_blocking_objections;
  }

  abbrev pub add_round : NegotiationRound → Trace → Trace
  add_round r t = record t { rounds = t.rounds ++ r ∷ [] }

  abbrev pub permitted :
      RecoveryAction × List RevisionNote
      → Option SemanticError
      → Result OutputError (RecoveryAction × List RevisionNote)
  permitted result none = ok result
  permitted result (some s) = err (rejected s)

  -- The revised action, unless it breaks the protocol.
  unfoldable pub revised :
      EvidenceSnapshot
      → RecoveryAction
      → List PeerReview
      → Result OutputError (RecoveryAction × List RevisionNote)
  unfolding apply_revisions action_semantic_error
  revised e a revisions = do
    result ← apply_revisions a revisions
    permitted result
        (action_semantic_error protocol.action_space e e.namespace e.deployment result.0)

  -- A round ends with the action, or asks for the next round with the revised one.
  unfoldable pub settle_revision :
      (RecoveryAction → Trace → Negotiated)
      → SupervisionDecision
      → RecoveryAction
      → List PeerReview
      → ConsensusOutcome floats
      → Trace
      → Result OutputError (RecoveryAction × List RevisionNote)
      → Negotiated
  settle_revision next d a reviews outcome t (err x) =
      failed (revision_failed x)
        (add_round (round_of d a reviews outcome revision_rejected (rejection x ∷ []) none) t)
  settle_revision next d a reviews outcome t (ok (b, notes)) =
      next b (add_round (round_of d a reviews outcome revision_required notes none) t)

  unfoldable pub settle_revisions :
      EvidenceSnapshot
      → (RecoveryAction → Trace → Negotiated)
      → SupervisionDecision
      → RecoveryAction
      → List PeerReview
      → ConsensusOutcome floats
      → Trace
      → List PeerReview
      → Negotiated
  unfolding settle_revision revised
  settle_revisions e next d a reviews outcome t [] = agreed a (
      add_round (round_of d a reviews outcome approved [] (some (agents.action_id d.round_index)))
        t)
  settle_revisions e next d a reviews outcome t (r ∷ rs) =
      settle_revision next d a reviews outcome t (revised e a (r ∷ rs))

  unfoldable pub settle_outcome :
      EvidenceSnapshot
      → (RecoveryAction → Trace → Negotiated)
      → SupervisionDecision
      → RecoveryAction
      → List PeerReview
      → Trace
      → Result ProfileError (ConsensusOutcome floats)
      → Negotiated
  unfolding settle_revisions
  settle_outcome e next d a reviews t (err x) = unsound x
  settle_outcome e next d a reviews t (ok outcome) =
      if not outcome.approved
      then declined (add_round (round_of d a reviews outcome consensus_rejected [] none) t)
      else settle_revisions e next d a reviews outcome t outcome.revisions

  abbrev pub after_reviews :
      EvidenceSnapshot
      → (RecoveryAction → Trace → Negotiated)
      → SupervisionDecision
      → RecoveryAction
      → Trace
      → List PeerReview × Option Failure
      → Negotiated
  after_reviews e next d a t (reviews, some f) =
      failed f (record t { reviews = t.reviews ++ reviews })
  after_reviews e next d a t (reviews, none) =
      settle_outcome e next d a reviews (record t { reviews = t.reviews ++ reviews })
        (resolve floats hash reviews protocol (decision_scopes a.kind))

  abbrev pub proposal : Text → ℕ → RecoveryAction → SupervisionDecision
  proposal proposer i a = record {
    decision_id = agents.decision_id i;
    round_index = i;
    agent = proposer;
    proposed_action = some a;
    approved = true;
    reason = a.reason;
  }

  abbrev pub negotiate_round :
      Text
      → EvidenceSnapshot
      → ℕ
      → (RecoveryAction → Trace → Negotiated)
      → RecoveryAction
      → Trace
      → Negotiated
  negotiate_round proposer e i next a t =
      let d = proposal proposer i a in
      after_reviews e next d a (record t { decisions = t.decisions ++ d ∷ [] })
        (review_application_action d)

  -- `n` rounds are left, and `i` have been counted.
  unfoldable pub negotiate_from :
      Text → EvidenceSnapshot → ℕ → ℕ → RecoveryAction → Trace → Negotiated
  unfolding settle_outcome collect_reviews reviewers_of
  negotiate_from proposer e zero i a t = declined t
  negotiate_from proposer e (suc n) i a t =
      negotiate_round proposer e (suc i) (negotiate_from proposer e n (suc i)) a t

  -- `_negotiate` of one candidate, after `offset` rounds.
  unfoldable pub negotiate : Text → EvidenceSnapshot → RecoveryAction → ℕ → Negotiated
  unfolding negotiate_from
  negotiate proposer e a offset =
      negotiate_from proposer e (count_of protocol.max_negotiation_rounds) offset a no_trace
