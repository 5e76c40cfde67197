-- ===== src/Coordinator/Asked.antt =====
-- src/aiops_k8s_agents/mutual_supervision.py, `_review_application_action`: who is asked for a review, and what
-- becomes of the answers.
use aiops_research.Base.{
  ◌≡◌, refl, ap, subst, inl, inr, ◌⊎◌, none, some, List, [], ◌∷◌, In, Text, text_eq, text_eq_iff,
  codes, Result, ok, err, ok_inj, ◌>>◌, Bool-cases, raise_if, not, ◌||◌,
}
use aiops_research.First.{IsFirst, IsFirst-here, IsFirst-there, found-IsFirst}
use aiops_research.Consensus.{PeerReview}
use aiops_research.Coordinator.{SupervisionDecision, OutputError, agent_mismatch, target_differs}
use aiops_research.Coordinator.Outputs.{
  ReviewOutput, validate_suggestion, require_output_text, require_output_confidence,
  normalize_peer_review_output,
}
use aiops_research.Coordinator.Negotiation.{AgentAdapter, Reviewers, adapter_of, reviewers_of}

-- What an agent answered of a decision, under its own name and as the review of that decision.
pub record IsReviewOf (name : Text) (d : SupervisionDecision) (o : ReviewOutput) (r : PeerReview)
    : Type 0 where
  pub reviewer : r.reviewer ≡ name
  pub target_agent : r.target_agent ≡ d.agent
  pub target_decision_id : r.target_decision_id ≡ d.decision_id
  pub round_index : r.round_index ≡ d.round_index
  pub verdict : r.verdict ≡ o.review.verdict
  pub suggested_action : r.suggested_action ≡ o.review.suggested_action

go_on :
    {A : Type 0} (check : Result OutputError (Unit {0})) (next : Result OutputError A) {a : A}
    → (check >> next) ≡ ok a
    → next ≡ ok a
go_on (ok tt) next h = h
go_on (err e) next h = cc

pub normalized-IsReviewOf :
    (name : Text) (d : SupervisionDecision) (id : Text) (o : ReviewOutput) (r : PeerReview)
    → normalize_peer_review_output name d d.round_index id o ≡ ok r
    → IsReviewOf name d o r
unfolding normalize_peer_review_output
normalized-IsReviewOf name d id o r h =
    let h1 = go_on (raise_if (not (text_eq o.review.reviewer name)) agent_mismatch) _ h in
    let other =
      not (text_eq o.review.target_agent d.agent)
      || not (text_eq o.review.target_decision_id d.decision_id) in
    let h2 = go_on (raise_if other target_differs) _ h1 in
    let h3 = go_on (validate_suggestion o.review.suggested_action) _ h2 in
    let h4 = go_on (require_output_text o.review.reason) _ h3 in
    let h5 = go_on (require_output_confidence o.is_confidence) _ h4 in
    subst (IsReviewOf name d o) {x = normal} (ok_inj h5) (record {
      reviewer = refl;
      target_agent = refl;
      target_decision_id = refl;
      round_index = refl;
      verdict = refl;
      suggested_action = refl;
    })
  where
    normal : PeerReview
    normal = record o.review {
      review_id = id;
      round_index = d.round_index;
      reviewer = name;
      target_agent = d.agent;
      target_decision_id = d.decision_id;
    }

-- The agents that the protocol has review what the proposer decides: the adapter of each name that the matrix
-- lists first for the proposer, if it can review.
pub record IsReviewer (matrix : List (Text × List Text)) (adapters : List AgentAdapter)
    (proposer name : Text) : Type 0 where
  pub names : List Text
  pub listed : IsFirst {A = Text × List Text} (λ e. e.0 ≡ proposer) (proposer, names) matrix
  pub named : In name names
  pub adapter : AgentAdapter
  pub registered : IsFirst (λ x. x.name ≡ name) adapter adapters
  pub can_review : In (codes "review") adapter.capabilities

-- The reviews are what the reviewers answered, and no reviewer was left out.
pub record IsHeard (matrix : List (Text × List Text)) (adapters : List AgentAdapter)
    (agents : Reviewers) (d : SupervisionDecision) (reviews : List PeerReview) : Type 0 where
  pub all_asked :
      (name : Text)
      → IsReviewer matrix adapters d.agent name
      → (agents.review name d ≡ ok none)
        ⊎ ((o : ReviewOutput) × (r : PeerReview) × (agents.review name d ≡ ok (some o))
            × IsReviewOf name d o r
            × In r reviews)
  pub all_answers :
      (r : PeerReview)
      → In r reviews
      → (name : Text) × (o : ReviewOutput) × IsReviewer matrix adapters d.agent name
        × (agents.review name d ≡ ok (some o))
        × IsReviewOf name d o r

pub adapter_of-IsFirst :
    (name : Text) (bs : List AgentAdapter) (b : AgentAdapter)
    → adapter_of name bs ≡ some b
    → IsFirst (λ x. x.name ≡ name) b bs
unfolding adapter_of
adapter_of-IsFirst name [] b h = cc
adapter_of-IsFirst name (x ∷ bs) b h = elim (Bool-cases (text_eq x.name name)) [
  | inl e ↦
      let same : x ≡ b = some_same (rw e at h) in
      subst (λ y. IsFirst (λ z. z.name ≡ name) y (x ∷ bs)) same
        (IsFirst-here bs ((text_eq_iff x.name name).0 e))
  | inr d ↦
      IsFirst-there (λ e. cc ((text_eq_iff x.name name).1 e, d))
        (adapter_of-IsFirst name bs b (rw d at h))
]
  where
    some_same : {x y : AgentAdapter} → some x ≡ some y → x ≡ y
    some_same {x} h = ap (λ o. elim o [ none ↦ x | some z ↦ z ]) h

pub adapter_of-found :
    (name : Text) (bs : List AgentAdapter) (b : AgentAdapter)
    → IsFirst (λ x. x.name ≡ name) b bs
    → adapter_of name bs ≡ some b
unfolding adapter_of
adapter_of-found name bs b f =
    found-IsFirst (adapter_of name) (some b)
      (λ x xs n. elim (Bool-cases (text_eq x.name name)) [
        | inl e ↦ absurd (n ((text_eq_iff x.name name).0 e))
        | inr d ↦ rw d refl
      ])
      b (λ xs h. rw ((text_eq_iff b.name name).1 h) refl) bs f

pub reviewers_of-found :
    (name : Text) (names : List Text) (matrix : List (Text × List Text))
    → IsFirst {A = Text × List Text} (λ e. e.0 ≡ name) (name, names) matrix
    → reviewers_of name matrix ≡ names
unfolding reviewers_of
reviewers_of-found name names matrix f =
    found-IsFirst {A = Text × List Text} (reviewers_of name) names
      (λ (t, ns) xs n. elim (Bool-cases (text_eq t name)) [
        | inl e ↦ absurd (n ((text_eq_iff t name).0 e))
        | inr d ↦ rw d refl
      ])
      (name, names) (λ xs h. rw ((text_eq_iff name name).1 refl) refl) matrix f

-- A name among the reviewers is in the first entry of the proposer.
pub reviewers_of-IsFirst :
    (proposer name : Text) (matrix : List (Text × List Text))
    → In name (reviewers_of proposer matrix)
    → IsFirst {A = Text × List Text}
        (λ e. e.0 ≡ proposer)
        (proposer, reviewers_of proposer matrix)
        matrix
unfolding reviewers_of
reviewers_of-IsFirst proposer name [] m = elim m [ ]
reviewers_of-IsFirst proposer name ((t, ns) ∷ matrix) m = elim (Bool-cases (text_eq t proposer)) [
  | inl e ↦ rw e (
      subst (λ x. IsFirst {A = Text × List Text} (λ e. e.0 ≡ proposer) (x, ns) ((t, ns) ∷ matrix))
        ((text_eq_iff t proposer).0 e) (IsFirst-here matrix ((text_eq_iff t proposer).0 e)))
  | inr d ↦ rw d (
      IsFirst-there (λ e. cc ((text_eq_iff t proposer).1 e, d))
        (reviewers_of-IsFirst proposer name matrix (rw d at m)))
]
