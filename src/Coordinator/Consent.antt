-- ===== src/Coordinator/Consent.antt =====
-- src/aiops_k8s_agents/mutual_supervision.py: what an action that `_negotiate` returns has behind it, and how
-- many rounds there are.
use aiops_research.Base.{
  ℕ, zero, suc, ◌+◌, ◌≤◌, true, Option, none, some, List, [], ◌∷◌, ◌++◌, Text, length,
  length-append, Result, ok, err, Bool-cases, ◌≡◌, ◌≢◌, refl, inl, inr, arith, subst,
}
use aiops_research.Floats.{Floats}
use aiops_research.Actions.{RecoveryAction}
use aiops_research.Protocol.{ProfileError, ResearchProtocolProfile, validate_integrity}
use aiops_research.Consensus.{PeerReview, ConsensusOutcome, resolve}
use aiops_research.Monitor.{EvidenceSnapshot}
use aiops_research.Coordinator.{SupervisionDecision, OutputError, RevisionNote, decision_scopes}
use aiops_research.Coordinator.Negotiation.{
  AgentAdapter, NegotiationRound, Trace, no_trace, Failure, Negotiated, agreed, declined, failed,
  unsound, Reviewers, review_application_action, add_round, settle_revision, settle_revisions,
  settle_outcome, after_reviews, proposal, negotiate_from, negotiate, count_of,
}
use aiops_research.Coordinator.Asked.{IsHeard}
use aiops_research.Coordinator.Heard.{collect_reviews-IsHeard}

module _ (floats : Floats) (hash : ResearchProtocolProfile floats → Text)
    (protocol : ResearchProtocolProfile floats) (adapters : List AgentAdapter) (agents : Reviewers)
    (proposer : Text) where
  -- In one round every agent that the protocol has review the proposer was asked about this very action, none of
  -- them failed, and the consensus on exactly what they answered approves it and asks for no revision.
  pub record IsEndorsed (a : RecoveryAction) : Type 0 where
    pub round : ℕ
    pub reviews : List PeerReview
    pub outcome : ConsensusOutcome floats
    pub reviewed :
        review_application_action floats hash protocol adapters agents
          (proposal floats hash protocol adapters agents proposer round a)
        ≡ (reviews, none)
    pub about :
        (proposal floats hash protocol adapters agents proposer round a).proposed_action ≡ some a
    pub proposed : (proposal floats hash protocol adapters agents proposer round a).agent ≡ proposer
    pub heard :
        IsHeard protocol.review_matrix adapters agents
          (proposal floats hash protocol adapters agents proposer round a)
          reviews
    pub resolved : resolve floats hash reviews protocol (decision_scopes a.kind) ≡ ok outcome
    pub approves : outcome.approved ≡ true
    pub final : outcome.revisions ≡ []

  -- An action is returned only endorsed, at most `m` rounds are recorded, and the profile is refused only
  -- without its integrity.
  abbrev pub IsHonest : ℕ → Negotiated → Type 0
  IsHonest m (agreed a t) = IsEndorsed a × (length t.rounds ≤ m)
  IsHonest m (declined t) = length t.rounds ≤ m
  IsHonest m (failed f t) = length t.rounds ≤ m
  IsHonest m (unsound e) = ¬ (validate_integrity floats hash protocol ≡ ok tt)

  length-snoc :
      (rs : List NegotiationRound) (r : NegotiationRound) (n : ℕ)
      → length (rs ++ r ∷ []) + n ≡ length rs + suc n
  length-snoc rs r n = ground (arith, length-append rs (r ∷ []))

  snoc_fits :
      (rs : List NegotiationRound) (r : NegotiationRound) (n : ℕ)
      → length (rs ++ r ∷ []) ≤ length rs + suc n
  snoc_fits rs r n = ground (arith, length-append rs (r ∷ []))

  module _ (e : EvidenceSnapshot) (n : ℕ) (next : RecoveryAction → Trace → Negotiated)
      (honest : (b : RecoveryAction) (t : Trace) → IsHonest (length t.rounds + n) (next b t))
      (d : SupervisionDecision) (a : RecoveryAction) (reviews : List PeerReview) (t : Trace) where
    abbrev later : NegotiationRound → Trace
    later r = add_round floats hash protocol adapters agents r t

    next_round-IsHonest :
        (r : NegotiationRound) (b : RecoveryAction)
        → IsHonest (length t.rounds + suc n) (next b (later r))
    next_round-IsHonest r b =
        subst (λ m. IsHonest m (next b (later r))) (length-snoc t.rounds r n) (honest b (later r))

    settle_revision-IsHonest :
        (outcome : ConsensusOutcome floats)
        (r : Result OutputError (RecoveryAction × List RevisionNote))
        → IsHonest
            (length t.rounds + suc n)
            (settle_revision floats hash protocol adapters agents next d a reviews outcome t r)
    unfolding settle_revision
    settle_revision-IsHonest outcome (err x) = snoc_fits t.rounds _ n
    settle_revision-IsHonest outcome (ok (b, notes)) = next_round-IsHonest _ b

    settle_revisions-IsHonest :
        (outcome : ConsensusOutcome floats) (rs : List PeerReview)
        → (rs ≡ [] → IsEndorsed a)
        → IsHonest
            (length t.rounds + suc n)
            (settle_revisions floats hash protocol adapters agents e next d a reviews outcome t rs)
    unfolding settle_revisions
    settle_revisions-IsHonest outcome [] endorses = (endorses refl, snoc_fits t.rounds _ n)
    settle_revisions-IsHonest outcome (r ∷ rs) endorses = settle_revision-IsHonest outcome _

    settle_outcome-IsHonest :
        (r : Result ProfileError (ConsensusOutcome floats))
        → ((x : ProfileError) → r ≡ err x → ¬ (validate_integrity floats hash protocol ≡ ok tt))
        → ((outcome : ConsensusOutcome floats)
            → r ≡ ok outcome
            → outcome.approved ≡ true
            → outcome.revisions ≡ []
            → IsEndorsed a)
        → IsHonest
            (length t.rounds + suc n)
            (settle_outcome floats hash protocol adapters agents e next d a reviews t r)
    unfolding settle_outcome
    settle_outcome-IsHonest (err x) refuses endorses = refuses x refl
    settle_outcome-IsHonest (ok outcome) refuses endorses = elim (Bool-cases outcome.approved) [
      | inl yea ↦
          simp (yea)
            (settle_revisions-IsHonest outcome outcome.revisions (endorses outcome refl yea))
      | inr nay ↦ simp (nay) (snoc_fits t.rounds _ n)
    ]

  resolve-sane :
      (reviews : List PeerReview) (scopes : List Text) (x : ProfileError)
      → validate_integrity floats hash protocol ≡ ok tt
      → resolve floats hash reviews protocol scopes ≢ err x
  unfolding resolve
  resolve-sane reviews scopes x sane = rw sane (λ h. cc)

  zero_add : (m : ℕ) → 0 + m ≡ m
  zero_add m = omega arith

  after_reviews-IsHonest :
      (e : EvidenceSnapshot) (n i : ℕ) (next : RecoveryAction → Trace → Negotiated)
      → ((b : RecoveryAction) (t : Trace) → IsHonest (length t.rounds + n) (next b t))
      → (a : RecoveryAction) (t : Trace) (asked : List PeerReview × Option Failure)
      → review_application_action floats hash protocol adapters agents
          (proposal floats hash protocol adapters agents proposer i a)
        ≡ asked
      → IsHonest (length t.rounds + suc n) (
          after_reviews floats hash protocol adapters agents e next
            (proposal floats hash protocol adapters agents proposer i a)
            a
            t
            asked)
  after_reviews-IsHonest e n i next honest a t (reviews, some f) h = ground arith
  after_reviews-IsHonest e n i next honest a t (reviews, none) h =
      settle_outcome-IsHonest e n next honest _ a reviews _ _
        (λ x refused sane. resolve-sane reviews (decision_scopes a.kind) x sane refused)
        (λ outcome resolved approves final. record {
          round = i;
          reviews = reviews;
          outcome = outcome;
          reviewed = h;
          about = refl;
          proposed = refl;
          heard = collect_reviews-IsHeard floats hash protocol adapters agents _ reviews h;
          resolved = resolved;
          approves = approves;
          final = final;
        })

  negotiate_from-IsHonest :
      (e : EvidenceSnapshot) (n i : ℕ) (a : RecoveryAction) (t : Trace)
      → IsHonest
          (length t.rounds + n)
          (negotiate_from floats hash protocol adapters agents proposer e n i a t)
  unfolding negotiate_from
  negotiate_from-IsHonest e zero i a t = ground arith
  negotiate_from-IsHonest e (suc n) i a t =
      after_reviews-IsHonest e n (suc i) _ (negotiate_from-IsHonest e n (suc i)) a _ _ refl

  -- A negotiation records at most `max_negotiation_rounds` rounds, and an action that it returns is endorsed:
  -- in one round every capable agent that the review matrix first lists for the proposer was asked about this
  -- very action, none of them failed, and the consensus on exactly what they answered approves it without a
  -- revision. The profile is refused only if its integrity check fails.
  pub negotiate-IsHonest :
      (e : EvidenceSnapshot) (a : RecoveryAction) (offset : ℕ)
      → IsHonest
          (count_of protocol.max_negotiation_rounds)
          (negotiate floats hash protocol adapters agents proposer e a offset)
  unfolding negotiate
  negotiate-IsHonest e a offset =
      subst
        (λ m. IsHonest m (
          negotiate_from floats hash protocol adapters agents proposer e
            (count_of protocol.max_negotiation_rounds) offset a no_trace))
        (zero_add (count_of protocol.max_negotiation_rounds))
        (negotiate_from-IsHonest e _ offset a no_trace)
