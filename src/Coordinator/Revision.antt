-- ===== src/Coordinator/Revision.antt =====
-- src/aiops_k8s_agents/mutual_supervision.py: what `_apply_revisions` makes of the suggestions.
use aiops_research.Base.{
  min_ℤ, ≤ℤ_refl, ≤ℤ_trans, min_ℤ_left, min_ℤ_right, ℤ, ◌≤ℤ◌, Option, none, some, List, [], ◌∷◌,
  All, Text, ok, Result-cases, Option-cases, Bool-cases, ◌≡◌, refl, subst, inl, inr, arith,
}
use aiops_research.Actions.{scale_out, Replicas, int, bool, other, RecoveryAction}
use aiops_research.Floats.{Floats}
use aiops_research.Protocol.{ResearchProtocolProfile}
use aiops_research.Consensus.{PeerReview}
use aiops_research.Monitor.{EvidenceSnapshot}
use aiops_research.Coordinator.{
  RevisionNote, action_semantic_error, suggestions_of, lowest, all_kind, revise_kind, revise_with,
  apply_revisions,
}
use aiops_research.Coordinator.Negotiation.{AgentAdapter, Reviewers, revised}
use aiops_research.Coordinator.Sound.{IsAllowed, action_semantic_error-IsAllowed}

-- A count that is a whole number, not below `z`.
abbrev pub AtLeast : ℤ → RecoveryAction → Type 0
AtLeast z s = (y : ℤ) × (s.replicas ≡ some (int y)) × (z ≤ℤ y)

All-AtLeast :
    (w z : ℤ) (ss : List RecoveryAction) → w ≤ℤ z → All (AtLeast z) ss → All (AtLeast w) ss
All-AtLeast w z [] h v = tt
All-AtLeast w z (s ∷ ss) h ((y, e, k), v) = ((y, e, ≤ℤ_trans w z y h k), All-AtLeast w z ss h v)

lowest_bounds :
    (r : Option Replicas) (ss : List RecoveryAction) (z : ℤ)
    → lowest r ss ≡ ok z
    → ((y : ℤ) × (r ≡ some (int y)) × (z ≤ℤ y)) × All (AtLeast z) ss
unfolding lowest
lowest_bounds none ss z h = cc
lowest_bounds (some (bool b)) ss z h = cc
lowest_bounds (some (other t)) ss z h = cc
lowest_bounds (some (int y)) [] z h = ((z, cc, ≤ℤ_refl z), tt)
lowest_bounds (some (int y)) (s ∷ ss) z h = elim (Result-cases (lowest s.replicas ss)) [
  | inr (e, f) ↦ cc
  | inl (w, f) ↦
      let below = lowest_bounds s.replicas ss w f in
      let least : min_ℤ y w ≡ z = ground (arith, h, f) in
      subst (λ k. ((x : ℤ) × (some (int y) ≡ some (int x)) × (k ≤ℤ x)) × All (AtLeast k) (s ∷ ss))
        least
        ((y, refl, min_ℤ_left y w), All-AtLeast (min_ℤ y w) w (s ∷ ss) (min_ℤ_right y w) below)
]

-- The target of a revised scale-out is the target of the action, and its count is at most each count that the
-- reviewers suggest, all of which are whole numbers.
pub apply_revisions-lowest :
    (a b : RecoveryAction) (reviews : List PeerReview) (notes : List RevisionNote)
    (s : RecoveryAction) (ss : List RecoveryAction)
    → a.kind ≡ scale_out
    → suggestions_of reviews ≡ s ∷ ss
    → apply_revisions a reviews ≡ ok (b, notes)
    → (z : ℤ) × (b.replicas ≡ some (int z))
      × All (AtLeast z) (s ∷ ss)
      × (b.namespace ≡ a.namespace)
      × (b.deployment ≡ a.deployment)
      × (b.kind ≡ scale_out)
unfolding apply_revisions revise_with revise_kind
apply_revisions-lowest a b reviews notes s ss k suggested h =
    elim (Bool-cases (all_kind a.kind (s ∷ ss))) [
      | inr e ↦ absurd (ground (arith, h, k, suggested, e))
      | inl e ↦ elim (Result-cases (lowest s.replicas ss)) [
        | inr (x, f) ↦ absurd (ground (arith, h, k, suggested, e, f))
        | inl (z, f) ↦ (
          z,
          ground (arith, h, k, suggested, e, f),
          lowest_bounds s.replicas ss z f,
          ground (arith, h, k, suggested, e, f),
          ground (arith, h, k, suggested, e, f),
          ground (arith, h, k, suggested, e, f),
        )
      ]
    ]

module _ (floats : Floats) (hash : ResearchProtocolProfile floats → Text)
    (protocol : ResearchProtocolProfile floats) (adapters : List AgentAdapter)
    (agents : Reviewers) where
  -- An action that a negotiation goes on with after a revision is allowed by the protocol for the target of the
  -- evidence, and a scale-out among them still grows.
  pub revised-IsAllowed :
      (e : EvidenceSnapshot) (a b : RecoveryAction) (reviews : List PeerReview)
      (notes : List RevisionNote)
      → revised floats hash protocol adapters agents e a reviews ≡ ok (b, notes)
      → IsAllowed protocol.action_space e e.namespace e.deployment b
  unfolding revised
  revised-IsAllowed e a b reviews notes h = elim (Result-cases (apply_revisions a reviews)) [
    | inr (x, f) ↦ absurd (ground (arith, h, f))
    | inl ((q, n), f) ↦
        elim (Option-cases
          (action_semantic_error protocol.action_space e e.namespace e.deployment q)) [
            | inr (x, g) ↦ absurd (ground (arith, h, f, g))
            | inl g ↦
                let same : q ≡ b = ground (arith, h, f, g) in
                subst (IsAllowed protocol.action_space e e.namespace e.deployment) same
                  (action_semantic_error-IsAllowed _ _ _ _ q g)
          ]
  ]
