-- ===== src/Consensus.antt =====
-- src/aiops_k8s_agents/consensus.py: `ConsensusResolver.resolve` with its three strategies, over the
-- reviews of src/aiops_k8s_agents/mutual_supervision_models.py.
pub mod RoleVeto
pub mod Order
use aiops_research.Base.{
  ℕ, zero, suc, ◌+◌, Bool, true, false, not, ◌&&◌, ◌||◌, Option, none, some, List, [], ◌∷◌, map,
  Text, text_eq, contains_text, any, select, length, Result, ok, err, ◌>>=◌, ◌>>◌, ltb, leb, ◌==◌,
  if◌then◌else◌,
}
use aiops_research.Floats.{Floats}
use aiops_research.Actions.{RecoveryAction}
use aiops_research.Protocol.{
  ConsensusStrategy, role_based_veto, unanimous_veto, weighted_majority, ProfileError,
  ProtocolAgentBinding, ResearchProtocolProfile, validate_integrity,
}

pub data ReviewVerdict : Type 0 where
  approve revise veto abstain : ReviewVerdict

-- The run and the policy, the confidence and the evidence of a review are left out.
pub record PeerReview : Type 0 where
  pub review_id : Text
  pub round_index : ℕ
  pub reviewer : Text
  pub target_agent : Text
  pub target_decision_id : Text
  pub verdict : ReviewVerdict
  pub reason : Text
  pub suggested_action : Option RecoveryAction

-- `a < b` on texts, by code points.
unfoldable pub text_lt : Text → Text → Bool
text_lt s [] = false
text_lt [] (d ∷ t) = true
text_lt (c ∷ s) (d ∷ t) = ltb c d || (c == d && text_lt s t)

abbrev pub is_veto : ReviewVerdict → Bool
is_veto veto = true
is_veto _ = false

abbrev pub is_revise : ReviewVerdict → Bool
is_revise revise = true
is_revise _ = false

abbrev pub is_approve : ReviewVerdict → Bool
is_approve approve = true
is_approve _ = false

-- The sort key of a review: the place of its reviewer, the reviewer and the id.
abbrev pub key_le : (ℕ × Text × Text) → (ℕ × Text × Text) → Bool
key_le (m, r, i) (n, s, j) =
    ltb m n || (m == n && (text_lt r s || (text_eq r s && not (text_lt j i))))

abbrev pub reviewers : List PeerReview → List Text
reviewers rs = map (λ r. r.reviewer) rs

abbrev pub has_none : List Text → Bool
has_none [] = true
has_none (t ∷ ts) = false

module _ (floats : Floats) where
  open floats use {F, zero as float_zero, one, half, add, div, truth, geb}

  pub record ConsensusOutcome : Type 0 where
    pub approved : Bool
    pub strategy : ConsensusStrategy
    pub score : F
    pub blocking_vetoes : List Text
    pub non_blocking_objections : List Text
    pub revisions : List PeerReview

  abbrev pub Bindings : Type 0
  Bindings = List (ProtocolAgentBinding floats)

  -- `bindings.get(name)`; the names are unique.
  unfoldable pub binding_of :
      Text → List (ProtocolAgentBinding floats) → Option (ProtocolAgentBinding floats)
  binding_of name [] = none
  binding_of name (b ∷ bs) = if text_eq b.name name then some b else binding_of name bs

  -- `binding_order.get(name, len(binding_order))`
  unfoldable pub place_of : Text → List (ProtocolAgentBinding floats) → ℕ
  place_of name [] = 0
  place_of name (b ∷ bs) =
      let rest = suc (place_of name bs) in if text_eq b.name name then 0 else rest

  unfoldable pub key_of : List (ProtocolAgentBinding floats) → PeerReview → ℕ × Text × Text
  unfolding place_of
  key_of bs r = (place_of r.reviewer bs, r.reviewer, r.review_id)

  -- `sorted`, which is stable.
  unfoldable pub insert_review :
      List (ProtocolAgentBinding floats) → PeerReview → List PeerReview → List PeerReview
  unfolding key_of text_lt
  insert_review bs r [] = r ∷ []
  insert_review bs r (q ∷ qs) =
      if key_le (key_of bs r) (key_of bs q) then r ∷ q ∷ qs else q ∷ insert_review bs r qs

  unfoldable pub order_reviews :
      List (ProtocolAgentBinding floats) → List PeerReview → List PeerReview
  order_reviews bs [] = []
  order_reviews bs (r ∷ rs) = insert_review bs r (order_reviews bs rs)

  abbrev pub enabled_binding : Option (ProtocolAgentBinding floats) → Bool
  enabled_binding none = false
  enabled_binding (some b) = b.enabled

  -- `_is_enabled_reviewer`
  unfoldable pub is_enabled_reviewer : List (ProtocolAgentBinding floats) → PeerReview → Bool
  is_enabled_reviewer bs r = enabled_binding (binding_of r.reviewer bs)

  abbrev scopes_of : Option (ProtocolAgentBinding floats) → List Text
  scopes_of none = []
  scopes_of (some b) = b.veto_scopes

  -- Whether one of the scopes is among the reviewer's veto scopes.
  unfoldable pub in_scope : List (ProtocolAgentBinding floats) → List Text → PeerReview → Bool
  in_scope bs scopes r =
      any (λ scope. contains_text scope (scopes_of (binding_of r.reviewer bs))) scopes

  unfoldable pub resolve_role_based_veto :
      List PeerReview
      → List PeerReview
      → List (ProtocolAgentBinding floats)
      → List Text
      → ConsensusOutcome
  unfolding in_scope
  resolve_role_based_veto rs revisions bs scopes =
      let blocking = reviewers (select (λ r. is_veto r.verdict && in_scope bs scopes r) rs) in
      record {
        approved = has_none blocking;
        strategy = role_based_veto;
        score = if has_none blocking then one else float_zero;
        blocking_vetoes = blocking;
        non_blocking_objections =
            reviewers (select (λ r. is_veto r.verdict && not (in_scope bs scopes r)) rs);
        revisions = revisions;
      }

  unfoldable pub resolve_unanimous_veto : List PeerReview → List PeerReview → ConsensusOutcome
  resolve_unanimous_veto rs revisions =
      let blocking = reviewers (select (λ r. is_veto r.verdict) rs) in
      record {
        approved = has_none blocking;
        strategy = unanimous_veto;
        score = if has_none blocking then one else float_zero;
        blocking_vetoes = blocking;
        non_blocking_objections = [];
        revisions = revisions;
      }

  abbrev weight_of : Option (ProtocolAgentBinding floats) → F
  weight_of none = float_zero
  weight_of (some b) = b.consensus_weight

  -- `sum(...)` adds from the left, from zero.
  unfoldable pub weight_from : List (ProtocolAgentBinding floats) → F → List PeerReview → F
  weight_from bs acc [] = acc
  weight_from bs acc (r ∷ rs) = weight_from bs (add acc (weight_of (binding_of r.reviewer bs))) rs

  abbrev pub total_weight : List (ProtocolAgentBinding floats) → List PeerReview → F
  total_weight bs rs = weight_from bs float_zero rs

  unfoldable pub resolve_weighted_majority :
      List PeerReview → List PeerReview → List (ProtocolAgentBinding floats) → ConsensusOutcome
  unfolding weight_from
  resolve_weighted_majority rs revisions bs =
      let participating = total_weight bs rs in
      let approving = total_weight bs (select (λ r. is_approve r.verdict) rs) in
      let score = if truth participating then div approving participating else float_zero in
      record {
        approved = geb score half;
        strategy = weighted_majority;
        score = score;
        blocking_vetoes = [];
        non_blocking_objections = reviewers (select (λ r. is_veto r.verdict) rs);
        revisions = revisions;
      }

  abbrev pub resolve_by :
      ConsensusStrategy
      → List PeerReview
      → List (ProtocolAgentBinding floats)
      → List Text
      → ConsensusOutcome
  resolve_by role_based_veto rs bs scopes =
      resolve_role_based_veto rs (select (λ r. is_revise r.verdict) rs) bs scopes
  resolve_by unanimous_veto rs bs scopes =
      resolve_unanimous_veto rs (select (λ r. is_revise r.verdict) rs)
  resolve_by weighted_majority rs bs scopes =
      resolve_weighted_majority rs (select (λ r. is_revise r.verdict) rs) bs

  -- `ConsensusResolver.resolve`; the scopes are normalized to a list.
  unfoldable pub resolve :
      (ResearchProtocolProfile floats → Text)
      → List PeerReview
      → ResearchProtocolProfile floats
      → List Text
      → Result ProfileError ConsensusOutcome
  unfolding resolve_role_based_veto resolve_unanimous_veto resolve_weighted_majority
  resolve hash rs p scopes = do
    validate_integrity floats hash p
    let enabled = select (is_enabled_reviewer p.agents) (order_reviews p.agents rs)
    ok (resolve_by p.consensus_strategy enabled p.agents scopes)
