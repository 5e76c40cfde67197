-- ===== src/Consensus/RoleVeto.antt =====
-- src/aiops_k8s_agents/consensus.py: what the strategies of vetoes decide.
use aiops_research.Base.{
  ◌+◌, Bool, false, not, ◌&&◌, List, any, select, length, ◌≡◌, ◌⊎◌, ap, ◌∙◌, inl, inr, arith, Text,
  ok, Result-cases, true, none, some, [], ◌∷◌, In, refl, subst, Bool-cases, Option-cases, any-In,
  any-of_In, text_eq, text_eq_iff, contains_text, contains_text_iff, ◌↔◌,
}
use aiops_research.First.{IsFirst, IsFirst-here, IsFirst-there, found-IsFirst}
use aiops_research.Floats.{Floats}
use aiops_research.Protocol.{
  ConsensusStrategy, role_based_veto, unanimous_veto, weighted_majority, ResearchProtocolProfile,
  ProtocolAgentBinding, validate_integrity,
}
use aiops_research.Consensus.{
  ReviewVerdict, approve, revise, veto, abstain, binding_of, PeerReview, ConsensusOutcome,
  reviewers, is_veto, is_enabled_reviewer, in_scope, order_reviews, resolve, resolve_by,
  resolve_role_based_veto, resolve_unanimous_veto, resolve_weighted_majority,
}
use aiops_research.Consensus.Order.{
  has_none-select, any-select, any-order_reviews, length-select_split, length-select-select,
  length-order_reviews, length-reviewers,
}

-- A review that blocks a decision on the scopes: the veto of an agent that the profile enables, the first of that
-- name, which under the role-based strategy has one of the scopes among its own.
pub record Blocks (floats : Floats) (p : ResearchProtocolProfile floats) (scopes : List Text)
    (r : PeerReview) : Type 0 where
  pub vetoes : r.verdict ≡ veto
  pub binding : ProtocolAgentBinding floats
  pub bound : IsFirst (λ b. b.name ≡ r.reviewer) binding p.agents
  pub enabled : binding.enabled ≡ true
  pub scoped :
      p.consensus_strategy ≡ role_based_veto
      → (scope : Text) × In scope scopes × In scope binding.veto_scopes

-- The same as a test, in the words of the code.
abbrev blocks :
    (floats : Floats)
    → ResearchProtocolProfile floats
    → List Text
    → ConsensusStrategy
    → PeerReview
    → Bool
blocks floats p scopes role_based_veto r =
    is_enabled_reviewer floats p.agents r
    && (is_veto r.verdict && in_scope floats p.agents scopes r)
blocks floats p scopes unanimous_veto r = is_enabled_reviewer floats p.agents r && is_veto r.verdict
blocks floats p scopes weighted_majority r = false

is_veto-veto : (v : ReviewVerdict) → is_veto v ≡ true → v ≡ veto
is_veto-veto approve h = cc
is_veto-veto revise h = cc
is_veto-veto veto h = refl
is_veto-veto abstain h = cc

both3 : (a b c : Bool) → (a && (b && c)) ≡ true → (a ≡ true) × (b ≡ true) × (c ≡ true)
both3 a b c h = (ground arith, ground arith, ground arith)

both2 : (a b : Bool) → (a && b) ≡ true → (a ≡ true) × (b ≡ true)
both2 a b h = (ground arith, ground arith)

module _ (floats : Floats) where
  some_same : {x y : ProtocolAgentBinding floats} → some x ≡ some y → x ≡ y
  some_same {x} h = ap (λ o. elim o [ none ↦ x | some z ↦ z ]) h

  binding_of-IsFirst :
      (name : Text) (bs : List (ProtocolAgentBinding floats)) (b : ProtocolAgentBinding floats)
      → binding_of floats name bs ≡ some b
      → IsFirst (λ x. x.name ≡ name) b bs
  unfolding binding_of
  binding_of-IsFirst name [] b h = cc
  binding_of-IsFirst name (x ∷ bs) b h = elim (Bool-cases (text_eq x.name name)) [
    | inl e ↦
        let same : x ≡ b = some_same (rw e at h) in
        subst (λ (y : ProtocolAgentBinding floats). IsFirst (λ z. z.name ≡ name) y (x ∷ bs)) same
          (IsFirst-here bs ((text_eq_iff x.name name).0 e))
    | inr d ↦
        IsFirst-there (λ e. cc ((text_eq_iff x.name name).1 e, d))
          (binding_of-IsFirst name bs b (rw d at h))
  ]

  binding_of-found :
      (name : Text) (bs : List (ProtocolAgentBinding floats)) (b : ProtocolAgentBinding floats)
      → IsFirst (λ x. x.name ≡ name) b bs
      → binding_of floats name bs ≡ some b
  unfolding binding_of
  binding_of-found name bs b f =
      found-IsFirst (binding_of floats name) (some b)
        (λ x xs n. elim (Bool-cases (text_eq x.name name)) [
          | inl e ↦ absurd (n ((text_eq_iff x.name name).0 e))
          | inr d ↦ rw d refl
        ])
        b (λ xs h. rw ((text_eq_iff b.name name).1 h) refl) bs f

  in_scope_iff :
      (bs : List (ProtocolAgentBinding floats)) (scopes : List Text) (r : PeerReview)
      (b : ProtocolAgentBinding floats)
      → binding_of floats r.reviewer bs ≡ some b
      → (in_scope floats bs scopes r ≡ true)
        ↔ ((scope : Text) × In scope scopes × In scope b.veto_scopes)
  unfolding in_scope
  in_scope_iff bs scopes r b h = rw h (
    λ e.
        let (s, m, c) = any-In (λ s. contains_text s b.veto_scopes) scopes e in
        (s, m, (contains_text_iff s b.veto_scopes).0 c),
    λ (s, m, c).
        any-of_In (λ s. contains_text s b.veto_scopes) scopes s m
          ((contains_text_iff s b.veto_scopes).1 c),
  )

  is_enabled-binding :
      (bs : List (ProtocolAgentBinding floats)) (r : PeerReview)
      → is_enabled_reviewer floats bs r ≡ true
      → (b : ProtocolAgentBinding floats) × (binding_of floats r.reviewer bs ≡ some b)
        × (b.enabled ≡ true)
  unfolding is_enabled_reviewer
  is_enabled-binding bs r h = elim (Option-cases (binding_of floats r.reviewer bs)) [
    | inl e ↦ absurd (ground (arith, e))
    | inr (b, e) ↦ (b, e, rw e at h)
  ]

  module _ (p : ResearchProtocolProfile floats) (scopes : List Text) (r : PeerReview) where
    blocks-Blocks :
        (st : ConsensusStrategy)
        → p.consensus_strategy ≡ st
        → blocks floats p scopes st r ≡ true
        → Blocks floats p scopes r
    blocks-Blocks role_based_veto same h =
        let (a, v, s) = both3 _ _ _ h in
        let (b, e, f) = is_enabled-binding p.agents r a in
        record {
          vetoes = is_veto-veto r.verdict v;
          binding = b;
          bound = binding_of-IsFirst r.reviewer p.agents b e;
          enabled = f;
          scoped = λ st. (in_scope_iff p.agents scopes r b e).0 s;
        }
    blocks-Blocks unanimous_veto same h =
        let (a, v) = both2 _ _ h in
        let (b, e, f) = is_enabled-binding p.agents r a in
        record {
          vetoes = is_veto-veto r.verdict v;
          binding = b;
          bound = binding_of-IsFirst r.reviewer p.agents b e;
          enabled = f;
          scoped = λ st. cc;
        }
    blocks-Blocks weighted_majority same h = cc

    Blocks-blocks :
        (st : ConsensusStrategy)
        → p.consensus_strategy ≡ st
        → (st ≡ role_based_veto) ⊎ (st ≡ unanimous_veto)
        → Blocks floats p scopes r
        → blocks floats p scopes st r ≡ true
    unfolding is_enabled_reviewer
    Blocks-blocks role_based_veto same either x =
        let e = binding_of-found r.reviewer p.agents x.binding x.bound in
        let s = (in_scope_iff p.agents scopes r x.binding e).1 (x.scoped same) in
        rw (e, x.enabled, s, x.vetoes) refl
    Blocks-blocks unanimous_veto same either x =
        let e = binding_of-found r.reviewer p.agents x.binding x.bound in
        rw (e, x.enabled, x.vetoes) refl
    Blocks-blocks weighted_majority same either x = elim either [ inl e ↦ cc | inr e ↦ cc ]

module _ (floats : Floats) (hash : ResearchProtocolProfile floats → Text)
    (p : ResearchProtocolProfile floats) (scopes : List Text) (rs : List PeerReview) where
  abbrev enabled : List PeerReview
  enabled = select (is_enabled_reviewer floats p.agents) (order_reviews floats p.agents rs)

  resolve_ok :
      (o : ConsensusOutcome floats)
      → resolve floats hash rs p scopes ≡ ok o
      → o ≡ resolve_by floats p.consensus_strategy enabled p.agents scopes
  unfolding resolve
  resolve_ok o h = elim (Result-cases (validate_integrity floats hash p)) [
    | inl (u, e) ↦ ground (arith, e)
    | inr (e, bad) ↦ absurd (ground (arith, bad))
  ]

  any-enabled :
      (q : PeerReview → Bool)
      → any q enabled ≡ any (λ r. is_enabled_reviewer floats p.agents r && q r) rs
  any-enabled q =
      any-select q (is_enabled_reviewer floats p.agents) (order_reviews floats p.agents rs)
      ∙ any-order_reviews floats p.agents (λ r. is_enabled_reviewer floats p.agents r && q r) rs

  approves :
      (st : ConsensusStrategy)
      → (st ≡ role_based_veto) ⊎ (st ≡ unanimous_veto)
      → (resolve_by floats st enabled p.agents scopes).approved
        ≡ not (any (blocks floats p scopes st) rs)
  unfolding resolve_role_based_veto resolve_unanimous_veto
  approves role_based_veto h =
      has_none-select (λ r. is_veto r.verdict && in_scope floats p.agents scopes r) enabled
      ∙ ap not (any-enabled (λ r. is_veto r.verdict && in_scope floats p.agents scopes r))
  approves unanimous_veto h =
      has_none-select (λ r. is_veto r.verdict) enabled
      ∙ ap not (any-enabled (λ r. is_veto r.verdict))
  approves weighted_majority h = elim h [ inl e ↦ cc | inr e ↦ cc ]

  test_approves :
      (o : ConsensusOutcome floats)
      → (p.consensus_strategy ≡ role_based_veto) ⊎ (p.consensus_strategy ≡ unanimous_veto)
      → resolve floats hash rs p scopes ≡ ok o
      → o.approved ≡ not (any (blocks floats p scopes p.consensus_strategy) rs)
  test_approves o strategy h =
      ap (λ (x : ConsensusOutcome floats). x.approved) (resolve_ok o h)
      ∙ approves p.consensus_strategy strategy

  refused_any : (a b : Bool) → a ≡ not b → a ≡ false → b ≡ true
  refused_any a b h e = ground arith

  any_refused : (a b : Bool) → a ≡ not b → b ≡ true → a ≡ false
  any_refused a b h e = ground arith

  -- A decision by vetoes is refused exactly when one of the reviews, in whatever order they came, blocks it: it
  -- is the veto of an agent that the profile enables, the first of that name in the profile, which under the
  -- role-based strategy has one of the scopes of the decision among its own.
  pub resolve_approves :
      (o : ConsensusOutcome floats)
      → (p.consensus_strategy ≡ role_based_veto) ⊎ (p.consensus_strategy ≡ unanimous_veto)
      → resolve floats hash rs p scopes ≡ ok o
      → (o.approved ≡ false) ↔ ((r : PeerReview) × In r rs × Blocks floats p scopes r)
  resolve_approves o strategy h = (
    λ refused.
        let (r, m, e) =
          any-In (blocks floats p scopes p.consensus_strategy) rs
            (refused_any o.approved _ (test_approves o strategy h) refused) in
        (r, m, blocks-Blocks floats p scopes r p.consensus_strategy refl e),
    λ (r, m, x). any_refused o.approved _ (test_approves o strategy h) (
        any-of_In (blocks floats p scopes p.consensus_strategy) rs r m
          (Blocks-blocks floats p scopes r p.consensus_strategy refl strategy x)),
  )

  abbrev vetoes : PeerReview → Bool
  vetoes r = is_enabled_reviewer floats p.agents r && is_veto r.verdict

  enabled_vetoes :
      length (reviewers (select (λ r. is_veto r.verdict) enabled)) ≡ length (select vetoes rs)
  enabled_vetoes =
      length-select-select (λ r. is_veto r.verdict) (is_enabled_reviewer floats p.agents)
        (order_reviews floats p.agents rs)
      ∙ length-order_reviews floats p.agents vetoes rs
      ∙ length-reviewers (select vetoes rs)

  reports :
      (st : ConsensusStrategy)
      → length (resolve_by floats st enabled p.agents scopes).blocking_vetoes
          + length (resolve_by floats st enabled p.agents scopes).non_blocking_objections
        ≡ length (select vetoes rs)
  unfolding resolve_role_based_veto resolve_unanimous_veto resolve_weighted_majority
  reports role_based_veto =
      length-select_split (λ r. is_veto r.verdict) (in_scope floats p.agents scopes) enabled
      ∙ enabled_vetoes
  reports unanimous_veto = omega (arith, enabled_vetoes)
  reports weighted_majority = omega (arith, enabled_vetoes)

  -- No veto is lost: under each strategy the blocking vetoes and the objections that do not block
  -- are together as many as the vetoes of enabled agents among the reviews.
  pub resolve_reports :
      (o : ConsensusOutcome floats)
      → resolve floats hash rs p scopes ≡ ok o
      → length o.blocking_vetoes + length o.non_blocking_objections
        ≡ length (select (λ r. is_enabled_reviewer floats p.agents r && is_veto r.verdict) rs)
  resolve_reports o h = rw (resolve_ok o h) (reports p.consensus_strategy)
