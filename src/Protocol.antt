-- ===== src/Protocol.antt =====
-- src/aiops_k8s_agents/research_protocol.py: the protocol profile and its validation. The tests of a
-- value's type that the annotations settle are left out. A dictionary is the list of its items, and
-- `hash` computes the configuration hash of a profile's contents.
use aiops_research.Base.{
  ℤ, pos, ltb_ℤ, Bool, true, false, not, ◌&&◌, ◌||◌, List, [], ◌∷◌, map, Text, text_eq,
  contains_text, all, any, Result, ok, ◌>>◌, raise_if,
}
use aiops_research.Python.Strip.{strip}
use aiops_research.Floats.{Floats}
use aiops_research.Actions.{RecoveryActionKind, observe_only, rollout_restart, scale_out, foreign}

pub data ConsensusStrategy : Type 0 where
  role_based_veto unanimous_veto weighted_majority : ConsensusStrategy

pub data ProfileError : Type 0 where
  blank_text negative_weight too_few_rounds : ProfileError
  no_scopes duplicate_scopes no_capabilities duplicate_capabilities : ProfileError
  no_agents duplicate_agents no_enabled_agents matrix_mismatch : ProfileError
  no_reviewers unknown_reviewer self_review duplicate_reviewers : ProfileError
  fallback_not_observe no_human_review unknown_action no_actions duplicate_actions : ProfileError
  fallback_not_in_space no_reward_weights no_tags duplicate_tags hash_mismatch : ProfileError

abbrev pub Valid : Type 0
Valid = Result ProfileError Unit

abbrev is_empty : {A : Type 0} → List A → Bool
is_empty [] = true
is_empty (x ∷ xs) = false

-- `len(set(texts)) != len(texts)`
unfoldable pub has_duplicates : List Text → Bool
has_duplicates [] = false
has_duplicates (t ∷ ts) = contains_text t ts || has_duplicates ts

-- `set(xs) <= set(ys)`
abbrev pub is_subset : List Text → List Text → Bool
is_subset xs ys = all (λ x. contains_text x ys) xs

-- A loop of checks, each of which may raise.
unfoldable pub each : {A : Type 0} → (A → Valid) → List A → Valid
each f [] = ok tt
each f (x ∷ xs) = f x >> each f xs

abbrev pub semantic_text : Text → Valid
semantic_text t = raise_if (is_empty (strip t)) blank_text

abbrev round_count : ℤ → ℤ → Valid
round_count value minimum = raise_if (ltb_ℤ value minimum) too_few_rounds

abbrev is_observe : RecoveryActionKind → Bool
is_observe observe_only = true
is_observe _ = false

abbrev is_foreign : RecoveryActionKind → Bool
is_foreign foreign = true
is_foreign _ = false

abbrev pub same_kind : RecoveryActionKind → RecoveryActionKind → Bool
same_kind observe_only observe_only = true
same_kind rollout_restart rollout_restart = true
same_kind scale_out scale_out = true
same_kind _ _ = false

abbrev pub contains_kind : RecoveryActionKind → List RecoveryActionKind → Bool
contains_kind k ks = any (same_kind k) ks

unfoldable pub has_duplicate_kinds : List RecoveryActionKind → Bool
has_duplicate_kinds [] = false
has_duplicate_kinds (k ∷ ks) = contains_kind k ks || has_duplicate_kinds ks

module _ (floats : Floats) where
  open floats use {F, is_weight}

  pub record ProtocolAgentBinding : Type 0 where
    pub name : Text
    pub implementation_id : Text
    pub runtime : Text
    pub enabled : Bool
    pub veto_scopes : List Text
    pub consensus_weight : F
    pub capabilities : List Text

  pub record ResearchProtocolProfile : Type 0 where
    pub profile_id : Text
    pub version : Text
    pub agents : List ProtocolAgentBinding
    pub review_matrix : List (Text × List Text)
    pub consensus_strategy : ConsensusStrategy
    pub max_negotiation_rounds : ℤ
    pub max_replan_attempts : ℤ
    pub fallback_action : RecoveryActionKind
    pub human_review_on_failure : Bool
    pub action_space : List RecoveryActionKind
    pub reward_weights : List (Text × F)
    pub experiment_tags : List Text
    pub config_hash : Text

  unfoldable pub semantic_weight : F → Valid
  semantic_weight w = raise_if (not (is_weight w)) negative_weight

  unfoldable pub validate_binding : ProtocolAgentBinding → Valid
  unfolding semantic_weight each has_duplicates
  validate_binding b = do
    semantic_text b.name
    semantic_text b.implementation_id
    semantic_text b.runtime
    raise_if (is_empty b.veto_scopes) no_scopes
    each semantic_text b.veto_scopes
    raise_if (has_duplicates b.veto_scopes) duplicate_scopes
    semantic_weight b.consensus_weight
    raise_if (is_empty b.capabilities) no_capabilities
    each semantic_text b.capabilities
    raise_if (has_duplicates b.capabilities) duplicate_capabilities

  abbrev pub names : List (ProtocolAgentBinding) → List Text
  names agents = map (λ b. b.name) agents

  unfoldable pub validate_reviewers : List Text → Text × List Text → Valid
  unfolding each has_duplicates
  validate_reviewers known (target, reviewers) = do
    semantic_text target
    raise_if (is_empty reviewers) no_reviewers
    each semantic_text reviewers
    raise_if (not (is_subset reviewers known)) unknown_reviewer
    raise_if (contains_text target reviewers) self_review
    raise_if (has_duplicates reviewers) duplicate_reviewers

  -- The checks of the agents and of the review matrix.
  unfoldable pub validate_agents : ResearchProtocolProfile → Valid
  unfolding each has_duplicates validate_binding validate_reviewers
  validate_agents p = do
    raise_if (is_empty p.agents) no_agents
    each validate_binding p.agents
    let known = names p.agents
    raise_if (has_duplicates known) duplicate_agents
    raise_if (not (any (λ b. b.enabled) p.agents)) no_enabled_agents
    let targets = map (λ (e : Text × List Text). e.0) p.review_matrix
    raise_if (not (is_subset targets known && is_subset known targets)) matrix_mismatch
    each (validate_reviewers known) p.review_matrix

  -- The checks from the consensus strategy on.
  unfoldable pub validate_policies : ResearchProtocolProfile → Valid
  unfolding each has_duplicates has_duplicate_kinds semantic_weight
  validate_policies p = do
    round_count p.max_negotiation_rounds (pos 1)
    round_count p.max_replan_attempts (pos 0)
    raise_if (not (is_observe p.fallback_action)) fallback_not_observe
    raise_if (not p.human_review_on_failure) no_human_review
    raise_if (is_empty p.action_space) no_actions
    raise_if (any is_foreign p.action_space) unknown_action
    raise_if (has_duplicate_kinds p.action_space) duplicate_actions
    raise_if (not (contains_kind p.fallback_action p.action_space)) fallback_not_in_space
    raise_if (is_empty p.reward_weights) no_reward_weights
    each (λ (e : Text × F). semantic_text e.0 >> semantic_weight e.1) p.reward_weights
    raise_if (is_empty p.experiment_tags) no_tags
    each semantic_text p.experiment_tags
    raise_if (has_duplicates p.experiment_tags) duplicate_tags

  unfoldable pub validate_semantics : ResearchProtocolProfile → Valid
  unfolding validate_agents validate_policies
  validate_semantics p = do
    semantic_text p.profile_id
    semantic_text p.version
    validate_agents p
    validate_policies p

  unfoldable pub validate_integrity :
      (ResearchProtocolProfile → Text) → ResearchProtocolProfile → Valid
  unfolding validate_semantics
  validate_integrity hash p = do
    validate_semantics p
    raise_if (not (text_eq p.config_hash (hash p))) hash_mismatch
