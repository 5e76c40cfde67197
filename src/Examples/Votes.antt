-- ===== src/Examples/Votes.antt =====
-- A protocol of two agents and their reviews (src/aiops_k8s_agents/consensus.py).
use aiops_research.Base.{
  pos_part, ltb, ◌-◌, ℕ, none, ◌+◌, ◌*◌, pos, ◌≡◌, ◌↔◌, In, refl, inl, true, false, not, ◌&&◌, List,
  [], ◌∷◌, Text, codes, ok, leb, ◌==◌, select, length, ◌/◌, contains_text, text_eq,
}
use aiops_research.Python.Strip.{strip}
use aiops_research.Floats.{Floats}
use aiops_research.Actions.{observe_only, scale_out}
use aiops_research.Protocol.{
  role_based_veto, ProtocolAgentBinding, ResearchProtocolProfile, validate_integrity,
  validate_semantics, validate_agents, validate_policies, validate_binding, validate_reviewers,
  semantic_weight, each, has_duplicates, has_duplicate_kinds,
}
use aiops_research.Consensus.{
  veto, PeerReview, ConsensusOutcome, is_enabled_reviewer, is_veto, resolve,
  resolve_role_based_veto, text_lt, key_of, place_of, binding_of, insert_review, order_reviews,
  in_scope,
}
use aiops_research.Consensus.RoleVeto.{Blocks, resolve_approves, resolve_reports}

-- Numbers of hundredths in place of the floats.
abbrev pub hundredths : Floats
hundredths = record {
  F = ℕ;
  zero = 0;
  one = 100;
  half = 50;
  add = λ a b. a + b;
  div = λ a b. a * 100 / b;
  sub = λ a b. a - b;
  mul = λ a b. a * b / 100;
  of_int = λ z. pos_part z * 100;
  truncated = λ a. pos (a / 100);
  is_finite = λ a. true;
  gtb = λ a b. ltb b a;
  truth = λ a. not (a == 0);
  geb = λ a b. leb b a;
  eqb = λ a b. a == b;
  is_weight = λ a. true;
}

abbrev agent : Text → Text → ProtocolAgentBinding hundredths
agent name scope = record {
  name = name;
  implementation_id = codes "impl";
  runtime = codes "python";
  enabled = true;
  veto_scopes = scope ∷ [];
  consensus_weight = 50;
  capabilities = codes "review" ∷ [];
}

abbrev pub profile : ResearchProtocolProfile hundredths
profile = record {
  profile_id = codes "p";
  version = codes "1";
  agents = agent (codes "net") (codes "network") ∷ agent (codes "app") (codes "application") ∷ [];
  review_matrix = (codes "net", codes "app" ∷ []) ∷ (codes "app", codes "net" ∷ []) ∷ [];
  consensus_strategy = role_based_veto;
  max_negotiation_rounds = pos 1;
  max_replan_attempts = pos 0;
  fallback_action = observe_only;
  human_review_on_failure = true;
  action_space = observe_only ∷ scale_out ∷ [];
  reward_weights = (codes "mttr", 100) ∷ [];
  experiment_tags = codes "t" ∷ [];
  config_hash = codes "h";
}

abbrev pub hash : ResearchProtocolProfile hundredths → Text
hash p = codes "h"

abbrev veto_of : Text → Text → PeerReview
veto_of review_id reviewer = record {
  review_id = review_id;
  round_index = 1;
  reviewer = reviewer;
  target_agent = codes "app";
  target_decision_id = codes "d1";
  verdict = veto;
  reason = codes "too risky";
  suggested_action = none;
}

abbrev reviews : List PeerReview
reviews = veto_of (codes "r2") (codes "app") ∷ veto_of (codes "r1") (codes "net") ∷ []

abbrev scopes : List Text
scopes = codes "network" ∷ []

abbrev outcome : ConsensusOutcome hundredths
outcome = record {
  approved = false;
  strategy = role_based_veto;
  score = 0;
  blocking_vetoes = codes "net" ∷ [];
  non_blocking_objections = codes "app" ∷ [];
  revisions = [];
}

-- The veto in the scope of the decision blocks it.
outcome_is_resolved : resolve hundredths hash reviews profile scopes ≡ ok outcome
unfolding resolve resolve_role_based_veto validate_integrity validate_semantics validate_agents
    validate_policies validate_binding validate_reviewers semantic_weight each has_duplicates
    has_duplicate_kinds contains_text text_eq text_lt key_of place_of binding_of insert_review
    order_reviews is_enabled_reviewer in_scope strip
outcome_is_resolved = refl

resolve_approves_example :
    (outcome.approved ≡ false)
    ↔ ((r : PeerReview) × In r reviews × Blocks hundredths profile scopes r)
resolve_approves_example =
    resolve_approves hundredths hash profile scopes reviews outcome (inl refl) outcome_is_resolved

resolve_reports_example :
    length outcome.blocking_vetoes + length outcome.non_blocking_objections
    ≡ length
        (select (λ r. is_enabled_reviewer hundredths profile.agents r && is_veto r.verdict) reviews)
resolve_reports_example =
    resolve_reports hundredths hash profile scopes reviews outcome outcome_is_resolved
