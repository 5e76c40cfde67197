-- ===== src/Examples/Teams.antt =====
-- Two agents that scale a service out (src/aiops_k8s_agents/mutual_supervision.py).
use aiops_research.Base.{
  ℕ, pos, ◌*◌, ◌≤◌, ◌≡◌, ℤ, ap, sym, ◌∙◌, refl, true, false, none, some, List, [], ◌∷◌, Text, codes,
  text_eq, contains_text, length, All, Result, ok, err, Bool, not, ◌||◌,
}
use aiops_research.Python.Strip.{strip}
use aiops_research.Actions.{RecoveryAction, scale_out, int, CommandResult}
use aiops_research.Validator.{
  CommandValidator, validate_recovery_action, render_recovery_command, validate_kind,
  validate_scale_action, validate_target, validate_count, validate_replicas, matches_name,
  name_tail,
}
use aiops_research.Executor.{ExecutionMode, real, dry_run}
use aiops_research.Protocol.{
  validate_integrity, validate_semantics, validate_agents, validate_policies, validate_binding,
  validate_reviewers, semantic_weight, each, has_duplicates, has_duplicate_kinds,
}
use aiops_research.Consensus.{
  approve, PeerReview, is_enabled_reviewer, resolve, resolve_role_based_veto, text_lt, key_of,
  place_of, binding_of, insert_review, order_reviews, in_scope,
}
use aiops_research.Monitor.{EvidenceSnapshot, recovered as seen_recovery}
use aiops_research.Coordinator.{
  SupervisionDecision, replicas_note, action_semantic_error, kind_error, scale_error, RevisionNote,
  apply_revisions, revise_with, revise_kind, lowest,
}
use aiops_research.Coordinator.Outputs.{
  require_output_text, validate_recovery_action_output, validate_actions,
  normalize_diagnosis_output, normalize_proposal_output, normalize_peer_review_output,
}
use aiops_research.Coordinator.Negotiation.{
  AgentAdapter, Reviewers, adapter_of, reviewers_of, ask, collect_reviews, revised,
  settle_revisions, settle_outcome, negotiate_from, negotiate, count_of,
}
use aiops_research.Coordinator.State.{
  RunError, raised, World, Report, capable, required_capability_errors, validate_action,
}
use aiops_research.Coordinator.Attempts.{
  Coordinator, base_report, normalized_post_review, post_execution_reviews, conclude, operate,
  after_execution_of, after_observation, lock_and_operate, act_on, attempt_agreed,
  after_negotiation, attempts,
}
use aiops_research.Coordinator.Run.{
  candidates_of, try_candidates, after_proposal, after_diagnosis, after_collection,
  with_capabilities, run,
}
use aiops_research.Coordinator.Consent.{IsHonest, negotiate-IsHonest}
use aiops_research.Coordinator.Sound.{IsAllowed}
use aiops_research.Coordinator.Invariant.{
  claims_recovery, is_success, is_idle, IsCalm, IsSound, IsProven,
}
use aiops_research.Coordinator.Promise.{
  run_dispatches-IsSound, run_bounds, run_dry, run_proves, run_asks, run_returns,
  run_raises-IsSound,
}
use aiops_research.Coordinator.Revision.{AtLeast, apply_revisions-lowest, revised-IsAllowed}
use aiops_research.Examples.Votes.{hundredths, profile, hash}

abbrev gate : CommandValidator
gate = record {
  allowed_namespaces = codes "shop" ∷ [];
  allowed_deployments = codes "front" ∷ [];
  min_replicas = pos 1;
  max_replicas = pos 5;
}

abbrev app : Text
app = codes "app"

abbrev net : Text
net = codes "net"

abbrev adapters : List AgentAdapter
adapters =
    record { name = app; capabilities = codes "diagnose" ∷ codes "propose" ∷ [] }
    ∷ record { name = net; capabilities = codes "review" ∷ [] }
    ∷ []

abbrev team : ExecutionMode → Coordinator hundredths
team mode = record {
  validator = gate;
  mode = mode;
  protocol = profile;
  adapters = adapters;
  operation_lock_owned_externally = false;
}

abbrev snapshot : EvidenceSnapshot
snapshot = record {
  namespace = codes "shop";
  deployment = codes "front";
  desired_replicas = pos 1;
  available_replicas = pos 1;
  pod_statuses = codes "Running" ∷ [];
  pod_identities = codes "p1" ∷ [];
}

abbrev scale_to : ℕ → RecoveryAction
scale_to n = record {
  namespace = codes "shop";
  deployment = codes "front";
  kind = scale_out;
  replicas = some (int (pos n));
  reason = codes "load";
}

abbrev review_of : Text → SupervisionDecision → PeerReview
review_of name d = record {
  review_id = codes "r";
  round_index = d.round_index;
  reviewer = name;
  target_agent = d.agent;
  target_decision_id = d.decision_id;
  verdict = approve;
  reason = codes "fine";
  suggested_action = none;
}

abbrev reviewers : Reviewers
reviewers = record {
  review = λ name d. ok (some (record { review = review_of name d; is_confidence = true }));
  decision_id = λ i. codes "d";
  review_id = λ i name. codes "r";
  action_id = λ i. codes "a";
}

abbrev done : CommandResult
done = record {
  command = codes "kubectl";
  mode = codes "real";
  valid = true;
  stdout = [];
  stderr = [];
  by_go_guard = false;
}

abbrev world : World
world = record {
  agents = reviewers;
  diagnosis_id = codes "d0";
  diagnose = λ name e. ok (
    record {
      service = codes "front";
      cause = codes "cpu";
      severity = codes "high";
      is_confidence = true;
      missing_evidence = false;
    },
    record {
      agent = app;
      approved = true;
      decision_type = codes "diagnosis";
      reason = codes "cpu is high";
      is_confidence = true;
      is_finite_reward = true;
      proposed_action = none;
    },
  );
  propose = λ name d e. ok (some (scale_to 3 ∷ []));
  post_review = λ i name a s e. ok none;
  uncollected = none;
  evidence = snapshot;
  after = λ i. ok snapshot;
  locks = λ i. true;
  execute = λ i a. ok done;
  assess = λ i a b e x. ok seen_recovery;
}

world-IsCalm : IsCalm world
world-IsCalm = record {
  collects = refl;
  executes = λ i a. (done, refl);
  observes = λ i. (snapshot, refl);
  assesses = λ i a b e x. (seen_recovery, refl);
}

abbrev outcome : ExecutionMode → Result RunError Report
outcome mode = run hundredths hash (team mode) world (codes "shop") (codes "front")

profile_is_sound : validate_integrity hundredths hash profile ≡ ok tt
unfolding validate_integrity validate_semantics validate_agents validate_policies validate_binding
    validate_reviewers semantic_weight each has_duplicates has_duplicate_kinds contains_text text_eq
    strip
profile_is_sound = refl

abbrev report : ExecutionMode → Report
report mode =
    (run_returns hundredths hash (team mode) world (codes "shop") (codes "front") 0 refl
      profile_is_sound world-IsCalm).0

it_returns : (mode : ExecutionMode) → outcome mode ≡ ok (report mode)
it_returns mode =
    (run_returns hundredths hash (team mode) world (codes "shop") (codes "front") 0 refl
      profile_is_sound world-IsCalm).1

abbrev verdict : Result RunError Report → Bool
verdict (ok r) = claims_recovery r.final_status
verdict (err e) = false

it_recovers : verdict (outcome real) ≡ true
unfolding run with_capabilities after_collection after_diagnosis after_proposal try_candidates
    candidates_of attempts after_negotiation attempt_agreed act_on lock_and_operate operate
    after_execution_of after_observation conclude post_execution_reviews normalized_post_review
    base_report validate_action capable required_capability_errors negotiate negotiate_from
    settle_outcome settle_revisions collect_reviews ask reviewers_of adapter_of
    normalize_diagnosis_output normalize_proposal_output normalize_peer_review_output
    validate_actions validate_recovery_action_output require_output_text action_semantic_error
    kind_error scale_error validate_recovery_action render_recovery_command validate_kind
    validate_scale_action validate_target validate_count validate_replicas matches_name name_tail
    resolve resolve_role_based_veto validate_integrity validate_semantics validate_agents
    validate_policies validate_binding validate_reviewers semantic_weight each has_duplicates
    has_duplicate_kinds contains_text text_eq text_lt key_of place_of binding_of insert_review
    order_reviews is_enabled_reviewer in_scope strip
it_recovers = refl

it_claims : claims_recovery (report real).final_status ≡ true
it_claims = ap verdict (sym (it_returns real)) ∙ it_recovers

run_dispatches-IsSound_example :
    All
      (IsSound hundredths hash (team real) world (codes "shop") (codes "front") app)
      (report real).dispatched
    × All
        (IsSound hundredths hash (team real) world (codes "shop") (codes "front") app)
        (report real).executed_actions
unfolding capable contains_text text_eq
run_dispatches-IsSound_example =
    run_dispatches-IsSound hundredths hash (team real) world (codes "shop") (codes "front") 0 refl
      (report real) (it_returns real)

run_bounds_example :
    (length (report real).dispatched ≤ 1)
    × (length (report real).rounds ≤ 1 * count_of profile.max_negotiation_rounds)
run_bounds_example =
    run_bounds hundredths hash (team real) world (codes "shop") (codes "front") 0 refl (report real)
      (it_returns real)

dry_run_asked :
    ((report dry_run).executed_actions ≡ [])
    × (claims_recovery (report dry_run).final_status ≡ false)
dry_run_asked =
    run_dry hundredths hash (team dry_run) world (codes "shop") (codes "front") 0 refl
      (report dry_run) refl (it_returns dry_run)

run_proves_example :
    IsProven hundredths hash (team real) world (codes "shop") (codes "front") app (report real)
run_proves_example =
    run_proves hundredths hash (team real) world (codes "shop") (codes "front") 0 refl (report real)
      (it_returns real) it_claims

run_asks_example :
    ((report real).valid ≡ is_success (report real).final_status)
    × ((report real).human_review_required
        ≡ not ((report real).valid || is_idle (report real).final_status))
run_asks_example =
    run_asks hundredths hash (team real) world (codes "shop") (codes "front") 0 refl (report real)
      refl (it_returns real)

-- The executor cannot start its command.
abbrev lost : World
lost = record world { execute = λ i a. err (codes "no kubectl") }

it_raises :
    run hundredths hash (team real) lost (codes "shop") (codes "front")
    ≡ err (raised (codes "no kubectl") (scale_to 3 ∷ []))
unfolding run with_capabilities after_collection after_diagnosis after_proposal try_candidates
    candidates_of attempts after_negotiation attempt_agreed act_on lock_and_operate operate
    after_execution_of after_observation conclude post_execution_reviews normalized_post_review
    base_report validate_action capable required_capability_errors negotiate negotiate_from
    settle_outcome settle_revisions collect_reviews ask reviewers_of adapter_of
    normalize_diagnosis_output normalize_proposal_output normalize_peer_review_output
    validate_actions validate_recovery_action_output require_output_text action_semantic_error
    kind_error scale_error validate_recovery_action render_recovery_command validate_kind
    validate_scale_action validate_target validate_count validate_replicas matches_name name_tail
    resolve resolve_role_based_veto validate_integrity validate_semantics validate_agents
    validate_policies validate_binding validate_reviewers semantic_weight each has_duplicates
    has_duplicate_kinds contains_text text_eq text_lt key_of place_of binding_of insert_review
    order_reviews is_enabled_reviewer in_scope strip
it_raises = refl

run_raises-IsSound_example :
    All
      (IsSound hundredths hash (team real) lost (codes "shop") (codes "front") app)
      (scale_to 3 ∷ [])
    × (length (scale_to 3 ∷ []) ≤ 1)
unfolding capable contains_text text_eq
run_raises-IsSound_example =
    run_raises-IsSound hundredths hash (team real) lost (codes "shop") (codes "front") 0 refl
      (codes "no kubectl") (scale_to 3 ∷ []) it_raises

negotiate-IsHonest_example :
    IsHonest hundredths hash profile adapters reviewers app 1
      (negotiate hundredths hash profile adapters reviewers app snapshot (scale_to 3) 0)
negotiate-IsHonest_example =
    negotiate-IsHonest hundredths hash profile adapters reviewers app snapshot (scale_to 3) 0

abbrev suggesting : ℕ → PeerReview
suggesting n = record {
  review_id = codes "r";
  round_index = 1;
  reviewer = net;
  target_agent = app;
  target_decision_id = codes "d";
  verdict = approve;
  reason = codes "cheaper";
  suggested_action = some (scale_to n);
}

abbrev revised_notes : List RevisionNote
revised_notes = replicas_note (some (int (pos 5))) (pos 2) ∷ []

two_is_lowest :
    apply_revisions (scale_to 5) (suggesting 3 ∷ suggesting 2 ∷ []) ≡ ok (scale_to 2, revised_notes)
unfolding apply_revisions revise_with revise_kind lowest
two_is_lowest = refl

apply_revisions-lowest_example :
    (z : ℤ) × (some (int (pos 2)) ≡ some (int z))
    × All (AtLeast z) (scale_to 3 ∷ scale_to 2 ∷ [])
    × (codes "shop" ≡ codes "shop")
    × (codes "front" ≡ codes "front")
    × (scale_out ≡ scale_out)
apply_revisions-lowest_example =
    apply_revisions-lowest (scale_to 5) (scale_to 2) (suggesting 3 ∷ suggesting 2 ∷ [])
      revised_notes (scale_to 3) (scale_to 2 ∷ []) refl refl two_is_lowest

two_is_allowed :
    revised hundredths hash profile adapters reviewers snapshot
      (scale_to 5)
      (suggesting 3 ∷ suggesting 2 ∷ [])
    ≡ ok (scale_to 2, revised_notes)
unfolding revised apply_revisions revise_with revise_kind lowest action_semantic_error kind_error
    scale_error text_eq
two_is_allowed = refl

revised-IsAllowed_example :
    IsAllowed profile.action_space snapshot (codes "shop") (codes "front") (scale_to 2)
revised-IsAllowed_example =
    revised-IsAllowed hundredths hash profile adapters reviewers snapshot (scale_to 5) (scale_to 2)
      (suggesting 3 ∷ suggesting 2 ∷ []) revised_notes two_is_allowed
