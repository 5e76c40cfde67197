-- ===== src/Examples/Trials.antt =====
-- A treatment in a world that is a clock, and a decision policy (src/aiops_k8s_agents/recovery_runner.py and
-- src/aiops_k8s_agents/agent_decision_policy.py).
use aiops_research.Base.{
  ℕ, ◌+◌, ◌*◌, pos, ◌≡◌, refl, true, false, Bool, none, some, List, [], ◌∷◌, codes, text_eq,
  contains_text, length, All, ok, leb, arith, if◌then◌else◌,
}
use aiops_research.Python.Strip.{is_space, lower}
use aiops_research.Actions.{observe_only, rollout_restart, CommandResult}
use aiops_research.Treatment.{
  Ratios, high, prometheus, Snapshot, RecoveryScenario, RecoveryExperimentConfig, RecoveryTreatment,
  build_treatment_matrix, resolve_metric_query, availability_evidence, availability_ratio,
}
use aiops_research.Treatment.Wait.{
  Runtime, IsClock, sample_evidence, turn, wait_from, wait_until, wait_for_evidence, IsEnded,
  wait_for_evidence-IsEnded,
}
use aiops_research.Treatment.Run.{
  ask, lift, note, reset_treatment, first_evidence, detect_fault, await_recovery, command_and_await,
  treat, inject_and_treat, observe_and_treat, body, run_recovery_treatment, ◌>>=◌, ◌>>◌,
}
use aiops_research.Treatment.Record.{IsBacked, run_recovery_treatment-IsBacked}
use aiops_research.Treatment.Matrix.{Numbered, build_treatment_matrix-length}
use aiops_research.Base.{◌≤ℤ◌}
use aiops_research.Policy.{AgentDecisionPolicy, recommended_replicas, recommended_replicas_bounds}
use aiops_research.Examples.Votes.{hundredths}

-- Every quotient is one.
abbrev full : Ratios ℕ
full = record { quotient = λ a d. 100; rounded = λ x. x }

abbrev scenario : RecoveryScenario hundredths
scenario = record {
  id = codes "cpu";
  namespace = codes "shop";
  deployment = codes "front";
  chaos_manifest = codes "cpu.yaml";
  metric = codes "cpu";
  evidence_source = prometheus;
  metric_direction = high;
  fault_threshold = 80;
  recovery_threshold = 20;
  query = some (codes "cpu_seconds");
  query_env = none;
}

abbrev config : RecoveryExperimentConfig hundredths
config = record {
  baseline_replicas = pos 1;
  scale_replicas = pos 2;
  fault_detection_timeout_seconds = 5;
  recovery_timeout_seconds = 5;
  poll_interval_seconds = 1;
  actions = rollout_restart ∷ observe_only ∷ [];
  scenarios = scenario ∷ [];
}

abbrev healthy : Snapshot
healthy = record {
  is_ok = true;
  desired_replicas = pos 1;
  available_replicas = pos 1;
  pod_uids = some (codes "u1" ∷ []);
}

abbrev done : CommandResult
done = record {
  command = codes "kubectl";
  mode = codes "real";
  valid = true;
  stdout = [];
  stderr = [];
  by_go_guard = false;
}

-- The state is the clock; the metric falls after three ticks.
abbrev runtime : Runtime hundredths ℕ
runtime = record {
  kubectl = λ argv w. (record { return_code = pos 0; stdout = []; stderr = [] }, w);
  query_metric = λ q w. (ok (if leb 3 w then 10 else 90), w);
  snapshot = λ w. (ok healthy, w);
  sleep = λ n w. w + n;
  monotonic = λ w. (w, w);
  execute = λ a w. (ok done, w);
}

abbrev clock : ℕ → ℕ
clock w = w

runtime-IsClock : IsClock runtime clock
runtime-IsClock = record {
  reads = λ w. refl;
  after_read = λ w. omega arith;
  after_query = λ q w. omega arith;
  after_snapshot = λ w. omega arith;
  after_sleep = λ n w. omega arith;
}

abbrev is_low : ℕ → Bool
is_low v = leb v 20

wait_for_evidence-IsEnded_example :
    IsEnded runtime
      (sample_evidence hundredths full runtime scenario (codes "cpu_seconds"))
      5
      1
      is_low
      (wait_for_evidence hundredths full runtime scenario (codes "cpu_seconds") 5 1 is_low 0).0
wait_for_evidence-IsEnded_example =
    wait_for_evidence-IsEnded hundredths full runtime scenario (codes "cpu_seconds") 5 1 clock
      runtime-IsClock is_low 0 (omega arith)

abbrev treatment : RecoveryTreatment hundredths
treatment = record { scenario = scenario; action = rollout_restart; repetition = 1 }

it_recovers :
    (run_recovery_treatment hundredths full runtime [] config treatment 0).0.recovery_success ≡ true
unfolding run_recovery_treatment body observe_and_treat inject_and_treat treat command_and_await
    await_recovery detect_fault first_evidence reset_treatment ask lift note ◌>>=◌ ◌>>◌
    resolve_metric_query wait_for_evidence wait_until wait_from turn sample_evidence
    availability_evidence availability_ratio text_eq contains_text is_space lower
it_recovers = refl

run_recovery_treatment-IsBacked_example :
    IsBacked (run_recovery_treatment hundredths full runtime [] config treatment 0).0
run_recovery_treatment-IsBacked_example =
    run_recovery_treatment-IsBacked hundredths full runtime [] config treatment 0 it_recovers

three_repetitions :
    (ts : List (RecoveryTreatment hundredths)) × (build_treatment_matrix hundredths config (pos 3)
      ≡ some ts)
    × (length ts ≡ 3 * (1 * 2))
    × All (Numbered hundredths 1 3) ts
three_repetitions = build_treatment_matrix-length hundredths config 2

abbrev policy : AgentDecisionPolicy hundredths
policy = record {
  metric_policies = [];
  preferred_actions = [];
  action_rewards = [];
  replica_by_severity = (codes "critical", pos 4) ∷ [];
  default_replicas = pos 3;
  max_replicas = pos 5;
}

replicas_in_bounds :
    (pos 1 ≤ℤ recommended_replicas hundredths policy (codes "critical") (some (pos 4)))
    × (recommended_replicas hundredths policy (codes "critical") (some (pos 4)) ≤ℤ pos 5)
    × (pos 5 ≤ℤ recommended_replicas hundredths policy (codes "critical") (some (pos 4)))
replicas_in_bounds =
    recommended_replicas_bounds hundredths policy (codes "critical") (pos 4) (omega arith)
      (omega arith)
