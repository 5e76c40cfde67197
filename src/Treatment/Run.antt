-- ===== src/Treatment/Run.antt =====
-- src/aiops_k8s_agents/recovery_runner.py: `run_recovery_treatment`, as steps that read and write the record
-- and the world and may raise.
use aiops_research.Base.{
  ℕ, zero, ℤ, pos, Bool, true, false, ◌&&◌, Option, none, some, List, [], ◌∷◌, ◌++◌, Text, codes,
  Result, ok, err, if◌then◌else◌,
}
use aiops_research.Python.Decimal.{show_int}
use aiops_research.Floats.{Floats}
use aiops_research.Actions.{
  RecoveryActionKind, observe_only, scale_out, Replicas, int, RecoveryAction, CommandResult,
}
use aiops_research.Executor.{Completed}
use aiops_research.Treatment.{
  Ratios, is_empty, EvidenceSource, prometheus, pod_replacement, Snapshot, RecoveryScenario,
  RecoveryExperimentConfig, RecoveryTreatment, resolve_metric_query, metric_is_faulted,
  metric_is_recovered, availability_evidence, availability_ratio,
}
use aiops_research.Treatment.Wait.{
  Runtime, WaitError, timed_out, out_of_fuel, sample_evidence, wait_for_evidence,
  wait_for_pod_replacement, pod_uids,
}

-- The identity of a record, its times of day, the improvement of the metric and the change of the replicas are
-- left out.
pub record TreatmentRecord (floats : Floats) : Type 0 where
  pub before : Option Snapshot
  pub metric_before_fault : Option floats.F
  pub fault : Option Snapshot
  pub metric_at_fault : Option floats.F
  pub fault_detection_seconds : ℕ
  pub command_result : Option CommandResult
  pub safety_valid : Bool
  pub command_count : ℕ
  pub metric_after_action : Option floats.F
  pub recovery_seconds : ℕ
  pub after : Option Snapshot
  pub measurement_valid : Bool
  pub availability_recovery : floats.F
  pub recovery_success : Bool
  pub error : Text
  pub cleanup_valid : Bool
  pub cleanup_error : Text

-- `_empty_treatment_record`
abbrev pub empty_treatment_record : (floats : Floats) → TreatmentRecord floats
empty_treatment_record floats = record {
  before = none;
  metric_before_fault = none;
  fault = none;
  metric_at_fault = none;
  fault_detection_seconds = 0;
  command_result = none;
  safety_valid = false;
  command_count = 0;
  metric_after_action = none;
  recovery_seconds = 0;
  after = none;
  measurement_valid = false;
  availability_recovery = floats.zero;
  recovery_success = false;
  error = [];
  cleanup_valid = false;
  cleanup_error = [];
}

abbrev pub replicas_for : ℤ → RecoveryActionKind → Option Replicas
replicas_for n scale_out = some (int n)
replicas_for n _ = none

abbrev pub commands_of : RecoveryActionKind → ℕ
commands_of observe_only = 0
commands_of _ = 1

abbrev pub wait_text : WaitError → Text
wait_text timed_out = codes "metric wait timed out"
wait_text out_of_fuel = codes "the model ran out of fuel"

module _ (floats : Floats) (ratio : Ratios floats.F) {W : Type 0} (runtime : Runtime floats W)
    (environ : List (Text × Text)) (config : RecoveryExperimentConfig floats)
    (treatment : RecoveryTreatment floats) where
  open floats use {F, zero as float_zero, one, geb}

  abbrev scenario : RecoveryScenario floats
  scenario = treatment.scenario

  abbrev pub State : Type 0
  State = TreatmentRecord floats × W

  abbrev pub Act : Type 0 → Type 0
  Act A = State → Result Text A × State

  abbrev resume : {A B : Type 0} → (A → Act B) → Result Text A → Act B
  resume next (err e) s = (err e, s)
  resume next (ok a) s = next a s

  infixl 5 ◌>>=◌ ◌>>◌
  unfoldable pub ◌>>=◌ : {A B : Type 0} → Act A → (A → Act B) → Act B
  ◌>>=◌ first next s = resume next (first s).0 (first s).1

  unfoldable pub ◌>>◌ : {B : Type 0} → Act (Unit {0}) → Act B → Act B
  ◌>>◌ first next s = resume (λ u. next) (first s).0 (first s).1

  -- A call on the world, which leaves the record.
  unfoldable pub ask : {A : Type 0} → (W → Result Text A × W) → Act A
  ask call (r, w) = ((call w).0, (r, (call w).1))

  unfoldable pub lift : {A : Type 0} → Result Text A → Act A
  lift a s = (a, s)

  unfoldable pub note : (TreatmentRecord floats → TreatmentRecord floats) → Act (Unit {0})
  note change (r, w) = (ok tt, (change r, w))

  abbrev done_or_error : Completed → Result Text (Unit {0})
  done_or_error done = refused done.return_code
    where
      refused : ℤ → Result Text (Unit {0})
      refused (pos zero) = ok tt
      refused _ = err (if is_empty done.stderr then codes "kubectl failed" else done.stderr)

  -- `_kubectl_or_raise`
  abbrev pub kubectl_or_raise : List Text → Act (Unit {0})
  kubectl_or_raise argv =
      ask (λ w. (done_or_error (runtime.kubectl argv w).0, (runtime.kubectl argv w).1))

  -- `_reset_treatment`
  unfoldable pub reset_treatment : Act (Unit {0})
  reset_treatment = do
    kubectl_or_raise (
        codes "kubectl"
        ∷ codes "delete"
        ∷ codes "-f"
        ∷ scenario.chaos_manifest
        ∷ codes "--ignore-not-found"
        ∷ [])
    kubectl_or_raise (
        codes "kubectl"
        ∷ codes "scale"
        ∷ codes "deployment"
        ∷ scenario.deployment
        ∷ (codes "--replicas=" ++ show_int config.baseline_replicas)
        ∷ codes "-n"
        ∷ scenario.namespace
        ∷ [])
    kubectl_or_raise (
        codes "kubectl"
        ∷ codes "rollout"
        ∷ codes "status"
        ∷ (codes "deployment/" ++ scenario.deployment)
        ∷ codes "-n"
        ∷ scenario.namespace
        ∷ (codes "--timeout=" ++ (show_int (pos config.recovery_timeout_seconds) ++ codes "s"))
        ∷ [])

  abbrev waited : {A : Type 0} → Result WaitError A → Result Text A
  waited (ok a) = ok a
  waited (err e) = err (wait_text e)

  abbrev uids_of : Result Text (Snapshot × List Text) → Result Text (List Text)
  uids_of (ok (s, [])) = err (codes "pod replacement evidence requires baseline pod UIDs")
  uids_of (ok (s, u ∷ us)) = ok (u ∷ us)
  uids_of (err e) = err e

  -- `metric_before_fault`
  unfoldable pub first_evidence : EvidenceSource → Text → Snapshot → Act F
  first_evidence prometheus query before = ask (sample_evidence floats ratio runtime scenario query)
  first_evidence _ query before = lift (availability_evidence floats ratio before)

  abbrev pub fault_wait : Text → W → Result Text (F × ℕ) × W
  fault_wait query w =
      let result =
        wait_for_evidence floats ratio runtime scenario query config.fault_detection_timeout_seconds
          config.poll_interval_seconds
          (λ v. metric_is_faulted floats v scenario.fault_threshold scenario.metric_direction) w in
      (waited result.0, result.1)

  abbrev pub replacement_wait : Text → List Text → W → Result Text ((Snapshot × List Text) × ℕ) × W
  replacement_wait query uids w =
      let result =
        wait_for_pod_replacement floats ratio runtime scenario query
          config.fault_detection_timeout_seconds config.poll_interval_seconds uids w in
      (waited result.0, result.1)

  abbrev pub recovery_wait : Text → W → Result Text (F × ℕ) × W
  recovery_wait query w =
      let result =
        wait_for_evidence floats ratio runtime scenario query config.recovery_timeout_seconds
          config.poll_interval_seconds
          (λ v. metric_is_recovered floats v scenario.recovery_threshold scenario.metric_direction)
          w in
      (waited result.0, result.1)

  -- The wait for the fault, with the value and the time that it gives.
  unfoldable pub detect_fault : EvidenceSource → Text → Snapshot → Act (F × ℕ)
  detect_fault pod_replacement query before = do
    uids ← lift (uids_of (pod_uids (ok before)))
    found ← ask (replacement_wait query uids)
    note (λ r. record r { fault = some found.0.0 })
    lift (ok (float_zero, found.1))
  detect_fault _ query before = do
    found ← ask (fault_wait query)
    seen ← ask runtime.snapshot
    note (λ r. record r { fault = some seen })
    lift (ok found)

  abbrev action : RecoveryAction
  action = record {
    namespace = scenario.namespace;
    deployment = scenario.deployment;
    kind = treatment.action;
    replicas = replicas_for config.scale_replicas treatment.action;
    reason = codes "real fault treatment: " ++ scenario.id;
  }

  abbrev note_command : CommandResult → TreatmentRecord floats → TreatmentRecord floats
  note_command result r = record r {
    command_result = some result;
    safety_valid = result.valid;
    command_count = commands_of treatment.action;
  }

  abbrev pub is_available : Snapshot → Bool
  is_available after = geb (availability_ratio floats ratio after) one

  abbrev pub conclusion : CommandResult → Snapshot → TreatmentRecord floats → TreatmentRecord floats
  conclusion result after r = record r {
    after = some after;
    measurement_valid = true;
    availability_recovery = availability_ratio floats ratio after;
    recovery_success = result.valid && is_available after;
  }

  -- From the command's result on.
  unfoldable pub await_recovery : Text → CommandResult → Act (Unit {0})
  await_recovery query result = do
    recovered ← ask (recovery_wait query)
    note (λ r. record r { metric_after_action = some recovered.0; recovery_seconds = recovered.1 })
    after ← ask runtime.snapshot
    note (conclusion result after)

  -- From the command on.
  unfoldable pub command_and_await : Text → Act (Unit {0})
  command_and_await query = do
    result ← ask (runtime.execute action)
    note (note_command result)
    await_recovery query result

  -- From the detection of the fault on.
  unfoldable pub treat : Text → Snapshot → Act (Unit {0})
  treat query before = do
    detected ← detect_fault scenario.evidence_source query before
    note (λ r. record r { metric_at_fault = some detected.0; fault_detection_seconds = detected.1 })
    command_and_await query

  -- From the evidence before the fault on.
  unfoldable pub inject_and_treat : Text → Snapshot → Act (Unit {0})
  inject_and_treat query before = do
    value ← first_evidence scenario.evidence_source query before
    note (λ r. record r { metric_before_fault = some value })
    kubectl_or_raise (codes "kubectl" ∷ codes "apply" ∷ codes "-f" ∷ scenario.chaos_manifest ∷ [])
    treat query before

  -- From the first snapshot on.
  unfoldable pub observe_and_treat : Text → Act (Unit {0})
  observe_and_treat query = do
    before ← ask runtime.snapshot
    note (λ r. record r { before = some before })
    inject_and_treat query before

  -- The `try` block.
  unfoldable pub body : Act (Unit {0})
  body = do
    query ← lift (resolve_metric_query floats environ scenario)
    reset_treatment
    observe_and_treat query

  -- `except Exception`
  abbrev pub settle : Result Text (Unit {0}) × State → State
  settle (ok u, s) = s
  settle (err e, (r, w)) = (record r { error = e }, w)

  abbrev pub clean : Result Text (Unit {0}) × State → State
  clean (ok u, (r, w)) = (record r { cleanup_valid = true }, w)
  clean (err e, (r, w)) = (record r { cleanup_valid = false; cleanup_error = e }, w)

  unfoldable pub run_recovery_treatment : W → State
  unfolding body reset_treatment
  run_recovery_treatment w =
      clean (reset_treatment (settle (body (empty_treatment_record floats, w))))
