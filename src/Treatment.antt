-- ===== src/Treatment.antt =====
-- src/aiops_k8s_agents/recovery_runner.py: the treatments of a recovery experiment, their queries, and what a
-- snapshot of the cluster says.
pub mod Wait
pub mod Run
pub mod Record
pub mod Matrix
use aiops_research.Base.{
  ℕ, zero, suc, ◌+◌, ℤ, pos, negsuc, ltb_ℤ, Bool, true, false, not, ◌&&◌, Option, none, some, List,
  [], ◌∷◌, ◌++◌, map, select, Text, text_eq, contains_text, codes, Result, ok, err, ◌>>=◌, ◌>>◌,
  raise_if, if◌then◌else◌,
}
use aiops_research.Python.Strip.{is_space, lower}
use aiops_research.Floats.{Floats}
use aiops_research.Actions.{RecoveryActionKind}

pub data MetricDirection : Type 0 where
  high low : MetricDirection

pub data EvidenceSource : Type 0 where
  prometheus kubernetes_availability pod_replacement : EvidenceSource

-- The part of a snapshot that the runner reads; the uids of the pods, if their list is there.
pub record Snapshot : Type 0 where
  pub is_ok : Bool
  pub desired_replicas : ℤ
  pub available_replicas : ℤ
  pub pod_uids : Option (List Text)

abbrev pub is_prometheus_up_query : Text → Bool
is_prometheus_up_query query =
    contains_text (lower (select (λ c. not (is_space c)) query))
      (codes "up" ∷ codes "max(up)" ∷ codes "min(up)" ∷ codes "sum(up)" ∷ [])

abbrev pub is_empty : Text → Bool
is_empty [] = true
is_empty (c ∷ t) = false

abbrev pub look_up : Text → List (Text × Text) → Option Text
look_up name [] = none
look_up name ((k, v) ∷ kvs) = let rest = look_up name kvs in if text_eq k name then some v else rest

-- The quotient of two integers as a float, and `round(value, 6)`.
pub record Ratios (F : Type 0) : Type 0 where
  pub quotient : ℤ → ℤ → F
  pub rounded : F → F

module _ (floats : Floats) where
  open floats use {F, zero as float_zero, one, geb}

  pub record RecoveryScenario : Type 0 where
    pub id : Text
    pub namespace : Text
    pub deployment : Text
    pub chaos_manifest : Text
    pub metric : Text
    pub evidence_source : EvidenceSource
    pub metric_direction : MetricDirection
    pub fault_threshold : F
    pub recovery_threshold : F
    pub query : Option Text
    pub query_env : Option Text

  pub record RecoveryExperimentConfig : Type 0 where
    pub baseline_replicas : ℤ
    pub scale_replicas : ℤ
    pub fault_detection_timeout_seconds : ℕ
    pub recovery_timeout_seconds : ℕ
    pub poll_interval_seconds : ℕ
    pub actions : List RecoveryActionKind
    pub scenarios : List RecoveryScenario

  -- Its id is written from the other fields.
  pub record RecoveryTreatment : Type 0 where
    pub scenario : RecoveryScenario
    pub action : RecoveryActionKind
    pub repetition : ℕ

  abbrev pub of_scenario : ℕ → List RecoveryActionKind → RecoveryScenario → List RecoveryTreatment
  of_scenario repetition actions s =
      map (λ a. record { scenario = s; action = a; repetition = repetition }) actions

  abbrev pub of_scenarios :
      ℕ → List RecoveryActionKind → List RecoveryScenario → List RecoveryTreatment
  of_scenarios repetition actions [] = []
  of_scenarios repetition actions (s ∷ ss) =
      of_scenario repetition actions s ++ of_scenarios repetition actions ss

  -- The repetitions from `first` on, `n` of them.
  abbrev pub of_repetitions : RecoveryExperimentConfig → ℕ → ℕ → List RecoveryTreatment
  of_repetitions config first zero = []
  of_repetitions config first (suc n) =
      of_scenarios first config.actions config.scenarios ++ of_repetitions config (suc first) n

  -- `build_treatment_matrix`; `none` is the `ValueError`.
  unfoldable pub build_treatment_matrix :
      RecoveryExperimentConfig → ℤ → Option (List RecoveryTreatment)
  build_treatment_matrix config (pos (suc n)) = some (of_repetitions config 1 (suc n))
  build_treatment_matrix config _ = none

  abbrev given : Option Text → Result Text Text
  given none = err (codes "no metric query")
  given (some q) = if is_empty q then err (codes "no metric query") else ok q

  abbrev from_environment : Option Text → Result Text (Option Text)
  from_environment none = err (codes "requires environment variable")
  from_environment (some q) =
      if is_empty q then err (codes "requires environment variable") else ok (some q)

  abbrev chosen_query : List (Text × Text) → Option Text → Option Text → Result Text (Option Text)
  chosen_query environ none query = ok query
  chosen_query environ (some name) query =
      if is_empty name then ok query else from_environment (look_up name environ)

  -- `resolve_metric_query`, with short texts for the errors.
  unfoldable pub resolve_metric_query : List (Text × Text) → RecoveryScenario → Result Text Text
  unfolding is_space lower
  resolve_metric_query environ s = do
    chosen ← chosen_query environ s.query_env s.query
    query ← given chosen
    raise_if (text_eq s.metric (codes "latency") && is_prometheus_up_query query)
        (codes "network-delay requires real latency evidence, not max(up)")
    ok query

  abbrev pub metric_is_faulted : F → F → MetricDirection → Bool
  metric_is_faulted value threshold high = geb value threshold
  metric_is_faulted value threshold low = geb threshold value

  abbrev pub metric_is_recovered : F → F → MetricDirection → Bool
  metric_is_recovered value threshold high = geb threshold value
  metric_is_recovered value threshold low = geb value threshold

  -- `max(a, b)` and `min(a, b)`, which keep the first of two that are equal.
  abbrev max_F : F → F → F
  max_F a b = if geb a b then a else b

  abbrev min_F : F → F → F
  min_F a b = if geb b a then a else b

  module _ (ratio : Ratios F) where
    abbrev availability : Snapshot → F
    availability s =
        min_F (max_F (ratio.quotient s.available_replicas s.desired_replicas) float_zero) one

    -- `_availability_evidence`
    unfoldable pub availability_evidence : Snapshot → Result Text F
    availability_evidence s = do
      raise_if (not s.is_ok) (codes "Kubernetes deployment availability is unavailable")
      raise_if (ltb_ℤ s.desired_replicas (pos 1))
          (codes "Kubernetes deployment has no desired replicas")
      ok (availability s)

    -- `_availability_ratio`
    unfoldable pub availability_ratio : Snapshot → F
    availability_ratio s =
        if s.is_ok && not (ltb_ℤ s.desired_replicas (pos 1))
        then ratio.rounded (availability s)
        else float_zero
