-- ===== src/Policy.antt =====
-- src/aiops_k8s_agents/agent_decision_policy.py: the severity of a metric, and the replicas that are recommended
-- for it.
use aiops_research.Base.{
  ℕ, zero, suc, ℤ, pos, negsuc, ◌≤ℤ◌, ≤ℤ_trans, max_ℤ, min_ℤ, max_ℤ_left, max_ℤ_right, max_ℤ_least,
  min_ℤ_right, min_ℤ_greatest, Bool, not, ◌||◌, Option, none, some, List, [], ◌∷◌, map, Text,
  text_eq, contains_text, codes, ◌==◌, if◌then◌else◌,
}
use aiops_research.Python.Strip.{strip, lower}
use aiops_research.Floats.{Floats}

pub data SignalDirection : Type 0 where
  high_is_bad low_is_bad : SignalDirection

abbrev underscored : ℕ → ℕ
underscored c = if c == b'-' then b'_' else c

-- `_normalize_metric`
unfoldable pub normalize_metric : Text → Text
unfolding strip lower
normalize_metric metric = map underscored (lower (strip metric))

-- `suc` of an integer.
abbrev pub next_ℤ : ℤ → ℤ
next_ℤ (pos n) = pos (suc n)
next_ℤ (negsuc zero) = pos 0
next_ℤ (negsuc (suc n)) = negsuc n

module _ (floats : Floats) where
  open floats use {F, zero as float_zero, div, geb}

  pub record MetricPolicy : Type 0 where
    pub canonical_name : Text
    pub aliases : List Text
    pub cause : Text
    pub signal_direction : SignalDirection
    pub warning_ratio : F
    pub critical_ratio : F

  -- The maps are lists of pairs with different keys.
  pub record AgentDecisionPolicy : Type 0 where
    pub metric_policies : List MetricPolicy
    pub preferred_actions : List (Text × Text)
    pub action_rewards : List (Text × F)
    pub replica_by_severity : List (Text × ℤ)
    pub default_replicas : ℤ
    pub max_replicas : ℤ

  abbrev exceeds : SignalDirection → F → F → Bool
  exceeds high_is_bad value threshold = geb value threshold
  exceeds low_is_bad value threshold = geb threshold value

  unfoldable pub threshold_exceeded : MetricPolicy → F → F → Bool
  threshold_exceeded p value threshold = exceeds p.signal_direction value threshold

  abbrev score_by : SignalDirection → MetricPolicy → F → F → F
  score_by high_is_bad p value threshold = div value threshold
  score_by low_is_bad p value threshold =
      if geb float_zero value then p.critical_ratio else div threshold value

  unfoldable pub severity_score : MetricPolicy → F → F → F
  severity_score p value threshold =
      if geb float_zero threshold then float_zero else score_by p.signal_direction p value threshold

  pub data Severity : Type 0 where
    info warning critical : Severity

  unfoldable pub severity_label : MetricPolicy → F → F → Severity
  unfolding threshold_exceeded severity_score
  severity_label p value threshold =
      if not (threshold_exceeded p value threshold)
      then info
      else if geb (severity_score p value threshold) p.critical_ratio
      then critical
      else if geb (severity_score p value threshold) p.warning_ratio
      then warning
      else info

  unfoldable pub policy_among : Text → List MetricPolicy → Option MetricPolicy
  policy_among normalized [] = none
  policy_among normalized (p ∷ ps) =
      if text_eq normalized p.canonical_name || contains_text normalized p.aliases
      then some p
      else policy_among normalized ps

  unfoldable pub metric_policy_for : AgentDecisionPolicy → Text → Option MetricPolicy
  unfolding policy_among normalize_metric
  metric_policy_for p metric = policy_among (normalize_metric metric) p.metric_policies

  abbrev pub get : {A : Type 0} → Text → List (Text × A) → A → A
  get key [] default = default
  get key ((k, a) ∷ kvs) default =
      let rest = get key kvs default in if text_eq k key then a else rest

  abbrev pub preferred_action_for : AgentDecisionPolicy → Text → Text
  preferred_action_for p cause = get cause p.preferred_actions (codes "observe_only")

  abbrev pub reward_for : AgentDecisionPolicy → Text → F → F
  reward_for p action default = get action p.action_rewards default

  abbrev pub raised : ℤ → Option ℤ → ℤ
  raised target none = target
  raised target (some current) = max_ℤ target (next_ℤ current)

  unfoldable pub recommended_replicas : AgentDecisionPolicy → Text → Option ℤ → ℤ
  recommended_replicas p severity current = max_ℤ (pos 1) (
      min_ℤ (raised (get severity p.replica_by_severity p.default_replicas) current) p.max_replicas)

module _ (floats : Floats) where
  -- With a maximum of at least one that is above the current count, a recommendation is at least one, at most
  -- the maximum, and above the current count.
  pub recommended_replicas_bounds :
      (p : AgentDecisionPolicy floats) (severity : Text) (current : ℤ)
      → pos 1 ≤ℤ p.max_replicas
      → next_ℤ current ≤ℤ p.max_replicas
      → (pos 1 ≤ℤ recommended_replicas floats p severity (some current))
        × (recommended_replicas floats p severity (some current) ≤ℤ p.max_replicas)
        × (next_ℤ current ≤ℤ recommended_replicas floats p severity (some current))
  unfolding recommended_replicas
  recommended_replicas_bounds p severity current least room =
      let target = get floats severity p.replica_by_severity p.default_replicas in
      let wanted = max_ℤ target (next_ℤ current) in
      (
        max_ℤ_left (pos 1) (min_ℤ wanted p.max_replicas),
        max_ℤ_least (pos 1) (min_ℤ wanted p.max_replicas) p.max_replicas least
            (min_ℤ_right wanted p.max_replicas),
        ≤ℤ_trans (next_ℤ current) (min_ℤ wanted p.max_replicas) _
            (min_ℤ_greatest wanted p.max_replicas (next_ℤ current)
              (max_ℤ_right target (next_ℤ current)) room)
            (max_ℤ_right (pos 1) (min_ℤ wanted p.max_replicas)),
      )
