-- ===== src/Monitor.antt =====
-- src/aiops_k8s_agents/recovery_monitor.py: `KubernetesSnapshotRecoveryMonitor`, over the snapshots of
-- src/aiops_k8s_agents/evidence.py. The evidence provider, with the pause before it is asked, is a
-- parameter that changes a world. The two floats of an assessment are left out.
pub mod Recovery
use aiops_research.Base.{
  ℕ, zero, suc, ℤ, pos, ltb_ℤ, Bool, true, false, not, ◌&&◌, ◌||◌, Option, none, some, List, [],
  ◌∷◌, Text, codes, text_eq, contains_text, all, any, Result, ok, err, ◌>>=◌, ◌>>◌, raise_if,
  if◌then◌else◌,
}
use aiops_research.Actions.{
  RecoveryActionKind, observe_only, rollout_restart, scale_out, foreign, Replicas, as_int,
  RecoveryAction, CommandResult,
}

-- The fields of a snapshot that the monitor reads.
pub record EvidenceSnapshot : Type 0 where
  pub namespace : Text
  pub deployment : Text
  pub desired_replicas : ℤ
  pub available_replicas : ℤ
  pub pod_statuses : List Text
  pub pod_identities : List Text

-- The reasons of a failed assessment.
pub data Problem : Type 0 where
  command_failed : Text → Problem
  no_desired_replicas pods_not_running : Problem
  too_few_available : ℤ → ℤ → Problem
  scale_target_not_reached replicas_not_increased : Problem
  not_recovered : RecoveryActionKind → Problem
  no_new_pod no_state_change unsupported not_observed : Problem

-- What remains is `none` exactly in a success.
pub record RecoveryAssessment : Type 0 where
  pub recovery_success : Bool
  pub remaining_problem : Option Problem
  pub replanning_required : Bool

abbrev pub recovered : RecoveryAssessment
recovered = record {
  recovery_success = true;
  remaining_problem = none;
  replanning_required = false;
}

abbrev pub failed_assessment : Problem → RecoveryAssessment
failed_assessment p = record {
  recovery_success = false;
  remaining_problem = some p;
  replanning_required = true;
}

abbrev pub is_up : Text → Bool
is_up t = text_eq t (codes "Running") || text_eq t (codes "Succeeded")

abbrev pub is_empty : List Text → Bool
is_empty [] = true
is_empty (t ∷ ts) = false

-- `set(xs) == set(ys)`
unfoldable pub same_texts : List Text → List Text → Bool
same_texts xs ys = all (λ x. contains_text x ys) xs && all (λ y. contains_text y xs) ys

unfoldable pub workload_changed : EvidenceSnapshot → EvidenceSnapshot → Bool
unfolding same_texts
workload_changed b c =
    not (is_empty c.pod_identities) && not (same_texts b.pod_identities c.pod_identities)

-- Whether the wanted number differs from a count; one of another type, which the validator refuses,
-- counts as different.
abbrev pub differs : Option ℤ → ℤ → Bool
differs none d = true
differs (some z) d = ltb_ℤ z d || ltb_ℤ d z

-- The test of the transition that an action of a kind should bring about.
unfoldable pub transition_of :
    RecoveryActionKind → Option Replicas → EvidenceSnapshot → EvidenceSnapshot → Result Problem Unit
unfolding workload_changed
transition_of scale_out none b c = err scale_target_not_reached
transition_of scale_out (some r) b c = do
  raise_if (differs (as_int r) c.desired_replicas) scale_target_not_reached
  raise_if (not (ltb_ℤ b.desired_replicas c.desired_replicas)) replicas_not_increased
transition_of rollout_restart r b c = raise_if (not (workload_changed b c)) no_new_pod
transition_of observe_only r b c =
    raise_if (not (workload_changed b c || ltb_ℤ b.available_replicas c.available_replicas))
      no_state_change
transition_of foreign r b c = err unsupported

-- `_snapshot_transition_ready`
unfoldable pub snapshot_transition_ready :
    RecoveryAction → EvidenceSnapshot → EvidenceSnapshot → Result Problem Unit
unfolding transition_of
snapshot_transition_ready a b c = do
  raise_if (ltb_ℤ c.desired_replicas (pos 1)) no_desired_replicas
  raise_if (ltb_ℤ c.available_replicas c.desired_replicas)
      (too_few_available c.available_replicas c.desired_replicas)
  raise_if (any (λ t. not (is_up t)) c.pod_statuses) pods_not_running
  transition_of a.kind a.replicas b c

abbrev or_failed : Text → Text
or_failed [] = codes "Kubernetes action failed"
or_failed (c ∷ t) = c ∷ t

module _ {W : Type 0} (collect : W → EvidenceSnapshot × W) (a : RecoveryAction)
    (before : EvidenceSnapshot) where
  -- The loop from an attempt on, with the number of attempts that follow: it asks for another
  -- snapshot only if one follows.
  unfoldable pub watch : ℕ → EvidenceSnapshot → W → RecoveryAssessment × W
  watch zero current w = elim (snapshot_transition_ready a before current) [
    | ok u ↦ (recovered, w)
    | err p ↦ (failed_assessment p, w)
  ]
  watch (suc left) current w = elim (snapshot_transition_ready a before current) [
    | ok u ↦ (recovered, w)
    | err p ↦ let (next, w') = collect w in watch left next w'
  ]

  abbrev pub attempts : ℕ → EvidenceSnapshot → W → RecoveryAssessment × W
  attempts zero after w = (failed_assessment not_observed, w)
  attempts (suc left) after w = watch left after w

  -- `assess`; the constructor refuses `max_attempts` below one.
  unfoldable pub assess : ℕ → EvidenceSnapshot → CommandResult → W → RecoveryAssessment × W
  unfolding watch
  assess max_attempts after result w =
      if result.valid
      then attempts max_attempts after w
      else (failed_assessment (command_failed (or_failed result.stderr)), w)

abbrev same_kind : RecoveryActionKind → RecoveryActionKind → Bool
same_kind observe_only observe_only = true
same_kind rollout_restart rollout_restart = true
same_kind scale_out scale_out = true
same_kind foreign foreign = true
same_kind _ _ = false

-- `action_success.get(kind, default_success)`
unfoldable pub success_of : RecoveryActionKind → List (RecoveryActionKind × Bool) → Bool → Bool
success_of k [] d = d
success_of k ((m, b) ∷ table) d = if same_kind m k then b else success_of k table d

-- `FakeRecoveryMonitor.assess`
unfoldable pub fake_assess :
    List (RecoveryActionKind × Bool) → Bool → RecoveryAction → CommandResult → RecoveryAssessment
unfolding success_of
fake_assess action_success default_success a result =
    if success_of a.kind action_success default_success && result.valid
    then recovered
    else failed_assessment (not_recovered a.kind)
