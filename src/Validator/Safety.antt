-- ===== src/Validator/Safety.antt =====
-- What an action must satisfy to pass src/aiops_k8s_agents/validator.py, stated without the code's
-- own tests, and the proof that exactly these actions pass.
use aiops_research.Base.{
  ℤ, ◌≤ℤ◌, ◌≡◌, refl, ◌↔◌, ap, sym, Option, none, some, arith, Text, In, contains_text_iff, ok,
}
use aiops_research.Actions.{
  RecoveryActionKind, observe_only, rollout_restart, scale_out, foreign, Replicas, as_int,
  ScaleAction, RecoveryAction,
}
use aiops_research.Validator.{
  CommandValidator, validate_target, validate_count, validate_replicas, validate_kind,
  validate_scale_action, validate_recovery_action, render_recovery_command, render_kind,
}
use aiops_research.Validator.Names.{IsLabel, matches_name_iff}

-- The target has good names that the validator lists.
pub record IsTarget (v : CommandValidator) (ns dep : Text) : Type 0 where
  pub namespace_label : IsLabel ns
  pub deployment_label : IsLabel dep
  pub namespace_listed : In ns v.allowed_namespaces
  pub deployment_listed : In dep v.allowed_deployments

-- The count is an integer within the validator's bounds.
abbrev pub InBounds : CommandValidator → Option ℤ → Type 0
InBounds v none = ⊥
InBounds v (some z) = (v.min_replicas ≤ℤ z) × (z ≤ℤ v.max_replicas)

-- A count belongs to `scale_out`, where it is within bounds, and to no other kind.
abbrev pub Fits : CommandValidator → RecoveryActionKind → Option Replicas → Type 0
Fits v scale_out (some r) = InBounds v (as_int r)
Fits v scale_out none = ⊥
Fits v observe_only none = Unit
Fits v observe_only (some r) = ⊥
Fits v rollout_restart none = Unit
Fits v rollout_restart (some r) = ⊥
Fits v foreign r = ⊥

pub record IsSafe (v : CommandValidator) (a : RecoveryAction) : Type 0 where
  pub target : IsTarget v a.namespace a.deployment
  pub fits : Fits v a.kind a.replicas

validate_target_sound :
    (v : CommandValidator) (ns dep : Text) → validate_target v ns dep ≡ ok tt → IsTarget v ns dep
unfolding validate_target
validate_target_sound v ns dep h = record {
  namespace_label = (matches_name_iff ns).0 (ground arith);
  deployment_label = (matches_name_iff dep).0 (ground arith);
  namespace_listed = (contains_text_iff ns v.allowed_namespaces).0 (ground arith);
  deployment_listed = (contains_text_iff dep v.allowed_deployments).0 (ground arith);
}

validate_target_complete :
    (v : CommandValidator) (ns dep : Text) → IsTarget v ns dep → validate_target v ns dep ≡ ok tt
unfolding validate_target
validate_target_complete v ns dep t = rw (
  (matches_name_iff ns).1 t.namespace_label,
  (matches_name_iff dep).1 t.deployment_label,
  (contains_text_iff ns v.allowed_namespaces).1 t.namespace_listed,
  (contains_text_iff dep v.allowed_deployments).1 t.deployment_listed,
)

validate_count_iff :
    (v : CommandValidator) (z : Option ℤ) → (validate_count v z ≡ ok tt) ↔ InBounds v z
unfolding validate_count
validate_count_iff v none = ground arith
validate_count_iff v (some z) = ground arith

validate_kind_iff :
    (v : CommandValidator) (k : RecoveryActionKind) (r : Option Replicas)
    → (validate_kind v k r ≡ ok tt) ↔ Fits v k r
unfolding validate_kind validate_replicas
validate_kind_iff v scale_out (some r) = validate_count_iff v (as_int r)
validate_kind_iff v scale_out none = ground arith
validate_kind_iff v observe_only none = ground arith
validate_kind_iff v observe_only (some r) = ground arith
validate_kind_iff v rollout_restart none = ground arith
validate_kind_iff v rollout_restart (some r) = ground arith
validate_kind_iff v foreign r = ground arith

-- The validator returns an action exactly when it is the one given and it is safe: both names are
-- Kubernetes labels on the allowlists, and there is a replica count, an integer within the bounds,
-- exactly for `scale_out`.
pub validate_recovery_action_iff :
    (v : CommandValidator) (a b : RecoveryAction)
    → (validate_recovery_action v a ≡ ok b) ↔ ((b ≡ a) × IsSafe v a)
unfolding validate_recovery_action
validate_recovery_action_iff v a b = (
  (λ h.
      let passed : validate_target v a.namespace a.deployment ≡ ok tt = ground arith in
      (
        ground arith,
        record {
          target = validate_target_sound v a.namespace a.deployment passed;
          fits = (validate_kind_iff v a.kind a.replicas).0 (ground arith);
        },
      )),
  (λ (e, s).
      rw
        (
          validate_target_complete v a.namespace a.deployment s.target,
          (validate_kind_iff v a.kind a.replicas).1 s.fits,
        )
        (ap ok (sym e))),
)

-- The scale action's check is that of a `scale_out` action with its count.
pub validate_scale_action_iff :
    (v : CommandValidator) (a b : ScaleAction)
    → (validate_scale_action v a ≡ ok b)
      ↔ ((b ≡ a) × IsTarget v a.namespace a.deployment × InBounds v (as_int a.replicas))
unfolding validate_scale_action validate_replicas
validate_scale_action_iff v a b = (
  (λ h.
      let passed : validate_target v a.namespace a.deployment ≡ ok tt = ground arith in
      (
        ground arith,
        validate_target_sound v a.namespace a.deployment passed,
        (validate_count_iff v (as_int a.replicas)).0 (ground arith),
      )),
  (λ (e, t, s).
      rw
        (
          validate_target_complete v a.namespace a.deployment t,
          (validate_count_iff v (as_int a.replicas)).1 s,
        )
        (ap ok (sym e))),
)

-- A safe action has a command.
pub renders :
    (v : CommandValidator) (a : RecoveryAction)
    → IsSafe v a
    → (command : Text) × (render_recovery_command a ≡ ok command)
unfolding render_recovery_command
renders v a s = shown a.kind a.replicas s.fits
  where
    shown :
        (k : RecoveryActionKind) (r : Option Replicas)
        → Fits v k r
        → (command : Text) × (render_kind a k r ≡ ok command)
    shown observe_only r f = (_, refl)
    shown rollout_restart r f = (_, refl)
    shown scale_out (some r) f = (_, refl)
    shown scale_out none f = absurd f
    shown foreign r f = absurd f
