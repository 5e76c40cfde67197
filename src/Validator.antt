-- ===== src/Validator.antt =====
-- src/aiops_k8s_agents/validator.py: the checks of a recovery action, its rendering as a command,
-- and the reading of a command back into an action.
pub mod Command
pub mod Names
pub mod Safety
pub mod Templates
pub mod Reading
pub mod Printing
pub mod RoundTrip
use aiops_research.Base.{
  ℕ, zero, suc, ℤ, ltb_ℤ, Bool, false, not, ◌&&◌, ◌||◌, Option, none, some, List, [], ◌∷◌, ◌++◌,
  Text, codes, contains_text, Result, ok, err, ◌>>◌, raise_if, ◌==◌, leb,
}
use aiops_research.Python.Shlex.{SplitError}
use aiops_research.Actions.{
  RecoveryActionKind, observe_only, rollout_restart, scale_out, foreign, Replicas, as_int,
  show_replicas, ScaleAction, RecoveryAction,
}

pub data Field : Type 0 where
  namespace deployment : Field

-- The raises: all but `too_many_digits` are a `CommandValidationError`, and that one is the plain
-- `ValueError` of `int` on a numeral of more than 4300 digits.
pub data Error : Type 0 where
  bad_name not_allowlisted : Field → Error
  kind_not_allowed scale_out_requires_replicas only_scale_out_accepts_replicas : Error
  replicas_not_integer replicas_out_of_range : Error
  unsplittable : SplitError → Error
  not_scale_template not_scale_deployment bad_replicas_option bad_namespace_option : Error
  bad_dry_run_option replicas_not_positive unsupported_action not_recovery_template : Error
  too_many_digits : Error

abbrev pub Checked : Type 0 → Type 0
Checked = Result Error

-- `[a-z0-9]`
abbrev pub is_alnum : ℕ → Bool
is_alnum c = (leb b'a' c && leb c b'z') || (leb b'0' c && leb c b'9')

abbrev pub is_name_char : ℕ → Bool
is_name_char c = c == b'-' || is_alnum c

-- `[-a-z0-9]{0,k}[a-z0-9]` on a whole text.
unfoldable pub name_tail : ℕ → Text → Bool
name_tail k [] = false
name_tail k (c ∷ []) = is_alnum c
name_tail zero (c ∷ d ∷ t) = false
name_tail (suc k) (c ∷ d ∷ t) = is_name_char c && name_tail k (d ∷ t)

-- `K8S_NAME_PATTERN.fullmatch`
unfoldable pub matches_name : Text → Bool
unfolding name_tail
matches_name [] = false
matches_name (c ∷ []) = is_alnum c
matches_name (c ∷ d ∷ t) = is_alnum c && name_tail 61 (d ∷ t)

pub record CommandValidator : Type 0 where
  pub allowed_namespaces : List Text
  pub allowed_deployments : List Text
  pub min_replicas : ℤ
  pub max_replicas : ℤ

abbrev validate_k8s_name : Field → Text → Checked Unit
validate_k8s_name f t = raise_if (not (matches_name t)) (bad_name f)

unfoldable pub validate_target : CommandValidator → Text → Text → Checked Unit
validate_target v ns dep = do
  validate_k8s_name namespace ns
  validate_k8s_name deployment dep
  raise_if (not (contains_text ns v.allowed_namespaces)) (not_allowlisted namespace)
  raise_if (not (contains_text dep v.allowed_deployments)) (not_allowlisted deployment)

unfoldable pub validate_count : CommandValidator → Option ℤ → Checked Unit
validate_count v none = err replicas_not_integer
validate_count v (some z) =
    raise_if (ltb_ℤ z v.min_replicas || ltb_ℤ v.max_replicas z) replicas_out_of_range

unfoldable pub validate_replicas : CommandValidator → Replicas → Checked Unit
unfolding validate_count
validate_replicas v r = validate_count v (as_int r)

unfoldable pub validate_scale_action : CommandValidator → ScaleAction → Checked ScaleAction
unfolding validate_target validate_replicas
validate_scale_action v a = do
  validate_target v a.namespace a.deployment
  validate_replicas v a.replicas
  ok a

-- The test of the kind against the replica count.
unfoldable pub validate_kind :
    CommandValidator → RecoveryActionKind → Option Replicas → Checked Unit
unfolding validate_replicas
validate_kind v foreign r = err kind_not_allowed
validate_kind v scale_out none = err scale_out_requires_replicas
validate_kind v scale_out (some r) = validate_replicas v r
validate_kind v observe_only none = ok tt
validate_kind v observe_only (some r) = err only_scale_out_accepts_replicas
validate_kind v rollout_restart none = ok tt
validate_kind v rollout_restart (some r) = err only_scale_out_accepts_replicas

unfoldable pub validate_recovery_action : CommandValidator → RecoveryAction → Checked RecoveryAction
unfolding validate_target validate_kind
validate_recovery_action v a = do
  validate_target v a.namespace a.deployment
  validate_kind v a.kind a.replicas
  ok a

unfoldable pub render_scale_command : ScaleAction → Text
render_scale_command a =
    codes "kubectl scale deployment "
    ++ (a.deployment
        ++ (codes " --replicas=" ++ (show_replicas a.replicas ++ (codes " -n " ++ a.namespace))))

-- `render_recovery_command`, by the kind and the count.
abbrev pub render_kind : RecoveryAction → RecoveryActionKind → Option Replicas → Checked Text
render_kind a observe_only r = ok (
    codes "kubectl get deployment "
    ++ (a.deployment ++ (codes " -n " ++ (a.namespace ++ codes " -o json"))))
render_kind a rollout_restart r =
    ok (
      codes "kubectl rollout restart deployment "
      ++ (a.deployment ++ (codes " -n " ++ a.namespace)))
render_kind a scale_out (some r) = ok (
    render_scale_command (record {
      namespace = a.namespace;
      deployment = a.deployment;
      replicas = r;
      reason = a.reason;
    }))
render_kind a scale_out none = err unsupported_action
render_kind a foreign r = err unsupported_action

unfoldable pub render_recovery_command : RecoveryAction → Checked Text
render_recovery_command a = render_kind a a.kind a.replicas
