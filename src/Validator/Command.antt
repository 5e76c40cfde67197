-- ===== src/Validator/Command.antt =====
-- src/aiops_k8s_agents/validator.py: reading a command line back into an action, `validate_command`
-- and `validate_recovery_command`.
use aiops_research.Base.{
  ℕ, zero, suc, pos, Bool, true, false, not, ◌&&◌, ◌||◌, none, some, List, [], ◌∷◌, Text, codes,
  text_eq, ok, err, ◌>>=◌, ◌>>◌, raise_if, ◌==◌, ltb, if◌then◌else◌, length,
}
use aiops_research.Python.Decimal.{DigitTable, isdecimal, int_value}
use aiops_research.Python.Shlex.{split}
use aiops_research.Actions.{
  observe_only, rollout_restart, scale_out, int, ScaleAction, RecoveryAction,
}
use aiops_research.Validator.{
  unsplittable, not_scale_template, not_scale_deployment, bad_replicas_option, bad_namespace_option,
  bad_dry_run_option, replicas_not_positive, not_recovery_template, too_many_digits, Checked,
  CommandValidator, validate_scale_action, validate_recovery_action,
}

-- `parts[i]`, under a test of the length that makes the index good.
abbrev pub part : List Text → ℕ → Text
part [] i = []
part (t ∷ ts) zero = t
part (t ∷ ts) (suc i) = part ts i

-- `parts[:k] == expected`, for the `k` texts expected.
unfoldable pub begins : List Text → List Text → Bool
begins ts [] = true
begins [] (e ∷ es) = false
begins (t ∷ ts) (e ∷ es) = text_eq t e && begins ts es

-- `text.startswith(prefix)`
unfoldable pub starts_with : Text → Text → Bool
starts_with t [] = true
starts_with [] (p ∷ ps) = false
starts_with (c ∷ t) (p ∷ ps) = c == p && starts_with t ps

-- `text.split("=", 1)[1]`, of a text with an equals sign.
unfoldable pub after_equals : Text → Text
after_equals [] = []
after_equals (c ∷ t) = if c == b'=' then t else after_equals t

abbrev pub replicas_option : Text
replicas_option = codes "--replicas="

abbrev pub scale_words : List Text
scale_words = codes "kubectl" ∷ codes "scale" ∷ codes "deployment" ∷ []

abbrev pub observe_words : List Text
observe_words = codes "kubectl" ∷ codes "get" ∷ codes "deployment" ∷ []

abbrev pub restart_words : List Text
restart_words = codes "kubectl" ∷ codes "rollout" ∷ codes "restart" ∷ codes "deployment" ∷ []

abbrev pub is_dry_run : Text → Bool
is_dry_run t = text_eq t (codes "--dry-run=server")

abbrev pub is_seven_or_eight : List Text → Bool
is_seven_or_eight parts = length parts == 7 || length parts == 8

abbrev pub split_command : Text → Checked (List Text)
split_command command = elim (split command) [ ok parts ↦ ok parts | err e ↦ err (unsplittable e) ]

unfoldable pub is_observe_command : List Text → Bool
is_observe_command parts =
    length parts == 8
    && begins parts observe_words
    && text_eq (part parts 4) (codes "-n")
    && text_eq (part parts 6) (codes "-o")
    && text_eq (part parts 7) (codes "json")

unfoldable pub is_rollout_restart_command : List Text → Bool
is_rollout_restart_command parts =
    is_seven_or_eight parts
    && begins parts restart_words
    && text_eq (part parts 5) (codes "-n")
    && (length parts == 7 || is_dry_run (part parts 7))

unfoldable pub is_scale_command : List Text → Bool
is_scale_command parts =
    is_seven_or_eight parts
    && begins parts scale_words
    && starts_with (part parts 4) replicas_option
    && text_eq (part parts 5) (codes "-n")
    && (length parts == 7 || is_dry_run (part parts 7))

abbrev pub as_scale_out : ScaleAction → RecoveryAction
as_scale_out a = record {
  namespace = a.namespace;
  deployment = a.deployment;
  kind = scale_out;
  replicas = some a.replicas;
  reason = codes "validated from an approved scale command template";
}

module _ (decimal : DigitTable) (v : CommandValidator) where
  -- `int(replicas_text)`, which refuses more than 4300 digits.
  abbrev pub int_of : Text → Checked ℕ
  int_of t = raise_if (ltb 4300 (length t)) too_many_digits >> ok (int_value decimal t)

  unfoldable pub scale_of_parts : List Text → Checked ScaleAction
  scale_of_parts parts = do
    raise_if (not (is_seven_or_eight parts)) not_scale_template
    raise_if (not (begins parts scale_words)) not_scale_deployment
    raise_if (not (starts_with (part parts 4) replicas_option)) bad_replicas_option
    raise_if (not (text_eq (part parts 5) (codes "-n"))) bad_namespace_option
    raise_if (length parts == 8 && not (is_dry_run (part parts 7))) bad_dry_run_option
    let replicas_text = after_equals (part parts 4)
    raise_if (not (isdecimal decimal replicas_text)) replicas_not_positive
    count ← int_of replicas_text
    validate_scale_action v (record {
      namespace = part parts 6;
      deployment = part parts 3;
      replicas = int (pos count);
      reason = codes "validated from an approved command template";
    })

  unfoldable pub validate_command : Text → Checked ScaleAction
  validate_command command = do parts ← split_command command; scale_of_parts parts

  -- The templates in the order in which `validate_recovery_command` tries them.
  unfoldable pub recovery_of_parts : Text → List Text → Checked RecoveryAction
  recovery_of_parts command parts =
      if is_observe_command parts
      then validate_recovery_action v (record {
        namespace = part parts 5;
        deployment = part parts 3;
        kind = observe_only;
        replicas = none;
        reason = codes "validated from an approved observe command template";
      })
      else if is_rollout_restart_command parts
      then validate_recovery_action v (record {
        namespace = part parts 6;
        deployment = part parts 4;
        kind = rollout_restart;
        replicas = none;
        reason = codes "validated from an approved rollout restart command template";
      })
      else if is_scale_command parts
      then (validate_command command >>= λ a. ok (as_scale_out a))
      else err not_recovery_template

  unfoldable pub validate_recovery_command : Text → Checked RecoveryAction
  validate_recovery_command command = do
    parts ← split_command command
    recovery_of_parts command parts
