-- ===== src/Validator/RoundTrip.antt =====
-- src/aiops_k8s_agents/validator.py: `validate_recovery_command` reads the command that
-- `render_recovery_command` prints for a safe action back as that action.
use aiops_research.Base.{
  ℕ, ◌≤◌, pos, negsuc, ◌≤ℤ◌, ◌≡◌, refl, ◌∙◌, Bool, true, false, Option, none, some, arith, Text,
  codes, text_eq, ok, err,
}
use aiops_research.Python.Decimal.{
  DigitTable, ReadsAscii, isdecimal, show_nat, show_int, int_value-show_nat, isdecimal-show_nat,
  length-show_nat,
}
use aiops_research.Python.Shlex.{split}
use aiops_research.Actions.{
  RecoveryActionKind, observe_only, rollout_restart, scale_out, foreign, Replicas, int, bool, other,
  show_replicas, ScaleAction, RecoveryAction,
}
use aiops_research.Validator.{
  CommandValidator, render_scale_command, render_recovery_command, replicas_not_positive,
}
use aiops_research.Validator.Command.{
  begins, starts_with, after_equals, scale_of_parts, is_observe_command, is_rollout_restart_command,
  is_scale_command, recovery_of_parts, validate_recovery_command,
}
use aiops_research.Validator.Safety.{
  IsSafe, validate_recovery_action_iff, validate_scale_action_iff,
}
use aiops_research.Validator.Templates.{observe_argv, restart_argv, scale_argv}
use aiops_research.Validator.Reading.{validate_command_of, validate_recovery_command_of}
use aiops_research.Validator.Printing.{
  IsLabel-IsWord, count-IsWord, split_observe, split-restart, split_scale,
}

-- The count is absent or a plain integer, so that its `str` is a numeral.
abbrev pub IsPlainCount : Option Replicas → Type 0
IsPlainCount none = Unit
IsPlainCount (some (int z)) = Unit
IsPlainCount (some (bool b)) = ⊥
IsPlainCount (some (other t)) = ⊥

abbrev pub action : RecoveryActionKind → Option Replicas → Text → Text → Text → RecoveryAction
action k r ns dep why = record {
  namespace = ns;
  deployment = dep;
  kind = k;
  replicas = r;
  reason = why;
}

module _ (decimal : DigitTable) (ascii : ReadsAscii decimal) (v : CommandValidator)
    (low : pos 0 ≤ℤ v.min_replicas) (high : v.max_replicas ≤ℤ pos 4299) where
  -- The command that is printed, and what it is read back as.
  abbrev pub ReadsBack : RecoveryAction → Type 0
  ReadsBack a =
      (command : Text) × (render_recovery_command a ≡ ok command)
      × (b : RecoveryAction) × (validate_recovery_command decimal v command ≡ ok b)
      × (record b { reason = a.reason } ≡ a)

  read_observe :
      (command ns dep why : Text)
      → split command ≡ ok (observe_argv ns dep)
      → IsSafe v (action observe_only none ns dep why)
      → validate_recovery_command decimal v command
        ≡ ok (
            action observe_only none ns dep
              (codes "validated from an approved observe command template"))
  unfolding recovery_of_parts is_observe_command begins text_eq
  read_observe command ns dep why e s =
      validate_recovery_command_of decimal v command (observe_argv ns dep) e
      ∙ ((validate_recovery_action_iff v
            (action observe_only none ns dep
              (codes "validated from an approved observe command template"))
            _).1
          (refl, record { target = s.target; fits = s.fits }))

  read_restart :
      (command ns dep why : Text)
      → split command ≡ ok (restart_argv ns dep)
      → IsSafe v (action rollout_restart none ns dep why)
      → validate_recovery_command decimal v command
        ≡ ok (
            action rollout_restart none ns dep
              (codes "validated from an approved rollout restart command template"))
  unfolding recovery_of_parts is_observe_command is_rollout_restart_command begins text_eq
  read_restart command ns dep why e s =
      validate_recovery_command_of decimal v command (restart_argv ns dep) e
      ∙ ((validate_recovery_action_iff v
            (action rollout_restart none ns dep
              (codes "validated from an approved rollout restart command template"))
            _).1
          (refl, record { target = s.target; fits = s.fits }))

  abbrev scaled : ℕ → Text → Text → ScaleAction
  scaled n ns dep = record {
    namespace = ns;
    deployment = dep;
    replicas = int (pos n);
    reason = codes "validated from an approved command template";
  }

  scale_of_argv :
      (n : ℕ) (ns dep why : Text)
      → n ≤ 4299
      → IsSafe v (action scale_out (some (int (pos n))) ns dep why)
      → scale_of_parts decimal v (scale_argv (show_nat n) ns dep) ≡ ok (scaled n ns dep)
  unfolding scale_of_parts begins text_eq starts_with after_equals
  scale_of_argv n ns dep why le s = ground (
    arith,
    isdecimal-show_nat decimal ascii n,
    int_value-show_nat decimal ascii n,
    length-show_nat n,
    (validate_scale_action_iff v (scaled n ns dep) (scaled n ns dep)).1 (refl, s.target, s.fits),
  )

  read_scale :
      (n : ℕ) (command ns dep why : Text)
      → n ≤ 4299
      → split command ≡ ok (scale_argv (show_nat n) ns dep)
      → IsSafe v (action scale_out (some (int (pos n))) ns dep why)
      → validate_recovery_command decimal v command
        ≡ ok (
            action scale_out
              (some (int (pos n)))
              ns
              dep
              (codes "validated from an approved scale command template"))
  unfolding recovery_of_parts is_observe_command is_rollout_restart_command is_scale_command begins
      text_eq starts_with
  read_scale n command ns dep why le e s =
      validate_recovery_command_of decimal v command (scale_argv (show_nat n) ns dep) e
      ∙ ground (
        arith,
        validate_command_of decimal v command (scale_argv (show_nat n) ns dep) e,
        scale_of_argv n ns dep why le s,
      )

  read_back :
      (k : RecoveryActionKind) (r : Option Replicas) (ns dep why : Text)
      → IsSafe v (action k r ns dep why)
      → IsPlainCount r
      → ReadsBack (action k r ns dep why)
  unfolding render_recovery_command render_scale_command show_replicas show_int
  read_back observe_only none ns dep why s p =
      let e =
        split_observe ns dep (IsLabel-IsWord ns s.target.namespace_label)
          (IsLabel-IsWord dep s.target.deployment_label) in
      (_, refl, _, read_observe _ ns dep why e s, refl)
  read_back rollout_restart none ns dep why s p =
      let e =
        split-restart ns dep (IsLabel-IsWord ns s.target.namespace_label)
          (IsLabel-IsWord dep s.target.deployment_label) in
      (_, refl, _, read_restart _ ns dep why e s, refl)
  read_back scale_out (some (int (pos n))) ns dep why s p =
      let e =
        split_scale ns dep (IsLabel-IsWord ns s.target.namespace_label)
          (IsLabel-IsWord dep s.target.deployment_label) (show_nat n) (count-IsWord n) in
      (_, refl, _, read_scale n _ ns dep why (omega (arith, s.fits)) e s, refl)
  read_back scale_out (some (int (negsuc n))) ns dep why s p = absurd (omega (arith, s.fits))
  read_back scale_out (some (bool b)) ns dep why s p = absurd p
  read_back scale_out (some (other t)) ns dep why s p = absurd p
  read_back scale_out none ns dep why s p = absurd s.fits
  read_back observe_only (some r) ns dep why s p = absurd s.fits
  read_back rollout_restart (some r) ns dep why s p = absurd s.fits
  read_back foreign r ns dep why s p = absurd s.fits

  -- With bounds on the replicas between 0 and 4299, every safe action whose count is absent or a
  -- plain integer is rendered as a command, and that command is read back as the same action but
  -- for its reason.
  pub validate-render_recovery_command :
      (a : RecoveryAction) → IsSafe v a → IsPlainCount a.replicas → ReadsBack a
  validate-render_recovery_command a = read_back a.kind a.replicas a.namespace a.deployment a.reason

module _ (decimal : DigitTable) (v : CommandValidator) where
  scale_of_word :
      (count ns dep : Text)
      → isdecimal decimal count ≡ false
      → scale_of_parts decimal v (scale_argv count ns dep) ≡ err replicas_not_positive
  unfolding scale_of_parts begins text_eq starts_with after_equals
  scale_of_word count ns dep h = ground (arith, h)

  refuses_word :
      (command count ns dep : Text)
      → split command ≡ ok (scale_argv count ns dep)
      → isdecimal decimal count ≡ false
      → validate_recovery_command decimal v command ≡ err replicas_not_positive
  unfolding recovery_of_parts is_observe_command is_rollout_restart_command is_scale_command begins
      text_eq starts_with
  refuses_word command count ns dep e h =
      validate_recovery_command_of decimal v command (scale_argv count ns dep) e
      ∙ ground (
        arith,
        validate_command_of decimal v command (scale_argv count ns dep) e,
        scale_of_word count ns dep h,
      )

  -- The validator and the printer disagree on Boolean counts: an action that passes the validator
  -- with the count `True` or `False` is rendered as a command that the reader of commands refuses,
  -- as long as neither `T` nor `F` is a decimal digit.
  pub validate-render_bool :
      (b : Bool) (ns dep why : Text)
      → decimal b'T' ≡ none
      → decimal b'F' ≡ none
      → IsSafe v (action scale_out (some (bool b)) ns dep why)
      → (command : Text) × (render_recovery_command (action scale_out (some (bool b)) ns dep why)
          ≡ ok command)
        × (validate_recovery_command decimal v command ≡ err replicas_not_positive)
  unfolding render_recovery_command render_scale_command show_replicas isdecimal
  validate-render_bool true ns dep why t f s =
      let e =
        split_scale ns dep (IsLabel-IsWord ns s.target.namespace_label)
          (IsLabel-IsWord dep s.target.deployment_label) (codes "True") ((λ e. cc), refl) in
      (_, refl, refuses_word _ (codes "True") ns dep e (ground (arith, t)))
  validate-render_bool false ns dep why t f s =
      let e =
        split_scale ns dep (IsLabel-IsWord ns s.target.namespace_label)
          (IsLabel-IsWord dep s.target.deployment_label) (codes "False") ((λ e. cc), refl) in
      (_, refl, refuses_word _ (codes "False") ns dep e (ground (arith, f)))
