-- ===== src/Validator/Reading.antt =====
-- src/aiops_k8s_agents/validator.py, `validate_recovery_command`: only the approved templates are
-- read, and only as safe actions.
use aiops_research.Base.{
  pos, ◌≡◌, refl, ◌∙◌, sym, subst, true, inl, inr, none, List, arith, Text, codes, ok, ◌>>=◌,
  passed, Bool-cases,
}
use aiops_research.Python.Decimal.{DigitTable, isdecimal, int_value}
use aiops_research.Python.Shlex.{split}
use aiops_research.Actions.{observe_only, rollout_restart, int, ScaleAction, RecoveryAction}
use aiops_research.Validator.{CommandValidator, validate_scale_action}
use aiops_research.Validator.Command.{
  part, after_equals, scale_of_parts, validate_command, is_observe_command,
  is_rollout_restart_command, is_scale_command, recovery_of_parts, validate_recovery_command,
  as_scale_out, split_command,
}
use aiops_research.Validator.Safety.{
  IsSafe, validate_recovery_action_iff, validate_scale_action_iff,
}
use aiops_research.Validator.Templates.{Asks, observe_sound, restart_sound, scale_sound}

module _ (decimal : DigitTable) (v : CommandValidator) where
  abbrev IsRead : List Text → RecoveryAction → Type 0
  IsRead parts a = Asks decimal a.kind a.replicas a.namespace a.deployment parts × IsSafe v a

  abbrev scale_read : List Text → ScaleAction
  scale_read parts = record {
    namespace = part parts 6;
    deployment = part parts 3;
    replicas = int (pos (int_value decimal (after_equals (part parts 4))));
    reason = codes "validated from an approved command template";
  }

  scale_of_parts_checks :
      (parts : List Text) (b : ScaleAction)
      → scale_of_parts decimal v parts ≡ ok b
      → (isdecimal decimal (after_equals (part parts 4)) ≡ true)
        × (validate_scale_action v (scale_read parts) ≡ ok b)
  unfolding scale_of_parts
  scale_of_parts_checks parts b h = ground arith

  scale_IsRead :
      (parts : List Text) (b : ScaleAction)
      → is_scale_command parts ≡ true
      → scale_of_parts decimal v parts ≡ ok b
      → IsRead parts (as_scale_out b)
  scale_IsRead parts b t h =
      let (digits, checked) = scale_of_parts_checks parts b h in
      let (same, target, bounds) = (validate_scale_action_iff v (scale_read parts) b).0 checked in
      subst (λ c. IsRead parts (as_scale_out c)) (sym same)
        (
          (after_equals (part parts 4), digits, refl, scale_sound parts t),
          record { target = target; fits = bounds },
        )

  abbrev observe_read : List Text → RecoveryAction
  observe_read parts = record {
    namespace = part parts 5;
    deployment = part parts 3;
    kind = observe_only;
    replicas = none;
    reason = codes "validated from an approved observe command template";
  }

  abbrev restart_read : List Text → RecoveryAction
  restart_read parts = record {
    namespace = part parts 6;
    deployment = part parts 4;
    kind = rollout_restart;
    replicas = none;
    reason = codes "validated from an approved rollout restart command template";
  }

  pub validate_recovery_command_of :
      (command : Text) (parts : List Text)
      → split command ≡ ok parts
      → validate_recovery_command decimal v command ≡ recovery_of_parts decimal v command parts
  unfolding validate_recovery_command
  validate_recovery_command_of command parts s = ground arith

  pub validate_command_of :
      (command : Text) (parts : List Text)
      → split command ≡ ok parts
      → validate_command decimal v command ≡ scale_of_parts decimal v parts
  unfolding validate_command
  validate_command_of command parts s = ground arith

  validate_command-IsRead :
      (command : Text) (parts : List Text) (a : RecoveryAction)
      → split command ≡ ok parts
      → is_scale_command parts ≡ true
      → (validate_command decimal v command >>= λ b. ok (as_scale_out b)) ≡ ok a
      → IsRead parts a
  validate_command-IsRead command parts a s t h =
      let (b, same, read) =
        passed (λ b. ok (as_scale_out b)) (validate_command decimal v command) h in
      let scaled : scale_of_parts decimal v parts ≡ ok b =
        sym (validate_command_of command parts s) ∙ read in
      subst (IsRead parts) (ground (arith, same)) (scale_IsRead parts b t scaled)

  recovery_of_parts_sound :
      (command : Text) (parts : List Text) (a : RecoveryAction)
      → split command ≡ ok parts
      → recovery_of_parts decimal v command parts ≡ ok a
      → IsRead parts a
  unfolding recovery_of_parts
  recovery_of_parts_sound command parts a s h = elim (Bool-cases (is_observe_command parts)) [
    | inl t ↦
        let (same, safe) = (validate_recovery_action_iff v (observe_read parts) a).0 (rw t at h) in
        subst (IsRead parts) (sym same) (observe_sound parts t, safe)
    | inr n ↦ elim (Bool-cases (is_rollout_restart_command parts)) [
      | inl t ↦
          let (same, safe) =
            (validate_recovery_action_iff v (restart_read parts) a).0 (rw (n, t) at h) in
          subst (IsRead parts) (sym same) (restart_sound parts t, safe)
      | inr m ↦ elim (Bool-cases (is_scale_command parts)) [
        | inl t ↦ validate_command-IsRead command parts a s t (rw (n, m, t) at h)
        | inr o ↦ ground arith
      ]
    ]
  ]

  -- A command line that is read as an action consists of the words of an approved template for
  -- that very action, with or without the dry-run option where the template has it, and the action
  -- is safe.
  pub validate_recovery_command_sound :
      (command : Text) (a : RecoveryAction)
      → validate_recovery_command decimal v command ≡ ok a
      → (parts : List Text) × (split command ≡ ok parts)
        × Asks decimal a.kind a.replicas a.namespace a.deployment parts
        × IsSafe v a
  unfolding validate_recovery_command
  validate_recovery_command_sound command a h =
      let (parts, read, s) =
        passed (λ ps. recovery_of_parts decimal v command ps) (split_command command) h in
      let splits : split command ≡ ok parts = ground (arith, s) in
      let (asks, safe) = recovery_of_parts_sound command parts a splits read in
      (parts, splits, asks, safe)
