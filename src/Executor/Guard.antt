-- ===== src/Executor/Guard.antt =====
-- src/aiops_k8s_agents/executor.py: what the executor believes of the Go guard.
use aiops_research.Base.{
  ℤ, pos, ◌≡◌, refl, true, none, some, List, [], arith, inl, inr, Text, ok, Result-cases,
}
use aiops_research.Python.Decimal.{DigitTable}
use aiops_research.Python.Shlex.{split}
use aiops_research.Actions.{RecoveryAction, CommandResult}
use aiops_research.Validator.{Error, validate_recovery_action, render_recovery_command}
use aiops_research.Validator.Command.{validate_recovery_command}
use aiops_research.Validator.Templates.{Asks}
use aiops_research.Validator.Reading.{validate_recovery_command_sound}
use aiops_research.Validator.Safety.{IsSafe, renders, validate_recovery_action_iff}
use aiops_research.Executor.{
  Completed, GuardRequest, GuardOutput, object, request_of, KubernetesExecutor, mode_value, go,
  parse_go_guard_result, cross_validate, execute_with_go_guard, dispatch, execute_recovery,
}

module _ (decimal : DigitTable) (message : Error → Text) {W : Type 0}
    (run : List Text → W → Completed × W) (guard : GuardRequest → W → (ℤ × GuardOutput × Text) × W)
    (x : KubernetesExecutor) where
  cross_validate_reads :
      (given result : CommandResult)
      → cross_validate decimal message x given ≡ ok result
      → result.valid ≡ true
      → (b : RecoveryAction) × (validate_recovery_command decimal x.validator result.command ≡ ok b)
  unfolding cross_validate
  cross_validate_reads given result h v =
      elim (Result-cases (validate_recovery_command decimal x.validator given.command)) [
        | inl (b, e) ↦ (b, let same : result ≡ given = ground (arith, e) in rw same e)
        | inr (e, r) ↦ absurd (ground (arith, r))
      ]

  guard_checked :
      (b : RecoveryAction) (command : Text) (w : W) (result : CommandResult)
      → (execute_with_go_guard decimal message run guard x b.namespace b.deployment b.kind
          b.replicas command w).0
        ≡ ok result
      → (given : CommandResult) × (cross_validate decimal message x given ≡ ok result)
  unfolding execute_with_go_guard
  guard_checked b command w result h =
      let (answer, after) = guard (request_of x b.namespace b.deployment b.kind b.replicas) w in
      elim (Result-cases (parse_go_guard_result x answer.0 answer.1 answer.2 command)) [
        | inl (given, e) ↦ (given, ground (arith, e))
        | inr (e, bad) ↦ absurd (ground (arith, bad))
      ]

  -- When the Go guard's answer is taken as a valid result, its command was read by this program
  -- too, as a safe action: its words are those of an approved template.
  pub execute_recovery-go_sound :
      (a : RecoveryAction) (w : W) (result : CommandResult)
      → x.backend ≡ go
      → (execute_recovery decimal message run guard x a w).0 ≡ ok result
      → result.valid ≡ true
      → (b : RecoveryAction) × ((parts : List Text) × (split result.command ≡ ok parts)
          × Asks decimal b.kind b.replicas b.namespace b.deployment parts
          × IsSafe x.validator b)
  unfolding execute_recovery dispatch
  execute_recovery-go_sound a w result g h v =
      elim (Result-cases (validate_recovery_action x.validator a)) [
        | inl (b, valid) ↦ elim (Result-cases (render_recovery_command b)) [
          | inl (command, rendered) ↦
              let (given, checks) =
                guard_checked b command w result (ground (arith, valid, rendered)) in
              let (c, reads) = cross_validate_reads given result checks v in
              (c, validate_recovery_command_sound decimal x.validator result.command c reads)
          | inr (e, bad) ↦ absurd (ground (arith, valid, bad))
        ]
        | inr (e, bad) ↦ absurd (ground (arith, bad))
      ]

-- A Go guard that always answers with one command, run without an error.
abbrev pub answers : Text → {W : Type 0} → GuardRequest → W → (ℤ × GuardOutput × Text) × W
answers command request w = (
  (
    pos 0,
    object (record {
      command = some command;
      mode = none;
      valid = some true;
      stdout = none;
      stderr = none;
    }),
    [],
  ),
  w,
)

-- The cross-check does not compare the guard's command with the request: for any safe action, and
-- any command that is read as some action at all, a guard that answers with that command has it
-- reported as the valid result of the request.
pub execute_recovery-go_swaps :
    (decimal : DigitTable) (message : Error → Text) {W : Type 0}
    (run : List Text → W → Completed × W) (x : KubernetesExecutor) (a b : RecoveryAction)
    (command : Text) (w : W)
    → x.backend ≡ go
    → IsSafe x.validator a
    → validate_recovery_command decimal x.validator command ≡ ok b
    → (result : CommandResult) × ((execute_recovery decimal message run (answers command) x a w).0
        ≡ ok result)
      × (result.valid ≡ true)
      × (result.command ≡ command)
unfolding execute_recovery dispatch execute_with_go_guard parse_go_guard_result cross_validate
execute_recovery-go_swaps decimal message run x a b command w g s reads =
    let valid = (validate_recovery_action_iff x.validator a a).1 (refl, s) in
    let (shown, rendered) = renders x.validator a s in
    (
      record {
        command = command;
        mode = mode_value x.mode;
        valid = true;
        stdout = [];
        stderr = [];
        by_go_guard = true;
      },
      ground (arith, valid, rendered, reads),
      refl,
      refl,
    )
