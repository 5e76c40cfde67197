-- ===== src/Examples/Commands.antt =====
-- The validator and the executor on one deployment (src/aiops_k8s_agents/validator.py and
-- src/aiops_k8s_agents/executor.py).
use aiops_research.Base.{
  ℕ, ℤ, pos, suc, ◌≤ℤ◌, ◌-◌, ◌≡◌, refl, ◌↔◌, true, ◌&&◌, Option, none, some, List, [], ◌∷◌, arith,
  Text, codes, leb, text_eq, contains_text, if◌then◌else◌, In, ok, err,
}
use aiops_research.Python.Decimal.{DigitTable, ReadsAscii, isdecimal, value_from}
use aiops_research.Python.Shlex.{split, tokens, advance}
use aiops_research.Actions.{
  RecoveryActionKind, observe_only, rollout_restart, scale_out, foreign, Replicas, int, bool,
  RecoveryAction, CommandResult,
}
use aiops_research.Validator.{
  Error, CommandValidator, validate_recovery_action, matches_name, render_recovery_command,
  replicas_not_positive, validate_scale_action, validate_target, validate_count, validate_replicas,
  name_tail,
}
use aiops_research.Validator.Command.{
  validate_recovery_command, recovery_of_parts, is_observe_command, is_rollout_restart_command,
  is_scale_command, scale_of_parts, validate_command, begins, starts_with, after_equals,
}
use aiops_research.Validator.Names.{IsLabel, matches_name_iff}
use aiops_research.Validator.Safety.{IsTarget, IsSafe, validate_recovery_action_iff}
use aiops_research.Validator.Templates.{Asks}
use aiops_research.Validator.Reading.{validate_recovery_command_sound}
use aiops_research.Validator.RoundTrip.{
  ReadsBack, action, validate-render_recovery_command, validate-render_bool,
}
use aiops_research.Executor.{
  ExecutionMode, dry_run, real, ExecutionBackend, python, go, invalid, Completed, GuardRequest,
  GuardOutput, KubernetesExecutor, execute_recovery, dispatch, execute_with_go_guard,
  parse_go_guard_result, cross_validate,
}
use aiops_research.Executor.Permits.{
  Words, ForMode, execute_recovery_refuses, execute_recovery_agrees,
}
use aiops_research.Executor.Guard.{answers, execute_recovery-go_sound, execute_recovery-go_swaps}

-- The decimal digits of ASCII.
abbrev ascii_digits : DigitTable
ascii_digits c = if leb 48 c && leb c 57 then some (c - 48) else none

ascii_digits-ReadsAscii : ReadsAscii ascii_digits
ascii_digits-ReadsAscii d h = ground arith

abbrev web : Text
web = codes "web"

abbrev shop : Text
shop = codes "shop-1"

abbrev gate : CommandValidator
gate = record {
  allowed_namespaces = shop ∷ [];
  allowed_deployments = web ∷ [];
  min_replicas = pos 1;
  max_replicas = pos 5;
}

abbrev scale_to : Replicas → RecoveryAction
scale_to r = action scale_out (some r) shop web (codes "load")

abbrev restart : RecoveryAction
restart = action rollout_restart none shop web []

shop-IsLabel : IsLabel shop
shop-IsLabel = record { short = omega arith; chars = refl; begins = refl; ends = refl }

web-IsTarget : IsTarget gate shop web
web-IsTarget = record {
  namespace_label = shop-IsLabel;
  deployment_label = record { short = omega arith; chars = refl; begins = refl; ends = refl };
  namespace_listed = In.here;
  deployment_listed = In.here;
}

three-IsSafe : IsSafe gate (scale_to (int (pos 3)))
three-IsSafe = record { target = web-IsTarget; fits = ground arith }

true-IsSafe : IsSafe gate (scale_to (bool true))
true-IsSafe = record { target = web-IsTarget; fits = ground arith }

matches_name_iff_example : (matches_name shop ≡ true) ↔ IsLabel shop
matches_name_iff_example = matches_name_iff shop

validate_recovery_action_iff_example :
    (validate_recovery_action gate (scale_to (int (pos 3))) ≡ ok (scale_to (int (pos 3))))
    ↔ ((scale_to (int (pos 3)) ≡ scale_to (int (pos 3))) × IsSafe gate (scale_to (int (pos 3))))
validate_recovery_action_iff_example =
    validate_recovery_action_iff gate (scale_to (int (pos 3))) (scale_to (int (pos 3)))

one_up : pos 0 ≤ℤ gate.min_replicas
one_up = ground arith

five_down : gate.max_replicas ≤ℤ pos 4299
five_down = ground arith

validate-render_recovery_command_example :
    ReadsBack ascii_digits ascii_digits-ReadsAscii gate one_up five_down (scale_to (int (pos 3)))
validate-render_recovery_command_example =
    validate-render_recovery_command ascii_digits ascii_digits-ReadsAscii gate one_up five_down
      (scale_to (int (pos 3))) three-IsSafe tt

validate-render_bool_example :
    (command : Text) × (render_recovery_command (scale_to (bool true)) ≡ ok command)
    × (validate_recovery_command ascii_digits gate command ≡ err replicas_not_positive)
validate-render_bool_example =
    validate-render_bool ascii_digits gate true shop web (codes "load") refl refl true-IsSafe

abbrev scale_line : Text
scale_line = codes "kubectl scale deployment web --replicas=3 -n shop-1 --dry-run=server"

abbrev scale_read : RecoveryAction
scale_read =
    action scale_out (some (int (pos 3))) shop web
      (codes "validated from an approved scale command template")

-- The line is read as the action.
scale_line_is_read : validate_recovery_command ascii_digits gate scale_line ≡ ok scale_read
unfolding validate_recovery_command recovery_of_parts is_observe_command is_rollout_restart_command
    is_scale_command scale_of_parts validate_command split tokens advance begins starts_with
    after_equals text_eq isdecimal value_from validate_scale_action validate_target validate_count
    validate_replicas matches_name name_tail contains_text
scale_line_is_read = refl

validate_recovery_command_sound_example :
    (parts : List Text) × (split scale_line ≡ ok parts)
    × Asks ascii_digits scale_out (some (int (pos 3))) shop web parts
    × IsSafe gate scale_read
validate_recovery_command_sound_example =
    validate_recovery_command_sound ascii_digits gate scale_line scale_read scale_line_is_read

abbrev message : Error → Text
message e = codes "refused"

abbrev executor : ExecutionMode → ExecutionBackend → KubernetesExecutor
executor m b = record { validator = gate; mode = m; backend = b }

-- A runner that counts its runs, and one that does so but for the empty command.
abbrev run : List Text → ℕ → Completed × ℕ
run argv w = (record { return_code = pos 0; stdout = []; stderr = [] }, suc w)

abbrev careful_run : List Text → ℕ → Completed × ℕ
careful_run [] w = (record { return_code = pos 127; stdout = []; stderr = [] }, w)
careful_run (c ∷ argv) w = run (c ∷ argv) w

abbrev guard : GuardRequest → ℕ → (ℤ × GuardOutput × Text) × ℕ
guard = answers scale_line

runs_agree :
    (k : RecoveryActionKind) (r : Option Replicas) (ns dep : Text) (ws argv : List Text)
    → Words k r ns dep ws
    → ForMode dry_run k ws argv
    → run argv ≡ careful_run argv
runs_agree observe_only none ns dep ws argv s m = rw (m, s)
runs_agree rollout_restart none ns dep ws argv s m = rw (m, s)
runs_agree scale_out (some r) ns dep ws argv s m = rw (m, s)
runs_agree observe_only (some r) ns dep ws argv s m = absurd s
runs_agree rollout_restart (some r) ns dep ws argv s m = absurd s
runs_agree scale_out none ns dep ws argv s m = absurd s
runs_agree foreign r ns dep ws argv s m = absurd s

execute_recovery_agrees_example :
    execute_recovery ascii_digits message run guard (executor dry_run python) restart 0
    ≡ execute_recovery ascii_digits message careful_run guard (executor dry_run python) restart 0
execute_recovery_agrees_example =
    execute_recovery_agrees ascii_digits message guard (executor dry_run python) run careful_run
      restart 0 refl
      (λ argv p.
        runs_agree p.action.kind p.action.replicas p.action.namespace p.action.deployment p.words
          argv p.spelled p.for_mode)

abbrev ten : RecoveryAction
ten = scale_to (int (pos 10))

ten-unsafe : ¬ IsSafe gate ten
ten-unsafe s = ground (arith, s.fits)

execute_recovery_refuses_example :
    (e : Error) × (execute_recovery ascii_digits message run guard (executor real go) ten 0
      ≡ (err (invalid e), 0))
execute_recovery_refuses_example =
    execute_recovery_refuses ascii_digits message guard (executor real go) run ten 0 ten-unsafe

abbrev guard_result : CommandResult
guard_result = record {
  command = scale_line;
  mode = codes "real";
  valid = true;
  stdout = [];
  stderr = [];
  by_go_guard = true;
}

guard_result_is_returned :
    (execute_recovery ascii_digits message run guard
      (executor real go)
      (scale_to (int (pos 3)))
      0).0
    ≡ ok guard_result
unfolding execute_recovery dispatch execute_with_go_guard parse_go_guard_result cross_validate
    render_recovery_command
guard_result_is_returned =
    let three = scale_to (int (pos 3)) in
    rw ((validate_recovery_action_iff gate three three).1 (refl, three-IsSafe), scale_line_is_read)
      refl

execute_recovery-go_sound_example :
    (b : RecoveryAction) × ((parts : List Text) × (split scale_line ≡ ok parts)
      × Asks ascii_digits b.kind b.replicas b.namespace b.deployment parts
      × IsSafe gate b)
execute_recovery-go_sound_example =
    execute_recovery-go_sound ascii_digits message run guard (executor real go)
      (scale_to (int (pos 3))) 0 guard_result refl guard_result_is_returned refl

execute_recovery-go_swaps_example :
    (result : CommandResult) × ((execute_recovery ascii_digits message run guard
        (executor real go)
        restart
        0).0
      ≡ ok result)
    × (result.valid ≡ true)
    × (result.command ≡ scale_line)
execute_recovery-go_swaps_example =
    execute_recovery-go_swaps ascii_digits message run (executor real go) restart scale_read
      scale_line 0 refl (record { target = web-IsTarget; fits = tt }) scale_line_is_read
