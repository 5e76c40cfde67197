-- ===== src/Executor.antt =====
-- src/aiops_k8s_agents/executor.py: `KubernetesExecutor`. The runner of commands and the Go guard
-- are parameters that change a world `W`. The guard gets its request, and answers, as the JSON
-- values that are written to and read from its pipes.
pub mod Permits
pub mod Guard
use aiops_research.Base.{
  ℕ, ℤ, pos, negsuc, Bool, true, false, not, ◌&&◌, Option, none, some, List, [], ◌∷◌, ◌++◌, Text,
  codes, Result, ok, err, ◌==◌, if◌then◌else◌,
}
use aiops_research.Python.Decimal.{DigitTable, show_int}
use aiops_research.Actions.{
  RecoveryActionKind, observe_only, rollout_restart, scale_out, foreign, Replicas, show_replicas,
  ScaleAction, RecoveryAction, CommandResult,
}
use aiops_research.Validator.{
  Error, too_many_digits, CommandValidator, Checked, validate_scale_action,
  validate_recovery_action, render_scale_command, render_recovery_command,
}
use aiops_research.Validator.Command.{validate_recovery_command}

pub data ExecutionMode : Type 0 where
  mock dry_run real : ExecutionMode

pub data ExecutionBackend : Type 0 where
  python go : ExecutionBackend

abbrev pub mode_value : ExecutionMode → Text
mode_value mock = codes "mock"
mode_value dry_run = codes "dry-run"
mode_value real = codes "real"

-- What `execute` may raise: an error of the validator, the `ValueError` of `_recovery_argv`, and
-- the `AttributeError` of `data.get` on a JSON value that is no object.
pub data ExecutorError : Type 0 where
  invalid : Error → ExecutorError
  unsupported not_an_object : ExecutorError

-- The exit code and the two outputs of a process.
pub record Completed : Type 0 where
  pub return_code : ℤ
  pub stdout : Text
  pub stderr : Text

pub record GuardRequest : Type 0 where
  pub mode : Text
  pub namespace : Text
  pub deployment : Text
  pub kind : RecoveryActionKind
  pub replicas : Option Replicas
  pub allowed_namespaces : List Text
  pub allowed_deployments : List Text
  pub min_replicas : ℤ
  pub max_replicas : ℤ

-- The fields that the guard's JSON object has; `valid` is the truth of its value.
pub record GuardReply : Type 0 where
  pub command : Option Text
  pub mode : Option Text
  pub valid : Option Bool
  pub stdout : Option Text
  pub stderr : Option Text

-- The guard's output as `json.loads` takes it.
pub data GuardOutput : Type 0 where
  nothing : GuardOutput
  malformed : Text → GuardOutput
  other_value : GuardOutput
  object : GuardReply → GuardOutput

pub record KubernetesExecutor : Type 0 where
  pub validator : CommandValidator
  pub mode : ExecutionMode
  pub backend : ExecutionBackend

abbrev pub get_or : {A : Type 0} → Option A → A → A
get_or none d = d
get_or (some a) d = a

abbrev pub is_zero_code : ℤ → Bool
is_zero_code (pos n) = n == 0
is_zero_code (negsuc n) = false

abbrev pub checked : {A : Type 0} → Checked A → Result ExecutorError A
checked (ok a) = ok a
checked (err e) = err (invalid e)

pub mock_result : KubernetesExecutor → Text → CommandResult
mock_result x command = record {
  command = command;
  mode = mode_value x.mode;
  valid = true;
  stdout = codes "mock: 명령어를 검증했으며 실제 실행하지 않았습니다";
  stderr = [];
  by_go_guard = false;
}

pub scale_argv : ScaleAction → List Text
scale_argv a =
    codes "kubectl"
    ∷ codes "scale"
    ∷ codes "deployment"
    ∷ a.deployment
    ∷ (codes "--replicas=" ++ show_replicas a.replicas)
    ∷ codes "-n"
    ∷ a.namespace
    ∷ []

abbrev pub argv_of_kind :
    RecoveryAction → RecoveryActionKind → Option Replicas → Result ExecutorError (List Text)
argv_of_kind a observe_only r = ok (
    codes "kubectl"
    ∷ codes "get"
    ∷ codes "deployment"
    ∷ a.deployment
    ∷ codes "-n"
    ∷ a.namespace
    ∷ codes "-o"
    ∷ codes "json"
    ∷ [])
argv_of_kind a rollout_restart r = ok (
    codes "kubectl"
    ∷ codes "rollout"
    ∷ codes "restart"
    ∷ codes "deployment"
    ∷ a.deployment
    ∷ codes "-n"
    ∷ a.namespace
    ∷ [])
argv_of_kind a scale_out (some r) = ok (
    scale_argv (record {
      namespace = a.namespace;
      deployment = a.deployment;
      replicas = r;
      reason = a.reason;
    }))
argv_of_kind a scale_out none = err unsupported
argv_of_kind a foreign r = err unsupported

pub recovery_argv : RecoveryAction → Result ExecutorError (List Text)
unfolding scale_argv
recovery_argv a = argv_of_kind a a.kind a.replicas

-- The option that is added in a dry run, but not to a command that only observes.
abbrev pub with_dry_run : ExecutionMode → RecoveryActionKind → List Text → List Text
with_dry_run dry_run observe_only argv = argv
with_dry_run dry_run rollout_restart argv = argv ++ codes "--dry-run=server" ∷ []
with_dry_run dry_run scale_out argv = argv ++ codes "--dry-run=server" ∷ []
with_dry_run dry_run foreign argv = argv ++ codes "--dry-run=server" ∷ []
with_dry_run mock k argv = argv
with_dry_run real k argv = argv

abbrev pub guard_exit : Text → ℤ → Text
guard_exit [] code = codes "Go guard exited with code " ++ show_int code
guard_exit (c ∷ t) code = c ∷ t

unfoldable pub parse_go_guard_result :
    KubernetesExecutor → ℤ → GuardOutput → Text → Text → Result ExecutorError CommandResult
parse_go_guard_result x code nothing stderr fallback = ok (record {
  command = fallback;
  mode = mode_value x.mode;
  valid = false;
  stdout = [];
  stderr = guard_exit stderr code;
  by_go_guard = true;
})
parse_go_guard_result x code (malformed t) stderr fallback = ok (record {
  command = fallback;
  mode = mode_value x.mode;
  valid = false;
  stdout = [];
  stderr = codes "Go guard returned invalid JSON: " ++ t;
  by_go_guard = true;
})
parse_go_guard_result x code other_value stderr fallback = err not_an_object
parse_go_guard_result x code (object r) stderr fallback = ok (record {
  command = get_or r.command [];
  mode = get_or r.mode (mode_value x.mode);
  valid = get_or r.valid false && is_zero_code code;
  stdout = get_or r.stdout [];
  stderr = get_or r.stderr stderr;
  by_go_guard = true;
})

abbrev request_of :
    KubernetesExecutor → Text → Text → RecoveryActionKind → Option Replicas → GuardRequest
request_of x ns dep kind replicas = record {
  mode = mode_value x.mode;
  namespace = ns;
  deployment = dep;
  kind = kind;
  replicas = replicas;
  allowed_namespaces = x.validator.allowed_namespaces;
  allowed_deployments = x.validator.allowed_deployments;
  min_replicas = x.validator.min_replicas;
  max_replicas = x.validator.max_replicas;
}

-- `message e` is the text of an exception.
module _ (decimal : DigitTable) (message : Error → Text) where
  -- The `except CommandValidationError` of the cross-check: another `ValueError` passes through.
  abbrev cross_failure : CommandResult → Error → Result ExecutorError CommandResult
  cross_failure result too_many_digits = err (invalid too_many_digits)
  cross_failure result e = ok (record result {
    valid = false;
    stderr = codes "Python-Go cross-check failed: " ++ message e;
  })

  abbrev cross_checked : CommandResult → Checked RecoveryAction → Result ExecutorError CommandResult
  cross_checked result (ok a) = ok result
  cross_checked result (err e) = cross_failure result e

  unfoldable pub cross_validate :
      KubernetesExecutor → CommandResult → Result ExecutorError CommandResult
  cross_validate x result =
      if not result.valid
      then ok result
      else cross_checked result (validate_recovery_command decimal x.validator result.command)

  module _ {W : Type 0} (run : List Text → W → Completed × W)
      (guard : GuardRequest → W → (ℤ × GuardOutput × Text) × W) (x : KubernetesExecutor) where
    abbrev pub Exec : Type 0 → Type 0
    Exec A = W → Result ExecutorError A × W

    infixl 5 ◌>>=◌
    abbrev ◌>>=◌ : {A B : Type 0} → Result ExecutorError A → (A → Exec B) → Exec B
    ◌>>=◌ (ok a) f w = f a w
    ◌>>=◌ (err e) f w = (err e, w)

    run_command : Text → List Text → Exec CommandResult
    run_command command argv w =
        let (done, w') = run argv w in
        (
          ok (record {
            command = command;
            mode = mode_value x.mode;
            valid = is_zero_code done.return_code;
            stdout = done.stdout;
            stderr = done.stderr;
            by_go_guard = false;
          }),
          w',
        )

    abbrev after_guard : Result ExecutorError CommandResult → Result ExecutorError CommandResult
    after_guard (ok result) = cross_validate x result
    after_guard (err e) = err e

    unfoldable pub execute_with_go_guard :
        Text → Text → RecoveryActionKind → Option Replicas → Text → Exec CommandResult
    execute_with_go_guard ns dep kind replicas fallback w =
        let (answer, w') = guard (request_of x ns dep kind replicas) w in
        (after_guard (parse_go_guard_result x answer.0 answer.1 answer.2 fallback), w')

    -- What follows the validation and the rendering of a recovery action, by backend and mode.
    unfoldable pub dispatch :
        ExecutionBackend → ExecutionMode → RecoveryAction → Text → Exec CommandResult
    unfolding mock_result recovery_argv run_command
    dispatch go m a command =
        execute_with_go_guard a.namespace a.deployment a.kind a.replicas command
    dispatch python mock a command = λ w. (ok (mock_result x command), w)
    dispatch python dry_run a command = do
      argv ← recovery_argv a
      run_command command (with_dry_run dry_run a.kind argv)
    dispatch python real a command = do argv ← recovery_argv a; run_command command argv

    unfoldable pub execute_recovery : RecoveryAction → Exec CommandResult
    unfolding dispatch
    execute_recovery a = do
      validated ← checked (validate_recovery_action x.validator a)
      command ← checked (render_recovery_command validated)
      dispatch x.backend x.mode validated command

    dispatch_scale : ExecutionBackend → ExecutionMode → ScaleAction → Text → Exec CommandResult
    unfolding mock_result scale_argv run_command
    dispatch_scale go m a command =
        execute_with_go_guard a.namespace a.deployment scale_out (some a.replicas) command
    dispatch_scale python mock a command = λ w. (ok (mock_result x command), w)
    dispatch_scale python dry_run a command =
        run_command command (scale_argv a ++ codes "--dry-run=server" ∷ [])
    dispatch_scale python real a command = run_command command (scale_argv a)

    pub execute_scale : ScaleAction → Exec CommandResult
    unfolding dispatch_scale
    execute_scale a = do
      validated ← checked (validate_scale_action x.validator a)
      dispatch_scale x.backend x.mode validated (render_scale_command validated)
