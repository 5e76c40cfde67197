-- ===== src/Executor/Permits.antt =====
-- src/aiops_k8s_agents/executor.py: which commands the executor hands to its runner.
use aiops_research.Base.{
  ℤ, ◌≡◌, refl, inl, inr, Option, none, some, List, [], ◌∷◌, ◌++◌, arith, Text, err, Result-cases,
}
use aiops_research.Python.Decimal.{DigitTable}
use aiops_research.Actions.{
  RecoveryActionKind, observe_only, rollout_restart, scale_out, foreign, Replicas, show_replicas,
  RecoveryAction,
}
use aiops_research.Validator.{
  Error, CommandValidator, validate_recovery_action, render_recovery_command,
}
use aiops_research.Validator.Templates.{
  observe_argv, restart_argv, scale_argv as scale_words, dry_run_option,
}
use aiops_research.Validator.Safety.{IsSafe, validate_recovery_action_iff}
use aiops_research.Executor.{
  ExecutionMode, mock, dry_run, real, python, invalid, Completed, GuardRequest, GuardOutput,
  KubernetesExecutor, run_command, dispatch, execute_recovery,
}

-- The words of the command for an action of a kind, with its count if it has one.
abbrev pub Words : RecoveryActionKind → Option Replicas → Text → Text → List Text → Type 0
Words observe_only none ns dep ws = ws ≡ observe_argv ns dep
Words rollout_restart none ns dep ws = ws ≡ restart_argv ns dep
Words scale_out (some r) ns dep ws = ws ≡ scale_words (show_replicas r) ns dep
Words k r ns dep ws = ⊥

-- In a dry run the server is told so, or the command only reads.
abbrev pub ForMode : ExecutionMode → RecoveryActionKind → List Text → List Text → Type 0
ForMode mock k ws argv = ⊥
ForMode real k ws argv = argv ≡ ws
ForMode dry_run observe_only ws argv = argv ≡ ws
ForMode dry_run k ws argv = argv ≡ ws ++ dry_run_option ∷ []

-- A command that may be run in a mode: the words of a safe action, as a dry run in a dry run, and
-- nothing at all in mock mode.
pub record IsPermitted (v : CommandValidator) (m : ExecutionMode) (argv : List Text) : Type 0 where
  pub action : RecoveryAction
  pub safe : IsSafe v action
  pub words : List Text
  pub spelled : Words action.kind action.replicas action.namespace action.deployment words
  pub for_mode : ForMode m action.kind words argv

module _ (decimal : DigitTable) (message : Error → Text) {W : Type 0}
    (guard : GuardRequest → W → (ℤ × GuardOutput × Text) × W) (x : KubernetesExecutor) where
  -- An action that is not safe is refused before anything is run: the error is the validator's,
  -- and the world is as it was, in every mode and with either backend.
  pub execute_recovery_refuses :
      (run : List Text → W → Completed × W) (a : RecoveryAction) (w : W)
      → ¬ IsSafe x.validator a
      → (e : Error) × (execute_recovery decimal message run guard x a w ≡ (err (invalid e), w))
  unfolding execute_recovery
  execute_recovery_refuses run a w unsafe =
      elim (Result-cases (validate_recovery_action x.validator a)) [
        | inl (b, h) ↦ absurd (unsafe ((validate_recovery_action_iff x.validator a b).0 h).1)
        | inr (e, h) ↦ (e, ground (arith, h))
      ]

  module _ (run other : List Text → W → Completed × W) where
    run_command_agrees :
        (command : Text) (argv : List Text) (w : W)
        → run argv ≡ other argv
        → run_command decimal message run guard x command argv w
          ≡ run_command decimal message other guard x command argv w
    unfolding run_command
    run_command_agrees command argv w h = rw h

    abbrev Agree : ExecutionMode → Type 0
    Agree m = (argv : List Text) → IsPermitted x.validator m argv → run argv ≡ other argv

    module _ (k : RecoveryActionKind) (r : Option Replicas) (ns dep why command : Text)
        (w : W) where
      abbrev act : RecoveryAction
      act = record { namespace = ns; deployment = dep; kind = k; replicas = r; reason = why }

      argv_agrees :
          (m : ExecutionMode) (words argv : List Text)
          → Agree m
          → IsSafe x.validator act
          → Words k r ns dep words
          → ForMode m k words argv
          → run_command decimal message run guard x command argv w
            ≡ run_command decimal message other guard x command argv w
      argv_agrees m words argv agree s spelled mode = run_command_agrees command argv w (
          agree argv
            (record { action = act; safe = s; words = words; spelled = spelled; for_mode = mode }))

    dispatch_agrees :
        (k : RecoveryActionKind) (r : Option Replicas) (ns dep why command : Text) (w : W)
        (m : ExecutionMode)
        → Agree m
        → IsSafe x.validator (act k r ns dep why command w)
        → dispatch decimal message run guard x python m (act k r ns dep why command w) command w
          ≡ dispatch decimal message other guard x python m (act k r ns dep why command w) command w
    unfolding dispatch
    dispatch_agrees k r ns dep why command w mock agree s = refl
    dispatch_agrees observe_only none ns dep why command w dry_run agree s =
        argv_agrees observe_only none ns dep why command w dry_run (observe_argv ns dep) _ agree s
          refl refl
    dispatch_agrees rollout_restart none ns dep why command w dry_run agree s =
        argv_agrees rollout_restart none ns dep why command w dry_run (restart_argv ns dep) _ agree
          s refl refl
    dispatch_agrees scale_out (some r) ns dep why command w dry_run agree s =
        argv_agrees scale_out (some r) ns dep why command w dry_run
          (scale_words (show_replicas r) ns dep) _ agree s refl refl
    dispatch_agrees observe_only none ns dep why command w real agree s =
        argv_agrees observe_only none ns dep why command w real (observe_argv ns dep) _ agree s refl
          refl
    dispatch_agrees rollout_restart none ns dep why command w real agree s =
        argv_agrees rollout_restart none ns dep why command w real (restart_argv ns dep) _ agree s
          refl refl
    dispatch_agrees scale_out (some r) ns dep why command w real agree s =
        argv_agrees scale_out (some r) ns dep why command w real
          (scale_words (show_replicas r) ns dep) _ agree s refl refl
    dispatch_agrees observe_only (some r) ns dep why command w m agree s = absurd s.fits
    dispatch_agrees rollout_restart (some r) ns dep why command w m agree s = absurd s.fits
    dispatch_agrees scale_out none ns dep why command w m agree s = absurd s.fits
    dispatch_agrees foreign r ns dep why command w m agree s = absurd s.fits

    -- With the Python backend the executor depends on its runner only through permitted commands:
    -- two runners that do the same on the words of safe actions, dry-run words in a dry run, and
    -- on nothing at all in mock mode, give the same execution of every action.
    pub execute_recovery_agrees :
        (a : RecoveryAction) (w : W)
        → x.backend ≡ python
        → ((argv : List Text) → IsPermitted x.validator x.mode argv → run argv ≡ other argv)
        → execute_recovery decimal message run guard x a w
          ≡ execute_recovery decimal message other guard x a w
    unfolding execute_recovery
    execute_recovery_agrees a w p agree =
        elim (Result-cases (validate_recovery_action x.validator a)) [
          | inl (b, h) ↦
              let (same, safe) = (validate_recovery_action_iff x.validator a b).0 h in
              rw (h, p, same)
                (elim (Result-cases (render_recovery_command a)) [
                  | inl (command, e) ↦ rw e (
                      dispatch_agrees a.kind a.replicas a.namespace a.deployment a.reason command w
                        x.mode agree safe)
                  | inr (e, no_command) ↦ rw no_command
                ])
          | inr (e, h) ↦ rw h
        ]
