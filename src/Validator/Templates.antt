-- ===== src/Validator/Templates.antt =====
-- The approved command templates of src/aiops_k8s_agents/validator.py, and that the tests of
-- `validate_recovery_command` accept their words only.
use aiops_research.Base.{
  pos, ◌≡◌, refl, true, ◌⊎◌, inl, inr, Option, none, some, List, [], ◌∷◌, ◌++◌, arith, Text, codes,
  text_eq_iff,
}
use aiops_research.Python.Decimal.{DigitTable, isdecimal, int_value}
use aiops_research.Actions.{
  RecoveryActionKind, observe_only, rollout_restart, scale_out, Replicas, int,
}
use aiops_research.Validator.Command.{
  part, begins, starts_with, after_equals, replicas_option, is_observe_command,
  is_rollout_restart_command, is_scale_command,
}

abbrev pub dry_run_option : Text
dry_run_option = codes "--dry-run=server"

abbrev pub observe_argv : Text → Text → List Text
observe_argv ns dep =
    codes "kubectl"
    ∷ codes "get"
    ∷ codes "deployment"
    ∷ dep
    ∷ codes "-n"
    ∷ ns
    ∷ codes "-o"
    ∷ codes "json"
    ∷ []

abbrev pub restart_argv : Text → Text → List Text
restart_argv ns dep =
    codes "kubectl"
    ∷ codes "rollout"
    ∷ codes "restart"
    ∷ codes "deployment"
    ∷ dep
    ∷ codes "-n"
    ∷ ns
    ∷ []

abbrev pub scale_argv : Text → Text → Text → List Text
scale_argv count ns dep =
    codes "kubectl"
    ∷ codes "scale"
    ∷ codes "deployment"
    ∷ dep
    ∷ (replicas_option ++ count)
    ∷ codes "-n"
    ∷ ns
    ∷ []

-- The words are the template, or the template and the option of a dry run.
abbrev pub WithDryRun : List Text → List Text → Type 0
WithDryRun argv parts = (parts ≡ argv) ⊎ (parts ≡ argv ++ dry_run_option ∷ [])

-- The words that ask for an action of a kind, with a count or without.
abbrev pub Asks :
    DigitTable → RecoveryActionKind → Option Replicas → Text → Text → List Text → Type 0
Asks decimal observe_only none ns dep parts = parts ≡ observe_argv ns dep
Asks decimal rollout_restart none ns dep parts = WithDryRun (restart_argv ns dep) parts
Asks decimal scale_out (some (int (pos n))) ns dep parts =
    (count : Text) × (isdecimal decimal count ≡ true)
    × (int_value decimal count ≡ n)
    × WithDryRun (scale_argv count ns dep) parts
Asks decimal k r ns dep parts = ⊥

pub observe_sound :
    (parts : List Text)
    → is_observe_command parts ≡ true
    → parts ≡ observe_argv (part parts 5) (part parts 3)
unfolding is_observe_command begins
observe_sound [] h = cc
observe_sound (a ∷ []) h = ground arith
observe_sound (a ∷ b ∷ []) h = ground arith
observe_sound (a ∷ b ∷ c ∷ []) h = ground arith
observe_sound (a ∷ b ∷ c ∷ d ∷ []) h = ground arith
observe_sound (a ∷ b ∷ c ∷ d ∷ e ∷ []) h = ground arith
observe_sound (a ∷ b ∷ c ∷ d ∷ e ∷ f ∷ []) h = ground arith
observe_sound (a ∷ b ∷ c ∷ d ∷ e ∷ f ∷ g ∷ []) h = ground arith
observe_sound (a ∷ b ∷ c ∷ d ∷ e ∷ f ∷ g ∷ i ∷ []) h = ground (
  arith,
  text_eq_iff a (codes "kubectl"),
  text_eq_iff b (codes "get"),
  text_eq_iff c (codes "deployment"),
  text_eq_iff e (codes "-n"),
  text_eq_iff g (codes "-o"),
  text_eq_iff i (codes "json"),
)
observe_sound (a ∷ b ∷ c ∷ d ∷ e ∷ f ∷ g ∷ i ∷ j ∷ l) h = ground arith

pub restart_sound :
    (parts : List Text)
    → is_rollout_restart_command parts ≡ true
    → WithDryRun (restart_argv (part parts 6) (part parts 4)) parts
unfolding is_rollout_restart_command begins
restart_sound [] h = cc
restart_sound (a ∷ []) h = ground arith
restart_sound (a ∷ b ∷ []) h = ground arith
restart_sound (a ∷ b ∷ c ∷ []) h = ground arith
restart_sound (a ∷ b ∷ c ∷ d ∷ []) h = ground arith
restart_sound (a ∷ b ∷ c ∷ d ∷ e ∷ []) h = ground arith
restart_sound (a ∷ b ∷ c ∷ d ∷ e ∷ f ∷ []) h = ground arith
restart_sound (a ∷ b ∷ c ∷ d ∷ e ∷ f ∷ g ∷ []) h = inl (
    ground (
      arith,
      text_eq_iff a (codes "kubectl"),
      text_eq_iff b (codes "rollout"),
      text_eq_iff c (codes "restart"),
      text_eq_iff d (codes "deployment"),
      text_eq_iff f (codes "-n"),
    ))
restart_sound (a ∷ b ∷ c ∷ d ∷ e ∷ f ∷ g ∷ i ∷ []) h = inr (
    ground (
      arith,
      text_eq_iff a (codes "kubectl"),
      text_eq_iff b (codes "rollout"),
      text_eq_iff c (codes "restart"),
      text_eq_iff d (codes "deployment"),
      text_eq_iff f (codes "-n"),
      text_eq_iff i dry_run_option,
    ))
restart_sound (a ∷ b ∷ c ∷ d ∷ e ∷ f ∷ g ∷ i ∷ j ∷ l) h = ground arith

-- A text that starts with a prefix is the prefix and a rest.
starts_with_rest : (t p : Text) → starts_with t p ≡ true → (r : Text) × (t ≡ p ++ r)
unfolding starts_with
starts_with_rest t [] h = (t, refl)
starts_with_rest [] (p ∷ ps) h = cc
starts_with_rest (c ∷ t) (p ∷ ps) h =
    let (r, e) = starts_with_rest t ps (ground arith) in (r, ground (arith, e))

pub scale_sound :
    (parts : List Text)
    → is_scale_command parts ≡ true
    → WithDryRun (scale_argv (after_equals (part parts 4)) (part parts 6) (part parts 3)) parts
unfolding is_scale_command begins after_equals
scale_sound [] h = cc
scale_sound (a ∷ []) h = ground arith
scale_sound (a ∷ b ∷ []) h = ground arith
scale_sound (a ∷ b ∷ c ∷ []) h = ground arith
scale_sound (a ∷ b ∷ c ∷ d ∷ []) h = ground arith
scale_sound (a ∷ b ∷ c ∷ d ∷ e ∷ []) h = ground arith
scale_sound (a ∷ b ∷ c ∷ d ∷ e ∷ f ∷ []) h = ground arith
scale_sound (a ∷ b ∷ c ∷ d ∷ e ∷ f ∷ g ∷ []) h =
    let (r, eq) = starts_with_rest e replicas_option (ground arith) in
    inl (
      rw eq (
        ground (
          arith,
          text_eq_iff a (codes "kubectl"),
          text_eq_iff b (codes "scale"),
          text_eq_iff c (codes "deployment"),
          text_eq_iff f (codes "-n"),
        )))
scale_sound (a ∷ b ∷ c ∷ d ∷ e ∷ f ∷ g ∷ i ∷ []) h =
    let (r, eq) = starts_with_rest e replicas_option (ground arith) in
    inr (
      rw eq (
        ground (
          arith,
          text_eq_iff a (codes "kubectl"),
          text_eq_iff b (codes "scale"),
          text_eq_iff c (codes "deployment"),
          text_eq_iff f (codes "-n"),
          text_eq_iff i dry_run_option,
        )))
scale_sound (a ∷ b ∷ c ∷ d ∷ e ∷ f ∷ g ∷ i ∷ j ∷ l) h = ground arith
