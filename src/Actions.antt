-- ===== src/Actions.antt =====
-- src/aiops_k8s_agents/models.py: recovery actions and the results of commands. The fields that the
-- annotations promise and the code checks again at run time hold what a Python value may be.
use aiops_research.Base.{ℤ, pos, Bool, true, false, Option, none, some, Text, codes}
use aiops_research.Python.Decimal.{show_int}

-- `foreign` is a value that is no member of the enumeration.
pub data RecoveryActionKind : Type 0 where
  observe_only rollout_restart scale_out foreign : RecoveryActionKind

-- A replica count as the program receives it: `bool` is a subclass of `int`, and `other` is a value
-- of any other type, with its `str`.
pub data Replicas : Type 0 where
  int : ℤ → Replicas
  bool : Bool → Replicas
  other : Text → Replicas

-- The number that a replica count is compared as, if `isinstance(replicas, int)`.
abbrev pub as_int : Replicas → Option ℤ
as_int (int z) = some z
as_int (bool true) = some (pos 1)
as_int (bool false) = some (pos 0)
as_int (other t) = none

-- The count in an f-string.
unfoldable pub show_replicas : Replicas → Text
show_replicas (int z) = show_int z
show_replicas (bool true) = codes "True"
show_replicas (bool false) = codes "False"
show_replicas (other t) = t

pub record ScaleAction : Type 0 where
  pub namespace : Text
  pub deployment : Text
  pub replicas : Replicas
  pub reason : Text

pub record RecoveryAction : Type 0 where
  pub namespace : Text
  pub deployment : Text
  pub kind : RecoveryActionKind
  pub replicas : Option Replicas
  pub reason : Text

pub record CommandResult : Type 0 where
  pub command : Text
  pub mode : Text
  pub valid : Bool
  pub stdout : Text
  pub stderr : Text
  -- Whether the metadata says that the Go guard answered.
  pub by_go_guard : Bool
