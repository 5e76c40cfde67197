-- ===== src/Partition/Validator.antt =====
-- src/aiops_k8s_agents/partition_validator.py: the result of a validation, and what its checks share.
pub mod Placement
pub mod Graph
pub mod Legacy
pub mod Errors
pub mod Placed
pub mod Raises
pub mod Edges
pub mod Drawn
pub mod Executable
pub mod Sound
pub mod Accepted
use aiops_research.Base.{
  ℕ, ◌+◌, ◌≡◌, ℤ, pos, ltb_ℤ, ltb, leb, ◌==◌, Bool, true, false, not, ◌&&◌, ◌||◌, Option, none,
  some, List, [], ◌∷◌, ◌++◌, map, all, any, length, Text, codes, text_eq, contains_text, Result, ok,
  err, ◌>>=◌, if◌then◌else◌,
}
use aiops_research.Floats.{Floats}
use aiops_research.Python.Dicts.{last_by, put_item, put_items, get_item, contains, same_set}
use aiops_research.Partition.{
  ApprovedExecutionMode, ModelLayer, ResourceDevice, NetworkLink, FederatedRoundPlan,
  LogicalPartition, ExecutionGraphNode, ExecutionGraphEdge, PartitionCandidate,
  PartitionExecutionPlan,
}
use aiops_research.Partition.Cycle.{Adjacency}
use aiops_research.Partition.Cycle.Decides.{has_cycle}

-- `max(())` raises a `ValueError`.
pub data ValueError : Type 0 where
  empty_max : ValueError

pub record PartitionValidationResult : Type 0 where
  pub valid : Bool
  pub errors : List Text
  pub checked_rules : List Text

abbrev pub is_empty {ℓ} : {A : Type ℓ} → List A → Bool
is_empty [] = true
is_empty (x ∷ xs) = false

-- `if test: errors.append(code)`
abbrev pub fail_if : Bool → Text → List Text
fail_if test code = if test then code ∷ [] else []

unfoldable pub texts_eq : List Text → List Text → Bool
texts_eq [] [] = true
texts_eq [] (t ∷ ts) = false
texts_eq (s ∷ ss) [] = false
texts_eq (s ∷ ss) (t ∷ ts) = text_eq s t && texts_eq ss ts

abbrev pub pair_eq : Text × Text → Text × Text → Bool
pair_eq (a, b) (c, d) = text_eq a c && text_eq b d

abbrev pub triple_eq : Text × Text × Text → Text × Text × Text → Bool
triple_eq (a, b, c) (d, e, f) = text_eq a d && text_eq b e && text_eq c f

-- `dict.fromkeys(errors)`
unfoldable pub unique_from : List Text → List Text → List Text
unique_from seen [] = []
unique_from seen (e ∷ es) =
    let fresh = unique_from (e ∷ seen) es in
    let rest = unique_from seen es in if contains_text e seen then rest else e ∷ fresh

unfoldable pub result : List Text → List Text → PartitionValidationResult
unfolding unique_from
result errors checked_rules = record {
  valid = is_empty (unique_from [] errors);
  errors = unique_from [] errors;
  checked_rules = checked_rules;
}

abbrev pub checked_rules : List Text
checked_rules =
    codes "plan_identity"
    ∷ codes "approved_mode_provenance"
    ∷ codes "layer_coverage"
    ∷ codes "partition_devices"
    ∷ codes "memory_capacity"
    ∷ codes "execution_graph_nodes"
    ∷ codes "execution_graph_dag"
    ∷ codes "network_links"
    ∷ codes "job_constraints"
    ∷ []

abbrev pub training : Text
training = codes "training"

abbrev pub federated_learning : Text
federated_learning = codes "federated_learning"

abbrev pub training_graph_modes : List Text
training_graph_modes =
    federated_learning
    ∷ codes "pipeline_parallel"
    ∷ codes "split_learning"
    ∷ codes "hybrid_partition"
    ∷ []

-- `mode.approved and mode.approved_by and mode.approval_ref`
abbrev pub is_approved : ApprovedExecutionMode → Bool
is_approved mode =
    mode.approved && not (is_empty mode.approved_by) && not (is_empty mode.approval_ref)

module _ {A : Type 0} where
  -- `zip(xs, xs[1:])`
  abbrev pub neighbours : List A → List (A × A)
  neighbours [] = []
  neighbours (x ∷ []) = []
  neighbours (x ∷ y ∷ xs) = (x, y) ∷ neighbours (y ∷ xs)

  abbrev pub tail : List A → List A
  tail [] = []
  tail (x ∷ xs) = xs

  abbrev pub last : A → List A → A
  last x [] = x
  last x (y ∷ ys) = last y ys

  -- `sum(size(x) for x in xs)`
  abbrev pub total : (A → ℕ) → List A → ℕ
  total size [] = 0
  total size (x ∷ xs) = size x + total size xs

  -- `max(size(x) for x in xs)`, at least `m`
  abbrev pub highest : (A → ℕ) → ℕ → List A → ℕ
  highest size m [] = m
  highest size m (x ∷ xs) = highest size (if ltb m (size x) then size x else m) xs

-- `limit is not None and value > limit`
abbrev pub exceeds : {A : Type 0} → (A → A → Bool) → A → Option A → Bool
exceeds gt value none = false
exceeds gt value (some limit) = gt value limit
