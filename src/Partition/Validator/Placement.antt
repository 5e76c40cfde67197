-- ===== src/Partition/Validator/Placement.antt =====
-- src/aiops_k8s_agents/partition_validator.py, `_validate_legacy`: the loop over the partitions of a candidate.
use aiops_research.Base.{
  ℕ, ◌+◌, ℤ, pos, ltb_ℤ, ◌==◌, not, Option, none, some, List, [], ◌∷◌, ◌++◌, Text, codes,
  contains_text, Result, ok, err, ◌>>=◌, if◌then◌else◌,
}
use aiops_research.Floats.{Floats}
use aiops_research.Python.Dicts.{last_by}
use aiops_research.Partition.{ModelLayer, ResourceDevice, FederatedRoundPlan, LogicalPartition}
use aiops_research.Partition.Validator.{ValueError, empty_max, is_empty, fail_if, total, highest}

module _ (floats : Floats) where
  open floats use {F, one, sub, mul, of_int, truncated, gtb}

  -- The part of the layers whose names are known, `layers[name]` for each; none if one is not.
  unfoldable pub assigned : List Text → List (ModelLayer F) → Option (List (ModelLayer F))
  unfolding last_by
  assigned [] layers = some []
  assigned (n ∷ ns) layers = elim (last_by (λ l. l.name) n layers) [
    | none ↦ none
    | some l ↦ elim (assigned ns layers) [ none ↦ none | some ls ↦ some (l ∷ ls) ]
  ]

  -- `expected_memory`, for a first layer and the others.
  unfoldable pub memory_of : ModelLayer F → List (ModelLayer F) → ℕ
  memory_of l ls =
      total (λ l. l.parameter_bytes) (l ∷ ls)
      + total (λ l. l.working_memory_bytes) (l ∷ ls)
      + highest (λ l. l.activation_bytes) l.activation_bytes ls

  -- `int(available * (1.0 - headroom))`
  abbrev pub allowed_memory : ℕ → F → ℤ
  allowed_memory available headroom = truncated (mul (of_int (pos available)) (sub one headroom))

  unfoldable pub memory_errors :
      FederatedRoundPlan F
      → LogicalPartition F
      → ResourceDevice F
      → List (ModelLayer F)
      → Result ValueError (List Text)
  unfolding memory_of
  memory_errors round p d [] = err empty_max
  memory_errors round p d (l ∷ ls) = ok (
      fail_if (not (p.memory_demand_bytes == memory_of l ls))
        (codes "memory_demand_mismatch:" ++ p.partition_id)
      ++ fail_if
          (ltb_ℤ
            (allowed_memory d.memory_available_bytes
              round.constraints.minimum_memory_headroom_ratio)
            (pos (memory_of l ls)))
          (codes "memory_capacity_exceeded:" ++ p.device_id))

  unfoldable pub device_of : FederatedRoundPlan F → LogicalPartition F → Option (ResourceDevice F)
  unfolding last_by contains_text
  device_of round p =
      if contains_text p.device_id round.participants
      then last_by (λ d. d.device_id) p.device_id round.devices
      else none

  -- One round of the loop over the partitions, past the test for an empty one.
  unfoldable pub placement_errors :
      FederatedRoundPlan F → LogicalPartition F → Result ValueError (List Text)
  unfolding device_of assigned memory_errors
  placement_errors round p = elim (device_of round p) [
    | none ↦ ok ((codes "unknown_partition_device:" ++ p.device_id) ∷ [])
    | some d ↦ elim (assigned p.layer_names round.layers) [
      | none ↦ ok ((codes "unknown_partition_layer:" ++ p.partition_id) ∷ [])
      | some ls ↦ memory_errors round p d ls
    ]
  ]

  unfoldable pub partition_errors :
      FederatedRoundPlan F → List (LogicalPartition F) → Result ValueError (List Text)
  unfolding placement_errors
  partition_errors round [] = ok []
  partition_errors round (p ∷ ps) = do
    here ← placement_errors round p
    others ← partition_errors round ps
    ok (
        fail_if (is_empty p.layer_names) (codes "empty_partition:" ++ p.partition_id)
        ++ (here ++ others))
