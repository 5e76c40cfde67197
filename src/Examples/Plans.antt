-- ===== src/Examples/Plans.antt =====
-- Plans of model partitions for two devices (src/aiops_k8s_agents/partition_validator.py).
use aiops_research.Base.{
  ℕ, ◌≡◌, ◌≢◌, refl, ◌↔◌, true, none, some, List, [], ◌∷◌, Text, codes, text_eq, contains_text, ok,
  err,
}
use aiops_research.Examples.Votes.{hundredths}
use aiops_research.Partition.{
  ApprovedExecutionMode, ModelLayer, ResourceDevice, NetworkLink, FederatedRoundPlan,
  LogicalPartition, ExecutionGraphEdge, PartitionCandidate, PartitionExecutionPlan,
}
use aiops_research.Partition.Cycle.{Adjacency, IsCyclic, search_cycle}
use aiops_research.Partition.Cycle.Decides.{has_cycle, has_cycle_iff}
use aiops_research.Partition.Validator.{empty_max, result, checked_rules}
use aiops_research.Partition.Validator.Legacy.{validate_legacy}
use aiops_research.Partition.Validator.Raises.{Raises}
use aiops_research.Partition.Validator.Sound.{IsSound}
use aiops_research.Partition.Validator.Accepted.{
  Accepts, validate_legacy_iff, validate_legacy-Raises,
}

abbrev pub layer : Text → ℕ → ModelLayer ℕ
layer name size = record {
  name = name;
  compute_units = 100;
  parameter_bytes = size;
  activation_bytes = 10;
  working_memory_bytes = 20;
}

abbrev pub device : Text → ResourceDevice ℕ
device id = record {
  device_id = id;
  device_type = codes "edge";
  compute_units_per_second = 100;
  memory_capacity_bytes = 1000;
  memory_available_bytes = 800;
}

abbrev pub link : NetworkLink ℕ
link = record {
  source_device = codes "a";
  target_device = codes "b";
  bandwidth_bytes_per_second = 100;
  latency_ms = 100;
}

abbrev pub pipeline : ApprovedExecutionMode
pipeline = record {
  name = codes "pipeline_inference";
  approved = true;
  approved_by = codes "ops";
  approval_ref = codes "r1";
}

abbrev pub round : FederatedRoundPlan ℕ
round = record {
  job_id = codes "job";
  model_id = codes "model";
  execution_mode = pipeline;
  layers = layer (codes "l1") 300 ∷ layer (codes "l2") 200 ∷ [];
  participants = codes "a" ∷ codes "b" ∷ [];
  devices = device (codes "a") ∷ device (codes "b") ∷ [];
  network_links = link ∷ [];
  constraints = record {
    max_end_to_end_latency_ms = some 5000;
    max_transfer_bytes = some 64;
    minimum_memory_headroom_ratio = 20;
  };
}

abbrev partition : Text → Text → List Text → ℕ → LogicalPartition ℕ
partition id device_id names demand = record {
  partition_id = id;
  device_id = device_id;
  layer_names = names;
  compute_units = 100;
  memory_demand_bytes = demand;
}

abbrev forward : Text → Text → ExecutionGraphEdge ℕ
forward source target = record {
  source_partition = source;
  target_partition = target;
  transfer_bytes = 10;
  estimated_transfer_ms = 100;
  edge_type = codes "forward";
}

abbrev candidate : List (LogicalPartition ℕ) → List (ExecutionGraphEdge ℕ) → PartitionCandidate ℕ
candidate partitions edges = record {
  split_points = 1 ∷ [];
  partitions = partitions;
  graph_nodes =
      record { partition_id = codes "p0"; device_id = codes "a" }
      ∷ record { partition_id = codes "p1"; device_id = codes "b" }
      ∷ [];
  graph_edges = edges;
  estimated_compute_ms = 100;
  estimated_transfer_ms = 100;
  estimated_total_latency_ms = 4000;
  total_transfer_bytes = 10;
  maximum_memory_pressure = 50;
  valid = true;
  rejection_reasons = [];
  score = 100;
  estimated_step_time_ms = 0;
  gradient_transfer_bytes = 0;
  maximum_load_imbalance = 0;
  predicted_resilience_risk = 0;
}

abbrev plan_of : PartitionCandidate ℕ → PartitionExecutionPlan ℕ
plan_of selected = record {
  plan_id = codes "plan";
  job_id = codes "job";
  model_id = codes "model";
  approved_execution_mode = codes "pipeline_inference";
  policy_version = codes "1";
  selected_candidate = some selected;
  alternative_candidates = [];
  valid = true;
  plan_type = codes "inference";
  approved_model_version = codes "v1";
  strategy_id = codes "s";
  strategy_version = codes "1";
  input_snapshot_id = codes "snap";
  input_snapshot_hash = codes "hash";
  deterministic_signature = codes "sig";
  selection = none;
}

abbrev pub halves : List (LogicalPartition ℕ)
halves =
    partition (codes "p0") (codes "a") (codes "l1" ∷ []) 330
    ∷ partition (codes "p1") (codes "b") (codes "l2" ∷ []) 230
    ∷ []

abbrev pub good : PartitionExecutionPlan ℕ
good = plan_of (candidate halves (forward (codes "p0") (codes "p1") ∷ []))

-- There and back: a cycle, and no link for the way back.
abbrev looping : PartitionExecutionPlan ℕ
looping =
    plan_of (
      candidate halves (forward (codes "p0") (codes "p1") ∷ forward (codes "p1") (codes "p0") ∷ []))

-- The second partition is empty.
abbrev hollow : PartitionExecutionPlan ℕ
hollow = plan_of (
    candidate
      (partition (codes "p0") (codes "a") (codes "l1" ∷ codes "l2" ∷ []) 550
        ∷ partition (codes "p1") (codes "b") [] 0
        ∷ [])
      (forward (codes "p0") (codes "p1") ∷ []))

good_passes : validate_legacy hundredths round good ≡ ok (result [] checked_rules)
unfolding validate_legacy text_eq
good_passes = refl

looping_fails :
    validate_legacy hundredths round looping
    ≡ ok (
        result
          (codes "missing_network_link:b->a" ∷ codes "execution_graph_cycle" ∷ [])
          checked_rules)
unfolding validate_legacy text_eq
looping_fails = refl

hollow_raises : validate_legacy hundredths round hollow ≡ err empty_max
unfolding validate_legacy text_eq
hollow_raises = refl

validate_legacy_iff_example : Accepts hundredths round good ↔ IsSound hundredths round good
validate_legacy_iff_example = validate_legacy_iff hundredths round good

good-IsSound : IsSound hundredths round good
unfolding validate_legacy result
good-IsSound = validate_legacy_iff_example.0 (result [] checked_rules, good_passes, refl)

validate_legacy-Raises_example : (validate_legacy hundredths round hollow ≡ err empty_max) ↔ (
    (selected : PartitionCandidate ℕ) × (hollow.selected_candidate ≡ some selected)
    × Raises hundredths round selected.partitions)
validate_legacy-Raises_example = validate_legacy-Raises hundredths round hollow

-- 1 → 2 → 1, and a third node.
abbrev triangle : Adjacency
triangle = (codes "1", codes "2" ∷ []) ∷ (codes "2", codes "1" ∷ []) ∷ (codes "3", []) ∷ []

has_cycle_iff_example :
    (search_cycle triangle ≢ none) × ((has_cycle triangle ≡ true) ↔ IsCyclic triangle)
has_cycle_iff_example = has_cycle_iff triangle

triangle_found : has_cycle triangle ≡ true
unfolding has_cycle text_eq contains_text
triangle_found = refl
