-- ===== src/Partition.antt =====
-- src/aiops_k8s_agents/partition_models.py: the plans and candidates that the planning of model
-- partitions passes around. Its validator is in the modules below.
pub mod Cycle
pub mod Validator
pub mod Request
pub mod Common
pub mod Requested
pub mod Signature
pub mod Candidate
use aiops_research.Base.{ℕ, ℤ, Bool, Option, List, Text}

pub record ApprovedExecutionMode : Type 0 where
  pub name : Text
  pub approved : Bool
  pub approved_by : Text
  pub approval_ref : Text

-- Sizes in bytes are not negative, as `_int` checks.
pub record ModelLayer (F : Type 0) : Type 0 where
  pub name : Text
  pub compute_units : F
  pub parameter_bytes : ℕ
  pub activation_bytes : ℕ
  pub working_memory_bytes : ℕ

pub record ResourceDevice (F : Type 0) : Type 0 where
  pub device_id : Text
  pub device_type : Text
  pub compute_units_per_second : F
  pub memory_capacity_bytes : ℕ
  pub memory_available_bytes : ℕ

pub record NetworkLink (F : Type 0) : Type 0 where
  pub source_device : Text
  pub target_device : Text
  pub bandwidth_bytes_per_second : F
  pub latency_ms : F

pub record PartitionConstraints (F : Type 0) : Type 0 where
  pub max_end_to_end_latency_ms : Option F
  pub max_transfer_bytes : Option ℕ
  pub minimum_memory_headroom_ratio : F

pub record FederatedRoundPlan (F : Type 0) : Type 0 where
  pub job_id : Text
  pub model_id : Text
  pub execution_mode : ApprovedExecutionMode
  pub layers : List (ModelLayer F)
  pub participants : List Text
  pub devices : List (ResourceDevice F)
  pub network_links : List (NetworkLink F)
  pub constraints : PartitionConstraints F

pub record LogicalPartition (F : Type 0) : Type 0 where
  pub partition_id : Text
  pub device_id : Text
  pub layer_names : List Text
  pub compute_units : F
  pub memory_demand_bytes : ℕ

pub record ExecutionGraphNode : Type 0 where
  pub partition_id : Text
  pub device_id : Text

pub record ExecutionGraphEdge (F : Type 0) : Type 0 where
  pub source_partition : Text
  pub target_partition : Text
  pub transfer_bytes : ℕ
  pub estimated_transfer_ms : F
  pub edge_type : Text

pub record PartitionCandidate (F : Type 0) : Type 0 where
  pub split_points : List ℕ
  pub partitions : List (LogicalPartition F)
  pub graph_nodes : List ExecutionGraphNode
  pub graph_edges : List (ExecutionGraphEdge F)
  pub estimated_compute_ms : F
  pub estimated_transfer_ms : F
  pub estimated_total_latency_ms : F
  pub total_transfer_bytes : ℕ
  pub maximum_memory_pressure : F
  pub valid : Bool
  pub rejection_reasons : List Text
  pub score : F
  pub estimated_step_time_ms : F
  pub gradient_transfer_bytes : ℕ
  pub maximum_load_imbalance : F
  pub predicted_resilience_risk : F

pub data SelectionMode : Type 0 where
  deterministic shadow learned_guarded : SelectionMode

-- The ranking of src/aiops_k8s_agents/partition_ranking_models.py; its entries and its confidence are left out.
pub record CandidateSelection : Type 0 where
  pub mode : SelectionMode
  pub active_ranker_id : Text
  pub active_ranker_version : Text
  pub baseline_selected_candidate_key : Option Text
  pub learned_selected_candidate_key : Option Text
  pub final_selected_candidate_key : Option Text
  pub model_version : Option Text
  pub model_artifact_hash : Option Text
  pub feature_schema_version : Text
  pub fallback_used : Bool
  pub fallback_reason : Option Text
  pub rationale : List Text

-- The parent, the assumptions, the warnings, the confidence and the handoff status are left
-- out: the validator does not read them.
pub record PartitionExecutionPlan (F : Type 0) : Type 0 where
  pub plan_id : Text
  pub job_id : Text
  pub model_id : Text
  pub approved_execution_mode : Text
  pub policy_version : Text
  pub selected_candidate : Option (PartitionCandidate F)
  pub alternative_candidates : List (PartitionCandidate F)
  pub valid : Bool
  pub plan_type : Text
  pub approved_model_version : Text
  pub strategy_id : Text
  pub strategy_version : Text
  pub input_snapshot_id : Text
  pub input_snapshot_hash : Text
  pub deterministic_signature : Text
  pub selection : Option CandidateSelection
