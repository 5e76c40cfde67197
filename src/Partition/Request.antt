-- ===== src/Partition/Request.antt =====
-- src/aiops_k8s_agents/partition_coordination.py, partition_context.py and partition_common.py: a request for
-- a plan, as it comes and as it is normalized. The digests, SHA-256 of canonical JSON, are parameters.
use aiops_research.Base.{ℕ, Bool, Option, List, Text, codes}
use aiops_research.Json.{Fields}
use aiops_research.Partition.{
  ApprovedExecutionMode, ModelLayer, ResourceDevice, NetworkLink, PartitionConstraints,
}

pub record CoordinationPlanEnvelope : Type 0 where
  pub plan_type : Text
  pub plan_id : Text
  pub job_id : Text
  pub approved_by : Text
  pub approval_ref : Text
  pub approved_at : Text
  pub schema_version : Text

pub record TrainingCoordinationPlan (F : Type 0) : Type 0 where
  pub model_id : Text
  pub approved_model_version : Text
  pub coordination_mode : Text
  pub participants : List Text
  pub round_policy : Fields
  pub aggregation_policy : Fields
  pub synchronization_policy : Fields
  pub training_objective : Text
  pub resource_budget : Fields
  pub constraints : PartitionConstraints F

pub record InferenceCoordinationPlan (F : Type 0) : Type 0 where
  pub model_id : Text
  pub approved_model_version : Text
  pub service_objective : Text
  pub latency_slo_ms : F
  pub minimum_throughput_rps : F
  pub availability_target : F
  pub traffic_policy : Fields
  pub concurrency_policy : Fields
  pub participants : List Text
  pub resource_budget : Fields
  pub constraints : PartitionConstraints F

pub data CoordinationPlan (F : Type 0) : Type 0 where
  for_training : TrainingCoordinationPlan F → CoordinationPlan F
  for_inference : InferenceCoordinationPlan F → CoordinationPlan F

pub record ModelBlock : Type 0 where
  pub block_id : Text
  pub layer_names : List Text
  pub parameter_bytes : ℕ
  pub activation_bytes : ℕ
  pub working_memory_bytes : ℕ

pub record ModelStructureProfile : Type 0 where
  pub profile_id : Text
  pub model_id : Text
  pub model_version : Text
  pub blocks : List ModelBlock

pub record ModelRegistryContext : Type 0 where
  pub registry_id : Text
  pub registry_version : Text
  pub model_id : Text
  pub approved_model_version : Text

pub record WorkloadForecast (F : Type 0) : Type 0 where
  pub forecast_id : Text
  pub horizon_seconds : ℕ
  pub expected_request_rate : F
  pub expected_batch_size : ℕ
  pub expected_sequence_length : ℕ
  pub uncertainty : F
  pub source : Text

pub record PartitionSystemContext (F : Type 0) : Type 0 where
  pub snapshot_id : Text
  pub snapshot_version : Text
  pub collected_at : Text
  pub model_structure_profile : Option ModelStructureProfile
  pub model_registry_context : ModelRegistryContext
  pub devices : List (ResourceDevice F)
  pub network_links : List (NetworkLink F)
  pub workload_forecast : Option (WorkloadForecast F)

pub record PartitionPlanningRequest (F : Type 0) : Type 0 where
  pub envelope : CoordinationPlanEnvelope
  pub plan : CoordinationPlan F
  pub context : PartitionSystemContext F
  pub legacy_input : Bool
  pub approved_execution_mode : Option ApprovedExecutionMode
  pub legacy_layers : Option (List (ModelLayer F))

pub record NormalizedPartitionRequest (F : Type 0) : Type 0 where
  pub plan_type : Text
  pub job_id : Text
  pub model_id : Text
  pub approved_model_version : Text
  pub approved_execution_mode : ApprovedExecutionMode
  pub participants : List Text
  pub layers : List (ModelLayer F)
  pub devices : List (ResourceDevice F)
  pub network_links : List (NetworkLink F)
  pub constraints : PartitionConstraints F
  pub context_snapshot_id : Text
  pub context_snapshot_hash : Text
  pub input_signature : Text
  pub legacy_input : Bool
  pub workload_forecast : Option (WorkloadForecast F)

-- `context.deterministic_hash()`, and the digest of a request with its mode and its layers.
pub record Digests (F : Type 0) : Type 0 where
  pub of_context : PartitionSystemContext F → Text
  pub of_input : PartitionPlanningRequest F → ApprovedExecutionMode → List (ModelLayer F) → Text

abbrev pub inference : Text
inference = codes "inference"

abbrev pub model_id_of : {F : Type 0} → CoordinationPlan F → Text
model_id_of (for_training p) = p.model_id
model_id_of (for_inference p) = p.model_id

abbrev pub version_of : {F : Type 0} → CoordinationPlan F → Text
version_of (for_training p) = p.approved_model_version
version_of (for_inference p) = p.approved_model_version

abbrev pub participants_of : {F : Type 0} → CoordinationPlan F → List Text
participants_of (for_training p) = p.participants
participants_of (for_inference p) = p.participants

abbrev pub constraints_of : {F : Type 0} → CoordinationPlan F → PartitionConstraints F
constraints_of (for_training p) = p.constraints
constraints_of (for_inference p) = p.constraints
