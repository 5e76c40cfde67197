-- ===== src/Examples/Requests.antt =====
-- A request for a plan and the plan for it (src/aiops_k8s_agents/partition_validator.py).
use aiops_research.Base.{
  ℕ, ◌≡◌, refl, false, none, some, [], ◌∷◌, In, Text, codes, text_eq, contains_text, ok, pos,
}
use aiops_research.Json.{number, field, end}
use aiops_research.Examples.Votes.{hundredths}
use aiops_research.Examples.Plans.{round, pipeline}
use aiops_research.Partition.Signature.{SignaturePayload}
use aiops_research.Partition.Validator.{training, federated_learning}
use aiops_research.Partition.Request.{
  for_inference, inference, PartitionPlanningRequest, NormalizedPartitionRequest, Digests,
}
use aiops_research.Partition.Common.{process}
use aiops_research.Partition.Common.Feasible.{IsFeasible, process-IsFeasible}
use aiops_research.Partition.Requested.{Registry}

abbrev digests : Digests ℕ
digests = record { of_context = λ c. codes "hash"; of_input = λ r m ls. codes "input" }

abbrev registry : Registry
registry =
    (
      codes "inference",
      codes "pipeline_inference",
      record { strategy_id = codes "s"; strategy_version = codes "1" },
    )
    ∷ []

abbrev digest : SignaturePayload ℕ → Text
digest payload = codes "sig"

abbrev request : PartitionPlanningRequest ℕ
request = record {
  envelope = record {
    plan_type = codes "inference";
    plan_id = codes "coordination";
    job_id = codes "job";
    approved_by = codes "ops";
    approval_ref = codes "r1";
    approved_at = codes "now";
    schema_version = codes "1";
  };
  plan = for_inference (record {
    model_id = codes "model";
    approved_model_version = codes "v1";
    service_objective = codes "chat";
    latency_slo_ms = 5000;
    minimum_throughput_rps = 100;
    availability_target = 90;
    traffic_policy = end;
    concurrency_policy = field (codes "max_requests") (number (pos 4)) end;
    participants = round.participants;
    resource_budget = end;
    constraints = round.constraints;
  });
  context = record {
    snapshot_id = codes "snap";
    snapshot_version = codes "1";
    collected_at = codes "now";
    model_structure_profile = some (record {
      profile_id = codes "profile";
      model_id = codes "model";
      model_version = codes "v1";
      blocks = [];
    });
    model_registry_context = record {
      registry_id = codes "registry";
      registry_version = codes "1";
      model_id = codes "model";
      approved_model_version = codes "v1";
    };
    devices = round.devices;
    network_links = round.network_links;
    workload_forecast = none;
  };
  legacy_input = false;
  approved_execution_mode = some pipeline;
  legacy_layers = some round.layers;
}

abbrev normalized : NormalizedPartitionRequest ℕ
normalized = record {
  plan_type = codes "inference";
  job_id = codes "job";
  model_id = codes "model";
  approved_model_version = codes "v1";
  approved_execution_mode = pipeline;
  participants = round.participants;
  layers = round.layers;
  devices = round.devices;
  network_links = round.network_links;
  constraints = round.constraints;
  context_snapshot_id = codes "snap";
  context_snapshot_hash = codes "hash";
  input_signature = codes "input";
  legacy_input = false;
  workload_forecast = none;
}

request_normalizes : process hundredths digests request ≡ ok normalized
unfolding process text_eq contains_text
request_normalizes = refl

process-IsFeasible_example :
    IsFeasible hundredths
      (text_eq pipeline.name federated_learning)
      normalized.participants
      normalized.layers
      normalized.devices
      normalized.network_links
    × In normalized.plan_type (training ∷ inference ∷ [])
    × (normalized.context_snapshot_hash ≡ digests.of_context request.context)
process-IsFeasible_example =
    process-IsFeasible hundredths digests request normalized request_normalizes
