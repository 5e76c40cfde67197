-- ===== src/Partition/Requested.antt =====
-- src/aiops_k8s_agents/partition_validator.py: `_validate_v2` with its checks of an inference plan, and
-- `PartitionStrategyRegistry.resolve` of src/aiops_k8s_agents/partition_strategies.py.
pub mod Serves
pub mod Certified
use aiops_research.Base.{
  ℕ, zero, suc, ◌+◌, ℤ, pos, negsuc, Bool, true, false, not, ◌&&◌, ◌||◌, Option, none, some, List,
  [], ◌∷◌, ◌++◌, map, all, any, length, Text, codes, text_eq, contains_text, Result, ok, err, ◌>>=◌,
  ◌>>◌, raise_if, ltb, if◌then◌else◌,
}
use aiops_research.Floats.{Floats}
use aiops_research.Json.{Json, number, Fields, get_field}
use aiops_research.Python.Dicts.{contains, same_set}
use aiops_research.Partition.{
  ApprovedExecutionMode, FederatedRoundPlan, LogicalPartition, ExecutionGraphEdge,
  PartitionCandidate, PartitionExecutionPlan,
}
use aiops_research.Partition.Signature.{SignaturePayload, payload_of, signature_of}
use aiops_research.Partition.Validator.{
  ValueError, PartitionValidationResult, fail_if, is_empty, is_approved, pair_eq, result,
  checked_rules, neighbours, exceeds,
}
use aiops_research.Partition.Validator.Graph.{link_pairs}
use aiops_research.Partition.Validator.Legacy.{validate_legacy}
use aiops_research.Partition.Request.{
  CoordinationPlan, for_training, for_inference, InferenceCoordinationPlan,
  PartitionPlanningRequest, NormalizedPartitionRequest, Digests, inference,
}
use aiops_research.Partition.Common.{process}

-- What the validation can raise: the `max` of no layers, or an attribute that a training plan does
-- not have.
pub data Raised : Type 0 where
  value_error : ValueError → Raised
  attribute_error : Raised

pub record Strategy : Type 0 where
  pub strategy_id : Text
  pub strategy_version : Text

abbrev pub Registry : Type 0
Registry = List (Text × Text × Strategy)

-- `PartitionStrategyRegistry.resolve`
unfoldable pub resolve : Registry → Text → Text → Result Text Strategy
resolve [] plan_type mode = err (codes "strategy_not_supported")
resolve ((t, m, s) ∷ entries) plan_type mode =
    let rest = resolve entries plan_type mode in
    if text_eq t plan_type && text_eq m mode then ok s else rest

abbrev pub v2_checked_rules : List Text
v2_checked_rules =
    checked_rules
    ++ (codes "coordination_approval_provenance"
        ∷ codes "v2_plan_identity"
        ∷ codes "strategy_identity"
        ∷ codes "input_snapshot"
        ∷ codes "deterministic_signature"
        ∷ codes "strategy_graph_contract"
        ∷ [])

abbrev pub forward_edge_types : List Text
forward_edge_types = codes "forward" ∷ codes "pipeline" ∷ codes "cache_transfer" ∷ []

-- The integer that a positive JSON number is; none for what is no number or is not positive.
abbrev pub positive : Option Json → Option ℕ
positive (some (number (pos (suc n)))) = some (suc n)
positive _ = none

module _ (floats : Floats) where
  open floats use {F, one, of_int, mul, div, gtb, geb, is_finite}

  abbrev pub round_plan_of : NormalizedPartitionRequest F → FederatedRoundPlan F
  round_plan_of normalized = record {
    job_id = normalized.job_id;
    model_id = normalized.model_id;
    execution_mode = normalized.approved_execution_mode;
    layers = normalized.layers;
    participants = normalized.participants;
    devices = normalized.devices;
    network_links = normalized.network_links;
    constraints = normalized.constraints;
  }

  abbrev pub is_forward : ExecutionGraphEdge F → Bool
  is_forward e = contains_text e.edge_type forward_edge_types

  -- `_has_inference_forward_chain`
  unfoldable pub has_forward_chain : PartitionCandidate F → Bool
  unfolding contains_text
  has_forward_chain selected =
      all
        (λ (s, t).
          any
            (λ e.
              text_eq e.source_partition s.partition_id
              && text_eq e.target_partition t.partition_id
              && is_forward e)
            selected.graph_edges)
        (neighbours selected.partitions)

  -- `predicted_inference_throughput_capacity`, past the look-ups.
  unfoldable pub capacity_of : ℕ → F → Option F
  capacity_of max_requests latency_ms =
      if not (is_finite latency_ms) || geb floats.zero latency_ms
      then none
      else some (div (mul (of_int (pos max_requests)) (of_int (pos 1000))) latency_ms)

  abbrev pub concurrency_of : CoordinationPlan F → Option ℕ
  concurrency_of (for_training p) = none
  concurrency_of (for_inference p) =
      positive (get_field (codes "max_requests") p.concurrency_policy)

  unfoldable pub predicted_capacity : CoordinationPlan F → Option (PartitionCandidate F) → Option F
  unfolding capacity_of get_field
  predicted_capacity plan none = none
  predicted_capacity plan (some selected) = elim (concurrency_of plan) [
    | none ↦ none
    | some n ↦ capacity_of n selected.estimated_total_latency_ms
  ]

  abbrev pub is_available : FederatedRoundPlan F → LogicalPartition F → Bool
  is_available round p =
      contains_text p.device_id (map (λ d. d.device_id) round.devices)
      && contains_text p.device_id round.participants

  -- Whether the snapshot has all that the candidate runs on.
  unfoldable pub is_feasible : FederatedRoundPlan F → PartitionCandidate F → Bool
  unfolding has_forward_chain same_set contains contains_text
  is_feasible round selected =
      all (is_available round) selected.partitions
      && same_set pair_eq (map (λ n. (n.partition_id, n.device_id)) selected.graph_nodes)
          (map (λ p. (p.partition_id, p.device_id)) selected.partitions)
      && has_forward_chain selected
      && all
          (λ (s, t).
            text_eq s.device_id t.device_id
            || contains pair_eq (s.device_id, t.device_id) (link_pairs floats round))
          (neighbours selected.partitions)

  -- `predicted_snapshot_availability_feasibility`
  abbrev pub predicted_availability :
      FederatedRoundPlan F → Option (PartitionCandidate F) → Option F
  predicted_availability round none = none
  predicted_availability round (some selected) =
      some (if is_feasible round selected then one else floats.zero)

  -- `_validate_inference_graph_contract`
  unfoldable pub inference_graph_errors : Option (PartitionCandidate F) → List Text
  unfolding has_forward_chain contains_text
  inference_graph_errors none = []
  inference_graph_errors (some selected) =
      fail_if (any (λ e. not (is_forward e)) selected.graph_edges)
        (codes "inference_graph_forward_contract_mismatch")
      ++ fail_if (not (has_forward_chain selected)) (codes "inference_graph_forward_path_missing")

  -- `value is None`, or `value < minimum`.
  abbrev pub at_least : F → Text → Text → Option F → List Text
  at_least minimum missing low none = missing ∷ []
  at_least minimum missing low (some value) = fail_if (gtb minimum value) low

  abbrev pub latency_errors : F → Option (PartitionCandidate F) → List Text
  latency_errors slo none = []
  latency_errors slo (some selected) =
      fail_if (gtb selected.estimated_total_latency_ms slo) (codes "latency_slo_exceeded")

  -- `_validate_inference_slas`. A training plan has no throughput to verify, and the look-up of its
  -- availability target raises where there is an availability to compare.
  unfoldable pub sla_errors :
      CoordinationPlan F
      → FederatedRoundPlan F
      → Option (PartitionCandidate F)
      → Result Raised (List Text)
  unfolding predicted_capacity is_feasible
  sla_errors (for_inference p) round selected = ok (
      latency_errors p.latency_slo_ms selected
      ++ (at_least p.minimum_throughput_rps (codes "predicted_throughput_unverifiable")
            (codes "predicted_throughput_capacity_exceeded")
            (predicted_capacity (for_inference p) selected)
          ++ at_least p.availability_target (codes "snapshot_availability_unverifiable")
              (codes "snapshot_availability_target_not_met")
              (predicted_availability round selected)))
  sla_errors (for_training p) round none =
      ok (
        codes "predicted_throughput_unverifiable" ∷ codes "snapshot_availability_unverifiable" ∷ [])
  sla_errors (for_training p) round (some selected) = err attribute_error

  abbrev pub provenance_errors : PartitionPlanningRequest F → PartitionExecutionPlan F → List Text
  provenance_errors request plan =
      fail_if (is_empty request.envelope.approved_by || is_empty request.envelope.approval_ref)
        (codes "approval_provenance_missing")
      ++ elim request.approved_execution_mode [
        | none ↦ codes "approved_mode_provenance_missing" ∷ []
        | some mode ↦
            if not (is_approved mode)
            then codes "approved_mode_provenance_missing" ∷ []
            else fail_if (not (text_eq plan.approved_execution_mode mode.name))
                (codes "approved_execution_mode_mismatch")
      ]

  abbrev pub snapshot_errors : NormalizedPartitionRequest F → PartitionExecutionPlan F → List Text
  snapshot_errors normalized plan =
      fail_if (not (text_eq plan.plan_type normalized.plan_type))
        (codes "strategy_plan_type_mismatch")
      ++ (fail_if (not (text_eq plan.approved_model_version normalized.approved_model_version))
            (codes "approved_model_version_mismatch")
          ++ (fail_if (not (text_eq plan.input_snapshot_id normalized.context_snapshot_id))
                (codes "input_snapshot_id_mismatch")
              ++ fail_if (not (text_eq plan.input_snapshot_hash normalized.context_snapshot_hash))
                  (codes "input_snapshot_hash_mismatch")))

  abbrev pub strategy_errors : PartitionExecutionPlan F → Result Text Strategy → List Text
  strategy_errors plan (err code) = code ∷ []
  strategy_errors plan (ok strategy) =
      fail_if (not (text_eq plan.strategy_id strategy.strategy_id)) (codes "strategy_id_mismatch")
      ++ fail_if (not (text_eq plan.strategy_version strategy.strategy_version))
          (codes "strategy_version_mismatch")

  abbrev pub inference_errors :
      PartitionPlanningRequest F
      → NormalizedPartitionRequest F
      → PartitionExecutionPlan F
      → Result Raised (List Text)
  inference_errors request normalized plan =
      if not (text_eq normalized.plan_type inference) then ok [] else (do
        broken ← sla_errors request.plan (round_plan_of normalized) plan.selected_candidate
        ok (inference_graph_errors plan.selected_candidate ++ broken))

  abbrev pub legacy_part : Result ValueError PartitionValidationResult → Result Raised (List Text)
  legacy_part (ok r) = ok r.errors
  legacy_part (err e) = err (value_error e)

  module _ (digests : Digests F) (registry : Registry) (digest : SignaturePayload F → Text) where
    abbrev pub signature_errors :
        NormalizedPartitionRequest F → PartitionExecutionPlan F → List Text
    signature_errors normalized plan =
        fail_if
          (is_empty plan.deterministic_signature
            || not (
                text_eq plan.deterministic_signature
                  (signature_of digest normalized.input_signature plan)))
          (codes "deterministic_signature_mismatch")

    -- `_validate_v2` once the request is normalized.
    unfoldable pub v2_errors :
        PartitionPlanningRequest F
        → NormalizedPartitionRequest F
        → PartitionExecutionPlan F
        → Result Raised (List Text)
    unfolding validate_legacy resolve sla_errors inference_graph_errors payload_of
    v2_errors request normalized plan = do
      legacy ← legacy_part (validate_legacy floats (round_plan_of normalized) plan)
      inferred ← inference_errors request normalized plan
      ok (
          legacy
          ++ (provenance_errors request plan
              ++ (snapshot_errors normalized plan
                  ++ (strategy_errors plan (
                        resolve registry normalized.plan_type
                          normalized.approved_execution_mode.name)
                      ++ (inferred ++ signature_errors normalized plan)))))

    -- `_validate_v2`
    unfoldable pub validate_v2 :
        PartitionPlanningRequest F
        → PartitionExecutionPlan F
        → Result Raised PartitionValidationResult
    unfolding v2_errors process result
    validate_v2 request plan = elim (process floats digests request) [
      | err code ↦ ok (result (code ∷ []) v2_checked_rules)
      | ok normalized ↦ do
        errors ← v2_errors request normalized plan
        ok (result errors v2_checked_rules)
    ]
