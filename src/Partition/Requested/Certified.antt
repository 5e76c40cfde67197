-- ===== src/Partition/Requested/Certified.antt =====
-- What a plan promises that `_validate_v2` accepts.
use aiops_research.Base.{◌≡◌, Text, ok}
use aiops_research.Floats.{Floats}
use aiops_research.Partition.{PartitionExecutionPlan}
use aiops_research.Partition.Validator.Sound.{IsSound}
use aiops_research.Partition.Request.{
  for_inference, InferenceCoordinationPlan, PartitionPlanningRequest, NormalizedPartitionRequest,
  Digests, inference,
}
use aiops_research.Partition.Common.{process}
use aiops_research.Partition.Requested.{Strategy, Registry, round_plan_of}
use aiops_research.First.{IsFirst}
use aiops_research.Partition.Signature.{SignaturePayload, IsSigned}
use aiops_research.Partition.Requested.Serves.{Serves}

module _ (floats : Floats) where
  open floats use {F, gtb, one}

  -- A plan for a request: the request passes the common checks, the plan is sound for the round
  -- that it asks for and made from its snapshot by the first strategy that the registry has for its plan type
  -- and mode, and it is signed.
  pub record IsCertified (digests : Digests F) (registry : Registry)
      (digest : SignaturePayload F → Text) (request : PartitionPlanningRequest F)
      (plan : PartitionExecutionPlan F) : Type 0 where
    pub normalized : NormalizedPartitionRequest F
    pub processed : process floats digests request ≡ ok normalized
    pub sound : IsSound floats (round_plan_of floats normalized) plan
    pub plan_type : plan.plan_type ≡ normalized.plan_type
    pub version : plan.approved_model_version ≡ normalized.approved_model_version
    pub snapshot_id : plan.input_snapshot_id ≡ normalized.context_snapshot_id
    pub snapshot_hash : plan.input_snapshot_hash ≡ normalized.context_snapshot_hash
    pub strategy : Strategy
    pub registered :
        IsFirst {A = Text × Text × Strategy}
          (λ e. (e.0 ≡ normalized.plan_type) × (e.1 ≡ normalized.approved_execution_mode.name))
          (normalized.plan_type, normalized.approved_execution_mode.name, strategy)
          registry
    pub strategy_id : plan.strategy_id ≡ strategy.strategy_id
    pub strategy_version : plan.strategy_version ≡ strategy.strategy_version
    pub signed : IsSigned digest normalized.input_signature plan plan.deterministic_signature
    pub serves :
        normalized.plan_type ≡ inference
        → (p : InferenceCoordinationPlan F) × (request.plan ≡ for_inference p)
          × Serves floats p (round_plan_of floats normalized) sound.selected
