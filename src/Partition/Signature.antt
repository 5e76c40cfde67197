-- ===== src/Partition/Signature.antt =====
-- src/aiops_k8s_agents/partition_validator.py, `PartitionPlanValidator._deterministic_signature`, with
-- `CandidateSelection.signature_provenance` of src/aiops_k8s_agents/partition_ranking_models.py. The SHA-256 digest
-- of the payload's canonical JSON is a parameter.
use aiops_research.Base.{◌≡◌, refl, Option, none, some, Text, codes}
use aiops_research.Partition.{
  SelectionMode, CandidateSelection, PartitionCandidate, PartitionExecutionPlan,
}

pub record SelectionProvenance : Type 0 where
  pub mode : SelectionMode
  pub active_ranker_id : Text
  pub active_ranker_version : Text
  pub model_artifact_hash : Option Text
  pub final_selected_candidate_key : Option Text

pub record SignaturePayload (F : Type 0) : Type 0 where
  pub input_signature : Text
  pub strategy_id : Text
  pub strategy_version : Text
  pub policy_version : Text
  pub signature_version : Text
  pub selection : Option SelectionProvenance
  pub selected_candidate : Option (PartitionCandidate F)

-- `signature_provenance`, or `None`.
unfoldable pub signature_provenance : Option CandidateSelection → Option SelectionProvenance
signature_provenance none = none
signature_provenance (some s) = some (record {
  mode = s.mode;
  active_ranker_id = s.active_ranker_id;
  active_ranker_version = s.active_ranker_version;
  model_artifact_hash = s.model_artifact_hash;
  final_selected_candidate_key = s.final_selected_candidate_key;
})

module _ {F : Type 0} where
  unfoldable pub payload_of : Text → PartitionExecutionPlan F → SignaturePayload F
  unfolding signature_provenance
  payload_of input_signature plan = record {
    input_signature = input_signature;
    strategy_id = plan.strategy_id;
    strategy_version = plan.strategy_version;
    policy_version = plan.policy_version;
    signature_version = codes "partition-selection-v2";
    selection = signature_provenance plan.selection;
    selected_candidate = plan.selected_candidate;
  }

  -- `_deterministic_signature`
  abbrev pub signature_of : (SignaturePayload F → Text) → Text → PartitionExecutionPlan F → Text
  signature_of digest input_signature plan = digest (payload_of input_signature plan)

  -- A text signs the input and the plan: it is the digest of a payload that names the input, the strategy, the
  -- policy, the selected candidate and, if there was a ranking, what the ranking rests on.
  pub record IsSigned (digest : SignaturePayload F → Text) (input_signature : Text)
      (plan : PartitionExecutionPlan F) (signature : Text) : Type 0 where
    pub payload : SignaturePayload F
    pub digested : signature ≡ digest payload
    pub input : payload.input_signature ≡ input_signature
    pub strategy_id : payload.strategy_id ≡ plan.strategy_id
    pub strategy_version : payload.strategy_version ≡ plan.strategy_version
    pub policy_version : payload.policy_version ≡ plan.policy_version
    pub signature_version : payload.signature_version ≡ codes "partition-selection-v2"
    pub candidate : payload.selected_candidate ≡ plan.selected_candidate
    pub unranked : plan.selection ≡ none → payload.selection ≡ none
    pub ranked :
        (s : CandidateSelection)
        → plan.selection ≡ some s
        → (q : SelectionProvenance) × (payload.selection ≡ some q)
          × (q.mode ≡ s.mode)
          × (q.active_ranker_id ≡ s.active_ranker_id)
          × (q.active_ranker_version ≡ s.active_ranker_version)
          × (q.model_artifact_hash ≡ s.model_artifact_hash)
          × (q.final_selected_candidate_key ≡ s.final_selected_candidate_key)

  pub signature_of-IsSigned :
      (digest : SignaturePayload F → Text) (input_signature : Text)
      (plan : PartitionExecutionPlan F)
      → IsSigned digest input_signature plan (signature_of digest input_signature plan)
  unfolding payload_of
  signature_of-IsSigned digest input_signature plan = record {
    payload = payload_of input_signature plan;
    digested = refl;
    input = refl;
    strategy_id = refl;
    strategy_version = refl;
    policy_version = refl;
    signature_version = refl;
    candidate = refl;
    unranked = λ e. rw e refl;
    ranked = λ s e. rw e (_, refl, refl, refl, refl, refl, refl);
  }
