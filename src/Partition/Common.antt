-- ===== src/Partition/Common.antt =====
-- src/aiops_k8s_agents/partition_common.py: `PartitionCommonProcessor.process`. An error is its code.
pub mod Feasible
use aiops_research.Base.{
  ℕ, ◌+◌, ◌/◌, Bool, true, false, not, ◌&&◌, ◌||◌, Option, none, some, List, [], ◌∷◌, ◌++◌, map,
  any, length, Text, codes, text_eq, contains_text, Result, ok, err, ◌>>=◌, ◌>>◌, raise_if, ltb,
  if◌then◌else◌,
}
use aiops_research.Floats.{Floats}
use aiops_research.Json.{Fields}
use aiops_research.Python.Strip.{strip}
use aiops_research.Python.Dicts.{contains}
use aiops_research.Partition.{
  ApprovedExecutionMode, ModelLayer, ResourceDevice, NetworkLink, PartitionConstraints,
  FederatedRoundPlan,
}
use aiops_research.Partition.Validator.{
  is_empty, is_approved, pair_eq, training, federated_learning, neighbours, tail,
}
use aiops_research.Partition.Request.{
  for_training, for_inference, ModelBlock, ModelStructureProfile, ModelRegistryContext,
  PartitionPlanningRequest, NormalizedPartitionRequest, CoordinationPlan, Digests, inference,
  model_id_of, version_of, participants_of, constraints_of,
}

-- `_approved_mode`
unfoldable pub approved_mode : Option ApprovedExecutionMode → Result Text ApprovedExecutionMode
unfolding strip
approved_mode none = err (codes "approved_mode_required")
approved_mode (some mode) =
    if is_empty (strip mode.name) || not (is_approved mode)
    then err (codes "approved_mode_required")
    else ok mode

module _ (floats : Floats) where
  open floats use {F, one}

  abbrev pub layers_of_block : ModelBlock → List Text → List (ModelLayer F)
  layers_of_block block [] = []
  layers_of_block block (n ∷ ns) =
      record {
        name = n;
        compute_units = one;
        parameter_bytes = block.parameter_bytes / length block.layer_names;
        activation_bytes = block.activation_bytes;
        working_memory_bytes = block.working_memory_bytes / length block.layer_names;
      }
      ∷ layers_of_block block ns

  -- `_layers_from_profile`
  unfoldable pub layers_from : List ModelBlock → List (ModelLayer F)
  layers_from [] = []
  layers_from (block ∷ blocks) = layers_of_block block block.layer_names ++ layers_from blocks

  -- `request.legacy_layers or self._layers_from_profile(request)`
  abbrev pub layers_of : Option (List (ModelLayer F)) → ModelStructureProfile → List (ModelLayer F)
  layers_of none profile = layers_from profile.blocks
  layers_of (some []) profile = layers_from profile.blocks
  layers_of (some (l ∷ ls)) profile = l ∷ ls

  -- The links that the participants of a round need: to the first of them in federated learning,
  -- else from each to the next.
  unfoldable pub required_pairs : Bool → List Text → List (Text × Text)
  required_pairs is_federated [] = []
  required_pairs is_federated (p ∷ ps) =
      if is_federated then map (λ q. (q, p)) ps else neighbours (p ∷ ps)

  abbrev pub is_short : Bool → List Text → List (ModelLayer F) → Bool
  is_short is_federated participants layers =
      ltb (length participants) 2
      || is_empty layers
      || (not is_federated && ltb (length layers) (length participants))

  -- `_validate_feasibility`
  unfoldable pub validate_feasibility :
      Bool
      → List Text
      → List (ModelLayer F)
      → List (ResourceDevice F)
      → List (NetworkLink F)
      → Result Text (Unit {0})
  unfolding required_pairs contains contains_text
  validate_feasibility is_federated participants layers devices network_links = do
    raise_if (is_short is_federated participants layers) (codes "early_feasibility_failed")
    raise_if (any (λ p. not (contains_text p (map (λ d. d.device_id) devices))) participants)
        (codes "early_feasibility_failed")
    raise_if
        (any
          (λ pair.
            not
              (contains pair_eq pair (map (λ k. (k.source_device, k.target_device)) network_links)))
          (required_pairs is_federated participants))
        (codes "early_feasibility_failed")

  -- The model that the plan names is the one of the registry and of the profile, in its version.
  abbrev pub is_same_model :
      CoordinationPlan F → ModelRegistryContext → ModelStructureProfile → Bool
  is_same_model plan registry profile =
      text_eq (model_id_of plan) registry.model_id
      && text_eq (version_of plan) registry.approved_model_version
      && text_eq profile.model_id (model_id_of plan)
      && text_eq profile.model_version (version_of plan)

  abbrev pub has_versions : CoordinationPlan F → ModelRegistryContext → ModelStructureProfile → Bool
  has_versions plan registry profile =
      not (is_empty (strip (version_of plan)))
      && not (is_empty (strip registry.approved_model_version))
      && not (is_empty (strip profile.model_version))

  abbrev pub profile_of : Option ModelStructureProfile → Result Text ModelStructureProfile
  profile_of none = err (codes "model_profile_missing")
  profile_of (some profile) = ok profile

  -- `process`
  unfoldable pub process :
      Digests F → PartitionPlanningRequest F → Result Text (NormalizedPartitionRequest F)
  unfolding approved_mode layers_from validate_feasibility strip
  process digests request = do
    raise_if (not (contains_text request.envelope.plan_type (training ∷ inference ∷ [])))
        (codes "unsupported_plan_type")
    raise_if (is_empty request.envelope.approved_by || is_empty request.envelope.approval_ref)
        (codes "approval_provenance_required")
    profile ← profile_of request.context.model_structure_profile
    mode ← approved_mode request.approved_execution_mode
    raise_if (not (has_versions request.plan request.context.model_registry_context profile))
        (codes "model_version_mismatch")
    raise_if (not (is_same_model request.plan request.context.model_registry_context profile))
        (codes "model_version_mismatch")
    let layers = layers_of request.legacy_layers profile
    validate_feasibility (text_eq mode.name federated_learning) (participants_of request.plan)
        layers request.context.devices request.context.network_links
    ok (record {
      plan_type = request.envelope.plan_type;
      job_id = request.envelope.job_id;
      model_id = model_id_of request.plan;
      approved_model_version = version_of request.plan;
      approved_execution_mode = mode;
      participants = participants_of request.plan;
      layers = layers;
      devices = request.context.devices;
      network_links = request.context.network_links;
      constraints = constraints_of request.plan;
      context_snapshot_id = request.context.snapshot_id;
      context_snapshot_hash = digests.of_context request.context;
      input_signature = digests.of_input request mode layers;
      legacy_input = request.legacy_input;
      workload_forecast = request.context.workload_forecast;
    })
