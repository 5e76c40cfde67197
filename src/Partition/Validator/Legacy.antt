-- ===== src/Partition/Validator/Legacy.antt =====
-- src/aiops_k8s_agents/partition_validator.py, `_validate_legacy` as a whole.
use aiops_research.Base.{
  ◌==◌, Bool, not, ◌&&◌, none, some, List, [], ◌∷◌, ◌++◌, map, all, length, Text, codes, text_eq,
  Result, ok, ◌>>=◌,
}
use aiops_research.Floats.{Floats}
use aiops_research.Python.Dicts.{put_item, put_items}
use aiops_research.Partition.{
  FederatedRoundPlan, LogicalPartition, PartitionCandidate, PartitionExecutionPlan,
}
use aiops_research.Partition.Validator.{
  ValueError, PartitionValidationResult, fail_if, texts_eq, result, checked_rules, training,
  federated_learning, is_approved,
}
use aiops_research.Partition.Validator.Placement.{partition_errors}
use aiops_research.Partition.Validator.Graph.{by_id, graph_errors}

module _ (floats : Floats) where
  open floats use {F, one, sub, mul, of_int, truncated, gtb}

  abbrev pub coverage : List (LogicalPartition F) → List Text
  coverage [] = []
  coverage (p ∷ ps) = p.layer_names ++ coverage ps

  -- `full_model_replicas_valid`
  unfoldable pub is_replicated :
      FederatedRoundPlan F → PartitionExecutionPlan F → PartitionCandidate F → Bool
  unfolding texts_eq
  is_replicated round plan selected =
      text_eq plan.plan_type training
      && text_eq plan.approved_execution_mode federated_learning
      && length selected.partitions == length round.participants
      && all (λ p. texts_eq p.layer_names (map (λ l. l.name) round.layers)) selected.partitions

  abbrev pub layer_names_of : FederatedRoundPlan F → List Text
  layer_names_of round = map (λ l. l.name) round.layers

  unfoldable pub identity_errors : FederatedRoundPlan F → PartitionExecutionPlan F → List Text
  identity_errors round plan =
      fail_if (not (text_eq plan.job_id round.job_id)) (codes "job_id_mismatch")
      ++ (fail_if (not (text_eq plan.model_id round.model_id)) (codes "model_id_mismatch")
          ++ (fail_if (not (text_eq plan.approved_execution_mode round.execution_mode.name))
                (codes "approved_execution_mode_mismatch")
              ++ fail_if (not (is_approved round.execution_mode))
                  (codes "approved_mode_provenance_missing")))

  -- From the first look at the candidate to the loop over its partitions.
  unfoldable pub candidate_errors :
      FederatedRoundPlan F → PartitionExecutionPlan F → PartitionCandidate F → List Text
  unfolding is_replicated texts_eq put_items put_item
  candidate_errors round plan selected =
      fail_if (not (plan.valid && selected.valid)) (codes "selected_plan_not_valid")
      ++ (fail_if
            (not (is_replicated round plan selected)
              && not (texts_eq (coverage selected.partitions) (layer_names_of round)))
            (codes "layer_coverage_mismatch")
          ++ fail_if
              (not (
                length (put_items [] (map (by_id floats) selected.partitions))
                == length selected.partitions))
              (codes "duplicate_partition_id"))

  unfoldable pub legacy_errors :
      FederatedRoundPlan F → PartitionExecutionPlan F → Result ValueError (List Text)
  unfolding identity_errors candidate_errors partition_errors graph_errors
  legacy_errors round plan = elim plan.selected_candidate [
    | none ↦ ok (identity_errors round plan ++ codes "selected_candidate_required" ∷ [])
    | some selected ↦ do
      placed ← partition_errors floats round selected.partitions
      ok (
          identity_errors round plan
          ++ (candidate_errors round plan selected
              ++ (placed ++ graph_errors floats round plan selected)))
  ]

  -- `_validate_legacy`
  unfoldable pub validate_legacy :
      FederatedRoundPlan F → PartitionExecutionPlan F → Result ValueError PartitionValidationResult
  unfolding legacy_errors result
  validate_legacy round plan = do
    errors ← legacy_errors round plan
    ok (result errors checked_rules)
