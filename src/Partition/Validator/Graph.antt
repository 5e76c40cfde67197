-- ===== src/Partition/Validator/Graph.antt =====
-- src/aiops_k8s_agents/partition_validator.py, `_validate_legacy`: the checks of the execution graph,
-- with `_graph_node_partitions`, `_has_required_network_link` and `_validate_training_graph_contract`.
use aiops_research.Base.{
  ltb, Bool, true, false, not, ◌&&◌, ◌||◌, Option, none, some, List, [], ◌∷◌, ◌++◌, map, Text,
  codes, text_eq, contains_text, if◌then◌else◌,
}
use aiops_research.Floats.{Floats}
use aiops_research.Python.Dicts.{put_item, put_items, get_item, contains, same_set}
use aiops_research.Partition.{
  FederatedRoundPlan, LogicalPartition, ExecutionGraphEdge, PartitionCandidate,
  PartitionExecutionPlan,
}
use aiops_research.Partition.Cycle.{Adjacency}
use aiops_research.Partition.Cycle.Decides.{has_cycle}
use aiops_research.Partition.Validator.{
  fail_if, pair_eq, triple_eq, training, federated_learning, training_graph_modes, neighbours, tail,
  last, exceeds,
}

module _ (floats : Floats) where
  open floats use {F, one, sub, mul, of_int, truncated, gtb}

  abbrev pub by_id : LogicalPartition F → Text × LogicalPartition F
  by_id p = (p.partition_id, p)

  abbrev pub phase_nodes : List (LogicalPartition F) → List (Text × LogicalPartition F)
  phase_nodes [] = []
  phase_nodes (p ∷ ps) =
      (p.partition_id ++ codes ":forward", p)
      ∷ (p.partition_id ++ codes ":backward", p)
      ∷ phase_nodes ps

  -- `_graph_node_partitions`
  unfoldable pub graph_node_partitions :
      List (LogicalPartition F) → Bool → Text → List (Text × LogicalPartition F)
  unfolding put_items put_item
  graph_node_partitions ps false mode = put_items [] (map by_id ps)
  graph_node_partitions [] true mode = []
  graph_node_partitions (p ∷ ps) true mode =
      if text_eq mode federated_learning
      then put_item (codes "aggregation") p (put_items [] (map by_id (p ∷ ps)))
      else put_item (codes "aggregation") p (put_items [] (phase_nodes (p ∷ ps)))

  abbrev pub link_pairs : FederatedRoundPlan F → List (Text × Text)
  link_pairs round = map (λ k. (k.source_device, k.target_device)) round.network_links

  -- `_has_required_network_link`
  unfoldable pub has_required_network_link : Text → Text → Text → List (Text × Text) → Bool → Bool
  unfolding contains
  has_required_network_link source target edge_type links is_training =
      text_eq source target
      || contains pair_eq (source, target) links
      || (is_training
          && text_eq edge_type (codes "backward")
          && contains pair_eq (target, source) links)

  abbrev pub node_ids : PartitionCandidate F → List Text
  node_ids selected = map (λ n. n.partition_id) selected.graph_nodes

  abbrev pub is_between : List Text → ExecutionGraphEdge F → Bool
  is_between ids e = contains_text e.source_partition ids && contains_text e.target_partition ids

  -- `adjacency[source].add(target)`
  unfoldable pub add_target : Text → Text → Adjacency → Adjacency
  add_target u v [] = []
  add_target u v ((n, ts) ∷ g) = if text_eq n u then (n, v ∷ ts) ∷ g else (n, ts) ∷ add_target u v g

  unfoldable pub connect : List Text → List (ExecutionGraphEdge F) → Adjacency → Adjacency
  unfolding add_target
  connect ids [] g = g
  connect ids (e ∷ es) g =
      connect ids es
        (if is_between ids e then add_target e.source_partition e.target_partition g else g)

  unfoldable pub adjacency_of : PartitionCandidate F → Adjacency
  unfolding connect
  adjacency_of selected =
      connect (node_ids selected) selected.graph_edges (map (λ n. (n, [])) (node_ids selected))

  abbrev pub linked_error :
      Option (LogicalPartition F)
      → Option (LogicalPartition F)
      → Text
      → List (Text × Text)
      → Bool
      → List Text
  linked_error (some s) (some t) edge_type links is_training =
      fail_if (not (has_required_network_link s.device_id t.device_id edge_type links is_training))
        (codes "missing_network_link:" ++ (s.device_id ++ (codes "->" ++ t.device_id)))
  linked_error (some s) none edge_type links is_training = codes "graph_edge_unknown_partition" ∷ []
  linked_error none t edge_type links is_training = codes "graph_edge_unknown_partition" ∷ []

  -- One round of the loop over the edges.
  unfoldable pub edge_error :
      List Text
      → List (Text × LogicalPartition F)
      → List (Text × Text)
      → Bool
      → ExecutionGraphEdge F
      → List Text
  unfolding get_item has_required_network_link
  edge_error ids nodes links is_training e =
      if is_between ids e
      then linked_error (get_item e.source_partition nodes) (get_item e.target_partition nodes)
          e.edge_type links is_training
      else codes "graph_edge_unknown_node" ∷ []

  unfoldable pub edge_errors :
      List Text
      → List (Text × LogicalPartition F)
      → List (Text × Text)
      → Bool
      → List (ExecutionGraphEdge F)
      → List Text
  unfolding edge_error
  edge_errors ids nodes links is_training [] = []
  edge_errors ids nodes links is_training (e ∷ es) =
      edge_error ids nodes links is_training e ++ edge_errors ids nodes links is_training es

  abbrev pub edge_triple : ExecutionGraphEdge F → Text × Text × Text
  edge_triple e = (e.source_partition, e.target_partition, e.edge_type)

  abbrev pub forward_of : LogicalPartition F → Text
  forward_of p = p.partition_id ++ codes ":forward"

  abbrev pub backward_of : LogicalPartition F → Text
  backward_of p = p.partition_id ++ codes ":backward"

  -- The edges that a training graph of a mode other than federated learning must have.
  unfoldable pub phase_edges : List (LogicalPartition F) → List (Text × Text × Text)
  phase_edges [] = []
  phase_edges (p ∷ ps) =
      map (λ (s, t). (forward_of s, forward_of t, codes "forward")) (neighbours (p ∷ ps))
      ++ (map (λ (s, t). (backward_of t, backward_of s, codes "backward")) (neighbours (p ∷ ps))
          ++ ((forward_of (last p ps), backward_of (last p ps), codes "gradient")
              ∷ (backward_of p, codes "aggregation", codes "aggregation")
              ∷ []))

  abbrev pub replica_edges : List (LogicalPartition F) → List (Text × Text × Text)
  replica_edges ps = map (λ p. (p.partition_id, codes "aggregation", codes "aggregation")) (tail ps)

  -- `_validate_training_graph_contract`
  unfoldable pub training_errors :
      Text → List (LogicalPartition F) → List (ExecutionGraphEdge F) → List Text
  unfolding same_set phase_edges
  training_errors mode ps es =
      if not (contains_text mode training_graph_modes)
      then codes "training_graph_mode_not_supported" ∷ []
      else if text_eq mode federated_learning
      then fail_if (not (same_set triple_eq (map edge_triple es) (replica_edges ps)))
          (codes "federated_aggregation_graph_contract_mismatch")
      else fail_if (not (same_set triple_eq (map edge_triple es) (phase_edges ps)))
          (codes "training_graph_phase_contract_mismatch")

  abbrev pub is_training : PartitionExecutionPlan F → Bool
  is_training plan = text_eq plan.plan_type training

  abbrev pub expected_nodes :
      PartitionExecutionPlan F → PartitionCandidate F → List (Text × LogicalPartition F)
  expected_nodes plan selected =
      graph_node_partitions selected.partitions (is_training plan) plan.approved_execution_mode

  -- From the comparison of the nodes to the end of `_validate_legacy`.
  unfoldable pub graph_errors :
      FederatedRoundPlan F → PartitionExecutionPlan F → PartitionCandidate F → List Text
  unfolding same_set graph_node_partitions edge_errors training_errors adjacency_of has_cycle
  graph_errors round plan selected =
      fail_if
        (not (
          same_set pair_eq (map (λ n. (n.partition_id, n.device_id)) selected.graph_nodes)
            (map (λ (id, p). (id, p.device_id)) (expected_nodes plan selected))))
        (codes "graph_node_partition_mismatch")
      ++ (edge_errors (node_ids selected) (expected_nodes plan selected) (link_pairs round)
            (is_training plan) selected.graph_edges
          ++ ((if is_training plan
                then training_errors plan.approved_execution_mode selected.partitions
                    selected.graph_edges
                else [])
              ++ (fail_if (has_cycle (adjacency_of selected)) (codes "execution_graph_cycle")
                  ++ (fail_if
                        (exceeds gtb selected.estimated_total_latency_ms
                          round.constraints.max_end_to_end_latency_ms)
                        (codes "latency_slo_exceeded")
                      ++ fail_if
                          (exceeds (λ a b. ltb b a) selected.total_transfer_bytes
                            round.constraints.max_transfer_bytes)
                          (codes "max_transfer_bytes_exceeded")))))
