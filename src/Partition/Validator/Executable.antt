-- ===== src/Partition/Validator/Executable.antt =====
-- What the checks of the execution graph, of the latency and of the transfer find together.
use aiops_research.Base.{
  ℕ, ◌≤◌, ◌≡◌, refl, ◌↔◌, inl, inr, Bool, true, false, not, Option, none, some, List, [], map, In,
  Text, text_eq, text_eq_iff, contains_text, contains_text_iff, if◌then◌else◌, Bool-cases, arith,
  ltb,
}
use aiops_research.Floats.{Floats}
use aiops_research.Python.Dicts.{same_set, same_set_iff}
use aiops_research.Partition.{
  FederatedRoundPlan, LogicalPartition, ExecutionGraphEdge, PartitionCandidate,
  PartitionExecutionPlan,
}
use aiops_research.Partition.Cycle.Decides.{has_cycle}
use aiops_research.Partition.Validator.{
  fail_if, pair_eq, triple_eq, training, federated_learning, training_graph_modes, exceeds,
}
use aiops_research.Partition.Validator.Graph.{
  node_ids, is_between, adjacency_of, link_pairs, edge_triple, replica_edges, phase_edges,
  training_errors, is_training, expected_nodes, graph_errors,
}
use aiops_research.Partition.Validator.Errors.{
  both_nil, fail_of, unless_of, fail_if_iff, fail_unless_iff, pair_eq-IsEquality,
  triple_eq-IsEquality,
}
use aiops_research.Partition.Validator.Edges.{EdgeWalk, has_cycle-adjacency_of}
use aiops_research.Partition.Validator.Drawn.{IsDrawn, edge_errors_iff}

-- The same elements, in whatever order and however often.
abbrev pub SameSet : {A : Type 0} → List A → List A → Type 0
SameSet {A} xs ys = (x : A) → In x xs ↔ In x ys

module _ (floats : Floats) where
  open floats use {F, gtb}

  -- The edges that a training graph must have in its mode.
  abbrev pub required_edges : Text → List (LogicalPartition F) → List (Text × Text × Text)
  required_edges mode ps =
      if text_eq mode federated_learning then replica_edges floats ps else phase_edges floats ps

  pub record IsExecutable (round : FederatedRoundPlan F) (plan : PartitionExecutionPlan F)
      (selected : PartitionCandidate F) : Type 0 where
    pub nodes :
        SameSet {A = Text × Text}
          (map (λ n. (n.partition_id, n.device_id)) selected.graph_nodes)
          (map (λ (id, p). (id, p.device_id)) (expected_nodes floats plan selected))
    pub edges :
        (e : ExecutionGraphEdge F)
        → In e selected.graph_edges
        → IsDrawn floats
            (node_ids floats selected)
            (expected_nodes floats plan selected)
            (link_pairs floats round)
            (is_training floats plan)
            e
    pub mode : plan.plan_type ≡ training → In plan.approved_execution_mode training_graph_modes
    pub contract :
        plan.plan_type ≡ training
        → SameSet {A = Text × Text × Text}
            (map (edge_triple floats) selected.graph_edges)
            (required_edges plan.approved_execution_mode selected.partitions)
    pub acyclic : (u : Text) → ¬ EdgeWalk floats selected.graph_edges u u
    pub latency :
        exceeds gtb selected.estimated_total_latency_ms round.constraints.max_end_to_end_latency_ms
        ≡ false
    pub transfer :
        (limit : ℕ)
        → round.constraints.max_transfer_bytes ≡ some limit
        → selected.total_transfer_bytes ≤ limit

  training_errors_iff :
      (mode : Text) (ps : List (LogicalPartition F)) (es : List (ExecutionGraphEdge F))
      → (training_errors floats mode ps es ≡ []) ↔ (
          In mode training_graph_modes
          × SameSet {A = Text × Text × Text} (map (edge_triple floats) es) (required_edges mode ps))
  unfolding training_errors
  training_errors_iff mode ps es = elim (Bool-cases (contains_text mode training_graph_modes)) [
    | inr other ↦
        rw other (λ h. cc, λ (m, s). cc ((contains_text_iff mode training_graph_modes).1 m))
    | inl listed ↦ elim (Bool-cases (text_eq mode federated_learning)) [
      | inl fed ↦ rw (listed, fed) (same_errors listed (replica_edges floats ps) _)
      | inr phased ↦ rw (listed, phased) (same_errors listed (phase_edges floats ps) _)
    ]
  ]
    where
      same_errors :
          contains_text mode training_graph_modes ≡ true
          → (xs : List (Text × Text × Text)) (code : Text)
          → (fail_if (not (same_set triple_eq (map (edge_triple floats) es) xs)) code ≡ []) ↔ (
              In mode training_graph_modes
              × SameSet {A = Text × Text × Text} (map (edge_triple floats) es) xs)
      same_errors listed xs code =
          let test = same_set triple_eq (map (edge_triple floats) es) xs in
          let same = same_set_iff triple_eq triple_eq-IsEquality (map (edge_triple floats) es) xs in
          (
            λ h. (
              (contains_text_iff mode training_graph_modes).0 listed,
              same.0 ((fail_unless_iff test code).0 h),
            ),
            λ (m, s). (fail_unless_iff test code).1 (same.1 s),
          )

  pub transfer_iff :
      (sent : ℕ) (bound : Option ℕ)
      → (exceeds (λ a b. ltb b a) sent bound ≡ false)
        ↔ ((limit : ℕ) → bound ≡ some limit → sent ≤ limit)
  transfer_iff sent none = (λ h l e. cc, λ h. refl)
  transfer_iff sent (some limit) = (
    λ h l e. let same : limit ≡ l = ground arith in omega (arith, same, ltb_le h),
    λ h. let k = h limit refl in ground (arith, k),
  )
    where
      ltb_le : ltb limit sent ≡ false → sent ≤ limit
      ltb_le h = ground arith

  only_if :
      {P : Type 0} (b : Bool) (es : List Text)
      → (es ≡ []) ↔ P
      → ((if b then es else []) ≡ []) ↔ (b ≡ true → P)
  only_if true es p = (λ h e. p.0 h, λ h. p.1 (h refl))
  only_if false es p = (λ h e. cc, λ h. refl)

  abbrev Nodes : FederatedRoundPlan F → PartitionExecutionPlan F → PartitionCandidate F → Type 0
  Nodes round plan selected =
      SameSet {A = Text × Text} (map (λ n. (n.partition_id, n.device_id)) selected.graph_nodes)
        (map (λ (id, p). (id, p.device_id)) (expected_nodes floats plan selected))

  abbrev Edges : FederatedRoundPlan F → PartitionExecutionPlan F → PartitionCandidate F → Type 0
  Edges round plan selected =
      (e : ExecutionGraphEdge F)
      → In e selected.graph_edges
      → IsDrawn floats (node_ids floats selected) (expected_nodes floats plan selected)
          (link_pairs floats round) (is_training floats plan) e

  abbrev Contract : FederatedRoundPlan F → PartitionExecutionPlan F → PartitionCandidate F → Type 0
  Contract round plan selected =
      is_training floats plan ≡ true
      → In plan.approved_execution_mode training_graph_modes
        × SameSet (map (edge_triple floats) selected.graph_edges)
            (required_edges plan.approved_execution_mode selected.partitions)

  graph_parts :
      (round : FederatedRoundPlan F) (plan : PartitionExecutionPlan F)
      (selected : PartitionCandidate F)
      → (graph_errors floats round plan selected ≡ []) ↔ (
          Nodes round plan selected
          × (Edges round plan selected
              × (Contract round plan selected
                  × ((has_cycle (adjacency_of floats selected) ≡ false)
                      × ((exceeds gtb selected.estimated_total_latency_ms
                              round.constraints.max_end_to_end_latency_ms
                            ≡ false)
                          × ((limit : ℕ)
                              → round.constraints.max_transfer_bytes ≡ some limit
                              → selected.total_transfer_bytes ≤ limit))))))
  unfolding graph_errors
  graph_parts round plan selected =
      both_nil _ _ (unless_of _ _ (same_set_iff pair_eq pair_eq-IsEquality _ _)) (
        both_nil _ _ (edge_errors_iff floats _ _ _ _ selected.graph_edges) (
          both_nil _ _
            (only_if (is_training floats plan) _ (
              training_errors_iff plan.approved_execution_mode selected.partitions
                selected.graph_edges))
            (both_nil _ _ (fail_if_iff (has_cycle (adjacency_of floats selected)) _) (
              both_nil _ _ (fail_if_iff _ _) (
                fail_of _ _ (
                  transfer_iff selected.total_transfer_bytes
                    round.constraints.max_transfer_bytes))))))

  all_between :
      (round : FederatedRoundPlan F) (plan : PartitionExecutionPlan F)
      (selected : PartitionCandidate F)
      → Edges round plan selected
      → (e : ExecutionGraphEdge F) → In e selected.graph_edges
      → is_between floats (node_ids floats selected) e ≡ true
  all_between round plan selected h e m =
      let d = h e m in
      let ids = node_ids floats selected in
      ground (
        arith,
        (contains_text_iff e.source_partition ids).1 d.from,
        (contains_text_iff e.target_partition ids).1 d.to,
      )

  pub graph_iff :
      (round : FederatedRoundPlan F) (plan : PartitionExecutionPlan F)
      (selected : PartitionCandidate F)
      → (graph_errors floats round plan selected ≡ []) ↔ IsExecutable round plan selected
  graph_iff round plan selected = (
    λ h.
        let (nodes, (edges, (contract, (clear, (latency, transfer))))) =
          (graph_parts round plan selected).0 h in
        let loops =
          has_cycle-adjacency_of floats selected (all_between round plan selected edges) in
        record {
          nodes = nodes;
          edges = edges;
          mode = λ t. (contract (trains plan t)).0;
          contract = λ t. (contract (trains plan t)).1;
          acyclic = λ u p. cc (clear, loops.1 (u, p));
          latency = latency;
          transfer = transfer;
        },
    λ x.
        let loops =
          has_cycle-adjacency_of floats selected (all_between round plan selected x.edges) in
        (graph_parts round plan selected).1 (
          x.nodes,
          (
            x.edges,
            (
              λ t. (x.mode (trained plan t), x.contract (trained plan t)),
              (
                not_true (has_cycle (adjacency_of floats selected))
                    (λ e. let (u, p) = loops.0 e in x.acyclic u p),
                (x.latency, x.transfer),
              ),
            ),
          ),
        ),
  )
    where
      trains :
          (plan : PartitionExecutionPlan F)
          → plan.plan_type ≡ training
          → is_training floats plan ≡ true
      trains plan t = (text_eq_iff plan.plan_type training).1 t

      trained :
          (plan : PartitionExecutionPlan F)
          → is_training floats plan ≡ true
          → plan.plan_type ≡ training
      trained plan t = (text_eq_iff plan.plan_type training).0 t

      not_true : (b : Bool) → ¬ (b ≡ true) → b ≡ false
      not_true true n = absurd (n refl)
      not_true false n = refl
