-- ===== src/Partition/Candidate.antt =====
-- src/aiops_k8s_agents/model_partition_agent.py: `_build_candidate` for an inference plan, which takes no
-- intent of a training strategy, and `_score`.
pub mod Slices
pub mod Fits
pub mod Built
use aiops_research.Base.{
  ℕ, zero, suc, ◌+◌, ◌-◌, ℤ, pos, ltb_ℤ, ltb, Bool, true, false, ◌&&◌, Option, none, some, List, [],
  ◌∷◌, ◌++◌, map, length, Text, codes, text_eq, contains_text, Result, ok, err, ◌>>=◌,
  if◌then◌else◌,
}
use aiops_research.Floats.{Floats}
use aiops_research.Python.Decimal.{show_nat}
use aiops_research.Python.Dicts.{last_by, get_item, contains}
use aiops_research.Partition.{
  ModelLayer, ResourceDevice, NetworkLink, FederatedRoundPlan, LogicalPartition, ExecutionGraphNode,
  ExecutionGraphEdge, PartitionCandidate,
}
use aiops_research.Partition.Validator.{is_empty, fail_if, pair_eq, exceeds, highest}
use aiops_research.Partition.Validator.Placement.{memory_of, allowed_memory}

-- What the building of a candidate can raise: a missing key, the `max` of no layers, or a position
-- outside of a list.
pub data BuildError : Type 0 where
  key_error value_error index_error : BuildError

module _ {A : Type 0} where
  abbrev pub take : ℕ → List A → List A
  take zero xs = []
  take (suc n) [] = []
  take (suc n) (x ∷ xs) = x ∷ take n xs

  abbrev pub drop : ℕ → List A → List A
  drop zero xs = xs
  drop (suc n) [] = []
  drop (suc n) (x ∷ xs) = drop n xs

  -- `xs[start:end]`
  abbrev pub slice : ℕ → ℕ → List A → List A
  slice start end xs = take (end - start) (drop start xs)

  abbrev pub get_elem? : List A → ℕ → Option A
  get_elem? [] i = none
  get_elem? (x ∷ xs) zero = some x
  get_elem? (x ∷ xs) (suc i) = get_elem? xs i

module _ (floats : Floats) where
  open floats use {F, one, add, mul, div, of_int, gtb}

  -- The part of the policy that an inference plan is scored by, and `round(value, 6)`.
  pub record Scoring : Type 0 where
    pub latency_weight : F
    pub memory_pressure_weight : F
    pub communication_weight : F
    pub latency_reference_ms : F
    pub transfer_reference_bytes : ℕ
    pub rounded : F → F

  -- `min(value, 1.0)`
  abbrev pub at_most_one : F → F
  at_most_one value = if gtb value one then one else value

  abbrev pub ratio : ℕ → ℕ → F
  ratio a b = div (of_int (pos a)) (of_int (pos b))

  -- `_score`
  unfoldable pub score_of : Scoring → F → F → ℕ → F
  score_of policy total_latency_ms maximum_memory_pressure total_transfer_bytes = policy.rounded (
      add
        (add
          (mul policy.latency_weight
            (at_most_one (div total_latency_ms policy.latency_reference_ms)))
          (mul policy.memory_pressure_weight (at_most_one maximum_memory_pressure)))
        (mul policy.communication_weight
          (at_most_one (ratio total_transfer_bytes policy.transfer_reference_bytes))))

  -- What one participant's round of the loop adds.
  pub record Placed : Type 0 where
    pub partition : LogicalPartition F
    pub compute_ms : F
    pub pressure : F
    pub reasons : List Text

  abbrev pub units_of : F → List (ModelLayer F) → F
  units_of acc [] = acc
  units_of acc (l ∷ ls) = units_of (add acc l.compute_units) ls

  -- `memory_limits.get(device_id)` exceeded
  abbrev pub is_over : Option ℕ → ℕ → Bool
  is_over none demand = false
  is_over (some limit) demand = ltb limit demand

  unfoldable pub place_layers :
      FederatedRoundPlan F
      → List (Text × ℕ)
      → ℕ
      → ResourceDevice F
      → Text
      → List (ModelLayer F)
      → Result BuildError Placed
  unfolding memory_of get_item show_nat
  place_layers round memory_limits index device device_id [] = err BuildError.value_error
  place_layers round memory_limits index device device_id (l ∷ ls) =
      let demand = memory_of floats l ls in
      let units = units_of (of_int (pos 0)) (l ∷ ls) in
      ok (record {
        partition = record {
          partition_id = codes "partition-" ++ show_nat (index + 1);
          device_id = device_id;
          layer_names = map (λ l. l.name) (l ∷ ls);
          compute_units = units;
          memory_demand_bytes = demand;
        };
        compute_ms = mul (div units device.compute_units_per_second) (of_int (pos 1000));
        pressure =
            ratio demand
              (if ltb device.memory_available_bytes 1 then 1 else device.memory_available_bytes);
        reasons =
            fail_if
              (ltb_ℤ
                (allowed_memory floats device.memory_available_bytes
                  round.constraints.minimum_memory_headroom_ratio)
                (pos demand))
              (codes "memory_capacity_exceeded:" ++ device_id)
            ++ fail_if (is_over (get_item device_id memory_limits) demand)
                (codes "memory_replan_not_improved:" ++ device_id);
      })

  abbrev pub known_device : Option (ResourceDevice F) → Result BuildError (ResourceDevice F)
  known_device none = err key_error
  known_device (some d) = ok d

  -- The loop over the participants, from a position of the boundaries on.
  unfoldable pub place_all :
      FederatedRoundPlan F
      → List (Text × ℕ)
      → ℕ
      → ℕ
      → List ℕ
      → List Text
      → Result BuildError (List Placed)
  unfolding last_by place_layers
  place_all round memory_limits index start ends [] = ok []
  place_all round memory_limits index start [] (p ∷ ps) = err index_error
  place_all round memory_limits index start (end ∷ ends) (p ∷ ps) = do
    device ← known_device (last_by (λ d. d.device_id) p round.devices)
    placed ← place_layers round memory_limits index device p (slice start end round.layers)
    others ← place_all round memory_limits (index + 1) end ends ps
    ok (placed ∷ others)

  -- `links.get((source, target))`
  unfoldable pub link_between : Text → Text → List (NetworkLink F) → Option (NetworkLink F)
  link_between source target [] = none
  link_between source target (k ∷ ks) = elim (link_between source target ks) [
    | some link ↦ some link
    | none ↦ if pair_eq (k.source_device, k.target_device) (source, target) then some k else none
  ]

  -- What one pair of neighbours adds: an edge or a reason to reject the candidate.
  pub data Joined : Type 0 where
    edge : ExecutionGraphEdge F → F → Joined
    rejected : Text → Joined

  unfoldable pub join :
      Scoring
      → FederatedRoundPlan F
      → List (Text × Text)
      → LogicalPartition F
      → LogicalPartition F
      → ℕ
      → Result BuildError Joined
  unfolding link_between contains
  join policy round excluded_links s t split =
      if contains pair_eq (s.device_id, t.device_id) excluded_links
      then ok
          (rejected (codes "failed_network_link:" ++ (s.device_id ++ (codes "->" ++ t.device_id))))
      else elim (link_between s.device_id t.device_id round.network_links) [
        | none ↦ ok (
            rejected
              (codes "missing_network_link:" ++ (s.device_id ++ (codes "->" ++ t.device_id))))
        | some link ↦ elim (get_elem? round.layers (split - 1)) [
          | none ↦ err index_error
          | some layer ↦
              let edge_ms = add link.latency_ms (
                mul (div (of_int (pos layer.activation_bytes)) link.bandwidth_bytes_per_second)
                  (of_int (pos 1000))) in
              ok (
                edge
                  (record {
                    source_partition = s.partition_id;
                    target_partition = t.partition_id;
                    transfer_bytes = layer.activation_bytes;
                    estimated_transfer_ms = policy.rounded edge_ms;
                    edge_type = codes "forward";
                  })
                  edge_ms)
        ]
      ]

  -- The loop over the neighbours, with the split point of each. Split points are at least 1, so that
  -- the layer before one is in the list: `combinations` takes them from `range(1, len(layers))`.
  unfoldable pub join_all :
      Scoring
      → FederatedRoundPlan F
      → List (Text × Text)
      → LogicalPartition F
      → List (LogicalPartition F)
      → List ℕ
      → Result BuildError (List Joined)
  unfolding join
  join_all policy round excluded_links s [] splits = ok []
  join_all policy round excluded_links s (t ∷ ts) [] = err index_error
  join_all policy round excluded_links s (t ∷ ts) (split ∷ splits) = do
    joined ← join policy round excluded_links s t split
    others ← join_all policy round excluded_links t ts splits
    ok (joined ∷ others)

  abbrev pub compute_of : F → List Placed → F
  compute_of acc [] = acc
  compute_of acc (p ∷ ps) = compute_of (add acc p.compute_ms) ps

  abbrev pub reasons_of : List Placed → List Text
  reasons_of [] = []
  reasons_of (p ∷ ps) = p.reasons ++ reasons_of ps

  abbrev pub max_of : F → List Placed → F
  max_of m [] = m
  max_of m (p ∷ ps) = max_of (if gtb p.pressure m then p.pressure else m) ps

  -- `max(memory_pressures, default=0.0)`
  abbrev pub pressure_of : List Placed → F
  pressure_of [] = of_int (pos 0)
  pressure_of (p ∷ ps) = max_of p.pressure ps

  abbrev pub edges_of : List Joined → List (ExecutionGraphEdge F)
  edges_of [] = []
  edges_of (edge e ms ∷ js) = e ∷ edges_of js
  edges_of (rejected reason ∷ js) = edges_of js

  abbrev pub rejections_of : List Joined → List Text
  rejections_of [] = []
  rejections_of (edge e ms ∷ js) = rejections_of js
  rejections_of (rejected reason ∷ js) = reason ∷ rejections_of js

  abbrev pub transfer_ms_of : F → List Joined → F
  transfer_ms_of acc [] = acc
  transfer_ms_of acc (edge e ms ∷ js) = transfer_ms_of (add acc ms) js
  transfer_ms_of acc (rejected reason ∷ js) = transfer_ms_of acc js

  abbrev pub bytes_of : List (ExecutionGraphEdge F) → ℕ
  bytes_of [] = 0
  bytes_of (e ∷ es) = e.transfer_bytes + bytes_of es

  abbrev pub join_neighbours :
      Scoring
      → FederatedRoundPlan F
      → List (Text × Text)
      → List (LogicalPartition F)
      → List ℕ
      → Result BuildError (List Joined)
  join_neighbours policy round excluded_links [] splits = ok []
  join_neighbours policy round excluded_links (p ∷ ps) splits =
      join_all policy round excluded_links p ps splits

  -- All that follows the two loops.
  unfoldable pub candidate_of :
      Scoring → FederatedRoundPlan F → List ℕ → List Placed → List Joined → PartitionCandidate F
  unfolding score_of
  candidate_of policy round split_points placed joined =
      let zero = of_int (pos 0) in
      let partitions = map (λ p. p.partition) placed in
      let compute_ms = compute_of zero placed in
      let transfer_ms = transfer_ms_of zero joined in
      let total = add compute_ms transfer_ms in
      let bytes = bytes_of (edges_of joined) in
      let pressure = pressure_of placed in
      let reasons =
        reasons_of placed
        ++ (rejections_of joined
            ++ (fail_if (exceeds (λ a b. ltb b a) bytes round.constraints.max_transfer_bytes)
                  (codes "max_transfer_bytes_exceeded")
                ++ fail_if (exceeds gtb total round.constraints.max_end_to_end_latency_ms)
                    (codes "latency_slo_exceeded"))) in
      record {
        split_points = split_points;
        partitions = partitions;
        graph_nodes =
            map (λ p. record { partition_id = p.partition_id; device_id = p.device_id }) partitions;
        graph_edges = edges_of joined;
        estimated_compute_ms = policy.rounded compute_ms;
        estimated_transfer_ms = policy.rounded transfer_ms;
        estimated_total_latency_ms = policy.rounded total;
        total_transfer_bytes = bytes;
        maximum_memory_pressure = policy.rounded pressure;
        valid = is_empty reasons;
        rejection_reasons = reasons;
        score = score_of policy total pressure bytes;
        estimated_step_time_ms = policy.rounded zero;
        gradient_transfer_bytes = 0;
        maximum_load_imbalance = policy.rounded zero;
        predicted_resilience_risk = policy.rounded zero;
      }

  -- `_build_candidate`, for the split points of an inference plan.
  unfoldable pub build_candidate :
      Scoring
      → FederatedRoundPlan F
      → List Text
      → List ℕ
      → List (Text × Text)
      → List (Text × ℕ)
      → Result BuildError (PartitionCandidate F)
  unfolding place_all join_all candidate_of
  build_candidate policy round participants split_points excluded_links memory_limits = do
    placed ←
        place_all round memory_limits 0 0 (split_points ++ length round.layers ∷ []) participants
    joined ←
        join_neighbours policy round excluded_links (map (λ p. p.partition) placed) split_points
    ok (candidate_of policy round split_points placed joined)
