-- ===== src/Partition/Requested/Serves.antt =====
-- What an inference plan promises whose service level the validator finds met
-- (src/aiops_k8s_agents/partition_validator.py, `_validate_inference_slas` and
-- `_validate_inference_graph_contract`).
use aiops_research.Python.Dicts.{contains, contains-In, same_set_iff}
use aiops_research.Json.{Json, null, bool, number, real, string, array, object, get_field}
use aiops_research.Partition.Validator.{fail_if, pair_eq, neighbours}
use aiops_research.Partition.Validator.Graph.{link_pairs}
use aiops_research.Partition.Validator.Errors.{pair_eq-IsEquality}
use aiops_research.Partition.Common.Feasible.{In-neighbours}
use aiops_research.Partition.Requested.{positive, capacity_of, concurrency_of, is_available}
use aiops_research.Partition.{LogicalPartition}
use aiops_research.Base.{
  ◌⊎◌, ◌↔◌, ℕ, zero, suc, pos, negsuc, map, all, any-In, all-In, codes, &&-eq-true, ◌≡◌, refl, inl,
  inr, subst, sym, ap, ◌∙◌, Bool, true, false, not, ◌&&◌, text_eq, ◌||◌, Option, none, some, List,
  [], ◌∷◌, ◌++◌, In, any, any-of_In, Text, text_eq_iff, contains_text_iff, ok, ok_inj,
  if◌then◌else◌, Bool-cases, arith,
}
use aiops_research.Floats.{Floats}
use aiops_research.Partition.{FederatedRoundPlan, ExecutionGraphEdge, PartitionCandidate}
use aiops_research.Partition.Validator.Errors.{append_nil_iff, fail_if_iff, fail_unless_iff}
use aiops_research.Partition.Request.{for_inference, InferenceCoordinationPlan}
use aiops_research.Partition.Requested.{
  forward_edge_types, is_forward, has_forward_chain, predicted_capacity, is_feasible,
  inference_graph_errors, sla_errors, at_least, latency_errors,
}

both3 : (a b c : Bool) → (a && b && c) ≡ true → (a ≡ true) × (b ≡ true) × (c ≡ true)
both3 a b c h = (ground arith, ground arith, ground arith)

both4 :
    (a b c d : Bool) → (a && b && c && d) ≡ true → (a ≡ true) × (b ≡ true) × (c ≡ true) × (d ≡ true)
both4 a b c d h = (ground arith, ground arith, ground arith, ground arith)

some_same : {A : Type 0} {x y : A} → some x ≡ some y → x ≡ y
some_same {x} h = ap (λ o. elim o [ none ↦ x | some z ↦ z ]) h

none-some : {A : Type 0} {x : A} → none ≡ some x → ⊥
none-some h = cc

module _ (floats : Floats) where
  open floats use {F, one, of_int, mul, div, gtb, geb, is_finite}

  -- The snapshot has all that the candidate runs on.
  pub record IsCarried (round : FederatedRoundPlan F) (selected : PartitionCandidate F)
      : Type 0 where
    pub placed :
        (p : LogicalPartition F)
        → In p selected.partitions
        → In p.device_id (map (λ d. d.device_id) round.devices) × In p.device_id round.participants
    pub drawn :
        (x : Text × Text)
        → In x (map (λ n. (n.partition_id, n.device_id)) selected.graph_nodes)
          ↔ In x (map (λ p. (p.partition_id, p.device_id)) selected.partitions)
    pub linked :
        (before : List (LogicalPartition F)) (s t : LogicalPartition F)
        (after : List (LogicalPartition F))
        → selected.partitions ≡ before ++ (s ∷ t ∷ after)
        → (s.device_id ≡ t.device_id)
          ⊎ In {A = Text × Text}
              (s.device_id, t.device_id)
              (map (λ k. (k.source_device, k.target_device)) round.network_links)

  -- The candidate serves requests: its edges go forward, one at least from each partition to the
  -- next, and its latency is within the plan's objective; the requests that it can take at once, each for its
  -- finite and positive latency in milliseconds, are enough for the throughput; and the availability, which is
  -- one if the snapshot has all that it runs on and else zero, meets the target.
  pub record Serves (p : InferenceCoordinationPlan F) (round : FederatedRoundPlan F)
      (selected : PartitionCandidate F) : Type 0 where
    pub forward :
        (e : ExecutionGraphEdge F) → In e selected.graph_edges → In e.edge_type forward_edge_types
    pub chained :
        (before : List (LogicalPartition F)) (s t : LogicalPartition F)
        (after : List (LogicalPartition F))
        → selected.partitions ≡ before ++ (s ∷ t ∷ after)
        → (e : ExecutionGraphEdge F) × In e selected.graph_edges
          × (e.source_partition ≡ s.partition_id)
          × (e.target_partition ≡ t.partition_id)
    pub in_time : gtb selected.estimated_total_latency_ms p.latency_slo_ms ≡ false
    pub at_once : ℕ
    pub concurrency :
        get_field (codes "max_requests") p.concurrency_policy ≡ some (number (pos (suc at_once)))
    pub finite : is_finite selected.estimated_total_latency_ms ≡ true
    pub positive_latency : geb floats.zero selected.estimated_total_latency_ms ≡ false
    pub enough :
        gtb p.minimum_throughput_rps (
          div
            (mul (of_int (pos (suc at_once))) (of_int (pos 1000)))
            selected.estimated_total_latency_ms)
        ≡ false
    pub available :
        (IsCarried round selected × (gtb p.availability_target one ≡ false))
        ⊎ (gtb p.availability_target floats.zero ≡ false)

  at_least-nil :
      (minimum : F) (missing low : Text) (o : Option F)
      → at_least floats minimum missing low o ≡ []
      → (v : F) × (o ≡ some v) × (gtb minimum v ≡ false)
  at_least-nil minimum missing low none h = cc
  at_least-nil minimum missing low (some v) h = (v, refl, (fail_if_iff _ low).0 h)

  module _ (selected : PartitionCandidate F) where
    goes_forward :
        (x : ExecutionGraphEdge F)
        → In x selected.graph_edges
        → any (λ y. not (is_forward floats y)) selected.graph_edges ≡ false
        → In x.edge_type forward_edge_types
    goes_forward x k none_back = elim (Bool-cases (is_forward floats x)) [
      | inl f ↦ (contains_text_iff x.edge_type forward_edge_types).0 f
      | inr b ↦ cc (
        none_back,
        any-of_In (λ y. not (is_forward floats y)) selected.graph_edges x k (rw b refl),
      )
    ]

    -- A test of all neighbours holds for two that stand side by side.
    side_by_side :
        (test : LogicalPartition F × LogicalPartition F → Bool) (before : List (LogicalPartition F))
        (s t : LogicalPartition F) (after : List (LogicalPartition F))
        → all test (neighbours selected.partitions) ≡ true
        → selected.partitions ≡ before ++ (s ∷ t ∷ after)
        → test (s, t) ≡ true
    side_by_side test before s t after h e =
        all-In test (neighbours selected.partitions) h (s, t)
          (subst (λ ps. In {A = LogicalPartition F × LogicalPartition F} (s, t) (neighbours ps))
            (sym e) (In-neighbours before s t after))

    chained_by :
        (before : List (LogicalPartition F)) (s t : LogicalPartition F)
        (after : List (LogicalPartition F))
        → has_forward_chain floats selected ≡ true
        → selected.partitions ≡ before ++ (s ∷ t ∷ after)
        → (e : ExecutionGraphEdge F) × In e selected.graph_edges
          × (e.source_partition ≡ s.partition_id)
          × (e.target_partition ≡ t.partition_id)
    unfolding has_forward_chain
    chained_by before s t after h e =
        let (x, m, f) = any-In _ selected.graph_edges (side_by_side _ before s t after h e) in
        let (a, b, c) = both3 _ _ _ f in
        (
          x,
          m,
          (text_eq_iff x.source_partition s.partition_id).0 a,
          (text_eq_iff x.target_partition t.partition_id).0 b,
        )

    is_feasible-IsCarried :
        (round : FederatedRoundPlan F)
        → is_feasible floats round selected ≡ true
        → IsCarried round selected
    unfolding is_feasible
    is_feasible-IsCarried round h =
        let (a, b, c, d) = both4 _ _ _ _ h in
        record {
          placed = λ p m.
              let (x, y) = &&-eq-true _ _ (all-In (is_available floats round) _ a p m) in
              ((contains_text_iff p.device_id _).0 x, (contains_text_iff p.device_id _).0 y);
          drawn = λ x. (same_set_iff pair_eq pair_eq-IsEquality _ _).0 b x;
          linked = λ before s t after e. near s t (side_by_side _ before s t after d e);
        }
      where
        near :
            (s t : LogicalPartition F)
            → (text_eq s.device_id t.device_id
                || contains pair_eq (s.device_id, t.device_id) (link_pairs floats round))
              ≡ true
            → (s.device_id ≡ t.device_id)
              ⊎ In {A = Text × Text}
                  (s.device_id, t.device_id)
                  (map (λ k. (k.source_device, k.target_device)) round.network_links)
        near s t h = elim (Bool-cases (text_eq s.device_id t.device_id)) [
          | inl e ↦ inl ((text_eq_iff s.device_id t.device_id).0 e)
          | inr d ↦
              inr (contains-In pair_eq pair_eq-IsEquality (s.device_id, t.device_id) _ (rw d at h))
        ]

  capacity_of-some :
      (n : ℕ) (latency v : F)
      → capacity_of floats n latency ≡ some v
      → (is_finite latency ≡ true)
        × (geb floats.zero latency ≡ false)
        × (div (mul (of_int (pos n)) (of_int (pos 1000))) latency ≡ v)
  unfolding capacity_of
  capacity_of-some n latency v h =
      elim (Bool-cases (not (is_finite latency) || geb floats.zero latency)) [
        | inl e ↦ absurd (none-some (rw e at h))
        | inr d ↦ (ground (arith, d), ground (arith, d), some_same (rw d at h))
      ]

  positive-some :
      (j : Option Json) (n : ℕ)
      → positive j ≡ some n
      → (m : ℕ) × (j ≡ some (number (pos (suc m)))) × (suc m ≡ n)
  positive-some none n h = cc
  positive-some (some (number (pos (suc m)))) n h = (m, refl, some_same h)
  positive-some (some (number (pos zero))) n h = cc
  positive-some (some (number (negsuc m))) n h = cc
  positive-some (some null) n h = cc
  positive-some (some (bool b)) n h = cc
  positive-some (some (real t)) n h = cc
  positive-some (some (string t)) n h = cc
  positive-some (some (array js)) n h = cc
  positive-some (some (object fs)) n h = cc

  predicted_capacity-some :
      (p : InferenceCoordinationPlan F) (selected : PartitionCandidate F) (v : F)
      → predicted_capacity floats (for_inference p) (some selected) ≡ some v
      → (m : ℕ) × (get_field (codes "max_requests") p.concurrency_policy
          ≡ some (number (pos (suc m))))
        × (capacity_of floats (suc m) selected.estimated_total_latency_ms ≡ some v)
  unfolding predicted_capacity
  predicted_capacity-some p selected v h =
      let (n, e, c) = asked (concurrency_of floats (for_inference p)) h in
      let (m, f, g) = positive-some _ n e in
      (m, f, subst (λ k. capacity_of floats k latency ≡ some v) (sym g) c)
    where
      latency : F
      latency = selected.estimated_total_latency_ms

      asked :
          (o : Option ℕ)
          → (elim o [ none ↦ none | some n ↦ capacity_of floats n latency ]) ≡ some v
          → (n : ℕ) × (o ≡ some n) × (capacity_of floats n latency ≡ some v)
      asked none h = cc
      asked (some n) h = (n, refl, h)

  pub Serves-of_errors :
      (p : InferenceCoordinationPlan F) (round : FederatedRoundPlan F)
      (selected : PartitionCandidate F) (broken : List Text)
      → sla_errors floats (for_inference p) round (some selected) ≡ ok broken
      → broken ≡ []
      → inference_graph_errors floats (some selected) ≡ []
      → Serves p round selected
  unfolding sla_errors inference_graph_errors
  Serves-of_errors p round selected broken e n h =
      let (l, m) =
        (append_nil_iff (latency_errors floats p.latency_slo_ms (some selected)) _).0
          (ok_inj e ∙ n) in
      let (c, a) = (append_nil_iff _ _).0 m in
      let (v, q, r) = at_least-nil p.minimum_throughput_rps _ _ _ c in
      let (i, j) =
        (append_nil_iff
            (fail_if (any (λ y. not (is_forward floats y)) selected.graph_edges)
              (codes "inference_graph_forward_contract_mismatch"))
            _).0
          h in
      let back = (fail_if_iff _ (codes "inference_graph_forward_contract_mismatch")).0 i in
      let chain =
        (fail_unless_iff (has_forward_chain floats selected)
            (codes "inference_graph_forward_path_missing")).0
          j in
      let (k, w, x) = predicted_capacity-some p selected v q in
      let (f, g, y) = capacity_of-some (suc k) _ v x in
      record {
        forward = λ x k. goes_forward selected x k back;
        chained = λ before s t after e. chained_by selected before s t after chain e;
        in_time = (fail_if_iff _ _).0 l;
        at_once = k;
        concurrency = w;
        finite = f;
        positive_latency = g;
        enough = rw y r;
        available =
            available_by (is_feasible floats round selected) (is_feasible-IsCarried selected round)
              ((fail_if_iff _ _).0 a);
      }
    where
      available_by :
          (b : Bool)
          → (b ≡ true → IsCarried round selected)
          → gtb p.availability_target (if b then one else floats.zero) ≡ false
          → (IsCarried round selected × (gtb p.availability_target one ≡ false))
            ⊎ (gtb p.availability_target floats.zero ≡ false)
      available_by true carried h = inl (carried refl, h)
      available_by false carried h = inr h
