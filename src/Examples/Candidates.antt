-- ===== src/Examples/Candidates.antt =====
-- A candidate for two devices (src/aiops_k8s_agents/model_partition_agent.py).
use aiops_research.Base.{
  ℕ, ◌≡◌, refl, true, none, some, List, [], ◌∷◌, In-cons, Text, codes, text_eq, text_eq_iff,
  contains_text, ok, inl, inr, arith,
}
use aiops_research.Python.Decimal.{show_nat}
use aiops_research.Examples.Votes.{hundredths}
use aiops_research.Examples.Plans.{round}
use aiops_research.Partition.{FederatedRoundPlan, PartitionCandidate}
use aiops_research.Partition.Candidate.{Scoring, build_candidate}
use aiops_research.Partition.Candidate.Fits.{HasNames}
use aiops_research.Partition.Candidate.Built.{IsBuilt, build_candidate-IsBuilt}

abbrev policy : Scoring hundredths
policy = record {
  latency_weight = 50;
  memory_pressure_weight = 30;
  communication_weight = 20;
  latency_reference_ms = 100000;
  transfer_reference_bytes = 100;
  rounded = λ a. a;
}

-- The round without a limit on the latency.
abbrev wide : FederatedRoundPlan ℕ
wide = record round {
  constraints = record {
    max_end_to_end_latency_ms = none;
    max_transfer_bytes = some 64;
    minimum_memory_headroom_ratio = 20;
  };
}

abbrev both : List Text
both = codes "a" ∷ codes "b" ∷ []

abbrev built : PartitionCandidate ℕ
built = record {
  split_points = 1 ∷ [];
  partitions =
      record {
        partition_id = codes "partition-1";
        device_id = codes "a";
        layer_names = codes "l1" ∷ [];
        compute_units = 100;
        memory_demand_bytes = 330;
      }
      ∷ record {
        partition_id = codes "partition-2";
        device_id = codes "b";
        layer_names = codes "l2" ∷ [];
        compute_units = 100;
        memory_demand_bytes = 230;
      }
      ∷ [];
  graph_nodes =
      record { partition_id = codes "partition-1"; device_id = codes "a" }
      ∷ record { partition_id = codes "partition-2"; device_id = codes "b" }
      ∷ [];
  graph_edges =
      record {
        source_partition = codes "partition-1";
        target_partition = codes "partition-2";
        transfer_bytes = 10;
        estimated_transfer_ms = 1000100;
        edge_type = codes "forward";
      }
      ∷ [];
  estimated_compute_ms = 200000;
  estimated_transfer_ms = 1000100;
  estimated_total_latency_ms = 1200100;
  total_transfer_bytes = 10;
  maximum_memory_pressure = 41;
  valid = true;
  rejection_reasons = [];
  score = 64;
  estimated_step_time_ms = 0;
  gradient_transfer_bytes = 0;
  maximum_load_imbalance = 0;
  predicted_resilience_risk = 0;
}

wide_builds : build_candidate hundredths policy wide both (1 ∷ []) [] [] ≡ ok built
unfolding build_candidate text_eq contains_text show_nat
wide_builds = refl

wide-HasNames : HasNames hundredths wide
unfolding text_eq
wide-HasNames = (
  λ m. elim (In-cons m) [
    | inl e ↦ cc ((text_eq_iff (codes "l1") (codes "l2")).1 e)
    | inr r ↦ elim r [ ]
  ],
  (λ m. elim m [ ], tt),
)

build_candidate-IsBuilt_example : IsBuilt hundredths wide built
build_candidate-IsBuilt_example =
    build_candidate-IsBuilt hundredths policy wide both (1 ∷ []) [] [] built wide-HasNames
      (λ id m. m) (omega arith) wide_builds refl
