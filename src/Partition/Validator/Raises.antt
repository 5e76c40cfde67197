-- ===== src/Partition/Validator/Raises.antt =====
-- When the loop over the partitions of a candidate raises a `ValueError`.
use aiops_research.Base.{
  ◌≡◌, refl, ◌↔◌, inl, inr, subst, sym, some, List, [], ◌∷◌, In, In-cons, err, Option-cases,
  Result-cases, arith,
}
use aiops_research.Floats.{Floats}
use aiops_research.Python.Dicts.{last_by}
use aiops_research.Partition.{ModelLayer, ResourceDevice, FederatedRoundPlan, LogicalPartition}
use aiops_research.Partition.Validator.{empty_max}
use aiops_research.Partition.Validator.Placement.{
  assigned, memory_errors, device_of, placement_errors, partition_errors,
}
use aiops_research.Partition.Validator.Placed.{
  none_left, unnamed, raises, returns, Names-assigned, assigned-Names, participant_of,
}

module _ (floats : Floats) where
  open floats use {F}

  -- The partition names no layer, and its device is known.
  pub record Raises (round : FederatedRoundPlan F) (ps : List (LogicalPartition F)) : Type 0 where
    pub partition : LogicalPartition F
    pub listed : In partition ps
    pub no_layers : partition.layer_names ≡ []
    pub participates : In partition.device_id round.participants
    pub device : ResourceDevice F
    pub known : last_by (λ d. d.device_id) partition.device_id round.devices ≡ some device

  Raises-later :
      {round : FederatedRoundPlan F} {ps : List (LogicalPartition F)} (p : LogicalPartition F)
      → Raises round ps
      → Raises round (p ∷ ps)
  Raises-later p r = record {
    partition = r.partition;
    listed = In.there r.listed;
    no_layers = r.no_layers;
    participates = r.participates;
    device = r.device;
    known = r.known;
  }

  placement_raises :
      (round : FederatedRoundPlan F) (p : LogicalPartition F)
      → placement_errors floats round p ≡ err empty_max
      → (d : ResourceDevice F) × (device_of floats round p ≡ some d) × (p.layer_names ≡ [])
  unfolding placement_errors
  placement_raises round p h = elim (Option-cases (device_of floats round p)) [
    | inl e ↦ ground (arith, e)
    | inr (d, e) ↦ elim (Option-cases (assigned floats p.layer_names round.layers)) [
      | inl f ↦ ground (arith, e, f)
      | inr (ls, f) ↦ (d, e, raised_by d ls f (ground (arith, e, f)))
    ]
  ]
    where
      raised_by :
          (d : ResourceDevice F) (ls : List (ModelLayer F))
          → assigned floats p.layer_names round.layers ≡ some ls
          → memory_errors floats round p d ls ≡ err empty_max
          → p.layer_names ≡ []
      raised_by d [] f g = unnamed floats (assigned-Names floats round.layers p.layer_names [] f)
      raised_by d (l ∷ ls) f g = absurd (returns floats round p d l ls g)

  unnamed_raises :
      (round : FederatedRoundPlan F) (p : LogicalPartition F) (d : ResourceDevice F)
      → device_of floats round p ≡ some d
      → p.layer_names ≡ []
      → placement_errors floats round p ≡ err empty_max
  unfolding placement_errors
  unnamed_raises round p d e n = ground (
    arith,
    raises floats round p d,
    subst (λ ns. assigned floats ns round.layers ≡ some []) (sym n)
        (Names-assigned floats round.layers none_left),
  )

  pub partition_errors-Raises :
      (round : FederatedRoundPlan F) (ps : List (LogicalPartition F))
      → (partition_errors floats round ps ≡ err empty_max) ↔ Raises round ps
  unfolding partition_errors
  partition_errors-Raises round [] = (λ h. cc, λ r. elim r.listed [ ])
  partition_errors-Raises round (p ∷ ps) = (
    λ h. elim (Result-cases (placement_errors floats round p)) [
      | inr (empty_max, e) ↦
          let (d, k, n) = placement_raises round p e in
          let (m, known) = (participant_of floats round p d).0 k in
          record {
            partition = p;
            listed = In.here;
            no_layers = n;
            participates = m;
            device = d;
            known = known;
          }
      | inl (here, e) ↦ elim (Result-cases (partition_errors floats round ps)) [
        | inl (others, f) ↦ ground (arith, e, f)
        | inr (empty_max, f) ↦ Raises-later p ((partition_errors-Raises round ps).0 f)
      ]
    ],
    λ r. elim (In-cons r.listed) [
      | inl same ↦ ground (
        arith,
        unnamed_raises round p r.device
            ((participant_of floats round p r.device).1 (
              subst (λ q. In q.device_id round.participants) same r.participates,
              subst (λ q. last_by (λ d. d.device_id) q.device_id round.devices ≡ some r.device) same
                  r.known,
            ))
            (subst (λ q. q.layer_names ≡ []) same r.no_layers),
      )
      | inr m ↦
          let later = (partition_errors-Raises round ps).1 (record {
            partition = r.partition;
            listed = m;
            no_layers = r.no_layers;
            participates = r.participates;
            device = r.device;
            known = r.known;
          }) in
          elim (Result-cases (placement_errors floats round p)) [
            | inr (empty_max, e) ↦ rw e refl
            | inl (here, e) ↦ rw (e, later) refl
          ]
    ],
  )
