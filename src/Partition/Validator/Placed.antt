-- ===== src/Partition/Validator/Placed.antt =====
-- What the loop over the partitions of a candidate finds.
use aiops_research.Base.{
  ℕ, ◌+◌, ℤ, pos, ltb_ℤ, ◌≤ℤ◌, ◌==◌, ==_iff, ◌≡◌, refl, ◌↔◌, inl, inr, subst, ap, ◌∙◌, false, not,
  some, List, [], ◌∷◌, ◌++◌, Text, codes, In, In-cons, contains_text, contains_text_iff, ok, ok_inj,
  err, Bool-cases, Option-cases, arith, passed,
}
use aiops_research.Floats.{Floats}
use aiops_research.Python.Dicts.{last_by}
use aiops_research.Partition.{ModelLayer, ResourceDevice, FederatedRoundPlan, LogicalPartition}
use aiops_research.Partition.Validator.{empty_max, is_empty, fail_if, total, highest}
use aiops_research.Partition.Validator.Errors.{append_nil_iff, fail_if_iff, fail_unless_iff}
use aiops_research.Partition.Validator.Placement.{
  assigned, memory_of, allowed_memory, memory_errors, device_of, placement_errors, partition_errors,
}

module _ (floats : Floats) where
  open floats use {F}

  -- The layers that a partition names, each under its name.
  pub data Names (layers : List (ModelLayer F)) : List Text → List (ModelLayer F) → Type 0 where
    none_left : Names layers [] []
    named :
        {n : Text} {ns : List Text} {l : ModelLayer F} {ls : List (ModelLayer F)}
        → last_by (λ l. l.name) n layers ≡ some l
        → Names layers ns ls
        → Names layers (n ∷ ns) (l ∷ ls)

  -- A participant's device has room for the partition's layers, one at least, and the partition
  -- says how much they take.
  pub record IsPlaced (round : FederatedRoundPlan F) (p : LogicalPartition F) : Type 0 where
    pub device : ResourceDevice F
    pub first : ModelLayer F
    pub others : List (ModelLayer F)
    pub participates : In p.device_id round.participants
    pub known : last_by (λ d. d.device_id) p.device_id round.devices ≡ some device
    pub carries : Names round.layers p.layer_names (first ∷ others)
    pub counted :
        p.memory_demand_bytes
        ≡ total (λ l. l.parameter_bytes) (first ∷ others)
          + total (λ l. l.working_memory_bytes) (first ∷ others)
          + highest (λ l. l.activation_bytes) first.activation_bytes others
    pub fits :
        pos p.memory_demand_bytes
        ≤ℤ allowed_memory floats device.memory_available_bytes
            round.constraints.minimum_memory_headroom_ratio

  pub Names-assigned :
      (layers : List (ModelLayer F)) {ns : List Text} {ls : List (ModelLayer F)}
      → Names layers ns ls
      → assigned floats ns layers ≡ some ls
  unfolding assigned
  Names-assigned layers none_left = refl
  Names-assigned layers (named h r) = ground (arith, h, Names-assigned layers r)

  pub assigned-Names :
      (layers : List (ModelLayer F)) (ns : List Text) (ls : List (ModelLayer F))
      → assigned floats ns layers ≡ some ls
      → Names layers ns ls
  unfolding assigned
  assigned-Names layers [] ls h = subst (Names layers []) (ground arith) none_left
  assigned-Names layers (n ∷ ns) ls h = elim (Option-cases (last_by (λ l. l.name) n layers)) [
    | inl e ↦ cc (rw (e, assigned) at h)
    | inr (l, e) ↦ elim (Option-cases (assigned floats ns layers)) [
      | inl f ↦ ground arith
      | inr (rest, f) ↦
          subst (Names layers (n ∷ ns)) (ground arith) (named e (assigned-Names layers ns rest f))
    ]
  ]

  pub participant_of :
      (round : FederatedRoundPlan F) (p : LogicalPartition F) (d : ResourceDevice F)
      → (device_of floats round p ≡ some d) ↔ (
          In p.device_id round.participants
          × (last_by (λ d. d.device_id) p.device_id round.devices ≡ some d))
  unfolding device_of
  participant_of round p d = elim (Bool-cases (contains_text p.device_id round.participants)) [
    | inl e ↦
        simp (e) (λ h. ((contains_text_iff p.device_id round.participants).0 e, h), λ (m, h). h)
    | inr n ↦
        simp (n) (λ h. cc, λ (m, h). cc ((contains_text_iff p.device_id round.participants).1 m))
  ]

  pub fits_iff : (a b : ℤ) → (ltb_ℤ a b ≡ false) ↔ (b ≤ℤ a)
  fits_iff a b = (λ h. ground arith, λ h. ground arith)

  memory_iff :
      (round : FederatedRoundPlan F) (p : LogicalPartition F) (d : ResourceDevice F)
      (l : ModelLayer F) (ls : List (ModelLayer F))
      → (memory_errors floats round p d (l ∷ ls) ≡ ok []) ↔ (
          (p.memory_demand_bytes ≡ memory_of floats l ls)
          × (pos (memory_of floats l ls)
              ≤ℤ allowed_memory floats d.memory_available_bytes
                  round.constraints.minimum_memory_headroom_ratio))
  unfolding memory_errors
  memory_iff round p d l ls =
      let counted = p.memory_demand_bytes == memory_of floats l ls in
      let limit =
        allowed_memory floats d.memory_available_bytes
          round.constraints.minimum_memory_headroom_ratio in
      let mismatch = codes "memory_demand_mismatch:" ++ p.partition_id in
      let exceeded = codes "memory_capacity_exceeded:" ++ p.device_id in
      let over = ltb_ℤ limit (pos (memory_of floats l ls)) in
      (
        λ h.
            let (a, b) =
              (append_nil_iff (fail_if (not counted) mismatch) (fail_if over exceeded)).0
                (ok_inj h) in
            (
              (==_iff p.memory_demand_bytes (memory_of floats l ls)).0
                  ((fail_unless_iff counted mismatch).0 a),
              (fits_iff limit (pos (memory_of floats l ls))).0 ((fail_if_iff over exceeded).0 b),
            ),
        λ (a, b). ap ok (
            (append_nil_iff (fail_if (not counted) mismatch) (fail_if over exceeded)).1 (
              (fail_unless_iff counted mismatch).1
                  ((==_iff p.memory_demand_bytes (memory_of floats l ls)).1 a),
              (fail_if_iff over exceeded).1 ((fits_iff limit (pos (memory_of floats l ls))).1 b),
            )),
      )

  pub raises :
      (round : FederatedRoundPlan F) (p : LogicalPartition F) (d : ResourceDevice F)
      → memory_errors floats round p d [] ≡ err empty_max
  unfolding memory_errors
  raises round p d = refl

  pub returns :
      (round : FederatedRoundPlan F) (p : LogicalPartition F) (d : ResourceDevice F)
      (l : ModelLayer F) (ls : List (ModelLayer F))
      → ¬ (memory_errors floats round p d (l ∷ ls) ≡ err empty_max)
  unfolding memory_errors
  returns round p d l ls h = cc

  placement-IsPlaced :
      (round : FederatedRoundPlan F) (p : LogicalPartition F)
      → placement_errors floats round p ≡ ok []
      → IsPlaced round p
  unfolding placement_errors
  placement-IsPlaced round p h = elim (Option-cases (device_of floats round p)) [
    | inl e ↦ ground (arith, e)
    | inr (d, e) ↦ elim (Option-cases (assigned floats p.layer_names round.layers)) [
      | inl f ↦ ground (arith, e, f)
      | inr (ls, f) ↦ placed_by d ls e f (ground (arith, e, f))
    ]
  ]
    where
      placed_by :
          (d : ResourceDevice F) (ls : List (ModelLayer F))
          → device_of floats round p ≡ some d
          → assigned floats p.layer_names round.layers ≡ some ls
          → memory_errors floats round p d ls ≡ ok []
          → IsPlaced round p
      placed_by d [] e f g = cc (raises round p d)
      placed_by d (l ∷ ls) e f g =
          let (m, k) = (participant_of round p d).0 e in
          let (counted, fits) = (memory_iff round p d l ls).0 g in
          record {
            device = d;
            first = l;
            others = ls;
            participates = m;
            known = k;
            carries = assigned-Names round.layers p.layer_names (l ∷ ls) f;
            counted = unfold memory_of in counted;
            fits = rw counted fits;
          }

  IsPlaced-placement :
      (round : FederatedRoundPlan F) (p : LogicalPartition F)
      → IsPlaced round p
      → placement_errors floats round p ≡ ok []
  unfolding placement_errors
  IsPlaced-placement round p h =
      let d = h.device in
      let counted : p.memory_demand_bytes ≡ memory_of floats h.first h.others =
        unfold memory_of in h.counted in
      let limit =
        allowed_memory floats d.memory_available_bytes
          round.constraints.minimum_memory_headroom_ratio in
      ground (
        arith,
        (participant_of round p d).1 (h.participates, h.known),
        Names-assigned round.layers h.carries,
        (memory_iff round p d h.first h.others).1
            (counted, subst (λ (n : ℕ). pos n ≤ℤ limit) counted h.fits),
      )

  pub placement_iff :
      (round : FederatedRoundPlan F) (p : LogicalPartition F)
      → (placement_errors floats round p ≡ ok []) ↔ IsPlaced round p
  placement_iff round p = (placement-IsPlaced round p, IsPlaced-placement round p)

  named_nonempty :
      {layers : List (ModelLayer F)} {ns : List Text} {l : ModelLayer F} {ls : List (ModelLayer F)}
      → Names layers ns (l ∷ ls)
      → is_empty ns ≡ false
  named_nonempty (named h r) = refl

  pub unnamed : {layers : List (ModelLayer F)} {ns : List Text} → Names layers ns [] → ns ≡ []
  unnamed none_left = refl

  -- Each of the partitions is looked at, in their order, and none is found at fault.
  pub partition_errors_iff :
      (round : FederatedRoundPlan F) (ps : List (LogicalPartition F))
      → (partition_errors floats round ps ≡ ok [])
        ↔ ((p : LogicalPartition F) → In p ps → IsPlaced round p)
  unfolding partition_errors
  partition_errors_iff round [] = (λ h p m. elim m [ ], λ h. refl)
  partition_errors_iff round (p ∷ ps) = (
    λ h q m.
        let (here, k, e) = passed _ (placement_errors floats round p) h in
        let (others, k', e') = passed _ (partition_errors floats round ps) k in
        let (a, b) = (append_nil_iff _ (here ++ others)).0 (ok_inj k') in
        let (c, d) = (append_nil_iff here others).0 b in
        elim (In-cons m) [
          | inl same ↦ rw same (placement-IsPlaced round p (e ∙ ap ok c))
          | inr r ↦ (partition_errors_iff round ps).0 (e' ∙ ap ok d) q r
        ],
    λ h.
        let placed = h p In.here in
        let rest = (partition_errors_iff round ps).1 (λ q m. h q (In.there m)) in
        ground (arith, IsPlaced-placement round p placed, rest, named_nonempty placed.carries),
  )
