-- ===== src/Partition/Validator/Accepted.antt =====
-- When `_validate_legacy` accepts a plan, and when it raises.
use aiops_research.Base.{
  ◌≡◌, refl, ◌↔◌, inl, inr, subst, sym, ap, ◌∙◌, Bool, true, false, none, some, [], ◌∷◌, ◌++◌,
  codes, Option-cases, arith, ok, ok_inj, err, Result, ◌>>=◌, passed, Result-cases,
}
use aiops_research.Floats.{Floats}
use aiops_research.Partition.{FederatedRoundPlan, PartitionCandidate, PartitionExecutionPlan}
use aiops_research.Partition.Validator.{
  ValueError, empty_max, PartitionValidationResult, result, checked_rules,
}
use aiops_research.Partition.Validator.Placement.{partition_errors}
use aiops_research.Partition.Validator.Graph.{graph_errors}
use aiops_research.Partition.Validator.Legacy.{
  identity_errors, candidate_errors, legacy_errors, validate_legacy,
}
use aiops_research.Partition.Validator.Errors.{append_nil_iff, result_valid_iff}
use aiops_research.Partition.Validator.Placed.{partition_errors_iff}
use aiops_research.Partition.Validator.Raises.{Raises, partition_errors-Raises}
use aiops_research.Partition.Validator.Executable.{graph_iff}
use aiops_research.Partition.Validator.Sound.{IsSound, identity_iff, candidate_iff}

module _ (floats : Floats) where
  open floats use {F}

  -- The validator returns a result, and the result says that the plan is valid.
  abbrev pub Accepts : FederatedRoundPlan F → PartitionExecutionPlan F → Type 0
  Accepts round plan =
      (r : PartitionValidationResult) × (validate_legacy floats round plan ≡ ok r)
      × (r.valid ≡ true)

  clean-Accepts :
      (round : FederatedRoundPlan F) (plan : PartitionExecutionPlan F)
      → legacy_errors floats round plan ≡ ok []
      → Accepts round plan
  unfolding validate_legacy
  clean-Accepts round plan h =
      (result [] checked_rules, rw h refl, (result_valid_iff [] checked_rules).1 refl)

  Accepts-clean :
      (round : FederatedRoundPlan F) (plan : PartitionExecutionPlan F)
      → Accepts round plan
      → legacy_errors floats round plan ≡ ok []
  unfolding validate_legacy
  Accepts-clean round plan (r, e, v) =
      let (es, f, g) = passed _ (legacy_errors floats round plan) e in
      let valid : (result es checked_rules).valid ≡ true = ap valid_of f ∙ v in
      g ∙ ap ok ((result_valid_iff es checked_rules).0 valid)
    where
      valid_of : Result ValueError PartitionValidationResult → Bool
      valid_of (ok r) = r.valid
      valid_of (err e) = false

  legacy_errors-none :
      (round : FederatedRoundPlan F) (plan : PartitionExecutionPlan F)
      → plan.selected_candidate ≡ none
      → legacy_errors floats round plan
        ≡ ok (identity_errors floats round plan ++ codes "selected_candidate_required" ∷ [])
  unfolding legacy_errors
  legacy_errors-none round plan e = ground (arith, e)

  legacy_errors-some :
      (round : FederatedRoundPlan F) (plan : PartitionExecutionPlan F)
      (selected : PartitionCandidate F)
      → plan.selected_candidate ≡ some selected
      → legacy_errors floats round plan ≡ (
          partition_errors floats round selected.partitions >>= λ placed. ok (
            identity_errors floats round plan
            ++ (candidate_errors floats round plan selected
                ++ (placed ++ graph_errors floats round plan selected))))
  unfolding legacy_errors
  legacy_errors-some round plan selected e = ground (arith, e)

  clean-IsSound :
      (round : FederatedRoundPlan F) (plan : PartitionExecutionPlan F)
      → legacy_errors floats round plan ≡ ok []
      → IsSound floats round plan
  clean-IsSound round plan h = elim (Option-cases plan.selected_candidate) [
    | inl e ↦
        let k =
          (append_nil_iff (identity_errors floats round plan) _).0
            (ok_inj (sym (legacy_errors-none round plan e) ∙ h)) in
        cc (k.1)
    | inr (c, e) ↦
        let (placed, f, g) =
          passed _ (partition_errors floats round c.partitions)
            (sym (legacy_errors-some round plan c e) ∙ h) in
        let (i, jkl) = (append_nil_iff (identity_errors floats round plan) _).0 (ok_inj f) in
        let (j, kl) = (append_nil_iff (candidate_errors floats round plan c) _).0 jkl in
        let (k, l) = (append_nil_iff placed _).0 kl in
        let (job, (model, (mode, approved))) = (identity_iff floats round plan).0 i in
        let ((plan_valid, candidate_valid), (covered, distinct)) =
          (candidate_iff floats round plan c).0 j in
        record {
          job = job;
          model = model;
          mode = mode;
          approved = approved;
          selected = c;
          chosen = e;
          plan_valid = plan_valid;
          candidate_valid = candidate_valid;
          covered = covered;
          distinct = distinct;
          placed = (partition_errors_iff floats round c.partitions).0 (g ∙ ap ok k);
          executable = (graph_iff floats round plan c).0 l;
        }
  ]

  IsSound-clean :
      (round : FederatedRoundPlan F) (plan : PartitionExecutionPlan F)
      → IsSound floats round plan
      → legacy_errors floats round plan ≡ ok []
  IsSound-clean round plan s =
      let c = s.selected in
      legacy_errors-some round plan c s.chosen
      ∙ rw
          (
            (partition_errors_iff floats round c.partitions).1 s.placed,
            (identity_iff floats round plan).1 (s.job, (s.model, (s.mode, s.approved))),
            (candidate_iff floats round plan c).1
                ((s.plan_valid, s.candidate_valid), (s.covered, s.distinct)),
            (graph_iff floats round plan c).1 s.executable,
          )
          refl

  -- The validator accepts a plan exactly if the plan is sound: it is the plan of an approved round,
  -- its partitions carry the layers of the model on devices with room for them, and its graph has
  -- the nodes and the edges that its mode asks for, each with its link and none on a cycle, within
  -- the limits on latency and transfer.
  pub validate_legacy_iff :
      (round : FederatedRoundPlan F) (plan : PartitionExecutionPlan F)
      → Accepts round plan ↔ IsSound floats round plan
  validate_legacy_iff round plan = (
    λ a. clean-IsSound round plan (Accepts-clean round plan a),
    λ s. clean-Accepts round plan (IsSound-clean round plan s),
  )

  -- The validator raises a `ValueError` exactly if the selected candidate has a partition with no
  -- layer on the known device of a participant.
  pub validate_legacy-Raises :
      (round : FederatedRoundPlan F) (plan : PartitionExecutionPlan F)
      → (validate_legacy floats round plan ≡ err empty_max) ↔ (
          (selected : PartitionCandidate F) × (plan.selected_candidate ≡ some selected)
          × Raises floats round selected.partitions)
  unfolding validate_legacy
  validate_legacy-Raises round plan = elim (Option-cases plan.selected_candidate) [
    | inl e ↦ rw (legacy_errors-none round plan e) (λ h. cc, λ (c, f, r). cc (sym e ∙ f))
    | inr (c, e) ↦ rw (legacy_errors-some round plan c e) (
      λ h. elim (Result-cases (partition_errors floats round c.partitions)) [
        | inl (placed, f) ↦ cc (rw f at h)
        | inr (empty_max, f) ↦ (c, e, (partition_errors-Raises floats round c.partitions).0 f)
      ],
      λ (d, f, r).
          let same : d ≡ c = ground (arith, e, f) in
          rw
            ((partition_errors-Raises floats round c.partitions).1
              (subst (λ x. Raises floats round x.partitions) same r))
            refl,
    )
  ]

  -- A result without an error says that the plan is valid.
  pub no_errors-Accepts :
      (round : FederatedRoundPlan F) (plan : PartitionExecutionPlan F)
      (r : PartitionValidationResult)
      → validate_legacy floats round plan ≡ ok r
      → r.errors ≡ []
      → Accepts round plan
  unfolding validate_legacy result
  no_errors-Accepts round plan r e n =
      let (es, f, g) = passed _ (legacy_errors floats round plan) e in
      let same : result es checked_rules ≡ r = ground arith in
      (r, e, subst (λ x. x.valid ≡ true) same (ground (arith, ap (λ x. x.errors) same, n)))
