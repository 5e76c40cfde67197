-- ===== src/Partition/Validator/Sound.antt =====
-- What makes a plan fit for execution, and the checks of `_validate_legacy` on the plan as a whole.
use aiops_research.Base.{
  ◌==◌, ==_iff, ◌≡◌, ◌≢◌, refl, ◌↔◌, ◌⊎◌, inl, inr, Bool, true, false, not, ◌&&◌, some, [], ◌∷◌,
  map, In, Text, length, text_eq, text_eq_iff, Bool-cases, arith, &&-eq-true, all, all-In,
  all-of_In,
}
use aiops_research.Floats.{Floats}
use aiops_research.Python.Dicts.{put_items}
use aiops_research.Partition.{
  ApprovedExecutionMode, FederatedRoundPlan, LogicalPartition, PartitionCandidate,
  PartitionExecutionPlan,
}
use aiops_research.Partition.Validator.{
  training, federated_learning, texts_eq, is_approved, is_empty,
}
use aiops_research.Partition.Validator.Graph.{by_id}
use aiops_research.Partition.Validator.Legacy.{
  coverage, is_replicated, layer_names_of, identity_errors, candidate_errors,
}
use aiops_research.Partition.Validator.Errors.{both_nil, fail_of, unless_of, texts_eq_iff}
use aiops_research.Partition.Validator.Placed.{IsPlaced}
use aiops_research.Partition.Validator.Executable.{IsExecutable}

-- The mode was approved by someone, on record.
pub record IsApproved (mode : ApprovedExecutionMode) : Type 0 where
  pub approved : mode.approved ≡ true
  pub by : mode.approved_by ≢ []
  pub on_record : mode.approval_ref ≢ []

is_approved-IsApproved :
    (mode : ApprovedExecutionMode) → (is_approved mode ≡ true) ↔ IsApproved mode
is_approved-IsApproved mode = (
  λ h.
      let (ab, c) = &&-eq-true _ (not (is_empty mode.approval_ref)) h in
      let (a, b) = &&-eq-true mode.approved (not (is_empty mode.approved_by)) ab in
      record {
        approved = a;
        by = filled mode.approved_by b;
        on_record = filled mode.approval_ref c;
      },
  λ h.
      ground
        (arith, h.approved, filled' mode.approved_by h.by, filled' mode.approval_ref h.on_record),
)
  where
    filled : (t : Text) → not (is_empty t) ≡ true → t ≢ []
    filled [] h = λ e. cc
    filled (c ∷ t) h = λ e. cc

    filled' : (t : Text) → t ≢ [] → not (is_empty t) ≡ true
    filled' [] h = absurd (h refl)
    filled' (c ∷ t) h = refl

and_iff : (a b : Bool) → ((a && b) ≡ true) ↔ ((a ≡ true) × (b ≡ true))
and_iff a b = (&&-eq-true a b, λ (p, q). ground (arith, p, q))

module _ (floats : Floats) where
  open floats use {F}

  -- Every participant trains the whole model.
  pub record IsReplicated (round : FederatedRoundPlan F) (plan : PartitionExecutionPlan F)
      (selected : PartitionCandidate F) : Type 0 where
    pub trains : plan.plan_type ≡ training
    pub federated : plan.approved_execution_mode ≡ federated_learning
    pub one_each : length selected.partitions ≡ length round.participants
    pub whole :
        (p : LogicalPartition F)
        → In p selected.partitions
        → p.layer_names ≡ layer_names_of floats round

  -- The partitions carry the layers of the model, each layer once and in order, or all of them each.
  abbrev pub IsCovered :
      FederatedRoundPlan F → PartitionExecutionPlan F → PartitionCandidate F → Type 0
  IsCovered round plan selected =
      IsReplicated round plan selected
      ⊎ (coverage floats selected.partitions ≡ layer_names_of floats round)

  -- What a plan that is fit for execution satisfies.
  pub record IsSound (round : FederatedRoundPlan F) (plan : PartitionExecutionPlan F) : Type 0 where
    pub job : plan.job_id ≡ round.job_id
    pub model : plan.model_id ≡ round.model_id
    pub mode : plan.approved_execution_mode ≡ round.execution_mode.name
    pub approved : IsApproved round.execution_mode
    pub selected : PartitionCandidate F
    pub chosen : plan.selected_candidate ≡ some selected
    pub plan_valid : plan.valid ≡ true
    pub candidate_valid : selected.valid ≡ true
    pub covered : IsCovered round plan selected
    pub distinct :
        length (put_items [] (map (by_id floats) selected.partitions)) ≡ length selected.partitions
    pub placed : (p : LogicalPartition F) → In p selected.partitions → IsPlaced floats round p
    pub executable : IsExecutable floats round plan selected

  is_replicated-IsReplicated :
      (round : FederatedRoundPlan F) (plan : PartitionExecutionPlan F)
      (selected : PartitionCandidate F)
      → (is_replicated floats round plan selected ≡ true) ↔ IsReplicated round plan selected
  unfolding is_replicated
  is_replicated-IsReplicated round plan selected =
      let whole =
        λ (p : LogicalPartition F). texts_eq p.layer_names (layer_names_of floats round) in
      let same_length = length selected.partitions == length round.participants in
      (
        λ h.
            let (abc, d) = &&-eq-true _ (all whole selected.partitions) h in
            let (ab, c) = &&-eq-true _ same_length abc in
            let (a, b) =
              &&-eq-true (text_eq plan.plan_type training)
                (text_eq plan.approved_execution_mode federated_learning) ab in
            record {
              trains = (text_eq_iff plan.plan_type training).0 a;
              federated = (text_eq_iff plan.approved_execution_mode federated_learning).0 b;
              one_each = (==_iff (length selected.partitions) (length round.participants)).0 c;
              whole = λ p m. (texts_eq_iff _ _).0 (all-In whole selected.partitions d p m);
            },
        λ r. ground (
          arith,
          (text_eq_iff plan.plan_type training).1 r.trains,
          (text_eq_iff plan.approved_execution_mode federated_learning).1 r.federated,
          r.one_each,
          all-of_In whole selected.partitions (λ p m. (texts_eq_iff _ _).1 (r.whole p m)),
        ),
      )

  IsCovered-iff :
      (round : FederatedRoundPlan F) (plan : PartitionExecutionPlan F)
      (selected : PartitionCandidate F)
      → ((not (is_replicated floats round plan selected)
            && not (texts_eq (coverage floats selected.partitions) (layer_names_of floats round)))
          ≡ false)
        ↔ IsCovered round plan selected
  IsCovered-iff round plan selected =
      let same = texts_eq_iff (coverage floats selected.partitions) (layer_names_of floats round) in
      elim (Bool-cases (is_replicated floats round plan selected)) [
        | inl whole ↦ (
          λ h. inl ((is_replicated-IsReplicated round plan selected).0 whole),
          λ c. rw whole refl,
        )
        | inr parts ↦ (
          λ h. inr (same.0 (ground (arith, parts, h))),
          λ c. elim c [
            | inl r ↦ cc (parts, (is_replicated-IsReplicated round plan selected).1 r)
            | inr e ↦ ground (arith, parts, same.1 e)
          ],
        )
      ]

  pub identity_iff :
      (round : FederatedRoundPlan F) (plan : PartitionExecutionPlan F)
      → (identity_errors floats round plan ≡ []) ↔ (
          (plan.job_id ≡ round.job_id)
          × ((plan.model_id ≡ round.model_id)
              × ((plan.approved_execution_mode ≡ round.execution_mode.name)
                  × IsApproved round.execution_mode)))
  unfolding identity_errors
  identity_iff round plan = both_nil _ _ (unless_of _ _ (text_eq_iff plan.job_id round.job_id)) (
      both_nil _ _ (unless_of _ _ (text_eq_iff plan.model_id round.model_id)) (
        both_nil _ _
          (unless_of _ _ (text_eq_iff plan.approved_execution_mode round.execution_mode.name))
          (unless_of _ _ (is_approved-IsApproved round.execution_mode))))

  pub candidate_iff :
      (round : FederatedRoundPlan F) (plan : PartitionExecutionPlan F)
      (selected : PartitionCandidate F)
      → (candidate_errors floats round plan selected ≡ []) ↔ (
          ((plan.valid ≡ true) × (selected.valid ≡ true))
          × (IsCovered round plan selected
              × (length (put_items [] (map (by_id floats) selected.partitions))
                  ≡ length selected.partitions)))
  unfolding candidate_errors
  candidate_iff round plan selected =
      both_nil _ _ (unless_of _ _ (and_iff plan.valid selected.valid)) (
        both_nil _ _ (fail_of _ _ (IsCovered-iff round plan selected)) (
          unless_of _ _ (
            ==_iff (length (put_items [] (map (by_id floats) selected.partitions)))
              (length selected.partitions))))
