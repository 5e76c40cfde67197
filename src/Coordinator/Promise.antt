-- ===== src/Coordinator/Promise.antt =====
-- src/aiops_k8s_agents/mutual_supervision.py: what a run of the coordinator promises.
use aiops_research.Base.{
  ℕ, zero, suc, ◌+◌, ◌*◌, ◌≤◌, pos, ltb, true, false, not, ◌&&◌, ◌||◌, List, [], ◌∷◌, Text, codes,
  length, All, Option, none, some, Result, ok, err, ◌>>◌, Bool-cases, Result-cases, ◌≡◌, refl,
  subst, inl, inr, arith,
}
use aiops_research.Floats.{Floats}
use aiops_research.Actions.{RecoveryAction}
use aiops_research.Executor.{dry_run}
use aiops_research.Protocol.{ProfileError, ResearchProtocolProfile, validate_integrity}
use aiops_research.Coordinator.{SupervisionDecision, SemanticError, OutputError}
use aiops_research.Coordinator.Outputs.{Diagnosis}
use aiops_research.Coordinator.Negotiation.{count_of}
use aiops_research.Coordinator.State.{
  RunError, unsound_profile, raised, World, ConfigurationError, Report, take, slice, attempt_limit,
  capable, required_capability_errors,
}
use aiops_research.Coordinator.Attempts.{Coordinator, base_report}
use aiops_research.Coordinator.Run.{
  is_unknown, configuration_failure, first_name, limit_of, try_candidates, after_proposal,
  after_diagnosis, with_capabilities, after_collection, sound_profile, run,
}
use aiops_research.Coordinator.Invariant.{
  is_success, is_idle, claims_recovery, IsCalm, IsSound, IsProven, IsGood, Good,
}
use aiops_research.Coordinator.Safety.{attempts-Good}

length-take : {A : Type 0} (n : ℕ) (items : List A) → length (take n items) ≤ n
length-take zero items = omega arith
length-take (suc n) [] = omega arith
length-take (suc n) (a ∷ items) = omega (arith, length-take n items)

not_above : (m k : ℕ) → ltb (suc m) k ≡ false → k ≤ suc m
not_above m k h = ground (arith, h)

length-slice :
    {A : Type 0} (m : ℕ) (items : List A)
    → length (slice (attempt_limit (length items) (pos m)) items) + 0 ≤ suc m
length-slice m items = elim (Bool-cases (ltb (suc m) (length items))) [
  | inl e ↦ rw e (omega (arith, length-take (suc m) items))
  | inr e ↦ rw e (omega (arith, length-take (length items) items, not_above m (length items) e))
]

module _ (floats : Floats) (hash : ResearchProtocolProfile floats → Text) (c : Coordinator floats)
    (world : World) (namespace deployment : Text) where
  abbrev pub proposer : Text
  proposer = first_name (capable (codes "propose") c.adapters)

  abbrev IsFine : ℕ → Report → Type 0
  IsFine = IsGood floats hash c world namespace deployment proposer

  abbrev Fine : ℕ → Result RunError Report → Type 0
  Fine = Good floats hash c world namespace deployment proposer

  -- A report from before the first negotiation.
  early-IsGood :
      (n : ℕ) (r : Report)
      → r.dispatched ≡ []
      → r.rounds ≡ []
      → r.executed_actions ≡ []
      → r.valid ≡ false
      → is_success r.final_status ≡ false
      → claims_recovery r.final_status ≡ false
      → (c.protocol.human_review_on_failure ≡ true
          → r.human_review_required ≡ not (is_idle r.final_status))
      → IsFine n r
  early-IsGood n r d k e w s t asks = record {
    sound = rw d tt;
    executed_sound = rw e tt;
    few = rw d (omega arith);
    short = rw k (omega arith);
    dry = λ h. (e, t);
    success = rw (w, s) refl;
    proven = rw t (λ h. cc);
    asks = λ h. rw (asks h, w) refl;
  }

  module _ (m : ℕ) (enough : c.protocol.max_replan_attempts ≡ pos m) where
    abbrev FineM : Result RunError Report → Type 0
    FineM = Fine (suc m)

    few_candidates :
        (candidates : List RecoveryAction)
        → length (slice (limit_of floats hash c world namespace deployment candidates) candidates)
            + 0
          ≤ suc m
    few_candidates candidates = rw enough (length-slice m candidates)

    try_candidates-Good :
        (d : SupervisionDecision)
        (split : List RecoveryAction × List (RecoveryAction × SemanticError))
        → Fine (suc m) (try_candidates floats hash c world namespace deployment proposer d split)
    unfolding try_candidates
    try_candidates-Good d (candidates, refused) =
        attempts-Good floats hash c world namespace deployment proposer _ 0 (suc m) _ _
          (few_candidates candidates)
          (record {
            sound = tt;
            executed_sound = tt;
            few = omega arith;
            short = omega arith;
            dry = λ h. refl;
          })

    after_proposal-Good :
        (d : SupervisionDecision) (r : Result OutputError (List RecoveryAction))
        → Fine (suc m) (after_proposal floats hash c world namespace deployment proposer d r)
    unfolding after_proposal base_report
    after_proposal-Good d (err e) = early-IsGood (suc m) _ refl refl refl refl refl refl (λ h. h)
    after_proposal-Good d (ok proposed) = try_candidates-Good d _

    after_diagnosis-Good :
        (diagnoser : Text) (r : Result OutputError (Diagnosis × SupervisionDecision))
        → Fine (suc m) (after_diagnosis floats hash c world namespace deployment diagnoser r)
    unfolding after_diagnosis configuration_failure base_report
    after_diagnosis-Good diagnoser (err e) =
        early-IsGood (suc m) _ refl refl refl refl refl refl (λ h. h)
    after_diagnosis-Good diagnoser (ok (diagnosis, d)) = elim (Bool-cases d.approved) [
      | inl e ↦ simp (e) (after_proposal-Good d _)
      | inr e ↦ elim (Bool-cases (is_unknown diagnosis.cause && diagnosis.missing_evidence)) [
        | inl f ↦ simp (e, f) (early-IsGood (suc m) _ refl refl refl refl refl refl (λ h. h))
        | inr f ↦ simp (e, f) (early-IsGood (suc m) _ refl refl refl refl refl refl (λ h. refl))
      ]
    ]

    after_collection-Good :
        (o : Option Text)
        → (IsCalm world → o ≡ none)
        → Fine (suc m) (after_collection floats hash c world namespace deployment o)
    unfolding after_collection
    after_collection-Good (some message) returns = (tt, omega arith, λ calm. cc (returns calm))
    after_collection-Good none returns = after_diagnosis-Good _ _

    with_capabilities-Good :
        (errors : List ConfigurationError)
        → Fine (suc m) (with_capabilities floats hash c world namespace deployment errors)
    unfolding with_capabilities configuration_failure base_report
    with_capabilities-Good [] = after_collection-Good world.uncollected (λ calm. calm.collects)
    with_capabilities-Good (e ∷ es) = early-IsGood (suc m) _ refl refl refl refl refl refl (λ h. h)

    profile-Good :
        (checked : Result ProfileError (Unit {0}))
        → validate_integrity floats hash c.protocol ≡ checked
        → FineM (
            sound_profile floats hash c world namespace deployment checked
            >> with_capabilities floats hash c world namespace deployment
                (required_capability_errors c.adapters))
    profile-Good (ok tt) e = with_capabilities-Good (required_capability_errors c.adapters)
    profile-Good (err x) e = λ sane. cc

    run-Good : Fine (suc m) (run floats hash c world namespace deployment)
    unfolding run
    run-Good = profile-Good (validate_integrity floats hash c.protocol) refl

    -- Whatever the agents and the cluster answer: each action that a run that returns gives to the executor, and
    -- each that its report lists as executed, is safe for the validator, allowed by the protocol for the target of the
    -- run, and endorsed by the agents.
    pub run_dispatches-IsSound :
        (r : Report)
        → run floats hash c world namespace deployment ≡ ok r
        → All (IsSound floats hash c world namespace deployment proposer) r.dispatched
          × All (IsSound floats hash c world namespace deployment proposer) r.executed_actions
    run_dispatches-IsSound r h =
        let good = subst FineM h run-Good in (good.sound, good.executed_sound)

    -- With `m` as `max_replan_attempts`, a run gives at most m + 1 actions to the executor and records at most
    -- m + 1 times `max_negotiation_rounds` rounds.
    pub run_bounds :
        (r : Report)
        → run floats hash c world namespace deployment ≡ ok r
        → (length r.dispatched ≤ suc m)
          × (length r.rounds ≤ suc m * count_of c.protocol.max_negotiation_rounds)
    run_bounds r h = let good = subst FineM h run-Good in (good.few, good.short)

    -- A dry run reports no executed action and no recovery.
    pub run_dry :
        (r : Report)
        → c.mode ≡ dry_run
        → run floats hash c world namespace deployment ≡ ok r
        → (r.executed_actions ≡ []) × (claims_recovery r.final_status ≡ false)
    run_dry r e h = (subst FineM h run-Good).dry (rw e refl)

    -- A report that claims a recovery holds a valid result of the command, and an assessment of the monitor that
    -- saw the recovery.
    pub run_proves :
        (r : Report)
        → run floats hash c world namespace deployment ≡ ok r
        → claims_recovery r.final_status ≡ true
        → IsProven floats hash c world namespace deployment proposer r
    run_proves r h claims = (subst FineM h run-Good).proven claims

    -- A report is valid exactly for a recovery or a validated dry run; and, in a profile that wants it, human
    -- review is asked for exactly when the report is not valid and an action was required.
    pub run_asks :
        (r : Report)
        → c.protocol.human_review_on_failure ≡ true
        → run floats hash c world namespace deployment ≡ ok r
        → (r.valid ≡ is_success r.final_status)
          × (r.human_review_required ≡ not (r.valid || is_idle r.final_status))
    run_asks r wants h = let good = subst FineM h run-Good in (good.success, good.asks wants)

    pub run_returns :
        validate_integrity floats hash c.protocol ≡ ok tt
        → IsCalm world
        → (r : Report) × (run floats hash c world namespace deployment ≡ ok r)
    run_returns sane calm = elim (Result-cases (run floats hash c world namespace deployment)) [
      | inl (r, h) ↦ (r, h)
      | inr (unsound_profile e, h) ↦ absurd ((subst FineM h run-Good) sane)
      | inr (raised message dispatched, h) ↦ absurd ((subst FineM h run-Good).2 calm)
    ]

    -- If an exception of the evidence provider, the executor or the monitor leaves a run with `m` as
    -- `max_replan_attempts`, the executor had been given at most m + 1 actions, each of them safe for the
    -- validator, allowed by the protocol for the target of the run, and endorsed by the agents.
    pub run_raises-IsSound :
        (message : Text) (dispatched : List RecoveryAction)
        → run floats hash c world namespace deployment ≡ err (raised message dispatched)
        → All (IsSound floats hash c world namespace deployment proposer) dispatched
          × (length dispatched ≤ suc m)
    run_raises-IsSound message dispatched h =
        let (sound, few, stirred) = subst FineM h run-Good in (sound, few)
