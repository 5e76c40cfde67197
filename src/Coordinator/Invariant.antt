-- ===== src/Coordinator/Invariant.antt =====
-- src/aiops_k8s_agents/mutual_supervision.py: what is to hold of the loop of
-- `MutualSupervisionCoordinator.run` at every step, and of the report that it ends with.
use aiops_research.Base.{
  ℕ, ◌*◌, ◌≤◌, Bool, true, false, not, ◌||◌, none, some, [], Text, length, All, Result, ok, err,
  ◌≡◌,
}
use aiops_research.Floats.{Floats}
use aiops_research.Actions.{RecoveryAction, CommandResult}
use aiops_research.Validator.Safety.{IsSafe}
use aiops_research.Protocol.{ResearchProtocolProfile, validate_integrity}
use aiops_research.Monitor.{EvidenceSnapshot, RecoveryAssessment}
use aiops_research.Coordinator.Negotiation.{count_of}
use aiops_research.Coordinator.State.{
  RunError, unsound_profile, raised, World, FinalStatus, no_action_required, dry_run_validated,
  recovered, recovered_after_replan, Report, Progress, is_dry,
}
use aiops_research.Coordinator.Attempts.{Coordinator}
use aiops_research.Coordinator.Consent.{IsEndorsed}
use aiops_research.Coordinator.Sound.{IsAllowed}

abbrev pub is_success : FinalStatus → Bool
is_success recovered = true
is_success recovered_after_replan = true
is_success dry_run_validated = true
is_success _ = false

abbrev pub is_idle : FinalStatus → Bool
is_idle no_action_required = true
is_idle _ = false

abbrev pub claims_recovery : FinalStatus → Bool
claims_recovery recovered = true
claims_recovery recovered_after_replan = true
claims_recovery _ = false

-- Neither the evidence provider nor the executor nor the monitor raises.
pub record IsCalm (world : World) : Type 0 where
  pub collects : world.uncollected ≡ none
  pub executes : (i : ℕ) (a : RecoveryAction) → (x : CommandResult) × (world.execute i a ≡ ok x)
  pub observes : (i : ℕ) → (e : EvidenceSnapshot) × (world.after i ≡ ok e)
  pub assesses :
      (i : ℕ) (a : RecoveryAction) (before after : EvidenceSnapshot) (x : CommandResult)
      → (y : RecoveryAssessment) × (world.assess i a before after x ≡ ok y)

module _ (floats : Floats) (hash : ResearchProtocolProfile floats → Text) (c : Coordinator floats)
    (world : World) (namespace deployment proposer : Text) where
  -- What the executor is given: an action that the validator finds safe, that the protocol allows for the
  -- target of the run, and that the agents endorsed.
  pub record IsSound (a : RecoveryAction) : Type 0 where
    pub safe : IsSafe c.validator a
    pub allowed : IsAllowed c.protocol.action_space world.evidence namespace deployment a
    pub endorsed : IsEndorsed floats hash c.protocol c.adapters world.agents proposer a

  abbrev pub most : ℕ
  most = count_of c.protocol.max_negotiation_rounds

  -- After at most `d` executions and `k` negotiations.
  pub record IsKept (d k : ℕ) (p : Progress) : Type 0 where
    pub sound : All IsSound p.dispatched
    pub executed_sound : All IsSound p.executed
    pub few : length p.dispatched ≤ d
    pub short : length p.rounds ≤ k * most
    pub dry : is_dry c.mode ≡ true → p.executed ≡ []

  -- The monitor and the command of the report vouch for the recovery.
  abbrev pub IsProven : Report → Type 0
  IsProven r =
      (r.execution_result.valid ≡ true)
      × ((a : RecoveryAssessment) × (r.recovery_monitoring ≡ some a) × (a.recovery_success ≡ true))

  pub record IsGood (n : ℕ) (r : Report) : Type 0 where
    pub sound : All IsSound r.dispatched
    pub executed_sound : All IsSound r.executed_actions
    pub few : length r.dispatched ≤ n
    pub short : length r.rounds ≤ n * most
    pub dry :
        is_dry c.mode ≡ true → (r.executed_actions ≡ []) × (claims_recovery r.final_status ≡ false)
    pub success : r.valid ≡ is_success r.final_status
    pub proven : claims_recovery r.final_status ≡ true → IsProven r
    pub asks :
        c.protocol.human_review_on_failure ≡ true
        → r.human_review_required ≡ not (r.valid || is_idle r.final_status)

  abbrev pub Good : ℕ → Result RunError Report → Type 0
  Good n (ok r) = IsGood n r
  Good n (err (unsound_profile e)) = ¬ (validate_integrity floats hash c.protocol ≡ ok tt)
  Good n (err (raised message dispatched)) =
      All IsSound dispatched × (length dispatched ≤ n) × ¬ IsCalm world
