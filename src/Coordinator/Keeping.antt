-- ===== src/Coordinator/Keeping.antt =====
-- src/aiops_k8s_agents/mutual_supervision.py: what the steps of the loop of
-- `MutualSupervisionCoordinator.run` keep.
use aiops_research.Base.{
  ℕ, suc, ◌*◌, ◌≤◌, ℤ, Bool, true, false, List, [], ◌∷◌, ◌++◌, Text, length, length-append, All,
  Result, Bool-cases, ◌≡◌, refl, inl, inr, arith, if◌then◌else◌,
}
use aiops_research.Floats.{Floats}
use native.Mathlib.Nat.{mul-le-mul_right}
use aiops_research.Actions.{RecoveryAction, CommandResult}
use aiops_research.Protocol.{ResearchProtocolProfile}
use aiops_research.Monitor.{RecoveryAssessment}
use aiops_research.Coordinator.State.{
  RunError, World, safe_stopped, recovered, recovered_after_replan, ReplanReason, Report, Progress,
  is_dry,
}
use aiops_research.Coordinator.Attempts.{
  Coordinator, base_report, exhausted, replan, note_execution, note_assessment,
}
use aiops_research.Coordinator.Invariant.{
  is_success, claims_recovery, IsSound, IsKept, IsGood, Good, most,
}

All-snoc :
    (P : RecoveryAction → Type 0) (bs : List RecoveryAction) (a : RecoveryAction)
    → All P bs
    → P a
    → All P (bs ++ a ∷ [])
All-snoc P [] a v h = (h, tt)
All-snoc P (b ∷ bs) a (w, v) h = (w, All-snoc P bs a v h)

snoc_few :
    (bs : List RecoveryAction) (a : RecoveryAction) (i : ℕ)
    → length bs ≤ i
    → length (bs ++ a ∷ []) ≤ suc i
snoc_few bs a i h = ground (arith, length-append bs (a ∷ []), h)

module _ (floats : Floats) (hash : ResearchProtocolProfile floats → Text) (c : Coordinator floats)
    (world : World) (namespace deployment proposer : Text) where
  abbrev Sound : RecoveryAction → Type 0
  Sound = IsSound floats hash c world namespace deployment proposer

  abbrev Kept : ℕ → ℕ → Progress → Type 0
  Kept = IsKept floats hash c world namespace deployment proposer

  abbrev Fine : ℕ → Report → Type 0
  Fine = IsGood floats hash c world namespace deployment proposer

  abbrev Ends : ℕ → Result RunError Report → Type 0
  Ends = Good floats hash c world namespace deployment proposer

  abbrev most_rounds : ℕ
  most_rounds = most floats hash c world namespace deployment proposer

  module _ (limit : ℤ) where
    pub fewer_rounds :
        (k n : ℕ) (p : Progress)
        → k ≤ n
        → length p.rounds ≤ k * most_rounds
        → length p.rounds ≤ n * most_rounds
    fewer_rounds k n p h v = omega (arith, mul-le-mul_right most_rounds h)

    pub exhausted-IsGood :
        (i n : ℕ) (p : Progress)
        → i ≤ n
        → Kept i i p
        → Fine n (exhausted floats hash c world namespace deployment proposer limit p)
    unfolding exhausted base_report
    exhausted-IsGood i n p room v = record {
      sound = v.sound;
      executed_sound = v.executed_sound;
      few = omega (arith, v.few, room);
      short = fewer_rounds i n p room v.short;
      dry = λ h. (v.dry h, refl);
      success = refl;
      proven = λ h. cc;
      asks = λ h. refl;
    }

    -- A report that stops the run before the action of this attempt is executed.
    pub stopped-IsGood :
        (d k n : ℕ) (p : Progress) (r : Report)
        → r.dispatched ≡ p.dispatched
        → r.rounds ≡ p.rounds
        → r.executed_actions ≡ []
        → r.final_status ≡ safe_stopped
        → r.valid ≡ false
        → (c.protocol.human_review_on_failure ≡ true → r.human_review_required ≡ true)
        → d ≤ n
        → k ≤ n
        → Kept d k p
        → Fine n r
    stopped-IsGood d k n p r e f g st w human dn kn v = record {
      sound = rw e v.sound;
      executed_sound = rw g tt;
      few = rw e (omega (arith, v.few, dn));
      short = rw f (fewer_rounds k n p kn v.short);
      dry = λ h. (g, rw st refl);
      success = rw (st, w) refl;
      proven = rw st (λ h. cc);
      asks = λ h. rw (human h, w, st) refl;
    }

    pub status_claims :
        (b : Bool)
        → (true ≡ is_success (if b then recovered else recovered_after_replan))
          × (claims_recovery (if b then recovered else recovered_after_replan) ≡ true)
    status_claims true = (refl, refl)
    status_claims false = (refl, refl)

    pub replan-IsKept :
        (d k i : ℕ) (a : RecoveryAction) (why : ReplanReason) (p : Progress)
        → Kept d k p
        → Kept d k (replan floats hash c world namespace deployment proposer limit i a why p)
    replan-IsKept d k i a why p v = record {
      sound = v.sound;
      executed_sound = v.executed_sound;
      few = v.few;
      short = v.short;
      dry = v.dry;
    }

    pub note_execution-IsKept :
        (i : ℕ) (a : RecoveryAction) (execution : CommandResult) (p : Progress)
        → Sound a
        → Kept i (suc i) p
        → Kept
            (suc i)
            (suc i)
            (note_execution floats hash c world namespace deployment proposer limit a execution p)
    note_execution-IsKept i a execution p sound v = record {
      sound = All-snoc Sound p.dispatched a v.sound sound;
      executed_sound = v.executed_sound;
      few = snoc_few p.dispatched a i v.few;
      short = v.short;
      dry = v.dry;
    }

    pub note_assessment-IsKept :
        (i : ℕ) (a : RecoveryAction) (execution : CommandResult) (assessment : RecoveryAssessment)
        (p : Progress)
        → is_dry c.mode ≡ false
        → Sound a
        → Kept (suc i) (suc i) p
        → Kept (suc i) (suc i) (
            note_assessment floats hash c world namespace deployment proposer limit a execution
              assessment p)
    note_assessment-IsKept i a execution assessment p wet sound v = record {
      sound = v.sound;
      executed_sound = elim (Bool-cases execution.valid) [
        | inl e ↦ rw e (All-snoc Sound p.executed a v.executed_sound sound)
        | inr e ↦ rw e v.executed_sound
      ];
      few = v.few;
      short = v.short;
      dry = λ h. cc;
    }
