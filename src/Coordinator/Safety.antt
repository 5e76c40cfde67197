-- ===== src/Coordinator/Safety.antt =====
-- src/aiops_k8s_agents/mutual_supervision.py: what holds of the loop of `MutualSupervisionCoordinator.run` at
-- every step, and of the report that it ends with.
use aiops_research.Base.{
  ℕ, suc, ◌+◌, ◌*◌, ◌≤◌, ℤ, List, [], ◌∷◌, Text, length, length-append, Result, ◌≡◌, refl, arith,
}
use aiops_research.Floats.{Floats}
use aiops_research.Actions.{RecoveryAction}
use aiops_research.Protocol.{ResearchProtocolProfile}
use aiops_research.Coordinator.Negotiation.{Trace, Negotiated, agreed, declined, failed, unsound}
use aiops_research.Coordinator.State.{RunError, World, Report, Progress}
use aiops_research.Coordinator.Attempts.{
  Coordinator, base_report, extend, Next, after_negotiation, attempts,
}
use aiops_research.Coordinator.Consent.{IsHonest, negotiate-IsHonest}
use aiops_research.Coordinator.Invariant.{IsSound, IsKept, IsGood, Good, most}
use aiops_research.Coordinator.Keeping.{exhausted-IsGood, stopped-IsGood}
use aiops_research.Coordinator.Steps.{GoodNext, attempt_agreed-Good}

suc_times : (i m : ℕ) → suc i * m ≡ m + i * m
suc_times i m = omega arith

module _ (floats : Floats) (hash : ResearchProtocolProfile floats → Text) (c : Coordinator floats)
    (world : World) (namespace deployment proposer : Text) where
  abbrev Sound : RecoveryAction → Type 0
  Sound = IsSound floats hash c world namespace deployment proposer

  abbrev Kept : ℕ → ℕ → Progress → Type 0
  Kept = IsKept floats hash c world namespace deployment proposer

  abbrev Fine : ℕ → Report → Type 0
  Fine = IsGood floats hash c world namespace deployment proposer

  abbrev Ends : ℕ → Result RunError Report → Type 0
  Ends = Good floats hash c world namespace deployment proposer

  abbrev most_rounds : ℕ
  most_rounds = most floats hash c world namespace deployment proposer

  module _ (limit : ℤ) where
    extend-IsKept :
        (i : ℕ) (p : Progress) (t : Trace)
        → length t.rounds ≤ most_rounds
        → Kept i i p
        → Kept i (suc i) (extend p t)
    extend-IsKept i p t h v = record {
      sound = v.sound;
      executed_sound = v.executed_sound;
      few = v.few;
      short = ground (arith, length-append p.rounds t.rounds, v.short, h, suc_times i most_rounds);
      dry = v.dry;
    }

    after_negotiation-Good :
        (i n : ℕ) (next : Next floats hash c world namespace deployment proposer limit)
        (p : Progress) (o : Negotiated)
        → suc i ≤ n
        → GoodNext floats hash c world namespace deployment proposer limit (suc i) n next
        → IsHonest floats hash c.protocol c.adapters world.agents proposer most_rounds o
        → Kept i i p
        → Ends n
            (after_negotiation floats hash c world namespace deployment proposer limit i next p o)
    unfolding after_negotiation base_report
    after_negotiation-Good i n next p (unsound e) room goes_on honest v = honest
    after_negotiation-Good i n next p (failed f t) room goes_on honest v =
        stopped-IsGood floats hash c world namespace deployment proposer limit i (suc i) n
          (extend p t) _ refl refl refl refl refl (λ h. h) (omega (arith, room)) room
          (extend-IsKept i p t honest v)
    after_negotiation-Good i n next p (declined t) room goes_on honest v =
        stopped-IsGood floats hash c world namespace deployment proposer limit i (suc i) n
          (extend p t) _ refl refl refl refl refl (λ h. refl) (omega (arith, room)) room
          (extend-IsKept i p t honest v)
    after_negotiation-Good i n next p (agreed a t) room goes_on (endorsed, short) v =
        attempt_agreed-Good floats hash c world namespace deployment proposer limit i n room next
          goes_on a (extend p t) _ refl endorsed (extend-IsKept i p t short v)

    pub attempts-Good :
        (i n : ℕ) (candidates : List RecoveryAction) (p : Progress)
        → length candidates + i ≤ n
        → Kept i i p
        → Ends n (attempts floats hash c world namespace deployment proposer limit i candidates p)
    unfolding attempts
    attempts-Good i n [] p room v =
        exhausted-IsGood floats hash c world namespace deployment proposer limit i n p
          (omega (arith, room)) v
    attempts-Good i n (candidate ∷ candidates) p room v =
        after_negotiation-Good i n _ p _ (omega (arith, room))
          (λ q kept. attempts-Good (suc i) n candidates q (omega (arith, room)) kept)
          (negotiate-IsHonest floats hash c.protocol c.adapters world.agents proposer world.evidence
            candidate (length p.rounds))
          v
