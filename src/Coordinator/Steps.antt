-- ===== src/Coordinator/Steps.antt =====
-- src/aiops_k8s_agents/mutual_supervision.py: what holds of one attempt of
-- `MutualSupervisionCoordinator.run`, up to the report that may end it.
use aiops_research.Base.{
  ℕ, suc, ◌≤◌, ℤ, false, not, ◌&&◌, Option, none, some, ok, err, Text, all, ◌==◌, Result,
  Bool-cases, &&-eq-true, ◌≡◌, refl, inl, inr, arith,
}
use aiops_research.Floats.{Floats}
use aiops_research.Actions.{RecoveryAction, CommandResult}
use aiops_research.Protocol.{ResearchProtocolProfile}
use aiops_research.Monitor.{EvidenceSnapshot, RecoveryAssessment}
use aiops_research.Coordinator.{SemanticError, action_semantic_error}
use aiops_research.Coordinator.Outputs.{PostExecutionReview}
use aiops_research.Coordinator.State.{
  RunError, World, semantic, Validation, not_validated, valid_command, invalid_command,
  semantic_failure, Report, Progress, is_dry, validate_action,
}
use aiops_research.Coordinator.Attempts.{
  Coordinator, note_execution, base_report, PostReviews, post_execution_reviews, Next, conclude,
  operate, lock_and_operate, act_on, attempt_agreed, after_observation, after_execution_of, observe,
  is_recovered, needs_lock,
}
use aiops_research.Coordinator.Consent.{IsEndorsed}
use aiops_research.Coordinator.Sound.{action_semantic_error-IsAllowed, validate_action-IsSafe}
use aiops_research.Coordinator.Invariant.{IsCalm, IsSound, IsKept, IsGood, Good, most}
use aiops_research.Coordinator.Keeping.{
  fewer_rounds, stopped-IsGood, status_claims, replan-IsKept, note_execution-IsKept,
  note_assessment-IsKept,
}

module _ (floats : Floats) (hash : ResearchProtocolProfile floats → Text) (c : Coordinator floats)
    (world : World) (namespace deployment proposer : Text) where
  abbrev Sound : RecoveryAction → Type 0
  Sound = IsSound floats hash c world namespace deployment proposer

  abbrev Kept : ℕ → ℕ → Progress → Type 0
  Kept = IsKept floats hash c world namespace deployment proposer

  abbrev Fine : ℕ → Report → Type 0
  Fine = IsGood floats hash c world namespace deployment proposer

  abbrev Ends : ℕ → Result RunError Report → Type 0
  Ends = Good floats hash c world namespace deployment proposer

  abbrev most_rounds : ℕ
  most_rounds = most floats hash c world namespace deployment proposer

  module _ (limit : ℤ) where
    abbrev pub GoodNext :
        ℕ → ℕ → Next floats hash c world namespace deployment proposer limit → Type 0
    GoodNext i n next = (p : Progress) → Kept i i p → Ends n (next p)

    module _ (i n : ℕ) (room : suc i ≤ n)
        (next : Next floats hash c world namespace deployment proposer limit)
        (goes_on : GoodNext (suc i) n next) (a : RecoveryAction) where
      -- After the execution of this attempt.
      conclude-Good :
          (validation : Validation) (execution : CommandResult) (assessment : RecoveryAssessment)
          (p : Progress) (reviews : PostReviews)
          → is_dry c.mode ≡ false
          → Kept (suc i) (suc i) p
          → Ends n (
              conclude floats hash c world namespace deployment proposer limit i next a validation
                execution assessment p reviews)
      unfolding conclude base_report
      conclude-Good validation execution assessment p (reviews, some (name, e)) wet v = record {
        sound = v.sound;
        executed_sound = v.executed_sound;
        few = omega (arith, v.few, room);
        short =
            fewer_rounds floats hash c world namespace deployment proposer limit (suc i) n p room
              v.short;
        dry = λ h. cc;
        success = refl;
        proven = λ h. cc;
        asks = λ h. rw h refl;
      }
      conclude-Good validation execution assessment p (reviews, none) wet v =
          elim (Bool-cases (
            is_recovered floats hash c world namespace deployment proposer limit execution
              assessment reviews)) [
                | inr e ↦ simp (e) (
                    goes_on _ (record {
                      sound = v.sound;
                      executed_sound = v.executed_sound;
                      few = v.few;
                      short = v.short;
                      dry = v.dry;
                    }))
                | inl e ↦ simp (e) (
                    let vouched =
                      &&-eq-true execution.valid
                        (assessment.recovery_success
                          && all (λ (r : PostExecutionReview). r.approved) reviews)
                        e in
                    record {
                      sound = v.sound;
                      executed_sound = v.executed_sound;
                      few = omega (arith, v.few, room);
                      short =
                          fewer_rounds floats hash c world namespace deployment proposer limit
                            (suc i) n p room v.short;
                      dry = λ h. cc;
                      success =
                          (status_claims floats hash c world namespace deployment proposer limit
                            (i == 0)).0;
                      proven = λ h. (
                        vouched.0,
                        (assessment, refl, (&&-eq-true assessment.recovery_success _ vouched.1).0),
                      );
                      asks = λ h. refl;
                    })
              ]

      abbrev observed :
          ℕ → RecoveryAction → CommandResult → Result Text (EvidenceSnapshot × RecoveryAssessment)
      observed = observe floats hash c world namespace deployment proposer limit

      abbrev noted : RecoveryAction → CommandResult → Progress → Progress
      noted = note_execution floats hash c world namespace deployment proposer limit

      observed_calmly :
          (execution : CommandResult)
          → IsCalm world
          → (x : EvidenceSnapshot × RecoveryAssessment) × (observed i a execution ≡ ok x)
      observed_calmly execution calm =
          let (after, e) = calm.observes i in
          let (y, f) = calm.assesses i a world.evidence after execution in
          ((after, y), rw e (rw f refl))

      after_observation-Good :
          (w : Validation) (execution : CommandResult) (p : Progress)
          → Sound a
          → is_dry c.mode ≡ false
          → Kept (suc i) (suc i) (noted a execution p)
          → (seen : Result Text (EvidenceSnapshot × RecoveryAssessment))
          → (IsCalm world → (x : EvidenceSnapshot × RecoveryAssessment) × (seen ≡ ok x))
          → Ends n (
              after_observation floats hash c world namespace deployment proposer limit i next a w
                execution
                (noted a execution p)
                seen)
      unfolding after_observation
      after_observation-Good w execution p sound wet q (err message) returns =
          (q.sound, omega (arith, q.few, room), λ calm. let (x, e) = returns calm in cc)
      after_observation-Good w execution p sound wet q (ok (after, assessment)) returns =
          conclude-Good w execution assessment _
            (post_execution_reviews (λ name. world.post_review i name a assessment after)
              c.adapters)
            wet
            (note_assessment-IsKept floats hash c world namespace deployment proposer limit i a
              execution assessment _ wet sound q)

      after_execution_of-Good :
          (w : Validation) (p : Progress)
          → Sound a
          → Kept i (suc i) p
          → (answer : Result Text CommandResult)
          → (IsCalm world → (x : CommandResult) × (answer ≡ ok x))
          → Ends n (
              after_execution_of floats hash c world namespace deployment proposer limit i next a w
                p answer)
      unfolding after_execution_of base_report
      after_execution_of-Good w p sound v (err message) returns =
          let q =
            note_execution-IsKept floats hash c world namespace deployment proposer limit i a
              p.last_execution p sound v in
          (q.sound, omega (arith, q.few, room), λ calm. let (x, e) = returns calm in cc)
      after_execution_of-Good w p sound v (ok execution) returns =
          let q =
            note_execution-IsKept floats hash c world namespace deployment proposer limit i a
              execution p sound v in
          elim (Bool-cases (is_dry c.mode)) [
            | inr wet ↦ simp (wet) (
                after_observation-Good w execution p sound wet q (observed i a execution)
                  (observed_calmly execution))
            | inl dried ↦ elim (Bool-cases execution.valid) [
              | inr e ↦
                  simp (dried, e)
                    (goes_on _ (
                      replan-IsKept floats hash c world namespace deployment proposer limit (suc i)
                        (suc i) i a _ _ q))
              | inl e ↦
                  simp (dried, e)
                    (record {
                      sound = q.sound;
                      executed_sound = tt;
                      few = omega (arith, q.few, room);
                      short =
                          fewer_rounds floats hash c world namespace deployment proposer limit
                            (suc i) n p room v.short;
                      dry = λ h. (refl, refl);
                      success = refl;
                      proven = λ h. cc;
                      asks = λ h. refl;
                    })
            ]
          ]

      operate-Good :
          (w : Validation) (p : Progress)
          → Sound a
          → Kept i (suc i) p
          → Ends n (operate floats hash c world namespace deployment proposer limit i next a w p)
      unfolding operate
      operate-Good w p sound v =
          after_execution_of-Good w p sound v (world.execute i a) (λ calm. calm.executes i a)

      lock_and_operate-Good :
          (w : Validation) (p : Progress)
          → Sound a
          → Kept i (suc i) p
          → Ends n (
              lock_and_operate floats hash c world namespace deployment proposer limit i next a w p)
      unfolding lock_and_operate base_report
      lock_and_operate-Good w p sound v =
          elim (Bool-cases (
            needs_lock floats hash c world namespace deployment proposer limit
            && not (world.locks i))) [
              | inr e ↦ simp (e) (operate-Good w p sound v)
              | inl e ↦ simp (e) (
                  stopped-IsGood floats hash c world namespace deployment proposer limit i (suc i) n
                    p _ refl refl refl refl refl (λ h. refl) (omega (arith, room)) room v)
            ]

      act_on-Good :
          (p : Progress) (w : Validation)
          → ((command : Text) → w ≡ valid_command command → Sound a)
          → Kept i (suc i) p
          → Ends n (act_on floats hash c world namespace deployment proposer limit i next a p w)
      unfolding act_on base_report
      act_on-Good p (valid_command command) sound v =
          lock_and_operate-Good _ (record p { last_validation = valid_command command })
            (sound command refl)
            (record {
              sound = v.sound;
              executed_sound = v.executed_sound;
              few = v.few;
              short = v.short;
              dry = v.dry;
            })
      act_on-Good p not_validated sound v =
          stopped-IsGood floats hash c world namespace deployment proposer limit i (suc i) n p _
            refl refl refl refl refl (λ h. refl) (omega (arith, room)) room v
      act_on-Good p (invalid_command e) sound v =
          stopped-IsGood floats hash c world namespace deployment proposer limit i (suc i) n p _
            refl refl refl refl refl (λ h. refl) (omega (arith, room)) room v
      act_on-Good p (semantic_failure e) sound v =
          stopped-IsGood floats hash c world namespace deployment proposer limit i (suc i) n p _
            refl refl refl refl refl (λ h. refl) (omega (arith, room)) room v

      pub attempt_agreed-Good :
          (p : Progress) (e : Option SemanticError)
          → action_semantic_error c.protocol.action_space world.evidence namespace deployment a ≡ e
          → IsEndorsed floats hash c.protocol c.adapters world.agents proposer a
          → Kept i (suc i) p
          → Ends n
              (attempt_agreed floats hash c world namespace deployment proposer limit i next a p e)
      unfolding attempt_agreed
      attempt_agreed-Good p (some e) h endorsed v = goes_on _ (
          replan-IsKept floats hash c world namespace deployment proposer limit (suc i) (suc i) i a
            (semantic e) _
            (record {
              sound = v.sound;
              executed_sound = v.executed_sound;
              few = omega (arith, v.few);
              short = v.short;
              dry = v.dry;
            }))
      attempt_agreed-Good p none h endorsed v =
          act_on-Good (record p { last_action = some a }) (validate_action c.validator a)
            (λ command passed. record {
              safe = validate_action-IsSafe c.validator a command passed;
              allowed = action_semantic_error-IsAllowed _ _ _ _ a h;
              endorsed = endorsed;
            })
            (record {
              sound = v.sound;
              executed_sound = v.executed_sound;
              few = v.few;
              short = v.short;
              dry = v.dry;
            })
