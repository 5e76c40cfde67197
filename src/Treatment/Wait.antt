-- ===== src/Treatment/Wait.antt =====
-- src/aiops_k8s_agents/recovery_runner.py: `_sample_evidence`, and the loop of `_wait_for_evidence`, which ends.
-- The clock counts whole ticks, and a second is a tick.
use aiops_research.Base.{
  ℕ, zero, suc, ◌+◌, ◌-◌, ◌≤◌, Bool, true, false, Option, none, some, List, [], ◌∷◌, Text, Result,
  ok, err, leb, not, ◌&&◌, codes, Bool-cases, ◌≡◌, refl, inl, inr, arith, if◌then◌else◌,
}
use aiops_research.Floats.{Floats}
use aiops_research.Actions.{RecoveryAction, CommandResult}
use aiops_research.Executor.{Completed}
use aiops_research.Monitor.{same_texts}
use aiops_research.Treatment.{
  Ratios, EvidenceSource, prometheus, kubernetes_availability, pod_replacement, Snapshot,
  RecoveryScenario, availability_evidence,
}

-- `RecoveryExperimentRuntime` over a state of the world, and the executor.
pub record Runtime (floats : Floats) (W : Type 0) : Type 0 where
  pub kubectl : List Text → W → Completed × W
  pub query_metric : Text → W → Result Text floats.F × W
  pub snapshot : W → Result Text Snapshot × W
  pub sleep : ℕ → W → W
  pub monotonic : W → ℕ × W
  pub execute : RecoveryAction → W → Result Text CommandResult × W

-- What the clock of a runtime is relied on for: it is a part of the world that `monotonic` reads, that no
-- call sets back, and that a pause moves on by its length.
pub record IsClock {floats : Floats} {W : Type 0} (runtime : Runtime floats W) (clock : W → ℕ)
    : Type 0 where
  pub reads : (w : W) → (runtime.monotonic w).0 ≡ clock w
  pub after_read : (w : W) → clock w ≤ clock (runtime.monotonic w).1
  pub after_query : (q : Text) (w : W) → clock w ≤ clock (runtime.query_metric q w).1
  pub after_snapshot : (w : W) → clock w ≤ clock (runtime.snapshot w).1
  pub after_sleep : (n : ℕ) (w : W) → clock w + n ≤ clock (runtime.sleep n w)

pub data WaitError : Type 0 where
  timed_out out_of_fuel : WaitError

module _ (floats : Floats) (ratio : Ratios floats.F) {W : Type 0} (runtime : Runtime floats W)
    (scenario : RecoveryScenario floats) (query : Text) where
  abbrev availability_of : Result Text Snapshot → Result Text floats.F
  availability_of (ok s) = availability_evidence floats ratio s
  availability_of (err e) = err e

  abbrev from_snapshot : W → Result Text floats.F × W
  from_snapshot w = (availability_of (runtime.snapshot w).0, (runtime.snapshot w).1)

  abbrev pub sample_from : EvidenceSource → W → Result Text floats.F × W
  sample_from prometheus w = runtime.query_metric query w
  sample_from kubernetes_availability w = from_snapshot w
  sample_from pod_replacement w = from_snapshot w

  -- `_sample_evidence`
  unfoldable pub sample_evidence : W → Result Text floats.F × W
  sample_evidence w = sample_from scenario.evidence_source w

-- The loop of a wait, over a sample that may raise.
module _ {floats : Floats} {W : Type 0} {A : Type 0} (runtime : Runtime floats W)
    (sample : W → Result Text A × W) (timeout poll : ℕ) (accepts : A → Bool) where
  abbrev accepted : Result Text A → Option A
  accepted (err e) = none
  accepted (ok v) = if accepts v then some v else none

  -- The end of one turn, with the sample and the world after it.
  unfoldable pub turn :
      (W → Result WaitError (A × ℕ) × W) → ℕ → Option A → W → Result WaitError (A × ℕ) × W
  turn next started (some v) w =
      (ok (v, (runtime.monotonic w).0 - started), (runtime.monotonic w).1)
  turn next started none w =
      if leb timeout ((runtime.monotonic w).0 - started)
      then (err timed_out, (runtime.monotonic w).1)
      else next (runtime.sleep poll (runtime.monotonic w).1)

  unfoldable pub wait_from : ℕ → ℕ → W → Result WaitError (A × ℕ) × W
  unfolding turn
  wait_from started zero w = (err out_of_fuel, w)
  wait_from started (suc n) w =
      turn (wait_from started n) started (accepted (sample w).0) (sample w).1

  -- The wait, with a turn for each tick of the timeout and one more.
  unfoldable pub wait_until : W → Result WaitError (A × ℕ) × W
  unfolding wait_from
  wait_until w = wait_from (runtime.monotonic w).0 (suc timeout) (runtime.monotonic w).1

  -- An accepted sample or a timeout.
  abbrev pub IsEnded : Result WaitError (A × ℕ) → Type 0
  IsEnded (ok (v, seconds)) = accepts v ≡ true
  IsEnded (err timed_out) = Unit
  IsEnded (err out_of_fuel) = ⊥

  module _ (clock : W → ℕ) (law : IsClock runtime clock) (pauses : 1 ≤ poll)
      (sample_later : (w : W) → clock w ≤ clock (sample w).1) where
    accepted_lem : (r : Result Text A) (v : A) → accepted r ≡ some v → accepts v ≡ true
    accepted_lem (err e) v h = cc
    accepted_lem (ok u) v h = elim (Bool-cases (accepts u)) [
      | inl e ↦ ground (arith, h, e)
      | inr e ↦ absurd (ground (arith, h, e))
    ]

    -- A turn that goes on leaves time, and the next one starts later.
    turn-IsEnded :
        (next : W → Result WaitError (A × ℕ) × W) (started : ℕ) (v : Option A) (w : W)
        → ((x : A) → v ≡ some x → accepts x ≡ true)
        → ((u : W) → clock w + 1 ≤ clock u → clock w + 1 ≤ started + timeout → IsEnded (next u).0)
        → IsEnded (turn next started v w).0
    unfolding turn
    turn-IsEnded next started (some v) w fits ends = fits v refl
    turn-IsEnded next started none w fits ends =
        elim (Bool-cases (leb timeout ((runtime.monotonic w).0 - started))) [
          | inl e ↦ simp (e) tt
          | inr e ↦ simp (e) (
              ends _
                (omega
                  (arith, law.after_read w, law.after_sleep poll (runtime.monotonic w).1, pauses))
                (ground (arith, e, law.reads w)))
        ]

    wait_from-IsEnded :
        (started n : ℕ) (w : W)
        → started + timeout ≤ clock w + n
        → IsEnded (wait_from started (suc n) w).0
    unfolding wait_from
    wait_from-IsEnded started zero w room =
        turn-IsEnded (wait_from started zero) started _ (sample w).1 (accepted_lem (sample w).0)
          (λ u later left. absurd (omega (arith, room, left, sample_later w)))
    wait_from-IsEnded started (suc n) w room =
        turn-IsEnded (wait_from started (suc n)) started _ (sample w).1 (accepted_lem (sample w).0)
          (λ u later left.
            wait_from-IsEnded started n u (omega (arith, room, later, sample_later w)))

    pub wait_until-IsEnded : (w : W) → IsEnded (wait_until w).0
    unfolding wait_until
    wait_until-IsEnded w =
        wait_from-IsEnded (runtime.monotonic w).0 timeout (runtime.monotonic w).1
          (ground (arith, law.reads w, law.after_read w))

abbrev with_uids : Result Text Snapshot → Option (List Text) → Result Text (Snapshot × List Text)
with_uids (err e) uids = err e
with_uids (ok s) none = err (codes "Kubernetes pod identity is unavailable")
with_uids (ok s) (some uids) = ok (s, uids)

-- `_pod_uids`
abbrev pub pod_uids : Result Text Snapshot → Result Text (Snapshot × List Text)
pod_uids (err e) = err e
pod_uids (ok s) = with_uids (ok s) s.pod_uids

abbrev no_texts : List Text → Bool
no_texts [] = true
no_texts (t ∷ ts) = false

abbrev pub are_replaced : List Text → Snapshot × List Text → Bool
are_replaced baseline (s, uids) = not (no_texts uids) && not (same_texts uids baseline)

module _ (floats : Floats) (ratio : Ratios floats.F) {W : Type 0} (runtime : Runtime floats W)
    (scenario : RecoveryScenario floats) (query : Text) (timeout poll : ℕ) where
  -- `_wait_for_evidence`
  unfoldable pub wait_for_evidence : (floats.F → Bool) → W → Result WaitError (floats.F × ℕ) × W
  wait_for_evidence accepts w =
      wait_until runtime (sample_evidence floats ratio runtime scenario query) timeout poll accepts
        w

  -- The loop of `_wait_for_pod_replacement`.
  unfoldable pub wait_for_pod_replacement :
      List Text → W → Result WaitError ((Snapshot × List Text) × ℕ) × W
  wait_for_pod_replacement baseline w =
      wait_until runtime (λ u. (pod_uids (runtime.snapshot u).0, (runtime.snapshot u).1)) timeout
        poll (are_replaced baseline) w

  module _ (clock : W → ℕ) (law : IsClock runtime clock) where
    sample_evidence_later :
        (w : W) → clock w ≤ clock (sample_evidence floats ratio runtime scenario query w).1
    unfolding sample_evidence
    sample_evidence_later w = by_source scenario.evidence_source
      where
        by_source :
            (s : EvidenceSource)
            → clock w ≤ clock (sample_from floats ratio runtime scenario query s w).1
        by_source prometheus = law.after_query query w
        by_source kubernetes_availability = law.after_snapshot w
        by_source pod_replacement = law.after_snapshot w

    -- With a clock that the pauses move on and a poll interval of at least one, the wait for evidence ends by its
    -- own means: with a sample that it accepts or with a timeout.
    pub wait_for_evidence-IsEnded :
        (accepts : floats.F → Bool) (w : W)
        → 1 ≤ poll
        → IsEnded runtime
            (sample_evidence floats ratio runtime scenario query)
            timeout
            poll
            accepts
            (wait_for_evidence accepts w).0
    unfolding wait_for_evidence
    wait_for_evidence-IsEnded accepts w pauses =
        wait_until-IsEnded runtime _ timeout poll accepts clock law pauses sample_evidence_later w

    pub wait_for_pod_replacement-IsEnded :
        (baseline : List Text) (w : W)
        → 1 ≤ poll
        → IsEnded runtime
            (λ u. (pod_uids (runtime.snapshot u).0, (runtime.snapshot u).1))
            timeout
            poll
            (are_replaced baseline)
            (wait_for_pod_replacement baseline w).0
    unfolding wait_for_pod_replacement
    wait_for_pod_replacement-IsEnded baseline w pauses =
        wait_until-IsEnded runtime _ timeout poll (are_replaced baseline) clock law pauses
          law.after_snapshot w
