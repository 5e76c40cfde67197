-- ===== src/Jobs/Verdict.antt =====
-- src/aiops_k8s_agents/experiment_job_runner.py: the status of a job by the results of its attempts.
use aiops_research.Base.{
  ℕ, zero, suc, ◌≡◌, refl, ◌∙◌, ap, sym, subst, ◌≢◌, ◌↔◌, ◌⊎◌, inl, inr, Bool, false, none, some,
  [], ◌∷◌, ◌++◌, arith, Text, if◌then◌else◌,
}
use aiops_research.Json.{Fields}
use aiops_research.Jobs.Rows.{
  ExperimentJobStatus, running, completed, failed, blocked, cancelled, interrupted, chaos_mesh,
  ExperimentJob, Store, find,
}
use aiops_research.Jobs.Store.{transition}
use aiops_research.Jobs.Invariant.{IsValid}
use aiops_research.Jobs.Runner.{
  returned, Attempt, Progress, emit_all, after_status, attempt_body, finish_attempt, round,
  attempt_loop, mapped_status, job_status, classify, final_status, started_progress, run_job,
}
use aiops_research.Jobs.Ending.{run_job_status}

-- A property of the attempts `k`, `k + 1`, ..., `n` of them.
abbrev pub AllFrom : ℕ → ℕ → (ℕ → Type 0) → Type 0
AllFrom zero k P = Unit
AllFrom (suc n) k P = P k × AllFrom n (suc k) P

-- The runtime returns from every attempt, and nothing is cancelled.
abbrev pub Returns : (ℕ → Attempt) → (ℕ → Fields) → Type 0
Returns env results =
    (k : ℕ) → ((env k).cancelled_before ≡ false) × ((env k).outcome ≡ returned (results k))

abbrev pub Passes : ExperimentJobStatus → Type 0
Passes st = (st ≡ completed) ⊎ (st ≡ interrupted)

-- The mapping has five values.
abbrev IsMapped : ExperimentJobStatus → Type 0
IsMapped st =
    (st ≡ completed) ⊎ (st ≡ cancelled) ⊎ (st ≡ blocked) ⊎ (st ≡ interrupted) ⊎ (st ≡ failed)

chosen-IsMapped :
    (a b c d : Bool)
    → IsMapped (
        if a
        then completed
        else if b
        then cancelled
        else if c
        then blocked
        else if d
        then interrupted
        else failed)
chosen-IsMapped a b c d = ground arith

mapped_status-IsMapped : (f : Fields) → IsMapped (mapped_status f)
unfolding mapped_status job_status classify
mapped_status-IsMapped f = chosen-IsMapped _ _ _ _

module _ (i : Text) (env : ℕ → Attempt) (results : ℕ → Fields) (returns : Returns env results) where
  -- The round of an attempt that returns.
  round_returns :
      (k : ℕ) (p : Progress) (s : Store)
      → let (n, s') = emit_all i k (env k).emitted p.sequence s in
        let (go_on, st) = after_status (mapped_status (results k)) p.status in
        round i chaos_mesh env k p s ≡ (
          (
            go_on,
            record {
              status = st;
              attempts = p.attempts ++ results k ∷ [];
              error = p.error;
              sequence = n;
            },
          ),
          s',
        )
  unfolding round attempt_body finish_attempt
  round_returns k p s = simp ((returns k).0, (returns k).1) refl

  abbrev written : ℕ → Progress → Store → Store
  written k p s = (emit_all i k (env k).emitted p.sequence s).1

  abbrev after : ℕ → Progress → Store → ExperimentJobStatus → Progress
  after k p s st = record {
    status = st;
    attempts = p.attempts ++ results k ∷ [];
    error = p.error;
    sequence = (emit_all i k (env k).emitted p.sequence s).0;
  }

  abbrev status_after : ℕ → ℕ → Progress → Store → ExperimentJobStatus
  status_after left k p s = (attempt_loop i chaos_mesh env left k p s).0.status

  abbrev continued : ℕ → ℕ → Progress → Store → Bool × ExperimentJobStatus → Progress × Store
  continued left k p s (go_on, st) =
      if go_on
      then attempt_loop i chaos_mesh env left (suc k) (after k p s st) (written k p s)
      else (after k p s st, written k p s)

  loop_step :
      (left k : ℕ) (p : Progress) (s : Store)
      → attempt_loop i chaos_mesh env (suc left) k p s
        ≡ continued left k p s (after_status (mapped_status (results k)) p.status)
  unfolding attempt_loop
  loop_step left k p s =
      ap
        (λ (x : (Bool × Progress) × Store).
          if x.0.0 then attempt_loop i chaos_mesh env left (suc k) x.0.1 x.1 else (x.0.1, x.1))
        (round_returns k p s)

  stays_failed :
      (left k : ℕ) (p : Progress) (s : Store)
      → p.status ≢ completed
      → status_after left k p s ≢ completed
  unfolding attempt_loop
  stays_failed zero k p s h = h
  stays_failed (suc left) k p s h =
      subst (λ (x : Progress × Store). x.0.status ≢ completed) (sym (loop_step left k p s))
        (elim (mapped_status-IsMapped (results k)) [
          | inl e ↦ rw e (stays_failed left (suc k) _ _ h)
          | inr (inl e) ↦ rw e (λ z. cc)
          | inr (inr (inl e)) ↦ rw e (stays_failed left (suc k) _ _ (λ z. cc))
          | inr (inr (inr (inl e))) ↦ rw e (stays_failed left (suc k) _ _ h)
          | inr (inr (inr (inr e))) ↦ rw e (stays_failed left (suc k) _ _ (λ z. cc))
        ])

  abbrev AllPass : ℕ → ℕ → Type 0
  AllPass left k = AllFrom left k (λ m. Passes (mapped_status (results m)))

  completed_iff :
      (left k : ℕ) (p : Progress) (s : Store)
      → p.status ≡ completed
      → (status_after left k p s ≡ completed) ↔ AllPass left k
  unfolding attempt_loop
  completed_iff zero k p s h = ((λ _. tt), (λ _. h))
  completed_iff (suc left) k p s h =
      subst (λ (x : Progress × Store). (x.0.status ≡ completed) ↔ AllPass (suc left) k)
        (sym (loop_step left k p s))
        (elim (mapped_status-IsMapped (results k)) [
          | inl e ↦
              let rest = completed_iff left (suc k) (after k p s p.status) (written k p s) h in
              rw e ((λ z. (inl refl, rest.0 z)), (λ a. rest.1 a.1))
          | inr (inl e) ↦ rw e ((λ z. cc), (λ a. absurd (ground (arith, a.0))))
          | inr (inr (inl e)) ↦
              let rest =
                stays_failed left (suc k) (after k p s blocked) (written k p s) (λ z. cc) in
              rw e ((λ z. absurd (rest z)), (λ a. absurd (ground (arith, a.0))))
          | inr (inr (inr (inl e))) ↦
              let rest = completed_iff left (suc k) (after k p s p.status) (written k p s) h in
              rw e ((λ z. (inr refl, rest.0 z)), (λ a. rest.1 a.1))
          | inr (inr (inr (inr e))) ↦
              let rest = stays_failed left (suc k) (after k p s failed) (written k p s) (λ z. cc) in
              rw e ((λ z. absurd (rest z)), (λ a. absurd (ground (arith, a.0))))
        ])

-- If the runtime returns from every attempt and nothing is cancelled, a job on faults that the
-- program injects itself is completed exactly when every attempt's status is mapped to `completed`
-- or to `interrupted`.
pub run_job_completed_iff :
    (i : Text) (env : ℕ → Attempt) (results : ℕ → Fields) (now later : Text) (s : Store)
    (job : ExperimentJob)
    → IsValid s
    → find i s.jobs ≡ some job
    → job.request.incident_source ≡ chaos_mesh
    → Returns env results
    → (j : ExperimentJob) × (find i (run_job i env false now later s).jobs ≡ some j)
      × ((j.status ≡ completed)
          ↔ AllFrom job.request.repetitions 1 (λ m. Passes (mapped_status (results m))))
run_job_completed_iff i env results now later s job v h source returns =
    let (j, found, ends) = run_job_status i env false now later s job v h in
    let s' = (transition i running none none now s).1 in
    let left = job.request.repetitions in
    let same : j.status ≡ status_after i env results returns left 1 started_progress s' =
      ends
      ∙ kept_status
          (attempt_loop i job.request.incident_source env left 1 started_progress s').0.status
      ∙ ap (λ x. (attempt_loop i x env left 1 started_progress s').0.status) source in
    let iff = completed_iff i env results returns left 1 started_progress s' refl in
    (j, found, ((λ e. iff.0 (sym same ∙ e)), (λ a. same ∙ iff.1 a)))
  where
    kept_status : (st : ExperimentJobStatus) → final_status false st ≡ st
    kept_status st = ground arith
