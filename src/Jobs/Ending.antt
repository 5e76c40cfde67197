-- ===== src/Jobs/Ending.antt =====
-- src/aiops_k8s_agents/experiment_job_runner.py: a job that `_run_job` takes up ends, whatever its
-- attempts do.
use aiops_research.Base.{
  ℕ, zero, suc, ◌≡◌, refl, ◌≢◌, ap, ◌∙◌, inl, inr, Bool, true, Option, none, some, List, [], ◌∷◌,
  arith, Text, text_eq_refl, Bool-cases, Option-cases,
}
use aiops_research.Json.{Json, Fields}
use aiops_research.Jobs.Rows.{
  ExperimentJobStatus, running, IncidentSource, chaos_mesh, aiopslab, ExperimentJob, RuntimeEvent,
  Store, find, is_found, terminal,
}
use aiops_research.Jobs.Store.{transition, moved, append_event, staged, set_result, answer}
use aiops_research.Jobs.Tables.{find-update}
use aiops_research.Jobs.Invariant.{
  IsValid, transition-IsValid, append_event-IsValid, set_result-IsValid,
}
use aiops_research.Jobs.Runner.{
  Prepared, unavailable, prepare_raised, detected, Outcome, raised, returned, Attempt, Progress,
  persisted, emit_all, after_status, attempt_body, finish_attempt, round, attempt_loop,
  mapped_status, final_status, aggregate, started_progress, run_job, run_found, run_read,
  with_detection,
}

abbrev pub Found : Text → Store → Type 0
Found i s = is_found (find i s.jobs) ≡ true

append_event-Found :
    (i : Text) (e : RuntimeEvent) (now : Text) (s : Store)
    → Found i s
    → Found i (append_event e now s).1
unfolding append_event
append_event-Found i e now s h =
    ground (arith, find-update i e.experiment_id (staged e now) s.jobs (λ j. refl))

pub transition-Found :
    (i : Text) (st : ExperimentJobStatus) (stage error : Option Text) (now : Text) (s : Store)
    → Found i s
    → Found i (transition i st stage error now s).1
unfolding transition
transition-Found i st stage error now s h = elim (Option-cases (find i s.jobs)) [
  | inl absent ↦ absurd (ground (arith, absent))
  | inr (e, found) ↦
      ground (arith, found, find-update i i (moved e st stage error now) s.jobs (λ j. refl))
]

-- The store after a result is set for a job that is there.
pub set_result-find :
    (i : Text) (st : ExperimentJobStatus) (result : Json) (error now : Text) (s : Store)
    → Found i s
    → terminal st ≡ true
    → (j : ExperimentJob) × (find i (set_result i st result error now s).1.jobs
        ≡ some (answer st result error now j))
unfolding set_result
set_result-find i st result error now s h t = elim (Option-cases (find i s.jobs)) [
  | inl absent ↦ absurd (ground (arith, absent))
  | inr (e, found) ↦ (
    e,
    ground (
      arith,
      found,
      text_eq_refl i,
      find-update i i (answer st result error now) s.jobs (λ j. refl),
    ),
  )
]

-- What every round keeps.
record Keeps (i : Text) (p : Progress) (s : Store) : Type 0 where
  ended : terminal p.status ≡ true
  found : Found i s
  valid : IsValid s

emit_all-keeps :
    (i : Text) (attempt : ℕ) (es : List (RuntimeEvent × Text)) (n : ℕ) (s : Store)
    → Found i s
    → IsValid s
    → Found i (emit_all i attempt es n s).1 × IsValid (emit_all i attempt es n s).1
unfolding emit_all
emit_all-keeps i attempt [] n s f v = (f, v)
emit_all-keeps i attempt ((e, now) ∷ es) n s f v =
    let e' = persisted i attempt (suc n) e in
    emit_all-keeps i attempt es (suc n) (append_event e' now s).1 (append_event-Found i e' now s f)
      (append_event-IsValid e' now s v)

finish_attempt-ended :
    (a : Attempt) (d : Fields) (o : Outcome) (p : Progress)
    → terminal p.status ≡ true
    → terminal (finish_attempt a d o p).1.status ≡ true
unfolding finish_attempt
finish_attempt-ended a d (raised message) p h = ground arith
finish_attempt-ended a d (returned f) p h = ended (mapped_status (with_detection d f)) p.status h
  where
    ended :
        (m st : ExperimentJobStatus) → terminal st ≡ true → terminal (after_status m st).1 ≡ true
    ended m st h = ground arith

attempt_body-ended :
    (source : IncidentSource) (a : Attempt) (prepared : Prepared) (p : Progress)
    → terminal p.status ≡ true
    → terminal (attempt_body source a prepared p).1.status ≡ true
unfolding attempt_body
attempt_body-ended chaos_mesh a prepared p h = finish_attempt-ended a Fields.end a.outcome p h
attempt_body-ended aiopslab a unavailable p h = ground arith
attempt_body-ended aiopslab a (prepare_raised m) p h = ground arith
attempt_body-ended aiopslab a (detected d) p h = finish_attempt-ended a d a.outcome p h

module _ (i : Text) (source : IncidentSource) (env : ℕ → Attempt) where
  round-Keeps :
      (k : ℕ) (p : Progress) (s : Store)
      → Keeps i p s
      → Keeps i (round i source env k p s).0.1 (round i source env k p s).1
  unfolding round
  round-Keeps k p s h = elim (Bool-cases (env k).cancelled_before) [
    | inl t ↦ simp t (record { ended = refl; found = h.found; valid = h.valid })
    | inr t ↦
        let (found, valid) = emit_all-keeps i k (env k).emitted p.sequence s h.found h.valid in
        simp t (record {
          ended = attempt_body-ended source (env k) (env k).prepared _ h.ended;
          found = found;
          valid = valid;
        })
  ]

  attempt_loop-Keeps :
      (left k : ℕ) (p : Progress) (s : Store)
      → Keeps i p s
      → Keeps i (attempt_loop i source env left k p s).0 (attempt_loop i source env left k p s).1
  unfolding attempt_loop
  attempt_loop-Keeps zero k p s h = h
  attempt_loop-Keeps (suc left) k p s h =
      let once = round-Keeps k p s h in
      let (r, s') = round i source env k p s in
      elim (Bool-cases r.0) [
        | inl t ↦ rw t (attempt_loop-Keeps left (suc k) r.1 s' once)
        | inr t ↦ rw t once
      ]

final_ended :
    (b : Bool) (st : ExperimentJobStatus) → terminal st ≡ true → terminal (final_status b st) ≡ true
final_ended b st h = ground arith

run_job_found :
    (i : Text) (env : ℕ → Attempt) (cancelled_finally : Bool) (now later : Text) (s : Store)
    (job : ExperimentJob)
    → find i s.jobs ≡ some job
    → run_job i env cancelled_finally now later s
      ≡ run_found i env cancelled_finally now later job s
unfolding run_job
run_job_found i env cancelled_finally now later s job h =
    ap (λ o. run_read i env cancelled_finally now later o s) h

-- The status at the end is that of the loop, or `cancelled`.
pub run_job_status :
    (i : Text) (env : ℕ → Attempt) (cancelled_finally : Bool) (now later : Text) (s : Store)
    (job : ExperimentJob)
    → IsValid s
    → find i s.jobs ≡ some job
    → (j : ExperimentJob) × (find i (run_job i env cancelled_finally now later s).jobs ≡ some j)
      × (j.status
          ≡ final_status cancelled_finally
              (attempt_loop i job.request.incident_source env job.request.repetitions 1
                started_progress
                (transition i running none none now s).1).0.status)
unfolding run_found
run_job_status i env cancelled_finally now later s job v h =
    let s' = (transition i running none none now s).1 in
    let f : Found i s = ground (arith, h) in
    let source = job.request.incident_source in
    let left = job.request.repetitions in
    let kept = attempt_loop-Keeps i source env left 1 started_progress s' (record {
      ended = refl;
      found = transition-Found i running none none now s f;
      valid = transition-IsValid i running none none now s v;
    }) in
    let (p, t) = attempt_loop i source env left 1 started_progress s' in
    let st = final_status cancelled_finally p.status in
    let result = aggregate i job.request st p.attempts in
    let (j, found) =
      set_result-find i st result p.error later t kept.found
        (final_ended cancelled_finally p.status kept.ended) in
    (
      answer st result p.error later j,
      ap (λ (t : Store). find i t.jobs) (run_job_found i env cancelled_finally now later s job h)
          ∙ found,
      refl,
    )

-- If nothing else writes to the store during the run, so no `runner.cancel` either, a job that is in a valid
-- store and is run ends, whatever its attempts do and wherever the run sees its cancellation event: the store
-- stays valid, and the job is in a terminal status with a result and an end time.
pub run_job_ends :
    (i : Text) (env : ℕ → Attempt) (cancelled_finally : Bool) (now later : Text) (s : Store)
    → IsValid s
    → Found i s
    → IsValid (run_job i env cancelled_finally now later s)
      × ((j : ExperimentJob) × (find i (run_job i env cancelled_finally now later s).jobs ≡ some j)
          × (terminal j.status ≡ true)
          × (j.result ≢ none)
          × (j.finished_at ≡ some later))
unfolding run_job
run_job_ends i env cancelled_finally now later s v f = elim (Option-cases (find i s.jobs)) [
  | inl absent ↦ absurd (ground (arith, absent))
  | inr (job, h) ↦
      let s' = (transition i running none none now s).1 in
      let source = job.request.incident_source in
      let left = job.request.repetitions in
      let kept = attempt_loop-Keeps i source env left 1 started_progress s' (record {
        ended = refl;
        found = transition-Found i running none none now s f;
        valid = transition-IsValid i running none none now s v;
      }) in
      let (p, t) = attempt_loop i source env left 1 started_progress s' in
      let st = final_status cancelled_finally p.status in
      let result = aggregate i job.request st p.attempts in
      let (j, found) =
        set_result-find i st result p.error later t kept.found
          (final_ended cancelled_finally p.status kept.ended) in
      rw h (
        set_result-IsValid i st result p.error later t kept.valid,
        (
          answer st result p.error later j,
          found,
          final_ended cancelled_finally p.status kept.ended,
          (λ e. cc),
          refl,
        ),
      )
]
