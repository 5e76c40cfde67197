-- ===== src/Jobs/Race.antt =====
-- src/aiops_k8s_agents/experiment_jobs.py: `request_cancel` reads the job and writes it in separate
-- transactions; what happens when the job ends between the two.
use aiops_research.Base.{◌≡◌, refl, true, false, some, arith, Text, text_eq_refl, ok}
use aiops_research.Json.{Json}
use aiops_research.Jobs.Rows.{ExperimentJobStatus, cancelling, ExperimentJob, Store, find, terminal}
use aiops_research.Jobs.Store.{set_result, answer, cancel_found, cancelled_row, request_cancel}
use aiops_research.Jobs.Tables.{find-update}

-- Alone, a cancel request leaves a job that has ended as it is, and the store with it.
pub request_cancel_ended :
    (i now : Text) (s : Store) (e : ExperimentJob)
    → find i s.jobs ≡ some e
    → terminal e.status ≡ true
    → request_cancel i now s ≡ (ok e, s)
unfolding request_cancel
request_cancel_ended i now s e h t = ground (arith, h, t)

-- A cancel request that read a job before it ended, and writes after its result was set, takes the
-- job back: it is left as `cancelling`, with its result and its end time.
pub request_cancel_race :
    (i now later : Text) (s : Store) (e : ExperimentJob) (st : ExperimentJobStatus) (result : Json)
    (error : Text)
    → find i s.jobs ≡ some e
    → terminal e.status ≡ false
    → terminal st ≡ true
    → let s' = (set_result i st result error now s).1 in
      (j : ExperimentJob) × (find i (cancel_found e i later s').1.jobs ≡ some j)
      × (j.status ≡ cancelling)
      × (j.result ≡ some result)
      × (j.finished_at ≡ some now)
unfolding set_result cancel_found
request_cancel_race i now later s e st result error h open_job t = (
  cancelled_row later (answer st result error now e),
  ground (
    arith,
    text_eq_refl i,
    find-update i i (answer st result error now) s.jobs (λ j. refl),
    find-update i i (cancelled_row later) (set_result i st result error now s).1.jobs (λ j. refl),
  ),
  refl,
  refl,
  refl,
)
