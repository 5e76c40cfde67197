-- ===== src/Runtime/Run.antt =====
-- src/aiops_k8s_agents/experiment_runtime.py: `ExperimentRuntime.run` and `_finish`. The objects that
-- the runtime calls are an environment: what a call returns or raises is a function of the calls
-- that were made before it, the latest first.
use aiops_research.Base.{
  Bool, true, false, not, ◌&&◌, Option, none, some, List, [], ◌∷◌, Text, codes, text_eq, Result, ok,
  err, if◌then◌else◌,
}
use aiops_research.Floats.{Floats}
use aiops_research.Executor.{ExecutionMode, mock, dry_run, real}
use aiops_research.Jobs.Rows.{
  RuntimeStage, injecting_fault, collecting_evidence, agent_reasoning, validating, executing,
  observing_recovery, analyzing, IncidentSource, chaos_mesh, aiopslab,
}
use aiops_research.Runtime.{
  Exn, blocked, cancelled, interrupted, other, ChaosAnswer, CoordinatorReport, RuntimeRequest,
  RuntimeConfiguration, validate_request,
}

-- The calls that leave the runtime. `admitting` is the making of the coordinator and its admission.
pub data Call : Type 0 where
  admitting checking entering leaving preflighting : Call
  emitting : RuntimeStage → Call
  injecting : Text → Call
  coordinating cleaning : Call

abbrev pub History : Type 0
History = List Call

abbrev pub Answer : Type 0 → Type 0
Answer A = History → Result Exn A

pub record Environment : Type 0 where
  pub admit : Answer Unit
  pub check : Answer Unit
  pub enter : Answer Unit
  pub preflight : Answer ChaosAnswer
  pub emit : RuntimeStage → Answer Unit
  pub inject : Text → Answer ChaosAnswer
  pub coordinate : Answer CoordinatorReport
  pub clean : Answer ChaosAnswer

-- The fields of the report that the runtime itself writes.
pub record Report : Type 0 where
  pub final_status : Text
  pub error : Text
  pub cleanup_error : Option Text
  pub human_review_required : Bool

-- The local variables of `run`, with the calls so far.
pub record Locals : Type 0 where
  pub history : History
  pub report : Report
  pub application : Option ChaosAnswer
  pub lock_acquired : Bool

abbrev pub Action : Type 0 → Type 0
Action A = Locals → Result Exn A × Locals

abbrev pub resume : {A B : Type 0} → (A → Action B) → Result Exn A → Action B
resume next (err e) l = (err e, l)
resume next (ok a) l = next a l

infixl 5 ◌>>=◌ ◌>>◌
unfoldable pub ◌>>=◌ : {A B : Type 0} → Action A → (A → Action B) → Action B
◌>>=◌ first next l = resume next (first l).0 (first l).1

unfoldable pub ◌>>◌ : {A B : Type 0} → Action A → Action B → Action B
◌>>◌ first next l = resume (λ _. next) (first l).0 (first l).1

unfoldable pub call : {A : Type 0} → Call → Answer A → Action A
call c answer l = (answer l.history, record l { history = c ∷ l.history })

unfoldable pub lift : Result Exn Unit → Action Unit
lift r l = (r, l)

abbrev pub set_lock : Action Unit
set_lock l = (ok tt, record l { lock_acquired = true })

abbrev pub set_application : ChaosAnswer → Action Unit
set_application a l = (ok tt, record l { application = some a })

-- `report = deepcopy(coordinator.run(...))`
abbrev pub take_report : CoordinatorReport → Action Unit
take_report r l = (
  ok tt,
  record l {
    report = record {
      final_status = r.final_status;
      error = [];
      cleanup_error = none;
      human_review_required = r.human_review_required;
    };
  },
)

abbrev pub is_real : ExecutionMode → Bool
is_real real = true
is_real dry_run = false
is_real mock = false

abbrev pub is_chaos : IncidentSource → Bool
is_chaos chaos_mesh = true
is_chaos aiopslab = false

abbrev pub skip : Action Unit
skip l = (ok tt, l)

-- `if test: action`
unfoldable pub when : Bool → Action Unit → Action Unit
when true action = action
when false action = skip

abbrev status_of : Exn → Text
status_of (blocked t) = codes "blocked"
status_of (cancelled t) = codes "cancelled"
status_of (interrupted t) = codes "interrupted"
status_of (other t) = codes "failed"

abbrev text_of : Exn → Text
text_of (blocked t) = t
text_of (cancelled t) = t
text_of (interrupted t) = t
text_of (other t) = t

-- The `except` clauses.
abbrev pub settle : Result Exn Unit × Locals → Locals
settle (ok u, l) = l
settle (err e, l) = record l {
  report = record l.report { final_status = status_of e; error = text_of e };
}

abbrev pub started : Locals
started = record {
  history = [];
  report = record {
    final_status = codes "failed";
    error = [];
    cleanup_error = none;
    human_review_required = false;
  };
  application = none;
  lock_acquired = false;
}

module _ (floats : Floats) (env : Environment) (config : RuntimeConfiguration floats)
    (request : RuntimeRequest floats) where
  abbrev pub emit : RuntimeStage → Action Unit
  emit stage = call (emitting stage) (env.emit stage)

  abbrev pub check : Action Unit
  check = call checking env.check

  -- Without a real run the lock is a context that does nothing.
  abbrev pub acquire : Action Unit
  acquire = when (is_real request.mode) (call entering env.enter)

  abbrev pub injects : Bool
  injects = is_real request.mode && is_chaos request.incident_source

  -- `lock_context.__enter__()` and the note that it returned.
  unfoldable pub lock_step : Action Unit
  lock_step = do acquire; set_lock

  -- `application = self.chaos.inject(...)`
  unfoldable pub inject_step : Action ChaosAnswer
  inject_step = do
    application ← call (injecting request.scenario_id) (env.inject request.scenario_id)
    set_application application
    λ l. (ok application, l)

  -- The fault of a real run against Chaos Mesh.
  unfoldable pub inject_fault : Action Unit
  unfolding inject_step
  inject_fault = do
    check
    found ← call preflighting env.preflight
    lift (if found.valid then ok tt else err (blocked found.stderr))
    check
    emit injecting_fault
    check
    application ← inject_step
    lift (if application.valid then ok tt else err (other application.stderr))
    check

  abbrev is_dry_run_status : Text → Bool
  is_dry_run_status t = text_eq t (codes "dry_run_validated")

  -- The events of the stages that the coordinator's report holds something about.
  unfoldable pub emit_stages : CoordinatorReport → Action Unit
  emit_stages r = do
    when r.has_validation (emit validating)
    when r.has_execution (emit executing)
    when (not (is_dry_run_status r.final_status) && r.has_monitoring) (emit observing_recovery)

  -- The `try` block.
  unfoldable pub body : Action Unit
  unfolding inject_fault emit_stages lock_step
  body = do
    lift (validate_request floats config request)
    call admitting env.admit
    check
    lock_step
    emit RuntimeStage.preflight
    when injects inject_fault
    check
    emit collecting_evidence
    emit agent_reasoning
    report ← call coordinating env.coordinate
    take_report report
    check
    emit_stages report

  abbrev pub review_needed : Text → Locals → Locals
  review_needed message l = record l {
    report = record l.report { cleanup_error = some message; human_review_required = true };
  }

  -- What `chaos.cleanup` did.
  abbrev pub cleaned : Result Exn ChaosAnswer → Locals → Locals
  cleaned (ok a) l = if a.valid then l else review_needed a.stderr l
  cleaned (err e) l = review_needed (text_of e) l

  -- The `finally` block: an exception of the first event leaves it, and leaves `run`.
  unfoldable pub clean_up : Option ChaosAnswer → Action Unit
  clean_up none = skip
  clean_up (some a) = do
    emit RuntimeStage.cleanup
    λ l. (ok tt, cleaned (env.clean l.history) (record l { history = cleaning ∷ l.history }))

  abbrev pub release : Action Unit
  release l =
      when (l.lock_acquired && is_real request.mode)
        (λ k. (ok tt, record k { history = leaving ∷ k.history })) l

  unfoldable pub finally_block : Action Unit
  unfolding clean_up
  finally_block = do (λ l. clean_up l.application l); release

  -- `_finish`, as far as it calls its event sink.
  abbrev pub finish : Action Unit
  finish = do when (is_chaos request.incident_source) (emit analyzing); emit RuntimeStage.completed

  unfoldable pub run : Result Exn Unit × Locals
  unfolding body finally_block
  run = (finally_block >> finish) (settle (body started))
