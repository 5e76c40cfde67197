-- ===== src/Runtime/Safety.antt =====
-- src/aiops_k8s_agents/experiment_runtime.py: the calls that `ExperimentRuntime.run` makes when it is not to
-- touch the cluster, and what it leaves when its `finally` block is cut short.
use aiops_research.Base.{
  Bool, true, false, none, some, [], ◌∷◌, Text, codes, Result, ok, err, Result-cases, Bool-cases,
  ◌≡◌, refl, ap, inl, inr, arith, if◌then◌else◌,
}
use aiops_research.Floats.{Floats}
use aiops_research.Jobs.Rows.{RuntimeStage, analyzing}
use aiops_research.Runtime.{
  Exn, blocked, ChaosAnswer, CoordinatorReport, RuntimeRequest, RuntimeConfiguration,
  validate_request,
}
use aiops_research.Runtime.Run.{
  Call, admitting, checking, entering, leaving, preflighting, emitting, injecting, coordinating,
  cleaning, History, Answer, Environment, Locals, Action, ◌>>=◌, ◌>>◌, call, lift, take_report,
  is_real, when, settle, started, lock_step, emit_stages, body, clean_up, finally_block, finish,
  run, injects, inject_fault, is_chaos,
}
use aiops_research.Runtime.Balance.{cleanings, exits, injections}
use aiops_research.Runtime.Cleanup.{tried, tried-IsBalanced}

-- The calls that reach the cluster, its lock or its fault injector.
abbrev pub touches : Call → Bool
touches entering = true
touches leaving = true
touches preflighting = true
touches (injecting i) = true
touches cleaning = true
touches admitting = false
touches checking = false
touches (emitting s) = false
touches coordinating = false

abbrev pub touching : History → Bool
touching [] = false
touching (c ∷ h) = if touches c then true else touching h

module _ (floats : Floats) (env : Environment) (config : RuntimeConfiguration floats)
    (request : RuntimeRequest floats) where
  record IsCalm (l : Locals) : Type 0 where
    pub untouched : touching l.history ≡ false
    pub fault_free : l.application ≡ none

  abbrev Calms : {A : Type 0} → Action A → Type 0
  Calms m = (l : Locals) → IsCalm l → IsCalm (m l).1

  Calms-bind :
      {A B : Type 0} (m : Action A) (f : A → Action B)
      → Calms m
      → ((a : A) → Calms (f a))
      → Calms (m >>= f)
  unfolding ◌>>=◌
  Calms-bind m f p q l v = elim (Result-cases (m l).0) [
    | inl (a, e) ↦ rw e (q a (m l).1 (p l v))
    | inr (x, e) ↦ rw e (p l v)
  ]

  Calms-then : {A B : Type 0} (m : Action A) (n : Action B) → Calms m → Calms n → Calms (m >> n)
  unfolding ◌>>◌
  Calms-then m n p q l v = elim (Result-cases (m l).0) [
    | inl (a, e) ↦ rw e (q (m l).1 (p l v))
    | inr (x, e) ↦ rw e (p l v)
  ]

  Calms-when : (b : Bool) (m : Action Unit) → Calms m → Calms (when b m)
  unfolding when
  Calms-when true m p = p
  Calms-when false m p = λ l v. v

  Calms-call :
      {A : Type 0} (c : Call) (answer : Answer A) → touches c ≡ false → Calms (call c answer)
  unfolding call
  Calms-call c answer e l v = record { untouched = rw e v.untouched; fault_free = v.fault_free }

  Calms-lift : (r : Result Exn Unit) → Calms (lift r)
  unfolding lift
  Calms-lift r l v = v

  Calms-emit_stages : (r : CoordinatorReport) → Calms (emit_stages floats env config request r)
  unfolding emit_stages
  Calms-emit_stages r = Calms-then _ _ (Calms-when _ _ (Calms-call (emitting _) _ refl)) (
      Calms-then _ _ (Calms-when _ _ (Calms-call (emitting _) _ refl))
        (Calms-when _ _ (Calms-call (emitting _) _ refl)))

  Calms-take_report : (r : CoordinatorReport) → Calms (take_report r)
  Calms-take_report r l v = record { untouched = v.untouched; fault_free = v.fault_free }

  Calms-finish : Calms (finish floats env config request)
  Calms-finish =
      Calms-then _ _ (Calms-when _ _ (Calms-call (emitting _) _ refl))
        (Calms-call (emitting _) _ refl)

  Calms-settle : (o : Result Exn Unit × Locals) → IsCalm o.1 → IsCalm (settle o)
  Calms-settle (ok u, l) v = v
  Calms-settle (err x, l) v = record { untouched = v.untouched; fault_free = v.fault_free }

  module _ (pretends : is_real request.mode ≡ false) where
    Calms-lock_step : Calms (lock_step floats env config request)
    unfolding lock_step ◌>>◌ when
    Calms-lock_step l v =
        rw pretends (record { untouched = v.untouched; fault_free = v.fault_free })

    Calms-inject :
        Calms (when (injects floats env config request) (inject_fault floats env config request))
    unfolding when
    Calms-inject l v = rw pretends v

    Calms-body : Calms (body floats env config request)
    unfolding body
    Calms-body = Calms-then _ _ (Calms-lift _) (
        Calms-then _ _ (Calms-call admitting _ refl) (
          Calms-then _ _ (Calms-call checking _ refl) (
            Calms-then _ _ Calms-lock_step (
              Calms-then _ _ (Calms-call (emitting _) _ refl) (
                Calms-then _ _ Calms-inject (
                  Calms-then _ _ (Calms-call checking _ refl) (
                    Calms-then _ _ (Calms-call (emitting _) _ refl) (
                      Calms-then _ _ (Calms-call (emitting _) _ refl) (
                        Calms-bind _ _ (Calms-call coordinating _ refl) (λ r.
                          Calms-then _ _ (Calms-take_report r) (
                            Calms-then _ _ (Calms-call checking _ refl)
                              (Calms-emit_stages r))))))))))))

    tried-IsCalm : IsCalm (tried env floats config request)
    tried-IsCalm =
        Calms-settle _ (Calms-body started (record { untouched = refl; fault_free = refl }))

    Calms-finally_block : Calms (finally_block floats env config request)
    unfolding finally_block clean_up ◌>>◌ when
    Calms-finally_block l v = elim (Bool-cases l.lock_acquired) [
      | inl e ↦
          rw (v.fault_free, pretends, e) (record { untouched = v.untouched; fault_free = refl })
      | inr e ↦
          rw (v.fault_free, pretends, e) (record { untouched = v.untouched; fault_free = refl })
    ]

    -- A run in another mode than the real one never calls the lock, the preflight of the fault injector, its
    -- injection or its cleanup.
    pub run_pretends : touching (run floats env config request).1.history ≡ false
    unfolding run
    run_pretends = (Calms-then _ _ Calms-finally_block Calms-finish _ tried-IsCalm).untouched

  -- When the event of the cleanup raises after a fault was applied, `run` has injected one fault and makes
  -- no cleanup, and it does not leave the lock.
  pub run_leaves_fault :
      (a : ChaosAnswer) (x : Exn)
      → (tried env floats config request).application ≡ some a
      → ((h : History) → env.emit RuntimeStage.cleanup h ≡ err x)
      → (injections env (run floats env config request).1.history ≡ 1)
        × (cleanings (run floats env config request).1.history ≡ 0)
        × (exits (run floats env config request).1.history ≡ 0)
  unfolding run finally_block clean_up ◌>>◌ call
  run_leaves_fault a x e raises =
      let v = tried-IsBalanced env floats config request in
      rw (e, raises (tried env floats config request).history)
        (ground (arith, v.injected, e), v.uncleaned, v.unleft)

  finish_keeps_report : (l : Locals) → (finish floats env config request l).1.report ≡ l.report
  unfolding ◌>>◌ when call
  finish_keeps_report l = elim (Bool-cases (is_chaos request.incident_source)) [
    | inr e ↦ rw e refl
    | inl e ↦ elim (Result-cases (env.emit analyzing l.history)) [
      | inl (u, f) ↦ rw (e, f) refl
      | inr (x, f) ↦ rw (e, f) refl
    ]
  ]

  -- A request that the validation refuses is reported as blocked, and touches nothing.
  pub run_refuses :
      (t : Text)
      → validate_request floats config request ≡ err (blocked t)
      → ((run floats env config request).1.report.final_status ≡ codes "blocked")
        × (touching (run floats env config request).1.history ≡ false)
  unfolding run body finally_block clean_up ◌>>◌ lift when call
  run_refuses t e = rw e (
    ap (λ r. r.final_status) (finish_keeps_report _),
    (Calms-finish _ (record { untouched = refl; fault_free = refl })).untouched,
  )
