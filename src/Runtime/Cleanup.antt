-- ===== src/Runtime/Cleanup.antt =====
-- src/aiops_k8s_agents/experiment_runtime.py: which calls of `ExperimentRuntime.run` are balanced by
-- which others.
use aiops_research.Base.{
  Bool, true, false, ◌&&◌, ◌∷◌, Result, ok, err, Result-cases, Bool-cases, Option-cases, ◌≡◌, refl,
  inl, inr, arith,
}
use aiops_research.Floats.{Floats}
use aiops_research.Jobs.Rows.{RuntimeStage, analyzing}
use aiops_research.Runtime.{
  Exn, ChaosAnswer, CoordinatorReport, RuntimeRequest, RuntimeConfiguration,
}
use aiops_research.Runtime.Run.{
  admitting, checking, preflighting, emitting, coordinating, History, Answer, Environment, Locals,
  Action, ◌>>=◌, ◌>>◌, call, take_report, is_real, when, settle, started, emit, lock_step,
  inject_step, inject_fault, emit_stages, body, cleaned, clean_up, release, finally_block, finish,
  run,
}
use aiops_research.Runtime.Balance.{
  flag, cleanings, exits, injections, entries, IsBalanced, Inv, Runs, Runs-bind, Runs-then,
  Runs-lift, Runs-when, Runs-call, Runs-first, NoLock, NoFault, Anything, settle-IsBalanced,
}

module _ (env : Environment) where
  module _ (floats : Floats) (config : RuntimeConfiguration floats)
      (request : RuntimeRequest floats) where
    abbrev mode_is_real : Bool
    mode_is_real = is_real request.mode

    Runs-lock_step : Runs env mode_is_real NoLock (lock_step floats env config request) NoFault
    unfolding lock_step ◌>>◌ when call
    Runs-lock_step l ((v, (k, a))) = elim (Bool-cases mode_is_real) [
      | inr pretend ↦ rw pretend (
        record {
          injected = v.injected;
          entered = ground (arith, v.entered, k);
          uncleaned = v.uncleaned;
          unleft = v.unleft;
        },
        (λ u h. a),
      )
      | inl real ↦ elim (Result-cases (env.enter l.history)) [
        | inl (u, e) ↦
            rw (real, e)
              (
                record {
                  injected = v.injected;
                  entered = ground (arith, v.entered, k, e);
                  uncleaned = v.uncleaned;
                  unleft = v.unleft;
                },
                (λ u h. a),
              )
        | inr (x, e) ↦
            rw (real, e)
              (
                record {
                  injected = v.injected;
                  entered = ground (arith, v.entered, k, e);
                  uncleaned = v.uncleaned;
                  unleft = v.unleft;
                },
                (λ u h. cc),
              )
      ]
    ]

    Runs-inject_step :
        Runs env mode_is_real NoFault (inject_step floats env config request) Anything
    unfolding inject_step ◌>>=◌ ◌>>◌ call
    Runs-inject_step l (v, a) = elim (Result-cases (env.inject request.scenario_id l.history)) [
      | inl (u, e) ↦ rw e (
        record {
          injected = ground (arith, v.injected, a, e);
          entered = v.entered;
          uncleaned = v.uncleaned;
          unleft = v.unleft;
        },
        (λ u h. tt),
      )
      | inr (x, e) ↦ rw e (
        record {
          injected = ground (arith, v.injected, a, e);
          entered = v.entered;
          uncleaned = v.uncleaned;
          unleft = v.unleft;
        },
        (λ u h. tt),
      )
    ]

    Runs-inject_fault :
        Runs env mode_is_real NoFault (inject_fault floats env config request) Anything
    unfolding inject_fault
    Runs-inject_fault = Runs-first env mode_is_real NoFault Anything checking _ _ tt (
        Runs-bind env mode_is_real NoFault NoFault Anything _ _
          (Runs-call env mode_is_real NoFault preflighting _ tt)
          (λ found.
            Runs-then env mode_is_real NoFault NoFault Anything _ _
              (Runs-lift env mode_is_real NoFault _)
              (Runs-first env mode_is_real NoFault Anything checking _ _ tt (
                Runs-first env mode_is_real NoFault Anything (emitting _) _ _ tt (
                  Runs-first env mode_is_real NoFault Anything checking _ _ tt (
                    Runs-bind env mode_is_real NoFault Anything Anything _ _ Runs-inject_step
                      (λ application.
                        Runs-then env mode_is_real Anything Anything Anything _ _
                          (Runs-lift env mode_is_real Anything _)
                          (Runs-call env mode_is_real Anything checking _ tt))))))))

    Runs-emit_when :
        (b : Bool) (stage : RuntimeStage)
        → Runs env mode_is_real Anything (when b (emit floats env config request stage)) Anything
    Runs-emit_when b stage =
        Runs-when env mode_is_real Anything Anything b _
          (Runs-call env mode_is_real Anything (emitting stage) _ tt) (λ k a f. tt)

    Runs-emit_stages :
        (r : CoordinatorReport)
        → Runs env mode_is_real Anything (emit_stages floats env config request r) Anything
    unfolding emit_stages
    Runs-emit_stages r =
        Runs-then env mode_is_real Anything Anything Anything _ _ (Runs-emit_when _ _) (
          Runs-then env mode_is_real Anything Anything Anything _ _ (Runs-emit_when _ _)
            (Runs-emit_when _ _))

    Runs-take_report :
        (r : CoordinatorReport) → Runs env mode_is_real Anything (take_report r) Anything
    Runs-take_report r l v = (
      record {
        injected = v.0.injected;
        entered = v.0.entered;
        uncleaned = v.0.uncleaned;
        unleft = v.0.unleft;
      },
      (λ a h. tt),
    )

    -- From the events of the evidence on.
    Runs-body : Runs env mode_is_real NoLock (body floats env config request) Anything
    unfolding body
    Runs-body =
        Runs-then env mode_is_real NoLock NoLock Anything _ _ (Runs-lift env mode_is_real NoLock _)
          (Runs-first env mode_is_real NoLock Anything admitting _ _ tt (
            Runs-first env mode_is_real NoLock Anything checking _ _ tt (
              Runs-then env mode_is_real NoLock NoFault Anything _ _ Runs-lock_step (
                Runs-first env mode_is_real NoFault Anything (emitting _) _ _ tt (
                  Runs-then env mode_is_real NoFault Anything Anything _ _
                    (Runs-when env mode_is_real NoFault Anything _ _ Runs-inject_fault
                      (λ k a f. tt))
                    (Runs-first env mode_is_real Anything Anything checking _ _ tt (
                      Runs-first env mode_is_real Anything Anything (emitting _) _ _ tt (
                        Runs-first env mode_is_real Anything Anything (emitting _) _ _ tt (
                          Runs-bind env mode_is_real Anything Anything Anything _ _
                            (Runs-call env mode_is_real Anything coordinating _ tt)
                            (λ r.
                              Runs-then env mode_is_real Anything Anything Anything _ _
                                (Runs-take_report r)
                                (Runs-first env mode_is_real Anything Anything checking _ _ tt
                                  (Runs-emit_stages r))))))))))))

    started-Inv : Inv env mode_is_real NoLock started
    started-Inv =
        (record { injected = refl; entered = refl; uncleaned = refl; unleft = refl }, (refl, refl))

    abbrev pub tried : Locals
    tried = settle (body floats env config request started)

    pub tried-IsBalanced : IsBalanced env mode_is_real tried
    tried-IsBalanced = settle-IsBalanced env mode_is_real _ (Runs-body started started-Inv).0

  record IsCleaned (real : Bool) (l : Locals) : Type 0 where
    pub cleaned : cleanings l.history ≡ injections env l.history
    pub entered : entries env l.history ≡ flag (l.lock_acquired && real)
    pub unleft : exits l.history ≡ 0

  record IsSettled (l : Locals) : Type 0 where
    pub cleaned : cleanings l.history ≡ injections env l.history
    pub left : exits l.history ≡ entries env l.history

  abbrev Keeps : {A : Type 0} → Action A → Type 0
  Keeps m = (l : Locals) → IsSettled l → IsSettled (m l).1

  Keeps-then : {A B : Type 0} (m : Action A) (n : Action B) → Keeps m → Keeps n → Keeps (m >> n)
  unfolding ◌>>◌
  Keeps-then m n p q l v = elim (Result-cases (m l).0) [
    | inl (a, e) ↦ rw e (q (m l).1 (p l v))
    | inr (x, e) ↦ rw e (p l v)
  ]

  Keeps-when : (b : Bool) (m : Action Unit) → Keeps m → Keeps (when b m)
  unfolding when
  Keeps-when true m p = p
  Keeps-when false m p = λ l v. v

  Keeps-emitting :
      {A : Type 0} (s : RuntimeStage) (answer : Answer A) → Keeps (call (emitting s) answer)
  unfolding call
  Keeps-emitting s answer l v = record { cleaned = v.cleaned; left = v.left }

  module _ (floats : Floats) (config : RuntimeConfiguration floats)
      (request : RuntimeRequest floats) where
    Keeps-finish : Keeps (finish floats env config request)
    Keeps-finish =
        Keeps-then _ _ (Keeps-when _ _ (Keeps-emitting analyzing _))
          (Keeps-emitting RuntimeStage.completed _)

    cleaned-IsCleaned :
        (r : Result Exn ChaosAnswer) (l : Locals)
        → IsCleaned (is_real request.mode) l
        → IsCleaned (is_real request.mode) (cleaned floats env config request r l)
    cleaned-IsCleaned (ok a) l v = elim (Bool-cases a.valid) [
      | inl e ↦ rw e v
      | inr e ↦ rw e (record { cleaned = v.cleaned; entered = v.entered; unleft = v.unleft })
    ]
    cleaned-IsCleaned (err x) l v = record {
      cleaned = v.cleaned;
      entered = v.entered;
      unleft = v.unleft;
    }

    clean_up_lem :
        (l : Locals)
        → ((h : History) → env.emit RuntimeStage.cleanup h ≡ ok tt)
        → IsBalanced env (is_real request.mode) l
        → ((clean_up floats env config request l.application l).0 ≡ ok tt)
          × IsCleaned (is_real request.mode) (clean_up floats env config request l.application l).1
    unfolding clean_up ◌>>◌ call
    clean_up_lem l heard v = elim (Option-cases l.application) [
      | inl e ↦ rw e (
        refl,
        record {
          cleaned = ground (arith, v.injected, v.uncleaned, e);
          entered = v.entered;
          unleft = v.unleft;
        },
      )
      | inr (a, e) ↦
          rw (e, heard l.history)
            (
              refl,
              cleaned-IsCleaned (env.clean (emitting RuntimeStage.cleanup ∷ l.history)) _ (record {
                cleaned = ground (arith, v.injected, v.uncleaned, e);
                entered = v.entered;
                unleft = v.unleft;
              }),
            )
    ]

    release_lem :
        (l : Locals)
        → IsCleaned (is_real request.mode) l
        → ((release floats env config request l).0 ≡ ok tt)
          × IsSettled (release floats env config request l).1
    unfolding when
    release_lem l v = elim (Bool-cases (l.lock_acquired && is_real request.mode)) [
      | inl e ↦
          rw e (refl, record { cleaned = v.cleaned; left = ground (arith, v.entered, v.unleft, e) })
      | inr e ↦
          rw e (refl, record { cleaned = v.cleaned; left = ground (arith, v.entered, v.unleft, e) })
    ]

    -- Whatever the environment answers, when the event of the cleanup does not raise: `run` calls the cleanup
    -- once for every injection that returned, and leaves the lock once for every time it was taken.
    pub run_balances :
        ((h : History) → env.emit RuntimeStage.cleanup h ≡ ok tt)
        → (cleanings (run floats env config request).1.history
            ≡ injections env (run floats env config request).1.history)
          × (exits (run floats env config request).1.history
              ≡ entries env (run floats env config request).1.history)
    unfolding run finally_block ◌>>◌
    run_balances heard =
        let up =
          clean_up_lem (tried floats config request) heard
            (tried-IsBalanced floats config request) in
        let out = release_lem _ up.1 in
        rw (up.0, out.0) ((Keeps-finish _ out.1).cleaned, (Keeps-finish _ out.1).left)
