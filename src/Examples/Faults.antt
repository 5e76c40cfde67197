-- ===== src/Examples/Faults.antt =====
-- A run with a fault of Chaos Mesh (src/aiops_k8s_agents/experiment_runtime.py).
use aiops_research.Base.{
  ◌≡◌, refl, true, false, some, [], ◌∷◌, Text, codes, ok, err, text_eq, contains_text, Option,
}
use aiops_research.Executor.{ExecutionMode, real, dry_run}
use aiops_research.Jobs.Rows.{RuntimeStage, chaos_mesh}
use aiops_research.Runtime.{
  blocked, other, ChaosAnswer, RuntimeRequest, RuntimeConfiguration, Scenario, scenario_of,
  validate_request, validate_scenario,
}
use aiops_research.Runtime.Run.{
  Environment, Answer, lock_step, inject_step, inject_fault, emit_stages, body, clean_up,
  finally_block, run, ◌>>=◌, ◌>>◌, call, lift, when,
}
use aiops_research.Runtime.Balance.{cleanings, exits, injections, entries}
use aiops_research.Runtime.Cleanup.{tried, run_balances}
use aiops_research.Runtime.Safety.{touching, run_pretends, run_leaves_fault, run_refuses}
use aiops_research.Runtime.Preflight.{
  ChaosPreflight, RuntimePreflightResult, preflight, ready, preflight_ready,
}
use aiops_research.Examples.Votes.{hundredths}

abbrev scenario : Scenario hundredths
scenario = record {
  manifest = codes "pod-kill.yaml";
  incident_source = chaos_mesh;
  benchmark_id = [];
  namespace = some (codes "shop");
  deployment = some (codes "front");
  metric = some (codes "cpu");
  threshold = some 80;
}

abbrev configuration : RuntimeConfiguration hundredths
configuration = record {
  allowed_namespaces = codes "shop" ∷ [];
  allowed_deployments = codes "front" ∷ [];
  scenarios = (codes "pod-kill", scenario) ∷ [];
  metric_queries = codes "cpu" ∷ [];
}

abbrev request_for : ExecutionMode → Text → RuntimeRequest hundredths
request_for mode namespace = record {
  scenario_id = codes "pod-kill";
  namespace = namespace;
  deployment = codes "front";
  metric = codes "cpu";
  threshold = 80;
  mode = mode;
  incident_source = chaos_mesh;
  benchmark_id = [];
}

abbrev real_request : RuntimeRequest hundredths
real_request = request_for real (codes "shop")

abbrev good : ChaosAnswer
good = record { valid = true; stderr = [] }

abbrev heard : RuntimeStage → Answer (Unit {0})
heard s h = ok tt

-- A sink that fails at the event of the cleanup.
abbrev deaf : RuntimeStage → Answer (Unit {0})
deaf RuntimeStage.cleanup h = err (other (codes "database is locked"))
deaf _ h = ok tt

abbrev world : (RuntimeStage → Answer (Unit {0})) → Environment
world emit = record {
  admit = λ h. ok tt;
  check = λ h. ok tt;
  enter = λ h. ok tt;
  preflight = λ h. ok good;
  emit = emit;
  inject = λ i h. ok good;
  coordinate = λ h. err (other (codes "no evidence"));
  clean = λ h. ok good;
}

run_balances_example :
    (cleanings (run hundredths (world heard) configuration real_request).1.history
      ≡ injections
          (world heard)
          (run hundredths (world heard) configuration real_request).1.history)
    × (exits (run hundredths (world heard) configuration real_request).1.history
        ≡ entries (world heard) (run hundredths (world heard) configuration real_request).1.history)
run_balances_example = run_balances (world heard) hundredths configuration real_request (λ h. refl)

one_cleaning : cleanings (run hundredths (world heard) configuration real_request).1.history ≡ 1
unfolding run body finally_block clean_up lock_step inject_step inject_fault emit_stages ◌>>=◌ ◌>>◌
    call lift when validate_request validate_scenario scenario_of text_eq contains_text
one_cleaning = refl

run_pretends_example :
    touching
      (run hundredths (world heard) configuration (request_for dry_run (codes "shop"))).1.history
    ≡ false
run_pretends_example =
    run_pretends hundredths (world heard) configuration (request_for dry_run (codes "shop")) refl

bank_refused :
    validate_request hundredths configuration (request_for real (codes "bank")) ≡ err (blocked [])
unfolding validate_request text_eq contains_text
bank_refused = refl

refused_run :
    ((run hundredths
        (world heard)
        configuration
        (request_for real (codes "bank"))).1.report.final_status
      ≡ codes "blocked")
    × (touching
          (run hundredths (world heard) configuration (request_for real (codes "bank"))).1.history
        ≡ false)
refused_run =
    run_refuses hundredths (world heard) configuration (request_for real (codes "bank")) []
      bank_refused

tried_applied : (tried (world deaf) hundredths configuration real_request).application ≡ some good
unfolding body lock_step inject_step inject_fault emit_stages ◌>>=◌ ◌>>◌ call lift when
    validate_request validate_scenario scenario_of text_eq contains_text
tried_applied = refl

run_leaves_fault_example :
    (injections (world deaf) (run hundredths (world deaf) configuration real_request).1.history ≡ 1)
    × (cleanings (run hundredths (world deaf) configuration real_request).1.history ≡ 0)
    × (exits (run hundredths (world deaf) configuration real_request).1.history ≡ 0)
run_leaves_fault_example =
    run_leaves_fault hundredths (world deaf) configuration real_request good
      (other (codes "database is locked")) tried_applied (λ h. refl)

abbrev ready_chaos : Text → Option ChaosPreflight
ready_chaos i =
    some
      (record { valid = true; resource_kind = some (codes "PodChaos"); missing_prerequisites = [] })

shop_validates : validate_request hundredths configuration real_request ≡ ok tt
unfolding validate_request validate_scenario scenario_of text_eq contains_text
shop_validates = refl

preflight_ready_example :
    (p : RuntimePreflightResult) × (preflight hundredths configuration ready_chaos
        (λ r. false)
        real_request
      ≡ ok p)
    × (p.valid ≡ ready hundredths configuration ready_chaos (λ r. false) real_request)
preflight_ready_example =
    preflight_ready hundredths configuration ready_chaos (λ r. false) real_request shop_validates
