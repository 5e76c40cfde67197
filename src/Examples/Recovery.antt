-- ===== src/Examples/Recovery.antt =====
-- The recovery monitor on a restart, and the lock with two processes
-- (src/aiops_k8s_agents/recovery_monitor.py and src/aiops_k8s_agents/operation_lock.py).
use aiops_research.Base.{
  ℕ, suc, ◌<◌, pos, ◌≡◌, ◌↔◌, ◌≢◌, refl, arith, true, false, none, some, List, [], ◌∷◌, Text, codes,
}
use aiops_research.Actions.{rollout_restart, RecoveryAction, CommandResult}
use aiops_research.Monitor.{EvidenceSnapshot, assess}
use aiops_research.Monitor.Recovery.{IsRecovered, snapshot_at, assess_iff}
use aiops_research.Lock.{
  Content, blank, written, held, Facts, LockEvent, is_stale, act, step, run, start,
}
use aiops_research.Lock.Exclusion.{run_excludes}
use aiops_research.Lock.Takeover.{event, run_takeover}

abbrev restart : RecoveryAction
restart = record {
  namespace = codes "shop";
  deployment = codes "web";
  kind = rollout_restart;
  replicas = none;
  reason = [];
}

abbrev snapshot : Text → EvidenceSnapshot
snapshot pod = record {
  namespace = codes "shop";
  deployment = codes "front";
  desired_replicas = pos 1;
  available_replicas = pos 1;
  pod_statuses = codes "Running" ∷ [];
  pod_identities = pod ∷ [];
}

-- A provider that sees the new pod.
abbrev collect : ℕ → EvidenceSnapshot × ℕ
collect w = (snapshot (codes "new"), suc w)

abbrev done : CommandResult
done = record {
  command = [];
  mode = codes "real";
  valid = true;
  stdout = [];
  stderr = [];
  by_go_guard = false;
}

assess_iff_example :
    ((assess collect restart
        (snapshot (codes "old"))
        3
        (snapshot (codes "old"))
        done
        0).0.recovery_success
      ≡ true)
    ↔ ((true ≡ true)
        × ((k : ℕ) × (k < 3)
            × IsRecovered restart
                (snapshot (codes "old"))
                (snapshot_at collect k (snapshot (codes "old")) 0)))
assess_iff_example =
    assess_iff collect restart (snapshot (codes "old")) (snapshot (codes "old")) 3 done 0

-- An owner on this host that runs, as long as the file is not too old.
abbrev alive : Facts
alive = record { same_host = true; is_running = true; is_expired = false }

abbrev dead : Facts
dead = record { same_host = true; is_running = false; is_expired = false }

abbrev calls : List LockEvent
calls = event 1 alive ∷ event 2 alive ∷ event 1 alive ∷ event 2 alive ∷ []

one_is_held : (run calls (start none)).phases 1 ≡ held
unfolding run step act
one_is_held = refl

alive_is_fresh : (c : Content) → is_stale alive c ≡ false
alive_is_fresh (blank i) = refl
alive_is_fresh (written i) = refl

one_not_two : ◌≢◌ {A = ℕ} 1 2
one_not_two e = omega (arith, e)

run_excludes_example : ¬ ((run calls (start none)).phases 2 ≡ held)
run_excludes_example =
    run_excludes calls none 1 2
      (alive_is_fresh, (alive_is_fresh, (alive_is_fresh, (alive_is_fresh, tt)))) one_not_two
      one_is_held

run_takeover_example :
    (es : List LockEvent) × ((run es (start (some (written 7)))).phases 1 ≡ held)
    × ((run es (start (some (written 7)))).phases 2 ≡ held)
run_takeover_example = run_takeover 1 2 7 dead one_not_two refl
