-- ===== src/Monitor/Recovery.antt =====
-- src/aiops_k8s_agents/recovery_monitor.py: when the monitor reports a recovery.
use aiops_research.Base.{
  ℕ, zero, suc, ◌≤◌, ◌<◌, ℤ, pos, negsuc, ◌≤ℤ◌, ltb_ℤ, Bool, true, false, not, Option, none, some,
  List, [], ◌∷◌, Text, codes, text_eq_iff, contains_text, contains_text_iff, all, any, In, ok, err,
  Result-cases, Bool-cases, ◌≡◌, ◌≢◌, ◌↔◌, ◌⊎◌, inl, inr, refl, arith,
}
use aiops_research.Actions.{
  RecoveryActionKind, observe_only, rollout_restart, scale_out, foreign, Replicas, as_int,
  RecoveryAction, CommandResult,
}
use aiops_research.Monitor.{
  EvidenceSnapshot, Problem, is_up, is_empty, same_texts, workload_changed, transition_of, differs,
  snapshot_transition_ready, watch, assess,
}

abbrev pub Subset : List Text → List Text → Type 0
Subset xs ys = (t : Text) → In t xs → In t ys

-- There are pods, and they are not those that were there before.
abbrev pub Changed : EvidenceSnapshot → EvidenceSnapshot → Type 0
Changed b c =
    (c.pod_identities ≢ [])
    × (¬ (Subset b.pod_identities c.pod_identities × Subset c.pod_identities b.pod_identities))

-- The transition that an action of a kind brings about.
abbrev pub Moved :
    RecoveryActionKind → Option Replicas → EvidenceSnapshot → EvidenceSnapshot → Type 0
Moved scale_out none b c = ⊥
Moved scale_out (some r) b c =
    (as_int r ≡ some c.desired_replicas) × (¬ (c.desired_replicas ≤ℤ b.desired_replicas))
Moved rollout_restart r b c = Changed b c
Moved observe_only r b c = Changed b c ⊎ (¬ (c.available_replicas ≤ℤ b.available_replicas))
Moved foreign r b c = ⊥

-- The service is back: as many replicas as are wanted, at least one, every pod running or done, and
-- the transition that the action should bring about.
pub record IsRecovered (a : RecoveryAction) (b c : EvidenceSnapshot) : Type 0 where
  pub wanted : pos 1 ≤ℤ c.desired_replicas
  pub available : c.desired_replicas ≤ℤ c.available_replicas
  pub up : (t : Text) → In t c.pod_statuses → (t ≡ codes "Running") ⊎ (t ≡ codes "Succeeded")
  pub moved : Moved a.kind a.replicas b c

all_of_In : (p : Text → Bool) {t : Text} {xs : List Text} → In t xs → all p xs ≡ true → p t ≡ true
all_of_In p In.here h = ground arith
all_of_In p (In.there m) h = all_of_In p m (ground arith)

all_from :
    (p : Text → Bool) (xs : List Text) → ((t : Text) → In t xs → p t ≡ true) → all p xs ≡ true
all_from p [] f = refl
all_from p (x ∷ xs) f = ground (arith, f x In.here, all_from p xs (λ t m. f t (In.there m)))

subset_iff : (xs ys : List Text) → (all (λ x. contains_text x ys) xs ≡ true) ↔ Subset xs ys
subset_iff xs ys = (
  (λ h t m. (contains_text_iff t ys).0 (all_of_In (λ x. contains_text x ys) m h)),
  (λ s. all_from (λ x. contains_text x ys) xs (λ t m. (contains_text_iff t ys).1 (s t m))),
)

any-not : (p : Text → Bool) (xs : List Text) → any (λ t. not (p t)) xs ≡ not (all p xs)
any-not p [] = refl
any-not p (x ∷ xs) = ground (arith, any-not p xs)

is_up_iff : (t : Text) → (is_up t ≡ true) ↔ ((t ≡ codes "Running") ⊎ (t ≡ codes "Succeeded"))
is_up_iff t = ground (arith, text_eq_iff t (codes "Running"), text_eq_iff t (codes "Succeeded"))

up_iff :
    (ts : List Text)
    → (any (λ t. not (is_up t)) ts ≡ false)
      ↔ ((t : Text) → In t ts → (t ≡ codes "Running") ⊎ (t ≡ codes "Succeeded"))
up_iff ts = (
  (λ h t m. (is_up_iff t).0 (all_of_In is_up m (ground (arith, any-not is_up ts)))),
  (λ f.
      let ups = all_from is_up ts (λ t m. (is_up_iff t).1 (f t m)) in
      ground (arith, any-not is_up ts)),
)

is_empty_iff : (ts : List Text) → (is_empty ts ≡ false) ↔ (ts ≢ [])
is_empty_iff [] = ((λ h e. cc), (λ f. absurd (f refl)))
is_empty_iff (t ∷ ts) = ((λ h e. cc), (λ f. refl))

same_texts_iff : (xs ys : List Text) → (same_texts xs ys ≡ true) ↔ (Subset xs ys × Subset ys xs)
unfolding same_texts
same_texts_iff xs ys = ground (arith, subset_iff xs ys, subset_iff ys xs)

workload_changed_iff : (b c : EvidenceSnapshot) → (workload_changed b c ≡ true) ↔ Changed b c
unfolding workload_changed
workload_changed_iff b c =
    let xs = b.pod_identities in
    let ys = c.pod_identities in
    (
      (λ h. (
        (is_empty_iff ys).0 (ground arith),
        (λ s. absurd (ground (arith, (same_texts_iff xs ys).1 s))),
      )),
      (λ (f, g). elim (Bool-cases (same_texts xs ys)) [
        | inl same ↦ absurd (g ((same_texts_iff xs ys).0 same))
        | inr other ↦ ground (arith, (is_empty_iff ys).1 f, other)
      ]),
    )

differs_iff : (z : Option ℤ) (d : ℤ) → (differs z d ≡ false) ↔ (z ≡ some d)
differs_iff none d = ground arith
differs_iff (some (pos m)) (pos n) = ground arith
differs_iff (some (pos m)) (negsuc n) = ground arith
differs_iff (some (negsuc m)) (pos n) = ground arith
differs_iff (some (negsuc m)) (negsuc n) = ground arith

ltb_ℤ_iff : (a b : ℤ) → (ltb_ℤ a b ≡ true) ↔ (¬ (b ≤ℤ a))
ltb_ℤ_iff a b = ground arith

transition_of_iff :
    (k : RecoveryActionKind) (r : Option Replicas) (b c : EvidenceSnapshot)
    → (transition_of k r b c ≡ ok tt) ↔ Moved k r b c
unfolding transition_of
transition_of_iff scale_out none b c = ground arith
transition_of_iff scale_out (some r) b c = ground (arith, differs_iff (as_int r) c.desired_replicas)
transition_of_iff rollout_restart r b c = (
  (λ h. (workload_changed_iff b c).0 (ground arith)),
  (λ m. let e = (workload_changed_iff b c).1 m in ground arith),
)
transition_of_iff observe_only r b c = (
  (λ h. elim (Bool-cases (workload_changed b c)) [
    | inl e ↦ inl ((workload_changed_iff b c).0 e)
    | inr n ↦ inr ((ltb_ℤ_iff b.available_replicas c.available_replicas).0 (ground (arith, n)))
  ]),
  (λ m. elim m [
    | inl e ↦ let t = (workload_changed_iff b c).1 e in ground arith
    | inr f ↦ let t = (ltb_ℤ_iff b.available_replicas c.available_replicas).1 f in ground arith
  ]),
)
transition_of_iff foreign r b c = ground arith

snapshot_transition_ready_iff :
    (a : RecoveryAction) (b c : EvidenceSnapshot)
    → (snapshot_transition_ready a b c ≡ ok tt) ↔ IsRecovered a b c
unfolding snapshot_transition_ready
snapshot_transition_ready_iff a b c = (
  (λ h. record {
    wanted = ground arith;
    available = ground arith;
    up = (up_iff c.pod_statuses).0 (ground arith);
    moved = (transition_of_iff a.kind a.replicas b c).0 (ground arith);
  }),
  (λ r.
      let ups = (up_iff c.pod_statuses).1 r.up in
      let moves = (transition_of_iff a.kind a.replicas b c).1 r.moved in
      let some_wanted = r.wanted in let all_available = r.available in ground arith),
)

not_ready :
    (a : RecoveryAction) (b c : EvidenceSnapshot) (p : Problem)
    → snapshot_transition_ready a b c ≡ err p
    → ¬ IsRecovered a b c
not_ready a b c p e r =
    let ready = (snapshot_transition_ready_iff a b c).1 r in ground (arith, ready, e)

module _ {W : Type 0} (collect : W → EvidenceSnapshot × W) where
  -- The snapshot after `k` more questions to the provider.
  unfoldable pub snapshot_at : ℕ → EvidenceSnapshot → W → EvidenceSnapshot
  snapshot_at zero c w = c
  snapshot_at (suc k) c w = let (next, w') = collect w in snapshot_at k next w'

  watch_iff :
      (a : RecoveryAction) (b : EvidenceSnapshot) (left : ℕ) (c : EvidenceSnapshot) (w : W)
      → ((watch collect a b left c w).0.recovery_success ≡ true)
        ↔ ((k : ℕ) × (k ≤ left) × IsRecovered a b (snapshot_at k c w))
  unfolding watch snapshot_at
  watch_iff a b zero c w = elim (Result-cases (snapshot_transition_ready a b c)) [
    | inl (u, e) ↦
        rw (watch, e)
          ((λ h. (0, omega arith, (snapshot_transition_ready_iff a b c).0 e)), (λ s. refl))
    | inr (p, e) ↦
        rw (watch, e) ((λ h. cc), (λ (k, l, r). absurd (not_ready a b c p e (at_zero k l r))))
  ]
    where
      at_zero : (k : ℕ) → k ≤ 0 → IsRecovered a b (snapshot_at k c w) → IsRecovered a b c
      at_zero zero l r = r
      at_zero (suc k) l r = absurd (omega arith)
  watch_iff a b (suc left) c w = elim (Result-cases (snapshot_transition_ready a b c)) [
    | inl (u, e) ↦
        rw (watch, e)
          ((λ h. (0, omega arith, (snapshot_transition_ready_iff a b c).0 e)), (λ s. refl))
    | inr (p, e) ↦
        let (next, w') = collect w in
        let rest = watch_iff a b left next w' in
        rw (watch, e)
          (
            (λ h. let (k, l, r) = rest.0 h in (suc k, omega (arith, l), r)),
            (λ (k, l, r). later k l r p e rest),
          )
  ]
    where
      later :
          (k : ℕ)
          → k ≤ suc left
          → IsRecovered a b (snapshot_at k c w)
          → (p : Problem) → snapshot_transition_ready a b c ≡ err p
          → ((watch collect a b left (collect w).0 (collect w).1).0.recovery_success ≡ true)
            ↔ ((k : ℕ) × (k ≤ left) × IsRecovered a b (snapshot_at k (collect w).0 (collect w).1))
          → (watch collect a b left (collect w).0 (collect w).1).0.recovery_success ≡ true
      later zero l r p e rest = absurd (not_ready a b c p e r)
      later (suc k) l r p e rest = rest.1 (k, omega (arith, l), r)

  -- The monitor reports a recovery exactly when the command succeeded and one of the snapshots of
  -- its attempts, the one given or one of those that it asks for, shows the service recovered:
  -- enough replicas, every pod running or done, and the transition of the action.
  pub assess_iff :
      (a : RecoveryAction) (b after : EvidenceSnapshot) (max_attempts : ℕ) (result : CommandResult)
      (w : W)
      → ((assess collect a b max_attempts after result w).0.recovery_success ≡ true) ↔ (
          (result.valid ≡ true)
          × ((k : ℕ) × (k < max_attempts) × IsRecovered a b (snapshot_at k after w)))
  unfolding assess
  assess_iff a b after zero result w =
      ((λ h. absurd (ground arith)), (λ (v, (k, l, r)). absurd (omega (arith, l))))
  assess_iff a b after (suc left) result w = elim (Bool-cases result.valid) [
    | inl v ↦
        let seen = watch_iff a b left after w in
        rw v (
          (λ h. let (k, l, r) = seen.0 h in (refl, (k, omega (arith, l), r))),
          (λ (t, (k, l, r)). seen.1 (k, omega (arith, l), r)),
        )
    | inr n ↦ rw n ((λ h. cc), (λ (t, x). cc))
  ]
