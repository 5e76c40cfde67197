-- ===== src/Treatment/Record.antt =====
-- src/aiops_k8s_agents/recovery_runner.py: what the record of a treatment may claim.
use aiops_research.Base.{
  true, false, List, [], Text, Result, ok, err, Result-cases, &&-eq-true, ◌≡◌, refl, sym, subst,
  ◌∙◌, inl, inr, arith,
}
use aiops_research.Floats.{Floats}
use aiops_research.Actions.{CommandResult}
use aiops_research.Treatment.{
  Ratios, EvidenceSource, prometheus, kubernetes_availability, pod_replacement, Snapshot,
  RecoveryExperimentConfig, RecoveryTreatment,
}
use aiops_research.Treatment.Wait.{Runtime}
use aiops_research.Treatment.Run.{
  TreatmentRecord, empty_treatment_record, State, Act, ◌>>=◌, ◌>>◌, ask, lift, note,
  reset_treatment, first_evidence, detect_fault, is_available, conclusion, recovery_wait,
  await_recovery, command_and_await, treat, inject_and_treat, observe_and_treat, body, settle,
  clean, run_recovery_treatment,
}

-- A claimed recovery is measured, with a valid command, full availability after rounding and no error.
pub record IsBacked {floats : Floats} (r : TreatmentRecord floats) : Type 0 where
  pub measured : r.measurement_valid ≡ true
  pub safe : r.safety_valid ≡ true
  pub available : floats.geb r.availability_recovery floats.one ≡ true
  pub faultless : r.error ≡ []

module _ (floats : Floats) (ratio : Ratios floats.F) {W : Type 0} (runtime : Runtime floats W)
    (environ : List (Text × Text)) (config : RecoveryExperimentConfig floats)
    (treatment : RecoveryTreatment floats) where
  abbrev Fact : Type 1
  Fact = TreatmentRecord floats → Type 0

  -- Nothing is claimed and nothing went wrong yet.
  abbrev Open : Fact
  Open r = (r.recovery_success ≡ false) × (r.error ≡ [])

  abbrev OpenWith : CommandResult → Fact
  OpenWith result r =
      (r.recovery_success ≡ false) × (r.error ≡ []) × (r.safety_valid ≡ result.valid)

  -- From a record with `F` a step comes to one with `G`, or raises with nothing claimed.
  abbrev Runs :
      {A : Type 0}
      → Fact
      → Act floats ratio runtime environ config treatment A
      → (A → Fact)
      → Type 0
  Runs F m G =
      (s : State floats ratio runtime environ config treatment)
      → F s.0
      → ((a : _) → (m s).0 ≡ ok a → G a (m s).1.0)
        × ((e : Text) → (m s).0 ≡ err e → (m s).1.0.recovery_success ≡ false)

  Runs-bind :
      {A B : Type 0} (F : Fact) (G : A → Fact) (H : B → Fact)
      (m : Act floats ratio runtime environ config treatment A)
      (f : A → Act floats ratio runtime environ config treatment B)
      → Runs F m G
      → ((a : A) → Runs (G a) (f a) H)
      → Runs F (◌>>=◌ floats ratio runtime environ config treatment m f) H
  unfolding ◌>>=◌
  Runs-bind F G H m f p q s v = elim (Result-cases (m s).0) [
    | inl (a, e) ↦ rw e (q a (m s).1 ((p s v).0 a e))
    | inr (x, e) ↦ rw e ((λ a h. cc), (λ y h. (p s v).1 x e))
  ]

  Runs-then :
      {B : Type 0} (F : Fact) (G : Unit {0} → Fact) (H : B → Fact)
      (m : Act floats ratio runtime environ config treatment (Unit {0}))
      (n : Act floats ratio runtime environ config treatment B)
      → Runs F m G
      → Runs (G tt) n H
      → Runs F (◌>>◌ floats ratio runtime environ config treatment m n) H
  unfolding ◌>>◌
  Runs-then F G H m n p q s v = elim (Result-cases (m s).0) [
    | inl (a, e) ↦ rw e (q (m s).1 ((p s v).0 a e))
    | inr (x, e) ↦ rw e ((λ a h. cc), (λ y h. (p s v).1 x e))
  ]

  abbrev Unclaimed : Fact → Type 0
  Unclaimed F = (r : TreatmentRecord floats) → F r → r.recovery_success ≡ false

  Runs-ask :
      {A : Type 0} (F : Fact) (call : W → Result Text A × W)
      → Unclaimed F
      → Runs F (ask floats ratio runtime environ config treatment call) (λ a. F)
  unfolding ask
  Runs-ask F call closed (r, w) v = ((λ a h. v), (λ e h. closed r v))

  Runs-lift :
      {A : Type 0} (F : Fact) (a : Result Text A)
      → Unclaimed F
      → Runs F (lift floats ratio runtime environ config treatment a) (λ b. F)
  unfolding lift
  Runs-lift F a closed (r, w) v = ((λ b h. v), (λ e h. closed r v))

  Runs-note :
      (F G : Fact) (change : TreatmentRecord floats → TreatmentRecord floats)
      → ((r : TreatmentRecord floats) → F r → G (change r))
      → Runs F (note floats ratio runtime environ config treatment change) (λ u. G)
  unfolding note
  Runs-note F G change keeps (r, w) v = ((λ a h. keeps r v), (λ e h. cc))

  unclaimed : Unclaimed Open
  unclaimed r v = v.0

  unclaimed_with : (result : CommandResult) → Unclaimed (OpenWith result)
  unclaimed_with result r v = v.0

  Runs-reset_treatment :
      Runs Open (reset_treatment floats ratio runtime environ config treatment) (λ u. Open)
  unfolding reset_treatment
  Runs-reset_treatment =
      Runs-then Open (λ u. Open) (λ u. Open) _ _ (Runs-ask Open _ unclaimed)
        (Runs-then Open (λ u. Open) (λ u. Open) _ _ (Runs-ask Open _ unclaimed)
          (Runs-ask Open _ unclaimed))

  Runs-first_evidence :
      (source : EvidenceSource) (query : Text) (before : Snapshot)
      → Runs Open
          (first_evidence floats ratio runtime environ config treatment source query before)
          (λ v. Open)
  unfolding first_evidence
  Runs-first_evidence prometheus query before = Runs-ask Open _ unclaimed
  Runs-first_evidence kubernetes_availability query before = Runs-lift Open _ unclaimed
  Runs-first_evidence pod_replacement query before = Runs-lift Open _ unclaimed

  Runs-see :
      (query : Text) (before : Snapshot)
      → Runs Open
          (detect_fault floats ratio runtime environ config treatment prometheus query before)
          (λ v. Open)
  unfolding detect_fault
  Runs-see query before =
      Runs-bind Open (λ v. Open) (λ v. Open) _ _ (Runs-ask Open _ unclaimed)
        (λ found.
          Runs-bind Open (λ v. Open) (λ v. Open) _ _ (Runs-ask Open _ unclaimed)
            (λ seen.
              Runs-then Open (λ u. Open) (λ v. Open) _ _ (Runs-note Open Open _ (λ r v. v))
                (Runs-lift Open _ unclaimed)))

  Runs-detect_fault :
      (source : EvidenceSource) (query : Text) (before : Snapshot)
      → Runs Open
          (detect_fault floats ratio runtime environ config treatment source query before)
          (λ v. Open)
  unfolding detect_fault
  Runs-detect_fault prometheus query before = Runs-see query before
  Runs-detect_fault kubernetes_availability query before = Runs-see query before
  Runs-detect_fault pod_replacement query before =
      Runs-bind Open (λ v. Open) (λ v. Open) _ _ (Runs-lift Open _ unclaimed)
        (λ uids.
          Runs-bind Open (λ v. Open) (λ v. Open) _ _ (Runs-ask Open _ unclaimed)
            (λ found.
              Runs-then Open (λ u. Open) (λ v. Open) _ _ (Runs-note Open Open _ (λ r v. v))
                (Runs-lift Open _ unclaimed)))

  -- A claim at the end of the `try` block is backed.
  abbrev Backed : Fact
  Backed r = (r.error ≡ []) × (r.recovery_success ≡ true → IsBacked r)

  concludes :
      (result : CommandResult) (after : Snapshot) (r : TreatmentRecord floats)
      → OpenWith result r
      → Backed (conclusion floats ratio runtime environ config treatment result after r)
  concludes result after r (unclaimed_yet, faultless, safe) = (
    faultless,
    (λ h.
        let parts =
          &&-eq-true result.valid (is_available floats ratio runtime environ config treatment after)
            h in
        record {
          measured = refl;
          safe = safe ∙ parts.0;
          available = parts.1;
          faultless = faultless;
        }),
  )

  Runs-await_recovery :
      (query : Text) (result : CommandResult)
      → Runs
          (OpenWith result)
          (await_recovery floats ratio runtime environ config treatment query result)
          (λ u. Backed)
  unfolding await_recovery
  Runs-await_recovery query result =
      Runs-bind (OpenWith result) (λ v. OpenWith result) (λ u. Backed) _ _
        (Runs-ask (OpenWith result)
          (recovery_wait floats ratio runtime environ config treatment query)
          (unclaimed_with result))
        (λ recovered.
          Runs-then (OpenWith result) (λ u. OpenWith result) (λ u. Backed) _ _
            (Runs-note (OpenWith result) (OpenWith result) _ (λ r v. v))
            (Runs-bind (OpenWith result) (λ v. OpenWith result) (λ u. Backed) _ _
              (Runs-ask (OpenWith result) runtime.snapshot (unclaimed_with result))
              (λ after. Runs-note (OpenWith result) Backed _ (concludes result after))))

  Runs-command_and_await :
      (query : Text)
      → Runs Open
          (command_and_await floats ratio runtime environ config treatment query)
          (λ u. Backed)
  unfolding command_and_await
  Runs-command_and_await query =
      Runs-bind Open (λ v. Open) (λ u. Backed) _ _ (Runs-ask Open _ unclaimed)
        (λ result.
          Runs-then Open (λ u. OpenWith result) (λ u. Backed) _ _
            (Runs-note Open (OpenWith result) _ (λ r v. (v.0, v.1, refl)))
            (Runs-await_recovery query result))

  Runs-treat :
      (query : Text) (before : Snapshot)
      → Runs Open (treat floats ratio runtime environ config treatment query before) (λ u. Backed)
  unfolding treat
  Runs-treat query before =
      Runs-bind Open (λ v. Open) (λ u. Backed) _ _ (Runs-detect_fault _ query before)
        (λ detected.
          Runs-then Open (λ u. Open) (λ u. Backed) _ _ (Runs-note Open Open _ (λ r v. v))
            (Runs-command_and_await query))

  Runs-inject_and_treat :
      (query : Text) (before : Snapshot)
      → Runs Open
          (inject_and_treat floats ratio runtime environ config treatment query before)
          (λ u. Backed)
  unfolding inject_and_treat
  Runs-inject_and_treat query before =
      Runs-bind Open (λ v. Open) (λ u. Backed) _ _ (Runs-first_evidence _ query before)
        (λ value.
          Runs-then Open (λ u. Open) (λ u. Backed) _ _ (Runs-note Open Open _ (λ r v. v))
            (Runs-then Open (λ u. Open) (λ u. Backed) _ _ (Runs-ask Open _ unclaimed)
              (Runs-treat query before)))

  Runs-observe_and_treat :
      (query : Text)
      → Runs Open
          (observe_and_treat floats ratio runtime environ config treatment query)
          (λ u. Backed)
  unfolding observe_and_treat
  Runs-observe_and_treat query =
      Runs-bind Open (λ b. Open) (λ u. Backed) _ _ (Runs-ask Open runtime.snapshot unclaimed)
        (λ before.
          Runs-then Open (λ u. Open) (λ u. Backed) _ _ (Runs-note Open Open _ (λ r v. v))
            (Runs-inject_and_treat query before))

  Runs-body : Runs Open (body floats ratio runtime environ config treatment) (λ u. Backed)
  unfolding body
  Runs-body =
      Runs-bind Open (λ q. Open) (λ u. Backed) _ _ (Runs-lift Open _ unclaimed)
        (λ query.
          Runs-then Open (λ u. Open) (λ u. Backed) _ _ Runs-reset_treatment
            (Runs-observe_and_treat query))

  abbrev Keeps : {A : Type 0} → Act floats ratio runtime environ config treatment A → Type 0
  Keeps m = (s : State floats ratio runtime environ config treatment) → (m s).1.0 ≡ s.0

  Keeps-ask :
      {A : Type 0} (call : W → Result Text A × W)
      → Keeps (ask floats ratio runtime environ config treatment call)
  unfolding ask
  Keeps-ask call (r, w) = refl

  Keeps-then :
      {B : Type 0} (m : Act floats ratio runtime environ config treatment (Unit {0}))
      (n : Act floats ratio runtime environ config treatment B)
      → Keeps m
      → Keeps n
      → Keeps (◌>>◌ floats ratio runtime environ config treatment m n)
  unfolding ◌>>◌
  Keeps-then m n p q s = elim (Result-cases (m s).0) [
    | inl (a, e) ↦ rw e (q (m s).1 ∙ p s)
    | inr (x, e) ↦ rw e (p s)
  ]

  Keeps-reset_treatment : Keeps (reset_treatment floats ratio runtime environ config treatment)
  unfolding reset_treatment
  Keeps-reset_treatment = Keeps-then _ _ (Keeps-ask _) (Keeps-then _ _ (Keeps-ask _) (Keeps-ask _))

  clean-Backed :
      (o : Result Text (Unit {0}) × State floats ratio runtime environ config treatment)
      → (o.1.0.recovery_success ≡ true → IsBacked o.1.0)
      → (clean floats ratio runtime environ config treatment o).0.recovery_success ≡ true
      → IsBacked (clean floats ratio runtime environ config treatment o).0
  clean-Backed (ok u, (r, w)) v h =
      let b = v h in
      record {
        measured = b.measured;
        safe = b.safe;
        available = b.available;
        faultless = b.faultless;
      }
  clean-Backed (err e, (r, w)) v h =
      let b = v h in
      record {
        measured = b.measured;
        safe = b.safe;
        available = b.available;
        faultless = b.faultless;
      }

  settle-Backed :
      (o : Result Text (Unit {0}) × State floats ratio runtime environ config treatment)
      → ((a : Unit {0}) → o.0 ≡ ok a → Backed o.1.0)
        × ((e : Text) → o.0 ≡ err e → o.1.0.recovery_success ≡ false)
      → (settle floats ratio runtime environ config treatment o).0.recovery_success ≡ true
      → IsBacked (settle floats ratio runtime environ config treatment o).0
  settle-Backed (ok u, (r, w)) v h = (v.0 u refl).1 h
  settle-Backed (err e, (r, w)) v h = absurd (ground (arith, h, v.1 e refl))

  -- A record that claims a recovery is measured, with a valid command, full availability after rounding and no
  -- error, whatever the world answers.
  pub run_recovery_treatment-IsBacked :
      (w : W)
      → (run_recovery_treatment floats ratio runtime environ config treatment w).0.recovery_success
        ≡ true
      → IsBacked (run_recovery_treatment floats ratio runtime environ config treatment w).0
  unfolding run_recovery_treatment
  run_recovery_treatment-IsBacked w =
      let tried =
        settle floats ratio runtime environ config treatment
          (body floats ratio runtime environ config treatment (empty_treatment_record floats, w)) in
      clean-Backed (reset_treatment floats ratio runtime environ config treatment tried) (
        subst (λ r. r.recovery_success ≡ true → IsBacked r) (sym (Keeps-reset_treatment tried))
          (settle-Backed _ (Runs-body (empty_treatment_record floats, w) (refl, refl))))
