-- ===== src/Runtime/Preflight.antt =====
-- src/aiops_k8s_agents/experiment_runtime.py: `ExperimentRuntime.preflight`. What the fault injector and the
-- admission of a new coordinator answer are parameters; an exception of the injector is `none`, one of the
-- admission `false`.
use aiops_research.Base.{
  Bool, true, false, Option, none, some, List, [], ◌∷◌, ◌++◌, Text, codes, Result, ok, Bool-cases,
  ◌≡◌, refl, inl, inr, not, ◌&&◌, ◌||◌, ◌>>◌, if◌then◌else◌,
}
use aiops_research.Floats.{Floats}
use aiops_research.Jobs.Rows.{IncidentSource, chaos_mesh, aiopslab}
use aiops_research.Runtime.{
  Exn, RuntimeRequest, RuntimeConfiguration, Scenario, scenario_of, validate_request,
}
use aiops_research.Runtime.Run.{is_real, is_chaos}

-- `valid`, `resource_kind` and `missing_prerequisites` of the injector's answer.
pub record ChaosPreflight : Type 0 where
  pub valid : Bool
  pub resource_kind : Option Text
  pub missing_prerequisites : List Text

pub record RuntimePreflightResult : Type 0 where
  pub valid : Bool
  pub scenario_id : Text
  pub manifest : Text
  pub resource_kind : Option Text
  pub missing_prerequisites : List Text

abbrev pub kind_of : IncidentSource → Option Text
kind_of aiopslab = some (codes "AIOpsLabDetection")
kind_of chaos_mesh = none

abbrev pub fault_name : Text → Text
fault_name scenario_id = codes "chaos_mesh:" ++ scenario_id

abbrev pub missing_or : Text → List Text → List Text
missing_or default [] = default ∷ []
missing_or default (m ∷ ms) = m ∷ ms

module _ (floats : Floats) (config : RuntimeConfiguration floats)
    (chaos : Text → Option ChaosPreflight) (admit : RuntimeRequest floats → Bool) where
  abbrev manifest_of : Option (Scenario floats) → Text
  manifest_of none = []
  manifest_of (some s) = s.manifest

  abbrev answer : RuntimeRequest floats → Bool → Option Text → List Text → RuntimePreflightResult
  answer r ready kind missing = record {
    valid = ready;
    scenario_id = r.scenario_id;
    manifest = manifest_of (scenario_of floats r.scenario_id config.scenarios);
    resource_kind = kind;
    missing_prerequisites = missing;
  }

  unfoldable pub admitted : RuntimeRequest floats → Option Text → Bool → RuntimePreflightResult
  admitted r kind false = answer r false kind (codes "runtime.coordinator" ∷ [])
  admitted r kind true = answer r true kind []

  unfoldable pub after_chaos :
      RuntimeRequest floats → Option ChaosPreflight → RuntimePreflightResult
  after_chaos r none = answer r false none (fault_name r.scenario_id ∷ [])
  after_chaos r (some c) =
      if c.valid
      then admitted r c.resource_kind (admit r)
      else answer r false c.resource_kind
          (missing_or (fault_name r.scenario_id) c.missing_prerequisites)

  unfoldable pub preflight_real : RuntimeRequest floats → RuntimePreflightResult
  preflight_real r =
      if is_chaos r.incident_source
      then after_chaos r (chaos r.scenario_id)
      else admitted r (kind_of r.incident_source) (admit r)

  unfoldable pub preflight : RuntimeRequest floats → Result Exn RuntimePreflightResult
  preflight r = do
    validate_request floats config r
    ok (if is_real r.mode then preflight_real r else answer r true none [])

  -- The injector is ready for the scenario.
  abbrev pub says_ready : Option ChaosPreflight → Bool
  says_ready none = false
  says_ready (some c) = c.valid

  -- A reference reading of the result in one formula.
  unfoldable pub ready : RuntimeRequest floats → Bool
  ready r =
      not (is_real r.mode)
      || ((not (is_chaos r.incident_source) || says_ready (chaos r.scenario_id)) && admit r)

  admitted-valid :
      (r : RuntimeRequest floats) (kind : Option Text) (a : Bool) → (admitted r kind a).valid ≡ a
  unfolding admitted
  admitted-valid r kind true = refl
  admitted-valid r kind false = refl

  after_chaos-valid :
      (r : RuntimeRequest floats) (c : Option ChaosPreflight)
      → (after_chaos r c).valid ≡ says_ready c && admit r
  unfolding after_chaos
  after_chaos-valid r none = refl
  after_chaos-valid r (some c) = elim (Bool-cases c.valid) [
    | inr e ↦ rw e refl
    | inl e ↦ rw e (admitted-valid r c.resource_kind (admit r))
  ]

  -- A preflight of a valid request returns a result, which is valid exactly in these cases: the run is no
  -- real one, or the coordinator is admitted and, for a fault of Chaos Mesh, the injector says it is ready.
  pub preflight_ready :
      (r : RuntimeRequest floats)
      → validate_request floats config r ≡ ok tt
      → (p : RuntimePreflightResult) × (preflight r ≡ ok p) × (p.valid ≡ ready r)
  unfolding preflight preflight_real ready
  preflight_ready r e = elim (Bool-cases (is_real r.mode)) [
    | inr pretends ↦ (answer r true none [], rw (e, pretends) refl, rw pretends refl)
    | inl acts ↦ elim (Bool-cases (is_chaos r.incident_source)) [
      | inl chaotic ↦ (
        after_chaos r (chaos r.scenario_id),
        rw (e, acts, chaotic) refl,
        rw (acts, chaotic) (after_chaos-valid r (chaos r.scenario_id)),
      )
      | inr calm ↦ (
        admitted r (kind_of r.incident_source) (admit r),
        rw (e, acts, calm) refl,
        rw (acts, calm) (admitted-valid r (kind_of r.incident_source) (admit r)),
      )
    ]
  ]
