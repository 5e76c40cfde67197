-- ===== src/Treatment/Matrix.antt =====
-- src/aiops_k8s_agents/recovery_runner.py: how many treatments `build_treatment_matrix` makes.
use aiops_research.Base.{
  ℕ, zero, suc, ◌+◌, ◌*◌, ◌≤◌, pos, some, List, [], ◌∷◌, ◌++◌, map, length, length-append, All, ◌≡◌,
  refl, arith,
}
use aiops_research.Floats.{Floats}
use aiops_research.Actions.{RecoveryActionKind}
use aiops_research.Treatment.{
  RecoveryScenario, RecoveryExperimentConfig, RecoveryTreatment, of_scenario, of_scenarios,
  of_repetitions, build_treatment_matrix,
}

length-map : {A B : Type 0} (f : A → B) (items : List A) → length (map f items) ≡ length items
length-map f [] = refl
length-map f (a ∷ items) = omega (arith, length-map f items)

All-append : {A : Type 0} (P : A → Type 0) (xs ys : List A) → All P xs → All P ys → All P (xs ++ ys)
All-append P [] ys v w = w
All-append P (x ∷ xs) ys (h, v) w = (h, All-append P xs ys v w)

module _ (floats : Floats) where
  length-of_scenario :
      (i : ℕ) (actions : List RecoveryActionKind) (s : RecoveryScenario floats)
      → length (of_scenario floats i actions s) ≡ length actions
  length-of_scenario i actions s = length-map _ actions

  length-of_scenarios :
      (i : ℕ) (actions : List RecoveryActionKind) (ss : List (RecoveryScenario floats))
      → length (of_scenarios floats i actions ss) ≡ length ss * length actions
  length-of_scenarios i actions [] = omega arith
  length-of_scenarios i actions (s ∷ ss) = omega (
    arith,
    length-append (of_scenario floats i actions s) (of_scenarios floats i actions ss),
    length-of_scenario i actions s,
    length-of_scenarios i actions ss,
  )

  length-of_repetitions :
      (config : RecoveryExperimentConfig floats) (i n : ℕ)
      → length (of_repetitions floats config i n)
        ≡ n * (length config.scenarios * length config.actions)
  length-of_repetitions config i zero = omega arith
  length-of_repetitions config i (suc n) = omega (
    arith,
    length-append (of_scenarios floats i config.actions config.scenarios)
        (of_repetitions floats config (suc i) n),
    length-of_scenarios i config.actions config.scenarios,
    length-of_repetitions config (suc i) n,
  )

  -- The repetition of a treatment lies between two numbers.
  abbrev pub Numbered : ℕ → ℕ → RecoveryTreatment floats → Type 0
  Numbered low high t = (low ≤ t.repetition) × (t.repetition ≤ high)

  of_scenario-Numbered :
      (low high i : ℕ) (s : RecoveryScenario floats) (actions : List RecoveryActionKind)
      → low ≤ i
      → i ≤ high
      → All (Numbered low high) (of_scenario floats i actions s)
  of_scenario-Numbered low high i s [] h k = tt
  of_scenario-Numbered low high i s (a ∷ actions) h k =
      ((h, k), of_scenario-Numbered low high i s actions h k)

  of_scenarios-Numbered :
      (low high i : ℕ) (actions : List RecoveryActionKind) (ss : List (RecoveryScenario floats))
      → low ≤ i
      → i ≤ high
      → All (Numbered low high) (of_scenarios floats i actions ss)
  of_scenarios-Numbered low high i actions [] h k = tt
  of_scenarios-Numbered low high i actions (s ∷ ss) h k =
      All-append (Numbered low high) (of_scenario floats i actions s) _
        (of_scenario-Numbered low high i s actions h k)
        (of_scenarios-Numbered low high i actions ss h k)

  of_repetitions-Numbered :
      (config : RecoveryExperimentConfig floats) (low high i n : ℕ)
      → low ≤ i
      → i + n ≤ suc high
      → All (Numbered low high) (of_repetitions floats config i n)
  of_repetitions-Numbered config low high i zero h k = tt
  of_repetitions-Numbered config low high i (suc n) h k =
      All-append (Numbered low high) (of_scenarios floats i config.actions config.scenarios) _
        (of_scenarios-Numbered low high i config.actions config.scenarios h (omega (arith, k)))
        (of_repetitions-Numbered config low high (suc i) n (omega (arith, h)) (omega (arith, k)))

  -- For a positive number of repetitions there is a matrix; it has a treatment for each repetition, scenario and
  -- action, and the repetitions are numbered from 1 to their number.
  pub build_treatment_matrix-length :
      (config : RecoveryExperimentConfig floats) (n : ℕ)
      → (ts : List (RecoveryTreatment floats)) × (build_treatment_matrix floats config (pos (suc n))
          ≡ some ts)
        × (length ts ≡ suc n * (length config.scenarios * length config.actions))
        × All (Numbered 1 (suc n)) ts
  unfolding build_treatment_matrix
  build_treatment_matrix-length config n = (
    of_repetitions floats config 1 (suc n),
    refl,
    length-of_repetitions config 1 (suc n),
    of_repetitions-Numbered config 1 (suc n) 1 (suc n) (omega arith) (omega arith),
  )
