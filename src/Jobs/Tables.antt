-- ===== src/Jobs/Tables.antt =====
-- Laws of the reads and writes of job rows (src/aiops_k8s_agents/experiment_jobs.py).
use aiops_research.Base.{
  ◌≡◌, refl, subst, inl, inr, Bool, Option, none, some, List, [], ◌∷◌, ◌++◌, map, arith, Text,
  text_eq, text_eq_iff, All, select, Bool-cases, if◌then◌else◌,
}
use aiops_research.Jobs.Rows.{ExperimentJob, find, update, remove, is_found}

-- No two rows have one id.
abbrev pub Unique : List ExperimentJob → Type 0
Unique [] = Unit
Unique (j ∷ js) = (find j.experiment_id js ≡ none) × Unique js

abbrev pub KeepsId : (ExperimentJob → ExperimentJob) → Type 0
KeepsId f = (j : ExperimentJob) → (f j).experiment_id ≡ j.experiment_id

abbrev pub map_found : (ExperimentJob → ExperimentJob) → Option ExperimentJob → Option ExperimentJob
map_found f none = none
map_found f (some j) = some (f j)

pub find-update :
    (i k : Text) (f : ExperimentJob → ExperimentJob) (js : List ExperimentJob)
    → KeepsId f
    → find i (update k f js) ≡ (if text_eq k i then map_found f (find i js) else find i js)
unfolding find update
find-update i k f [] keep = ground arith
find-update i k f (j ∷ js) keep = ground (
  arith,
  keep j,
  text_eq_iff j.experiment_id k,
  text_eq_iff j.experiment_id i,
  text_eq_iff k i,
  find-update i k f js keep,
)

pub find_id :
    (i : Text) (e : ExperimentJob) (js : List ExperimentJob)
    → find i js ≡ some e
    → e.experiment_id ≡ i
unfolding find
find_id i e [] h = cc
find_id i e (j ∷ js) h = ground (arith, text_eq_iff j.experiment_id i, find_id i e js)

pub find_All :
    (P : ExperimentJob → Type 0) (i : Text) (e : ExperimentJob) (js : List ExperimentJob)
    → find i js ≡ some e
    → All P js
    → P e
unfolding find
find_All P i e [] h a = cc
find_All P i e (j ∷ js) h a = elim (Bool-cases (text_eq j.experiment_id i)) [
  | inl t ↦ subst P (ground (arith, t)) a.0
  | inr n ↦ find_All P i e js (rw n at h) a.1
]

update_absent :
    (i : Text) (f : ExperimentJob → ExperimentJob) (js : List ExperimentJob)
    → find i js ≡ none
    → update i f js ≡ js
unfolding find update
update_absent i f [] h = refl
update_absent i f (j ∷ js) h = ground (arith, update_absent i f js)

-- Only the row that is found is written.
pub All-update :
    (P : ExperimentJob → Type 0) (i : Text) (f : ExperimentJob → ExperimentJob) (e : ExperimentJob)
    (js : List ExperimentJob)
    → Unique js
    → find i js ≡ some e
    → All P js
    → P (f e)
    → All P (update i f js)
unfolding find update
All-update P i f e [] u h a p = cc
All-update P i f e (j ∷ js) u h a p = elim (Bool-cases (text_eq j.experiment_id i)) [
  | inl t ↦
      let same : e ≡ j = ground (arith, t) in
      let absent : find i js ≡ none =
        subst (λ k. find k js ≡ none) ((text_eq_iff j.experiment_id i).0 t) u.0 in
      rw (t, update_absent i f js absent) (subst (λ k. P (f k)) same p, a.1)
  | inr n ↦ rw n (a.0, All-update P i f e js u.1 (rw n at h) a.1 p)
]

pub Unique-update :
    (k : Text) (f : ExperimentJob → ExperimentJob) (js : List ExperimentJob)
    → KeepsId f
    → Unique js
    → Unique (update k f js)
unfolding update
Unique-update k f [] keep u = tt
Unique-update k f (j ∷ js) keep u = (
  elim (Bool-cases (text_eq j.experiment_id k)) [
    | inl t ↦ rw (t, keep j) (ground (arith, find-update j.experiment_id k f js keep, u.0))
    | inr n ↦ rw n (ground (arith, find-update j.experiment_id k f js keep, u.0))
  ],
  Unique-update k f js keep u.1,
)

pub find-append :
    (i : Text) (js : List ExperimentJob) (j : ExperimentJob)
    → find i (js ++ j ∷ []) ≡ (
        if is_found (find i js)
        then find i js
        else if text_eq j.experiment_id i
        then some j
        else none)
unfolding find
find-append i [] j = ground arith
find-append i (h ∷ js) j = ground (arith, find-append i js j)

pub Unique-append :
    (js : List ExperimentJob) (j : ExperimentJob)
    → Unique js
    → find j.experiment_id js ≡ none
    → Unique (js ++ j ∷ [])
unfolding find
Unique-append [] j u h = (refl, tt)
Unique-append (k ∷ js) j u h = (
  ground (
    arith,
    find-append k.experiment_id js j,
    text_eq_iff k.experiment_id j.experiment_id,
    text_eq_iff j.experiment_id k.experiment_id,
    u.0,
  ),
  Unique-append js j u.1 (ground arith),
)

pub All-append_one :
    (P : ExperimentJob → Type 0) (js : List ExperimentJob) (j : ExperimentJob)
    → All P js
    → P j
    → All P (js ++ j ∷ [])
All-append_one P [] j a p = (p, tt)
All-append_one P (k ∷ js) j a p = (a.0, All-append_one P js j a.1 p)

pub find-remove :
    (i k : Text) (js : List ExperimentJob)
    → find i (remove k js) ≡ (if text_eq k i then none else find i js)
unfolding find
find-remove i k [] = ground arith
find-remove i k (j ∷ js) = ground (
  arith,
  text_eq_iff j.experiment_id k,
  text_eq_iff j.experiment_id i,
  text_eq_iff k i,
  find-remove i k js,
)

pub Unique-remove : (k : Text) (js : List ExperimentJob) → Unique js → Unique (remove k js)
Unique-remove k [] u = tt
Unique-remove k (j ∷ js) u = elim (Bool-cases (text_eq j.experiment_id k)) [
  | inl t ↦ rw t (Unique-remove k js u.1)
  | inr n ↦ rw n (ground (arith, find-remove j.experiment_id k js, u.0), Unique-remove k js u.1)
]

pub All-select {ℓ} :
    {A : Type ℓ} (P : A → Type 0) (p : A → Bool) (xs : List A) → All P xs → All P (select p xs)
All-select P p [] a = tt
All-select P p (x ∷ xs) a = elim (Bool-cases (p x)) [
  | inl t ↦ rw t (a.0, All-select P p xs a.1)
  | inr n ↦ rw n (All-select P p xs a.1)
]

-- A change of every row that keeps the ids.
pub find-map :
    (i : Text) (f : ExperimentJob → ExperimentJob) (js : List ExperimentJob)
    → KeepsId f
    → find i (map f js) ≡ map_found f (find i js)
unfolding find
find-map i f [] keep = refl
find-map i f (j ∷ js) keep = ground (arith, keep j, find-map i f js keep)

pub Unique-map :
    (f : ExperimentJob → ExperimentJob) (js : List ExperimentJob)
    → KeepsId f
    → Unique js
    → Unique (map f js)
Unique-map f [] keep u = tt
Unique-map f (j ∷ js) keep u = (
  rw (keep j) (ground (arith, find-map j.experiment_id f js keep, u.0)),
  Unique-map f js keep u.1,
)

pub All-map :
    (P : ExperimentJob → Type 0) (f : ExperimentJob → ExperimentJob) (js : List ExperimentJob)
    → ((j : ExperimentJob) → P j → P (f j))
    → All P js
    → All P (map f js)
All-map P f [] step a = tt
All-map P f (j ∷ js) step a = (step j a.0, All-map P f js step a.1)
