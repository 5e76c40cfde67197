-- ===== src/Jobs/Events.antt =====
-- Laws of the table of events (src/aiops_k8s_agents/experiment_jobs.py): its key, and the events that
-- refer to a job.
use aiops_research.Base.{
  ℕ, ◌≡◌, refl, inl, inr, Bool, true, false, not, ◌||◌, List, [], ◌∷◌, ◌++◌, arith, Text, text_eq,
  text_eq_iff, select, Bool-cases,
}
use aiops_research.Jobs.Rows.{ExperimentJob, RuntimeEvent, find, remove, is_found}
use aiops_research.Jobs.Store.{has_event, is_same_event}
use aiops_research.Jobs.Tables.{find-remove}

-- No two events have one job and one sequence number.
abbrev pub Distinct : List RuntimeEvent → Type 0
Distinct [] = Unit
Distinct (e ∷ es) = (has_event e.experiment_id e.sequence es ≡ false) × Distinct es

-- Every event belongs to a job.
abbrev pub Linked : List ExperimentJob → List RuntimeEvent → Type 0
Linked js [] = Unit
Linked js (e ∷ es) = (is_found (find e.experiment_id js) ≡ true) × Linked js es

pub has_event-append :
    (i : Text) (n : ℕ) (es : List RuntimeEvent) (e : RuntimeEvent)
    → has_event i n (es ++ e ∷ []) ≡ (has_event i n es || is_same_event i n e)
unfolding has_event
has_event-append i n [] e = ground arith
has_event-append i n (f ∷ es) e = ground (arith, has_event-append i n es e)

pub Distinct-append :
    (es : List RuntimeEvent) (e : RuntimeEvent)
    → Distinct es
    → has_event e.experiment_id e.sequence es ≡ false
    → Distinct (es ++ e ∷ [])
unfolding has_event
Distinct-append [] e d h = (refl, tt)
Distinct-append (f ∷ es) e d h = (
  ground (
    arith,
    has_event-append f.experiment_id f.sequence es e,
    text_eq_iff f.experiment_id e.experiment_id,
    text_eq_iff e.experiment_id f.experiment_id,
    d.0,
  ),
  Distinct-append es e d.1 (ground arith),
)

has_event-select :
    (i : Text) (n : ℕ) (p : RuntimeEvent → Bool) (es : List RuntimeEvent)
    → has_event i n es ≡ false
    → has_event i n (select p es) ≡ false
unfolding has_event
has_event-select i n p [] h = refl
has_event-select i n p (e ∷ es) h = ground (arith, has_event-select i n p es)

pub Distinct-select :
    (p : RuntimeEvent → Bool) (es : List RuntimeEvent) → Distinct es → Distinct (select p es)
Distinct-select p [] d = tt
Distinct-select p (e ∷ es) d = elim (Bool-cases (p e)) [
  | inl t ↦ rw t (has_event-select e.experiment_id e.sequence p es d.0, Distinct-select p es d.1)
  | inr n ↦ rw n (Distinct-select p es d.1)
]

-- The jobs may change as long as every id stays.
pub Linked-change :
    (js ks : List ExperimentJob) (es : List RuntimeEvent)
    → ((i : Text) → is_found (find i js) ≡ true → is_found (find i ks) ≡ true)
    → Linked js es
    → Linked ks es
Linked-change js ks [] h l = tt
Linked-change js ks (e ∷ es) h l = (h e.experiment_id l.0, Linked-change js ks es h l.1)

pub Linked-append :
    (js : List ExperimentJob) (es : List RuntimeEvent) (e : RuntimeEvent)
    → Linked js es
    → is_found (find e.experiment_id js) ≡ true
    → Linked js (es ++ e ∷ [])
Linked-append js [] e l h = (h, tt)
Linked-append js (f ∷ es) e l h = (l.0, Linked-append js es e l.1 h)

pub Linked-remove :
    (i : Text) (js : List ExperimentJob) (es : List RuntimeEvent)
    → Linked js es
    → Linked (remove i js) (select (λ e. not (text_eq e.experiment_id i)) es)
Linked-remove i js [] l = tt
Linked-remove i js (e ∷ es) l = elim (Bool-cases (text_eq e.experiment_id i)) [
  | inl t ↦ rw t (Linked-remove i js es l.1)
  | inr n ↦ rw n (
    ground (
      arith,
      find-remove e.experiment_id i js,
      text_eq_iff e.experiment_id i,
      text_eq_iff i e.experiment_id,
      l.0,
    ),
    Linked-remove i js es l.1,
  )
]
