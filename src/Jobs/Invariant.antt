-- ===== src/Jobs/Invariant.antt =====
-- The invariant of the job store (src/aiops_k8s_agents/experiment_jobs.py), and that every call keeps
-- it, whether it returns or raises.
use aiops_research.Base.{
  ◌≡◌, refl, subst, ◌≢◌, inl, inr, true, not, Option, none, some, [], ◌∷◌, ◌++◌, map, arith, Text,
  text_eq, All, select, Bool-cases, Option-cases,
}
use aiops_research.Json.{Json}
use aiops_research.Python.Strip.{strip}
use aiops_research.Jobs.Rows.{
  ExperimentJobStatus, running, ExperimentRuntimeRequest, ExperimentJob, RuntimeEvent, Store, find,
  update, remove, terminal, or_else,
}
use aiops_research.Jobs.Store.{
  create, new_job, create_with, answer, cancelled_row, staged, stopped_row, moved, transition,
  append_event, has_event, set_result, request_cancel, delete, interrupted_job,
  interrupt_nonterminal_jobs,
}
use aiops_research.Jobs.Tables.{
  Unique, KeepsId, find-update, find_All, All-update, Unique-update, find-append, Unique-append,
  All-append_one, Unique-remove, All-select, find-map, Unique-map, All-map,
}
use aiops_research.Jobs.Events.{
  Distinct, Linked, Distinct-append, Distinct-select, Linked-change, Linked-append, Linked-remove,
}

-- A job that has ended or has a result has an end time, and a running one a start time.
pub record IsSound (j : ExperimentJob) : Type 0 where
  pub finished : terminal j.status ≡ true → j.finished_at ≢ none
  pub begun : j.status ≡ running → j.started_at ≢ none
  pub answered : j.result ≢ none → j.finished_at ≢ none

pub record IsValid (s : Store) : Type 0 where
  pub unique : Unique s.jobs
  pub sound : All IsSound s.jobs
  pub linked : Linked s.jobs s.events
  pub distinct : Distinct s.events

-- A write of the row that is found keeps the invariant if it keeps the id and the row sound.
update-IsValid :
    (i : Text) (f : ExperimentJob → ExperimentJob) (e : ExperimentJob) (s : Store)
    → KeepsId f
    → find i s.jobs ≡ some e
    → (IsSound e → IsSound (f e))
    → IsValid s
    → IsValid (record s { jobs = update i f s.jobs })
update-IsValid i f e s keep h step v = record {
  unique = Unique-update i f s.jobs keep v.unique;
  sound =
      All-update IsSound i f e s.jobs v.unique h v.sound
        (step (find_All IsSound i e s.jobs h v.sound));
  linked =
      Linked-change s.jobs (update i f s.jobs) s.events
        (λ k found. ground (arith, find-update k i f s.jobs keep, found)) v.linked;
  distinct = v.distinct;
}

pub transition-IsValid :
    (i : Text) (st : ExperimentJobStatus) (stage error : Option Text) (now : Text) (s : Store)
    → IsValid s
    → IsValid (transition i st stage error now s).1
unfolding transition
transition-IsValid i st stage error now s v = elim (Option-cases (find i s.jobs)) [
  | inl absent ↦ subst IsValid (ground (arith, absent)) v
  | inr (e, h) ↦
      let valid =
        update-IsValid i (moved e st stage error now) e s (λ j. refl) h
          (λ d. record {
            finished = λ t. ground arith;
            begun = λ t. ground arith;
            answered = λ r. ground (arith, d.answered r);
          })
          v in
      subst IsValid (ground (arith, h)) valid
]

pub set_result-IsValid :
    (i : Text) (st : ExperimentJobStatus) (result : Json) (error now : Text) (s : Store)
    → IsValid s
    → IsValid (set_result i st result error now s).1
unfolding set_result
set_result-IsValid i st result error now s v = elim (Bool-cases (terminal st)) [
  | inr bad ↦ subst IsValid (ground (arith, bad)) v
  | inl good ↦ elim (Option-cases (find i s.jobs)) [
    | inl absent ↦ subst IsValid (ground (arith, good, absent)) v
    | inr (e, h) ↦ subst IsValid (ground (arith, good, h)) (
        update-IsValid i (answer st result error now) e s (λ j. refl) h
          (λ d. record {
            finished = λ t. ground arith;
            begun = λ t. absurd (ground (arith, good, t));
            answered = λ r. ground arith;
          })
          v)
  ]
]

request_cancel-IsValid : (i now : Text) (s : Store) → IsValid s → IsValid (request_cancel i now s).1
unfolding request_cancel
request_cancel-IsValid i now s v = elim (Option-cases (find i s.jobs)) [
  | inl absent ↦ subst IsValid (ground (arith, absent)) v
  | inr (e, h) ↦ elim (Bool-cases (terminal e.status)) [
    | inl ended ↦ subst IsValid (ground (arith, h, ended)) v
    | inr open_job ↦ subst IsValid (ground (arith, h, open_job)) (
        update-IsValid i (cancelled_row now) e s (λ j. refl) h
          (λ d. record {
            finished = λ t. ground arith;
            begun = λ t. ground arith;
            answered = d.answered;
          })
          v)
  ]
]

pub append_event-IsValid :
    (e : RuntimeEvent) (now : Text) (s : Store) → IsValid s → IsValid (append_event e now s).1
unfolding append_event
append_event-IsValid e now s v = elim (Option-cases (find e.experiment_id s.jobs)) [
  | inl absent ↦ subst IsValid (ground (arith, absent)) v
  | inr (j, h) ↦ elim (Bool-cases (has_event e.experiment_id e.sequence s.events)) [
    | inl old ↦ subst IsValid (ground (arith, h, old)) v
    | inr new ↦
        let valid : IsValid (record s { events = s.events ++ e ∷ [] }) = record {
          unique = v.unique;
          sound = v.sound;
          linked = Linked-append s.jobs s.events e v.linked (ground (arith, h));
          distinct = Distinct-append s.events e v.distinct new;
        } in
        subst IsValid (ground (arith, h, new)) (
          update-IsValid e.experiment_id (staged e now) j (record s { events = s.events ++ e ∷ [] })
            (λ k. refl) h
            (λ d. record { finished = d.finished; begun = d.begun; answered = d.answered }) valid)
  ]
]

delete-IsValid : (i : Text) (s : Store) → IsValid s → IsValid (delete i s).1
unfolding delete
delete-IsValid i s v = elim (Option-cases (find i s.jobs)) [
  | inl absent ↦ subst IsValid (ground (arith, absent)) v
  | inr (e, h) ↦ elim (Bool-cases (terminal e.status)) [
    | inr open_job ↦ subst IsValid (ground (arith, h, open_job)) v
    | inl ended ↦
        let valid : IsValid (record {
          jobs = remove i s.jobs;
          events = select (λ f. not (text_eq f.experiment_id i)) s.events;
        }) =
          record {
            unique = Unique-remove i s.jobs v.unique;
            sound = All-select IsSound (λ j. not (text_eq j.experiment_id i)) s.jobs v.sound;
            linked = Linked-remove i s.jobs s.events v.linked;
            distinct = Distinct-select (λ f. not (text_eq f.experiment_id i)) s.events v.distinct;
          } in
        subst IsValid (ground (arith, h, ended)) valid
  ]
]

interrupted_job-id : (now : Text) → KeepsId (interrupted_job now)
interrupted_job-id now j = ground arith

interrupted_job-IsSound :
    (now : Text) (j : ExperimentJob) → IsSound j → IsSound (interrupted_job now j)
interrupted_job-IsSound now j d = elim (Bool-cases (terminal j.status)) [
  | inl ended ↦ subst IsSound (ground (arith, ended)) d
  | inr open_job ↦
      let stopped : IsSound (stopped_row now j) = record {
        finished = λ t. ground arith;
        begun = λ t. ground arith;
        answered = λ r. ground arith;
      } in
      subst IsSound (ground (arith, open_job)) stopped
]

interrupt-IsValid :
    (now : Text) (s : Store) → IsValid s → IsValid (interrupt_nonterminal_jobs now s).1
unfolding interrupt_nonterminal_jobs
interrupt-IsValid now s v = record {
  unique = Unique-map (interrupted_job now) s.jobs (interrupted_job-id now) v.unique;
  sound = All-map IsSound (interrupted_job now) s.jobs (interrupted_job-IsSound now) v.sound;
  linked =
      Linked-change s.jobs (map (interrupted_job now) s.jobs) s.events
        (λ i found.
          ground (arith, find-map i (interrupted_job now) s.jobs (interrupted_job-id now), found))
        v.linked;
  distinct = v.distinct;
}

create_with-IsValid :
    (request : ExperimentRuntimeRequest) (now i : Text) (s : Store)
    → IsValid s
    → IsValid (create_with request now i s).1
unfolding create_with
create_with-IsValid request now [] s v = v
create_with-IsValid request now (c ∷ t) s v = elim (Option-cases (find (c ∷ t) s.jobs)) [
  | inr (e, h) ↦ subst IsValid (ground (arith, h)) v
  | inl absent ↦
      let j = new_job (c ∷ t) request now in
      let valid : IsValid (record s { jobs = s.jobs ++ j ∷ [] }) = record {
        unique = Unique-append s.jobs j v.unique absent;
        sound =
            All-append_one IsSound s.jobs j v.sound
              (record { finished = λ t. cc; begun = λ t. cc; answered = λ r. absurd (r refl) });
        linked =
            Linked-change s.jobs (s.jobs ++ j ∷ []) s.events
              (λ k found. ground (arith, find-append k s.jobs j, found)) v.linked;
        distinct = v.distinct;
      } in
      subst IsValid (ground (arith, absent)) valid
]

-- The calls that change the store, with their arguments and the time of the call.
pub data Call : Type 0 where
  create_job : ExperimentRuntimeRequest → Option Text → Text → Text → Call
  move : Text → ExperimentJobStatus → Option Text → Option Text → Text → Call
  add_event : RuntimeEvent → Text → Call
  finish : Text → ExperimentJobStatus → Json → Text → Text → Call
  cancel : Text → Text → Call
  drop : Text → Call
  restart : Text → Call

pub perform : Call → Store → Store
perform (create_job request given fresh now) s = (create request given fresh now s).1
perform (move i st stage error now) s = (transition i st stage error now s).1
perform (add_event e now) s = (append_event e now s).1
perform (finish i st result error now) s = (set_result i st result error now s).1
perform (cancel i now) s = (request_cancel i now s).1
perform (drop i) s = (delete i s).1
perform (restart now) s = (interrupt_nonterminal_jobs now s).1

-- Every call keeps the invariant of the store, whether it returns or raises: ids and event numbers
-- are unique, every event has its job, a job that has ended or has a result has an end time, and a
-- running job has a start time.
pub perform-IsValid : (c : Call) (s : Store) → IsValid s → IsValid (perform c s)
unfolding perform create
perform-IsValid (create_job request given fresh now) s v =
    create_with-IsValid request now (strip (or_else given fresh)) s v
perform-IsValid (move i st stage error now) s v = transition-IsValid i st stage error now s v
perform-IsValid (add_event e now) s v = append_event-IsValid e now s v
perform-IsValid (finish i st result error now) s v = set_result-IsValid i st result error now s v
perform-IsValid (cancel i now) s v = request_cancel-IsValid i now s v
perform-IsValid (drop i) s v = delete-IsValid i s v
perform-IsValid (restart now) s v = interrupt-IsValid now s v
