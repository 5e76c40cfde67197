-- ===== src/Examples/Shown.antt =====
-- A store of two sessions at most, and the stages of a run
-- (src/aiops_k8s_agents/experiment_session.py).
use aiops_research.Base.{
  ◌<◌, ◌≡◌, ◌≢◌, ◌↔◌, ◌⊎◌, refl, arith, length, true, false, none, some, [], ◌∷◌, Text, codes,
  text_eq,
}
use aiops_research.Json.{null, bool, Fields, end, field, get_field}
use aiops_research.Sessions.{ExperimentSession, put, get, pop}
use aiops_research.Sessions.Bounded.{IsBounded, get-put, get-put_other, put_full}
use aiops_research.Sessions.Stages.{
  pending, completed, safety_status, execution_status, result_status, is_dry_run, is_recovered,
  is_valid, is_success_name, execution_status-safety_status, result_status-completed_iff,
}

abbrev session : Text → ExperimentSession
session i = record { experiment_id = i; contents = null }

abbrev one : ExperimentSession
one = session (codes "one")

abbrev two : ExperimentSession
two = session (codes "two")

one-IsBounded : IsBounded 2 (one ∷ [])
unfolding get
one-IsBounded = record { bounded = omega arith; distinct = (refl, tt) }

get-put_example :
    (get (codes "two") (put 2 two (one ∷ [])) ≡ some two) × IsBounded 2 (put 2 two (one ∷ []))
get-put_example = get-put 1 two (one ∷ []) one-IsBounded

two_not_one : codes "two" ≢ codes "one"
two_not_one e = ground (arith, e)

room_for_two : length (pop (codes "two") (one ∷ [])) < 2
unfolding text_eq
room_for_two = omega arith

other_kept : get (codes "one") (put 2 two (one ∷ [])) ≡ get (codes "one") (one ∷ [])
other_kept = get-put_other 2 two (one ∷ []) (codes "one") room_for_two two_not_one

two_is_new : get (codes "two") (one ∷ []) ≡ none
unfolding get text_eq
two_is_new = refl

full_table : put 1 two (one ∷ []) ≡ two ∷ []
full_table = put_full two one [] two_is_new

abbrev valid : Fields
valid = field (codes "valid") (bool true) end

valid_is_shown : execution_status valid valid ≢ pending
unfolding execution_status is_valid get_field text_eq
valid_is_shown e = cc

status_shown : safety_status valid ≡ completed
status_shown = execution_status-safety_status valid valid valid_is_shown

abbrev monitored : Fields
monitored = field (codes "recovered") (bool false) end

completed_shown : (result_status (codes "recovered") monitored ≡ completed) ↔ (
    (is_dry_run (codes "recovered") ≡ true)
    ⊎ ((monitored ≢ end) × (is_recovered monitored ≡ true))
    ⊎ ((monitored ≡ end) × (is_success_name (codes "recovered") ≡ true)))
completed_shown = result_status-completed_iff (codes "recovered") monitored
