-- ===== src/Sessions/Stages.antt =====
-- src/aiops_k8s_agents/experiment_session.py: the statuses of the stages that a report of a run is
-- shown with.
use aiops_research.Base.{
  Bool, true, false, Option, none, some, [], ◌∷◌, Text, codes, contains_text, text_eq, ◌≡◌, ◌≢◌,
  refl, inl, inr, Bool-cases, arith, if◌then◌else◌, ◌⊎◌, ◌↔◌,
}
use aiops_research.Python.Strip.{lower}
use aiops_research.Json.{Json, string, bool, Fields, end, field, get_field}

-- `blocked` is also a final status that is shown as it is.
pub data StageStatus : Type 0 where
  pending completed failed blocked cancelled interrupted cleanup_failed : StageStatus

abbrev is_nothing : Fields → Bool
is_nothing end = true
is_nothing (field k j fs) = false

-- `value is True`
abbrev is_true : Option Json → Bool
is_true (some (bool true)) = true
is_true _ = false

-- `str(value)` of a value that is compared with other texts only.
abbrev text_of : Option Json → Text
text_of (some (string t)) = t
text_of _ = []

unfoldable pub consensus_status : Fields → StageStatus
consensus_status negotiation =
    if is_nothing negotiation
    then pending
    else if contains_text (lower (text_of (get_field (codes "consensus") negotiation)))
        (codes "approved" ∷ codes "not_required" ∷ [])
    then completed
    else blocked

unfoldable pub is_valid : Fields → Bool
is_valid fs = is_true (get_field (codes "valid") fs)

unfoldable pub safety_status : Fields → StageStatus
safety_status safety =
    if is_nothing safety then pending else if is_valid safety then completed else blocked

unfoldable pub execution_status : Fields → Fields → StageStatus
execution_status execution safety =
    if is_nothing execution
    then pending
    else if is_valid safety
    then (if is_valid execution then completed else failed)
    else pending

-- `recovery.get("recovered", recovery.get("recovery_success"))`
abbrev recovered_value : Option Json → Option Json → Option Json
recovered_value (some j) d = some j
recovered_value none d = d

unfoldable pub is_recovered : Fields → Bool
is_recovered recovery = is_true (
    recovered_value (get_field (codes "recovered") recovery)
      (get_field (codes "recovery_success") recovery))

unfoldable pub is_success_name : Text → Bool
is_success_name final =
    contains_text final
      (codes "no_action_required" ∷ codes "recovered" ∷ codes "recovered_after_replan" ∷ [])

abbrev is_failure_name : Text → Bool
is_failure_name final =
    contains_text final
      (codes "safe_failure" ∷ codes "runtime_unavailable" ∷ codes "configuration_rejected" ∷ [])

unfoldable pub status_of_name : Text → StageStatus
unfolding is_success_name
status_of_name final =
    if is_success_name final
    then completed
    else if text_eq final (codes "cancelled")
    then cancelled
    else if text_eq final (codes "interrupted")
    then interrupted
    else if text_eq final (codes "blocked")
    then blocked
    else if text_eq final (codes "cleanup_failed")
    then cleanup_failed
    else if is_failure_name final
    then failed
    else if contains_text final (codes "safe_stopped" ∷ codes "consensus_rejected" ∷ [])
    then blocked
    else pending

abbrev pub is_dry_run : Text → Bool
is_dry_run final = text_eq final (codes "dry_run_validated")

unfoldable pub result_status : Text → Fields → StageStatus
result_status final recovery =
    if is_dry_run final
    then completed
    else if is_nothing recovery
    then status_of_name final
    else if is_recovered recovery
    then completed
    else failed

not_valid : is_valid end ≡ false
unfolding is_valid get_field
not_valid = refl

-- An execution is shown as anything but pending only if the safety stage is shown as completed.
pub execution_status-safety_status :
    (execution safety : Fields)
    → execution_status execution safety ≢ pending
    → safety_status safety ≡ completed
unfolding execution_status safety_status
execution_status-safety_status execution end h = absurd (h (ground (arith, not_valid)))
execution_status-safety_status execution (field k j fs) h =
    elim (Bool-cases (is_valid (field k j fs))) [
      | inl v ↦ ground (arith, v)
      | inr n ↦ absurd (h (ground (arith, n)))
    ]

-- When a status of a name shows a success.
status_of_name-completed :
    (final : Text) → (status_of_name final ≡ completed) ↔ (is_success_name final ≡ true)
unfolding status_of_name
status_of_name-completed final = ground arith

-- A result is shown as completed exactly for a validated dry run, for a run whose monitoring says
-- that the service recovered, and for a run without monitoring whose final status is one of the
-- three names of a success: a name alone never overrules the monitoring.
pub result_status-completed_iff :
    (final : Text) (recovery : Fields)
    → (result_status final recovery ≡ completed) ↔ (
        (is_dry_run final ≡ true)
        ⊎ ((recovery ≢ end) × (is_recovered recovery ≡ true))
        ⊎ ((recovery ≡ end) × (is_success_name final ≡ true)))
unfolding result_status
result_status-completed_iff final end = ground (arith, status_of_name-completed final)
result_status-completed_iff final (field k j fs) = ground (arith, status_of_name-completed final)
