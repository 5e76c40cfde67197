-- ===== src/Sessions.antt =====
-- src/aiops_k8s_agents/experiment_session.py: the bounded store of sessions, and the statuses of the
-- stages of a session. An `OrderedDict` is the list of its values, the oldest first.
pub mod Bounded
pub mod Stages
use aiops_research.Base.{
  ℕ, zero, suc, Bool, true, false, not, Option, none, some, List, [], ◌∷◌, ◌++◌, Text, codes,
  text_eq, contains_text, select, length, ltb, if◌then◌else◌,
}
use aiops_research.Json.{Json}

-- The fields that the store reads, and the other ones.
pub record ExperimentSession : Type 0 where
  pub experiment_id : Text
  pub contents : Json

abbrev pub has_id : Text → ExperimentSession → Bool
has_id i s = text_eq s.experiment_id i

abbrev pub pop : Text → List ExperimentSession → List ExperimentSession
pop i ss = select (λ s. not (has_id i s)) ss

-- `while len(...) > max_sessions: popitem(last=False)`
unfoldable pub evict : ℕ → List ExperimentSession → List ExperimentSession
evict max [] = []
evict max (s ∷ ss) = let rest = evict max ss in if ltb max (suc (length ss)) then rest else s ∷ ss

unfoldable pub put : ℕ → ExperimentSession → List ExperimentSession → List ExperimentSession
unfolding evict
put max s ss = evict max (pop s.experiment_id ss ++ s ∷ [])

unfoldable pub get : Text → List ExperimentSession → Option ExperimentSession
get i [] = none
get i (s ∷ ss) = if has_id i s then some s else get i ss

-- `reversed(...)`
unfoldable pub list_sessions : List ExperimentSession → List ExperimentSession
list_sessions [] = []
list_sessions (s ∷ ss) = list_sessions ss ++ s ∷ []
