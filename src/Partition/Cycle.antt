-- ===== src/Partition/Cycle.antt =====
-- src/aiops_k8s_agents/partition_validator.py, `PartitionPlanValidator._has_cycle`: a depth-first
-- search with the sets `visiting` and `visited`. A recursive call takes one unit of fuel, and
-- Python's own limit on recursion is not modelled.
pub mod Search
pub mod Decides
use aiops_research.Base.{
  ℕ, zero, suc, Bool, true, false, Option, none, some, List, [], ◌∷◌, In, length, Text, text_eq,
  contains_text, if◌then◌else◌,
}

-- `dict[str, set[str]]`, with the set of a node in the order of its iteration.
abbrev pub Adjacency : Type 0
Adjacency = List (Text × List Text)

-- `adjacency.get(node, ())`
unfoldable pub targets_of : Adjacency → Text → List Text
targets_of [] node = []
targets_of ((n, ts) ∷ g) node = if text_eq n node then ts else targets_of g node

abbrev pub nodes_of : Adjacency → List Text
nodes_of [] = []
nodes_of ((n, ts) ∷ g) = n ∷ nodes_of g

-- What `visit` returns, and the set `visited` if it goes on. A call that goes on leaves the set
-- `visiting` as it found it, so that set is an argument only.
pub data Outcome : Type 0 where
  cycle : Outcome
  clear : List Text → Outcome

-- `any(visit(target) for target in targets)`
unfoldable pub any_visit :
    (List Text → Text → Option Outcome) → List Text → List Text → Option Outcome
any_visit visit visited [] = some (clear visited)
any_visit visit visited (t ∷ ts) = elim (visit visited t) [
  | none ↦ none
  | some o ↦ elim o [ cycle ↦ some cycle | clear visited' ↦ any_visit visit visited' ts ]
]

abbrev pub leave : Text → Option Outcome → Option Outcome
leave node none = none
leave node (some cycle) = some cycle
leave node (some (clear visited)) = some (clear (node ∷ visited))

unfoldable pub visit : Adjacency → ℕ → List Text → List Text → Text → Option Outcome
unfolding any_visit targets_of
visit g zero visiting visited node = none
visit g (suc fuel) visiting visited node =
    let rest =
      leave node (any_visit (visit g fuel (node ∷ visiting)) visited (targets_of g node)) in
    if contains_text node visiting
    then some cycle
    else if contains_text node visited
    then some (clear visited)
    else rest

-- A call of `visit` may stand inside one for each node, and one more.
unfoldable pub search_cycle : Adjacency → Option Outcome
unfolding any_visit visit
search_cycle g = any_visit (visit g (suc (length g)) []) [] (nodes_of g)

-- A walk of one edge or more.
pub data Walk (g : Adjacency) : Text → Text → Type 0 where
  edge : {u v : Text} → In v (targets_of g u) → Walk g u v
  more : {u v w : Text} → In v (targets_of g u) → Walk g v w → Walk g u w

abbrev pub IsCyclic : Adjacency → Type 0
IsCyclic g = (u : Text) × Walk g u u
