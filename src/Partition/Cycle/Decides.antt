-- ===== src/Partition/Cycle/Decides.antt =====
-- `_has_cycle` decides whether the graph has a cycle.
use aiops_research.Base.{
  suc, ◌≤◌, ◌≡◌, ◌≢◌, refl, Bool, false, subst, inl, inr, ◌↔◌, true, Option, none, some, List, [],
  ◌∷◌, In, In-cons, length, Text, text_eq, text_eq_iff, contains_text, Bool-cases, arith,
}
use aiops_research.Partition.Cycle.{
  Adjacency, targets_of, nodes_of, Outcome, cycle, clear, visit, Walk, edge, more, search_cycle,
  IsCyclic,
}
use aiops_research.Partition.Cycle.Search.{unvisited, Ends, Ordered, any_visit-Ends, visit-Ends}

unvisited-nil : (g : Adjacency) → unvisited [] g ≤ length g
unfolding contains_text
unvisited-nil [] = omega arith
unvisited-nil ((n, ts) ∷ g) = ground (arith, unvisited-nil g)

search_cycle-Ends : (g : Adjacency) → Ends g [] [] (nodes_of g) (search_cycle g)
unfolding search_cycle
search_cycle-Ends g =
    any_visit-Ends g [] (visit g (suc (length g)) []) [] (nodes_of g)
      (λ t vs m kept.
        visit-Ends g (suc (length g)) [] vs t (omega (arith, unvisited-nil g)) tt kept)
      (record { ordered = tt; apart = λ x m k. elim m [ ] })

Ordered-step :
    (g : Adjacency) (vs : List Text) (u t : Text)
    → Ordered g vs
    → In u vs
    → In t (targets_of g u)
    → In t vs
Ordered-step g [] u t ord m e = elim m [ ]
Ordered-step g (v ∷ vs) u t (h, new, ord) m e = elim (In-cons m) [
  | inl same ↦ In.there (h t (subst (λ x. In t (targets_of g x)) same e))
  | inr rest ↦ In.there (Ordered-step g vs u t ord rest e)
]

-- A walk that begins at a finished node stays among the nodes finished before it.
Ordered-Walk :
    (g : Adjacency) (vs : List Text) (u w : Text) → Ordered g vs → In u vs → Walk g u w → In w vs
Ordered-Walk g vs u w ord m (edge e) = Ordered-step g vs u w ord m e
Ordered-Walk g vs u w ord m (more {v} e p) =
    Ordered-Walk g vs v w ord (Ordered-step g vs u v ord m e) p

-- The first step of a walk from the newest node leads to an older one.
leads_back :
    (g : Adjacency) (v : Text) (vs : List Text)
    → ((t : Text) → In t (targets_of g v) → In t vs)
    → Ordered g vs
    → {u w : Text} → Walk g u w
    → u ≡ v
    → In w vs
leads_back g v vs h ord {u} {w} (edge e) same = h w (subst (λ x. In w (targets_of g x)) same e)
leads_back g v vs h ord {u} {w} (more {v = t} e p) same =
    Ordered-Walk g vs t w ord (h t (subst (λ x. In t (targets_of g x)) same e)) p

Ordered-IsCyclic :
    (g : Adjacency) (vs : List Text) (u : Text) → Ordered g vs → In u vs → ¬ Walk g u u
Ordered-IsCyclic g [] u ord m p = elim m [ ]
Ordered-IsCyclic g (v ∷ vs) u (h, new, ord) m p = elim (In-cons m) [
  | inl same ↦ new (subst (λ x. In x vs) same (leads_back g v vs h ord p same))
  | inr rest ↦ Ordered-IsCyclic g vs u ord rest p
]

node_of_target : (g : Adjacency) {u t : Text} → In t (targets_of g u) → In u (nodes_of g)
unfolding targets_of
node_of_target [] m = elim m [ ]
node_of_target ((n, ts) ∷ g) {u} {t} m = elim (Bool-cases (text_eq n u)) [
  | inl e ↦ subst (λ x. In x (n ∷ nodes_of g)) ((text_eq_iff n u).0 e) In.here
  | inr d ↦ In.there (node_of_target g (rw d at m))
]

node_of_walk : (g : Adjacency) {u w : Text} → Walk g u w → In u (nodes_of g)
node_of_walk g (edge e) = node_of_target g e
node_of_walk g (more e p) = node_of_target g e

-- The search ends before its fuel does.
pub search_cycle-returns : (g : Adjacency) → search_cycle g ≢ none
search_cycle-returns g e = subst (Ends g [] [] (nodes_of g)) e (search_cycle-Ends g)

-- What the search answers; there is no answer for a search that runs out of fuel.
abbrev pub found : (o : Option Outcome) → o ≢ none → Bool
found none answers = absurd (answers refl)
found (some cycle) answers = true
found (some (clear visited)) answers = false

unfoldable pub has_cycle : Adjacency → Bool
unfolding search_cycle
has_cycle g = found (search_cycle g) (search_cycle-returns g)

found_iff :
    (g : Adjacency) (o : Option Outcome) (answers : o ≢ none)
    → Ends g [] [] (nodes_of g) o
    → (found o answers ≡ true) ↔ IsCyclic g
found_iff g none answers h = elim h [ ]
found_iff g (some cycle) answers h = (λ e. h, λ c. refl)
found_iff g (some (clear vs)) answers (kept, grown, has) =
    (λ e. cc, λ (u, p). absurd (Ordered-IsCyclic g vs u kept.ordered (has u (node_of_walk g p)) p))

-- The depth-first search never runs out of its fuel, which is one unit for each node and one more, and it
-- reports a cycle exactly if the graph has one.
pub has_cycle_iff : (g : Adjacency) → (search_cycle g ≢ none) × ((has_cycle g ≡ true) ↔ IsCyclic g)
unfolding has_cycle
has_cycle_iff g = (
  search_cycle-returns g,
  found_iff g (search_cycle g) (search_cycle-returns g) (search_cycle-Ends g),
)
