-- ===== src/Partition/Cycle/Search.antt =====
-- What one call of `visit` keeps, and that it has fuel enough.
use aiops_research.Base.{
  ℕ, zero, suc, ◌≤◌, ◌<◌, ◌≡◌, refl, subst, inl, inr, false, Option, none, some, List, [], ◌∷◌, In,
  In-cons, Text, text_eq, text_eq_iff, contains_text, contains_text_iff, if◌then◌else◌, Bool-cases,
  arith, sym,
}
use aiops_research.Partition.Cycle.{
  Adjacency, targets_of, Outcome, cycle, clear, any_visit, leave, visit, Walk, edge, more,
}

-- The nodes that are not yet being visited.
abbrev pub unvisited : List Text → Adjacency → ℕ
unvisited visiting [] = 0
unvisited visiting ((n, ts) ∷ g) =
    if contains_text n visiting then unvisited visiting g else suc (unvisited visiting g)

unvisited-le :
    (node : Text) (visiting : List Text) (g : Adjacency)
    → unvisited (node ∷ visiting) g ≤ unvisited visiting g
unfolding contains_text
unvisited-le node visiting [] = omega arith
unvisited-le node visiting ((n, ts) ∷ g) = ground (arith, unvisited-le node visiting g)

-- A node with a target is one of the graph, so visiting it leaves fewer.
unvisited-lt :
    (node t : Text) (ts visiting : List Text) (g : Adjacency)
    → targets_of g node ≡ t ∷ ts
    → contains_text node visiting ≡ false
    → unvisited (node ∷ visiting) g < unvisited visiting g
unfolding contains_text targets_of
unvisited-lt node t ts visiting [] h new = cc
unvisited-lt node t ts visiting ((n, us) ∷ g) h new = elim (Bool-cases (text_eq n node)) [
  | inl e ↦
      let same = (text_eq_iff n node).0 e in
      rw (e, same, new) (ground (arith, unvisited-le node visiting g))
  | inr d ↦ rw d (ground (arith, unvisited-lt node t ts visiting g (rw d at h) new))
]

-- Every target of a finished node was finished before it.
abbrev pub Ordered : Adjacency → List Text → Type 0
Ordered g [] = Unit
Ordered g (v ∷ vs) = ((t : Text) → In t (targets_of g v) → In t vs) × ¬ In v vs × Ordered g vs

-- Each of the nodes being visited leads to the one visited after it.
abbrev pub IsTrail : Adjacency → Text → List Text → Type 0
IsTrail g node [] = Unit
IsTrail g node (v ∷ vs) = In node (targets_of g v) × IsTrail g v vs

pub record IsKept (g : Adjacency) (visiting visited : List Text) : Type 0 where
  pub ordered : Ordered g visited
  pub apart : (x : Text) → In x visiting → ¬ In x visited

-- What visiting the nodes `ts` ends with: a real cycle, or a larger set that has them all.
abbrev pub Ends : Adjacency → List Text → List Text → List Text → Option Outcome → Type 0
Ends g visiting visited ts none = ⊥
Ends g visiting visited ts (some cycle) = (u : Text) × Walk g u u
Ends g visiting visited ts (some (clear visited')) =
    IsKept g visiting visited'
    × ((x : Text) → In x visited → In x visited')
    × ((x : Text) → In x ts → In x visited')

Walk-extend : {g : Adjacency} {u v w : Text} → Walk g u v → In w (targets_of g v) → Walk g u w
Walk-extend (edge h) m = more h (edge m)
Walk-extend (more h p) m = more h (Walk-extend p m)

-- A node being visited reaches the node at the end of the trail.
Walk-trail :
    (g : Adjacency) (x node : Text) (visiting : List Text)
    → IsTrail g node visiting
    → In x visiting
    → Walk g x node
Walk-trail g x node [] trail m = elim m [ ]
Walk-trail g x node (v ∷ vs) (h, r) In.here = edge h
Walk-trail g x node (v ∷ vs) (h, r) (In.there m) = Walk-extend (Walk-trail g x v vs r m) h

widen :
    (g : Adjacency) (visiting visited vs : List Text) (t : Text) (ts : List Text)
    (o : Option Outcome)
    → ((x : Text) → In x visited → In x vs)
    → In t vs
    → Ends g visiting vs ts o
    → Ends g visiting visited (t ∷ ts) o
widen g visiting visited vs t ts none grown first h = h
widen g visiting visited vs t ts (some cycle) grown first h = h
widen g visiting visited vs t ts (some (clear ws)) grown first (kept, more_grown, has) = (
  kept,
  λ x m. more_grown x (grown x m),
  λ x m. elim (In-cons m) [
    | inl e ↦ subst (λ u. In u ws) (sym e) (more_grown t first)
    | inr r ↦ has x r
  ],
)

-- One target, and then the others with the set that it leaves.
any_next :
    (g : Adjacency) (visiting visited : List Text) (t : Text) (ts : List Text)
    (step : List Text → Text → Option Outcome) (o : Option Outcome)
    → Ends g visiting visited (t ∷ []) o
    → ((vs : List Text) → IsKept g visiting vs → Ends g visiting vs ts (any_visit step vs ts))
    → Ends g visiting visited (t ∷ ts) (elim o [
      | none ↦ none
      | some o ↦ elim o [ cycle ↦ some cycle | clear vs ↦ any_visit step vs ts ]
    ])
any_next g visiting visited t ts step none h others = elim h [ ]
any_next g visiting visited t ts step (some cycle) h others = h
any_next g visiting visited t ts step (some (clear vs)) (kept, grown, has) others =
    widen g visiting visited vs t ts (any_visit step vs ts) grown (has t In.here) (others vs kept)

pub any_visit-Ends :
    (g : Adjacency) (visiting : List Text) (step : List Text → Text → Option Outcome)
    (visited ts : List Text)
    → ((t : Text) (vs : List Text)
        → In t ts
        → IsKept g visiting vs
        → Ends g visiting vs (t ∷ []) (step vs t))
    → IsKept g visiting visited
    → Ends g visiting visited ts (any_visit step visited ts)
unfolding any_visit
any_visit-Ends g visiting step visited [] each kept = (kept, λ x m. m, λ x m. elim m [ ])
any_visit-Ends g visiting step visited (t ∷ ts) each kept =
    any_next g visiting visited t ts step (step visited t) (each t visited In.here kept)
      (λ vs k. any_visit-Ends g visiting step vs ts (λ u ws m. each u ws (In.there m)) k)

leave-Ends :
    (g : Adjacency) (visiting visited : List Text) (node : Text) (o : Option Outcome)
    → ¬ In node visiting
    → Ends g (node ∷ visiting) visited (targets_of g node) o
    → Ends g visiting visited (node ∷ []) (leave node o)
leave-Ends g visiting visited node none new h = h
leave-Ends g visiting visited node (some cycle) new h = h
leave-Ends g visiting visited node (some (clear vs)) new (kept, grown, has) = (
  record {
    ordered = (has, kept.apart node In.here, kept.ordered);
    apart = λ x m k. elim (In-cons k) [
      | inl e ↦ new (subst (λ u. In u visiting) e m)
      | inr r ↦ kept.apart x (In.there m) r
    ];
  },
  λ x m. In.there (grown x m),
  λ x m. elim (In-cons m) [
    | inl e ↦ subst (λ u. In u (node ∷ vs)) (sym e) In.here
    | inr r ↦ elim r [ ]
  ],
)

IsKept-enter :
    (g : Adjacency) (visiting visited : List Text) (node : Text)
    → ¬ In node visited
    → IsKept g visiting visited
    → IsKept g (node ∷ visiting) visited
IsKept-enter g visiting visited node new kept = record {
  ordered = kept.ordered;
  apart = λ x m k. elim (In-cons m) [
    | inl e ↦ new (subst (λ u. In u visited) e k)
    | inr r ↦ kept.apart x r k
  ];
}

not_In : (t : Text) (ts : List Text) → contains_text t ts ≡ false → ¬ In t ts
not_In t ts h m = cc ((contains_text_iff t ts).1 m)

first_of : {t : Text} {ts : List Text} → In t ts → (u : Text) × (us : List Text) × (ts ≡ u ∷ us)
first_of {ts = []} m = elim m [ ]
first_of {ts = u ∷ us} m = (u, us, refl)

unvisited-below :
    (g : Adjacency) (node t : Text) (visiting : List Text) (fuel : ℕ)
    → In t (targets_of g node)
    → contains_text node visiting ≡ false
    → unvisited visiting g < suc fuel
    → unvisited (node ∷ visiting) g < fuel
unvisited-below g node t visiting fuel m new h =
    let (u, us, e) = first_of m in omega (arith, unvisited-lt node u us visiting g e new)

-- With more fuel than there are nodes still to enter, a visit ends as it should.
pub visit-Ends :
    (g : Adjacency) (fuel : ℕ) (visiting visited : List Text) (node : Text)
    → unvisited visiting g < fuel
    → IsTrail g node visiting
    → IsKept g visiting visited
    → Ends g visiting visited (node ∷ []) (visit g fuel visiting visited node)
unfolding visit
visit-Ends g zero visiting visited node h trail kept = elim h [ ]
visit-Ends g (suc fuel) visiting visited node h trail kept =
    elim (Bool-cases (contains_text node visiting)) [
      | inl back ↦
          rw back
            (node, Walk-trail g node node visiting trail ((contains_text_iff node visiting).0 back))
      | inr entered ↦ rw entered (elim (Bool-cases (contains_text node visited)) [
        | inl old ↦ rw old (
          kept,
          λ x m. m,
          λ x m. elim (In-cons m) [
            | inl e ↦ subst (λ u. In u visited) (sym e) ((contains_text_iff node visited).0 old)
            | inr r ↦ elim r [ ]
          ],
        )
        | inr new ↦ rw new (
            leave-Ends g visiting visited node
              (any_visit (visit g fuel (node ∷ visiting)) visited (targets_of g node))
              (not_In node visiting entered)
              (any_visit-Ends g (node ∷ visiting) (visit g fuel (node ∷ visiting)) visited
                (targets_of g node)
                (λ t vs m k.
                  visit-Ends g fuel (node ∷ visiting) vs t
                    (unvisited-below g node t visiting fuel m entered h) (m, trail) k)
                (IsKept-enter g visiting visited node (not_In node visited new) kept)))
      ])
    ]
