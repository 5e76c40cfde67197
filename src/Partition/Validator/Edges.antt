-- ===== src/Partition/Validator/Edges.antt =====
-- The adjacency that the validator builds holds the edges of the candidate.
use aiops_research.Base.{
  ◌≡◌, refl, ◌↔◌, ◌⊎◌, inl, inr, subst, sym, ap, ◌∙◌, Bool, true, false, List, [], ◌∷◌, map, In,
  In-cons, Text, text_eq, text_eq_iff, text_eq_refl, contains_text_iff, if◌then◌else◌, Bool-cases,
  arith, &&-eq-true,
}
use aiops_research.Floats.{Floats}
use aiops_research.Partition.{ExecutionGraphEdge, PartitionCandidate}
use aiops_research.Partition.Cycle.{Adjacency, targets_of, nodes_of, Walk, edge, more}
use aiops_research.Partition.Cycle.Decides.{has_cycle, has_cycle_iff}
use aiops_research.Partition.Validator.Graph.{
  node_ids, is_between, add_target, connect, adjacency_of,
}

module _ (floats : Floats) where
  open floats use {F}

  nodes_of-add_target :
      (u v : Text) (g : Adjacency) → nodes_of (add_target floats u v g) ≡ nodes_of g
  unfolding add_target
  nodes_of-add_target u v [] = refl
  nodes_of-add_target u v ((n, ts) ∷ g) = ground (arith, nodes_of-add_target u v g)

  targets_of-add_target :
      (u v x : Text) (g : Adjacency)
      → In u (nodes_of g)
      → targets_of (add_target floats u v g) x
        ≡ (if text_eq u x then v ∷ targets_of g x else targets_of g x)
  unfolding add_target targets_of
  targets_of-add_target u v x [] m = elim m [ ]
  targets_of-add_target u v x ((n, ts) ∷ g) m = elim (Bool-cases (text_eq n u)) [
    | inl same ↦ rw (same, (text_eq_iff n u).0 same) (ground (arith, text_eq_iff u x))
    | inr other ↦ elim (In-cons m) [
      | inl e ↦ cc ((text_eq_iff n u).1 (sym e))
      | inr r ↦ rw other (
          ground (
            arith,
            targets_of-add_target u v x g r,
            text_eq_iff n x,
            text_eq_iff u x,
            text_eq_iff n u,
          ))
    ]
  ]

  -- An edge among `es` from `u` to `v`.
  pub record Joins (es : List (ExecutionGraphEdge F)) (u v : Text) : Type 0 where
    pub by : ExecutionGraphEdge F
    pub listed : In by es
    pub source : by.source_partition ≡ u
    pub target : by.target_partition ≡ v

  Joins-later :
      {es : List (ExecutionGraphEdge F)} {u v : Text} (e : ExecutionGraphEdge F)
      → Joins es u v
      → Joins (e ∷ es) u v
  Joins-later e j = record {
    by = j.by;
    listed = In.there j.listed;
    source = j.source;
    target = j.target;
  }

  -- The walks along the edges of a candidate, of one edge or more.
  pub data EdgeWalk (es : List (ExecutionGraphEdge F)) : Text → Text → Type 0 where
    one : {u v : Text} → Joins es u v → EdgeWalk es u v
    onward : {u v w : Text} → Joins es u v → EdgeWalk es v w → EdgeWalk es u w

  module _ (ids : List Text) where
    target-connect :
        (es : List (ExecutionGraphEdge F)) (g : Adjacency) (u v : Text)
        → ((n : Text) → In n ids → In n (nodes_of g))
        → In v (targets_of (connect floats ids es g) u)
        → In v (targets_of g u) ⊎ Joins es u v
    unfolding connect
    target-connect [] g u v known m = inl m
    target-connect (e ∷ es) g u v known m = elim (Bool-cases (is_between floats ids e)) [
      | inr out ↦ elim (target-connect es g u v known (rw out at m)) [
        | inl old ↦ inl old
        | inr j ↦ inr (Joins-later e j)
      ]
      | inl between ↦
          let s = e.source_partition in
          let t = e.target_partition in
          let g' = add_target floats s t g in
          let has = known s ((contains_text_iff s ids).0 (&&-eq-true _ _ between).0) in
          elim (target-connect es g' u v
            (λ n k. subst (λ ns. In n ns) (sym (nodes_of-add_target s t g)) (known n k))
            (rw between at m)) [
              | inr j ↦ inr (Joins-later e j)
              | inl new ↦ elim (Bool-cases (text_eq s u)) [
                | inl same ↦
                    elim (In-cons (
                      subst (λ ts. In v ts) (targets_of-add_target s t u g has ∙ rw same refl)
                        new)) [
                          | inl e' ↦ inr (record {
                            by = e;
                            listed = In.here;
                            source = (text_eq_iff s u).0 same;
                            target = sym e';
                          })
                          | inr old ↦ inl old
                        ]
                | inr other ↦
                    inl (
                      subst (λ ts. In v ts) (targets_of-add_target s t u g has ∙ rw other refl) new)
              ]
            ]
    ]

    In-if : (b : Bool) (t v : Text) (ts : List Text) → In v ts → In v (if b then t ∷ ts else ts)
    In-if true t v ts m = In.there m
    In-if false t v ts m = m

    connect-keeps :
        (es : List (ExecutionGraphEdge F)) (g : Adjacency) (u v : Text)
        → ((n : Text) → In n ids → In n (nodes_of g))
        → In v (targets_of g u)
        → In v (targets_of (connect floats ids es g) u)
    unfolding connect
    connect-keeps [] g u v known m = m
    connect-keeps (e ∷ es) g u v known m = elim (Bool-cases (is_between floats ids e)) [
      | inr out ↦ rw out (connect-keeps es g u v known m)
      | inl between ↦
          let s = e.source_partition in
          let t = e.target_partition in
          let has = known s ((contains_text_iff s ids).0 (&&-eq-true _ _ between).0) in
          rw between (
            connect-keeps es (add_target floats s t g) u v
              (λ n k. subst (λ ns. In n ns) (sym (nodes_of-add_target s t g)) (known n k))
              (subst (λ ts. In v ts) (sym (targets_of-add_target s t u g has))
                (In-if (text_eq s u) t v (targets_of g u) m)))
    ]

    connect-Joins :
        (es : List (ExecutionGraphEdge F)) (g : Adjacency) (e : ExecutionGraphEdge F)
        → ((n : Text) → In n ids → In n (nodes_of g))
        → In e es
        → is_between floats ids e ≡ true
        → In e.target_partition (targets_of (connect floats ids es g) e.source_partition)
    unfolding connect
    connect-Joins [] g e known m between = elim m [ ]
    connect-Joins (d ∷ es) g e known m between =
        let grown = λ (h : Adjacency) (k : nodes_of h ≡ nodes_of g) (n : Text) (i : In n ids).
          subst (λ ns. In n ns) (sym k) (known n i) in
        elim (In-cons m) [
          | inl same ↦
              let s = d.source_partition in
              let t = d.target_partition in
              let here : is_between floats ids d ≡ true =
                subst (λ x. is_between floats ids x ≡ true) same between in
              let has = known s ((contains_text_iff s ids).0 (&&-eq-true _ _ here).0) in
              rw (here, same)
                (connect-keeps es (add_target floats s t g) s t
                  (grown (add_target floats s t g) (nodes_of-add_target s t g))
                  (rw (targets_of-add_target s t s g has, text_eq_refl s) In.here))
          | inr r ↦ elim (Bool-cases (is_between floats ids d)) [
            | inr out ↦ rw out (connect-Joins es g e known r between)
            | inl here ↦
                let s = d.source_partition in
                let t = d.target_partition in
                rw here (
                  connect-Joins es (add_target floats s t g) e
                    (grown (add_target floats s t g) (nodes_of-add_target s t g)) r between)
          ]
        ]

  module _ (selected : PartitionCandidate F) where
    targets_of-blank : (ns : List Text) (u : Text) → targets_of (map (λ n. (n, [])) ns) u ≡ []
    unfolding targets_of
    targets_of-blank [] u = refl
    targets_of-blank (n ∷ ns) u = ground (arith, targets_of-blank ns u)

    nodes_of-blank : (ns : List Text) → nodes_of (map (λ n. (n, [])) ns) ≡ ns
    nodes_of-blank [] = refl
    nodes_of-blank (n ∷ ns) = ap (λ ms. n ∷ ms) (nodes_of-blank ns)

    known_nodes :
        (n : Text)
        → In n (node_ids floats selected)
        → In n (nodes_of (map (λ n. (n, [])) (node_ids floats selected)))
    known_nodes n m = subst (λ ns. In n ns) (sym (nodes_of-blank (node_ids floats selected))) m

    step-Joins :
        (u v : Text)
        → In v (targets_of (adjacency_of floats selected) u)
        → Joins selected.graph_edges u v
    unfolding adjacency_of
    step-Joins u v m =
        elim (target-connect (node_ids floats selected) selected.graph_edges
          (map (λ n. (n, [])) (node_ids floats selected)) u v known_nodes m) [
            | inl old ↦
                elim (subst (λ ts. In v ts) (targets_of-blank (node_ids floats selected) u) old) [ ]
            | inr j ↦ j
          ]

    Joins-step :
        (u v : Text)
        → ((e : ExecutionGraphEdge F)
            → In e selected.graph_edges
            → is_between floats (node_ids floats selected) e ≡ true)
        → Joins selected.graph_edges u v
        → In v (targets_of (adjacency_of floats selected) u)
    unfolding adjacency_of
    Joins-step u v all_known j =
        subst
          (λ x. In v (
            targets_of
              (connect floats (node_ids floats selected) selected.graph_edges
                (map (λ n. (n, [])) (node_ids floats selected)))
              x))
          j.source
          (subst
            (λ y. In y (
              targets_of
                (connect floats (node_ids floats selected) selected.graph_edges
                  (map (λ n. (n, [])) (node_ids floats selected)))
                j.by.source_partition))
            j.target
            (connect-Joins (node_ids floats selected) selected.graph_edges
              (map (λ n. (n, [])) (node_ids floats selected)) j.by known_nodes j.listed
              (all_known j.by j.listed)))

    Walk-EdgeWalk :
        {u v : Text} → Walk (adjacency_of floats selected) u v → EdgeWalk selected.graph_edges u v
    Walk-EdgeWalk {u} {v} (edge m) = one (step-Joins u v m)
    Walk-EdgeWalk {u} (more {v} m p) = onward (step-Joins u v m) (Walk-EdgeWalk p)

    EdgeWalk-Walk :
        ((e : ExecutionGraphEdge F)
          → In e selected.graph_edges
          → is_between floats (node_ids floats selected) e ≡ true)
        → {u v : Text} → EdgeWalk selected.graph_edges u v
        → Walk (adjacency_of floats selected) u v
    EdgeWalk-Walk h {u} {v} (one j) = edge (Joins-step u v h j)
    EdgeWalk-Walk h {u} (onward {v} j p) = more (Joins-step u v h j) (EdgeWalk-Walk h p)

    -- Where every edge joins two nodes of the candidate, the validator finds a cycle exactly if
    -- the edges have one.
    pub has_cycle-adjacency_of :
        ((e : ExecutionGraphEdge F)
          → In e selected.graph_edges
          → is_between floats (node_ids floats selected) e ≡ true)
        → (has_cycle (adjacency_of floats selected) ≡ true)
          ↔ ((u : Text) × EdgeWalk selected.graph_edges u u)
    has_cycle-adjacency_of h = (
      λ e. let (u, p) = (has_cycle_iff _).1.0 e in (u, Walk-EdgeWalk p),
      λ (u, p). (has_cycle_iff _).1.1 (u, EdgeWalk-Walk h p),
    )
