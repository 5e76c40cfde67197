-- ===== src/Partition/Validator/Drawn.antt =====
-- What the checks of the execution graph find.
use aiops_research.Base.{
  ◌≡◌, refl, ◌↔◌, ◌⊎◌, inl, inr, Bool, true, ◌&&◌, some, List, [], ◌∷◌, In, In-cons, Text, codes,
  text_eq, text_eq_iff, contains_text_iff, Bool-cases, Option-cases, arith, &&-eq-true,
}
use aiops_research.Floats.{Floats}
use aiops_research.Python.Dicts.{get_item, contains, contains-In, contains-of_In}
use aiops_research.Partition.{LogicalPartition, ExecutionGraphEdge}
use aiops_research.Partition.Validator.{pair_eq}
use aiops_research.Partition.Validator.Graph.{
  is_between, has_required_network_link, edge_error, edge_errors,
}
use aiops_research.Partition.Validator.Errors.{append_nil_iff, fail_unless_iff, pair_eq-IsEquality}

module _ (floats : Floats) where
  open floats use {F, gtb}

  -- A transfer needs no link on one device, a link from its source to its target, or, backward in
  -- training, one from its target to its source.
  abbrev pub IsLinked : Text → Text → Text → List (Text × Text) → Bool → Type 0
  IsLinked source target edge_type links trains =
      (source ≡ target)
      ⊎ In (source, target) links
      ⊎ ((trains ≡ true) × (edge_type ≡ codes "backward") × In (target, source) links)

  has_link-IsLinked :
      (source target edge_type : Text) (links : List (Text × Text)) (trains : Bool)
      → (has_required_network_link floats source target edge_type links trains ≡ true)
        ↔ IsLinked source target edge_type links trains
  unfolding has_required_network_link
  has_link-IsLinked source target edge_type links trains =
      let there = contains-In pair_eq pair_eq-IsEquality (source, target) links in
      let there' = contains-of_In pair_eq pair_eq-IsEquality (source, target) links in
      let back = contains-In pair_eq pair_eq-IsEquality (target, source) links in
      let back' = contains-of_In pair_eq pair_eq-IsEquality (target, source) links in
      (
        λ h. elim (Bool-cases (text_eq source target)) [
          | inl a ↦ inl ((text_eq_iff source target).0 a)
          | inr a ↦ elim (Bool-cases (contains pair_eq (source, target) links)) [
            | inl b ↦ inr (inl (there b))
            | inr b ↦
                let is_back = text_eq edge_type (codes "backward") in
                let reverse = contains pair_eq (target, source) links in
                let (c, d) = &&-eq-true trains (is_back && reverse) (ground (arith, a, b, h)) in
                let (e, f) = &&-eq-true is_back reverse d in
                inr (inr (c, (text_eq_iff edge_type (codes "backward")).0 e, back f))
          ]
        ],
        λ h. elim h [
          | inl a ↦ ground (arith, (text_eq_iff source target).1 a)
          | inr g ↦ elim g [
            | inl b ↦ ground (arith, there' b)
            | inr (c, d, e) ↦
                ground (arith, c, back' e, (text_eq_iff edge_type (codes "backward")).1 d)
          ]
        ],
      )

  -- An edge joins two nodes of the candidate whose partitions have the link that it needs.
  pub record IsDrawn (ids : List Text) (nodes : List (Text × LogicalPartition F))
      (links : List (Text × Text)) (trains : Bool) (e : ExecutionGraphEdge F) : Type 0 where
    pub from : In e.source_partition ids
    pub to : In e.target_partition ids
    pub source : LogicalPartition F
    pub target : LogicalPartition F
    pub source_known : get_item e.source_partition nodes ≡ some source
    pub target_known : get_item e.target_partition nodes ≡ some target
    pub linked : IsLinked source.device_id target.device_id e.edge_type links trains

  module _ (ids : List Text) (nodes : List (Text × LogicalPartition F)) (links : List (Text × Text))
      (trains : Bool) where
    edge_error-IsDrawn :
        (e : ExecutionGraphEdge F)
        → edge_error floats ids nodes links trains e ≡ []
        → IsDrawn ids nodes links trains e
    unfolding edge_error
    edge_error-IsDrawn e h = elim (Bool-cases (is_between floats ids e)) [
      | inr out ↦ ground (arith, out)
      | inl between ↦ elim (Option-cases (get_item e.source_partition nodes)) [
        | inl no_source ↦ elim (Option-cases (get_item e.target_partition nodes)) [
          | inl no_target ↦ ground (arith, between, no_source, no_target)
          | inr (t, g) ↦ ground (arith, between, no_source, g)
        ]
        | inr (s, f) ↦ elim (Option-cases (get_item e.target_partition nodes)) [
          | inl no_target ↦ ground (arith, between, f, no_target)
          | inr (t, g) ↦
              let (from, to) = &&-eq-true _ _ between in
              let link =
                has_required_network_link floats s.device_id t.device_id e.edge_type links trains in
              record {
                from = (contains_text_iff e.source_partition ids).0 from;
                to = (contains_text_iff e.target_partition ids).0 to;
                source = s;
                target = t;
                source_known = f;
                target_known = g;
                linked =
                    (has_link-IsLinked s.device_id t.device_id e.edge_type links trains).0
                      ((fail_unless_iff link _).0 (simp (between, f, g) at h));
              }
        ]
      ]
    ]

    IsDrawn-edge_error :
        (e : ExecutionGraphEdge F)
        → IsDrawn ids nodes links trains e
        → edge_error floats ids nodes links trains e ≡ []
    unfolding edge_error
    IsDrawn-edge_error e d = ground (
      arith,
      (contains_text_iff e.source_partition ids).1 d.from,
      (contains_text_iff e.target_partition ids).1 d.to,
      d.source_known,
      d.target_known,
      (has_link-IsLinked d.source.device_id d.target.device_id e.edge_type links trains).1 d.linked,
    )

    pub edge_errors_iff :
        (es : List (ExecutionGraphEdge F))
        → (edge_errors floats ids nodes links trains es ≡ [])
          ↔ ((e : ExecutionGraphEdge F) → In e es → IsDrawn ids nodes links trains e)
    unfolding edge_errors
    edge_errors_iff [] = (λ h e m. elim m [ ], λ h. refl)
    edge_errors_iff (e ∷ es) =
        let first = edge_error floats ids nodes links trains e in
        let others = edge_errors floats ids nodes links trains es in
        (
          λ h d m.
              let (a, b) = (append_nil_iff first others).0 h in
              elim (In-cons m) [
                | inl same ↦ rw same (edge_error-IsDrawn e a)
                | inr r ↦ (edge_errors_iff es).0 b d r
              ],
          λ h. (append_nil_iff first others).1 (
            IsDrawn-edge_error e (h e In.here),
            (edge_errors_iff es).1 (λ d m. h d (In.there m)),
          ),
        )
