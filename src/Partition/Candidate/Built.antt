-- ===== src/Partition/Candidate/Built.antt =====
-- A candidate that the agent builds as valid passes the validator's checks of its partitions, and its
-- edges join the partitions in a chain.
use aiops_research.Base.{
  ℕ, ◌+◌, ◌-◌, ◌≤◌, ◌≡◌, refl, sym, ap, subst, ◌∙◌, inl, inr, true, some, List, [], ◌∷◌, ◌++◌, map,
  In, In-cons, In-eq, In-append_left, length, length-append, Text, codes, Bool-cases, Option-cases,
  arith, ok, ok_inj, passed, append-nil,
}
use aiops_research.Floats.{Floats}
use aiops_research.Python.Dicts.{contains}
use aiops_research.Partition.{
  NetworkLink, FederatedRoundPlan, LogicalPartition, ExecutionGraphEdge, PartitionCandidate,
}
use aiops_research.Partition.Validator.{neighbours, pair_eq, is_empty}
use aiops_research.Partition.Validator.Errors.{append_nil_iff, fail_if_iff, pair_eq-IsEquality}
use aiops_research.Partition.Validator.Graph.{link_pairs}
use aiops_research.Partition.Validator.Legacy.{coverage, layer_names_of}
use aiops_research.Partition.Validator.Placed.{IsPlaced}
use aiops_research.Partition.Validator.Executable.{transfer_iff}
use aiops_research.Partition.Candidate.{
  get_elem?, drop, Scoring, Placed, Joined, edge, rejected, link_between, join, join_all, edges_of,
  rejections_of, reasons_of, place_all, candidate_of, join_neighbours, build_candidate, bytes_of,
}
use aiops_research.Partition.Candidate.Slices.{drop-length}
use aiops_research.Partition.Candidate.Fits.{HasNames, last_end, partitions_of, place_all-IsPlaced}

module _ (floats : Floats) where
  open floats use {F}

  -- A forward edge from one partition to another, over a link of the snapshot.
  pub record Links (round : FederatedRoundPlan F) (edges : List (ExecutionGraphEdge F))
      (s t : LogicalPartition F) : Type 0 where
    pub by : ExecutionGraphEdge F
    pub listed : In by edges
    pub source : by.source_partition ≡ s.partition_id
    pub target : by.target_partition ≡ t.partition_id
    pub forward : by.edge_type ≡ codes "forward"
    pub linked : In {A = Text × Text} (s.device_id, t.device_id) (link_pairs floats round)

  Links-later :
      {round : FederatedRoundPlan F} {edges : List (ExecutionGraphEdge F)}
      {s t : LogicalPartition F} (e : ExecutionGraphEdge F)
      → Links round edges s t
      → Links round (e ∷ edges) s t
  Links-later e l = record {
    by = l.by;
    listed = In.there l.listed;
    source = l.source;
    target = l.target;
    forward = l.forward;
    linked = l.linked;
  }

  link_between-In :
      (source target : Text) (ks : List (NetworkLink F)) (k : NetworkLink F)
      → link_between floats source target ks ≡ some k
      → In {A = Text × Text} (source, target) (map (λ k. (k.source_device, k.target_device)) ks)
  unfolding link_between
  link_between-In source target [] k h = cc
  link_between-In source target (l ∷ ks) k h =
      elim (Option-cases (link_between floats source target ks)) [
        | inr (m, e) ↦ In.there (link_between-In source target ks m e)
        | inl e ↦ elim (Bool-cases (pair_eq (l.source_device, l.target_device) (source, target))) [
          | inl same ↦ In-eq _ (
              sym ((pair_eq-IsEquality (l.source_device, l.target_device) (source, target)).0 same))
          | inr other ↦ ground (arith, e, other)
        ]
      ]

  -- Two neighbours that are joined get an edge, or a reason against the candidate.
  join-Links :
      (policy : Scoring floats) (round : FederatedRoundPlan F) (excluded_links : List (Text × Text))
      (s t : LogicalPartition F) (split : ℕ) (j : Joined floats)
      → join floats policy round excluded_links s t split ≡ ok j
      → rejections_of floats (j ∷ []) ≡ []
      → Links round (edges_of floats (j ∷ [])) s t
  unfolding join
  join-Links policy round excluded_links s t split (rejected reason) h n = cc
  join-Links policy round excluded_links s t split (edge e ms) h n =
      elim (Bool-cases (contains pair_eq (s.device_id, t.device_id) excluded_links)) [
        | inl out ↦ ground (arith, out)
        | inr free ↦
            elim (Option-cases (link_between floats s.device_id t.device_id round.network_links)) [
              | inl missing ↦ ground (arith, free, missing)
              | inr (link, f) ↦ elim (Option-cases (get_elem? round.layers (split - 1))) [
                | inl outside ↦ ground (arith, free, f, outside)
                | inr (layer, g) ↦ record {
                  by = e;
                  listed = In.here;
                  source = ground (arith, free, f, g);
                  target = ground (arith, free, f, g);
                  forward = ground (arith, free, f, g);
                  linked = link_between-In s.device_id t.device_id round.network_links link f;
                }
              ]
            ]
      ]

  join-edges :
      (j : Joined floats) (js : List (Joined floats))
      → rejections_of floats (j ∷ js) ≡ []
      → (rejections_of floats (j ∷ []) ≡ [])
        × (rejections_of floats js ≡ [])
        × (edges_of floats (j ∷ js) ≡ edges_of floats (j ∷ []) ++ edges_of floats js)
  join-edges (edge e ms) js h = (refl, h, refl)
  join-edges (rejected reason) js h = cc

  Links-append :
      {round : FederatedRoundPlan F} {s t : LogicalPartition F}
      (es fs : List (ExecutionGraphEdge F))
      → Links round fs s t
      → Links round (es ++ fs) s t
  Links-append [] fs l = l
  Links-append (e ∷ es) fs l = Links-later e (Links-append es fs l)

  Links-left :
      {round : FederatedRoundPlan F} {s t : LogicalPartition F} {es : List (ExecutionGraphEdge F)}
      (fs : List (ExecutionGraphEdge F))
      → Links round es s t
      → Links round (es ++ fs) s t
  Links-left fs l = record {
    by = l.by;
    listed = In-append_left fs l.listed;
    source = l.source;
    target = l.target;
    forward = l.forward;
    linked = l.linked;
  }

  join_all-Links :
      (policy : Scoring floats) (round : FederatedRoundPlan F) (excluded_links : List (Text × Text))
      (s : LogicalPartition F) (ts : List (LogicalPartition F)) (splits : List ℕ)
      (js : List (Joined floats))
      → join_all floats policy round excluded_links s ts splits ≡ ok js
      → rejections_of floats js ≡ []
      → (a b : LogicalPartition F)
      → In {A = LogicalPartition F × LogicalPartition F} (a, b) (neighbours (s ∷ ts))
      → Links round (edges_of floats js) a b
  unfolding join_all
  join_all-Links policy round excluded_links s [] splits js h n a b m = elim m [ ]
  join_all-Links policy round excluded_links s (t ∷ ts) [] js h n a b m = cc
  join_all-Links policy round excluded_links s (t ∷ ts) (split ∷ splits) js h n a b m =
      let (j, h1, e1) = passed _ (join floats policy round excluded_links s t split) h in
      let (others, h2, e2) =
        passed _ (join_all floats policy round excluded_links t ts splits) h1 in
      let built = ok_inj h2 in
      let (n1, n2, es) = join-edges j others (ap (rejections_of floats) built ∙ n) in
      let first = edges_of floats (j ∷ []) in
      let rest = edges_of floats others in
      subst (λ xs. Links round xs a b) (sym es ∙ ap (edges_of floats) built)
        (elim (In-cons m) [
          | inl same ↦ Links-left rest (
              subst (λ x. Links round first x b) (sym (ap (λ p. p.0) same))
                (subst (λ y. Links round first s y) (sym (ap (λ p. p.1) same))
                  (join-Links policy round excluded_links s t split j e1 n1)))
          | inr r ↦
              Links-append first rest
                (join_all-Links policy round excluded_links t ts splits others e2 n2 a b r)
        ])

  last_end-append : (start n : ℕ) (ends : List ℕ) → last_end start (ends ++ n ∷ []) ≡ n
  last_end-append start n [] = refl
  last_end-append start n (end ∷ ends) = last_end-append end n ends

  -- What the validator asks of the partitions of a candidate, and the chain of its edges.
  pub record IsBuilt (round : FederatedRoundPlan F) (c : PartitionCandidate F) : Type 0 where
    pub placed : (p : LogicalPartition F) → In p c.partitions → IsPlaced floats round p
    pub covered : coverage floats c.partitions ≡ layer_names_of floats round
    pub chained :
        (a b : LogicalPartition F)
        → In {A = LogicalPartition F × LogicalPartition F} (a, b) (neighbours c.partitions)
        → Links round c.graph_edges a b
    pub transfer :
        (limit : ℕ)
        → round.constraints.max_transfer_bytes ≡ some limit
        → c.total_transfer_bytes ≤ limit

  neighbours-Links :
      (policy : Scoring floats) (round : FederatedRoundPlan F) (excluded_links : List (Text × Text))
      (ps : List (LogicalPartition F)) (splits : List ℕ) (js : List (Joined floats))
      → join_neighbours floats policy round excluded_links ps splits ≡ ok js
      → rejections_of floats js ≡ []
      → (a b : LogicalPartition F)
      → In {A = LogicalPartition F × LogicalPartition F} (a, b) (neighbours ps)
      → Links round (edges_of floats js) a b
  neighbours-Links policy round excluded_links [] splits js h n a b m = elim m [ ]
  neighbours-Links policy round excluded_links (s ∷ ts) splits js h n a b m =
      join_all-Links policy round excluded_links s ts splits js h n a b m

  valid_nil : (xs : List Text) → is_empty xs ≡ true → xs ≡ []
  valid_nil [] h = refl
  valid_nil (x ∷ xs) h = cc

  candidate_of-IsBuilt :
      (policy : Scoring floats) (round : FederatedRoundPlan F) (participants : List Text)
      (split_points : List ℕ) (excluded_links : List (Text × Text))
      (memory_limits : List (Text × ℕ)) (placed : List (Placed floats))
      (joined : List (Joined floats))
      → HasNames floats round
      → ((id : Text) → In id participants → In id round.participants)
      → length participants ≡ length split_points + 1
      → place_all floats round memory_limits 0 0
          (split_points ++ length round.layers ∷ [])
          participants
        ≡ ok placed
      → join_neighbours floats policy round excluded_links
          (partitions_of floats placed)
          split_points
        ≡ ok joined
      → (candidate_of floats policy round split_points placed joined).valid ≡ true
      → IsBuilt round (candidate_of floats policy round split_points placed joined)
  unfolding candidate_of
  candidate_of-IsBuilt policy round participants split_points excluded_links memory_limits placed
        joined distinct mine same e f v =
      let (a, bcd) = (append_nil_iff (reasons_of floats placed) _).0 (valid_nil _ v) in
      let (b, cd) = (append_nil_iff (rejections_of floats joined) _).0 bcd in
      let ends = split_points ++ length round.layers ∷ [] in
      let (fits, covered) =
        place_all-IsPlaced floats round memory_limits 0 0 ends participants placed distinct mine
          (omega (arith, same, length-append split_points (length round.layers ∷ []))) e a in
      let whole : drop (last_end 0 ends) round.layers ≡ [] =
        ap (λ n. drop n round.layers) (last_end-append 0 (length round.layers) split_points)
        ∙ drop-length round.layers in
      let (c, d) = (append_nil_iff _ _).0 cd in
      record {
        placed = fits;
        covered =
            sym (append-nil (coverage floats (partitions_of floats placed)))
            ∙ ap (λ ls. coverage floats (partitions_of floats placed) ++ map (λ l. l.name) ls)
                (sym whole)
            ∙ covered;
        chained =
            neighbours-Links policy round excluded_links (partitions_of floats placed) split_points
              joined f b;
        transfer =
            (transfer_iff floats (bytes_of floats (edges_of floats joined))
                round.constraints.max_transfer_bytes).0
              ((fail_if_iff _ _).0 c);
      }

  -- A candidate that the agent builds as valid, for participants of a round whose layers have
  -- distinct names and with one split point between each two of them, has only partitions that the
  -- validator takes as placed; they carry the layers of the model, each once and in order; each is
  -- joined to the next by a forward edge over a link of the round; and the transfer is in its limit.
  pub build_candidate-IsBuilt :
      (policy : Scoring floats) (round : FederatedRoundPlan F) (participants : List Text)
      (split_points : List ℕ) (excluded_links : List (Text × Text))
      (memory_limits : List (Text × ℕ)) (c : PartitionCandidate F)
      → HasNames floats round
      → ((id : Text) → In id participants → In id round.participants)
      → length participants ≡ length split_points + 1
      → build_candidate floats policy round participants split_points excluded_links memory_limits
        ≡ ok c
      → c.valid ≡ true
      → IsBuilt round c
  unfolding build_candidate
  build_candidate-IsBuilt policy round participants split_points excluded_links memory_limits c
        distinct mine same h v =
      let (placed, h1, e) =
        passed _
          (place_all floats round memory_limits 0 0 (split_points ++ length round.layers ∷ [])
            participants)
          h in
      let (joined, h2, f) =
        passed _
          (join_neighbours floats policy round excluded_links (partitions_of floats placed)
            split_points)
          h1 in
      let built = ok_inj h2 in
      subst (IsBuilt round) built (
        candidate_of-IsBuilt policy round participants split_points excluded_links memory_limits
          placed joined distinct mine same e f (subst (λ x. x.valid ≡ true) (sym built) v))
