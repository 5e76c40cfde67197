-- ===== src/Partition/Candidate/Fits.antt =====
-- The partitions that the loop over the participants builds are placed and carry the model.
use aiops_research.Base.{
  ℕ, ◌+◌, ltb_ℤ, pos, ◌≡◌, refl, sym, ap, subst, ◌∙◌, inl, inr, false, Option, none, some, List, [],
  ◌∷◌, ◌++◌, map, In, In-cons, length, Text, arith, ok, ok_inj, passed, append_assoc,
}
use mathlib.Core.List.{map-append}
use aiops_research.Floats.{Floats}
use aiops_research.Python.Dicts.{last_by}
use aiops_research.Partition.{ModelLayer, ResourceDevice, FederatedRoundPlan, LogicalPartition}
use aiops_research.Partition.Validator.{fail_if}
use aiops_research.Partition.Validator.Errors.{Distinct, append_nil_iff, fail_if_iff}
use aiops_research.Partition.Validator.Legacy.{coverage}
use aiops_research.Partition.Validator.Placement.{memory_of, allowed_memory}
use aiops_research.Partition.Validator.Placed.{Names, none_left, named, IsPlaced, fits_iff}
use aiops_research.Partition.Candidate.{
  slice, drop, Placed, place_layers, known_device, place_all, reasons_of,
}
use aiops_research.Partition.Candidate.Slices.{slice-drop, In-slice, slice_proper, last_by-In}

abbrev pub last_end : ℕ → List ℕ → ℕ
last_end start [] = start
last_end start (end ∷ ends) = last_end end ends

module _ (floats : Floats) where
  open floats use {F}

  abbrev pub HasNames : FederatedRoundPlan F → Type 0
  HasNames round = Distinct (map (λ l. l.name) round.layers)

  -- Layers of the round are found under their names.
  Names-map :
      (round : FederatedRoundPlan F)
      → HasNames round
      → (ls : List (ModelLayer F)) → ((l : ModelLayer F) → In l ls → In l round.layers)
      → Names floats round.layers (map (λ l. l.name) ls) ls
  Names-map round d [] h = none_left
  Names-map round d (l ∷ ls) h =
      named (last_by-In (λ l. l.name) round.layers d (h l In.here))
        (Names-map round d ls (λ k m. h k (In.there m)))

  place_layers-IsPlaced :
      (round : FederatedRoundPlan F) (memory_limits : List (Text × ℕ)) (index : ℕ)
      (d : ResourceDevice F) (id : Text) (ls : List (ModelLayer F)) (placed : Placed floats)
      → HasNames round
      → ((l : ModelLayer F) → In l ls → In l round.layers)
      → In id round.participants
      → last_by (λ d. d.device_id) id round.devices ≡ some d
      → place_layers floats round memory_limits index d id ls ≡ ok placed
      → placed.reasons ≡ []
      → IsPlaced floats round placed.partition
        × (placed.partition.layer_names ≡ map (λ l. l.name) ls)
        × ((l : ModelLayer F) × (rest : List (ModelLayer F)) × (ls ≡ l ∷ rest))
  unfolding place_layers memory_of
  place_layers-IsPlaced round memory_limits index d id [] placed distinct mine m known h n = cc
  place_layers-IsPlaced round memory_limits index d id (l ∷ ls) placed distinct mine m known h n =
      let built = ok_inj h in
      let demand = memory_of floats l ls in
      let limit =
        allowed_memory floats d.memory_available_bytes
          round.constraints.minimum_memory_headroom_ratio in
      let fits : ltb_ℤ limit (pos demand) ≡ false =
        (fail_if_iff (ltb_ℤ limit (pos demand)) _).0
          ((append_nil_iff (fail_if (ltb_ℤ limit (pos demand)) _) _).0
            (ap (λ p. p.reasons) built ∙ n)).0 in
      (
        subst (λ p. IsPlaced floats round p.partition) built
            (record {
              device = d;
              first = l;
              others = ls;
              participates = m;
              known = known;
              carries = Names-map round distinct (l ∷ ls) mine;
              counted = refl;
              fits = (fits_iff floats limit (pos demand)).0 fits;
            }),
        sym (ap (λ p. p.partition.layer_names) built),
        (l, ls, refl),
      )

  abbrev pub partitions_of : List (Placed floats) → List (LogicalPartition F)
  partitions_of placed = map (λ p. p.partition) placed

  known_device-ok :
      (o : Option (ResourceDevice F)) (d : ResourceDevice F)
      → known_device floats o ≡ ok d
      → o ≡ some d
  known_device-ok none d h = cc
  known_device-ok (some e) d h = ground arith

  -- Every partition that the loop builds without a reason against it is placed, and together they
  -- carry the layers from the first boundary to the last.
  pub place_all-IsPlaced :
      (round : FederatedRoundPlan F) (memory_limits : List (Text × ℕ)) (index start : ℕ)
      (ends : List ℕ) (ps : List Text) (placed : List (Placed floats))
      → HasNames round
      → ((id : Text) → In id ps → In id round.participants)
      → length ps ≡ length ends
      → place_all floats round memory_limits index start ends ps ≡ ok placed
      → reasons_of floats placed ≡ []
      → ((p : LogicalPartition F) → In p (partitions_of placed) → IsPlaced floats round p)
        × (coverage floats (partitions_of placed)
              ++ map (λ l. l.name) (drop (last_end start ends) round.layers)
            ≡ map (λ l. l.name) (drop start round.layers))
  unfolding place_all
  place_all-IsPlaced round memory_limits index start [] [] placed distinct mine same h n =
      let built = ok_inj h in
      (
        λ p m. elim (subst (λ ps. In p (partitions_of ps)) (sym built) m) [ ],
        subst
            (λ ps.
              coverage floats (partitions_of ps) ++ map (λ l. l.name) (drop start round.layers)
              ≡ map (λ l. l.name) (drop start round.layers))
            built refl,
      )
  place_all-IsPlaced round memory_limits index start [] (p ∷ ps) placed distinct mine same h n = cc
  place_all-IsPlaced round memory_limits index start (end ∷ ends) [] placed distinct mine same h n =
      absurd (omega (arith, same))
  place_all-IsPlaced round memory_limits index start (end ∷ ends) (p ∷ ps) placed distinct mine same
        h n =
      let layers = slice start end round.layers in
      let (d, h1, e1) =
        passed _ (known_device floats (last_by (λ d. d.device_id) p round.devices)) h in
      let (here, h2, e2) = passed _ (place_layers floats round memory_limits index d p layers) h1 in
      let (others, h3, e3) =
        passed _ (place_all floats round memory_limits (index + 1) end ends ps) h2 in
      let built = ok_inj h3 in
      let (a, b) =
        (append_nil_iff here.reasons (reasons_of floats others)).0
          (ap (reasons_of floats) built ∙ n) in
      let (placed_here, named_here, (first, rest, cut)) =
        place_layers-IsPlaced round memory_limits index d p layers here distinct
          (λ l m. In-slice start end round.layers m) (mine p In.here) (known_device-ok _ d e1) e2
          a in
      let (placed_others, covered) =
        place_all-IsPlaced round memory_limits (index + 1) end ends ps others distinct
          (λ id m. mine id (In.there m)) (omega (arith, same)) e3 b in
      let after = map (λ l. l.name) (drop (last_end end ends) round.layers) in
      (
        λ q m. elim (In-cons (subst (λ xs. In q (partitions_of xs)) (sym built) m)) [
          | inl e ↦ rw e placed_here
          | inr r ↦ placed_others q r
        ],
        subst
            (λ xs.
              coverage floats (partitions_of xs) ++ after
              ≡ map (λ l. l.name) (drop start round.layers))
            built
            (append_assoc here.partition.layer_names (coverage floats (partitions_of others)) after
              ∙ ap (λ ys. here.partition.layer_names ++ ys) covered
              ∙ ap (λ ys. ys ++ map (λ l. l.name) (drop end round.layers)) named_here
              ∙ sym (map-append (λ l. l.name) layers (drop end round.layers))
              ∙ ap (map (λ l. l.name))
                  (slice-drop start end round.layers (slice_proper start end round.layers cut))),
      )
