-- ===== src/Partition/Common/Feasible.antt =====
-- What `process` makes sure of before a strategy looks at the request.
use aiops_research.Base.{
  ◌≤◌, ◌≡◌, ◌≢◌, refl, inl, inr, subst, Bool, true, false, not, ◌||◌, List, [], ◌∷◌, ◌++◌, map,
  In-cons, In, any, any-of_In, length, Text, codes, text_eq, contains_text, contains_text_iff,
  Result, ok, ok_inj, err, ◌>>◌, raise_if, passed, Bool-cases, arith,
}
use aiops_research.Floats.{Floats}
use aiops_research.Python.Dicts.{contains, contains-In}
use aiops_research.Partition.{ModelLayer, ResourceDevice, NetworkLink}
use aiops_research.Partition.Validator.{is_empty, pair_eq, neighbours, training, federated_learning}
use aiops_research.Partition.Validator.Errors.{pair_eq-IsEquality}
use aiops_research.Partition.Request.{
  PartitionPlanningRequest, NormalizedPartitionRequest, Digests, inference, participants_of,
}
use aiops_research.Partition.Common.{
  required_pairs, is_short, approved_mode, has_versions, is_same_model, layers_of, profile_of,
  validate_feasibility, process,
}

-- A check that was passed did not find what it looks for.
unraised :
    {E A : Type 0} (test : Bool) (e : E) (next : Result E A) {a : A}
    → (raise_if test e >> next) ≡ ok a
    → (test ≡ false) × (next ≡ ok a)
unraised true e next h = cc
unraised false e next h = (refl, h)

raised_not : (test : Bool) (e : Text) → raise_if test e ≡ ok tt → test ≡ false
raised_not true e h = cc
raised_not false e h = refl

or3 : (a b c : Bool) → (a || b || c) ≡ false → ((a ≡ false) × (b ≡ false)) × (c ≡ false)
or3 a b c h = (ground arith, ground arith)

In-pairs :
    (first p : Text) (others : List Text)
    → In p others
    → In {A = Text × Text} (p, first) (map (λ q. (q, first)) others)
In-pairs first p [] m = elim m [ ]
In-pairs first p (q ∷ qs) m = elim (In-cons m) [
  | inl same ↦ rw same In.here
  | inr rest ↦ In.there (In-pairs first p qs rest)
]

pub In-neighbours :
    {A : Type 0} (before : List A) (a b : A) (after : List A)
    → In {A = A × A} (a, b) (neighbours (before ++ (a ∷ b ∷ after)))
In-neighbours [] a b after = In.here
In-neighbours (x ∷ []) a b after = In.there (In-neighbours [] a b after)
In-neighbours (x ∷ y ∷ before) a b after = In.there (In-neighbours (y ∷ before) a b after)

module _ (floats : Floats) where
  open floats use {F}

  -- Two participants at least, each with a device, and the links between them.
  pub record IsFeasible (is_federated : Bool) (participants : List Text)
      (layers : List (ModelLayer F)) (devices : List (ResourceDevice F))
      (network_links : List (NetworkLink F)) : Type 0 where
    pub several : 2 ≤ length participants
    pub layered : layers ≢ []
    pub enough : is_federated ≡ false → length participants ≤ length layers
    pub located : (p : Text) → In p participants → In p (map (λ d. d.device_id) devices)
    pub gathered :
        (first p : Text) (others : List Text)
        → is_federated ≡ true
        → participants ≡ first ∷ others
        → In p others
        → In {A = Text × Text}
            (p, first)
            (map (λ k. (k.source_device, k.target_device)) network_links)
    pub chained :
        (before : List Text) (a b : Text) (after : List Text)
        → is_federated ≡ false
        → participants ≡ before ++ (a ∷ b ∷ after)
        → In {A = Text × Text} (a, b) (map (λ k. (k.source_device, k.target_device)) network_links)

  all_in :
      {A : Type 0} (known : A → Bool) (xs : List A) (x : A)
      → any (λ y. not (known y)) xs ≡ false
      → In x xs
      → known x ≡ true
  all_in known xs x h m = elim (Bool-cases (known x)) [
    | inl e ↦ e
    | inr n ↦ cc (h, any-of_In (λ y. not (known y)) xs x m (rw n refl))
  ]

  required_pairs-first :
      (is_federated : Bool) (participants : List Text) (first p : Text) (others : List Text)
      → is_federated ≡ true
      → participants ≡ first ∷ others
      → In p others
      → In {A = Text × Text} (p, first) (required_pairs floats is_federated participants)
  unfolding required_pairs
  required_pairs-first is_federated participants first p others f e m =
      rw (f, e) (In-pairs first p others m)

  required_pairs-next :
      (is_federated : Bool) (participants before : List Text) (a b : Text) (after : List Text)
      → is_federated ≡ false
      → participants ≡ before ++ (a ∷ b ∷ after)
      → In {A = Text × Text} (a, b) (required_pairs floats is_federated participants)
  unfolding required_pairs
  required_pairs-next is_federated participants [] a b after f e =
      rw (f, e) (In-neighbours [] a b after)
  required_pairs-next is_federated participants (x ∷ before) a b after f e =
      rw (f, e) (In-neighbours (x ∷ before) a b after)

  pub validate_feasibility-IsFeasible :
      (is_federated : Bool) (participants : List Text) (layers : List (ModelLayer F))
      (devices : List (ResourceDevice F)) (network_links : List (NetworkLink F))
      → validate_feasibility floats is_federated participants layers devices network_links ≡ ok tt
      → IsFeasible is_federated participants layers devices network_links
  unfolding validate_feasibility
  validate_feasibility-IsFeasible is_federated participants layers devices network_links h =
      let (a, h1) = unraised (is_short floats is_federated participants layers) _ _ h in
      let ids = map (λ d. d.device_id) devices in
      let (b, h2) = unraised (any (λ p. not (contains_text p ids)) participants) _ _ h1 in
      let c = raised_not _ (codes "early_feasibility_failed") h2 in
      let (f, g) = or3 _ (is_empty layers) _ a in
      record {
        several = ground (arith, f);
        layered = filled layers (f.1);
        enough = λ e. ground (arith, g, e);
        located = λ p m.
            (contains_text_iff p ids).0 (all_in (λ q. contains_text q ids) participants p b m);
        gathered = λ first p others f e m.
            linked c (p, first)
              (required_pairs-first is_federated participants first p others f e m);
        chained = λ before a b after f e.
            linked c (a, b) (required_pairs-next is_federated participants before a b after f e);
      }
    where
      linked :
          any
              (λ pair. not (
                contains pair_eq pair
                  (map (λ k. (k.source_device, k.target_device)) network_links)))
              (required_pairs floats is_federated participants)
            ≡ false
          → (pair : Text × Text) → In pair (required_pairs floats is_federated participants)
          → In pair (map (λ k. (k.source_device, k.target_device)) network_links)
      linked c pair m =
          let pairs = map (λ k. (k.source_device, k.target_device)) network_links in
          contains-In pair_eq pair_eq-IsEquality pair pairs (
            all_in (λ q. contains pair_eq q pairs) (required_pairs floats is_federated participants)
              pair c m)

      filled : (ls : List (ModelLayer F)) → is_empty ls ≡ false → ls ≢ []
      filled [] h = cc
      filled (l ∷ ls) h = λ e. cc

  -- A request that is normalized is feasible: it has two participants at least, each with a device,
  -- layers, at least one for each participant outside federated learning, and a link from every other
  -- participant to the first in federated learning, else from each participant to the next; and it names
  -- the snapshot it was made from.
  pub process-IsFeasible :
      (digests : Digests F) (request : PartitionPlanningRequest F)
      (normalized : NormalizedPartitionRequest F)
      → process floats digests request ≡ ok normalized
      → IsFeasible
          (text_eq normalized.approved_execution_mode.name federated_learning)
          normalized.participants
          normalized.layers
          normalized.devices
          normalized.network_links
        × In normalized.plan_type (training ∷ inference ∷ [])
        × (normalized.context_snapshot_hash ≡ digests.of_context request.context)
  unfolding process
  process-IsFeasible digests request normalized h =
      let registry = request.context.model_registry_context in
      let listed = contains_text request.envelope.plan_type (training ∷ inference ∷ []) in
      let unsigned =
        is_empty request.envelope.approved_by || is_empty request.envelope.approval_ref in
      let (a, h1) = unraised (not listed) (codes "unsupported_plan_type") _ h in
      let (b, h2) = unraised unsigned (codes "approval_provenance_required") _ h1 in
      let (profile, h3, c) =
        passed _ (profile_of floats request.context.model_structure_profile) h2 in
      let (mode, h4, d) = passed _ (approved_mode request.approved_execution_mode) h3 in
      let (e, h5) =
        unraised (not (has_versions floats request.plan registry profile))
          (codes "model_version_mismatch") _ h4 in
      let (f, h6) =
        unraised (not (is_same_model floats request.plan registry profile))
          (codes "model_version_mismatch") _ h5 in
      let layers = layers_of floats request.legacy_layers profile in
      let (g, k) =
        checked
          (validate_feasibility floats (text_eq mode.name federated_learning)
            (participants_of request.plan) layers request.context.devices
            request.context.network_links)
          _ h6 in
      let feasible =
        validate_feasibility-IsFeasible (text_eq mode.name federated_learning)
          (participants_of request.plan) layers request.context.devices
          request.context.network_links g in
      subst
        (λ n.
          IsFeasible (text_eq n.approved_execution_mode.name federated_learning) n.participants
            n.layers n.devices n.network_links
          × In n.plan_type (training ∷ inference ∷ [])
          × (n.context_snapshot_hash ≡ digests.of_context request.context))
        (ok_inj k)
        (
          feasible,
          (contains_text_iff request.envelope.plan_type (training ∷ inference ∷ [])).0
              (ground (arith, a)),
          refl,
        )
    where
      checked :
          (check : Result Text (Unit {0})) (next : Result Text (NormalizedPartitionRequest F))
          → (check >> next) ≡ ok normalized
          → (check ≡ ok tt) × (next ≡ ok normalized)
      checked (ok tt) next h = (refl, h)
      checked (err code) next h = cc
