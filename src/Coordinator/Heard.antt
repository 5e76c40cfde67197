-- ===== src/Coordinator/Heard.antt =====
-- src/aiops_k8s_agents/mutual_supervision.py, `_review_application_action`: the reviews that it collects without a
-- failure are the answers of all reviewers.
use aiops_research.Base.{
  ◌≡◌, refl, sym, ap, ◌∙◌, subst, inl, inr, ◌⊎◌, Option, none, some, List, [], ◌∷◌, In, In-cons,
  Text, codes, contains_text, contains_text_iff, Result, ok, err, ok_inj, passed, Bool-cases,
  Option-cases,
}
use aiops_research.Floats.{Floats}
use aiops_research.Protocol.{ResearchProtocolProfile}
use aiops_research.Consensus.{PeerReview}
use aiops_research.Coordinator.{SupervisionDecision, OutputError}
use aiops_research.Coordinator.Outputs.{ReviewOutput, normalize_peer_review_output}
use aiops_research.Coordinator.Negotiation.{
  AgentAdapter, Failure, Reviewers, adapter_of, reviewers_of, ask, with_review, ask_adapter,
  collect_reviews,
}
use aiops_research.Coordinator.Asked.{
  IsReviewOf, normalized-IsReviewOf, IsHeard, adapter_of-IsFirst, adapter_of-found,
  reviewers_of-found, reviewers_of-IsFirst,
}

module _ (floats : Floats) (hash : ResearchProtocolProfile floats → Text)
    (protocol : ResearchProtocolProfile floats) (adapters : List AgentAdapter) (agents : Reviewers)
    (d : SupervisionDecision) where
  ask-none :
      (a : AgentAdapter)
      → ask floats hash protocol adapters agents a d ≡ ok none
      → agents.review a.name d ≡ ok none
  unfolding ask
  ask-none a h =
      let (answer, k, e) = passed _ (agents.review a.name d) h in
      elim (Option-cases answer) [
        | inl none_given ↦ e ∙ ap ok none_given
        | inr (o, given) ↦
            let (r, l, m) =
              passed _
                (normalize_peer_review_output a.name d d.round_index
                  (agents.review_id d.round_index a.name) o)
                (rw given at k) in
            cc (ok_inj l)
      ]

  ask-some :
      (a : AgentAdapter) (r : PeerReview)
      → ask floats hash protocol adapters agents a d ≡ ok (some r)
      → (o : ReviewOutput) × (agents.review a.name d ≡ ok (some o)) × IsReviewOf a.name d o r
  unfolding ask
  ask-some a r h =
      let (answer, k, e) = passed _ (agents.review a.name d) h in
      elim (Option-cases answer) [
        | inl none_given ↦ cc (ok_inj (rw none_given at k))
        | inr (o, given) ↦
            let (r', l, m) =
              passed _
                (normalize_peer_review_output a.name d d.round_index
                  (agents.review_id d.round_index a.name) o)
                (rw given at k) in
            (
              o,
              e ∙ ap ok given,
              subst (IsReviewOf a.name d o) (some_same (ok_inj l))
                  (normalized-IsReviewOf a.name d _ o r' m),
            )
      ]
    where
      some_same : {x y : PeerReview} → some x ≡ some y → x ≡ y
      some_same {x} h = ap (λ o. elim o [ none ↦ x | some z ↦ z ]) h

  -- What the adapter answered is among the reviews.
  abbrev Answered : AgentAdapter → List PeerReview → Type 0
  Answered x reviews =
      (agents.review x.name d ≡ ok none)
      ⊎ ((o : ReviewOutput) × (r : PeerReview) × (agents.review x.name d ≡ ok (some o))
          × IsReviewOf x.name d o r
          × In r reviews)

  -- One of the adapters gave the review.
  record IsFrom (names : List Text) (r : PeerReview) : Type 0 where
    pub name : Text
    pub named : In name names
    pub adapter : AgentAdapter
    pub registered : adapter_of name adapters ≡ some adapter
    pub can_review : In (codes "review") adapter.capabilities
    pub output : ReviewOutput
    pub given : agents.review adapter.name d ≡ ok (some output)
    pub kept : IsReviewOf adapter.name d output r

  -- What asking one adapter adds to the reviews of the others.
  record Adds (o : Option AgentAdapter) (rest reviews : List PeerReview) : Type 0 where
    pub grown : (r : PeerReview) → In r rest → In r reviews
    pub answers :
        (x : AgentAdapter) → o ≡ some x → In (codes "review") x.capabilities → Answered x reviews
    pub origins :
        (r : PeerReview)
        → In r reviews
        → In r rest
          ⊎ ((x : AgentAdapter) × (output : ReviewOutput) × (o ≡ some x)
              × In (codes "review") x.capabilities
              × (agents.review x.name d ≡ ok (some output))
              × IsReviewOf x.name d output r)

  same_adapter : {x y : AgentAdapter} → some x ≡ some y → x ≡ y
  same_adapter {x} h = ap (λ o. elim o [ none ↦ x | some z ↦ z ]) h

  with_review-Adds :
      (a : AgentAdapter) (answer : Result OutputError (Option PeerReview))
      (rest : List PeerReview × Option Failure) (reviews : List PeerReview)
      → In (codes "review") a.capabilities
      → ask floats hash protocol adapters agents a d ≡ answer
      → with_review floats hash protocol adapters agents a.name answer rest ≡ (reviews, none)
      → (rest.1 ≡ none) × Adds (some a) rest.0 reviews
  with_review-Adds a (err e) rest reviews c asked h = cc (ap (λ x. x.1) h)
  with_review-Adds a (ok none) rest reviews c asked h = (
    ap (λ x. x.1) h,
    record {
      grown = λ r m. subst (In r) (ap (λ x. x.0) h) m;
      answers = λ x e k.
          inl (subst (λ y. agents.review y.name d ≡ ok none) (same_adapter e) (ask-none a asked));
      origins = λ r m. inl (subst (In r) (sym (ap (λ x. x.0) h)) m);
    },
  )
  with_review-Adds a (ok (some q)) rest reviews c asked h =
      let (o, given, kept) = ask-some a q asked in
      let whole : q ∷ rest.0 ≡ reviews = ap (λ x. x.0) h in
      (
        ap (λ x. x.1) h,
        record {
          grown = λ r m. subst (In r) whole (In.there m);
          answers = λ x e k.
              subst (λ y. Answered y reviews) (same_adapter e)
                (inr (o, q, given, kept, subst (In q) whole In.here));
          origins = λ r m. elim (In-cons (subst (In r) (sym whole) m)) [
            | inl same ↦ inr (a, o, refl, c, given, subst (IsReviewOf a.name d o) (sym same) kept)
            | inr before ↦ inl before
          ];
        },
      )

  silent :
      (o : Option AgentAdapter) (rest : List PeerReview × Option Failure)
      (reviews : List PeerReview)
      → ((x : AgentAdapter) → o ≡ some x → ¬ In (codes "review") x.capabilities)
      → rest ≡ (reviews, none)
      → (rest.1 ≡ none) × Adds o rest.0 reviews
  silent o rest reviews unable h = (
    ap (λ x. x.1) h,
    record {
      grown = λ r m. subst (In r) (ap (λ x. x.0) h) m;
      answers = λ x e k. absurd (unable x e k);
      origins = λ r m. inl (subst (In r) (sym (ap (λ x. x.0) h)) m);
    },
  )

  ask_adapter-Adds :
      (o : Option AgentAdapter) (rest : List PeerReview × Option Failure)
      (reviews : List PeerReview)
      → ask_adapter floats hash protocol adapters agents o d rest ≡ (reviews, none)
      → (rest.1 ≡ none) × Adds o rest.0 reviews
  ask_adapter-Adds none rest reviews h = silent none rest reviews (λ x e. cc) h
  ask_adapter-Adds (some a) rest reviews h =
      elim (Bool-cases (contains_text (codes "review") a.capabilities)) [
        | inl e ↦
            with_review-Adds a _ rest reviews ((contains_text_iff _ a.capabilities).0 e) refl
              (rw e at h)
        | inr n ↦
            silent (some a) rest reviews
              (λ x same c.
                let has =
                  (contains_text_iff (codes "review") a.capabilities).1
                    (subst (λ y. In (codes "review") y.capabilities) (sym (same_adapter same)) c) in
                cc (has, n))
              (rw n at h)
      ]

  collected :
      (names : List Text) (reviews : List PeerReview)
      → collect_reviews floats hash protocol adapters agents names d ≡ (reviews, none)
      → ((name : Text) (x : AgentAdapter)
          → In name names
          → adapter_of name adapters ≡ some x
          → In (codes "review") x.capabilities
          → Answered x reviews)
        × ((r : PeerReview) → In r reviews → IsFrom names r)
  unfolding collect_reviews
  collected [] reviews h =
      (λ name x m. elim m [ ], λ r m. absurd (In-nil (subst (In r) (sym (ap (λ x. x.0) h)) m)))
    where
      In-nil : {r : PeerReview} → ¬ In r []
      In-nil m = elim m [ ]
  collected (n ∷ names) reviews h =
      let rest = collect_reviews floats hash protocol adapters agents names d in
      let (fine, adds) = ask_adapter-Adds (adapter_of n adapters) rest reviews h in
      let (answers, origins) = collected names rest.0 (λ i. (rest.0, fine i)) in
      (
        λ name x m e c. elim (In-cons m) [
          | inl same ↦ adds.answers x (subst (λ y. adapter_of y adapters ≡ some x) same e) c
          | inr later ↦ keep x (answers name x later e c) adds.grown
        ],
        λ r m. elim (adds.origins r m) [
          | inl before ↦ longer (origins r before)
          | inr (x, output, e, c, given, kept) ↦ record {
            name = n;
            named = In.here;
            adapter = x;
            registered = e;
            can_review = c;
            output = output;
            given = given;
            kept = kept;
          }
        ],
      )
    where
      longer : {r : PeerReview} → IsFrom names r → IsFrom (n ∷ names) r
      longer f = record {
        name = f.name;
        named = In.there f.named;
        adapter = f.adapter;
        registered = f.registered;
        can_review = f.can_review;
        output = f.output;
        given = f.given;
        kept = f.kept;
      }

      keep :
          (x : AgentAdapter)
          → Answered x (collect_reviews floats hash protocol adapters agents names d).0
          → ((r : PeerReview)
              → In r (collect_reviews floats hash protocol adapters agents names d).0
              → In r reviews)
          → Answered x reviews
      keep x (inl none_given) grown = inl none_given
      keep x (inr (o, r, given, kept, m)) grown = inr (o, r, given, kept, grown r m)

  -- Reviews that were collected without a failure are what all the reviewers of the proposer answered.
  pub collect_reviews-IsHeard :
      (reviews : List PeerReview)
      → collect_reviews floats hash protocol adapters agents
          (reviewers_of d.agent protocol.review_matrix)
          d
        ≡ (reviews, none)
      → IsHeard protocol.review_matrix adapters agents d reviews
  collect_reviews-IsHeard reviews h =
      let (answers, origins) = collected (reviewers_of d.agent protocol.review_matrix) reviews h in
      record {
        all_asked = λ name q.
            subst
              (λ t.
                (agents.review t d ≡ ok none)
                ⊎ ((o : ReviewOutput) × (r : PeerReview) × (agents.review t d ≡ ok (some o))
                    × IsReviewOf t d o r
                    × In r reviews))
              q.registered.holds
              (answers name q.adapter
                (subst (In name)
                  (sym (reviewers_of-found d.agent q.names protocol.review_matrix q.listed))
                  q.named)
                (adapter_of-found name adapters q.adapter q.registered) q.can_review);
        all_answers = λ r m.
            let f = origins r m in
            let first = adapter_of-IsFirst f.name adapters f.adapter f.registered in
            (
              f.name,
              f.output,
              record {
                names = reviewers_of d.agent protocol.review_matrix;
                listed = reviewers_of-IsFirst d.agent f.name protocol.review_matrix f.named;
                named = f.named;
                adapter = f.adapter;
                registered = first;
                can_review = f.can_review;
              },
              subst (λ t. agents.review t d ≡ ok (some f.output)) first.holds f.given,
              subst (λ t. IsReviewOf t d f.output r) first.holds f.kept,
            );
      }
