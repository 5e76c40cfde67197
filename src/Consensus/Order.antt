-- ===== src/Consensus/Order.antt =====
-- src/aiops_k8s_agents/consensus.py: what ordering and filtering the reviews leaves as it was.
use aiops_research.Base.{
  ◌+◌, Bool, not, ◌&&◌, List, [], ◌∷◌, any, select, length, ◌≡◌, refl, inl, inr, arith, Bool-cases,
}
use aiops_research.Floats.{Floats}
use aiops_research.Consensus.{
  PeerReview, Bindings, insert_review, order_reviews, reviewers, has_none, key_le, key_of,
}

-- Whether the list of those that pass is empty.
pub has_none-select :
    (p : PeerReview → Bool) (rs : List PeerReview)
    → has_none (reviewers (select p rs)) ≡ not (any p rs)
has_none-select p [] = refl
has_none-select p (r ∷ rs) = ground (arith, has_none-select p rs)

pub any-select :
    (p q : PeerReview → Bool) (rs : List PeerReview)
    → any p (select q rs) ≡ any (λ r. q r && p r) rs
any-select p q [] = refl
any-select p q (r ∷ rs) = ground (arith, any-select p q rs)

-- A list splits into those of the vetoes that pass a test and those that do not.
pub length-select_split :
    (p q : PeerReview → Bool) (rs : List PeerReview)
    → length (reviewers (select (λ r. p r && q r) rs))
        + length (reviewers (select (λ r. p r && not (q r)) rs))
      ≡ length (reviewers (select p rs))
length-select_split p q [] = refl
length-select_split p q (r ∷ rs) = ground (arith, length-select_split p q rs)

pub length-select-select :
    (p q : PeerReview → Bool) (rs : List PeerReview)
    → length (reviewers (select p (select q rs))) ≡ length (reviewers (select (λ r. q r && p r) rs))
length-select-select p q [] = refl
length-select-select p q (r ∷ rs) = ground (arith, length-select-select p q rs)

pub length-reviewers : (rs : List PeerReview) → length (reviewers rs) ≡ length rs
length-reviewers [] = refl
length-reviewers (r ∷ rs) = ground (arith, length-reviewers rs)

module _ (floats : Floats) (bs : Bindings floats) where
  any-insert_review :
      (p : PeerReview → Bool) (r : PeerReview) (rs : List PeerReview)
      → any p (insert_review floats bs r rs) ≡ any p (r ∷ rs)
  unfolding insert_review
  any-insert_review p r [] = refl
  any-insert_review p r (q ∷ rs) =
      elim (Bool-cases (key_le (key_of floats bs r) (key_of floats bs q))) [
        | inl t ↦ rw t refl
        | inr n ↦ rw n (ground (arith, any-insert_review p r rs))
      ]

  pub any-order_reviews :
      (p : PeerReview → Bool) (rs : List PeerReview) → any p (order_reviews floats bs rs) ≡ any p rs
  unfolding order_reviews
  any-order_reviews p [] = refl
  any-order_reviews p (r ∷ rs) =
      ground (arith, any-insert_review p r (order_reviews floats bs rs), any-order_reviews p rs)

  length-insert_review :
      (p : PeerReview → Bool) (r : PeerReview) (rs : List PeerReview)
      → length (reviewers (select p (insert_review floats bs r rs)))
        ≡ length (reviewers (select p (r ∷ rs)))
  unfolding insert_review
  length-insert_review p r [] = refl
  length-insert_review p r (q ∷ rs) =
      elim (Bool-cases (key_le (key_of floats bs r) (key_of floats bs q))) [
        | inl t ↦ rw t refl
        | inr n ↦ rw n (ground (arith, length-insert_review p r rs))
      ]

  pub length-order_reviews :
      (p : PeerReview → Bool) (rs : List PeerReview)
      → length (reviewers (select p (order_reviews floats bs rs)))
        ≡ length (reviewers (select p rs))
  unfolding order_reviews
  length-order_reviews p [] = refl
  length-order_reviews p (r ∷ rs) =
      ground
        (arith, length-insert_review p r (order_reviews floats bs rs), length-order_reviews p rs)
