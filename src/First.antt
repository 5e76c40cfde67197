-- ===== src/First.antt =====
-- The first entry of a list with some property: what a look-up by a name in a dictionary finds, which the models
-- of the coordinator, the consensus and the registry of strategies hold as a list.
use aiops_research.Base.{◌≡◌, refl, ap, ◌∙◌, subst, inl, inr, List, [], ◌∷◌, ◌++◌, In, In-cons}

-- The first entry of a list with some property.
pub record IsFirst {A : Type 0} (P : A → Type 0) (x : A) (xs : List A) : Type 0 where
  pub before : List A
  pub after : List A
  pub parts : xs ≡ before ++ x ∷ after
  pub holds : P x
  pub earlier : (y : A) → In y before → ¬ P y

pub IsFirst-here : {A : Type 0} {P : A → Type 0} {x : A} (xs : List A) → P x → IsFirst P x (x ∷ xs)
IsFirst-here xs h = record {
  before = [];
  after = xs;
  parts = refl;
  holds = h;
  earlier = λ y m. elim m [ ];
}

pub IsFirst-there :
    {A : Type 0} {P : A → Type 0} {x y : A} {xs : List A}
    → ¬ P y
    → IsFirst P x xs
    → IsFirst P x (y ∷ xs)
IsFirst-there {P} {y} n f = record {
  before = y ∷ f.before;
  after = f.after;
  parts = ap (λ zs. y ∷ zs) f.parts;
  holds = f.holds;
  earlier = λ z m. elim (In-cons m) [
    | inl same ↦ (λ h. n (subst P same h))
    | inr rest ↦ f.earlier z rest
  ];
}

-- A search that answers at the first entry with the property finds it.
pub found-IsFirst :
    {A B : Type 0} {P : A → Type 0} (look : List A → B) (answer : B)
    → ((x : A) (xs : List A) → ¬ P x → look (x ∷ xs) ≡ look xs)
    → (x : A) → ((xs : List A) → P x → look (x ∷ xs) ≡ answer)
    → (xs : List A) → IsFirst P x xs
    → look xs ≡ answer
found-IsFirst {A} {P} look answer skip x hit xs f = ap look f.parts ∙ along f.before f.earlier
  where
    along : (ys : List A) → ((y : A) → In y ys → ¬ P y) → look (ys ++ x ∷ f.after) ≡ answer
    along [] none_earlier = hit f.after f.holds
    along (y ∷ ys) none_earlier =
        skip y (ys ++ x ∷ f.after) (none_earlier y In.here)
        ∙ along ys (λ z m. none_earlier z (In.there m))
