-- ===== src/Python/Dicts.antt =====
-- Python's dictionaries with texts as keys, in the order of insertion, and sets as lists whose
-- order and repetitions are not looked at.
use aiops_research.Base.{
  ◌≡◌, refl, ◌↔◌, subst, sym, Bool, true, ◌&&◌, Option, none, some, List, [], ◌∷◌, all, any, In,
  Text, text_eq, any-In, any-of_In, all-In, all-of_In, if◌then◌else◌, &&-eq-true,
}

module _ {A : Type 0} where
  -- `{key(x): x for x in xs}.get(k)`: a later element takes the place of an earlier one.
  unfoldable pub last_by : (A → Text) → Text → List A → Option A
  last_by key k [] = none
  last_by key k (x ∷ xs) = elim (last_by key k xs) [
    | some y ↦ some y
    | none ↦ if text_eq (key x) k then some x else none
  ]

  -- `d[key] = value`
  unfoldable pub put_item : Text → A → List (Text × A) → List (Text × A)
  put_item k v [] = (k, v) ∷ []
  put_item k v ((i, w) ∷ d) = if text_eq i k then (i, v) ∷ d else (i, w) ∷ put_item k v d

  -- `{**d, **pairs}`
  unfoldable pub put_items : List (Text × A) → List (Text × A) → List (Text × A)
  put_items d [] = d
  put_items d ((k, v) ∷ pairs) = put_items (put_item k v d) pairs

  -- `d.get(key)`
  unfoldable pub get_item : Text → List (Text × A) → Option A
  get_item k [] = none
  get_item k ((i, v) ∷ d) = if text_eq i k then some v else get_item k d

  -- `x in xs`, with the equality of the elements.
  unfoldable pub contains : (A → A → Bool) → A → List A → Bool
  contains eq x xs = any (λ y. eq x y) xs

  -- `set(xs) == set(ys)`
  unfoldable pub same_set : (A → A → Bool) → List A → List A → Bool
  unfolding contains
  same_set eq xs ys = all (λ x. contains eq x ys) xs && all (λ y. contains eq y xs) ys

abbrev pub IsEquality : {A : Type 0} → (A → A → Bool) → Type 0
IsEquality {A} eq = (a b : A) → (eq a b ≡ true) ↔ (a ≡ b)

module _ {A : Type 0} (eq : A → A → Bool) (laws : IsEquality eq) where
  pub contains-In : (x : A) (xs : List A) → contains eq x xs ≡ true → In x xs
  unfolding contains
  contains-In x xs h =
      let (y, m, e) = any-In (λ y. eq x y) xs h in subst (λ z. In z xs) (sym ((laws x y).0 e)) m

  pub contains-of_In : (x : A) (xs : List A) → In x xs → contains eq x xs ≡ true
  unfolding contains
  contains-of_In x xs m = any-of_In (λ y. eq x y) xs x m ((laws x x).1 refl)

  pub same_set_iff : (xs ys : List A) → (same_set eq xs ys ≡ true) ↔ ((x : A) → In x xs ↔ In x ys)
  unfolding same_set
  same_set_iff xs ys =
      let there = λ (x : A). contains eq x ys in
      let back = λ (x : A). contains eq x xs in
      (
        λ h x.
            let (h1, h2) = &&-eq-true (all there xs) (all back ys) h in
            (
              λ m. contains-In x ys (all-In there xs h1 x m),
              λ m. contains-In x xs (all-In back ys h2 x m),
            ),
        λ h.
            rw
              (
                all-of_In there xs (λ x m. contains-of_In x ys ((h x).0 m)),
                all-of_In back ys (λ x m. contains-of_In x xs ((h x).1 m)),
              )
              refl,
      )
