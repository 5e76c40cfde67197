-- ===== src/Partition/Candidate/Slices.antt =====
-- The slices that the boundaries cut a list into, and the look-up of a list's own elements.
use aiops_research.Base.{
  ℕ, zero, suc, ◌+◌, ◌-◌, ◌≤◌, ◌≡◌, refl, sym, ap, subst, ◌∙◌, inl, inr, none, some, List, [], ◌∷◌,
  ◌++◌, map, In, In-cons, In-eq, length, ltb, Text, text_eq, text_eq_iff, text_eq_refl, Bool-cases,
  arith,
}
use aiops_research.Python.Dicts.{last_by}
use aiops_research.Partition.Validator.Errors.{Distinct}
use aiops_research.Partition.Candidate.{take, drop, slice}

module _ {A : Type 0} where
  take-drop : (n : ℕ) (xs : List A) → take n xs ++ drop n xs ≡ xs
  take-drop zero xs = refl
  take-drop (suc n) [] = refl
  take-drop (suc n) (x ∷ xs) = ap (λ ys. x ∷ ys) (take-drop n xs)

  drop-nil : (n : ℕ) → drop {A = A} n [] ≡ []
  drop-nil zero = refl
  drop-nil (suc n) = refl

  drop-drop : (m n : ℕ) (xs : List A) → drop n (drop m xs) ≡ drop (m + n) xs
  drop-drop zero n xs = ap (λ k. drop k xs) (omega arith)
  drop-drop (suc m) n [] = drop-nil n ∙ sym (drop-nil (suc m + n))
  drop-drop (suc m) n (x ∷ xs) =
      let shifted : suc (m + n) ≡ suc m + n = omega arith in
      drop-drop m n xs ∙ ap (λ k. drop k (x ∷ xs)) shifted

  pub slice-drop :
      (start end : ℕ) (xs : List A)
      → start ≤ end
      → slice start end xs ++ drop end xs ≡ drop start xs
  slice-drop start end xs h =
      let same : drop (end - start) (drop start xs) ≡ drop end xs =
        drop-drop start (end - start) xs ∙ ap (λ n. drop n xs) (omega arith) in
      subst (λ ys. slice start end xs ++ ys ≡ drop start xs) same
        (take-drop (end - start) (drop start xs))

  pub drop-length : (xs : List A) → drop (length xs) xs ≡ []
  drop-length [] = refl
  drop-length (x ∷ xs) = drop-length xs

  In-take : (n : ℕ) (xs : List A) {x : A} → In x (take n xs) → In x xs
  In-take zero xs m = elim m [ ]
  In-take (suc n) [] m = elim m [ ]
  In-take (suc n) (y ∷ xs) m = elim (In-cons m) [
    | inl e ↦ In-eq xs e
    | inr r ↦ In.there (In-take n xs r)
  ]

  In-drop : (n : ℕ) (xs : List A) {x : A} → In x (drop n xs) → In x xs
  In-drop zero xs m = m
  In-drop (suc n) [] m = elim m [ ]
  In-drop (suc n) (y ∷ xs) m = In.there (In-drop n xs m)

  pub In-slice : (start end : ℕ) (xs : List A) {x : A} → In x (slice start end xs) → In x xs
  In-slice start end xs m = In-drop start xs (In-take (end - start) (drop start xs) m)

  -- A slice with an element begins before its end.
  pub slice_proper :
      (start end : ℕ) (xs : List A) {y : A} {ys : List A}
      → slice start end xs ≡ y ∷ ys
      → start ≤ end
  slice_proper start end xs h = elim (Bool-cases (ltb end start)) [
    | inl before ↦
        let none_left : end - start ≡ 0 = ground (arith, before) in
        cc (sym (ap (λ n. take n (drop start xs)) none_left) ∙ h)
    | inr after ↦ ground (arith, after)
  ]

  In-map : {B : Type 0} (f : A → B) {x : A} (xs : List A) → In x xs → In (f x) (map f xs)
  In-map f [] m = elim m [ ]
  In-map f (y ∷ xs) m = elim (In-cons m) [
    | inl e ↦ In-eq (map f xs) (ap f e)
    | inr r ↦ In.there (In-map f xs r)
  ]

  last_by-none :
      (key : A → Text) (k : Text) (xs : List A) → ¬ In k (map key xs) → last_by key k xs ≡ none
  unfolding last_by
  last_by-none key k [] n = refl
  last_by-none key k (x ∷ xs) n =
      let rest = last_by-none key k xs (λ m. n (In.there m)) in
      elim (Bool-cases (text_eq (key x) k)) [
        | inl e ↦ absurd (n (In-eq (map key xs) (sym ((text_eq_iff (key x) k).0 e))))
        | inr d ↦ ground (arith, rest, d)
      ]

  -- With distinct keys, an element is found under its key.
  pub last_by-In :
      (key : A → Text) (xs : List A) {x : A}
      → Distinct (map key xs)
      → In x xs
      → last_by key (key x) xs ≡ some x
  unfolding last_by
  last_by-In key [] d m = elim m [ ]
  last_by-In key (y ∷ xs) {x} (new, d) m = elim (In-cons m) [
    | inl e ↦ rw e (ground (arith, last_by-none key (key y) xs new, text_eq_refl (key y)))
    | inr r ↦ ground (arith, last_by-In key xs d r)
  ]
