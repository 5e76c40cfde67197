-- ===== src/Base/Lists.antt =====
-- Lists measured by native numbers, and Boolean quantifiers that run.
use Prim.Native.Nat.{ℕ, suc, ◌+◌}
use mathlib.Core.Path.{◌≡◌, refl, sym, subst}
use mathlib.Core.Logic.{◌⊎◌, inl, inr}
use mathlib.Core.Bool.{Bool, true, false, ◌&&◌, ◌||◌}
use mathlib.Core.List.{List, [], ◌∷◌, ◌++◌}
use native.Mathlib.Omega.{arith}
use aiops_research.Base.Tests.{if◌then◌else◌, Bool-cases, &&-eq-true}

module _ {ℓ} {A : Type ℓ} where
  abbrev pub length : List A → ℕ
  length [] = 0
  length (x ∷ xs) = suc (length xs)

  abbrev pub all : (A → Bool) → List A → Bool
  all p [] = true
  all p (x ∷ xs) = p x && all p xs

  abbrev pub any : (A → Bool) → List A → Bool
  any p [] = false
  any p (x ∷ xs) = p x || any p xs

  -- The elements that pass a Boolean test, in their order.
  abbrev pub select : (A → Bool) → List A → List A
  select p [] = []
  select p (x ∷ xs) = if p x then x ∷ select p xs else select p xs

  abbrev pub All {κ} : (A → Type κ) → List A → Type κ
  All P [] = Unit
  All P (x ∷ xs) = P x × All P xs

  -- Membership by position: `none` names no element.
  pub data In (x : A) : List A → Type ℓ where
    here : {xs : List A} → In x (x ∷ xs)
    there : {y : A} {xs : List A} → In x xs → In x (y ∷ xs)

module _ {ℓ} {A : Type ℓ} where
  pub length-append : (xs ys : List A) → length (xs ++ ys) ≡ length xs + length ys
  length-append [] ys = omega arith
  length-append (x ∷ xs) ys = omega (arith, length-append xs ys)

  pub all-append : (p : A → Bool) (xs ys : List A) → all p (xs ++ ys) ≡ (all p xs && all p ys)
  all-append p [] ys = refl
  all-append p (x ∷ xs) ys = ground (arith, all-append p xs ys)

  pub In-append_right : {x : A} (xs : List A) {ys : List A} → In x ys → In x (xs ++ ys)
  In-append_right [] m = m
  In-append_right (y ∷ xs) m = In.there (In-append_right xs m)

  pub In-append_left : {x : A} {xs : List A} (ys : List A) → In x xs → In x (xs ++ ys)
  In-append_left ys In.here = In.here
  In-append_left ys (In.there m) = In.there (In-append_left ys m)

  pub In-append : {x : A} (xs : List A) {ys : List A} → In x (xs ++ ys) → In x xs ⊎ In x ys
  In-append [] m = inr m
  In-append (y ∷ xs) In.here = inl In.here
  In-append (y ∷ xs) (In.there m) = elim (In-append xs m) [
    | inl l ↦ inl (In.there l)
    | inr r ↦ inr r
  ]

  pub In-cons : {x y : A} {ys : List A} → In x (y ∷ ys) → (x ≡ y) ⊎ In x ys
  In-cons In.here = inl refl
  In-cons (In.there m) = inr m

  pub In-eq : {x y : A} (ys : List A) → x ≡ y → In x (y ∷ ys)
  In-eq {x} ys e = subst (λ z. In x (z ∷ ys)) e In.here

-- What the Boolean quantifiers say.
module _ {A : Type 0} (p : A → Bool) where
  pub all-In : (xs : List A) → all p xs ≡ true → (x : A) → In x xs → p x ≡ true
  all-In [] h x m = elim m [ ]
  all-In (y ∷ xs) h x m = elim (In-cons m) [
    | inl e ↦ subst (λ z. p z ≡ true) (sym e) (&&-eq-true (p y) (all p xs) h).0
    | inr r ↦ all-In xs (&&-eq-true (p y) (all p xs) h).1 x r
  ]

  pub all-of_In : (xs : List A) → ((x : A) → In x xs → p x ≡ true) → all p xs ≡ true
  all-of_In [] h = refl
  all-of_In (y ∷ xs) h = rw (h y In.here) (all-of_In xs (λ x m. h x (In.there m)))

  pub any-In : (xs : List A) → any p xs ≡ true → (x : A) × In x xs × (p x ≡ true)
  any-In [] h = cc
  any-In (y ∷ xs) h = elim (Bool-cases (p y)) [
    | inl e ↦ (y, In.here, e)
    | inr n ↦ let (x, m, e) = any-In xs (rw n at h) in (x, In.there m, e)
  ]

  pub any-of_In : (xs : List A) (x : A) → In x xs → p x ≡ true → any p xs ≡ true
  any-of_In [] x m e = elim m [ ]
  any-of_In (y ∷ xs) x m e = elim (In-cons m) [
    | inl same ↦ rw (subst (λ z. p z ≡ true) same e) refl
    | inr r ↦ ground (arith, any-of_In xs x r e)
  ]
