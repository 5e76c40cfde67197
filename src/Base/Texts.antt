-- ===== src/Base/Texts.antt =====
-- Python's `str` as the list of its code points, for the code that walks through a text.
use Prim.Native.Nat.{ℕ}
use Prim.Native.Char.{code}
use Prim.Native.String.{String}
use mathlib.Core.Path.{◌≡◌, refl, subst}
use mathlib.Core.Logic.{◌↔◌, inl, inr}
use mathlib.Core.Bool.{Bool, true, false, ◌&&◌, ◌||◌}
use mathlib.Core.List.{List, [], ◌∷◌}
use native.Mathlib.Omega.{arith}
use aiops_research.Base.Tests.{◌==◌, Bool-cases}
use aiops_research.Base.Lists.{In}

abbrev pub Text : Type 0
Text = List ℕ

abbrev pub codes : String → Text
codes String.[] = []
codes (String.◌∷◌ c s) = code c ∷ codes s

unfoldable pub text_eq : Text → Text → Bool
text_eq [] [] = true
text_eq [] (d ∷ t) = false
text_eq (c ∷ s) [] = false
text_eq (c ∷ s) (d ∷ t) = c == d && text_eq s t

pub text_eq_iff : (s t : Text) → (text_eq s t ≡ true) ↔ (s ≡ t)
unfolding text_eq
text_eq_iff [] [] = ground arith
text_eq_iff [] (d ∷ t) = ground arith
text_eq_iff (c ∷ s) [] = ground arith
text_eq_iff (c ∷ s) (d ∷ t) = ground (arith, text_eq_iff s t)

pub text_eq_refl : (s : Text) → text_eq s s ≡ true
text_eq_refl s = (text_eq_iff s s).1 refl

-- `text in texts`
unfoldable pub contains_text : Text → List Text → Bool
contains_text t [] = false
contains_text t (s ∷ ss) = text_eq t s || contains_text t ss

-- The test for membership finds exactly the members.
contains_text-of_In : {t : Text} {ss : List Text} → In t ss → contains_text t ss ≡ true
unfolding contains_text
contains_text-of_In {t} In.here = rw (text_eq_refl t)
contains_text-of_In {t} (In.there {y = s} m) =
    ground (arith, contains_text-of_In m, text_eq_iff t s)

In-of_contains_text : (t : Text) (ss : List Text) → contains_text t ss ≡ true → In t ss
unfolding contains_text
In-of_contains_text t [] h = cc
In-of_contains_text t (s ∷ ss) h = elim (Bool-cases (text_eq t s)) [
  | inl e ↦ subst (λ u. In t (u ∷ ss)) ((text_eq_iff t s).0 e) In.here
  | inr n ↦ In.there (In-of_contains_text t ss (rw n at h))
]

pub contains_text_iff : (t : Text) (ss : List Text) → (contains_text t ss ≡ true) ↔ In t ss
contains_text_iff t ss = (In-of_contains_text t ss, contains_text-of_In)
