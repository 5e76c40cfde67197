-- ===== src/Base/Raising.antt =====
-- A call that returns a value or raises.
use mathlib.Core.Path.{◌≡◌, refl}
use mathlib.Core.Logic.{◌⊎◌, inl, inr}
use mathlib.Core.Bool.{Bool}
use aiops_research.Base.Tests.{if◌then◌else◌}

pub data Result (E A : Type 0) : Type 0 where
  ok : A → Result E A
  err : E → Result E A

-- Either way a call can end.
pub Result-cases :
    {E A : Type 0} (r : Result E A) → ((a : A) × (r ≡ ok a)) ⊎ ((e : E) × (r ≡ err e))
Result-cases (err e) = inr (e, refl)
Result-cases (ok a) = inl (a, refl)

pub ok_inj : {E A : Type 0} {a b : A} → ◌≡◌ {A = Result E A} (ok a) (ok b) → a ≡ b
ok_inj h = cc

module _ {E : Type 0} where
  -- `if test: raise e`
  abbrev pub raise_if : Bool → E → Result E (Unit {0})
  raise_if test e = if test then err e else ok tt

  infixl 5 ◌>>=◌ ◌>>◌
  abbrev pub ◌>>=◌ : {A B : Type 0} → Result E A → (A → Result E B) → Result E B
  ◌>>=◌ call next = elim call [ err e ↦ err e | ok a ↦ next a ]

  abbrev pub ◌>>◌ : {B : Type 0} → Result E (Unit {0}) → Result E B → Result E B
  ◌>>◌ check next = elim check [ err e ↦ err e | ok u ↦ next ]

  -- What a chain that returned has passed through.
  pub passed :
      {A B : Type 0} (next : A → Result E B) {b : B} (call : Result E A)
      → (call >>= next) ≡ ok b
      → (a : A) × (next a ≡ ok b) × (call ≡ ok a)
  passed next (err e) h = cc
  passed next (ok a) h = (a, h, refl)
