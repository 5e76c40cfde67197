-- ===== src/Partition/Validator/Errors.antt =====
-- Lists of errors: when they are empty, and what a result reports of them.
use aiops_research.Base.{
  ◌≡◌, refl, ◌↔◌, Bool, true, false, not, List, [], ◌∷◌, ◌++◌, In, Text, text_eq_iff, contains_text,
  arith,
}
use aiops_research.Partition.Validator.{fail_if, texts_eq, pair_eq, triple_eq, unique_from, result}
use aiops_research.Python.Dicts.{IsEquality}

pub append_nil_iff {ℓ} : {A : Type ℓ} (xs ys : List A) → (xs ++ ys ≡ []) ↔ ((xs ≡ []) × (ys ≡ []))
append_nil_iff [] ys = (λ e. (refl, e), λ (a, b). b)
append_nil_iff (x ∷ xs) ys = (λ e. cc, λ (a, b). cc)

pub fail_if_iff : (b : Bool) (code : Text) → (fail_if b code ≡ []) ↔ (b ≡ false)
fail_if_iff true code = (λ e. cc, λ e. cc)
fail_if_iff false code = (λ e. refl, λ e. refl)

pub fail_unless_iff : (b : Bool) (code : Text) → (fail_if (not b) code ≡ []) ↔ (b ≡ true)
fail_unless_iff true code = (λ e. refl, λ e. refl)
fail_unless_iff false code = (λ e. cc, λ e. cc)

pub texts_eq_iff : (ss ts : List Text) → (texts_eq ss ts ≡ true) ↔ (ss ≡ ts)
unfolding texts_eq
texts_eq_iff [] [] = ground arith
texts_eq_iff [] (t ∷ ts) = ground arith
texts_eq_iff (s ∷ ss) [] = ground arith
texts_eq_iff (s ∷ ss) (t ∷ ts) = ground (arith, text_eq_iff s t, texts_eq_iff ss ts)

pub pair_eq-IsEquality : IsEquality pair_eq
pair_eq-IsEquality (a, b) (c, d) = ground (arith, text_eq_iff a c, text_eq_iff b d)

pub triple_eq-IsEquality : IsEquality triple_eq
triple_eq-IsEquality (a, b, c) (d, e, f) =
    ground (arith, text_eq_iff a d, text_eq_iff b e, text_eq_iff c f)

abbrev pub Distinct : List Text → Type 0
Distinct [] = Unit
Distinct (x ∷ xs) = ¬ In x xs × Distinct xs

pub result_valid_iff : (es rules : List Text) → ((result es rules).valid ≡ true) ↔ (es ≡ [])
unfolding result unique_from contains_text
result_valid_iff [] rules = (λ h. refl, λ h. refl)
result_valid_iff (e ∷ es) rules = (λ h. cc, λ h. cc)

-- Two lists of errors are empty exactly if what each of them looks for holds.
pub both_nil :
    {P Q : Type 0} (xs ys : List Text) → (xs ≡ []) ↔ P → (ys ≡ []) ↔ Q → (xs ++ ys ≡ []) ↔ (P × Q)
both_nil xs ys p q = (
  λ h. let (a, b) = (append_nil_iff xs ys).0 h in (p.0 a, q.0 b),
  λ (a, b). (append_nil_iff xs ys).1 (p.1 a, q.1 b),
)

pub fail_of : {P : Type 0} (b : Bool) (code : Text) → (b ≡ false) ↔ P → (fail_if b code ≡ []) ↔ P
fail_of b code p = (λ h. p.0 ((fail_if_iff b code).0 h), λ h. (fail_if_iff b code).1 (p.1 h))

pub unless_of :
    {P : Type 0} (b : Bool) (code : Text) → (b ≡ true) ↔ P → (fail_if (not b) code ≡ []) ↔ P
unless_of b code p =
    (λ h. p.0 ((fail_unless_iff b code).0 h), λ h. (fail_unless_iff b code).1 (p.1 h))
