-- ===== src/Validator/Names.antt =====
-- The name pattern of src/aiops_k8s_agents/validator.py against the rule of Kubernetes for a label:
-- at most 63 characters, lower-case letters, digits and dashes, and no dash at either end.
use aiops_research.Base.{
  ℕ, zero, suc, ◌≤◌, ◌≡◌, ◌↔◌, Bool, true, false, [], ◌∷◌, arith, Text, length, all,
}
use aiops_research.Validator.{is_alnum, is_name_char, name_tail, matches_name}

abbrev pub first_alnum : Text → Bool
first_alnum [] = false
first_alnum (c ∷ t) = is_alnum c

abbrev pub last_alnum : Text → Bool
last_alnum [] = false
last_alnum (c ∷ []) = is_alnum c
last_alnum (c ∷ d ∷ t) = last_alnum (d ∷ t)

pub record IsLabel (t : Text) : Type 0 where
  pub short : length t ≤ 63
  pub chars : all is_name_char t ≡ true
  pub begins : first_alnum t ≡ true
  pub ends : last_alnum t ≡ true

abbrev IsTail : ℕ → Text → Type 0
IsTail k t = (length t ≤ suc k) × (all is_name_char t ≡ true) × (last_alnum t ≡ true)

name_tail_iff : (k : ℕ) (t : Text) → (name_tail k t ≡ true) ↔ IsTail k t
unfolding name_tail
name_tail_iff k [] = ground arith
name_tail_iff zero (c ∷ []) = ground arith
name_tail_iff (suc k) (c ∷ []) = ground arith
name_tail_iff zero (c ∷ d ∷ t) = ground arith
name_tail_iff (suc k) (c ∷ d ∷ t) = ground (arith, name_tail_iff k (d ∷ t))

-- A text matches the whole name pattern exactly when it is a Kubernetes label: at most 63
-- characters, all of them lower-case letters, digits or dashes, and a letter or digit at both ends.
pub matches_name_iff : (t : Text) → (matches_name t ≡ true) ↔ IsLabel t
unfolding matches_name
matches_name_iff [] = ((λ h. cc), (λ l. l.begins))
matches_name_iff (c ∷ []) = (
  (λ h. record { short = omega arith; chars = ground arith; begins = h; ends = h }),
  (λ l. l.ends),
)
matches_name_iff (c ∷ d ∷ t) = (
  (λ h. record {
    short = ground (arith, name_tail_iff 61 (d ∷ t));
    chars = ground (arith, name_tail_iff 61 (d ∷ t));
    begins = ground arith;
    ends = ground (arith, name_tail_iff 61 (d ∷ t));
  }),
  (λ l. ground (arith, name_tail_iff 61 (d ∷ t), l.short, l.chars, l.begins, l.ends)),
)
