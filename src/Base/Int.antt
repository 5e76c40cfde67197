-- ===== src/Base/Int.antt =====
-- Python's integers, where the program only compares and prints them.
use Prim.Native.Nat.{ℕ, suc, ◌+◌, ◌≤◌}
use mathlib.Core.Bool.{Bool}
use mathlib.Core.Logic.{inl, inr}
use native.Mathlib.Omega.{arith}
use aiops_research.Base.Tests.{ltb, if◌then◌else◌, Bool-cases}

-- `negsuc n` is -(n + 1).
pub data ℤ : Type 0 where
  pos : ℕ → ℤ
  negsuc : ℕ → ℤ

abbrev pub pos_part : ℤ → ℕ
pos_part (pos n) = n
pos_part (negsuc n) = 0

abbrev pub neg_part : ℤ → ℕ
neg_part (pos n) = 0
neg_part (negsuc n) = suc n

infix 50 ◌≤ℤ◌
abbrev pub ◌≤ℤ◌ : ℤ → ℤ → Type 0
a ≤ℤ b = pos_part a + neg_part b ≤ pos_part b + neg_part a

abbrev pub ltb_ℤ : ℤ → ℤ → Bool
ltb_ℤ a b = ltb (pos_part a + neg_part b) (pos_part b + neg_part a)

abbrev pub max_ℤ : ℤ → ℤ → ℤ
max_ℤ a b = if ltb_ℤ a b then b else a

abbrev pub min_ℤ : ℤ → ℤ → ℤ
min_ℤ a b = if ltb_ℤ b a then b else a

pub ≤ℤ_refl : (a : ℤ) → a ≤ℤ a
≤ℤ_refl a = omega arith

pub ≤ℤ_trans : (a b c : ℤ) → a ≤ℤ b → b ≤ℤ c → a ≤ℤ c
≤ℤ_trans a b c h k = omega (arith, h, k)

pub max_ℤ_left : (a b : ℤ) → a ≤ℤ max_ℤ a b
max_ℤ_left a b = elim (Bool-cases (ltb_ℤ a b)) [
  | inl e ↦ simp (e) (ground (arith, e))
  | inr e ↦ simp (e) (≤ℤ_refl a)
]

pub max_ℤ_right : (a b : ℤ) → b ≤ℤ max_ℤ a b
max_ℤ_right a b = elim (Bool-cases (ltb_ℤ a b)) [
  | inl e ↦ simp (e) (≤ℤ_refl b)
  | inr e ↦ simp (e) (ground (arith, e))
]

pub max_ℤ_least : (a b c : ℤ) → a ≤ℤ c → b ≤ℤ c → max_ℤ a b ≤ℤ c
max_ℤ_least a b c h k = elim (Bool-cases (ltb_ℤ a b)) [ inl e ↦ simp (e) k | inr e ↦ simp (e) h ]

pub min_ℤ_left : (a b : ℤ) → min_ℤ a b ≤ℤ a
min_ℤ_left a b = elim (Bool-cases (ltb_ℤ b a)) [
  | inl e ↦ simp (e) (ground (arith, e))
  | inr e ↦ simp (e) (≤ℤ_refl a)
]

pub min_ℤ_right : (a b : ℤ) → min_ℤ a b ≤ℤ b
min_ℤ_right a b = elim (Bool-cases (ltb_ℤ b a)) [
  | inl e ↦ simp (e) (≤ℤ_refl b)
  | inr e ↦ simp (e) (ground (arith, e))
]

pub min_ℤ_greatest : (a b c : ℤ) → c ≤ℤ a → c ≤ℤ b → c ≤ℤ min_ℤ a b
min_ℤ_greatest a b c h k = elim (Bool-cases (ltb_ℤ b a)) [ inl e ↦ simp (e) k | inr e ↦ simp (e) h ]
