-- ===== src/Python/Decimal.antt =====
-- `str(n)`, `text.isdecimal()` and `int(text)`. Which code points are decimal digits is the table
-- `decimal` of the Unicode database, `unicodedata.decimal`, a parameter here.
use aiops_research.Base.{
  ℕ, zero, suc, ◌+◌, ◌*◌, ◌/◌, ◌%◌, ◌<◌, ◌≤◌, length, ◌≡◌, refl, Bool, true, false, not, ◌&&◌,
  Option, none, some, [], ◌∷◌, arith, Text, ltb, if◌then◌else◌, all, ℤ, pos, negsuc,
}

abbrev pub DigitTable : Type 0
DigitTable = ℕ → Option ℕ

-- The table gives the ASCII digits their values.
abbrev pub ReadsAscii : DigitTable → Type 0
ReadsAscii decimal = (d : ℕ) → d < 10 → decimal (48 + d) ≡ some d

-- Digits of `n` put before `acc`, with fuel above `n`.
show_digits : ℕ → ℕ → Text → Text
show_digits zero n acc = acc
show_digits (suc f) n acc =
    let rest = show_digits f (n / 10) ((48 + n % 10) ∷ acc) in
    if ltb n 10 then (48 + n) ∷ acc else rest

unfoldable pub show_nat : ℕ → Text
unfolding show_digits
show_nat n = show_digits (suc n) n []

-- `str(z)` of an integer.
unfoldable pub show_int : ℤ → Text
unfolding show_nat
show_int (pos n) = show_nat n
show_int (negsuc n) = b'-' ∷ show_nat (suc n)

module _ (decimal : DigitTable) where
  abbrev pub digit : ℕ → ℕ
  digit c = elim (decimal c) [ none ↦ 0 | some d ↦ d ]

  abbrev pub is_digit : ℕ → Bool
  is_digit c = elim (decimal c) [ none ↦ false | some d ↦ true ]

  unfoldable pub isdecimal : Text → Bool
  isdecimal [] = false
  isdecimal (c ∷ t) = all is_digit (c ∷ t)

  unfoldable pub value_from : ℕ → Text → ℕ
  value_from acc [] = acc
  value_from acc (c ∷ t) = value_from (acc * 10 + digit c) t

  -- `int(text)` of a text that `isdecimal` has accepted.
  abbrev pub int_value : Text → ℕ
  int_value t = value_from 0 t

  module _ (ascii : ReadsAscii decimal) where
    value-show_digits :
        (f n : ℕ) (acc : Text) → n < f → value_from 0 (show_digits f n acc) ≡ value_from n acc
    unfolding value_from show_digits
    value-show_digits zero n acc h = elim h [ ]
    value-show_digits (suc f) n acc h =
        ground (arith, ascii n, ascii (n % 10), value-show_digits f (n / 10) ((48 + n % 10) ∷ acc))

    -- Printing and reading is the identity.
    pub int_value-show_nat : (n : ℕ) → int_value (show_nat n) ≡ n
    unfolding show_nat value_from
    int_value-show_nat n = value-show_digits (suc n) n [] (omega arith)

    all-show_digits :
        (f n : ℕ) (acc : Text)
        → n < f
        → all is_digit acc ≡ true
        → isdecimal (show_digits f n acc) ≡ true
    unfolding isdecimal show_digits
    all-show_digits zero n acc h k = elim h [ ]
    all-show_digits (suc f) n acc h k =
        ground (arith, ascii n, ascii (n % 10), all-show_digits f (n / 10) ((48 + n % 10) ∷ acc))

    pub isdecimal-show_nat : (n : ℕ) → isdecimal (show_nat n) ≡ true
    unfolding show_nat
    isdecimal-show_nat n = all-show_digits (suc n) n [] (omega arith) refl

-- Every character of a printed number is an ASCII digit.
abbrev pub is_ascii_digit : ℕ → Bool
is_ascii_digit c = not (ltb c 48) && ltb c 58

all-show_digits_ascii :
    (f n : ℕ) (acc : Text)
    → all is_ascii_digit acc ≡ true
    → all is_ascii_digit (show_digits f n acc) ≡ true
unfolding show_digits
all-show_digits_ascii zero n acc k = k
all-show_digits_ascii (suc f) n acc k =
    ground (arith, all-show_digits_ascii f (n / 10) ((48 + n % 10) ∷ acc))

pub show_nat_ascii : (n : ℕ) → all is_ascii_digit (show_nat n) ≡ true
unfolding show_nat
show_nat_ascii n = all-show_digits_ascii (suc n) n [] refl

-- A printed number is no longer than its value allows.
length-show_digits : (f n : ℕ) (acc : Text) → length (show_digits f n acc) ≤ n + 1 + length acc
unfolding show_digits
length-show_digits zero n acc = omega arith
length-show_digits (suc f) n acc =
    ground (arith, length-show_digits f (n / 10) ((48 + n % 10) ∷ acc))

pub length-show_nat : (n : ℕ) → length (show_nat n) ≤ n + 1
unfolding show_nat
length-show_nat n = omega (arith, length-show_digits (suc n) n [])
