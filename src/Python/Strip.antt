-- ===== src/Python/Strip.antt =====
-- `text.strip()`, and `text.lower()` as far as a comparison with an ASCII text can tell.
use aiops_research.Base.{
  ℕ, ◌+◌, Bool, true, false, ◌&&◌, ◌||◌, [], ◌∷◌, map, Text, ◌==◌, leb, if◌then◌else◌,
}

-- `character.isspace()`
unfoldable pub is_space : ℕ → Bool
is_space c =
    (leb 9 c && leb c 13)
    || (leb 28 c && leb c 32)
    || c == 133
    || c == 160
    || c == 5760
    || (leb 8192 c && leb c 8202)
    || c == 8232
    || c == 8233
    || c == 8239
    || c == 8287
    || c == 12288

strip_left : Text → Text
unfolding is_space
strip_left [] = []
strip_left (c ∷ t) = let rest = strip_left t in if is_space c then rest else c ∷ t

abbrev put : Bool → ℕ → Text → Text
put b c (d ∷ t) = c ∷ d ∷ t
put true c [] = []
put false c [] = c ∷ []

strip_right : Text → Text
unfolding is_space
strip_right [] = []
strip_right (c ∷ t) = put (is_space c) c (strip_right t)

unfoldable pub strip : Text → Text
unfolding strip_left strip_right
strip t = strip_right (strip_left t)

-- A capital letter, and the Kelvin sign, become ASCII letters; the other characters
-- become texts with a character that is not ASCII, so they are left as they are.
abbrev lower_char : ℕ → ℕ
lower_char c = if leb b'A' c && leb c b'Z' then c + 32 else if c == 8490 then b'k' else c

unfoldable pub lower : Text → Text
lower t = map lower_char t
