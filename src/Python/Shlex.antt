-- ===== src/Python/Shlex.antt =====
-- `shlex.split(s)` in its POSIX mode: the states of `shlex.read_token` and their transitions, and
-- what it does on words joined by blanks.
use aiops_research.Base.{
  ℕ, ◌≡◌, refl, Bool, true, false, not, ◌&&◌, ◌||◌, Option, none, some, List, [], ◌∷◌, ◌++◌,
  append-nil, append_assoc, arith, Text, Result, ok, err, ◌>>=◌, ◌==◌, if◌then◌else◌, all, ◌≢◌, All,
}

-- The messages of the `ValueError`s.
pub data SplitError : Type 0 where
  no_closing_quotation no_escaped_character : SplitError

-- Between words, in a word, in a quotation, or behind a backslash in the one or in the other.
pub data State : Type 0 where
  blank word single double escape escape_double : State

pub record Lexer : Type 0 where
  pub state : State
  pub token : Text
  pub quoted : Bool

abbrev start : Lexer
start = record { state = blank; token = []; quoted = false }

abbrev is_blank : ℕ → Bool
is_blank c = c == 32 || c == 9 || c == 13 || c == 10

abbrev is_empty : Text → Bool
is_empty [] = true
is_empty (c ∷ t) = false

-- The token as it is emitted: a token that is empty and was not quoted is none.
abbrev finished : Lexer → Option Text
finished l = if is_empty l.token && not l.quoted then none else some l.token

abbrev push : Lexer → State → ℕ → Lexer
push l state c = record l { state = state; token = l.token ++ c ∷ [] }

-- One character: the next state, and the token that it ends, if it ends one.
unfoldable pub advance : State → Lexer → ℕ → Lexer × Option Text
advance blank l c =
    if is_blank c
    then (l, none)
    else if c == b'\\'
    then (record l { state = escape }, none)
    else if c == b'"'
    then (record l { state = double }, none)
    else if c == b'\''
    then (record l { state = single }, none)
    else (push l word c, none)
advance word l c =
    if is_blank c
    then (start, finished l)
    else if c == b'\\'
    then (record l { state = escape }, none)
    else if c == b'"'
    then (record l { state = double }, none)
    else if c == b'\''
    then (record l { state = single }, none)
    else (push l word c, none)
advance single l c =
    if c == b'\''
    then (record l { state = word; quoted = true }, none)
    else (push (record l { quoted = true }) single c, none)
advance double l c =
    if c == b'"'
    then (record l { state = word; quoted = true }, none)
    else if c == b'\\'
    then (record l { state = escape_double; quoted = true }, none)
    else (push (record l { quoted = true }) double c, none)
advance escape l c = (push l word c, none)
advance escape_double l c =
    if c == b'"' || c == b'\\'
    then (push l double c, none)
    else (record l { state = double; token = l.token ++ b'\\' ∷ c ∷ [] }, none)

abbrev emit : Option Text → List Text → List Text
emit none rest = rest
emit (some t) rest = t ∷ rest

abbrev emit_all : Option Text → Result SplitError (List Text) → Result SplitError (List Text)
emit_all none r = r
emit_all (some t) r = r >>= λ rest. ok (t ∷ rest)

-- The end of the input.
abbrev finish : State → Lexer → Result SplitError (List Text)
finish blank l = ok (emit (finished l) [])
finish word l = ok (emit (finished l) [])
finish single l = err no_closing_quotation
finish double l = err no_closing_quotation
finish escape l = err no_escaped_character
finish escape_double l = err no_escaped_character

unfoldable pub tokens : Lexer → Text → Result SplitError (List Text)
unfolding advance
tokens l [] = finish l.state l
tokens l (c ∷ s) = let (l', out) = advance l.state l c in emit_all out (tokens l' s)

unfoldable pub split : Text → Result SplitError (List Text)
unfolding tokens
split s = tokens start s

-- A character that no state of the lexer treats in its own way.
abbrev pub is_plain_char : ℕ → Bool
is_plain_char c = not (is_blank c || c == b'\\' || c == b'"' || c == b'\'')

abbrev pub IsPlain : Text → Type 0
IsPlain t = all is_plain_char t ≡ true

abbrev word_at : Text → Lexer
word_at t = record { state = word; token = t; quoted = false }

-- Plain characters are added to the word.
tokens-append :
    (w rest t : Text) → IsPlain w → tokens (word_at t) (w ++ rest) ≡ tokens (word_at (t ++ w)) rest
unfolding tokens
tokens-append [] rest t h = rw append-nil
tokens-append (c ∷ w) rest t h =
    ground (arith, tokens-append w rest (t ++ c ∷ []), append_assoc t (c ∷ []) w)

tokens-start :
    (c : ℕ) (w rest : Text)
    → IsPlain (c ∷ w)
    → tokens start (c ∷ w ++ rest) ≡ tokens (word_at (c ∷ w)) rest
unfolding tokens
tokens-start c w rest h = ground (arith, tokens-append w rest (c ∷ []))

abbrev pub IsWord : Text → Type 0
IsWord w = (w ≢ []) × IsPlain w

-- A word and a blank in front of a text put that word in front of its tokens.
tokens-cons :
    (w rest : Text)
    → IsWord w
    → tokens start (w ++ 32 ∷ rest) ≡ (tokens start rest >>= λ r. ok (w ∷ r))
unfolding tokens
tokens-cons [] rest h = absurd (h.0 refl)
tokens-cons (c ∷ w) rest h = ground (arith, tokens-start c w (32 ∷ rest) h.1)

tokens-singleton : (w : Text) → IsWord w → tokens start w ≡ ok (w ∷ [])
unfolding tokens
tokens-singleton [] h = absurd (h.0 refl)
tokens-singleton (c ∷ w) h = ground (arith, tokens-start c w [] h.1, append-nil w)

-- Words joined by single blanks.
unfoldable pub join : Text → List Text → Text
join w [] = w
join w (v ∷ ws) = w ++ 32 ∷ join v ws

-- Splitting words that were joined by blanks gives the words back.
pub split-join :
    (w : Text) (ws : List Text) → IsWord w → All IsWord ws → split (join w ws) ≡ ok (w ∷ ws)
unfolding split join
split-join w [] h hs = tokens-singleton w h
split-join w (v ∷ ws) h hs = rw (tokens-cons w (join v ws) h) (rw (split-join v ws hs.0 hs.1))
