-- ===== src/Lexical/Escape.antt =====
-- `unicode_escape` of src/lexical.hpp.
use egel.Prelude.{ℕ, false, [], ◌∷◌, ◌++◌, ◌≡◌, refl, ap, ◌∙◌, ◌==◌, if◌then◌else◌, arith}
use egel.Prelude.Text.{Text}

-- The switch: a control character, a quote or a backslash is a backslash and a letter.
unfoldable pub escape_char : ℕ → Text
escape_char c =
    if c == 7
    then b'\\' ∷ b'a' ∷ []
    else if c == 8
    then b'\\' ∷ b'b' ∷ []
    else if c == 9
    then b'\\' ∷ b't' ∷ []
    else if c == 10
    then b'\\' ∷ b'n' ∷ []
    else if c == 11
    then b'\\' ∷ b'v' ∷ []
    else if c == 12
    then b'\\' ∷ b'f' ∷ []
    else if c == 13
    then b'\\' ∷ b'r' ∷ []
    else if c == 34
    then b'\\' ∷ 34 ∷ []
    else if c == 39
    then b'\\' ∷ 39 ∷ []
    else if c == b'\\'
    then b'\\' ∷ b'\\' ∷ []
    else c ∷ []

unfoldable pub unicode_escape : Text → Text
unfolding escape_char
unicode_escape [] = []
unicode_escape (c ∷ s) = escape_char c ++ unicode_escape s

-- The character that a backslash and this one stand for.
unfoldable pub meaning : ℕ → ℕ
meaning c =
    if c == b'a'
    then 7
    else if c == b'b'
    then 8
    else if c == b't'
    then 9
    else if c == b'n'
    then 10
    else if c == b'v'
    then 11
    else if c == b'f'
    then 12
    else if c == b'r'
    then 13
    else c

-- The text that an escaped text stands for.
unfoldable pub unescaped : Text → Text
unfolding meaning
unescaped [] = []
unescaped (c ∷ []) = c ∷ []
unescaped (c ∷ d ∷ s) =
    let rest = unescaped s in
    let other = unescaped (d ∷ s) in if c == b'\\' then meaning d ∷ rest else c ∷ other

plain : (c : ℕ) (s : Text) → (c == b'\\') ≡ false → unescaped (c ∷ s) ≡ c ∷ unescaped s
unfolding unescaped
plain c [] h = refl
plain c (d ∷ s) h = rw h

unescaped-escape_char : (c : ℕ) (s : Text) → unescaped (escape_char c ++ s) ≡ c ∷ unescaped s
unfolding escape_char unescaped meaning
unescaped-escape_char c s = ground (arith, plain c s)

-- Escaping loses nothing: an escaped text stands for the text that was escaped.
pub unescaped-unicode_escape : (s : Text) → unescaped (unicode_escape s) ≡ s
unfolding unicode_escape
unescaped-unicode_escape [] = unfold unescaped in refl
unescaped-unicode_escape (c ∷ s) =
    unescaped-escape_char c (unicode_escape s) ∙ ap (λ t. c ∷ t) (unescaped-unicode_escape s)
