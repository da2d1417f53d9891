-- ===== src/Endpoints/Literals.antt =====
-- Literals of dingolytics/api/endpoints.py, read back the way a text between single quotes with escapes by a
-- backslash is read, and the names that the test of identifiers lets through.
use mathlib.Core.List.{append_assoc}
use dingolytics_backend.Base.{
  ℕ, Bool, false, ◌&&◌, Option, none, some, [], ◌∷◌, ◌++◌, all, ◌==◌, if◌then◌else◌, nat_eq, ◌≡◌,
  refl, ap, ◌∙◌, arith, leb, ◌||◌,
}
use dingolytics_backend.Base.Text.{Text, is_lower, is_upper, is_digit}
use dingolytics_backend.Endpoints.{
  replace, quote, escaped, escape_string, is_letter, is_word, word_to_end, validate_identifier,
}

-- What a letter behind a backslash stands for.
abbrev unescape : ℕ → ℕ
unescape c =
    if c == b'n'
    then 10
    else if c == b't'
    then 9
    else if c == b'b'
    then 8
    else if c == b'f'
    then 12
    else if c == b'r'
    then 13
    else if c == b'0'
    then 0
    else c

abbrev add : ℕ → Option (Text × Text) → Option (Text × Text)
add c none = none
add c (some (s, rest)) = some (c ∷ s, rest)

-- The text up to the quote that ends it, and what follows the quote.
abbrev read_body : Text → Option (Text × Text)
read_body [] = none
read_body (c ∷ []) = if c == 39 then some ([], []) else none
read_body (c ∷ d ∷ s) =
    let plain = add c (read_body (d ∷ s)) in
    let escape = add (unescape d) (read_body s) in
    if c == 39 then some ([], d ∷ s) else if c == 92 then escape else plain

abbrev pub read_literal : Text → Option (Text × Text)
read_literal [] = none
read_literal (c ∷ s) = if c == 39 then read_body s else none

-- The letter behind the backslash for a code that is escaped.
abbrev escape_letter : ℕ → Option ℕ
escape_letter c =
    if c == 92
    then some 92
    else if c == 39
    then some 39
    else if c == 10
    then some b'n'
    else if c == 9
    then some b't'
    else if c == 8
    then some b'b'
    else if c == 12
    then some b'f'
    else if c == 13
    then some b'r'
    else if c == 0
    then some b'0'
    else none

abbrev escape_code : ℕ → Text
escape_code c = elim (escape_letter c) [ none ↦ c ∷ [] | some e ↦ 92 ∷ e ∷ [] ]

-- The eight replacements, one after the other, escape each code by itself.
escaped-cons : (c : ℕ) (s : Text) → escaped (c ∷ s) ≡ escape_code c ++ escaped s
unfolding escaped replace
escaped-cons c s = ground arith

read_body-plain :
    (c : ℕ) (s : Text)
    → (c == 39) ≡ false
    → (c == 92) ≡ false
    → read_body (c ∷ s) ≡ add c (read_body s)
read_body-plain c [] h k = ground arith
read_body-plain c (d ∷ s) h k = ground arith

read_body-escape_code : (c : ℕ) (s : Text) → read_body (escape_code c ++ s) ≡ add c (read_body s)
read_body-escape_code c s = ground (arith, read_body-plain c s)

escaped-nil : escaped [] ≡ []
unfolding escaped replace
escaped-nil = refl

read_body-quote : (rest : Text) → read_body (39 ∷ rest) ≡ some ([], rest)
read_body-quote [] = refl
read_body-quote (c ∷ rest) = refl

read_body-escaped : (s rest : Text) → read_body (escaped s ++ 39 ∷ rest) ≡ some (s, rest)
read_body-escaped [] rest = ap (λ t. read_body (t ++ 39 ∷ rest)) escaped-nil ∙ read_body-quote rest
read_body-escaped (c ∷ s) rest =
    ap (λ t. read_body (t ++ 39 ∷ rest)) (escaped-cons c s)
    ∙ ap read_body (append_assoc (escape_code c) (escaped s) (39 ∷ rest))
    ∙ read_body-escape_code c (escaped s ++ 39 ∷ rest)
    ∙ ap (add c) (read_body-escaped s rest)

-- However a value looks, its literal ends where it was written to end, and reads as that value.
pub read_literal-escape_string :
    (value rest : Text) → read_literal (escape_string value ++ rest) ≡ some (value, rest)
unfolding escape_string quote
read_literal-escape_string value rest =
    ap read_body (append_assoc (escaped value) (39 ∷ []) rest) ∙ read_body-escaped value rest

-- An ASCII letter or an underscore, and letters, digits and underscores after it.
abbrev pub starts_name : ℕ → Bool
starts_name c = (leb b'a' c && leb c b'z') || (leb b'A' c && leb c b'Z') || c == b'_'

abbrev pub continues_name : ℕ → Bool
continues_name c = starts_name c || (leb b'0' c && leb c b'9')

abbrev pub is_identifier : Text → Bool
is_identifier [] = false
is_identifier (c ∷ s) = starts_name c && all continues_name s

-- The text without a newline at its end.
abbrev pub drop_newline : Text → Text
drop_newline [] = []
drop_newline (c ∷ []) = if c == 10 then [] else c ∷ []
drop_newline (c ∷ d ∷ s) = c ∷ drop_newline (d ∷ s)

word_to_end_lem : (s : Text) → word_to_end s ≡ all continues_name (drop_newline s)
unfolding word_to_end is_word is_letter is_lower is_upper is_digit
word_to_end_lem [] = refl
word_to_end_lem (c ∷ []) = ground arith
word_to_end_lem (c ∷ d ∷ s) = ground (arith, word_to_end_lem (d ∷ s))

-- The test of identifiers forgives a newline at the end: it lets a name through exactly if the name, once such a newline
-- is gone, is an ASCII letter or an underscore with ASCII letters, digits and underscores after it.
pub validate_identifier_lem : (s : Text) → validate_identifier s ≡ is_identifier (drop_newline s)
unfolding validate_identifier is_letter is_lower is_upper
validate_identifier_lem [] = refl
validate_identifier_lem (c ∷ []) = ground arith
validate_identifier_lem (c ∷ d ∷ s) = ground (arith, word_to_end_lem (d ∷ s))
