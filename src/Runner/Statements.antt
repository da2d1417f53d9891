-- ===== src/Runner/Statements.antt =====
-- What the loops over the trailing tokens of a statement do.
use mathlib.Core.List.{reverse, reverse_aux, reverse-reverse}
use dingolytics_backend.Base.{
  ◌+◌, true, false, List, [], ◌∷◌, ◌≡◌, ◌≢◌, refl, ap, ◌∙◌, arith, length, if◌then◌else◌,
  Bool-cases, inl, inr, ◌⊎◌,
}
use dingolytics_backend.Base.Text.{Text}
use dingolytics_backend.Runner.{
  Parser, Token, space, is_blank, is_semicolon, is_whitespace, blank_comments, blank_semicolon,
  strip_trailing_comments, strip_trailing_semicolon, split_sql_statements, or_one_empty,
}

length-reverse_aux :
    {A : Type 0} (xs acc : List A) → length (reverse_aux xs acc) ≡ length xs + length acc
length-reverse_aux [] acc = omega arith
length-reverse_aux (x ∷ xs) acc = omega (arith, length-reverse_aux xs (x ∷ acc))

pub length-reverse : {A : Type 0} (xs : List A) → length (reverse xs) ≡ length xs
length-reverse xs = omega (arith, length-reverse_aux xs [])

length-blank_comments : (ts : List Token) → length (blank_comments ts) ≡ length ts
unfolding blank_comments
length-blank_comments [] = refl
length-blank_comments (t ∷ ts) = ground (arith, length-blank_comments ts)

length-blank_semicolon : (ts : List Token) → length (blank_semicolon ts) ≡ length ts
unfolding blank_semicolon
length-blank_semicolon [] = refl
length-blank_semicolon (t ∷ ts) = ground (arith, length-blank_semicolon ts)

-- The tokens, from the last one back: spaces, and then one that is neither a blank nor a comment.
abbrev pub EndsPlain : List Token → Type 0
EndsPlain [] = Unit
EndsPlain (t ∷ ts) = if is_whitespace t then EndsPlain ts else (is_blank t ≡ false)

plain_not_whitespace : (t : Token) → is_blank t ≡ false → is_whitespace t ≡ false
unfolding is_blank is_whitespace
plain_not_whitespace t h = ground arith

EndsPlain-space : (ts : List Token) → EndsPlain ts → EndsPlain (space ∷ ts)
unfolding is_whitespace
EndsPlain-space ts h = h

blank_comments-EndsPlain : (ts : List Token) → EndsPlain (blank_comments ts)
unfolding blank_comments
blank_comments-EndsPlain [] = tt
blank_comments-EndsPlain (t ∷ ts) = elim (Bool-cases (is_blank t)) [
  | inl e ↦ rw e (EndsPlain-space (blank_comments ts) (blank_comments-EndsPlain ts))
  | inr e ↦ rw e (rw (plain_not_whitespace t e) e)
]

-- The pass over the comments keeps the number of tokens, and leaves no comment behind the last token
-- that is neither a blank nor a comment.
strip_trailing_comments_lem :
    (stmt : List Token)
    → (length (strip_trailing_comments stmt) ≡ length stmt)
      × EndsPlain (reverse (strip_trailing_comments stmt))
unfolding strip_trailing_comments
strip_trailing_comments_lem stmt = (
  length-reverse (blank_comments (reverse stmt))
      ∙ length-blank_comments (reverse stmt)
      ∙ length-reverse stmt,
  rw reverse-reverse (blank_comments-EndsPlain (reverse stmt)),
)

-- Blanks, and then anything but a semicolon.
abbrev pub NoSemicolon : List Token → Type 0
NoSemicolon [] = Unit
NoSemicolon (t ∷ ts) = if is_whitespace t then NoSemicolon ts else (is_semicolon t ≡ false)

-- What the pass over the semicolon does to the tokens, from the last one back: it finds blanks and
-- a semicolon, which becomes a space, or it changes nothing.
pub data OneLess : List Token → List Token → Type 0 where
  removed : (t : Token) (ts : List Token) → is_semicolon t ≡ true → OneLess (t ∷ ts) (space ∷ ts)
  passed :
      (t : Token) (ts us : List Token)
      → is_whitespace t ≡ true
      → OneLess ts us
      → OneLess (t ∷ ts) (t ∷ us)

blank_semicolon_cases :
    (ts : List Token)
    → (NoSemicolon ts × (blank_semicolon ts ≡ ts)) ⊎ OneLess ts (blank_semicolon ts)
unfolding blank_semicolon
blank_semicolon_cases [] = inl (tt, refl)
blank_semicolon_cases (t ∷ ts) = elim (Bool-cases (is_whitespace t)) [
  | inl e ↦ elim (blank_semicolon_cases ts) [
    | inl (none_there, same) ↦ inl (rw e none_there, rw e (ap (λ l. t ∷ l) same))
    | inr less ↦ inr (rw e (passed t ts (blank_semicolon ts) e less))
  ]
  | inr e ↦ elim (Bool-cases (is_semicolon t)) [
    | inl s ↦ inr (rw (e, s) (removed t ts s))
    | inr s ↦ inl (rw e s, rw (e, s))
  ]
]

-- Only the last token that is no blank can change, and only if it is a semicolon: it becomes a space.
strip_trailing_semicolon_cases :
    (stmt : List Token)
    → (NoSemicolon (reverse stmt) × (strip_trailing_semicolon stmt ≡ stmt))
      ⊎ OneLess (reverse stmt) (reverse (strip_trailing_semicolon stmt))
unfolding strip_trailing_semicolon
strip_trailing_semicolon_cases stmt = elim (blank_semicolon_cases (reverse stmt)) [
  | inl (none_there, same) ↦ inl (none_there, ap reverse same ∙ reverse-reverse stmt)
  | inr less ↦ inr (rw reverse-reverse less)
]

or_one_empty-ne-nil : (l : List Text) → or_one_empty l ≢ []
unfolding or_one_empty
or_one_empty-ne-nil [] h = cc
or_one_empty-ne-nil (s ∷ l) h = cc

-- The list of statements is never empty.
split_sql_statements-ne-nil :
    (parser : Parser) (query : Text) → split_sql_statements parser query ≢ []
unfolding split_sql_statements
split_sql_statements-ne-nil parser query = or_one_empty-ne-nil _
