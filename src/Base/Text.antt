-- ===== src/Base/Text.antt =====
-- Texts as lists of code points, and Python's methods on them over the ASCII letters and blanks.
use Prim.Native.Nat.{ℕ, zero, suc, ◌+◌, ◌-◌, ◌/◌, ◌%◌}
use Prim.Native.Char.{code}
use Prim.Native.String.{String}
use mathlib.Core.Path.{◌≡◌, refl}
use mathlib.Core.Bool.{Bool, true, false, ◌&&◌, ◌||◌}
use mathlib.Core.List.{List, [], ◌∷◌, ◌++◌, reverse, map}
use native.Mathlib.Omega.{arith}
use dingolytics_backend.Base.Tests.{if◌then◌else◌, leb, ltb, Eq, ◌==◌, nat_eq}
use dingolytics_backend.Base.{◌↔◌, subst}

abbrev pub Text : Type 0
Text = List ℕ

-- The code points of a literal.
abbrev pub codes : String → Text
codes String.[] = []
codes (String.◌∷◌ c s) = code c ∷ codes s

unfoldable pub text_beq : Text → Text → Bool
text_beq [] [] = true
text_beq (a ∷ s) (b ∷ t) = a == b && text_beq s t
text_beq _ _ = false

text_beq→eq : (s t : Text) → text_beq s t ≡ true → s ≡ t
unfolding text_beq
text_beq→eq [] [] h = refl
text_beq→eq [] (b ∷ t) h = cc
text_beq→eq (a ∷ s) [] h = cc
text_beq→eq (a ∷ s) (b ∷ t) h = ground (arith, text_beq→eq s t)

text_beq_refl : (s : Text) → text_beq s s ≡ true
unfolding text_beq
text_beq_refl [] = refl
text_beq_refl (a ∷ s) = ground (arith, text_beq_refl s)

pub text_beq_iff : (s t : Text) → (text_beq s t ≡ true) ↔ (s ≡ t)
text_beq_iff s t = (text_beq→eq s t, λ h. subst (λ u. text_beq s u ≡ true) h (text_beq_refl s))

instance abbrev pub text_eq : Eq Text
text_eq = record { beq = text_beq; beq_iff = text_beq_iff }

-- `c.isspace()`: tab, newline, vertical tab, form feed, return, the four separators, space
unfoldable pub is_space : ℕ → Bool
is_space c = (leb 9 c && leb c 13) || (leb 28 c && leb c 32)

unfoldable pub is_upper : ℕ → Bool
is_upper c = leb b'A' c && leb c b'Z'

unfoldable pub is_lower : ℕ → Bool
is_lower c = leb b'a' c && leb c b'z'

unfoldable pub is_digit : ℕ → Bool
is_digit c = leb b'0' c && leb c b'9'

unfoldable pub lower_code : ℕ → ℕ
unfolding is_upper
lower_code c = if is_upper c then c + 32 else c

unfoldable pub upper_code : ℕ → ℕ
unfolding is_lower
upper_code c = if is_lower c then c - 32 else c

unfoldable pub lower : Text → Text
unfolding lower_code
lower s = map lower_code s

unfoldable pub upper : Text → Text
unfolding upper_code
upper s = map upper_code s

unfoldable pub lstrip : Text → Text
unfolding is_space
lstrip [] = []
lstrip (c ∷ s) = let rest = lstrip s in if is_space c then rest else c ∷ s

-- `s.strip()`
unfoldable pub strip : Text → Text
unfolding lstrip
strip s = reverse (lstrip (reverse (lstrip s)))

unfoldable pub digits_of : ℕ → ℕ → Text → Text
digits_of zero n rest = rest
digits_of (suc fuel) n rest =
    let more = digits_of fuel (n / 10) ((b'0' + n % 10) ∷ rest) in
    if ltb n 10 then (b'0' + n) ∷ rest else more

-- `str(n)`; `n + 1` rounds are more than the number has digits.
unfoldable pub str_ℕ : ℕ → Text
unfolding digits_of
str_ℕ n = digits_of (suc n) n []

-- `sep.join(parts)`
unfoldable pub join : Text → List Text → Text
join sep [] = []
join sep (s ∷ []) = s
join sep (s ∷ t ∷ parts) = s ++ (sep ++ join sep (t ∷ parts))

str_ℕ-407 : str_ℕ 407 ≡ codes "407"
unfolding str_ℕ
str_ℕ-407 = refl
