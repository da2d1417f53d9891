-- ===== src/Utils/Slugs.antt =====
-- What a slug looks like.
use dingolytics_backend.Base.{
  ℕ, Bool, true, false, [], ◌∷◌, ◌≡◌, refl, ap, arith, all, Bool-cases, inl, inr, if◌then◌else◌,
}
use dingolytics_backend.Base.Text.{Text, lower, lower_code}
use dingolytics_backend.Utils.{is_slug_char, sub_slug, slugify}

chars_cons :
    (b : Bool) (c : ℕ) (s t : Text)
    → is_slug_char c ≡ true
    → all is_slug_char s ≡ true
    → all is_slug_char (if b then s else c ∷ s) ≡ true
chars_cons true c s t h k = k
chars_cons false c s t h k = rw h k

sub_slug-chars : (r : Bool) (s : Text) → all is_slug_char (sub_slug r s) ≡ true
unfolding sub_slug
sub_slug-chars r [] = refl
sub_slug-chars r (c ∷ s) = elim (Bool-cases (is_slug_char c)) [
  | inl e ↦ rw (e, e) (sub_slug-chars false s)
  | inr e ↦
      rw e (
        chars_cons r b'-' (sub_slug true s) s (unfold is_slug_char in refl) (sub_slug-chars true s))
]

-- Every character of a slug is a small letter, a digit, an underscore or a dash.
slugify-chars : (s : Text) → all is_slug_char (slugify s) ≡ true
unfolding slugify
slugify-chars s = sub_slug-chars false (lower s)

lower_slug : (c : ℕ) → is_slug_char c ≡ true → lower_code c ≡ c
unfolding is_slug_char lower_code
lower_slug c h = ground arith

sub_slug_same : (s : Text) → all is_slug_char s ≡ true → sub_slug false (lower s) ≡ s
unfolding sub_slug lower
sub_slug_same [] h = refl
sub_slug_same (c ∷ s) h =
    let slug : is_slug_char c ≡ true = ground arith in
    rw (lower_slug c slug, slug) (ap (λ l. c ∷ l) (sub_slug_same s (ground arith)))

-- A slug is its own slug.
slugify-slugify : (s : Text) → slugify (slugify s) ≡ slugify s
unfolding slugify
slugify-slugify s = sub_slug_same (slugify s) (slugify-chars s)
