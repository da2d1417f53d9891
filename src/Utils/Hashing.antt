-- ===== src/Utils/Hashing.antt =====
-- What the hash of a query does not see: comments on one line, blanks and the case of letters.
use dingolytics_backend.Base.{
  ℕ, suc, zero, ◌≤◌, ◌<◌, true, false, not, ◌&&◌, none, some, [], ◌∷◌, ◌++◌, ◌≡◌, ◌≢◌, refl, sym,
  ap, ◌∙◌, arith, length, all, nat_eq, Option-cases, inl, inr, Bool-cases,
}
use dingolytics_backend.Base.Text.{Text, is_space, is_upper, lower, upper, lower_code, upper_code}
use dingolytics_backend.Utils.{
  star, slash, newline, after_comment, comment_here, sub_comments, strip_comments, squeeze,
  gen_query_hash,
}

-- No character of the text is `c`.
abbrev pub Lacks : ℕ → Text → Type 0
Lacks c [] = Unit
Lacks c (d ∷ s) = (d ≢ c) × Lacks c s

after_comment_shorter : (s r : Text) → after_comment s ≡ some r → length r < length s
unfolding after_comment
after_comment_shorter [] r h = cc
after_comment_shorter (c ∷ []) r h = cc
after_comment_shorter (c ∷ d ∷ s) r h = ground (arith, after_comment_shorter (d ∷ s) r)

comment_here_shorter : (s r : Text) → comment_here s ≡ some r → length r < length s
unfolding comment_here
comment_here_shorter [] r h = cc
comment_here_shorter (c ∷ []) r h = cc
comment_here_shorter (c ∷ d ∷ s) r h = ground (arith, after_comment_shorter s r)

module _ (f c : ℕ) (s : Text) where
  sub_comments-none :
      comment_here (c ∷ s) ≡ none → sub_comments (suc f) (c ∷ s) ≡ c ∷ sub_comments f s
  unfolding sub_comments
  sub_comments-none e = rw (e, sub_comments)

  sub_comments-some :
      (r : Text) → comment_here (c ∷ s) ≡ some r → sub_comments (suc f) (c ∷ s) ≡ sub_comments f r
  unfolding sub_comments
  sub_comments-some r e = rw (e, sub_comments)

-- Fuel for the length of the text is enough: more changes nothing.
sub_comments_fuel :
    (f g : ℕ) (s : Text) → length s ≤ f → length s ≤ g → sub_comments f s ≡ sub_comments g s
unfolding sub_comments
sub_comments_fuel zero zero s h k = refl
sub_comments_fuel zero (suc g) [] h k = refl
sub_comments_fuel (suc f) zero [] h k = refl
sub_comments_fuel (suc f) (suc g) [] h k = refl
sub_comments_fuel zero g (c ∷ s) h k = absurd (omega arith)
sub_comments_fuel (suc f) zero (c ∷ s) h k = absurd (omega arith)
sub_comments_fuel (suc f) (suc g) (c ∷ s) h k = elim (Option-cases (comment_here (c ∷ s))) [
  | inl e ↦
      rw (sub_comments-none f c s e, sub_comments-none g c s e)
        (ap (λ l. c ∷ l) (sub_comments_fuel f g s (omega arith) (omega arith)))
  | inr (r, e) ↦
      let shorter = comment_here_shorter (c ∷ s) r e in
      rw (sub_comments-some f c s r e, sub_comments-some g c s r e)
        (sub_comments_fuel f g r (omega arith) (omega arith))
]

strip_comments_step :
    (c : ℕ) (s : Text) → comment_here (c ∷ s) ≡ none → strip_comments (c ∷ s) ≡ c ∷ strip_comments s
unfolding strip_comments
strip_comments_step c s e = sub_comments-none (length s) c s e

strip_comments_skip :
    (c : ℕ) (s r : Text) → comment_here (c ∷ s) ≡ some r → strip_comments (c ∷ s) ≡ strip_comments r
unfolding strip_comments
strip_comments_skip c s r e =
    sub_comments-some (length s) c s r e
    ∙ sub_comments_fuel (length s) (length r) r (omega (arith, comment_here_shorter (c ∷ s) r e))
        (omega arith)

-- A slash opens every comment.
not_slash : (c : ℕ) (s : Text) → c ≢ slash → comment_here (c ∷ s) ≡ none
unfolding comment_here
not_slash c [] h = refl
not_slash c (d ∷ s) h = ground arith

strip_comments-append :
    (a b : Text) → Lacks slash a → strip_comments (a ++ b) ≡ a ++ strip_comments b
strip_comments-append [] b h = refl
strip_comments-append (c ∷ a) b h =
    strip_comments_step c (a ++ b) (not_slash c (a ++ b) h.0)
    ∙ ap (λ l. c ∷ l) (strip_comments-append a b h.1)

after_comment-close :
    (c b : Text) → Lacks star c → Lacks newline c → after_comment (c ++ star ∷ slash ∷ b) ≡ some b
unfolding after_comment
after_comment-close [] b h k = refl
after_comment-close (x ∷ []) b h k = ground (arith, h.0, k.0)
after_comment-close (x ∷ y ∷ c) b h k = ground (arith, after_comment-close (y ∷ c) b h.1 k.1)

strip_comments-comment :
    (c b : Text)
    → Lacks star c
    → Lacks newline c
    → strip_comments (slash ∷ star ∷ (c ++ star ∷ slash ∷ b)) ≡ strip_comments b
strip_comments-comment c b h k =
    strip_comments_skip slash (star ∷ (c ++ star ∷ slash ∷ b)) b
      (unfold comment_here in after_comment-close c b h k)

-- A comment on one line, behind a text without slashes, does not change the hash of a query.
gen_query_hash-comment :
    (hash : Text → Text) (a c b : Text)
    → Lacks slash a
    → Lacks star c
    → Lacks newline c
    → gen_query_hash hash (a ++ slash ∷ star ∷ (c ++ star ∷ slash ∷ b))
      ≡ gen_query_hash hash (a ++ b)
unfolding gen_query_hash
gen_query_hash-comment hash a c b ha hc hn =
    ap (λ t. hash (squeeze t))
      (strip_comments-append a _ ha
        ∙ ap (λ t. a ++ t) (strip_comments-comment c b hc hn)
        ∙ sym (strip_comments-append a b ha))

after_comment-newline : (c b : Text) → Lacks star c → after_comment (c ++ newline ∷ b) ≡ none
unfolding after_comment
after_comment-newline [] [] h = refl
after_comment-newline [] (d ∷ b) h = ground arith
after_comment-newline (x ∷ []) b h = ground (arith, after_comment-newline [] b tt, h.0)
after_comment-newline (x ∷ y ∷ c) b h = ground (arith, after_comment-newline (y ∷ c) b h.1, h.0)

-- A comment whose first line holds no star survives the stripping, delimiters included.
strip_comments_multiline :
    (c b : Text)
    → Lacks star c
    → strip_comments (slash ∷ star ∷ (c ++ newline ∷ b))
      ≡ slash ∷ star ∷ strip_comments (c ++ newline ∷ b)
strip_comments_multiline c b h =
    strip_comments_step slash (star ∷ (c ++ newline ∷ b))
      (unfold comment_here in after_comment-newline c b h)
    ∙ ap (λ l. slash ∷ l)
        (strip_comments_step star (c ++ newline ∷ b) (not_slash star _ (omega arith)))

same_letter :
    (c : ℕ) → (is_space (upper_code c) ≡ is_space c) × (lower_code (upper_code c) ≡ lower_code c)
unfolding is_space lower_code upper_code
same_letter c = (ground arith, ground arith)

-- The case of letters does not change the hash.
squeeze-upper : (s : Text) → squeeze (upper s) ≡ squeeze s
unfolding squeeze lower upper
squeeze-upper [] = refl
squeeze-upper (c ∷ s) = elim (Bool-cases (is_space c)) [
  | inl e ↦ rw ((same_letter c).0, e) (squeeze-upper s)
  | inr e ↦
      rw ((same_letter c).0, e, (same_letter c).1) (ap (λ l. lower_code c ∷ l) (squeeze-upper s))
]

lower_visible : (c : ℕ) → (is_space (lower_code c) ≡ is_space c) × (is_upper (lower_code c) ≡ false)
unfolding is_space lower_code is_upper
lower_visible c = (ground arith, ground arith)

-- The text that is hashed has neither blanks nor capital letters.
squeeze_clean : (s : Text) → all (λ c. not (is_space c) && not (is_upper c)) (squeeze s) ≡ true
unfolding squeeze lower
squeeze_clean [] = refl
squeeze_clean (c ∷ s) = elim (Bool-cases (is_space c)) [
  | inl e ↦ rw e (squeeze_clean s)
  | inr e ↦ rw (e, (lower_visible c).0, e, (lower_visible c).1) (squeeze_clean s)
]
