-- ===== src/Dashboards/Slug.antt =====
-- `generate_slug` finds a slug that no dashboard has.
use dingolytics_backend.Base.{
  ℕ, zero, suc, ◌+◌, ◌-◌, ◌*◌, ◌/◌, ◌%◌, ◌≤◌, ◌<◌, ◌≡◌, ◌≢◌, refl, sym, ap, ◌∙◌, true, false, not,
  ◌||◌, some, List, [], ◌∷◌, ◌++◌, keep, length, ltb, ◌==◌, arith, Bool-cases, inl, inr, eq_of_beq,
  nat_eq,
}
use dingolytics_backend.Base.Text.{Text, codes, text_eq, str_ℕ, digits_of}
use dingolytics_backend.Utils.{slugify}
use dingolytics_backend.Store.{Dashboard}
use dingolytics_backend.Dashboards.{is_taken, numbered, next_slug, generate_slug}

-- The number that a row of digits reads as, behind the number read before it.
abbrev read_digits : ℕ → Text → ℕ
read_digits acc [] = acc
read_digits acc (c ∷ s) = read_digits (acc * 10 + (c - 48)) s

read-digits_of :
    (fuel n : ℕ) (rest : Text)
    → n < fuel
    → read_digits 0 (digits_of fuel n rest) ≡ read_digits n rest
unfolding digits_of
read-digits_of zero n rest h = absurd (omega arith)
read-digits_of (suc fuel) n rest h = elim (Bool-cases (ltb n 10)) [
  | inl e ↦
      let same : 0 + (48 + n - 48) ≡ n = omega arith in
      rw e (ap (λ (m : ℕ). read_digits m rest) same)
  | inr e ↦
      let less : n / 10 < fuel = ground arith in
      let same : n / 10 * 10 + (48 + n % 10 - 48) ≡ n = omega arith in
      rw e (
        read-digits_of fuel (n / 10) ((48 + n % 10) ∷ rest) less
        ∙ ap (λ (m : ℕ). read_digits m rest) same)
]

read-str_ℕ : (n : ℕ) → read_digits 0 (str_ℕ n) ≡ n
unfolding str_ℕ
read-str_ℕ n = read-digits_of (suc n) n [] (omega arith)

append_cancel : (base s t : Text) → base ++ s ≡ base ++ t → s ≡ t
append_cancel [] s t h = h
append_cancel (c ∷ base) s t h = append_cancel base s t (cc h)

numbered_inj : (base : Text) (m n : ℕ) → numbered base m ≡ numbered base n → m ≡ n
unfolding numbered
numbered_inj base m n h =
    let tail : str_ℕ m ≡ str_ℕ n = append_cancel (codes "_") _ _ (append_cancel base _ _ h) in
    sym (read-str_ℕ m) ∙ ap (read_digits 0) tail ∙ read-str_ℕ n

numbered_new : (base : Text) (n : ℕ) → base ≢ numbered base n
unfolding numbered
numbered_new [] n h = cc
numbered_new (c ∷ base) n h = numbered_new base n (cc h)

-- The slugs that are tried, in their order.
abbrev candidate : Text → ℕ → Text
candidate base zero = base
candidate base (suc k) = numbered base (suc k)

candidate_inj : (base : Text) (m n : ℕ) → candidate base m ≡ candidate base n → m ≡ n
candidate_inj base zero zero h = refl
candidate_inj base zero (suc n) h = absurd (numbered_new base (suc n) h)
candidate_inj base (suc m) zero h = absurd (numbered_new base (suc m) (sym h))
candidate_inj base (suc m) (suc n) h = numbered_inj base (suc m) (suc n) h

-- The dashboards that do not have the slug.
abbrev without : Text → List Dashboard → List Dashboard
without slug dashboards = keep (λ b. not (b.slug == slug)) dashboards

length-without-le : (slug : Text) (ds : List Dashboard) → length (without slug ds) ≤ length ds
length-without-le slug [] = omega arith
length-without-le slug (b ∷ ds) = ground (arith, length-without-le slug ds)

length-without-lt :
    (slug : Text) (ds : List Dashboard)
    → is_taken ds slug ≡ true
    → length (without slug ds) < length ds
unfolding is_taken
length-without-lt slug [] h = cc
length-without-lt slug (b ∷ ds) h = elim (Bool-cases (b.slug == slug)) [
  | inl e ↦ rw e (omega (arith, length-without-le slug ds))
  | inr e ↦ rw e (omega (arith, length-without-lt slug ds (rw e at h)))
]

is_taken-without :
    (slug other : Text) (ds : List Dashboard)
    → slug ≢ other
    → is_taken (without slug ds) other ≡ is_taken ds other
unfolding is_taken
is_taken-without slug other [] h = refl
is_taken-without slug other (b ∷ ds) h = elim (Bool-cases (b.slug == slug)) [
  | inl e ↦
      let differs : (b.slug == other) ≡ false = elim (Bool-cases (b.slug == other)) [
        | inl f ↦ absurd (h (sym (eq_of_beq b.slug slug e) ∙ eq_of_beq b.slug other f))
        | inr f ↦ f
      ] in
      rw (e, differs) (is_taken-without slug other ds h)
  | inr e ↦ rw e (ap (λ t. b.slug == other || t) (is_taken-without slug other ds h))
]

-- Among more slugs than there are dashboards, one is free.
free_candidate :
    (n : ℕ) (ds : List Dashboard) (c : ℕ → Text)
    → ((i j : ℕ) → c i ≡ c j → i ≡ j)
    → length ds ≤ n
    → (k : ℕ) × (k ≤ n) × (is_taken ds (c k) ≡ false)
free_candidate zero ds c inj h = elim (Bool-cases (is_taken ds (c 0))) [
  | inl e ↦ absurd (omega (arith, length-without-lt (c 0) ds e))
  | inr e ↦ (0, omega arith, e)
]
free_candidate (suc n) ds c inj h = elim (Bool-cases (is_taken ds (c 0))) [
  | inr e ↦ (0, omega arith, e)
  | inl e ↦
      let (k, few, free) =
        free_candidate n (without (c 0) ds) (λ i. c (suc i))
          (λ i j q. omega (arith, inj (suc i) (suc j) q))
          (omega (arith, length-without-lt (c 0) ds e)) in
      (
        suc k,
        omega arith,
        sym (is_taken-without (c 0) (c (suc k)) ds (λ q. absurd (omega (arith, inj 0 (suc k) q))))
            ∙ free,
      )
]

next_slug_stops :
    (ds : List Dashboard) (base : Text) (fuel t k : ℕ)
    → k < fuel
    → is_taken ds (candidate base (t + k)) ≡ false
    → (slug : Text) × (next_slug ds base fuel (suc t) (candidate base t) ≡ some slug)
      × (is_taken ds slug ≡ false)
unfolding next_slug
next_slug_stops ds base zero t k h free = absurd (omega arith)
next_slug_stops ds base (suc fuel) t k h free = elim (Bool-cases (is_taken ds (candidate base t))) [
  | inr e ↦ (candidate base t, rw e refl, e)
  | inl e ↦ rw e (taken_next (λ m lt fr. next_slug_stops ds base fuel (suc t) m lt fr) k h free e)
]
  where
    taken_next :
        ((m : ℕ)
          → m < fuel
          → is_taken ds (candidate base (suc t + m)) ≡ false
          → (slug : Text) × (next_slug ds base fuel (suc (suc t)) (numbered base (suc t))
              ≡ some slug)
            × (is_taken ds slug ≡ false))
        → (k : ℕ) → k < suc fuel
        → is_taken ds (candidate base (t + k)) ≡ false
        → is_taken ds (candidate base t) ≡ true
        → (slug : Text) × (next_slug ds base fuel (suc (suc t)) (numbered base (suc t)) ≡ some slug)
          × (is_taken ds slug ≡ false)
    taken_next rest zero h free e =
        let same : t + 0 ≡ t = omega arith in
        absurd (cc (e, sym (ap (λ (n : ℕ). is_taken ds (candidate base n)) same) ∙ free))
    taken_next rest (suc m) h free e =
        let same : suc t + m ≡ t + suc m = omega arith in
        rest m (omega arith) (ap (λ (n : ℕ). is_taken ds (candidate base n)) same ∙ free)

-- `generate_slug` ends, after at most one round more than there are dashboards, with a slug that none of
-- them has.
pub generate_slug_free :
    (ds : List Dashboard) (name : Text)
    → (slug : Text) × (generate_slug ds name ≡ some slug) × (is_taken ds slug ≡ false)
unfolding generate_slug
generate_slug_free ds name =
    let (k, few, free) =
      free_candidate (length ds) ds (candidate (slugify name)) (candidate_inj (slugify name))
        (omega arith) in
    let at_start : 0 + k ≡ k = omega arith in
    next_slug_stops ds (slugify name) (suc (length ds)) 0 k (omega arith)
      (ap (λ (n : ℕ). is_taken ds (candidate (slugify name) n)) at_start ∙ free)
