-- ===== src/Paging/Pages.antt =====
-- What a client of `paginate` gets: which pages there are, and what they hold together.
use dingolytics_backend.Base.{
  ℕ, zero, suc, ◌+◌, ◌*◌, ◌≤◌, ◌<◌, ◌≡◌, ◌⊎◌, inl, inr, refl, ap, sym, ◌∙◌, false, List, [], ◌++◌,
  length, map, ltb, arith, Bool-cases, ◌&&◌, ◌||◌, ◌≢◌, nat_eq,
}
use dingolytics_backend.Base.Result.{Result, ok, err, abort, ◌>>=◌}
use dingolytics_backend.Paging.{Page, offset, paginate}
use dingolytics_backend.Paging.Slices.{
  slice, take, drop, or_not_found, as_documented, per_page_of, length-take-le, length-drop,
  take_all, take-append-drop, take-NonEmpty, drop_all, length-take-drop-le,
}
use dingolytics_backend.Paging.Offsets.{
  IsPage, offset-suc, per_page_of-le, is_page?, offset-per_page_of, length-map, map-append,
  or_not_found-ok, not_found,
}

module _ {ℓ κ} {A : Type ℓ} {B : Type κ} (paginate_query : List A → ℕ → ℕ → Result (List A))
    (serializer : A → B) (xs : List A) where
  abbrev pub page_of : (page page_size : ℕ) → Page B
  page_of page page_size = record {
    count = length xs;
    page = page;
    page_size = page_size;
    results = map serializer (slice xs page (per_page_of page_size));
  }

  -- The two answers that refuse a page.
  abbrev pub Refuses : Result (Page B) → Type κ
  Refuses out = (out ≡ err (abort 400)) ⊎ (out ≡ err (abort 404))

  slice-nonempty :
      (page n : ℕ) → 1 ≤ n → offset page n < length xs → 0 < length (slice xs page (per_page_of n))
  slice-nonempty page n positive h =
      take-NonEmpty (per_page_of n) (drop (offset page (per_page_of n)) xs) (ground arith)
        (omega (arith, length-drop (offset page (per_page_of n)) xs, offset-per_page_of page n))

  shows_row :
      (page n : ℕ)
      → IsPage (length xs) page n
      → ltb 0 (length (page_of page n).results) ≡ ltb 0 (length xs)
  shows_row page n (hp, hn, hm, h) =
      let same = length-map serializer (slice xs page (per_page_of n)) in
      let few = length-take-drop-le (per_page_of n) (offset page (per_page_of n)) xs in
      elim h [
        | inl r ↦ ground (arith, slice-nonempty page n hn r, same, few)
        | inr (e, f) ↦ ground (arith, same, few)
      ]

  empty_page : (page n : ℕ) → length xs ≡ 0 → page ≢ 1 → as_documented xs page n ≡ err (abort 404)
  empty_page page n e h =
      not_found page (per_page_of n) (drop (offset page (per_page_of n)) xs)
        (drop_all _ xs (omega arith)) h

  module _
      (documented : (page per_page : ℕ)
        → 1 ≤ page
        → 1 ≤ per_page
        → paginate_query xs page per_page ≡ as_documented xs page per_page) where
    IsPage-paginate :
        (page n : ℕ)
        → IsPage (length xs) page n
        → paginate paginate_query serializer xs page n ≡ ok (page_of page n)
    unfolding paginate
    IsPage-paginate page n (hp, hn, hm, h) =
        let shown : or_not_found page (slice xs page (per_page_of n))
            ≡ ok (slice xs page (per_page_of n)) =
          or_not_found-ok page _
            (elim h [ inl r ↦ inr (slice-nonempty page n hn r) | inr (_, e) ↦ inl e ]) in
        let g1 : ltb page 1 ≡ false = ground arith in
        let g2 : (ltb (length xs) (offset page n + 1) && ltb 0 (length xs)) ≡ false =
          ground arith in
        let g3 : (ltb 250 n || ltb n 1) ≡ false = ground arith in
        rw (g1, g2, g3, documented page n hp hn, shown) refl

    paginate-Refuses :
        (page n : ℕ)
        → ¬ IsPage (length xs) page n
        → Refuses (paginate paginate_query serializer xs page n)
    unfolding paginate
    paginate-Refuses page n h = elim (Bool-cases (ltb page 1)) [
      | inl e ↦ inl (rw e refl)
      | inr e ↦ elim (Bool-cases (ltb (length xs) (offset page n + 1) && ltb 0 (length xs))) [
        | inl f ↦ inl (rw (e, f) refl)
        | inr f ↦ elim (Bool-cases (ltb 250 n || ltb n 1)) [
          | inl g ↦ inl (rw (e, f, g) refl)
          | inr g ↦
              let off : offset page n < length xs → ⊥ =
                λ k. h (ground arith, ground arith, ground arith, inl k) in
              let none_left : length xs ≡ 0 = ground arith in
              let not_first : page ≢ 1 =
                λ k. h (ground arith, ground arith, ground arith, inr (none_left, k)) in
              inr (
                rw
                  (
                    e,
                    f,
                    g,
                    documented page n (ground arith) (ground arith),
                    empty_page page n none_left not_first,
                  )
                  refl)
        ]
      ]
    ]

    -- `paginate` answers every request. With `paginate` of flask_sqlalchemy as documented, it returns a page
    -- exactly when the page is at least 1, the size is from 1 to 250 and a row stands on the page, or
    -- there is no row at all and the page is 1. What it returns has at most `page_size` rows and at most
    -- 100, and has a row if the listing has one. Every other request is answered 400 or 404.
    pub paginate_bounds :
        (page n : ℕ)
        → (IsPage (length xs) page n
            × (out : Page B) × (paginate paginate_query serializer xs page n ≡ ok out)
            × (out.count ≡ length xs)
            × (length out.results ≤ n)
            × (length out.results ≤ 100)
            × (ltb 0 (length out.results) ≡ ltb 0 (length xs)))
          ⊎ ((¬ IsPage (length xs) page n) × Refuses (paginate paginate_query serializer xs page n))
    paginate_bounds page n = elim (is_page? (length xs) page n) [
      | inl h ↦ inl (
        h,
        page_of page n,
        IsPage-paginate page n h,
        refl,
        omega (
          arith,
          length-map serializer (slice xs page (per_page_of n)),
          length-take-le (per_page_of n) (drop (offset page (per_page_of n)) xs),
          per_page_of-le n,
        ),
        ground (
          arith,
          length-map serializer (slice xs page (per_page_of n)),
          length-take-le (per_page_of n) (drop (offset page (per_page_of n)) xs),
        ),
        shows_row page n h,
      )
      | inr h ↦ inr (h, paginate-Refuses page n h)
    ]

-- The rows that a client collects from the pages 1 to k.
abbrev pub collect {κ} : {B : Type κ} → (ℕ → Result (Page B)) → ℕ → Result (List B)
collect fetch zero = ok []
collect fetch (suc k) = do rows ← collect fetch k; page ← fetch (suc k); ok (rows ++ page.results)

module _ {ℓ κ} {A : Type ℓ} {B : Type κ} (paginate_query : List A → ℕ → ℕ → Result (List A))
    (serializer : A → B) (xs : List A)
    (documented : (page per_page : ℕ)
      → 1 ≤ page
      → 1 ≤ per_page
      → paginate_query xs page per_page ≡ as_documented xs page per_page) where
  fetch : ℕ → ℕ → Result (Page B)
  fetch n page = paginate paginate_query serializer xs page n

  collect_pages :
      (n k : ℕ)
      → 1 ≤ n
      → n ≤ 100
      → k * n < length xs + n
      → collect (λ page. paginate paginate_query serializer xs page n) k
        ≡ ok (map serializer (take (k * n) xs))
  collect_pages n zero h1 h2 h =
      let none_yet : 0 ≡ 0 * n = omega arith in
      ap (λ (m : ℕ). ok (map serializer (take m xs))) none_yet
  collect_pages n (suc k) h1 h2 h =
      let before = collect_pages n k h1 h2 (omega arith) in
      let shown =
        IsPage-paginate paginate_query serializer xs documented (suc k) n
          (omega arith, h1, omega arith, inl (omega (arith, offset-suc k n))) in
      let whole : per_page_of n ≡ n = ground arith in
      let next : k * n + n ≡ suc k * n = omega arith in
      let more : take (k * n) xs ++ slice xs (suc k) n ≡ take (suc k * n) xs =
        rw (offset-suc k n) (take-append-drop (k * n) n xs ∙ ap (λ (m : ℕ). take m xs) next) in
      rw (before, shown, whole)
        (ap ok (
          sym (map-append serializer (take (k * n) xs) (slice xs (suc k) n))
          ∙ ap (map serializer) more))

  -- A client that asks for the pages 1 to k of a size up to 100 collects every row of the listing, once
  -- and in order, when the pages before the last do not hold them all and the k pages do.
  pub paginate_complete :
      (n k : ℕ)
      → 1 ≤ n
      → n ≤ 100
      → k * n < length xs + n
      → length xs ≤ k * n
      → collect (λ page. paginate paginate_query serializer xs page n) k ≡ ok (map serializer xs)
  paginate_complete n k h1 h2 h enough =
      collect_pages n k h1 h2 h ∙ ap (λ l. ok (map serializer l)) (take_all (k * n) xs enough)

  -- A size from 101 to 250 is let through, but the page then holds 100 rows, and where the listing has no more rows
  -- than the size, every further page is refused: the rows from the 101st on are on no page of that size.
  paginate_unreachable :
      (n page : ℕ)
      → 100 < n
      → n ≤ 250
      → 100 < length xs
      → length xs ≤ n
      → (paginate paginate_query serializer xs 1 n
          ≡ ok (record {
            count = length xs;
            page = 1;
            page_size = n;
            results = map serializer (take 100 xs);
          }))
        × Refuses paginate_query serializer xs
            (paginate paginate_query serializer xs (suc (suc page)) n)
  paginate_unreachable n page low high many all_one =
      let at_start : offset 1 n ≡ 0 = omega (arith, offset-suc 0 n) in
      let at_start' : offset 1 (per_page_of n) ≡ 0 = omega (arith, offset-suc 0 (per_page_of n)) in
      let cut : per_page_of n ≡ 100 = ground arith in
      let past : n ≤ offset (suc (suc page)) n = omega (arith, offset-suc (suc page) n) in
      (
        rw
            (
              IsPage-paginate paginate_query serializer xs documented 1 n
                  (omega arith, omega arith, high, inl (omega arith)),
              at_start',
              cut,
            )
            refl,
        paginate-Refuses paginate_query serializer xs documented (suc (suc page)) n
            (λ p. elim p.3 [ inl e ↦ omega arith | inr (e, f) ↦ omega arith ]),
      )
