-- ===== src/Runner/Columns.antt =====
-- The columns that `fetch_columns` names.
use dingolytics_backend.Base.{
  ℕ, ◌+◌, false, Option, List, [], ◌∷◌, ◌++◌, ◌≡◌, ◌≢◌, refl, sym, ap, arith, map, contains,
  if◌then◌else◌, ◌==◌, beq_refl, Bool-cases, inl, inr,
}
use dingolytics_backend.Base.Text.{Text, codes, text_eq, text_beq_iff, str_ℕ}
use dingolytics_backend.Runner.{Column, fetch_from, fetch_columns}

abbrev pub names : List Column → List Text
names [] = []
names (c ∷ cs) = c.name ∷ names cs

abbrev pub types : List Column → List (Option Text)
types [] = []
types (c ∷ cs) = c.type ∷ types cs

types-fetch_from :
    (seen : List Text) (n : ℕ) (columns : List (Text × Option Text))
    → types (fetch_from seen n columns) ≡ map (λ c. c.1) columns
unfolding fetch_from
types-fetch_from seen n [] = refl
types-fetch_from seen n ((c, t) ∷ columns) =
    let name = if contains seen c then c ++ str_ℕ n else c in
    ap (λ l. t ∷ l)
      (types-fetch_from (seen ++ name ∷ []) (if contains seen c then n + 1 else n) columns)

-- Every column keeps its place and its type.
types-fetch_columns :
    (columns : List (Text × Option Text)) → types (fetch_columns columns) ≡ map (λ c. c.1) columns
unfolding fetch_columns
types-fetch_columns columns = types-fetch_from [] 1 columns

-- No name stands twice, and none is in `seen`.
abbrev pub IsDistinct : List Text → List (Text × Option Text) → Type 0
IsDistinct seen [] = Unit
IsDistinct seen ((c, t) ∷ columns) = (contains seen c ≡ false) × IsDistinct (seen ++ c ∷ []) columns

names-fetch_from :
    (seen : List Text) (n : ℕ) (columns : List (Text × Option Text))
    → IsDistinct seen columns
    → names (fetch_from seen n columns) ≡ map (λ c. c.0) columns
unfolding fetch_from
names-fetch_from seen n [] d = refl
names-fetch_from seen n ((c, t) ∷ columns) d =
    rw d.0 (ap (λ l. c ∷ l) (names-fetch_from (seen ++ c ∷ []) n columns d.1))

-- Distinct names are kept as they are.
names-fetch_columns :
    (columns : List (Text × Option Text))
    → IsDistinct [] columns
    → names (fetch_columns columns) ≡ map (λ c. c.0) columns
unfolding fetch_columns
names-fetch_columns columns d = names-fetch_from [] 1 columns d

longer : (x : Text) (c : ℕ) → (x ++ c ∷ []) ≢ x
longer [] c h = cc
longer (d ∷ x) c h = longer x c (ground arith)

differs : (x : Text) (c : ℕ) → (x ++ c ∷ [] == x) ≡ false
differs x c = elim (Bool-cases (x ++ c ∷ [] == x)) [
  | inl e ↦ absurd (longer x c ((text_beq_iff _ x).0 e))
  | inr e ↦ e
]

not_equal : (x : Text) (c : ℕ) → (x == x ++ c ∷ []) ≡ false
not_equal x c = elim (Bool-cases (x == x ++ c ∷ [])) [
  | inl e ↦ absurd (longer x c (sym ((text_beq_iff x _).0 e)))
  | inr e ↦ e
]

-- The name that a duplicate gets is not compared with the names before it: between two columns
-- called x a column called x1 leaves two columns of the same name.
fetch_columns_clash :
    (x : Text) (t t' t'' : Option Text)
    → names (fetch_columns ((x, t) ∷ (x ++ codes "1", t') ∷ (x, t'') ∷ []))
      ≡ x ∷ (x ++ codes "1") ∷ (x ++ codes "1") ∷ []
unfolding fetch_columns str_ℕ
fetch_columns_clash x t t' t'' = rw (not_equal x b'1', beq_refl x)
