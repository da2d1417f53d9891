-- ===== src/Paging.antt =====
-- redash/handlers/base.py: required fields, tags, the order of a listing and its pages. `paginate` of
-- flask_sqlalchemy, which cuts a page out of the rows, is an argument.
pub mod Slices
mod Offsets
pub mod Pages
mod Examples
use dingolytics_backend.Base.{
  ℕ, zero, suc, ◌+◌, ◌-◌, ◌*◌, ◌≤◌, ◌≡◌, String, Bool, not, ◌&&◌, ◌||◌, Option, List, [], ◌∷◌, ◌++◌,
  keep, all, contains, length, map, ltb, leb, string_eq,
}
use dingolytics_backend.Base.Dict.{Dict, has_key}
use dingolytics_backend.Base.Result.{Result, ok, err, abort, guard, ◌>>=◌, ◌>>◌}

-- `require_fields`: the first field that the request lacks answers 400.
unfoldable pub require_fields {κ} :
    {V : Type κ} → Dict String V → (fields : List String) → Result (Unit {0})
require_fields req [] = ok tt
require_fields req (f ∷ fields) = guard (has_key req f) (abort 400) >> require_fields req fields

-- `filter_by_tags`: the rows whose column holds every tag of the request.
unfoldable pub filter_by_tags {ℓ} :
    {A : Type ℓ} → (tags : List String) → (column : A → List String) → List A → List A
filter_by_tags tags column rows = keep (λ row. all (contains (column row)) tags) rows

-- `order_results`: the code after its first `return` never runs.
unfoldable pub order_results {ℓ} :
    {A : Type ℓ} → List A → (requested_order : Option String) → (fallback : Bool) → List A
order_results results requested_order fallback = results

pub record Page {κ} (B : Type κ) : Type κ where
  pub count : ℕ
  pub page : ℕ
  pub page_size : ℕ
  pub results : List B

-- The rows before a page.
unfoldable pub offset : (page page_size : ℕ) → ℕ
offset page page_size = (page - 1) * page_size

-- `paginate`. A page or a page size below zero is refused like 0.
unfoldable pub paginate {ℓ κ} :
    {A : Type ℓ} {B : Type κ}
    → (paginate_query : List A → ℕ → ℕ → Result (List A)) → (serializer : A → B) → List A
    → (page page_size : ℕ) → Result (Page B)
paginate paginate_query serializer query_set page page_size = do
  let count = length query_set
  guard (not (ltb page 1)) (abort 400)
  guard (not (ltb count (offset page page_size + 1) && ltb 0 count)) (abort 400)
  guard (not (ltb 250 page_size || ltb page_size 1)) (abort 400)
  items ← paginate_query query_set page page_size
  ok (record { count = count; page = page; page_size = page_size; results = map serializer items })
