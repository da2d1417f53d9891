-- ===== src/Grants.antt =====
-- `AccessPermission` of redash/models/users.py: the table of the grants on queries and dashboards,
-- and redash/handlers/permissions.py, which edits it.
pub mod Rules
pub mod Handlers
pub mod Modify
mod Examples
use dingolytics_backend.Base.{
  ℕ, String, Bool, true, false, not, ◌&&◌, Option, none, some, List, [], ◌∷◌, ◌++◌, length, keep,
  ltb, ◌==◌, if◌then◌else◌, nat_eq, string_eq,
}
use dingolytics_backend.Base.Result.{Result, ok, err, multiple_results_found}

-- The generic foreign key: `obj.__tablename__` and `obj.id`.
pub record ObjectRef : Type 0 where
  pub table_name : String
  pub id : ℕ

pub record AccessPermission : Type 0 where
  pub object_type : String
  pub object_id : ℕ
  pub access_type : String
  pub grantor_id : ℕ
  pub grantee_id : ℕ

is_on : ObjectRef → AccessPermission → Bool
is_on obj row = row.object_id == obj.id && row.object_type == obj.table_name

-- `if access_type:` skips the filter for `None` and for the empty text.
has_type : Option String → AccessPermission → Bool
has_type none row = true
has_type (some t) row = if t == "" then true else row.access_type == t

has_grantee : Option ℕ → AccessPermission → Bool
has_grantee none row = true
has_grantee (some u) row = row.grantee_id == u

has_grantor : Option ℕ → AccessPermission → Bool
has_grantor none row = true
has_grantor (some u) row = row.grantor_id == u

-- The condition of `_query`.
unfoldable pub selects : ObjectRef → Option String → Option ℕ → Option ℕ → AccessPermission → Bool
unfolding is_on has_type has_grantee has_grantor
selects obj access_type grantee grantor row =
    is_on obj row && has_type access_type row && has_grantee grantee row && has_grantor grantor row

-- `_query` and `find`
unfoldable pub find :
    List AccessPermission → ObjectRef → Option String → Option ℕ → Option ℕ → List AccessPermission
unfolding selects
find rows obj access_type grantee grantor = keep (selects obj access_type grantee grantor) rows

unfoldable pub exists : List AccessPermission → ObjectRef → String → ℕ → Bool
unfolding find
exists rows obj access_type grantee =
    ltb 0 (length (find rows obj (some access_type) (some grantee) none))

-- The row that `grant` looks for and adds.
unfoldable pub permission_row : ObjectRef → String → ℕ → ℕ → AccessPermission
permission_row obj access_type grantee grantor = record {
  object_type = obj.table_name;
  object_id = obj.id;
  access_type = access_type;
  grantor_id = grantor;
  grantee_id = grantee;
}

unfoldable pub same_row : AccessPermission → AccessPermission → Bool
same_row a b =
    b.object_type == a.object_type
    && b.object_id == a.object_id
    && b.access_type == a.access_type
    && b.grantee_id == a.grantee_id
    && b.grantor_id == a.grantor_id

-- The row and the table afterwards; `one_or_none` raises on a second match.
unfoldable pub grant :
    List AccessPermission
    → ObjectRef
    → String
    → ℕ
    → ℕ
    → Result (AccessPermission × List AccessPermission)
unfolding permission_row same_row
grant rows obj access_type grantee grantor =
    let row = permission_row obj access_type grantee grantor in
    elim (keep (same_row row) rows) [
      | [] ↦ ok (row, rows ++ row ∷ [])
      | found ∷ [] ↦ ok (found, rows)
      | _ ∷ _ ∷ _ ↦ err multiple_results_found
    ]

-- The table afterwards and the number of deleted rows.
unfoldable pub revoke :
    List AccessPermission → ObjectRef → ℕ → Option String → List AccessPermission × ℕ
unfolding selects
revoke rows obj grantee access_type = (
  keep (λ row. not (selects obj access_type (some grantee) none row)) rows,
  length (keep (selects obj access_type (some grantee) none) rows),
)
