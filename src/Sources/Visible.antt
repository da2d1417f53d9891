-- ===== src/Sources/Visible.antt =====
-- Which data sources redash/handlers/data_sources.py lists.
use mathlib.Core.List.{Memᴰ}
use dingolytics_backend.Base.{
  ℕ, true, List, [], ◌∷◌, contains, keep, ◌≡◌, refl, arith, Bool-cases, inl, inr, nat_eq, string_eq,
  mem_of_keep, eq_of_beq, ◌⊎◌, ◌∙◌, subst, sym, mem_keep_of, ◌↔◌, beq_refl, Bool, ◌==◌, any,
  any_find, ◌&&◌, any_of_mem, Mem→contains,
}
use dingolytics_backend.Base.Dict.{Dict, has_key, put, get-put}
use dingolytics_backend.Base.Result.{ok, ok_inj}
use dingolytics_backend.Users.{
  Group, user, api_user, Principal, permissions, has_permission, has_permissions, user_permissions,
}
use dingolytics_backend.Access.{group_ids, groups_of, has_access, has_access_to_groups}
use dingolytics_backend.Access.Laws.{SharedGroup, IsAdmin, has_access_to_groups-view_only}
use dingolytics_backend.Access.Guards.{permissions_ok}
use dingolytics_backend.Store.{DataSource, Store, guarded_source, groups_of_source, single_flags}
use dingolytics_backend.Groups.{DataSourceGroup, collect, groups}
use dingolytics_backend.Queries.Visible.{single_flags-key, linked-granted}
use dingolytics_backend.Sources.{is_linked, all_sources, list_sources}

keep_nothing : (table : List Group) → keep (λ (g : Group). contains [] g.id) table ≡ []
keep_nothing [] = refl
keep_nothing (g ∷ table) = keep_nothing table

-- A principal without groups may not list data sources.
no_groups-refused :
    (table : List Group) (p : Principal)
    → group_ids p ≡ []
    → ¬ (has_permissions table p ("list_data_sources" ∷ []) ≡ true)
unfolding group_ids has_permissions permissions user_permissions
no_groups-refused table (api_user a) e h = cc h
no_groups-refused table (user u) e h = cc (rw (e, keep_nothing table) at h)

has_permission-IsAdmin :
    (table : List Group) (p : Principal) → has_permission table p "admin" ≡ true → IsAdmin table p
unfolding has_permission has_permissions
has_permission-IsAdmin table p h = ground arith

IsAdmin-has_permission :
    (table : List Group) (p : Principal) → IsAdmin table p → has_permission table p "admin" ≡ true
unfolding has_permission has_permissions
IsAdmin-has_permission table p h = ground arith

source_access :
    (d : Store) (p : Principal) (id : ℕ)
    → has_access d.groups (guarded_source d id) p true
      ≡ has_access_to_groups d.groups (guarded_source d id) p true
unfolding has_access guarded_source
source_access d (user u) id = refl
source_access d (api_user a) id = refl

-- A source of the organization that the caller may view.
abbrev pub IsShown : Principal → ℕ → Store → DataSource → Type 0
IsShown p org d s =
    Memᴰ s d.data_sources
    × (s.org_id ≡ org)
    × (has_access d.groups (guarded_source d s.id) p true ≡ true)

is_linked-has_access :
    (d : Store) (p : Principal) (id : ℕ)
    → is_linked d (group_ids p) id ≡ true
    → has_access d.groups (guarded_source d id) p true ≡ true
unfolding is_linked guarded_source groups_of_source groups_of
is_linked-has_access d p id h =
    let (g, m, v, found) = linked-granted d (group_ids p) id h in
    source_access d p id
    ∙ (has_access_to_groups-view_only d.groups (guarded_source d id) p).1
        (inr (record { group = g; member = m; level = v; granted = found }))

all_sources-is_linked :
    (d : Store) (org : ℕ) (ids : List ℕ) (s : DataSource)
    → Memᴰ s (all_sources d org ids)
    → Memᴰ s d.data_sources × (s.org_id ≡ org) × ((ids ≡ []) ⊎ (is_linked d ids s.id ≡ true))
unfolding all_sources
all_sources-is_linked d org [] s m =
    let (n, h) = mem_of_keep _ d.data_sources m in (n, eq_of_beq s.org_id org h, inl refl)
all_sources-is_linked d org (g ∷ gs) s m =
    let (n, h) = mem_of_keep _ d.data_sources m in
    (n, eq_of_beq s.org_id org (ground arith), inr (ground arith))

list_sources_sound :
    (p : Principal) (org : ℕ) (d : Store) (sources : List DataSource) (s : DataSource)
    → list_sources p org d ≡ ok sources
    → Memᴰ s sources
    → IsShown p org d s
unfolding list_sources
list_sources_sound p org d sources s h m =
    let (allowed, e) = permissions_ok d.groups p ("list_data_sources" ∷ []) _ h in
    elim (Bool-cases (has_permission d.groups p "admin")) [
      | inl a ↦
          let (n, o, _) =
            all_sources-is_linked d org [] s
              (subst (λ ss. Memᴰ s ss) (sym (ok_inj (rw a at e))) m) in
          (
            n,
            o,
            source_access d p s.id
                ∙ (has_access_to_groups-view_only d.groups (guarded_source d s.id) p).1
                    (inl (has_permission-IsAdmin d.groups p a)),
          )
      | inr a ↦
          let (n, o, shown) =
            all_sources-is_linked d org (group_ids p) s
              (subst (λ ss. Memᴰ s ss) (sym (ok_inj (rw a at e))) m) in
          (
            n,
            o,
            elim shown [
              | inl none_there ↦ absurd (no_groups-refused d.groups p none_there allowed)
              | inr linked ↦ is_linked-has_access d p s.id linked
            ],
          )
    ]

collect-has :
    (acc : Dict ℕ Bool) (source g : ℕ) (rows : List DataSourceGroup)
    → has_key (collect acc (keep (λ r. r.data_source_id == source) rows)) g ≡ true
    → (has_key acc g ≡ true)
      ⊎ (any (λ r. r.data_source_id == source && r.group_id == g) rows ≡ true)
unfolding collect
collect-has acc source g [] h = inl h
collect-has acc source g (r ∷ rows) h = elim (Bool-cases (r.data_source_id == source)) [
  | inl e ↦ elim (collect-has (put acc r.group_id r.view_only) source g rows (rw e at h)) [
    | inl k ↦ elim (Bool-cases (r.group_id == g)) [
      | inl f ↦ inr (ground arith)
      | inr f ↦ inl (ground (arith, get-put acc r.group_id g r.view_only))
    ]
    | inr k ↦ inr (ground arith)
  ]
  | inr e ↦ elim (collect-has acc source g rows (rw e at h)) [
    | inl k ↦ inl k
    | inr k ↦ inr (ground arith)
  ]
]

shared-is_linked :
    (d : Store) (p : Principal) (id : ℕ)
    → SharedGroup (guarded_source d id) p
    → is_linked d (group_ids p) id ≡ true
unfolding is_linked guarded_source groups_of_source groups_of groups
shared-is_linked d p id shared =
    let key : has_key
          (single_flags (collect [] (keep (λ r. r.data_source_id == id) d.data_source_groups)))
          shared.group
        ≡ true =
      rw shared.granted refl in
    elim (collect-has [] id shared.group d.data_source_groups
      (sym (single_flags-key _ shared.group) ∙ key)) [
        | inl h ↦ absurd (cc h)
        | inr h ↦
            let (r, m, hit) =
              any_find (λ r. r.data_source_id == id && r.group_id == shared.group)
                d.data_source_groups h in
            any_of_mem (λ r. r.data_source_id == id && contains (group_ids p) r.group_id) m
              (ground (arith, eq_of_beq r.group_id shared.group, Mem→contains shared.member))
      ]

all_sources-of :
    (d : Store) (org : ℕ) (ids : List ℕ) (s : DataSource)
    → Memᴰ s d.data_sources
    → s.org_id ≡ org
    → (ids ≡ []) ⊎ (is_linked d ids s.id ≡ true)
    → Memᴰ s (all_sources d org ids)
unfolding all_sources
all_sources-of d org [] s m o h = mem_keep_of _ m (rw o (beq_refl org))
all_sources-of d org (g ∷ gs) s m o (inl none_there) = absurd (cc none_there)
all_sources-of d org (g ∷ gs) s m o (inr h) = mem_keep_of _ m (rw o (ground (arith, beq_refl org)))

-- The listing for a caller, if it is answered, has exactly the sources of the organization that the caller
-- may view.
list_sources-has_access :
    (p : Principal) (org : ℕ) (d : Store) (sources : List DataSource) (s : DataSource)
    → list_sources p org d ≡ ok sources
    → Memᴰ s sources ↔ IsShown p org d s
unfolding list_sources
list_sources-has_access p org d sources s h = (
  list_sources_sound p org d sources s h,
  λ (n, o, access).
      let (allowed, e) = permissions_ok d.groups p ("list_data_sources" ∷ []) _ h in
      elim (Bool-cases (has_permission d.groups p "admin")) [
        | inl a ↦
            subst (λ ss. Memᴰ s ss) (ok_inj (rw a at e)) (all_sources-of d org [] s n o (inl refl))
        | inr a ↦
            subst (λ ss. Memᴰ s ss) (ok_inj (rw a at e))
              (all_sources-of d org (group_ids p) s n o (
                inr
                  (elim ((has_access_to_groups-view_only d.groups (guarded_source d s.id) p).0
                    (sym (source_access d p s.id) ∙ access)) [
                      | inl admin ↦ absurd (cc (a, IsAdmin-has_permission d.groups p admin))
                      | inr shared ↦ shared-is_linked d p s.id shared
                    ])))
      ],
)
