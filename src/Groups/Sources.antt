-- ===== src/Groups/Sources.antt =====
-- What the groups of a data source are after its rows are edited: redash/models/datasources.py,
-- `DataSource.groups` after `add_group`, `remove_group` and `update_group_permission`.
use dingolytics_backend.Base.{
  ℕ, Bool, true, false, ◌&&◌, Option, none, some, List, [], ◌∷◌, keep, any, ◌==◌, if◌then◌else◌,
  nat_eq, ◌≡◌, refl, sym, ◌∙◌, arith, Bool-cases, inl, inr,
}
use dingolytics_backend.Base.Dict.{Dict, get, put, get-put}
use dingolytics_backend.Base.Result.{ok}
use dingolytics_backend.Groups.{
  DataSourceGroup, add_group, links, remove_group, write_view_only, update_group_permission,
  collect, groups, one,
}

-- The level of a group: that of the last row of the data source which names it.
abbrev level : ℕ → ℕ → Option Bool → List DataSourceGroup → Option Bool
level source group acc [] = acc
level source group acc (r ∷ rows) =
    level source group (if links source group r then some r.view_only else acc) rows

get-collect :
    (source group : ℕ) (acc : Dict ℕ Bool) (rows : List DataSourceGroup)
    → get (collect acc (keep (λ r. r.data_source_id == source) rows)) group
      ≡ level source group (get acc group) rows
unfolding collect links
get-collect source group acc [] = refl
get-collect source group acc (r ∷ rows) = elim (Bool-cases (r.data_source_id == source)) [
  | inl e ↦ ground (
    arith,
    e,
    get-collect source group (put acc r.group_id r.view_only) rows,
    get-put acc r.group_id group r.view_only,
  )
  | inr e ↦ ground (arith, e, get-collect source group acc rows)
]

get-groups :
    (source group : ℕ) (rows : List DataSourceGroup)
    → get (groups rows source) group ≡ level source group none rows
unfolding groups
get-groups source group rows = get-collect source group [] rows

level-remove :
    (source group s g : ℕ) (acc : Option Bool) (rows : List DataSourceGroup)
    → level s g acc (remove_group rows source group)
      ≡ (if source == s && group == g then acc else level s g acc rows)
unfolding remove_group links
level-remove source group s g acc [] = ground arith
level-remove source group s g acc (r ∷ rows) = ground (
  arith,
  level-remove source group s g acc rows,
  level-remove source group s g (some r.view_only) rows,
)

level-add :
    (source group s g : ℕ) (v : Bool) (acc : Option Bool) (rows : List DataSourceGroup)
    → level s g acc (add_group rows source group v)
      ≡ (if source == s && group == g then some v else level s g acc rows)
unfolding add_group links
level-add source group s g v acc [] = ground arith
level-add source group s g v acc (r ∷ rows) = ground (
  arith,
  level-add source group s g v acc rows,
  level-add source group s g v (some r.view_only) rows,
)

links_hit :
    (source group s g : ℕ) (r : DataSourceGroup)
    → links source group r ≡ true
    → links s g r ≡ (source == s && group == g)
unfolding links
links_hit source group s g r e = ground arith

module _ (source group : ℕ) (v : Bool) where
  level-write-cons :
      (s g : ℕ) (acc : Option Bool) (r : DataSourceGroup) (rows : List DataSourceGroup)
      → level s g acc (write_view_only source group v (r ∷ rows))
        ≡ level s g
            (if links s g r then some (if links source group r then v else r.view_only) else acc)
            (write_view_only source group v rows)
  unfolding write_view_only links
  level-write-cons s g acc r rows = elim (Bool-cases (links source group r)) [
    | inl e ↦ rw e refl
    | inr e ↦ rw e refl
  ]

  level-write_same :
      (acc : Option Bool) (rows : List DataSourceGroup)
      → level source group acc (write_view_only source group v rows)
        ≡ (if any (links source group) rows then some v else acc)
  unfolding write_view_only
  level-write_same acc [] = refl
  level-write_same acc (r ∷ rows) =
      level-write-cons source group acc r rows
      ∙ ground (arith, level-write_same acc rows, level-write_same (some v) rows)

  level-write_other :
      (s g : ℕ) (acc : Option Bool) (rows : List DataSourceGroup)
      → (source == s && group == g) ≡ false
      → level s g acc (write_view_only source group v rows) ≡ level s g acc rows
  unfolding write_view_only
  level-write_other s g acc [] h = refl
  level-write_other s g acc (r ∷ rows) h =
      level-write-cons s g acc r rows
      ∙ ground (
        arith,
        links_hit source group s g r,
        level-write_other s g acc rows h,
        level-write_other s g (some r.view_only) rows h,
      )

any-one :
    (p : DataSourceGroup → Bool) (rows : List DataSourceGroup) (row : DataSourceGroup)
    → one (keep p rows) ≡ ok row
    → any p rows ≡ true
unfolding one
any-one p [] row h = cc
any-one p (r ∷ rows) row h = elim (Bool-cases (p r)) [
  | inl e ↦ rw e refl
  | inr e ↦ rw e (any-one p rows row (rw e at h))
]

same_pair : (a b c d : ℕ) → (a == b && c == d) ≡ true → (a ≡ b) × (c ≡ d)
same_pair a b c d h = (ground (arith, h), ground (arith, h))

-- Where a data source has exactly one row of a group, a write to its level succeeds; `groups` then gives
-- the group the level that was written, and every other group, and every other data source, is
-- as before.
get-groups-update_group_permission :
    (rows : List DataSourceGroup) (source group s g : ℕ) (view_only : Bool) (row : DataSourceGroup)
    → one (keep (links source group) rows) ≡ ok row
    → (after : List DataSourceGroup) × (update_group_permission rows source group view_only
        ≡ ok after)
      × (get (groups after s) g
          ≡ (if source == s && group == g then some view_only else get (groups rows s) g))
unfolding update_group_permission
get-groups-update_group_permission rows source group s g view_only row found = (
  write_view_only source group view_only rows,
  rw found,
  elim (Bool-cases (source == s && group == g)) [
    | inl e ↦ ground (
      arith,
      same_pair source s group g e,
      get-groups source group (write_view_only source group view_only rows),
      level-write_same source group view_only none rows,
      any-one (links source group) rows row found,
    )
    | inr e ↦ ground (
      arith,
      get-groups s g (write_view_only source group view_only rows),
      level-write_other source group view_only s g none rows e,
      get-groups s g rows,
    )
  ],
)

-- After a group is removed from a data source, `groups` of that data source does not have it, however many
-- rows it had; every other group, and every other data source, is as before.
get-groups-remove_group :
    (rows : List DataSourceGroup) (source group s g : ℕ)
    → get (groups (remove_group rows source group) s) g
      ≡ (if source == s && group == g then none else get (groups rows s) g)
get-groups-remove_group rows source group s g =
    get-groups s g (remove_group rows source group)
    ∙ level-remove source group s g none rows
    ∙ sym (rw (get-groups s g rows))

-- After a group is added to a data source, `groups` gives it the level that was asked for, whatever
-- rows it had; every other group, and every other data source, is as before.
get-groups-add_group :
    (rows : List DataSourceGroup) (source group s g : ℕ) (view_only : Bool)
    → get (groups (add_group rows source group view_only) s) g
      ≡ (if source == s && group == g then some view_only else get (groups rows s) g)
get-groups-add_group rows source group s g view_only =
    get-groups s g (add_group rows source group view_only)
    ∙ level-add source group s g view_only none rows
    ∙ sym (rw (get-groups s g rows))
