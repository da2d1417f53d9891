-- ===== src/Queries/Visible.antt =====
-- What the listings of queries show, and what the check on dropdown queries lets through.
use mathlib.Core.List.{Memᴰ}
use dingolytics_backend.Base.{
  ℕ, Bool, true, not, ◌&&◌, ◌||◌, Option, none, some, List, [], ◌∷◌, length, contains, keep, any,
  ◌≡◌, refl, sym, ap, subst, ◌∙◌, arith, Bool-cases, inl, inr, is_some, ◌==◌, nat_eq, string_eq,
  any_find, mem_of_keep, any_of_mem, contains→Mem, beq_refl, eq_of_beq, ◌≤◌,
}
use dingolytics_backend.Base.Filters.{any_never}
use dingolytics_backend.Base.Dict.{Dict, get, put, has_key, get-put}
use dingolytics_backend.Base.Result.{ok}
use dingolytics_backend.Users.{User, user}
use dingolytics_backend.Access.{
  group_ids, groups_of, ViewOnly, group_map, has_access, has_access_to_groups, require_access,
}
use dingolytics_backend.Access.{one as one_flag}
use dingolytics_backend.Access.Laws.{has_access_to_groups-view_only}
use dingolytics_backend.Groups.{DataSourceGroup, groups, collect}
use dingolytics_backend.Store.{
  Query, Store, is_at, guarded_query, groups_of_query, groups_of_source, single_flags,
}
use dingolytics_backend.Queries.Listing.{
  in_groups, is_owner, all_queries, all_groups_for_query_ids, dict_of, require_access_to_ids,
}

pub some_of : {A : Type 0} (o : Option A) → is_some o ≡ true → (a : A) × (o ≡ some a)
some_of none h = cc
some_of (some a) h = (a, refl)

has_key-put {ℓ} :
    {V : Type ℓ} (d : Dict ℕ V) (k g : ℕ) (v : V)
    → has_key d g ≡ true
    → has_key (put d k v) g ≡ true
has_key-put d k g v h = ground (arith, get-put d k g v)

has_key-put_same {ℓ} : {V : Type ℓ} (d : Dict ℕ V) (g : ℕ) (v : V) → has_key (put d g v) g ≡ true
has_key-put_same d g v = ground (arith, get-put d g g v, beq_refl g)

dict_of-kept :
    (acc : Dict ℕ ViewOnly) (pairs : List (ℕ × Bool)) (g : ℕ)
    → has_key acc g ≡ true
    → has_key (dict_of acc pairs) g ≡ true
unfolding dict_of
dict_of-kept acc [] g h = h
dict_of-kept acc ((k, b) ∷ pairs) g h =
    dict_of-kept (put acc k (one_flag b)) pairs g (has_key-put acc k g (one_flag b) h)

dict_of-key :
    (g : ℕ) (b : Bool) (acc : Dict ℕ ViewOnly) {pairs : List (ℕ × Bool)}
    → Memᴰ (g, b) pairs
    → has_key (dict_of acc pairs) g ≡ true
unfolding dict_of
dict_of-key g b acc (Memᴰ.head {xs = pairs} e) =
    subst (λ (p : ℕ × Bool). has_key (dict_of (put acc p.0 (one_flag p.1)) pairs) g ≡ true) e
      (dict_of-kept (put acc g (one_flag b)) pairs g (has_key-put_same acc g (one_flag b)))
dict_of-key g b acc (Memᴰ.tail {x = p} m) = dict_of-key g b (put acc p.0 (one_flag p.1)) m

collect-kept :
    (acc : Dict ℕ Bool) (rows : List DataSourceGroup) (g : ℕ)
    → has_key acc g ≡ true
    → has_key (collect acc rows) g ≡ true
unfolding collect
collect-kept acc [] g h = h
collect-kept acc (r ∷ rows) g h =
    collect-kept (put acc r.group_id r.view_only) rows g
      (has_key-put acc r.group_id g r.view_only h)

collect-key :
    (acc : Dict ℕ Bool) (source g : ℕ) (rows : List DataSourceGroup)
    → any (λ r. r.data_source_id == source && r.group_id == g) rows ≡ true
    → has_key (collect acc (keep (λ r. r.data_source_id == source) rows)) g ≡ true
unfolding collect
collect-key acc source g [] h = cc
collect-key acc source g (r ∷ rows) h = elim (Bool-cases (r.data_source_id == source)) [
  | inl e ↦ rw e (elim (Bool-cases (r.group_id == g)) [
    | inl f ↦ collect-kept _ (keep (λ x. x.data_source_id == source) rows) g (
        subst (λ (k : ℕ). has_key (put acc k r.view_only) g ≡ true) (sym (eq_of_beq r.group_id g f))
          (has_key-put_same acc g r.view_only))
    | inr f ↦ collect-key (put acc r.group_id r.view_only) source g rows (ground arith)
  ])
  | inr e ↦ rw e (collect-key acc source g rows (ground arith))
]

pub single_flags-key : (d : Dict ℕ Bool) (g : ℕ) → has_key (single_flags d) g ≡ has_key d g
unfolding single_flags
single_flags-key [] g = refl
single_flags-key ((k, b) ∷ d) g = ground (arith, single_flags-key d g)

-- A user who is in a group that one of the dropdown queries belongs to passes the check for all of them, as
-- long as there are as many groups as queries: no query is checked by itself.
pub require_access_to_ids_any :
    (d : Store) (u : User) (id : ℕ) (ids : List ℕ) (g : ℕ) (b : Bool)
    → Memᴰ g u.group_ids
    → Memᴰ (g, b) (all_groups_for_query_ids d (id ∷ ids))
    → length (id ∷ ids) ≤ length (all_groups_for_query_ids d (id ∷ ids))
    → require_access_to_ids d (user u) (id ∷ ids) ≡ ok tt
unfolding require_access_to_ids require_access has_access group_ids groups_of
require_access_to_ids_any d u id ids g b member pair enough =
    let (v, found) = some_of _ (dict_of-key g b [] pair) in
    let passes : has_access_to_groups d.groups
          (group_map (dict_of [] (all_groups_for_query_ids d (id ∷ ids)))) (user u) true
        ≡ true =
      (has_access_to_groups-view_only d.groups _ (user u)).1
        (inr (record { group = g; member = member; level = v; granted = found })) in
    rw passes (ground arith)

groups_of_query-source :
    (d : Store) (q : Query) (id : ℕ)
    → q.data_source_id ≡ some id
    → groups_of_query d q ≡ single_flags (groups d.data_source_groups id)
unfolding groups_of_query groups_of_source
groups_of_query-source d q id e =
    ap
      (λ (o : Option ℕ). elim o as (λ _. Dict ℕ ViewOnly) [
        | none ↦ []
        | some s ↦ single_flags (groups d.data_source_groups s)
      ])
      e

-- A source that is linked to one of a user's groups has that group in its dictionary.
pub linked-granted :
    (d : Store) (ids : List ℕ) (id : ℕ)
    → any (λ r. r.data_source_id == id && contains ids r.group_id) d.data_source_groups ≡ true
    → (g : ℕ) × Memᴰ g ids
      × (v : ViewOnly) × (get (single_flags (groups d.data_source_groups id)) g ≡ some v)
unfolding groups
linked-granted d ids id h =
    let (r, m, hit) =
      any_find (λ r. r.data_source_id == id && contains ids r.group_id) d.data_source_groups h in
    let linked : any (λ s. s.data_source_id == id && s.group_id == r.group_id) d.data_source_groups
        ≡ true =
      any_of_mem (λ s. s.data_source_id == id && s.group_id == r.group_id) m
        (ground (arith, beq_refl r.group_id)) in
    let (v, found) =
      some_of
        (get (single_flags (collect [] (keep (λ s. s.data_source_id == id) d.data_source_groups)))
          r.group_id)
        (single_flags-key _ r.group_id
          ∙ collect-key [] id r.group_id d.data_source_groups linked) in
    (r.group_id, contains→Mem ids r.group_id (ground arith), v, found)

any_same {ℓ} :
    {A : Type ℓ} (p q : A → Bool)
    → ((a : A) → p a ≡ true → q a ≡ true)
    → (xs : List A) → any p xs ≡ true
    → any q xs ≡ true
any_same p q h [] e = e
any_same p q h (x ∷ xs) e = elim (Bool-cases (p x)) [
  | inl f ↦ ground (arith, h x f)
  | inr f ↦ ground (arith, any_same p q h xs (ground arith))
]

in_groups-has_access :
    (d : Store) (u : User) (q : Query) (source : Option ℕ)
    → q.data_source_id ≡ source
    → any
        (λ r. is_at r.data_source_id source && contains u.group_ids r.group_id)
        d.data_source_groups
      ≡ true
    → has_access_to_groups d.groups (guarded_query d q) (user u) true ≡ true
unfolding is_at guarded_query groups_of_query groups_of_source groups group_ids groups_of
in_groups-has_access d u q none e h = absurd (
    cc (
      h,
      any_never (λ r. is_at r.data_source_id none && contains u.group_ids r.group_id) (λ r. refl)
          d.data_source_groups,
    ))
in_groups-has_access d u q (some id) e h =
    let (g, m, v, found) = linked-granted d u.group_ids id (
      any_same (λ r. is_at r.data_source_id (some id) && contains u.group_ids r.group_id)
        (λ r. r.data_source_id == id && contains u.group_ids r.group_id)
        (λ r f. ground (arith, eq_of_beq id r.data_source_id, beq_refl id)) d.data_source_groups
        h) in
    (has_access_to_groups-view_only d.groups (guarded_query d q) (user u)).1 (
      inr (record {
        group = g;
        member = m;
        level = v;
        granted = ap (λ groups. get groups g) (groups_of_query-source d q id e) ∙ found;
      }))

-- Every query that the listing for a user shows is in the state that was asked for, is one that the user may
-- view, and is no draft of another user unless drafts were asked for.
pub all_queries-has_access :
    (d : Store) (u : User) (include_drafts include_archived : Bool) (q : Query)
    → Memᴰ q (all_queries d u.group_ids (some u.id) include_drafts include_archived)
    → Memᴰ q d.queries
      × (q.is_archived ≡ include_archived)
      × (has_access_to_groups d.groups (guarded_query d q) (user u) true ≡ true)
      × ((include_drafts || not q.is_draft || q.user_id == u.id) ≡ true)
unfolding all_queries is_owner in_groups
all_queries-has_access d u include_drafts include_archived q m =
    let (n, shown) = mem_of_keep _ d.queries m in
    (n, ground arith, in_groups-has_access d u q q.data_source_id refl (ground arith), ground arith)
