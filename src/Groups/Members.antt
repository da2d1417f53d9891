-- ===== src/Groups/Members.antt =====
-- Who is a member of a group after the calls that edit memberships.
use dingolytics_backend.Base.{
  ℕ, ◌+◌, true, false, not, List, [], ◌∷◌, ◌++◌, keep, contains, any, length, ◌==◌, nat_eq, ◌≡◌,
  refl, sym, ap, ◌∙◌, arith, Bool-cases, inl, inr, ltb, ◌-◌, string_eq,
}
use dingolytics_backend.Base.Filters.{any-keep-not}
use dingolytics_backend.Base.Result.{ok, err, >>=-eq-ok, ◌>>=◌, value_error}
use dingolytics_backend.Users.{Group, User, Principal}
use dingolytics_backend.Groups.{
  Directory, find_group, require_admin, remove_first, is_member, drop_member, remove_from_members,
  delete_group, builtin_group,
}

-- How often a list names a group.
abbrev pub count : ℕ → List ℕ → ℕ
count x ys = length (keep (λ y. y == x) ys)

module _ (x y : ℕ) (ys : List ℕ) where
  remove_first_hit : (y == x) ≡ true → remove_first x (y ∷ ys) ≡ ok ys
  unfolding remove_first
  remove_first_hit e = rw (e, remove_first)

  remove_first_miss :
      (y == x) ≡ false → remove_first x (y ∷ ys) ≡ (remove_first x ys >>= λ rest. ok (y ∷ rest))
  unfolding remove_first
  remove_first_miss e = rw (e, remove_first)

remove_first-nil : (x : ℕ) → remove_first x [] ≡ err value_error
unfolding remove_first
remove_first-nil x = refl

count-remove_first :
    (x : ℕ) (ys rest : List ℕ) → remove_first x ys ≡ ok rest → count x ys ≡ count x rest + 1
count-remove_first x [] rest h = cc (remove_first-nil x)
count-remove_first x (y ∷ ys) rest h = elim (Bool-cases (y == x)) [
  | inl e ↦ ground (arith, e, remove_first_hit x y ys e)
  | inr e ↦
      let (more, done, same) =
        >>=-eq-ok (remove_first x ys) _ (sym (remove_first_miss x y ys e) ∙ h) in
      ground (arith, e, count-remove_first x ys more done)
]

contains-count : (x : ℕ) (ys : List ℕ) → contains ys x ≡ ltb 0 (count x ys)
contains-count x [] = refl
contains-count x (y ∷ ys) = ground (arith, contains-count x ys)

remove_first_total :
    (x : ℕ) (ys : List ℕ) → contains ys x ≡ true → (rest : List ℕ) × (remove_first x ys ≡ ok rest)
remove_first_total x [] h = cc
remove_first_total x (y ∷ ys) h = elim (Bool-cases (y == x)) [
  | inl e ↦ (ys, remove_first_hit x y ys e)
  | inr e ↦
      let (rest, done) = remove_first_total x ys (ground (arith, e)) in
      (y ∷ rest, remove_first_miss x y ys e ∙ ap (λ r. r >>= λ l. ok (y ∷ l)) done)
]

count-snoc : (x : ℕ) (ys : List ℕ) → count x (ys ++ x ∷ []) ≡ count x ys + 1
count-snoc x [] = ground arith
count-snoc x (y ∷ ys) = ground (arith, count-snoc x ys)

-- What the loop of `delete` does to each user: the group is named once less by its members.
abbrev pub Dropped : ℕ → List User → List User → Type 0
Dropped g [] [] = Unit
Dropped g (u ∷ us) (v ∷ vs) =
    (v.id ≡ u.id) × (count g v.group_ids ≡ count g u.group_ids - 1) × Dropped g us vs
Dropped g _ _ = ⊥

drop_member_lem :
    (g : ℕ) (u : User)
    → (v : User) × (drop_member g u ≡ ok v)
      × (v.id ≡ u.id)
      × (count g v.group_ids ≡ count g u.group_ids - 1)
unfolding drop_member is_member
drop_member_lem g u = elim (Bool-cases (contains u.group_ids g)) [
  | inl e ↦
      let (rest, done) = remove_first_total g u.group_ids e in
      (
        record u { group_ids = rest },
        rw (e, done),
        refl,
        omega (arith, count-remove_first g u.group_ids rest done),
      )
  | inr e ↦ (u, rw e, refl, ground (arith, contains-count g u.group_ids))
]

remove_from_members_total :
    (g : ℕ) (users : List User)
    → (rest : List User) × (remove_from_members g users ≡ ok rest) × Dropped g users rest
unfolding remove_from_members
remove_from_members_total g [] = ([], refl, tt)
remove_from_members_total g (u ∷ users) =
    let (v, done, same, less) = drop_member_lem g u in
    let (rest, all_done, dropped) = remove_from_members_total g users in
    (v ∷ rest, rw (done, all_done), (same, less, dropped))

module _ (p : Principal) (org : ℕ) (d : Directory) (group : Group) (group_id : ℕ) where
  -- Deleting a group that is not built in succeeds for an administrator. The group and its data
  -- sources are gone, and every user names the group once less than before, if it did.
  delete_group_lem :
      require_admin d p ≡ ok tt
      → find_group d group_id org ≡ ok group
      → (group.type == builtin_group) ≡ false
      → (after : Directory) × (delete_group p org d group_id ≡ ok after)
        × (any (λ g. g.id == group.id) after.groups ≡ false)
        × (any (λ r. r.group_id == group.id) after.data_source_groups ≡ false)
        × Dropped group_id d.users after.users
  unfolding delete_group
  delete_group_lem admin found custom =
      let (users, done, dropped) = remove_from_members_total group_id d.users in
      (
        record d {
          groups = keep (λ g. not (g.id == group.id)) d.groups;
          users = users;
          data_source_groups = keep (λ r. not (r.group_id == group.id)) d.data_source_groups;
        },
        rw (admin, found, custom, done),
        any-keep-not (λ g. g.id == group.id) d.groups,
        any-keep-not (λ r. r.group_id == group.id) d.data_source_groups,
        dropped,
      )
