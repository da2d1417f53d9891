-- ===== src/Access/Laws.antt =====
-- Who passes the checks of redash/permissions.py.
use mathlib.Core.List.{Memᴰ, append-nil}
use mathlib.Core.List.Memᴰ
use dingolytics_backend.Base.{
  ℕ, Bool, true, false, none, some, List, [], ◌∷◌, ◌++◌, contains, all, ◌≡◌, refl, sym, ap, subst,
  ◌∙◌, ◌↔◌, ◌⊎◌, inl, inr, arith, nat_eq, string_eq, Bool-cases, contains→Mem, Mem→contains,
  Option-cases, not, mem_of_keep, mem_keep_of, all_fails, all_fails_of,
}
use dingolytics_backend.Base.Dict.{Dict, get, keys, get_of_key, key_of_get}
use dingolytics_backend.Users.{Group, Principal, permissions}
use dingolytics_backend.Access.{
  ViewOnly, one, many, Guarded, groups_of, group_ids, flatten, flags_at, matching_groups,
  group_level, level_suffices, has_access_to_groups,
}

abbrev pub IsAdmin : List Group → Principal → Type 0
IsAdmin table p = contains (permissions table p) "admin" ≡ true

-- A group of the object that the principal is in, with what the group may do.
pub record SharedGroup (obj : Guarded) (p : Principal) : Type 0 where
  pub group : ℕ
  pub member : Memᴰ group (group_ids p)
  pub level : ViewOnly
  pub granted : get (groups_of obj) group ≡ some level

-- The flags of one group: one of them is false.
pub record NotViewOnly (v : ViewOnly) : Type 0 where
  pub full : Memᴰ false (flatten (v ∷ []))

module _ (groups : Dict ℕ ViewOnly) (ids : List ℕ) where
  mem_matching :
      {g : ℕ}
      → Memᴰ g (matching_groups groups ids)
      → Memᴰ g ids × ((v : ViewOnly) × (get groups g ≡ some v))
  unfolding matching_groups
  mem_matching {g} m =
      let (key, hit) = mem_of_keep (λ i. contains ids i) (keys groups) m in
      (contains→Mem ids g hit, get_of_key groups key)

  matching_of :
      {g : ℕ} (v : ViewOnly)
      → Memᴰ g ids
      → get groups g ≡ some v
      → Memᴰ g (matching_groups groups ids)
  unfolding matching_groups
  matching_of {g} v m e =
      mem_keep_of (λ i. contains ids i) (key_of_get groups g v e) (Mem→contains m)

mem_append_left {ℓ} :
    {A : Type ℓ} {a : A} {xs : List A} (ys : List A) → Memᴰ a xs → Memᴰ a (xs ++ ys)
mem_append_left ys (Memᴰ.head e) = Memᴰ.head e
mem_append_left ys (Memᴰ.tail m) = Memᴰ.tail (mem_append_left ys m)

mem_append_right {ℓ} :
    {A : Type ℓ} {a : A} (xs : List A) {ys : List A} → Memᴰ a ys → Memᴰ a (xs ++ ys)
mem_append_right [] m = m
mem_append_right (x ∷ xs) m = Memᴰ.tail (mem_append_right xs m)

mem_append_cases {ℓ} :
    {A : Type ℓ} {a : A} (xs : List A) {ys : List A} → Memᴰ a (xs ++ ys) → Memᴰ a xs ⊎ Memᴰ a ys
mem_append_cases [] m = inr m
mem_append_cases (x ∷ xs) (Memᴰ.head e) = inl (Memᴰ.head e)
mem_append_cases (x ∷ xs) (Memᴰ.tail m) = elim (mem_append_cases xs m) [
  | inl n ↦ inl (Memᴰ.tail n)
  | inr n ↦ inr n
]

-- The flags of a list of values are those of its values.
flatten-cons :
    (v : ViewOnly) (vs : List ViewOnly) → flatten (v ∷ vs) ≡ flatten (v ∷ []) ++ flatten vs
unfolding flatten
flatten-cons (one b) vs = refl
flatten-cons (many bs) vs = rw append-nil

flatten-nil : {b : Bool} → ¬ Memᴰ b (flatten [])
unfolding flatten
flatten-nil m = elim m [ ]

module _ (groups : Dict ℕ ViewOnly) where
  flags_at-nil : flags_at groups [] ≡ []
  unfolding flags_at
  flags_at-nil = refl

  flags_at_present :
      (g : ℕ) (gs : List ℕ) (v : ViewOnly)
      → get groups g ≡ some v
      → flags_at groups (g ∷ gs) ≡ v ∷ flags_at groups gs
  unfolding flags_at
  flags_at_present g gs v e = ground arith

  flags_at_absent :
      (g : ℕ) (gs : List ℕ) → get groups g ≡ none → flags_at groups (g ∷ gs) ≡ flags_at groups gs
  unfolding flags_at
  flags_at_absent g gs e = ground arith

  -- A false flag of the matching groups is a false flag of one of them.
  flag_source :
      {b : Bool} (gs : List ℕ)
      → Memᴰ b (flatten (flags_at groups gs))
      → (g : ℕ) × Memᴰ g gs × (v : ViewOnly) × (get groups g ≡ some v) × Memᴰ b (flatten (v ∷ []))
  flag_source [] m = absurd (flatten-nil (rw flags_at-nil at m))
  flag_source (g ∷ gs) m = elim (Option-cases (get groups g)) [
    | inl e ↦
        let (h, n, v, q, f) = flag_source gs (rw (flags_at_absent g gs e) at m) in
        (h, Memᴰ.tail n, v, q, f)
    | inr (v, e) ↦
        elim (mem_append_cases (flatten (v ∷ []))
          (rw (flags_at_present g gs v e, flatten-cons v (flags_at groups gs)) at m)) [
            | inl f ↦ (g, Memᴰ.head refl, v, e, f)
            | inr n ↦ let (h, n', v', q, f) = flag_source gs n in (h, Memᴰ.tail n', v', q, f)
          ]
  ]

  flag_of :
      {b : Bool} {g : ℕ} {gs : List ℕ} (v : ViewOnly)
      → Memᴰ g gs
      → get groups g ≡ some v
      → Memᴰ b (flatten (v ∷ []))
      → Memᴰ b (flatten (flags_at groups gs))
  flag_of v (Memᴰ.head {x = x} {xs = gs} same) e f =
      rw
        (
          flags_at_present x gs v (ap (get groups) (sym same) ∙ e),
          flatten-cons v (flags_at groups gs),
        )
        (mem_append_left _ f)
  flag_of v (Memᴰ.tail {x = x} {xs = gs} m) e f = elim (Option-cases (get groups x)) [
    | inl q ↦ rw (flags_at_absent x gs q) (flag_of v m e f)
    | inr (w, q) ↦
        rw (flags_at_present x gs w q, flatten-cons w (flags_at groups gs))
          (mem_append_right (flatten (w ∷ [])) (flag_of v m e f))
  ]

-- Viewing needs no more than a matching group; modifying needs a false flag.
view_suffices :
    (groups : Dict ℕ ViewOnly) (gs : List ℕ) → level_suffices true (group_level groups gs) ≡ true
unfolding level_suffices group_level
view_suffices groups gs = ground arith

modify_suffices :
    (groups : Dict ℕ ViewOnly) (gs : List ℕ)
    → level_suffices false (group_level groups gs)
      ≡ not (all (λ b. b) (flatten (flags_at groups gs)))
unfolding level_suffices group_level
modify_suffices groups gs = ground arith

module _ (table : List Group) (obj : Guarded) (p : Principal) where
  abbrev matching : List ℕ
  matching = matching_groups (groups_of obj) (group_ids p)

  abbrev Passes : Bool → Type 0
  Passes need = level_suffices need (group_level (groups_of obj) matching) ≡ true

  Passes-of_flag : Memᴰ false (flatten (flags_at (groups_of obj) matching)) → Passes false
  Passes-of_flag f =
      ground (arith, modify_suffices (groups_of obj) matching, all_fails_of (λ b. b) f refl)

  has_access_cases :
      (need : Bool)
      → has_access_to_groups table obj p need ≡ true
      → IsAdmin table p ⊎ ((g : ℕ) × Memᴰ g matching × Passes need)
  unfolding has_access_to_groups
  has_access_cases need h = go matching refl
    where
      go :
          (ms : List ℕ)
          → matching ≡ ms
          → IsAdmin table p ⊎ ((g : ℕ) × Memᴰ g matching × Passes need)
      go [] e = inl (ground arith)
      go (g ∷ gs) e = elim (Bool-cases (contains (permissions table p) "admin")) [
        | inl a ↦ inl a
        | inr n ↦ inr (g, subst (λ ms. Memᴰ g ms) (sym e) (Memᴰ.head refl), ground arith)
      ]

  has_access_of :
      (need : Bool)
      → IsAdmin table p ⊎ ((g : ℕ) × Memᴰ g matching × Passes need)
      → has_access_to_groups table obj p need ≡ true
  unfolding has_access_to_groups
  has_access_of need (inl a) = rw a
  has_access_of need (inr (g, m, h)) = go matching refl
    where
      go : (ms : List ℕ) → matching ≡ ms → has_access_to_groups table obj p need ≡ true
      go [] e = absurd (Memᴰ.not-nil (subst (λ ms. Memᴰ g ms) e m))
      go (g ∷ gs) e = ground arith

  -- A principal may view an object exactly if it is an administrator or shares a group with it.
  pub has_access_to_groups-view_only :
      (has_access_to_groups table obj p true ≡ true) ↔ (IsAdmin table p ⊎ SharedGroup obj p)
  has_access_to_groups-view_only = (
    λ h. elim (has_access_cases true h) [
      | inl a ↦ inl a
      | inr (g, m, _) ↦
          let (n, hit) = mem_matching (groups_of obj) (group_ids p) m in
          let (v, q) = hit in inr (record { group = g; member = n; level = v; granted = q })
    ],
    λ r. has_access_of true (elim r [
      | inl a ↦ inl a
      | inr s ↦ inr (
        s.group,
        matching_of (groups_of obj) (group_ids p) s.level s.member s.granted,
        view_suffices (groups_of obj) matching,
      )
    ]),
  )

  -- The check by groups lets a principal modify an object exactly if it is an administrator, or shares a group with
  -- it that has a flag which is not view-only. Keys of objects, owners and grants are not asked for by this check.
  pub has_access_to_groups-NotViewOnly :
      (has_access_to_groups table obj p false ≡ true)
      ↔ (IsAdmin table p ⊎ ((s : SharedGroup obj p) × NotViewOnly s.level))
  has_access_to_groups-NotViewOnly = (
    λ h. elim (has_access_cases false h) [
      | inl a ↦ inl a
      | inr (g, m, passes) ↦
          let fails : all (λ b. b) (flatten (flags_at (groups_of obj) matching)) ≡ false =
            ground (arith, modify_suffices (groups_of obj) matching) in
          let (b, flag, off) = all_fails (λ b. b) _ fails in
          let (h, n, v, q, f) = flag_source (groups_of obj) matching flag in
          let (n', _) = mem_matching (groups_of obj) (group_ids p) n in
          inr (
            record { group = h; member = n'; level = v; granted = q },
            record { full = subst (λ c. Memᴰ c (flatten (v ∷ []))) off f },
          )
    ],
    λ r. has_access_of false (elim r [
      | inl a ↦ inl a
      | inr (s, w) ↦
          let m = matching_of (groups_of obj) (group_ids p) s.level s.member s.granted in
          inr (s.group, m, Passes-of_flag (flag_of (groups_of obj) s.level m s.granted w.full))
    ]),
  )
