-- ===== src/Base/Dict.antt =====
-- A Python dictionary: its items in the order of insertion. A write to a present key keeps the
-- key's place, and each key stands once in a dictionary that is built by these operations.
use mathlib.Core.Path.{◌≡◌, refl, sym, ap, ◌∙◌}
use mathlib.Core.Logic.{inl, inr}
use mathlib.Core.Bool.{Bool, false}
use mathlib.Core.Option.{Option, none, some}
use mathlib.Core.List.{List, [], ◌∷◌, ◌++◌, Memᴰ, append-nil, append_assoc}
use native.Mathlib.Omega.{arith}
use dingolytics_backend.Base.Tests.{if◌then◌else◌, Eq, ◌==◌, is_some, Bool-cases}

abbrev pub Dict {ℓ κ} : Type ℓ → Type κ → Type (ℓ ⊔ κ)
Dict K V = List (K × V)

module _ {ℓ κ} {K : Type ℓ} {V : Type κ} where
  -- `list(d.keys())`
  abbrev pub keys : Dict K V → List K
  keys [] = []
  keys ((k, v) ∷ d) = k ∷ keys d

  -- `list(d.values())`
  abbrev pub values : Dict K V → List V
  values [] = []
  values ((k, v) ∷ d) = v ∷ values d

module _ {ℓ κ} {K : Type ℓ} {V : Type κ} ⦃e : Eq K⦄ where
  -- `d.get(k)`
  abbrev pub get : Dict K V → K → Option V
  get [] k = none
  get ((j, v) ∷ d) k = if j == k then some v else get d k

  -- `k in d`
  abbrev pub has_key : Dict K V → K → Bool
  has_key d k = is_some (get d k)

  -- `d[k] = v`
  abbrev pub put : Dict K V → K → V → Dict K V
  put [] k v = (k, v) ∷ []
  put ((j, w) ∷ d) k v = if j == k then (j, v) ∷ d else (j, w) ∷ put d k v

  -- `d.pop(k, None)`
  abbrev pub remove : Dict K V → K → Dict K V
  remove [] k = []
  remove ((j, w) ∷ d) k = let rest = remove d k in if j == k then rest else (j, w) ∷ rest

  pub get-put :
      (d : Dict K V) (k j : K) (v : V) → get (put d k v) j ≡ (if k == j then some v else get d j)
  get-put [] k j v = refl
  get-put ((i, w) ∷ d) k j v =
      ground (arith, e.beq_iff i k, e.beq_iff i j, e.beq_iff k j, get-put d k j v)

  pub get-remove :
      (d : Dict K V) (k j : K) → get (remove d k) j ≡ (if k == j then none else get d j)
  get-remove [] k j = ground arith
  get-remove ((i, w) ∷ d) k j =
      ground (arith, e.beq_iff i k, e.beq_iff i j, e.beq_iff k j, get-remove d k j)

  -- A present key has a value, and only such a key has one.
  pub get_of_key : (d : Dict K V) {k : K} → Memᴰ k (keys d) → (v : V) × (get d k ≡ some v)
  get_of_key ((j, w) ∷ d) {k} m = elim (Bool-cases (j == k)) [
    | inl same ↦ (w, rw same)
    | inr other ↦ rw other (get_of_key d (mem_rest m other))
  ]
    where
      mem_rest : Memᴰ k (j ∷ keys d) → (j == k) ≡ false → Memᴰ k (keys d)
      mem_rest (Memᴰ.head same) other = absurd (cc (other, (e.beq_iff j k).1 (sym same)))
      mem_rest (Memᴰ.tail n) other = n
  get_of_key [] m = elim m [ ]

  pub key_of_get : (d : Dict K V) (k : K) (v : V) → get d k ≡ some v → Memᴰ k (keys d)
  key_of_get [] k v h = cc
  key_of_get ((j, w) ∷ d) k v h = elim (Bool-cases (j == k)) [
    | inl same ↦ Memᴰ.head (sym ((e.beq_iff j k).0 same))
    | inr other ↦ Memᴰ.tail (key_of_get d k v (rw other at h))
  ]

  -- Each key stands once, as in every dictionary of Python.
  abbrev pub IsDict : Dict K V → Type 0
  IsDict [] = Unit
  IsDict ((k, v) ∷ d) = (has_key d k ≡ false) × IsDict d

  -- The items of the second dictionary are items of the first.
  abbrev pub Holds : Dict K V → Dict K V → Type κ
  Holds d [] = Unit
  Holds d ((k, v) ∷ items) = (get d k ≡ some v) × Holds d items

  -- No key of the second dictionary is a key of the first.
  abbrev pub IsFresh : Dict K V → Dict K V → Type 0
  IsFresh acc [] = Unit
  IsFresh acc ((k, v) ∷ items) = (has_key acc k ≡ false) × IsFresh acc items

  -- `for k, v in items: acc[k] = v`
  abbrev pub put_all : Dict K V → Dict K V → Dict K V
  put_all acc [] = acc
  put_all acc ((k, v) ∷ items) = put_all (put acc k v) items

  Holds-cons :
      (d : Dict K V) (j : K) (w : V) (items : Dict K V)
      → Holds d items
      → has_key items j ≡ false
      → Holds ((j, w) ∷ d) items
  Holds-cons d j w [] h absent = tt
  Holds-cons d j w ((k, v) ∷ items) h absent =
      (ground (arith, h.0, e.beq_iff j k, e.beq_iff k j), Holds-cons d j w items h.1 (ground arith))

  pub Holds-self : (d : Dict K V) → IsDict d → Holds d d
  Holds-self [] h = tt
  Holds-self ((k, v) ∷ d) h =
      (rw ((e.beq_iff k k).1 refl), Holds-cons d k v d (Holds-self d h.1) h.0)

  put_new : (d : Dict K V) (k : K) (v : V) → has_key d k ≡ false → put d k v ≡ d ++ (k, v) ∷ []
  put_new [] k v h = refl
  put_new ((j, w) ∷ d) k v h = ground (arith, put_new d k v)

  IsFresh-snoc :
      (acc : Dict K V) (k : K) (v : V) (items : Dict K V)
      → IsFresh acc items
      → has_key items k ≡ false
      → IsFresh (put acc k v) items
  IsFresh-snoc acc k v [] h absent = tt
  IsFresh-snoc acc k v ((j, w) ∷ items) h absent = (
    ground (arith, get-put acc k j v, h.0, e.beq_iff j k, e.beq_iff k j),
    IsFresh-snoc acc k v items h.1 (ground arith),
  )

  put_all_fresh :
      (acc items : Dict K V) → IsFresh acc items → IsDict items → put_all acc items ≡ acc ++ items
  put_all_fresh acc [] h d = sym (append-nil acc)
  put_all_fresh acc ((k, v) ∷ items) h d =
      put_all_fresh (put acc k v) items (IsFresh-snoc acc k v items h.1 d.0) d.1
      ∙ ap (λ l. l ++ items) (put_new acc k v h.0)
      ∙ append_assoc acc ((k, v) ∷ []) items

  IsFresh-nil : (items : Dict K V) → IsFresh [] items
  IsFresh-nil [] = tt
  IsFresh-nil ((k, v) ∷ items) = (refl, IsFresh-nil items)

  -- Building a dictionary anew from its items gives it back, in its order.
  pub put_all-nil : (items : Dict K V) → IsDict items → put_all [] items ≡ items
  put_all-nil items d = put_all_fresh [] items (IsFresh-nil items) d
