-- ===== src/Base/Maps.antt =====
-- Go maps as association lists: a missing key reads as nothing, a write replaces, `delete` drops.
use mathlib.Core.Path.{◌≡◌, refl}
use mathlib.Core.Logic.{◌≢◌}
use mathlib.Core.Bool.{Bool, false, ◌||◌}
use mathlib.Core.Option.{Option, none, some}
use mathlib.Core.List.{List, [], ◌∷◌}
use native.Mathlib.Omega.{arith}
use go_es_light.Base.Lists.{All}
use go_es_light.Base.Tests.{if◌then◌else◌, Eq, ◌==◌, beq_self}

abbrev pub Map {ℓ κ} : Type ℓ → Type κ → Type (ℓ ⊔ κ)
Map K V = List (K × V)

abbrev pub get_or {ℓ} : {A : Type ℓ} → A → Option A → A
get_or d none = d
get_or d (some a) = a

module _ {ℓ κ} {K : Type ℓ} {V : Type κ} ⦃e : Eq K⦄ where
  -- v, ok := m[k]
  unfoldable pub lookup : K → Map K V → Option V
  lookup key [] = none
  lookup key ((i, val) ∷ rest) = if i == key then some val else lookup key rest

  -- m[k] = v
  unfoldable pub insert : K → V → Map K V → Map K V
  insert key new [] = (key, new) ∷ []
  insert key new ((i, val) ∷ rest) =
      if i == key then (key, new) ∷ rest else (i, val) ∷ insert key new rest

  -- delete(m, k)
  unfoldable pub delete : K → Map K V → Map K V
  delete k [] = []
  delete k ((j, w) ∷ m) = let rest = delete k m in if j == k then rest else (j, w) ∷ rest

  -- v := m[k], with the zero value for a missing key
  unfoldable pub lookup_or : V → K → Map K V → V
  lookup_or d k m = get_or d (lookup k m)

  pub lookup-insert :
      (key other : K) (new : V) (m : Map K V)
      → lookup other (insert key new m) ≡ (if key == other then some new else lookup other m)
  unfolding lookup insert
  lookup-insert key other new [] = refl
  lookup-insert key other new ((i, val) ∷ rest) = ground (
    arith,
    lookup-insert key other new rest,
    e.beq_iff i key,
    e.beq_iff i other,
    e.beq_iff key other,
  )

  pub lookup-insert_self : (k : K) (v : V) (m : Map K V) → lookup k (insert k v m) ≡ some v
  lookup-insert_self k v m = rw (lookup-insert, beq_self k)

  pub lookup_or-insert :
      (d : V) (k j : K) (v : V) (m : Map K V)
      → lookup_or d j (insert k v m) ≡ (if k == j then v else lookup_or d j m)
  unfolding lookup_or
  lookup_or-insert d k j v m = ground (arith, lookup-insert k j v m)

  pub lookup_or-insert_self :
      (d : V) (k : K) (v : V) (m : Map K V) → lookup_or d k (insert k v m) ≡ v
  lookup_or-insert_self d k v m = rw (lookup_or-insert, beq_self k)

  pub lookup-delete :
      (k j : K) (m : Map K V) → lookup j (delete k m) ≡ (if k == j then none else lookup j m)
  unfolding lookup delete
  lookup-delete k j [] = ground arith
  lookup-delete k j ((i, w) ∷ m) =
      ground (arith, e.beq_iff k j, e.beq_iff i k, e.beq_iff i j, lookup-delete k j m)

  pub lookup-delete_self : (k : K) (m : Map K V) → lookup k (delete k m) ≡ none
  lookup-delete_self k m = rw (lookup-delete, beq_self k)

abbrev pub keys {ℓ κ} : {K : Type ℓ} {V : Type κ} → Map K V → List K
keys [] = []
keys ((k, v) ∷ m) = k ∷ keys m

abbrev pub contains {ℓ} : {A : Type ℓ} ⦃e : Eq A⦄ → A → List A → Bool
contains a [] = false
contains a (x ∷ xs) = (x == a) || contains a xs

-- No key of a Go map comes twice.
abbrev pub Distinct {ℓ} : {A : Type ℓ} → List A → Type ℓ
Distinct [] = Unit
Distinct (x ∷ xs) = All (λ y. y ≢ x) xs × Distinct xs

module _ {ℓ κ} {K : Type ℓ} {V : Type κ} ⦃e : Eq K⦄ where
  pub lookup_or-delete :
      (d : V) (k j : K) (m : Map K V)
      → lookup_or d j (delete k m) ≡ (if k == j then d else lookup_or d j m)
  unfolding lookup_or
  lookup_or-delete d k j m = ground (arith, lookup-delete k j m)

  pub lookup_absent : (k : K) (m : Map K V) → contains k (keys m) ≡ false → lookup k m ≡ none
  unfolding lookup
  lookup_absent k [] h = refl
  lookup_absent k ((j, w) ∷ m) h = ground (arith, lookup_absent k m)

  -- A write to a key that is there leaves the keys and their order.
  pub keys-insert :
      (k : K) (v w : V) (m : Map K V) → lookup k m ≡ some w → keys (insert k v m) ≡ keys m
  unfolding lookup insert
  keys-insert k v w [] h = cc
  keys-insert k v w ((j, x) ∷ m) h = ground (arith, e.beq_iff j k, keys-insert k v w m)

module _ {ℓ} {A : Type ℓ} ⦃e : Eq A⦄ where
  -- What differs from all elements is not among them.
  pub contains-All : (x : A) (xs : List A) → All (λ y. y ≢ x) xs → contains x xs ≡ false
  contains-All x [] h = refl
  contains-All x (y ∷ ys) h = ground (arith, e.beq_iff y x, h.0, contains-All x ys h.1)

module _ {ℓ κ} {K : Type ℓ} {V : Type κ} ⦃e : Eq K⦄ where
  -- A write leaves the other keys alone.
  pub lookup-insert_other :
      (key other : K) (new : V) (m : Map K V)
      → other ≢ key
      → lookup other (insert key new m) ≡ lookup other m
  lookup-insert_other key other new m h =
      rw (lookup-insert key other new m) (ground (arith, e.beq_iff key other))
