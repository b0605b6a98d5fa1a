-- ===== src/Base/Dict.antt =====
-- A JavaScript `Map`, in insertion order: `set` on a key that is there keeps its place.

use mathlib.Core.Path.{◌≡◌, refl, subst}
use mathlib.Core.Logic.{inl, inr}
use mathlib.Core.Option.{Option, none, some}
use mathlib.Core.List.{List, [], ◌∷◌}
use native.Mathlib.Omega.{arith}
use mmorpg_design_documents.Base.Tests.{if◌then◌else◌, Bool-cases}
use mmorpg_design_documents.Base.Int.{ℤ, pos, ◌+ℤ◌, int_laws}
use mmorpg_design_documents.Base.Key.{Comparable, ◌==◌, eq_lem, eq_self}

abbrev pub Dict {ℓ κ} : Type ℓ → Type κ → Type (ℓ ⊔ κ)
Dict K V = List (K × V)

abbrev pub values {ℓ κ} : {K : Type ℓ} {V : Type κ} → Dict K V → List V
values [] = []
values (e ∷ d) = e.1 ∷ values d

-- A pass over `map.values()` that changes the objects in place.
abbrev pub map_values {ℓ κ} : {K : Type ℓ} {V : Type κ} → (V → V) → Dict K V → Dict K V
map_values f [] = []
map_values f (e ∷ d) = (e.0, f e.1) ∷ map_values f d

module _ {ℓ κ} {K : Type ℓ} {V : Type κ} ⦃e : Comparable K⦄ where
  -- `map.get(k)`
  unfoldable pub lookup : K → Dict K V → Option V
  lookup k [] = none
  lookup k (x ∷ d) = if k == x.0 then some x.1 else lookup k d

  -- `map.set(k, v)`
  unfoldable pub insert : K → V → Dict K V → Dict K V
  insert k v [] = (k, v) ∷ []
  insert k v (x ∷ d) = if k == x.0 then (k, v) ∷ d else x ∷ insert k v d

  -- `map.delete(k)`
  unfoldable pub remove : K → Dict K V → Dict K V
  remove k [] = []
  remove k (x ∷ d) = let rest = remove k d in if k == x.0 then rest else x ∷ rest

  pub lookup-insert :
      (j k : K) (v : V) (d : Dict K V)
      → lookup j (insert k v d) ≡ (if j == k then some v else lookup j d)
  unfolding lookup insert
  lookup-insert j k v [] = refl
  lookup-insert j k v (x ∷ d) =
      ground (arith, eq_lem j k, eq_lem k x.0, eq_lem j x.0, lookup-insert j k v d)

  pub lookup-insert_self : (k : K) (v : V) (d : Dict K V) → lookup k (insert k v d) ≡ some v
  lookup-insert_self k v d = rw (lookup-insert k k v d, eq_self k)

  pub lookup-map_values :
      (k : K) (f : V → V) (d : Dict K V)
      → lookup k (map_values f d) ≡ elim (lookup k d) [ none ↦ none | some v ↦ some (f v) ]
  unfolding lookup
  lookup-map_values k f [] = refl
  lookup-map_values k f (x ∷ d) = ground (arith, lookup-map_values k f d)

  pub lookup-remove :
      (j k : K) (d : Dict K V) → lookup j (remove k d) ≡ (if j == k then none else lookup j d)
  unfolding lookup remove
  lookup-remove j k [] = ground arith
  lookup-remove j k (x ∷ d) =
      ground (arith, eq_lem j k, eq_lem k x.0, eq_lem j x.0, lookup-remove j k d)

-- Every value of the map has the property.
abbrev pub Every {ℓ κ μ} : {K : Type ℓ} {V : Type κ} → (V → Type μ) → Dict K V → Type μ
Every P [] = Unit
Every P (x ∷ d) = P x.1 × Every P d

module _ {ℓ κ μ} {K : Type ℓ} {V : Type κ} ⦃e : Comparable K⦄ (P : V → Type μ) where
  pub insert-Every : (k : K) (v : V) (d : Dict K V) → P v → Every P d → Every P (insert k v d)
  unfolding insert
  insert-Every k v [] p h = (p, tt)
  insert-Every k v (x ∷ d) p h = elim (Bool-cases (k == x.0)) [
    | inl same ↦ rw same (p, h.1)
    | inr other ↦ rw other (h.0, insert-Every k v d p h.1)
  ]

  pub lookup-Every : (k : K) (v : V) (d : Dict K V) → Every P d → lookup k d ≡ some v → P v
  unfolding lookup
  lookup-Every k v [] h q = absurd (cc)
  lookup-Every k v (x ∷ d) h q = elim (Bool-cases (k == x.0)) [
    | inl same ↦ subst P (cc) h.0
    | inr other ↦ lookup-Every k v d h.1 (rw other at q)
  ]

-- The sum of a figure over the values.
abbrev pub sum_by {ℓ κ} : {K : Type ℓ} {V : Type κ} → (V → ℤ) → Dict K V → ℤ
sum_by f [] = pos 0
sum_by f (x ∷ d) = f x.1 +ℤ sum_by f d

abbrev pub figure {κ} : {V : Type κ} → (V → ℤ) → Option V → ℤ
figure f none = pos 0
figure f (some v) = f v

module _ {ℓ κ} {K : Type ℓ} {V : Type κ} ⦃e : Comparable K⦄ (f : V → ℤ) where
  pub sum_by-insert :
      (k : K) (v : V) (d : Dict K V)
      → sum_by f (insert k v d) +ℤ figure f (lookup k d) ≡ sum_by f d +ℤ f v
  unfolding insert lookup
  sum_by-insert k v [] = omega int_laws
  sum_by-insert k v (x ∷ d) = elim (Bool-cases (k == x.0)) [
    | inl same ↦ rw same (omega int_laws)
    | inr other ↦ rw other (grind (int_laws, sum_by-insert k v d))
  ]
