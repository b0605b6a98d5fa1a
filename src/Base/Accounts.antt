-- ===== src/Base/Accounts.antt =====
-- Maps from a holder to an amount, where a missing entry counts as 0.
use mathlib.Core.Path.{◌≡◌, refl}
use mathlib.Core.Logic.{inl, inr}
use mathlib.Core.Option.{Option, none, some}
use native.Mathlib.Omega.{arith}
use mmorpg_design_documents.Base.Tests.{Option-cases}
use mmorpg_design_documents.Base.Int.{ℤ, pos, ◌+ℤ◌, ◌-ℤ◌, ◌≤ℤ◌, int_laws}
use mmorpg_design_documents.Base.Key.{Comparable}
use mmorpg_design_documents.Base.Dict.{
  Dict, lookup, insert, Every, insert-Every, lookup-Every, sum_by, figure, sum_by-insert,
}

-- `o ?? 0`
abbrev pub or_zero : Option ℤ → ℤ
or_zero none = pos 0
or_zero (some b) = b

abbrev identity : ℤ → ℤ
identity b = b

figure-or_zero : (o : Option ℤ) → figure identity o ≡ or_zero o
figure-or_zero none = refl
figure-or_zero (some b) = refl

abbrev pub NonNegative : ℤ → Type 0
NonNegative b = pos 0 ≤ℤ b

module _ {ℓ} {K : Type ℓ} where
  -- All the amounts together.
  unfoldable pub total : Dict K ℤ → ℤ
  total d = sum_by identity d

module _ {ℓ} {K : Type ℓ} ⦃e : Comparable K⦄ where
  pub total-credit :
      (k : K) (a : ℤ) (d : Dict K ℤ) → total (insert k (or_zero (lookup k d) +ℤ a) d) ≡ total d +ℤ a
  unfolding total
  total-credit k a d = grind (
    int_laws,
    sum_by-insert identity k (or_zero (lookup k d) +ℤ a) d,
    figure-or_zero (lookup k d),
  )

  pub total-debit :
      (k : K) (a : ℤ) (d : Dict K ℤ) → total (insert k (or_zero (lookup k d) -ℤ a) d) ≡ total d -ℤ a
  unfolding total
  total-debit k a d = grind (
    int_laws,
    sum_by-insert identity k (or_zero (lookup k d) -ℤ a) d,
    figure-or_zero (lookup k d),
  )

  pub or_zero-nonneg : (k : K) (d : Dict K ℤ) → Every NonNegative d → pos 0 ≤ℤ or_zero (lookup k d)
  or_zero-nonneg k d h = elim (Option-cases (lookup k d)) [
    | inl e ↦ rw e (omega arith)
    | inr (b, e) ↦ rw e (lookup-Every NonNegative k b d h e)
  ]

  pub credit-nonneg :
      (k : K) (a : ℤ) (d : Dict K ℤ)
      → pos 0 ≤ℤ a
      → Every NonNegative d
      → Every NonNegative (insert k (or_zero (lookup k d) +ℤ a) d)
  credit-nonneg k a d p h =
      insert-Every NonNegative k _ d (omega (int_laws, or_zero-nonneg k d h)) h

  pub debit-nonneg :
      (k : K) (a : ℤ) (d : Dict K ℤ)
      → a ≤ℤ or_zero (lookup k d)
      → Every NonNegative d
      → Every NonNegative (insert k (or_zero (lookup k d) -ℤ a) d)
  debit-nonneg k a d p h = insert-Every NonNegative k _ d (omega int_laws) h
