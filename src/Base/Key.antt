-- ===== src/Base/Key.antt =====
-- What the maps of the program are keyed by: texts, and the ids that the services issue.
use Prim.Native.Nat.{ℕ}
use Prim.Native.String.{String}
use mathlib.Core.Path.{◌≡◌, refl}
use mathlib.Core.Logic.{◌↔◌, ◌≢◌}
use mathlib.Core.Bool.{Bool, true, false, ◌&&◌}
use native.Mathlib.Omega.{arith}
use text.Mathlib.Text.{◌==◌ as string_beq}
use text.Mathlib.TextEquality.{eq_iff}
use mmorpg_design_documents.Base.Tests.{nat_eq, nat_eq_iff}

-- A type whose values `===` compares by content.
pub record Comparable {κ} (K : Type κ) : Type κ where
  pub same : K → K → Bool
  pub same_sound : (j k : K) → same j k ≡ true → j ≡ k
  pub same_self : (k : K) → same k k ≡ true

module _ {κ} {K : Type κ} ⦃c : Comparable K⦄ where
  infix 50 ◌==◌
  abbrev pub ◌==◌ : K → K → Bool
  j == k = c.same j k

  pub eq_self : (k : K) → (k == k) ≡ true
  eq_self = c.same_self

  -- `==` as the tactics want it, at the instance in scope.
  pub eq_lem : (j k : K) → ((j == k) ≡ true) ↔ (j ≡ k)
  eq_lem j k = (c.same_sound j k, λ q. rw q (c.same_self k))

  pub ne_of_beq : (j k : K) → (j == k) ≡ false → j ≢ k
  ne_of_beq j k h q = cc (h, (eq_lem j k).1 q)

  pub eq_sym : (j k : K) → (j == k) ≡ (k == j)
  eq_sym j k = ground (arith, eq_lem j k, eq_lem k j)

instance abbrev pub string_eq : Comparable String
string_eq = record {
  same = string_beq;
  same_sound = λ a b. (eq_iff a b).0;
  same_self = λ a. (eq_iff a a).1 refl;
}

instance abbrev pub number_eq : Comparable ℕ
number_eq = record {
  same = nat_eq;
  same_sound = λ n m. (nat_eq_iff n m).0;
  same_self = λ n. (nat_eq_iff n n).1 refl;
}

-- `issued p t n` is the text `${p}_${Date.now()}_${idCounter}` with t and n the two numbers;
-- `chosen s` is an id or key that a caller chose.
pub data EntityId : Type 0 where
  issued : String → ℕ → ℕ → EntityId
  chosen : String → EntityId

unfoldable pub entity_beq : EntityId → EntityId → Bool
entity_beq (issued p s n) (issued q t m) = string_beq p q && (nat_eq s t && nat_eq n m)
entity_beq (issued p s n) (chosen b) = false
entity_beq (chosen a) (issued q t m) = false
entity_beq (chosen a) (chosen b) = string_beq a b

pub entity_beq_iff : (a b : EntityId) → (entity_beq a b ≡ true) ↔ (a ≡ b)
unfolding entity_beq
entity_beq_iff (issued p s n) (issued q t m) = ground (arith, eq_iff p q)
entity_beq_iff (issued p s n) (chosen b) = ground arith
entity_beq_iff (chosen a) (issued q t m) = ground arith
entity_beq_iff (chosen a) (chosen b) = ground (arith, eq_iff a b)

instance abbrev pub entity_eq : Comparable EntityId
entity_eq = record {
  same = entity_beq;
  same_sound = λ a b. (entity_beq_iff a b).0;
  same_self = λ a. (entity_beq_iff a a).1 refl;
}
