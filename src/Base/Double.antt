-- ===== src/Base/Double.antt =====
-- The doubles of the language, where the code rounds a product that a whole number of units would
-- round otherwise: an interface, and the laws of IEEE arithmetic that the proofs rely on.
use Prim.Native.Nat.{ℕ, ◌+◌, ◌*◌, ◌/◌, ◌^◌, ◌≤◌}
use native.Mathlib.Nat.{mul-le-mul_right, mul-le-mul_left}
use mathlib.Core.Path.{◌≡◌, refl}
use mathlib.Core.Logic.{◌⊎◌}
use mathlib.Core.Bool.{Bool, true}
use native.Mathlib.Omega.{arith}
use mmorpg_design_documents.Base.Int.{
  ℤ, pos, negsuc, pos_part, neg_part, ◌+ℤ◌, ◌-ℤ◌, ◌*ℤ◌, ◌≤ℤ◌, floor_div, leb_ℤ, int_laws,
}

-- `whole n` is an integer as a double, `decimal m k` the literal of value m / 10^k; `pow`,
-- `ceil`, `floor` and `round` are `Math.pow`, `Math.ceil`, `Math.floor` and `Math.round` of finite
-- doubles.
pub record Double {κ} (W : Type κ) : Type κ where
  pub whole : ℤ → W
  pub decimal : ℕ → ℕ → W
  pub add : W → W → W
  pub sub : W → W → W
  pub mul : W → W → W
  pub div : W → W → W
  pub pow : W → W → W
  pub ceil : W → ℤ
  pub floor : W → ℤ
  pub round : W → ℤ
  pub at_most : W → W → Bool

module _ {κ} {W : Type κ} ⦃doubles : Double W⦄ where
  infix 4 ◌≲◌
  abbrev pub ◌≲◌ : W → W → Type 0
  x ≲ y = doubles.at_most x y ≡ true

-- An integer whose sums and differences with another such are exact doubles.
abbrev pub Exact : ℤ → Type 0
Exact a = pos_part a + neg_part a ≤ 2 ^ 52

-- The order of finite doubles is total. Rounding keeps the order, so sums and products by what is
-- not negative do; one and zero act as they should; a whole number is rounded to itself, as those of
-- up to fifty-three bits are, and the times and days of the program have far fewer.
pub record IsRounded {κ} (W : Type κ) ⦃d : Double W⦄ : Type κ where
  pub whole_mono : (a b : ℤ) → a ≤ℤ b → d.whole a ≲ d.whole b
  pub sub_mono : (x y z : W) → y ≲ z → d.sub y x ≲ d.sub z x
  pub sub_le : (x y : W) → d.whole (pos 0) ≲ y → d.sub x y ≲ x
  pub add_mono : (x y z : W) → y ≲ z → d.add x y ≲ d.add x z
  pub mul_mono : (x y z : W) → d.whole (pos 0) ≲ x → y ≲ z → d.mul x y ≲ d.mul x z
  pub scale_mono : (x y z : W) → d.whole (pos 0) ≲ z → x ≲ y → d.mul x z ≲ d.mul y z
  pub ceil_mono : (x y : W) → x ≲ y → d.ceil x ≤ℤ d.ceil y
  pub round_mono : (x y : W) → x ≲ y → d.round x ≤ℤ d.round y
  pub at_most_total : (x y : W) → (x ≲ y) ⊎ (y ≲ x)
  pub at_most_trans : (a b c : W) → a ≲ b → b ≲ c → a ≲ c
  pub decimal_nonneg : (m k : ℕ) → d.whole (pos 0) ≲ d.decimal m k
  pub zero-mul : (x : W) → d.mul (d.whole (pos 0)) x ≡ d.whole (pos 0)
  pub add_mono_left : (x y z : W) → x ≲ y → d.add x z ≲ d.add y z
  pub div_mono : (x y z : W) → d.whole (pos 1) ≲ z → x ≲ y → d.div x z ≲ d.div y z
  pub one-mul : (x : W) → d.mul (d.whole (pos 1)) x ≡ x
  pub whole-add : (a b : ℤ) → Exact a → Exact b → d.add (d.whole a) (d.whole b) ≡ d.whole (a +ℤ b)
  pub whole-sub : (a b : ℤ) → Exact a → Exact b → d.sub (d.whole a) (d.whole b) ≡ d.whole (a -ℤ b)
  pub add-zero : (x : W) → d.add x (d.whole (pos 0)) ≡ x
  pub mul-one : (x : W) → d.mul x (d.whole (pos 1)) ≡ x
  pub ceil-whole : (a : ℤ) → d.ceil (d.whole a) ≡ a
  pub round-whole : (a : ℤ) → d.round (d.whole a) ≡ a

-- Whole numbers meet the laws, with a decimal cut off at its point.
instance abbrev pub whole_double : Double ℤ
whole_double = record {
  whole = λ a. a;
  decimal = λ m k. pos (m / 10 ^ k);
  add = λ a b. a +ℤ b;
  sub = λ a b. a -ℤ b;
  mul = λ a b. a *ℤ b;
  div = λ a b. floor_div a (pos_part b);
  pow = λ a b. pos (pos_part a ^ pos_part b);
  ceil = λ a. a;
  floor = λ a. a;
  round = λ a. a;
  at_most = leb_ℤ;
}

times_parts :
    (x : ℤ) (a : ℕ)
    → pos_part (x *ℤ pos a) + neg_part x * a ≡ neg_part (x *ℤ pos a) + pos_part x * a
unfolding ◌*ℤ◌
times_parts x a = ground arith

parts_times :
    (a : ℕ) (x : ℤ)
    → pos_part (pos a *ℤ x) + a * neg_part x ≡ neg_part (pos a *ℤ x) + a * pos_part x
unfolding ◌*ℤ◌
parts_times a x = ground arith

int_scale_mono : (x y z : ℤ) → pos 0 ≤ℤ z → x ≤ℤ y → x *ℤ z ≤ℤ y *ℤ z
int_scale_mono x y (pos a) k h = grind (
  arith,
  times_parts x a,
  times_parts y a,
  mul-le-mul_right {m = pos_part x + neg_part y} {n = pos_part y + neg_part x} a h,
)
int_scale_mono x y (negsuc a) k h = absurd (omega arith)

pub int_mul_mono : (x y z : ℤ) → pos 0 ≤ℤ x → y ≤ℤ z → x *ℤ y ≤ℤ x *ℤ z
int_mul_mono (pos a) y z k h = grind (
  arith,
  parts_times a y,
  parts_times a z,
  mul-le-mul_left {m = pos_part y + neg_part z} {n = pos_part z + neg_part y} a h,
)
int_mul_mono (negsuc a) y z k h = absurd (omega arith)

pub int_mul-one : (x : ℤ) → x *ℤ pos 1 ≡ x
unfolding ◌*ℤ◌
int_mul-one x = ground arith

int_zero-mul : (x : ℤ) → pos 0 *ℤ x ≡ pos 0
unfolding ◌*ℤ◌
int_zero-mul x = ground arith

below : (a b : ℤ) → leb_ℤ a b ≡ true → a ≤ℤ b
below a b h = ground arith

above : (a b : ℤ) → a ≤ℤ b → leb_ℤ a b ≡ true
above a b h = ground arith

int_trans : (x y z : ℤ) → x ≤ℤ y → y ≤ℤ z → x ≤ℤ z
int_trans x y z h k = omega arith

int_total : (x y : ℤ) → (leb_ℤ x y ≡ true) ⊎ (leb_ℤ y x ≡ true)
int_total x y = ground arith

int_sub_mono : (x y z : ℤ) → y ≤ℤ z → y -ℤ x ≤ℤ z -ℤ x
int_sub_mono x y z h = omega int_laws

int_sub_le : (x y : ℤ) → pos 0 ≤ℤ y → x -ℤ y ≤ℤ x
int_sub_le x y h = omega int_laws

int_add_mono : (x y z : ℤ) → y ≤ℤ z → x +ℤ y ≤ℤ x +ℤ z
int_add_mono x y z h = omega int_laws

int_add-zero : (x : ℤ) → x +ℤ pos 0 ≡ x
unfolding ◌+ℤ◌
int_add-zero x = ground arith

int_add_mono_left : (x y z : ℤ) → x ≤ℤ y → x +ℤ z ≤ℤ y +ℤ z
int_add_mono_left x y z h = omega int_laws

floor_div_mono : (x y : ℤ) (n : ℕ) → x ≤ℤ y → floor_div x n ≤ℤ floor_div y n
unfolding floor_div
floor_div_mono (pos a) (pos b) n h = grind arith
floor_div_mono (pos a) (negsuc b) n h = absurd (omega arith)
floor_div_mono (negsuc a) (pos b) n h = omega arith
floor_div_mono (negsuc a) (negsuc b) n h = grind arith

int_one-mul : (x : ℤ) → pos 1 *ℤ x ≡ x
unfolding ◌*ℤ◌
int_one-mul x = ground arith

pub whole_double-IsRounded : IsRounded ℤ
whole_double-IsRounded = record {
  whole_mono = above;
  at_most_trans = λ x y z h k. above x z (int_trans x y z (below x y h) (below y z k));
  at_most_total = int_total;
  sub_mono = λ x y z h. above (y -ℤ x) (z -ℤ x) (int_sub_mono x y z (below y z h));
  sub_le = λ x y h. above (x -ℤ y) x (int_sub_le x y (below (pos 0) y h));
  add_mono = λ x y z h. above (x +ℤ y) (x +ℤ z) (int_add_mono x y z (below y z h));
  mul_mono =
      λ x y z h k. above (x *ℤ y) (x *ℤ z) (int_mul_mono x y z (below (pos 0) x h) (below y z k));
  scale_mono =
      λ x y z h k. above (x *ℤ z) (y *ℤ z) (int_scale_mono x y z (below (pos 0) z h) (below x y k));
  ceil_mono = below;
  round_mono = below;
  decimal_nonneg = λ m k. above (pos 0) (pos (m / 10 ^ k)) (omega arith);
  zero-mul = int_zero-mul;
  add_mono_left = λ x y z h. above (x +ℤ z) (y +ℤ z) (int_add_mono_left x y z (below x y h));
  div_mono = λ x y z h k.
      above (floor_div x (pos_part z)) (floor_div y (pos_part z))
        (floor_div_mono x y (pos_part z) (below x y k));
  one-mul = int_one-mul;
  whole-add = λ a b p q. refl;
  whole-sub = λ a b p q. refl;
  add-zero = int_add-zero;
  mul-one = int_mul-one;
  ceil-whole = λ a. refl;
  round-whole = λ a. refl;
}
