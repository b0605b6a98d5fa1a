-- ===== src/Needs/Bounds.antt =====
-- server/src/modules/needs/needs.service.ts: the range of the needs and of the modifier.
use mmorpg_design_documents.Base.{
  ℕ, ◌+◌, ◌-◌, ◌*◌, ◌/◌, ◌≤◌, ltb, leb, Bool, true, false, ◌≡◌, inl, inr, Option-cases, [], ◌∷◌,
  String, arith, if◌then◌else◌,
}
use mmorpg_design_documents.Base.Int.{
  ℤ, pos, negsuc, ◌+ℤ◌, ◌-ℤ◌, ◌*ℤ◌, ◌≤ℤ◌, floor_div, min_ℤ, max_ℤ,
}
use mmorpg_design_documents.Base.Key.{string_eq}
use mmorpg_design_documents.Base.Dict.{lookup, Every, insert-Every, lookup-Every}
use mmorpg_design_documents.Events.{DomainEventBus}
use mmorpg_design_documents.Needs.{
  NeedDimension, nutrition, fatigue, hygiene, morale, belonging, CharacterNeeds, NeedsStore,
  same_dimension, default_decay_rates, init_needs, get_needs, modifier_of, decayed, decay_needs,
  adjust_need,
}

-- Every need lies between 0 and 100.
pub record InRange (n : CharacterNeeds) : Type 0 where
  pub lower : (d : NeedDimension) → pos 0 ≤ℤ n.value d
  pub upper : (d : NeedDimension) → n.value d ≤ℤ pos 100

clamped :
    (x : ℤ)
    → (pos 0 ≤ℤ max_ℤ (pos 0) (min_ℤ (pos 100) x)) × (max_ℤ (pos 0) (min_ℤ (pos 100) x) ≤ℤ pos 100)
clamped x = ground arith

lowered :
    (x r : ℤ)
    → pos 0 ≤ℤ r
    → x ≤ℤ pos 100
    → (pos 0 ≤ℤ max_ℤ (pos 0) (x -ℤ r)) × (max_ℤ (pos 0) (x -ℤ r) ≤ℤ pos 100)
unfolding ◌-ℤ◌
lowered x r h k = ground arith

rate_nonneg : (d : NeedDimension) → pos 0 ≤ℤ default_decay_rates d
rate_nonneg nutrition = omega arith
rate_nonneg fatigue = omega arith
rate_nonneg hygiene = omega arith
rate_nonneg morale = omega arith
rate_nonneg belonging = omega arith

get_needs-InRange :
    (now : ℕ) (c : String) (s : NeedsStore)
    → Every InRange s
    → InRange (get_needs now c s).0 × Every InRange (get_needs now c s).1
unfolding get_needs
get_needs-InRange now c s h = elim (Option-cases (lookup c s)) [
  | inl e ↦
      rw (e, get_needs) (new_needs, insert-Every InRange c (init_needs now c s).0 s new_needs h)
  | inr (n, e) ↦ rw (e, get_needs) (lookup-Every InRange c n s h e, h)
]
  where
    new_needs : InRange (init_needs now c s).0
    new_needs = record { lower = λ d. omega arith; upper = λ d. omega arith }

-- Where every need of every character lies between 0 and 100, so it does after a need is adjusted
-- by any amount, up or down, also of a character that the store does not hold yet.
pub adjust_need-InRange :
    (now : ℕ) (c : String) (d : NeedDimension) (delta : ℤ) (s : NeedsStore)
    → Every InRange s
    → Every InRange (adjust_need now c d delta s)
unfolding adjust_need
adjust_need-InRange now c d delta s h =
    let (own, rest) = get_needs-InRange now c s h in
    insert-Every InRange c _ _
      (record {
        lower = λ e. lower own e (same_dimension e d);
        upper = λ e. upper own e (same_dimension e d);
      })
      rest
  where
    lower :
        {n : CharacterNeeds}
        → InRange n
        → (e : NeedDimension) (b : Bool)
        → pos 0 ≤ℤ (if b then max_ℤ (pos 0) (min_ℤ (pos 100) (n.value e +ℤ delta)) else n.value e)
    lower {n} own e true = (clamped (n.value e +ℤ delta)).0
    lower own e false = own.lower e

    upper :
        {n : CharacterNeeds}
        → InRange n
        → (e : NeedDimension) (b : Bool)
        → (if b then max_ℤ (pos 0) (min_ℤ (pos 100) (n.value e +ℤ delta)) else n.value e) ≤ℤ pos 100
    upper {n} own e true = (clamped (n.value e +ℤ delta)).1
    upper own e false = own.upper e

decayed-InRange : (now : ℕ) (n : CharacterNeeds) → InRange n → InRange (decayed now n)
unfolding decayed
decayed-InRange now n h = record {
  lower = λ d. (lowered (n.value d) (default_decay_rates d) (rate_nonneg d) (h.upper d)).0;
  upper = λ d. (lowered (n.value d) (default_decay_rates d) (rate_nonneg d) (h.upper d)).1;
}

-- Where every need of every character lies between 0 and 100, so it does after a day's decay.
pub decay_needs-InRange :
    (now : ℕ) (day : ℤ) (s : NeedsStore) (bus : DomainEventBus)
    → Every InRange s
    → Every InRange (decay_needs now day s bus).1
unfolding decay_needs
decay_needs-InRange now day [] bus h = tt
decay_needs-InRange now day (e ∷ s) bus h =
    (decayed-InRange now e.1 h.0, decay_needs-InRange now day s _ h.1)

-- The modifier of a sum that is not negative, as a natural number.
abbrev scale : ℕ → ℕ
scale n = if ltb n 50 then 70 else if leb 500 n then 110 else 70 + (8 * (n - 50) + 45) / 90

modifier_of-pos : (n : ℕ) → modifier_of (pos n) ≡ pos (scale n)
unfolding modifier_of ◌*ℤ◌ ◌+ℤ◌ ◌-ℤ◌ floor_div
modifier_of-pos n = ground arith

modifier_of-negsuc : (n : ℕ) → modifier_of (negsuc n) ≡ pos 70
unfolding modifier_of ◌*ℤ◌
modifier_of-negsuc n = ground arith

scale_bounds : (n : ℕ) → (70 ≤ scale n) × (scale n ≤ 110)
scale_bounds n = ground arith

scale_mono : (n m : ℕ) → n ≤ m → scale n ≤ scale m
scale_mono n m h = ground arith

-- The modifier lies between 0.70 and 1.10, whatever the needs are, and more of the needs never
-- lowers it.
pub modifier_of_bounds :
    (a b : ℤ)
    → a ≤ℤ b
    → (pos 70 ≤ℤ modifier_of a) × (modifier_of a ≤ℤ modifier_of b) × (modifier_of b ≤ℤ pos 110)
modifier_of_bounds (pos n) (pos m) h =
    rw (modifier_of-pos n, modifier_of-pos m)
      (omega (arith, scale_bounds n, scale_bounds m, scale_mono n m (omega arith)))
modifier_of_bounds (pos n) (negsuc m) h = absurd (omega arith)
modifier_of_bounds (negsuc n) (pos m) h =
    rw (modifier_of-negsuc n, modifier_of-pos m) (omega (arith, scale_bounds m))
modifier_of_bounds (negsuc n) (negsuc m) h =
    rw (modifier_of-negsuc n, modifier_of-negsuc m) (omega arith)
