-- ===== src/Needs/Decay.antt =====
-- server/src/modules/needs/needs.service.ts: the daily decay and its warnings.
use mathlib.Core.List.{
  Mem, Mem-prop, mem-cons, mem-cons_self, mem-cons_of_mem, not-mem-nil, append_assoc, append-nil,
  map-append,
}
use mathlib.Core.Logic.Or
use mmorpg_design_documents.Base.{
  ℕ, suc, ◌+◌, ◌*◌, ◌≡◌, refl, subst, ◌∙◌, sym, ap, inl, inr, true, Bool-cases, some, List, [], ◌∷◌,
  ◌++◌, map, String, arith, if◌then◌else◌, if_elim,
}
use mmorpg_design_documents.Base.Int.{ℤ, pos, ◌-ℤ◌, ◌≤ℤ◌, ◌<ℤ◌, ltb_ℤ, max_ℤ}
use mmorpg_design_documents.Base.Key.{string_eq, ◌==◌}
use mmorpg_design_documents.Base.Dict.{lookup}
use mmorpg_design_documents.Events.{
  DomainEvent, DomainEventBus, Payload, publish, needs_critical_warning,
}
use mmorpg_design_documents.Needs.{
  NeedDimension, nutrition, fatigue, hygiene, morale, belonging, need_dimensions, dimension_text,
  CharacterNeeds, NeedsStore, default_decay_rates, critical_threshold, warn_each, trigger_warnings,
  decayed, decay_needs,
}

-- Days in a row, each with its time: the store and the bus after them.
pub decay_days : List (ℕ × ℤ) → NeedsStore → DomainEventBus → NeedsStore × DomainEventBus
decay_days [] s bus = (s, bus)
decay_days (d ∷ ds) s bus = let after = decay_needs d.0 d.1 s bus in decay_days ds after.1 after.2

abbrev pub days {ℓ} : {A : Type ℓ} → List A → ℕ
days [] = 0
days (d ∷ ds) = suc (days ds)

abbrev pub rate : NeedDimension → ℕ
rate nutrition = 15
rate fatigue = 12
rate hygiene = 8
rate morale = 5
rate belonging = 3

lookup-decay :
    (now : ℕ) (day : ℤ) (c : String) (s : NeedsStore) (bus : DomainEventBus) (n : CharacterNeeds)
    → lookup c s ≡ some n
    → lookup c (decay_needs now day s bus).1 ≡ some (decayed now n)
unfolding decay_needs lookup
lookup-decay now day c [] bus n h = absurd (cc)
lookup-decay now day c (e ∷ s) bus n h = elim (Bool-cases (c == e.0)) [
  | inl same ↦
      let own : e.1 ≡ n = cc (rw same at h) in
      rw same (ap (λ (v : CharacterNeeds). some (decayed now v)) own)
  | inr other ↦ rw other (lookup-decay now day c s _ n (rw other at h))
]

rate-eq : (d : NeedDimension) → default_decay_rates d ≡ pos (rate d)
rate-eq nutrition = refl
rate-eq fatigue = refl
rate-eq hygiene = refl
rate-eq morale = refl
rate-eq belonging = refl

decay_once :
    (x : ℤ) (r k m : ℕ)
    → pos 0 ≤ℤ x
    → m ≡ r + k
    → max_ℤ (pos 0) (max_ℤ (pos 0) (x -ℤ pos r) -ℤ pos k) ≡ max_ℤ (pos 0) (x -ℤ pos m)
unfolding ◌-ℤ◌
decay_once x r k m h e = ground arith

decay_none : (x : ℤ) (k : ℕ) → pos 0 ≤ℤ x → k ≡ 0 → x ≡ max_ℤ (pos 0) (x -ℤ pos k)
unfolding ◌-ℤ◌
decay_none x k h e = ground arith

rate-suc : (k : ℕ) (d : NeedDimension) → suc k * rate d ≡ rate d + k * rate d
rate-suc k nutrition = omega arith
rate-suc k fatigue = omega arith
rate-suc k hygiene = omega arith
rate-suc k morale = omega arith
rate-suc k belonging = omega arith

max-nonneg : (x : ℤ) → pos 0 ≤ℤ max_ℤ (pos 0) x
max-nonneg x = ground arith

-- After any number of days a need that was not negative has lost its rate for each day, down to 0
-- and no further.
pub decay_days-value :
    (ds : List (ℕ × ℤ)) (c : String) (s : NeedsStore) (bus : DomainEventBus) (n : CharacterNeeds)
    → lookup c s ≡ some n
    → ((d : NeedDimension) → pos 0 ≤ℤ n.value d)
    → (n' : CharacterNeeds) × (lookup c (decay_days ds s bus).0 ≡ some n')
      × ((d : NeedDimension) → n'.value d ≡ max_ℤ (pos 0) (n.value d -ℤ pos (days ds * rate d)))
unfolding decay_days decayed
decay_days-value [] c s bus n h p = (n, h, λ d. decay_none (n.value d) _ (p d) (omega arith))
decay_days-value (day ∷ ds) c s bus n h p =
    let after = decay_needs day.0 day.1 s bus in
    let (n', there, values) =
      decay_days-value ds c after.1 after.2 (decayed day.0 n) (lookup-decay day.0 day.1 c s bus n h)
        (λ d. max-nonneg (n.value d -ℤ default_decay_rates d)) in
    (
      n',
      there,
      λ d.
          values d
          ∙ rw (rate-eq d) (
              decay_once (n.value d) (rate d) (days ds * rate d) (days (day ∷ ds) * rate d) (p d)
                (rate-suc (days ds) d)),
    )

-- What the service warns of on a day: the dimensions below the threshold, in order.
abbrev pub warning : String → CharacterNeeds → ℤ → NeedDimension → Payload
warning c n day d =
    needs_critical_warning
      (record { character_id = c; dimension = dimension_text d; value = n.value d; game_day = day })

abbrev pub warnings : String → CharacterNeeds → ℤ → List NeedDimension → List Payload
warnings c n day [] = []
warnings c n day (d ∷ ds) =
    let rest = warnings c n day ds in
    if ltb_ℤ (n.value d) critical_threshold then warning c n day d ∷ rest else rest

abbrev pub payloads : DomainEventBus → List Payload
payloads bus = map (λ (e : DomainEvent). e.payload) bus.emitted

payloads-publish :
    (now stamp : ℕ) (p : Payload) (bus : DomainEventBus)
    → payloads (publish now stamp p bus) ≡ payloads bus ++ p ∷ []
unfolding publish
payloads-publish now stamp p bus = map-append _ _ _

payloads-warn_each :
    (now : ℕ) (c : String) (n : CharacterNeeds) (day : ℤ) (ds : List NeedDimension)
    (bus : DomainEventBus)
    → payloads (warn_each now c n day ds bus) ≡ payloads bus ++ warnings c n day ds
unfolding warn_each
payloads-warn_each now c n day [] bus = sym (append-nil _)
payloads-warn_each now c n day (d ∷ ds) bus =
    elim (Bool-cases (ltb_ℤ (n.value d) critical_threshold)) [
      | inl low ↦
          rw (low, warn_each)
            (payloads-warn_each now c n day ds _
              ∙ rw (payloads-publish now now (warning c n day d) bus)
                  (append_assoc (payloads bus) (warning c n day d ∷ []) (warnings c n day ds)))
      | inr high ↦ rw (high, warn_each) (payloads-warn_each now c n day ds bus)
    ]

abbrev pub all_warnings : ℕ → ℤ → NeedsStore → List Payload
all_warnings now day [] = []
all_warnings now day (e ∷ s) =
    warnings e.0 (decayed now e.1) day need_dimensions ++ all_warnings now day s

-- A day's decay publishes, character by character, one warning for each dimension that it leaves
-- below the critical threshold, with the value that is left, and nothing else; it counts every
-- character of the store.
pub decay_needs-warnings :
    (now : ℕ) (day : ℤ) (s : NeedsStore) (bus : DomainEventBus)
    → (payloads (decay_needs now day s bus).2 ≡ payloads bus ++ all_warnings now day s)
      × ((decay_needs now day s bus).0 ≡ days s)
unfolding decay_needs trigger_warnings
decay_needs-warnings now day [] bus = (sym (append-nil _), refl)
decay_needs-warnings now day (e ∷ s) bus =
    let rest =
      decay_needs-warnings now day s (trigger_warnings now e.0 (decayed now e.1) day bus) in
    (
      rest.0
          ∙ ap (λ (ps : List Payload). ps ++ all_warnings now day s)
              (payloads-warn_each now e.0 (decayed now e.1) day need_dimensions bus)
          ∙ append_assoc (payloads bus) (warnings e.0 (decayed now e.1) day need_dimensions)
              (all_warnings now day s),
      omega (arith, rest.1),
    )

module _ (c : String) (n : CharacterNeeds) (day : ℤ) where
  warned :
      (d : NeedDimension) (ds : List NeedDimension)
      → ltb_ℤ (n.value d) critical_threshold ≡ true
      → Mem (warning c n day d) (warnings c n day (d ∷ ds))
  warned d ds h = rw h mem-cons_self

  also :
      (p : Payload) (d : NeedDimension) (ds : List NeedDimension)
      → Mem p (warnings c n day ds)
      → Mem p (warnings c n day (d ∷ ds))
  also p d ds h =
      if_elim (Mem p) (ltb_ℤ (n.value d) critical_threshold)
        (warning c n day d ∷ warnings c n day ds) (warnings c n day ds) (λ _. mem-cons_of_mem _ h)
        (λ _. h)

  mem-warnings :
      (d : NeedDimension) (ds : List NeedDimension)
      → Mem d ds
      → ltb_ℤ (n.value d) critical_threshold ≡ true
      → Mem (warning c n day d) (warnings c n day ds)
  mem-warnings d [] m h = absurd (not-mem-nil m)
  mem-warnings d (x ∷ ds) m h =
      Or.elim Mem-prop (mem-cons.0 m)
        (λ e. subst (λ y. Mem (warning c n day d) (warnings c n day (y ∷ ds))) e (warned d ds h))
        (λ later. also _ x ds (mem-warnings d ds later h))

mem-need_dimensions : (d : NeedDimension) → Mem d need_dimensions
mem-need_dimensions nutrition = mem-cons_self
mem-need_dimensions fatigue = mem-cons_of_mem _ mem-cons_self
mem-need_dimensions hygiene = mem-cons_of_mem _ (mem-cons_of_mem _ mem-cons_self)
mem-need_dimensions morale = mem-cons_of_mem _ (mem-cons_of_mem _ (mem-cons_of_mem _ mem-cons_self))
mem-need_dimensions belonging =
    mem-cons_of_mem _ (mem-cons_of_mem _ (mem-cons_of_mem _ (mem-cons_of_mem _ mem-cons_self)))

still_low : (x : ℤ) (r : ℕ) → x <ℤ pos 10 → ltb_ℤ (max_ℤ (pos 0) (x -ℤ pos r)) (pos 10) ≡ true
unfolding ◌-ℤ◌
still_low x r h = ground arith

-- The decay of a character warns again of a dimension that was critical before that day.
pub decay_warns_again :
    (now : ℕ) (c : String) (n : CharacterNeeds) (day : ℤ) (d : NeedDimension)
    → n.value d <ℤ critical_threshold
    → Mem (warning c (decayed now n) day d) (warnings c (decayed now n) day need_dimensions)
unfolding decayed
decay_warns_again now c n day d h =
    mem-warnings c (decayed now n) day d need_dimensions (mem-need_dimensions d)
      (rw (rate-eq d) (still_low (n.value d) (rate d) h))
