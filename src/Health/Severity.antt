-- ===== src/Health/Severity.antt =====
-- server/src/modules/health/health.service.ts, `applyCondition`: how severe a condition becomes.
use mmorpg_design_documents.Base.{
  ℕ, zero, suc, ◌+◌, ◌*◌, ◌/◌, ◌^◌, ◌<◌, ◌≤◌, ◌≡◌, ◌⊎◌, refl, sym, ◌∙◌, ap, inl, inr, true, false,
  Bool-cases, Option, none, some, List, [], ◌∷◌, ◌++◌, String, if◌then◌else◌, arith,
}
use native.Mathlib.Nat.{mul-le-mul_left, div-lt_iff_lt-mul, pow-succ'}
use mmorpg_design_documents.Base.Int.{
  ℤ, pos, ◌+ℤ◌, ◌*ℤ◌, ◌≤ℤ◌, floor_div, leb_ℤ, min_ℤ, max_ℤ, pos_part,
}
use mmorpg_design_documents.Base.Key.{string_eq, ◌==◌, eq_lem}
use mmorpg_design_documents.Base.Dict.{lookup, insert, lookup-insert}
use mmorpg_design_documents.Events.{next_event_id}
use mmorpg_design_documents.Lifecycle.{LifeStage, is_protected}
use mmorpg_design_documents.Health.{
  HealthCondition, HealthService, ApplyConditionInput, apply_condition, new_condition,
  effective_severity, check_infant_safety, or_none, same_type_count,
}

abbrev pub clamped : ℤ → ℕ
clamped severity = pos_part (max_ℤ (pos 1) (min_ℤ (pos 5) severity))

clamped_pos : (x : ℤ) → max_ℤ (pos 1) (min_ℤ (pos 5) x) ≡ pos (clamped x)
clamped_pos x = ground arith

clamped_bounds : (x : ℤ) → (1 ≤ clamped x) × (clamped x ≤ 5)
clamped_bounds x = ground arith

-- The quotient rounds a half up, and is at most the number that is divided.
quotient : ℕ → ℕ → ℕ
quotient c p = (2 * c + p) / (2 * p)

quotient-le : (c p : ℕ) → 1 ≤ c → 1 ≤ p → quotient c p ≤ c
unfolding quotient
quotient-le c p h k = omega (arith, below)
  where
    fits : 2 * c + p < (c + 1) * (2 * p)
    fits = grind (arith, mul-le-mul_left c k)

    below : (2 * c + p) / (2 * p) < c + 1
    below = (div-lt_iff_lt-mul (omega arith)).1 fits

two_pow_pos : (n : ℕ) → 1 ≤ 2 ^ n
two_pow_pos zero = omega arith
two_pow_pos (suc n) = omega (arith, pow-succ' 2 n, two_pow_pos n)

effective_severity_lem :
    (severity : ℤ) (n : ℕ)
    → effective_severity severity n ≡ max_ℤ (pos 1) (pos (quotient (clamped severity) (2 ^ n)))
unfolding effective_severity quotient
effective_severity_lem severity n =
    ap (λ x. max_ℤ (pos 1) (floor_div (pos 2 *ℤ x +ℤ pos (2 ^ n)) (2 * 2 ^ n)))
      (clamped_pos severity)
    ∙ ap (λ x. max_ℤ (pos 1) (floor_div x (2 * 2 ^ n))) (sum (clamped severity) (2 ^ n))
    ∙ (unfold floor_div in refl)
  where
    sum : (c p : ℕ) → pos 2 *ℤ pos c +ℤ pos p ≡ pos (2 * c + p)
    sum c p = unfold ◌*ℤ◌ ◌+ℤ◌ in ground arith

-- However many conditions of its type there are, a condition's severity is between 1 and 5, and it
-- is at most the one asked for where that is at least 1.
pub effective_severity-bounds :
    (severity : ℤ) (n : ℕ)
    → (pos 1 ≤ℤ effective_severity severity n)
      × (effective_severity severity n ≤ℤ pos 5)
      × (effective_severity severity n ≤ℤ max_ℤ (pos 1) severity)
effective_severity-bounds severity n = rw (effective_severity_lem severity n) (
    bounds severity (quotient (clamped severity) (2 ^ n))
      (quotient-le (clamped severity) (2 ^ n) (clamped_bounds severity).0 (two_pow_pos n)))
  where
    bounds :
        (x : ℤ) (q : ℕ)
        → q ≤ clamped x
        → (pos 1 ≤ℤ max_ℤ (pos 1) (pos q))
          × (max_ℤ (pos 1) (pos q) ≤ℤ pos 5)
          × (max_ℤ (pos 1) (pos q) ≤ℤ max_ℤ (pos 1) x)
    bounds x q h = ground arith

-- What is stored of a character, as a list.
abbrev pub held : Option (List HealthCondition) → List HealthCondition
held none = []
held (some cs) = cs

or_none-held : (o : Option (List HealthCondition)) → or_none o ≡ held o
or_none-held none = refl
or_none-held (some cs) = refl

-- The condition that a request below severity 5 leaves: it is of the type asked for, of severity 1
-- to 4, and comes last among those of its character; nothing else that is stored has changed.
pub record Mild (input : ApplyConditionInput) (s : HealthService)
    (o : Option HealthCondition × HealthService) : Type 0 where
  pub condition : HealthCondition
  pub asked : input.severity ≤ℤ pos 4
  pub given : o.0 ≡ some condition
  pub kind : condition.condition_type ≡ input.condition_type
  pub low : pos 1 ≤ℤ condition.severity
  pub top : condition.severity ≤ℤ pos 4
  pub stored :
      (k : String)
      → lookup k o.1.store ≡ (
          if k == input.character_id
          then some (held (lookup k s.store) ++ (condition ∷ []))
          else lookup k s.store)

apply_condition-severe :
    (now : ℕ) (input : ApplyConditionInput) (s : HealthService)
    → check_infant_safety input.severity input.life_stage ≡ false
    → apply_condition now input s ≡ (none, s)
unfolding apply_condition
apply_condition-severe now input s h = rw h refl

-- The condition that an allowed request makes.
made : ℕ → ApplyConditionInput → HealthService → HealthCondition
made now input s = new_condition (next_event_id now s.bus).0 input (
    effective_severity input.severity
      (same_type_count input.condition_type (or_none (lookup input.character_id s.store))))

apply_condition-allowed :
    (now : ℕ) (input : ApplyConditionInput) (s : HealthService)
    → check_infant_safety input.severity input.life_stage ≡ true
    → ((apply_condition now input s).0 ≡ some (made now input s))
      × ((apply_condition now input s).1.store
          ≡ insert input.character_id
              (or_none (lookup input.character_id s.store) ++ (made now input s ∷ []))
              s.store)
unfolding apply_condition made
apply_condition-allowed now input s h = (rw h refl, rw h refl)

made-fits :
    (now : ℕ) (input : ApplyConditionInput) (s : HealthService)
    → input.severity ≤ℤ pos 4
    → ((made now input s).condition_type ≡ input.condition_type)
      × (pos 1 ≤ℤ (made now input s).severity)
      × ((made now input s).severity ≤ℤ pos 4)
unfolding made new_condition
made-fits now input s mild =
    let (low, top, asked) = effective_severity-bounds input.severity count in
    (refl, low, capped _ input.severity mild asked)
  where
    count : ℕ
    count = same_type_count input.condition_type (or_none (lookup input.character_id s.store))

    capped : (y x : ℤ) → x ≤ℤ pos 4 → y ≤ℤ max_ℤ (pos 1) x → y ≤ℤ pos 4
    capped y x h m = ground arith

-- A protected character never suffers a condition of severity 5: a request for severity 5 or more
-- changes nothing; a request for less leaves a new condition of severity 1 to 4 with the character,
-- and nothing else that is stored changes.
pub apply_condition-protected :
    (now : ℕ) (input : ApplyConditionInput) (s : HealthService) (stage : LifeStage)
    → input.life_stage ≡ some stage
    → is_protected stage ≡ true
    → ((pos 5 ≤ℤ input.severity) × (apply_condition now input s ≡ (none, s)))
      ⊎ Mild input s (apply_condition now input s)
unfolding check_infant_safety
apply_condition-protected now input s stage e p = elim (Bool-cases (leb_ℤ (pos 5) input.severity)) [
  | inl severe ↦ inl (
    reached input.severity severe,
    apply_condition-severe now input s (rw (e, check_infant_safety, p, severe) refl),
  )
  | inr mild ↦
      let (given, left) =
        apply_condition-allowed now input s (rw (e, check_infant_safety, p, mild) refl) in
      let (kind, low, top) = made-fits now input s (below input.severity mild) in
      inr (record {
        condition = made now input s;
        asked = below input.severity mild;
        given = given;
        kind = kind;
        low = low;
        top = top;
        stored = λ k. ap (λ d. lookup k d) left ∙ kept (made now input s) k;
      })
]
  where
    reached : (x : ℤ) → leb_ℤ (pos 5) x ≡ true → pos 5 ≤ℤ x
    reached x h = ground arith

    below : (x : ℤ) → leb_ℤ (pos 5) x ≡ false → x ≤ℤ pos 4
    below x h = ground arith

    kept :
        (c : HealthCondition) (k : String)
        → lookup k (
            insert input.character_id
              (or_none (lookup input.character_id s.store) ++ (c ∷ []))
              s.store)
          ≡ (if k == input.character_id
              then some (held (lookup k s.store) ++ (c ∷ []))
              else lookup k s.store)
    kept c k =
        lookup-insert k input.character_id _ s.store
        ∙ (elim (Bool-cases (k == input.character_id)) [
          | inr other ↦ rw other refl
          | inl own ↦ rw own (
              ap (λ cs. some (cs ++ (c ∷ [])))
                (or_none-held (lookup input.character_id s.store)
                  ∙ ap (λ i. held (lookup i s.store)) (sym ((eq_lem k input.character_id).0 own))))
        ])
