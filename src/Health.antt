-- ===== src/Health.antt =====
-- server/src/modules/health/health.service.ts: wounds and illnesses, their penalties, treatment and
-- recovery. Penalties are counted in hundredths, severities and days are whole. `now` is the wall
-- clock. The skills of the treatment table are its own keys.
mod Tables
pub mod Severity
pub mod Recovery
pub mod Treatment
mod Tests
unfoldable pub use Tables.*
use mmorpg_design_documents.Base.{
  ℕ, ◌+◌, ◌*◌, ◌^◌, Bool, true, false, ◌&&◌, not, Option, none, some, List, [], ◌∷◌, ◌++◌, String,
  if◌then◌else◌,
}
use mmorpg_design_documents.Base.Int.{
  ℤ, pos, ◌+ℤ◌, ◌-ℤ◌, ◌*ℤ◌, floor_div, leb_ℤ, ltb_ℤ, min_ℤ, max_ℤ,
}
use mmorpg_design_documents.Base.Key.{EntityId, string_eq, entity_eq, ◌==◌}
use mmorpg_design_documents.Base.Dict.{Dict, lookup, insert}
use mmorpg_design_documents.Base.Lists.{length, keep, find}
use mmorpg_design_documents.Events.{
  DomainEventBus, next_event_id, publish, condition_applied, condition_resolved,
}
use mmorpg_design_documents.Lifecycle.{LifeStage, is_protected}

pub record HealthCondition : Type 0 where
  pub id : EntityId
  pub character_id : String
  pub condition_type : ConditionType
  pub severity : ℤ
  pub illness_subtype : Option IllnessSubtype
  pub duration_days : ℤ
  pub stat_penalty_modifier : ℤ
  pub recovery_action_required : String
  pub started_at_day : ℤ
  pub resolves_at_day : ℤ
  pub treated_by_skill : Option String

pub record ConditionPrognosis : Type 0 where
  pub condition : HealthCondition
  pub remaining_days : ℤ
  pub is_expired : Bool

pub record ApplyConditionInput : Type 0 where
  pub character_id : String
  pub condition_type : ConditionType
  pub severity : ℤ
  pub illness_subtype : Option IllnessSubtype
  pub current_game_day : ℤ
  pub life_stage : Option LifeStage

abbrev pub HealthStore : Type 0
HealthStore = Dict String (List HealthCondition)

pub record HealthService : Type 0 where
  pub store : HealthStore
  pub bus : DomainEventBus

abbrev pub or_none : Option (List HealthCondition) → List HealthCondition
or_none none = []
or_none (some cs) = cs

pub get_conditions : HealthService → String → List HealthCondition
get_conditions s c = or_none (lookup c s.store)

-- `currentGameDay >= c.resolvesAtDay`
abbrev pub expired : ℤ → HealthCondition → Bool
expired day c = leb_ℤ c.resolves_at_day day

abbrev prognoses : ℤ → List HealthCondition → List ConditionPrognosis
prognoses day [] = []
prognoses day (c ∷ cs) =
    record {
      condition = c;
      remaining_days = max_ℤ (pos 0) (c.resolves_at_day -ℤ day);
      is_expired = expired day c;
    }
    ∷ prognoses day cs

pub get_conditions_with_prognosis : HealthService → String → ℤ → List ConditionPrognosis
unfolding get_conditions
get_conditions_with_prognosis s c day = prognoses day (get_conditions s c)

abbrev pub penalty_sum : List HealthCondition → ℤ
penalty_sum [] = pos 0
penalty_sum (c ∷ cs) = c.stat_penalty_modifier +ℤ penalty_sum cs

pub get_total_stat_penalty : HealthService → String → ℤ
unfolding get_conditions
get_total_stat_penalty s c = min_ℤ (penalty_sum (get_conditions s c)) (pos 80)

-- True if the condition is allowed.
pub check_infant_safety : ℤ → Option LifeStage → Bool
check_infant_safety severity none = true
check_infant_safety severity (some stage) = not (is_protected stage && leb_ℤ (pos 5) severity)

-- `Math.max(1, Math.round(clamped * Math.pow(0.5, n)))` for the severity clamped to 1 … 5; a
-- product by a power of a half is exact, and halves are rounded up.
pub effective_severity : ℤ → ℕ → ℤ
effective_severity severity n =
    let clamped = max_ℤ (pos 1) (min_ℤ (pos 5) severity) in
    max_ℤ (pos 1) (floor_div (pos 2 *ℤ clamped +ℤ pos (2 ^ n)) (2 * 2 ^ n))

-- The number of conditions of one type.
abbrev pub same_type_count : ConditionType → List HealthCondition → ℕ
same_type_count t cs = length (keep (λ c. same_type c.condition_type t) cs)

abbrev pub duration_for : ConditionType → Option IllnessSubtype → ℤ → ℤ
duration_for t sub severity =
    if is_illness t && is_chronic sub
    then base_duration severity *ℤ chronic_multiplier
    else base_duration severity

pub new_condition : EntityId → ApplyConditionInput → ℤ → HealthCondition
new_condition id input severity =
    let days = duration_for input.condition_type input.illness_subtype severity in
    record {
      id = id;
      character_id = input.character_id;
      condition_type = input.condition_type;
      severity = severity;
      illness_subtype = if is_illness input.condition_type then input.illness_subtype else none;
      duration_days = days;
      stat_penalty_modifier = stat_penalty severity;
      recovery_action_required = recovery_action input.condition_type;
      started_at_day = input.current_game_day;
      resolves_at_day = input.current_game_day +ℤ days;
      treated_by_skill = none;
    }

pub apply_condition :
    ℕ → ApplyConditionInput → HealthService → Option HealthCondition × HealthService
unfolding check_infant_safety effective_severity new_condition
apply_condition now input s =
    if not (check_infant_safety input.severity input.life_stage)
    then (none, s)
    else let existing = or_none (lookup input.character_id s.store) in
      let severity =
        effective_severity input.severity (same_type_count input.condition_type existing) in
      let (id, bus) = next_event_id now s.bus in
      let c = new_condition id input severity in
      let event = condition_applied (record {
        character_id = input.character_id;
        condition_id = id;
        condition_type = type_text c.condition_type;
        severity = c.severity;
        duration_days = c.duration_days;
      }) in
      (
        some c,
        record {
          store = insert input.character_id (existing ++ c ∷ []) s.store;
          bus = publish now now event bus;
        },
      )

-- `findIndex` and `splice`: the first condition of the id, and the others.
pub take_condition : EntityId → List HealthCondition → Option HealthCondition × List HealthCondition
take_condition id [] = (none, [])
take_condition id (c ∷ cs) =
    let later = take_condition id cs in if c.id == id then (some c, cs) else (later.0, c ∷ later.1)

pub resolved_event : ℕ → String → HealthCondition → DomainEventBus → DomainEventBus
resolved_event now character_id c bus =
    publish now now
      (condition_resolved (record {
        character_id = character_id;
        condition_id = c.id;
        condition_type = type_text c.condition_type;
        severity = c.severity;
      }))
      bus

-- What follows the search, for the list that was searched.
abbrev pub settled :
    ℕ
    → String
    → Option HealthCondition × List HealthCondition
    → List HealthCondition
    → DomainEventBus
    → Bool × List HealthCondition × DomainEventBus
settled now character_id (none, rest) cs bus = (false, cs, bus)
settled now character_id (some c, rest) cs bus = (true, rest, resolved_event now character_id c bus)

-- `resolveCondition` on the character's list.
pub resolve_in :
    ℕ
    → String
    → EntityId
    → List HealthCondition
    → DomainEventBus
    → Bool × List HealthCondition × DomainEventBus
resolve_in now character_id id cs bus = settled now character_id (take_condition id cs) cs bus

pub resolve_condition : ℕ → String → EntityId → HealthService → Bool × HealthService
unfolding resolve_in
resolve_condition now character_id id s = elim (lookup character_id s.store) [
  | none ↦ (false, s)
  | some cs ↦
      let (found, cs', bus) = resolve_in now character_id id cs s.bus in
      (found, record { store = insert character_id cs' s.store; bus = bus })
]

-- The inner loop, over the conditions that had expired at its start.
pub resolve_all :
    ℕ
    → String
    → List HealthCondition
    → List HealthCondition
    → DomainEventBus
    → List HealthCondition × DomainEventBus
unfolding resolve_in
resolve_all now character_id [] cs bus = (cs, bus)
resolve_all now character_id (x ∷ xs) cs bus =
    let (found, cs', bus') = resolve_in now character_id x.id cs bus in
    resolve_all now character_id xs cs' bus'

-- The outer loop: `store.get(characterId)` is the list at hand.
unfoldable pub expire_each : ℕ → ℤ → HealthStore → DomainEventBus → ℕ × HealthStore × DomainEventBus
unfolding resolve_all
expire_each now day [] bus = (0, [], bus)
expire_each now day (e ∷ d) bus =
    let gone = keep (expired day) e.1 in
    let (left, bus') = resolve_all now e.0 gone e.1 bus in
    let later = expire_each now day d bus' in
    (length gone + later.0, (e.0, left) ∷ later.1, later.2)

pub resolve_expired_conditions : ℕ → ℤ → HealthService → ℕ × HealthService
unfolding expire_each
resolve_expired_conditions now day s =
    let after = expire_each now day s.store s.bus in
    (after.0, record { store = after.1; bus = after.2 })
