-- ===== src/Needs.antt =====
-- server/src/modules/needs/needs.service.ts: the five needs of each character. The service's store
-- is a value here and its event bus another; a call that emits returns both. Needs are whole
-- numbers, and a modifier is counted in hundredths, as `Math.round(… * 100) / 100` leaves it.
pub mod Bounds
pub mod Decay
mod Tests
use mmorpg_design_documents.Base.{
  ℕ, ◌+◌, Bool, Option, none, some, List, [], ◌∷◌, String, if◌then◌else◌,
}
use mmorpg_design_documents.Base.Int.{
  ℤ, pos, ◌+ℤ◌, ◌-ℤ◌, ◌*ℤ◌, floor_div, ltb_ℤ, leb_ℤ, min_ℤ, max_ℤ,
}
use mmorpg_design_documents.Base.Key.{string_eq}
use mmorpg_design_documents.Base.Dict.{Dict, lookup, insert}
use mmorpg_design_documents.Events.{DomainEventBus, publish, needs_critical_warning}

pub data NeedDimension : Type 0 where
  nutrition fatigue hygiene morale belonging : NeedDimension

abbrev pub need_dimensions : List NeedDimension
need_dimensions = nutrition ∷ fatigue ∷ hygiene ∷ morale ∷ belonging ∷ []

abbrev dimension_text : NeedDimension → String
dimension_text nutrition = "nutrition"
dimension_text fatigue = "fatigue"
dimension_text hygiene = "hygiene"
dimension_text morale = "morale"
dimension_text belonging = "belonging"

pub data NeedStatus : Type 0 where
  critical low fine full : NeedStatus

-- The five values are one function of the dimension: `needs[dim]`.
pub record CharacterNeeds : Type 0 where
  pub character_id : String
  pub value : NeedDimension → ℤ
  pub updated_at : ℕ

abbrev pub NeedsStore : Type 0
NeedsStore = Dict String CharacterNeeds

pub record NeedStatusEntry : Type 0 where
  pub dimension : NeedDimension
  pub value : ℤ
  pub status : NeedStatus

abbrev pub default_decay_rates : NeedDimension → ℤ
default_decay_rates nutrition = pos 15
default_decay_rates fatigue = pos 12
default_decay_rates hygiene = pos 8
default_decay_rates morale = pos 5
default_decay_rates belonging = pos 3

abbrev pub critical_threshold : ℤ
critical_threshold = pos 10

abbrev pub low_threshold : ℤ
low_threshold = pos 30

abbrev pub full_threshold : ℤ
full_threshold = pos 100

-- `static classifyStatus`
pub classify_status : ℤ → NeedStatus
classify_status value =
    if ltb_ℤ value critical_threshold
    then critical
    else if ltb_ℤ value low_threshold
    then low
    else if leb_ℤ full_threshold value
    then full
    else fine

pub init_needs : ℕ → String → NeedsStore → CharacterNeeds × NeedsStore
init_needs now character_id store =
    let needs : CharacterNeeds = record {
      character_id = character_id;
      value = λ d. pos 100;
      updated_at = now;
    } in
    (needs, insert character_id needs store)

-- Initialises the needs of a character that has none.
pub get_needs : ℕ → String → NeedsStore → CharacterNeeds × NeedsStore
unfolding init_needs
get_needs now character_id store = elim (lookup character_id store) [
  | none ↦ init_needs now character_id store
  | some needs ↦ (needs, store)
]

abbrev status_entries : CharacterNeeds → List NeedDimension → List NeedStatusEntry
status_entries needs [] = []
status_entries needs (d ∷ ds) =
    record { dimension = d; value = needs.value d; status = classify_status (needs.value d) }
    ∷ status_entries needs ds

pub get_needs_status : ℕ → String → NeedsStore → List NeedStatusEntry × NeedsStore
unfolding get_needs classify_status
get_needs_status now character_id store =
    let (needs, store') = get_needs now character_id store in
    (status_entries needs need_dimensions, store')

-- The sum of the five needs; the average is a fifth of it.
pub needs_sum : (NeedDimension → ℤ) → ℤ
needs_sum value =
    value nutrition +ℤ value fatigue +ℤ value hygiene +ℤ value morale +ℤ value belonging

-- 70 below an average of 10, 110 from an average of 100 on, and in between the line
-- 70 + 40 * (sum / 5 - 10) / 90, rounded; no value between two hundredths is exactly halfway.
pub modifier_of : ℤ → ℤ
modifier_of sum =
    if ltb_ℤ sum (pos 5 *ℤ critical_threshold)
    then pos 70
    else if leb_ℤ (pos 5 *ℤ full_threshold) sum
    then pos 110
    else pos 70 +ℤ floor_div (pos 8 *ℤ (sum -ℤ pos 50) +ℤ pos 45) 90

unfoldable pub get_modifier : ℕ → String → NeedsStore → ℤ × NeedsStore
unfolding get_needs needs_sum modifier_of
get_modifier now character_id store =
    let (needs, store') = get_needs now character_id store in
    (modifier_of (needs_sum needs.value), store')

-- One warning for each dimension below the critical threshold.
pub warn_each :
    ℕ → String → CharacterNeeds → ℤ → List NeedDimension → DomainEventBus → DomainEventBus
warn_each now character_id needs game_day [] bus = bus
warn_each now character_id needs game_day (d ∷ ds) bus =
    warn_each now character_id needs game_day ds (
      if ltb_ℤ (needs.value d) critical_threshold
      then publish now now
          (needs_critical_warning (record {
            character_id = character_id;
            dimension = dimension_text d;
            value = needs.value d;
            game_day = game_day;
          }))
          bus
      else bus)

pub trigger_warnings : ℕ → String → CharacterNeeds → ℤ → DomainEventBus → DomainEventBus
unfolding warn_each
trigger_warnings now character_id needs game_day =
    warn_each now character_id needs game_day need_dimensions

-- `Math.max(0, needs[dim] - DEFAULT_DECAY_RATES[dim])`
pub decayed : ℕ → CharacterNeeds → CharacterNeeds
decayed now needs = record needs {
  value = λ d. max_ℤ (pos 0) (needs.value d -ℤ default_decay_rates d);
  updated_at = now;
}

-- The number of characters processed, and what the pass over the store leaves.
pub decay_needs : ℕ → ℤ → NeedsStore → DomainEventBus → ℕ × NeedsStore × DomainEventBus
unfolding decayed trigger_warnings
decay_needs now game_day [] bus = (0, [], bus)
decay_needs now game_day (e ∷ store) bus =
    let needs = decayed now e.1 in
    let rest = decay_needs now game_day store (trigger_warnings now e.0 needs game_day bus) in
    (rest.0 + 1, (e.0, needs) ∷ rest.1, rest.2)

abbrev same_dimension : NeedDimension → NeedDimension → Bool
same_dimension nutrition nutrition = Bool.true
same_dimension fatigue fatigue = Bool.true
same_dimension hygiene hygiene = Bool.true
same_dimension morale morale = Bool.true
same_dimension belonging belonging = Bool.true
same_dimension _ _ = Bool.false

pub adjust_need : ℕ → String → NeedDimension → ℤ → NeedsStore → NeedsStore
unfolding get_needs
adjust_need now character_id dimension delta store =
    let (needs, store') = get_needs now character_id store in
    insert character_id
      (record needs {
        value = λ d.
            if same_dimension d dimension
            then max_ℤ (pos 0) (min_ℤ (pos 100) (needs.value d +ℤ delta))
            else needs.value d;
        updated_at = now;
      })
      store'
