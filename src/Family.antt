-- ===== src/Family.antt =====
-- server/src/modules/simulation/family/family.service.ts: the households of new-born characters and
-- the daily support by their guardians. `now` is the wall clock, which only dates the alerts.
pub mod Support
mod Tests
use Prim.Native.String.{◌++◌ as string_append}
use mmorpg_design_documents.Base.{
  ℕ, Bool, true, false, ◌||◌, ◌&&◌, not, Option, none, some, List, [], ◌∷◌, ◌++◌, String, Result,
  ok, err, if◌then◌else◌,
}
use mmorpg_design_documents.Base.Int.{ℤ}
use mmorpg_design_documents.Base.Key.{string_eq}
use mmorpg_design_documents.Base.Dict.{Dict, lookup, insert}
use mmorpg_design_documents.Lifecycle.{LifeStage, is_protected}

pub record HouseholdState : Type 0 where
  pub food_supplied : Bool
  pub shelter_provided : Bool
  pub last_checked_game_day : ℤ

pub record FamilyRecord : Type 0 where
  pub family_id : String
  pub character_id : String
  pub guardian_npc_id : String
  pub household_state : HouseholdState
  pub created_at_game_day : ℤ

pub record SafetyAlert : Type 0 where
  pub family_id : String
  pub character_id : String
  pub reason : String
  pub game_day : ℤ
  pub timestamp : ℕ

pub record FamilyService : Type 0 where
  pub families : Dict String FamilyRecord
  pub alerts : List SafetyAlert

pub data Neglect : Type 0 where
  food shelter both : Neglect

pub data FamilyError : Type 0 where
  no_family : String → FamilyError

pub create_family : String → ℤ → FamilyService → FamilyRecord × FamilyService
create_family character_id day s =
    let r : FamilyRecord = record {
      family_id = string_append "fam_" character_id;
      character_id = character_id;
      guardian_npc_id = string_append "npc_guardian_" character_id;
      household_state = record {
        food_supplied = true;
        shelter_provided = true;
        last_checked_game_day = day;
      };
      created_at_game_day = day;
    } in
    (r, record s { families = insert character_id r s.families })

pub get_family : String → FamilyService → Option FamilyRecord
get_family character_id s = lookup character_id s.families

-- `reasons.join(',') || 'neglect'`
pub alert_reason : HouseholdState → String
alert_reason h =
    if h.food_supplied
    then (if h.shelter_provided then "neglect" else "shelter_missing")
    else (if h.shelter_provided then "food_missing" else "food_missing,shelter_missing")

pub trigger_safety_alert : ℕ → FamilyRecord → ℤ → List SafetyAlert → List SafetyAlert
unfolding alert_reason
trigger_safety_alert now r day alerts =
    alerts
    ++ record {
      family_id = r.family_id;
      character_id = r.character_id;
      reason = alert_reason r.household_state;
      game_day = day;
      timestamp = now;
    }
      ∷ []

-- The guardian provides for the household.
pub provided : ℤ → FamilyRecord → FamilyRecord
provided day r = record r {
  household_state = record {
    food_supplied = true;
    shelter_provided = true;
    last_checked_game_day = day;
  };
}

abbrev pub is_neglected : HouseholdState → Bool
is_neglected h = not h.food_supplied || not h.shelter_provided

-- One family of the loop, at the stage of its character: a missing stage is `continue`.
pub resolve_family :
    ℕ → ℤ → Option LifeStage → FamilyRecord → List SafetyAlert → FamilyRecord × List SafetyAlert
unfolding provided trigger_safety_alert
resolve_family now day none r alerts = (r, alerts)
resolve_family now day (some stage) r alerts =
    let r' = if is_protected stage then provided day r else r in
    (
      r',
      if is_protected stage && is_neglected r'.household_state
          then trigger_safety_alert now r' day alerts
          else alerts,
    )

pub resolve_each :
    ℕ
    → ℤ
    → (String → Option LifeStage)
    → Dict String FamilyRecord
    → List SafetyAlert
    → Dict String FamilyRecord × List SafetyAlert
unfolding resolve_family
resolve_each now day stage [] alerts = ([], alerts)
resolve_each now day stage (e ∷ d) alerts =
    let (r, alerts') = resolve_family now day (stage e.1.character_id) e.1 alerts in
    let later = resolve_each now day stage d alerts' in ((e.0, r) ∷ later.0, later.1)

-- `getStage` is a function that the tick hands over.
unfoldable pub resolve_family_support :
    ℕ → ℤ → (String → Option LifeStage) → FamilyService → FamilyService
unfolding resolve_each
resolve_family_support now day stage s =
    let after = resolve_each now day stage s.families s.alerts in
    record { families = after.0; alerts = after.1 }

abbrev pub neglects_food : Neglect → Bool
neglects_food food = true
neglects_food shelter = false
neglects_food both = true

abbrev pub neglects_shelter : Neglect → Bool
neglects_shelter food = false
neglects_shelter shelter = true
neglects_shelter both = true

pub simulate_neglect :
    String → Neglect → FamilyService → Result FamilyError FamilyRecord × FamilyService
simulate_neglect character_id kind s = elim (lookup character_id s.families) [
  | none ↦ (err (no_family character_id), s)
  | some r ↦
      let h = r.household_state in
      let r' : FamilyRecord = record r {
        household_state = record h {
          food_supplied = h.food_supplied && not (neglects_food kind);
          shelter_provided = h.shelter_provided && not (neglects_shelter kind);
        };
      } in
      (ok r', record s { families = insert character_id r' s.families })
]
