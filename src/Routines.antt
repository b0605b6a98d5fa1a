-- ===== src/Routines.antt =====
-- server/src/modules/simulation/routines/: routines that run while a character is offline, and the
-- report made at its next login. Rates are whole: the efficiency of 60 % stands as six tenths. Of
-- the observability service only the counter that this service raises is kept.
pub mod Loop
pub mod Durations
pub mod Totals
mod Tests
use Prim.Native.String.{◌++◌ as string_append}
use mmorpg_design_documents.Base.{
  ℕ, ◌+◌, ◌*◌, ◌/◌, zero, suc, Bool, true, false, ◌||◌, ◌&&◌, Option, none, some, List, [], ◌∷◌,
  ◌++◌, String, Result, ok, err, if◌then◌else◌, ltb,
}
use mmorpg_design_documents.Base.Int.{ℤ, pos, ◌+ℤ◌, ◌-ℤ◌, ◌*ℤ◌, ltb_ℤ, leb_ℤ, max_ℤ, pos_part}
use mmorpg_design_documents.Base.Key.{string_eq, ◌==◌}
use mmorpg_design_documents.Base.Dict.{Dict, lookup, insert, remove, values, sum_by}
use mmorpg_design_documents.Base.Lists.{length, take, any}
use mmorpg_design_documents.Events.{DomainEventBus, publish, offline_report_generated}
use mmorpg_design_documents.Lifecycle.{LifeStage, infant, child, teen, adult, elder}
use mmorpg_design_documents.Simulation.{SimulationService}
use mmorpg_design_documents.Actions.Catalog.{
  ActionCategory, labor, rest, social, travel, combat, training, ActionDefinition,
  get_action_definition,
}

abbrev pub base_xp_per_action : ℕ
base_xp_per_action = 10

abbrev pub needs_decay_per_action : ℤ
needs_decay_per_action = pos 2

-- `OFFLINE_EFFICIENCY`, in tenths.
abbrev pub offline_efficiency : ℕ
offline_efficiency = 6

abbrev pub max_routine_slots : ℕ
max_routine_slots = 3

abbrev pub needs_critical_threshold : ℤ
needs_critical_threshold = pos 10

abbrev pub max_iterations : ℕ
max_iterations = 10000

-- `DANGEROUS_CATEGORIES.has(category)`
abbrev pub is_dangerous : ActionCategory → Bool
is_dangerous labor = false
is_dangerous rest = false
is_dangerous social = false
is_dangerous travel = true
is_dangerous combat = true
is_dangerous training = false

-- `lifeStage === 'infant' || lifeStage === 'child'`
abbrev pub is_minor : LifeStage → Bool
is_minor infant = true
is_minor child = true
is_minor teen = false
is_minor adult = false
is_minor elder = false

abbrev stage_name : LifeStage → String
stage_name infant = "infant"
stage_name child = "child"
stage_name teen = "teen"
stage_name adult = "adult"
stage_name elder = "elder"

pub record NeedsState : Type 0 where
  pub hunger : ℤ
  pub fatigue : ℤ

pub record RoutineSlot : Type 0 where
  pub action_type : String
  pub priority : ℤ

pub record CharacterOfflineState : Type 0 where
  pub character_id : String
  pub offline_since_ms : ℤ
  pub routines : List RoutineSlot
  pub life_stage : LifeStage
  pub needs : NeedsState

pub record OfflineReportEntry : Type 0 where
  pub action_type : String
  pub times_completed : ℤ
  pub xp_earned : ℤ

pub record OfflineReport : Type 0 where
  pub character_id : String
  pub offline_duration_ms : ℤ
  pub world_duration_ms : ℤ
  pub actions_completed : List OfflineReportEntry
  pub total_xp_earned : ℤ
  pub hunger_delta : ℤ
  pub fatigue_delta : ℤ
  pub warnings : List String

pub record RoutineService : Type 0 where
  pub offline_states : Dict String CharacterOfflineState
  pub simulation : SimulationService
  pub bus : DomainEventBus
  pub offline_routines_processed : ℕ

pub data RoutineError : Type 0 where
  too_many_slots : RoutineError
  unknown_action : String → RoutineError

-- `sort((a, b) => a.priority - b.priority)`, which is stable.
pub insert_by_priority : RoutineSlot → List RoutineSlot → List RoutineSlot
insert_by_priority r [] = r ∷ []
insert_by_priority r (x ∷ xs) =
    let rest = insert_by_priority r xs in
    if leb_ℤ r.priority x.priority then r ∷ x ∷ xs else x ∷ rest

pub sort_by_priority : List RoutineSlot → List RoutineSlot
unfolding insert_by_priority
sort_by_priority [] = []
sort_by_priority (r ∷ rs) = insert_by_priority r (sort_by_priority rs)

-- The first routine whose action is not in the catalog.
pub unknown_routine : List RoutineSlot → Option String
unknown_routine [] = none
unknown_routine (r ∷ rs) =
    let later = unknown_routine rs in
    elim (get_action_definition r.action_type) [ none ↦ some r.action_type | some d ↦ later ]

pub set_routines :
    String → List RoutineSlot → RoutineService → Result {0, 0} RoutineError Unit × RoutineService
unfolding sort_by_priority unknown_routine
set_routines character_id routines s =
    if ltb max_routine_slots (length routines)
    then (err too_many_slots, s)
    else elim (unknown_routine routines) [
      | some action ↦ (err (unknown_action action), s)
      | none ↦ elim (lookup character_id s.offline_states) [
        | none ↦ (ok tt, s)
        | some state ↦ (
          ok tt,
          record s {
            offline_states =
                insert character_id (record state { routines = sort_by_priority routines })
                  s.offline_states;
          },
        )
      ]
    ]

pub go_offline : CharacterOfflineState → RoutineService → RoutineService
unfolding sort_by_priority
go_offline state s = record s {
  offline_states =
      insert state.character_id
        (record state { routines = sort_by_priority (take max_routine_slots state.routines) })
        s.offline_states;
}

-- The local variables of the loop.
pub record Work : Type 0 where
  pub consumed : ℤ
  pub entries : Dict String OfflineReportEntry
  pub needs : NeedsState
  pub warnings : List String
  pub made_progress : Bool

-- `if (!warnings.includes(warnMsg)) warnings.push(warnMsg)`
pub warn : String → Work → Work
warn message w =
    if any (λ m. m == message) w.warnings
    then w
    else record w { warnings = w.warnings ++ message ∷ [] }

pub blocked_message : String → LifeStage → String
blocked_message action stage =
    string_append "Blocked dangerous action \"" (
      string_append action
        (string_append "\" for " (string_append (stage_name stage) " character")))

abbrev critical_message : String
critical_message = "Routine processing paused: needs are critical"

abbrev pub xp_per_action : ℤ
xp_per_action = pos (base_xp_per_action * offline_efficiency / 10)

pub credit_entry : String → Option OfflineReportEntry → OfflineReportEntry
credit_entry action none = record {
  action_type = action;
  times_completed = pos 1;
  xp_earned = xp_per_action;
}
credit_entry action (some entry) = record entry {
  times_completed = entry.times_completed +ℤ pos 1;
  xp_earned = entry.xp_earned +ℤ xp_per_action;
}

-- The action is executed.
pub execute : RoutineSlot → ActionDefinition → Work → Work
unfolding credit_entry
execute r d w = record w {
  consumed = w.consumed +ℤ d.duration_game_ms;
  entries =
      insert r.action_type (credit_entry r.action_type (lookup r.action_type w.entries)) w.entries;
  needs = record {
    hunger = max_ℤ (pos 0) (w.needs.hunger -ℤ needs_decay_per_action);
    fatigue = max_ℤ (pos 0) (w.needs.fatigue -ℤ needs_decay_per_action);
  };
  made_progress = true;
}

abbrev pub is_critical : NeedsState → Bool
is_critical n = leb_ℤ n.hunger needs_critical_threshold || leb_ℤ n.fatigue needs_critical_threshold

-- One routine in a pass: whether the pass breaks off, and the variables after it.
pub visit : LifeStage → ℤ → RoutineSlot → Work → Bool × Work
unfolding warn blocked_message execute
visit stage world r w =
    if leb_ℤ world w.consumed then (true, w) else elim (get_action_definition r.action_type) [
      | none ↦ (false, w)
      | some d ↦
          if is_dangerous d.category && is_minor stage
          then (false, warn (blocked_message r.action_type stage) w)
          else if is_critical w.needs
          then (true, warn critical_message w)
          else if ltb_ℤ world (w.consumed +ℤ d.duration_game_ms)
          then (false, w)
          else (false, execute r d w)
    ]

-- `for (const routine of sortedRoutines)`
pub sweep : LifeStage → ℤ → List RoutineSlot → Work → Work
unfolding visit
sweep stage world [] w = w
sweep stage world (r ∷ rs) w =
    let (stop, w') = visit stage world r w in
    let later = sweep stage world rs w' in if stop then w' else later

-- The loop, with the passes that the guard still allows.
pub cycle : LifeStage → ℤ → List RoutineSlot → ℕ → Work → Work
unfolding sweep
cycle stage world rs zero w = w
cycle stage world rs (suc n) w = elim (ltb_ℤ w.consumed world) [
  | false ↦ w
  | true ↦
      let w' = sweep stage world rs (record w { made_progress = false }) in
      elim w'.made_progress [ false ↦ w' | true ↦ cycle stage world rs n w' ]
]

abbrev pub start_work : NeedsState → Work
start_work needs = record {
  consumed = pos 0;
  entries = [];
  needs = needs;
  warnings = [];
  made_progress = false;
}

-- The variables after the loop, which runs at most `max_iterations` times.
unfoldable pub run_routines : CharacterOfflineState → ℤ → Work
unfolding cycle sort_by_priority
run_routines state world =
    cycle state.life_stage world (sort_by_priority state.routines) max_iterations
      (start_work state.needs)

pub process_offline_routines : SimulationService → CharacterOfflineState → ℤ → OfflineReport
unfolding run_routines
process_offline_routines simulation state login =
    let offline = login -ℤ state.offline_since_ms in
    let world = offline *ℤ simulation.acceleration in
    let w = run_routines state world in
    record {
      character_id = state.character_id;
      offline_duration_ms = offline;
      world_duration_ms = world;
      actions_completed = values w.entries;
      total_xp_earned = sum_by (λ (e : OfflineReportEntry). e.xp_earned) w.entries;
      hunger_delta = w.needs.hunger -ℤ state.needs.hunger;
      fatigue_delta = w.needs.fatigue -ℤ state.needs.fatigue;
      warnings = w.warnings;
    }

-- `actionsCompleted.reduce((sum, e) => sum + e.timesCompleted, 0)`
pub times_total : List OfflineReportEntry → ℤ
times_total [] = pos 0
times_total (e ∷ es) = e.times_completed +ℤ times_total es

pub process_login : String → ℤ → RoutineService → Option OfflineReport × RoutineService
unfolding process_offline_routines times_total
process_login character_id login s = elim (lookup character_id s.offline_states) [
  | none ↦ (none, s)
  | some state ↦
      let report = process_offline_routines s.simulation state login in
      let event = offline_report_generated (record {
        character_id = character_id;
        offline_duration_ms = report.offline_duration_ms;
        actions_completed = times_total report.actions_completed;
        total_xp_earned = report.total_xp_earned;
        warnings = report.warnings;
      }) in
      (
        some report,
        record s {
          offline_states = remove character_id s.offline_states;
          bus = publish (pos_part login) (pos_part login) event s.bus;
          offline_routines_processed = s.offline_routines_processed + 1;
        },
      )
]

pub get_offline_state : String → RoutineService → Option CharacterOfflineState
get_offline_state character_id s = lookup character_id s.offline_states
