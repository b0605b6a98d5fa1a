-- ===== src/Events/Payloads.antt =====
-- server/src/common/domain-events.ts: the payloads of the events that the modelled services emit.
-- Each constructor is one event type; `type_of` is its `type` text.
use mmorpg_design_documents.Base.{ℕ, List, Option, String}
use mmorpg_design_documents.Base.Int.{ℤ}
use mmorpg_design_documents.Base.Key.{EntityId}

pub record CurrencyTransferredPayload : Type 0 where
  pub transaction_id : EntityId
  pub from_id : Option String
  pub to_id : Option String
  pub currency_id : String
  pub amount : ℤ
  pub reason : String

pub record MarketTradeExecutedPayload : Type 0 where
  pub listing_id : EntityId
  pub order_id : EntityId
  pub canonical_id : String
  pub seller_id : String
  pub buyer_id : String
  pub price : ℤ
  pub quantity : ℤ
  pub fee : ℤ

pub record ContractCompletedPayload : Type 0 where
  pub contract_id : EntityId
  pub contract_type : String
  pub offerer_id : String
  pub acceptor_id : Option String
  pub escrow_amount : ℤ

pub record ContractBreachedPayload : Type 0 where
  pub contract_id : EntityId
  pub contract_type : String
  pub breached_by_id : String
  pub non_breaching_id : Option String
  pub escrow_amount : ℤ

pub record ActionSubmittedPayload : Type 0 where
  pub character_id : String
  pub definition_id : String
  pub started_at_world_ms : ℤ
  pub ends_at_world_ms : ℤ

-- `needs_modifier` is `rewards.needsModifier` in hundredths.
pub record ActionResolvedPayload : Type 0 where
  pub character_id : String
  pub definition_id : String
  pub completed_at_world_ms : ℤ
  pub needs_modifier : ℤ

pub record ActionCancelledPayload : Type 0 where
  pub character_id : String
  pub definition_id : String
  pub cancelled_at_world_ms : ℤ

pub record NeedsCriticalWarningPayload : Type 0 where
  pub character_id : String
  pub dimension : String
  pub value : ℤ
  pub game_day : ℤ

pub record LifeStageTransitionPayload : Type 0 where
  pub character_id : String
  pub previous_stage : String
  pub new_stage : String
  pub age_in_game_years : ℤ
  pub game_day : ℤ

pub record OfflineReportGeneratedPayload : Type 0 where
  pub character_id : String
  pub offline_duration_ms : ℤ
  pub actions_completed : ℤ
  pub total_xp_earned : ℤ
  pub warnings : List String

pub record HazardEntry : Type 0 where
  pub segment : ℕ
  pub roll : ℕ
  pub outcome : String

pub record TravelArrivedPayload : Type 0 where
  pub journey_id : EntityId
  pub character_id : String
  pub from_node_id : String
  pub to_node_id : String
  pub cargo_lost : List String
  pub hazard_log : List HazardEntry
  pub arrived_at_world_ms : ℤ

pub record ConditionAppliedPayload : Type 0 where
  pub character_id : String
  pub condition_id : EntityId
  pub condition_type : String
  pub severity : ℤ
  pub duration_days : ℤ

pub record ConditionResolvedPayload : Type 0 where
  pub character_id : String
  pub condition_id : EntityId
  pub condition_type : String
  pub severity : ℤ

-- The two texts of times are the times that they print, in milliseconds.
pub record TickCompletedPayload : Type 0 where
  pub game_day : ℤ
  pub world_utc : ℤ
  pub realtime_utc : ℤ
  pub drift_ms : ℤ

pub record SkillLevelUpPayload : Type 0 where
  pub character_id : String
  pub skill : String
  pub new_level : ℤ

pub record ModerationActionAppliedPayload : Type 0 where
  pub report_id : EntityId
  pub target_id : String
  pub action : String
  pub moderator_id : String

pub record AccountCreatedPayload : Type 0 where
  pub account_id : String

pub record AccountLoggedInPayload : Type 0 where
  pub account_id : String

pub record WheelResult : Type 0 where
  pub race : String
  pub aptitude : String
  pub trait : String
  pub origin : String
  pub omen : Option String

pub record CharacterBornPayload : Type 0 where
  pub account_id : String
  pub character_id : EntityId
  pub wheel_outcomes : WheelResult

pub record CharacterDiedPayload : Type 0 where
  pub account_id : String
  pub character_id : String
  pub reason : String

pub record StatsInitialisedPayload : Type 0 where
  pub character_id : String
  pub stat_family_count : ℕ
  pub potential_key_count : ℕ

pub record TraitsRolledPayload : Type 0 where
  pub character_id : String
  pub trait_buckets : List (String × String)

-- The path of the file is told by the day and the time in its name.
pub record EconomyExportCompletedPayload : Type 0 where
  pub file_day : ℤ
  pub file_time : ℕ
  pub row_count : ℕ
  pub game_day : ℤ

pub data Payload : Type 0 where
  currency_transferred : CurrencyTransferredPayload → Payload
  market_trade_executed : MarketTradeExecutedPayload → Payload
  contract_completed : ContractCompletedPayload → Payload
  contract_breached : ContractBreachedPayload → Payload
  action_submitted : ActionSubmittedPayload → Payload
  action_resolved : ActionResolvedPayload → Payload
  action_cancelled : ActionCancelledPayload → Payload
  needs_critical_warning : NeedsCriticalWarningPayload → Payload
  life_stage_transition : LifeStageTransitionPayload → Payload
  offline_report_generated : OfflineReportGeneratedPayload → Payload
  travel_arrived : TravelArrivedPayload → Payload
  condition_applied : ConditionAppliedPayload → Payload
  condition_resolved : ConditionResolvedPayload → Payload
  tick_completed : TickCompletedPayload → Payload
  skill_level_up : SkillLevelUpPayload → Payload
  moderation_action_applied : ModerationActionAppliedPayload → Payload
  character_born : CharacterBornPayload → Payload
  account_created : AccountCreatedPayload → Payload
  account_logged_in : AccountLoggedInPayload → Payload
  character_died : CharacterDiedPayload → Payload
  stats_initialised : StatsInitialisedPayload → Payload
  traits_rolled : TraitsRolledPayload → Payload
  economy_export_completed : EconomyExportCompletedPayload → Payload

abbrev pub type_of : Payload → String
type_of (currency_transferred p) = "CurrencyTransferred"
type_of (market_trade_executed p) = "MarketTradeExecuted"
type_of (contract_completed p) = "ContractCompleted"
type_of (contract_breached p) = "ContractBreached"
type_of (action_submitted p) = "ActionSubmitted"
type_of (action_resolved p) = "ActionResolved"
type_of (action_cancelled p) = "ActionCancelled"
type_of (needs_critical_warning p) = "NeedsCriticalWarning"
type_of (life_stage_transition p) = "LifeStageTransition"
type_of (offline_report_generated p) = "OfflineReportGenerated"
type_of (travel_arrived p) = "TravelArrived"
type_of (condition_applied p) = "ConditionApplied"
type_of (condition_resolved p) = "ConditionResolved"
type_of (tick_completed p) = "TickCompleted"
type_of (skill_level_up p) = "SkillLevelUp"
type_of (moderation_action_applied p) = "ModerationActionApplied"
type_of (character_born p) = "CharacterBorn"
type_of (character_died p) = "CharacterDied"
type_of (stats_initialised p) = "StatsInitialised"
type_of (traits_rolled p) = "TraitsRolled"
type_of (economy_export_completed p) = "EconomyExportCompleted"
type_of (account_created p) = "AccountCreated"
type_of (account_logged_in p) = "AccountLoggedIn"
