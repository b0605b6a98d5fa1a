-- ===== src/Birth/Types.antt =====
-- The state of a birth ritual, server/src/modules/characters/wheels/wheel.types.ts, and that of the
-- service, .../birth/birth.service.ts.
use mmorpg_design_documents.Base.{ℕ, Option, List, String}
use mmorpg_design_documents.Base.Int.{ℤ}
use mmorpg_design_documents.Base.Key.{EntityId}
use mmorpg_design_documents.Base.Dict.{Dict}
use mmorpg_design_documents.Events.{DomainEventBus}
use mmorpg_design_documents.Wheels.{WheelType, WheelError}

pub data BirthStatus : Type 0 where
  unborn : BirthStatus
  in_progress : BirthStatus
  complete : BirthStatus

pub record BirthRitual : Type 0 where
  pub account_id : String
  pub character_id : EntityId
  pub status : BirthStatus
  pub spins : Dict WheelType String
  pub reroll_counts : Dict WheelType ℕ
  pub created_at : ℕ
  pub completed_at : Option ℕ

pub record WheelCooldown : Type 0 where
  pub account_id : String
  pub wheel_type : WheelType
  pub available_at : ℕ

pub record BirthService : Type 0 where
  pub rituals : Dict EntityId BirthRitual
  pub cooldowns : Dict String (List WheelCooldown)
  pub balances : Dict String ℤ
  pub id_counter : ℕ
  pub bus : DomainEventBus

pub data BirthError : Type 0 where
  active_ritual : BirthError
  no_ritual : EntityId → BirthError
  already_completed : BirthError
  cooldown_active : WheelType → ℕ → BirthError
  insufficient_balance : ℤ → BirthError
  wheel_error : WheelError → BirthError
  required_not_spun : WheelType → BirthError
