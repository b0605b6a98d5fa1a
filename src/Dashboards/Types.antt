-- ===== src/Dashboards/Types.antt =====
-- The reports of server/src/modules/economy/economy.types.ts, and the state of
-- .../dashboards/dashboard.service.ts.
use mmorpg_design_documents.Base.{ℕ, List, String}
use mmorpg_design_documents.Base.Int.{ℤ}
use mmorpg_design_documents.Events.{DomainEventBus}

pub record TradeSummaryItem {κ} (W : Type κ) : Type κ where
  pub canonical_id : String
  pub total_volume : ℤ
  pub total_value : ℤ
  pub avg_price : W
  pub price_velocity : W

pub record SinkReport : Type 0 where
  pub game_day : ℤ
  pub total_fees : ℤ
  pub total_escrow_lost : ℤ

pub record FaucetReport : Type 0 where
  pub game_day : ℤ
  pub total_rewards : ℤ
  pub total_npc_purchases : ℤ

pub record ShortageAlert : Type 0 where
  pub canonical_id : String
  pub days_since_last_listing : ℤ

pub record InflationAlert {κ} (W : Type κ) : Type κ where
  pub canonical_id : String
  pub price_change_percent : W
  pub period_days : ℤ

pub record DashboardService : Type 0 where
  pub faucet_rewards : ℤ
  pub faucet_npc_purchases : ℤ
  pub bus : DomainEventBus

pub record EconomyReport {κ} (W : Type κ) : Type κ where
  pub exported_at : ℕ
  pub game_day : ℤ
  pub summary : List (TradeSummaryItem W)
  pub sinks : SinkReport
  pub faucets : FaucetReport
  pub shortages : List ShortageAlert
  pub inflation : List (InflationAlert W)
  pub active_listings : ℕ
  pub active_contracts : ℕ

-- The file `economy_report_day_${gameDay}_${at}.json`.
pub record ExportFile : Type 0 where
  pub game_day : ℤ
  pub at : ℕ
