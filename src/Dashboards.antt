-- ===== src/Dashboards.antt =====
-- server/src/modules/economy/dashboards/dashboard.service.ts, with its types of
-- .../economy/economy.types.ts: the figures that the operators read. Percentages and averages are
-- doubles. What `exportReport` writes to the disk is noted in `exports`.
pub mod Types
mod Shortages
mod Summary
mod Tests
unfoldable pub use Types.*
use mmorpg_design_documents.Base.{
  ℕ, not, Bool, true, false, Option, none, some, List, [], ◌∷◌, ◌++◌, String, if◌then◌else◌, ltb,
}
use mmorpg_design_documents.Base.Int.{ℤ, pos, ◌+ℤ◌, ◌-ℤ◌, ◌*ℤ◌, leb_ℤ, ltb_ℤ}
use mmorpg_design_documents.Base.Double.{Double}
use mmorpg_design_documents.Base.Dict.{Dict}
use mmorpg_design_documents.Base.Lists.{keep, length}
use mmorpg_design_documents.Events.{publish, economy_export_completed}
use mmorpg_design_documents.Market.{
  PriceHistoryEntry, MarketListing, MarketService, get_active_listings,
}
use mmorpg_design_documents.Contracts.{ContractsService, get_active_contract_count}

abbrev pub shortage_threshold_days : ℤ
shortage_threshold_days = pos 3

abbrev pub inflation_threshold_percent : ℤ
inflation_threshold_percent = pos 50

abbrev pub inflation_observation_days : ℤ
inflation_observation_days = pos 7

-- `entries.reduce((sum, e) => sum + e.quantity, 0)`
abbrev pub volume_of : List PriceHistoryEntry → ℤ
volume_of [] = pos 0
volume_of (e ∷ es) = e.quantity +ℤ volume_of es

-- `entries.reduce((sum, e) => sum + e.price * e.quantity, 0)`
abbrev pub value_of : List PriceHistoryEntry → ℤ
value_of [] = pos 0
value_of (e ∷ es) = e.price *ℤ e.quantity +ℤ value_of es

-- The last entry of a list that is not empty.
abbrev pub last_entry : PriceHistoryEntry → List PriceHistoryEntry → PriceHistoryEntry
last_entry e [] = e
last_entry e (x ∷ xs) = last_entry x xs

module _ {κ} (W : Type κ) ⦃doubles : Double W⦄ where
  -- `((now - before) / before) * 100`
  abbrev pub change_percent : ℤ → ℤ → W
  change_percent before now =
      doubles.mul (doubles.div (doubles.whole (now -ℤ before)) (doubles.whole before))
        (doubles.whole (pos 100))

  abbrev pub summary_row : String → PriceHistoryEntry → List PriceHistoryEntry → TradeSummaryItem W
  summary_row canonical_id e es = record {
    canonical_id = canonical_id;
    total_volume = volume_of (e ∷ es);
    total_value = value_of (e ∷ es);
    avg_price =
        doubles.div (doubles.whole (value_of (e ∷ es))) (doubles.whole (volume_of (e ∷ es)));
    price_velocity =
        if ltb_ℤ (pos 0) e.price
        then change_percent e.price (last_entry e es).price
        else doubles.whole (pos 0);
  }

  -- The loop over the histories; one without entries is passed over.
  unfoldable pub summary_rows : Dict String (List PriceHistoryEntry) → List (TradeSummaryItem W)
  summary_rows [] = []
  summary_rows (h ∷ hs) =
      let rest = summary_rows hs in elim h.1 [ [] ↦ rest | e ∷ es ↦ summary_row h.0 e es ∷ rest ]

  -- A row among those of no greater value: the greatest value first, equal ones in their order.
  unfoldable pub insert_row :
      TradeSummaryItem W → List (TradeSummaryItem W) → List (TradeSummaryItem W)
  insert_row r [] = r ∷ []
  insert_row r (x ∷ xs) =
      let rest = insert_row r xs in
      if leb_ℤ x.total_value r.total_value then r ∷ x ∷ xs else x ∷ rest

  unfoldable pub sort_rows : List (TradeSummaryItem W) → List (TradeSummaryItem W)
  unfolding insert_row
  sort_rows [] = []
  sort_rows (r ∷ rs) = insert_row r (sort_rows rs)

  unfoldable pub get_summary : MarketService → List (TradeSummaryItem W)
  unfolding sort_rows summary_rows
  get_summary m = sort_rows (summary_rows m.price_history)

unfoldable pub get_sinks : ℤ → MarketService → SinkReport
get_sinks day m = record {
  game_day = day;
  total_fees = m.total_fees_collected;
  total_escrow_lost = pos 0;
}

unfoldable pub get_faucets : ℤ → DashboardService → FaucetReport
get_faucets day d = record {
  game_day = day;
  total_rewards = d.faucet_rewards;
  total_npc_purchases = d.faucet_npc_purchases;
}

unfoldable pub record_faucet_reward : ℤ → DashboardService → DashboardService
record_faucet_reward amount d = record d { faucet_rewards = d.faucet_rewards +ℤ amount }

unfoldable pub record_faucet_npc_purchase : ℤ → DashboardService → DashboardService
record_faucet_npc_purchase amount d = record d {
  faucet_npc_purchases = d.faucet_npc_purchases +ℤ amount;
}

-- The day of the last trade, or 0.
abbrev pub last_trade_day : List PriceHistoryEntry → ℤ
last_trade_day [] = pos 0
last_trade_day (e ∷ es) = (last_entry e es).traded_at_game_day

-- What the loop over the histories adds for an item: the lists of listings and of entries are given.
abbrev pub shortage_of :
    ℤ → String → List MarketListing → List PriceHistoryEntry → List ShortageAlert
shortage_of day canonical_id (l ∷ ls) entries = []
shortage_of day canonical_id [] entries =
    let since = day -ℤ last_trade_day entries in
    if leb_ℤ shortage_threshold_days since
    then record { canonical_id = canonical_id; days_since_last_listing = since } ∷ []
    else []

unfoldable pub shortages_among :
    ℤ → MarketService → Dict String (List PriceHistoryEntry) → List ShortageAlert
shortages_among day m [] = []
shortages_among day m (h ∷ hs) =
    shortage_of day h.0 (get_active_listings (some h.0) m) h.1 ++ shortages_among day m hs

unfoldable pub detect_shortages : ℤ → MarketService → List ShortageAlert
unfolding shortages_among
detect_shortages day m = shortages_among day m m.price_history

module _ {κ} (W : Type κ) ⦃doubles : Double W⦄ where
  -- What the loop adds for an item with these recent entries: none unless there are two.
  abbrev pub inflation_of : String → List PriceHistoryEntry → List (InflationAlert W)
  inflation_of canonical_id [] = []
  inflation_of canonical_id (e ∷ []) = []
  inflation_of canonical_id (e ∷ f ∷ es) =
      let change = change_percent W e.price (last_entry f es).price in
      if leb_ℤ e.price (pos 0)
      then []
      else if doubles.at_most (doubles.whole inflation_threshold_percent) change
      then record {
        canonical_id = canonical_id;
        price_change_percent =
            doubles.div
              (doubles.whole (doubles.round (doubles.mul change (doubles.whole (pos 100)))))
              (doubles.whole (pos 100));
        period_days = inflation_observation_days;
      }
        ∷ []
      else []

  unfoldable pub inflation_among :
      ℤ → Dict String (List PriceHistoryEntry) → List (InflationAlert W)
  inflation_among day [] = []
  inflation_among day (h ∷ hs) =
      let rest = inflation_among day hs in
      if ltb (length h.1) 2
      then rest
      else inflation_of h.0
          (keep (λ e. leb_ℤ (day -ℤ inflation_observation_days) e.traded_at_game_day) h.1)
        ++ rest

  unfoldable pub detect_inflation : ℤ → MarketService → List (InflationAlert W)
  unfolding inflation_among
  detect_inflation day m = inflation_among day m.price_history

  -- The object that is written out.
  unfoldable pub report_of :
      ℕ → ℤ → MarketService → ContractsService → DashboardService → EconomyReport W
  unfolding get_summary get_sinks get_faucets detect_shortages detect_inflation
  report_of now day m cs d = record {
    exported_at = now;
    game_day = day;
    summary = get_summary W m;
    sinks = get_sinks day m;
    faucets = get_faucets day d;
    shortages = detect_shortages day m;
    inflation = detect_inflation day m;
    active_listings = length (get_active_listings none m);
    active_contracts = get_active_contract_count cs;
  }

  -- `exportReport`: the file's path is told by the day and the time in its name.
  unfoldable pub export_report :
      ℕ
      → ℤ
      → MarketService
      → ContractsService
      → DashboardService
      → List (ExportFile × EconomyReport W)
      → ExportFile × DashboardService × List (ExportFile × EconomyReport W)
  unfolding report_of
  export_report now day m cs d exports =
      let report = report_of now day m cs d in
      let file : ExportFile = record { game_day = day; at = now } in
      (
        file,
        record d {
          bus =
              publish now now
                (economy_export_completed (record {
                  file_day = day;
                  file_time = now;
                  row_count = length report.summary;
                  game_day = day;
                }))
                d.bus;
        },
        exports ++ (file, report) ∷ [],
      )
