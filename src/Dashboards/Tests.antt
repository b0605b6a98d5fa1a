-- ===== src/Dashboards/Tests.antt =====
-- Runs of the dashboards at concrete inputs, with whole numbers in place of doubles.
use mmorpg_design_documents.Base.{◌≡◌, refl, List, [], ◌∷◌}
use mmorpg_design_documents.Base.Int.{pos, ◌-ℤ◌}
use mmorpg_design_documents.Base.Double.{whole_double}
use mmorpg_design_documents.Base.Key.{string_eq}
use mmorpg_design_documents.Events.{new_bus}
use mmorpg_design_documents.Market.{
  PriceHistoryEntry, MarketService, new_market, get_active_listings,
}
use mmorpg_design_documents.Dashboards.{ShortageAlert, detect_shortages}

abbrev grain_trades : List PriceHistoryEntry
grain_trades =
    record {
      canonical_id = "grain";
      price = pos 10;
      quantity = pos 2;
      traded_at_game_day = pos 1;
      timestamp = 5;
    }
    ∷ record {
      canonical_id = "grain";
      price = pos 20;
      quantity = pos 1;
      traded_at_game_day = pos 4;
      timestamp = 6;
    }
    ∷ []

abbrev market : MarketService
market = record (new_market new_bus) { price_history = ("grain", grain_trades) ∷ [] }

abbrev grain_alert : ShortageAlert
grain_alert = record { canonical_id = "grain"; days_since_last_listing = pos 3 }

grain_is_short : detect_shortages (pos 7) market ≡ grain_alert ∷ []
unfolding detect_shortages get_active_listings ◌-ℤ◌
grain_is_short = refl
