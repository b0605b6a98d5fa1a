-- ===== src/Dashboards/Shortages.antt =====
-- server/src/modules/economy/dashboards/dashboard.service.ts, `detectShortages`: which items it tells.
use mmorpg_design_documents.Base.{◌≡◌, ◌⊎◌, some, List, [], ◌∷◌, ◌++◌, String}
use mmorpg_design_documents.Base.Int.{ℤ, pos, ◌-ℤ◌, ◌≤ℤ◌}
use mmorpg_design_documents.Base.Dict.{Dict}
use mmorpg_design_documents.Market.{PriceHistoryEntry, MarketService, get_active_listings}
use mmorpg_design_documents.Dashboards.{ShortageAlert}

-- The value stands in the list.
abbrev pub Among : {A : Type 0} → A → List A → Type 0
Among x [] = ⊥
Among x (y ∷ ys) = (x ≡ y) ⊎ Among x ys

-- The day of the last of the trades, or 0 where there is none.
abbrev pub LastTraded : List PriceHistoryEntry → ℤ → Type 0
LastTraded entries d =
    ((entries ≡ []) × (d ≡ pos 0))
    ⊎ ((before : List PriceHistoryEntry) × (e : PriceHistoryEntry) × (entries ≡ before ++ (e ∷ []))
        × (e.traded_at_game_day ≡ d))

-- An item of the history that nobody offers and that was last traded three days ago or earlier.
pub record IsShortage (day : ℤ) (m : MarketService) (history : Dict String (List PriceHistoryEntry))
    (a : ShortageAlert) : Type 0 where
  pub entries : List PriceHistoryEntry
  pub last : ℤ
  pub listed : Among (a.canonical_id, entries) history
  pub unoffered : get_active_listings (some a.canonical_id) m ≡ []
  pub traded : LastTraded entries last
  pub since : a.days_since_last_listing ≡ day -ℤ last
  pub long_ago : pos 3 ≤ℤ a.days_since_last_listing
