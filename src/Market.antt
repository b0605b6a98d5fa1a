-- ===== src/Market.antt =====
-- server/src/modules/economy/market.service.ts and the market types of economy.types.ts: balances,
-- listings, orders, the matching of orders against listings and the price history. Objects that
-- the source shares by reference (a listing in a group of candidates) stand in their map, and
-- references to them are the ids under which they stand. A fee of 1 % is counted exactly:
-- `Math.ceil(x * 0.01)` is the next whole number above x / 100 for the whole x that fit a double.
pub mod Trade
pub mod Rounds
pub mod Funds
pub mod Payments
pub mod Soundness
pub mod Listing
mod Tests
use mmorpg_design_documents.Base.{
  ℕ, suc, ◌+◌, ◌-◌, Bool, true, false, ◌&&◌, Option, none, some, List, [], ◌∷◌, ◌++◌, String,
  Result, ok, err, if◌then◌else◌, leb, ltb,
}
use mmorpg_design_documents.Base.Int.{ℤ, pos, ◌+ℤ◌, ◌-ℤ◌, ◌*ℤ◌, floor_div, ltb_ℤ, leb_ℤ, min_ℤ}
use mmorpg_design_documents.Base.Key.{EntityId, issued, ◌==◌, string_eq, entity_eq}
use mmorpg_design_documents.Base.Dict.{Dict, lookup, insert, values, map_values}
use mmorpg_design_documents.Base.Accounts.{or_zero}
use mmorpg_design_documents.Base.Lists.{length, drop, keep}
use mmorpg_design_documents.Events.{DomainEventBus, publish, market_trade_executed}

pub data ListingStatus : Type 0 where
  active fulfilled cancelled expired : ListingStatus

pub data OrderStatus : Type 0 where
  active fulfilled cancelled : OrderStatus

pub record MarketListing : Type 0 where
  pub id : EntityId
  pub seller_id : String
  pub item_instance_id : String
  pub canonical_id : String
  pub price : ℤ
  pub quantity : ℤ
  pub fee : ℤ
  pub status : ListingStatus
  pub created_at_game_day : ℤ
  pub expires_at_game_day : ℤ

pub record MarketOrder : Type 0 where
  pub id : EntityId
  pub buyer_id : String
  pub canonical_id : String
  pub max_price : ℤ
  pub quantity : ℤ
  pub status : OrderStatus
  pub created_at_game_day : ℤ

pub record PriceHistoryEntry : Type 0 where
  pub canonical_id : String
  pub price : ℤ
  pub quantity : ℤ
  pub traded_at_game_day : ℤ
  pub timestamp : ℕ

pub record MarketService : Type 0 where
  pub listings : Dict EntityId MarketListing
  pub orders : Dict EntityId MarketOrder
  pub price_history : Dict String (List PriceHistoryEntry)
  pub balances : Dict String ℤ
  pub total_trade_count : ℕ
  pub total_fees_collected : ℤ
  pub id_counter : ℕ
  pub bus : DomainEventBus

pub data MarketError : Type 0 where
  too_many_listings : String → MarketError
  price_not_positive quantity_not_positive fee_not_covered max_price_not_positive : MarketError

abbrev pub max_active_listings_per_character : ℕ
max_active_listings_per_character = 20

abbrev pub max_price_history_per_item : ℕ
max_price_history_per_item = 30

abbrev pub default_listing_duration_days : ℤ
default_listing_duration_days = pos 30

abbrev pub new_market : DomainEventBus → MarketService
new_market bus = record {
  listings = [];
  orders = [];
  price_history = [];
  balances = [];
  total_trade_count = 0;
  total_fees_collected = pos 0;
  id_counter = 0;
  bus = bus;
}

-- Balances.

unfoldable pub get_balance : MarketService → String → ℤ
get_balance m character_id = or_zero (lookup character_id m.balances)

unfoldable pub credit_balance : String → ℤ → MarketService → MarketService
unfolding get_balance
credit_balance character_id amount m = record m {
  balances = insert character_id (get_balance m character_id +ℤ amount) m.balances;
}

unfoldable pub debit_balance : String → ℤ → MarketService → Bool × MarketService
unfolding get_balance
debit_balance character_id amount m =
    let current = get_balance m character_id in
    if ltb_ℤ current amount
    then (false, m)
    else (true, record m { balances = insert character_id (current -ℤ amount) m.balances })

-- `status === 'active'`
abbrev pub listing_is_active : MarketListing → Bool
listing_is_active l = elim l.status [
  | ListingStatus.active ↦ true
  | ListingStatus.fulfilled ↦ false
  | ListingStatus.cancelled ↦ false
  | ListingStatus.expired ↦ false
]

abbrev pub order_is_active : MarketOrder → Bool
order_is_active o = elim o.status [
  | OrderStatus.active ↦ true
  | OrderStatus.fulfilled ↦ false
  | OrderStatus.cancelled ↦ false
]

-- Queries.

-- `canonicalId && x.canonicalId !== canonicalId`: no filter for a missing or an empty id.
abbrev matches_filter : Option String → String → Bool
matches_filter none canonical_id = true
matches_filter (some wanted) canonical_id = if wanted == "" then true else canonical_id == wanted

unfoldable pub get_active_listings : Option String → MarketService → List MarketListing
get_active_listings wanted m =
    keep (λ l. listing_is_active l && matches_filter wanted l.canonical_id) (values m.listings)

pub get_active_listings_for_character : String → MarketService → List MarketListing
get_active_listings_for_character character_id m =
    keep (λ l. listing_is_active l && l.seller_id == character_id) (values m.listings)

pub get_active_orders : Option String → MarketService → List MarketOrder
get_active_orders wanted m =
    keep (λ o. order_is_active o && matches_filter wanted o.canonical_id) (values m.orders)

pub get_price_history : String → MarketService → List PriceHistoryEntry
get_price_history canonical_id m = elim (lookup canonical_id m.price_history) [
  | none ↦ []
  | some entries ↦ entries
]

pub record EconomyMetricsSnapshot : Type 0 where
  pub total_trade_count : ℕ
  pub active_listings : ℕ
  pub active_orders : ℕ
  pub active_contracts : ℕ
  pub total_fees_collected : ℤ

pub get_economy_metrics : ℕ → MarketService → EconomyMetricsSnapshot
unfolding get_active_listings get_active_orders
get_economy_metrics contract_count m = record {
  total_trade_count = m.total_trade_count;
  active_listings = length (get_active_listings none m);
  active_orders = length (get_active_orders none m);
  active_contracts = contract_count;
  total_fees_collected = m.total_fees_collected;
}

-- Listings and orders.

pub record ListingParams : Type 0 where
  pub seller_id : String
  pub item_instance_id : String
  pub canonical_id : String
  pub price : ℤ
  pub quantity : ℤ
  pub current_game_day : ℤ
  pub expires_at_game_day : Option ℤ

pub record OrderParams : Type 0 where
  pub buyer_id : String
  pub canonical_id : String
  pub max_price : ℤ
  pub quantity : ℤ
  pub current_game_day : ℤ

-- `Math.ceil(price * quantity * LISTING_FEE_RATE)` at the rate of 1 %.
pub listing_fee : ℤ → ℤ → ℤ
listing_fee price quantity = floor_div (price *ℤ quantity +ℤ pos 99) 100

abbrev or_default : Option ℤ → ℤ → ℤ
or_default none d = d
or_default (some x) d = x

-- The listing object, and the store and the counters once it stands in it.
pub place_listing :
    ℕ → ListingParams → ℤ → MarketService → Result MarketError MarketListing × MarketService
place_listing now p fee m =
    let next : ℕ = m.id_counter + 1 in
    let id = issued "lst" now next in
    let listing : MarketListing = record {
      id = id;
      seller_id = p.seller_id;
      item_instance_id = p.item_instance_id;
      canonical_id = p.canonical_id;
      price = p.price;
      quantity = p.quantity;
      fee = fee;
      status = ListingStatus.active;
      created_at_game_day = p.current_game_day;
      expires_at_game_day =
          or_default p.expires_at_game_day (p.current_game_day +ℤ default_listing_duration_days);
    } in
    (
      ok listing,
      record m {
        listings = insert id listing m.listings;
        total_fees_collected = m.total_fees_collected +ℤ fee;
        id_counter = next;
      },
    )

pub create_listing :
    ℕ → ListingParams → MarketService → Result MarketError MarketListing × MarketService
unfolding get_active_listings_for_character listing_fee place_listing
create_listing now p m =
    if leb max_active_listings_per_character
      (length (get_active_listings_for_character p.seller_id m))
    then (err (too_many_listings p.seller_id), m)
    else if leb_ℤ p.price (pos 0)
    then (err price_not_positive, m)
    else if leb_ℤ p.quantity (pos 0)
    then (err quantity_not_positive, m)
    else (let fee = listing_fee p.price p.quantity in
        let (paid, m') = debit_balance p.seller_id fee m in
        if paid then place_listing now p fee m' else (err fee_not_covered, m'))

pub create_order : ℕ → OrderParams → MarketService → Result MarketError MarketOrder × MarketService
create_order now p m =
    if leb_ℤ p.max_price (pos 0)
    then (err max_price_not_positive, m)
    else if leb_ℤ p.quantity (pos 0)
    then (err quantity_not_positive, m)
    else (let next : ℕ = m.id_counter + 1 in
        let id = issued "ord" now next in
        let order : MarketOrder = record {
          id = id;
          buyer_id = p.buyer_id;
          canonical_id = p.canonical_id;
          max_price = p.max_price;
          quantity = p.quantity;
          status = OrderStatus.active;
          created_at_game_day = p.current_game_day;
        } in
        (ok order, record m { orders = insert id order m.orders; id_counter = next }))
