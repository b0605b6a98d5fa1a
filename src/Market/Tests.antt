-- ===== src/Market/Tests.antt =====
-- Runs of the market at concrete inputs.
use mmorpg_design_documents.Base.{◌≡◌, refl, none, [], ◌∷◌, arith}
use mmorpg_design_documents.Base.Int.{pos, ◌+ℤ◌, ◌-ℤ◌, ◌*ℤ◌, floor_div}
use mmorpg_design_documents.Base.Key.{string_eq, entity_eq, entity_beq}
use mmorpg_design_documents.Base.Dict.{lookup, insert}
use mmorpg_design_documents.Events.{new_bus}
use mmorpg_design_documents.Market.{
  MarketService, ListingParams, OrderParams, new_market, get_balance, credit_balance, debit_balance,
  create_listing, create_order,
}
use mmorpg_design_documents.Market.Trade.{match_orders}
use mmorpg_design_documents.Market.Payments.{Paid, match_orders-Paid}
use mmorpg_design_documents.Market.Soundness.{
  IsSound, match_orders-IsSound, create_listing-IsSound, create_order-IsSound,
}

abbrev opening : MarketService
opening = record (new_market new_bus) {
  balances = ("sam", pos 10) ∷ ("tia", pos 10) ∷ ("ben", pos 500) ∷ [];
}

abbrev offer : ListingParams
offer = record {
  seller_id = "sam";
  item_instance_id = "item-1";
  canonical_id = "bread";
  price = pos 40;
  quantity = pos 5;
  current_game_day = pos 0;
  expires_at_game_day = none;
}

abbrev wish : OrderParams
wish = record {
  buyer_id = "ben";
  canonical_id = "bread";
  max_price = pos 50;
  quantity = pos 7;
  current_game_day = pos 0;
}

-- Two listings, the cheaper one second, and an order for more than either has.
stocked : MarketService
unfolding create_listing create_order
stocked =
    let a = (create_listing 1 offer opening).1 in
    let b = (create_listing 2 (record offer { seller_id = "tia"; price = pos 30 }) a).1 in
    (create_order 3 wish b).1

abbrev after_match : MarketService
after_match = (match_orders 4 (pos 1) stocked).market

-- The cheaper listing sells first: five pieces at 30, then two at 40, after fees of 2 each.
match_orders_run :
    (get_balance after_match "tia" ≡ pos 158)
    × (get_balance after_match "sam" ≡ pos 88)
    × (get_balance after_match "ben" ≡ pos 270)
    × ((match_orders 4 (pos 1) stocked).count ≡ 2)
unfolding match_orders stocked get_balance credit_balance debit_balance lookup insert entity_beq
    ◌+ℤ◌ ◌-ℤ◌ ◌*ℤ◌ floor_div
match_orders_run = (refl, refl, refl, refl)

match_orders-Paid_example : Paid stocked (match_orders 4 (pos 1) stocked)
match_orders-Paid_example = match_orders-Paid 4 (pos 1) stocked

opening-IsSound : IsSound opening
opening-IsSound = record {
  balances = (omega arith, (omega arith, (omega arith, tt)));
  listings = tt;
  orders = tt;
  history = tt;
}

stocked-IsSound : IsSound stocked
unfolding stocked
stocked-IsSound = create_order-IsSound 3 wish _ (
    create_listing-IsSound 2 (record offer { seller_id = "tia"; price = pos 30 }) _
      (create_listing-IsSound 1 offer opening opening-IsSound))

match_orders-IsSound_example : IsSound after_match
match_orders-IsSound_example = match_orders-IsSound 4 (pos 1) stocked stocked-IsSound
