-- ===== src/Market/Soundness.antt =====
-- server/src/modules/economy/market.service.ts: the well-formedness of the stores.
use mmorpg_design_documents.Base.{
  ℕ, ◌&&◌, ◌-◌, ◌≤◌, ◌≡◌, true, false, Bool-cases, inl, inr, List, [], ◌∷◌, ◌++◌, Result, if_elim,
  arith,
}
use mmorpg_design_documents.Base.Int.{ℤ, pos, ◌-ℤ◌, ◌≤ℤ◌, int_laws, leb_ℤ, min_ℤ, *ℤ_nonneg}
use mmorpg_design_documents.Base.Key.{EntityId, string_eq, entity_eq}
use mmorpg_design_documents.Base.Dict.{Dict, lookup, map_values, Every, insert-Every, lookup-Every}
use mmorpg_design_documents.Base.Lists.{length, length-drop}
use mmorpg_design_documents.Base.Accounts.{or_zero, NonNegative, credit-nonneg, debit-nonneg}
use mmorpg_design_documents.Market.{
  MarketListing, MarketOrder, MarketService, MarketError, ListingParams, OrderParams,
  PriceHistoryEntry, ListingStatus, listing_is_active, order_is_active, place_listing,
  create_listing, create_order, credit_balance,
}
use mmorpg_design_documents.Market.Trade.{
  Matching, settle, sold, bought, expire, expire_listings, push_history, or_empty, match_orders,
}
use mmorpg_design_documents.Market.Rounds.{
  debited, cost, traded, try_trade_cases, match_orders-keeps,
}
use mmorpg_design_documents.Market.Funds.{create_listing_cases}

-- A listing has a positive price, and pieces for sale as long as it is active.
pub record SoundListing (l : MarketListing) : Type 0 where
  pub price : pos 1 ≤ℤ l.price
  pub quantity : pos 0 ≤ℤ l.quantity
  pub live : listing_is_active l ≡ true → pos 1 ≤ℤ l.quantity

-- An order has a positive limit, and pieces to buy as long as it is active.
pub record SoundOrder (o : MarketOrder) : Type 0 where
  pub max_price : pos 1 ≤ℤ o.max_price
  pub quantity : pos 0 ≤ℤ o.quantity
  pub live : order_is_active o ≡ true → pos 1 ≤ℤ o.quantity

pub record ShortHistory (h : List PriceHistoryEntry) : Type 0 where
  pub within : length h ≤ 30

pub record IsSound (m : MarketService) : Type 0 where
  pub balances : Every NonNegative m.balances
  pub listings : Every SoundListing m.listings
  pub orders : Every SoundOrder m.orders
  pub history : Every ShortHistory m.price_history

-- The history holds at most thirty entries after each push, whatever it held before.
push_history-Short :
    (e : PriceHistoryEntry) (h : List PriceHistoryEntry) → ShortHistory (push_history e h)
unfolding push_history
push_history-Short e h = record {
  within = ground (arith, length-drop (length (h ++ e ∷ []) - 30) (h ++ e ∷ []));
}

sold-Sound :
    (l : MarketListing) (q : ℤ) → SoundListing l → q ≤ℤ l.quantity → SoundListing (sold q l)
unfolding sold
sold-Sound l q s h = elim (Bool-cases (leb_ℤ (l.quantity -ℤ q) (pos 0))) [
  | inl gone ↦ record {
    price = s.price;
    quantity = omega int_laws;
    live = λ a. absurd (cc (rw gone at a));
  }
  | inr left ↦ record {
    price = s.price;
    quantity = omega int_laws;
    live = λ a. some_left (l.quantity -ℤ q) left;
  }
]
  where
    some_left : (n : ℤ) → leb_ℤ n (pos 0) ≡ false → pos 1 ≤ℤ n
    some_left n e = ground arith

bought-Sound : (o : MarketOrder) (q : ℤ) → SoundOrder o → q ≤ℤ o.quantity → SoundOrder (bought q o)
unfolding bought
bought-Sound o q s h = elim (Bool-cases (leb_ℤ (o.quantity -ℤ q) (pos 0))) [
  | inl gone ↦ record {
    max_price = s.max_price;
    quantity = omega int_laws;
    live = λ a. absurd (cc (rw gone at a));
  }
  | inr left ↦ record {
    max_price = s.max_price;
    quantity = omega int_laws;
    live = λ a. some_left (o.quantity -ℤ q) left;
  }
]
  where
    some_left : (n : ℤ) → leb_ℤ n (pos 0) ≡ false → pos 1 ≤ℤ n
    some_left n e = ground arith

min_bounds :
    (a b : ℤ) → pos 0 ≤ℤ a → pos 0 ≤ℤ b → (min_ℤ a b ≤ℤ a) × (min_ℤ a b ≤ℤ b) × (pos 0 ≤ℤ min_ℤ a b)
min_bounds a b h k = ground arith

cost-nonneg :
    (l : MarketListing) (o : MarketOrder) → SoundListing l → SoundOrder o → pos 0 ≤ℤ cost l o
cost-nonneg l o s t =
    *ℤ_nonneg l.price (traded l o) (omega (arith, s.price))
      (min_bounds l.quantity o.quantity s.quantity t.quantity).2

settle-IsSound :
    (now : ℕ) (day : ℤ) (order_id listing_id : EntityId) (l : MarketListing) (o : MarketOrder)
    (x : Matching)
    → SoundListing l
    → SoundOrder o
    → cost l o ≤ℤ or_zero (lookup o.buyer_id x.market.balances)
    → IsSound x.market
    → IsSound
        (settle now day order_id listing_id l o
          (traded l o)
          x.count
          (debited o.buyer_id (cost l o) x.market)).market
unfolding settle credit_balance
settle-IsSound now day order_id listing_id l o x s t enough h =
    let bounds = min_bounds l.quantity o.quantity s.quantity t.quantity in
    record {
      balances =
          credit-nonneg l.seller_id (cost l o) _ (cost-nonneg l o s t)
            (debit-nonneg o.buyer_id (cost l o) x.market.balances enough h.balances);
      listings =
          insert-Every SoundListing listing_id _ x.market.listings
            (sold-Sound l (traded l o) s bounds.0) h.listings;
      orders =
          insert-Every SoundOrder order_id _ x.market.orders
            (bought-Sound o (traded l o) t bounds.1) h.orders;
      history =
          insert-Every ShortHistory l.canonical_id _ x.market.price_history
            (push_history-Short
              (record {
                canonical_id = l.canonical_id;
                price = l.price;
                quantity = traded l o;
                traded_at_game_day = day;
                timestamp = now;
              })
              (or_empty (lookup l.canonical_id x.market.price_history)))
            h.history;
    }

expire-Sound : (day : ℤ) (l : MarketListing) → SoundListing l → SoundListing (expire day l)
unfolding expire
expire-Sound day l s =
    if_elim SoundListing (listing_is_active l && leb_ℤ l.expires_at_game_day day)
      (record l { status = ListingStatus.expired }) l
      (λ _. record { price = s.price; quantity = s.quantity; live = λ a. absurd (cc a) }) (λ _. s)

expire-Every :
    (day : ℤ) (d : Dict EntityId MarketListing)
    → Every SoundListing d
    → Every SoundListing (map_values (expire day) d)
expire-Every day [] h = tt
expire-Every day (e ∷ d) h = (expire-Sound day e.1 h.0, expire-Every day d h.1)

-- Matching keeps the stores sound: no balance falls below 0, an active listing or order has pieces
-- left, and no price history grows beyond thirty entries.
pub match_orders-IsSound :
    (now : ℕ) (day : ℤ) (m : MarketService) → IsSound m → IsSound (match_orders now day m).market
unfolding expire_listings
match_orders-IsSound now day m h =
    match_orders-keeps now day (λ x. IsSound x.market)
      (λ order_id listing_id l o x e f g.
        try_trade_cases (λ r. IsSound r.1.market) now day order_id listing_id l o x (λ _. g)
          λ _ _ _ enough.
            settle-IsSound now day order_id listing_id l o x
              (lookup-Every SoundListing listing_id l x.market.listings g.listings e)
              (lookup-Every SoundOrder order_id o x.market.orders g.orders f) enough g)
      m
      (record {
        balances = h.balances;
        listings = expire-Every day m.listings h.listings;
        orders = h.orders;
        history = h.history;
      })

-- Creating a listing, refused or not, keeps the stores sound: no balance falls below 0, and an
-- active listing has a positive price and pieces for sale.
pub create_listing-IsSound :
    (now : ℕ) (p : ListingParams) (m : MarketService)
    → IsSound m
    → IsSound (create_listing now p m).1
unfolding place_listing
create_listing-IsSound now p m h =
    create_listing_cases (λ r. IsSound r.1) now p m (λ _. h)
      λ price quantity _ enough. record {
        balances = debit-nonneg p.seller_id _ m.balances enough h.balances;
        listings =
            insert-Every SoundListing _ _ m.listings
              (record { price = price; quantity = omega (arith, quantity); live = λ _. quantity })
              h.listings;
        orders = h.orders;
        history = h.history;
      }

-- Creating an order, refused or not, keeps the stores sound.
pub create_order-IsSound :
    (now : ℕ) (p : OrderParams) (m : MarketService) → IsSound m → IsSound (create_order now p m).1
unfolding create_order
create_order-IsSound now p m h =
    if_elim (λ (r : Result MarketError MarketOrder × MarketService). IsSound r.1)
      (leb_ℤ p.max_price (pos 0)) _ _ (λ _. h)
      λ price.
        if_elim (λ (r : Result MarketError MarketOrder × MarketService). IsSound r.1)
          (leb_ℤ p.quantity (pos 0)) _ _ (λ _. h)
          λ quantity. record {
            balances = h.balances;
            listings = h.listings;
            orders =
                insert-Every SoundOrder _ _ m.orders
                  (record {
                    max_price = positive p.max_price price;
                    quantity = omega (arith, positive p.quantity quantity);
                    live = λ _. positive p.quantity quantity;
                  })
                  h.orders;
            history = h.history;
          }
  where
    positive : (a : ℤ) → leb_ℤ a (pos 0) ≡ false → pos 1 ≤ℤ a
    positive a e = ground arith
