-- ===== src/Market/Listing.antt =====
-- server/src/modules/economy/market.service.ts: which listings and orders a matching touches, and
-- the trades that it makes.
use mmorpg_design_documents.Base.{
  ℕ, ◌+◌, ◌≡◌, refl, ◌∙◌, ap, true, false, ◌&&◌, Bool-cases, inl, inr, [], ◌∷◌, if_elim, arith,
}
use mmorpg_design_documents.Base.Int.{ℤ, pos, ◌-ℤ◌, ◌<ℤ◌, leb_ℤ}
use mmorpg_design_documents.Base.Key.{EntityId, string_eq, entity_eq}
use mmorpg_design_documents.Base.Dict.{Dict, map_values, Every, insert-Every, lookup-Every}
use mmorpg_design_documents.Base.Lists.{length, length-append}
use mmorpg_design_documents.Events.{DomainEventBus, publish}
use mmorpg_design_documents.Market.{
  MarketListing, MarketOrder, MarketService, ListingStatus, listing_is_active, credit_balance,
}
use mmorpg_design_documents.Market.Trade.{
  Matching, settle, sold, expire, expire_listings, match_orders,
}
use mmorpg_design_documents.Market.Rounds.{traded, try_trade_cases, match_orders-keeps}

-- An active listing has not run out by the given day.
pub record IsCurrent (day : ℤ) (l : MarketListing) : Type 0 where
  pub later : listing_is_active l ≡ true → day <ℤ l.expires_at_game_day

sold-IsCurrent : (day q : ℤ) (l : MarketListing) → IsCurrent day l → IsCurrent day (sold q l)
unfolding sold
sold-IsCurrent day q l h = elim (Bool-cases (leb_ℤ (l.quantity -ℤ q) (pos 0))) [
  | inl gone ↦ record { later = λ a. absurd (cc (rw gone at a)) }
  | inr left ↦ record { later = λ a. h.later (rw left at a) }
]

expire-IsCurrent : (day : ℤ) (l : MarketListing) → IsCurrent day (expire day l)
unfolding expire
expire-IsCurrent day l =
    if_elim (IsCurrent day) (listing_is_active l && leb_ℤ l.expires_at_game_day day)
      (record l { status = ListingStatus.expired }) l (λ _. record { later = λ a. absurd (cc a) })
      (λ h. record { later = λ a. later h a })
  where
    later :
        (listing_is_active l && leb_ℤ l.expires_at_game_day day) ≡ false
        → listing_is_active l ≡ true
        → day <ℤ l.expires_at_game_day
    later h a = not_leb l.expires_at_game_day (rw a at h)
      where
        not_leb : (n : ℤ) → leb_ℤ n day ≡ false → day <ℤ n
        not_leb n e = ground arith

expire-Every :
    (day : ℤ) (d : Dict EntityId MarketListing) → Every (IsCurrent day) (map_values (expire day) d)
expire-Every day [] = tt
expire-Every day (e ∷ d) = (expire-IsCurrent day e.1, expire-Every day d)

settle-IsCurrent :
    (now : ℕ) (day : ℤ) (order_id listing_id : EntityId) (l : MarketListing) (o : MarketOrder)
    (q : ℤ) (n : ℕ) (m : MarketService)
    → IsCurrent day l
    → Every (IsCurrent day) m.listings
    → Every (IsCurrent day) (settle now day order_id listing_id l o q n m).market.listings
unfolding settle credit_balance
settle-IsCurrent now day order_id listing_id l o q n m s h =
    insert-Every (IsCurrent day) listing_id _ m.listings (sold-IsCurrent day q l s) h

-- After matching on a day, no listing that is still active has run out by that day.
pub match_orders-IsCurrent :
    (now : ℕ) (day : ℤ) (m : MarketService)
    → Every (IsCurrent day) (match_orders now day m).market.listings
unfolding expire_listings
match_orders-IsCurrent now day m =
    match_orders-keeps now day (λ x. Every (IsCurrent day) x.market.listings)
      (λ order_id listing_id l o x e _ g.
        try_trade_cases (λ r. Every (IsCurrent day) r.1.market.listings) now day order_id listing_id
          l o x (λ _. g)
          λ _ _ _ _.
            settle-IsCurrent now day order_id listing_id l o (traded l o) x.count _
              (lookup-Every (IsCurrent day) listing_id l x.market.listings g e) g)
      m (expire-Every day m.listings)

-- The trades counted are the trades made: the matching's count is the rise of the trade counter and
-- the number of events published.
pub record IsCounted (m : MarketService) (x : Matching) : Type 0 where
  pub trades : x.market.total_trade_count ≡ m.total_trade_count + x.count
  pub events : length x.market.bus.emitted ≡ length m.bus.emitted + x.count

settle-IsCounted :
    (start : MarketService) (now : ℕ) (day : ℤ) (order_id listing_id : EntityId) (l : MarketListing)
    (o : MarketOrder) (q : ℤ) (x : Matching) (m : MarketService)
    → m.total_trade_count ≡ x.market.total_trade_count
    → m.bus ≡ x.market.bus
    → IsCounted start x
    → IsCounted start (settle now day order_id listing_id l o q x.count m)
unfolding settle credit_balance publish
settle-IsCounted start now day order_id listing_id l o q x m same_count same_bus h = record {
  trades = omega (arith, h.trades);
  events =
      length-append m.bus.emitted _
      ∙ (omega (arith, ap (λ (b : DomainEventBus). length b.emitted) same_bus, h.events));
}

-- `matchOrders` returns the number of trades: the trade counter rises by it, and as many events are
-- published.
pub match_orders-IsCounted :
    (now : ℕ) (day : ℤ) (m : MarketService) → IsCounted m (match_orders now day m)
unfolding expire_listings
match_orders-IsCounted now day m =
    match_orders-keeps now day (IsCounted m)
      (λ order_id listing_id l o x _ _ g.
        try_trade_cases (λ r. IsCounted m r.1) now day order_id listing_id l o x (λ _. g)
          λ _ _ _ _.
            settle-IsCounted m now day order_id listing_id l o (traded l o) x _ refl refl g)
      m (record { trades = omega arith; events = omega arith })
