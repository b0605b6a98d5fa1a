-- ===== src/Market/Funds.antt =====
-- server/src/modules/economy/market.service.ts: where the money goes.
use mmorpg_design_documents.Base.{
  ℕ, ◌≡◌, refl, ◌∙◌, ap, false, Result, err, if_elim, arith, leb, suc, ◌≤◌, if◌then◌else◌,
}
use mmorpg_design_documents.Base.Int.{ℤ, pos, ◌+ℤ◌, ◌≤ℤ◌, int_laws, leb_ℤ}
use mmorpg_design_documents.Base.Key.{EntityId, string_eq, entity_eq}
use mmorpg_design_documents.Base.Dict.{lookup}
use mmorpg_design_documents.Base.Lists.{length}
use mmorpg_design_documents.Base.Accounts.{or_zero, total, total-credit, total-debit}
use mmorpg_design_documents.Market.{
  MarketListing, MarketOrder, MarketService, MarketError, fee_not_covered, ListingParams,
  get_active_listings_for_character, max_active_listings_per_character, credit_balance,
  create_listing, place_listing, listing_fee,
}
use mmorpg_design_documents.Market.Trade.{
  Matching, settle, try_trade, match_orders, expire_listings,
}
use mmorpg_design_documents.Market.Rounds.{
  debited, cost, traded, debit_cases, try_trade_cases, match_orders-keeps,
}

-- All the characters' balances together.
abbrev pub money : MarketService → ℤ
money m = total m.balances

settle-money :
    (now : ℕ) (day : ℤ) (order_id listing_id : EntityId) (l : MarketListing) (o : MarketOrder)
    (x : Matching)
    → money
        (settle now day order_id listing_id l o
          (traded l o)
          x.count
          (debited o.buyer_id (cost l o) x.market)).market
      ≡ money x.market
unfolding settle credit_balance
settle-money now day order_id listing_id l o x =
    total-credit l.seller_id (cost l o) _
    ∙ ap (λ (t : ℤ). t +ℤ cost l o) (total-debit o.buyer_id (cost l o) x.market.balances)
    ∙ (omega int_laws)

try_trade-money :
    (now : ℕ) (day : ℤ) (order_id listing_id : EntityId) (l : MarketListing) (o : MarketOrder)
    (x : Matching)
    → money (try_trade now day order_id listing_id l o x).1.market ≡ money x.market
try_trade-money now day order_id listing_id l o x =
    try_trade_cases (λ r. money r.1.market ≡ money x.market) now day order_id listing_id l o x
      (λ more. refl) (λ more _ _ _. settle-money now day order_id listing_id l o x)

-- Matching moves money from buyers to sellers, and makes and loses none.
pub money-match_orders :
    (now : ℕ) (day : ℤ) (m : MarketService) → money (match_orders now day m).market ≡ money m
unfolding expire_listings
money-match_orders now day m =
    match_orders-keeps now day (λ x. money x.market ≡ money m)
      (λ order_id listing_id l o x _ _ h. try_trade-money now day order_id listing_id l o x ∙ h) m
      refl

-- How `createListing` can end: refused with nothing changed, or the fee is debited and the listing
-- placed.
pub create_listing_cases {ℓ} :
    (P : Result MarketError MarketListing × MarketService → Type ℓ) (now : ℕ) (p : ListingParams)
    (m : MarketService)
    → ((e : MarketError) → P (err e, m))
    → (pos 1 ≤ℤ p.price
        → pos 1 ≤ℤ p.quantity
        → suc (length (get_active_listings_for_character p.seller_id m))
          ≤ max_active_listings_per_character
        → listing_fee p.price p.quantity ≤ℤ or_zero (lookup p.seller_id m.balances)
        → P (
            place_listing now p
              (listing_fee p.price p.quantity)
              (debited p.seller_id (listing_fee p.price p.quantity) m)))
    → P (create_listing now p m)
unfolding create_listing
create_listing_cases P now p m refused placed =
    if_elim P
      (leb max_active_listings_per_character
        (length (get_active_listings_for_character p.seller_id m)))
      _ _ (λ _. refused _)
      λ room.
        if_elim P (leb_ℤ p.price (pos 0)) _ _ (λ _. refused _)
          λ price.
            if_elim P (leb_ℤ p.quantity (pos 0)) _ _ (λ _. refused _)
              λ quantity.
                debit_cases
                  (λ r. P (if r.0 then place_listing now p fee r.1 else (err fee_not_covered, r.1)))
                  p.seller_id fee m (refused _)
                  (λ enough.
                    placed (positive p.price price) (positive p.quantity quantity) (below _ room)
                      enough)
  where
    fee : ℤ
    fee = listing_fee p.price p.quantity

    positive : (a : ℤ) → leb_ℤ a (pos 0) ≡ false → pos 1 ≤ℤ a
    positive a h = ground arith

    below : (n : ℕ) → leb 20 n ≡ false → suc n ≤ 20
    below n h = ground arith

-- What the characters hold and the fees collected, together.
abbrev pub accounted : MarketService → ℤ
accounted m = money m +ℤ m.total_fees_collected

-- Creating a listing, whether it is refused or placed, moves money from the seller to the fees
-- collected and nowhere else.
pub accounted-create_listing :
    (now : ℕ) (p : ListingParams) (m : MarketService)
    → accounted (create_listing now p m).1 ≡ accounted m
unfolding place_listing
accounted-create_listing now p m =
    create_listing_cases (λ r. accounted r.1 ≡ accounted m) now p m (λ e. refl)
      λ _ _ _ _.
        ap (λ (t : ℤ). t +ℤ (m.total_fees_collected +ℤ fee))
          (total-debit p.seller_id fee m.balances)
        ∙ (omega int_laws)
  where
    fee : ℤ
    fee = listing_fee p.price p.quantity
