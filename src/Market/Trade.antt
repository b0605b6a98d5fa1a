-- ===== src/Market/Trade.antt =====
-- server/src/modules/economy/market.service.ts, `matchOrders` and `recordPriceHistory`.
use mmorpg_design_documents.Base.{
  ℕ, ◌+◌, ◌-◌, Bool, true, false, ◌&&◌, Option, none, some, List, [], ◌∷◌, ◌++◌, String,
  if◌then◌else◌, ltb,
}
use mmorpg_design_documents.Base.Int.{ℤ, pos, ◌-ℤ◌, ◌*ℤ◌, ltb_ℤ, leb_ℤ, min_ℤ}
use mmorpg_design_documents.Base.Key.{EntityId, string_eq, entity_eq}
use mmorpg_design_documents.Base.Dict.{Dict, lookup, insert, map_values}
use mmorpg_design_documents.Base.Lists.{length, drop}
use mmorpg_design_documents.Events.{publish, market_trade_executed}
use mmorpg_design_documents.Market.{
  ListingStatus, OrderStatus, MarketListing, MarketOrder, PriceHistoryEntry, MarketService,
  max_price_history_per_item, credit_balance, debit_balance, listing_is_active, order_is_active,
}

abbrev pub or_empty {ℓ} : {A : Type ℓ} → Option (List A) → List A
or_empty none = []
or_empty (some xs) = xs

-- `history.push(entry)`, then `splice` off the front what is above the limit.
unfoldable pub push_history : PriceHistoryEntry → List PriceHistoryEntry → List PriceHistoryEntry
push_history entry history =
    let pushed = history ++ entry ∷ [] in
    if ltb max_price_history_per_item (length pushed)
    then drop (length pushed - max_price_history_per_item) pushed
    else pushed

unfoldable pub record_price_history : PriceHistoryEntry → MarketService → MarketService
unfolding push_history
record_price_history entry m = record m {
  price_history =
      insert entry.canonical_id
        (push_history entry (or_empty (lookup entry.canonical_id m.price_history))) m.price_history;
}

-- The matches so far, beside the market.
pub record Matching : Type 0 where
  pub count : ℕ
  pub market : MarketService

-- What a trade leaves of the listing and of the order.
unfoldable pub sold : ℤ → MarketListing → MarketListing
sold quantity l =
    let left = l.quantity -ℤ quantity in
    record l {
      quantity = left;
      status = if leb_ℤ left (pos 0) then ListingStatus.fulfilled else l.status;
    }

unfoldable pub bought : ℤ → MarketOrder → MarketOrder
bought quantity o =
    let left = o.quantity -ℤ quantity in
    record o {
      quantity = left;
      status = if leb_ℤ left (pos 0) then OrderStatus.fulfilled else o.status;
    }

-- The body of the candidates' loop once the buyer has paid.
unfoldable pub settle :
    ℕ → ℤ → EntityId → EntityId → MarketListing → MarketOrder → ℤ → ℕ → MarketService → Matching
unfolding record_price_history sold bought
settle now day order_id listing_id l o quantity count m =
    let paid = credit_balance l.seller_id (l.price *ℤ quantity) m in
    let moved = record paid {
      listings = insert listing_id (sold quantity l) paid.listings;
      orders = insert order_id (bought quantity o) paid.orders;
    } in
    let noted =
      record_price_history
        (record {
          canonical_id = l.canonical_id;
          price = l.price;
          quantity = quantity;
          traded_at_game_day = day;
          timestamp = now;
        })
        moved in
    record {
      count = count + 1;
      market = record noted {
        bus =
            publish now now
              (market_trade_executed (record {
                listing_id = l.id;
                order_id = o.id;
                canonical_id = l.canonical_id;
                seller_id = l.seller_id;
                buyer_id = o.buyer_id;
                price = l.price;
                quantity = quantity;
                fee = l.fee;
              }))
              noted.bus;
        total_trade_count = noted.total_trade_count + 1;
      };
    }

-- One round of the candidates' loop for two objects that are there; the flag says whether the
-- loop goes on.
unfoldable pub try_trade :
    ℕ → ℤ → EntityId → EntityId → MarketListing → MarketOrder → Matching → Bool × Matching
unfolding settle
try_trade now day order_id listing_id l o x =
    if listing_is_active l
    then (if ltb_ℤ o.max_price l.price
        then (false, x)
        else (let quantity = min_ℤ l.quantity o.quantity in
            let (paid, m) = debit_balance o.buyer_id (l.price *ℤ quantity) x.market in
            if paid
            then (
              ltb_ℤ (pos 0) (o.quantity -ℤ quantity),
              settle now day order_id listing_id l o quantity x.count m,
            )
            else (true, record x { market = m })))
    else (true, x)

-- The same for two references. Both objects are always there; nothing happens if one is not.
unfoldable pub try_candidate : ℕ → ℤ → EntityId → EntityId → Matching → Bool × Matching
unfolding try_trade
try_candidate now day order_id listing_id x = elim (lookup listing_id x.market.listings) [
  | none ↦ (true, x)
  | some l ↦ elim (lookup order_id x.market.orders) [
    | none ↦ (true, x)
    | some o ↦ try_trade now day order_id listing_id l o x
  ]
]

-- `for (const listing of candidates)`
unfoldable pub try_candidates : ℕ → ℤ → EntityId → List EntityId → Matching → Matching
unfolding try_candidate
try_candidates now day order_id [] x = x
try_candidates now day order_id (c ∷ cs) x =
    let (more, x') = try_candidate now day order_id c x in
    elim more [ true ↦ try_candidates now day order_id cs x' | false ↦ x' ]

-- `candidates.sort((a, b) => a.price - b.price)`, which is stable.
abbrev pub price_of : Dict EntityId MarketListing → EntityId → ℤ
price_of listings id = elim (lookup id listings) [ none ↦ pos 0 | some l ↦ l.price ]

unfoldable pub insert_by_price :
    Dict EntityId MarketListing → EntityId → List EntityId → List EntityId
insert_by_price listings id [] = id ∷ []
insert_by_price listings id (c ∷ cs) =
    if leb_ℤ (price_of listings id) (price_of listings c)
    then id ∷ c ∷ cs
    else c ∷ insert_by_price listings id cs

unfoldable pub sort_by_price : Dict EntityId MarketListing → List EntityId → List EntityId
unfolding insert_by_price
sort_by_price listings [] = []
sort_by_price listings (c ∷ cs) = insert_by_price listings c (sort_by_price listings cs)

-- The active listings grouped by canonical id.
unfoldable pub group_listings :
    Dict EntityId MarketListing → Dict String (List EntityId) → Dict String (List EntityId)
group_listings [] groups = groups
group_listings (e ∷ listings) groups = group_listings listings (
    if listing_is_active e.1
    then insert e.1.canonical_id (or_empty (lookup e.1.canonical_id groups) ++ e.0 ∷ []) groups
    else groups)

-- One round of the orders' loop; sorting is in place, so the groups change too.
unfoldable pub match_order :
    ℕ
    → ℤ
    → EntityId
    → Dict String (List EntityId) × Matching
    → Dict String (List EntityId) × Matching
unfolding try_candidates sort_by_price
match_order now day order_id (groups, x) = elim (lookup order_id x.market.orders) [
  | none ↦ (groups, x)
  | some o ↦
      if order_is_active o
      then elim (or_empty (lookup o.canonical_id groups)) [
        | [] ↦ (groups, x)
        | c ∷ cs ↦
            let candidates = sort_by_price x.market.listings (c ∷ cs) in
            (insert o.canonical_id candidates groups, try_candidates now day order_id candidates x)
      ]
      else (groups, x)
]

-- `for (const order of this.orders.values())`
unfoldable pub match_each :
    ℕ
    → ℤ
    → List EntityId
    → Dict String (List EntityId) × Matching
    → Dict String (List EntityId) × Matching
unfolding match_order
match_each now day [] gx = gx
match_each now day (id ∷ ids) gx = match_each now day ids (match_order now day id gx)

abbrev pub keys {ℓ κ} : {K : Type ℓ} {V : Type κ} → Dict K V → List K
keys [] = []
keys (e ∷ d) = e.0 ∷ keys d

unfoldable pub expire : ℤ → MarketListing → MarketListing
expire day l =
    if listing_is_active l && leb_ℤ l.expires_at_game_day day
    then record l { status = ListingStatus.expired }
    else l

unfoldable pub expire_listings : ℤ → MarketService → MarketService
unfolding expire
expire_listings day m = record m { listings = map_values (expire day) m.listings }

-- The number of matches, and the market after them.
unfoldable pub match_orders : ℕ → ℤ → MarketService → Matching
unfolding expire_listings group_listings match_each
match_orders now day m =
    let m' = expire_listings day m in
    (match_each now day (keys m'.orders)
      (group_listings m'.listings [], record { count = 0; market = m' })).1
