-- ===== src/Market/Payments.antt =====
-- server/src/modules/economy/market.service.ts, `matchOrders`: the trades that it announces are the
-- ones that were paid for.
use mathlib.Core.List.{append_assoc, append-nil}
use mmorpg_design_documents.Base.{
  ℕ, ◌+◌, ◌≡◌, refl, sym, ap, ◌∙◌, inl, inr, Bool-cases, List, [], ◌∷◌, ◌++◌, String, if◌then◌else◌,
  arith,
}
use mmorpg_design_documents.Base.Int.{ℤ, pos, ◌+ℤ◌, ◌-ℤ◌, ◌*ℤ◌, int_laws, pos_part, neg_part}
use mmorpg_design_documents.Base.Key.{EntityId, issued, string_eq, ◌==◌, eq_lem}
use mmorpg_design_documents.Base.Dict.{Dict, lookup, insert, lookup-insert}
use mmorpg_design_documents.Base.Lists.{length}
use mmorpg_design_documents.Base.Accounts.{or_zero}
use mmorpg_design_documents.Events.{DomainEvent, Payload, market_trade_executed, publish, emit}
use mmorpg_design_documents.Market.{MarketListing, MarketOrder, MarketService, credit_balance}
use mmorpg_design_documents.Market.Trade.{
  Matching, settle, try_trade, match_orders, expire_listings, record_price_history,
}
use mmorpg_design_documents.Market.Rounds.{
  debited, cost, traded, try_trade_cases, match_orders-keeps,
}

-- What an account gains by an event: a trade that is announced brings the seller the price of all
-- its pieces, and costs the buyer as much.
abbrev pub gain : String → Payload → ℤ
gain b (market_trade_executed p) =
    (if b == p.seller_id then p.price *ℤ p.quantity else pos 0)
    -ℤ (if b == p.buyer_id then p.price *ℤ p.quantity else pos 0)
gain b _ = pos 0

abbrev pub gains : String → List DomainEvent → ℤ
gains b [] = pos 0
gains b (e ∷ es) = gain b e.payload +ℤ gains b es

abbrev pub balance : String → MarketService → ℤ
balance b m = or_zero (lookup b m.balances)

-- As many events as trades were counted have been added to those of the bus, and each account has
-- gained what they tell.
pub record Paid (m : MarketService) (x : Matching) : Type 0 where
  pub events : List DomainEvent
  pub told : x.market.bus.emitted ≡ m.bus.emitted ++ events
  pub counted : x.count ≡ length events
  pub paid : (b : String) → balance b x.market ≡ balance b m +ℤ gains b events

gains-append :
    (b : String) (es : List DomainEvent) (e : DomainEvent)
    → gains b (es ++ (e ∷ [])) ≡ gains b es +ℤ gain b e.payload
gains-append b [] e = omega int_laws
gains-append b (x ∷ es) e = ap (λ n. gain b x.payload +ℤ n) (gains-append b es e) ∙ omega int_laws

length-append_one :
    (es : List DomainEvent) (e : DomainEvent) → length (es ++ (e ∷ [])) ≡ length es + 1
length-append_one [] e = refl
length-append_one (x ∷ es) e = omega (arith, length-append_one es e)

-- One entry of the balances goes up or down.
credited :
    (b k : String) (a : ℤ) (d : Dict String ℤ)
    → or_zero (lookup b (insert k (or_zero (lookup k d) +ℤ a) d))
      ≡ or_zero (lookup b d) +ℤ (if b == k then a else pos 0)
credited b k a d = elim (Bool-cases (b == k)) [
  | inl e ↦
      rw (lookup-insert b k (or_zero (lookup k d) +ℤ a) d, e)
        (ap (λ i. or_zero (lookup i d) +ℤ a) (sym ((eq_lem b k).0 e)))
  | inr e ↦ rw (lookup-insert b k (or_zero (lookup k d) +ℤ a) d, e) (omega int_laws)
]

charged :
    (b k : String) (a : ℤ) (d : Dict String ℤ)
    → or_zero (lookup b (insert k (or_zero (lookup k d) -ℤ a) d))
      ≡ or_zero (lookup b d) -ℤ (if b == k then a else pos 0)
charged b k a d = elim (Bool-cases (b == k)) [
  | inl e ↦
      rw (lookup-insert b k (or_zero (lookup k d) -ℤ a) d, e)
        (ap (λ i. or_zero (lookup i d) -ℤ a) (sym ((eq_lem b k).0 e)))
  | inr e ↦ rw (lookup-insert b k (or_zero (lookup k d) -ℤ a) d, e) (omega int_laws)
]

summed : (x y z n g h : ℤ) → x ≡ y +ℤ h → y ≡ n -ℤ g → n ≡ z → x ≡ z +ℤ (h -ℤ g)
summed x y z n g h e e' e'' = omega (
  int_laws,
  ap pos_part e,
  ap neg_part e,
  ap pos_part e',
  ap neg_part e',
  ap pos_part e'',
  ap neg_part e'',
)

-- The event of a trade.
abbrev trade_event : ℕ → MarketListing → MarketOrder → ℕ → DomainEvent
trade_event now l o counter = record {
  event_id = issued "evt" now (counter + 1);
  timestamp = now;
  payload = market_trade_executed (record {
    listing_id = l.id;
    order_id = o.id;
    canonical_id = l.canonical_id;
    seller_id = l.seller_id;
    buyer_id = o.buyer_id;
    price = l.price;
    quantity = traded l o;
    fee = l.fee;
  });
}

settle-Paid :
    (now : ℕ) (day : ℤ) (order_id listing_id : EntityId) (l : MarketListing) (o : MarketOrder)
    (m : MarketService) (x : Matching)
    → Paid m x
    → Paid m (
        settle now day order_id listing_id l o
          (traded l o)
          x.count
          (debited o.buyer_id (cost l o) x.market))
unfolding settle credit_balance publish emit record_price_history
settle-Paid now day order_id listing_id l o m x h =
    let e = trade_event now l o x.market.bus.counter in
    let d = x.market.balances in
    let d' = (debited o.buyer_id (cost l o) x.market).balances in
    record {
      events = h.events ++ (e ∷ []);
      told = ap (λ es. es ++ (e ∷ [])) h.told ∙ append_assoc m.bus.emitted h.events (e ∷ []);
      counted = ap (λ n. n + 1) h.counted ∙ sym (length-append_one h.events e);
      paid = λ b.
          summed _ _ _ _ _ _ (credited b l.seller_id (cost l o) d')
            (charged b o.buyer_id (cost l o) d) (h.paid b)
          ∙ added (balance b m) (gains b h.events) (gain b e.payload)
          ∙ ap (λ n. balance b m +ℤ n) (sym (gains-append b h.events e));
    }
  where
    added : (x y z : ℤ) → (x +ℤ y) +ℤ z ≡ x +ℤ (y +ℤ z)
    added x y z = omega int_laws

try_trade-Paid :
    (now : ℕ) (day : ℤ) (order_id listing_id : EntityId) (l : MarketListing) (o : MarketOrder)
    (m : MarketService) (x : Matching)
    → Paid m x
    → Paid m (try_trade now day order_id listing_id l o x).1
try_trade-Paid now day order_id listing_id l o m x h =
    try_trade_cases (λ r. Paid m r.1) now day order_id listing_id l o x (λ more. h)
      (λ more _ _ _. settle-Paid now day order_id listing_id l o m x h)

-- Matching announces as many trades as it counts, and pays for exactly these: each account's balance
-- has grown by the price of all the pieces of the announced trades in which it is the seller, and
-- fallen by the price of those in which it is the buyer; no other balance has changed.
pub match_orders-Paid : (now : ℕ) (day : ℤ) (m : MarketService) → Paid m (match_orders now day m)
unfolding expire_listings
match_orders-Paid now day m =
    match_orders-keeps now day (Paid m)
      (λ order_id listing_id l o x _ _ h. try_trade-Paid now day order_id listing_id l o m x h) m
      (record {
        events = [];
        told = sym (append-nil m.bus.emitted);
        counted = refl;
        paid = λ b. unchanged (balance b m);
      })
  where
    unchanged : (x : ℤ) → x ≡ x +ℤ pos 0
    unchanged x = omega int_laws
