-- ===== src/Market/Rounds.antt =====
-- server/src/modules/economy/market.service.ts, `matchOrders`: the two ways in which a round of the
-- candidates' loop can end, and the rule by which what each trade keeps is kept by all loops.
use mmorpg_design_documents.Base.{
  ℕ, ◌≡◌, Bool, true, false, Bool-cases, Option-cases, inl, inr, some, List, [], ◌∷◌, String,
  if_elim, if◌then◌else◌, arith,
}
use mmorpg_design_documents.Base.Int.{ℤ, pos, ◌-ℤ◌, ◌*ℤ◌, ◌≤ℤ◌, ltb_ℤ, min_ℤ}
use mmorpg_design_documents.Base.Key.{EntityId, string_eq, entity_eq}
use mmorpg_design_documents.Base.Dict.{Dict, lookup, insert}
use mmorpg_design_documents.Base.Accounts.{or_zero}
use mmorpg_design_documents.Market.{
  MarketListing, MarketOrder, MarketService, debit_balance, listing_is_active, order_is_active,
}
use mmorpg_design_documents.Market.Trade.{
  Matching, settle, try_trade, try_candidate, try_candidates, match_order, match_each, match_orders,
  expire_listings, or_empty, sort_by_price, keys,
}

-- The market once the buyer has paid.
abbrev pub debited : String → ℤ → MarketService → MarketService
debited c a m = record m { balances = insert c (or_zero (lookup c m.balances) -ℤ a) m.balances }

-- The number of pieces that change hands, and what they cost.
abbrev pub traded : MarketListing → MarketOrder → ℤ
traded l o = min_ℤ l.quantity o.quantity

abbrev pub cost : MarketListing → MarketOrder → ℤ
cost l o = l.price *ℤ traded l o

pub debit_cases {ℓ} :
    (P : Bool × MarketService → Type ℓ) (c : String) (a : ℤ) (m : MarketService)
    → P (false, m)
    → (a ≤ℤ or_zero (lookup c m.balances) → P (true, debited c a m))
    → P (debit_balance c a m)
unfolding debit_balance
debit_cases P c a m unpaid paid =
    if_elim P (ltb_ℤ (or_zero (lookup c m.balances)) a) _ _ (λ _. unpaid)
      (λ h. paid (covered a (or_zero (lookup c m.balances)) h))
  where
    covered : (a b : ℤ) → ltb_ℤ b a ≡ false → a ≤ℤ b
    covered a b h = ground arith

-- A round changes nothing, or it is one trade: of an active listing, at a price that the order
-- allows, which the buyer can pay.
pub try_trade_cases {ℓ} :
    (P : Bool × Matching → Type ℓ) (now : ℕ) (day : ℤ) (order_id listing_id : EntityId)
    (l : MarketListing) (o : MarketOrder) (x : Matching)
    → ((more : Bool) → P (more, x))
    → ((more : Bool)
        → listing_is_active l ≡ true
        → l.price ≤ℤ o.max_price
        → cost l o ≤ℤ or_zero (lookup o.buyer_id x.market.balances)
        → P (
          more,
          settle now day order_id listing_id l o
              (traded l o)
              x.count
              (debited o.buyer_id (cost l o) x.market),
        ))
    → P (try_trade now day order_id listing_id l o x)
unfolding try_trade
try_trade_cases P now day order_id listing_id l o x same trade =
    if_elim P (listing_is_active l) _ _
      (λ live.
        if_elim P (ltb_ℤ o.max_price l.price) _ _ (λ _. same false)
          λ affordable.
            debit_cases (λ r. P (if_paid r)) o.buyer_id (cost l o) x.market (same true)
              (λ enough. trade _ live (within l.price o.max_price affordable) enough))
      (λ _. same true)
  where
    within : (a b : ℤ) → ltb_ℤ b a ≡ false → a ≤ℤ b
    within a b h = ground arith

    if_paid : Bool × MarketService → Bool × Matching
    if_paid r =
        if r.0
        then (
          ltb_ℤ (pos 0) (o.quantity -ℤ traded l o),
          settle now day order_id listing_id l o (traded l o) x.count r.1,
        )
        else (true, record x { market = r.1 })

-- What holds of the market before and after every trade holds after all the rounds.
module _ {ℓ} (now : ℕ) (day : ℤ) (P : Matching → Type ℓ)
    (step : (order_id listing_id : EntityId) (l : MarketListing) (o : MarketOrder) (x : Matching)
      → lookup listing_id x.market.listings ≡ some l
      → lookup order_id x.market.orders ≡ some o
      → P x
      → P (try_trade now day order_id listing_id l o x).1) where
  try_candidate-keeps :
      (order_id c : EntityId) (x : Matching) → P x → P (try_candidate now day order_id c x).1
  unfolding try_candidate
  try_candidate-keeps order_id c x h = elim (Option-cases (lookup c x.market.listings)) [
    | inl e ↦ rw (e, try_candidate) h
    | inr (l, e) ↦ elim (Option-cases (lookup order_id x.market.orders)) [
      | inl f ↦ rw (e, f, try_candidate) h
      | inr (o, f) ↦ rw (e, f, try_candidate) (step order_id c l o x e f h)
    ]
  ]

  try_candidates-keeps :
      (order_id : EntityId) (cs : List EntityId) (x : Matching)
      → P x
      → P (try_candidates now day order_id cs x)
  unfolding try_candidates
  try_candidates-keeps order_id [] x h = h
  try_candidates-keeps order_id (c ∷ cs) x h =
      let next = try_candidate-keeps order_id c x h in
      elim (Bool-cases (try_candidate now day order_id c x).0) [
        | inl more ↦ rw (more, try_candidates) (try_candidates-keeps order_id cs _ next)
        | inr done ↦ rw (done, try_candidates) next
      ]

  match_order-keeps :
      (id : EntityId) (g : Dict String (List EntityId)) (x : Matching)
      → P x
      → P (match_order now day id (g, x)).1
  unfolding match_order
  match_order-keeps id g x h = elim (Option-cases (lookup id x.market.orders)) [
    | inl e ↦ rw (e, match_order) h
    | inr (o, e) ↦
        rw (e, match_order)
          (if_elim (λ (r : Dict String (List EntityId) × Matching). P r.1) (order_is_active o) _ _
            (λ _. open_order-keeps id o g x (or_empty (lookup o.canonical_id g)) h) (λ _. h))
  ]
    where
      open_order-keeps :
          (id : EntityId) (o : MarketOrder) (g : Dict String (List EntityId)) (x : Matching)
          (group : List EntityId)
          → P x
          → P (
              let r : Dict String (List EntityId) × Matching = elim group [
                | [] ↦ (g, x)
                | c ∷ cs ↦
                    let candidates = sort_by_price x.market.listings (c ∷ cs) in
                    (insert o.canonical_id candidates g, try_candidates now day id candidates x)
              ] in
              r.1)
      open_order-keeps id o g x [] h = h
      open_order-keeps id o g x (c ∷ cs) h = try_candidates-keeps id _ x h

  match_each-keeps :
      (ids : List EntityId) (gx : Dict String (List EntityId) × Matching)
      → P gx.1
      → P (match_each now day ids gx).1
  unfolding match_each
  match_each-keeps [] gx h = h
  match_each-keeps (id ∷ ids) gx h =
      match_each-keeps ids (match_order now day id gx) (match_order-keeps id gx.0 gx.1 h)

  -- So it is enough to look at the market after the expiry of the old listings.
  pub match_orders-keeps :
      (m : MarketService)
      → P (record { count = 0; market = expire_listings day m })
      → P (match_orders now day m)
  unfolding match_orders
  match_orders-keeps m h = match_each-keeps (keys (expire_listings day m).orders) _ h
