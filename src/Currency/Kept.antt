-- ===== src/Currency/Kept.antt =====
-- server/src/modules/currency/currency.service.ts: a key that is in the log stays there with its
-- transaction, whatever is requested later.
use mmorpg_design_documents.Base.{
  ℕ, ◌≡◌, ◌∙◌, refl, true, Bool-cases, Option, some, inl, inr, List, [], ◌∷◌, ◌++◌, String, arith,
}
use mmorpg_design_documents.Base.Int.{ℤ}
use mmorpg_design_documents.Base.Key.{EntityId, ◌==◌, string_eq, entity_eq}
use mmorpg_design_documents.Base.Dict.{Dict}
use mmorpg_design_documents.Base.Lists.{any}
use mmorpg_design_documents.Currency.{
  CurrencyService, CurrencyTransaction, Outcome, conclude, find_transaction,
  find_by_idempotency_key,
}
use mmorpg_design_documents.Currency.Requests.{
  Request, apply, run, Ends, Unposted, unposted, posted, apply-Ends,
}

any-append_one_true :
    (k key : EntityId) (ks : List EntityId)
    → any (◌==◌ k) ks ≡ true
    → any (◌==◌ k) (ks ++ key ∷ []) ≡ true
any-append_one_true k key [] h = absurd (cc)
any-append_one_true k key (x ∷ ks) h = ground (arith, any-append_one_true k key ks)

find_transaction-append_some :
    (k : EntityId) (txs : List CurrencyTransaction) (tx old : CurrencyTransaction)
    → find_transaction k txs ≡ some old
    → find_transaction k (txs ++ tx ∷ []) ≡ some old
unfolding find_transaction
find_transaction-append_some k [] tx old h = absurd (cc)
find_transaction-append_some k (x ∷ txs) tx old h =
    ground (arith, find_transaction-append_some k txs tx old)

-- What a key names stays there, and so do the currencies.
pub record Kept (s s' : CurrencyService) : Type 0 where
  pub currencies : s'.currencies ≡ s.currencies
  pub found :
      (k : EntityId) (tx : CurrencyTransaction)
      → find_by_idempotency_key s k ≡ some tx
      → find_by_idempotency_key s' k ≡ some tx

Unposted-found :
    (s s' : CurrencyService) (k : EntityId) (tx : CurrencyTransaction)
    → Unposted s s'
    → find_by_idempotency_key s k ≡ some tx
    → find_by_idempotency_key s' k ≡ some tx
unfolding find_by_idempotency_key
Unposted-found s s' k tx same h = rw (same.index, same.transactions) h

listed_found :
    (s : CurrencyService) (k : EntityId) (tx : CurrencyTransaction)
    → find_by_idempotency_key s k ≡ some tx
    → (any (◌==◌ k) s.idempotency_index ≡ true) × (find_transaction k s.transactions ≡ some tx)
unfolding find_by_idempotency_key
listed_found s k tx h = elim (Bool-cases (any (◌==◌ k) s.idempotency_index)) [
  | inl e ↦ (e, rw e at h)
  | inr e ↦ absurd (cc (rw e at h))
]

conclude-found :
    (now : ℕ) (f t : Option String) (u r : String) (a : ℤ) (key k : EntityId) (s : CurrencyService)
    (w : Dict String ℤ) (tx : CurrencyTransaction)
    → find_by_idempotency_key s k ≡ some tx
    → find_by_idempotency_key (conclude now f t u a r key (record s { wallets = w })).1 k ≡ some tx
unfolding conclude find_by_idempotency_key
conclude-found now f t u r a key k s w tx h =
    let (listed, there) = listed_found s k tx h in
    rw
      (
        any-append_one_true k key s.idempotency_index listed,
        find_transaction-append_some k s.transactions _ tx there,
      )
      refl

conclude-currencies :
    (now : ℕ) (f t : Option String) (u r : String) (a : ℤ) (key : EntityId) (s : CurrencyService)
    → (conclude now f t u a r key s).1.currencies ≡ s.currencies
unfolding conclude
conclude-currencies now f t u r a key s = refl

Ends-Kept : (now : ℕ) (s : CurrencyService) (o : Outcome) → Ends now s o → Kept s o.1
Ends-Kept now s o (unposted _ same) = record {
  currencies = same.currencies;
  found = λ k tx. Unposted-found s o.1 k tx same;
}
Ends-Kept now s o (posted f t u r a key s' w same _ _ _) = record {
  currencies = conclude-currencies now f t u r a key _ ∙ same.currencies;
  found = λ k tx h. conclude-found now f t u r a key k s' w tx (Unposted-found s s' k tx same h);
}

pub run-Kept : (rs : List (ℕ × Request)) (s : CurrencyService) → Kept s (run rs s)
unfolding run
run-Kept [] s = record { currencies = refl; found = λ k tx h. h }
run-Kept (r ∷ rs) s =
    let first = Ends-Kept r.0 s (apply r.0 r.1 s) (apply-Ends r.0 r.1 s) in
    let rest = run-Kept rs (apply r.0 r.1 s).1 in
    record {
      currencies = rest.currencies ∙ first.currencies;
      found = λ k tx h. rest.found k tx (first.found k tx h);
    }
