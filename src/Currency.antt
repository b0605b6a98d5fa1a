-- ===== src/Currency.antt =====
-- server/src/modules/currency/currency.service.ts and currency.types.ts: wallets, the transaction
-- log and its idempotency index. A method returns how it ended and the service that it leaves;
-- `now` is `Date.now()` at the call. Logging is left out.
pub mod Requests
pub mod Audit
pub mod Funds
pub mod Kept
pub mod Replay
pub mod Wallet
mod Tests
use Prim.Native.String.{◌++◌ as string_append, slice, len}
use text.Mathlib.Text.{starts_with}
use mmorpg_design_documents.Base.{
  ℕ, ◌+◌, Bool, true, false, ◌||◌, Option, none, some, List, [], ◌∷◌, ◌++◌, String, Result, ok, err,
  if◌then◌else◌,
}
use mmorpg_design_documents.Base.Int.{ℤ, pos, ◌+ℤ◌, ◌-ℤ◌, ltb_ℤ, leb_ℤ}
use mmorpg_design_documents.Base.Key.{EntityId, issued, ◌==◌, string_eq, entity_eq}
use mmorpg_design_documents.Base.Dict.{Dict, lookup, insert, values}
use mmorpg_design_documents.Base.Accounts.{or_zero}
use mmorpg_design_documents.Base.Lists.{any, keep}
use mmorpg_design_documents.Events.{DomainEventBus, publish, currency_transferred}

pub data IssuerType : Type 0 where
  world settlement nation : IssuerType

pub record Currency : Type 0 where
  pub id : String
  pub name : String
  pub symbol : String
  pub issuer_type : IssuerType
  pub is_primary : Bool

pub record TransferParams : Type 0 where
  pub from_id : String
  pub to_id : String
  pub currency_id : String
  pub amount : ℤ
  pub reason : String
  pub idempotency_key : EntityId

pub record CurrencyTransaction : Type 0 where
  pub id : EntityId
  pub from_id : Option String
  pub to_id : Option String
  pub currency_id : String
  pub amount : ℤ
  pub reason : String
  pub idempotency_key : EntityId
  pub created_at : ℕ

pub record CurrencyService : Type 0 where
  pub currencies : Dict String Currency
  pub wallets : Dict String ℤ
  pub transactions : List CurrencyTransaction
  pub idempotency_index : List EntityId
  pub id_counter : ℕ
  pub bus : DomainEventBus

-- The messages of the thrown errors.
pub data CurrencyError : Type 0 where
  amount_not_positive transfer_to_self insufficient_balance : CurrencyError
  unknown_currency : String → CurrencyError

abbrev pub default_currency : String
default_currency = "world-gold"

-- The constructor: the two starter currencies, no wallet.
abbrev pub new_service : DomainEventBus → CurrencyService
new_service bus = record {
  currencies =
      (
        "world-gold",
        record {
          id = "world-gold";
          name = "World Gold";
          symbol = "WG";
          issuer_type = world;
          is_primary = true;
        },
      )
      ∷ (
        "settlement-credit",
        record {
          id = "settlement-credit";
          name = "Settlement Credit";
          symbol = "SC";
          issuer_type = settlement;
          is_primary = false;
        },
      )
      ∷ [];
  wallets = [];
  transactions = [];
  idempotency_index = [];
  id_counter = 0;
  bus = bus;
}

-- `${characterId}:${currencyId}`
pub wallet_key : String → String → String
wallet_key character_id currency_id = string_append character_id (string_append ":" currency_id)

-- `wallets.get(key) ?? 0`
pub balance_at : String → Dict String ℤ → ℤ
balance_at key wallets = or_zero (lookup key wallets)

pub get_balance : CurrencyService → String → String → ℤ
unfolding balance_at wallet_key
get_balance s character_id currency_id = balance_at (wallet_key character_id currency_id) s.wallets

pub record WalletEntry : Type 0 where
  pub currency_id : String
  pub balance : ℤ

-- The loop of `getWallet` over the wallets; a slice of a text counts its UTF-8 bytes here, which
-- agrees with the source on the tail behind a prefix.
pub wallet_entries : String → Dict String ℤ → List WalletEntry
wallet_entries prefix [] = []
wallet_entries prefix (x ∷ d) =
    let rest = wallet_entries prefix d in
    if starts_with x.0 prefix
    then record { currency_id = slice x.0 (len prefix) (len x.0); balance = x.1 } ∷ rest
    else rest

pub get_wallet : CurrencyService → String → List WalletEntry
unfolding wallet_entries
get_wallet s character_id = wallet_entries (string_append character_id ":") s.wallets

pub get_currencies : CurrencyService → List Currency
get_currencies s = values s.currencies

abbrev involves : String → CurrencyTransaction → Bool
involves character_id tx =
    elim tx.from_id [ none ↦ false | some f ↦ f == character_id ]
    || elim tx.to_id [ none ↦ false | some t ↦ t == character_id ]

pub get_transaction_log : CurrencyService → String → List CurrencyTransaction
get_transaction_log s character_id = keep (involves character_id) s.transactions

-- `transactions.find((tx) => tx.idempotencyKey === key)`
pub find_transaction : EntityId → List CurrencyTransaction → Option CurrencyTransaction
find_transaction key [] = none
find_transaction key (tx ∷ txs) =
    if key == tx.idempotency_key then some tx else find_transaction key txs

pub find_by_idempotency_key : CurrencyService → EntityId → Option CurrencyTransaction
find_by_idempotency_key s key =
    if any (◌==◌ key) s.idempotency_index then find_transaction key s.transactions else none

-- `nextId(prefix)`
pub next_id : ℕ → String → CurrencyService → EntityId × CurrencyService
next_id now prefix s =
    (issued prefix now (s.id_counter + 1), record s { id_counter = s.id_counter + 1 })

-- `idempotencyKey ?? nextId('idem')`
pub key_or_next : ℕ → Option EntityId → CurrencyService → EntityId × CurrencyService
unfolding next_id
key_or_next now none s = next_id now "idem" s
key_or_next now (some key) s = (key, s)

pub record_transaction :
    ℕ
    → Option String
    → Option String
    → String
    → ℤ
    → String
    → EntityId
    → CurrencyService
    → CurrencyTransaction × CurrencyService
unfolding next_id
record_transaction now from_id to_id currency_id amount reason key s =
    let (id, s') = next_id now "ctx" s in
    let tx : CurrencyTransaction = record {
      id = id;
      from_id = from_id;
      to_id = to_id;
      currency_id = currency_id;
      amount = amount;
      reason = reason;
      idempotency_key = key;
      created_at = now;
    } in
    (
      tx,
      record s' {
        transactions = s'.transactions ++ tx ∷ [];
        idempotency_index = s'.idempotency_index ++ key ∷ [];
      },
    )

pub emit_transfer_event : ℕ → CurrencyTransaction → CurrencyService → CurrencyService
emit_transfer_event now tx s = record s {
  bus =
      publish now now
        (currency_transferred (record {
          transaction_id = tx.id;
          from_id = tx.from_id;
          to_id = tx.to_id;
          currency_id = tx.currency_id;
          amount = tx.amount;
          reason = tx.reason;
        }))
        s.bus;
}

abbrev pub Outcome : Type 0
Outcome = Result CurrencyError CurrencyTransaction × CurrencyService

-- `recordTransaction`, `emitTransferEvent`, `return tx`: how each of the three methods ends.
pub conclude :
    ℕ → Option String → Option String → String → ℤ → String → EntityId → CurrencyService → Outcome
unfolding record_transaction emit_transfer_event
conclude now from_id to_id currency_id amount reason key s =
    let (tx, s') = record_transaction now from_id to_id currency_id amount reason key s in
    (ok tx, emit_transfer_event now tx s')

abbrev known_currency : CurrencyService → String → Bool
known_currency s currency_id = elim (lookup currency_id s.currencies) [
  | none ↦ false
  | some _ ↦ true
]

pub seed_wallet : ℕ → String → ℤ → String → String → Option EntityId → CurrencyService → Outcome
unfolding key_or_next find_by_idempotency_key conclude wallet_key balance_at
seed_wallet now character_id amount currency_id reason given s =
    if leb_ℤ amount (pos 0)
    then (err amount_not_positive, s)
    else if known_currency s currency_id
    then (let (key, s') = key_or_next now given s in
        elim (find_by_idempotency_key s' key) [
          | some existing ↦ (ok existing, s')
          | none ↦
              let k = wallet_key character_id currency_id in
              let wallets' = insert k (balance_at k s'.wallets +ℤ amount) s'.wallets in
              conclude now none (some character_id) currency_id amount reason key
                (record s' { wallets = wallets' })
        ])
    else (err (unknown_currency currency_id), s)

pub deduct_fee : ℕ → String → ℤ → String → String → Option EntityId → CurrencyService → Outcome
unfolding key_or_next find_by_idempotency_key conclude wallet_key balance_at
deduct_fee now character_id amount currency_id reason given s =
    if leb_ℤ amount (pos 0)
    then (err amount_not_positive, s)
    else if known_currency s currency_id
    then (let (key, s') = key_or_next now given s in
        elim (find_by_idempotency_key s' key) [
          | some existing ↦ (ok existing, s')
          | none ↦
              let k = wallet_key character_id currency_id in
              let current = balance_at k s'.wallets in
              if ltb_ℤ current amount
              then (err insufficient_balance, s')
              else conclude now (some character_id) none currency_id amount reason key
                  (record s' { wallets = insert k (current -ℤ amount) s'.wallets })
        ])
    else (err (unknown_currency currency_id), s)

pub transfer : ℕ → TransferParams → CurrencyService → Outcome
unfolding find_by_idempotency_key conclude wallet_key balance_at
transfer now p s =
    if leb_ℤ p.amount (pos 0)
    then (err amount_not_positive, s)
    else if p.from_id == p.to_id
    then (err transfer_to_self, s)
    else if known_currency s p.currency_id
    then elim (find_by_idempotency_key s p.idempotency_key) [
      | some existing ↦ (ok existing, s)
      | none ↦
          let sender_key = wallet_key p.from_id p.currency_id in
          let sender_balance = balance_at sender_key s.wallets in
          if ltb_ℤ sender_balance p.amount
          then (err insufficient_balance, s)
          else (let debited = insert sender_key (sender_balance -ℤ p.amount) s.wallets in
              let receiver_key = wallet_key p.to_id p.currency_id in
              let credited =
                insert receiver_key (balance_at receiver_key debited +ℤ p.amount) debited in
              conclude now (some p.from_id) (some p.to_id) p.currency_id p.amount p.reason
                p.idempotency_key (record s { wallets = credited }))
    ]
    else (err (unknown_currency p.currency_id), s)
