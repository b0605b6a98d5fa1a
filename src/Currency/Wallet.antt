-- ===== src/Currency/Wallet.antt =====
-- server/src/modules/currency/currency.service.ts: the wallet keys, what a transfer does to the
-- wallets, and what `getWallet` lists.
use Prim.Native.String.{◌++◌ as string_append, len, slice}
use text.Mathlib.Text.{starts_with}
use text.Mathlib.TextLemmas.{append_assoc, append_cancel_right}
use text.Mathlib.TextPositions.{len-append, slice-append_right, starts_with-append}
use mathlib.Core.List.{Mem, mem-cons_self, mem-cons_of_mem}
use mmorpg_design_documents.Base.{
  ℕ, ◌≡◌, ◌≢◌, sym, true, false, Bool-cases, inl, inr, none, some, [], ◌∷◌, String, arith,
  if◌then◌else◌, if_elim, ◌∙◌, ap,
}
use mmorpg_design_documents.Base.Int.{ℤ, pos, ◌+ℤ◌, ◌-ℤ◌, ◌≤ℤ◌, leb_ℤ, ltb_ℤ}
use mmorpg_design_documents.Base.Key.{◌==◌, string_eq, eq_lem}
use mmorpg_design_documents.Base.Dict.{Dict, lookup}
use mmorpg_design_documents.Currency.{
  CurrencyService, TransferParams, WalletEntry, conclude, transfer, find_by_idempotency_key,
  known_currency, wallet_key, balance_at, get_wallet, wallet_entries,
}
use mmorpg_design_documents.Currency.Audit.{balance_at-insert}
use mmorpg_design_documents.Currency.Requests.{seeded, deducted}

-- In one currency, two characters have two keys.
wallet_key-injective : (c d u : String) → wallet_key c u ≡ wallet_key d u → c ≡ d
unfolding wallet_key
wallet_key-injective c d u h = append_cancel_right c d _ h

-- What a transfer that passes every guard leaves in a wallet.
balance_at-moved :
    (w f t : String) (a : ℤ) (d : Dict String ℤ)
    → f ≢ t
    → balance_at w (seeded t a (deducted f a d)) ≡ (
        if w == t
        then balance_at t d +ℤ a
        else if w == f
        then balance_at f d -ℤ a
        else balance_at w d)
balance_at-moved w f t a d differ =
    rw
      (
        balance_at-insert w t _ (deducted f a d),
        balance_at-insert t f _ d,
        balance_at-insert w f _ d,
      )
      (ground (arith, eq_lem t f))

-- A transfer to somebody else, of a positive amount that the sender holds, in a known currency and
-- under a fresh key, goes through: the sender has the amount less, the receiver has it more, and
-- every other wallet is as it was.
pub transfer_moves :
    (now : ℕ) (p : TransferParams) (s : CurrencyService) (w : String)
    → pos 1 ≤ℤ p.amount
    → p.from_id ≢ p.to_id
    → known_currency s p.currency_id ≡ true
    → find_by_idempotency_key s p.idempotency_key ≡ none
    → p.amount ≤ℤ balance_at (wallet_key p.from_id p.currency_id) s.wallets
    → let f = wallet_key p.from_id p.currency_id in
      let t = wallet_key p.to_id p.currency_id in
      balance_at w (transfer now p s).1.wallets ≡ (
        if w == t
        then balance_at t s.wallets +ℤ p.amount
        else if w == f
        then balance_at f s.wallets -ℤ p.amount
        else balance_at w s.wallets)
unfolding transfer conclude
transfer_moves now p s w positive differ known fresh enough =
    rw
      (
        not_leb p.amount positive,
        not_eq,
        known,
        fresh,
        not_ltb p.amount (balance_at (wallet_key p.from_id p.currency_id) s.wallets) enough,
      )
      (balance_at-moved w (wallet_key p.from_id p.currency_id) (wallet_key p.to_id p.currency_id)
        p.amount s.wallets (λ e. differ (wallet_key-injective _ _ p.currency_id e)))
  where
    not_eq : (p.from_id == p.to_id) ≡ false
    not_eq = ground (arith, eq_lem p.from_id p.to_id)

    not_leb : (a : ℤ) → pos 1 ≤ℤ a → leb_ℤ a (pos 0) ≡ false
    not_leb a h = ground arith

    not_ltb : (a b : ℤ) → a ≤ℤ b → ltb_ℤ b a ≡ false
    not_ltb a b h = ground arith

abbrev pub entry : String → ℤ → WalletEntry
entry u b = record { currency_id = u; balance = b }

entry_of_key :
    (c u : String) → slice (wallet_key c u) (len (string_append c ":")) (len (wallet_key c u)) ≡ u
unfolding wallet_key
entry_of_key c u =
    rw (← append_assoc c ":" u, len-append (string_append c ":") u)
      (slice-append_right (string_append c ":") u)

key_has_prefix : (c u : String) → starts_with (wallet_key c u) (string_append c ":") ≡ true
unfolding wallet_key
key_has_prefix c u = rw (← append_assoc c ":" u) (starts_with-append (string_append c ":") u)

wallet_entries-mem :
    (c u : String) (b : ℤ) (d : Dict String ℤ)
    → lookup (wallet_key c u) d ≡ some b
    → Mem (entry u b) (wallet_entries (string_append c ":") d)
unfolding lookup wallet_entries
wallet_entries-mem c u b [] h = absurd (cc)
wallet_entries-mem c u b (x ∷ d) h = elim (Bool-cases (wallet_key c u == x.0)) [
  | inl same ↦
      let key : x.0 ≡ wallet_key c u = sym ((eq_lem (wallet_key c u) x.0).0 same) in
      let value : x.1 ≡ b = cc (rw same at h) in
      rw (key, key_has_prefix c u, entry_of_key c u, value) mem-cons_self
  | inr other ↦
      let later = wallet_entries-mem c u b d (rw other at h) in
      if_elim (λ r. Mem (entry u b) r) (starts_with x.0 (string_append c ":")) _ _
        (λ _. mem-cons_of_mem _ later) (λ _. later)
]

-- `getWallet` lists every wallet that the character has, under its currency and with its balance.
pub get_wallet-complete :
    (s : CurrencyService) (c u : String) (b : ℤ)
    → lookup (wallet_key c u) s.wallets ≡ some b
    → Mem (entry u b) (get_wallet s c)
unfolding get_wallet
get_wallet-complete s c u b h = wallet_entries-mem c u b s.wallets h

-- `getWallet` lists foreign wallets too: that of any character whose id is the given id, a colon and more.
pub get_wallet-foreign :
    (s : CurrencyService) (c x u : String) (b : ℤ)
    → lookup (wallet_key (string_append c (string_append ":" x)) u) s.wallets ≡ some b
    → Mem (entry (string_append x (string_append ":" u)) b) (get_wallet s c)
unfolding wallet_key
get_wallet-foreign s c x u b h = get_wallet-complete s c _ b (rw (← same_key) h)
  where
    same_key :
        string_append (string_append c (string_append ":" x)) (string_append ":" u)
        ≡ string_append c (string_append ":" (string_append x (string_append ":" u)))
    same_key = append_assoc c _ _ ∙ ap (string_append c) (append_assoc ":" x _)
