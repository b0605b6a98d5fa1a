-- ===== src/Currency/Tests.antt =====
-- Runs of the currency service at concrete inputs.
use mmorpg_design_documents.Base.{ℕ, ◌≡◌, refl, none, some, List, [], ◌∷◌, String, arith}
use mmorpg_design_documents.Base.Int.{pos, ◌+ℤ◌, ◌-ℤ◌}
use mmorpg_design_documents.Base.Key.{chosen, issued, string_eq, eq_lem, entity_beq}
use mmorpg_design_documents.Base.Dict.{lookup, insert}
use mmorpg_design_documents.Events.{new_bus}
use mmorpg_design_documents.Currency.{
  CurrencyService, TransferParams, new_service, transfer, seed_wallet, deduct_fee, wallet_key,
  balance_at, get_balance, find_transaction, insufficient_balance,
}
use mmorpg_design_documents.Currency.Requests.{
  Request, seed, deduct, send, apply, run, Unposted, apply_refused,
}
use mmorpg_design_documents.Currency.Audit.{net, run-new_service-IsAudited}
use mmorpg_design_documents.Currency.Replay.{
  IsIndexed, Replays, run-IsIndexed, new_service-IsIndexed, apply-Replays,
}
use mmorpg_design_documents.Currency.Wallet.{transfer_moves}

abbrev gift : TransferParams
gift = record {
  from_id = "ada";
  to_id = "bob";
  currency_id = "world-gold";
  amount = pos 30;
  reason = "gift";
  idempotency_key = chosen "gift-1";
}

abbrev grant : Request
grant = seed "ada" (pos 100) "world-gold" "grant" (some (chosen "grant-1"))

abbrev history : List (ℕ × Request)
history =
    (10, grant)
    ∷ (20, send gift)
    ∷ (30, deduct "bob" (pos 5) "world-gold" "tax" none)
    ∷ (40, send gift)
    ∷ (50, deduct "bob" (pos 500) "world-gold" "tax" none)
    ∷ []

funded : CurrencyService
unfolding run apply seed_wallet
funded = run ((10, grant) ∷ []) (new_service new_bus)

run-history :
    (get_balance (run history (new_service new_bus)) "ada" "world-gold" ≡ pos 70)
    × (get_balance (run history (new_service new_bus)) "bob" "world-gold" ≡ pos 25)
unfolding run apply seed_wallet deduct_fee transfer get_balance lookup insert entity_beq ◌+ℤ◌ ◌-ℤ◌
    find_transaction
run-history = (refl, refl)

run-new_service-IsAudited_example :
    balance_at (wallet_key "bob" "world-gold") (run history (new_service new_bus)).wallets
    ≡ net (wallet_key "bob" "world-gold") (run history (new_service new_bus)).transactions
run-new_service-IsAudited_example =
    run-new_service-IsAudited new_bus history (wallet_key "bob" "world-gold")

funded-IsIndexed : IsIndexed funded
unfolding funded
funded-IsIndexed =
    run-IsIndexed ((10, grant) ∷ []) (new_service new_bus) (new_service-IsIndexed new_bus)

abbrev meanwhile : List (ℕ × Request)
meanwhile = (30, send (record gift { idempotency_key = issued "idem" 30 7 })) ∷ []

apply-Replays_example : Replays meanwhile (apply 90 (send gift)) (apply 20 (send gift) funded)
apply-Replays_example = apply-Replays 20 90 (send gift) meanwhile funded funded-IsIndexed tt

overdraft : Request
overdraft = send (record gift { amount = pos 101 })

apply_refused_example : Unposted funded (apply 20 overdraft funded).1
unfolding overdraft funded apply transfer find_transaction lookup insert entity_beq ◌+ℤ◌
apply_refused_example = apply_refused 20 overdraft funded insufficient_balance refl

transfer_moves_example :
    balance_at (wallet_key "bob" "world-gold") (transfer 20 gift funded).1.wallets ≡ pos 30
unfolding funded run apply seed_wallet transfer find_transaction lookup insert entity_beq ◌+ℤ◌ ◌-ℤ◌
transfer_moves_example =
    transfer_moves 20 gift funded (wallet_key "bob" "world-gold") (omega arith)
      (λ e. ground (arith, eq_lem {K = String} "ada" "bob")) refl refl (omega arith)

-- The wallet of "ada:x" stands in the list for "ada".
abbrev crowded : CurrencyService
crowded = record (new_service new_bus) {
  wallets = ("ada:x:world-gold", pos 7) ∷ ("ada:world-gold", pos 100) ∷ [];
}
