-- ===== src/Contracts/Tests.antt =====
-- Runs of the contracts service at concrete inputs.
use mmorpg_design_documents.Base.{
  ℕ, ◌≡◌, refl, ◌≢◌, ◌⊎◌, none, some, Option, List, [], ◌∷◌, String, arith,
}
use mmorpg_design_documents.Base.Int.{pos, ◌+ℤ◌, ◌-ℤ◌}
use mmorpg_design_documents.Base.Key.{EntityId, issued, string_eq, entity_eq, entity_beq, eq_lem}
use mmorpg_design_documents.Base.Dict.{lookup, insert}
use mmorpg_design_documents.Events.{new_bus}
use mmorpg_design_documents.Market.{
  MarketService, new_market, get_balance, credit_balance, debit_balance,
}
use mmorpg_design_documents.Market.Funds.{money}
use mmorpg_design_documents.Contracts.{
  Contract, ContractParams, ContractsService, delivery, accepted, completed, create_contract,
  accept_contract, breach_contract,
}
use mmorpg_design_documents.Contracts.Lifecycle.{
  Request, create, accept, complete, breach, apply, run, Step, IsFresh, apply-Step,
}
use mmorpg_design_documents.Contracts.Escrow.{held, new_contracts, held-run}

abbrev funded : MarketService
funded = record (new_market new_bus) { balances = ("olga", pos 100) ∷ [] }

abbrev terms : ContractParams
terms = record {
  contract_type = delivery;
  offerer_id = "olga";
  terms = "{}";
  escrow_amount = pos 60;
  deadline_game_day = pos 9;
  current_game_day = pos 1;
}

abbrev first_id : EntityId
first_id = issued "ctr" 5 1

abbrev history : List (ℕ × Request)
history = (5, create terms) ∷ (6, accept first_id "amir") ∷ (7, breach first_id "olga") ∷ []

run-history :
    (get_balance (run history (new_contracts funded)).market "amir" ≡ pos 60)
    × (get_balance (run history (new_contracts funded)).market "olga" ≡ pos 40)
unfolding run apply create_contract accept_contract breach_contract get_balance lookup insert
    entity_beq ◌+ℤ◌ ◌-ℤ◌ credit_balance debit_balance
run-history = (refl, refl)

amir_named : ◌≢◌ {A = String} "amir" ""
amir_named = ground (arith, eq_lem {K = String} "amir" "")

held-run_example : held (run history (new_contracts funded)) ≡ money funded
held-run_example = held-run history funded (tt, (amir_named, (tt, tt)))

-- The contract of a state, as the source's calls leave it.
abbrev contract_in : (acceptor : Option String) → Contract
contract_in acceptor = record {
  id = first_id;
  contract_type = delivery;
  offerer_id = "olga";
  acceptor_id = acceptor;
  terms = "{}";
  escrow_amount = pos 60;
  status = accepted;
  deadline_game_day = pos 9;
  created_at_game_day = pos 1;
}

abbrev holding : Option String → ContractsService
holding acceptor = record {
  contracts = (first_id, contract_in acceptor) ∷ [];
  id_counter = 1;
  market = funded;
}

holding-IsFresh : (acceptor : Option String) → IsFresh (holding acceptor)
unfolding lookup entity_beq
holding-IsFresh acceptor t n later = ground arith

apply-Step_example :
    (c' : Contract) × (lookup first_id
        (apply 8 (complete first_id) (holding (some "amir"))).1.contracts
      ≡ some c')
    × ((c' ≡ contract_in (some "amir")) ⊎ Step (contract_in (some "amir")) c')
unfolding lookup entity_beq
apply-Step_example =
    apply-Step 8 (complete first_id) (holding (some "amir")) first_id (contract_in (some "amir"))
      (holding-IsFresh (some "amir")) refl

abbrev closed : Contract
closed = record (contract_in (some "amir")) { status = completed }

abbrev settled : ContractsService
settled = record (holding none) { contracts = (first_id, closed) ∷ [] }

settled-IsFresh : IsFresh settled
unfolding lookup entity_beq
settled-IsFresh t n later = ground arith
