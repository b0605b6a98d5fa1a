-- ===== src/Contracts.antt =====
-- server/src/modules/economy/contracts/contracts.service.ts and the contract types of
-- economy.types.ts: contracts with an escrow taken from and paid to the market's balances. The
-- service shares the market and, through it, the event bus.
pub mod Lifecycle
pub mod Escrow
mod Tests
use mmorpg_design_documents.Base.{
  ℕ, ◌+◌, Bool, true, false, ◌&&◌, not, Option, none, some, List, [], ◌∷◌, String, Result, ok, err,
  if◌then◌else◌, suc,
}
use mmorpg_design_documents.Base.Int.{ℤ, pos, ltb_ℤ}
use mmorpg_design_documents.Base.Key.{EntityId, issued, ◌==◌, string_eq, entity_eq}
use mmorpg_design_documents.Base.Dict.{Dict, lookup, insert, values}
use mmorpg_design_documents.Base.Lists.{length, keep}
use mmorpg_design_documents.Events.{publish, contract_completed, contract_breached}
use mmorpg_design_documents.Market.{MarketService, credit_balance, debit_balance}

pub data ContractType : Type 0 where
  work delivery construction : ContractType

abbrev type_text : ContractType → String
type_text work = "work"
type_text delivery = "delivery"
type_text construction = "construction"

pub data ContractStatus : Type 0 where
  open_for_offers accepted completed breached : ContractStatus

-- `terms` is the text of `termsJson`, which the service only keeps.
pub record Contract : Type 0 where
  pub id : EntityId
  pub contract_type : ContractType
  pub offerer_id : String
  pub acceptor_id : Option String
  pub terms : String
  pub escrow_amount : ℤ
  pub status : ContractStatus
  pub deadline_game_day : ℤ
  pub created_at_game_day : ℤ

pub record ContractsService : Type 0 where
  pub contracts : Dict EntityId Contract
  pub id_counter : ℕ
  pub market : MarketService

pub data ContractError : Type 0 where
  escrow_negative escrow_not_covered own_contract : ContractError
  not_found not_open not_accepted : EntityId → ContractError

pub record ContractParams : Type 0 where
  pub contract_type : ContractType
  pub offerer_id : String
  pub terms : String
  pub escrow_amount : ℤ
  pub deadline_game_day : ℤ
  pub current_game_day : ℤ

abbrev pub Outcome : Type 0
Outcome = Result ContractError Contract × ContractsService

-- `status === 'open'` and `status === 'accepted'`
abbrev pub is_open : Contract → Bool
is_open c = elim c.status [
  | open_for_offers ↦ true
  | accepted ↦ false
  | completed ↦ false
  | breached ↦ false
]

abbrev pub is_accepted : Contract → Bool
is_accepted c = elim c.status [
  | open_for_offers ↦ false
  | accepted ↦ true
  | completed ↦ false
  | breached ↦ false
]

pub open_contract : ℕ → ContractParams → ContractsService → Outcome
open_contract now p s =
    let next : ℕ = s.id_counter + 1 in
    let id = issued "ctr" now next in
    let contract : Contract = record {
      id = id;
      contract_type = p.contract_type;
      offerer_id = p.offerer_id;
      acceptor_id = none;
      terms = p.terms;
      escrow_amount = p.escrow_amount;
      status = open_for_offers;
      deadline_game_day = p.deadline_game_day;
      created_at_game_day = p.current_game_day;
    } in
    (ok contract, record s { contracts = insert id contract s.contracts; id_counter = next })

pub create_contract : ℕ → ContractParams → ContractsService → Outcome
unfolding open_contract
create_contract now p s =
    if ltb_ℤ p.escrow_amount (pos 0)
    then (err escrow_negative, s)
    else if ltb_ℤ (pos 0) p.escrow_amount
    then (let (paid, m) = debit_balance p.offerer_id p.escrow_amount s.market in
        if paid
        then open_contract now p (record s { market = m })
        else (err escrow_not_covered, record s { market = m }))
    else open_contract now p s

-- `getContractOrThrow`, and what is done with the contract.
abbrev with_contract : EntityId → ContractsService → (Contract → Outcome) → Outcome
with_contract id s act = elim (lookup id s.contracts) [
  | none ↦ (err (not_found id), s)
  | some c ↦ act c
]

pub accept_contract : EntityId → String → ContractsService → Outcome
accept_contract id acceptor_id s = with_contract id s λ c.
    if is_open c
    then (if c.offerer_id == acceptor_id
        then (err own_contract, s)
        else (let c' : Contract = record c { acceptor_id = some acceptor_id; status = accepted } in
            (ok c', record s { contracts = insert id c' s.contracts })))
    else (err (not_open id), s)

-- `contract.escrowAmount > 0 && contract.acceptorId`: an empty text counts as false.
pub release_escrow : Contract → MarketService → MarketService
release_escrow c m = elim c.acceptor_id [
  | none ↦ m
  | some a ↦
      if ltb_ℤ (pos 0) c.escrow_amount && not (a == "")
      then credit_balance a c.escrow_amount m
      else m
]

pub complete_contract : ℕ → EntityId → ContractsService → Outcome
unfolding release_escrow
complete_contract now id s = with_contract id s λ c.
    if is_accepted c
    then (let c' : Contract = record c { status = completed } in
        let m = release_escrow c s.market in
        let event = contract_completed (record {
          contract_id = c.id;
          contract_type = type_text c.contract_type;
          offerer_id = c.offerer_id;
          acceptor_id = c.acceptor_id;
          escrow_amount = c.escrow_amount;
        }) in
        (
          ok c',
          record s {
            contracts = insert id c' s.contracts;
            market = record m { bus = publish now now event m.bus };
          },
        ))
    else (err (not_accepted id), s)

-- `breachedById === offererId ? acceptorId! : offererId`
pub non_breaching : Contract → String → Option String
non_breaching c breached_by_id =
    if breached_by_id == c.offerer_id then c.acceptor_id else some c.offerer_id

-- An accepted contract has an acceptor (Contracts.Escrow.Well), so the first case does not arise.
pub compensate : Option String → Contract → MarketService → MarketService
compensate none c m = m
compensate (some a) c m =
    if ltb_ℤ (pos 0) c.escrow_amount then credit_balance a c.escrow_amount m else m

pub breach_contract : ℕ → EntityId → String → ContractsService → Outcome
unfolding non_breaching compensate
breach_contract now id breached_by_id s = with_contract id s λ c.
    if is_accepted c
    then (let c' : Contract = record c { status = breached } in
        let injured = non_breaching c breached_by_id in
        let m = compensate injured c s.market in
        let event = contract_breached (record {
          contract_id = c.id;
          contract_type = type_text c.contract_type;
          breached_by_id = breached_by_id;
          non_breaching_id = injured;
          escrow_amount = c.escrow_amount;
        }) in
        (
          ok c',
          record s {
            contracts = insert id c' s.contracts;
            market = record m { bus = publish now now event m.bus };
          },
        ))
    else (err (not_accepted id), s)

pub get_contract : EntityId → ContractsService → Option Contract
get_contract id s = lookup id s.contracts

abbrev is_live : Contract → Bool
is_live c = elim c.status [
  | open_for_offers ↦ true
  | accepted ↦ true
  | completed ↦ false
  | breached ↦ false
]

pub get_active_contracts : ContractsService → List Contract
get_active_contracts s = keep is_live (values s.contracts)

pub get_active_contract_count : ContractsService → ℕ
unfolding get_active_contracts
get_active_contract_count s = length (get_active_contracts s)
