-- ===== src/Characters.antt =====
-- server/src/modules/characters/characters.service.ts: who lives, one character to an account. The
-- text that `randomUUID` returns is an argument of `create_character`; `now` is the wall clock.
pub mod Alive
pub mod Turnover
mod Resetting
mod Tests
use mmorpg_design_documents.Base.{
  ℕ, ◌≡◌, Bool, true, false, Option, none, some, String, Result, ok, err, if◌then◌else◌,
}
use mmorpg_design_documents.Base.Key.{string_eq, ◌==◌}
use mmorpg_design_documents.Base.Dict.{Dict, lookup, insert, remove}
use mmorpg_design_documents.Events.{DomainEventBus, publish, character_died}

pub data CharacterStatus : Type 0 where
  alive : CharacterStatus
  dead : CharacterStatus
  unborn : CharacterStatus

pub record Character : Type 0 where
  pub id : String
  pub account_id : String
  pub name : String
  pub status : CharacterStatus
  pub created_at : ℕ
  pub died_at : Option ℕ

pub record CharactersService : Type 0 where
  pub characters : Dict String Character
  pub alive_index : Dict String String
  pub bus : DomainEventBus

pub data CharactersError : Type 0 where
  alive_character_exists : String → CharactersError
  not_found : String → CharactersError
  not_alive : String → CharactersError

pub record ResetResult : Type 0 where
  pub reset : Bool
  pub character_id : Option String

unfoldable pub find_by_id : String → CharactersService → Option Character
find_by_id id s = lookup id s.characters

-- `this.aliveIndex.get(accountId)`, where the code tests that the id is there and not empty.
abbrev pub truthy : Option String → Option String
truthy none = none
truthy (some id) = if id == "" then none else some id

unfoldable pub find_alive_by_account : String → CharactersService → Option Character
find_alive_by_account account_id s = elim (truthy (lookup account_id s.alive_index)) [
  | none ↦ none
  | some id ↦ lookup id s.characters
]

-- The character that `createCharacter` makes.
abbrev pub newborn : ℕ → String → String → String → Character
newborn now uuid account_id name = record {
  id = uuid;
  account_id = account_id;
  name = name;
  status = alive;
  created_at = now;
  died_at = none;
}

unfoldable pub create_character :
    ℕ
    → String
    → String
    → String
    → CharactersService
    → Result CharactersError Character × CharactersService
create_character now uuid account_id name s = elim (lookup account_id s.alive_index) [
  | some id ↦ (err (alive_character_exists account_id), s)
  | none ↦
      let c = newborn now uuid account_id name in
      (
        ok c,
        record s {
          characters = insert c.id c s.characters;
          alive_index = insert account_id c.id s.alive_index;
        },
      )
]

abbrev pub deceased : ℕ → Character → Character
deceased now c = record c { status = dead; died_at = some now }

-- What `killCharacter` does to a character that lives.
unfoldable pub bury : ℕ → String → String → Character → CharactersService → CharactersService
bury now id reason c s = record s {
  characters = insert id (deceased now c) s.characters;
  alive_index = remove c.account_id s.alive_index;
  bus =
      publish now now
        (character_died
          (record { account_id = c.account_id; character_id = c.id; reason = reason }))
        s.bus;
}

abbrev pub is_alive : CharacterStatus → Bool
is_alive alive = true
is_alive dead = false
is_alive unborn = false

unfoldable pub kill_character :
    ℕ → String → String → CharactersService → Result CharactersError Character × CharactersService
kill_character now id reason s = elim (lookup id s.characters) [
  | none ↦ (err (not_found id), s)
  | some c ↦
      if is_alive c.status
      then (ok (deceased now c), bury now id reason c s)
      else (err (not_alive id), s)
]

-- The result of `resetCharacter` once `killCharacter` has returned or thrown.
abbrev pub reset_result :
    String → Result CharactersError Character → Result CharactersError ResetResult
reset_result id (ok c) = ok (record { reset = true; character_id = some id })
reset_result id (err e) = err e

unfoldable pub reset_character :
    ℕ → String → CharactersService → Result CharactersError ResetResult × CharactersService
reset_character now account_id s = elim (truthy (lookup account_id s.alive_index)) [
  | none ↦ (ok (record { reset = false; character_id = none }), s)
  | some id ↦
      let (killed, s') = kill_character now id "admin_reset" s in (reset_result id killed, s')
]
