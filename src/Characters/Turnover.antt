-- ===== src/Characters/Turnover.antt =====
-- server/src/modules/characters/characters.service.ts: what creating and resetting a character does
-- to the account that asks, and to the others.
use mmorpg_design_documents.Base.{
  ℕ, ◌≡◌, ◌≢◌, refl, sym, ap, subst, ◌∙◌, inl, inr, Bool-cases, Option-cases, none, some, String,
  ok, err, if◌then◌else◌, arith,
}
use mmorpg_design_documents.Base.Key.{string_eq, ◌==◌, eq_lem, eq_self}
use mmorpg_design_documents.Base.Dict.{lookup, insert, lookup-insert}
use mmorpg_design_documents.Characters.{
  CharactersService, alive_character_exists, find_by_id, find_alive_by_account, newborn,
  create_character,
}
use mmorpg_design_documents.Characters.Alive.{
  IsIndexed, Reachable, Reachable-IsIndexed, create_character-IsIndexed, find_alive-index,
  find_alive-none,
}

-- What is so after a creation that succeeded.
pub record Created (now : ℕ) (uuid account_id name : String) (s s' : CharactersService)
    : Type 0 where
  pub by_id : find_by_id uuid s' ≡ some (newborn now uuid account_id name)
  pub by_account :
      (b : String)
      → find_alive_by_account b s' ≡ (
          if b == account_id
          then some (newborn now uuid account_id name)
          else find_alive_by_account b s)
  pub again :
      (later : ℕ) (other name' : String)
      → create_character later other account_id name' s'
        ≡ (err (alive_character_exists account_id), s')

create_character-free :
    (now : ℕ) (uuid account_id name : String) (s : CharactersService)
    → lookup account_id s.alive_index ≡ none
    → create_character now uuid account_id name s ≡ (
      ok (newborn now uuid account_id name),
      record s {
        characters = insert uuid (newborn now uuid account_id name) s.characters;
        alive_index = insert account_id uuid s.alive_index;
      },
    )
unfolding create_character
create_character-free now uuid account_id name s e = rw (create_character, e) refl

create_character-taken :
    (now : ℕ) (uuid account_id name id : String) (s : CharactersService)
    → lookup account_id s.alive_index ≡ some id
    → create_character now uuid account_id name s ≡ (err (alive_character_exists account_id), s)
unfolding create_character
create_character-taken now uuid account_id name id s e = rw (create_character, e) refl

-- Who is found for an account is settled by its entry and by the character that the entry names.
pub find_alive_same :
    (b : String) (s s' : CharactersService)
    → IsIndexed s
    → IsIndexed s'
    → lookup b s'.alive_index ≡ lookup b s.alive_index
    → ((k : String)
        → lookup b s.alive_index ≡ some k
        → lookup k s'.characters ≡ lookup k s.characters)
    → find_alive_by_account b s' ≡ find_alive_by_account b s
find_alive_same b s s' inv inv' index stored = elim (Option-cases (lookup b s.alive_index)) [
  | inl e ↦ find_alive-none b s' (index ∙ e) ∙ sym (find_alive-none b s e)
  | inr (k, e) ↦
      find_alive-index b k s' inv' (index ∙ e) ∙ stored k e ∙ sym (find_alive-index b k s inv e)
]

pub find_alive-none_index :
    (a : String) (s : CharactersService)
    → IsIndexed s
    → find_alive_by_account a s ≡ none
    → lookup a s.alive_index ≡ none
find_alive-none_index a s inv h = elim (Option-cases (lookup a s.alive_index)) [
  | inl e ↦ e
  | inr (k, e) ↦ absurd (cc (h, find_alive-index a k s inv e, (inv.sound a k e).1.0))
]

create_character-Created :
    (now : ℕ) (uuid account_id name : String) (s : CharactersService)
    → uuid ≢ ""
    → lookup uuid s.characters ≡ none
    → IsIndexed s
    → lookup account_id s.alive_index ≡ none
    → Created now uuid account_id name s (create_character now uuid account_id name s).1
unfolding find_by_id
create_character-Created now uuid account_id name s ne fresh inv e = record {
  by_id = stored;
  by_account = λ b. elim (Bool-cases (b == account_id)) [
    | inl e' ↦ rw e' (
        subst (λ a. find_alive_by_account a s' ≡ some (newborn now uuid account_id name))
          (sym ((eq_lem b account_id).0 e'))
          (find_alive-index account_id uuid s' inv' index ∙ stored))
    | inr e' ↦ rw e' (
        find_alive_same b s s' inv inv' (index_of b ∙ (rw e' refl))
          (λ k h. stored_at k ∙ (ground (arith, eq_lem k uuid, (inv.sound b k h).1.0))))
  ];
  again = λ later other name'. create_character-taken later other account_id name' uuid s' index;
}
  where
    s' : CharactersService
    s' = (create_character now uuid account_id name s).1

    inv' : IsIndexed s'
    inv' = create_character-IsIndexed now uuid account_id name s ne fresh inv

    stored_at :
        (k : String)
        → lookup k s'.characters
          ≡ (if k == uuid then some (newborn now uuid account_id name) else lookup k s.characters)
    stored_at k =
        ap (λ r. lookup k r.1.characters) (create_character-free now uuid account_id name s e)
        ∙ lookup-insert k uuid _ s.characters

    index_of :
        (b : String)
        → lookup b s'.alive_index ≡ (if b == account_id then some uuid else lookup b s.alive_index)
    index_of b =
        ap (λ r. lookup b r.1.alive_index) (create_character-free now uuid account_id name s e)
        ∙ lookup-insert b account_id uuid s.alive_index

    stored : lookup uuid s'.characters ≡ some (newborn now uuid account_id name)
    stored = stored_at uuid ∙ (rw (eq_self uuid) refl)

    index : lookup account_id s'.alive_index ≡ some uuid
    index = index_of account_id ∙ (rw (eq_self account_id) refl)

-- Where the account has no living character, and the new id is not empty and names no character, the
-- new character is returned and found both by its id and by its account, the other accounts are found
-- the characters that they were found before, and a further creation for the account is refused and
-- changes nothing.
pub create_character-found :
    (now : ℕ) (uuid account_id name : String) (s : CharactersService)
    → Reachable s
    → uuid ≢ ""
    → lookup uuid s.characters ≡ none
    → find_alive_by_account account_id s ≡ none
    → ((create_character now uuid account_id name s).0 ≡ ok (newborn now uuid account_id name))
      × Created now uuid account_id name s (create_character now uuid account_id name s).1
create_character-found now uuid account_id name s r ne fresh h =
    let inv : IsIndexed s = Reachable-IsIndexed s r in
    let e : lookup account_id s.alive_index ≡ none = find_alive-none_index account_id s inv h in
    (
      ap (λ o. o.0) (create_character-free now uuid account_id name s e),
      create_character-Created now uuid account_id name s ne fresh inv e,
    )
