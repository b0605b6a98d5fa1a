-- ===== src/Characters/Alive.antt =====
-- server/src/modules/characters/characters.service.ts: the index of the living and the characters
-- agree, through every sequence of calls.
use mmorpg_design_documents.Base.{
  ℕ, ◌≡◌, ◌≢◌, ◌↔◌, refl, sym, subst, ◌∙◌, inl, inr, true, Bool-cases, Option-cases, Option, none,
  some, [], String, if◌then◌else◌, arith,
}
use mmorpg_design_documents.Base.Key.{string_eq, ◌==◌, eq_lem, eq_self}
use mmorpg_design_documents.Base.Dict.{lookup, lookup-insert, lookup-remove}
use mmorpg_design_documents.Events.{DomainEventBus}
use mmorpg_design_documents.Characters.{
  alive, dead, Character, CharactersService, find_alive_by_account, truthy, newborn,
  create_character, deceased, bury, is_alive, kill_character, reset_character,
}

-- A character of the account that lives under the id.
abbrev pub Lives : String → String → Character → CharactersService → Type 0
Lives account_id id c s =
    (lookup id s.characters ≡ some c) × (c.status ≡ alive) × (c.account_id ≡ account_id)

-- The index holds, for each account, the id of its living character, and nothing else.
pub record IsIndexed (s : CharactersService) : Type 0 where
  pub named : (id : String) (c : Character) → lookup id s.characters ≡ some c → c.id ≡ id
  pub unnamed : lookup "" s.characters ≡ none
  pub sound : (a id : String) → lookup a s.alive_index ≡ some id → (c : Character) × Lives a id c s
  pub complete :
      (id : String) (c : Character)
      → lookup id s.characters ≡ some c
      → c.status ≡ alive
      → lookup c.account_id s.alive_index ≡ some id

-- The states that the service reaches, where `randomUUID` returns a text that names no character yet.
pub data Reachable : CharactersService → Type 0 where
  started :
      (bus : DomainEventBus) → Reachable (record { characters = []; alive_index = []; bus = bus })
  created :
      (now : ℕ) (uuid account_id name : String) (s : CharactersService)
      → uuid ≢ ""
      → lookup uuid s.characters ≡ none
      → Reachable s
      → Reachable (create_character now uuid account_id name s).1
  killed :
      (now : ℕ) (id reason : String) (s : CharactersService)
      → Reachable s
      → Reachable (kill_character now id reason s).1
  reset_by_admin :
      (now : ℕ) (account_id : String) (s : CharactersService)
      → Reachable s
      → Reachable (reset_character now account_id s).1

-- A state whose two maps differ from those of `s` at one character and at its account's entry.
module _ (s s' : CharactersService) (id : String) (c : Character) (index : Option String)
    (stored : (k : String)
      → lookup k s'.characters ≡ (if k == id then some c else lookup k s.characters))
    (indexed : (a : String)
      → lookup a s'.alive_index ≡ (if a == c.account_id then index else lookup a s.alive_index))
    (ne : id ≢ "") (same : c.id ≡ id) (inv : IsIndexed s) where
  named_after : (k : String) (d : Character) → lookup k s'.characters ≡ some d → d.id ≡ k
  named_after k d h = ground (arith, stored k, eq_lem k id, inv.named k d)

  unnamed_after : lookup "" s'.characters ≡ none
  unnamed_after = ground (arith, stored "", eq_lem "" id, inv.unnamed)

  -- The entry is that of the character that was put, if it lives.
  pub enter_alive :
      index ≡ some id
      → c.status ≡ alive
      → lookup c.account_id s.alive_index ≡ none
      → lookup id s.characters ≡ none
      → IsIndexed s'
  enter_alive here lives free fresh = record {
    named = named_after;
    unnamed = unnamed_after;
    sound = λ a k h. elim (Bool-cases (a == c.account_id)) [
      | inl e ↦ (
        c,
        (
          ground (arith, indexed a, stored k, eq_self id),
          lives,
          ground (arith, eq_lem a c.account_id),
        ),
      )
      | inr e ↦
          let old : (d : Character) × Lives a k d s = inv.sound a k (ground (arith, indexed a)) in
          (old.0, (ground (arith, old.1.0, stored k, eq_lem k id), old.1.1, old.1.2))
    ];
    complete = λ k d h l. ground (
      arith,
      stored k,
      indexed d.account_id,
      eq_lem k id,
      eq_lem d.account_id c.account_id,
      inv.complete k d,
    );
  }

  -- There is no entry, and the character that was put is dead.
  pub enter_dead :
      (was : Character)
      → index ≡ none
      → c.status ≡ dead
      → was.account_id ≡ c.account_id
      → was.status ≡ alive
      → lookup id s.characters ≡ some was
      → IsIndexed s'
  enter_dead was gone died account lives here = record {
    named = named_after;
    unnamed = unnamed_after;
    sound = λ a k h.
        let old : (d : Character) × Lives a k d s = inv.sound a k (ground (arith, indexed a)) in
        (
          old.0,
          (
            ground (arith, old.1, stored k, indexed a, eq_lem k id, eq_lem a c.account_id),
            old.1.1,
            old.1.2,
          ),
        );
    complete = λ k d h l. ground (
      arith,
      stored k,
      indexed d.account_id,
      eq_lem k id,
      eq_lem d.account_id c.account_id,
      inv.complete k d,
      inv.complete id was,
    );
  }

pub create_character-IsIndexed :
    (now : ℕ) (uuid account_id name : String) (s : CharactersService)
    → uuid ≢ ""
    → lookup uuid s.characters ≡ none
    → IsIndexed s
    → IsIndexed (create_character now uuid account_id name s).1
unfolding create_character
create_character-IsIndexed now uuid account_id name s ne fresh inv =
    elim (Option-cases (lookup account_id s.alive_index)) [
      | inr (id, e) ↦ rw (create_character, e) inv
      | inl e ↦
          rw (create_character, e)
            (enter_alive s _ uuid (newborn now uuid account_id name) (some uuid)
              (λ k. lookup-insert k uuid _ s.characters)
              (λ a. lookup-insert a account_id uuid s.alive_index) ne refl inv refl refl e fresh)
    ]

pub is_alive_iff : (c : Character) → is_alive c.status ≡ true → c.status ≡ alive
is_alive_iff c h = ground arith

bury-IsIndexed :
    (now : ℕ) (id reason : String) (c : Character) (s : CharactersService)
    → lookup id s.characters ≡ some c
    → c.status ≡ alive
    → IsIndexed s
    → IsIndexed (bury now id reason c s)
unfolding bury
bury-IsIndexed now id reason c s here lives inv =
    enter_dead s _ id (deceased now c) none (λ k. lookup-insert k id _ s.characters)
      (λ a. lookup-remove a c.account_id s.alive_index)
      (λ q. cc (inv.unnamed, subst (λ k. lookup k s.characters ≡ some c) q here))
      (inv.named id c here) inv c refl refl refl lives here

pub kill_character-IsIndexed :
    (now : ℕ) (id reason : String) (s : CharactersService)
    → IsIndexed s
    → IsIndexed (kill_character now id reason s).1
unfolding kill_character
kill_character-IsIndexed now id reason s inv = elim (Option-cases (lookup id s.characters)) [
  | inl e ↦ rw (kill_character, e) inv
  | inr (c, e) ↦ elim (Bool-cases (is_alive c.status)) [
    | inl l ↦ rw (kill_character, e, l) (bury-IsIndexed now id reason c s e (is_alive_iff c l) inv)
    | inr l ↦ rw (kill_character, e, l) inv
  ]
]

pub reset_character-IsIndexed :
    (now : ℕ) (account_id : String) (s : CharactersService)
    → IsIndexed s
    → IsIndexed (reset_character now account_id s).1
unfolding reset_character
reset_character-IsIndexed now account_id s inv =
    elim (Option-cases (truthy (lookup account_id s.alive_index))) [
      | inl e ↦ rw (reset_character, e) inv
      | inr (id, e) ↦ rw (reset_character, e) (kill_character-IsIndexed now id "admin_reset" s inv)
    ]

started-IsIndexed :
    (bus : DomainEventBus) → IsIndexed (record { characters = []; alive_index = []; bus = bus })
unfolding lookup
started-IsIndexed bus = record {
  named = λ id c h. cc;
  unnamed = refl;
  sound = λ a id h. absurd (cc);
  complete = λ id c h l. cc;
}

pub Reachable-IsIndexed : (s : CharactersService) → Reachable s → IsIndexed s
Reachable-IsIndexed _ (started bus) = started-IsIndexed bus
Reachable-IsIndexed _ (created now uuid account_id name s ne fresh r) =
    create_character-IsIndexed now uuid account_id name s ne fresh (Reachable-IsIndexed s r)
Reachable-IsIndexed _ (killed now id reason s r) =
    kill_character-IsIndexed now id reason s (Reachable-IsIndexed s r)
Reachable-IsIndexed _ (reset_by_admin now account_id s r) =
    reset_character-IsIndexed now account_id s (Reachable-IsIndexed s r)

-- The text of an entry is not empty, so the code's test of it fails only where there is none.
pub truthy_lem :
    (a : String) (s : CharactersService)
    → IsIndexed s
    → truthy (lookup a s.alive_index) ≡ lookup a s.alive_index
truthy_lem a s inv = elim (Option-cases (lookup a s.alive_index)) [
  | inl e ↦ rw e refl
  | inr (id, e) ↦ rw e (ground (arith, eq_lem id "", inv.unnamed, (inv.sound a id e).1.0))
]

pub find_alive-index :
    (a id : String) (s : CharactersService)
    → IsIndexed s
    → lookup a s.alive_index ≡ some id
    → find_alive_by_account a s ≡ lookup id s.characters
unfolding find_alive_by_account
find_alive-index a id s inv e = rw (find_alive_by_account, truthy_lem a s inv, e) refl

pub find_alive-none :
    (a : String) (s : CharactersService)
    → lookup a s.alive_index ≡ none
    → find_alive_by_account a s ≡ none
unfolding find_alive_by_account
find_alive-none a s e = rw (find_alive_by_account, e) refl

pub found-Lives :
    (a : String) (c : Character) (s : CharactersService)
    → IsIndexed s
    → find_alive_by_account a s ≡ some c
    → Lives a c.id c s
found-Lives a c s inv h = elim (Option-cases (lookup a s.alive_index)) [
  | inl e ↦ absurd (cc (find_alive-none a s e, h))
  | inr (id, e) ↦
      let stored : lookup id s.characters ≡ some c = sym (find_alive-index a id s inv e) ∙ h in
      let old : (d : Character) × Lives a id d s = inv.sound a id e in
      (
        subst (λ k. lookup k s.characters ≡ some c) (sym (inv.named id c stored)) stored,
        cc (stored, old.1.0, old.1.1),
        cc (stored, old.1.0, old.1.2),
      )
]

pub Lives-index :
    (a id : String) (c : Character) (s : CharactersService)
    → IsIndexed s
    → Lives a id c s
    → lookup a s.alive_index ≡ some id
Lives-index a id c s inv l =
    subst (λ b. lookup b s.alive_index ≡ some id) l.2 (inv.complete id c l.0 l.1)

-- In every state that the service reaches, the character that an account is found to have is
-- exactly the living character of the account: it is found, with an id, if and only if it is stored
-- under that id, alive, and the account's. So where none of its characters lives none is found, and
-- an account never has two that live.
pub Reachable-one_alive :
    (s : CharactersService) (a id : String) (c : Character)
    → Reachable s
    → ((find_alive_by_account a s ≡ some c) × (c.id ≡ id)) ↔ Lives a id c s
Reachable-one_alive s a id c r = (
  λ (found, named). subst (λ k. Lives a k c s) named (found-Lives a c s inv found),
  λ l. (find_alive-index a id s inv (Lives-index a id c s inv l) ∙ l.0, inv.named id c l.0),
)
  where
    inv : IsIndexed s
    inv = Reachable-IsIndexed s r
