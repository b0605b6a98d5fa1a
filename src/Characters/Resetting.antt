-- ===== src/Characters/Resetting.antt =====
-- server/src/modules/characters/characters.service.ts, `resetCharacter`: it ends the life of the
-- account's character and of no other.
use mmorpg_design_documents.Base.{
  ℕ, ◌≡◌, ◌≢◌, refl, sym, ap, subst, ◌∙◌, true, false, none, some, String, ok, if◌then◌else◌, arith,
}
use mmorpg_design_documents.Base.Key.{string_eq, ◌==◌, eq_lem, eq_self}
use mmorpg_design_documents.Base.Dict.{lookup, remove, lookup-insert, lookup-remove}
use mmorpg_design_documents.Characters.{
  alive, Character, CharactersService, find_by_id, find_alive_by_account, deceased, bury,
  kill_character, reset_character,
}
use mmorpg_design_documents.Characters.Alive.{
  Lives, IsIndexed, Reachable, Reachable-IsIndexed, reset_character-IsIndexed, truthy_lem,
  find_alive-none, Lives-index, found-Lives,
}
use mmorpg_design_documents.Characters.Turnover.{find_alive_same, find_alive-none_index}

kill_character-living :
    (now : ℕ) (id reason : String) (c : Character) (s : CharactersService)
    → lookup id s.characters ≡ some c
    → c.status ≡ alive
    → kill_character now id reason s ≡ (ok (deceased now c), bury now id reason c s)
unfolding kill_character
kill_character-living now id reason c s e l = rw (kill_character, e, l) refl

reset_character-living :
    (now : ℕ) (a : String) (c : Character) (s : CharactersService)
    → IsIndexed s
    → Lives a c.id c s
    → reset_character now a s
      ≡ (ok (record { reset = true; character_id = some c.id }), bury now c.id "admin_reset" c s)
unfolding reset_character
reset_character-living now a c s inv l =
    rw
      (
        reset_character,
        truthy_lem a s inv,
        Lives-index a c.id c s inv l,
        kill_character-living now c.id "admin_reset" c s l.0 l.1,
      )
      refl

reset_character-none :
    (now : ℕ) (a : String) (s : CharactersService)
    → lookup a s.alive_index ≡ none
    → reset_character now a s ≡ (ok (record { reset = false; character_id = none }), s)
unfolding reset_character
reset_character-none now a s e = rw (reset_character, e) refl

-- What is so after the character `c` of account `a` has been buried.
pub record Buried (now : ℕ) (a : String) (c : Character) (s s' : CharactersService) : Type 0 where
  pub nobody : find_alive_by_account a s' ≡ none
  pub dead_now : find_by_id c.id s' ≡ some (deceased now c)
  pub others : (b : String) → b ≢ a → find_alive_by_account b s' ≡ find_alive_by_account b s

bury-Buried :
    (now : ℕ) (a reason : String) (c : Character) (s : CharactersService)
    → IsIndexed s
    → IsIndexed (bury now c.id reason c s)
    → Lives a c.id c s
    → Buried now a c s (bury now c.id reason c s)
unfolding bury find_by_id
bury-Buried now a reason c s inv inv' l = record {
  nobody = find_alive-none a _ (index a ∙ (ground (arith, eq_lem a c.account_id, l.2)));
  dead_now = lookup-insert c.id c.id _ s.characters ∙ (rw (eq_self c.id) refl);
  others = λ b other.
      find_alive_same b s _ inv inv' (index b ∙ (ground (arith, eq_lem b c.account_id, l.2)))
        (λ k h.
          lookup-insert k c.id _ s.characters
          ∙ (ground
              (arith, eq_lem k c.id, (inv.sound b k h).1.0, (inv.sound b k h).1.2, l.0, l.2)));
}
  where
    index :
        (b : String)
        → lookup b (remove c.account_id s.alive_index)
          ≡ (if b == c.account_id then none else lookup b s.alive_index)
    index b = lookup-remove b c.account_id s.alive_index

-- A reset never throws. Where the account has a living character it says so with that character's
-- id, no living character of the account is then found, the character is found dead by its id,
-- and the other accounts keep theirs; where it has none, it says so and changes nothing.
pub reset_character-clears :
    (now : ℕ) (a : String) (s : CharactersService)
    → Reachable s
    → ((c : Character)
        → find_alive_by_account a s ≡ some c
        → ((reset_character now a s).0 ≡ ok (record { reset = true; character_id = some c.id }))
          × Buried now a c s (reset_character now a s).1)
      × (find_alive_by_account a s ≡ none
          → reset_character now a s ≡ (ok (record { reset = false; character_id = none }), s))
reset_character-clears now a s r = (living, absent)
  where
    inv : IsIndexed s
    inv = Reachable-IsIndexed s r

    living :
        (c : Character)
        → find_alive_by_account a s ≡ some c
        → ((reset_character now a s).0 ≡ ok (record { reset = true; character_id = some c.id }))
          × Buried now a c s (reset_character now a s).1
    living c h =
        let l : Lives a c.id c s = found-Lives a c s inv h in
        let e = reset_character-living now a c s inv l in
        (
          ap (λ o. o.0) e,
          subst (λ o. Buried now a c s o.1) (sym e)
              (bury-Buried now a "admin_reset" c s inv
                (subst (λ o. IsIndexed o.1) e (reset_character-IsIndexed now a s inv)) l),
        )

    absent :
        find_alive_by_account a s ≡ none
        → reset_character now a s ≡ (ok (record { reset = false; character_id = none }), s)
    absent h = reset_character-none now a s (find_alive-none_index a s inv h)
