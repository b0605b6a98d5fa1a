-- ===== src/Birth/Invariant.antt =====
-- server/src/modules/characters/birth/birth.service.ts: what holds of the rituals at all times, and
-- keeps holding where one of them is changed.
use mmorpg_design_documents.Base.{
  ℕ, ◌≡◌, ◌<◌, refl, sym, ap, subst, ◌∙◌, inl, inr, true, false, Bool-cases, none, some, String,
  if◌then◌else◌, arith,
}
use mmorpg_design_documents.Base.Key.{EntityId, issued, string_eq, entity_eq, ◌==◌, eq_lem}
use mmorpg_design_documents.Base.Dict.{lookup, insert, lookup-insert}
use mmorpg_design_documents.Wheels.{required_wheel_types}
use mmorpg_design_documents.Birth.{BirthRitual, BirthService, is_complete, is_active, unspun}

-- What holds of the rituals: no account has two that are active; one that is complete has every
-- required wheel spun; and no id has a number that is still to be issued.
pub record IsSound (s : BirthService) : Type 0 where
  pub single :
      (a : String) (i j : EntityId) (q r : BirthRitual)
      → lookup i s.rituals ≡ some q
      → lookup j s.rituals ≡ some r
      → is_active a q ≡ true
      → is_active a r ≡ true
      → i ≡ j
  pub all_spun :
      (i : EntityId) (r : BirthRitual)
      → lookup i s.rituals ≡ some r
      → is_complete r.status ≡ true
      → unspun required_wheel_types r ≡ none
  pub numbered : (t n : ℕ) → s.id_counter < n → lookup (issued "chr" t n) s.rituals ≡ none

-- A ritual that is there is changed.
module _ (s s' : BirthService) (id : EntityId) (r r' : BirthRitual)
    (here : lookup id s.rituals ≡ some r) (put : s'.rituals ≡ insert id r' s.rituals)
    (counter : s'.id_counter ≡ s.id_counter)
    (active : (a : String) → is_active a r' ≡ true → is_active a r ≡ true)
    (closed : is_complete r'.status ≡ true → unspun required_wheel_types r' ≡ none)
    (inv : IsSound s) where
  at : (k : EntityId) → lookup k s'.rituals ≡ (if k == id then some r' else lookup k s.rituals)
  at k = ap (λ d. lookup k d) put ∙ lookup-insert k id r' s.rituals

  at_id : (k : EntityId) → (k == id) ≡ true → lookup k s'.rituals ≡ some r'
  at_id k e = at k ∙ (rw e refl)

  elsewhere : (k : EntityId) → (k == id) ≡ false → lookup k s'.rituals ≡ lookup k s.rituals
  elsewhere k e = at k ∙ (rw e refl)

  -- An active ritual afterwards was active before.
  was_active :
      (a : String) (k : EntityId) (q : BirthRitual)
      → lookup k s'.rituals ≡ some q
      → is_active a q ≡ true
      → (p : BirthRitual) × (lookup k s.rituals ≡ some p) × (is_active a p ≡ true)
  was_active a k q h l = elim (Bool-cases (k == id)) [
    | inl e ↦ (
      r,
      subst (λ j. lookup j s.rituals ≡ some r) (sym ((eq_lem k id).0 e)) here,
      let same : r' ≡ q = cc (at_id k e, h) in
          active a (subst (λ x. is_active a x ≡ true) (sym same) l),
    )
    | inr e ↦ (q, cc (elsewhere k e, h), l)
  ]

  pub put-IsSound : IsSound s'
  put-IsSound = record {
    single = λ a i j p q h k l m.
        let x = was_active a i p h l in
        let y = was_active a j q k m in inv.single a i j x.0 y.0 x.1 y.1 x.2 y.2;
    all_spun = λ k q h l. elim (Bool-cases (k == id)) [
      | inl e ↦
          let same : r' ≡ q = cc (at_id k e, h) in
          subst (λ x. unspun required_wheel_types x ≡ none) same
            (closed (subst (λ x. is_complete x.status ≡ true) (sym same) l))
      | inr e ↦ inv.all_spun k q (cc (elsewhere k e, h)) l
    ];
    numbered = λ t n lt. ground (
      arith,
      at (issued "chr" t n),
      inv.numbered t n,
      counter,
      here,
      eq_lem (issued "chr" t n) id,
    );
  }
