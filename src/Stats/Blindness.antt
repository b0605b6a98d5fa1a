-- ===== src/Stats/Blindness.antt =====
-- server/src/modules/characters/stats/stat.service.ts: what the player is shown does not depend on
-- what is hidden.
use mmorpg_design_documents.Base.{
  ℕ, Bool-cases, ◌≡◌, refl, sym, ap, ◌∙◌, inl, inr, Option-cases, none, some, String, if◌then◌else◌,
}
use mmorpg_design_documents.Base.Double.{Double}
use mmorpg_design_documents.Base.Key.{string_eq, ◌==◌}
use mmorpg_design_documents.Base.Dict.{lookup, lookup-insert}
use mmorpg_design_documents.Events.{WheelResult}
use mmorpg_design_documents.Stats.{
  StatService, CharacterStatRecord, accumulated_family, visible_from, seed_visible_stats,
  born_record, init_stats, get_visible_stats,
}

module _ {κ} (W : Type κ) ⦃doubles : Double W⦄ where
  visible-same :
      (c : String) (v w : WheelResult)
      → accumulated_family v ≡ accumulated_family w
      → seed_visible_stats W c v ≡ seed_visible_stats W c w
  unfolding seed_visible_stats
  visible-same c v w e = ap (visible_from W c) e

  accumulated-same :
      (v w : WheelResult)
      → v.race ≡ w.race
      → v.trait ≡ w.trait
      → v.origin ≡ w.origin
      → accumulated_family v ≡ accumulated_family w
  unfolding accumulated_family
  accumulated-same v w e f g = rw (e, f, g) refl

  stored-visible :
      (now : ℕ) (c : String) (w : WheelResult) (s : StatService)
      → lookup c s.records ≡ none
      → (k : String)
      → get_visible_stats k (init_stats W now c w s).1 ≡ (
          if k == c
          then some (record { character_id = c; stats = seed_visible_stats W c w })
          else get_visible_stats k s)
  unfolding init_stats get_visible_stats born_record
  stored-visible now c w s free k = elim (Bool-cases (k == c)) [
    | inl e ↦
        rw
          (
            init_stats,
            free,
            get_visible_stats,
            lookup-insert k c (born_record W now c w) s.records,
            e,
          )
          refl
    | inr e ↦
        rw
          (
            init_stats,
            free,
            get_visible_stats,
            lookup-insert k c (born_record W now c w) s.records,
            e,
          )
          refl
  ]

  refused :
      (now : ℕ) (c : String) (w : WheelResult) (r : CharacterStatRecord) (s : StatService)
      → lookup c s.records ≡ some r
      → (init_stats W now c w s).1 ≡ s
  unfolding init_stats
  refused now c w r s e = rw (init_stats, e) refl

  -- What the player is shown of any character, after one is initialised, depends on the outcomes
  -- only by race, trait and origin: two sets of outcomes that differ in aptitude and omen, by which
  -- the hidden stats are biased, show the same.
  pub init_stats-blind :
      (now : ℕ) (c k : String) (v w : WheelResult) (s : StatService)
      → v.race ≡ w.race
      → v.trait ≡ w.trait
      → v.origin ≡ w.origin
      → get_visible_stats k (init_stats W now c v s).1
        ≡ get_visible_stats k (init_stats W now c w s).1
  init_stats-blind now c k v w s e f g = elim (Option-cases (lookup c s.records)) [
    | inr (r, h) ↦ ap (get_visible_stats k) (refused now c v r s h ∙ sym (refused now c w r s h))
    | inl h ↦
        stored-visible now c v s h k
        ∙ ap
            (λ x.
              if k == c
              then some (record { character_id = c; stats = x })
              else get_visible_stats k s)
            (visible-same c v w (accumulated-same v w e f g))
        ∙ sym (stored-visible now c w s h k)
  ]
