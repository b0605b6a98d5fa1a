-- ===== src/Stats/Content.antt =====
-- tools/content/wheels.json beside server/src/modules/characters/stats/stat.constants.ts: the
-- aptitudes and omens of the wheels are not those of the bias tables.
use mmorpg_design_documents.Base.{ℕ, ◌≡◌, refl, sym, ap, ◌∙◌, ok, String, none, some}
use mmorpg_design_documents.Base.Double.{Double}
use mmorpg_design_documents.Base.Key.{string_eq}
use mmorpg_design_documents.Base.Dict.{lookup}
use mmorpg_design_documents.Base.Lists.{All}
use mmorpg_design_documents.Events.{WheelResult}
use mmorpg_design_documents.Wheels.{aptitude, omen, wheel_eq, WheelOutcome, spin}
use mmorpg_design_documents.Wheels.Content.{wheels_json, aptitude_wheel, omen_wheel}
use mmorpg_design_documents.Wheels.Selection.{spin-All}
use mmorpg_design_documents.Stats.{
  aptitude_potential_bias, omen_potential_bias, potential_bias, no_potential_bias, omen_bias,
  sum_potential, origin_potential_bias, potential_from, seed_potential_stats, accumulated_potential,
}

module _ {κ} (W : Type κ) ⦃doubles : Double W⦄ where
  abbrev NoAptitudeBias : WheelOutcome W → Type 0
  NoAptitudeBias o = potential_bias aptitude_potential_bias o.id ≡ no_potential_bias

  abbrev NoOmenBias : WheelOutcome W → Type 0
  NoOmenBias o = potential_bias omen_potential_bias o.id ≡ no_potential_bias

  aptitudes : All NoAptitudeBias (aptitude_wheel {W = W}).outcomes
  unfolding lookup
  aptitudes = (refl, (refl, (refl, (refl, (refl, (refl, (refl, tt)))))))

  omens : All NoOmenBias (omen_wheel {W = W}).outcomes
  unfolding lookup
  omens = (refl, (refl, (refl, (refl, (refl, (refl, (refl, tt)))))))

  same_potential :
      (c : String) (v w : WheelResult)
      → accumulated_potential v ≡ accumulated_potential w
      → seed_potential_stats W c v ≡ seed_potential_stats W c w
  unfolding seed_potential_stats
  same_potential c v w e = ap (λ b. potential_from W c b) e

  -- With the content file as it is, the aptitude and the omen that the spins select have no effect on
  -- the hidden stats: they are those of a character with no aptitude and no omen.
  pub spin-no_effect :
      (c id omen_id : String) (seed seed' : ℕ) (wheels : WheelResult)
      → spin {W = W} aptitude seed wheels_json ≡ ok id
      → spin {W = W} omen seed' wheels_json ≡ ok omen_id
      → seed_potential_stats W c (record wheels { aptitude = id; omen = some omen_id })
        ≡ seed_potential_stats W c (record wheels { aptitude = ""; omen = none })
  unfolding accumulated_potential lookup
  spin-no_effect c id omen_id seed seed' wheels h k =
      same_potential c (record wheels { aptitude = id; omen = some omen_id })
        (record wheels { aptitude = ""; omen = none })
        (ap
            (λ b.
              sum_potential b (potential_bias origin_potential_bias wheels.origin)
                (omen_bias (some omen_id)))
            (ap (potential_bias aptitude_potential_bias) (sym o.1) ∙ o.2)
          ∙ ap
              (λ b.
                sum_potential (potential_bias aptitude_potential_bias "")
                  (potential_bias origin_potential_bias wheels.origin) b)
              (ap (potential_bias omen_potential_bias) (sym p.1) ∙ p.2))
    where
      o : (x : WheelOutcome W) × (x.id ≡ id) × NoAptitudeBias x
      o =
          spin-All NoAptitudeBias aptitude seed wheels_json aptitude_wheel id refl
            (λ q. absurd (cc (q))) aptitudes h

      p : (x : WheelOutcome W) × (x.id ≡ omen_id) × NoOmenBias x
      p =
          spin-All NoOmenBias omen seed' wheels_json omen_wheel omen_id refl (λ q. absurd (cc (q)))
            omens k
