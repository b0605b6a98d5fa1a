-- ===== src/Traits/Tests.antt =====
-- Runs of the trait service at concrete inputs, with whole numbers in place of doubles.
use mmorpg_design_documents.Base.{◌≡◌, refl, inl, inr, some, [], ◌∷◌, arith}
use mmorpg_design_documents.Base.Int.{pos, negsuc}
use mmorpg_design_documents.Base.Double.{whole_double}
use mmorpg_design_documents.Base.Key.{string_eq}
use mmorpg_design_documents.Base.Dict.{lookup}
use mmorpg_design_documents.Base.Lists.{length}
use mmorpg_design_documents.Events.{new_bus}
use mmorpg_design_documents.Traits.{
  fortune_drift, research_spark, combat_instinct, CharacterPassiveTraits, TraitService,
  TraitHintDto, generate_hints,
}
use mmorpg_design_documents.Traits.Hints.{Alike, generate_hints-blind}

abbrev lucky : CharacterPassiveTraits
lucky = record {
  character_id = "c1";
  traits =
      record { trait_name = fortune_drift; weight = pos 75 }
      ∷ record { trait_name = research_spark; weight = pos 20 }
      ∷ record { trait_name = combat_instinct; weight = negsuc 19 }
      ∷ [];
  rolled_at = 3;
}

abbrev luckier : CharacterPassiveTraits
luckier = record lucky {
  traits =
      record { trait_name = fortune_drift; weight = pos 90 }
      ∷ record { trait_name = research_spark; weight = negsuc 18 }
      ∷ record { trait_name = combat_instinct; weight = negsuc 58 }
      ∷ [];
}

abbrev with_lucky : TraitService
with_lucky = record { store = ("c1", lucky) ∷ []; bus = new_bus }

abbrev with_luckier : TraitService
with_luckier = record { store = ("c1", luckier) ∷ []; bus = new_bus }

two_hints :
    generate_hints "c1" with_lucky
    ≡ some (record {
      character_id = "c1";
      hints =
          "Fate itself seems to bend in your favour." ∷ "You hesitate a beat too long in battle."
          ∷ [];
    })
unfolding generate_hints lookup
two_hints = refl

lucky-Alike : Alike lucky.traits luckier.traits
lucky-Alike = (
  refl,
  inr (inr (inr (inr (omega arith, omega arith)))),
  (
    refl,
    inr (inr (inl (omega arith, omega arith, omega arith, omega arith))),
    (refl, inr (inl (omega arith, omega arith, omega arith, omega arith)), tt),
  ),
)

generate_hints-blind_example :
    ((dto : TraitHintDto) × (generate_hints "c1" with_lucky ≡ some dto) × (length dto.hints ≡ 2))
    × (generate_hints "c1" with_lucky ≡ generate_hints "c1" with_luckier)
unfolding lookup
generate_hints-blind_example =
    generate_hints-blind "c1" lucky luckier with_lucky with_luckier refl refl lucky-Alike
