-- ===== src/Traits/Rolling.antt =====
-- server/src/modules/characters/traits/trait.service.ts, `rollTraits`: the weights lie within their
-- bounds, and are rolled once.
use mmorpg_design_documents.Base.{
  ℕ, ◌≡◌, refl, ◌∙◌, none, some, List, [], ◌∷◌, map, String, ok, err, if◌then◌else◌, arith,
}
use mmorpg_design_documents.Base.Int.{◌-ℤ◌, ◌≤ℤ◌}
use mmorpg_design_documents.Base.Double.{Double, IsRounded}
use mmorpg_design_documents.Base.Key.{string_eq, ◌==◌, eq_self}
use mmorpg_design_documents.Base.Dict.{lookup, lookup-insert}
use mmorpg_design_documents.Base.Lists.{All}
use mmorpg_design_documents.Events.{publish, traits_rolled, WheelResult}
use mmorpg_design_documents.Random.Biased.{value_around-range}
use mmorpg_design_documents.Traits.{
  PassiveTraitName, PassiveTraitEntry, CharacterPassiveTraits, TraitService, already_rolled,
  passive_trait_names, trait_weight_min, trait_weight_max, trait_centre, biased_weight, roll_trait,
  rolled_record, trait_buckets, roll_traits, trait_bias, trait_seed,
}

abbrev pub IsWeight : PassiveTraitEntry → Type 0
IsWeight t = (trait_weight_min ≤ℤ t.weight) × (t.weight ≤ℤ trait_weight_max)

All-map :
    (P : PassiveTraitEntry → Type 0) (f : PassiveTraitName → PassiveTraitEntry)
    (ns : List PassiveTraitName)
    → ((n : PassiveTraitName) → P (f n))
    → All P (map f ns)
All-map P f [] h = tt
All-map P f (n ∷ ns) h = (h n, All-map P f ns h)

names-map :
    (f : PassiveTraitName → PassiveTraitEntry) (ns : List PassiveTraitName)
    → ((n : PassiveTraitName) → (f n).trait_name ≡ n)
    → map (λ (t : PassiveTraitEntry). t.trait_name) (map f ns) ≡ ns
names-map f [] h = refl
names-map f (n ∷ ns) h = cc (h n, names-map f ns h)

module _ {κ} (W : Type κ) ⦃doubles : Double W⦄ (laws : IsRounded W) where
  roll_trait-IsWeight :
      (c : String) (wheels : WheelResult) (n : PassiveTraitName)
      → IsWeight (roll_trait W c wheels n)
  unfolding roll_trait biased_weight ◌-ℤ◌
  roll_trait-IsWeight c wheels n =
      value_around-range {W = W} laws (trait_centre W (trait_bias wheels n)) (trait_seed c n)
        trait_weight_min trait_weight_max (omega arith) (omega arith) (omega arith) (omega arith)

  name_of_roll :
      (c : String) (wheels : WheelResult) (n : PassiveTraitName)
      → (roll_trait W c wheels n).trait_name ≡ n
  unfolding roll_trait
  name_of_roll c wheels n = refl

  -- What is so after the traits have been rolled.
  pub record Rolled (now : ℕ) (c : String) (wheels : WheelResult) (s s' : TraitService)
      : Type 0 where
    pub every_trait :
        map (λ (t : PassiveTraitEntry). t.trait_name) (rolled_record W now c wheels).traits
        ≡ passive_trait_names
    pub in_range : All IsWeight (rolled_record W now c wheels).traits
    pub stored :
        (k : String)
        → lookup k s'.store
          ≡ (if k == c then some (rolled_record W now c wheels) else lookup k s.store)
    pub told :
        s'.bus
        ≡ publish now now
            (traits_rolled (record {
              character_id = c;
              trait_buckets = trait_buckets W (rolled_record W now c wheels).traits;
            }))
            s.bus
    pub again :
        (later : ℕ) (other : WheelResult)
        → roll_traits W later c other s' ≡ (err (already_rolled c), s')

  taken :
      (now : ℕ) (c : String) (wheels : WheelResult) (r : CharacterPassiveTraits) (s : TraitService)
      → lookup c s.store ≡ some r
      → roll_traits W now c wheels s ≡ (err (already_rolled c), s)
  unfolding roll_traits
  taken now c wheels r s e = rw (roll_traits, e) refl

  every_trait_rolled :
      (now : ℕ) (c : String) (wheels : WheelResult)
      → (map (λ (t : PassiveTraitEntry). t.trait_name) (rolled_record W now c wheels).traits
          ≡ passive_trait_names)
        × All IsWeight (rolled_record W now c wheels).traits
  unfolding rolled_record
  every_trait_rolled now c wheels = (
    names-map (roll_trait W c wheels) passive_trait_names (name_of_roll c wheels),
    All-map IsWeight (roll_trait W c wheels) passive_trait_names (roll_trait-IsWeight c wheels),
  )

  roll_traits-free :
      (now : ℕ) (c : String) (wheels : WheelResult) (s : TraitService)
      → lookup c s.store ≡ none
      → ((roll_traits W now c wheels s).0 ≡ ok (rolled_record W now c wheels))
        × Rolled now c wheels s (roll_traits W now c wheels s).1
  unfolding roll_traits
  roll_traits-free now c wheels s e =
      rw (roll_traits, e)
        (
          refl,
          record {
            every_trait = (every_trait_rolled now c wheels).0;
            in_range = (every_trait_rolled now c wheels).1;
            stored = λ k. lookup-insert k c (rolled_record W now c wheels) s.store;
            told = refl;
            again = λ later other.
                taken later c other (rolled_record W now c wheels) _ (
                  lookup-insert c c (rolled_record W now c wheels) s.store ∙ (rw (eq_self c) refl));
          },
        )

  -- A character whose traits are rolled is refused, and nothing changes. For another the record has
  -- each passive trait once, with a weight between -100 and 100; it is stored under the character and
  -- under no other, one event tells the buckets of the weights, and the character is refused
  -- from then on, whatever the wheels.
  pub roll_traits-once :
      (now : ℕ) (c : String) (wheels : WheelResult) (s : TraitService)
      → ((r : CharacterPassiveTraits)
          → lookup c s.store ≡ some r
          → roll_traits W now c wheels s ≡ (err (already_rolled c), s))
        × (lookup c s.store ≡ none
            → ((roll_traits W now c wheels s).0 ≡ ok (rolled_record W now c wheels))
              × Rolled now c wheels s (roll_traits W now c wheels s).1)
  roll_traits-once now c wheels s =
      (λ r e. taken now c wheels r s e, roll_traits-free now c wheels s)
