-- ===== src/Traits/Hints.antt =====
-- server/src/modules/characters/traits/trait.service.ts, `generateHints`: which traits are hinted at,
-- and how little of their weights is told.
use mmorpg_design_documents.Base.{
  ℕ, suc, ◌+◌, ◌≡◌, refl, sym, ap, ◌∙◌, ◌⊎◌, inl, inr, false, true, Bool-cases, some, List, [], ◌∷◌,
  String, if◌then◌else◌, arith,
}
use mmorpg_design_documents.Base.Int.{ℤ, pos, negsuc, ◌≤ℤ◌, leb_ℤ}
use mmorpg_design_documents.Base.Key.{string_eq}
use mmorpg_design_documents.Base.Dict.{lookup}
use mmorpg_design_documents.Base.Lists.{length}
use mmorpg_design_documents.Traits.{
  PassiveTraitEntry, CharacterPassiveTraits, TraitService, TraitHintDto, classify_weight, hint,
  is_neutral, hints_of, generate_hints,
}

-- Two weights are on the same side of -60, -20, 20 and 60.
abbrev pub SameRange : ℤ → ℤ → Type 0
SameRange a b =
    ((a ≤ℤ negsuc 59) × (b ≤ℤ negsuc 59))
    ⊎ ((negsuc 58 ≤ℤ a) × (a ≤ℤ negsuc 19) × (negsuc 58 ≤ℤ b) × (b ≤ℤ negsuc 19))
    ⊎ ((negsuc 18 ≤ℤ a) × (a ≤ℤ pos 20) × (negsuc 18 ≤ℤ b) × (b ≤ℤ pos 20))
    ⊎ ((pos 21 ≤ℤ a) × (a ≤ℤ pos 60) × (pos 21 ≤ℤ b) × (b ≤ℤ pos 60))
    ⊎ ((pos 61 ≤ℤ a) × (pos 61 ≤ℤ b))

-- The same traits in the same order, with weights in the same ranges.
abbrev pub Alike : List PassiveTraitEntry → List PassiveTraitEntry → Type 0
Alike [] [] = Unit
Alike [] (u ∷ us) = ⊥
Alike (t ∷ ts) [] = ⊥
Alike (t ∷ ts) (u ∷ us) = (t.trait_name ≡ u.trait_name) × SameRange t.weight u.weight × Alike ts us

-- How many weights are at most -20 or more than 20.
abbrev pub marked : List PassiveTraitEntry → ℕ
marked [] = 0
marked (t ∷ ts) =
    let rest = marked ts in
    if leb_ℤ t.weight (negsuc 19)
    then rest + 1
    else if leb_ℤ t.weight (pos 20)
    then rest
    else rest + 1

SameRange-classify_weight : (a b : ℤ) → SameRange a b → classify_weight a ≡ classify_weight b
SameRange-classify_weight a b h = ground arith

hints_of-more :
    (t : PassiveTraitEntry) (ts : List PassiveTraitEntry)
    → is_neutral (classify_weight t.weight) ≡ false
    → hints_of (t ∷ ts) ≡ hint t.trait_name (classify_weight t.weight) ∷ hints_of ts
unfolding hints_of
hints_of-more t ts e = rw e refl

hints_of-skip :
    (t : PassiveTraitEntry) (ts : List PassiveTraitEntry)
    → is_neutral (classify_weight t.weight) ≡ true
    → hints_of (t ∷ ts) ≡ hints_of ts
unfolding hints_of
hints_of-skip t ts e = rw e refl

hints_of-Alike : (ts us : List PassiveTraitEntry) → Alike ts us → hints_of ts ≡ hints_of us
hints_of-Alike [] [] h = refl
hints_of-Alike [] (u ∷ us) h = absurd h
hints_of-Alike (t ∷ ts) [] h = absurd h
hints_of-Alike (t ∷ ts) (u ∷ us) (name, range, rest) =
    elim (Bool-cases (is_neutral (classify_weight t.weight))) [
      | inl e ↦
          hints_of-skip t ts e ∙ hints_of-Alike ts us rest ∙ sym (hints_of-skip u us (rw⁻¹ same e))
      | inr e ↦
          hints_of-more t ts e
          ∙ (rw (name, same, hints_of-Alike ts us rest) refl)
          ∙ sym (hints_of-more u us (rw⁻¹ same e))
    ]
  where
    same : classify_weight t.weight ≡ classify_weight u.weight
    same = SameRange-classify_weight t.weight u.weight range

hints_of-marked : (ts : List PassiveTraitEntry) → length (hints_of ts) ≡ marked ts
hints_of-marked [] = unfold hints_of in refl
hints_of-marked (t ∷ ts) = elim (Bool-cases (leb_ℤ t.weight (negsuc 19))) [
  | inl low ↦ rw (hints_of-more t ts (low_told t.weight low), low) (grown (hints_of-marked ts))
  | inr above ↦ elim (Bool-cases (leb_ℤ t.weight (pos 20))) [
    | inl mid ↦ rw (hints_of-skip t ts (middle t.weight above mid), above, mid) (hints_of-marked ts)
    | inr high ↦
        rw (hints_of-more t ts (high_told t.weight high), above, high) (grown (hints_of-marked ts))
  ]
]
  where
    grown : {n m : ℕ} → n ≡ m → suc n ≡ m + 1
    grown e = omega (arith, e)

    low_told : (w : ℤ) → leb_ℤ w (negsuc 19) ≡ true → is_neutral (classify_weight w) ≡ false
    low_told w h = ground arith

    middle :
        (w : ℤ)
        → leb_ℤ w (negsuc 19) ≡ false
        → leb_ℤ w (pos 20) ≡ true
        → is_neutral (classify_weight w) ≡ true
    middle w h k = ground arith

    high_told : (w : ℤ) → leb_ℤ w (pos 20) ≡ false → is_neutral (classify_weight w) ≡ false
    high_told w h = ground arith

generate_hints-found :
    (c : String) (r : CharacterPassiveTraits) (s : TraitService)
    → lookup c s.store ≡ some r
    → generate_hints c s ≡ some (record { character_id = c; hints = hints_of r.traits })
unfolding generate_hints
generate_hints-found c r s e = rw (generate_hints, e) refl

-- A character is given one hint for each of its traits whose weight is at most -20 or more than 20;
-- and for the same traits with other weights in the same ranges, which end at -60, -20, 20 and 60,
-- the player gets the same hints.
pub generate_hints-blind :
    (c : String) (q r : CharacterPassiveTraits) (s t : TraitService)
    → lookup c s.store ≡ some q
    → lookup c t.store ≡ some r
    → Alike q.traits r.traits
    → ((dto : TraitHintDto) × (generate_hints c s ≡ some dto)
        × (length dto.hints ≡ marked q.traits))
      × (generate_hints c s ≡ generate_hints c t)
generate_hints-blind c q r s t e f h = (
  (
    record { character_id = c; hints = hints_of q.traits },
    generate_hints-found c q s e,
    hints_of-marked q.traits,
  ),
  generate_hints-found c q s e
      ∙ ap (λ hs. some (record { character_id = c; hints = hs }))
          (hints_of-Alike q.traits r.traits h)
      ∙ sym (generate_hints-found c r t f),
)
