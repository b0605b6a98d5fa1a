-- ===== src/Family/Support.antt =====
-- server/src/modules/simulation/family/family.service.ts: what the daily support does.
use mmorpg_design_documents.Base.{
  ℕ, ◌≡◌, refl, ◌∙◌, ap, Option, none, some, List, [], ◌∷◌, String, if◌then◌else◌, inl, inr,
  Bool-cases, Option-cases,
}
use mmorpg_design_documents.Base.Int.{ℤ}
use mmorpg_design_documents.Base.Key.{string_eq}
use mmorpg_design_documents.Base.Dict.{Dict, lookup, map_values, lookup-map_values}
use mmorpg_design_documents.Lifecycle.{LifeStage, is_protected}
use mmorpg_design_documents.Family.{
  FamilyRecord, FamilyService, SafetyAlert, Neglect, provided, resolve_family, resolve_each,
  resolve_family_support, simulate_neglect,
}

-- A family after the daily support.
abbrev pub supported : ℤ → (String → Option LifeStage) → FamilyRecord → FamilyRecord
supported day stage r = elim (stage r.character_id) [
  | none ↦ r
  | some t ↦ if is_protected t then provided day r else r
]

resolve_family_lem :
    (now : ℕ) (day : ℤ) (o : Option LifeStage) (r : FamilyRecord) (alerts : List SafetyAlert)
    → resolve_family now day o r alerts
      ≡ (elim o [ none ↦ r | some t ↦ if is_protected t then provided day r else r ], alerts)
unfolding resolve_family provided
resolve_family_lem now day none r alerts = refl
resolve_family_lem now day (some t) r alerts = elim (Bool-cases (is_protected t)) [
  | inl young ↦ rw young refl
  | inr grown ↦ rw grown refl
]

resolve_each_lem :
    (now : ℕ) (day : ℤ) (stage : String → Option LifeStage) (d : Dict String FamilyRecord)
    (alerts : List SafetyAlert)
    → resolve_each now day stage d alerts ≡ (map_values (supported day stage) d, alerts)
unfolding resolve_each
resolve_each_lem now day stage [] alerts = refl
resolve_each_lem now day stage (e ∷ d) alerts =
    rw
      (
        resolve_family_lem now day (stage e.1.character_id) e.1 alerts,
        resolve_each_lem now day stage d alerts,
      )
      refl

-- The daily support provides for the household of each character whose stage is protected, leaves
-- every other household as it is, and never raises an alert, whatever the households were before.
pub lookup-resolve :
    (now : ℕ) (day : ℤ) (stage : String → Option LifeStage) (s : FamilyService) (c : String)
    → let s' = resolve_family_support now day stage s in
      (lookup c s'.families
        ≡ elim (lookup c s.families) [ none ↦ none | some r ↦ some (supported day stage r) ])
      × (s'.alerts ≡ s.alerts)
unfolding resolve_family_support
lookup-resolve now day stage s c =
    let e = resolve_each_lem now day stage s.families s.alerts in
    (
      ap (λ p. lookup c p.0) e ∙ lookup-map_values c (supported day stage) s.families,
      ap (λ p. p.1) e,
    )

-- Neglect that is simulated never leads to an alert at the next support.
pub resolve-simulate_neglect :
    (now : ℕ) (day : ℤ) (stage : String → Option LifeStage) (s : FamilyService) (c : String)
    (kind : Neglect)
    → (resolve_family_support now day stage (simulate_neglect c kind s).1).alerts ≡ s.alerts
unfolding simulate_neglect
resolve-simulate_neglect now day stage s c kind =
    (lookup-resolve now day stage (simulate_neglect c kind s).1 c).1 ∙ kept
  where
    kept : (simulate_neglect c kind s).1.alerts ≡ s.alerts
    kept = elim (Option-cases (lookup c s.families)) [
      | inl e ↦ rw (e, simulate_neglect) refl
      | inr (r, e) ↦ rw (e, simulate_neglect) refl
    ]
