-- ===== src/Travel/Journeys.antt =====
-- server/src/modules/travel/travel.service.ts: nobody is on two journeys at once.
use mmorpg_design_documents.Base.{
  ℕ, ◌+◌, ◌≤◌, ◌≡◌, refl, subst, inl, inr, Bool, true, false, ◌&&◌, Bool-cases, Option-cases, List,
  [], ◌∷◌, String, arith,
}
use mmorpg_design_documents.Base.Int.{ℤ}
use mmorpg_design_documents.Base.Double.{Double}
use mmorpg_design_documents.Base.Key.{EntityId, entity_eq, string_eq, ◌==◌, eq_lem}
use mmorpg_design_documents.Base.Dict.{Dict, insert, lookup, values}
use mmorpg_design_documents.Base.Lists.{any}
use mmorpg_design_documents.Simulation.{get_world_time_ms}
use mmorpg_design_documents.World.{WorldService, get_node_by_id}
use mmorpg_design_documents.Travel.{
  TravelJourney, TravelService, StartJourneyInput, is_going, is_in_progress, find_edge,
  is_character_travelling, start_journey,
}
use mmorpg_design_documents.Travel.Resolution.{
  Course, level_of, stepped, is_due, land, resolve_journey, resolve_each, resolve_arrivals,
}
use mmorpg_design_documents.Travel.Arrivals.{status-hazard_of}

abbrev pub bit : Bool → ℕ
bit true = 1
bit false = 0

and_false : (b : Bool) → bit (b && false) ≡ 0
and_false true = refl
and_false false = refl

-- The number of journeys that a character is on.
abbrev pub going_count : {W : Type 0} → String → Dict EntityId (TravelJourney W) → ℕ
going_count c [] = 0
going_count c (e ∷ ds) = bit (is_going c e.1) + going_count c ds

module _ {W : Type 0} where
  abbrev pub IsSingle : TravelService W → Type 0
  IsSingle s = (c : String) → going_count c s.journeys ≤ 1

  going_count-insert :
      (c : String) (k : EntityId) (j : TravelJourney W) (ds : Dict EntityId (TravelJourney W))
      → going_count c (insert k j ds) ≤ bit (is_going c j) + going_count c ds
  unfolding insert
  going_count-insert c k j [] = omega arith
  going_count-insert c k j (e ∷ ds) = elim (Bool-cases (k == e.0)) [
    | inl same ↦ rw same (omega arith)
    | inr other ↦ rw other (omega (arith, going_count-insert c k j ds))
  ]

  not_going :
      (c : String) (ds : Dict EntityId (TravelJourney W))
      → any (is_going c) (values ds) ≡ false
      → going_count c ds ≡ 0
  not_going c [] h = refl
  not_going c (e ∷ ds) h = elim (Bool-cases (is_going c e.1)) [
    | inl on ↦ absurd (cc (rw on at h))
    | inr off ↦ rw off (omega (arith, not_going c ds (rw off at h)))
  ]

  module _ (random : ℕ → ℕ → ℕ) (now t : ℤ) (world : WorldService) where
    not_going_on :
        (c : String) (j : TravelJourney W) (st : Course)
        → bit (is_going c (resolve_journey random now world j st).0) ≡ 0
    unfolding resolve_journey land
    not_going_on c j st =
        rw
          (status-hazard_of (level_of (find_edge j.from_node_id j.to_node_id world))
            (random st.draws 100 + 1))
          (and_false (j.character_id == c))

    stepped-going :
        (c : String) (j : TravelJourney W) (st : Course)
        → bit (is_going c (stepped random now t world j st).0) ≤ bit (is_going c j)
    stepped-going c j st = elim (Bool-cases (is_due t j)) [
      | inl due ↦ rw due (omega (arith, not_going_on c j st))
      | inr waits ↦ rw waits (omega arith)
    ]

    resolve_each-going_count :
        (c : String) (ds : Dict EntityId (TravelJourney W)) (st : Course)
        → going_count c (resolve_each random now t world ds st).journeys ≤ going_count c ds
    unfolding resolve_each
    resolve_each-going_count c [] st = omega arith
    resolve_each-going_count c (e ∷ ds) st = omega (
      arith,
      stepped-going c e.1 st,
      resolve_each-going_count c ds (stepped random now t world e.1 st).1,
    )

  -- One more journey, of somebody who is on none.
  insert-IsSingle :
      (k : EntityId) (j : TravelJourney W) (s : TravelService W)
      → any (is_going j.character_id) (values s.journeys) ≡ false
      → IsSingle s
      → (c : String) → going_count c (insert k j s.journeys) ≤ 1
  insert-IsSingle k j s free h c = elim (Bool-cases (j.character_id == c)) [
    | inl same ↦
        let own : j.character_id ≡ c = (eq_lem j.character_id c).0 same in
        omega (
          arith,
          going_count-insert c k j s.journeys,
          not_going c s.journeys
              (subst (λ x. any (is_going x) (values s.journeys) ≡ false) own free),
          at_most_one (is_going c j),
        )
    | inr other ↦ omega (
      arith,
      going_count-insert c k j s.journeys,
      h c,
      none_of (j.character_id == c) (is_in_progress j) other,
    )
  ]
    where
      at_most_one : (b : Bool) → bit b ≤ 1
      at_most_one true = omega arith
      at_most_one false = omega arith

      none_of : (a b : Bool) → a ≡ false → bit (a && b) ≡ 0
      none_of a b e = rw e refl

module _ {W : Type 0} (random : ℕ → ℕ → ℕ) where
  pub resolve_arrivals-IsSingle :
      (now : ℤ) (s : TravelService W) → IsSingle s → IsSingle (resolve_arrivals random now s).1
  unfolding resolve_arrivals
  resolve_arrivals-IsSingle now s h = λ c. omega (
    arith,
    h c,
    resolve_each-going_count random now (get_world_time_ms s.simulation now) s.world c s.journeys _,
  )

-- A call of the service, with its time.
pub data Request (W : Type 0) : Type 0 where
  start : StartJourneyInput W → Request W
  resolve : Request W

module _ {W : Type 0} ⦃d : Double W⦄ (random : ℕ → ℕ → ℕ) where
  unfoldable pub apply : ℤ → Request W → TravelService W → TravelService W
  apply now (start input) s = (start_journey input now s).1
  apply now resolve s = (resolve_arrivals random now s).1

  unfoldable pub run : List (ℤ × Request W) → TravelService W → TravelService W
  run [] s = s
  run (r ∷ rs) s = run rs (apply r.0 r.1 s)

  start_journey-IsSingle :
      (input : StartJourneyInput W) (now : ℤ) (s : TravelService W)
      → IsSingle s
      → IsSingle (start_journey input now s).1
  unfolding start_journey is_character_travelling get_node_by_id
  start_journey-IsSingle input now s h =
      elim (Bool-cases (any (is_going input.character_id) (values s.journeys))) [
        | inl busy ↦ rw busy h
        | inr free ↦ elim (Option-cases (lookup input.from_node_id s.world.nodes)) [
          | inl e ↦ rw (free, e, start_journey) h
          | inr (origin, e) ↦ elim (Option-cases (lookup input.to_node_id s.world.nodes)) [
            | inl f ↦ rw (free, e, start_journey, f) h
            | inr (target, f) ↦
                elim (Option-cases (find_edge input.from_node_id input.to_node_id s.world)) [
                  | inl g ↦ rw (free, e, start_journey, f, g) h
                  | inr (edge, g) ↦ rw (free, e, start_journey, f, g) (insert-IsSingle _ _ s free h)
                ]
          ]
        ]
      ]

  apply-IsSingle :
      (now : ℤ) (r : Request W) (s : TravelService W) → IsSingle s → IsSingle (apply now r s)
  unfolding apply
  apply-IsSingle now (start input) s h = start_journey-IsSingle input now s h
  apply-IsSingle now resolve s h = resolve_arrivals-IsSingle random now s h

  -- Through any history of journeys started, refused and resolved, no character is ever on two
  -- journeys at once if none was at the start.
  pub run-IsSingle :
      (rs : List (ℤ × Request W)) (s : TravelService W) → IsSingle s → IsSingle (run rs s)
  unfolding run
  run-IsSingle [] s h = h
  run-IsSingle (r ∷ rs) s h = run-IsSingle rs (apply r.0 r.1 s) (apply-IsSingle r.0 r.1 s h)
