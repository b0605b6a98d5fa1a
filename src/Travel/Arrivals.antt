-- ===== src/Travel/Arrivals.antt =====
-- server/src/modules/travel/travel.service.ts, `resolveArrivals`: who arrives, and with what.
use mmorpg_design_documents.Base.{
  ℕ, zero, suc, ◌+◌, ◌≤◌, ◌<◌, ◌≡◌, refl, ◌∙◌, ap, subst, inl, inr, Bool, true, false, Bool-cases,
  Option, none, some, List, [], ◌∷◌, ◌++◌, arith, if_elim, if◌then◌else◌,
}
use mmorpg_design_documents.Base.Int.{ℤ}
use mmorpg_design_documents.Base.Key.{EntityId, entity_eq, ◌==◌}
use mmorpg_design_documents.Base.Dict.{Dict, lookup}
use mmorpg_design_documents.Base.Lists.{length, splice_one}
use mmorpg_design_documents.Simulation.{get_world_time_ms}
use mmorpg_design_documents.World.{WorldService}
use mmorpg_design_documents.Travel.{
  arrived, CargoItem, TravelJourney, TravelService, find_edge, Hazard, hazard_of, hazard_text,
}
use mmorpg_design_documents.Travel.Resolution.{
  Course, status_after, loses_cargo, level_of, is_due, lose_cargo, land, resolve_journey,
  resolve_each, resolve_arrivals, stepped,
}

pub status-hazard_of : (level : ℤ) (roll : ℕ) → status_after (hazard_of level roll) ≡ arrived
unfolding hazard_of
status-hazard_of level roll = ground arith

-- A list with an item put back at an index.
abbrev pub put_back {ℓ} : {A : Type ℓ} → Option A → ℕ → List A → List A
put_back none i ys = ys
put_back (some x) zero ys = x ∷ ys
put_back (some x) (suc i) [] = x ∷ []
put_back (some x) (suc i) (y ∷ ys) = y ∷ put_back (some x) i ys

put_back-splice_one {ℓ} :
    {A : Type ℓ} (i : ℕ) (xs : List A)
    → let (lost, left) = splice_one i xs in put_back lost i left ≡ xs
put_back-splice_one i [] = refl
put_back-splice_one zero (x ∷ xs) = refl
put_back-splice_one {A} (suc i) (x ∷ xs) =
    grown (splice_one i xs).0 i (splice_one i xs).1 ∙ ap (λ ys. x ∷ ys) (put_back-splice_one i xs)
  where
    grown : (o : Option A) (n : ℕ) (ys : List A) → put_back o (suc n) (x ∷ ys) ≡ x ∷ put_back o n ys
    grown none n ys = refl
    grown (some y) n ys = refl

abbrev pub how_many {ℓ} : {A : Type ℓ} → Option A → ℕ
how_many none = 0
how_many (some x) = 1

splice_one-length {ℓ} :
    {A : Type ℓ} (i : ℕ) (xs : List A) → i < length xs → how_many (splice_one i xs).0 ≡ 1
splice_one-length i [] h = absurd (omega arith)
splice_one-length zero (x ∷ xs) h = refl
splice_one-length (suc i) (x ∷ xs) h = splice_one-length i xs (omega arith)

abbrev pub nonempty {ℓ} : {A : Type ℓ} → List A → Bool
nonempty [] = false
nonempty (x ∷ xs) = true

-- What landing makes of a journey: a roll of the die meets a hazard by the level of the edge, the
-- journey's log grows by one entry, which has that roll and tells that hazard, and
-- one item of the cargo is lost if the hazard is a loss of cargo and there is any, else none.
pub record Landed {W : Type 0} (world : WorldService) (j j' : TravelJourney W) : Type 0 where
  pub hazard : Hazard
  pub roll : ℕ
  pub lost : Option (CargoItem W)
  pub index : ℕ
  pub on_time : j'.status ≡ arrived
  pub same : (j'.id ≡ j.id) × (j'.character_id ≡ j.character_id)
  pub rolled : (1 ≤ roll) × (roll ≤ 100)
  pub met : hazard ≡ hazard_of (level_of (find_edge j.from_node_id j.to_node_id world)) roll
  pub logged :
      j'.hazard_log
      ≡ j.hazard_log
        ++ (record { segment = length j.hazard_log; roll = roll; outcome = hazard_text hazard }
            ∷ [])
  pub cargo : put_back lost index j'.cargo ≡ j.cargo
  pub loss : how_many lost ≡ (if loses_cargo hazard then (if nonempty j.cargo then 1 else 0) else 0)

module _ {W : Type 0} (random : ℕ → ℕ → ℕ) (in_range : (i n : ℕ) → 1 ≤ n → random i n < n)
    (now t : ℤ) (world : WorldService) where
  lose_cargo-put_back :
      (h : Hazard) (cargo : List (CargoItem W)) (draws : ℕ)
      → put_back
          (lose_cargo random h cargo draws).0
          (random draws (length cargo))
          (lose_cargo random h cargo draws).1
        ≡ cargo
  unfolding lose_cargo
  lose_cargo-put_back h [] draws = refl
  lose_cargo-put_back h (x ∷ xs) draws = elim (Bool-cases (loses_cargo h)) [
    | inl loses ↦ rw loses (put_back-splice_one (random draws (length (x ∷ xs))) (x ∷ xs))
    | inr keeps ↦ rw keeps refl
  ]

  lose_cargo-how_many :
      (h : Hazard) (cargo : List (CargoItem W)) (draws : ℕ)
      → how_many (lose_cargo random h cargo draws).0
        ≡ (if loses_cargo h then (if nonempty cargo then 1 else 0) else 0)
  unfolding lose_cargo
  lose_cargo-how_many h [] draws = if_elim (λ n. 0 ≡ n) (loses_cargo h) 0 0 (λ _. refl) (λ _. refl)
  lose_cargo-how_many h (x ∷ xs) draws = elim (Bool-cases (loses_cargo h)) [
    | inl loses ↦ rw loses (
        splice_one-length (random draws (length (x ∷ xs))) (x ∷ xs)
          (in_range draws (length (x ∷ xs)) (omega arith)))
    | inr keeps ↦ rw keeps refl
  ]

  land-Landed : (j : TravelJourney W) (draws : ℕ) → Landed world j (land random world j draws).0
  unfolding land
  land-Landed j draws =
      let roll : ℕ = random draws 100 + 1 in
      let h = hazard_of (level_of (find_edge j.from_node_id j.to_node_id world)) roll in
      record {
        hazard = h;
        roll = roll;
        lost = (lose_cargo random h j.cargo (draws + 1)).0;
        index = random (draws + 1) (length j.cargo);
        on_time = status-hazard_of _ _;
        same = (refl, refl);
        rolled = omega (arith, in_range draws 100 (omega arith));
        met = refl;
        logged = refl;
        cargo = lose_cargo-put_back h j.cargo (draws + 1);
        loss = lose_cargo-how_many h j.cargo (draws + 1);
      }

  -- A journey after the loop: landed if it was due, else as it was.
  abbrev pub Resolved : TravelJourney W → TravelJourney W → Type 0
  Resolved j j' = if is_due t j then Landed world j j' else (j' ≡ j)

  stepped-Resolved :
      (j : TravelJourney W) (st : Course) → Resolved j (stepped random now t world j st).0
  unfolding resolve_journey
  stepped-Resolved j st = elim (Bool-cases (is_due t j)) [
    | inl due ↦ rw due (land-Landed j st.draws)
    | inr waits ↦ rw waits refl
  ]

  resolve_each-Resolved :
      (k : EntityId) (ds : Dict EntityId (TravelJourney W)) (st : Course) (j : TravelJourney W)
      → lookup k ds ≡ some j
      → (j' : TravelJourney W) × (lookup k (resolve_each random now t world ds st).journeys
          ≡ some j')
        × Resolved j j'
  unfolding resolve_each lookup
  resolve_each-Resolved k [] st j h = absurd (cc)
  resolve_each-Resolved k (e ∷ ds) st j h = elim (Bool-cases (k == e.0)) [
    | inl same ↦
        let own : e.1 ≡ j = cc (rw same at h) in
        let j' = (stepped random now t world e.1 st).0 in
        (j', rw same refl, subst (λ x. Resolved x j') own (stepped-Resolved e.1 st))
    | inr other ↦
        let (j', found, fine) =
          resolve_each-Resolved k ds (stepped random now t world e.1 st).1 j (rw other at h) in
        (j', rw other found, fine)
  ]

pub resolve_arrivals-Resolved :
    {W : Type 0} (random : ℕ → ℕ → ℕ) (now : ℤ) (s : TravelService W) (k : EntityId)
    (j : TravelJourney W)
    → ((i n : ℕ) → 1 ≤ n → random i n < n)
    → lookup k s.journeys ≡ some j
    → (j' : TravelJourney W) × (lookup k (resolve_arrivals random now s).1.journeys ≡ some j')
      × (if is_due (get_world_time_ms s.simulation now) j then Landed s.world j j' else (j' ≡ j))
unfolding resolve_arrivals
resolve_arrivals-Resolved random now s k j in_range h =
    resolve_each-Resolved random in_range now (get_world_time_ms s.simulation now) s.world k
      s.journeys _ j h
