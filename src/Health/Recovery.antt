-- ===== src/Health/Recovery.antt =====
-- server/src/modules/health/health.service.ts, `resolveExpiredConditions`: what the two loops leave,
-- and what they announce.
use mmorpg_design_documents.Base.{
  ℕ, ◌+◌, ◌≡◌, refl, ◌∙◌, ap, inl, inr, Bool, true, false, not, Bool-cases, Option, none, some,
  List, [], ◌∷◌, String,
}
use mmorpg_design_documents.Base.Int.{ℤ}
use mmorpg_design_documents.Base.Key.{EntityId, entity_eq, ◌==◌, eq_self, eq_sym}
use mmorpg_design_documents.Base.Lists.{keep, length}
use mmorpg_design_documents.Events.{DomainEventBus}
use mmorpg_design_documents.Health.{
  HealthCondition, HealthService, HealthStore, expired, take_condition, resolved_event, settled,
  resolve_in, resolve_all, expire_each, resolve_expired_conditions,
}

-- No condition of the list has the id.
unfoldable pub IsAbsent : EntityId → List HealthCondition → Type 0
IsAbsent id [] = Unit {0}
IsAbsent id (c ∷ cs) = ((c.id == id) ≡ false) × IsAbsent id cs

-- The ids of the list differ: none comes back later.
unfoldable pub IsDistinct : List HealthCondition → Type 0
unfolding IsAbsent
IsDistinct [] = Unit {0}
IsDistinct (c ∷ cs) = IsAbsent c.id cs × IsDistinct cs

unfoldable pub IsTracked : HealthStore → Type 0
unfolding IsDistinct
IsTracked [] = Unit {0}
IsTracked (e ∷ d) = IsDistinct e.1 × IsTracked d

pub announce : ℕ → String → List HealthCondition → DomainEventBus → DomainEventBus
announce now character_id [] bus = bus
announce now character_id (c ∷ cs) bus =
    announce now character_id cs (resolved_event now character_id c bus)

-- Every list without its expired conditions, in the order they had.
pub survivors : ℤ → HealthStore → HealthStore
survivors day [] = []
survivors day (e ∷ d) = (e.0, keep (λ c. not (expired day c)) e.1) ∷ survivors day d

pub expired_count : ℤ → HealthStore → ℕ
expired_count day [] = 0
expired_count day (e ∷ d) = length (keep (expired day) e.1) + expired_count day d

-- One event for each expired condition, by character and then in the order of the list.
pub announce_each : ℕ → ℤ → HealthStore → DomainEventBus → DomainEventBus
unfolding announce
announce_each now day [] bus = bus
announce_each now day (e ∷ d) bus =
    announce_each now day d (announce now e.0 (keep (expired day) e.1) bus)

take_condition-past :
    (id : EntityId) (c : HealthCondition) (cs : List HealthCondition)
    → (c.id == id) ≡ false
    → take_condition id (c ∷ cs) ≡ ((take_condition id cs).0, c ∷ (take_condition id cs).1)
unfolding take_condition
take_condition-past id c cs h = rw h refl

take_condition-first :
    (c : HealthCondition) (cs : List HealthCondition) → take_condition c.id (c ∷ cs) ≡ (some c, cs)
unfolding take_condition
take_condition-first c cs = rw (eq_self c.id) refl

settled-past :
    (now : ℕ) (ch : String) (c : HealthCondition) (cs : List HealthCondition) (bus : DomainEventBus)
    (t : Option HealthCondition × List HealthCondition)
    → settled now ch (t.0, c ∷ t.1) (c ∷ cs) bus
      ≡ ((settled now ch t cs bus).0, c ∷ (settled now ch t cs bus).1, (settled now ch t cs bus).2)
settled-past now ch c cs bus (none, rest) = refl
settled-past now ch c cs bus (some x, rest) = refl

resolve_in-past :
    (now : ℕ) (ch : String) (id : EntityId) (c : HealthCondition) (cs : List HealthCondition)
    (bus : DomainEventBus)
    → (c.id == id) ≡ false
    → resolve_in now ch id (c ∷ cs) bus ≡ (
      (resolve_in now ch id cs bus).0,
      c ∷ (resolve_in now ch id cs bus).1,
      (resolve_in now ch id cs bus).2,
    )
unfolding resolve_in
resolve_in-past now ch id c cs bus h =
    ap (λ t. settled now ch t (c ∷ cs) bus) (take_condition-past id c cs h)
    ∙ settled-past now ch c cs bus (take_condition id cs)

resolve_in-first :
    (now : ℕ) (ch : String) (c : HealthCondition) (cs : List HealthCondition) (bus : DomainEventBus)
    → resolve_in now ch c.id (c ∷ cs) bus ≡ (true, cs, resolved_event now ch c bus)
unfolding resolve_in
resolve_in-first now ch c cs bus =
    ap (λ t. settled now ch t (c ∷ cs) bus) (take_condition-first c cs)

-- A condition whose id is not among those to be resolved stays at the head of its list.
resolve_all-past :
    (now : ℕ) (ch : String) (xs : List HealthCondition) (c : HealthCondition)
    (cs : List HealthCondition) (bus : DomainEventBus)
    → IsAbsent c.id xs
    → resolve_all now ch xs (c ∷ cs) bus
      ≡ (c ∷ (resolve_all now ch xs cs bus).0, (resolve_all now ch xs cs bus).1)
unfolding resolve_all IsAbsent
resolve_all-past now ch [] c cs bus h = refl
resolve_all-past now ch (x ∷ xs) c cs bus (ne, h) =
    rw (resolve_in-past now ch x.id c cs bus (eq_sym c.id x.id ∙ ne)) (
      resolve_all-past now ch xs c (resolve_in now ch x.id cs bus).1
        (resolve_in now ch x.id cs bus).2 h)

keep-IsAbsent :
    (p : HealthCondition → Bool) (id : EntityId) (cs : List HealthCondition)
    → IsAbsent id cs
    → IsAbsent id (keep p cs)
unfolding IsAbsent
keep-IsAbsent p id [] h = h
keep-IsAbsent p id (c ∷ cs) (ne, h) = elim (Bool-cases (p c)) [
  | inl e ↦ rw e (ne, keep-IsAbsent p id cs h)
  | inr e ↦ rw e (keep-IsAbsent p id cs h)
]

resolve_all-expired :
    (now : ℕ) (day : ℤ) (ch : String) (cs : List HealthCondition) (bus : DomainEventBus)
    → IsDistinct cs
    → resolve_all now ch (keep (expired day) cs) cs bus
      ≡ (keep (λ c. not (expired day c)) cs, announce now ch (keep (expired day) cs) bus)
unfolding IsDistinct resolve_all announce
resolve_all-expired now day ch [] bus h = refl
resolve_all-expired now day ch (c ∷ cs) bus (fresh, h) = elim (Bool-cases (expired day c)) [
  | inl e ↦
      rw (e, resolve_all, resolve_in-first now ch c cs bus)
        (resolve_all-expired now day ch cs (resolved_event now ch c bus) h)
  | inr e ↦
      rw
        (
          e,
          resolve_all-past now ch (keep (expired day) cs) c cs bus
              (keep-IsAbsent (expired day) c.id cs fresh),
          resolve_all-expired now day ch cs bus h,
        )
        refl
]

expire_each_lem :
    (now : ℕ) (day : ℤ) (d : HealthStore) (bus : DomainEventBus)
    → IsTracked d
    → expire_each now day d bus
      ≡ (expired_count day d, survivors day d, announce_each now day d bus)
unfolding IsTracked expire_each expired_count survivors announce_each
expire_each_lem now day [] bus h = refl
expire_each_lem now day (e ∷ d) bus (here, later) =
    rw
      (
        resolve_all-expired now day e.0 e.1 bus here,
        expire_each_lem now day d (announce now e.0 (keep (expired day) e.1) bus) later,
      )
      refl

-- Where the ids of each character's conditions differ, `resolveExpiredConditions` leaves exactly
-- the conditions that have not expired, in their order, counts the others and announces each of
-- them once, in the order of the store.
pub resolve_expired_conditions_lem :
    (now : ℕ) (day : ℤ) (s : HealthService)
    → IsTracked s.store
    → resolve_expired_conditions now day s ≡ (
      expired_count day s.store,
      record { store = survivors day s.store; bus = announce_each now day s.store s.bus },
    )
unfolding resolve_expired_conditions
resolve_expired_conditions_lem now day s h = rw (expire_each_lem now day s.store s.bus h) refl
