-- ===== src/Events/Delivery.antt =====
-- Who receives an event: `DomainEventBus` of server/src/common/domain-events.ts.
use mmorpg_design_documents.Base.{
  ℕ, ◌≡◌, ◌≢◌, not, Option-cases, inl, inr, List, [], ◌∷◌, ◌++◌, nat_eq, String, arith,
}
use mmorpg_design_documents.Base.Key.{string_eq, eq_lem}
use mmorpg_design_documents.Base.Dict.{lookup, lookup-insert, lookup-insert_self}
use mmorpg_design_documents.Base.Lists.{keep}
use mmorpg_design_documents.Events.{DomainEventBus, on, off, registered}

-- The listeners of an event type, in the order of registration.
abbrev pub audience : String → DomainEventBus → List ℕ
audience event_type bus = registered (lookup event_type bus.listeners)

-- `on` puts the listener last in its type's audience and leaves the other types' alone.
pub audience-on :
    (event_type other : String) (listener : ℕ) (bus : DomainEventBus)
    → (audience event_type (on event_type listener bus) ≡ audience event_type bus ++ listener ∷ [])
      × (other ≢ event_type → audience other (on event_type listener bus) ≡ audience other bus)
unfolding on
audience-on event_type other listener bus = (
  rw (lookup-insert_self event_type (audience event_type bus ++ listener ∷ []) bus.listeners),
  λ ne.
      rw (lookup-insert other event_type (audience event_type bus ++ listener ∷ []) bus.listeners)
        (ground (arith, eq_lem other event_type)),
)

abbrev pub Absent : ℕ → List ℕ → Type 0
Absent l [] = Unit
Absent l (x ∷ xs) = (x ≢ l) × Absent l xs

Absent-keep : (l : ℕ) (xs : List ℕ) → Absent l (keep (λ x. not (nat_eq x l)) xs)
Absent-keep l [] = tt
Absent-keep l (x ∷ xs) = ground (arith, Absent-keep l xs)

-- After `off` the listener is nowhere in its type's audience, however often it was registered.
pub off-Absent :
    (event_type : String) (listener : ℕ) (bus : DomainEventBus)
    → Absent listener (audience event_type (off event_type listener bus))
unfolding off
off-Absent event_type listener bus = elim (Option-cases (lookup event_type bus.listeners)) [
  | inl e ↦ rw (e, off, e) tt
  | inr (ls, e) ↦
      rw
        (
          e,
          off,
          lookup-insert_self event_type (keep (λ x. not (nat_eq x listener)) ls) bus.listeners,
        )
        (Absent-keep listener ls)
]
