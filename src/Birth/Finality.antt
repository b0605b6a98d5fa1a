-- ===== src/Birth/Finality.antt =====
-- server/src/modules/characters/birth/birth.service.ts: a ritual that is complete stays as it is.
use mmorpg_design_documents.Base.{
  ℕ, ◌+◌, ◌≡◌, refl, ap, ◌∙◌, inl, inr, true, false, Bool-cases, Option-cases, none, some, List, [],
  ◌∷◌, String, Result, ok, err, arith,
}
use mmorpg_design_documents.Base.Double.{Double}
use mmorpg_design_documents.Base.Key.{EntityId, issued, string_eq, entity_eq, ◌==◌, eq_lem}
use mmorpg_design_documents.Base.Dict.{lookup, insert, lookup-insert, lookup-insert_self}
use mmorpg_design_documents.Events.{publish, character_born}
use mmorpg_design_documents.Wheels.{WheelType, required_wheel_types, WheelContentFile}
use mmorpg_design_documents.Birth.{
  BirthRitual, BirthService, BirthError, is_complete, get_ritual_by_account, credit_balance,
  start_ritual, begin, spin_wheel, required_not_spun, unspun, wheel_outcomes, finished, finish,
  complete_open, complete_ritual, set_cooldown,
}
use mmorpg_design_documents.Birth.Spins.{
  Ending, unpaid, stuck, turned, begun, spin_open-Ending, spin_wheel-open, spin_wheel_complete,
  spin_wheel-missing,
}
use mmorpg_design_documents.Birth.Runs.{
  Call, start, turn_wheel, end, credit, call, run, call-IsSound,
}
use mmorpg_design_documents.Birth.Invariant.{IsSound}
use mmorpg_design_documents.Birth.Rituals.{complete_ritual-IsSound, begin-open}

-- The entry of a complete ritual through each call.
pub start_ritual-kept :
    (now : ℕ) (a : String) (id : EntityId) (r : BirthRitual) (s : BirthService)
    → IsSound s
    → lookup id s.rituals ≡ some r
    → lookup id (start_ritual now a s).1.rituals ≡ some r
unfolding start_ritual
start_ritual-kept now a id r s inv here = elim (Option-cases (get_ritual_by_account a s)) [
  | inr (q, e) ↦ rw (start_ritual, e) here
  | inl e ↦
      rw (start_ritual, e)
        (lookup-insert id (issued "chr" now (s.id_counter + 1)) _ s.rituals
          ∙ (ground (
            arith,
            here,
            eq_lem id (issued "chr" now (s.id_counter + 1)),
            inv.numbered now (s.id_counter + 1),
          )))
]

-- An entry put at an id whose ritual is not complete is elsewhere.
insert-kept :
    (id k : EntityId) (r q q' : BirthRitual) (s : BirthService)
    → lookup id s.rituals ≡ some r
    → is_complete r.status ≡ true
    → lookup k s.rituals ≡ some q
    → is_complete q.status ≡ false
    → lookup id (insert k q' s.rituals) ≡ some r
insert-kept id k r q q' s here c there o =
    lookup-insert id k q' s.rituals ∙ (elim (Bool-cases (id == k)) [
      | inl e ↦
          let same : q ≡ r = cc ((eq_lem id k).0 e, here, there) in
          absurd (cc (ap (λ x. is_complete x.status) same, c, o))
      | inr e ↦ rw e here
    ])

complete_ritual-kept :
    (now : ℕ) (k id : EntityId) (r : BirthRitual) (s : BirthService)
    → lookup id s.rituals ≡ some r
    → is_complete r.status ≡ true
    → lookup id (complete_ritual now k s).1.rituals ≡ some r
unfolding complete_ritual complete_open finish
complete_ritual-kept now k id r s here c = elim (Option-cases (lookup k s.rituals)) [
  | inl e ↦ rw (complete_ritual, e) here
  | inr (q, e) ↦ elim (Bool-cases (is_complete q.status)) [
    | inl f ↦ rw (complete_ritual, e, f) here
    | inr f ↦ elim (Option-cases (unspun required_wheel_types q)) [
      | inr (w, g) ↦ rw (complete_ritual, e, f, complete_open, g) here
      | inl g ↦ rw (complete_ritual, e, f, complete_open, g) (insert-kept id k r q _ s here c e f)
    ]
  ]
]

complete_ritual-done :
    (now : ℕ) (id : EntityId) (r : BirthRitual) (s : BirthService)
    → lookup id s.rituals ≡ some r
    → is_complete r.status ≡ false
    → unspun required_wheel_types r ≡ none
    → complete_ritual now id s ≡ (ok (finished now r), finish now id r s)
unfolding complete_ritual complete_open
complete_ritual-done now id r s e f g = rw (complete_ritual, e, f, complete_open, g) refl

complete_ritual-refused :
    (now : ℕ) (id : EntityId) (w : WheelType) (r : BirthRitual) (s : BirthService)
    → lookup id s.rituals ≡ some r
    → is_complete r.status ≡ false
    → unspun required_wheel_types r ≡ some w
    → complete_ritual now id s ≡ (err (required_not_spun w), s)
unfolding complete_ritual complete_open
complete_ritual-refused now id w r s e f g = rw (complete_ritual, e, f, complete_open, g) refl

finish-stored :
    (now : ℕ) (id : EntityId) (r : BirthRitual) (s : BirthService)
    → lookup id (finish now id r s).rituals ≡ some (finished now r)
unfolding finish
finish-stored now id r s = lookup-insert_self id (finished now r) s.rituals

finish-bus :
    (now : ℕ) (id : EntityId) (r : BirthRitual) (s : BirthService)
    → (finish now id r s).bus
      ≡ publish now now
          (character_born (record {
            account_id = r.account_id;
            character_id = r.character_id;
            wheel_outcomes = wheel_outcomes r;
          }))
          s.bus
unfolding finish
finish-bus now id r s = refl

begun-kept :
    (id k : EntityId) (r q : BirthRitual) (s : BirthService)
    → lookup id s.rituals ≡ some r
    → is_complete r.status ≡ true
    → lookup k s.rituals ≡ some q
    → is_complete q.status ≡ false
    → lookup id (begun k q s).rituals ≡ some r
begun-kept id k r q s here c there o = insert-kept id k r q _ s here c there o

module _ {κ} {W : Type κ} ⦃doubles : Double W⦄ (content : WheelContentFile W) where
  Ending-kept :
      (id k : EntityId) (w : WheelType) (now : ℕ) (r q : BirthRitual) (s : BirthService)
      (o : Result BirthError (String × BirthRitual) × BirthService)
      → lookup id s.rituals ≡ some r
      → is_complete r.status ≡ true
      → lookup k s.rituals ≡ some q
      → is_complete q.status ≡ false
      → Ending k w now content q s o
      → lookup id o.1.rituals ≡ some r
  unfolding set_cooldown
  Ending-kept id k w now r q s _ here c there f (unpaid e h) = begun-kept id k r q s here c there f
  Ending-kept id k w now r q s _ here c there f (stuck e g paid p h) =
      ap (λ d. lookup id d) p.rituals ∙ begun-kept id k r q s here c there f
  Ending-kept id k w now r q s _ here c there f (turned outcome_id q' paid p h g) =
      ap (λ d. lookup id (insert k q' d)) p.rituals
      ∙ insert-kept id k r (record q { status = begin q.status }) q' (begun k q s)
          (begun-kept id k r q s here c there f) c
          (lookup-insert_self k (record q { status = begin q.status }) s.rituals) (begin-open q f)

  spin_wheel-kept :
      (id k : EntityId) (w : WheelType) (now : ℕ) (r : BirthRitual) (s : BirthService)
      → lookup id s.rituals ≡ some r
      → is_complete r.status ≡ true
      → lookup id (spin_wheel k w now content s).1.rituals ≡ some r
  spin_wheel-kept id k w now r s here c = elim (Option-cases (lookup k s.rituals)) [
    | inl e ↦ ap (λ x. lookup id x.rituals) (spin_wheel-missing k w now content s e) ∙ here
    | inr (q, e) ↦ elim (Bool-cases (is_complete q.status)) [
      | inl f ↦ ap (λ o. lookup id o.1.rituals) (spin_wheel_complete k w now content q s e f) ∙ here
      | inr f ↦
          ap (λ o. lookup id o.1.rituals) (spin_wheel-open k w now content q s e f)
          ∙ Ending-kept id k w now r q s _ here c e f (spin_open-Ending k w now content q s)
    ]
  ]

  call-kept :
      (step : Call) (id : EntityId) (r : BirthRitual) (s : BirthService)
      → IsSound s
      → lookup id s.rituals ≡ some r
      → is_complete r.status ≡ true
      → lookup id (call content step s).rituals ≡ some r
  unfolding call credit_balance
  call-kept (start now a) id r s inv here c = start_ritual-kept now a id r s inv here
  call-kept (turn_wheel k w now) id r s inv here c = spin_wheel-kept id k w now r s here c
  call-kept (end now k) id r s inv here c = complete_ritual-kept now k id r s here c
  call-kept (credit a amount) id r s inv here c = here

  run-kept :
      (cs : List Call) (id : EntityId) (r : BirthRitual) (s : BirthService)
      → IsSound s
      → lookup id s.rituals ≡ some r
      → is_complete r.status ≡ true
      → lookup id (run content cs s).rituals ≡ some r
  unfolding run
  run-kept [] id r s inv here c = here
  run-kept (step ∷ cs) id r s inv here c =
      run-kept cs id r (call content step s) (call-IsSound content step s inv)
        (call-kept step id r s inv here c) c

  -- In a sound state whose ritual `id` is not complete and has every required wheel spun, completing it
  -- succeeds: it then is complete with the spins that it had, one event has been emitted that tells
  -- them, and no sequence of calls that follows changes the ritual or removes it.
  pub complete_ritual-final :
      (now : ℕ) (id : EntityId) (r : BirthRitual) (s : BirthService) (cs : List Call)
      → IsSound s
      → lookup id s.rituals ≡ some r
      → is_complete r.status ≡ false
      → unspun required_wheel_types r ≡ none
      → ((complete_ritual now id s).0 ≡ ok (finished now r))
        × (lookup id (run content cs (complete_ritual now id s).1).rituals ≡ some (finished now r))
        × ((complete_ritual now id s).1.bus
            ≡ publish now now
                (character_born (record {
                  account_id = r.account_id;
                  character_id = r.character_id;
                  wheel_outcomes = wheel_outcomes r;
                }))
                s.bus)
  complete_ritual-final now id r s cs inv here o all =
      let e = complete_ritual-done now id r s here o all in
      (
        ap (λ x. x.0) e,
        run-kept cs id (finished now r) (complete_ritual now id s).1
            (complete_ritual-IsSound now id s inv)
            (ap (λ x. lookup id x.1.rituals) e ∙ finish-stored now id r s) refl,
        ap (λ x. x.1.bus) e ∙ finish-bus now id r s,
      )
