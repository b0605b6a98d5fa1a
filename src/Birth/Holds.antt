-- ===== src/Birth/Holds.antt =====
-- server/src/modules/characters/birth/birth.service.ts, `spinWheel`: what other calls leave of a
-- pause.
use mmorpg_design_documents.Base.{
  ℕ, ◌+◌, ◌≡◌, ◌≢◌, refl, sym, ap, subst, ◌∙◌, inl, inr, true, false, Bool-cases, Option-cases,
  Option, none, some, List, [], ◌∷◌, String, Result, if◌then◌else◌, arith,
}
use mmorpg_design_documents.Base.Double.{Double}
use mmorpg_design_documents.Base.Key.{EntityId, string_eq, entity_eq, ◌==◌, eq_lem}
use mmorpg_design_documents.Base.Dict.{lookup, insert, lookup-insert, lookup-insert_self}
use mmorpg_design_documents.Base.Lists.{All, find}
use mmorpg_design_documents.Wheels.{WheelType, wheel_eq, WheelContentFile}
use mmorpg_design_documents.Birth.{
  BirthRitual, WheelCooldown, BirthService, BirthError, is_complete, get_cooldown, cooldowns_of,
  put_cooldown, set_cooldown, begin, recorded, spin_count, spin_wheel, complete_ritual,
  complete_open, finish, unspun, start_ritual, get_ritual_by_account, credit_balance,
}
use mmorpg_design_documents.Wheels.{required_wheel_types}
use mmorpg_design_documents.Birth.Rituals.{begin-open}
use mmorpg_design_documents.Birth.Invariant.{IsSound}
use mmorpg_design_documents.Birth.Finality.{start_ritual-kept}
use mmorpg_design_documents.Birth.Runs.{
  Call, start, turn_wheel, end, credit, call, run, call-IsSound,
}
use mmorpg_design_documents.Birth.Spins.{
  Ending, unpaid, stuck, turned, begun, spin_open-Ending, spin_wheel-open, spin_wheel_complete,
  spin_wheel-missing,
}

-- The ritual is not complete and has spun the wheel, and its account's pause of the wheel ends at
-- the time.
pub record Held (id : EntityId) (a : String) (w : WheelType) (at : ℕ) (s : BirthService)
    : Type 0 where
  pub ritual : BirthRitual
  pub cooldown : WheelCooldown
  pub here : lookup id s.rituals ≡ some ritual
  pub still : is_complete ritual.status ≡ false
  pub counted : spin_count w ritual ≢ 0
  pub owner : ritual.account_id ≡ a
  pub paused : get_cooldown a w s ≡ some cooldown
  pub until : cooldown.available_at ≡ at

-- A call that is not a spin of the wheel and does not complete the ritual.
abbrev pub IsAside : EntityId → WheelType → Call → Type 0
IsAside id w (start now a) = Unit
IsAside id w (turn_wheel k v now) = (v == w) ≡ false
IsAside id w (end now k) = (id == k) ≡ false
IsAside id w (credit a amount) = Unit

swapped : (v w : WheelType) → (w == v) ≡ false → (v == w) ≡ false
swapped v w h = ground (arith, eq_lem v w, eq_lem w v)

put_cooldown-other :
    (b : String) (v w : WheelType) (at : ℕ) (cs : List WheelCooldown)
    → (v == w) ≡ false
    → find (λ x. x.wheel_type == w) (put_cooldown b v at cs) ≡ find (λ x. x.wheel_type == w) cs
unfolding put_cooldown
put_cooldown-other b v w at [] ne = rw ne refl
put_cooldown-other b v w at (c ∷ cs) ne = elim (Bool-cases (c.wheel_type == v)) [
  | inl e ↦
      let other : (c.wheel_type == w) ≡ false =
        subst (λ x. (x == w) ≡ false) (sym ((eq_lem c.wheel_type v).0 e)) ne in
      rw e (rw other refl)
  | inr e ↦ rw e (rw (put_cooldown-other b v w at cs ne) refl)
]

set_cooldown-other :
    (a b : String) (v w : WheelType) (at : ℕ) (s : BirthService)
    → (v == w) ≡ false
    → get_cooldown a w (set_cooldown b v at s) ≡ get_cooldown a w s
unfolding get_cooldown set_cooldown
set_cooldown-other a b v w at s ne = elim (Bool-cases (a == b)) [
  | inr e ↦ ap shown (lookup-insert a b stored s.cooldowns ∙ (kept e))
  | inl e ↦
      ap shown (lookup-insert a b stored s.cooldowns ∙ (put e))
      ∙ put_cooldown-other b v w at (cooldowns_of b s) ne
      ∙ ap (λ x. find (λ c. c.wheel_type == w) (cooldowns_of x s)) (sym ((eq_lem a b).0 e))
]
  where
    stored : List WheelCooldown
    stored = put_cooldown b v at (cooldowns_of b s)

    shown : Option (List WheelCooldown) → Option WheelCooldown
    shown o = find (λ c. c.wheel_type == w) (elim o [ none ↦ [] | some cs ↦ cs ])

    kept :
        (a == b) ≡ false
        → (if a == b then some stored else lookup a s.cooldowns) ≡ lookup a s.cooldowns
    kept e = rw e refl

    put : (a == b) ≡ true → (if a == b then some stored else lookup a s.cooldowns) ≡ some stored
    put e = rw e refl

module _ (id : EntityId) (a : String) (w : WheelType) (at : ℕ) where
  -- What is held is read off the rituals and the pauses.
  Held-same :
      (s s' : BirthService)
      → lookup id s'.rituals ≡ lookup id s.rituals
      → s'.cooldowns ≡ s.cooldowns
      → Held id a w at s
      → Held id a w at s'
  unfolding get_cooldown
  Held-same s s' e f h = record {
    ritual = h.ritual;
    cooldown = h.cooldown;
    here = e ∙ h.here;
    still = h.still;
    counted = h.counted;
    owner = h.owner;
    paused = (rw f refl) ∙ h.paused;
    until = h.until;
  }

  -- A ritual takes the place of another one, or of the same as before.
  put-Held :
      (k : EntityId) (q q' : BirthRitual) (s : BirthService)
      → lookup k s.rituals ≡ some q
      → (is_complete q.status ≡ false → is_complete q'.status ≡ false)
      → spin_count w q' ≡ spin_count w q
      → q'.account_id ≡ q.account_id
      → Held id a w at s
      → Held id a w at (record s { rituals = insert k q' s.rituals })
  unfolding get_cooldown
  put-Held k q q' s there open_still same_count same_owner h = elim (Bool-cases (id == k)) [
    | inr e ↦ Held-same s _ (lookup-insert id k q' s.rituals ∙ (rw e refl)) refl h
    | inl e ↦
        let own : q ≡ h.ritual = cc ((eq_lem id k).0 e, h.here, there) in
        record {
          ritual = q';
          cooldown = h.cooldown;
          here = lookup-insert id k q' s.rituals ∙ (rw e refl);
          still = open_still (ap (λ x. is_complete x.status) own ∙ h.still);
          counted = subst (λ n. n ≢ 0) (sym (same_count ∙ ap (spin_count w) own)) h.counted;
          owner = same_owner ∙ ap (λ x. x.account_id) own ∙ h.owner;
          paused = h.paused;
          until = h.until;
        }
  ]

  set-Held :
      (b : String) (v : WheelType) (x : ℕ) (s : BirthService)
      → (v == w) ≡ false
      → Held id a w at s
      → Held id a w at (set_cooldown b v x s)
  set-Held b v x s ne h = record {
    ritual = h.ritual;
    cooldown = h.cooldown;
    here = (unfold set_cooldown in h.here);
    still = h.still;
    counted = h.counted;
    owner = h.owner;
    paused = set_cooldown-other a b v w x s ne ∙ h.paused;
    until = h.until;
  }

  start_ritual-Held :
      (now : ℕ) (b : String) (s : BirthService)
      → IsSound s
      → Held id a w at s
      → Held id a w at (start_ritual now b s).1
  start_ritual-Held now b s inv h =
      Held-same s _ (start_ritual-kept now b id h.ritual s inv h.here ∙ sym h.here)
        (unpaused (get_ritual_by_account b s) refl) h
    where
      unpaused :
          (o : Option BirthRitual)
          → get_ritual_by_account b s ≡ o
          → (start_ritual now b s).1.cooldowns ≡ s.cooldowns
      unpaused none e = unfold start_ritual in rw (start_ritual, e) refl
      unpaused (some q) e = unfold start_ritual in rw (start_ritual, e) refl

  complete_ritual-Held :
      (now : ℕ) (k : EntityId) (s : BirthService)
      → (id == k) ≡ false
      → Held id a w at s
      → Held id a w at (complete_ritual now k s).1
  unfolding complete_ritual complete_open finish
  complete_ritual-Held now k s ne h = elim (Option-cases (lookup k s.rituals)) [
    | inl e ↦ rw (complete_ritual, e) h
    | inr (q, e) ↦ elim (Bool-cases (is_complete q.status)) [
      | inl f ↦ rw (complete_ritual, e, f) h
      | inr f ↦ elim (Option-cases (unspun required_wheel_types q)) [
        | inr (v, g) ↦ rw (complete_ritual, e, f, complete_open, g) h
        | inl g ↦
            rw (complete_ritual, e, f, complete_open, g)
              (Held-same s _ (lookup-insert id k _ s.rituals ∙ (rw ne refl)) refl h)
      ]
    ]
  ]

  module _ {κ} {W : Type κ} ⦃doubles : Double W⦄ (content : WheelContentFile W) where
    begun-Held :
        (k : EntityId) (q : BirthRitual) (s : BirthService)
        → lookup k s.rituals ≡ some q
        → Held id a w at s
        → Held id a w at (begun k q s)
    begun-Held k q s there h =
        put-Held k q (record q { status = begin q.status }) s there (begin-open q) refl refl h

    Ending-Held :
        (k : EntityId) (v : WheelType) (now : ℕ) (q : BirthRitual) (s : BirthService)
        (o : Result BirthError (String × BirthRitual) × BirthService)
        → (v == w) ≡ false
        → lookup k s.rituals ≡ some q
        → Held id a w at s
        → Ending k v now content q s o
        → Held id a w at o.1
    Ending-Held k v now q s _ ne there h (unpaid e f) = begun-Held k q s there h
    Ending-Held k v now q s _ ne there h (stuck e f paid p g) =
        Held-same (begun k q s) paid (ap (lookup id) p.rituals) p.cooldowns
          (begun-Held k q s there h)
    Ending-Held k v now q s _ ne there h (turned outcome_id q' paid p g e) =
        set-Held q.account_id v _ _ ne (
          put-Held k (record q { status = begin q.status }) q' paid
            (ap (lookup k) p.rituals ∙ lookup-insert_self k _ s.rituals)
            (λ open_now. ap (λ x. is_complete x.status) e ∙ open_now)
            (ap (spin_count w) e ∙ other_count) (ap (λ x. x.account_id) e)
            (Held-same (begun k q s) paid (ap (lookup id) p.rituals) p.cooldowns
              (begun-Held k q s there h)))
      where
        other_count :
            spin_count w
              (recorded v outcome_id (spin_count v q) (record q { status = begin q.status }))
            ≡ spin_count w q
        other_count =
            ap (λ o. elim o [ none ↦ 0 | some n ↦ n ]) {y = lookup w q.reroll_counts}
              (lookup-insert w v (spin_count v q + 1) q.reroll_counts ∙ (rw (swapped w v ne) refl))

    spin_wheel-Held :
        (k : EntityId) (v : WheelType) (now : ℕ) (s : BirthService)
        → (v == w) ≡ false
        → Held id a w at s
        → Held id a w at (spin_wheel k v now content s).1
    spin_wheel-Held k v now s ne h = elim (Option-cases (lookup k s.rituals)) [
      | inl e ↦ subst (Held id a w at) (sym (spin_wheel-missing k v now content s e)) h
      | inr (q, e) ↦ elim (Bool-cases (is_complete q.status)) [
        | inl f ↦
            subst (λ o. Held id a w at o.1) (sym (spin_wheel_complete k v now content q s e f)) h
        | inr f ↦
            subst (λ o. Held id a w at o.1) (sym (spin_wheel-open k v now content q s e f))
              (Ending-Held k v now q s _ ne e h (spin_open-Ending k v now content q s))
      ]
    ]

    call-Held :
        (step : Call) (s : BirthService)
        → IsAside id w step
        → IsSound s
        → Held id a w at s
        → Held id a w at (call content step s)
    unfolding call credit_balance
    call-Held (start now b) s aside inv h = start_ritual-Held now b s inv h
    call-Held (turn_wheel k v now) s aside inv h = spin_wheel-Held k v now s aside h
    call-Held (end now k) s aside inv h = complete_ritual-Held now k s aside h
    call-Held (credit b amount) s aside inv h = Held-same s _ refl refl h

    pub run-Held :
        (cs : List Call) (s : BirthService)
        → All (IsAside id w) cs
        → IsSound s
        → Held id a w at s
        → Held id a w at (run content cs s)
    unfolding run
    run-Held [] s aside inv h = h
    run-Held (step ∷ cs) s aside inv h =
        run-Held cs (call content step s) aside.1 (call-IsSound content step s inv)
          (call-Held step s aside.0 inv h)
