-- ===== src/Birth/Rituals.antt =====
-- server/src/modules/characters/birth/birth.service.ts: the rituals through every sequence of calls.
use mmorpg_design_documents.Base.{
  ℕ, ◌+◌, ◌≡◌, refl, sym, ap, subst, ◌∙◌, ◌⊎◌, inl, inr, Bool, true, false, Bool-cases,
  Option-cases, none, some, [], ◌∷◌, String, Result, if◌then◌else◌, arith,
}
use mmorpg_design_documents.Base.Double.{Double}
use mmorpg_design_documents.Base.Key.{
  Comparable, EntityId, issued, string_eq, entity_eq, ◌==◌, eq_lem,
}
use mmorpg_design_documents.Base.Dict.{
  Dict, lookup, insert, values, lookup-insert, lookup-insert_self,
}
use mmorpg_design_documents.Base.Lists.{find}
use mmorpg_design_documents.Wheels.{WheelType, required_wheel_types, WheelContentFile}
use mmorpg_design_documents.Birth.Spins.{
  Ending, unpaid, stuck, turned, begun, spin_open-Ending, spin_wheel-open, spin_wheel_complete,
  spin_wheel-missing,
}
use mmorpg_design_documents.Birth.{
  BirthRitual, BirthService, BirthError, is_complete, is_active, get_ritual_by_account, new_ritual,
  start_ritual, begin, recorded, spin_count, spin_wheel, spun, unspun, finished, finish,
  complete_open, complete_ritual, set_cooldown,
}
use mmorpg_design_documents.Birth.Invariant.{IsSound, put-IsSound}

-- What the loop over the rituals does not find is not there.
find-none-lookup {ℓ κ} :
    {K : Type ℓ} {V : Type κ} ⦃e : Comparable K⦄ (p : V → Bool) (k : K) (v : V) (d : Dict K V)
    → find p (values d) ≡ none
    → lookup k d ≡ some v
    → p v ≡ false
unfolding lookup
find-none-lookup p k v [] f h = absurd (cc)
find-none-lookup p k v (x ∷ d) f h = elim (Bool-cases (p x.1)) [
  | inl e ↦ absurd (cc (rw e at f))
  | inr e ↦ elim (Bool-cases (k == x.0)) [
    | inl same ↦ subst (λ y. p y ≡ false) (cc (rw same at h)) e
    | inr other ↦ find-none-lookup p k v d (rw e at f) (rw other at h)
  ]
]

-- A ritual is added under the next number, for an account without an active one.
added-IsSound :
    (now : ℕ) (a : String) (s : BirthService)
    → get_ritual_by_account a s ≡ none
    → IsSound s
    → IsSound (record s {
      rituals =
          insert
            (issued "chr" now (s.id_counter + 1))
            (new_ritual now a (issued "chr" now (s.id_counter + 1)))
            s.rituals;
      id_counter = s.id_counter + 1;
    })
unfolding get_ritual_by_account
added-IsSound now a s absent inv = record {
  single = λ b i j p q h k l m. elim (placed b i p h l) [
    | inl x ↦ elim (placed b j q k m) [
      | inl y ↦ cc (x.0, y.0)
      | inr y ↦ absurd (cc (inactive b j q x.1 y, m))
    ]
    | inr x ↦ elim (placed b j q k m) [
      | inl y ↦ absurd (cc (inactive b i p y.1 x, l))
      | inr y ↦ inv.single b i j p q x y l m
    ]
  ];
  all_spun = λ k q h l. elim (Bool-cases (k == id)) [
    | inl e ↦ absurd (cc (ap is_complete (ap (λ x. x.status) (fresh_at k q e h)), l))
    | inr e ↦ inv.all_spun k q (sym (other_at k e) ∙ h) l
  ];
  numbered = λ t n lt.
      ground (arith, at_new (issued "chr" t n), inv.numbered t n, eq_lem (issued "chr" t n) id);
}
  where
    id : EntityId
    id = issued "chr" now (s.id_counter + 1)

    at_new :
        (k : EntityId)
        → lookup k (insert id (new_ritual now a id) s.rituals)
          ≡ (if k == id then some (new_ritual now a id) else lookup k s.rituals)
    at_new k = lookup-insert k id (new_ritual now a id) s.rituals

    -- No ritual that was there is active for the account.
    inactive :
        (b : String) (k : EntityId) (p : BirthRitual)
        → b ≡ a
        → lookup k s.rituals ≡ some p
        → is_active b p ≡ false
    inactive b k p e h =
        subst (λ x. is_active x p ≡ false) (sym e)
          (find-none-lookup (is_active a) k p s.rituals absent h)

    fresh_at :
        (k : EntityId) (q : BirthRitual)
        → (k == id) ≡ true
        → lookup k (insert id (new_ritual now a id) s.rituals) ≡ some q
        → new_ritual now a id ≡ q
    fresh_at k q e h =
        let there : lookup k (insert id (new_ritual now a id) s.rituals)
            ≡ some (new_ritual now a id) =
          at_new k ∙ (rw e refl) in
        cc (there, h)

    other_at :
        (k : EntityId)
        → (k == id) ≡ false
        → lookup k (insert id (new_ritual now a id) s.rituals) ≡ lookup k s.rituals
    other_at k e = at_new k ∙ (rw e refl)

    -- An active ritual is the new one, of the account, or was there.
    placed :
        (b : String) (k : EntityId) (p : BirthRitual)
        → lookup k (insert id (new_ritual now a id) s.rituals) ≡ some p
        → is_active b p ≡ true
        → ((k ≡ id) × (b ≡ a)) ⊎ (lookup k s.rituals ≡ some p)
    placed b k p h l = elim (Bool-cases (k == id)) [
      | inl e ↦
          let active : is_active b (new_ritual now a id) ≡ true =
            subst (λ x. is_active b x ≡ true) (sym (fresh_at k p e h)) l in
          inl ((eq_lem k id).0 e, ground (arith, active, eq_lem a b))
      | inr e ↦ inr (sym (other_at k e) ∙ h)
    ]

pub start_ritual-IsSound :
    (now : ℕ) (a : String) (s : BirthService) → IsSound s → IsSound (start_ritual now a s).1
unfolding start_ritual
start_ritual-IsSound now a s inv = elim (Option-cases (get_ritual_by_account a s)) [
  | inl e ↦ rw (start_ritual, e) (added-IsSound now a s e inv)
  | inr (r, e) ↦ rw (start_ritual, e) inv
]

finish-IsSound :
    (now : ℕ) (id : EntityId) (r : BirthRitual) (s : BirthService)
    → lookup id s.rituals ≡ some r
    → is_complete r.status ≡ false
    → unspun required_wheel_types r ≡ none
    → IsSound s
    → IsSound (finish now id r s)
unfolding finish unspun spun
finish-IsSound now id r s here open_now all inv =
    put-IsSound s (finish now id r s) id r (finished now r) here refl refl (λ a h. ground arith)
      (λ h. all) inv

pub complete_ritual-IsSound :
    (now : ℕ) (id : EntityId) (s : BirthService) → IsSound s → IsSound (complete_ritual now id s).1
unfolding complete_ritual complete_open
complete_ritual-IsSound now id s inv = elim (Option-cases (lookup id s.rituals)) [
  | inl e ↦ rw (complete_ritual, e) inv
  | inr (r, e) ↦ elim (Bool-cases (is_complete r.status)) [
    | inl f ↦ rw (complete_ritual, e, f) inv
    | inr f ↦ elim (Option-cases (unspun required_wheel_types r)) [
      | inr (w, g) ↦ rw (complete_ritual, e, f, complete_open, g) inv
      | inl g ↦ rw (complete_ritual, e, f, complete_open, g) (finish-IsSound now id r s e f g inv)
    ]
  ]
]

-- Only the rituals and the counter matter.
pub same-IsSound :
    (s s' : BirthService)
    → s'.rituals ≡ s.rituals
    → s'.id_counter ≡ s.id_counter
    → IsSound s
    → IsSound s'
same-IsSound s s' e f inv = record {
  single = λ a i j p q h k. inv.single a i j p q (cc (e, h)) (cc (e, k));
  all_spun = λ i r h. inv.all_spun i r (cc (e, h));
  numbered = λ t n lt. cc (e, inv.numbered t n (omega (arith, f, lt)));
}

pub begin-open :
    (r : BirthRitual) → is_complete r.status ≡ false → is_complete (begin r.status) ≡ false
begin-open r h = ground arith

begun-IsSound :
    (id : EntityId) (r : BirthRitual) (s : BirthService)
    → lookup id s.rituals ≡ some r
    → is_complete r.status ≡ false
    → IsSound s
    → IsSound (begun id r s)
begun-IsSound id r s here f inv =
    put-IsSound s (begun id r s) id r (record r { status = begin r.status }) here refl refl
      (λ a h. ground arith) (λ h. absurd (cc (begin-open r f, h))) inv

-- A spin is recorded in a ritual that is begun.
turned-IsSound :
    (id : EntityId) (w : WheelType) (outcome_id : String) (n at : ℕ) (a : String) (r : BirthRitual)
    (s paid : BirthService)
    → lookup id s.rituals ≡ some r
    → is_complete r.status ≡ false
    → paid.rituals ≡ s.rituals
    → paid.id_counter ≡ s.id_counter
    → IsSound s
    → IsSound (
        set_cooldown a w at
          (record paid { rituals = insert id (recorded w outcome_id n r) paid.rituals }))
unfolding set_cooldown
turned-IsSound id w outcome_id n at a r s paid here f e g inv =
    put-IsSound s _ id r (recorded w outcome_id n r) here
      (ap (λ d. insert id (recorded w outcome_id n r) d) e) g (λ b h. h) (λ h. absurd (cc (f, h)))
      inv

module _ {κ} {W : Type κ} ⦃doubles : Double W⦄ where
  Ending-IsSound :
      (id : EntityId) (w : WheelType) (now : ℕ) (content : WheelContentFile W) (r : BirthRitual)
      (s : BirthService) (o : Result BirthError (String × BirthRitual) × BirthService)
      → lookup id s.rituals ≡ some r
      → is_complete r.status ≡ false
      → IsSound s
      → Ending id w now content r s o
      → IsSound o.1
  Ending-IsSound id w now content r s _ here f inv (unpaid e h) = begun-IsSound id r s here f inv
  Ending-IsSound id w now content r s _ here f inv (stuck e k paid p h) =
      same-IsSound (begun id r s) paid p.rituals p.counter (begun-IsSound id r s here f inv)
  Ending-IsSound id w now content r s _ here f inv (turned outcome_id r' paid p h q) =
      subst
        (λ x. IsSound (
          set_cooldown r.account_id w (now + content.reroll_cooldown_ms)
            (record paid { rituals = insert id x paid.rituals })))
        (sym q)
        (turned-IsSound id w outcome_id (spin_count w r) (now + content.reroll_cooldown_ms)
          r.account_id (record r { status = begin r.status }) (begun id r s) paid
          (lookup-insert_self id (record r { status = begin r.status }) s.rituals) (begin-open r f)
          p.rituals p.counter (begun-IsSound id r s here f inv))

  pub spin_wheel-IsSound :
      (id : EntityId) (w : WheelType) (now : ℕ) (content : WheelContentFile W) (s : BirthService)
      → IsSound s
      → IsSound (spin_wheel id w now content s).1
  spin_wheel-IsSound id w now content s inv = elim (Option-cases (lookup id s.rituals)) [
    | inl e ↦ subst IsSound (sym (spin_wheel-missing id w now content s e)) inv
    | inr (r, e) ↦ elim (Bool-cases (is_complete r.status)) [
      | inl f ↦ subst (λ o. IsSound o.1) (sym (spin_wheel_complete id w now content r s e f)) inv
      | inr f ↦
          subst (λ o. IsSound o.1) (sym (spin_wheel-open id w now content r s e f))
            (Ending-IsSound id w now content r s _ e f inv (spin_open-Ending id w now content r s))
    ]
  ]
