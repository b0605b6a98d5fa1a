-- ===== src/Birth/Pauses.antt =====
-- server/src/modules/characters/birth/birth.service.ts, `spinWheel`: the pause after a spin.
use mmorpg_design_documents.Base.{
  ℕ, ◌+◌, ◌-◌, ◌/◌, ◌<◌, ◌≡◌, ◌≢◌, refl, sym, ap, subst, ◌∙◌, true, false, some, List, String, ok,
  err, nat_eq, ltb, arith,
}
use mmorpg_design_documents.Base.Double.{Double}
use mmorpg_design_documents.Base.Key.{EntityId, string_eq, entity_eq, eq_self}
use mmorpg_design_documents.Base.Dict.{lookup}
use mmorpg_design_documents.Wheels.{WheelType, wheel_eq, WheelContentFile}
use mmorpg_design_documents.Birth.{
  BirthRitual, WheelCooldown, BirthService, cooldown_active, is_complete, enforce_cooldown,
  get_cooldown, spin_count, pay, spin_open, spin_wheel,
}
use mmorpg_design_documents.Birth.Spins.{begun, spin_wheel-open}
use mmorpg_design_documents.Birth.Invariant.{IsSound}
use mmorpg_design_documents.Birth.Runs.{Call, turn_wheel, call, run, call-IsSound}
use mmorpg_design_documents.Birth.Holds.{Held, IsAside, run-Held}
use mmorpg_design_documents.Base.Lists.{All}
use mmorpg_design_documents.Birth.Charges.{Spent, spin_wheel-charge}

module _ {κ} {W : Type κ} ⦃doubles : Double W⦄ where
  paused-refused :
      (id : EntityId) (w : WheelType) (later : ℕ) (content : WheelContentFile W) (r : BirthRitual)
      (c : WheelCooldown) (s : BirthService)
      → lookup id s.rituals ≡ some r
      → is_complete r.status ≡ false
      → spin_count w r ≢ 0
      → get_cooldown r.account_id w s ≡ some c
      → later < c.available_at
      → spin_wheel id w later content s
        ≡ (err (cooldown_active w ((c.available_at - later + 999) / 1000)), begun id r s)
  unfolding spin_open pay enforce_cooldown get_cooldown
  paused-refused id w later content r c s here o ne pause lt =
      spin_wheel-open id w later content r s here o
      ∙ (rw (spin_open, pay, again, enforce_cooldown, pause, early) refl)
    where
      again : nat_eq (spin_count w r) 0 ≡ false
      again = ground arith

      early : ltb later c.available_at ≡ true
      early = ground arith

  -- After a spin that succeeded, and after any other calls, which may start rituals, complete others,
  -- credit accounts and spin other wheels of any ritual, a spin of that wheel for the ritual before
  -- the pause is over is refused with the seconds that are left, and takes no coins.
  pub spin_wheel-pause :
      (id : EntityId) (w : WheelType) (now later : ℕ) (content : WheelContentFile W)
      (r r' : BirthRitual) (outcome_id : String) (calls : List Call) (s : BirthService)
      → IsSound s
      → lookup id s.rituals ≡ some r
      → is_complete r.status ≡ false
      → (spin_wheel id w now content s).0 ≡ ok (outcome_id, r')
      → All (IsAside id w) calls
      → later < now + content.reroll_cooldown_ms
      → let t = run content calls (spin_wheel id w now content s).1 in
        (q : BirthRitual) × (lookup id t.rituals ≡ some q)
        × (spin_wheel id w later content t ≡ (
          err (cooldown_active w ((now + content.reroll_cooldown_ms - later + 999) / 1000)),
          begun id q t,
        ))
  unfolding call
  spin_wheel-pause id w now later content r r' x calls s inv here o h aside lt = (
    held.ritual,
    held.here,
    paused-refused id w later content held.ritual held.cooldown t held.here held.still held.counted
          (ap (λ b. get_cooldown b w t) held.owner ∙ held.paused)
          (subst (λ (n : ℕ). later < n) (sym held.until) lt)
        ∙ ap
            (λ (n : ℕ).
              (err (cooldown_active w ((n - later + 999) / 1000)), begun id held.ritual t))
            held.until,
  )
    where
      s' : BirthService
      s' = (spin_wheel id w now content s).1

      t : BirthService
      t = run content calls s'

      spent : Spent id w now content r x r' s s'
      spent = spin_wheel-charge id w now content r r' x s here o h

      counted : spin_count w r' ≢ 0
      counted = rw (spin_count, spent.counts w, eq_self w) (λ h. omega (arith, h))

      first : Held id r.account_id w (now + content.reroll_cooldown_ms) s'
      first = record {
        ritual = r';
        cooldown = spent.pause.0;
        here = spent.stored;
        still = spent.still;
        counted = counted;
        owner = spent.who.1;
        paused = spent.pause.1;
        until = spent.pause.2;
      }

      held : Held id r.account_id w (now + content.reroll_cooldown_ms) t
      held =
          run-Held id r.account_id w (now + content.reroll_cooldown_ms) content calls s' aside
            (call-IsSound content (turn_wheel id w now) s inv) first
