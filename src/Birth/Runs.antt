-- ===== src/Birth/Runs.antt =====
-- server/src/modules/characters/birth/birth.service.ts: every sequence of calls.
use mmorpg_design_documents.Base.{ℕ, ◌≡◌, refl, ap, List, [], ◌∷◌, String}
use mmorpg_design_documents.Base.Int.{ℤ}
use mmorpg_design_documents.Base.Double.{Double}
use mmorpg_design_documents.Base.Key.{EntityId, issued, string_eq, entity_eq}
use mmorpg_design_documents.Base.Dict.{lookup}
use mmorpg_design_documents.Wheels.{WheelType, WheelContentFile}
use mmorpg_design_documents.Birth.{
  BirthService, credit_balance, start_ritual, spin_wheel, complete_ritual,
}
use mmorpg_design_documents.Birth.Invariant.{IsSound}
use mmorpg_design_documents.Birth.Rituals.{
  same-IsSound, start_ritual-IsSound, complete_ritual-IsSound, spin_wheel-IsSound,
}

-- A call of the service that changes its state.
pub data Call : Type 0 where
  start : ℕ → String → Call
  turn_wheel : EntityId → WheelType → ℕ → Call
  end : ℕ → EntityId → Call
  credit : String → ℤ → Call

module _ {κ} {W : Type κ} ⦃doubles : Double W⦄ (content : WheelContentFile W) where
  unfoldable pub call : Call → BirthService → BirthService
  call (start now a) s = (start_ritual now a s).1
  call (turn_wheel id w now) s = (spin_wheel id w now content s).1
  call (end now id) s = (complete_ritual now id s).1
  call (credit a amount) s = credit_balance a amount s

  unfoldable pub run : List Call → BirthService → BirthService
  unfolding call
  run [] s = s
  run (c ∷ cs) s = run cs (call c s)

  pub call-IsSound : (c : Call) (s : BirthService) → IsSound s → IsSound (call c s)
  unfolding call credit_balance
  call-IsSound (start now a) s inv = start_ritual-IsSound now a s inv
  call-IsSound (turn_wheel id w now) s inv = spin_wheel-IsSound id w now content s inv
  call-IsSound (end now id) s inv = complete_ritual-IsSound now id s inv
  call-IsSound (credit a amount) s inv = same-IsSound s (credit_balance a amount s) refl refl inv

  -- Whatever calls are made, in whatever order and at whatever times: if no account had two active
  -- rituals, every complete ritual had its required wheels spun and no id had a number that was still
  -- to be issued, as holds of a service without rituals, then so it is afterwards.
  pub run-IsSound : (cs : List Call) (s : BirthService) → IsSound s → IsSound (run cs s)
  unfolding run
  run-IsSound [] s inv = inv
  run-IsSound (c ∷ cs) s inv = run-IsSound cs (call c s) (call-IsSound c s inv)

pub empty-IsSound : (s : BirthService) → s.rituals ≡ [] → IsSound s
unfolding lookup
empty-IsSound s e = record {
  single = λ a i j p q h. absurd (cc (ap (λ d. lookup i d) e, h));
  all_spun = λ i r h. absurd (cc (ap (λ d. lookup i d) e, h));
  numbered = λ t n lt. ap (λ d. lookup (issued "chr" t n) d) e;
}
