-- ===== src/BotDetection.antt =====
-- server/src/modules/security/bot-detection.service.ts: a character's latest actions, and whether
-- they come too fast. `now` is the wall clock.
pub mod Window
mod Tests
use mmorpg_design_documents.Base.{ℕ, Bool, Option, none, some, List, [], ◌∷◌, ◌++◌, String, ltb}
use mmorpg_design_documents.Base.Int.{ℤ, pos, ◌-ℤ◌, ltb_ℤ}
use mmorpg_design_documents.Base.Key.{string_eq, ◌==◌}
use mmorpg_design_documents.Base.Dict.{Dict, lookup, insert}
use mmorpg_design_documents.Base.Lists.{keep, length}

abbrev pub threshold : ℕ
threshold = 5

abbrev pub window_ms : ℤ
window_ms = pos 1000

pub record LoggedAction : Type 0 where
  pub action_key : String
  pub ts : ℤ

pub record BotDetectionService : Type 0 where
  pub action_log : Dict String (List LoggedAction)

abbrev pub new_bot_detection : BotDetectionService
new_bot_detection = record { action_log = [] }

abbrev pub or_empty : Option (List LoggedAction) → List LoggedAction
or_empty none = []
or_empty (some entries) = entries

-- `e.ts > cutoff`
abbrev pub recent : ℤ → LoggedAction → Bool
recent now e = ltb_ℤ (now -ℤ window_ms) e.ts

pub check : String → String → ℤ → BotDetectionService → Bool × BotDetectionService
check character_id action_key now s =
    let kept = keep (recent now) (or_empty (lookup character_id s.action_log)) in
    let entries = kept ++ record { action_key = action_key; ts = now } ∷ [] in
    let identical_count = length (keep (λ e. e.action_key == action_key) entries) in
    (
      ltb threshold identical_count,
      record { action_log = insert character_id entries s.action_log },
    )

pub reset : BotDetectionService → BotDetectionService
reset s = record { action_log = [] }
