-- ===== src/Accounts/Types.antt =====
-- server/src/modules/accounts/accounts.types.ts, and the state of .../accounts.service.ts. A text that
-- a user types is the list of its character codes. A time that is compared is in milliseconds.
use mmorpg_design_documents.Base.{
  ℕ, ◌≡◌, refl, ◌&&◌, Bool, true, false, List, [], ◌∷◌, String, nat_eq, arith,
}
use mmorpg_design_documents.Base.Key.{EntityId, Comparable}
use mmorpg_design_documents.Base.Dict.{Dict}

abbrev pub codes_beq : List ℕ → List ℕ → Bool
codes_beq [] [] = true
codes_beq [] (b ∷ bs) = false
codes_beq (a ∷ as') [] = false
codes_beq (a ∷ as') (b ∷ bs) = nat_eq a b && codes_beq as' bs

pub codes_beq_sound : (a b : List ℕ) → codes_beq a b ≡ true → a ≡ b
codes_beq_sound [] [] h = refl
codes_beq_sound [] (b ∷ bs) h = absurd (cc)
codes_beq_sound (a ∷ as') [] h = absurd (cc)
codes_beq_sound (a ∷ as') (b ∷ bs) h = ground (arith, codes_beq_sound as' bs)

pub codes_beq_self : (a : List ℕ) → codes_beq a a ≡ true
codes_beq_self [] = refl
codes_beq_self (a ∷ as') = ground (arith, codes_beq_self as')

instance abbrev pub codes_eq : Comparable (List ℕ)
codes_eq = record { same = codes_beq; same_sound = codes_beq_sound; same_self = codes_beq_self }

pub data AccountRole : Type 0 where
  player : AccountRole
  admin : AccountRole

pub record Account : Type 0 where
  pub id : String
  pub email : List ℕ
  pub password_hash : String
  pub role : AccountRole
  pub created_at : ℕ
  pub updated_at : ℕ

pub record RefreshToken : Type 0 where
  pub id : EntityId
  pub account_id : String
  pub token_hash : String
  pub expires_at : ℕ

pub record AccountsService : Type 0 where
  pub accounts : Dict String Account
  pub email_index : Dict (List ℕ) String
  pub refresh_tokens : Dict EntityId RefreshToken
  pub id_counter : ℕ

pub data AccountsError : Type 0 where
  email_registered : AccountsError

-- bcrypt: `hash salt text` is what `hash(text, rounds)` returns with that salt, and `compare` finds
-- a text to match the hash of itself.
pub record Bcrypt : Type 0 where
  pub hash : ℕ → String → String
  pub compare : String → String → Bool
  pub compare-hash : (salt : ℕ) (text : String) → compare text (hash salt text) ≡ true
