-- ===== src/Accounts/Tests.antt =====
-- Runs of registration and login at concrete inputs, with a hash that leaves the text as it is.
use text.Mathlib.Text.{◌==◌ as string_beq}
use text.Mathlib.TextEquality.{eq_iff}
use mmorpg_design_documents.Base.{
  ◌≡◌, ◌≢◌, refl, true, none, some, [], String, ℕ, ◌+◌, if◌then◌else◌, arith,
}
use mmorpg_design_documents.Base.Key.{EntityId, issued, string_eq, entity_eq, ◌==◌, eq_self}
use mmorpg_design_documents.Base.Dict.{lookup, insert}
use mmorpg_design_documents.Events.{new_bus}
use mmorpg_design_documents.Random.{codes}
use mmorpg_design_documents.Accounts.{Bcrypt, RefreshToken, normalise, find_valid_refresh_token}
use mmorpg_design_documents.Accounts.Auth.{
  AuthService, Draw, granted, register, login, refresh, invalid_credentials, conflict,
}
use mmorpg_design_documents.Accounts.Login.{pair, login-register}
use mmorpg_design_documents.Accounts.Rotation.{new_token, refresh-refresh}

same_text : (salt : ℕ) (text : String) → string_beq text text ≡ true
same_text salt text = eq_self text

abbrev plain : Bcrypt
plain = record {
  hash = λ salt text. text;
  compare = λ text hashed. string_beq text hashed;
  compare-hash = same_text;
}

abbrev sign : String → String
sign id = id

abbrev no_accounts : AuthService
no_accounts = record {
  accounts = record { accounts = []; email_index = []; refresh_tokens = []; id_counter = 0 };
  bus = new_bus;
}

abbrev first_draw : Draw
first_draw = record { now = 5; salt = 1; token_salt = 2; uuid = "u1"; token_uuid = "t1" }

abbrev second_draw : Draw
second_draw = record { now = 9; salt = 3; token_salt = 4; uuid = "u2"; token_uuid = "t2" }

shouted : normalise (codes " Mia@X.org ") ≡ codes "mia@x.org"
unfolding normalise
shouted = refl

named : ◌≢◌ {A = String} "u1" ""
named = ground (arith, eq_iff "u1" "")

abbrev with_mia : AuthService
with_mia = (register plain sign first_draw (codes "mia@x.org") "pw" no_accounts).1

taken : (register plain sign second_draw (codes "MIA@x.org") "other" with_mia).0 ≡ conflict
unfolding register lookup insert normalise
taken = refl

wrong_password :
    (login plain sign second_draw (codes "mia@x.org") "pv" with_mia).0 ≡ invalid_credentials
unfolding login register lookup insert normalise
wrong_password = refl

login-register_example :
    ((register plain sign first_draw (codes "mia@x.org") "pw" no_accounts).0
      ≡ granted (pair plain sign "u1" first_draw) "u1")
    × ((login plain sign second_draw (codes " Mia@X.org ") "pw" with_mia).0
        ≡ granted (pair plain sign "u1" second_draw) "u1")
unfolding normalise lookup
login-register_example =
    login-register plain sign first_draw second_draw (codes "mia@x.org") (codes " Mia@X.org ") "pw"
      no_accounts refl named refl

abbrev mias_token : RefreshToken
mias_token = record {
  id = issued "rt" 5 1;
  account_id = "u1";
  token_hash = "t1";
  expires_at = 604800005;
}

valid_token : find_valid_refresh_token plain 9 "u1" "t1" with_mia.accounts ≡ some mias_token
unfolding find_valid_refresh_token register insert lookup normalise
valid_token = refl

abbrev third_draw : Draw
third_draw = record second_draw { now = 20 }

refresh-refresh_example :
    ((refresh plain sign second_draw "u1" "t1" with_mia).0
      ≡ granted (pair plain sign "u1" second_draw) "u1")
    × ((k : EntityId)
        → lookup k (refresh plain sign second_draw "u1" "t1" with_mia).1.accounts.refresh_tokens ≡ (
            if k == issued "rt" 9 (with_mia.accounts.id_counter + 1)
            then some (new_token plain sign second_draw "u1" with_mia)
            else if k == issued "rt" 5 1
            then none
            else lookup k with_mia.accounts.refresh_tokens))
    × ((refresh plain sign third_draw "u1" "t2"
          (refresh plain sign second_draw "u1" "t1" with_mia).1).0
        ≡ granted (pair plain sign "u1" third_draw) "u1")
refresh-refresh_example =
    refresh-refresh plain sign second_draw third_draw "u1" "t1" mias_token with_mia valid_token
      (omega arith)
