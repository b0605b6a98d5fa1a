-- ===== src/Accounts/Auth.antt =====
-- server/src/modules/auth/auth.service.ts: registration, login, the rotation of refresh tokens and
-- logout. The JSON web tokens are an argument, `sign`, as are bcrypt and the texts of `randomUUID`.
use mmorpg_design_documents.Base.{ℕ, ◌+◌, none, some, List, String, ok, err, if◌then◌else◌}
use mmorpg_design_documents.Events.{DomainEventBus, publish, account_created, account_logged_in}
use mmorpg_design_documents.Accounts.{
  AccountsService, Bcrypt, create_account, find_by_email, validate_password, store_refresh_token,
  find_valid_refresh_token, invalidate_refresh_token,
}

pub record TokenPair : Type 0 where
  pub access_token : String
  pub refresh_token : String

-- `{ ok: true, tokens, accountId }`, or the error with its status code.
pub data AuthResult : Type 0 where
  granted : TokenPair → String → AuthResult
  logged_out : AuthResult
  conflict : AuthResult
  invalid_credentials : AuthResult
  invalid_refresh_token : AuthResult

pub record AuthService : Type 0 where
  pub accounts : AccountsService
  pub bus : DomainEventBus

-- What a call takes from outside: the time, two salts and two random texts.
pub record Draw : Type 0 where
  pub now : ℕ
  pub salt : ℕ
  pub token_salt : ℕ
  pub uuid : String
  pub token_uuid : String

-- `7 * 24 * 60 * 60 * 1000`
abbrev pub refresh_token_life_ms : ℕ
refresh_token_life_ms = 604800000

module _ (bcrypt : Bcrypt) (sign : String → String) where
  unfoldable pub issue_tokens : Draw → String → AuthService → TokenPair × AuthService
  unfolding store_refresh_token
  issue_tokens d account_id s =
      let stored =
        store_refresh_token bcrypt d.token_salt d.now account_id d.token_uuid
          (d.now + refresh_token_life_ms) s.accounts in
      (
        record { access_token = sign account_id; refresh_token = d.token_uuid },
        record s { accounts = stored.1 },
      )

  abbrev grant : Draw → String → AuthService → AuthResult × AuthService
  grant d account_id s =
      let issued_now = issue_tokens d account_id s in
      (granted issued_now.0 account_id, issued_now.1)

  unfoldable pub register : Draw → List ℕ → String → AuthService → AuthResult × AuthService
  unfolding create_account issue_tokens
  register d email password s =
      let created = create_account bcrypt d.salt d.now d.uuid email password s.accounts in
      elim created.0 [
        | err e ↦ (conflict, s)
        | ok a ↦ grant d a.id (record {
          accounts = created.1;
          bus = publish d.now d.now (account_created (record { account_id = a.id })) s.bus;
        })
      ]

  unfoldable pub login : Draw → List ℕ → String → AuthService → AuthResult × AuthService
  unfolding find_by_email validate_password issue_tokens
  login d email password s = elim (find_by_email email s.accounts) [
    | none ↦ (invalid_credentials, s)
    | some a ↦
        if validate_password bcrypt a password
        then grant d a.id (record s {
          bus = publish d.now d.now (account_logged_in (record { account_id = a.id })) s.bus;
        })
        else (invalid_credentials, s)
  ]

  -- The token is taken out and a new pair issued.
  unfoldable pub refresh : Draw → String → String → AuthService → AuthResult × AuthService
  unfolding find_valid_refresh_token invalidate_refresh_token issue_tokens
  refresh d account_id raw_token s =
      elim (find_valid_refresh_token bcrypt d.now account_id raw_token s.accounts) [
        | none ↦ (invalid_refresh_token, s)
        | some t ↦
            grant d account_id
              (record s { accounts = (invalidate_refresh_token t.id s.accounts).1 })
      ]

  unfoldable pub logout : Draw → String → String → AuthService → AuthResult × AuthService
  unfolding find_valid_refresh_token invalidate_refresh_token
  logout d account_id raw_token s =
      elim (find_valid_refresh_token bcrypt d.now account_id raw_token s.accounts) [
        | none ↦ (logged_out, s)
        | some t ↦
            (logged_out, record s { accounts = (invalidate_refresh_token t.id s.accounts).1 })
      ]
