-- ===== src/Accounts/Login.antt =====
-- server/src/modules/auth/auth.service.ts over server/src/modules/accounts/accounts.service.ts: who
-- registers can log in, and a refresh token is exchanged for one that can be exchanged in turn.
use mmorpg_design_documents.Base.{ℕ, ◌≡◌, ◌≢◌, refl, ap, true, none, some, List, String, ok, arith}
use mmorpg_design_documents.Base.Key.{string_eq, entity_eq, eq_lem}
use mmorpg_design_documents.Base.Dict.{lookup, insert, lookup-insert_self}
use mmorpg_design_documents.Accounts.{
  Account, AccountsService, Bcrypt, codes_eq, normalise, new_account, create_account, find_by_email,
  validate_password, store_refresh_token,
}
use mmorpg_design_documents.Accounts.Auth.{
  TokenPair, granted, AuthService, Draw, issue_tokens, register, login,
}

module _ (bcrypt : Bcrypt) (sign : String → String) where
  abbrev pub pair : String → Draw → TokenPair
  pair account_id d = record { access_token = sign account_id; refresh_token = d.token_uuid }

  -- An email by which an account with this id and this password is found.
  pub record CanLogIn (email : List ℕ) (password id : String) (s : AuthService) : Type 0 where
    pub account : Account
    pub found : find_by_email email s.accounts ≡ some account
    pub named : account.id ≡ id
    pub matches : bcrypt.compare password account.password_hash ≡ true

  create_account-free :
      (now salt : ℕ) (uuid : String) (email : List ℕ) (password : String) (s : AccountsService)
      → lookup (normalise email) s.email_index ≡ none
      → create_account bcrypt salt now uuid email password s ≡ (
        ok (new_account now uuid (normalise email) (bcrypt.hash salt password)),
        record s {
          accounts =
              insert uuid
                (new_account now uuid (normalise email) (bcrypt.hash salt password))
                s.accounts;
          email_index = insert (normalise email) uuid s.email_index;
        },
      )
  unfolding create_account
  create_account-free now salt uuid email password s free = rw (create_account, free) refl

  indexed-found :
      (email : List ℕ) (id : String) (a : Account) (s : AccountsService)
      → id ≢ ""
      → lookup (normalise email) s.email_index ≡ some id
      → lookup id s.accounts ≡ some a
      → find_by_email email s ≡ some a
  unfolding find_by_email
  indexed-found email id a s ne e f = rw (find_by_email, e) (ground (arith, eq_lem id "", f))

  registered-CanLogIn :
      (d : Draw) (email other : List ℕ) (password : String) (s : AuthService)
      → lookup (normalise email) s.accounts.email_index ≡ none
      → d.uuid ≢ ""
      → normalise other ≡ normalise email
      → ((register bcrypt sign d email password s).0 ≡ granted (pair d.uuid d) d.uuid)
        × CanLogIn other password d.uuid (register bcrypt sign d email password s).1
  unfolding register issue_tokens store_refresh_token
  registered-CanLogIn d email other password s free ne same =
      rw (register, created)
        (
          refl,
          record {
            account = new_account d.now d.uuid (normalise email) (bcrypt.hash d.salt password);
            found =
                indexed-found other d.uuid _ _ ne
                  (rw (same, created)
                    (lookup-insert_self (normalise email) d.uuid s.accounts.email_index))
                  (rw created (
                    lookup-insert_self d.uuid
                      (new_account d.now d.uuid (normalise email) (bcrypt.hash d.salt password))
                      s.accounts.accounts));
            named = refl;
            matches = bcrypt.compare-hash d.salt password;
          },
        )
    where
      created : create_account bcrypt d.salt d.now d.uuid email password s.accounts ≡ (
        ok (new_account d.now d.uuid (normalise email) (bcrypt.hash d.salt password)),
        record s.accounts {
          accounts =
              insert d.uuid
                (new_account d.now d.uuid (normalise email) (bcrypt.hash d.salt password))
                s.accounts.accounts;
          email_index = insert (normalise email) d.uuid s.accounts.email_index;
        },
      )
      created = create_account-free d.now d.salt d.uuid email password s.accounts free

  login-granted :
      (d : Draw) (email : List ℕ) (password id : String) (s : AuthService)
      → CanLogIn email password id s
      → (login bcrypt sign d email password s).0 ≡ granted (pair id d) id
  unfolding login validate_password issue_tokens
  login-granted d email password id s c =
      rw (login, c.found, validate_password, c.matches)
        (ap (λ id'. granted (pair id' d) id') c.named)

  -- Who registers with an email that is not taken, under an id that is not empty, is granted tokens,
  -- and then logs in with every email that differs only in white space around it and in the
  -- case of its letters, and with the same password.
  pub login-register :
      (d e : Draw) (email other : List ℕ) (password : String) (s : AuthService)
      → lookup (normalise email) s.accounts.email_index ≡ none
      → d.uuid ≢ ""
      → normalise other ≡ normalise email
      → ((register bcrypt sign d email password s).0 ≡ granted (pair d.uuid d) d.uuid)
        × ((login bcrypt sign e other password (register bcrypt sign d email password s).1).0
            ≡ granted (pair d.uuid e) d.uuid)
  login-register d e email other password s free ne same =
      let done = registered-CanLogIn d email other password s free ne same in
      (
        done.0,
        login-granted e other password d.uuid (register bcrypt sign d email password s).1 done.1,
      )
