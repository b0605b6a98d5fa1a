-- ===== src/Accounts/Rotation.antt =====
-- server/src/modules/auth/auth.service.ts, `refresh`: a refresh token is exchanged for one that can be
-- exchanged in turn.
use mmorpg_design_documents.Base.{
  ◌+◌, ◌<◌, ◌≡◌, refl, ap, ◌∙◌, inl, inr, Bool, true, false, Bool-cases, none, some, [], ◌∷◌,
  String, if◌then◌else◌, leb, arith,
}
use mmorpg_design_documents.Base.Key.{EntityId, issued, string_eq, entity_eq, ◌==◌, eq_self}
use mmorpg_design_documents.Base.Dict.{Dict, lookup, insert, remove, lookup-insert, lookup-remove}
use mmorpg_design_documents.Accounts.{
  RefreshToken, Bcrypt, store_refresh_token, is_valid_token, find_valid_in,
  find_valid_refresh_token, invalidate_refresh_token,
}
use mmorpg_design_documents.Accounts.Auth.{
  granted, AuthService, Draw, refresh_token_life_ms, issue_tokens, refresh,
}
use mmorpg_design_documents.Accounts.Login.{pair}

-- A token that passes the tests is found, or one before it.
found-insert :
    (p : RefreshToken → Bool) (k : EntityId) (v : RefreshToken) (d : Dict EntityId RefreshToken)
    → p v ≡ true
    → (t : RefreshToken) × (find_valid_in p (insert k v d) ≡ some t)
unfolding find_valid_in insert
found-insert p k v [] h = (v, rw h refl)
found-insert p k v (x ∷ d) h = elim (Bool-cases (k == x.0)) [
  | inl e ↦ (v, rw e (rw h refl))
  | inr e ↦ elim (Bool-cases (p x.1)) [
    | inl f ↦ (x.1, rw e (rw f refl))
    | inr f ↦ let rest = found-insert p k v d h in (rest.0, rw e (rw f rest.1))
  ]
]

module _ (bcrypt : Bcrypt) (sign : String → String) where
  -- The token that a refresh stores.
  abbrev pub new_token : Draw → String → AuthService → RefreshToken
  new_token d account_id s = record {
    id = issued "rt" d.now (s.accounts.id_counter + 1);
    account_id = account_id;
    token_hash = bcrypt.hash d.token_salt d.token_uuid;
    expires_at = d.now + refresh_token_life_ms;
  }

  refresh-found :
      (d : Draw) (account_id raw_token : String) (t : RefreshToken) (s : AuthService)
      → find_valid_refresh_token bcrypt d.now account_id raw_token s.accounts ≡ some t
      → ((refresh bcrypt sign d account_id raw_token s).0
          ≡ granted (pair bcrypt sign account_id d) account_id)
        × ((refresh bcrypt sign d account_id raw_token s).1.accounts.refresh_tokens
            ≡ insert
                (new_token d account_id s).id
                (new_token d account_id s)
                (remove t.id s.accounts.refresh_tokens))
  unfolding refresh issue_tokens store_refresh_token invalidate_refresh_token
  refresh-found d account_id raw_token t s e = rw (refresh, e) (refl, refl)

  fresh_valid :
      (d e : Draw) (account_id : String) (s : AuthService)
      → e.now < d.now + refresh_token_life_ms
      → is_valid_token bcrypt e.now account_id d.token_uuid (new_token d account_id s) ≡ true
  fresh_valid d e account_id s lt =
      let late : leb (d.now + refresh_token_life_ms) e.now ≡ false = ground arith in
      rw (eq_self account_id, late) (bcrypt.compare-hash d.token_salt d.token_uuid)

  -- A refresh with a token that is found valid is granted. The token is taken out, one new token is
  -- put in and the others stay; and until seven days have gone by, the text of the new token is
  -- itself granted a refresh.
  pub refresh-refresh :
      (d e : Draw) (account_id raw_token : String) (t : RefreshToken) (s : AuthService)
      → find_valid_refresh_token bcrypt d.now account_id raw_token s.accounts ≡ some t
      → e.now < d.now + refresh_token_life_ms
      → let s' = (refresh bcrypt sign d account_id raw_token s).1 in
        ((refresh bcrypt sign d account_id raw_token s).0
          ≡ granted (pair bcrypt sign account_id d) account_id)
        × ((k : EntityId)
            → lookup k s'.accounts.refresh_tokens ≡ (
                if k == issued "rt" d.now (s.accounts.id_counter + 1)
                then some (new_token d account_id s)
                else if k == t.id
                then none
                else lookup k s.accounts.refresh_tokens))
        × ((refresh bcrypt sign e account_id d.token_uuid s').0
            ≡ granted (pair bcrypt sign account_id e) account_id)
  unfolding find_valid_refresh_token
  refresh-refresh d e account_id raw_token t s h lt = (
    first.0,
    λ k.
        ap (λ m. lookup k m) first.1
        ∙ lookup-insert k (new_token d account_id s).id (new_token d account_id s)
            (remove t.id s.accounts.refresh_tokens)
        ∙ ap
            (λ o.
              if k == issued "rt" d.now (s.accounts.id_counter + 1)
              then some (new_token d account_id s)
              else o)
            (lookup-remove k t.id s.accounts.refresh_tokens),
    (refresh-found e account_id d.token_uuid next.0 s'
        (ap (find_valid_in valid) first.1 ∙ next.1)).0,
  )
    where
      s' : AuthService
      s' = (refresh bcrypt sign d account_id raw_token s).1

      first :
          ((refresh bcrypt sign d account_id raw_token s).0
            ≡ granted (pair bcrypt sign account_id d) account_id)
          × (s'.accounts.refresh_tokens
              ≡ insert
                  (new_token d account_id s).id
                  (new_token d account_id s)
                  (remove t.id s.accounts.refresh_tokens))
      first = refresh-found d account_id raw_token t s h

      valid : RefreshToken → Bool
      valid = is_valid_token bcrypt e.now account_id d.token_uuid

      next :
          (u : RefreshToken) × (find_valid_in valid (
              insert
                (new_token d account_id s).id
                (new_token d account_id s)
                (remove t.id s.accounts.refresh_tokens))
            ≡ some u)
      next =
          found-insert valid (new_token d account_id s).id (new_token d account_id s)
            (remove t.id s.accounts.refresh_tokens) (fresh_valid d e account_id s lt)
