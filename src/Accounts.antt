-- ===== src/Accounts.antt =====
-- server/src/modules/accounts/accounts.service.ts: accounts, their passwords and refresh tokens. A
-- call runs to its end before the next one starts. The texts of `randomUUID` and the salts of bcrypt
-- are arguments; `toLowerCase` is that of the ASCII letters, and `trim` cuts the ASCII white space.
pub mod Types
pub mod Auth
pub mod Login
mod Rotation
mod Tests
unfoldable pub use Types.*
use mmorpg_design_documents.Base.{
  ℕ, ◌+◌, ◌&&◌, ◌||◌, Bool, true, false, not, Option, none, some, List, [], ◌∷◌, ◌++◌, map, String,
  Result, ok, err, if◌then◌else◌, nat_eq, leb,
}
use mmorpg_design_documents.Base.Key.{EntityId, issued, string_eq, entity_eq, ◌==◌}
use mmorpg_design_documents.Base.Dict.{Dict, lookup, insert, remove}

abbrev pub is_space : ℕ → Bool
is_space c = nat_eq c 32 || (leb 9 c && leb c 13)

abbrev pub trim_start : List ℕ → List ℕ
trim_start [] = []
trim_start (c ∷ cs) = let rest = trim_start cs in if is_space c then rest else c ∷ cs

-- A text without the white space at its end.
abbrev pub trim_end : List ℕ → List ℕ
trim_end [] = []
trim_end (c ∷ cs) = elim (trim_end cs) [
  | [] ↦ if is_space c then [] else c ∷ []
  | d ∷ ds ↦ c ∷ d ∷ ds
]

abbrev pub lower : ℕ → ℕ
lower c = if leb 65 c && leb c 90 then c + 32 else c

-- `email.trim().toLowerCase()`
unfoldable pub normalise : List ℕ → List ℕ
normalise email = map lower (trim_end (trim_start email))

-- The account that `createAccount` makes.
abbrev pub new_account : ℕ → String → List ℕ → String → Account
new_account now uuid email password_hash = record {
  id = uuid;
  email = email;
  password_hash = password_hash;
  role = player;
  created_at = now;
  updated_at = now;
}

unfoldable pub create_account :
    Bcrypt
    → ℕ
    → ℕ
    → String
    → List ℕ
    → String
    → AccountsService
    → Result AccountsError Account × AccountsService
create_account bcrypt salt now uuid email password s =
    elim (lookup (normalise email) s.email_index) [
      | some id ↦ (err email_registered, s)
      | none ↦
          let a = new_account now uuid (normalise email) (bcrypt.hash salt password) in
          (
            ok a,
            record s {
              accounts = insert a.id a s.accounts;
              email_index = insert (normalise email) a.id s.email_index;
            },
          )
    ]

-- `id ? this.accounts.get(id) : undefined`
abbrev pub account_at : Option String → AccountsService → Option Account
account_at none s = none
account_at (some id) s = if id == "" then none else lookup id s.accounts

unfoldable pub find_by_email : List ℕ → AccountsService → Option Account
find_by_email email s = account_at (lookup (normalise email) s.email_index) s

unfoldable pub find_by_id : String → AccountsService → Option Account
find_by_id id s = lookup id s.accounts

unfoldable pub validate_password : Bcrypt → Account → String → Bool
validate_password bcrypt a password = bcrypt.compare password a.password_hash

unfoldable pub store_refresh_token :
    Bcrypt → ℕ → ℕ → String → String → ℕ → AccountsService → RefreshToken × AccountsService
store_refresh_token bcrypt salt now account_id raw_token expires_at s =
    let next : ℕ = s.id_counter + 1 in
    let t : RefreshToken = record {
      id = issued "rt" now next;
      account_id = account_id;
      token_hash = bcrypt.hash salt raw_token;
      expires_at = expires_at;
    } in
    (t, record s { refresh_tokens = insert t.id t s.refresh_tokens; id_counter = next })

-- The tests of the loop of `findValidRefreshToken`.
abbrev pub is_valid_token : Bcrypt → ℕ → String → String → RefreshToken → Bool
is_valid_token bcrypt now account_id raw_token t =
    (t.account_id == account_id)
    && (not (leb t.expires_at now) && bcrypt.compare raw_token t.token_hash)

unfoldable pub find_valid_in :
    (RefreshToken → Bool) → Dict EntityId RefreshToken → Option RefreshToken
find_valid_in p [] = none
find_valid_in p (x ∷ d) = if p x.1 then some x.1 else find_valid_in p d

unfoldable pub find_valid_refresh_token :
    Bcrypt → ℕ → String → String → AccountsService → Option RefreshToken
unfolding find_valid_in
find_valid_refresh_token bcrypt now account_id raw_token s =
    find_valid_in (is_valid_token bcrypt now account_id raw_token) s.refresh_tokens

abbrev is_some : Option RefreshToken → Bool
is_some none = false
is_some (some t) = true

unfoldable pub invalidate_refresh_token : EntityId → AccountsService → Bool × AccountsService
invalidate_refresh_token token_id s = (
  is_some (lookup token_id s.refresh_tokens),
  record s { refresh_tokens = remove token_id s.refresh_tokens },
)

-- The loop over the entries: how many are deleted, and those that stay.
unfoldable pub invalidate_each :
    String → Dict EntityId RefreshToken → ℕ × Dict EntityId RefreshToken
invalidate_each account_id [] = (0, [])
invalidate_each account_id (x ∷ d) =
    let rest = invalidate_each account_id d in
    if x.1.account_id == account_id then (rest.0 + 1, rest.1) else (rest.0, x ∷ rest.1)

unfoldable pub invalidate_all_refresh_tokens : String → AccountsService → ℕ × AccountsService
unfolding invalidate_each
invalidate_all_refresh_tokens account_id s =
    let each = invalidate_each account_id s.refresh_tokens in
    (each.0, record s { refresh_tokens = each.1 })
