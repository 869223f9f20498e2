-- ===== src/Identity.antt =====
-- IdentityService: registration, login, the rotation of refresh tokens and logout. A text is a list
-- of character codes. The device fingerprint and the address of a request are only stored, and are
-- left out.
pub mod Rotation
pub mod Passwords
pub mod Revocation
pub mod Login
pub mod Frame
use bolt_bet.Base.{
  ℕ, zero, suc, ◌+◌, ◌-◌, ◌*◌, ◌/◌, ◌==◌, ltb, Bool, true, false, ◌&&◌, ◌||◌, not, List, [], ◌∷◌,
  ◌++◌, Option, none, some, String, if◌then◌else◌, get_or,
}
use bolt_bet.Base.Table.{find, select, update, taken}
use bolt_bet.Crypto.{
  Text, Tier, role_tier, JwtPayload, Crypto, Config, Draw, call, text_eq, split_colon, truthy,
  but_last,
}
use bolt_bet.Model.Types.{Uuid, Role}
use bolt_bet.Model.Entities.{User, RefreshToken, BlacklistEntry, World}
use bolt_bet.Model.Action.{
  Action, pure, raise, gets, or_raise, ◌>>=◌, ◌>>◌, raise_if, external, modify, Call, Error,
  user_read, user_write, token_read, token_write, blacklist_write, signing, unavailable,
  unique_violation, email_taken, invalid_credentials, no_refresh_token, malformed_token,
  token_not_found, token_revoked, token_reused, token_expired, wrong_secret, Env,
}

abbrev pub has_email : Text → User → Bool
has_email email user = text_eq user.email email

abbrev pub has_user_id : Uuid → User → Bool
has_user_id id user = user.id == id

abbrev pub has_token_id : Uuid → RefreshToken → Bool
has_token_id id token = token.id == id

abbrev pub of_family : Uuid → RefreshToken → Bool
of_family family_id token = token.family_id == family_id

pub record Credentials : Type 0 where
  pub email : Text
  pub password : Text

-- An answer with its cookie, as the browser keeps it.
pub record Session : Type 0 where
  pub access_token : Text
  pub cookie : Text

module _ (crypto : Crypto) (config : Config) where
  abbrev pub new_user : Draw → Credentials → User
  new_user d dto = record {
    id = d.user_id;
    email = dto.email;
    password_hash = crypto.hash d.salt (config.password_pepper ++ dto.password);
    role = Role.user;
    created_at = d.now;
    updated_at = d.now;
  }

  pub register : Draw → Credentials → Action (Unit {0})
  register d dto = do
    call d user_read
    existing ← gets λ w. taken (has_email dto.email) w.users
    raise_if existing email_taken
    call d user_write
    let user = new_user d dto
    clash ← gets λ w. taken (λ row. row.id == user.id || text_eq row.email user.email) w.users
    raise_if clash unique_violation
    modify λ w. record w { users = user ∷ w.users }

  abbrev pub access_payload : Draw → User → JwtPayload
  access_payload d user = record {
    sub = user.id;
    role = user.role;
    tier = role_tier user.role;
    jti = d.jti;
    iat = d.now / 1000;
    exp = d.now / 1000 + config.access_ttl;
  }

  pub issue_access_token : Draw → User → Action Text
  issue_access_token d user = do call d signing; pure (crypto.sign (access_payload d user))

  abbrev pub new_token : Draw → User → Uuid → RefreshToken
  new_token d user family_id = record {
    id = d.token_id;
    family_id = family_id;
    token_hash = crypto.hash d.salt d.secret;
    user_id = user.id;
    user_agent = d.user_agent;
    used = false;
    revoked = false;
    expires_at = d.now + config.refresh_ttl * 1000;
    created_at = d.now;
  }

  -- `{uuid}:{rawSecret}`
  abbrev pub cookie_of : Draw → Text
  cookie_of d = crypto.show_uuid d.token_id ++ (b':' ∷ d.secret)

  -- The answer is the cookie that is set.
  pub issue_refresh_token : Draw → User → Option Uuid → Action Text
  issue_refresh_token d user existing_family_id = do
    call d token_write
    let token = new_token d user (get_or existing_family_id d.family_id)
    clash ← gets λ w. taken (has_token_id token.id) w.refresh_tokens
    raise_if clash unique_violation
    modify λ w. record w { refresh_tokens = token ∷ w.refresh_tokens }
    pure (cookie_of d)

  pub open_session : Draw → User → Option Uuid → Action Session
  open_session d user family_id = do
    access_token ← issue_access_token d user
    cookie ← issue_refresh_token d user family_id
    pure (record { access_token = access_token; cookie = cookie })

  -- The hash that the password is compared with: a dummy where there is no user.
  abbrev pub hash_of : Option User → ℕ
  hash_of none = config.dummy_hash
  hash_of (some user) = user.password_hash

  pub login : Draw → Credentials → Action Session
  login d dto = do
    call d user_read
    found ← gets λ w. find (has_email dto.email) w.users
    raise_if (not (crypto.compare (config.password_pepper ++ dto.password) (hash_of found)))
        invalid_credentials
    user ← or_raise found invalid_credentials
    open_session d user none

  pub revoke_family : Draw → Uuid → Action (Unit {0})
  revoke_family d family_id = do
    call d token_write
    modify λ w. record w {
      refresh_tokens =
          update (of_family family_id) (λ token. record token { revoked = true }) w.refresh_tokens;
    }

  pub use_token : Draw → RefreshToken → Action (Unit {0})
  use_token d token = do
    call d token_write
    modify λ w. record w {
      refresh_tokens =
          update (has_token_id token.id) (λ row. record row { used = true }) w.refresh_tokens;
    }

  -- A used token is a sign of theft: its whole family is revoked.
  pub report_reuse : Draw → RefreshToken → Action Session
  report_reuse d token = do revoke_family d token.family_id; raise token_reused

  -- The rotation. The user of the token was read with it.
  pub rotate : Draw → Text → RefreshToken → Action Session
  rotate d secret token = do
    raise_if (ltb token.expires_at d.now) token_expired
    raise_if (not (crypto.compare secret token.token_hash)) wrong_secret
    found ← gets λ w. find (has_user_id token.user_id) w.users
    use_token d token
    user ← or_raise found (unavailable user_read)
    open_session d user (some token.family_id)

  pub check_token : Draw → Text → RefreshToken → Action Session
  check_token d secret token = do
    raise_if token.revoked token_revoked
    let reuse = report_reuse d token
    let rotation = rotate d secret token
    if token.used then reuse else rotation

  -- The row of the id in the cookie. A text that is no UUID is an error of PostgreSQL.
  pub find_token : Draw → Text → Action RefreshToken
  find_token d id_text = do
    call d token_read
    id ← or_raise (crypto.read_uuid id_text) (unavailable token_read)
    found ← gets λ w. find (has_token_id id) w.refresh_tokens
    or_raise found token_not_found

  pub refresh : Draw → Option Text → Action Session
  refresh d raw_cookie = do
    cookie ← or_raise (truthy raw_cookie) no_refresh_token
    parts ← or_raise (split_colon cookie) malformed_token
    token ← find_token d parts.0
    check_token d parts.1 token

  -- `rawCookie.slice(0, rawCookie.indexOf(':'))`: without a colon, all but the last character.
  abbrev pub id_of_cookie : Text → Text
  id_of_cookie cookie = elim (split_colon cookie) [
    | none ↦ but_last cookie
    | some (id_text, secret) ↦ id_text
  ]

  -- `update({ id }, { revoked: true })`
  pub revoke_token : Draw → Text → Action (Unit {0})
  revoke_token d id_text = do
    call d token_write
    id ← or_raise (crypto.read_uuid id_text) (unavailable token_write)
    modify λ w. record w {
      refresh_tokens =
          update (has_token_id id) (λ token. record token { revoked = true }) w.refresh_tokens;
    }

  -- The token of the cookie, if there is one with an id.
  abbrev pub revoke_cookie : Draw → Option Text → Action (Unit {0})
  revoke_cookie d none = pure tt
  revoke_cookie d (some cookie) = elim (id_of_cookie cookie) [
    | [] ↦ pure tt
    | c ∷ s ↦ revoke_token d (c ∷ s)
  ]

  -- SET … EX of the key of the token's `jti`, for the seconds that the token has left.
  abbrev pub blacklist : Draw → JwtPayload → Action (Unit {0})
  blacklist d payload = do
    call d blacklist_write
    modify λ w. record w {
      persistent =
          record { jti = payload.jti; expires_at = d.now + (payload.exp - d.now / 1000) * 1000 }
          ∷ select (λ e. not (e.jti == payload.jti)) w.persistent;
    }

  unfoldable pub logout : Draw → JwtPayload → Option Text → Action (Unit {0})
  logout d payload raw_cookie = do
    revoke_cookie d (truthy raw_cookie)
    let skip : Action (Unit {0}) = pure tt
    let mark = blacklist d payload
    if ltb (d.now / 1000) payload.exp then mark else skip
