-- ===== src/Auth.antt =====
-- JwtAuthGuard and RolesGuard, which run before every handler, and handleConnection of the
-- RealtimeGateway, which checks a socket in the same way.
pub mod Logout
pub mod Guards
use bolt_bet.Base.{
  ℕ, ◌==◌, ltb, Bool, true, false, ◌&&◌, ◌||◌, not, List, [], ◌∷◌, Option, none, some, is_some,
  if◌then◌else◌,
}
use bolt_bet.Base.Table.{find, taken}
use bolt_bet.Crypto.{Text, JwtPayload, Crypto, Draw, call, truthy, text_eq}
use bolt_bet.Model.Types.{Uuid, Role, role_eq}
use bolt_bet.Model.Entities.{BlacklistEntry, World}
use bolt_bet.Model.Action.{
  Action, pure, raise, gets, or_raise, ◌>>=◌, ◌>>◌, raise_if, Call, blacklist_read, no_access_token,
  invalid_access_token, access_token_revoked, insufficient_permissions,
}

-- GET of `blacklist:jti:{jti}`
abbrev pub is_blacklisted : ℕ → Uuid → List BlacklistEntry → Bool
is_blacklisted now jti = taken λ e. e.jti == jti && ltb now e.expires_at

module _ (crypto : Crypto) where
  -- The token is verified, then looked for in the blacklist.
  unfoldable pub authenticate : Draw → Option Text → Action JwtPayload
  authenticate d token = do
    text ← or_raise (truthy token) no_access_token
    payload ← or_raise (crypto.verify d.now text) invalid_access_token
    call d blacklist_read
    revoked ← gets λ w. is_blacklisted d.now payload.jti w.persistent
    raise_if revoked access_token_revoked
    pure payload

-- `split(' ')`: the first part, and what is behind the first blank.
abbrev pub until_blank : Text → Text
until_blank [] = []
until_blank (c ∷ s) = let rest = until_blank s in if c == 32 then [] else c ∷ rest

abbrev pub behind_blank : Text → Option Text
behind_blank [] = none
behind_blank (c ∷ s) = let rest = behind_blank s in if c == 32 then some s else rest

abbrev pub bearer : Text
bearer = b'B' ∷ b'e' ∷ b'a' ∷ b'r' ∷ b'e' ∷ b'r' ∷ []

-- The second part of the Authorization header.
abbrev pub second_part : Option Text → Option Text
second_part none = none
second_part (some s) = some (until_blank s)

abbrev pub extract_token : Option Text → Option Text
extract_token none = none
extract_token (some header) =
    if text_eq (until_blank header) bearer then second_part (behind_blank header) else none

-- `request.user`, which a public route does not have.
unfoldable pub can_activate : Crypto → Bool → Draw → Option Text → Action (Option JwtPayload)
can_activate crypto is_public d header = do
  let token = extract_token header
  let checked : Action (Option JwtPayload) =
      authenticate crypto d token >>= λ payload. pure (some payload)
  let open_route : Action (Option JwtPayload) = pure none
  if is_public then open_route else checked

abbrev pub includes_role : List Role → Role → Bool
includes_role [] role = false
includes_role (r ∷ rs) role = role_eq r role || includes_role rs role

-- RolesGuard: a route that names no roles is open to every user.
abbrev pub permits : List Role → Option JwtPayload → Action Bool
permits [] user = pure true
permits (r ∷ rs) none = pure false
permits (r ∷ rs) (some user) = do
  raise_if (not (includes_role (r ∷ rs) user.role)) insufficient_permissions
  pure true

-- The two guards, in the order in which AuthModule installs them.
pub guards : Crypto → Bool → List Role → Draw → Option Text → Action Bool
guards crypto is_public roles d header = do
  user ← can_activate crypto is_public d header
  permits roles user
