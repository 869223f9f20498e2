-- ===== src/Identity/Frame.antt =====
-- The identity service writes to the users, the refresh tokens and the persistent Redis only.
use bolt_bet.Base.{◌≡◌, Option, arith}
use bolt_bet.Crypto.{Text, JwtPayload, Crypto, Config, Draw}
use bolt_bet.Model.Entities.{RefreshToken, World}
use bolt_bet.Identity.{
  Credentials, register, login, refresh, logout, issue_access_token, issue_refresh_token,
  open_session, revoke_family, use_token, report_reuse, rotate, check_token, find_token,
  revoke_token,
}

-- The second world differs from the first in these tables at most.
abbrev pub IsOwnWrite : World → World → Type 0
IsOwnWrite w w' =
    w'
    ≡ record w { users = w'.users; refresh_tokens = w'.refresh_tokens; persistent = w'.persistent }

module _ (crypto : Crypto) (config : Config) (d : Draw) (w : World) where
  pub register-IsOwnWrite : (dto : Credentials) → IsOwnWrite w (register crypto config d dto w).1
  unfolding register
  register-IsOwnWrite dto = ground arith

  pub login-IsOwnWrite : (dto : Credentials) → IsOwnWrite w (login crypto config d dto w).1
  unfolding login open_session issue_access_token issue_refresh_token
  login-IsOwnWrite dto = ground arith

  rotate-IsOwnWrite :
      (secret : Text) (token : RefreshToken)
      → IsOwnWrite w (rotate crypto config d secret token w).1
  unfolding rotate use_token open_session issue_access_token issue_refresh_token
  rotate-IsOwnWrite secret token = ground arith

  check_token-IsOwnWrite :
      (secret : Text) (token : RefreshToken)
      → IsOwnWrite w (check_token crypto config d secret token w).1
  unfolding check_token report_reuse revoke_family
  check_token-IsOwnWrite secret token = ground (arith, rotate-IsOwnWrite secret token)

  pub refresh-IsOwnWrite :
      (cookie : Option Text) → IsOwnWrite w (refresh crypto config d cookie w).1
  unfolding refresh find_token
  refresh-IsOwnWrite cookie = grind (arith, check_token-IsOwnWrite)

  pub logout-IsOwnWrite :
      (payload : JwtPayload) (cookie : Option Text)
      → IsOwnWrite w (logout crypto config d payload cookie w).1
  unfolding logout revoke_token
  logout-IsOwnWrite payload cookie = ground arith
