-- ===== src/Tests/Browser.antt =====
-- The API client against a server whose access token has run out.
use bolt_bet.Base.{ℕ, refl, true, false, [], ◌∷◌, Option, some}
use bolt_bet.Crypto.{Text}
use bolt_bet.Model.Types.{Role}
use bolt_bet.Client.{
  AuthUser, AuthState, original, refresh_call, Response, Network, request, initial_state,
  set_credentials,
}
use bolt_bet.Client.Requests.{IsBounded, request-IsBounded}
use bolt_bet.Tests.{ada}

abbrev reply : ℕ → Text → Option Response
reply status body =
    some (record { status = status; is_empty = false; is_json = true; body = some body })

-- The first request is denied, the refresh gives a new token, and the request is then answered.
abbrev server : Network
server (original token ∷ []) = reply 401 (b'x' ∷ [])
server (refresh_call ∷ sent) = reply 200 (b'n' ∷ [])
server _ = reply 200 (b'y' ∷ [])

abbrev browser_user : AuthUser
browser_user = record { id = ada; email = []; role = Role.user }

abbrev decode : Text → Option AuthUser
decode token = some browser_user

abbrev signed_in : AuthState
signed_in = set_credentials (b'o' ∷ []) browser_user initial_state

request-IsBounded_example : IsBounded (request server decode false signed_in)
request-IsBounded_example = request-IsBounded server decode false signed_in (refl, refl)
