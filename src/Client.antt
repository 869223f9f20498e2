-- ===== src/Client.antt =====
-- The web client's API wrapper (lib/api/client.ts) and the slice of the store that it writes
-- (store/slices/AuthSlice.ts). The network is a parameter: what it replies depends on all that was
-- sent before.
pub mod Requests
use bolt_bet.Base.{
  ℕ, ◌==◌, leb, Bool, true, false, ◌&&◌, ◌||◌, not, List, [], ◌∷◌, Option, none, some,
  if◌then◌else◌,
}
use bolt_bet.Crypto.{Text, truthy}
use bolt_bet.Model.Types.{Uuid, Role}

pub record AuthUser : Type 0 where
  pub id : Uuid
  pub email : Text
  pub role : Role

pub record AuthState : Type 0 where
  pub access_token : Option Text
  pub user : Option AuthUser
  pub is_authenticated : Bool
  pub is_refreshing : Bool

abbrev pub initial_state : AuthState
initial_state = record {
  access_token = none;
  user = none;
  is_authenticated = false;
  is_refreshing = true;
}

abbrev pub set_credentials : Text → AuthUser → AuthState → AuthState
set_credentials access_token user state = record {
  access_token = some access_token;
  user = some user;
  is_authenticated = true;
  is_refreshing = false;
}

abbrev pub set_refresh_done : AuthState → AuthState
set_refresh_done state = record state { is_refreshing = false }

abbrev pub clear_credentials : AuthState → AuthState
clear_credentials state = record {
  access_token = none;
  user = none;
  is_authenticated = false;
  is_refreshing = false;
}

-- A fetch: the request itself, with the token of its Authorization header, or that of a new token.
pub data Sent : Type 0 where
  original : Option Text → Sent
  refresh_call : Sent

-- A response; the body is what `json()` gives, where it does not throw.
pub record Response : Type 0 where
  pub status : ℕ
  pub is_empty : Bool
  pub is_json : Bool
  pub body : Option Text

-- The reply to the latest of the fetches; none where `fetch` rejects.
abbrev pub Network : Type 0
Network = List Sent → Option Response

pub data Outcome : Type 0 where
  returned : Text → Outcome
  nothing : Outcome
  api_error : ℕ → Outcome
  -- an exception of `fetch`, of `json()` or of `decodeToken`
  threw : Outcome

-- The store, and what this request has sent, the latest first.
pub record Tab : Type 0 where
  pub auth : AuthState
  pub sent : List Sent

-- `response.ok`
abbrev pub is_ok : Response → Bool
is_ok r = leb 200 r.status && leb r.status 299

abbrev pub send : Sent → Tab → Tab
send m tab = record tab { sent = m ∷ tab.sent }

abbrev pub body_of : Option Text → Outcome
body_of none = threw
body_of (some text) = returned text

abbrev pub read_body : Response → Outcome
read_body r = if r.status == 204 || r.is_empty || not r.is_json then nothing else body_of r.body

-- From `if (!response.ok)` on.
abbrev pub finish : Option Response → Outcome
finish none = threw
finish (some r) = if is_ok r then read_body r else api_error r.status

module _ (network : Network) (decode_token : Text → Option AuthUser) where
  -- The new token is stored, and the request is sent again with it.
  abbrev pub retry : Text → Option AuthUser → Tab → Outcome × Tab
  retry token none tab = (threw, tab)
  retry token (some user) tab =
      let next =
        send (original (truthy (some token)))
          (record tab { auth = set_credentials token user tab.auth }) in
      (finish (network next.sent), next)

  abbrev pub with_data : Option Text → Tab → Outcome × Tab
  with_data none tab = (threw, tab)
  with_data (some token) tab = retry token (decode_token token) tab

  abbrev pub refreshed : Option Response → Tab → Outcome × Tab
  refreshed none tab = (threw, tab)
  refreshed (some r) tab =
      if is_ok r
      then with_data r.body tab
      else (api_error 401, record tab { auth = clear_credentials tab.auth })

  abbrev pub answered : Bool → Option Response → Tab → Outcome × Tab
  answered skip_auth none tab = (threw, tab)
  answered skip_auth (some r) tab =
      if r.status == 401 && not skip_auth
      then refreshed (network (refresh_call ∷ tab.sent)) (send refresh_call tab)
      else (finish (some r), tab)

  pub request : Bool → AuthState → Outcome × Tab
  request skip_auth auth =
      let token = if skip_auth then none else truthy auth.access_token in
      let first : Tab = record { auth = auth; sent = original token ∷ [] } in
      answered skip_auth (network first.sent) first
