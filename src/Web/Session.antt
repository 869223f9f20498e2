-- ===== src/Web/Session.antt =====
-- hooks/useAuth.ts, providers/AuthBootstrap.tsx and the layouts.
use bolt_bet.Base.{Bool, true, false, ◌&&◌, ◌||◌, not, Option, none, some, [], if◌then◌else◌}
use bolt_bet.Crypto.{Text}
use bolt_bet.Model.Types.{Role, role_eq}
use bolt_bet.Client.{AuthUser, AuthState, set_credentials, set_refresh_done, clear_credentials}
use bolt_bet.Web.{Page, dashboard, Browser, clear_balance, go_to}

-- The answer of the API with its token, if the call succeeds; `decodeToken` may throw.
module _ (decode_token : Text → Option AuthUser) where
  -- The second part of `login`; false where it throws.
  abbrev pub signed_in : Text → Option AuthUser → Browser → Bool × Browser
  signed_in token none b = (false, b)
  signed_in token (some user) b =
      (true, go_to dashboard (record b { auth = set_credentials token user b.auth }))

  abbrev pub login : Option Text → Browser → Bool × Browser
  login none b = (false, b)
  login (some token) b = signed_in token (decode_token token) b

  abbrev pub restored : Text → Option AuthUser → AuthState → AuthState
  restored token none auth = set_refresh_done auth
  restored token (some user) auth = set_credentials token user auth

  -- AuthBootstrap: `.then(…)`, and `.catch(…)` for a failed call and for a token that is not read.
  unfoldable pub bootstrap : Option Text → AuthState → AuthState
  bootstrap none auth = set_refresh_done auth
  bootstrap (some token) auth = restored token (decode_token token) auth

-- Whatever the API answers.
unfoldable pub logout : Browser → Browser
logout b =
    go_to Page.login
      (record b { auth = clear_credentials b.auth; balance = clear_balance b.balance; cache = [] })

-- What a layout shows: nothing, its children, or nothing and a redirection.
pub data View : Type 0 where
  blank content : View
  redirect : Page → View

-- RootPage
abbrev pub root_page : AuthState → View
root_page auth =
    if auth.is_refreshing
    then blank
    else redirect (if auth.is_authenticated then dashboard else Page.login)

-- DashboardLayout
abbrev pub dashboard_layout : AuthState → View
dashboard_layout auth =
    if not auth.is_refreshing && not auth.is_authenticated
    then redirect Page.login
    else if auth.is_refreshing || not auth.is_authenticated
    then blank
    else content

-- `user?.role`
abbrev pub role_of : Option AuthUser → Option Role
role_of none = none
role_of (some user) = some user.role

abbrev pub admin_view : Option Role → View
admin_view none = blank
admin_view (some role) = if role_eq role Role.admin then content else redirect dashboard

-- AdminLayout
abbrev pub admin_layout : AuthState → View
admin_layout auth = admin_view (role_of auth.user)

-- A layout around another.
abbrev pub inside : View → View → View
inside content view = view
inside outer view = outer
