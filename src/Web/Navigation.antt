-- ===== src/Web/Navigation.antt =====
-- components/layout/Sidebar.tsx, and which layouts a page stands in below AuthBootstrap, which shows
-- the pages once the refresh has been answered.
use bolt_bet.Base.{
  Bool, true, false, List, [], ◌∷◌, ◌++◌, ◌&&◌, ◌||◌, not, ◌==◌, Option, none, some, if◌then◌else◌,
}
use bolt_bet.Crypto.{Text, text_eq}
use bolt_bet.Model.Types.{Role, role_eq}
use bolt_bet.Client.{AuthState}
use bolt_bet.Validation.{codes}
use bolt_bet.Web.{
  Page, root, register, forgot_password, reset_password, dashboard, markets, bets, wallet,
  admin_markets, new_market, bet_detail,
}
use bolt_bet.Web.Session.{View, content, root_page, dashboard_layout, admin_layout, role_of, inside}

-- USER_NAV and ADMIN_NAV
abbrev pub user_nav : List Page
user_nav = dashboard ∷ markets ∷ bets ∷ wallet ∷ []

abbrev pub admin_nav : List Page
admin_nav = admin_markets ∷ new_market ∷ []

abbrev pub is_admin : Option Role → Bool
is_admin none = false
is_admin (some role) = role_eq role Role.admin

-- The links that the sidebar shows.
unfoldable pub sidebar : AuthState → List Page
sidebar auth = user_nav ++ (if is_admin (role_of auth.user) then admin_nav else [])

-- The path of a page, and the layouts around it, by its folder.
abbrev pub path : Page → Text
path root = codes "/"
path Page.login = codes "/login"
path register = codes "/register"
path forgot_password = codes "/forgot-password"
path reset_password = codes "/reset-password"
path dashboard = codes "/dashboard"
path markets = codes "/markets"
path bets = codes "/bets"
path (bet_detail id) = codes "/bets/" ++ id
path wallet = codes "/wallet"
path admin_markets = codes "/admin/markets"
path new_market = codes "/admin/markets/new"

abbrev pub in_dashboard : Page → Bool
in_dashboard root = false
in_dashboard Page.login = false
in_dashboard register = false
in_dashboard forgot_password = false
in_dashboard reset_password = false
in_dashboard _ = true

abbrev pub in_admin : Page → Bool
in_admin admin_markets = true
in_admin new_market = true
in_admin _ = false

unfoldable pub view : Page → AuthState → View
view root auth = root_page auth
view page auth =
    if in_dashboard page
    then inside (dashboard_layout auth) (if in_admin page then admin_layout auth else content)
    else content

abbrev pub text_starts_with : Text → Text → Bool
text_starts_with [] s = true
text_starts_with (c ∷ t) [] = false
text_starts_with (c ∷ t) (d ∷ s) = c == d && text_starts_with t s

-- `active` of NavLink
pub is_active : Page → Text → Bool
is_active href pathname =
    text_eq pathname (path href)
    || not (text_eq (path href) (path dashboard)) && text_starts_with (path href) pathname
