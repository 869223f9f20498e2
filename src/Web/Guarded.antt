-- ===== src/Web/Guarded.antt =====
-- What the layouts let a user see.
use bolt_bet.Base.{
  ◌≡◌, ◌⊎◌, ◌↔◌, refl, inl, inr, Bool, true, false, ◌||◌, List, [], ◌∷◌, Option, none, some,
}
use bolt_bet.Crypto.{Text, text_eq}
use bolt_bet.Model.Types.{Role}
use bolt_bet.Client.{AuthUser, AuthState, initial_state}
use bolt_bet.Web.{
  Page, root, register, forgot_password, reset_password, dashboard, markets, bets, wallet,
  admin_markets, new_market, bet_detail,
}
use bolt_bet.Web.Session.{content, redirect, bootstrap, restored}
use bolt_bet.Web.Navigation.{view, sidebar, in_dashboard}

-- The page shows its content, or sends the user to a page that does.
abbrev pub Settles : Page → AuthState → Type 0
Settles page a =
    (view page a ≡ content) ⊎ ((to : Page) × (view page a ≡ redirect to) × (view to a ≡ content))

signed_out :
    (page : Page) (a : AuthState)
    → a.is_refreshing ≡ false
    → a.is_authenticated ≡ false
    → Settles page a
unfolding view
signed_out root a r s = inr (Page.login, rw (r, s), refl)
signed_out Page.login a r s = inl refl
signed_out register a r s = inl refl
signed_out forgot_password a r s = inl refl
signed_out reset_password a r s = inl refl
signed_out page a r s = inr (Page.login, rw (r, s), refl)

as_user :
    (page : Page) (a : AuthState) (user : AuthUser)
    → a.is_refreshing ≡ false
    → a.is_authenticated ≡ true
    → a.user ≡ some user
    → Settles page a
unfolding view
as_user root a user r s u = inr (dashboard, rw (r, s), rw (r, s))
as_user admin_markets a user r s u = by_role user.role refl
  where
    by_role : (role : Role) → user.role ≡ role → Settles admin_markets a
    by_role Role.admin e = inl (rw (r, s, u, e))
    by_role Role.user e = inr (dashboard, rw (r, s, u, e), rw (r, s))
    by_role Role.vip_user e = inr (dashboard, rw (r, s, u, e), rw (r, s))
as_user new_market a user r s u = by_role user.role refl
  where
    by_role : (role : Role) → user.role ≡ role → Settles new_market a
    by_role Role.admin e = inl (rw (r, s, u, e))
    by_role Role.user e = inr (dashboard, rw (r, s, u, e), rw (r, s))
    by_role Role.vip_user e = inr (dashboard, rw (r, s, u, e), rw (r, s))
as_user Page.login a user r s u = inl refl
as_user register a user r s u = inl refl
as_user forgot_password a user r s u = inl refl
as_user reset_password a user r s u = inl refl
as_user page a user r s u = inl (rw (r, s))

module _ (decode_token : Text → Option AuthUser) where
  settled :
      (page : Page) (token : Text) (user : Option AuthUser)
      → Settles page (restored decode_token token user initial_state)
  settled page token none = signed_out page _ refl refl
  settled page token (some user) = as_user page _ user refl refl refl

  -- Once the silent refresh of a fresh page load has been answered, in whatever way, every page shows
  -- its content or sends the user to a page that does: no page stays blank and no redirections go in
  -- a circle.
  pub bootstrap-Settles :
      (answer : Option Text) (page : Page)
      → Settles page (bootstrap decode_token answer initial_state)
  unfolding bootstrap
  bootstrap-Settles none page = signed_out page _ refl refl
  bootstrap-Settles (some token) page = settled page token (decode_token token)

abbrev page_eq : Page → Page → Bool
page_eq root root = true
page_eq Page.login Page.login = true
page_eq register register = true
page_eq forgot_password forgot_password = true
page_eq reset_password reset_password = true
page_eq dashboard dashboard = true
page_eq markets markets = true
page_eq bets bets = true
page_eq wallet wallet = true
page_eq admin_markets admin_markets = true
page_eq new_market new_market = true
page_eq (bet_detail s) (bet_detail t) = text_eq s t
page_eq _ _ = false

abbrev pub is_linked : Page → List Page → Bool
is_linked page [] = false
is_linked page (p ∷ ps) = page_eq p page || is_linked page ps

-- The page of a single bet, which the list of bets leads to.
abbrev pub is_detail : Page → Bool
is_detail (bet_detail id) = true
is_detail page = false

-- For a user who is signed in, the sidebar links to exactly those pages of the dashboard whose
-- layouts show their content to the user, the pages of single bets apart, which it does not link.
pub sidebar-view :
    (page : Page) (a : AuthState) (user : AuthUser)
    → a.is_refreshing ≡ false
    → a.is_authenticated ≡ true
    → a.user ≡ some user
    → in_dashboard page ≡ true
    → (is_linked page (sidebar a) ≡ true) ↔ ((view page a ≡ content) × (is_detail page ≡ false))
unfolding view sidebar
sidebar-view root a user r s u d = cc
sidebar-view Page.login a user r s u d = cc
sidebar-view register a user r s u d = cc
sidebar-view forgot_password a user r s u d = cc
sidebar-view reset_password a user r s u d = cc
sidebar-view admin_markets a user r s u d = by_role user.role refl
  where
    by_role :
        (role : Role)
        → user.role ≡ role
        → (is_linked admin_markets (sidebar a) ≡ true)
          ↔ ((view admin_markets a ≡ content) × (is_detail admin_markets ≡ false))
    by_role Role.admin e = (λ h. (rw (r, s, u, e), refl), λ h. rw (u, e))
    by_role Role.user e = rw (r, s, u, e) (λ h. absurd (cc), λ h. absurd (cc))
    by_role Role.vip_user e = rw (r, s, u, e) (λ h. absurd (cc), λ h. absurd (cc))
sidebar-view new_market a user r s u d = by_role user.role refl
  where
    by_role :
        (role : Role)
        → user.role ≡ role
        → (is_linked new_market (sidebar a) ≡ true)
          ↔ ((view new_market a ≡ content) × (is_detail new_market ≡ false))
    by_role Role.admin e = (λ h. (rw (r, s, u, e), refl), λ h. rw (u, e))
    by_role Role.user e = rw (r, s, u, e) (λ h. absurd (cc), λ h. absurd (cc))
    by_role Role.vip_user e = rw (r, s, u, e) (λ h. absurd (cc), λ h. absurd (cc))
sidebar-view (bet_detail id) a user r s u d = by_role user.role refl
  where
    by_role :
        (role : Role)
        → user.role ≡ role
        → (is_linked (bet_detail id) (sidebar a) ≡ true)
          ↔ ((view (bet_detail id) a ≡ content) × (is_detail (bet_detail id) ≡ false))
    by_role Role.admin e = rw (u, e) (λ h. absurd (cc), λ h. absurd (cc))
    by_role Role.user e = rw (u, e) (λ h. absurd (cc), λ h. absurd (cc))
    by_role Role.vip_user e = rw (u, e) (λ h. absurd (cc), λ h. absurd (cc))
sidebar-view page a user r s u d = (λ h. (rw (r, s), refl), λ h. refl)
