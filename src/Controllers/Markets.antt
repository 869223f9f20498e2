-- ===== src/Controllers/Markets.antt =====
-- Who can change the markets.
use bolt_bet.Base.{◌≡◌, ◌⊎◌, refl, ap, sym, ◌∙◌, true, inl, inr, Bool-cases, [], ◌∷◌, some}
use bolt_bet.Crypto.{JwtPayload, Crypto, Config}
use bolt_bet.Model.Types.{Role}
use bolt_bet.Model.Entities.{World}
use bolt_bet.Wallet.Frame.{debit-Keeps, deposit-Keeps, get_balance_writes}
use bolt_bet.Betting.{bet_text}
use bolt_bet.Betting.Frame.{place_bet-Keeps}
use bolt_bet.Identity.Frame.{logout-IsOwnWrite}
use bolt_bet.Auth.{includes_role}
use bolt_bet.Auth.Guards.{IsAllowed}
use bolt_bet.Validation.{Packages}
use bolt_bet.Controllers.{Request, roles, is_public, serve}
use bolt_bet.Controllers.Access.{serve_cases, serve-public}
use bolt_bet.Controllers.Frame.{Kept, handler-Keeps, roles_cases, public_handler-IsOwnWrite}

includes_admin : (role : Role) → includes_role (Role.admin ∷ []) role ≡ true → role ≡ Role.admin
includes_admin Role.user h = cc
includes_admin Role.vip_user h = cc
includes_admin Role.admin h = refl

module _ (packages : Packages) (crypto : Crypto) (config : Config) (r : Request) (w : World) where
  abbrev SameMarkets : World → Type 0
  SameMarkets v = v.markets ≡ w.markets

  kept : (user : JwtPayload) → Kept SameMarkets crypto config r user
  kept user = record {
    tasks = λ ts v h. h;
    logouts = λ v h.
        ap (λ (z : World). z.markets) (logout-IsOwnWrite crypto config r.draw v user r.cookie) ∙ h;
    balances = λ v h. elim (get_balance_writes r.env user.sub v) [
      | inl same ↦ ap (λ (z : World). z.markets) same ∙ h
      | inr new ↦ ap (λ (z : World). z.markets) new.1 ∙ h
    ];
    deposits = λ dto b. deposit-Keeps SameMarkets (λ ws ts v h. h) r.env user.sub dto;
    bets = λ dto b.
        place_bet-Keeps SameMarkets r.env user.sub user.role dto
          (λ name.
            debit-Keeps SameMarkets (λ ws ts v h. h) r.env user.sub dto.stake_cents
              dto.client_mutation_id (some (bet_text name)))
          (λ bs es ms v h. h);
  }

  -- An administrator's request.
  abbrev pub IsByAdmin : Type 0
  IsByAdmin =
      (a : IsAllowed crypto (roles r.route) r.draw r.authorization w) × (a.payload.role
        ≡ Role.admin)

  by_admin :
      (a : IsAllowed crypto (roles r.route) r.draw r.authorization w)
      → roles r.route ≡ Role.admin ∷ []
      → a.payload.role ≡ Role.admin
  by_admin a only = elim a.role_fits [
    | inl free ↦ absurd (cc)
    | inr fits ↦
        includes_admin a.payload.role (sym (ap (λ rs. includes_role rs a.payload.role) only) ∙ fits)
  ]

  -- Whatever a request asks for, and whatever fails on the way: it leaves the table of markets as
  -- it is, or it bears a token that was verified, is not blacklisted and names an administrator.
  pub markets_by_admin : SameMarkets (serve packages crypto config r w).1 ⊎ IsByAdmin
  markets_by_admin = elim (Bool-cases (is_public r.route)) [
    | inl opened ↦ inl (
        rw (serve-public packages crypto config r w opened) (
          ap (λ (z : World). z.markets)
            (public_handler-IsOwnWrite packages crypto config r r.route w)))
    | inr closed ↦
        serve_cases packages crypto config r w (λ z. SameMarkets z.1 ⊎ IsByAdmin) closed
          (λ code. inl refl)
          λ a. elim (roles_cases r.route) [
            | inr only ↦ inr (a, by_admin a only)
            | inl free ↦ inl (
                handler-Keeps SameMarkets packages crypto config r a.payload (kept a.payload)
                  r.route w free refl)
          ]
  ]
