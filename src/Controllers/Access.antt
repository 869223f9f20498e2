-- ===== src/Controllers/Access.antt =====
-- Who gets through to a handler.
use bolt_bet.Base.{ℕ, ◌≡◌, ◌⊎◌, refl, true, false, inl, inr, Bool-cases, List, [], ◌∷◌, some, none}
use bolt_bet.Crypto.{JwtPayload, Crypto, Config}
use bolt_bet.Model.Types.{Role}
use bolt_bet.Model.Entities.{World}
use bolt_bet.Model.Action.{bind, pure}
use bolt_bet.Auth.{permits, includes_role, extract_token}
use bolt_bet.Auth.Guards.{IsAllowed, authenticate_cases, can_activate-closed, can_activate-public}
use bolt_bet.Validation.{Packages}
use bolt_bet.Http.{Response, failure}
use bolt_bet.Controllers.{
  Route, register, login, refresh, Request, is_public, roles, handler, public_handler, serve,
  authenticated, admitted,
}

module _ (packages : Packages) (crypto : Crypto) (config : Config) (r : Request) (w : World) where
  -- The request is turned away, and nothing has changed.
  abbrev pub TurnedAway : Type 0
  TurnedAway = (code : ℕ) × (serve packages crypto config r w ≡ (failure code, w))

  -- The request gets to its handler, as the user of a token that is good for the route.
  abbrev pub LetIn : Type 0
  LetIn =
      (a : IsAllowed crypto (roles r.route) r.draw r.authorization w) × (serve packages crypto
          config r w
        ≡ handler packages crypto config r a.payload r.route w)

  permits_cases {ℓ} :
      (P : Response × World → Type ℓ) (user : JwtPayload) (rs : List Role)
      → ((code : ℕ) → P (failure code, w))
      → ((rs ≡ []) ⊎ (includes_role rs user.role ≡ true)
          → P (handler packages crypto config r user r.route w))
      → P (admitted packages crypto config r (some user) (permits rs (some user) w))
  permits_cases P user [] away inside = inside (inl refl)
  permits_cases P user (role ∷ rs) away inside =
      elim (Bool-cases (includes_role (role ∷ rs) user.role)) [
        | inl fits ↦ rw fits (inside (inr fits))
        | inr bad ↦ rw bad (away _)
      ]

  pub serve_cases {ℓ} :
      (P : Response × World → Type ℓ)
      → is_public r.route ≡ false
      → ((code : ℕ) → P (failure code, w))
      → ((a : IsAllowed crypto (roles r.route) r.draw r.authorization w)
          → P (handler packages crypto config r a.payload r.route w))
      → P (serve packages crypto config r w)
  unfolding serve
  serve_cases P closed away inside =
      rw (closed, serve, can_activate-closed crypto r.draw r.authorization w)
        (authenticate_cases
          (λ z. P (authenticated packages crypto config r (bind z (λ user. pure (some user)))))
          crypto r.draw (extract_token r.authorization) w (λ e. away _)
          λ token user shown verified live. permits_cases P user (roles r.route) away λ fits.
            inside (record {
              token = token;
              payload = user;
              shown = shown;
              verified_as = verified;
              not_revoked = live;
              role_fits = fits;
            }))

  -- A request for a public route goes to its handler.
  pub serve-public :
      is_public r.route ≡ true
      → serve packages crypto config r w ≡ public_handler packages crypto config r r.route w
  unfolding serve
  serve-public opened =
      rw (opened, serve, can_activate-public crypto r.draw r.authorization w)
        (public_roles r.route opened)
    where
      public_roles :
          (route : Route)
          → is_public route ≡ true
          → admitted packages crypto config r none (permits (roles route) none w)
            ≡ public_handler packages crypto config r r.route w
      public_roles (register body) h = refl
      public_roles (login body) h = refl
      public_roles refresh h = refl
      public_roles _ h = cc
