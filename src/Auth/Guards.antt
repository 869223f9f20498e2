-- ===== src/Auth/Guards.antt =====
-- What it takes to get past the guards.
use bolt_bet.Base.{
  ◌≡◌, ◌⊎◌, refl, Bool, true, false, inl, inr, Bool-cases, Option-cases, List, [], ◌∷◌, Option,
  some, none,
}
use bolt_bet.Crypto.{Text, JwtPayload, Crypto, Draw, truthy}
use bolt_bet.Model.Types.{Role}
use bolt_bet.Model.Entities.{World}
use bolt_bet.Model.Action.{Error, Result, ok, err, bind, pure, WhenOk, blacklist_read}
use bolt_bet.Auth.{
  authenticate, is_blacklisted, extract_token, can_activate, permits, includes_role, guards,
}

-- Who has got past: a verified token that is not blacklisted, and a role that the route wants.
pub record IsAllowed (crypto : Crypto) (roles : List Role) (d : Draw) (header : Option Text)
    (w : World) : Type 0 where
  pub token : Text
  pub payload : JwtPayload
  pub shown : truthy (extract_token header) ≡ some token
  pub verified_as : crypto.verify d.now token ≡ some payload
  pub not_revoked : is_blacklisted d.now payload.jti w.persistent ≡ false
  pub role_fits : (roles ≡ []) ⊎ (includes_role roles payload.role ≡ true)

pub authenticate_cases {ℓ} :
    (P : Result JwtPayload × World → Type ℓ) (crypto : Crypto) (d : Draw) (shown : Option Text)
    (w : World)
    → ((e : Error) → P (err e, w))
    → ((token : Text) (payload : JwtPayload)
        → truthy shown ≡ some token
        → crypto.verify d.now token ≡ some payload
        → is_blacklisted d.now payload.jti w.persistent ≡ false
        → P (ok payload, w))
    → P (authenticate crypto d shown w)
unfolding authenticate
authenticate_cases P crypto d shown w failed passed = elim (Option-cases (truthy shown)) [
  | inl missing ↦ rw (missing, authenticate) (failed _)
  | inr (token, e) ↦ elim (Option-cases (crypto.verify d.now token)) [
    | inl bad ↦ rw (e, authenticate, bad) (failed _)
    | inr (payload, v) ↦ elim (Bool-cases (d.fails blacklist_read)) [
      | inl down ↦ rw (e, authenticate, v, down) (failed _)
      | inr up ↦ elim (Bool-cases (is_blacklisted d.now payload.jti w.persistent)) [
        | inl gone ↦ rw (e, authenticate, v, up, gone) (failed _)
        | inr live ↦ rw (e, authenticate, v, up, live) (passed token payload e v live)
      ]
    ]
  ]
]

pub can_activate-closed :
    (crypto : Crypto) (d : Draw) (header : Option Text) (w : World)
    → can_activate crypto false d header w
      ≡ bind (authenticate crypto d (extract_token header) w) (λ payload. pure (some payload))
unfolding can_activate
can_activate-closed crypto d header w = refl

pub can_activate-public :
    (crypto : Crypto) (d : Draw) (header : Option Text) (w : World)
    → can_activate crypto true d header w ≡ (ok none, w)
unfolding can_activate
can_activate-public crypto d header w = refl

permits-WhenOk {ℓ} :
    (Q : Bool → World → Type ℓ) (roles : List Role) (payload : JwtPayload) (w : World)
    → ((roles ≡ []) ⊎ (includes_role roles payload.role ≡ true) → Q true w)
    → WhenOk Q (permits roles (some payload) w)
permits-WhenOk Q [] payload w done = done (inl refl)
permits-WhenOk Q (r ∷ rs) payload w done = elim (Bool-cases (includes_role (r ∷ rs) payload.role)) [
  | inl fits ↦ rw fits (done (inr fits))
  | inr bad ↦ rw bad tt
]

-- A request gets past the guards of a route that is not public only with a bearer token that was
-- verified and is not blacklisted, and with one of the roles that the route names, if it names
-- any; the guards change nothing.
pub guards-IsAllowed :
    (crypto : Crypto) (roles : List Role) (d : Draw) (header : Option Text) (w : World)
    → WhenOk
        (λ passed w'. (passed ≡ true) × IsAllowed crypto roles d header w × (w' ≡ w))
        (guards crypto false roles d header w)
unfolding guards can_activate
guards-IsAllowed crypto roles d header w =
    authenticate_cases
      (λ r.
        WhenOk (λ passed w'. (passed ≡ true) × IsAllowed crypto roles d header w × (w' ≡ w))
          (bind (bind r (λ payload. pure (some payload))) (permits roles)))
      crypto d (extract_token header) w (λ e. tt)
      λ token payload e v live.
        permits-WhenOk (λ passed w'. (passed ≡ true) × IsAllowed crypto roles d header w × (w' ≡ w))
          roles payload w
          λ fits. (
            refl,
            record {
              token = token;
              payload = payload;
              shown = e;
              verified_as = v;
              not_revoked = live;
              role_fits = fits;
            },
            refl,
          )
