-- ===== src/Identity/Login.antt =====
-- A login and the refresh that follows it.
use bolt_bet.Base.{
  ℕ, ◌≡◌, ◌≤◌, ◌+◌, ◌*◌, refl, ◌∙◌, true, false, inl, inr, Bool-cases, Option-cases, Option, some,
  none, ◌++◌, ◌==◌, arith, get_or,
}
use bolt_bet.Base.Table.{find, taken, All, All-find, taken-update_same}
use bolt_bet.Crypto.{Text, Crypto, Config, Draw}
use bolt_bet.Model.Types.{Uuid}
use bolt_bet.Model.Entities.{User, RefreshToken, World}
use bolt_bet.Model.Action.{ok, WhenOk, user_read, token_read, token_write, signing}
use bolt_bet.Identity.{
  Session, Credentials, login, refresh, rotate, check_token, use_token, open_session,
  issue_access_token, issue_refresh_token, new_token, cookie_of, access_payload, has_email,
  has_token_id, has_user_id,
}
use bolt_bet.Identity.Rotation.{IsGood, opened, spent, open_session-WhenOk, refresh-IsShown}
use bolt_bet.Identity.Revocation.{IsUuidText, cookie_of-IsShown}

module _ (crypto : Crypto) (config : Config) where
  login-WhenOk {ℓ} :
      (Q : Session → World → Type ℓ) (d : Draw) (dto : Credentials) (w : World)
      → ((user : User)
          → find (has_email dto.email) w.users ≡ some user
          → WhenOk Q (open_session crypto config d user none w))
      → WhenOk Q (login crypto config d dto w)
  unfolding login
  login-WhenOk Q d dto w done = elim (Bool-cases (d.fails user_read)) [
    | inl down ↦ rw (down, login) tt
    | inr up ↦ elim (Option-cases (find (has_email dto.email) w.users)) [
      | inl nobody ↦
          elim (Bool-cases
            (crypto.compare (config.password_pepper ++ dto.password) config.dummy_hash)) [
              | inl lucky ↦ rw (up, nobody, login, lucky) tt
              | inr wrong ↦ rw (up, nobody, login, wrong) tt
            ]
      | inr (user, found) ↦
          elim (Bool-cases
            (crypto.compare (config.password_pepper ++ dto.password) user.password_hash)) [
              | inl fits ↦ rw (up, found, login, fits) (done user found)
              | inr wrong ↦ rw (up, found, login, wrong) tt
            ]
    ]
  ]

  module _ (d : Draw) (up : d.fails token_write ≡ false) (up' : d.fails signing ≡ false) where
    -- With no fault, a session is opened for a token whose id is new.
    open_session_ready :
        (user : User) (family : Option Uuid) (v : World)
        → taken (has_token_id d.token_id) v.refresh_tokens ≡ false
        → (session : Session) × (open_session crypto config d user family v
            ≡ (ok session, opened crypto config d user (get_or family d.family_id) v))
    unfolding open_session issue_access_token issue_refresh_token
    open_session_ready user family v free = (
      record {
        access_token = crypto.sign (access_payload crypto config d user);
        cookie = cookie_of crypto config d;
      },
      rw (up', open_session, up, free),
    )

    check_token-IsGood :
        (secret : Text) (token : RefreshToken) (w : World)
        → IsGood crypto config d secret token w
        → taken (has_token_id d.token_id) w.refresh_tokens ≡ false
        → (session : Session) × (w' : World) × (check_token crypto config d secret token w
            ≡ (ok session, w'))
    unfolding check_token rotate use_token
    check_token-IsGood secret token w g free =
        let still =
          taken-update_same (has_token_id d.token_id) (has_token_id token.id)
            (λ row. record row { used = true }) w.refresh_tokens (λ y. refl)
          ∙ free in
        let (session, eq) =
          open_session_ready g.owner (some token.family_id) (spent crypto config d token w) still in
        (
          session,
          opened crypto config d g.owner token.family_id (spent crypto config d token w),
          rw (g.not_revoked, check_token, g.not_used, g.in_time, g.secret_fits, up, g.owned) eq,
        )

-- A login that answers opens a session that lasts: its cookie is exchanged for a new one at any time
-- until it runs out, by a request that no fault meets and whose generated id is new. This is so
-- where bcrypt accepts the text that it hashed, and where the users table has no key twice.
pub login-refresh :
    (crypto : Crypto) (config : Config) (d d' : Draw) (dto : Credentials) (w : World)
    → IsUuidText crypto
    → ((salt : ℕ) (t : Text) → crypto.compare t (crypto.hash salt t) ≡ true)
    → All (λ (u : User). find (has_user_id u.id) w.users ≡ some u) w.users
    → d'.fails token_read ≡ false
    → d'.fails token_write ≡ false
    → d'.fails signing ≡ false
    → d'.now ≤ d.now + config.refresh_ttl * 1000
    → (d.token_id == d'.token_id) ≡ false
    → taken (has_token_id d'.token_id) w.refresh_tokens ≡ false
    → WhenOk
        (λ session w'.
          (session' : Session) × (w'' : World) × (refresh crypto config d' (some session.cookie) w'
            ≡ (ok session', w'')))
        (login crypto config d dto w)
login-refresh crypto config d d' dto w laws accepts keyed read write sign in_time other free =
    login-WhenOk crypto config (WhenOk_goal) d dto w λ user found.
      open_session-WhenOk crypto config d WhenOk_goal user none w λ new_id.
        let shown = cookie_of-IsShown crypto laws config d (after user) (row user) (ground arith) in
        let owned =
          All-find (λ (u : User). find (has_user_id u.id) w.users ≡ some u) (has_email dto.email)
            w.users found keyed in
        let (session', w'', eq) =
          check_token-IsGood crypto config d' write sign d.secret (row user) (after user)
            (record {
              not_revoked = refl;
              not_used = refl;
              in_time = ground arith;
              secret_fits = accepts d.salt d.secret;
              owner = user;
              owned = owned;
            })
            (rw other free) in
        (
          session',
          w'',
          refresh-IsShown crypto config d' (some (cookie_of crypto config d)) (after user) d.secret
                (row user) read shown
              ∙ eq,
        )
  where
    WhenOk_goal : Session → World → Type 0
    WhenOk_goal session w' =
        (session' : Session) × (w'' : World) × (refresh crypto config d' (some session.cookie) w'
          ≡ (ok session', w''))

    row : User → RefreshToken
    row user = new_token crypto config d user d.family_id

    after : User → World
    after user = opened crypto config d user d.family_id w
