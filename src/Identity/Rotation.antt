-- ===== src/Identity/Rotation.antt =====
-- The rotation of refresh tokens: what an answer of `refresh` says, and what becomes of a token that
-- is shown twice.
use bolt_bet.Base.{
  ◌≡◌, refl, true, false, inl, inr, Bool-cases, Option-cases, Option, some, ◌∷◌, ltb, get_or,
}
use bolt_bet.Base.Table.{find, update, taken}
use bolt_bet.Crypto.{Text, Crypto, Config, Draw, split_colon, truthy}
use bolt_bet.Model.Types.{Uuid}
use bolt_bet.Model.Entities.{User, RefreshToken, World}
use bolt_bet.Model.Action.{
  Error, Result, err, WhenOk, token_read, token_write, signing, token_reused, token_revoked,
}
use bolt_bet.Identity.{
  Session, new_token, cookie_of, issue_access_token, issue_refresh_token, open_session, use_token,
  revoke_family, report_reuse, rotate, check_token, find_token, refresh, has_token_id, has_user_id,
  of_family, access_payload,
}

-- The row that a cookie names, and the secret that it shows.
pub record IsShown (crypto : Crypto) (raw : Option Text) (w : World) (secret : Text)
    (token : RefreshToken) : Type 0 where
  pub cookie : Text
  pub id_text : Text
  pub id : Uuid
  pub present : truthy raw ≡ some cookie
  pub parts : split_colon cookie ≡ some (id_text, secret)
  pub is_uuid : crypto.read_uuid id_text ≡ some id
  pub found : find (has_token_id id) w.refresh_tokens ≡ some token

module _ (crypto : Crypto) (config : Config) (d : Draw) where
  refresh_cases {ℓ} :
      (P : Result Session × World → Type ℓ) (raw : Option Text) (w : World)
      → ((e : Error) → P (err e, w))
      → ((secret : Text) (token : RefreshToken)
          → IsShown crypto raw w secret token
          → P (check_token crypto config d secret token w))
      → P (refresh crypto config d raw w)
  unfolding refresh find_token
  refresh_cases P raw w failed shown = elim (Option-cases (truthy raw)) [
    | inl missing ↦ rw (missing, refresh) (failed _)
    | inr (cookie, e) ↦ elim (Option-cases (split_colon cookie)) [
      | inl malformed ↦ rw (e, refresh, malformed) (failed _)
      | inr ((id_text, secret), p) ↦ elim (Bool-cases (d.fails token_read)) [
        | inl down ↦ rw (e, refresh, p, down) (failed _)
        | inr up ↦ elim (Option-cases (crypto.read_uuid id_text)) [
          | inl no_uuid ↦ rw (e, refresh, p, up, no_uuid) (failed _)
          | inr (id, i) ↦ elim (Option-cases (find (has_token_id id) w.refresh_tokens)) [
            | inl unknown ↦ rw (e, refresh, p, up, i, unknown) (failed _)
            | inr (token, f) ↦
                rw (e, refresh, p, up, i, f)
                  (shown secret token (record {
                    cookie = cookie;
                    id_text = id_text;
                    id = id;
                    present = e;
                    parts = p;
                    is_uuid = i;
                    found = f;
                  }))
          ]
        ]
      ]
    ]
  ]

  pub refresh-IsShown :
      (raw : Option Text) (w : World) (secret : Text) (token : RefreshToken)
      → d.fails token_read ≡ false
      → IsShown crypto raw w secret token
      → refresh crypto config d raw w ≡ check_token crypto config d secret token w
  unfolding refresh find_token
  refresh-IsShown raw w secret token up s = rw (s.present, refresh, s.parts, up, s.is_uuid, s.found)

  abbrev pub opened : User → Uuid → World → World
  opened user family_id v = record v {
    refresh_tokens = new_token crypto config d user family_id ∷ v.refresh_tokens;
  }

  pub open_session-WhenOk {ℓ} :
      (Q : Session → World → Type ℓ) (user : User) (family : Option Uuid) (v : World)
      → (taken (has_token_id d.token_id) v.refresh_tokens ≡ false
          → Q
              (record {
                access_token = crypto.sign (access_payload crypto config d user);
                cookie = cookie_of crypto config d;
              })
              (opened user (get_or family d.family_id) v))
      → WhenOk Q (open_session crypto config d user family v)
  unfolding open_session issue_access_token issue_refresh_token
  open_session-WhenOk Q user family v done = elim (Bool-cases (d.fails signing)) [
    | inl down ↦ rw (down, open_session) tt
    | inr up ↦ elim (Bool-cases (d.fails token_write)) [
      | inl down ↦ rw (up, open_session, down) tt
      | inr up' ↦ elim (Bool-cases (taken (has_token_id d.token_id) v.refresh_tokens)) [
        | inl clash ↦ rw (up, open_session, up', clash) tt
        | inr free ↦ rw (up, open_session, up', free) (done free)
      ]
    ]
  ]

  abbrev pub spent : RefreshToken → World → World
  spent token w = record w {
    refresh_tokens =
        update (has_token_id token.id) (λ row. record row { used = true }) w.refresh_tokens;
  }

  -- The token may be exchanged.
  pub record IsGood (secret : Text) (token : RefreshToken) (w : World) : Type 0 where
    pub not_revoked : token.revoked ≡ false
    pub not_used : token.used ≡ false
    pub in_time : ltb token.expires_at d.now ≡ false
    pub secret_fits : crypto.compare secret token.token_hash ≡ true
    pub owner : User
    pub owned : find (has_user_id token.user_id) w.users ≡ some owner

  check_token-WhenOk {ℓ} :
      (Q : Session → World → Type ℓ) (secret : Text) (token : RefreshToken) (w : World)
      → ((g : IsGood secret token w)
          → WhenOk Q (open_session crypto config d g.owner (some token.family_id) (spent token w)))
      → WhenOk Q (check_token crypto config d secret token w)
  unfolding check_token report_reuse revoke_family rotate use_token
  check_token-WhenOk Q secret token w done = elim (Bool-cases token.revoked) [
    | inl gone ↦ rw (gone, check_token) tt
    | inr not_revoked ↦ elim (Bool-cases token.used) [
      | inl reuse ↦
          rw (not_revoked, check_token, reuse)
            (elim (Bool-cases (d.fails token_write)) [ inl down ↦ rw down tt | inr up ↦ rw up tt ])
      | inr not_used ↦ elim (Bool-cases (ltb token.expires_at d.now)) [
        | inl late ↦ rw (not_revoked, check_token, not_used, late) tt
        | inr in_time ↦ elim (Bool-cases (crypto.compare secret token.token_hash)) [
          | inr wrong ↦ rw (not_revoked, check_token, not_used, in_time, wrong) tt
          | inl fits ↦ elim (Bool-cases (d.fails token_write)) [
            | inl down ↦ rw (not_revoked, check_token, not_used, in_time, fits, down) tt
            | inr up ↦ elim (Option-cases (find (has_user_id token.user_id) w.users)) [
              | inl nobody ↦ rw (not_revoked, check_token, not_used, in_time, fits, up, nobody) tt
              | inr (user, owned) ↦
                  rw (not_revoked, check_token, not_used, in_time, fits, up, owned)
                    (done (record {
                      not_revoked = not_revoked;
                      not_used = not_used;
                      in_time = in_time;
                      secret_fits = fits;
                      owner = user;
                      owned = owned;
                    }))
            ]
          ]
        ]
      ]
    ]
  ]

  -- What an answer says: the cookie names a token that may be exchanged; that token is now used, and
  -- a new one of its family, for its user, is in the table; the answer has the cookie of the new one.
  pub record Rotated (raw : Option Text) (w : World) (session : Session) (w' : World) : Type 0 where
    pub secret : Text
    pub token : RefreshToken
    pub shown : IsShown crypto raw w secret token
    pub good : IsGood secret token w
    pub new_id : taken (has_token_id d.token_id) (spent token w).refresh_tokens ≡ false
    pub answered : session.cookie ≡ cookie_of crypto config d
    pub after : w' ≡ opened good.owner token.family_id (spent token w)

  -- A refresh answers only a cookie whose token is in the table, neither revoked nor used nor
  -- expired, and whose secret fits its hash. The token is then used, and the cookie of the answer
  -- is that of a new token of the same family and user.
  pub refresh-Rotated :
      (raw : Option Text) (w : World) → WhenOk (Rotated raw w) (refresh crypto config d raw w)
  refresh-Rotated raw w =
      refresh_cases (WhenOk (Rotated raw w)) raw w (λ e. tt)
        λ secret token shown. check_token-WhenOk (Rotated raw w) secret token w λ g.
          open_session-WhenOk (Rotated raw w) g.owner (some token.family_id) (spent token w) λ free.
            record {
              secret = secret;
              token = token;
              shown = shown;
              good = g;
              new_id = free;
              answered = refl;
              after = refl;
            }

  -- What is done to a family whose token was shown twice.
  abbrev pub banned : Uuid → World → World
  banned family_id w = record w {
    refresh_tokens =
        update (of_family family_id) (λ token. record token { revoked = true }) w.refresh_tokens;
  }

  pub check_token_used :
      (secret : Text) (token : RefreshToken) (w : World)
      → d.fails token_write ≡ false
      → token.revoked ≡ false
      → token.used ≡ true
      → check_token crypto config d secret token w ≡ (err token_reused, banned token.family_id w)
  unfolding check_token report_reuse revoke_family
  check_token_used secret token w up live used = rw (live, check_token, used, up)

  pub check_token_revoked :
      (secret : Text) (token : RefreshToken) (w : World)
      → token.revoked ≡ true
      → check_token crypto config d secret token w ≡ (err token_revoked, w)
  unfolding check_token
  check_token_revoked secret token w gone = rw (gone, check_token)
