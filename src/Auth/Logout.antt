-- ===== src/Auth/Logout.antt =====
-- A token that was logged out.
use bolt_bet.Base.{
  ◌≡◌, ◌≤◌, ◌<◌, ◌+◌, ◌-◌, ◌*◌, ◌/◌, refl, true, false, inl, inr, Bool-cases, Option, some, arith,
  ltb, ◌==◌, ==_iff,
}
use bolt_bet.Crypto.{Text, JwtPayload, Crypto, Config, Draw, truthy}
use bolt_bet.Model.Entities.{World}
use bolt_bet.Model.Action.{
  Result, ok, err, bind, WhenOk, blacklist_read, blacklist_write, access_token_revoked,
}
use bolt_bet.Identity.{logout, revoke_cookie, blacklist}
use bolt_bet.Auth.{authenticate, is_blacklisted}

module _ (crypto : Crypto) (config : Config) (d d' : Draw) (payload : JwtPayload) (text : Text)
    (later : d.now ≤ d'.now) (running : d'.now < payload.exp * 1000)
    (verified : crypto.verify d'.now text ≡ some payload) (present : truthy (some text) ≡ some text)
    (up : d'.fails blacklist_read ≡ false) where
  abbrev Refused : World → Type 0
  Refused w' = authenticate crypto d' (some text) w' ≡ (err access_token_revoked, w')

  refused : (w : World) → is_blacklisted d'.now payload.jti w.persistent ≡ true → Refused w
  unfolding authenticate
  refused w listed = rw (present, verified, up, listed, authenticate)

  marked : (w : World) → WhenOk (λ done w'. Refused w') (blacklist crypto config d payload w)
  marked w = elim (Bool-cases (d.fails blacklist_write)) [
    | inl down ↦ rw down tt
    | inr ready ↦
        let own : (payload.jti == payload.jti) ≡ true = (==_iff payload.jti payload.jti).1 refl in
        let lasts : ltb d'.now (d.now + (payload.exp - d.now / 1000) * 1000) ≡ true =
          ground arith in
        rw ready (refused _ (rw (own, lasts)))
  ]

  after_cookie :
      (r : Result (Unit {0}) × World)
      → WhenOk (λ done w'. Refused w') (bind r (λ _. blacklist crypto config d payload))
  after_cookie (ok done, w) = marked w
  after_cookie (err e, w) = tt

  -- An access token that was logged out is refused from then on until it runs out, by every request
  -- that can read the blacklist.
  pub logout-refused :
      (raw : Option Text) (w : World)
      → WhenOk
          (λ done w'. authenticate crypto d' (some text) w' ≡ (err access_token_revoked, w'))
          (logout crypto config d payload raw w)
  unfolding logout
  logout-refused raw w =
      let left : ltb (d.now / 1000) payload.exp ≡ true = ground arith in
      rw (left, logout) (after_cookie (revoke_cookie crypto config d (truthy raw) w))
