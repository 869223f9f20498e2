-- ===== src/IdentityController.antt =====
-- IdentityController. The cookie of a session is set in a header.
use bolt_bet.Base.{Option}
use bolt_bet.Crypto.{Text, JwtPayload, Crypto, Config, Draw}
use bolt_bet.Model.Entities.{Body, World}
use bolt_bet.Identity
use bolt_bet.Validation.{Packages, login_dto, register_dto}
use bolt_bet.Http.{Response, nothing, session, respond, piped}

module _ (crypto : Crypto) (config : Config) (d : Draw) where
  abbrev pub register : Packages → Body → World → Response × World
  register packages body =
      piped (register_dto packages body)
        λ dto w. respond 201 (λ _. nothing) (Identity.register crypto config d dto w)

  abbrev pub login : Packages → Body → World → Response × World
  login packages body =
      piped (login_dto packages body)
        λ dto w. respond 200 session (Identity.login crypto config d dto w)

  abbrev pub refresh : Option Text → World → Response × World
  refresh cookie w = respond 200 session (Identity.refresh crypto config d cookie w)

  abbrev pub logout : JwtPayload → Option Text → World → Response × World
  logout user cookie w = respond 204 (λ _. nothing) (Identity.logout crypto config d user cookie w)
