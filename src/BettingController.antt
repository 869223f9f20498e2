-- ===== src/BettingController.antt =====
-- BettingController. The user is `req.user`, which the guard has set.
use bolt_bet.Base.{String}
use bolt_bet.Crypto.{JwtPayload}
use bolt_bet.Model.Entities.{Body, World}
use bolt_bet.Model.Action.{Env}
use bolt_bet.Betting
use bolt_bet.Lists
use bolt_bet.Validation.{Packages, place_bet_dto, id_param, Query}
use bolt_bet.Http.{Response, bet, bets, respond, piped, read_page}

module _ (env : Env) (user : JwtPayload) where
  abbrev pub place_bet : Packages → Body → World → Response × World
  place_bet packages body =
      piped (place_bet_dto packages body)
        λ dto w. respond 201 bet (Betting.place_bet env user.sub user.role dto w)

  abbrev pub get_bets : Query → Query → World → Response × World
  get_bets page limit = read_page page limit bets (Lists.get_bets env user.sub)

  abbrev pub get_bet_by_id : Packages → String → World → Response × World
  get_bet_by_id packages id =
      piped (id_param packages id)
        λ id w. respond 200 bet (Betting.get_bet_by_id env user.sub user.role id w)
