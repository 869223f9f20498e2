-- ===== src/Controllers.antt =====
-- The routes of the controllers, who may call them, and the way of a request through the guards and
-- the pipes to its handler.
pub mod Access
pub mod Frame
pub mod Markets
pub mod Deposits
use bolt_bet.Base.{Bool, true, false, List, [], ◌∷◌, Option, none, some, String}
use bolt_bet.Crypto.{Text, JwtPayload, Crypto, Config, Draw}
use bolt_bet.Model.Types.{Uuid, Role}
use bolt_bet.Model.Entities.{Body, World}
use bolt_bet.Model.Action.{Env, Result, ok, err}
use bolt_bet.Auth.{can_activate, permits}
use bolt_bet.Validation.{Packages, Query}
use bolt_bet.Http.{Response, failure, status_of}
use bolt_bet.AppController
use bolt_bet.IdentityController
use bolt_bet.WalletController
use bolt_bet.BettingController
use bolt_bet.MarketController
use bolt_bet.MarketController.{StatusFilter}

-- The routes, with the parts of the request that their handlers read.
pub data Route : Type 0 where
  get_hello : Route
  publish_message : Body → Route
  register : Body → Route
  login : Body → Route
  refresh : Route
  logout : Route
  get_balance : Route
  deposit : Body → Route
  get_transactions : Query → Query → Route
  place_bet : Body → Route
  get_bets : Query → Query → Route
  get_bet_by_id : String → Route
  list : Query → Query → StatusFilter → Route
  get_market : String → Route
  create : Body → Route
  suspend : String → Route
  settle : String → Body → Route
  reopen : String → Route

-- `@Public()`
abbrev pub is_public : Route → Bool
is_public (register body) = true
is_public (login body) = true
is_public refresh = true
is_public _ = false

-- `@Roles(Role.ADMIN)`
abbrev pub roles : Route → List Role
roles (create body) = Role.admin ∷ []
roles (suspend id) = Role.admin ∷ []
roles (settle id body) = Role.admin ∷ []
roles (reopen id) = Role.admin ∷ []
roles _ = []

-- A request, with what its handler draws from outside.
pub record Request : Type 0 where
  pub env : Env
  pub envs : Uuid → Env
  pub draw : Draw
  pub authorization : Option Text
  pub cookie : Option Text
  pub route : Route

module _ (packages : Packages) (crypto : Crypto) (config : Config) where
  -- The handlers of the public routes. A handler that reads `req.user` of no user raises a
  -- TypeError.
  pub public_handler : Request → Route → World → Response × World
  public_handler r (register body) = IdentityController.register crypto config r.draw packages body
  public_handler r (login body) = IdentityController.login crypto config r.draw packages body
  public_handler r refresh = IdentityController.refresh crypto config r.draw r.cookie
  public_handler r _ = λ w. (failure 500, w)

  -- The handlers of the other routes.
  unfoldable pub handler : Request → JwtPayload → Route → World → Response × World
  handler r user get_hello = AppController.get_hello
  handler r user (publish_message body) = AppController.publish_message r.env body
  handler r user logout = IdentityController.logout crypto config r.draw user r.cookie
  handler r user get_balance = WalletController.get_balance r.env user
  handler r user (deposit body) = WalletController.deposit r.env user packages body
  handler r user (get_transactions page limit) =
      WalletController.get_transactions r.env user page limit
  handler r user (place_bet body) = BettingController.place_bet r.env user packages body
  handler r user (get_bets page limit) = BettingController.get_bets r.env user page limit
  handler r user (get_bet_by_id id) = BettingController.get_bet_by_id r.env user packages id
  handler r user (list page limit status) = MarketController.list r.env page limit status
  handler r user (get_market id) = MarketController.get_market r.env packages id
  handler r user (create body) = MarketController.create r.env packages body
  handler r user (suspend id) = MarketController.suspend r.env packages id
  handler r user (settle id body) = MarketController.settle r.env packages r.envs id body
  handler r user (reopen id) = MarketController.reopen r.env packages id
  handler r user _ = λ w. (failure 500, w)

  -- A guard that returns false is answered with 403.
  abbrev pub handled : Request → Option JwtPayload → Bool → World → Response × World
  handled r user false = λ w. (failure 403, w)
  handled r none true = public_handler r r.route
  handled r (some user) true = handler r user r.route

  abbrev pub admitted : Request → Option JwtPayload → Result Bool × World → Response × World
  admitted r user (ok passes, w) = handled r user passes w
  admitted r user (err e, w) = (failure (status_of e), w)

  abbrev pub authenticated : Request → Result (Option JwtPayload) × World → Response × World
  authenticated r (ok user, w) = admitted r user (permits (roles r.route) user w)
  authenticated r (err e, w) = (failure (status_of e), w)

  -- One request: the two guards, the pipes, the handler.
  unfoldable pub serve : Request → World → Response × World
  serve r w = authenticated r (can_activate crypto (is_public r.route) r.draw r.authorization w)
