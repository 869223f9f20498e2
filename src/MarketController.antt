-- ===== src/MarketController.antt =====
-- MarketController.
use bolt_bet.Base.{ℕ, String, none, some}
use bolt_bet.Model.Types.{Uuid, MarketStatus}
use bolt_bet.Model.Entities.{Body, World}
use bolt_bet.Model.Action.{Action, Env, raise, unavailable, market_read}
use bolt_bet.Market
use bolt_bet.Lists
use bolt_bet.Lists.{MarketListResponseDto}
use bolt_bet.Validation.{Packages, create_market_dto, settle_market_dto, id_param, Query}
use bolt_bet.Http.{Response, market, markets, respond, piped, read_page}

-- The filter of the list of markets: no status, one of the enumeration, or another text.
pub data StatusFilter : Type 0 where
  every : StatusFilter
  only : MarketStatus → StatusFilter
  unknown : StatusFilter

-- `status` is handed on as it is: a text that is no status is an error of PostgreSQL.
abbrev pub list_filtered : Env → StatusFilter → ℕ → ℕ → Action MarketListResponseDto
list_filtered env every page limit = Lists.list env page limit none
list_filtered env (only status) page limit = Lists.list env page limit (some status)
list_filtered env unknown page limit = raise (unavailable market_read)

module _ (env : Env) where
  abbrev pub list : Query → Query → StatusFilter → World → Response × World
  list page limit status = read_page page limit markets (list_filtered env status)

  module _ (packages : Packages) where
    abbrev pub get_market : String → World → Response × World
    get_market id =
        piped (id_param packages id) λ id w. respond 200 market (Market.get_market env id w)

    abbrev pub create : Body → World → Response × World
    create body =
        piped (create_market_dto packages body)
          λ dto w. respond 201 market (Market.create_market env dto w)

    abbrev pub suspend : String → World → Response × World
    suspend id =
        piped (id_param packages id)
          λ id w. respond 200 market (Market.update_status env id MarketStatus.suspended w)

    abbrev pub settle : (Uuid → Env) → String → Body → World → Response × World
    settle envs id body = piped (id_param packages id) λ id.
        piped (settle_market_dto body)
          λ result w. respond 200 market (Market.settle env envs id result w)

    abbrev pub reopen : String → World → Response × World
    reopen id =
        piped (id_param packages id)
          λ id w. respond 200 market (Market.update_status env id MarketStatus.opened w)
