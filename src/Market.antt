-- ===== src/Market.antt =====
-- MarketService: markets are opened, suspended and reopened, and settled once, which pays out or
-- closes the accepted bets.
pub mod Lookup
pub mod Frame
pub mod Money
pub mod Closing
pub mod Paid
pub mod Winners
use Prim.Native.String
use bolt_bet.Base.{
  ℕ, ◌==◌, Bool, true, false, ◌&&◌, not, List, [], ◌∷◌, Option, none, some, String, if◌then◌else◌,
}
use bolt_bet.Base.Table.{find, select, update, taken}
use bolt_bet.Model.Types.{
  Uuid, MarketStatus, MarketResult, BetStatus, market_status_eq, status_eq, result_eq,
}
use bolt_bet.Model.Entities.{
  Market, Bet, World, NotificationPayload, bet_settled, market_updated, market_created,
}
use bolt_bet.Model.Action.{
  Action, Env, pure, gets, or_raise, ◌>>=◌, ◌>>◌, raise_if, external, modify, market_read,
  market_write, bet_read, bet_write, publish, out_of_range, unique_violation, market_not_found,
  market_not_open, market_is_settled, fits_integer,
}
use bolt_bet.Format.{format_odds}
use bolt_bet.Wallet
use bolt_bet.Wallet.{TransactionResponseDto}

pub record MarketResponseDto : Type 0 where
  pub id : Uuid
  pub event_id : Uuid
  pub name : String
  pub odds_int : ℕ
  pub odds_display : List ℕ
  pub status : MarketStatus
  pub created_at : ℕ
  pub updated_at : ℕ

pub record CreateMarketDto : Type 0 where
  pub event_id : Uuid
  pub name : String
  pub odds_int : ℕ

unfoldable pub to_market_dto : Market → MarketResponseDto
to_market_dto market = record {
  id = market.id;
  event_id = market.event_id;
  name = market.name;
  odds_int = market.odds_int;
  odds_display = format_odds market.odds_int;
  status = market.status;
  created_at = market.created_at;
  updated_at = market.updated_at;
}

abbrev pub has_market_id : Uuid → Market → Bool
has_market_id id market = market.id == id

abbrev pub find_market : Uuid → List Market → Option Market
find_market id = find (has_market_id id)

-- `publishNotification`: the message is on the queue once the broker has confirmed it.
pub publish_notification : Env → NotificationPayload → Action (Unit {0})
publish_notification env message = do
  external env publish
  modify λ w. record w { notifications = message ∷ w.notifications }

-- `marketRepo.save` of a row that is in the table.
pub save_market : Env → Market → Action (Unit {0})
save_market env market = do
  external env market_write
  modify λ w. record w { markets = update (has_market_id market.id) (λ row. market) w.markets }

abbrev pub updated_message : Market → NotificationPayload
updated_message market = market_updated market.id market.name market.status market.odds_int

pub get_market_by_id : Env → Uuid → Action Market
get_market_by_id env id = do
  external env market_read
  found ← gets λ w. find_market id w.markets
  or_raise found (market_not_found id)

pub get_market : Env → Uuid → Action MarketResponseDto
get_market env id = do market ← get_market_by_id env id; pure (to_market_dto market)

pub assert_market_open : Env → Uuid → Action Market
assert_market_open env id = do
  market ← get_market_by_id env id
  raise_if (not (market_status_eq market.status MarketStatus.opened))
      (market_not_open id market.status)
  pure market

abbrev pub new_market : Env → CreateMarketDto → Market
new_market env dto = record {
  id = env.market_id;
  event_id = dto.event_id;
  name = dto.name;
  odds_int = dto.odds_int;
  status = MarketStatus.opened;
  created_at = env.now;
  updated_at = env.now;
}

insert_market : Env → Market → Action (Unit {0})
insert_market env market = do
  external env market_write
  raise_if (not (fits_integer market.odds_int)) out_of_range
  clash ← gets λ w. taken (has_market_id market.id) w.markets
  raise_if clash unique_violation
  modify λ w. record w { markets = market ∷ w.markets }

pub create_market : Env → CreateMarketDto → Action MarketResponseDto
unfolding insert_market
create_market env dto = do
  let market = new_market env dto
  insert_market env market
  publish_notification env (market_created market.id market.name market.odds_int)
  pure (to_market_dto market)

-- The row with a new status, as it is saved: TypeORM writes a row, with its time, only if a column has
-- changed.
abbrev pub with_status : Env → Market → MarketStatus → Market
with_status env market status =
    if market_status_eq market.status status
    then market
    else record market { status = status; updated_at = env.now }

-- What `updateStatus` and `settle` end with.
pub close_update : Env → Market → Action MarketResponseDto
close_update env market = do
  save_market env market
  publish_notification env (updated_message market)
  pure (to_market_dto market)

pub update_status : Env → Uuid → MarketStatus → Action MarketResponseDto
update_status env id status = do
  market ← get_market_by_id env id
  raise_if (market_status_eq market.status MarketStatus.settled) market_is_settled
  close_update env (with_status env market status)

-- `{ marketId, status: ACCEPTED }`
abbrev pub is_live : Uuid → Bet → Bool
is_live market_id bet = bet.market_id == market_id && status_eq bet.status BetStatus.accepted

abbrev pub has_bet_id : Uuid → Bet → Bool
has_bet_id id bet = bet.id == id

-- `betRepo.update({ id }, { status })`
unfoldable pub set_bet_status : Env → Uuid → BetStatus → Action (Unit {0})
set_bet_status env id status = do
  external env bet_write
  modify λ w. record w {
    bets =
        update (has_bet_id id) (λ bet. record bet { status = status; updated_at = env.now }) w.bets;
  }

pub payout_text : String → String
payout_text name = String.◌++◌ "Payout for winning bet on market \"" (String.◌++◌ name "\"")

-- The winner's payout; its reference is the bet, so that it is credited once.
pub pay_out : Env → Market → MarketResult → Bet → Action (Unit {0})
pay_out env market MarketResult.loss bet = pure tt
pay_out env market MarketResult.win bet = do
  Wallet.credit env bet.user_id bet.payout_cents bet.id (some (payout_text market.name))
  pure tt

abbrev pub payout_of : MarketResult → Bet → ℕ
payout_of MarketResult.win bet = bet.payout_cents
payout_of MarketResult.loss bet = 0

-- The body of the loop of `settle`.
pub settle_bet : Env → Market → MarketResult → Bet → Action (Unit {0})
settle_bet env market result bet = do
  pay_out env market result bet
  set_bet_status env bet.id BetStatus.settled
  publish_notification env
      (bet_settled bet.user_id bet.id market.name result (payout_of result bet))

-- The loop: what a bet raises is logged, and the next bet is processed. Each bet draws on its own
-- environment.
pub settle_bets : (Uuid → Env) → Market → MarketResult → List Bet → World → World
settle_bets envs market result [] w = w
settle_bets envs market result (bet ∷ bets) w =
    settle_bets envs market result bets (settle_bet (envs bet.id) market result bet w).1

-- Every accepted bet of the market is processed, then the market is closed.
pub settle_found : Env → (Uuid → Env) → Uuid → MarketResult → Market → Action MarketResponseDto
settle_found env envs id result market = do
  external env bet_read
  accepted ← gets λ w. select (is_live id) w.bets
  modify (settle_bets envs market result accepted)
  close_update env (with_status env market MarketStatus.settled)

pub settle : Env → (Uuid → Env) → Uuid → MarketResult → Action MarketResponseDto
settle env envs id result = do
  market ← get_market_by_id env id
  raise_if (market_status_eq market.status MarketStatus.settled) market_is_settled
  settle_found env envs id result market
