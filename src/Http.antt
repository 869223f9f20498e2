-- ===== src/Http.antt =====
-- What the framework makes of a handler's result: the answers, the statuses of the exceptions, and
-- the parameters of a page.
use bolt_bet.Base.{ℕ, Option, some, String}
use bolt_bet.Model.Entities.{Body, World}
use bolt_bet.Model.Action.{
  Action, Error, Result, ok, err, raise, unavailable, out_of_range, unique_violation,
  negative_offset, email_taken, invalid_credentials, no_refresh_token, malformed_token,
  token_not_found, token_revoked, token_reused, token_expired, wrong_secret, no_access_token,
  invalid_access_token, access_token_revoked, insufficient_permissions, admin_cannot_bet,
  no_access_to_bet, market_not_found, bet_not_found, insufficient_balance, market_not_open,
  invalid_transition, market_is_settled,
}
use bolt_bet.Wallet.{BalanceResponseDto, TransactionResponseDto}
use bolt_bet.Market.{MarketResponseDto}
use bolt_bet.Betting.{BetResponseDto}
use bolt_bet.Identity.{Session}
use bolt_bet.Lists.{TransactionListResponseDto, BetListResponseDto, MarketListResponseDto}
use bolt_bet.Validation.{Piped, bad_request, thrown, passed, Query, int_param, safe_limit}

-- The body of an answer. The cookie of a session is in a header.
pub data Answer : Type 0 where
  nothing : Answer
  hello : String → Answer
  queued : Body → Answer
  session : Session → Answer
  balance : BalanceResponseDto → Answer
  transaction : TransactionResponseDto → Answer
  transactions : TransactionListResponseDto → Answer
  bet : BetResponseDto → Answer
  bets : BetListResponseDto → Answer
  market : MarketResponseDto → Answer
  markets : MarketListResponseDto → Answer

pub data Response : Type 0 where
  success : ℕ → Answer → Response
  failure : ℕ → Response

-- The status of NestJS's exceptions, and 500 for any other.
abbrev pub status_of : Error → ℕ
status_of email_taken = 409
status_of invalid_credentials = 401
status_of no_refresh_token = 401
status_of malformed_token = 401
status_of token_not_found = 401
status_of token_revoked = 401
status_of token_reused = 401
status_of token_expired = 401
status_of wrong_secret = 401
status_of no_access_token = 401
status_of invalid_access_token = 401
status_of access_token_revoked = 401
status_of insufficient_permissions = 403
status_of admin_cannot_bet = 403
status_of no_access_to_bet = 403
status_of (market_not_found id) = 404
status_of (bet_not_found id) = 404
status_of (insufficient_balance held wanted) = 422
status_of (market_not_open id found) = 422
status_of (invalid_transition from to) = 422
status_of market_is_settled = 422
status_of (unavailable c) = 500
status_of out_of_range = 500
status_of unique_violation = 500
status_of negative_offset = 500

-- The answer of a handler, with its `@HttpCode`.
abbrev pub respond : {A : Type 0} → ℕ → (A → Answer) → Result A × World → Response × World
respond code answer (ok a, w) = (success code (answer a), w)
respond code answer (err e, w) = (failure (status_of e), w)

-- What comes after a pipe.
abbrev pub piped :
    {A : Type 0} → Piped A → (A → World → Response × World) → World → Response × World
piped bad_request next w = (failure 400, w)
piped thrown next w = (failure 500, w)
piped (passed a) next w = next a w

-- A page of a list: a parameter below zero is refused by PostgreSQL as OFFSET or LIMIT. That a
-- page below zero with a limit of zero is not, is left out.
abbrev pub paged : {A : Type 0} → Option ℕ → Option ℕ → (ℕ → ℕ → Action A) → Action A
paged (some page) (some limit) read = read page (safe_limit limit)
paged _ _ read = raise negative_offset

abbrev pub read_page :
    {A : Type 0} → Query → Query → (A → Answer) → (ℕ → ℕ → Action A) → World → Response × World
read_page page limit answer read =
    piped (int_param 1 page)
      λ p. piped (int_param 20 limit) λ l w. respond 200 answer (paged p l read w)
