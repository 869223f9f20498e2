-- ===== src/Web/Money.antt =====
-- The pages that handle money: useWallet, the deposit of WalletPage, the bet of MarketsPage and the
-- form of NewMarketPage.
use bolt_bet.Base.{ℕ, ◌==◌, ltb, Bool, true, false, Option, none, some, String, if◌then◌else◌}
use bolt_bet.Crypto.{Text}
use bolt_bet.Model.Types.{Uuid}
use bolt_bet.Validation.{trim}
use bolt_bet.Web.{
  Page, Browser, success, error, fire, refetch, send_call, go_to, draw_id, set_balance,
  call_deposit, call_place, call_create, bet_placed, place_failed, invalid_stake,
  insufficient_balance, deposited, deposit_failed, invalid_amount, market_created, create_failed,
  invalid_odds, balance_key, transactions_key, bets_key, markets_key,
}

-- What `parseFloat` makes of an input: NaN, a number below the least one that the form allows, or
-- another one, of which `Math.round(… * 100)` is kept. The least allowed number is 1.01 for odds, and
-- above zero for an amount.
pub data Parsed : Type 0 where
  not_a_number too_small : Parsed
  rounded : ℕ → Parsed

-- The effect of `useWallet`, when the balance has been fetched.
abbrev pub sync_balance : Option ℕ → Browser → Browser
sync_balance none b = b
sync_balance (some balance_cents) b = record b { balance = set_balance balance_cents b.balance }

-- `handleDeposit`, up to the answer
pub handle_deposit : Parsed → Browser → Browser
handle_deposit (rounded cents) b =
    draw_id
      (send_call (call_deposit (record { amount_cents = cents; client_mutation_id = b.next_id })) b)
handle_deposit _ b = fire error invalid_amount b

-- The rest of `handleDeposit`, after `onSuccess` of `depositMutation`.
pub deposit_answered : ℕ → Bool → Browser → Browser
deposit_answered cents true b =
    fire success (deposited cents) (refetch transactions_key (refetch balance_key b))
deposit_answered cents false b = fire error deposit_failed b

-- `handlePlace`, up to the answer; with the browser goes `placingFor`.
abbrev place_rounded : Uuid → ℕ → Option Uuid × Browser → Option Uuid × Browser
place_rounded market cents (placing, b) =
    if ltb b.balance.balance_cents cents then (placing, fire error insufficient_balance b) else (
      some market,
      draw_id (
          send_call
            (call_place
              (record { market_id = market; stake_cents = cents; client_mutation_id = b.next_id }))
            b),
    )

unfoldable pub handle_place : Uuid → Parsed → Option Uuid × Browser → Option Uuid × Browser
handle_place market (rounded cents) s = place_rounded market cents s
handle_place market _ (placing, b) = (placing, fire error invalid_stake b)

-- `onSuccess` with the payout of the bet, and `onError` of `betMutation`; the inputs are left out.
pub place_answered : Option ℕ → Option Uuid × Browser → Option Uuid × Browser
place_answered (some payout) (placing, b) =
    (none, refetch balance_key (refetch (bets_key 1) (fire success (bet_placed payout) b)))
place_answered none (placing, b) = (none, fire error place_failed b)

-- The button of a market can be pressed.
abbrev pub can_bet : Uuid → Option Uuid → Bool
can_bet market none = true
can_bet market (some id) = if id == market then false else true

-- `handleSubmit` of NewMarketPage
pub handle_create : Text → Text → Parsed → Browser → Browser
handle_create event name (rounded odds) =
    send_call (call_create (record { event_id = trim event; name = trim name; odds_int = odds }))
handle_create event name _ = fire error invalid_odds

-- `onSuccess` with the name of the market, and `onError` of `createMutation`
pub create_answered : Option String → Browser → Browser
create_answered (some name) b =
    go_to Page.admin_markets (refetch markets_key (fire success (market_created name) b))
create_answered none b = fire error create_failed b
