-- ===== src/Tests/Web.antt =====
-- The web client on a browser tab with a few markets.
use bolt_bet.Base.{
  ℕ, zero, suc, ◌≡◌, ◌⊎◌, ◌↔◌, ◌≤◌, ◌+◌, refl, ap, true, false, [], ◌∷◌, none, some, String, arith,
  if◌then◌else◌,
}
use bolt_bet.Base.Table.{length}
use bolt_bet.Model.Types.{Role, MarketStatus, MarketResult}
use bolt_bet.Wallet.{DepositDto}
use bolt_bet.Betting.{PlaceBetDto}
use bolt_bet.Client.{AuthUser, AuthState, initial_state, set_credentials}
use bolt_bet.Validation.{codes, deposit_dto, place_bet_dto, settle_market_dto, passed, bad_request}
use bolt_bet.Web.{admin_markets, Browser, ApiCall, call_place}
use bolt_bet.Web.Session.{content, bootstrap}
use bolt_bet.Web.Navigation.{sidebar, view}
use bolt_bet.Web.Guarded.{Settles, bootstrap-Settles, is_linked, is_detail, sidebar-view}
use bolt_bet.Web.Socket.{no_sockets}
use bolt_bet.Web.Connected.{IsCurrent, follow, sockets-IsCurrent}
use bolt_bet.Web.Money.{rounded, handle_place}
use bolt_bet.Web.Payloads.{
  deposit_body, place_body, settle_body, taken_amount, payloads_arrive, bet_payload,
}
use bolt_bet.Web.AdminMarkets.{
  suspend, act, Row, AdminPage, is_pending, shows, press, action_answered,
}
use bolt_bet.Web.Managing.{
  Step, pressed, acted, answers, start, more, in_flight, managing-IsSingle, IsOffered,
  step-IsOffered,
}
use bolt_bet.Model.Entities.{World}
use bolt_bet.Model.Action.{ok}
use bolt_bet.Auth.{can_activate, authenticate}
use bolt_bet.Wallet.Rows.{balance_of}
use bolt_bet.Wallet.Decision.{IsFunded}
use bolt_bet.Betting.{new_bet, to_bet_dto}
use bolt_bet.Betting.Cases.{saved, cached, announced}
use bolt_bet.Betting.Progress.{IsClear}
use bolt_bet.Http.{success, bet}
use bolt_bet.Controllers.{Request, logout, serve}
use bolt_bet.Web.Journey.{carrying, bet_goes_through}
use bolt_bet.Tests.Sessions.{toy, settings, next_draw, header, club, claims}
use bolt_bet.Tests.{ada, calm, cup}
use bolt_bet.Tests.Api.{packages, sent}

abbrev boss : AuthUser
boss = record { id = ada; email = []; role = Role.admin }

abbrev as_boss : AuthState
as_boss = set_credentials (b'o' ∷ []) boss initial_state

abbrev tab : Browser
tab = record {
  auth = as_boss;
  balance = record { balance_cents = 900; is_loaded = true };
  toasts = [];
  cache = [];
  page = admin_markets;
  sent = [];
  next_id = 1;
}

-- Every page settles, for a token that is not read too.
bootstrap-Settles_example :
    Settles admin_markets (bootstrap (λ token. some boss) (some (b'o' ∷ [])) initial_state)
bootstrap-Settles_example = bootstrap-Settles (λ token. some boss) (some (b'o' ∷ [])) admin_markets

sidebar-view_example :
    (is_linked admin_markets (sidebar as_boss) ≡ true)
    ↔ ((view admin_markets as_boss ≡ content) × (is_detail admin_markets ≡ false))
sidebar-view_example = sidebar-view admin_markets as_boss boss refl refl refl refl

-- The token comes, is renewed, and goes.
sockets-IsCurrent_example :
    IsCurrent none
      (follow ((true, some (b'o' ∷ [])) ∷ (true, some (b'n' ∷ [])) ∷ (true, none) ∷ []) no_sockets)
sockets-IsCurrent_example =
    sockets-IsCurrent ((true, some (b'o' ∷ [])) ∷ (true, some (b'n' ∷ [])) ∷ (true, none) ∷ [])

-- A UUID as so many letters.
abbrev letters : ℕ → String
letters zero = ""
letters (suc n) = String.◌∷◌ "a" (letters n)

length-letters : (n : ℕ) → length (codes (letters n)) ≡ n
length-letters zero = refl
length-letters (suc n) = ap suc (length-letters n)

payloads_arrive_example :
    ((dto : DepositDto)
      → deposit_dto packages (deposit_body letters dto)
        ≡ (if taken_amount dto.amount_cents then passed dto else bad_request))
    × ((dto : PlaceBetDto)
        → place_bet_dto packages (place_body letters dto)
          ≡ (if taken_amount dto.stake_cents then passed dto else bad_request))
    × ((result : MarketResult) → settle_market_dto (settle_body result) ≡ passed result)
payloads_arrive_example = payloads_arrive packages letters (λ n. ap some (length-letters n))

abbrev open_row : Row
open_row = record { id = 7; status = MarketStatus.opened }

abbrev managed : AdminPage
managed = record {
  rows = open_row ∷ [];
  settle_confirm = some 7;
  acting = none;
  settling = none;
  browser = tab;
}

suspended_press : Step managed (press open_row (act suspend) managed)
unfolding shows
suspended_press = pressed open_row (act suspend) ([], [], refl) refl refl

step-IsOffered_example :
    ((press open_row (act suspend) managed).browser.sent ≡ [])
    ⊎ ((c : ApiCall) × ((press open_row (act suspend) managed).browser.sent ≡ c ∷ [])
        × IsOffered managed c
        × (is_pending managed ≡ false))
step-IsOffered_example = step-IsOffered suspended_press

abbrev answered : AdminPage
answered = action_answered suspend true (press open_row (act suspend) managed)

answer : Step (press open_row (act suspend) managed) answered
unfolding press
answer = acted suspend true refl

-- The press and the answer, which may take long.
managing-IsSingle_example :
    (in_flight answered ≤ 1)
    × (length answered.browser.sent
        ≡ length managed.browser.sent
          + (answers answer + (answers suspended_press + 0))
          + in_flight answered)
managing-IsSingle_example =
    managing-IsSingle {s = managed} refl (more (more start suspended_press) answer)

-- The tab of Ada, who has a good token and 800 cents.
abbrev ada_tab : Browser
ada_tab = record tab { next_id = 7 }

abbrev ada_request : Request
ada_request = sent logout

let_in : can_activate toy false next_draw header club ≡ (ok (some claims), club)
unfolding can_activate authenticate
let_in = refl

is_clear : IsClear calm ada Role.user (bet_payload 40 300 7) club cup
is_clear = record {
  may_bet = refl;
  cache_up = refl;
  uncached = refl;
  bets_up = refl;
  new_request = refl;
  markets_up = refl;
  listed = refl;
  still_open = refl;
}

is_funded : IsFunded calm ada 300 7 club
is_funded = record {
  readable = refl;
  ready = record { answers = refl; new_wallet_key = refl; new_transaction_key = refl };
  distinct = (refl, tt);
  unused = refl;
  covered = ground arith;
  fits = ground arith;
}

bet_goes_through_example :
    ((handle_place 40 (rounded 300) (none, ada_tab)).1.sent
      ≡ call_place (bet_payload 40 300 7) ∷ [])
    × ((w₁ : World) × (serve packages toy settings
            (carrying letters (bet_payload 40 300 7) ada_request)
            club
          ≡ (
            success 201 (bet (to_bet_dto (new_bet calm ada (bet_payload 40 300 7) cup))),
            announced (new_bet calm ada (bet_payload 40 300 7) cup) (
                cached calm
                  (new_bet calm ada (bet_payload 40 300 7) cup)
                  (saved (new_bet calm ada (bet_payload 40 300 7) cup) w₁)),
          ))
        × (w₁.bets ≡ club.bets)
        × (balance_of ada w₁.wallets + 300 ≡ balance_of ada club.wallets))
bet_goes_through_example =
    bet_goes_through packages letters (λ n. ap some (length-letters n)) toy settings ada_request
      claims club cup 300 none ada_tab (omega arith) refl let_in is_clear is_funded refl refl refl
      refl refl
