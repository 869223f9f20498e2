-- ===== src/Web/Payloads.antt =====
-- The JSON that lib/api sends for an amount of money, read by the pipes of the API, and what the
-- pages of MarketsPage do before it is sent.
use bolt_bet.Base.{
  ℕ, ◌≡◌, ◌≤◌, ◌<◌, ◌⊎◌, inl, inr, refl, sym, subst, ltb, leb, ◌&&◌, Bool, Bool-cases, false, [],
  ◌∷◌, Option, some, String, if◌then◌else◌, arith,
}
use bolt_bet.Model.Types.{Uuid, MarketResult}
use bolt_bet.Model.Entities.{Body, whole, string}
use bolt_bet.Wallet.{DepositDto}
use bolt_bet.Betting.{PlaceBetDto}
use bolt_bet.Validation.{
  Packages, bad_request, passed, deposit_dto, place_bet_dto, settle_market_dto,
}
use bolt_bet.Web.{
  Browser, error, call_place, send_call, draw_id, add_toast, invalid_stake, insufficient_balance,
}
use bolt_bet.Web.Money.{Parsed, not_a_number, too_small, rounded, handle_place}

-- The payloads of `walletApi.deposit`, `betsApi.place` and `marketsApi.settle`, for the texts of
-- UUIDs.
abbrev pub deposit_body : (Uuid → String) → DepositDto → Body
deposit_body text dto =
    ("amountCents", whole dto.amount_cents)
    ∷ ("clientMutationId", string (text dto.client_mutation_id))
    ∷ []

abbrev pub place_body : (Uuid → String) → PlaceBetDto → Body
place_body text dto =
    ("marketId", string (text dto.market_id))
    ∷ ("stakeCents", whole dto.stake_cents)
    ∷ ("clientMutationId", string (text dto.client_mutation_id))
    ∷ []

abbrev pub settle_body : MarketResult → Body
settle_body MarketResult.win = ("result", string "WIN") ∷ []
settle_body MarketResult.loss = ("result", string "LOSS") ∷ []

-- The amounts that the API takes: one dollar to ten thousand.
abbrev pub taken_amount : ℕ → Bool
taken_amount cents = leb 100 cents && leb cents 1000000

-- What the web client sends, the API reads back: a deposit and a bet whose UUIDs are printed in a
-- form that the validator reads arrive as they were sent if the amount is from one dollar to ten
-- thousand, and are refused with 400 otherwise; the result of a market always arrives.
pub payloads_arrive :
    (packages : Packages) (text : Uuid → String)
    → ((id : Uuid) → packages.uuid_v4 (text id) ≡ some id)
    → ((dto : DepositDto)
        → deposit_dto packages (deposit_body text dto)
          ≡ (if taken_amount dto.amount_cents then passed dto else bad_request))
      × ((dto : PlaceBetDto)
          → place_bet_dto packages (place_body text dto)
            ≡ (if taken_amount dto.stake_cents then passed dto else bad_request))
      × ((result : MarketResult) → settle_market_dto (settle_body result) ≡ passed result)
unfolding deposit_dto place_bet_dto settle_market_dto
payloads_arrive packages text printed = (deposits, bets, results)
  where
    deposits :
        (dto : DepositDto)
        → deposit_dto packages (deposit_body text dto)
          ≡ (if taken_amount dto.amount_cents then passed dto else bad_request)
    deposits dto = elim (Bool-cases (taken_amount dto.amount_cents)) [
      | inl fits ↦ rw (fits, printed dto.client_mutation_id) refl
      | inr other ↦ rw other refl
    ]

    bets :
        (dto : PlaceBetDto)
        → place_bet_dto packages (place_body text dto)
          ≡ (if taken_amount dto.stake_cents then passed dto else bad_request)
    bets dto = elim (Bool-cases (taken_amount dto.stake_cents)) [
      | inl fits ↦ rw (printed dto.market_id, fits, printed dto.client_mutation_id) refl
      | inr other ↦ rw (printed dto.market_id, other) refl
    ]

    results : (result : MarketResult) → settle_market_dto (settle_body result) ≡ passed result
    results MarketResult.win = refl
    results MarketResult.loss = refl

-- The bet on a market, with the id that is drawn for it.
abbrev pub bet_payload : Uuid → ℕ → ℕ → PlaceBetDto
bet_payload market cents id = record {
  market_id = market;
  stake_cents = cents;
  client_mutation_id = id;
}

abbrev pub placed : Uuid → ℕ → Browser → Browser
placed market cents b = draw_id (send_call (call_place (bet_payload market cents b.next_id)) b)

-- An amount that the balance covers.
pub handle_place-placed :
    (market : Uuid) (cents : ℕ) (placing : Option Uuid) (b : Browser)
    → cents ≤ b.balance.balance_cents
    → handle_place market (rounded cents) (placing, b) ≡ (some market, placed market cents b)
unfolding handle_place
handle_place-placed market cents placing b covered =
    let enough : ltb b.balance.balance_cents cents ≡ false = ground arith in rw enough refl

-- One toast of an error and nothing sent.
abbrev IsRefused : Browser → Browser → Type 0
IsRefused b after =
    (after.sent ≡ b.sent)
    × ((after.toasts ≡ add_toast b.next_id invalid_stake error b.toasts)
        ⊎ (after.toasts ≡ add_toast b.next_id insufficient_balance error b.toasts))

-- One bet sent, whose stake the balance that is shown covers.
abbrev IsSent : Uuid → Browser → Option Uuid → Browser → Type 0
IsSent market b placing after =
    (stake : ℕ) × (id : ℕ) × (stake ≤ b.balance.balance_cents)
    × (b.next_id ≤ id)
    × (id < after.next_id)
    × (after.sent ≡ call_place (bet_payload market stake id) ∷ b.sent)
    × (after.toasts ≡ b.toasts)
    × (placing ≡ some market)

-- A press of the button of a market either sends nothing and shows one error, or sends exactly one
-- bet on that market, whose stake is at most the balance that is shown and whose mutation id has not
-- been drawn before, and disables the button.
pub handle_place-Outcome :
    (market : Uuid) (input : Parsed) (placing : Option Uuid) (b : Browser)
    → IsRefused b (handle_place market input (placing, b)).1
      ⊎ IsSent market b
          (handle_place market input (placing, b)).0
          (handle_place market input (placing, b)).1
unfolding handle_place
handle_place-Outcome market not_a_number placing b = inl (refl, inl refl)
handle_place-Outcome market too_small placing b = inl (refl, inl refl)
handle_place-Outcome market (rounded cents) placing b =
    elim (Bool-cases (ltb b.balance.balance_cents cents)) [
      | inl short ↦ rw short (inl (refl, inr refl))
      | inr covered ↦ inr (sent_stake (ground arith))
    ]
  where
    sent_stake :
        cents ≤ b.balance.balance_cents
        → IsSent market b
            (handle_place market (rounded cents) (placing, b)).0
            (handle_place market (rounded cents) (placing, b)).1
    sent_stake covered =
        subst (λ s. IsSent market b s.0 s.1)
          (sym (handle_place-placed market cents placing b covered))
          (cents, b.next_id, covered, omega arith, omega arith, refl, refl, refl)
