-- ===== src/Betting/Placement.antt =====
-- What `placeBet` does when it answers, when it refuses, and what it keeps.
use bolt_bet.Base.{◌+◌, ◌≡◌, ◌≢◌, ◌⊎◌, inl, inr, refl, true, some, ◌∷◌, arith, ap}
use bolt_bet.Base.Table.{taken}
use bolt_bet.Model.Types.{Uuid, Role, MarketStatus, TransactionType}
use bolt_bet.Model.Entities.{Bet, Market, World}
use bolt_bet.Model.Action.{Env, Error, Result, err, WhenOk, admin_cannot_bet}
use bolt_bet.Wallet.{of_typed_reference}
use bolt_bet.Wallet.Rows.{IsDistinct, balance_of}
use bolt_bet.Wallet.Posted.{requested-Moves}
use bolt_bet.Wallet.Ledger.{IsLedger, IsLedger-same, posted-IsLedger}
use bolt_bet.Market.{find_market}
use bolt_bet.Betting.{
  PlaceBetDto, BetResponseDto, to_bet_dto, new_bet, record_bet, place_new_bet, place_bet,
  placement_of,
}
use bolt_bet.Betting.Cases.{record_bet_cases, place_new_bet_cases, Earlier, place_bet_cases}

-- The stake has left the user's balance now, or a debit under the reference stood there before.
abbrev pub Debited : Uuid → PlaceBetDto → World → World → Type 0
Debited u dto w w' =
    (balance_of u w'.wallets + dto.stake_cents ≡ balance_of u w.wallets)
    ⊎ ((w'.wallets ≡ w.wallets)
        × (taken (of_typed_reference u dto.client_mutation_id TransactionType.debit) w.transactions
            ≡ true))

-- The new bet is first in the table and pending, with the odds of the market and the rounded-down
-- payout, it is on the queue, and it has been debited.
pub record Placed (env : Env) (u : Uuid) (dto : PlaceBetDto) (w w' : World)
    (answer : BetResponseDto) : Type 0 where
  pub market : Market
  pub listed : find_market dto.market_id w.markets ≡ some market
  pub still_open : market.status ≡ MarketStatus.opened
  pub answered : answer ≡ to_bet_dto (new_bet env u dto market)
  pub stored : w'.bets ≡ new_bet env u dto market ∷ w.bets
  pub queued : w'.bet_placement ≡ placement_of (new_bet env u dto market) ∷ w.bet_placement
  pub debited : Debited u dto w w'

abbrev pub Answers : Env → Uuid → PlaceBetDto → World → BetResponseDto → World → Type 0
Answers env u dto w answer w' =
    ((bet : Bet) × Earlier env u dto.client_mutation_id w bet
      × (answer ≡ to_bet_dto bet)
      × (w' ≡ w))
    ⊎ Placed env u dto w w' answer

place_new_bet-Answers :
    (env : Env) (u : Uuid) (dto : PlaceBetDto) (w : World)
    → IsDistinct w.wallets
    → WhenOk (Answers env u dto w) (place_new_bet env u dto w)
place_new_bet-Answers env u dto w d =
    place_new_bet_cases (WhenOk (Answers env u dto w)) env u dto w d (λ e. tt)
      λ m found still_open. (
        λ tx old.
            record_bet_cases (WhenOk (Answers env u dto w)) env (new_bet env u dto m) w (λ e. tt)
              λ fits free. (
                λ e. tt,
                λ e. tt,
                inr (record {
                  market = m;
                  listed = found;
                  still_open = still_open;
                  answered = refl;
                  stored = refl;
                  queued = refl;
                  debited = inr (refl, ground arith);
                }),
              ),
        λ tx w₁ new p q.
            record_bet_cases (WhenOk (Answers env u dto w)) env (new_bet env u dto m) w₁ (λ e. tt)
              λ fits free. (
                λ e. tt,
                λ e. tt,
                inr (record {
                  market = m;
                  listed = found;
                  still_open = still_open;
                  answered = refl;
                  stored = ap (λ (z : World). new_bet env u dto m ∷ z.bets) p.frame;
                  queued =
                      ap (λ (z : World). placement_of (new_bet env u dto m) ∷ z.bet_placement)
                        p.frame;
                  debited = inl (requested-Moves env u _ _ _ _ tx w w₁ p q);
                }),
              ),
      )

-- Where no user has two wallets, an answer of `placeBet` is the bet of an earlier request under
-- that reference, and nothing has changed; or it is a new pending bet on an open market, at the
-- market's odds and with the payout rounded down, stored and on the queue, whose stake has been
-- debited, now or by an earlier debit under the reference.
pub place_bet-Answers :
    (env : Env) (u : Uuid) (role : Role) (dto : PlaceBetDto) (w : World)
    → IsDistinct w.wallets
    → WhenOk (Answers env u dto w) (place_bet env u role dto w)
place_bet-Answers env u role dto w d =
    place_bet_cases (WhenOk (Answers env u dto w)) env u role dto w (λ e. tt)
      (λ bet e. inl (bet, e, refl, refl)) (λ may none_yet. place_new_bet-Answers env u dto w d)

-- An administrator is refused before anything is read; and, where no user has two wallets, a market
-- that is not open, or unknown, takes no new bet: for a request that has no bet yet the answer is
-- an exception. In both cases nothing has changed.
pub place_bet_refused :
    (env : Env) (u : Uuid) (role : Role) (dto : PlaceBetDto) (w : World)
    → IsDistinct w.wallets
    → ((m : Market) → find_market dto.market_id w.markets ≡ some m → m.status ≢ MarketStatus.opened)
    → ((bet : Bet) → ¬ Earlier env u dto.client_mutation_id w bet)
    → (place_bet env u Role.admin dto w ≡ (err admin_cannot_bet, w))
      × ((e : Error) × (place_bet env u role dto w ≡ (err e, w)))
unfolding place_bet
place_bet_refused env u role dto w d closed unknown = (refl, refused)
  where
    IsRefused : Result BetResponseDto × World → Type 0
    IsRefused r = (e : Error) × (r ≡ (err e, w))

    refused : IsRefused (place_bet env u role dto w)
    refused =
        place_bet_cases IsRefused env u role dto w (λ e. (e, refl))
          (λ bet old. absurd (unknown bet old))
          λ may none_yet.
            place_new_bet_cases IsRefused env u dto w d (λ e. (e, refl))
              λ m found still_open. absurd (closed m found still_open)

record_bet-IsLedger :
    (env : Env) (bet : Bet) (w : World) → IsLedger w → IsLedger (record_bet env bet w).1
record_bet-IsLedger env bet w h =
    record_bet_cases (λ r. IsLedger r.1) env bet w (λ e. h)
      λ fits free. (
        λ e. IsLedger-same w _ refl refl h,
        λ e. IsLedger-same w _ refl refl h,
        IsLedger-same w _ refl refl h,
      )

-- Placing a bet keeps the books right, whatever the outcome and whatever fails on the way.
pub place_bet-IsLedger :
    (env : Env) (u : Uuid) (role : Role) (dto : PlaceBetDto) (w : World)
    → IsLedger w
    → IsLedger (place_bet env u role dto w).1
place_bet-IsLedger env u role dto w h =
    place_bet_cases (λ r. IsLedger r.1) env u role dto w (λ e. h) (λ bet old. h)
      λ may none_yet.
        place_new_bet_cases (λ r. IsLedger r.1) env u dto w h.distinct (λ e. h)
          λ m found still_open. (
            λ tx old. record_bet-IsLedger env _ w h,
            λ tx w₁ new p q. record_bet-IsLedger env _ w₁ (posted-IsLedger tx w w₁ p h),
          )
