-- ===== src/Tests/Bets.antt =====
-- The betting service and the settlement worker on the small state.
use bolt_bet.Base.{◌≡◌, ◌+◌, inl, refl, [], ◌∷◌, arith}
use bolt_bet.Model.Types.{Role}
use bolt_bet.Model.Entities.{World, Market}
use bolt_bet.Model.Action.{Error, ok, err, WhenOk}
use bolt_bet.Wallet.Rows.{balance_of}
use bolt_bet.Betting.{PlaceBetDto, place_bet, to_bet_dto, new_bet}
use bolt_bet.Wallet.Decision.{IsFunded}
use bolt_bet.Betting.Cases.{saved, cached, announced}
use bolt_bet.Betting.Placement.{Answers, place_bet-Answers}
use bolt_bet.Betting.Progress.{IsClear, place_bet_completes, stake_lost, old_debit_covers_any_stake}
use bolt_bet.Betting.Repeat.{IsCoherent, place_bet_twice}
use bolt_bet.Tests.{calm, later, ada, shop, cup, live_bet, stake_row}

abbrev slip : PlaceBetDto
slip = record { market_id = 40; stake_cents = 300; client_mutation_id = 7 }

-- The same mutation id, another stake.
abbrev slip_again : PlaceBetDto
slip_again = record { market_id = 40; stake_cents = 900; client_mutation_id = 7 }

shop-IsCoherent : IsCoherent shop
shop-IsCoherent u ref e entry = absurd (cc)

place_bet-Answers_example :
    WhenOk (Answers calm ada slip shop) (place_bet calm ada Role.user slip shop)
place_bet-Answers_example = place_bet-Answers calm ada Role.user slip shop (refl, tt)

place_bet_twice_example :
    WhenOk
      (λ answer w'. place_bet later ada Role.user slip_again w' ≡ (ok answer, w'))
      (place_bet calm ada Role.user slip shop)
place_bet_twice_example =
    place_bet_twice calm later ada Role.user slip slip_again shop (refl, tt) shop-IsCoherent refl
      refl refl

slip-IsClear : IsClear calm ada Role.user slip shop cup
slip-IsClear = record {
  may_bet = refl;
  cache_up = refl;
  uncached = refl;
  bets_up = refl;
  new_request = refl;
  markets_up = refl;
  listed = refl;
  still_open = refl;
}

slip-IsFunded : IsFunded calm ada 300 7 shop
slip-IsFunded = record {
  readable = refl;
  ready = record { answers = refl; new_wallet_key = refl; new_transaction_key = refl };
  distinct = (refl, tt);
  unused = refl;
  covered = ground arith;
  fits = ground arith;
}

place_bet_completes_example :
    (w₁ : World) × (place_bet calm ada Role.user slip shop ≡ (
      ok (to_bet_dto (new_bet calm ada slip cup)),
      announced
          (new_bet calm ada slip cup)
          (cached calm (new_bet calm ada slip cup) (saved (new_bet calm ada slip cup) w₁)),
    ))
    × (w₁.bets ≡ live_bet ∷ [])
    × (balance_of ada w₁.wallets + 300 ≡ 800)
place_bet_completes_example =
    place_bet_completes calm ada Role.user slip shop cup slip-IsClear slip-IsFunded refl refl refl
      refl refl

-- Odds at which a payout of 300 cents does not fit its column.
abbrev steep : Market
steep = record cup { odds_int = 1000000000 }

abbrev steep_shop : World
steep_shop = record shop { markets = steep ∷ [] }

stake_lost_example :
    (e : Error) × (w₁ : World) × (place_bet calm ada Role.user slip steep_shop ≡ (err e, w₁))
    × (w₁.bets ≡ live_bet ∷ [])
    × (balance_of ada w₁.wallets + 300 ≡ 800)
stake_lost_example =
    stake_lost calm ada Role.user slip steep_shop steep
      (record {
        may_bet = refl;
        cache_up = refl;
        uncached = refl;
        bets_up = refl;
        new_request = refl;
        markets_up = refl;
        listed = refl;
        still_open = refl;
      })
      (record {
        readable = refl;
        ready = record { answers = refl; new_wallet_key = refl; new_transaction_key = refl };
        distinct = (refl, tt);
        unused = refl;
        covered = ground arith;
        fits = ground arith;
      })
      (inl refl)

-- Ada's debit of 200 cents whose bet was never stored.
abbrev orphan_shop : World
orphan_shop = record shop { bets = [] }

abbrev big_slip : PlaceBetDto
big_slip = record { market_id = 40; stake_cents = 70000; client_mutation_id = 6 }

old_debit_covers_any_stake_example : place_bet calm ada Role.user big_slip orphan_shop ≡ (
  ok (to_bet_dto (new_bet calm ada big_slip cup)),
  announced (new_bet calm ada big_slip cup) (
      cached calm
        (new_bet calm ada big_slip cup)
        (saved (new_bet calm ada big_slip cup) orphan_shop)),
)
old_debit_covers_any_stake_example =
    old_debit_covers_any_stake calm ada Role.user big_slip orphan_shop cup stake_row
      (record {
        may_bet = refl;
        cache_up = refl;
        uncached = refl;
        bets_up = refl;
        new_request = refl;
        markets_up = refl;
        listed = refl;
        still_open = refl;
      })
      refl refl refl refl refl refl refl
