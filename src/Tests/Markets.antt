-- ===== src/Tests/Markets.antt =====
-- The market service on the small state.
use bolt_bet.Base.{suc, ◌/◌, ◌%◌, ◌++◌, arith, ℕ, ◌≡◌, refl, some, [], ◌∷◌}
use bolt_bet.Base.Table.{find}
use bolt_bet.Model.Types.{Uuid, MarketStatus, MarketResult}
use bolt_bet.Model.Action.{Env, err, WhenOk, market_is_settled}
use bolt_bet.Market.{settle, update_status, has_bet_id}
use bolt_bet.Market.Closing.{settle_is_final, unpaid_bet_stranded}
use bolt_bet.Market.Winners.{KeptOrPaid, IsFair, settle-KeptOrPaid}
use bolt_bet.Format.{format_cents, digit}
use bolt_bet.Format.Grouping.{grouped, format_cents-grouped}
use bolt_bet.Tests.{calm, later, cut_off, shop, live_bet}

abbrev each_calm : Uuid → Env
each_calm bet_id = calm

abbrev each_cut_off : Uuid → Env
each_cut_off bet_id = cut_off

settle_is_final_example :
    WhenOk
      (λ dto w'.
        (settle later each_calm 40 MarketResult.loss w' ≡ (err market_is_settled, w'))
        × (update_status later 40 MarketStatus.opened w' ≡ (err market_is_settled, w')))
      (settle calm each_calm 40 MarketResult.win shop)
settle_is_final_example =
    settle_is_final calm later each_calm each_calm 40 MarketResult.win MarketResult.loss
      MarketStatus.opened shop refl

unpaid_bet_stranded_example :
    WhenOk
      (λ dto w'.
        (find (has_bet_id 30) w'.bets ≡ some live_bet)
        × ((result' : MarketResult)
            → settle later each_calm 40 result' w' ≡ (err market_is_settled, w')))
      (settle calm each_cut_off 40 MarketResult.win shop)
unpaid_bet_stranded_example =
    unpaid_bet_stranded calm later each_cut_off each_calm 40 live_bet shop refl refl refl

-- No payout was made yet.
shop-IsFair : IsFair shop shop.transactions
shop-IsFair b found tx credited = absurd (ground arith)

settle-KeptOrPaid_example : KeptOrPaid shop (settle calm each_calm 40 MarketResult.win shop).1
settle-KeptOrPaid_example =
    settle-KeptOrPaid calm each_calm 40 shop (refl, tt) (refl, tt) shop-IsFair

abbrev big_sum : ℕ
big_sum = 123456

format_cents-grouped_example :
    format_cents big_sum
    ≡ b'$'
      ∷ (grouped (suc (big_sum / 100)) (big_sum / 100)
          ++ (b'.' ∷ digit (big_sum % 100 / 10) ∷ digit (big_sum % 10) ∷ []))
format_cents-grouped_example = format_cents-grouped big_sum

-- $1,234.56
shown_sum : format_cents big_sum ≡ b'$' ∷ b'1' ∷ b',' ∷ b'2' ∷ b'3' ∷ b'4' ∷ b'.' ∷ b'5' ∷ b'6' ∷ []
shown_sum = format_cents-grouped big_sum
