-- ===== src/Market/Money.antt =====
-- Settling and the wallets.
use bolt_bet.Base.{◌≡◌, refl, some, String}
use bolt_bet.Model.Types.{Uuid, MarketResult}
use bolt_bet.Model.Entities.{Market, Bet, World}
use bolt_bet.Model.Action.{Env}
use bolt_bet.Model.Keeps.{Keeps, bind-Keeps}
use bolt_bet.Wallet
use bolt_bet.Wallet.Ledger.{IsLedger, IsLedger-same, requests-IsLedger}
use bolt_bet.Market.{pay_out, settle}
use bolt_bet.Market.Frame.{settle-Keeps}

-- Settling a market as lost moves no money, whichever bets it reaches and whatever fails: the
-- wallets and their transactions stay as they were.
pub settle-loss :
    (env : Env) (envs : Uuid → Env) (id : Uuid) (w : World)
    → let w' = (settle env envs id MarketResult.loss w).1 in
      (w'.wallets ≡ w.wallets) × (w'.transactions ≡ w.transactions)
settle-loss env envs id w =
    settle-Keeps (λ v. (v.wallets ≡ w.wallets) × (v.transactions ≡ w.transactions)) env envs id
      MarketResult.loss (λ m e b v h. pays m e b v h) (λ m v h. h) (λ m v h. h) (λ e i v h. h) w
      (refl, refl)
  where
    pays :
        (m : Market) (e : Env) (b : Bet)
        → Keeps
            (λ v. (v.wallets ≡ w.wallets) × (v.transactions ≡ w.transactions))
            (pay_out e m MarketResult.loss b)
    pays m e b v h = unfold pay_out in h

-- A payout is a credit, or nothing.
pub pay_out_credited {ℓ} :
    (P : World → Type ℓ) (result : MarketResult) (m : Market) (env : Env) (bet : Bet)
    → ((text : String)
        → Keeps P (Wallet.credit env bet.user_id bet.payout_cents bet.id (some text)))
    → Keeps P (pay_out env m result bet)
unfolding pay_out
pay_out_credited P MarketResult.loss m env bet paid w h = h
pay_out_credited P MarketResult.win m env bet paid w h =
    bind-Keeps P (Wallet.credit env bet.user_id bet.payout_cents bet.id _) _ (paid _) (λ _ w h. h) w
      h

pay_out-IsLedger :
    (result : MarketResult) (m : Market) (env : Env) (bet : Bet)
    → Keeps IsLedger (pay_out env m result bet)
pay_out-IsLedger result m env bet =
    pay_out_credited IsLedger result m env bet
      λ text w h. (requests-IsLedger env bet.user_id bet.payout_cents bet.id (some text) w h).2

-- Settling a market keeps the books right, whatever fails in the middle of it.
pub settle-IsLedger :
    (env : Env) (envs : Uuid → Env) (id : Uuid) (result : MarketResult)
    → Keeps IsLedger (settle env envs id result)
settle-IsLedger env envs id result =
    settle-Keeps IsLedger env envs id result (pay_out-IsLedger result)
      (λ m w. IsLedger-same w _ refl refl) (λ m w. IsLedger-same w _ refl refl)
      (λ e i w. IsLedger-same w _ refl refl)
