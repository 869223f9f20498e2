-- ===== src/Market/Frame.antt =====
-- What `settle` keeps, from what its writes keep.
use bolt_bet.Base.{◌≡◌, arith, Bool-cases, inl, inr, List, [], ◌∷◌, some}
use bolt_bet.Base.Table.{select, update}
use bolt_bet.Model.Types.{Uuid, MarketStatus, MarketResult, BetStatus, market_status_eq}
use bolt_bet.Model.Entities.{Market, Bet, Wallet, WalletTransaction, World, NotificationPayload}
use bolt_bet.Model.Action.{Action, Env, bind, pure, bet_read, market_is_settled}
use bolt_bet.Model.Keeps.{Keeps, bind-Keeps, guard-Keeps}
use bolt_bet.Wallet
use bolt_bet.Wallet.Frame.{credit-Keeps}
use bolt_bet.Market.Lookup.{get_market_by_id_cases}
use bolt_bet.Market.{
  publish_notification, save_market, close_update, updated_message, get_market_by_id,
  set_bet_status, settle_bet, settle_bets, settle_found, settle, update_status, pay_out,
  create_market, insert_market, get_market, CreateMarketDto, has_market_id, has_bet_id, is_live,
  with_status, payout_text,
}

module _ {ℓ} (P : World → Type ℓ) where
  -- The writes other than to the wallet, as conditions on `P`.
  abbrev pub KeptByNotes : Type ℓ
  KeptByNotes =
      (m : NotificationPayload) (w : World)
      → P w
      → P (record w { notifications = m ∷ w.notifications })

  abbrev pub KeptBySaves : Type ℓ
  KeptBySaves =
      (m : Market) (w : World)
      → P w
      → P (record w { markets = update (has_market_id m.id) (λ row. m) w.markets })

  abbrev pub KeptByMark : Env → Uuid → BetStatus → Type ℓ
  KeptByMark env id status =
      (w : World)
      → P w
      → P (record w {
        bets =
            update (has_bet_id id) (λ bet. record bet { status = status; updated_at = env.now })
              w.bets;
      })

  -- A payout writes to the wallet's tables only.
  pub pay_out-Keeps :
      ((ws : List Wallet) (ts : List WalletTransaction) (w : World)
        → P w
        → P (record w { wallets = ws; transactions = ts }))
      → (result : MarketResult) (m : Market) (env : Env) (bet : Bet)
      → Keeps P (pay_out env m result bet)
  unfolding pay_out
  pay_out-Keeps own MarketResult.loss m env bet w h = h
  pay_out-Keeps own MarketResult.win m env bet w h =
      bind-Keeps P
        (Wallet.credit env bet.user_id bet.payout_cents bet.id (some (payout_text m.name)))
        (λ _. pure tt) (credit-Keeps P own env bet.user_id bet.payout_cents bet.id _) (λ _ v k. k) w
        h

  pub publish_notification-Keeps :
      (env : Env) (m : NotificationPayload) → KeptByNotes → Keeps P (publish_notification env m)
  unfolding publish_notification
  publish_notification-Keeps env m notes = guard-Keeps P _ _ _ (notes m)

  pub close_update-Keeps :
      (env : Env) (m : Market) → KeptByNotes → KeptBySaves → Keeps P (close_update env m)
  unfolding close_update save_market
  close_update-Keeps env m notes saves =
      bind-Keeps P (save_market env m) _ (guard-Keeps P _ _ _ (saves m)) λ _.
        bind-Keeps P (publish_notification env (updated_message m)) _
          (publish_notification-Keeps env _ notes) (λ _ w h. h)

  pub get_market_by_id-Keeps :
      {B : Type 0} (env : Env) (id : Uuid) (f : Market → Action B)
      → ((m : Market) → Keeps P (f m))
      → Keeps P (λ w. bind (get_market_by_id env id w) f)
  get_market_by_id-Keeps env id f kf w h =
      get_market_by_id_cases (λ r. P (bind r f).1) env id w (λ e. h) (λ m e. kf m w h)

  pub update_status-Keeps :
      (env : Env) (id : Uuid) (status : MarketStatus)
      → KeptByNotes
      → KeptBySaves
      → Keeps P (update_status env id status)
  unfolding update_status
  update_status-Keeps env id status notes saves =
      get_market_by_id-Keeps env id _
        λ m. guard-Keeps P _ _ _ (close_update-Keeps env _ notes saves)

  module _ (market : Market) (result : MarketResult)
      (pays : (env : Env) (bet : Bet) → Keeps P (pay_out env market result bet))
      (notes : KeptByNotes) where
    pub settle_bet-Keeps :
        (env : Env) (bet : Bet)
        → KeptByMark env bet.id BetStatus.settled
        → Keeps P (settle_bet env market result bet)
    unfolding settle_bet set_bet_status
    settle_bet-Keeps env bet mark =
        bind-Keeps P (pay_out env market result bet) _ (pays env bet) λ _.
          bind-Keeps P (set_bet_status env bet.id BetStatus.settled) _ (guard-Keeps P _ _ _ mark)
            (λ _. publish_notification-Keeps env _ notes)

    pub settle_bets-Keeps :
        ((env : Env) (id : Uuid) → KeptByMark env id BetStatus.settled)
        → (envs : Uuid → Env) (bets : List Bet) (w : World) → P w
        → P (settle_bets envs market result bets w)
    unfolding settle_bets
    settle_bets-Keeps marks envs [] w h = h
    settle_bets-Keeps marks envs (bet ∷ bets) w h =
        settle_bets-Keeps marks envs bets _
          (settle_bet-Keeps (envs bet.id) bet (marks (envs bet.id) bet.id) w h)

  module _ (env : Env) (envs : Uuid → Env) (id : Uuid) (result : MarketResult)
      (pays : (market : Market) (env : Env) (bet : Bet) → Keeps P (pay_out env market result bet))
      (notes : KeptByNotes) (saves : KeptBySaves)
      (marks : (env : Env) (id : Uuid) → KeptByMark env id BetStatus.settled) where
    settle_found-Keeps : (m : Market) → Keeps P (settle_found env envs id result m)
    unfolding settle_found
    settle_found-Keeps m w h = elim (Bool-cases (env.fails bet_read)) [
      | inl down ↦ rw (down, settle_found) h
      | inr up ↦
          rw (up, settle_found)
            (close_update-Keeps env (with_status env m MarketStatus.settled) notes saves _ (
              settle_bets-Keeps m result (pays m) notes marks envs (select (is_live id) w.bets) w
                h))
    ]

    pub settle-Keeps : Keeps P (settle env envs id result)
    unfolding settle
    settle-Keeps = get_market_by_id-Keeps env id _ λ m.
        guard-Keeps P (market_status_eq m.status MarketStatus.settled) market_is_settled
          (settle_found env envs id result m) (settle_found-Keeps m)

-- A new market is written to the markets and announced.
pub create_market_frame :
    (env : Env) (dto : CreateMarketDto) (w : World)
    → let w' = (create_market env dto w).1 in
      w' ≡ record w { markets = w'.markets; notifications = w'.notifications }
unfolding create_market insert_market publish_notification
create_market_frame env dto w = ground arith

pub get_market_same : (env : Env) (id : Uuid) (w : World) → (get_market env id w).1 ≡ w
unfolding get_market get_market_by_id
get_market_same env id w = ground arith
