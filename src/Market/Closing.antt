-- ===== src/Market/Closing.antt =====
-- A settled market stays settled, and what that means for a bet that could not be paid.
use bolt_bet.Base.{
  ◌≡◌, refl, Bool-cases, ◌⊎◌, inl, inr, true, false, some, List, [], ◌∷◌, arith, ◌==◌, ap, subst,
  ==_iff, sym, ◌∙◌,
}
use bolt_bet.Base.Table.{find, select, update, find-update_self, find-update_other, find_holds}
use bolt_bet.Model.Types.{Uuid, MarketStatus, MarketResult}
use bolt_bet.Model.Entities.{Market, Bet, World}
use bolt_bet.Model.Action.{
  Env, err, WhenOk, WhenOk-map, market_read, market_write, publish, wallet_read, market_is_settled,
}
use bolt_bet.Market.{
  MarketResponseDto, get_market_by_id, settle, settle_bet, settle_bets, update_status, close_update,
  save_market, publish_notification, with_status, find_market, has_market_id, is_live, has_bet_id,
  pay_out, payout_text,
}
use bolt_bet.Market.Lookup.{settle_cases, settle_found_cases}
use bolt_bet.Market.Frame.{settle_bet-Keeps, settle_bets-Keeps, pay_out-Keeps}
use bolt_bet.Wallet.Effect.{credit_down}

module _ (env : Env) (id : Uuid) (w : World) (m : Market) (up : env.fails market_read ≡ false)
    (found : find_market id w.markets ≡ some m) (closed : m.status ≡ MarketStatus.settled) where
  settled_refuses :
      (envs : Uuid → Env) (result : MarketResult) (status : MarketStatus)
      → (settle env envs id result w ≡ (err market_is_settled, w))
        × (update_status env id status w ≡ (err market_is_settled, w))
  unfolding settle update_status get_market_by_id
  settled_refuses envs result status = (rw (up, found, closed), rw (up, found, closed))

-- `close_update` that answers has written the row.
row_saved :
    (m m' : Market) (id : Uuid) (ms : List Market)
    → find_market id ms ≡ some m
    → m'.id ≡ m.id
    → find_market id (update (has_market_id m'.id) (λ row. m') ms) ≡ some m'
row_saved m m' id ms found same =
    let e : m'.id ≡ id = same ∙ (==_iff m.id id).0 (find_holds (has_market_id id) ms found) in
    subst (λ k. find_market id (update (has_market_id k) (λ row. m') ms) ≡ some m') (sym e)
      (find-update_self (has_market_id id) m' ms found ((==_iff m'.id id).1 e))

close_update-saved :
    (env : Env) (m m' : Market) (id : Uuid) (w : World)
    → find_market id w.markets ≡ some m
    → m'.id ≡ m.id
    → WhenOk
        (λ dto w'. (find_market id w'.markets ≡ some m') × (w'.bets ≡ w.bets))
        (close_update env m' w)
unfolding close_update save_market publish_notification
close_update-saved env m m' id w found same = elim (Bool-cases (env.fails market_write)) [
  | inl down ↦ rw (down, close_update) tt
  | inr up ↦ elim (Bool-cases (env.fails publish)) [
    | inl down ↦ rw (up, down, close_update) tt
    | inr up' ↦ rw (up, up', close_update) (row_saved m m' id w.markets found same, refl)
  ]
]

-- The key and the status of the row that is saved.
settled_row :
    (env : Env) (m : Market)
    → ((with_status env m MarketStatus.settled).id ≡ m.id)
      × ((with_status env m MarketStatus.settled).status ≡ MarketStatus.settled)
settled_row env m = by_status m.status refl
  where
    by_status :
        (status : MarketStatus)
        → m.status ≡ status
        → ((with_status env m MarketStatus.settled).id ≡ m.id)
          × ((with_status env m MarketStatus.settled).status ≡ MarketStatus.settled)
    by_status MarketStatus.opened e = rw e (refl, refl)
    by_status MarketStatus.suspended e = rw e (refl, refl)
    by_status MarketStatus.settled e = rw e (refl, refl)

-- What a settlement that answers has done: the market is settled, and the bets are as the loop has
-- left them.
settle_ends :
    (env : Env) (envs : Uuid → Env) (id : Uuid) (result : MarketResult) (w : World)
    → WhenOk
        (λ dto w'.
          (m : Market) × (find_market id w'.markets ≡ some m)
          × (m.status ≡ MarketStatus.settled)
          × ((n : Market) × (w'.bets
                ≡ (settle_bets envs n result (select (is_live id) w.bets) w).bets)))
        (settle env envs id result w)
settle_ends env envs id result w =
    settle_cases (WhenOk Ends) env envs id result w (λ e. tt)
      λ m found still_open.
        settle_found_cases (WhenOk Ends) env envs id result m w (λ e. tt)
          (WhenOk-map
            (λ dto w' h.
              (with_status env m MarketStatus.settled, h.0, (settled_row env m).1, (m, h.1)))
            (close_update env (with_status env m MarketStatus.settled) _)
            (close_update-saved env m (with_status env m MarketStatus.settled) id _
              (markets_kept m found) (settled_row env m).0))
  where
    Ends : MarketResponseDto → World → Type 0
    Ends dto w' =
        (m : Market) × (find_market id w'.markets ≡ some m)
        × (m.status ≡ MarketStatus.settled)
        × ((n : Market) × (w'.bets
              ≡ (settle_bets envs n result (select (is_live id) w.bets) w).bets))

    markets_kept :
        (m : Market)
        → find_market id w.markets ≡ some m
        → find_market id (settle_bets envs m result (select (is_live id) w.bets) w).markets ≡ some m
    markets_kept m found =
        settle_bets-Keeps (λ v. find_market id v.markets ≡ some m) m result
          (pay_out-Keeps (λ v. find_market id v.markets ≡ some m) (λ ws ts v h. h) result m)
          (λ n v h. h) (λ e i v h. h) envs (select (is_live id) w.bets) w found

-- A settlement that answers is final: as long as the markets can be read, every later settlement
-- and every later change of the status is refused, and changes nothing.
pub settle_is_final :
    (env env' : Env) (envs envs' : Uuid → Env) (id : Uuid) (result result' : MarketResult)
    (status : MarketStatus) (w : World)
    → env'.fails market_read ≡ false
    → WhenOk
        (λ dto w'.
          (settle env' envs' id result' w' ≡ (err market_is_settled, w'))
          × (update_status env' id status w' ≡ (err market_is_settled, w')))
        (settle env envs id result w)
settle_is_final env env' envs envs' id result result' status w up =
    WhenOk-map (λ dto w' h. settled_refuses env' id w' h.0 up h.1 h.2 envs' result' status)
      (settle env envs id result w) (settle_ends env envs id result w)

-- The body of the loop raises where the look-up of an earlier payout fails, and a bet whose turn
-- it is not is not touched.
settle_bet_down :
    (env : Env) (m : Market) (b : Bet) (w : World)
    → env.fails wallet_read ≡ true
    → (settle_bet env m MarketResult.win b w).1 ≡ w
unfolding settle_bet pay_out
settle_bet_down env m b w down = rw (
  credit_down env b.user_id b.payout_cents b.id (some (payout_text m.name)) w down,
  settle_bet,
  pay_out,
)

settle_bet_other :
    (env : Env) (m : Market) (result : MarketResult) (x b : Bet) (w : World)
    → (x.id == b.id) ≡ false
    → find (has_bet_id b.id) w.bets ≡ some b
    → find (has_bet_id b.id) (settle_bet env m result x w).1.bets ≡ some b
settle_bet_other env m result x b w other =
    settle_bet-Keeps P m result (pay_out-Keeps P (λ ws ts v h. h) result m) (λ n v h. h) env x
      (λ v h.
        find-update_other (has_bet_id b.id) (has_bet_id x.id) _ v.bets (λ y hit. ground arith)
          (λ y hit. ground arith)
        ∙ h)
      w
  where
    P : World → Type 0
    P v = find (has_bet_id b.id) v.bets ≡ some b

settle_bets-unpaid :
    (envs : Uuid → Env) (m : Market) (b : Bet) (bets : List Bet) (w : World)
    → (envs b.id).fails wallet_read ≡ true
    → find (has_bet_id b.id) w.bets ≡ some b
    → find (has_bet_id b.id) (settle_bets envs m MarketResult.win bets w).bets ≡ some b
unfolding settle_bets
settle_bets-unpaid envs m b [] w down h = h
settle_bets-unpaid envs m b (x ∷ bets) w down h =
    settle_bets-unpaid envs m b bets _ down (one (Bool-cases (x.id == b.id)))
  where
    one :
        ((x.id == b.id) ≡ true) ⊎ ((x.id == b.id) ≡ false)
        → find (has_bet_id b.id) (settle_bet (envs x.id) m MarketResult.win x w).1.bets ≡ some b
    one (inl same) =
        rw
          (settle_bet_down (envs x.id) m x w
            (subst (λ k. (envs k).fails wallet_read ≡ true) (sym ((==_iff x.id b.id).0 same)) down))
          h
    one (inr other) = settle_bet_other (envs x.id) m MarketResult.win x b w other h

-- An accepted bet for whose payout the wallet could not be read is stranded by a settlement as won
-- that answers: the bet is left as it was, the market is settled, and as long as the markets can be
-- read no later settlement reaches the bet, since each is refused and changes nothing.
pub unpaid_bet_stranded :
    (env env' : Env) (envs envs' : Uuid → Env) (id : Uuid) (b : Bet) (w : World)
    → env'.fails market_read ≡ false
    → (envs b.id).fails wallet_read ≡ true
    → find (has_bet_id b.id) w.bets ≡ some b
    → WhenOk
        (λ dto w'.
          (find (has_bet_id b.id) w'.bets ≡ some b)
          × ((result' : MarketResult)
              → settle env' envs' id result' w' ≡ (err market_is_settled, w')))
        (settle env envs id MarketResult.win w)
unpaid_bet_stranded env env' envs envs' id b w up down h =
    WhenOk-map
      (λ dto w' e. (
        ap (find (has_bet_id b.id)) e.3.1
            ∙ settle_bets-unpaid envs e.3.0 b (select (is_live id) w.bets) w down h,
        λ result'. (settled_refuses env' id w' e.0 up e.1 e.2 envs' result' MarketStatus.opened).0,
      ))
      (settle env envs id MarketResult.win w) (settle_ends env envs id MarketResult.win w)
