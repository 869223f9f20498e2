-- ===== src/Settlement/Frame.antt =====
-- What the worker keeps, from what its one write keeps.
use bolt_bet.Base.{Bool, true, false}
use bolt_bet.Base.Table.{find}
use bolt_bet.Model.Types.{accepted}
use bolt_bet.Model.Entities.{BetPlacementPayload, World}
use bolt_bet.Model.Action.{Env, Error, Result, ok, err, bind}
use bolt_bet.Market.{has_bet_id}
use bolt_bet.Market.Frame.{KeptByMark}
use bolt_bet.Betting.{transition_status, is_terminal}
use bolt_bet.Betting.Frame.{transition_status-Keeps}
use bolt_bet.Betting.Transition.{is_terminal_state_cases}
use bolt_bet.Settlement.{handle_message, caught, or_nack, unless_terminal}

module _ {ℓ} (P : World → Type ℓ) (env env' : Env) (payload : BetPlacementPayload)
    (mark : KeptByMark P env payload.bet_id accepted) where
  ended : (e : Error) (b : Bool) (w : World) → P w → P (or_nack (unless_terminal e b w)).1
  ended e true w h = h
  ended e false w h = h

  after : (r : Result (Unit {0}) × World) → P r.1 → P (or_nack (caught env' payload r)).1
  after (ok done, w) h = h
  after (err e, w) h =
      is_terminal_state_cases (λ r. P (or_nack (bind r (unless_terminal e))).1) env' payload.bet_id
        w (λ e'. h) (ended e (is_terminal (find (has_bet_id payload.bet_id) w.bets)) w h)

  pub handle_message-Keeps : (w : World) → P w → P (handle_message env env' payload w).1
  unfolding handle_message
  handle_message-Keeps w h =
      after (transition_status env payload.bet_id accepted w)
        (transition_status-Keeps P env payload.bet_id accepted mark w h)
