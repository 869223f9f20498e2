-- ===== src/Lists/Frame.antt =====
-- Reading a list changes nothing.
use bolt_bet.Base.{ℕ, ◌≡◌, Option, arith}
use bolt_bet.Model.Types.{Uuid, MarketStatus}
use bolt_bet.Model.Entities.{World}
use bolt_bet.Model.Action.{Env}
use bolt_bet.Lists.{find_and_count, get_transactions, get_bets, list}

module _ (env : Env) (page limit : ℕ) (w : World) where
  pub get_transactions_same : (u : Uuid) → (get_transactions env u page limit w).1 ≡ w
  unfolding get_transactions find_and_count
  get_transactions_same u = ground arith

  pub get_bets_same : (u : Uuid) → (get_bets env u page limit w).1 ≡ w
  unfolding get_bets find_and_count
  get_bets_same u = ground arith

  pub list_same : (status : Option MarketStatus) → (list env page limit status w).1 ≡ w
  unfolding list find_and_count
  list_same status = ground arith
