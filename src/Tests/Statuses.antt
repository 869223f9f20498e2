-- ===== src/Tests/Statuses.antt =====
-- The statuses of bets, the settlement worker and the reading of a bet on the small state.
use bolt_bet.Base.{ℕ, ◌≡◌, ◌≤◌, refl, some, List, [], ◌∷◌}
use bolt_bet.Base.Table.{find}
use bolt_bet.Model.Types.{BetStatus, pending, cancelled}
use bolt_bet.Model.Entities.{World, Bet, BetPlacementPayload}
use bolt_bet.Market.{has_bet_id}
use bolt_bet.Betting.History.{Order, obey_all, Follows, obey_all-Follows}
use bolt_bet.Settlement.{Inbox, Delivery, consume_all}
use bolt_bet.Settlement.Accepting.{Disposed, consume_all-Disposed}
use bolt_bet.Tests.{calm, later, ada, shop, live_bet}

abbrev orders : List Order
orders =
    record { env = calm; bet_id = 30; status = BetStatus.settled }
    ∷ record { env = later; bet_id = 30; status = cancelled }
    ∷ []

obey_all-Follows_example :
    (n : ℕ) × (c : Bet) × (find (has_bet_id 30) (obey_all orders shop).bets ≡ some c)
    × Follows live_bet n c
    × (n ≤ 2)
obey_all-Follows_example = obey_all-Follows orders 30 live_bet shop refl

abbrev dead_bet : Bet
dead_bet = record live_bet { status = cancelled }

abbrev notice : BetPlacementPayload
notice = record {
  bet_id = 30;
  user_id = ada;
  market_id = 40;
  odds_int = 250;
  stake_cents = 200;
  payout_cents = 500;
}

abbrev fresh_shop : World
fresh_shop = record shop { bets = record live_bet { status = pending } ∷ [] }

-- The message comes twice.
abbrev deliveries : List Delivery
deliveries =
    record { env = calm; env' = calm; payload = notice }
    ∷ record { env = later; env' = later; payload = notice }
    ∷ []

abbrev inbox : Inbox
inbox = record { world = fresh_shop; queue = []; acknowledged = []; dead_letter = [] }

consume_all-Disposed_example : Disposed deliveries inbox (consume_all deliveries inbox)
consume_all-Disposed_example = consume_all-Disposed deliveries inbox tt
