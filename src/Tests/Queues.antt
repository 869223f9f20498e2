-- ===== src/Tests/Queues.antt =====
-- The channels of RabbitmqService and their messages.
use bolt_bet.Base.{◌≡◌, ◌≤◌, ◌+◌, ◌⊎◌, refl, true, List, [], ◌∷◌, arith, some}
use bolt_bet.Base.Table.{All}
use bolt_bet.Model.Entities.{BetPlacementPayload, World}
use bolt_bet.Broker.{
  Broker, Channel, publisher, bet_placement_consumer, notifications_consumer, setup_all,
  empty_broker, prefetch,
}
use bolt_bet.Broker.Setups.{IsServed, setup_all-IsServed}
use bolt_bet.Broker.Delivery.{
  Consumer, Reach, here, step, lost, delivering, Step, hand_over, lose_channel,
}
use bolt_bet.Broker.Draining.{left, held}
use bolt_bet.Broker.Workers.{settlement_handler, settlement_drains}
use bolt_bet.Tests.{calm, ada, shop}

abbrev restarts : List Channel
restarts = bet_placement_consumer ∷ publisher ∷ notifications_consumer ∷ publisher ∷ []

setup_all-IsServed_example :
    (b : Broker) × (setup_all restarts empty_broker ≡ some b) × All (IsServed b) restarts
setup_all-IsServed_example = setup_all-IsServed restarts

abbrev message : BetPlacementPayload
message = record {
  bet_id = 30;
  user_id = ada;
  market_id = 40;
  odds_int = 250;
  stake_cents = 200;
  payout_cents = 500;
}

abbrev waiting : Consumer BetPlacementPayload World
waiting = record {
  ready = message ∷ [];
  unsettled = [];
  acknowledged = [];
  dead_letter = [];
  state = shop;
}

abbrev in_hand : Consumer BetPlacementPayload World
in_hand = hand_over message [] waiting

-- The message is handed over and the channel is lost.
path : Reach (prefetch bet_placement_consumer) settlement_handler waiting 1 1 (lose_channel in_hand)
path = lost (step here (delivering message [] refl (omega arith)))

settlement_drains_example :
    (1 + left (lose_channel in_hand) ≤ left waiting + 1)
    × ((left (lose_channel in_hand) ≡ 0)
        ⊎ ((u : Consumer BetPlacementPayload World) × Step
              (prefetch bet_placement_consumer)
              settlement_handler
              (lose_channel in_hand)
              u))
    × (held (λ m. true) (lose_channel in_hand) ≡ held (λ m. true) waiting)
settlement_drains_example = settlement_drains (λ m. true) calm (omega arith) path
