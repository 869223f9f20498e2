-- ===== src/Settlement.antt =====
-- SettlementWorker: a message of the bet_placement queue accepts its bet. The consumer of
-- RabbitmqService hands the messages over one by one (prefetch 1), acknowledges them or moves them
-- to the dead letter queue.
pub mod Accepting
pub mod Frame
use bolt_bet.Base.{Bool, true, false, List, [], ◌∷◌, if◌then◌else◌}
use bolt_bet.Model.Types.{accepted}
use bolt_bet.Model.Entities.{BetPlacementPayload, World}
use bolt_bet.Model.Action.{Action, Env, Error, Result, ok, err, pure, raise, bind}
use bolt_bet.Betting.{transition_status, is_terminal_state}

-- `ack()` and `nack(requeue)`
pub data Verdict : Type 0 where
  ack : Verdict
  nack : Bool → Verdict

-- The catch clause: a bet that is in a terminal state is acknowledged, else the exception goes on.
abbrev pub unless_terminal : Error → Bool → Action Verdict
unless_terminal e true = pure ack
unless_terminal e false = raise e

abbrev pub caught : Env → BetPlacementPayload → Result (Unit {0}) × World → Result Verdict × World
caught env payload (ok done, w) = (ok ack, w)
caught env payload (err e, w) = bind (is_terminal_state env payload.bet_id w) (unless_terminal e)

-- The outer catch clause.
abbrev pub or_nack : Result Verdict × World → Verdict × World
or_nack (ok v, w) = (v, w)
or_nack (err e, w) = (nack false, w)

-- The two reads of the bet may fail apart, so each has its environment.
pub handle_message : Env → Env → BetPlacementPayload → World → Verdict × World
handle_message env env' payload w =
    or_nack (caught env' payload (transition_status env payload.bet_id accepted w))

-- The consumer's side of the queue: the messages that were acknowledged, and those on
-- bet_placement_dead_letter.
pub record Inbox : Type 0 where
  pub world : World
  pub queue : List BetPlacementPayload
  pub acknowledged : List BetPlacementPayload
  pub dead_letter : List BetPlacementPayload

pub record Delivery : Type 0 where
  pub env : Env
  pub env' : Env
  pub payload : BetPlacementPayload

-- What the broker does with the verdict: `nack(true)` puts the message back, `nack(false)` sends it
-- to the dead letter exchange.
abbrev pub dispose : BetPlacementPayload → Inbox → Verdict × World → Inbox
dispose p i (ack, w) = record i { world = w; acknowledged = p ∷ i.acknowledged }
dispose p i (nack true, w) = record i { world = w; queue = p ∷ i.queue }
dispose p i (nack false, w) = record i { world = w; dead_letter = p ∷ i.dead_letter }

-- `ch.consume`, for one message and for a sequence of them.
abbrev pub consume : Delivery → Inbox → Inbox
consume d i = dispose d.payload i (handle_message d.env d.env' d.payload i.world)

abbrev pub consume_all : List Delivery → Inbox → Inbox
consume_all [] i = i
consume_all (d ∷ ds) i = consume_all ds (consume d i)
