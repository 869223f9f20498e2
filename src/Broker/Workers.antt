-- ===== src/Broker/Workers.antt =====
-- The two workers as consumers: SettlementWorker on bet_placement, NotificationWorker on
-- notifications.
use bolt_bet.Base.{
  ℕ, ◌+◌, ◌*◌, ◌≤◌, ◌≡◌, ◌≢◌, ◌⊎◌, Bool, true, false, List, ◌++◌, Option, some, arith,
  if◌then◌else◌,
}
use bolt_bet.Base.Table.{length}
use bolt_bet.Model.Entities.{BetPlacementPayload, NotificationPayload, World}
use bolt_bet.Model.Action.{Env}
use bolt_bet.Settlement.{Verdict, ack, nack, handle_message}
use bolt_bet.Settlement.Accepting.{handle_message-final}
use bolt_bet.Realtime.{Socket, Event, handle_notification}
use bolt_bet.Broker.{prefetch, bet_placement_consumer, notifications_consumer}
use bolt_bet.Broker.Delivery.{Consumer, settled_by, Step, Reach}
use bolt_bet.Broker.Draining.{held, left, Reach-held, Reach-ends}

-- `SettlementWorker.handleMessage` settles its message on every path.
abbrev pub settlement_handler : Env × Env → BetPlacementPayload → World → Option Verdict × World
settlement_handler (env, env') payload w =
    (some (handle_message env env' payload w).0, (handle_message env env' payload w).1)

-- The sockets that are connected, and whether the emit raises.
pub record Push : Type 0 where
  pub sockets : List Socket
  pub raises : Bool

-- `NotificationWorker.handleMessage`, with what has been emitted as its state.
pub notification_handler :
    Push → NotificationPayload → List (Socket × Event) → Option Verdict × List (Socket × Event)
notification_handler e payload sent =
    if e.raises
    then (some (nack false), sent)
    else (some ack, handle_notification payload e.sockets ++ sent)

notification_final :
    (e : Push) (payload : NotificationPayload) (sent : List (Socket × Event))
    → settled_by (notification_handler e payload sent).0 ≢ nack true
unfolding notification_handler
notification_final e payload sent h = ground arith

-- However the deliveries, the ends of the handlers and the losses of the channel fall, and whatever
-- fails in a handler: the settlement worker takes two steps at most for each message that is ready,
-- one for each that is unsettled and one more for each loss of the channel; until no message is
-- left there is a next step; and of every kind of message there are as many ready, unsettled,
-- acknowledged and in the dead letter queue as at the start.
pub settlement_drains :
    (p : BetPlacementPayload → Bool) (env : Env) {q t : Consumer BetPlacementPayload World}
    {n c : ℕ}
    → length q.unsettled ≤ prefetch bet_placement_consumer
    → Reach (prefetch bet_placement_consumer) settlement_handler q n c t
    → (n + left t ≤ left q + c)
      × ((left t ≡ 0)
          ⊎ ((u : Consumer BetPlacementPayload World) × Step
                (prefetch bet_placement_consumer)
                settlement_handler
                t
                u))
      × (held p t ≡ held p q)
settlement_drains p env h r =
    let (sum, next) =
      Reach-ends 1 settlement_handler (λ e m s. handle_message-final e.0 e.1 m s) (env, env)
        (omega arith) h r in
    (omega (arith, sum), next, Reach-held 1 settlement_handler p r)

-- The same of the notification worker, with five more steps for each loss of the channel, since it
-- may have five messages unsettled.
pub notifications_drain :
    (p : NotificationPayload → Bool) (e : Push)
    {q t : Consumer NotificationPayload (List (Socket × Event))} {n c : ℕ}
    → length q.unsettled ≤ prefetch notifications_consumer
    → Reach (prefetch notifications_consumer) notification_handler q n c t
    → (n + left t ≤ left q + c * 5)
      × ((left t ≡ 0)
          ⊎ ((u : Consumer NotificationPayload (List (Socket × Event))) × Step
                (prefetch notifications_consumer)
                notification_handler
                t
                u))
      × (held p t ≡ held p q)
notifications_drain p e h r =
    let (sum, next) = Reach-ends 5 notification_handler notification_final e (omega arith) h r in
    (sum, next, Reach-held 5 notification_handler p r)
