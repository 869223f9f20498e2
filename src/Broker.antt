-- ===== src/Broker.antt =====
-- RabbitMQService: the channels that it opens, each with a setup that declares exchanges, queues and
-- bindings, and is run again whenever the channel reconnects; and its consumers. What the broker
-- does with a declaration, a message and a verdict is RabbitMQ's.
pub mod Topology
pub mod Setups
pub mod Delivery
pub mod Draining
pub mod Workers
use bolt_bet.Base.{
  ℕ, Bool, true, false, ◌&&◌, ltb, List, [], ◌∷◌, ◌++◌, Option, none, some, if◌then◌else◌,
}
use bolt_bet.Base.Table.{length}
use bolt_bet.Settlement.{Verdict, ack, nack}

-- The names of queues and exchanges.
pub data Name : Type 0 where
  task_queue bet_placement bet_placement_dlx bet_placement_dead_letter : Name
  notifications notifications_dlx notifications_dead_letter : Name

abbrev pub name_eq : Name → Name → Bool
name_eq task_queue task_queue = true
name_eq bet_placement bet_placement = true
name_eq bet_placement_dlx bet_placement_dlx = true
name_eq bet_placement_dead_letter bet_placement_dead_letter = true
name_eq notifications notifications = true
name_eq notifications_dlx notifications_dlx = true
name_eq notifications_dead_letter notifications_dead_letter = true
name_eq _ _ = false

-- `x-dead-letter-exchange` and `x-dead-letter-routing-key`
pub record DeadLetter : Type 0 where
  pub exchange : Name
  pub routing_key : Name

abbrev pub same_arguments : Option DeadLetter → Option DeadLetter → Bool
same_arguments none none = true
same_arguments (some d) (some d') =
    name_eq d.exchange d'.exchange && name_eq d.routing_key d'.routing_key
same_arguments _ _ = false

-- What the broker knows: its exchanges, its queues with their arguments, and which queue is bound to
-- which exchange under which key.
pub record Broker : Type 0 where
  pub exchanges : Name → Bool
  pub queues : Name → Option (Option DeadLetter)
  pub bindings : Name → Name → Name → Bool

abbrev pub empty_broker : Broker
empty_broker = record { exchanges = λ n. false; queues = λ n. none; bindings = λ q e k. false }

-- A declaration: `none` is an error, which closes the channel.
abbrev pub Declaration : Type 0
Declaration = Broker → Option Broker

infixl 5 ◌>>◌
abbrev pub then_ : Option Broker → Declaration → Option Broker
then_ none k = none
then_ (some b) k = k b

abbrev pub ◌>>◌ : Declaration → Declaration → Declaration
(m >> k) b = then_ (m b) k

abbrev pub assert_exchange : Name → Declaration
assert_exchange n b =
    some (record b { exchanges = λ m. if name_eq n m then true else b.exchanges m })

abbrev pub assert_existing : Name → Option DeadLetter → Option (Option DeadLetter) → Declaration
assert_existing n arguments none b =
    some (record b { queues = λ m. if name_eq n m then some arguments else b.queues m })
assert_existing n arguments (some old) b = if same_arguments old arguments then some b else none

-- A queue that is there with other arguments is an error.
abbrev pub assert_queue : Name → Option DeadLetter → Declaration
assert_queue n arguments b = assert_existing n arguments (b.queues n) b

abbrev pub is_declared : Option (Option DeadLetter) → Bool
is_declared none = false
is_declared (some arguments) = true

-- A queue or an exchange that is not there is an error.
abbrev pub bind_queue : Name → Name → Name → Declaration
bind_queue queue exchange key b =
    if is_declared (b.queues queue) && b.exchanges exchange
    then some (record b {
      bindings = λ q e k.
          if name_eq queue q && name_eq exchange e && name_eq key k then true else b.bindings q e k;
    })
    else none

-- A queue with its dead letter exchange and its dead letter queue.
abbrev pub with_dead_letter : Name → Name → Name → Declaration
with_dead_letter queue dlx dead_letter =
    assert_exchange dlx
    >> assert_queue dead_letter none
    >> bind_queue dead_letter dlx queue
    >> assert_queue queue (some (record { exchange = dlx; routing_key = queue }))

abbrev pub bet_placement_setup : Declaration
bet_placement_setup = with_dead_letter bet_placement bet_placement_dlx bet_placement_dead_letter

abbrev pub notifications_setup : Declaration
notifications_setup = with_dead_letter notifications notifications_dlx notifications_dead_letter

abbrev pub publisher_setup : Declaration
publisher_setup = assert_queue task_queue none >> bet_placement_setup >> notifications_setup

abbrev pub task_consumer_setup : Declaration
task_consumer_setup = assert_queue task_queue none

pub data Channel : Type 0 where
  publisher task_consumer bet_placement_consumer notifications_consumer : Channel

abbrev pub setup : Channel → Declaration
setup publisher = publisher_setup
setup task_consumer = task_consumer_setup
setup bet_placement_consumer = bet_placement_setup
setup notifications_consumer = notifications_setup

-- The setups of the channels as they connect, and reconnect.
abbrev pub setup_all : List Channel → Declaration
setup_all [] b = some b
setup_all (c ∷ cs) b = then_ (setup c b) (setup_all cs)

-- Whether what a queue of these arguments rejects ends up in another queue.
abbrev pub rejects_to : Broker → Name → Option (Option DeadLetter) → Bool
rejects_to b target none = false
rejects_to b target (some none) = false
rejects_to b target (some (some d)) = b.bindings target d.exchange d.routing_key

abbrev pub dead_letters_to : Broker → Name → Name → Bool
dead_letters_to b queue target = rejects_to b target (b.queues queue)

-- `ch.prefetch(…)`
abbrev pub prefetch : Channel → ℕ
prefetch notifications_consumer = 5
prefetch _ = 1
