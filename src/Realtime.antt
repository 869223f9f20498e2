-- ===== src/Realtime.antt =====
-- RealtimeGateway and NotificationWorker: sockets join the room of their user, and the messages of
-- the notifications queue are pushed to them.
pub mod Rooms
use bolt_bet.Base.{
  ℕ, ◌==◌, Bool, true, false, not, List, [], ◌∷◌, map, Option, none, some, String, if◌then◌else◌,
}
use bolt_bet.Base.Table.{select, update}
use bolt_bet.Crypto.{Text, JwtPayload, Crypto, Draw, truthy}
use bolt_bet.Model.Types.{Uuid, MarketStatus, MarketResult}
use bolt_bet.Model.Entities.{
  NotificationPayload, bet_settled, market_updated, market_created, World,
}
use bolt_bet.Model.Action.{blacklist_read}
use bolt_bet.Auth.{is_blacklisted}

-- A connected socket and the room that it has joined.
pub record Socket : Type 0 where
  pub id : ℕ
  pub room : Option Uuid

abbrev pub has_socket_id : ℕ → Socket → Bool
has_socket_id id socket = socket.id == id

-- `socket.disconnect(true)` and `socket.join(...)`
abbrev pub disconnect : ℕ → List Socket → List Socket
disconnect id = select λ socket. not (has_socket_id id socket)

abbrev pub join : ℕ → Uuid → List Socket → List Socket
join id user_id = update (has_socket_id id) (λ socket. record socket { room = some user_id })

-- A socket that connects, with the token of its handshake.
pub record Handshake : Type 0 where
  pub draw : Draw
  pub world : World
  pub socket_id : ℕ
  pub token : Option Text

-- The blacklist check. Where Redis does not answer, the exception leaves the socket connected, in no
-- room.
abbrev pub admit : Handshake → JwtPayload → List Socket → List Socket
admit h payload sockets =
    if h.draw.fails blacklist_read
    then sockets
    else (if is_blacklisted h.draw.now payload.jti h.world.persistent
        then disconnect h.socket_id sockets
        else join h.socket_id payload.sub sockets)

abbrev pub checked : Handshake → Option JwtPayload → List Socket → List Socket
checked h none sockets = disconnect h.socket_id sockets
checked h (some payload) sockets = admit h payload sockets

abbrev pub verified : Crypto → Handshake → Option Text → Option JwtPayload
verified crypto h none = none
verified crypto h (some token) = crypto.verify h.draw.now token

pub handle_connection : Crypto → Handshake → List Socket → List Socket
handle_connection crypto h sockets =
    checked h (verified crypto h (truthy h.token))
      (record { id = h.socket_id; room = none } ∷ sockets)

-- `bet:settled`, `market:updated` and `market:created`
pub data Event : Type 0 where
  settled_event : Uuid → String → MarketResult → ℕ → Event
  updated_event : Uuid → String → MarketStatus → ℕ → Event
  created_event : Uuid → String → ℕ → Event

-- A socket and what it is sent.
abbrev pub emit : Event → List Socket → List (Socket × Event)
emit event = map λ socket. (socket, event)

abbrev pub in_room : Uuid → Socket → Bool
in_room user_id socket = elim socket.room [ none ↦ false | some u ↦ u == user_id ]

pub push_bet_settled : Uuid → Event → List Socket → List (Socket × Event)
push_bet_settled user_id event sockets = emit event (select (in_room user_id) sockets)

-- NotificationWorker.handleMessage
pub handle_notification : NotificationPayload → List Socket → List (Socket × Event)
handle_notification (bet_settled user_id bet_id market_name result payout_cents) =
    push_bet_settled user_id (settled_event bet_id market_name result payout_cents)
handle_notification (market_updated market_id name status odds_int) =
    emit (updated_event market_id name status odds_int)
handle_notification (market_created market_id name odds_int) =
    emit (created_event market_id name odds_int)

abbrev pub connect_all : Crypto → List Handshake → List Socket
connect_all crypto [] = []
connect_all crypto (h ∷ hs) = handle_connection crypto h (connect_all crypto hs)
