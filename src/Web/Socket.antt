-- ===== src/Web/Socket.antt =====
-- hooks/useSocket.ts: the socket of the signed-in user, and what its events do.
use bolt_bet.Base.{
  ℕ, ◌+◌, ◌==◌, Bool, not, List, [], ◌∷◌, Option, none, some, String, if◌then◌else◌,
}
use bolt_bet.Base.Table.{select}
use bolt_bet.Crypto.{Text, truthy}
use bolt_bet.Model.Types.{MarketResult}
use bolt_bet.Realtime.{Event, settled_event, updated_event, created_event}
use bolt_bet.Web.{
  Browser, fire, refetch, success, info, warning, you_won, you_lost, new_market_available,
  balance_key, bets_key, markets_key,
}

-- A socket that is open, with the token of its handshake.
pub record Connection : Type 0 where
  pub id : ℕ
  pub token : Text

-- The open sockets, `socketRef.current`, and the socket that the clean-up of the last effect closes.
pub record Sockets : Type 0 where
  pub connections : List Connection
  pub current : Option ℕ
  pub clean_up : Option ℕ
  pub next_id : ℕ

abbrev pub no_sockets : Sockets
no_sockets = record { connections = []; current = none; clean_up = none; next_id = 0 }

-- `socket.disconnect()` and `socketRef.current = null`
abbrev pub close : Option ℕ → Sockets → Sockets
close none s = s
close (some id) s = record s {
  connections = select (λ c. not (c.id == id)) s.connections;
  current = none;
}

-- The clean-up function, which runs before the next effect and when the layout is left.
abbrev pub cleaned : Sockets → Sockets
cleaned s = record (close s.clean_up s) { clean_up = none }

abbrev pub connect : Text → Sockets → Sockets
connect token s = record {
  connections = record { id = s.next_id; token = token } ∷ s.connections;
  current = some s.next_id;
  clean_up = some s.next_id;
  next_id = s.next_id + 1;
}

-- The effect, for whether the socket that is there has connected.
abbrev pub with_token : Bool → Text → Option ℕ → Sockets → Sockets
with_token is_connected token none s = connect token s
with_token is_connected token (some id) s = if is_connected then s else connect token s

abbrev pub effect : Bool → Option Text → Sockets → Sockets
effect is_connected none s = close s.current s
effect is_connected (some token) s = with_token is_connected token s.current s

-- The token has changed.
unfoldable pub token_changed : Bool → Option Text → Sockets → Sockets
token_changed is_connected token s = effect is_connected (truthy token) (cleaned s)

-- `bet:settled`, `market:updated` and `market:created`
abbrev pub announce_result : String → MarketResult → ℕ → Browser → Browser
announce_result name MarketResult.win payout = fire success (you_won name payout)
announce_result name MarketResult.loss payout = fire warning (you_lost name)

unfoldable pub on_event : Event → Browser → Browser
on_event (settled_event bet_id name result payout) b =
    refetch (bets_key 1) (refetch balance_key (announce_result name result payout b))
on_event (updated_event market_id name status odds) b = refetch markets_key b
on_event (created_event market_id name odds) b =
    fire info (new_market_available name) (refetch markets_key b)
