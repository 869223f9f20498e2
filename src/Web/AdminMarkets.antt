-- ===== src/Web/AdminMarkets.antt =====
-- AdminMarketsPage: the buttons of a row, what a press does, and the answers of the two mutations.
use bolt_bet.Base.{
  ◌==◌, Bool, true, false, ◌&&◌, ◌||◌, not, is_some, List, [], ◌∷◌, Option, none, some,
}
use bolt_bet.Model.Types.{Uuid, MarketStatus, MarketResult}
use bolt_bet.Web.{
  Browser, ApiCall, success, error, fire, refetch, send_call, call_suspend, call_reopen,
  call_settle, markets_key, market_suspended, market_reopened, action_failed, settled_as,
  settlement_failed, Message,
}

-- `NonSettleAction`
pub data MarketAction : Type 0 where
  suspend reopen : MarketAction

pub data Button : Type 0 where
  act : MarketAction → Button
  ask cancel : Button
  confirm : MarketResult → Button

-- A row of the table: the status that was fetched last.
pub record Row : Type 0 where
  pub id : Uuid
  pub status : MarketStatus

-- `settleConfirm`, and the two mutations with what they were called with, while they are pending.
pub record AdminPage : Type 0 where
  pub rows : List Row
  pub settle_confirm : Option Uuid
  pub acting : Option MarketAction
  pub settling : Option MarketResult
  pub browser : Browser

abbrev pub non_settle_actions : MarketStatus → List MarketAction
non_settle_actions MarketStatus.opened = suspend ∷ []
non_settle_actions MarketStatus.suspended = reopen ∷ []
non_settle_actions MarketStatus.settled = []

abbrev pub can_settle : MarketStatus → Bool
can_settle MarketStatus.opened = true
can_settle MarketStatus.suspended = true
can_settle MarketStatus.settled = false

abbrev pub is_pending : AdminPage → Bool
is_pending s = is_some s.acting || is_some s.settling

-- `isConfirmingThisRow`
abbrev pub is_confirming : Option Uuid → Uuid → Bool
is_confirming none id = false
is_confirming (some market) id = market == id

abbrev pub action_eq : MarketAction → MarketAction → Bool
action_eq suspend suspend = true
action_eq reopen reopen = true
action_eq _ _ = false

abbrev pub includes_action : List MarketAction → MarketAction → Bool
includes_action [] action = false
includes_action (a ∷ actions) action = action_eq a action || includes_action actions action

-- The buttons that a row shows.
unfoldable pub shows : Option Uuid → Row → Button → Bool
shows settle_confirm row (act action) = includes_action (non_settle_actions row.status) action
shows settle_confirm row ask = can_settle row.status && not (is_confirming settle_confirm row.id)
shows settle_confirm row cancel = is_confirming settle_confirm row.id
shows settle_confirm row (confirm result) = is_confirming settle_confirm row.id

abbrev pub action_call : MarketAction → Uuid → ApiCall
action_call suspend id = call_suspend id
action_call reopen id = call_reopen id

-- What a press of a button does.
unfoldable pub press : Row → Button → AdminPage → AdminPage
press row (act action) s = record s {
  acting = some action;
  browser = send_call (action_call action row.id) s.browser;
}
press row ask s = record s { settle_confirm = some row.id }
press row cancel s = record s { settle_confirm = none }
press row (confirm result) s = record s {
  settling = some result;
  browser = send_call (call_settle row.id result) s.browser;
}

abbrev pub action_message : MarketAction → Message
action_message suspend = market_suspended
action_message reopen = market_reopened

-- The answer of `actionMutation`
unfoldable pub action_answered : MarketAction → Bool → AdminPage → AdminPage
action_answered action true s = record s {
  acting = none;
  browser = refetch markets_key (fire success (action_message action) s.browser);
}
action_answered action false s = record s {
  acting = none;
  browser = fire error action_failed s.browser;
}

-- The answer of `settleMutation`
unfoldable pub settle_answered : MarketResult → Bool → AdminPage → AdminPage
settle_answered result true s = record s {
  settling = none;
  settle_confirm = none;
  browser = refetch markets_key (fire success (settled_as result) s.browser);
}
settle_answered result false s = record s {
  settling = none;
  settle_confirm = none;
  browser = fire error settlement_failed s.browser;
}

-- The list has been fetched.
abbrev pub fetched : List Row → AdminPage → AdminPage
fetched rows s = record s { rows = rows }
