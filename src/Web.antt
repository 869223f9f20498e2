-- ===== src/Web.antt =====
-- The state of a browser tab of the web client (apps/web): the slices WalletSlice and UiSlice of the
-- store beside that of Client, the cache of the query client, the page, and the calls that were sent
-- to the API. The UUIDs of crypto.randomUUID are numbers that are counted up.
pub mod Session
pub mod Navigation
pub mod Queries
pub mod Socket
pub mod Toasts
pub mod Forms
pub mod Money
pub mod AdminMarkets
pub mod Guarded
pub mod Payloads
pub mod Connected
pub mod Managing
pub mod Journey
use text.Mathlib.Text.{◌==◌ as str_eq}
use bolt_bet.Base.{
  ℕ, ◌+◌, ◌==◌, Bool, true, false, ◌&&◌, not, List, [], ◌∷◌, ◌++◌, Option, none, some, String,
  if◌then◌else◌,
}
use bolt_bet.Base.Table.{select, update}
use bolt_bet.Crypto.{Text}
use bolt_bet.Model.Types.{Uuid, MarketResult}
use bolt_bet.Wallet.{DepositDto}
use bolt_bet.Betting.{PlaceBetDto}
use bolt_bet.Identity.{Credentials}
use bolt_bet.Client.{AuthState}

-- The pages.
pub data Page : Type 0 where
  root login register forgot_password reset_password : Page
  dashboard markets bets wallet admin_markets new_market : Page
  -- the page of a bet, by the text of its id
  bet_detail : Text → Page

pub data ToastVariant : Type 0 where
  success error info warning : ToastVariant

-- What a toast says, with what is put into its text.
pub data Message : Type 0 where
  bet_placed : ℕ → Message
  place_failed invalid_stake insufficient_balance : Message
  deposited : ℕ → Message
  deposit_failed invalid_amount : Message
  market_suspended market_reopened action_failed : Message
  settled_as : MarketResult → Message
  settlement_failed : Message
  market_created : String → Message
  create_failed invalid_odds : Message
  passwords_differ password_short account_created : Message
  api_message : Text → Message
  invalid_login password_reset reset_failed : Message
  you_won : String → ℕ → Message
  you_lost : String → Message
  new_market_available : String → Message

pub record Toast : Type 0 where
  pub id : ℕ
  pub message : Message
  pub variant : ToastVariant

-- WalletSlice; the displayed text is left out.
pub record WalletState : Type 0 where
  pub balance_cents : ℕ
  pub is_loaded : Bool

abbrev pub set_balance : ℕ → WalletState → WalletState
set_balance balance_cents state = record { balance_cents = balance_cents; is_loaded = true }

abbrev pub clear_balance : WalletState → WalletState
clear_balance state = record { balance_cents = 0; is_loaded = false }

-- UiSlice: `addToast` and `removeToast`
abbrev pub add_toast : ℕ → Message → ToastVariant → List Toast → List Toast
add_toast id message variant toasts =
    toasts ++ (record { id = id; message = message; variant = variant } ∷ [])

abbrev pub remove_toast : ℕ → List Toast → List Toast
remove_toast id = select λ t. not (t.id == id)

-- A part of a query's key.
pub data Part : Type 0 where
  word : String → Part
  number : ℕ → Part

abbrev pub part_eq : Part → Part → Bool
part_eq (word s) (word t) = str_eq s t
part_eq (number n) (number m) = n == m
part_eq _ _ = false

abbrev pub Key : Type 0
Key = List Part

-- `queryKeys`
abbrev pub balance_key : Key
balance_key = word "wallet" ∷ word "balance" ∷ []

abbrev pub transactions_key : Key
transactions_key = word "wallet" ∷ word "transactions" ∷ []

abbrev pub bets_key : ℕ → Key
bets_key page = word "bets" ∷ word "list" ∷ number page ∷ []

abbrev pub bet_key : Uuid → Key
bet_key id = word "bets" ∷ word "detail" ∷ number id ∷ []

abbrev pub markets_key : Key
markets_key = word "markets" ∷ word "list" ∷ []

abbrev pub admin_markets_key : Key
admin_markets_key = markets_key ++ (word "admin" ∷ [])

pub record Query : Type 0 where
  pub key : Key
  pub is_stale : Bool

-- `invalidateQueries({ queryKey })` reaches every query whose key starts with that key.
abbrev pub starts_with : Key → Key → Bool
starts_with [] key = true
starts_with (p ∷ ps) [] = false
starts_with (p ∷ ps) (k ∷ ks) = part_eq p k && starts_with ps ks

abbrev pub invalidate : Key → List Query → List Query
invalidate key = update (λ q. starts_with key q.key) (λ q. record q { is_stale = true })

-- What the form of a new market sends.
pub record CreateMarketPayload : Type 0 where
  pub event_id : Text
  pub name : Text
  pub odds_int : ℕ

-- The functions of lib/api, with their payloads.
pub data ApiCall : Type 0 where
  call_login call_register : Credentials → ApiCall
  call_logout : ApiCall
  call_request_reset : Text → ApiCall
  call_reset : Text → Text → ApiCall
  call_deposit : DepositDto → ApiCall
  call_place : PlaceBetDto → ApiCall
  call_create : CreateMarketPayload → ApiCall
  call_suspend call_reopen : Uuid → ApiCall
  call_settle : Uuid → MarketResult → ApiCall

pub record Browser : Type 0 where
  pub auth : AuthState
  pub balance : WalletState
  pub toasts : List Toast
  pub cache : List Query
  pub page : Page
  pub sent : List ApiCall
  pub next_id : ℕ

-- `toast.success(…)` and the others.
abbrev pub fire : ToastVariant → Message → Browser → Browser
fire variant message b = record b {
  toasts = add_toast b.next_id message variant b.toasts;
  next_id = b.next_id + 1;
}

abbrev pub refetch : Key → Browser → Browser
refetch key b = record b { cache = invalidate key b.cache }

-- `router.push` and `router.replace`
abbrev pub go_to : Page → Browser → Browser
go_to page b = record b { page = page }

abbrev pub send_call : ApiCall → Browser → Browser
send_call c b = record b { sent = c ∷ b.sent }

-- `generateMutationId()`
abbrev pub draw_id : Browser → Browser
draw_id b = record b { next_id = b.next_id + 1 }
