-- ===== src/Model/Entities.antt =====
-- The rows of the database tables (the `entities` folders), the messages on the queues, and the
-- state of the back end. A table lists its rows, the newest first. `deletedAt` is left out, since
-- no code sets it; a text that is only stored or shown is a `String`.
use bolt_bet.Base.{Bool, ℕ, String, Option, List}
use bolt_bet.Model.Types.{Uuid, Role, TransactionType, MarketStatus, MarketResult, BetStatus}

pub record Wallet : Type 0 where
  pub id : Uuid
  pub user_id : Uuid
  pub balance_cents : ℕ
  pub created_at : ℕ
  pub updated_at : ℕ

pub record WalletTransaction : Type 0 where
  pub id : Uuid
  pub wallet_id : Uuid
  pub user_id : Uuid
  pub type : TransactionType
  pub amount_cents : ℕ
  pub balance_after_cents : ℕ
  pub reference_id : Option Uuid
  pub description : Option String
  pub created_at : ℕ

pub record Market : Type 0 where
  pub id : Uuid
  pub event_id : Uuid
  pub name : String
  pub odds_int : ℕ
  pub status : MarketStatus
  pub created_at : ℕ
  pub updated_at : ℕ

pub record Bet : Type 0 where
  pub id : Uuid
  pub user_id : Uuid
  pub market_id : Uuid
  pub market_name : String
  pub odds_int : ℕ
  pub stake_cents : ℕ
  pub payout_cents : ℕ
  pub status : BetStatus
  pub reference_id : Uuid
  pub created_at : ℕ
  pub updated_at : ℕ

-- The message on the bet_placement queue.
pub record BetPlacementPayload : Type 0 where
  pub bet_id : Uuid
  pub user_id : Uuid
  pub market_id : Uuid
  pub odds_int : ℕ
  pub stake_cents : ℕ
  pub payout_cents : ℕ

-- The message on the notifications queue.
pub data NotificationPayload : Type 0 where
  bet_settled : Uuid → Uuid → String → MarketResult → ℕ → NotificationPayload
  market_updated : Uuid → String → MarketStatus → ℕ → NotificationPayload
  market_created : Uuid → String → ℕ → NotificationPayload

-- The Redis key `idempotency:bet:{userId}:{clientMutationId}` with its bet and its expiry.
pub record CacheEntry : Type 0 where
  pub user_id : Uuid
  pub client_mutation_id : Uuid
  pub bet_id : Uuid
  pub expires_at : ℕ

pub record User : Type 0 where
  pub id : Uuid
  pub email : List ℕ
  pub password_hash : ℕ
  pub role : Role
  pub created_at : ℕ
  pub updated_at : ℕ

pub record RefreshToken : Type 0 where
  pub id : Uuid
  pub family_id : Uuid
  pub token_hash : ℕ
  pub user_id : Uuid
  pub user_agent : Option String
  pub used : Bool
  pub revoked : Bool
  pub expires_at : ℕ
  pub created_at : ℕ

-- The key `blacklist:jti:{jti}` of the persistent Redis, with its expiry in milliseconds.
pub record BlacklistEntry : Type 0 where
  pub jti : Uuid
  pub expires_at : ℕ

-- A property of a JSON object, as far as the validators tell values apart: an integer that is not
-- negative, one that is, another number, a text, or anything else that is not null.
pub data Value : Type 0 where
  whole : ℕ → Value
  negative : ℕ → Value
  fraction : Value
  string : String → Value
  other : Value

-- A JSON object: its properties, each name once.
abbrev pub Body : Type 0
Body = List (String × Value)

-- What the read replica holds: some earlier state of these tables.
pub record Replica : Type 0 where
  pub wallets : List Wallet
  pub transactions : List WalletTransaction
  pub bets : List Bet

pub record World : Type 0 where
  pub wallets : List Wallet
  pub transactions : List WalletTransaction
  pub bets : List Bet
  pub markets : List Market
  pub replica : Replica
  pub users : List User
  pub refresh_tokens : List RefreshToken
  pub persistent : List BlacklistEntry
  pub ephemeral : List CacheEntry
  pub bet_placement : List BetPlacementPayload
  pub notifications : List NotificationPayload
  pub task_queue : List Body
