-- ===== src/Model/Action.antt =====
-- A service method as an action: state and exceptions. What was written before an exception stays
-- written; only a database transaction rolls back. The exceptions are NestJS's, and those that a
-- call to PostgreSQL, Redis or RabbitMQ may raise.
use bolt_bet.Base.{ℕ, ◌≡◌, refl, ◌⊎◌, inl, inr, Bool, Option, none, some, if◌then◌else◌, leb}
use bolt_bet.Model.Types.{Uuid, MarketStatus, BetStatus}
use bolt_bet.Model.Entities.{World}

-- The calls that leave the process and may fail.
pub data Call : Type 0 where
  wallet_read wallet_write wallet_transaction bet_read bet_write : Call
  market_read market_write cache_read cache_write publish : Call
  user_read user_write token_read token_write blacklist_read blacklist_write signing : Call

pub data Error : Type 0 where
  unavailable : Call → Error
  -- PostgreSQL: a value outside a column's type, a key of a unique index that is taken, or an
  -- OFFSET below zero
  out_of_range unique_violation negative_offset : Error
  -- 409
  email_taken : Error
  -- 401
  invalid_credentials no_refresh_token malformed_token token_not_found : Error
  token_revoked token_reused token_expired wrong_secret : Error
  no_access_token invalid_access_token access_token_revoked : Error
  -- 403
  insufficient_permissions : Error
  admin_cannot_bet no_access_to_bet : Error
  -- 404
  market_not_found bet_not_found : Uuid → Error
  -- 422
  insufficient_balance : ℕ → ℕ → Error
  market_not_open : Uuid → MarketStatus → Error
  invalid_transition : BetStatus → BetStatus → Error
  market_is_settled : Error

pub data Result (A : Type 0) : Type 0 where
  ok : A → Result A
  err : Error → Result A

abbrev pub Action : Type 0 → Type 0
Action A = World → Result A × World

-- What one request draws from outside: the clock, in milliseconds, the UUIDs that the database
-- generates for new rows, the order in which rows of the same time come in a list (by the rank of
-- their ids), and which of the calls fail.
pub record Env : Type 0 where
  pub now : ℕ
  pub wallet_id : Uuid
  pub transaction_id : Uuid
  pub bet_id : Uuid
  pub market_id : Uuid
  pub rank : Uuid → ℕ
  pub fails : Call → Bool

module _ {A : Type 0} where
  abbrev pub pure : A → Action A
  pure a w = (ok a, w)

  abbrev pub raise : Error → Action A
  raise e w = (err e, w)

  abbrev pub gets : (World → A) → Action A
  gets f w = (ok (f w), w)

  abbrev pub lift : Result A → Action A
  lift r w = (r, w)

  abbrev pub or_raise : Option A → Error → Action A
  or_raise none e = raise e
  or_raise (some a) e = pure a

pub Result-cases :
    {A : Type 0} (r : Result A) → ((a : A) × (r ≡ ok a)) ⊎ ((e : Error) × (r ≡ err e))
Result-cases (ok a) = inl (a, refl)
Result-cases (err e) = inr (e, refl)

-- What follows a call that ended so: an exception passes it over.
abbrev pub bind : {A B : Type 0} → Result A × World → (A → Action B) → Result B × World
bind (ok a, w) f = f a w
bind (err e, w) f = (err e, w)

-- What holds of the result and the world of a call that did not raise.
abbrev pub WhenOk {ℓ} : {A : Type 0} → (A → World → Type ℓ) → Result A × World → Type ℓ
WhenOk Q (ok a, w) = Q a w
WhenOk Q (err e, w) = Unit

pub WhenOk-map {ℓ κ} :
    {A : Type 0} {Q : A → World → Type ℓ} {R : A → World → Type κ}
    → ((a : A) (w : World) → Q a w → R a w)
    → (r : Result A × World) → WhenOk Q r
    → WhenOk R r
WhenOk-map f (ok a, w) h = f a w h
WhenOk-map f (err e, w) h = tt

infixl 5 ◌>>=◌ ◌>>◌
abbrev pub ◌>>=◌ : {A B : Type 0} → Action A → (A → Action B) → Action B
◌>>=◌ m f w = bind (m w) f

abbrev pub ◌>>◌ : {A B : Type 0} → Action A → Action B → Action B
m >> k = m >>= λ _. k

abbrev pub raise_if : Bool → Error → Action (Unit {0})
raise_if c e w = (if c then err e else ok tt, w)

-- A call that may fail, and does nothing else.
abbrev pub external : Env → Call → Action (Unit {0})
external env c = raise_if (env.fails c) (unavailable c)

abbrev pub modify : (World → World) → Action (Unit {0})
modify f w = (ok tt, f w)

abbrev pub commit_or_rollback : {A : Type 0} → World → Result A × World → Result A × World
commit_or_rollback before (ok a, w) = (ok a, w)
commit_or_rollback before (err e, w) = (err e, before)

-- A database transaction: on an exception its writes are rolled back.
abbrev pub in_transaction : {A : Type 0} → Action A → Action A
in_transaction m w = commit_or_rollback w (m w)

-- `@Column({ type: 'integer' })` is PostgreSQL's four-byte integer.
abbrev pub integer_max : ℕ
integer_max = 2147483647

abbrev pub fits_integer : ℕ → Bool
fits_integer n = leb n integer_max
