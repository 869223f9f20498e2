-- ===== src/Betting.antt =====
-- BettingService: a bet is placed once for a client's mutation id, against an open market, after its
-- stake has been debited; and the status of a bet follows a table of transitions.
pub mod Cases
pub mod Placement
pub mod Progress
pub mod Repeat
pub mod Transition
pub mod History
pub mod Access
pub mod Frame
use Prim.Native.String
use bolt_bet.Base.{
  ℕ, ◌*◌, ◌+◌, ◌/◌, ◌==◌, ltb, Bool, true, false, ◌&&◌, ◌||◌, not, List, [], ◌∷◌, Option, none,
  some, String, if◌then◌else◌,
}
use bolt_bet.Base.Table.{find, select, update, taken}
use bolt_bet.Model.Types.{
  Uuid, Role, BetStatus, pending, accepted, void, cancelled, role_eq, status_eq,
}
use bolt_bet.Model.Entities.{Market, Bet, BetPlacementPayload, CacheEntry, World}
use bolt_bet.Model.Action.{
  Action, Env, pure, gets, or_raise, ◌>>=◌, ◌>>◌, raise_if, external, modify, bet_read, bet_write,
  cache_read, cache_write, publish, out_of_range, unique_violation, bet_not_found, admin_cannot_bet,
  no_access_to_bet, invalid_transition, fits_integer,
}
use bolt_bet.Format.{format_cents, format_odds}
use bolt_bet.Wallet
use bolt_bet.Market.{assert_market_open, has_bet_id, set_bet_status}

-- `ALLOWED_TRANSITIONS`
abbrev pub allowed_transitions : BetStatus → List BetStatus
allowed_transitions pending = accepted ∷ void ∷ cancelled ∷ []
allowed_transitions accepted = BetStatus.settled ∷ void ∷ cancelled ∷ []
allowed_transitions BetStatus.settled = []
allowed_transitions void = []
allowed_transitions cancelled = []

-- `TERMINAL_STATES`
abbrev pub terminal_states : List BetStatus
terminal_states = BetStatus.settled ∷ void ∷ cancelled ∷ []

-- `includes` of an array, `has` of a set.
abbrev pub includes : List BetStatus → BetStatus → Bool
includes [] status = false
includes (s ∷ ss) status = status_eq s status || includes ss status

pub record BetResponseDto : Type 0 where
  pub id : Uuid
  pub market_id : Uuid
  pub market_name : String
  pub odds_int : ℕ
  pub odds_display : List ℕ
  pub stake_cents : ℕ
  pub stake_display : List ℕ
  pub payout_cents : ℕ
  pub payout_display : List ℕ
  pub status : BetStatus
  pub reference_id : Uuid
  pub created_at : ℕ
  pub updated_at : ℕ

pub record PlaceBetDto : Type 0 where
  pub market_id : Uuid
  pub stake_cents : ℕ
  pub client_mutation_id : Uuid

unfoldable pub to_bet_dto : Bet → BetResponseDto
to_bet_dto bet = record {
  id = bet.id;
  market_id = bet.market_id;
  market_name = bet.market_name;
  odds_int = bet.odds_int;
  odds_display = format_odds bet.odds_int;
  stake_cents = bet.stake_cents;
  stake_display = format_cents bet.stake_cents;
  payout_cents = bet.payout_cents;
  payout_display = format_cents bet.payout_cents;
  status = bet.status;
  reference_id = bet.reference_id;
  created_at = bet.created_at;
  updated_at = bet.updated_at;
}

-- `where: { userId, referenceId }` on bets
abbrev pub of_request : Uuid → Uuid → Bet → Bool
of_request user_id reference_id bet = bet.user_id == user_id && bet.reference_id == reference_id

-- `idempotency:bet:{userId}:{clientMutationId}`
abbrev pub has_key : Uuid → Uuid → CacheEntry → Bool
has_key user_id client_mutation_id e =
    e.user_id == user_id && e.client_mutation_id == client_mutation_id

-- `IDEMPOTENCY_TTL`, in seconds.
abbrev pub idempotency_ttl : ℕ
idempotency_ttl = 60

-- GET: an entry that has expired is not there.
abbrev pub unexpired : ℕ → Option CacheEntry → Option Uuid
unexpired now none = none
unexpired now (some e) = if ltb now e.expires_at then some e.bet_id else none

pub cached_bet_id : Env → Uuid → Uuid → Action (Option Uuid)
cached_bet_id env user_id client_mutation_id = do
  external env cache_read
  gets λ w. unexpired env.now (find (has_key user_id client_mutation_id) w.ephemeral)

abbrev pub cache_entry : Env → Uuid → Uuid → Uuid → CacheEntry
cache_entry env user_id client_mutation_id bet_id = record {
  user_id = user_id;
  client_mutation_id = client_mutation_id;
  bet_id = bet_id;
  expires_at = env.now + idempotency_ttl * 1000;
}

-- SET … EX: the entry takes the place of any other under its key.
abbrev pub set_entry : CacheEntry → List CacheEntry → List CacheEntry
set_entry e es = e ∷ select (λ old. not (has_key e.user_id e.client_mutation_id old)) es

pub cache_bet : Env → Uuid → Uuid → Uuid → Action (Unit {0})
cache_bet env user_id client_mutation_id bet_id = do
  external env cache_write
  modify λ w. record w {
    ephemeral = set_entry (cache_entry env user_id client_mutation_id bet_id) w.ephemeral;
  }

pub find_bet : Env → (Bet → Bool) → Action (Option Bet)
find_bet env test = do external env bet_read; gets λ w. find test w.bets

-- The bet of the cached id, if there is one.
abbrev pub find_cached : Env → Option Uuid → Action (Option Bet)
find_cached env none = pure none
find_cached env (some id) = find_bet env (has_bet_id id)

-- floor(stakeCents × oddsInt / 100)
abbrev pub payout_cents_of : ℕ → ℕ → ℕ
payout_cents_of stake_cents odds_int = stake_cents * odds_int / 100

abbrev pub new_bet : Env → Uuid → PlaceBetDto → Market → Bet
new_bet env user_id dto market = record {
  id = env.bet_id;
  user_id = user_id;
  market_id = dto.market_id;
  market_name = market.name;
  odds_int = market.odds_int;
  stake_cents = dto.stake_cents;
  payout_cents = payout_cents_of dto.stake_cents market.odds_int;
  status = pending;
  reference_id = dto.client_mutation_id;
  created_at = env.now;
  updated_at = env.now;
}

abbrev pub bet_fits : Bet → Bool
bet_fits bet =
    fits_integer bet.odds_int && fits_integer bet.stake_cents && fits_integer bet.payout_cents

-- The key of a bet and its reference are unique, over all users.
abbrev pub bet_taken : Bet → List Bet → Bool
bet_taken bet = taken λ row. row.id == bet.id || row.reference_id == bet.reference_id

-- INSERT of a bet.
pub save_bet : Env → Bet → Action (Unit {0})
save_bet env bet = do
  external env bet_write
  raise_if (not (bet_fits bet)) out_of_range
  clash ← gets λ w. bet_taken bet w.bets
  raise_if clash unique_violation
  modify λ w. record w { bets = bet ∷ w.bets }

abbrev pub placement_of : Bet → BetPlacementPayload
placement_of bet = record {
  bet_id = bet.id;
  user_id = bet.user_id;
  market_id = bet.market_id;
  odds_int = bet.odds_int;
  stake_cents = bet.stake_cents;
  payout_cents = bet.payout_cents;
}

pub publish_bet_placement : Env → BetPlacementPayload → Action (Unit {0})
publish_bet_placement env message = do
  external env publish
  modify λ w. record w { bet_placement = message ∷ w.bet_placement }

pub bet_text : String → String
bet_text name = String.◌++◌ "Bet on market " name

-- Steps 5 to 7, after the debit: the bet is stored, cached and announced.
pub record_bet : Env → Bet → Action BetResponseDto
record_bet env bet = do
  save_bet env bet
  cache_bet env bet.user_id bet.reference_id bet.id
  publish_bet_placement env (placement_of bet)
  pure (to_bet_dto bet)

-- Steps 2 to 4: the market is open, and the stake is debited.
pub place_new_bet : Env → Uuid → PlaceBetDto → Action BetResponseDto
place_new_bet env user_id dto = do
  market ← assert_market_open env dto.market_id
  Wallet.debit env user_id dto.stake_cents dto.client_mutation_id (some (bet_text market.name))
  record_bet env (new_bet env user_id dto market)

-- `if (existing) return this.toDto(existing)`
abbrev pub bet_or : Option Bet → Action BetResponseDto → Action BetResponseDto
bet_or none act = act
bet_or (some bet) act = pure (to_bet_dto bet)

pub place_bet : Env → Uuid → Role → PlaceBetDto → Action BetResponseDto
place_bet env user_id user_role dto = do
  raise_if (role_eq user_role Role.admin) admin_cannot_bet
  cached_id ← cached_bet_id env user_id dto.client_mutation_id
  cached ← find_cached env cached_id
  bet_or cached do
    existing ← find_bet env (of_request user_id dto.client_mutation_id)
    bet_or existing (place_new_bet env user_id dto)

-- Reads the replica. The owner and an administrator may see a bet.
pub get_bet_by_id : Env → Uuid → Role → Uuid → Action BetResponseDto
get_bet_by_id env requesting_user_id requesting_user_role bet_id = do
  external env bet_read
  found ← gets λ w. find (has_bet_id bet_id) w.replica.bets
  bet ← or_raise found (bet_not_found bet_id)
  raise_if
      (not (bet.user_id == requesting_user_id) && not (role_eq requesting_user_role Role.admin))
      no_access_to_bet
  pure (to_bet_dto bet)

pub transition_status : Env → Uuid → BetStatus → Action (Unit {0})
transition_status env bet_id new_status = do
  found ← find_bet env (has_bet_id bet_id)
  bet ← or_raise found (bet_not_found bet_id)
  raise_if (not (includes (allowed_transitions bet.status) new_status))
      (invalid_transition bet.status new_status)
  set_bet_status env bet_id new_status

abbrev pub is_terminal : Option Bet → Bool
is_terminal none = false
is_terminal (some bet) = includes terminal_states bet.status

pub is_terminal_state : Env → Uuid → Action Bool
is_terminal_state env bet_id = do found ← find_bet env (has_bet_id bet_id); pure (is_terminal found)
