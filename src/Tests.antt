-- ===== src/Tests.antt =====
-- A small state of the back end, and the development run on it.
pub mod Wallets
pub mod Bets
pub mod Markets
pub mod Sessions
pub mod Browser
pub mod Statuses
pub mod Api
pub mod Queues
pub mod Web
use bolt_bet.Base.{ℕ, ◌≡◌, refl, Bool, true, false, some, none, List, [], ◌∷◌}
use bolt_bet.Model.Types.{Uuid, TransactionType, MarketStatus, BetStatus}
use bolt_bet.Model.Entities.{Wallet, WalletTransaction, Market, Bet, CacheEntry, World}
use bolt_bet.Model.Action.{Env, Call}

abbrev pub calm : Env
calm = record {
  now = 9000;
  wallet_id = 50;
  transaction_id = 60;
  bet_id = 70;
  market_id = 80;
  rank = λ id. id;
  fails = λ c. false;
}

-- Another request, later.
abbrev pub later : Env
later = record {
  now = 9500;
  wallet_id = 51;
  transaction_id = 61;
  bet_id = 71;
  market_id = 81;
  rank = λ id. id;
  fails = λ c. false;
}

abbrev pub is_wallet_read : Call → Bool
is_wallet_read Call.wallet_read = true
is_wallet_read _ = false

-- A request during which the wallet tables cannot be read.
abbrev pub cut_off : Env
cut_off = record calm { fails = is_wallet_read }

abbrev pub ada : Uuid
ada = 1

abbrev pub stake_row : WalletTransaction
stake_row = record {
  id = 21;
  wallet_id = 10;
  user_id = ada;
  type = TransactionType.debit;
  amount_cents = 200;
  balance_after_cents = 800;
  reference_id = some 6;
  description = some "Bet on market Cup";
  created_at = 200;
}

abbrev pub deposit_row : WalletTransaction
deposit_row = record {
  id = 20;
  wallet_id = 10;
  user_id = ada;
  type = TransactionType.deposit;
  amount_cents = 1000;
  balance_after_cents = 1000;
  reference_id = some 5;
  description = some "Deposit";
  created_at = 100;
}

abbrev pub purse : Wallet
purse = record { id = 10; user_id = ada; balance_cents = 800; created_at = 100; updated_at = 200 }

abbrev pub cup : Market
cup = record {
  id = 40;
  event_id = 41;
  name = "Cup";
  odds_int = 250;
  status = MarketStatus.opened;
  created_at = 50;
  updated_at = 50;
}

abbrev pub live_bet : Bet
live_bet = record {
  id = 30;
  user_id = ada;
  market_id = 40;
  market_name = "Cup";
  odds_int = 250;
  stake_cents = 200;
  payout_cents = 500;
  status = BetStatus.accepted;
  reference_id = 6;
  created_at = 200;
  updated_at = 300;
}

abbrev pub shop : World
shop = record {
  wallets = purse ∷ [];
  transactions = stake_row ∷ deposit_row ∷ [];
  bets = live_bet ∷ [];
  markets = cup ∷ [];
  replica = record { wallets = []; transactions = []; bets = live_bet ∷ [] };
  users = [];
  refresh_tokens = [];
  persistent = [];
  ephemeral = [];
  bet_placement = [];
  notifications = [];
  task_queue = [];
}
