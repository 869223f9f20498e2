-- ===== src/Wallet.antt =====
-- WalletService: balances, deposits, debits and credits. Every change of a balance goes through
-- `apply_transaction`, one database transaction under a lock on the wallet row.
pub mod Rows
pub mod Posted
pub mod Effect
pub mod Frame
pub mod Ledger
pub mod Idempotency
pub mod Once
pub mod Decision
pub mod Interleaving
pub mod Locks
use bolt_bet.Base.{
  ℕ, ◌+◌, ◌-◌, ◌*◌, ◌==◌, Bool, true, false, ◌&&◌, ◌||◌, not, List, [], ◌∷◌, map, Option, none,
  some, String, get_or, if◌then◌else◌, ltb,
}
use bolt_bet.Base.Table.{find, update, taken}
use bolt_bet.Model.Types.{Uuid, TransactionType, type_eq}
use bolt_bet.Model.Entities.{Wallet, WalletTransaction, World}
use bolt_bet.Model.Action.{
  Action, Env, Error, Result, ok, err, pure, raise, gets, ◌>>=◌, ◌>>◌, raise_if, external, modify,
  wallet_read, wallet_write, wallet_transaction, out_of_range, unique_violation,
  insufficient_balance, fits_integer, lift, in_transaction,
}
use bolt_bet.Format.{format_cents}

pub record BalanceResponseDto : Type 0 where
  pub balance_cents : ℕ
  pub balance_display : List ℕ

pub record TransactionResponseDto : Type 0 where
  pub id : Uuid
  pub type : TransactionType
  pub amount_cents : ℕ
  pub amount_display : List ℕ
  pub balance_after_cents : ℕ
  pub balance_after_display : List ℕ
  pub reference_id : Option Uuid
  pub description : Option String
  pub created_at : ℕ

pub record DepositDto : Type 0 where
  pub amount_cents : ℕ
  pub client_mutation_id : Uuid

unfoldable pub to_transaction_dto : WalletTransaction → TransactionResponseDto
to_transaction_dto tx = record {
  id = tx.id;
  type = tx.type;
  amount_cents = tx.amount_cents;
  amount_display = format_cents tx.amount_cents;
  balance_after_cents = tx.balance_after_cents;
  balance_after_display = format_cents tx.balance_after_cents;
  reference_id = tx.reference_id;
  description = tx.description;
  created_at = tx.created_at;
}

-- `where: { userId }` on wallets
abbrev pub of_user : Uuid → Wallet → Bool
of_user user_id w = w.user_id == user_id

abbrev pub has_reference : Uuid → Option Uuid → Bool
has_reference reference_id none = false
has_reference reference_id (some r) = r == reference_id

-- `where: { userId, referenceId }` on transactions
abbrev pub of_reference : Uuid → Uuid → WalletTransaction → Bool
of_reference user_id reference_id tx =
    tx.user_id == user_id && has_reference reference_id tx.reference_id

-- `where: { userId, referenceId, type }`
abbrev pub of_typed_reference : Uuid → Uuid → TransactionType → WalletTransaction → Bool
of_typed_reference user_id reference_id type tx =
    of_reference user_id reference_id tx && type_eq tx.type type

abbrev pub find_wallet : Uuid → List Wallet → Option Wallet
find_wallet user_id = find (of_user user_id)

-- INSERT of a wallet: its primary key and its user are unique.
abbrev pub wallet_taken : Wallet → List Wallet → Bool
wallet_taken w = taken λ row. row.id == w.id || row.user_id == w.user_id

abbrev pub save_wallet : Wallet → List Wallet → List Wallet
save_wallet w = update (λ row. row.id == w.id) (λ row. w)

abbrev pub new_wallet : Env → Uuid → Wallet
new_wallet env user_id = record {
  id = env.wallet_id;
  user_id = user_id;
  balance_cents = 0;
  created_at = env.now;
  updated_at = env.now;
}

pub insert_wallet : Wallet → Action Wallet
insert_wallet row w =
    if wallet_taken row w.wallets
    then (err unique_violation, w)
    else (ok row, record w { wallets = row ∷ w.wallets })

-- The locked row, or a new one with a balance of zero, which is inserted.
lock_wallet : Env → Uuid → Action Wallet
unfolding insert_wallet
lock_wallet env user_id w = elim (find_wallet user_id w.wallets) [
  | some row ↦ (ok row, w)
  | none ↦ insert_wallet (new_wallet env user_id) w
]

-- The balance check and the new balance.
new_balance : TransactionType → ℕ → ℕ → Result ℕ
new_balance TransactionType.debit balance amount =
    if ltb balance amount then err (insufficient_balance balance amount) else ok (balance - amount)
new_balance TransactionType.deposit balance amount = ok (balance + amount)
new_balance TransactionType.credit balance amount = ok (balance + amount)

-- The row with a new balance: TypeORM writes a row, with its time, only if a column has changed.
abbrev pub with_balance : Env → Wallet → ℕ → Wallet
with_balance env row balance = record row {
  balance_cents = balance;
  updated_at = if balance == row.balance_cents then row.updated_at else env.now;
}

save_balance : Env → Wallet → ℕ → Action (Unit {0})
save_balance env row balance = do
  raise_if (not (fits_integer balance)) out_of_range
  modify λ w. record w { wallets = save_wallet (with_balance env row balance) w.wallets }

-- INSERT of a transaction.
insert_transaction : WalletTransaction → Action WalletTransaction
insert_transaction tx = do
  raise_if (not (fits_integer tx.amount_cents)) out_of_range
  clash ← gets λ w. taken (λ row. row.id == tx.id) w.transactions
  raise_if clash unique_violation
  modify λ w. record w { transactions = tx ∷ w.transactions }
  pure tx

abbrev pub transaction_row :
    Env → Uuid → Uuid → TransactionType → ℕ → ℕ → Uuid → String → WalletTransaction
transaction_row env wallet_id user_id type amount balance reference_id description = record {
  id = env.transaction_id;
  wallet_id = wallet_id;
  user_id = user_id;
  type = type;
  amount_cents = amount;
  balance_after_cents = balance;
  reference_id = some reference_id;
  description = some description;
  created_at = env.now;
}

-- What is done with the locked row.
pub post_transaction :
    Env → Uuid → TransactionType → ℕ → Uuid → String → Wallet → Action WalletTransaction
unfolding new_balance save_balance insert_transaction
post_transaction env user_id type amount reference_id description row = do
  balance ← lift (new_balance type row.balance_cents amount)
  save_balance env row balance
  insert_transaction
      (transaction_row env row.id user_id type amount balance reference_id description)

-- The body of the database transaction. A statement of it, or the commit, may fail: that the fault
-- comes first here makes no difference, since all is rolled back.
pub change_balance : Env → Uuid → TransactionType → ℕ → Uuid → String → Action WalletTransaction
change_balance env user_id type amount reference_id description = do
  external env wallet_transaction
  row ← lock_wallet env user_id
  post_transaction env user_id type amount reference_id description row

pub apply_transaction :
    Env → Uuid → TransactionType → ℕ → Uuid → String → Action TransactionResponseDto
apply_transaction env user_id type amount reference_id description = do
  tx ← in_transaction (change_balance env user_id type amount reference_id description)
  pure (to_transaction_dto tx)

-- The earlier transaction, if there is one, else the action.
abbrev pub once :
    Option WalletTransaction → Action TransactionResponseDto → Action TransactionResponseDto
once none act = act
once (some existing) act = pure (to_transaction_dto existing)

-- The reference is looked for among the user's transactions of every type.
pub deposit : Env → Uuid → DepositDto → Action TransactionResponseDto
deposit env user_id dto = do
  external env wallet_read
  existing ← gets λ w. find (of_reference user_id dto.client_mutation_id) w.transactions
  once existing (
      apply_transaction env user_id TransactionType.deposit dto.amount_cents dto.client_mutation_id
        "Deposit")

-- What `debit` and `credit` have in common: the reference is looked for among the user's
-- transactions of the one type.
pub typed_transaction :
    TransactionType → Env → Uuid → ℕ → Uuid → String → Action TransactionResponseDto
typed_transaction type env user_id amount reference_id description = do
  external env wallet_read
  existing ← gets λ w. find (of_typed_reference user_id reference_id type) w.transactions
  once existing (apply_transaction env user_id type amount reference_id description)

pub debit : Env → Uuid → ℕ → Uuid → Option String → Action TransactionResponseDto
debit env user_id amount reference_id description =
    typed_transaction TransactionType.debit env user_id amount reference_id
      (get_or description "Bet placement")

pub credit : Env → Uuid → ℕ → Uuid → Option String → Action TransactionResponseDto
credit env user_id amount reference_id description =
    typed_transaction TransactionType.credit env user_id amount reference_id
      (get_or description "Bet settlement payout")

-- The wallet of the replica, or a new one, which is inserted into the primary.
get_or_create_wallet : Env → Uuid → Action Wallet
unfolding insert_wallet
get_or_create_wallet env user_id = do
  external env wallet_read
  found ← gets λ w. find_wallet user_id w.replica.wallets
  elim found [
    | some row ↦ pure row
    | none ↦ do external env wallet_write; insert_wallet (new_wallet env user_id)
  ]

pub get_balance : Env → Uuid → Action BalanceResponseDto
unfolding get_or_create_wallet
get_balance env user_id = do
  row ← get_or_create_wallet env user_id
  pure (record {
    balance_cents = row.balance_cents;
    balance_display = format_cents row.balance_cents;
  })
