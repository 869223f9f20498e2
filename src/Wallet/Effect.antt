-- ===== src/Wallet/Effect.antt =====
-- What `apply_transaction` does on each branch, and so every deposit, debit and credit.
use bolt_bet.Base.{ℕ, ◌≡◌, refl, Bool-cases, inl, inr, true, Option, some, none, String, get_or}
use bolt_bet.Base.Table.{find}
use bolt_bet.Model.Types.{Uuid, TransactionType, debit, credit}
use bolt_bet.Model.Entities.{WalletTransaction, World}
use bolt_bet.Model.Action.{
  Env, Error, Result, ok, err, bind, pure, commit_or_rollback, wallet_read, unavailable,
}
use bolt_bet.Wallet
use bolt_bet.Wallet.{
  typed_transaction, of_reference, of_typed_reference, DepositDto, once, find_wallet, wallet_taken,
  save_wallet, new_wallet, transaction_row, change_balance, post_transaction, apply_transaction,
  to_transaction_dto, TransactionResponseDto, insert_wallet, lock_wallet, new_balance, save_balance,
  insert_transaction,
}
use bolt_bet.Wallet.Rows.{IsDistinct}
use bolt_bet.Wallet.Posted.{IsRequested, Posted, change_balance_cases}

-- The transaction is atomic: an exception leaves the world as it was.
module _ {ℓ} (P : Result TransactionResponseDto × World → Type ℓ) (env : Env) (u : Uuid)
    (type : TransactionType) (amount : ℕ) (ref : Uuid) (text : String) (w : World) where
  pub apply_transaction_cases :
      IsDistinct w.wallets
      → ((e : Error) → P (err e, w))
      → ((tx : WalletTransaction) (w' : World)
          → Posted tx w w'
          → IsRequested env u type amount ref text tx
          → P (ok (to_transaction_dto tx), w'))
      → P (apply_transaction env u type amount ref text w)
  unfolding apply_transaction
  apply_transaction_cases d failed done =
      change_balance_cases
        (λ r. P (bind (commit_or_rollback w r) (λ tx. pure (to_transaction_dto tx)))) env u type
        amount ref text w d (λ e _. failed e) done

  once_cases :
      (found : Option WalletTransaction)
      → IsDistinct w.wallets
      → ((e : Error) → P (err e, w))
      → ((tx : WalletTransaction) → found ≡ some tx → P (ok (to_transaction_dto tx), w))
      → ((tx : WalletTransaction) (w' : World)
          → found ≡ none
          → Posted tx w w'
          → IsRequested env u type amount ref text tx
          → P (ok (to_transaction_dto tx), w'))
      → P (once found (apply_transaction env u type amount ref text) w)
  once_cases none d failed old new = apply_transaction_cases d failed (λ tx w'. new tx w' refl)
  once_cases (some tx) d failed old new = old tx refl

  -- `debit` and `credit`: an exception, the earlier transaction of that reference and type, or a
  -- new one.
  pub typed_transaction_cases :
      IsDistinct w.wallets
      → ((e : Error) → P (err e, w))
      → ((tx : WalletTransaction)
          → find (of_typed_reference u ref type) w.transactions ≡ some tx
          → P (ok (to_transaction_dto tx), w))
      → ((tx : WalletTransaction) (w' : World)
          → find (of_typed_reference u ref type) w.transactions ≡ none
          → Posted tx w w'
          → IsRequested env u type amount ref text tx
          → P (ok (to_transaction_dto tx), w'))
      → P (typed_transaction type env u amount ref text w)
  unfolding typed_transaction
  typed_transaction_cases d failed old new = elim (Bool-cases (env.fails wallet_read)) [
    | inl down ↦ rw (down, typed_transaction) (failed _)
    | inr up ↦ rw (up, typed_transaction) (once_cases _ d failed old new)
  ]

-- `deposit`: the same, with a look for the reference among transactions of every type.
pub deposit_cases {ℓ} :
    (P : Result TransactionResponseDto × World → Type ℓ) (env : Env) (u : Uuid) (dto : DepositDto)
    (w : World)
    → IsDistinct w.wallets
    → ((e : Error) → P (err e, w))
    → ((tx : WalletTransaction)
        → find (of_reference u dto.client_mutation_id) w.transactions ≡ some tx
        → P (ok (to_transaction_dto tx), w))
    → ((tx : WalletTransaction) (w' : World)
        → find (of_reference u dto.client_mutation_id) w.transactions ≡ none
        → Posted tx w w'
        → IsRequested env u TransactionType.deposit dto.amount_cents dto.client_mutation_id
            "Deposit" tx
        → P (ok (to_transaction_dto tx), w'))
    → P (Wallet.deposit env u dto w)
unfolding Wallet.deposit
deposit_cases P env u dto w d failed old new = elim (Bool-cases (env.fails wallet_read)) [
  | inl down ↦ rw (down, Wallet.deposit) (failed _)
  | inr up ↦ rw (up, Wallet.deposit) (once_cases P env u _ _ _ _ w _ d failed old new)
]

-- The two for a description that may be missing.
module _ {ℓ} (P : Result TransactionResponseDto × World → Type ℓ) (env : Env) (u : Uuid)
    (amount : ℕ) (ref : Uuid) (text : Option String) (w : World) (d : IsDistinct w.wallets)
    (failed : (e : Error) → P (err e, w)) where
  pub debit_cases :
      ((tx : WalletTransaction)
        → find (of_typed_reference u ref debit) w.transactions ≡ some tx
        → P (ok (to_transaction_dto tx), w))
      → ((tx : WalletTransaction) (w' : World)
          → find (of_typed_reference u ref debit) w.transactions ≡ none
          → Posted tx w w'
          → IsRequested env u debit amount ref (get_or text "Bet placement") tx
          → P (ok (to_transaction_dto tx), w'))
      → P (Wallet.debit env u amount ref text w)
  unfolding Wallet.debit
  debit_cases = typed_transaction_cases P env u debit amount ref _ w d failed

  pub credit_cases :
      ((tx : WalletTransaction)
        → find (of_typed_reference u ref credit) w.transactions ≡ some tx
        → P (ok (to_transaction_dto tx), w))
      → ((tx : WalletTransaction) (w' : World)
          → find (of_typed_reference u ref credit) w.transactions ≡ none
          → Posted tx w w'
          → IsRequested env u credit amount ref (get_or text "Bet settlement payout") tx
          → P (ok (to_transaction_dto tx), w'))
      → P (Wallet.credit env u amount ref text w)
  unfolding Wallet.credit
  credit_cases = typed_transaction_cases P env u credit amount ref _ w d failed

-- A credit whose look-up fails.
pub credit_down :
    (env : Env) (u : Uuid) (amount : ℕ) (ref : Uuid) (text : Option String) (w : World)
    → env.fails wallet_read ≡ true
    → Wallet.credit env u amount ref text w ≡ (err (unavailable wallet_read), w)
unfolding Wallet.credit typed_transaction
credit_down env u amount ref text w down = rw (down, Wallet.credit, typed_transaction)
