-- ===== src/Wallet/Frame.antt =====
-- The wallet service writes to its own two tables only.
use bolt_bet.Base.{
  ℕ, ◌==◌, ◌≡◌, ◌⊎◌, ◌∷◌, false, arith, Bool-cases, Option-cases, inl, inr, Option, some, none,
  String, not, List,
}
use bolt_bet.Base.Table.{taken}
use bolt_bet.Model.Types.{Uuid, TransactionType}
use bolt_bet.Model.Entities.{Wallet, WalletTransaction, World}
use bolt_bet.Model.Action.{
  Env, Result, ok, err, bind, commit_or_rollback, pure, wallet_transaction, wallet_read,
  fits_integer, out_of_range, Result-cases,
}
use bolt_bet.Model.Keeps.{Keeps, bind-Keeps, guard-Keeps}
use bolt_bet.Wallet
use bolt_bet.Wallet.{
  TransactionResponseDto, DepositDto, find_wallet, wallet_taken, new_wallet, insert_wallet,
  lock_wallet, new_balance, save_balance, insert_transaction, post_transaction, change_balance,
  apply_transaction, once, typed_transaction, transaction_row, of_reference, of_typed_reference,
}

module _ {ℓ} (P : World → Type ℓ)
    (own : (ws : List Wallet) (ts : List WalletTransaction) (w : World)
      → P w
      → P (record w { wallets = ws; transactions = ts })) where
  lock_wallet-Keeps : (env : Env) (u : Uuid) → Keeps P (lock_wallet env u)
  unfolding lock_wallet
  lock_wallet-Keeps env u w h = elim (Option-cases (find_wallet u w.wallets)) [
    | inr (row, e) ↦ rw (e, lock_wallet) h
    | inl missing ↦ elim (Bool-cases (wallet_taken (new_wallet env u) w.wallets)) [
      | inl clash ↦ rw (missing, lock_wallet, clash, insert_wallet) h
      | inr free ↦ rw (missing, lock_wallet, free, insert_wallet) (own _ w.transactions w h)
    ]
  ]

  insert_transaction-Keeps : (tx : WalletTransaction) → Keeps P (insert_transaction tx)
  unfolding insert_transaction
  insert_transaction-Keeps tx w h = elim (Bool-cases (fits_integer tx.amount_cents)) [
    | inr big ↦ rw (big, insert_transaction) h
    | inl small ↦
        elim (Bool-cases (taken (λ (r : WalletTransaction). r.id == tx.id) w.transactions)) [
          | inl clash ↦ rw (small, insert_transaction, clash) h
          | inr free ↦ rw (small, insert_transaction, free) (own w.wallets _ w h)
        ]
  ]

  save_balance-Keeps :
      (env : Env) (row : Wallet) (balance : ℕ) → Keeps P (save_balance env row balance)
  unfolding save_balance
  save_balance-Keeps env row balance =
      guard-Keeps P (not (fits_integer balance)) out_of_range _ (λ w h. own _ w.transactions w h)

  module _ (env : Env) (u : Uuid) (type : TransactionType) (amount : ℕ) (ref : Uuid)
      (text : String) where
    post_transaction-Keeps :
        (row : Wallet) → Keeps P (post_transaction env u type amount ref text row)
    unfolding post_transaction
    post_transaction-Keeps row w h =
        elim (Result-cases (new_balance type row.balance_cents amount)) [
          | inr (e, refused) ↦ rw (refused, post_transaction) h
          | inl (balance, fine) ↦
              rw (fine, post_transaction)
                (bind-Keeps P (save_balance env row balance)
                  (λ _.
                    insert_transaction (transaction_row env row.id u type amount balance ref text))
                  (save_balance-Keeps env row balance) (λ _. insert_transaction-Keeps _) w h)
        ]

    apply_transaction-Keeps : Keeps P (apply_transaction env u type amount ref text)
    unfolding apply_transaction change_balance
    apply_transaction-Keeps w h = elim (Bool-cases (env.fails wallet_transaction)) [
      | inl down ↦ rw (down, apply_transaction, change_balance) h
      | inr up ↦
          rw (up, apply_transaction, change_balance)
            (settled (bind (lock_wallet env u w) (post_transaction env u type amount ref text)) (
              bind-Keeps P (lock_wallet env u) (post_transaction env u type amount ref text)
                (lock_wallet-Keeps env u) post_transaction-Keeps w h))
    ]
      where
        settled :
            (m : Result WalletTransaction × World)
            → P m.1
            → P (bind (commit_or_rollback w m) (λ tx. pure (Wallet.to_transaction_dto tx))).1
        settled (ok tx, w') k = k
        settled (err e, w') k = h

    once-Keeps :
        (found : Option WalletTransaction)
        → Keeps P (once found (apply_transaction env u type amount ref text))
    once-Keeps none w h = apply_transaction-Keeps w h
    once-Keeps (some tx) w h = h

    typed_transaction-Keeps : Keeps P (typed_transaction type env u amount ref text)
    unfolding typed_transaction
    typed_transaction-Keeps w h = elim (Bool-cases (env.fails wallet_read)) [
      | inl down ↦ rw (down, typed_transaction) h
      | inr up ↦ rw (up, typed_transaction) (once-Keeps _ w h)
    ]

  module _ (env : Env) (u : Uuid) (amount : ℕ) (ref : Uuid) (text : Option String) where
    pub debit-Keeps : Keeps P (Wallet.debit env u amount ref text)
    unfolding Wallet.debit
    debit-Keeps = typed_transaction-Keeps env u TransactionType.debit amount ref _

    pub credit-Keeps : Keeps P (Wallet.credit env u amount ref text)
    unfolding Wallet.credit
    credit-Keeps = typed_transaction-Keeps env u TransactionType.credit amount ref _

  pub deposit-Keeps : (env : Env) (u : Uuid) (dto : DepositDto) → Keeps P (Wallet.deposit env u dto)
  unfolding Wallet.deposit
  deposit-Keeps env u dto w h = elim (Bool-cases (env.fails wallet_read)) [
    | inl down ↦ rw (down, Wallet.deposit) h
    | inr up ↦ rw (up, Wallet.deposit) (once-Keeps env u _ _ _ _ _ w h)
  ]

module _ (env : Env) (u : Uuid) (w : World) where
  -- Asking for a balance may insert a wallet that holds nothing.
  pub get_balance_writes :
      ((Wallet.get_balance env u w).1 ≡ w)
      ⊎ ((wallet_taken (new_wallet env u) w.wallets ≡ false)
          × ((Wallet.get_balance env u w).1 ≡ record w { wallets = new_wallet env u ∷ w.wallets }))
  unfolding Wallet.get_balance insert_wallet
  get_balance_writes = ground arith
