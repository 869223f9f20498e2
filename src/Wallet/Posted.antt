-- ===== src/Wallet/Posted.antt =====
-- The database transaction of `applyTransaction`: what it leaves when it commits.
use bolt_bet.Base.{
  ℕ, ◌+◌, ◌≡◌, refl, sym, ap, transport, ◌∙◌, Bool-cases, Option-cases, inl, inr, false, some, none,
  String, ◌∷◌, arith, ◌==◌, if◌then◌else◌,
}
use bolt_bet.Base.Table.{taken}
use bolt_bet.Model.Types.{Uuid, TransactionType, debit, deposit, credit}
use bolt_bet.Model.Entities.{Wallet, WalletTransaction, World}
use bolt_bet.Model.Action.{
  Env, Error, Result, ok, err, wallet_transaction, unique_violation, bind, Result-cases,
  fits_integer,
}
use bolt_bet.Wallet.{
  find_wallet, wallet_taken, save_wallet, new_wallet, transaction_row, change_balance,
  post_transaction, with_balance, insert_wallet, lock_wallet, new_balance,
}
use bolt_bet.Wallet.Rows.{IsDistinct, balance_of, balance_of-find, balance_of-none, save_wallet_lem}

-- A row of the transactions table that says what was asked for.
pub record IsRequested (env : Env) (u : Uuid) (type : TransactionType) (amount : ℕ) (ref : Uuid)
    (text : String) (tx : WalletTransaction) : Type 0 where
  pub fresh_id : tx.id ≡ env.transaction_id
  pub user : tx.user_id ≡ u
  pub kind : tx.type ≡ type
  pub sum : tx.amount_cents ≡ amount
  pub reference : tx.reference_id ≡ some ref
  pub text_kept : tx.description ≡ some text

-- How a balance moves: down by a debit that it covers, up by a deposit or a credit.
abbrev pub Moves : TransactionType → ℕ → ℕ → ℕ → Type 0
Moves debit amount before after = after + amount ≡ before
Moves deposit amount before after = after ≡ before + amount
Moves credit amount before after = after ≡ before + amount

-- The state after a transaction was posted: one new row, whose snapshot is the user's new balance,
-- which has moved by the amount; nobody else's balance, and no other table, has changed.
pub record Posted (tx : WalletTransaction) (w w' : World) : Type 0 where
  pub logged : w'.transactions ≡ tx ∷ w.transactions
  pub snapshot : tx.balance_after_cents ≡ balance_of tx.user_id w'.wallets
  pub moved :
      Moves tx.type tx.amount_cents
        (balance_of tx.user_id w.wallets)
        (balance_of tx.user_id w'.wallets)
  pub others :
      (v : Uuid) → (tx.user_id == v) ≡ false → balance_of v w'.wallets ≡ balance_of v w.wallets
  -- the rows of the others
  pub untouched :
      (v : Uuid) → (tx.user_id == v) ≡ false → find_wallet v w'.wallets ≡ find_wallet v w.wallets
  pub distinct : IsDistinct w'.wallets
  pub frame : w' ≡ record w { wallets = w'.wallets; transactions = w'.transactions }

new_balance-Moves :
    (type : TransactionType) (before amount : ℕ) {after : ℕ}
    → new_balance type before amount ≡ ok after
    → Moves type amount before after
unfolding new_balance
new_balance-Moves debit before amount h = ground arith
new_balance-Moves deposit before amount h = ground arith
new_balance-Moves credit before amount h = ground arith

-- The lock returns the user's row, now in the table, at the user's balance.
pub record Locked (u : Uuid) (w : World) (row : Wallet) (w' : World) : Type 0 where
  pub found : find_wallet u w'.wallets ≡ some row
  pub same : (v : Uuid) → balance_of v w'.wallets ≡ balance_of v w.wallets
  pub others : (v : Uuid) → (u == v) ≡ false → find_wallet v w'.wallets ≡ find_wallet v w.wallets
  pub distinct : IsDistinct w'.wallets
  pub frame : w' ≡ record w { wallets = w'.wallets }

module _ (u : Uuid) (w : World) (d : IsDistinct w.wallets) where
  -- The row that is there, and one that is inserted.
  pub Locked-found : {row : Wallet} → find_wallet u w.wallets ≡ some row → Locked u w row w
  Locked-found e = record {
    found = e;
    same = λ v. refl;
    others = λ v n. refl;
    distinct = d;
    frame = refl;
  }

  pub Locked-new :
      (env : Env)
      → find_wallet u w.wallets ≡ none
      → wallet_taken (new_wallet env u) w.wallets ≡ false
      → Locked u w (new_wallet env u) (record w { wallets = new_wallet env u ∷ w.wallets })
  Locked-new env missing free = record {
    found = ground arith;
    same = λ v. ground (arith, balance_of-none u w.wallets);
    others = λ v n. ground arith;
    distinct = (free, d);
    frame = refl;
  }

lock_wallet_cases {ℓ} :
    (P : Result Wallet × World → Type ℓ) (env : Env) (u : Uuid) (w : World)
    → IsDistinct w.wallets
    → P (err unique_violation, w)
    → ((row : Wallet) (w' : World) → Locked u w row w' → P (ok row, w'))
    → P (lock_wallet env u w)
unfolding lock_wallet
lock_wallet_cases P env u w d clash locked = elim (Option-cases (find_wallet u w.wallets)) [
  | inl missing ↦ elim (Bool-cases (wallet_taken (new_wallet env u) w.wallets)) [
    | inl t ↦ rw (missing, lock_wallet, t, insert_wallet) clash
    | inr free ↦
        rw (missing, lock_wallet, free, insert_wallet)
          (locked _ _ (Locked-new u w d env missing free))
  ]
  | inr (row, e) ↦ rw (e, lock_wallet) (locked row w (Locked-found u w d e))
]

-- The balance check, then the write of the wallet and the insert of the transaction.
module _ {ℓ} (P : Result WalletTransaction × World → Type ℓ) (env : Env) (u : Uuid)
    (type : TransactionType) (amount : ℕ) (ref : Uuid) (text : String) (w : World) where
  abbrev row_after : Wallet → ℕ → WalletTransaction
  row_after row balance = transaction_row env row.id u type amount balance ref text

  posted :
      (row : Wallet) (w₁ : World) (balance : ℕ)
      → Locked u w row w₁
      → new_balance type row.balance_cents amount ≡ ok balance
      → Posted (row_after row balance) w (record w₁ {
        wallets = save_wallet (with_balance env row balance) w₁.wallets;
        transactions = row_after row balance ∷ w₁.transactions;
      })
  posted row w₁ balance l e = record {
    logged = ap (λ (z : World). row_after row balance ∷ z.transactions) l.frame;
    snapshot = sym at_user;
    moved = rw (at_user, ← l.same u, found.0) (new_balance-Moves type row.balance_cents amount e);
    others = λ v n. saved.1 v ∙ ground (arith, l.same v, found.1);
    untouched = λ v n. saved.2 v (ground (arith, found.1)) ∙ l.others v n;
    distinct = saved.0;
    frame =
        ap
          (λ (z : World). record z {
            wallets = save_wallet row' w₁.wallets;
            transactions = row_after row balance ∷ w₁.transactions;
          })
          l.frame;
  }
    where
      row' : Wallet
      row' = with_balance env row balance

      saved :
          IsDistinct (save_wallet row' w₁.wallets)
          × ((v : Uuid)
              → balance_of v (save_wallet row' w₁.wallets)
                ≡ (if row.user_id == v then balance else balance_of v w₁.wallets))
          × ((v : Uuid)
              → (row.user_id == v) ≡ false
              → find_wallet v (save_wallet row' w₁.wallets) ≡ find_wallet v w₁.wallets)
      saved = save_wallet_lem row row' refl refl u w₁.wallets l.distinct l.found

      found : (balance_of u w₁.wallets ≡ row.balance_cents) × (row.user_id ≡ u)
      found = balance_of-find u w₁.wallets l.found

      at_user : balance_of u (save_wallet row' w₁.wallets) ≡ balance
      at_user = saved.1 u ∙ ground (arith, found.1)

  pub post_transaction_cases :
      (row : Wallet) (w₁ : World)
      → Locked u w row w₁
      → ((e : Error) (w' : World) → P (err e, w'))
      → ((tx : WalletTransaction) (w' : World)
          → Posted tx w w'
          → IsRequested env u type amount ref text tx
          → P (ok tx, w'))
      → P (post_transaction env u type amount ref text row w₁)
  unfolding post_transaction
  post_transaction_cases row w₁ l failed done =
      elim (Result-cases (new_balance type row.balance_cents amount)) [
        | inr (e, refused) ↦ rw (refused, post_transaction) (failed e w₁)
        | inl (balance, fine) ↦
            rw (fine, post_transaction)
              (elim (Bool-cases (fits_integer balance)) [
                | inr big ↦ rw big (failed _ _)
                | inl fits ↦ rw fits (elim (Bool-cases (fits_integer amount)) [
                  | inr big ↦ rw big (failed _ _)
                  | inl small ↦
                      rw small
                        (elim (Bool-cases
                          (taken (λ r. r.id == env.transaction_id) w₁.transactions)) [
                            | inl clash ↦ rw clash (failed _ _)
                            | inr free ↦ rw free (
                                done _ _ (posted row w₁ balance l fine) (record {
                                  fresh_id = refl;
                                  user = refl;
                                  kind = refl;
                                  sum = refl;
                                  reference = refl;
                                  text_kept = refl;
                                }))
                          ])
                ])
              ])
      ]

  -- Either an exception, or one transaction was posted.
  pub change_balance_cases :
      IsDistinct w.wallets
      → ((e : Error) (w' : World) → P (err e, w'))
      → ((tx : WalletTransaction) (w' : World)
          → Posted tx w w'
          → IsRequested env u type amount ref text tx
          → P (ok tx, w'))
      → P (change_balance env u type amount ref text w)
  unfolding change_balance
  change_balance_cases d failed done = elim (Bool-cases (env.fails wallet_transaction)) [
    | inl down ↦ rw (down, change_balance) (failed _ w)
    | inr up ↦
        rw (up, change_balance)
          (lock_wallet_cases (λ r. P (bind r (post_transaction env u type amount ref text))) env u w
            d (failed _ w) (λ row w₁ l. post_transaction_cases row w₁ l failed done))
  ]

-- How the balance of the user who asked has moved.
pub requested-Moves :
    (env : Env) (u : Uuid) (type : TransactionType) (amount : ℕ) (ref : Uuid) (text : String)
    (tx : WalletTransaction) (w w' : World)
    → Posted tx w w'
    → IsRequested env u type amount ref text tx
    → Moves type amount (balance_of u w.wallets) (balance_of u w'.wallets)
requested-Moves env u type amount ref text tx w w' p q =
    transport
      (λ i.
        Moves (q.kind i) (q.sum i) (balance_of (q.user i) w.wallets)
          (balance_of (q.user i) w'.wallets))
      p.moved
