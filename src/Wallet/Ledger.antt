-- ===== src/Wallet/Ledger.antt =====
-- The transactions as the wallets' ledger.
use bolt_bet.Base.{
  ℕ, ◌+◌, ◌≡◌, refl, subst, ==_iff, Bool-cases, inl, inr, Option, String, List, [], ◌∷◌, arith,
  ◌==◌, ◌&&◌, if◌then◌else◌,
}
use bolt_bet.Model.Types.{Uuid, TransactionType, type_eq}
use bolt_bet.Model.Entities.{WalletTransaction, World}
use bolt_bet.Model.Action.{Env}
use bolt_bet.Wallet
use bolt_bet.Wallet.Rows.{IsDistinct, balance_of}
use bolt_bet.Wallet.Posted.{Moves, Posted}
use bolt_bet.Wallet.Effect.{deposit_cases, debit_cases, credit_cases}

-- What the transactions have taken out of, and put into, the wallet of a user.
abbrev pub outgoing : Uuid → List WalletTransaction → ℕ
outgoing v [] = 0
outgoing v (tx ∷ ts) =
    (if tx.user_id == v && type_eq tx.type TransactionType.debit then tx.amount_cents else 0)
    + outgoing v ts

abbrev pub incoming : Uuid → List WalletTransaction → ℕ
incoming v [] = 0
incoming v (tx ∷ ts) =
    (if tx.user_id == v && type_eq tx.type TransactionType.debit
      then 0
      else (if tx.user_id == v then tx.amount_cents else 0))
    + incoming v ts

-- Each row's snapshot is the balance that the rows up to it give.
abbrev pub IsAudited : List WalletTransaction → Type 0
IsAudited [] = Unit
IsAudited (tx ∷ ts) =
    (tx.balance_after_cents + outgoing tx.user_id (tx ∷ ts) ≡ incoming tx.user_id (tx ∷ ts))
    × IsAudited ts

-- The books are right: one wallet for a user, every balance is what came in less what went out,
-- and so is every snapshot in the audit trail.
pub record IsLedger (w : World) : Type 0 where
  pub distinct : IsDistinct w.wallets
  pub balanced :
      (v : Uuid) → balance_of v w.wallets + outgoing v w.transactions ≡ incoming v w.transactions
  pub audited : IsAudited w.transactions

-- The books are in these two tables.
pub IsLedger-same :
    (w w' : World)
    → w'.wallets ≡ w.wallets
    → w'.transactions ≡ w.transactions
    → IsLedger w
    → IsLedger w'
IsLedger-same w w' p q h = record {
  distinct = rw p h.distinct;
  balanced = λ v. rw (p, q) (h.balanced v);
  audited = rw q h.audited;
}

-- One row moves the balance, and the sums of its user, together.
sums_move :
    (type : TransactionType) (tx : WalletTransaction) (ts : List WalletTransaction)
    (before after : ℕ)
    → tx.type ≡ type
    → Moves type tx.amount_cents before after
    → before + outgoing tx.user_id ts ≡ incoming tx.user_id ts
    → after + outgoing tx.user_id (tx ∷ ts) ≡ incoming tx.user_id (tx ∷ ts)
sums_move TransactionType.deposit tx ts before after e m h = ground arith
sums_move TransactionType.debit tx ts before after e m h = ground arith
sums_move TransactionType.credit tx ts before after e m h = ground arith

module _ (tx : WalletTransaction) (w w' : World) (p : Posted tx w w') (h : IsLedger w) where
  at_user :
      balance_of tx.user_id w'.wallets + outgoing tx.user_id (tx ∷ w.transactions)
      ≡ incoming tx.user_id (tx ∷ w.transactions)
  at_user =
      sums_move tx.type tx w.transactions (balance_of tx.user_id w.wallets)
        (balance_of tx.user_id w'.wallets) refl p.moved (h.balanced tx.user_id)

  at_anyone :
      (v : Uuid)
      → balance_of v w'.wallets + outgoing v (tx ∷ w.transactions)
        ≡ incoming v (tx ∷ w.transactions)
  at_anyone v = elim (Bool-cases (tx.user_id == v)) [
    | inl own ↦
        subst
          (λ u.
            balance_of u w'.wallets + outgoing u (tx ∷ w.transactions)
            ≡ incoming u (tx ∷ w.transactions))
          ((==_iff tx.user_id v).0 own) at_user
    | inr other ↦ ground (arith, p.others v other, h.balanced v)
  ]

  pub posted-IsLedger : IsLedger w'
  posted-IsLedger = record {
    distinct = p.distinct;
    balanced = λ v. rw p.logged (at_anyone v);
    audited = rw p.logged (rw p.snapshot at_user, h.audited);
  }

module _ (env : Env) (u : Uuid) (amount : ℕ) (ref : Uuid) (text : Option String) (w : World) where
  -- No request breaks books that are right, on any branch and whatever fails on the way: not a
  -- deposit, a debit or a credit, of any amount and under any reference.
  pub requests-IsLedger :
      IsLedger w
      → IsLedger
          (Wallet.deposit env u (record { amount_cents = amount; client_mutation_id = ref }) w).1
        × IsLedger (Wallet.debit env u amount ref text w).1
        × IsLedger (Wallet.credit env u amount ref text w).1
  requests-IsLedger h = (
    deposit_cases (λ r. IsLedger r.1) env u _ w h.distinct (λ e. h) (λ tx old. h)
        (λ tx w' new p q. posted-IsLedger tx w w' p h),
    debit_cases (λ r. IsLedger r.1) env u amount ref text w h.distinct (λ e. h) (λ tx old. h)
        (λ tx w' new p q. posted-IsLedger tx w w' p h),
    credit_cases (λ r. IsLedger r.1) env u amount ref text w h.distinct (λ e. h) (λ tx old. h)
        (λ tx w' new p q. posted-IsLedger tx w w' p h),
  )
