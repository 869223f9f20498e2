-- ===== src/Wallet/Idempotency.antt =====
-- A request that is repeated: its reference brings back the first transaction, and nobody pays twice.
use bolt_bet.Base.{ℕ, ◌≡◌, refl, true, false, Option, some, String, arith}
use bolt_bet.Base.Table.{find}
use bolt_bet.Model.Types.{Uuid, TransactionType, type_eq}
use bolt_bet.Model.Entities.{WalletTransaction, World}
use bolt_bet.Model.Action.{Env, ok, WhenOk, wallet_read}
use bolt_bet.Wallet
use bolt_bet.Wallet.{
  DepositDto, typed_transaction, of_reference, of_typed_reference, has_reference,
  to_transaction_dto,
}
use bolt_bet.Wallet.Rows.{IsDistinct}
use bolt_bet.Wallet.Posted.{IsRequested}
use bolt_bet.Wallet.Effect.{typed_transaction_cases, deposit_cases}

type_eq_self : (t : TransactionType) → type_eq t t ≡ true
type_eq_self TransactionType.deposit = refl
type_eq_self _ = refl

type_eq-eq : (s t : TransactionType) → type_eq s t ≡ true → s ≡ t
type_eq-eq s t h = ground arith

module _ (env : Env) (u : Uuid) (type : TransactionType) (amount : ℕ) (ref : Uuid) (text : String)
    (tx : WalletTransaction) (q : IsRequested env u type amount ref text tx) where
  requested-of_reference : of_reference u ref tx ≡ true
  requested-of_reference = rw (q.user, q.reference) (ground arith)

  pub requested-of_typed_reference : of_typed_reference u ref type tx ≡ true
  requested-of_typed_reference = rw (q.user, q.reference, q.kind, type_eq_self type) (ground arith)

module _ (type : TransactionType) (env : Env) (u : Uuid) (amount : ℕ) (ref : Uuid)
    (text : String) where
  typed_transaction_old :
      (w : World) (tx : WalletTransaction)
      → env.fails wallet_read ≡ false
      → find (of_typed_reference u ref type) w.transactions ≡ some tx
      → typed_transaction type env u amount ref text w ≡ (ok (to_transaction_dto tx), w)
  unfolding typed_transaction
  typed_transaction_old w tx up old = rw (up, old, typed_transaction)

deposit_old :
    (env : Env) (u : Uuid) (dto : DepositDto) (w : World) (tx : WalletTransaction)
    → env.fails wallet_read ≡ false
    → find (of_reference u dto.client_mutation_id) w.transactions ≡ some tx
    → Wallet.deposit env u dto w ≡ (ok (to_transaction_dto tx), w)
unfolding Wallet.deposit
deposit_old env u dto w tx up old = rw (up, old, Wallet.deposit)

pub debit_old :
    (env : Env) (u : Uuid) (amount : ℕ) (ref : Uuid) (text : Option String) (w : World)
    (tx : WalletTransaction)
    → env.fails wallet_read ≡ false
    → find (of_typed_reference u ref TransactionType.debit) w.transactions ≡ some tx
    → Wallet.debit env u amount ref text w ≡ (ok (to_transaction_dto tx), w)
unfolding Wallet.debit
debit_old env u amount ref text w tx =
    typed_transaction_old TransactionType.debit env u amount ref _ w tx

typed_transaction_twice :
    (type : TransactionType) (env env' : Env) (u : Uuid) (amount amount' : ℕ) (ref : Uuid)
    (text text' : String) (w : World)
    → IsDistinct w.wallets
    → env'.fails wallet_read ≡ false
    → WhenOk
        (λ dto w'. typed_transaction type env' u amount' ref text' w' ≡ (ok dto, w'))
        (typed_transaction type env u amount ref text w)
typed_transaction_twice type env env' u amount amount' ref text text' w d up =
    typed_transaction_cases
      (WhenOk (λ dto w'. typed_transaction type env' u amount' ref text' w' ≡ (ok dto, w'))) env u
      type amount ref text w d (λ e. tt)
      (λ tx old. typed_transaction_old type env' u amount' ref text' w tx up old)
      (λ tx w' new p q.
        typed_transaction_old type env' u amount' ref text' w' tx up
          (rw (p.logged, requested-of_typed_reference env u type amount ref text tx q)))

-- A debit, a credit or a deposit that succeeded and is sent again, with whatever amount, gives the
-- same answer and changes nothing, where no user has two wallets and the second request can read
-- the tables.
pub requests_twice :
    (env env' : Env) (u : Uuid) (amount amount' : ℕ) (ref : Uuid) (text text' : Option String)
    (w : World)
    → IsDistinct w.wallets
    → env'.fails wallet_read ≡ false
    → WhenOk
        (λ dto w'. Wallet.debit env' u amount' ref text' w' ≡ (ok dto, w'))
        (Wallet.debit env u amount ref text w)
      × WhenOk
          (λ dto w'. Wallet.credit env' u amount' ref text' w' ≡ (ok dto, w'))
          (Wallet.credit env u amount ref text w)
      × WhenOk
          (λ dto w'.
            Wallet.deposit env' u (record { amount_cents = amount'; client_mutation_id = ref }) w'
            ≡ (ok dto, w'))
          (Wallet.deposit env u (record { amount_cents = amount; client_mutation_id = ref }) w)
unfolding Wallet.debit Wallet.credit
requests_twice env env' u amount amount' ref text text' w d up = (
  typed_transaction_twice TransactionType.debit env env' u amount amount' ref _ _ w d up,
  typed_transaction_twice TransactionType.credit env env' u amount amount' ref _ _ w d up,
  deposit_cases
      (WhenOk (λ dto w'.
        Wallet.deposit env' u (record { amount_cents = amount'; client_mutation_id = ref }) w'
        ≡ (ok dto, w')))
      env u _ w d (λ e. tt) (λ tx old. deposit_old env' u _ w tx up old)
      (λ tx w' new p q. deposit_old env' u _ w' tx up (
        rw (
          p.logged,
          requested-of_reference env u TransactionType.deposit amount ref "Deposit" tx q,
        ))),
)
