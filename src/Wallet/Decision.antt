-- ===== src/Wallet/Decision.antt =====
-- When a debit is refused and when it goes through.
use bolt_bet.Base.{
  Option, get_or, ℕ, ◌+◌, ◌-◌, ◌≡◌, ◌≤◌, ◌<◌, ◌⊎◌, refl, Bool-cases, Option-cases, inl, inr, true,
  false, none, String, List, [], ◌∷◌, arith, ◌==◌, ltb,
}
use bolt_bet.Base.Table.{find, taken}
use bolt_bet.Model.Types.{Uuid, debit}
use bolt_bet.Model.Entities.{Wallet, WalletTransaction, World}
use bolt_bet.Model.Action.{
  Env, Result, ok, err, wallet_read, wallet_transaction, insufficient_balance, integer_max,
  fits_integer, bind, pure, commit_or_rollback,
}
use bolt_bet.Wallet
use bolt_bet.Wallet.{
  typed_transaction, of_typed_reference, wallet_taken, new_wallet, find_wallet, lock_wallet,
  insert_wallet, new_balance, post_transaction, change_balance, apply_transaction,
  to_transaction_dto, TransactionResponseDto, transaction_row,
}
use bolt_bet.Wallet.Rows.{IsDistinct, balance_of, balance_of-find, balance_of-none}

-- Nothing outside the service stands in the way: the calls answer, and the generated keys are new.
pub record IsReady (env : Env) (u : Uuid) (w : World) : Type 0 where
  pub answers : env.fails wallet_transaction ≡ false
  pub new_wallet_key : taken (λ (row : Wallet). row.id == env.wallet_id) w.wallets ≡ false
  pub new_transaction_key :
      taken (λ (row : WalletTransaction). row.id == env.transaction_id) w.transactions ≡ false

-- A user without a wallet, and a wallet key that is not in the table.
wallet_free :
    (env : Env) (u : Uuid) (ws : List Wallet)
    → find_wallet u ws ≡ none
    → taken (λ (row : Wallet). row.id == env.wallet_id) ws ≡ false
    → wallet_taken (new_wallet env u) ws ≡ false
wallet_free env u [] h k = refl
wallet_free env u (x ∷ ws) h k = ground (arith, wallet_free env u ws)

-- The lock then succeeds, with the user's balance.
locked :
    (env : Env) (u : Uuid) (w : World)
    → IsReady env u w
    → (row : Wallet) × (ws : List Wallet) × (lock_wallet env u w
        ≡ (ok row, record w { wallets = ws }))
      × (row.balance_cents ≡ balance_of u w.wallets)
unfolding lock_wallet
locked env u w r = elim (Option-cases (find_wallet u w.wallets)) [
  | inl missing ↦
      let free = wallet_free env u w.wallets missing r.new_wallet_key in
      (
        new_wallet env u,
        new_wallet env u ∷ w.wallets,
        rw (missing, lock_wallet, free, insert_wallet),
        ground (arith, balance_of-none u w.wallets),
      )
  | inr (row, e) ↦
      (row, w.wallets, rw (e, lock_wallet), ground (arith, balance_of-find u w.wallets {row = row}))
]

-- The answer of a database transaction that did not raise.
answered :
    (before : World) (m : Result WalletTransaction × World) (tx : WalletTransaction)
    → m.0 ≡ ok tx
    → (bind (commit_or_rollback before m) (λ row. pure (to_transaction_dto row))).0
      ≡ ok (to_transaction_dto tx)
answered before (ok row, w) tx h = cc
answered before (err e, w) tx h = cc

module _ (env : Env) (u : Uuid) (amount : ℕ) (ref : Uuid) (text : String) where
  post_short :
      (row : Wallet) (w : World)
      → row.balance_cents < amount
      → post_transaction env u debit amount ref text row w
        ≡ (err (insufficient_balance row.balance_cents amount), w)
  unfolding post_transaction
  post_short row w short =
      let test : ltb row.balance_cents amount ≡ true = ground arith in
      rw (test, post_transaction, new_balance)

  post_covered :
      (row : Wallet) (w : World)
      → amount ≤ row.balance_cents
      → row.balance_cents ≤ integer_max
      → taken (λ (tx : WalletTransaction). tx.id == env.transaction_id) w.transactions ≡ false
      → (post_transaction env u debit amount ref text row w).0
        ≡ ok (transaction_row env row.id u debit amount (row.balance_cents - amount) ref text)
  unfolding post_transaction
  post_covered row w enough fits free =
      let test : ltb row.balance_cents amount ≡ false = ground arith in
      let low : fits_integer (row.balance_cents - amount) ≡ true = ground arith in
      let small : fits_integer amount ≡ true = ground arith in
      rw (test, post_transaction, new_balance, low, small, free)

  module _ (w : World) (r : IsReady env u w) where
    -- With no fault on the way, and a balance that its column holds, a debit beyond the balance is
    -- refused with the balance and the amount, and nothing changes; a debit within the balance goes
    -- through, and its snapshot is the balance less the amount.
    pub debit_decision :
        balance_of u w.wallets ≤ integer_max
        → ((balance_of u w.wallets < amount)
            × (apply_transaction env u debit amount ref text w
                ≡ (err (insufficient_balance (balance_of u w.wallets) amount), w)))
          ⊎ ((amount ≤ balance_of u w.wallets)
              × ((dto : TransactionResponseDto) × ((apply_transaction env u debit amount ref text
                      w).0
                    ≡ ok dto)
                  × (dto.balance_after_cents + amount ≡ balance_of u w.wallets)))
    unfolding apply_transaction change_balance to_transaction_dto
    debit_decision fits = elim (Bool-cases (ltb (balance_of u w.wallets) amount)) [
      | inl test ↦
          let short : balance_of u w.wallets < amount = ground arith in
          inl (
            short,
            rw (r.answers, lock, post_short row (record w { wallets = ws }) (rw same short), same),
          )
      | inr test ↦
          let enough : amount ≤ balance_of u w.wallets = ground arith in
          let done =
            post_covered row (record w { wallets = ws }) (rw same enough) (rw same fits)
              r.new_transaction_key in
          inr (
            enough,
            (
              to_transaction_dto
                  (transaction_row env row.id u debit amount (row.balance_cents - amount) ref text),
              rw (r.answers, lock) (answered w _ _ done),
              omega (arith, same),
            ),
          )
    ]
      where
        row : Wallet
        row = (locked env u w r).0

        ws : List Wallet
        ws = (locked env u w r).1

        lock : lock_wallet env u w ≡ (ok row, record w { wallets = ws })
        lock = (locked env u w r).2

        same : row.balance_cents ≡ balance_of u w.wallets
        same = (locked env u w r).3

-- A debit that is new, readable and covered.
pub record IsFunded (env : Env) (u : Uuid) (amount : ℕ) (ref : Uuid) (w : World) : Type 0 where
  pub readable : env.fails wallet_read ≡ false
  pub ready : IsReady env u w
  pub distinct : IsDistinct w.wallets
  pub unused : find (of_typed_reference u ref debit) w.transactions ≡ none
  pub covered : amount ≤ balance_of u w.wallets
  pub fits : balance_of u w.wallets ≤ integer_max

-- It goes through.
pub debit_funded :
    (env : Env) (u : Uuid) (amount : ℕ) (ref : Uuid) (text : Option String) (w : World)
    → IsFunded env u amount ref w
    → (dto : TransactionResponseDto) × (w₁ : World) × (Wallet.debit env u amount ref text w
        ≡ (ok dto, w₁))
unfolding Wallet.debit typed_transaction
debit_funded env u amount ref text w f =
    elim (debit_decision env u amount ref (get_or text "Bet placement") w f.ready f.fits) [
      | inl (short, refused) ↦ absurd (omega (arith, short, f.covered))
      | inr (enough, (dto, done, sum)) ↦ (
        dto,
        (apply_transaction env u debit amount ref (get_or text "Bet placement") w).1,
        rw (f.readable, f.unused, Wallet.debit, typed_transaction)
            λ i. (
              done i,
              (apply_transaction env u debit amount ref (get_or text "Bet placement") w).1,
            ),
      )
    ]
