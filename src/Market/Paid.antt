-- ===== src/Market/Paid.antt =====
-- The payout of one winner.
use bolt_bet.Base.{◌≡◌, ◌⊎◌, inl, inr, refl, Bool-cases, some, List, ◌∷◌}
use bolt_bet.Base.Table.{find, update}
use bolt_bet.Model.Types.{TransactionType, MarketResult, BetStatus}
use bolt_bet.Model.Entities.{Market, Bet, World, WalletTransaction, bet_settled}
use bolt_bet.Model.Action.{Env, Error, Result, ok, err, bind, bet_write, publish}
use bolt_bet.Wallet.{of_typed_reference}
use bolt_bet.Wallet.Rows.{IsDistinct}
use bolt_bet.Wallet.Posted.{Posted, IsRequested}
use bolt_bet.Wallet.Effect.{credit_cases}
use bolt_bet.Market.{
  settle_bet, pay_out, payout_text, set_bet_status, publish_notification, has_bet_id,
}

-- The credit that the look-up of a payout finds.
abbrev pub IsCredited : Bet → List WalletTransaction → WalletTransaction → Type 0
IsCredited b ts tx = find (of_typed_reference b.user_id b.id TransactionType.credit) ts ≡ some tx

-- A credit is among the transactions under the bet's key, of the amount of its payout.
abbrev pub IsPaid : Bet → List WalletTransaction → Type 0
IsPaid b ts = (tx : WalletTransaction) × IsCredited b ts tx × (tx.amount_cents ≡ b.payout_cents)

-- The worlds after a payout, a mark and a note.
abbrev pub noted : Bet → Market → World → World
noted b m w = record w {
  notifications =
      bet_settled b.user_id b.id m.name MarketResult.win b.payout_cents ∷ w.notifications;
}

abbrev pub closed : Env → Bet → World → World
closed env b w = record w {
  bets =
      update (has_bet_id b.id)
        (λ bet. record bet { status = BetStatus.settled; updated_at = env.now }) w.bets;
}

-- The body of the loop for a winner: an exception before the payout, or the payout, new or old, and
-- then the writes that follow it, up to one that fails.
pub settle_bet_cases {ℓ} :
    (P : Result (Unit {0}) × World → Type ℓ) (env : Env) (m : Market) (b : Bet) (w : World)
    → IsDistinct w.wallets
    → ((e : Error) → P (err e, w))
    → ((w₁ : World)
        → ((w₁ ≡ w) × ((tx : WalletTransaction) × IsCredited b w.transactions tx))
          ⊎ ((tx : WalletTransaction) × Posted tx w w₁
              × IsRequested env b.user_id TransactionType.credit b.payout_cents b.id
                  (payout_text m.name)
                  tx)
        → ((e : Error) → P (err e, w₁))
          × ((e : Error) → P (err e, closed env b w₁))
          × P (ok tt, noted b m (closed env b w₁)))
    → P (settle_bet env m MarketResult.win b w)
unfolding settle_bet pay_out set_bet_status publish_notification
settle_bet_cases P env m b w d failed paid =
    credit_cases (λ r. P (bind (bind r (λ _ v. (ok tt, v))) rest)) env b.user_id b.payout_cents b.id
      (some (payout_text m.name)) w d failed (λ tx old. after w (inl (refl, (tx, old))))
      (λ tx w₁ new p q. after w₁ (inr (tx, p, q)))
  where
    rest : Unit {0} → World → Result (Unit {0}) × World
    rest _ v = bind (set_bet_status env b.id BetStatus.settled v) (λ _.
        publish_notification env
          (bet_settled b.user_id b.id m.name MarketResult.win b.payout_cents))

    after :
        (w₁ : World)
        → ((w₁ ≡ w) × ((tx : WalletTransaction) × IsCredited b w.transactions tx))
          ⊎ ((tx : WalletTransaction) × Posted tx w w₁
              × IsRequested env b.user_id TransactionType.credit b.payout_cents b.id
                  (payout_text m.name)
                  tx)
        → P (rest tt w₁)
    after w₁ h = elim (Bool-cases (env.fails bet_write)) [
      | inl down ↦ rw down ((paid w₁ h).0 _)
      | inr up ↦ elim (Bool-cases (env.fails publish)) [
        | inl down ↦ rw (up, down) ((paid w₁ h).1 _)
        | inr up' ↦ rw (up, up') (paid w₁ h).2
      ]
    ]
