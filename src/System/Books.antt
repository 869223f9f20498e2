-- ===== src/System/Books.antt =====
-- What holds of the wallets in every state that the back end gets into.
use bolt_bet.Base.{◌≡◌, refl, ◌∷◌, [], arith, sym, subst, List, false}
use bolt_bet.Base.Table.{All}
use bolt_bet.Crypto.{Crypto, Config}
use bolt_bet.Model.Types.{Uuid}
use bolt_bet.Model.Entities.{Wallet, World}
use bolt_bet.Wallet.{wallet_taken}
use bolt_bet.Wallet.Rows.{balance_of}
use bolt_bet.Wallet.Ledger.{IsLedger, IsLedger-same, posted-IsLedger}
use bolt_bet.Validation.{Packages}
use bolt_bet.System.{Event, run}
use bolt_bet.System.Writes.{Writes, unchanged, posting, opening, aside, IsPriced}
use bolt_bet.System.Operations.{run-IsWritten}

-- A user who has a wallet clashes with any new one, and one who has none has a balance of zero.
taken_balance :
    (row : Wallet) (ws : List Wallet) → wallet_taken row ws ≡ false → balance_of row.user_id ws ≡ 0
taken_balance row [] h = refl
taken_balance row (x ∷ ws) h = ground (arith, taken_balance row ws)

-- A wallet with nothing in it changes nobody's balance.
pub balance_of-opened :
    (row : Wallet) (ws : List Wallet) (v : Uuid)
    → wallet_taken row ws ≡ false
    → row.balance_cents ≡ 0
    → balance_of v (row ∷ ws) ≡ balance_of v ws
balance_of-opened row ws v free empty = ground (arith, taken_balance row ws)

Writes-IsLedger : {w v : World} → IsLedger w → Writes w v → IsLedger v
Writes-IsLedger h unchanged = h
Writes-IsLedger h (posting {v} v' tx r p priced) = posted-IsLedger tx v v' p (Writes-IsLedger h r)
Writes-IsLedger h (opening {v} row r free empty) =
    let l = Writes-IsLedger h r in
    record {
      distinct = (free, l.distinct);
      balanced = λ u. rw (balance_of-opened row v.wallets u free empty) (l.balanced u);
      audited = l.audited;
    }
Writes-IsLedger h (aside {v} v' r p q) = IsLedger-same v v' p q (Writes-IsLedger h r)

Writes-IsPriced :
    {w v : World} → All IsPriced w.transactions → Writes w v → All IsPriced v.transactions
Writes-IsPriced h unchanged = h
Writes-IsPriced h (posting v' tx r p priced) =
    subst (All IsPriced) (sym p.logged) (priced, Writes-IsPriced h r)
Writes-IsPriced h (opening row r free empty) = Writes-IsPriced h r
Writes-IsPriced h (aside v' r p q) = subst (All IsPriced) (sym q) (Writes-IsPriced h r)

module _ (packages : Packages) (crypto : Crypto) (config : Config) (es : List Event) (w : World)
    (h : IsLedger w) where
  -- Books that are right stay right, whatever requests come in through the API, whatever messages
  -- are handled and whatever fails on the way, in any order: one wallet for a user, every balance
  -- is what came in less what went out, and so is every snapshot in the audit trail.
  pub run-IsLedger : IsLedger (run packages crypto config es w)
  run-IsLedger = Writes-IsLedger h (run-IsWritten packages crypto config es w h.distinct).writes

  -- In every state that is reached from right books in which every deposit and debit is of $1.00
  -- to $10,000.00, every deposit and debit is: the bounds that the pipes check hold of all that the
  -- wallet records.
  pub run-IsPriced :
      All IsPriced w.transactions → All IsPriced (run packages crypto config es w).transactions
  run-IsPriced priced =
      Writes-IsPriced priced (run-IsWritten packages crypto config es w h.distinct).writes
