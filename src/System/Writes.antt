-- ===== src/System/Writes.antt =====
-- The writes of the program, as the wallets and their transactions see them.
use bolt_bet.Base.{◌≡◌, ◌⊎◌, false, ◌∷◌, subst, sym}
use bolt_bet.Model.Types.{TransactionType}
use bolt_bet.Model.Entities.{Wallet, WalletTransaction, World}
use bolt_bet.Wallet.{wallet_taken}
use bolt_bet.Wallet.Rows.{IsDistinct}
use bolt_bet.Wallet.Posted.{Posted}
use bolt_bet.Validation.Bounds.{IsWithin}

-- A credit pays out what a bet was booked with; any other sum has come through the pipes.
abbrev pub IsPriced : WalletTransaction → Type 0
IsPriced tx = (tx.type ≡ TransactionType.credit) ⊎ IsWithin tx.amount_cents

-- `Writes w w'`: a sequence of writes leads from `w` to `w'`.
pub data Writes (w : World) : World → Type 0 where
  unchanged : Writes w w
  -- a database transaction of the wallet service
  posting :
      {v : World} (v' : World) (tx : WalletTransaction)
      → Writes w v
      → Posted tx v v'
      → IsPriced tx
      → Writes w v'
  -- a new wallet with nothing in it
  opening :
      {v : World} (row : Wallet)
      → Writes w v
      → wallet_taken row v.wallets ≡ false
      → row.balance_cents ≡ 0
      → Writes w (record v { wallets = row ∷ v.wallets })
  -- writes to other tables, to Redis or to the queues
  aside :
      {v : World} (v' : World)
      → Writes w v
      → v'.wallets ≡ v.wallets
      → v'.transactions ≡ v.transactions
      → Writes w v'

-- What is carried along.
pub record IsWritten (w v : World) : Type 0 where
  pub distinct : IsDistinct v.wallets
  pub writes : Writes w v

module _ (w : World) where
  pub IsWritten-aside :
      (v v' : World)
      → v'.wallets ≡ v.wallets
      → v'.transactions ≡ v.transactions
      → IsWritten w v
      → IsWritten w v'
  IsWritten-aside v v' p q h = record {
    distinct = subst IsDistinct (sym p) h.distinct;
    writes = aside v' h.writes p q;
  }

  pub IsWritten-posting :
      (v v' : World) (tx : WalletTransaction)
      → Posted tx v v'
      → IsPriced tx
      → IsWritten w v
      → IsWritten w v'
  IsWritten-posting v v' tx p priced h = record {
    distinct = p.distinct;
    writes = posting v' tx h.writes p priced;
  }

  pub IsWritten-opening :
      (v : World) (row : Wallet)
      → wallet_taken row v.wallets ≡ false
      → row.balance_cents ≡ 0
      → IsWritten w v
      → IsWritten w (record v { wallets = row ∷ v.wallets })
  IsWritten-opening v row free empty h = record {
    distinct = (free, h.distinct);
    writes = opening row h.writes free empty;
  }
