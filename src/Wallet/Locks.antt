-- ===== src/Wallet/Locks.antt =====
-- The database transactions of `applyTransaction` that run at the same time. The look for an earlier
-- transaction is one step. The SELECT FOR UPDATE of a wallet is another: it waits while another
-- transaction has locked that row, and the row that it reads is what the balance is computed from.
-- The writes become visible, and the lock is given up, when the transaction commits. Where the user
-- has no wallet there is no row to lock, and the unique index refuses all inserts but one.
pub mod Soundness
use bolt_bet.Base.{
  ℕ, ◌≡◌, ◌≢◌, refl, ap, sym, subst, ◌∙◌, Bool, Bool-cases, Option-cases, inl, inr, true, false,
  Option, some, none, String, arith, ◌==◌, ==_iff, if◌then◌else◌,
}
use bolt_bet.Base.Table.{find}
use bolt_bet.Model.Types.{Uuid, TransactionType}
use bolt_bet.Model.Entities.{Wallet, WalletTransaction, World}
use bolt_bet.Model.Action.{Env, Result, ok, err, bind, in_transaction}
use bolt_bet.Wallet.{find_wallet, wallet_taken, new_wallet, insert_wallet, post_transaction}
use bolt_bet.Wallet.Ledger.{IsLedger, posted-IsLedger}
use bolt_bet.Wallet.Rows.{IsDistinct, balance_of-none}
use bolt_bet.Wallet.Posted.{Locked, Posted, IsRequested, post_transaction_cases}
use bolt_bet.Wallet.Interleaving.{Request, looks_for}

pub data Stage : Type 0 where
  waiting : Request → Stage
  -- the look-up found nothing
  cleared : Request → Stage
  -- the wallet's row is locked, and was read so
  holding : Request → Wallet → Stage
  -- the user has no wallet
  missing : Request → Stage
  finished : Stage

abbrev pub after_look : Request → Option WalletTransaction → Stage
after_look r none = cleared r
after_look r (some tx) = finished

-- What has been committed, and where each request stands.
pub record Server : Type 0 where
  pub world : World
  pub stage : ℕ → Stage

abbrev pub put : ℕ → Stage → (ℕ → Stage) → ℕ → Stage
put i p f j = if i == j then p else f j

-- The rest of the transaction, from the row that was read, and its commit or rollback.
abbrev pub post : Env → Request → Wallet → World → World
post env r row w =
    (in_transaction (post_transaction env r.user_id r.type r.amount r.reference_id r.text row) w).1

abbrev pub insert_and_post : Env → Request → World → World
insert_and_post env r w =
    (in_transaction
      (λ v.
        bind (insert_wallet (new_wallet env r.user_id) v)
          (post_transaction env r.user_id r.type r.amount r.reference_id r.text))
      w).1

-- No other request has locked the row.
abbrev pub IsFree : Wallet → (ℕ → Stage) → Type 0
IsFree row stage =
    (j : ℕ) (r : Request) (held : Wallet) → stage j ≡ holding r held → (held.id == row.id) ≡ false

pub data Step (s : Server) : Server → Type 0 where
  look :
      (i : ℕ) (r : Request)
      → s.stage i ≡ waiting r
      → Step s (record s {
        stage = put i (after_look r (find (looks_for r) s.world.transactions)) s.stage;
      })
  lock :
      (i : ℕ) (r : Request) (row : Wallet)
      → s.stage i ≡ cleared r
      → find_wallet r.user_id s.world.wallets ≡ some row
      → IsFree row s.stage
      → Step s (record s { stage = put i (holding r row) s.stage })
  miss :
      (i : ℕ) (r : Request)
      → s.stage i ≡ cleared r
      → find_wallet r.user_id s.world.wallets ≡ none
      → Step s (record s { stage = put i (missing r) s.stage })
  commit :
      (i : ℕ) (r : Request) (row : Wallet) (env : Env)
      → s.stage i ≡ holding r row
      → Step s (record { world = post env r row s.world; stage = put i finished s.stage })
  commit_new :
      (i : ℕ) (r : Request) (env : Env)
      → s.stage i ≡ missing r
      → Step s (record { world = insert_and_post env r s.world; stage = put i finished s.stage })
  -- a statement or the connection fails, and the transaction is rolled back
  fail : (i : ℕ) → Step s (record s { stage = put i finished s.stage })

pub data Reach (s : Server) : Server → Type 0 where
  here : Reach s s
  next : {t u : Server} → Reach s t → Step t u → Reach s u
