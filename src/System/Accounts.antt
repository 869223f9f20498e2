-- ===== src/System/Accounts.antt =====
-- The wallets as what they stand for: an account for each user, into which money is paid and out of
-- which no more is taken than it holds.
use mathlib.Core.Path.{fun_ext}
use bolt_bet.Base.{
  ℕ, ◌+◌, ◌-◌, ◌≤◌, ◌≡◌, refl, ap, sym, subst, ◌∙◌, ==_iff, ◌==◌, List, [], ◌∷◌, ◌++◌, map, arith,
  false, if◌then◌else◌,
}
use bolt_bet.Crypto.{Crypto, Config}
use bolt_bet.Model.Types.{Uuid, TransactionType}
use bolt_bet.Model.Entities.{WalletTransaction, World}
use bolt_bet.Wallet.Rows.{IsDistinct, balance_of}
use bolt_bet.Wallet.Posted.{Moves}
use bolt_bet.Validation.{Packages}
use bolt_bet.System.{Event, run}
use bolt_bet.System.Writes.{Writes, unchanged, posting, opening, aside}
use bolt_bet.System.Books.{balance_of-opened}
use bolt_bet.System.Operations.{run-IsWritten}

abbrev pub Accounts : Type 0
Accounts = Uuid → ℕ

abbrev pub pay_in : Uuid → ℕ → Accounts → Accounts
pay_in u n a v = if u == v then a v + n else a v

abbrev pub take_out : Uuid → ℕ → Accounts → Accounts
take_out u n a v = if u == v then a v - n else a v

pub data Entry : Type 0 where
  paid_in : Uuid → ℕ → Entry
  taken_out : Uuid → ℕ → Entry

-- `History a es b`: the entries, the newest first, lead from `a` to `b`.
pub data History (a : Accounts) : List Entry → Accounts → Type 0 where
  start : History a [] a
  paying :
      {es : List Entry} {b : Accounts} (u : Uuid) (n : ℕ)
      → History a es b
      → History a (paid_in u n ∷ es) (pay_in u n b)
  taking :
      {es : List Entry} {b : Accounts} (u : Uuid) (n : ℕ)
      → History a es b
      → n ≤ b u
      → History a (taken_out u n ∷ es) (take_out u n b)

-- What a state, and a row, stand for.
abbrev pub accounts : World → Accounts
accounts w u = balance_of u w.wallets

abbrev pub entry : TransactionType → Uuid → ℕ → Entry
entry TransactionType.deposit u n = paid_in u n
entry TransactionType.debit u n = taken_out u n
entry TransactionType.credit u n = paid_in u n

abbrev pub entry_of : WalletTransaction → Entry
entry_of tx = entry tx.type tx.user_id tx.amount_cents

-- The new rows, and the history that they stand for.
pub record Refines (w v : World) : Type 0 where
  pub rows : List WalletTransaction
  pub logged : v.transactions ≡ rows ++ w.transactions
  pub history : History (accounts w) (map entry_of rows) (accounts v)

-- One row that moves a balance is one entry.
module _ {a : Accounts} {es : List Entry} (b c : Accounts) (u : Uuid) (n : ℕ)
    (others : (v : Uuid) → (u == v) ≡ false → c v ≡ b v) (before : History a es b) where
  paid : c u ≡ b u + n → History a (paid_in u n ∷ es) c
  paid h = subst (History a (paid_in u n ∷ es)) (fun_ext same) (paying u n before)
    where
      same : (v : Uuid) → pay_in u n b v ≡ c v
      same v = ground (arith, others v, ==_iff u v)

  drawn : c u + n ≡ b u → History a (taken_out u n ∷ es) c
  drawn h =
      subst (History a (taken_out u n ∷ es)) (fun_ext same) (taking u n before (omega (arith, h)))
    where
      same : (v : Uuid) → take_out u n b v ≡ c v
      same v = ground (arith, others v, ==_iff u v)

  one_entry :
      (type : TransactionType) → Moves type n (b u) (c u) → History a (entry type u n ∷ es) c
  one_entry TransactionType.deposit h = paid h
  one_entry TransactionType.debit h = drawn h
  one_entry TransactionType.credit h = paid h

Writes-Refines : {w v : World} → Writes w v → Refines w v
Writes-Refines unchanged = record { rows = []; logged = refl; history = start }
Writes-Refines (posting {v} v' tx r p priced) =
    let before = Writes-Refines r in
    record {
      rows = tx ∷ before.rows;
      logged = p.logged ∙ ap (◌∷◌ tx) before.logged;
      history =
          one_entry (accounts v) (accounts v') tx.user_id tx.amount_cents p.others before.history
            tx.type p.moved;
    }
Writes-Refines {w} (opening {v} row r free empty) =
    let before = Writes-Refines r in
    record {
      rows = before.rows;
      logged = before.logged;
      history =
          subst (History (accounts w) (map entry_of before.rows))
            (fun_ext λ u. sym (balance_of-opened row v.wallets u free empty)) before.history;
    }
Writes-Refines {w} (aside {v} v' r p q) =
    let before = Writes-Refines r in
    record {
      rows = before.rows;
      logged = q ∙ before.logged;
      history =
          subst (λ ws. History (accounts w) (map entry_of before.rows) (λ u. balance_of u ws))
            (sym p) before.history;
    }

-- The back end refines the accounts: from a state in which no user has two wallets, whatever
-- requests come in, whatever messages are handled and whatever fails, the rows that are added to the
-- transactions stand for payments in and out that lead from the old balances to the new ones, none
-- of which takes out more than the account holds at that point.
pub run-Refines :
    (packages : Packages) (crypto : Crypto) (config : Config) (es : List Event) (w : World)
    → IsDistinct w.wallets
    → Refines w (run packages crypto config es w)
run-Refines packages crypto config es w d =
    Writes-Refines (run-IsWritten packages crypto config es w d).writes
