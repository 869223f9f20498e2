-- ===== src/Tests/Wallets.antt =====
-- The wallet service on the small state.
use bolt_bet.Wallet.{of_reference}
use bolt_bet.Base.{◌==◌, ℕ, ◌≢◌, ◌≡◌, ◌+◌, ◌≤◌, ◌<◌, ◌⊎◌, refl, none, arith}
use bolt_bet.Model.Types.{TransactionType}
use bolt_bet.Model.Action.{ok, err, WhenOk, insufficient_balance}
use bolt_bet.Wallet
use bolt_bet.Wallet.{apply_transaction, TransactionResponseDto}
use bolt_bet.Wallet.Ledger.{IsLedger}
use bolt_bet.Wallet.Idempotency.{requests_twice}
use bolt_bet.Wallet.Once.{IsOnce}
use bolt_bet.Wallet.Decision.{debit_decision}
use bolt_bet.Wallet.Interleaving.{
  Request, System, Reach, doubled, change, BreaksOnce, duplicate_applied_twice,
}
use bolt_bet.Model.Entities.{WalletTransaction, Bet, Market}
use bolt_bet.Wallet.{to_transaction_dto}
use bolt_bet.Betting.{to_bet_dto}
use bolt_bet.Market.{to_market_dto}
use bolt_bet.Lists.{get_transactions, get_bets, list, of_status}
use bolt_bet.Lists.Pages.{Answered, lists_answer}
use bolt_bet.Wallet.Locks.{Stage, Server, post, holding}
use bolt_bet.Wallet.Locks
use bolt_bet.Wallet.Locks.Soundness.{locked-IsLedger}
use bolt_bet.Model.Entities.{Wallet}
use bolt_bet.Tests.{purse, calm, later, ada, shop}

pub shop-IsLedger : IsLedger shop
shop-IsLedger = record {
  distinct = (refl, tt);
  balanced = λ v. ground arith;
  audited = (refl, (refl, tt));
}

requests_twice_example :
    WhenOk
      (λ dto w'. Wallet.debit later ada 900 7 none w' ≡ (ok dto, w'))
      (Wallet.debit calm ada 300 7 none shop)
    × WhenOk
        (λ dto w'. Wallet.credit later ada 900 7 none w' ≡ (ok dto, w'))
        (Wallet.credit calm ada 300 7 none shop)
    × WhenOk
        (λ dto w'.
          Wallet.deposit later ada (record { amount_cents = 900; client_mutation_id = 7 }) w'
          ≡ (ok dto, w'))
        (Wallet.deposit calm ada (record { amount_cents = 300; client_mutation_id = 7 }) shop)
requests_twice_example = requests_twice calm later ada 300 900 7 none none shop (refl, tt) refl

shop-IsOnce : IsOnce shop.transactions
shop-IsOnce u ref t = ground arith

debit_decision_example :
    ((800 < 300)
      × (apply_transaction calm ada TransactionType.debit 300 7 "Bet" shop
          ≡ (err (insufficient_balance 800 300), shop)))
    ⊎ ((300 ≤ 800)
        × ((dto : TransactionResponseDto) × ((apply_transaction calm ada TransactionType.debit 300 7
                "Bet" shop).0
              ≡ ok dto)
            × (dto.balance_after_cents + 300 ≡ 800)))
debit_decision_example =
    debit_decision calm ada 300 7 "Bet" shop
      (record { answers = refl; new_wallet_key = refl; new_transaction_key = refl }) (ground arith)

abbrev order : Request
order = record {
  user_id = ada;
  type = TransactionType.debit;
  amount = 300;
  reference_id = 7;
  text = "Bet";
}

duplicate_applied_twice_example :
    ((t : System) × Reach (doubled order shop) t
      × (t.world ≡ change later order (change calm order shop)))
    × BreaksOnce order calm later shop
duplicate_applied_twice_example = duplicate_applied_twice order calm later shop (refl, tt) refl

-- Two requests of one user: the first holds the row when the second has looked.
abbrev two_orders : Server
two_orders = record {
  world = shop;
  stage =
      Locks.put 0 (Stage.waiting order) (Locks.put 1 (Stage.waiting order) (λ i. Stage.finished));
}

abbrev first_holds : Server
first_holds = record {
  world = shop;
  stage =
      Locks.put 1 (Stage.cleared order)
        (Locks.put 0 (holding order purse) (Locks.put 0 (Stage.cleared order) two_orders.stage));
}

abbrev first_done : Server
first_done = record {
  world = post calm order purse shop;
  stage = Locks.put 0 Stage.finished first_holds.stage;
}

none_held : (i : ℕ) (r : Request) (row : Wallet) → two_orders.stage i ≢ holding r row
none_held i r row e = ground arith

locked-IsLedger_example : IsLedger first_done.world
locked-IsLedger_example =
    locked-IsLedger {s = two_orders} {t = first_done} shop-IsLedger none_held (
      Locks.next
        (Locks.next
          (Locks.next (Locks.next Locks.here (Locks.look 0 order refl))
            (Locks.lock 0 order purse refl refl (λ j r held e. ground arith)))
          (Locks.look 1 order refl))
        (Locks.commit 0 order purse calm refl))

lists_answer_example :
    Answered
      (λ (tx : WalletTransaction). tx.created_at)
      (λ tx. tx.user_id == ada)
      to_transaction_dto
      1
      2
      shop.replica.transactions
      shop
      (get_transactions calm ada 1 2 shop)
    × Answered
        (λ (bet : Bet). bet.created_at)
        (λ bet. bet.user_id == ada)
        to_bet_dto
        1
        2
        shop.replica.bets
        shop
        (get_bets calm ada 1 2 shop)
    × Answered
        (λ (market : Market). market.created_at)
        (of_status none)
        to_market_dto
        1
        2
        shop.markets
        shop
        (list calm 1 2 none shop)
lists_answer_example = lists_answer calm ada 1 2 none shop refl refl refl refl
