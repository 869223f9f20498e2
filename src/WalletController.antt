-- ===== src/WalletController.antt =====
-- WalletController. The user is `req.user`, which the guard has set.
use bolt_bet.Crypto.{JwtPayload}
use bolt_bet.Model.Entities.{Body, World}
use bolt_bet.Model.Action.{Env}
use bolt_bet.Wallet
use bolt_bet.Lists
use bolt_bet.Validation.{Packages, deposit_dto, Query}
use bolt_bet.Http.{Response, balance, transaction, transactions, respond, piped, read_page}

module _ (env : Env) (user : JwtPayload) where
  abbrev pub get_balance : World → Response × World
  get_balance w = respond 200 balance (Wallet.get_balance env user.sub w)

  abbrev pub deposit : Packages → Body → World → Response × World
  deposit packages body =
      piped (deposit_dto packages body)
        λ dto w. respond 201 transaction (Wallet.deposit env user.sub dto w)

  abbrev pub get_transactions : Query → Query → World → Response × World
  get_transactions page limit =
      read_page page limit transactions (Lists.get_transactions env user.sub)
