-- ===== src/System/Operations.antt =====
-- Each operation is a sequence of writes.
use bolt_bet.Base.{refl, ap, sym, subst, inl, inr, Bool-cases, Option, some, String, [], ◌∷◌, List}
use bolt_bet.Crypto.{JwtPayload, Crypto, Config}
use bolt_bet.Model.Types.{Uuid, TransactionType, MarketResult}
use bolt_bet.Model.Entities
use bolt_bet.Model.Entities.{Bet, WalletTransaction, World}
use bolt_bet.Model.Action.{Env}
use bolt_bet.Model.Keeps.{Keeps}
use bolt_bet.Wallet
use bolt_bet.Wallet.{DepositDto}
use bolt_bet.Wallet.Rows.{IsDistinct}
use bolt_bet.Wallet.Posted.{IsRequested}
use bolt_bet.Wallet.Effect.{deposit_cases, debit_cases, credit_cases}
use bolt_bet.Wallet.Frame.{get_balance_writes}
use bolt_bet.Market
use bolt_bet.Market.{pay_out}
use bolt_bet.Market.Money.{pay_out_credited}
use bolt_bet.Market.Frame.{settle-Keeps, update_status-Keeps, create_market_frame}
use bolt_bet.Betting.{bet_text}
use bolt_bet.Betting.Frame.{place_bet-Keeps}
use bolt_bet.Settlement.Frame.{handle_message-Keeps}
use bolt_bet.Identity.Frame.{IsOwnWrite, logout-IsOwnWrite}
use bolt_bet.Validation.{Packages}
use bolt_bet.Validation.Bounds.{IsWithin}
use bolt_bet.Controllers.{Request, is_public, serve}
use bolt_bet.Controllers.Access.{serve_cases, serve-public}
use bolt_bet.Controllers.Frame.{Kept, any_handler-Keeps, public_handler-IsOwnWrite}
use bolt_bet.System.{Event, requested, delivered, replicated, happen, run}
use bolt_bet.System.Writes.{
  IsPriced, IsWritten, IsWritten-aside, IsWritten-posting, IsWritten-opening, unchanged,
}

module _ (w : World) where
  abbrev P : World → Type 0
  P = IsWritten w

  priced :
      (env : Env) (u : Uuid) (type : TransactionType) (amount : _) (ref : Uuid) (text : String)
      (tx : WalletTransaction)
      → IsRequested env u type amount ref text tx
      → IsWithin amount
      → IsPriced tx
  priced env u type amount ref text tx q b = inr (subst IsWithin (sym q.sum) b)

  deposit_writes :
      (env : Env) (u : Uuid) (dto : DepositDto)
      → IsWithin dto.amount_cents
      → Keeps P (Wallet.deposit env u dto)
  deposit_writes env u dto b v h =
      deposit_cases (λ r. P r.1) env u dto v h.distinct (λ e. h) (λ tx old. h)
        λ tx v' new p q. IsWritten-posting w v v' tx p (priced env u _ _ _ _ tx q b) h

  debit_writes :
      (env : Env) (u : Uuid) (amount : _) (ref : Uuid) (text : Option String)
      → IsWithin amount
      → Keeps P (Wallet.debit env u amount ref text)
  debit_writes env u amount ref text b v h =
      debit_cases (λ r. P r.1) env u amount ref text v h.distinct (λ e. h) (λ tx old. h)
        λ tx v' new p q. IsWritten-posting w v v' tx p (priced env u _ _ _ _ tx q b) h

  credit_writes :
      (env : Env) (u : Uuid) (amount : _) (ref : Uuid) (text : Option String)
      → Keeps P (Wallet.credit env u amount ref text)
  credit_writes env u amount ref text v h =
      credit_cases (λ r. P r.1) env u amount ref text v h.distinct (λ e. h) (λ tx old. h)
        λ tx v' new p q. IsWritten-posting w v v' tx p (inl q.kind) h

  pay_out_writes :
      (m : Entities.Market) (env : Env) (result : MarketResult) (bet : Bet)
      → Keeps P (pay_out env m result bet)
  pay_out_writes m env result bet =
      pay_out_credited P result m env bet (λ text. credit_writes env _ _ _ (some text))

  own_writes : (v v' : World) → IsOwnWrite v v' → P v → P v'
  own_writes v v' own =
      IsWritten-aside w v v' (ap (λ (z : World). z.wallets) own)
        (ap (λ (z : World). z.transactions) own)

  balance_writes : (env : Env) (u : Uuid) → Keeps P (Wallet.get_balance env u)
  balance_writes env u v h = elim (get_balance_writes env u v) [
    | inl same ↦ subst P (sym same) h
    | inr (free, new) ↦ subst P (sym new) (IsWritten-opening w v _ free refl h)
  ]

  kept :
      (crypto : Crypto) (config : Config) (r : Request) (user : JwtPayload)
      → Kept P crypto config r user
  kept crypto config r user = record {
    tasks = λ ts v. IsWritten-aside w v _ refl refl;
    logouts = λ v. own_writes v _ (logout-IsOwnWrite crypto config r.draw v user r.cookie);
    balances = balance_writes r.env user.sub;
    deposits = deposit_writes r.env user.sub;
    bets = λ dto b.
        place_bet-Keeps P r.env user.sub user.role dto
          (λ name. debit_writes r.env user.sub _ _ (some (bet_text name)) b)
          (λ bs es ms v. IsWritten-aside w v _ refl refl);
  }

  module _ (packages : Packages) (crypto : Crypto) (config : Config) where
    serve_writes : (r : Request) (v : World) → P v → P (serve packages crypto config r v).1
    serve_writes r v h = elim (Bool-cases (is_public r.route)) [
      | inl opened ↦
          rw (serve-public packages crypto config r v opened)
            (own_writes v _ (public_handler-IsOwnWrite packages crypto config r r.route v) h)
      | inr closed ↦
          serve_cases packages crypto config r v (λ z. P z.1) closed (λ code. h)
            λ a.
              any_handler-Keeps P packages crypto config r a.payload
                (kept crypto config r a.payload) (λ dto v. created r dto v)
                (λ id s.
                  update_status-Keeps P r.env id s (λ m v. IsWritten-aside w v _ refl refl)
                    (λ m v. IsWritten-aside w v _ refl refl))
                (λ id result.
                  settle-Keeps P r.env r.envs id result (λ m e b. pay_out_writes m e result b)
                    (λ m v. IsWritten-aside w v _ refl refl)
                    (λ m v. IsWritten-aside w v _ refl refl)
                    (λ e i v. IsWritten-aside w v _ refl refl))
                r.route v h
    ]
      where
        created : (r : Request) (dto : _) → Keeps P (Market.create_market r.env dto)
        created r dto v =
            IsWritten-aside w v _ (ap (λ (z : World). z.wallets) (create_market_frame r.env dto v))
              (ap (λ (z : World). z.transactions) (create_market_frame r.env dto v))

    happen_writes : (e : Event) (v : World) → P v → P (happen packages crypto config e v)
    happen_writes (requested r) v h = serve_writes r v h
    happen_writes (delivered d) v h =
        handle_message-Keeps P d.env d.env' d.payload (λ v. IsWritten-aside w v _ refl refl) v h
    happen_writes replicated v h = IsWritten-aside w v _ refl refl h

    run_writes : (es : List Event) (v : World) → P v → P (run packages crypto config es v)
    run_writes [] v h = h
    run_writes (e ∷ es) v h =
        run_writes es (happen packages crypto config e v) (happen_writes e v h)

-- Whatever requests come in and whatever messages are handled, in any order and with any failures:
-- what becomes of the state is a sequence of writes.
pub run-IsWritten :
    (packages : Packages) (crypto : Crypto) (config : Config) (es : List Event) (w : World)
    → IsDistinct w.wallets
    → IsWritten w (run packages crypto config es w)
run-IsWritten packages crypto config es w d =
    run_writes w packages crypto config es w (record { distinct = d; writes = unchanged })
