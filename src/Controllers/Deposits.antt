-- ===== src/Controllers/Deposits.antt =====
-- A request to POST /v1/wallet/deposit, from its headers to the balance.
use bolt_bet.Base.Table.{find}
use bolt_bet.Model.Action.{Env}
use bolt_bet.Base.{ℕ, ◌∷◌, none, some, ◌+◌, ◌≡◌, ◌⊎◌, ◌==◌, refl, ap, sym, subst, false, inl, inr}
use bolt_bet.Crypto.{Crypto, Config}
use bolt_bet.Model.Types.{Uuid, TransactionType}
use bolt_bet.Model.Entities.{Body, WalletTransaction, World}
use bolt_bet.Wallet
use bolt_bet.Wallet.{of_reference, TransactionResponseDto, DepositDto, to_transaction_dto}
use bolt_bet.Wallet.Rows.{IsDistinct, balance_of}
use bolt_bet.Wallet.Posted.{Posted, IsRequested, requested-Moves}
use bolt_bet.Wallet.Effect.{deposit_cases}
use bolt_bet.Auth.Guards.{IsAllowed}
use bolt_bet.Validation.{Packages, Piped, bad_request, thrown, passed, deposit_dto}
use bolt_bet.Validation.Bounds.{IsWithin, deposit_dto-IsWithin}
use bolt_bet.Controllers.{is_public, deposit, Request, handler, serve, roles}
use bolt_bet.Http.{Response, success, failure, transaction, respond, piped, status_of}
use bolt_bet.Controllers.Access.{serve_cases}

-- A new transaction of the deposit that was asked for, by which one user's balance is higher by its
-- amount, and no other balance has changed.
abbrev pub IsPaidIn : Env → Uuid → DepositDto → WalletTransaction → World → World → Type 0
IsPaidIn env u given tx w w' =
    (find (of_reference u given.client_mutation_id) w.transactions ≡ none)
    × IsRequested env u TransactionType.deposit given.amount_cents given.client_mutation_id
        "Deposit" tx
    × (w'.transactions ≡ tx ∷ w.transactions)
    × (balance_of u w'.wallets ≡ balance_of u w.wallets + given.amount_cents)
    × ((v : Uuid) → (u == v) ≡ false → balance_of v w'.wallets ≡ balance_of v w.wallets)

-- The deposit answered with that transaction: an earlier one under its reference, where nothing has
-- changed, or a new one.
abbrev pub IsAnswered : Env → Uuid → DepositDto → WalletTransaction → World → World → Type 0
IsAnswered env u given tx w w' =
    ((w' ≡ w) × (find (of_reference u given.client_mutation_id) w.transactions ≡ some tx))
    ⊎ IsPaidIn env u given tx w w'

module _ (packages : Packages) (crypto : Crypto) (config : Config) (r : Request) (w : World)
    (d : IsDistinct w.wallets) where
  abbrev pub IsSettledBy : Body → Response × World → Type 0
  IsSettledBy body z =
      ((code : ℕ) × (z ≡ (failure code, w)))
      ⊎ ((a : IsAllowed crypto (roles r.route) r.draw r.authorization w) × (given : DepositDto)
          × (tx : WalletTransaction) × (w' : World) × (deposit_dto packages body ≡ passed given)
          × IsWithin given.amount_cents
          × (z ≡ (success 201 (transaction (to_transaction_dto tx)), w'))
          × IsAnswered r.env a.payload.sub given tx w w')

  paid_in :
      (u : Uuid) (given : DepositDto) (tx : WalletTransaction) (w' : World)
      → find (of_reference u given.client_mutation_id) w.transactions ≡ none
      → Posted tx w w'
      → IsRequested r.env u TransactionType.deposit given.amount_cents given.client_mutation_id
          "Deposit" tx
      → IsPaidIn r.env u given tx w w'
  paid_in u given tx w' new p q = (
    new,
    q,
    p.logged,
    requested-Moves r.env u TransactionType.deposit given.amount_cents given.client_mutation_id
        "Deposit" tx w w' p q,
    subst (λ u. (v : Uuid) → (u == v) ≡ false → balance_of v w'.wallets ≡ balance_of v w.wallets)
        q.user p.others,
  )

  module _ (a : IsAllowed crypto (roles r.route) r.draw r.authorization w) where
    deposited :
        (body : Body) (given : DepositDto)
        → deposit_dto packages body ≡ passed given
        → IsSettledBy body (respond 201 transaction (Wallet.deposit r.env a.payload.sub given w))
    deposited body given e =
        deposit_cases (λ z. IsSettledBy body (respond 201 transaction z)) r.env a.payload.sub given
          w d (λ e. inl (status_of e, refl))
          (λ tx old. inr (a, given, tx, w, e, b, refl, inl (refl, old)))
          λ tx w' new p q.
            inr (a, given, tx, w', e, b, refl, inr (paid_in a.payload.sub given tx w' new p q))
      where
        b : IsWithin given.amount_cents
        b = deposit_dto-IsWithin packages body e

    validated :
        (body : Body) (dto : Piped DepositDto)
        → deposit_dto packages body ≡ dto
        → IsSettledBy body (
            piped dto
              (λ dto w. respond 201 transaction (Wallet.deposit r.env a.payload.sub dto w))
              w)
    validated body bad_request e = inl (400, refl)
    validated body thrown e = inl (500, refl)
    validated body (passed given) e = deposited body given e

    handled_deposit :
        (body : Body)
        → IsSettledBy body (handler packages crypto config r a.payload (deposit body) w)
    unfolding handler
    handled_deposit body = validated body (deposit_dto packages body) refl

  -- A request to deposit, where no user has two wallets, is refused and changes nothing, or its body
  -- was read as a deposit of $1.00 to $10,000.00 and is answered with 201 and a transaction of the
  -- user of its token, which was verified and is not blacklisted. Either that transaction was in the
  -- table before under the reference of the body, and nothing has changed; or no transaction of the
  -- user had the reference, it is new, with the amount and the reference of the body, the user's
  -- balance is higher by that amount, and nobody else's has changed.
  pub deposit_outcome :
      (body : Body) → r.route ≡ deposit body → IsSettledBy body (serve packages crypto config r w)
  deposit_outcome body route =
      serve_cases packages crypto config r w (IsSettledBy body) (ap is_public route)
        (λ code. inl (code, refl))
        λ a.
          subst (λ x. IsSettledBy body (handler packages crypto config r a.payload x w)) (sym route)
            (handled_deposit a body)
