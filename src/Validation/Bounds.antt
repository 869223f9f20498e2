-- ===== src/Validation/Bounds.antt =====
-- What a body that has passed the pipes may hold.
use bolt_bet.Base.{ℕ, ◌≡◌, ◌≤◌, arith}
use bolt_bet.Model.Entities.{Body}
use bolt_bet.Wallet.{DepositDto}
use bolt_bet.Betting.{PlaceBetDto}
use bolt_bet.Validation.{Packages, passed, deposit_dto, place_bet_dto}

-- The sums of money that the API lets through.
abbrev pub IsWithin : ℕ → Type 0
IsWithin n = (100 ≤ n) × (n ≤ 1000000)

pub deposit_dto-IsWithin :
    (packages : Packages) (body : Body) {dto : DepositDto}
    → deposit_dto packages body ≡ passed dto
    → IsWithin dto.amount_cents
unfolding deposit_dto
deposit_dto-IsWithin packages body h = ground arith

pub place_bet_dto-IsWithin :
    (packages : Packages) (body : Body) {dto : PlaceBetDto}
    → place_bet_dto packages body ≡ passed dto
    → IsWithin dto.stake_cents
unfolding place_bet_dto
place_bet_dto-IsWithin packages body h = ground arith
