-- ===== src/Tests/Api.antt =====
-- Requests to the API on the small state.
use bolt_bet.Base.{◌≡◌, ◌⊎◌, refl, inr, true, some, none, List, [], ◌∷◌, arith}
use bolt_bet.Base.Table.{All, length}
use bolt_bet.Model.Entities.{Body, whole, string}
use bolt_bet.Validation.{Packages, codes, deposit_dto, bad_request, passed, trim, lower}
use bolt_bet.Controllers.{Request, Route, deposit, suspend, serve}
use bolt_bet.Controllers.Markets.{IsByAdmin, markets_by_admin}
use bolt_bet.Controllers.Deposits.{IsSettledBy, deposit_outcome}
use bolt_bet.Wallet.Ledger.{IsLedger}
use bolt_bet.System.{Event, requested, replicated, run}
use bolt_bet.System.Writes.{IsPriced}
use bolt_bet.System.Books.{run-IsLedger, run-IsPriced}
use bolt_bet.System.Accounts.{Refines, run-Refines}
use bolt_bet.Tests.{calm, later}
use bolt_bet.Tests.Sessions.{toy, settings, next_draw, header, club}
use bolt_bet.Tests.Wallets.{shop-IsLedger}

-- A UUID is read by its length.
abbrev pub packages : Packages
packages = record {
  is_email = λ s. true;
  uuid_v4 = λ s. some (length (codes s));
  any_uuid = λ s. some (length (codes s));
}

abbrev pub sent : Route → Request
sent route = record {
  env = calm;
  envs = λ id. later;
  draw = next_draw;
  authorization = header;
  cookie = none;
  route = route;
}

abbrev top_up : Body
top_up = ("amountCents", whole 500) ∷ ("clientMutationId", string "seventy") ∷ []

abbrev too_little : Body
too_little = ("amountCents", whole 99) ∷ ("clientMutationId", string "seventy") ∷ []

abbrev smuggled : Body
smuggled = ("role", string "ADMIN") ∷ top_up

-- A sum below the minimum, and a property that the dto does not have.
refused_little : deposit_dto packages too_little ≡ bad_request
unfolding deposit_dto
refused_little = refl

refused_smuggled : deposit_dto packages smuggled ≡ bad_request
unfolding deposit_dto
refused_smuggled = refl

accepted_top_up :
    deposit_dto packages top_up ≡ passed (record { amount_cents = 500; client_mutation_id = 7 })
unfolding deposit_dto
accepted_top_up = refl

trimmed : trim (lower (codes " Ada@B.x ")) ≡ codes "ada@b.x"
trimmed = refl

club-IsLedger : IsLedger club
club-IsLedger = record {
  distinct = shop-IsLedger.distinct;
  balanced = shop-IsLedger.balanced;
  audited = shop-IsLedger.audited;
}

markets_by_admin_example :
    ((serve packages toy settings (sent (suspend "x")) club).1.markets ≡ club.markets)
    ⊎ IsByAdmin packages toy settings (sent (suspend "x")) club
markets_by_admin_example = markets_by_admin packages toy settings (sent (suspend "x")) club

deposit_outcome_example :
    IsSettledBy packages toy settings
      (sent (deposit top_up))
      club
      (refl, tt)
      top_up
      (serve packages toy settings (sent (deposit top_up)) club)
deposit_outcome_example =
    deposit_outcome packages toy settings (sent (deposit top_up)) club (refl, tt) top_up refl

abbrev day : List Event
day = requested (sent (deposit top_up)) ∷ replicated ∷ requested (sent (suspend "x")) ∷ []

run-IsLedger_example : IsLedger (run packages toy settings day club)
run-IsLedger_example = run-IsLedger packages toy settings day club club-IsLedger

run-IsPriced_example : All IsPriced (run packages toy settings day club).transactions
run-IsPriced_example =
    run-IsPriced packages toy settings day club club-IsLedger
      (inr (omega arith, omega arith), (inr (omega arith, omega arith), tt))

run-Refines_example : Refines club (run packages toy settings day club)
run-Refines_example = run-Refines packages toy settings day club (refl, tt)
