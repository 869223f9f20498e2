-- ===== src/Market/Lookup.antt =====
-- Reading a market.
use bolt_bet.Base.{◌≡◌, Bool-cases, Option-cases, inl, inr, some, false, not, arith}
use bolt_bet.Base.Table.{select}
use bolt_bet.Model.Types.{Uuid, MarketStatus, MarketResult, market_status_eq}
use bolt_bet.Model.Entities.{Market, World}
use bolt_bet.Model.Action.{
  Env, Error, Result, ok, err, bind, raise_if, ◌>>◌, pure, market_not_open, market_read, bet_read,
  market_is_settled,
}
use bolt_bet.Market.{
  MarketResponseDto, get_market_by_id, assert_market_open, find_market, settle, settle_found,
  settle_bets, is_live, close_update, with_status,
}

-- An exception, or the row with that key; the world stays as it was.
pub get_market_by_id_cases {ℓ} :
    (P : Result Market × World → Type ℓ) (env : Env) (id : Uuid) (w : World)
    → ((e : Error) → P (err e, w))
    → ((m : Market) → find_market id w.markets ≡ some m → P (ok m, w))
    → P (get_market_by_id env id w)
unfolding get_market_by_id
get_market_by_id_cases P env id w failed found = elim (Bool-cases (env.fails market_read)) [
  | inl down ↦ rw (down, get_market_by_id) (failed _)
  | inr up ↦ elim (Option-cases (find_market id w.markets)) [
    | inl missing ↦ rw (up, missing, get_market_by_id) (failed _)
    | inr (m, e) ↦ rw (up, e, get_market_by_id) (found m e)
  ]
]

-- `settle`: an exception that leaves the world alone, or the rest for a market that is not settled.
pub settle_cases {ℓ} :
    (P : Result MarketResponseDto × World → Type ℓ) (env : Env) (envs : Uuid → Env) (id : Uuid)
    (result : MarketResult) (w : World)
    → ((e : Error) → P (err e, w))
    → ((m : Market)
        → find_market id w.markets ≡ some m
        → market_status_eq m.status MarketStatus.settled ≡ false
        → P (settle_found env envs id result m w))
    → P (settle env envs id result w)
unfolding settle
settle_cases P env envs id result w failed rest =
    get_market_by_id_cases
      (λ r. P (
        bind r (λ m.
          raise_if (market_status_eq m.status MarketStatus.settled) market_is_settled
          >> settle_found env envs id result m)))
      env id w failed
      λ m found. elim (Bool-cases (market_status_eq m.status MarketStatus.settled)) [
        | inl closed ↦ rw closed (failed _)
        | inr still_open ↦ rw still_open (rest m found still_open)
      ]

-- The bets that are read are processed, whatever becomes of each.
pub settle_found_cases {ℓ} :
    (P : Result MarketResponseDto × World → Type ℓ) (env : Env) (envs : Uuid → Env) (id : Uuid)
    (result : MarketResult) (m : Market) (w : World)
    → ((e : Error) → P (err e, w))
    → P (
        close_update env
          (with_status env m MarketStatus.settled)
          (settle_bets envs m result (select (is_live id) w.bets) w))
    → P (settle_found env envs id result m w)
unfolding settle_found
settle_found_cases P env envs id result m w failed rest = elim (Bool-cases (env.fails bet_read)) [
  | inl down ↦ rw (down, settle_found) (failed _)
  | inr up ↦ rw (up, settle_found) rest
]

-- `assertMarketOpen`: an exception, or the row of a market that is open.
pub assert_market_open_cases {ℓ} :
    (P : Result Market × World → Type ℓ) (env : Env) (id : Uuid) (w : World)
    → ((e : Error) → P (err e, w))
    → ((m : Market)
        → find_market id w.markets ≡ some m
        → m.status ≡ MarketStatus.opened
        → P (ok m, w))
    → P (assert_market_open env id w)
unfolding assert_market_open
assert_market_open_cases P env id w failed found =
    get_market_by_id_cases
      (λ r. P (
        bind r (λ m.
          raise_if (not (market_status_eq m.status MarketStatus.opened))
            (market_not_open id m.status)
          >> pure m)))
      env id w failed
      λ m e. elim (Bool-cases (market_status_eq m.status MarketStatus.opened)) [
        | inl still_open ↦ rw still_open (found m e (ground arith))
        | inr not_open ↦ rw not_open (failed _)
      ]

pub assert_market_open-listed :
    (env : Env) (id : Uuid) (w : World) (m : Market)
    → env.fails market_read ≡ false
    → find_market id w.markets ≡ some m
    → m.status ≡ MarketStatus.opened
    → assert_market_open env id w ≡ (ok m, w)
unfolding assert_market_open get_market_by_id
assert_market_open-listed env id w m up found still_open =
    rw (up, found, assert_market_open, get_market_by_id, still_open)
