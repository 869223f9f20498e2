-- ===== src/Betting/Cases.antt =====
-- The branches of `placeBet`.
use bolt_bet.Base.{
  ◌≡◌, inl, inr, refl, Bool-cases, Option-cases, true, false, Option, some, none, ◌∷◌,
}
use bolt_bet.Base.Table.{find}
use bolt_bet.Model.Types.{Uuid, Role, MarketStatus, TransactionType, role_eq}
use bolt_bet.Model.Entities.{Bet, Market, World, WalletTransaction}
use bolt_bet.Model.Action.{
  Action, Env, Error, Result, ok, err, bind, ◌>>=◌, ◌>>◌, bet_read, bet_write, cache_read,
  cache_write, publish,
}
use bolt_bet.Wallet
use bolt_bet.Wallet.{of_typed_reference}
use bolt_bet.Wallet.Rows.{IsDistinct}
use bolt_bet.Wallet.Posted.{Posted, IsRequested}
use bolt_bet.Wallet.Effect.{debit_cases}
use bolt_bet.Market.{find_market, has_bet_id}
use bolt_bet.Market.Lookup.{assert_market_open_cases}
use bolt_bet.Betting.{
  PlaceBetDto, BetResponseDto, to_bet_dto, new_bet, bet_fits, bet_taken, record_bet, save_bet,
  cache_bet, publish_bet_placement, place_new_bet, place_bet, bet_or, find_bet, find_cached,
  cached_bet_id, unexpired, has_key, of_request, placement_of, bet_text, set_entry, cache_entry,
}

-- The worlds after each of the writes of `record_bet`.
abbrev pub saved : Bet → World → World
saved bet w = record w { bets = bet ∷ w.bets }

abbrev pub cached : Env → Bet → World → World
cached env bet w = record w {
  ephemeral = set_entry (cache_entry env bet.user_id bet.reference_id bet.id) w.ephemeral;
}

abbrev pub announced : Bet → World → World
announced bet w = record w { bet_placement = placement_of bet ∷ w.bet_placement }

-- An exception before the bet is stored, one after it, or an answer.
pub record_bet_cases {ℓ} :
    (P : Result BetResponseDto × World → Type ℓ) (env : Env) (bet : Bet) (w : World)
    → ((e : Error) → P (err e, w))
    → (bet_fits bet ≡ true
        → bet_taken bet w.bets ≡ false
        → (((e : Error) → P (err e, saved bet w))
            × ((e : Error) → P (err e, cached env bet (saved bet w)))
            × P (ok (to_bet_dto bet), announced bet (cached env bet (saved bet w)))))
    → P (record_bet env bet w)
unfolding record_bet save_bet cache_bet publish_bet_placement
record_bet_cases P env bet w failed stored = elim (Bool-cases (env.fails bet_write)) [
  | inl down ↦ rw (down, record_bet) (failed _)
  | inr up ↦ elim (Bool-cases (bet_fits bet)) [
    | inr big ↦ rw (up, record_bet, big) (failed _)
    | inl fits ↦ elim (Bool-cases (bet_taken bet w.bets)) [
      | inl clash ↦ rw (up, record_bet, fits, clash) (failed _)
      | inr free ↦
          rw (up, record_bet, fits, free)
            (elim (Bool-cases (env.fails cache_write)) [
              | inl down ↦ rw down ((stored fits free).0 _)
              | inr up' ↦ rw up' (elim (Bool-cases (env.fails publish)) [
                | inl down ↦ rw down ((stored fits free).1 _)
                | inr up'' ↦ rw up'' (stored fits free).2
              ])
            ])
    ]
  ]
]

-- An exception that leaves the world alone, or `record_bet` for the debited stake: with a new debit,
-- or with one that was made before under the same reference.
pub place_new_bet_cases {ℓ} :
    (P : Result BetResponseDto × World → Type ℓ) (env : Env) (u : Uuid) (dto : PlaceBetDto)
    (w : World)
    → IsDistinct w.wallets
    → ((e : Error) → P (err e, w))
    → ((m : Market)
        → find_market dto.market_id w.markets ≡ some m
        → m.status ≡ MarketStatus.opened
        → ((tx : WalletTransaction)
            → find
                (of_typed_reference u dto.client_mutation_id TransactionType.debit)
                w.transactions
              ≡ some tx
            → P (record_bet env (new_bet env u dto m) w))
          × ((tx : WalletTransaction) (w₁ : World)
              → find
                  (of_typed_reference u dto.client_mutation_id TransactionType.debit)
                  w.transactions
                ≡ none
              → Posted tx w w₁
              → IsRequested env u TransactionType.debit dto.stake_cents dto.client_mutation_id
                  (bet_text m.name)
                  tx
              → P (record_bet env (new_bet env u dto m) w₁)))
    → P (place_new_bet env u dto w)
unfolding place_new_bet
place_new_bet_cases P env u dto w d failed debited =
    assert_market_open_cases
      (λ r. P (
        bind r (λ m.
          Wallet.debit env u dto.stake_cents dto.client_mutation_id (some (bet_text m.name))
          >> record_bet env (new_bet env u dto m))))
      env dto.market_id w failed
      λ m found still_open.
        debit_cases (λ r. P (bind r (λ _. record_bet env (new_bet env u dto m)))) env u
          dto.stake_cents dto.client_mutation_id (some (bet_text m.name)) w d failed
          (debited m found still_open).0 (debited m found still_open).1

-- How `placeBet` finds the bet of an earlier request: by the cached id, or by the reference.
pub data Earlier (env : Env) (u ref : Uuid) (w : World) (bet : Bet) : Type 0 where
  by_cache :
      (id : Uuid)
      → unexpired env.now (find (has_key u ref) w.ephemeral) ≡ some id
      → find (has_bet_id id) w.bets ≡ some bet
      → Earlier env u ref w bet
  by_reference : find (of_request u ref) w.bets ≡ some bet → Earlier env u ref w bet

module _ {ℓ} (P : Result BetResponseDto × World → Type ℓ) (env : Env) (u : Uuid) (role : Role)
    (dto : PlaceBetDto) (w : World) (failed : (e : Error) → P (err e, w))
    (old : (bet : Bet) → Earlier env u dto.client_mutation_id w bet → P (ok (to_bet_dto bet), w))
    (new : role_eq role Role.admin ≡ false
      → find (of_request u dto.client_mutation_id) w.bets ≡ none
      → P (place_new_bet env u dto w)) where
  -- The look-up by reference, and what follows it.
  abbrev by_reference_step : Action BetResponseDto
  by_reference_step = find_bet env (of_request u dto.client_mutation_id) >>= λ existing.
      bet_or existing (place_new_bet env u dto)

  found_cases :
      role_eq role Role.admin ≡ false
      → P (bet_or (find (of_request u dto.client_mutation_id) w.bets) (place_new_bet env u dto) w)
  found_cases may_bet = elim (Option-cases (find (of_request u dto.client_mutation_id) w.bets)) [
    | inl none_yet ↦ rw none_yet (new may_bet none_yet)
    | inr (bet, e) ↦ rw e (old bet (by_reference e))
  ]

  by_reference_cases : role_eq role Role.admin ≡ false → P (by_reference_step w)
  unfolding find_bet
  by_reference_cases may_bet = elim (Bool-cases (env.fails bet_read)) [
    | inl down ↦ rw down (failed _)
    | inr up ↦ rw up (found_cases may_bet)
  ]

  by_cache_cases :
      (o : Option Uuid)
      → unexpired env.now (find (has_key u dto.client_mutation_id) w.ephemeral) ≡ o
      → role_eq role Role.admin ≡ false
      → P ((find_cached env o >>= λ hit. bet_or hit by_reference_step) w)
  unfolding find_bet
  by_cache_cases none e may_bet = by_reference_cases may_bet
  by_cache_cases (some id) e may_bet = elim (Bool-cases (env.fails bet_read)) [
    | inl down ↦ rw down (failed _)
    | inr up ↦ rw up (elim (Option-cases (find (has_bet_id id) w.bets)) [
      | inl gone ↦ rw gone (found_cases may_bet)
      | inr (bet, hit) ↦ rw hit (old bet (by_cache id e hit))
    ])
  ]

  -- An exception that leaves the world alone, the bet of an earlier request, or a new bet.
  pub place_bet_cases : P (place_bet env u role dto w)
  unfolding place_bet cached_bet_id
  place_bet_cases = elim (Bool-cases (role_eq role Role.admin)) [
    | inl admin ↦ rw (admin, place_bet) (failed _)
    | inr may_bet ↦ elim (Bool-cases (env.fails cache_read)) [
      | inl down ↦ rw (may_bet, place_bet, down) (failed _)
      | inr up ↦ rw (may_bet, place_bet, up) (by_cache_cases _ refl may_bet)
    ]
  ]
