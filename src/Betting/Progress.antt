-- ===== src/Betting/Progress.antt =====
-- A request that nothing stands in the way of: what becomes of it after the debit.
use bolt_bet.Base.{
  ◌+◌, ◌≡◌, ◌⊎◌, ◌∙◌, inl, inr, true, false, some, none, List, ap, sym, subst, Bool-cases,
}
use bolt_bet.Base.Table.{find}
use bolt_bet.Model.Types.{Uuid, Role, MarketStatus, TransactionType, role_eq}
use bolt_bet.Model.Entities.{Bet, Market, World, WalletTransaction}
use bolt_bet.Model.Action.{
  Env, Error, ok, err, bind, WhenOk, cache_read, cache_write, bet_read, bet_write, market_read,
  publish, wallet_read, unavailable, out_of_range, unique_violation,
}
use bolt_bet.Wallet
use bolt_bet.Wallet.{of_typed_reference, TransactionResponseDto}
use bolt_bet.Wallet.Rows.{balance_of}
use bolt_bet.Wallet.Decision.{IsFunded, debit_funded}
use bolt_bet.Wallet.Posted.{requested-Moves}
use bolt_bet.Wallet.Effect.{debit_cases}
use bolt_bet.Wallet.Idempotency.{debit_old}
use bolt_bet.Market.{find_market}
use bolt_bet.Market.Lookup.{assert_market_open-listed}
use bolt_bet.Betting.{
  PlaceBetDto, to_bet_dto, new_bet, bet_fits, bet_taken, record_bet, save_bet, cache_bet,
  publish_bet_placement, place_new_bet, place_bet, find_bet, cached_bet_id, of_request, has_key,
  unexpired, bet_text,
}
use bolt_bet.Betting.Cases.{saved, cached, announced}

-- The user may bet, the request is new, the market is open, and the reads answer.
pub record IsClear (env : Env) (u : Uuid) (role : Role) (dto : PlaceBetDto) (w : World) (m : Market)
    : Type 0 where
  pub may_bet : role_eq role Role.admin ≡ false
  pub cache_up : env.fails cache_read ≡ false
  pub uncached : unexpired env.now (find (has_key u dto.client_mutation_id) w.ephemeral) ≡ none
  pub bets_up : env.fails bet_read ≡ false
  pub new_request : find (of_request u dto.client_mutation_id) w.bets ≡ none
  pub markets_up : env.fails market_read ≡ false
  pub listed : find_market dto.market_id w.markets ≡ some m
  pub still_open : m.status ≡ MarketStatus.opened

module _ (env : Env) (u : Uuid) (role : Role) (dto : PlaceBetDto) (w : World) (m : Market)
    (c : IsClear env u role dto w m) where
  -- It comes to the debit, and then to `record_bet`.
  place_bet_reaches :
      place_bet env u role dto w
      ≡ bind
          (Wallet.debit env u dto.stake_cents dto.client_mutation_id (some (bet_text m.name)) w)
          (λ _. record_bet env (new_bet env u dto m))
  unfolding place_bet cached_bet_id find_bet place_new_bet
  place_bet_reaches = rw (
    c.may_bet,
    c.cache_up,
    c.uncached,
    c.bets_up,
    c.new_request,
    place_new_bet,
    assert_market_open-listed env dto.market_id w m c.markets_up c.listed c.still_open,
  )

-- A row that the table refuses: a number that its column does not hold, or a key in use.
abbrev pub CannotBeStored : Bet → List Bet → Type 0
CannotBeStored bet bets = (bet_fits bet ≡ false) ⊎ (bet_taken bet bets ≡ true)

unstorable :
    (env : Env) (bet : Bet) (w : World)
    → CannotBeStored bet w.bets
    → (e : Error) × (record_bet env bet w ≡ (err e, w))
unfolding record_bet save_bet
unstorable env bet w bad = elim (Bool-cases (env.fails bet_write)) [
  | inl down ↦ (_, eq₁ down)
  | inr up ↦ elim bad [
    | inl big ↦ (_, eq₂ up big)
    | inr clash ↦ elim (Bool-cases (bet_fits bet)) [
      | inl fits ↦ (_, eq₃ up fits clash)
      | inr big ↦ (_, eq₂ up big)
    ]
  ]
]
  where
    eq₁ : env.fails bet_write ≡ true → record_bet env bet w ≡ (err (unavailable bet_write), w)
    eq₁ down = rw (down, record_bet)

    eq₂ :
        env.fails bet_write ≡ false
        → bet_fits bet ≡ false
        → record_bet env bet w ≡ (err out_of_range, w)
    eq₂ up big = rw (up, record_bet, big)

    eq₃ :
        env.fails bet_write ≡ false
        → bet_fits bet ≡ true
        → bet_taken bet w.bets ≡ true
        → record_bet env bet w ≡ (err unique_violation, w)
    eq₃ up fits clash = rw (up, record_bet, fits, clash)

stored :
    (env : Env) (bet : Bet) (w : World)
    → env.fails bet_write ≡ false
    → env.fails cache_write ≡ false
    → env.fails publish ≡ false
    → bet_fits bet ≡ true
    → bet_taken bet w.bets ≡ false
    → record_bet env bet w ≡ (ok (to_bet_dto bet), announced bet (cached env bet (saved bet w)))
unfolding record_bet save_bet cache_bet publish_bet_placement
stored env bet w up up' up'' fits free = rw (up, record_bet, fits, free, up', up'')

-- The debit of a request that is clear and funded.
module _ (env : Env) (u : Uuid) (role : Role) (dto : PlaceBetDto) (w : World) (m : Market)
    (c : IsClear env u role dto w m)
    (f : IsFunded env u dto.stake_cents dto.client_mutation_id w) where
  -- The bets are as before, the balance is lower by the stake, and `record_bet` is what follows.
  reaches :
      (w₁ : World) × (place_bet env u role dto w ≡ record_bet env (new_bet env u dto m) w₁)
      × (w₁.bets ≡ w.bets)
      × (balance_of u w₁.wallets + dto.stake_cents ≡ balance_of u w.wallets)
  reaches =
      let (answer, w₁, paid) =
        debit_funded env u dto.stake_cents dto.client_mutation_id (some (bet_text m.name)) w f in
      (
        w₁,
        place_bet_reaches env u role dto w m c ∙ rw paid,
        (subst (WhenOk Effect) paid effect).0,
        (subst (WhenOk Effect) paid effect).1,
      )
    where
      Effect : TransactionResponseDto → World → Type 0
      Effect a w' =
          (w'.bets ≡ w.bets) × (balance_of u w'.wallets + dto.stake_cents ≡ balance_of u w.wallets)

      effect :
          WhenOk Effect
            (Wallet.debit env u dto.stake_cents dto.client_mutation_id (some (bet_text m.name)) w)
      effect =
          debit_cases (WhenOk Effect) env u dto.stake_cents dto.client_mutation_id
            (some (bet_text m.name)) w f.distinct (λ e. tt)
            (λ tx old. let unused = f.unused in absurd (cc))
            (λ tx w' new p q.
              (ap (λ (z : World). z.bets) p.frame, requested-Moves env u _ _ _ _ tx w w' p q))

  -- A clear and funded request whose row the table takes, with no fault in the writes, is answered
  -- with the new bet; the bet is stored, cached and on the queue, and the balance is lower by the
  -- stake.
  pub place_bet_completes :
      env.fails bet_write ≡ false
      → env.fails cache_write ≡ false
      → env.fails publish ≡ false
      → bet_fits (new_bet env u dto m) ≡ true
      → bet_taken (new_bet env u dto m) w.bets ≡ false
      → (w₁ : World) × (place_bet env u role dto w ≡ (
        ok (to_bet_dto (new_bet env u dto m)),
        announced
            (new_bet env u dto m)
            (cached env (new_bet env u dto m) (saved (new_bet env u dto m) w₁)),
      ))
        × (w₁.bets ≡ w.bets)
        × (balance_of u w₁.wallets + dto.stake_cents ≡ balance_of u w.wallets)
  place_bet_completes up up' up'' fits free =
      let (w₁, eq, same, sum) = reaches in
      (
        w₁,
        eq
            ∙ stored env (new_bet env u dto m) w₁ up up' up'' fits
                (ap (bet_taken (new_bet env u dto m)) same ∙ free),
        same,
        sum,
      )

  -- A clear and funded request whose row the table refuses, since its payout or another number is
  -- too large for the column, or since its reference is that of any user's bet: the answer is an
  -- exception, no bet is stored, and the stake stays debited.
  pub stake_lost :
      CannotBeStored (new_bet env u dto m) w.bets
      → (e : Error) × (w₁ : World) × (place_bet env u role dto w ≡ (err e, w₁))
        × (w₁.bets ≡ w.bets)
        × (balance_of u w₁.wallets + dto.stake_cents ≡ balance_of u w.wallets)
  stake_lost bad =
      let (w₁, eq, same, sum) = reaches in
      let (e, refused) =
        unstorable env (new_bet env u dto m) w₁
          (subst (CannotBeStored (new_bet env u dto m)) (sym same) bad) in
      (e, w₁, eq ∙ refused, same, sum)

-- A reference that was debited before, for whatever amount, and has no bet: the next request under
-- it gets its bet, at any stake, and nothing more is debited.
pub old_debit_covers_any_stake :
    (env : Env) (u : Uuid) (role : Role) (dto : PlaceBetDto) (w : World) (m : Market)
    (tx : WalletTransaction)
    → IsClear env u role dto w m
    → find (of_typed_reference u dto.client_mutation_id TransactionType.debit) w.transactions
      ≡ some tx
    → env.fails wallet_read ≡ false
    → env.fails bet_write ≡ false
    → env.fails cache_write ≡ false
    → env.fails publish ≡ false
    → bet_fits (new_bet env u dto m) ≡ true
    → bet_taken (new_bet env u dto m) w.bets ≡ false
    → place_bet env u role dto w ≡ (
      ok (to_bet_dto (new_bet env u dto m)),
      announced
          (new_bet env u dto m)
          (cached env (new_bet env u dto m) (saved (new_bet env u dto m) w)),
    )
old_debit_covers_any_stake env u role dto w m tx c old read up up' up'' fits free =
    place_bet_reaches env u role dto w m c
    ∙ (rw (
        debit_old env u dto.stake_cents dto.client_mutation_id (some (bet_text m.name)) w tx read
          old))
    ∙ stored env (new_bet env u dto m) w up up' up'' fits free
