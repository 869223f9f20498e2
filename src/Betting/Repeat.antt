-- ===== src/Betting/Repeat.antt =====
-- A bet request that is sent again.
use bolt_bet.Base.{
  ℕ, ◌≡◌, ◌∙◌, inl, inr, refl, true, false, Option, some, none, ◌∷◌, arith, ap, sym, subst,
  transport, ==_iff, Bool-cases, Option-cases, ◌==◌, ◌||◌, not,
}
use bolt_bet.Base.Table.{find, find-select, find-taken, find_holds}
use bolt_bet.Model.Types.{Uuid, Role, role_eq}
use bolt_bet.Model.Entities.{Bet, CacheEntry, Market, World}
use bolt_bet.Model.Action.{Env, ok, WhenOk, cache_read, bet_read}
use bolt_bet.Wallet.Rows.{IsDistinct}
use bolt_bet.Market.{has_bet_id}
use bolt_bet.Betting.{
  PlaceBetDto, BetResponseDto, to_bet_dto, new_bet, bet_taken, place_bet, find_bet, cached_bet_id,
  of_request, has_key, unexpired, cache_entry, record_bet,
}
use bolt_bet.Betting.Cases.{
  saved, cached, record_bet_cases, place_new_bet_cases, Earlier, by_cache, by_reference,
  place_bet_cases,
}

-- An entry of the cache names the bet of its request.
abbrev pub IsCoherent : World → Type 0
IsCoherent w =
    (u ref : Uuid) (e : CacheEntry)
    → find (has_key u ref) w.ephemeral ≡ some e
    → (bet : Bet) × (find (has_bet_id e.bet_id) w.bets ≡ some bet)
      × (find (of_request u ref) w.bets ≡ some bet)

unexpired-entry :
    (now : ℕ) (o : Option CacheEntry) (id : Uuid)
    → unexpired now o ≡ some id
    → (e : CacheEntry) × (o ≡ some e) × (e.bet_id ≡ id)
unexpired-entry now none id h = cc
unexpired-entry now (some e) id h = (e, refl, ground arith)

-- A hit of the cache is the bet that the table has for the request.
hit_found :
    (env : Env) (u ref : Uuid) (w : World) (id : Uuid)
    → IsCoherent w
    → unexpired env.now (find (has_key u ref) w.ephemeral) ≡ some id
    → (bet : Bet) × (find (has_bet_id id) w.bets ≡ some bet)
      × (find (of_request u ref) w.bets ≡ some bet)
hit_found env u ref w id h hit =
    let (e, entry, same) = unexpired-entry env.now (find (has_key u ref) w.ephemeral) id hit in
    let (bet, by_id, by_ref) = h u ref e entry in
    (bet, subst (λ k. find (has_bet_id k) w.bets ≡ some bet) same by_id, by_ref)

-- The cache and the table answer alike.
Earlier-reference :
    (env : Env) (u ref : Uuid) (w : World) (bet : Bet)
    → IsCoherent w
    → Earlier env u ref w bet
    → find (of_request u ref) w.bets ≡ some bet
Earlier-reference env u ref w bet h (by_reference e) = e
Earlier-reference env u ref w bet h (by_cache id hit found) =
    let (b, by_id, by_ref) = hit_found env u ref w id h hit in by_ref ∙ (sym by_id ∙ found)

-- A request whose bet is in the table is answered with it.
repeated :
    (env : Env) (u : Uuid) (role : Role) (dto : PlaceBetDto) (w : World) (bet : Bet)
    → IsCoherent w
    → role_eq role Role.admin ≡ false
    → env.fails cache_read ≡ false
    → env.fails bet_read ≡ false
    → find (of_request u dto.client_mutation_id) w.bets ≡ some bet
    → place_bet env u role dto w ≡ (ok (to_bet_dto bet), w)
unfolding place_bet cached_bet_id find_bet
repeated env u role dto w bet h may up up' found =
    elim (Option-cases (unexpired env.now (find (has_key u dto.client_mutation_id) w.ephemeral))) [
      | inl miss ↦ rw (may, up, miss, up', found)
      | inr (id, hit) ↦
          let (b, by_id, by_ref) = hit_found env u dto.client_mutation_id w id h hit in
          let this : find (has_bet_id id) w.bets ≡ some bet = by_id ∙ (sym by_ref ∙ found) in
          rw (may, up, hit, up', this)
    ]

module _ (bet : Bet) (w : World) (h : IsCoherent w) (free : bet_taken bet w.bets ≡ false) where
  -- A stored bet does not hide the bet of another entry.
  other_entry :
      (u ref : Uuid) (e : CacheEntry)
      → find (has_key u ref) w.ephemeral ≡ some e
      → of_request u ref bet ≡ false
      → (b : Bet) × (find (has_bet_id e.bet_id) (bet ∷ w.bets) ≡ some b)
        × (find (of_request u ref) (bet ∷ w.bets) ≡ some b)
  other_entry u ref e entry other =
      let (b, by_id, by_ref) = h u ref e entry in
      let own = find_holds (has_bet_id e.bet_id) w.bets by_id in
      let apart =
        find-taken (λ (row : Bet). row.id == bet.id || row.reference_id == bet.reference_id)
          (has_bet_id e.bet_id) w.bets free by_id in
      let not_head : has_bet_id e.bet_id bet ≡ false = ground (arith, own, apart) in
      (b, rw not_head by_id, rw other by_ref)

  saved-IsCoherent :
      find (of_request bet.user_id bet.reference_id) w.bets ≡ none → IsCoherent (saved bet w)
  saved-IsCoherent new u ref e entry = elim (Bool-cases (of_request u ref bet)) [
    | inr other ↦ other_entry u ref e entry other
    | inl own ↦
        let keys : (bet.user_id ≡ u) × (bet.reference_id ≡ ref) = ground arith in
        let none_yet : find (of_request u ref) w.bets ≡ none =
          transport (λ i. find (of_request (keys.0 i) (keys.1 i)) w.bets ≡ none) new in
        let (b, by_id, by_ref) = h u ref e entry in absurd (cc)
  ]

  cached-IsCoherent : (env : Env) → IsCoherent (cached env bet (saved bet w))
  cached-IsCoherent env u ref e entry = elim (Bool-cases (of_request u ref bet)) [
    | inl own ↦
        let head : some (cache_entry env bet.user_id bet.reference_id bet.id) ≡ some e =
          rw own at entry in
        let same : bet.id ≡ e.bet_id = cc in (bet, rw ((==_iff bet.id e.bet_id).1 same), rw own)
    | inr other ↦ other_entry u ref e (dropped other) other
  ]
    where
      dropped : of_request u ref bet ≡ false → find (has_key u ref) w.ephemeral ≡ some e
      dropped other =
          sym (
            find-select (has_key u ref) (λ old. not (has_key bet.user_id bet.reference_id old))
              w.ephemeral (λ y hit. ground arith))
          ∙ (rw other at entry)

-- The look-ups of the same request in the world that `record_bet` leaves.
module _ (env : Env) (u : Uuid) (dto : PlaceBetDto) (w : World) (m : Market) (h : IsCoherent w)
    (new : find (of_request u dto.client_mutation_id) w.bets ≡ none) where
  record_bet-IsCoherent : IsCoherent (record_bet env (new_bet env u dto m) w).1
  record_bet-IsCoherent =
      record_bet_cases (λ r. IsCoherent r.1) env (new_bet env u dto m) w (λ e. h)
        λ fits free. (
          λ e. saved-IsCoherent (new_bet env u dto m) w h free new,
          λ e. cached-IsCoherent (new_bet env u dto m) w h free env,
          cached-IsCoherent (new_bet env u dto m) w h free env,
        )

  record_bet-found :
      WhenOk
        (λ answer w'.
          (bet : Bet) × (find (of_request u dto.client_mutation_id) w'.bets ≡ some bet)
          × (answer ≡ to_bet_dto bet))
        (record_bet env (new_bet env u dto m) w)
  record_bet-found =
      record_bet_cases (WhenOk _) env (new_bet env u dto m) w (λ e. tt)
        λ fits free. (λ e. tt, λ e. tt, (new_bet env u dto m, ground arith, refl))

module _ (env : Env) (u : Uuid) (role : Role) (dto : PlaceBetDto) (w : World)
    (d : IsDistinct w.wallets) (h : IsCoherent w) where
  -- Placing a bet keeps the cache in agreement with the table, whatever the outcome, where no user
  -- has two wallets: an entry names a bet that is in the table under the same user and mutation id.
  pub place_bet-IsCoherent : IsCoherent (place_bet env u role dto w).1
  place_bet-IsCoherent =
      place_bet_cases (λ r. IsCoherent r.1) env u role dto w (λ e. h) (λ bet old. h)
        λ may new.
          place_new_bet_cases (λ r. IsCoherent r.1) env u dto w d (λ e. h)
            λ m found still_open. (
              λ tx old. record_bet-IsCoherent env u dto w m h new,
              λ tx w₁ unused p q.
                  record_bet-IsCoherent env u dto w₁ m (subst IsCoherent (sym p.frame) h) (
                    ap (λ (z : World). find (of_request u dto.client_mutation_id) z.bets) p.frame
                    ∙ new),
            )

-- A request that was answered, sent again: the same bet comes back, and nothing changes.
module _ (env env' : Env) (u : Uuid) (role : Role) (dto dto' : PlaceBetDto) (w : World) where
  abbrev Repeats : BetResponseDto → World → Type 0
  Repeats answer w' = place_bet env' u role dto' w' ≡ (ok answer, w')

  module _ (d : IsDistinct w.wallets) (h : IsCoherent w) (may : role_eq role Role.admin ≡ false)
      (up : env'.fails cache_read ≡ false) (up' : env'.fails bet_read ≡ false)
      (same : dto'.client_mutation_id ≡ dto.client_mutation_id) where
    again :
        (w' : World) (bet : Bet)
        → IsCoherent w'
        → find (of_request u dto.client_mutation_id) w'.bets ≡ some bet
        → Repeats (to_bet_dto bet) w'
    again w' bet h' found =
        repeated env' u role dto' w' bet h' may up up'
          (subst (λ k. find (of_request u k) w'.bets ≡ some bet) (sym same) found)

    after_record :
        (m : Market) (w₁ : World)
        → IsCoherent w₁
        → find (of_request u dto.client_mutation_id) w₁.bets ≡ none
        → WhenOk Repeats (record_bet env (new_bet env u dto m) w₁)
    after_record m w₁ h₁ new =
        record_bet_cases (WhenOk Repeats) env (new_bet env u dto m) w₁ (λ e. tt)
          λ fits free. (
            λ e. tt,
            λ e. tt,
            again _ (new_bet env u dto m) (cached-IsCoherent (new_bet env u dto m) w₁ h₁ free env)
                (ground arith),
          )

    twice_bettor : WhenOk Repeats (place_bet env u role dto w)
    twice_bettor =
        place_bet_cases (WhenOk Repeats) env u role dto w (λ e. tt)
          (λ bet old. again w bet h (Earlier-reference env u dto.client_mutation_id w bet h old))
          λ may' new.
            place_new_bet_cases (WhenOk Repeats) env u dto w d (λ e. tt)
              λ m found still_open. (
                λ tx old. after_record m w h new,
                λ tx w₁ unused p q. after_record m w₁ (subst IsCoherent (sym p.frame) h) (
                    ap (λ (z : World). find (of_request u dto.client_mutation_id) z.bets) p.frame
                    ∙ new),
              )

  refused_admin : role_eq role Role.admin ≡ true → WhenOk Repeats (place_bet env u role dto w)
  unfolding place_bet
  refused_admin admin = rw (admin, place_bet) tt

-- A bet request that was answered is answered alike when it is sent again under the same mutation
-- id, whatever market or stake it then names and whether the cache still has it or not, and nothing
-- is debited or stored again. This holds where no user has two wallets, the cache agrees with the
-- table, and the second request can read both.
pub place_bet_twice :
    (env env' : Env) (u : Uuid) (role : Role) (dto dto' : PlaceBetDto) (w : World)
    → IsDistinct w.wallets
    → IsCoherent w
    → env'.fails cache_read ≡ false
    → env'.fails bet_read ≡ false
    → dto'.client_mutation_id ≡ dto.client_mutation_id
    → WhenOk
        (λ answer w'. place_bet env' u role dto' w' ≡ (ok answer, w'))
        (place_bet env u role dto w)
place_bet_twice env env' u role dto dto' w d h up up' same =
    elim (Bool-cases (role_eq role Role.admin)) [
      | inl admin ↦ refused_admin env env' u role dto dto' w admin
      | inr may ↦ twice_bettor env env' u role dto dto' w d h may up up' same
    ]
