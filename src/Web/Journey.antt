-- ===== src/Web/Journey.antt =====
-- A bet from the button of MarketsPage through the guards and the pipes of the API to its tables.
use bolt_bet.Base.{ℕ, ◌+◌, ◌≡◌, ◌≤◌, ◌∙◌, refl, ap, true, false, Option, some, String, ◌∷◌}
use bolt_bet.Crypto.{JwtPayload, Crypto, Config}
use bolt_bet.Model.Types.{Uuid}
use bolt_bet.Model.Entities.{Market, World, Body}
use bolt_bet.Model.Action.{ok, bet_write, cache_write, publish}
use bolt_bet.Auth.{can_activate}
use bolt_bet.Wallet.Rows.{balance_of}
use bolt_bet.Wallet.Decision.{IsFunded}
use bolt_bet.Betting
use bolt_bet.Betting.{PlaceBetDto, new_bet, bet_fits, bet_taken, to_bet_dto}
use bolt_bet.Betting.Cases.{saved, cached, announced}
use bolt_bet.Betting.Progress.{IsClear, place_bet_completes}
use bolt_bet.Validation.{Packages, passed, place_bet_dto}
use bolt_bet.Http.{success, bet, respond, piped}
use bolt_bet.Controllers.{Request, place_bet, serve, handler}
use bolt_bet.Web.{Browser, call_place}
use bolt_bet.Web.Money.{rounded, handle_place}
use bolt_bet.Web.Payloads.{
  place_body, taken_amount, payloads_arrive, bet_payload, handle_place-placed,
}

-- The request that carries a payload.
abbrev pub carrying : (Uuid → String) → PlaceBetDto → Request → Request
carrying text dto r = record r { route = place_bet (place_body text dto) }

module _ (packages : Packages) (crypto : Crypto) (config : Config) (r : Request) (user : JwtPayload)
    (w : World) where
  served :
      (body : Body)
      → can_activate crypto false r.draw r.authorization w ≡ (ok (some user), w)
      → serve packages crypto config (record r { route = place_bet body }) w
        ≡ piped
            (place_bet_dto packages body)
            (λ dto w. respond 201 bet (Betting.place_bet r.env user.sub user.role dto w))
            w
  unfolding serve handler
  served body let_in = rw let_in refl

module _ (packages : Packages) (text : Uuid → String)
    (printed : (id : Uuid) → packages.uuid_v4 (text id) ≡ some id) (crypto : Crypto)
    (config : Config) (r : Request) (user : JwtPayload) (w : World) where
  -- A payload that the client sends, with an amount that the API takes.
  arrives :
      (dto : PlaceBetDto)
      → taken_amount dto.stake_cents ≡ true
      → place_bet_dto packages (place_body text dto) ≡ passed dto
  arrives dto fits = (payloads_arrive packages text printed).1 dto ∙ rw fits refl

  -- From the press of a button to the stored bet. On the page, the balance that is shown covers the
  -- amount, which is one that the API takes; the request that carries the payload bears a good token;
  -- the user may bet, the payload is new, the market is open and the wallet covers the stake; no
  -- write fails, and the table takes the row. Then the press sends one bet, under a mutation id drawn
  -- for it; the API answers the request with 201 and that bet, which is stored, cached and on the
  -- queue; and the user's balance is lower by the amount.
  pub bet_goes_through :
      (m : Market) (cents : ℕ) (placing : Option Uuid) (b : Browser)
      → let dto = bet_payload m.id cents b.next_id in
        let row = new_bet r.env user.sub dto m in
        cents ≤ b.balance.balance_cents
        → taken_amount cents ≡ true
        → can_activate crypto false r.draw r.authorization w ≡ (ok (some user), w)
        → IsClear r.env user.sub user.role dto w m
        → IsFunded r.env user.sub cents b.next_id w
        → r.env.fails bet_write ≡ false
        → r.env.fails cache_write ≡ false
        → r.env.fails publish ≡ false
        → bet_fits row ≡ true
        → bet_taken row w.bets ≡ false
        → ((handle_place m.id (rounded cents) (placing, b)).1.sent ≡ call_place dto ∷ b.sent)
          × ((w₁ : World) × (serve packages crypto config (carrying text dto r) w ≡ (
            success 201 (bet (to_bet_dto row)),
            announced row (cached r.env row (saved row w₁)),
          ))
              × (w₁.bets ≡ w.bets)
              × (balance_of user.sub w₁.wallets + cents ≡ balance_of user.sub w.wallets))
  bet_goes_through m cents placing b shown fits let_in clear funded up up' up'' small free =
      let dto = bet_payload m.id cents b.next_id in
      let (w₁, eq, same, sum) =
        place_bet_completes r.env user.sub user.role dto w m clear funded up up' up'' small free in
      (
        ap (λ s. s.1.sent) (handle_place-placed m.id cents placing b shown),
        (
          w₁,
          served packages crypto config r user w (place_body text dto) let_in
              ∙ ap
                  (λ p.
                    piped p
                      (λ dto w. respond 201 bet (Betting.place_bet r.env user.sub user.role dto w))
                      w)
                  (arrives dto fits)
              ∙ ap (respond 201 bet) eq,
          same,
          sum,
        ),
      )
