-- ===== src/Betting/Frame.antt =====
-- What the betting service keeps, from what the debit and its own writes keep.
use bolt_bet.Base.{◌≡◌, arith, String, some, List, Bool-cases, inl, inr}
use bolt_bet.Model.Types.{Uuid, Role, BetStatus}
use bolt_bet.Model.Entities.{Bet, BetPlacementPayload, CacheEntry, World}
use bolt_bet.Model.Action.{Env, bind, bet_write}
use bolt_bet.Model.Keeps.{Keeps, bind-Keeps}
use bolt_bet.Wallet
use bolt_bet.Market.{set_bet_status}
use bolt_bet.Market.Frame.{KeptByMark}
use bolt_bet.Market.Lookup.{assert_market_open_cases}
use bolt_bet.Betting.{
  PlaceBetDto, bet_text, new_bet, record_bet, place_new_bet, place_bet, transition_status,
  get_bet_by_id,
}
use bolt_bet.Betting.Cases.{place_bet_cases, record_bet_cases}
use bolt_bet.Betting.Transition.{transition_status_cases}

module _ {ℓ} (P : World → Type ℓ) where
  -- The writes of `placeBet` other than the debit.
  abbrev pub KeptByRecord : Type ℓ
  KeptByRecord =
      (bs : List Bet) (es : List CacheEntry) (ms : List BetPlacementPayload) (w : World)
      → P w
      → P (record w { bets = bs; ephemeral = es; bet_placement = ms })

  record_bet-Keeps : (env : Env) (bet : Bet) → KeptByRecord → Keeps P (record_bet env bet)
  record_bet-Keeps env bet own w h =
      record_bet_cases (λ r. P r.1) env bet w (λ e. h)
        λ fits free. (
          λ e. own _ w.ephemeral w.bet_placement w h,
          λ e. own _ _ w.bet_placement w h,
          own _ _ _ w h,
        )

  module _ (env : Env) (u : Uuid) (role : Role) (dto : PlaceBetDto)
      (pays : (name : String)
        → Keeps P
            (Wallet.debit env u dto.stake_cents dto.client_mutation_id (some (bet_text name))))
      (own : KeptByRecord) where
    place_new_bet-Keeps : Keeps P (place_new_bet env u dto)
    unfolding place_new_bet
    place_new_bet-Keeps w h =
        assert_market_open_cases
          (λ r.
            P
              (bind r (λ m w'.
                bind
                  (Wallet.debit env u dto.stake_cents dto.client_mutation_id
                    (some (bet_text m.name)) w')
                  (λ _. record_bet env (new_bet env u dto m)))).1)
          env dto.market_id w (λ e. h)
          λ m found still_open.
            bind-Keeps P
              (Wallet.debit env u dto.stake_cents dto.client_mutation_id (some (bet_text m.name)))
              (λ _. record_bet env (new_bet env u dto m)) (pays m.name)
              (λ _. record_bet-Keeps env (new_bet env u dto m) own) w h

    pub place_bet-Keeps : Keeps P (place_bet env u role dto)
    place_bet-Keeps w h =
        place_bet_cases (λ r. P r.1) env u role dto w (λ e. h) (λ bet old. h)
          λ may new. place_new_bet-Keeps w h

  pub transition_status-Keeps :
      (env : Env) (id : Uuid) (t : BetStatus)
      → KeptByMark P env id t
      → Keeps P (transition_status env id t)
  unfolding set_bet_status
  transition_status-Keeps env id t mark w h =
      transition_status_cases (λ r. P r.1) env id t w (λ e. h)
        λ b found allowed. elim (Bool-cases (env.fails bet_write)) [
          | inl down ↦ rw (down, set_bet_status) h
          | inr up ↦ rw (up, set_bet_status) (mark w h)
        ]

-- A read changes nothing.
pub get_bet_by_id_same :
    (env : Env) (u : Uuid) (role : Role) (id : Uuid) (w : World)
    → (get_bet_by_id env u role id w).1 ≡ w
unfolding get_bet_by_id
get_bet_by_id_same env u role id w = ground arith
