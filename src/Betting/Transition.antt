-- ===== src/Betting/Transition.antt =====
-- The table of transitions, and one request to change the status of a bet.
use bolt_bet.Base.{ℕ, ◌≡◌, refl, ◌↔◌, Bool-cases, Option-cases, inl, inr, Bool, true, false, some}
use bolt_bet.Base.Table.{find, update}
use bolt_bet.Model.Types.{Uuid, BetStatus, pending, accepted, void, cancelled}
use bolt_bet.Model.Entities.{Bet, World}
use bolt_bet.Model.Action.{Env, Error, Result, ok, err, bet_read, bet_write, invalid_transition}
use bolt_bet.Market.{has_bet_id, set_bet_status}
use bolt_bet.Betting.{
  allowed_transitions, terminal_states, includes, transition_status, find_bet, is_terminal,
  is_terminal_state,
}

-- The table has the transition.
abbrev pub Allowed : BetStatus → BetStatus → Type 0
Allowed s t = includes (allowed_transitions s) t ≡ true

abbrev pub IsTerminal : BetStatus → Type 0
IsTerminal s = includes terminal_states s ≡ true

-- The row as `transitionStatus` leaves it.
abbrev pub marked : BetStatus → ℕ → Bet → Bet
marked status now bet = record bet { status = status; updated_at = now }

-- An exception that leaves the world alone, or a transition of the table.
pub transition_status_cases {ℓ} :
    (P : Result (Unit {0}) × World → Type ℓ) (env : Env) (id : Uuid) (t : BetStatus) (w : World)
    → ((e : Error) → P (err e, w))
    → ((b : Bet)
        → find (has_bet_id id) w.bets ≡ some b
        → Allowed b.status t
        → P (set_bet_status env id t w))
    → P (transition_status env id t w)
unfolding transition_status find_bet
transition_status_cases P env id t w failed done = elim (Bool-cases (env.fails bet_read)) [
  | inl down ↦ rw (down, transition_status) (failed _)
  | inr up ↦ elim (Option-cases (find (has_bet_id id) w.bets)) [
    | inl missing ↦ rw (up, missing, transition_status) (failed _)
    | inr (b, found) ↦ elim (Bool-cases (includes (allowed_transitions b.status) t)) [
      | inl allowed ↦ rw (up, found, transition_status, allowed) (done b found allowed)
      | inr barred ↦ rw (up, found, transition_status, barred) (failed _)
    ]
  ]
]

pub is_terminal_state_cases {ℓ} :
    (P : Result Bool × World → Type ℓ) (env : Env) (id : Uuid) (w : World)
    → ((e : Error) → P (err e, w))
    → P (ok (is_terminal (find (has_bet_id id) w.bets)), w)
    → P (is_terminal_state env id w)
unfolding is_terminal_state find_bet
is_terminal_state_cases P env id w failed read = elim (Bool-cases (env.fails bet_read)) [
  | inl down ↦ rw (down, is_terminal_state) (failed _)
  | inr up ↦ rw (up, is_terminal_state) read
]

module _ (env : Env) (id : Uuid) (t : BetStatus) (w : World) (b : Bet)
    (up : env.fails bet_read ≡ false) where
  pub transition_status-Allowed :
      env.fails bet_write ≡ false
      → find (has_bet_id id) w.bets ≡ some b
      → Allowed b.status t
      → transition_status env id t w
        ≡ (ok tt, record w { bets = update (has_bet_id id) (marked t env.now) w.bets })
  unfolding transition_status find_bet set_bet_status
  transition_status-Allowed up' found allowed = rw (up, found, transition_status, allowed, up')

  pub transition_status_barred :
      find (has_bet_id id) w.bets ≡ some b
      → includes (allowed_transitions b.status) t ≡ false
      → transition_status env id t w ≡ (err (invalid_transition b.status t), w)
  unfolding transition_status find_bet
  transition_status_barred found barred = rw (up, found, transition_status, barred)

pub is_terminal_state_found :
    (env : Env) (id : Uuid) (w : World) (b : Bet)
    → env.fails bet_read ≡ false
    → find (has_bet_id id) w.bets ≡ some b
    → is_terminal_state env id w ≡ (ok (includes terminal_states b.status), w)
unfolding is_terminal_state find_bet
is_terminal_state_found env id w b up found = rw (up, found, is_terminal_state)

-- The two tables agree: a state is in the set of terminal states exactly when the table of
-- transitions has no way out of it.
pub IsTerminal-iff :
    (s : BetStatus) → IsTerminal s ↔ ((t : BetStatus) → includes (allowed_transitions s) t ≡ false)
IsTerminal-iff pending = (λ h. cc, λ h. let no = h accepted in cc)
IsTerminal-iff accepted = (λ h. cc, λ h. let no = h void in cc)
IsTerminal-iff BetStatus.settled = (λ h t. refl, λ h. refl)
IsTerminal-iff void = (λ h t. refl, λ h. refl)
IsTerminal-iff cancelled = (λ h t. refl, λ h. refl)
