-- ===== src/Betting/History.antt =====
-- What becomes of a bet, whatever requests to change statuses are made.
use bolt_bet.Base.{
  ℕ, suc, ◌≡◌, ◌≤◌, ◌+◌, refl, Bool-cases, inl, inr, false, some, List, [], ◌∷◌, arith, ◌==◌,
  ==_iff, sym, subst, ◌∙◌,
}
use bolt_bet.Base.Table.{find, find-update_key, find-update_other}
use bolt_bet.Model.Types.{Uuid, BetStatus, pending, accepted, void, cancelled}
use bolt_bet.Model.Entities.{Bet, World}
use bolt_bet.Model.Action.{Env, bet_write}
use bolt_bet.Market.{has_bet_id, set_bet_status}
use bolt_bet.Betting.{transition_status}
use bolt_bet.Betting.Transition.{Allowed, IsTerminal, marked, transition_status_cases}

-- `Follows b n c`: `c` is the bet `b` after `n` transitions of the table, in all else unchanged.
pub data Follows (b : Bet) : ℕ → Bet → Type 0 where
  same : Follows b 0 b
  moved :
      {n : ℕ} {c : Bet} (t : BetStatus) (now : ℕ)
      → Follows b n c
      → Allowed c.status t
      → Follows b (suc n) (marked t now c)

-- One request to change the status of a bet.
pub record Order : Type 0 where
  pub env : Env
  pub bet_id : Uuid
  pub status : BetStatus

abbrev pub obey : Order → World → World
obey o w = (transition_status o.env o.bet_id o.status w).1

abbrev pub obey_all : List Order → World → World
obey_all [] w = w
obey_all (o ∷ os) w = obey_all os (obey o w)

-- The bet of a key in some world, as it came of `b`.
abbrev pub Traced : Bet → Uuid → World → Type 0
Traced b id w = (n : ℕ) × (c : Bet) × (find (has_bet_id id) w.bets ≡ some c) × Follows b n c

module _ (b : Bet) (id : Uuid) where
  marked-Traced :
      (env : Env) (t : BetStatus) (w : World) (n : ℕ) (c : Bet)
      → find (has_bet_id id) w.bets ≡ some c
      → Follows b n c
      → Allowed c.status t
      → Traced b id (set_bet_status env id t w).1
  unfolding set_bet_status
  marked-Traced env t w n c found f allowed = elim (Bool-cases (env.fails bet_write)) [
    | inl down ↦ rw (down, set_bet_status) (n, c, found, f)
    | inr up ↦
        rw (up, set_bet_status)
          (
            suc n,
            marked t env.now c,
            find-update_key (has_bet_id id) (marked t env.now) w.bets found (λ y. refl),
            moved t env.now f allowed,
          )
  ]

  other-Traced :
      (env : Env) (other : Uuid) (t : BetStatus) (w : World)
      → (other == id) ≡ false
      → Traced b id w
      → Traced b id (set_bet_status env other t w).1
  unfolding set_bet_status
  other-Traced env other t w apart (n, c, found, f) = elim (Bool-cases (env.fails bet_write)) [
    | inl down ↦ rw (down, set_bet_status) (n, c, found, f)
    | inr up ↦
        rw (up, set_bet_status)
          (
            n,
            c,
            find-update_other (has_bet_id id) (has_bet_id other) (marked t env.now) w.bets
                  (λ y hit. ground arith) (λ y hit. ground arith)
                ∙ found,
            f,
          )
  ]

  -- A transition of the table, of this bet or another.
  pub set_bet_status-Traced :
      (env : Env) (other : Uuid) (t : BetStatus) (w : World) (c' : Bet)
      → find (has_bet_id other) w.bets ≡ some c'
      → Allowed c'.status t
      → Traced b id w
      → Traced b id (set_bet_status env other t w).1
  set_bet_status-Traced env other t w c' found' allowed (n, c, found, f) =
      elim (Bool-cases (other == id)) [
        | inr apart ↦ other-Traced env other t w apart (n, c, found, f)
        | inl hit ↦
            let e : other ≡ id = (==_iff other id).0 hit in
            let this : some c' ≡ some c =
              sym (subst (λ k. find (has_bet_id k) w.bets ≡ some c') e found') ∙ found in
            let row : c' ≡ c = ground arith in
            subst (λ k. Traced b id (set_bet_status env k t w).1) (sym e)
              (marked-Traced env t w n c found f
                (subst (λ (x : Bet). Allowed x.status t) row allowed))
      ]

  obey-Traced : (o : Order) (w : World) → Traced b id w → Traced b id (obey o w)
  obey-Traced o w h =
      transition_status_cases (λ r. Traced b id r.1) o.env o.bet_id o.status w (λ e. h)
        λ c' found' allowed. set_bet_status-Traced o.env o.bet_id o.status w c' found' allowed h

  obey_all-Traced : (os : List Order) (w : World) → Traced b id w → Traced b id (obey_all os w)
  obey_all-Traced [] w h = h
  obey_all-Traced (o ∷ os) w h = obey_all-Traced os (obey o w) (obey-Traced o w h)

-- How many transitions a bet has left.
abbrev moves_left : BetStatus → ℕ
moves_left pending = 2
moves_left accepted = 1
moves_left BetStatus.settled = 0
moves_left void = 0
moves_left cancelled = 0

Allowed-down : (s t : BetStatus) → Allowed s t → suc (moves_left t) ≤ moves_left s
Allowed-down pending t h = ground arith
Allowed-down accepted t h = ground arith
Allowed-down BetStatus.settled t h = cc
Allowed-down void t h = cc
Allowed-down cancelled t h = cc

Follows-moves :
    (b : Bet) {n : ℕ} {c : Bet} → Follows b n c → n + moves_left c.status ≤ moves_left b.status
Follows-moves b same = omega arith
Follows-moves b (moved {n} {c} t now f allowed) =
    omega (arith, Follows-moves b f, Allowed-down c.status t allowed)

moves_left_bound : (s : BetStatus) → moves_left s ≤ 2
moves_left_bound s = ground arith

terminal_moves : (s : BetStatus) → IsTerminal s → moves_left s ≡ 0
terminal_moves s h = ground arith

Follows-none : (b c : Bet) {n : ℕ} → n ≡ 0 → Follows b n c → c ≡ b
Follows-none b c e same = refl
Follows-none b c e (moved t now f allowed) = absurd (omega (arith, e))

-- Whatever requests to change statuses are made, in any order and with any failures, a bet of the
-- table stays in it and has made at most two transitions, each one of the table, and nothing but
-- its status and its time of change is different.
pub obey_all-Follows :
    (os : List Order) (id : Uuid) (b : Bet) (w : World)
    → find (has_bet_id id) w.bets ≡ some b
    → (n : ℕ) × (c : Bet) × (find (has_bet_id id) (obey_all os w).bets ≡ some c)
      × Follows b n c
      × (n ≤ 2)
obey_all-Follows os id b w found =
    let (n, c, found', f) = obey_all-Traced b id os w (0, b, found, same) in
    (n, c, found', f, omega (arith, Follows-moves b f, moves_left_bound b.status))

-- A bet in a terminal state stays as it is, whatever requests to change statuses are made.
pub terminal_stays :
    (os : List Order) (id : Uuid) (b : Bet) (w : World)
    → find (has_bet_id id) w.bets ≡ some b
    → IsTerminal b.status
    → find (has_bet_id id) (obey_all os w).bets ≡ some b
terminal_stays os id b w found end =
    let (n, c, found', f) = obey_all-Traced b id os w (0, b, found, same) in
    let none_made : n ≡ 0 = omega (arith, Follows-moves b f, terminal_moves b.status end) in
    subst (λ x. find (has_bet_id id) (obey_all os w).bets ≡ some x) (Follows-none b c none_made f)
      found'
