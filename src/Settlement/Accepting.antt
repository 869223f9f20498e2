-- ===== src/Settlement/Accepting.antt =====
-- What becomes of a message, and of its bet.
use bolt_bet.Base.{
  ℕ, suc, ◌+◌, ◌≡◌, ◌≢◌, refl, Bool-cases, Option-cases, inl, inr, Bool, if◌then◌else◌, true, false,
  some, List, [], ◌∷◌, arith, ◌∙◌,
}
use bolt_bet.Base.Table.{find, length, All, find-update_key, update}
use bolt_bet.Model.Types.{Uuid, BetStatus, pending, accepted, void, cancelled, status_eq}
use bolt_bet.Model.Entities.{Bet, BetPlacementPayload, World}
use bolt_bet.Model.Action.{Env, Error, ok, err, bind, bet_read, bet_write}
use bolt_bet.Market.{has_bet_id, set_bet_status}
use bolt_bet.Betting.{
  includes, terminal_states, transition_status, is_terminal_state, allowed_transitions,
}
use bolt_bet.Betting.Transition.{
  Allowed, IsTerminal, marked, transition_status_cases, is_terminal_state_cases,
  transition_status-Allowed, transition_status_barred, is_terminal_state_found,
}
use bolt_bet.Betting.History.{Follows, same, moved, set_bet_status-Traced}
use bolt_bet.Settlement.{
  Verdict, ack, nack, caught, unless_terminal, or_nack, handle_message, Inbox, Delivery, dispose,
  consume, consume_all,
}

-- The bet is in the table, and is no longer pending.
abbrev pub IsPast : Uuid → World → Type 0
IsPast id w =
    (b : Bet) × (find (has_bet_id id) w.bets ≡ some b) × (status_eq b.status pending ≡ false)

Allowed-past : (s t : BetStatus) → Allowed s t → status_eq t pending ≡ false
Allowed-past s pending h = ground arith
Allowed-past s accepted h = refl
Allowed-past s BetStatus.settled h = refl
Allowed-past s void h = refl
Allowed-past s cancelled h = refl

Follows-past :
    (b : Bet) {n : ℕ} {c : Bet}
    → Follows b n c
    → status_eq b.status pending ≡ false
    → status_eq c.status pending ≡ false
Follows-past b same h = h
Follows-past b (moved {n} {c} t now f allowed) h = Allowed-past c.status t allowed

terminal_past : (s : BetStatus) → IsTerminal s → status_eq s pending ≡ false
terminal_past s h = ground arith

-- What the verdict says of the bet.
abbrev Says : Uuid → Verdict → World → Type 0
Says id ack w = IsPast id w
Says id (nack false) w = Unit
Says id (nack true) w = ⊥

module _ (env env' : Env) (p : BetPlacementPayload) (w : World) where
  -- No bet goes back to pending, and the verdict is true of the message's bet.
  abbrev Handled : Verdict × World → Type 0
  Handled r = ((j : Uuid) → IsPast j w → IsPast j r.1) × Says p.bet_id r.0 r.1

  catching : (e : Error) → Handled (or_nack (caught env' p (err e, w)))
  catching e =
      is_terminal_state_cases (λ r. Handled (or_nack (bind r (unless_terminal e)))) env' p.bet_id w
        (λ e'. (λ j h. h, tt))
        (elim (Option-cases (find (has_bet_id p.bet_id) w.bets)) [
          | inl missing ↦ rw missing (λ j h. h, tt)
          | inr (b, found) ↦ elim (Bool-cases (includes terminal_states b.status)) [
            | inl end ↦ rw (found, end) (λ j h. h, (b, found, terminal_past b.status end))
            | inr going ↦ rw (found, going) (λ j h. h, tt)
          ]
        ])

  accepting :
      (b : Bet)
      → find (has_bet_id p.bet_id) w.bets ≡ some b
      → Allowed b.status accepted
      → Handled (or_nack (caught env' p (set_bet_status env p.bet_id accepted w)))
  unfolding set_bet_status
  accepting b found allowed = elim (Bool-cases (env.fails bet_write)) [
    | inl down ↦ rw (down, set_bet_status) (catching _)
    | inr up ↦
        let kept = λ (j : Uuid) (h : IsPast j w). past j h in
        rw (up, set_bet_status)
          (
            rw (up, set_bet_status) at kept,
            (
              marked accepted env.now b,
              find-update_key (has_bet_id p.bet_id) (marked accepted env.now) w.bets found
                  (λ y. refl),
              refl,
            ),
          )
  ]
    where
      past : (j : Uuid) → IsPast j w → IsPast j (set_bet_status env p.bet_id accepted w).1
      past j (b', found', h) =
          let (n, c, found'', f) =
            set_bet_status-Traced b' j env p.bet_id accepted w b found allowed
              (0, b', found', same) in
          (c, found'', Follows-past b' f h)

  handled : Handled (handle_message env env' p w)
  unfolding handle_message
  handled =
      transition_status_cases (λ r. Handled (or_nack (caught env' p r))) env p.bet_id accepted w
        catching accepting

Says-final : (id : Uuid) (v : Verdict) (w : World) → Says id v w → v ≢ nack true
Says-final id ack w h e = cc
Says-final id (nack false) w h e = cc
Says-final id (nack true) w h e = h

-- No message is put back.
pub handle_message-final :
    (env env' : Env) (p : BetPlacementPayload) (w : World)
    → (handle_message env env' p w).0 ≢ nack true
handle_message-final env env' p w =
    Says-final p.bet_id (handle_message env env' p w).0 (handle_message env env' p w).1
      (handled env env' p w).1

-- Every acknowledged message is of a bet that is past pending.
abbrev pub IsSound : Inbox → Type 0
IsSound i = All (λ (p : BetPlacementPayload). IsPast p.bet_id i.world) i.acknowledged

All-map {ℓ κ} :
    {A : Type 0} {P : A → Type ℓ} {Q : A → Type κ} (f : (x : A) → P x → Q x) (xs : List A)
    → All P xs
    → All Q xs
All-map f [] h = tt
All-map f (x ∷ xs) h = (f x h.0, All-map f xs h.1)

-- What the messages that left the queue add up to; and the queue, to which none is put back.
abbrev pub Disposed : List Delivery → Inbox → Inbox → Type 0
Disposed ds i i' =
    (length i'.acknowledged + length i'.dead_letter
      ≡ length ds + (length i.acknowledged + length i.dead_letter))
    × (i'.queue ≡ i.queue)
    × IsSound i'

dispose-Disposed :
    (p : BetPlacementPayload) (i : Inbox) (r : Verdict × World)
    → IsSound i
    → ((j : Uuid) → IsPast j i.world → IsPast j r.1)
    → Says p.bet_id r.0 r.1
    → (length (dispose p i r).acknowledged + length (dispose p i r).dead_letter
        ≡ suc (length i.acknowledged + length i.dead_letter))
      × ((dispose p i r).queue ≡ i.queue)
      × IsSound (dispose p i r)
dispose-Disposed p i (ack, w) h kept said =
    (omega arith, refl, (said, All-map (λ q. kept q.bet_id) i.acknowledged h))
dispose-Disposed p i (nack false, w) h kept said =
    (omega arith, refl, All-map (λ q. kept q.bet_id) i.acknowledged h)
dispose-Disposed p i (nack true, w) h kept said = absurd said

-- Each message that is consumed is disposed of once, acknowledged or moved to the dead letter queue,
-- and none is put back; and every message that was acknowledged is of a bet that is in the table and
-- is not pending, whatever fails on the way.
pub consume_all-Disposed :
    (ds : List Delivery) (i : Inbox) → IsSound i → Disposed ds i (consume_all ds i)
consume_all-Disposed [] i h = (omega arith, refl, h)
consume_all-Disposed (d ∷ ds) i h =
    let (kept, said) = handled d.env d.env' d.payload i.world in
    let (once, back, sound) =
      dispose-Disposed d.payload i (handle_message d.env d.env' d.payload i.world) h kept said in
    let (rest, back', sound') = consume_all-Disposed ds (consume d i) sound in
    (omega (arith, rest, once), back' ∙ back, sound')

module _ (env env' : Env) (p : BetPlacementPayload) (w : World) where
  -- By the status of the bet: a pending bet is accepted, an accepted one is a failure, and one in a
  -- terminal state is left alone.
  abbrev pub outcome_on : BetStatus → Verdict × World
  outcome_on pending =
      (ack, record w { bets = update (has_bet_id p.bet_id) (marked accepted env.now) w.bets })
  outcome_on accepted = (nack false, w)
  outcome_on _ = (ack, w)

  outcome_accepted :
      transition_status env p.bet_id accepted w
        ≡ (ok tt, record w { bets = update (has_bet_id p.bet_id) (marked accepted env.now) w.bets })
      → handle_message env env' p w ≡ outcome_on pending
  unfolding handle_message
  outcome_accepted e = rw (e, handle_message)

  outcome_barred :
      (e : Error) (end : Bool)
      → transition_status env p.bet_id accepted w ≡ (err e, w)
      → is_terminal_state env' p.bet_id w ≡ (ok end, w)
      → handle_message env env' p w ≡ (if end then ack else nack false, w)
  unfolding handle_message
  outcome_barred e true h h' = rw (h, handle_message, h')
  outcome_barred e false h h' = rw (h, handle_message, h')

  -- Where the bet is in the table and the database answers, a message accepts its pending bet and
  -- is acknowledged; for a bet in a terminal state it is acknowledged, and for an accepted bet, as
  -- after a second delivery, it goes to the dead letter queue, and nothing changes.
  pub handle_message-outcome :
      (b : Bet)
      → env.fails bet_read ≡ false
      → env.fails bet_write ≡ false
      → env'.fails bet_read ≡ false
      → find (has_bet_id p.bet_id) w.bets ≡ some b
      → handle_message env env' p w ≡ outcome_on b.status
  handle_message-outcome b up up' up'' found = by_status b.status refl
    where
      barred :
          includes (allowed_transitions b.status) accepted ≡ false
          → handle_message env env' p w
            ≡ (if includes terminal_states b.status then ack else nack false, w)
      barred shut =
          outcome_barred _ _ (transition_status_barred env p.bet_id accepted w b up found shut)
            (is_terminal_state_found env' p.bet_id w b up'' found)

      by_status : (s : BetStatus) → b.status ≡ s → handle_message env env' p w ≡ outcome_on s
      by_status pending e =
          outcome_accepted (transition_status-Allowed env p.bet_id accepted w b up up' found (rw e))
      by_status accepted e = barred (rw e) ∙ rw e
      by_status BetStatus.settled e = barred (rw e) ∙ rw e
      by_status void e = barred (rw e) ∙ rw e
      by_status cancelled e = barred (rw e) ∙ rw e
