-- ===== src/Web/Connected.antt =====
-- The socket follows the token, and the events make stale what they have changed.
use bolt_bet.Base.{
  ℕ, ◌≡◌, ◌||◌, refl, ap, sym, subst, ◌∙◌, inl, inr, Bool, Bool-cases, true, List, [], ◌∷◌, Option,
  none, some, String, arith,
}
use bolt_bet.Base.Table.{update}
use bolt_bet.Crypto.{Text, truthy}
use bolt_bet.Model.Types.{MarketResult}
use bolt_bet.Realtime.{Event, settled_event, updated_event, created_event}
use bolt_bet.Web.{Browser, Query, Key, starts_with, invalidate, balance_key, bets_key, markets_key}
use bolt_bet.Web.Socket.{
  Sockets, no_sockets, close, cleaned, with_token, effect, token_changed, on_event, announce_result,
}

-- No socket without a token, and with one a single socket that bears it.
abbrev pub IsCurrent : Option Text → Sockets → Type 0
IsCurrent none s = (s.connections ≡ []) × (s.current ≡ none) × (s.clean_up ≡ none)
IsCurrent (some token) s =
    (id : ℕ) × (s.connections ≡ record { id = id; token = token } ∷ [])
    × (s.current ≡ some id)
    × (s.clean_up ≡ some id)

-- What the clean-up leaves.
abbrev IsClean : Sockets → Type 0
IsClean s = (s.connections ≡ []) × (s.current ≡ none) × (s.clean_up ≡ none)

cleaned-IsClean : (token : Option Text) (s : Sockets) → IsCurrent token s → IsClean (cleaned s)
cleaned-IsClean none s (a, b, c) = (rw (c, close) a, rw (c, close) b, refl)
cleaned-IsClean (some token) s (id, a, b, c) = ground arith

effect-IsCurrent :
    (is_connected : Bool) (token : Option Text) (s : Sockets)
    → IsClean s
    → IsCurrent token (effect is_connected token s)
effect-IsCurrent is_connected none s (a, b, c) =
    subst (λ o. IsCurrent none (close o s)) (sym b) (a, b, c)
effect-IsCurrent is_connected (some token) s (a, b, c) =
    subst (λ o. IsCurrent (some token) (with_token is_connected token o s)) (sym b)
      (s.next_id, ap (◌∷◌ (record { id = s.next_id; token = token })) a, refl, refl)

-- The changes of the token, in turn.
abbrev pub follow : List (Bool × Option Text) → Sockets → Sockets
follow [] s = s
follow ((is_connected, token) ∷ changes) s = follow changes (token_changed is_connected token s)

abbrev pub last_token : Option Text → List (Bool × Option Text) → Option Text
last_token token [] = token
last_token token ((is_connected, token') ∷ changes) = last_token (truthy token') changes

follow-IsCurrent :
    (changes : List (Bool × Option Text)) (token : Option Text) (s : Sockets)
    → IsCurrent token s
    → IsCurrent (last_token token changes) (follow changes s)
unfolding token_changed
follow-IsCurrent [] token s h = h
follow-IsCurrent ((is_connected, token') ∷ changes) token s h =
    follow-IsCurrent changes (truthy token') _
      (effect-IsCurrent is_connected (truthy token') (cleaned s) (cleaned-IsClean token s h))

-- However the token changes, and whether or not a socket has connected in between: there is no
-- socket while there is no token, and otherwise one socket only, which bears the token.
pub sockets-IsCurrent :
    (changes : List (Bool × Option Text))
    → IsCurrent (last_token none changes) (follow changes no_sockets)
sockets-IsCurrent changes = follow-IsCurrent changes none no_sockets (refl, refl, refl)

-- The queries whose results an event changes.
abbrev pub concerns : Event → Key → Bool
concerns (settled_event bet_id name result payout) key =
    starts_with balance_key key || starts_with (bets_key 1) key
concerns (updated_event market_id name status odds) key = starts_with markets_key key
concerns (created_event market_id name odds) key = starts_with markets_key key

abbrev pub stale : Query → Query
stale q = record q { is_stale = true }

update_twice :
    (p p' : Key → Bool) (qs : List Query)
    → update (λ q. p' q.key) stale (update (λ q. p q.key) stale qs)
      ≡ update (λ q. p q.key || p' q.key) stale qs
update_twice p p' [] = refl
update_twice p p' (q ∷ qs) = elim (Bool-cases (p q.key)) [
  | inl hit ↦ elim (Bool-cases (p' q.key)) [
    | inl hit' ↦ rw (hit, hit') (ap (◌∷◌ (stale q)) (update_twice p p' qs))
    | inr miss ↦ rw (hit, miss) (ap (◌∷◌ (stale q)) (update_twice p p' qs))
  ]
  | inr miss ↦ elim (Bool-cases (p' q.key)) [
    | inl hit' ↦ rw (miss, hit') (ap (◌∷◌ (stale q)) (update_twice p p' qs))
    | inr miss' ↦ rw (miss, miss') (ap (◌∷◌ q) (update_twice p p' qs))
  ]
]

result_cache :
    (name : String) (result : MarketResult) (payout : ℕ) (b : Browser)
    → (announce_result name result payout b).cache ≡ b.cache
result_cache name MarketResult.win payout b = refl
result_cache name MarketResult.loss payout b = refl

-- An event makes exactly those queries stale that it concerns: the balance and the first page of the
-- bets when a bet was settled, and every list of markets, the administrator's too, when a market has
-- changed or is new. No query is dropped.
pub on_event-cache :
    (e : Event) (b : Browser) → (on_event e b).cache ≡ update (λ q. concerns e q.key) stale b.cache
unfolding on_event
on_event-cache (settled_event bet_id name result payout) b =
    ap (λ qs. invalidate (bets_key 1) (invalidate balance_key qs))
      (result_cache name result payout b)
    ∙ update_twice (starts_with balance_key) (starts_with (bets_key 1)) b.cache
on_event-cache (updated_event market_id name status odds) b = refl
on_event-cache (created_event market_id name odds) b = refl
