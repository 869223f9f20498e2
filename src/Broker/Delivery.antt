-- ===== src/Broker/Delivery.antt =====
-- A consumer of RabbitmqService at work: messages are handed over while fewer than the prefetch
-- count are unsettled, their handlers end in any order, and when the channel is lost the unsettled
-- messages are ready again, although what their handlers have done stays done.
use bolt_bet.Base.{ℕ, suc, ◌<◌, ◌≡◌, true, false, List, [], ◌∷◌, ◌++◌, Option, none, some}
use bolt_bet.Base.Table.{length}
use bolt_bet.Settlement.{Verdict, ack, nack}

pub record Consumer (M S : Type 0) : Type 0 where
  pub ready : List M
  pub unsettled : List M
  pub acknowledged : List M
  pub dead_letter : List M
  pub state : S

-- `handler(…).catch(() => ch.nack(msg, false, false))`: a handler that fails before it has settled
-- its message rejects it.
abbrev pub settled_by : Option Verdict → Verdict
settled_by none = nack false
settled_by (some v) = v

module _ {M S : Type 0} where
  -- The first message is handed over.
  abbrev pub hand_over : M → List M → Consumer M S → Consumer M S
  hand_over m ms q = record q { ready = ms; unsettled = m ∷ q.unsettled }

  -- `ch.ack(msg)` and `ch.nack(msg, false, requeue)`, with the other messages that are unsettled.
  abbrev pub settle_message : Verdict → M → List M → S → Consumer M S → Consumer M S
  settle_message ack m others s q = record q {
    unsettled = others;
    acknowledged = m ∷ q.acknowledged;
    state = s;
  }
  settle_message (nack true) m others s q = record q {
    ready = m ∷ q.ready;
    unsettled = others;
    state = s;
  }
  settle_message (nack false) m others s q = record q {
    unsettled = others;
    dead_letter = m ∷ q.dead_letter;
    state = s;
  }

  -- The channel is lost.
  abbrev pub lose_channel : Consumer M S → Consumer M S
  lose_channel q = record q { ready = q.unsettled ++ q.ready; unsettled = [] }

module _ {E M S : Type 0} (prefetch : ℕ) (handler : E → M → S → Option Verdict × S) where
  -- A message is handed over, or one handler ends; what it draws from outside is any `e`.
  pub data Step (q : Consumer M S) : Consumer M S → Type 0 where
    delivering :
        (m : M) (ms : List M)
        → q.ready ≡ m ∷ ms
        → length q.unsettled < prefetch
        → Step q (hand_over m ms q)
    ending :
        (e : E) (before : List M) (m : M) (after : List M)
        → q.unsettled ≡ before ++ (m ∷ after)
        → Step q (
            settle_message
              (settled_by (handler e m q.state).0)
              m
              (before ++ after)
              (handler e m q.state).1
              q)

  -- `Reach q n c t`: from `q` to `t` in `n` steps and with `c` losses of the channel.
  pub data Reach (q : Consumer M S) : ℕ → ℕ → Consumer M S → Type 0 where
    here : Reach q 0 0 q
    step : {n c : ℕ} {t u : Consumer M S} → Reach q n c t → Step t u → Reach q (suc n) c u
    lost : {n c : ℕ} {t : Consumer M S} → Reach q n c t → Reach q n (suc c) (lose_channel t)
