-- ===== src/Broker/Draining.antt =====
-- Messages are neither lost nor duplicated between the lists of a consumer, and they run out.
use bolt_bet.Base.{
  ℕ, suc, ◌+◌, ◌*◌, ◌<◌, ◌≤◌, ◌≡◌, ◌≢◌, ◌⊎◌, inl, inr, refl, ap, Bool, true, false, List, [], ◌∷◌,
  ◌++◌, Option, arith,
}
use bolt_bet.Base.Table.{length, count}
use bolt_bet.Settlement.{Verdict, ack, nack}
use bolt_bet.Broker.Delivery.{
  Consumer, settled_by, settle_message, Step, delivering, ending, Reach, here, step, lost,
}

module _ {M : Type 0} where
  pub count-append : (p : M → Bool) (xs ys : List M) → count p (xs ++ ys) ≡ count p xs + count p ys
  count-append p [] ys = omega arith
  count-append p (x ∷ xs) ys = omega (arith, count-append p xs ys)

  pub length-append : (xs ys : List M) → length (xs ++ ys) ≡ length xs + length ys
  length-append [] ys = omega arith
  length-append (x ∷ xs) ys = omega (arith, length-append xs ys)

module _ {M S : Type 0} where
  -- How many messages of a kind the consumer holds or has settled.
  abbrev pub held : (M → Bool) → Consumer M S → ℕ
  held p q = count p q.ready + count p q.unsettled + count p q.acknowledged + count p q.dead_letter

  -- Twice the messages that are ready, and those that are unsettled: each step uses one up.
  abbrev pub left : Consumer M S → ℕ
  left q = 2 * length q.ready + length q.unsettled

  settle_held :
      (v : Verdict) (p : M → Bool) (m : M) (before after : List M) (s : S) (q : Consumer M S)
      → q.unsettled ≡ before ++ (m ∷ after)
      → held p (settle_message v m (before ++ after) s q) ≡ held p q
  settle_held ack p m before after s q e =
      omega (arith, ap (count p) e, count-append p before (m ∷ after), count-append p before after)
  settle_held (nack true) p m before after s q e =
      omega (arith, ap (count p) e, count-append p before (m ∷ after), count-append p before after)
  settle_held (nack false) p m before after s q e =
      omega (arith, ap (count p) e, count-append p before (m ∷ after), count-append p before after)

  settle_left :
      (v : Verdict) (m : M) (before after : List M) (s : S) (q : Consumer M S)
      → q.unsettled ≡ before ++ (m ∷ after)
      → v ≢ nack true
      → (suc (left (settle_message v m (before ++ after) s q)) ≡ left q)
        × (length (settle_message v m (before ++ after) s q).unsettled ≤ length q.unsettled)
  settle_left ack m before after s q e final =
      let sum = ap length e in
      (
        omega (arith, sum, length-append before (m ∷ after), length-append before after),
        omega (arith, sum, length-append before (m ∷ after), length-append before after),
      )
  settle_left (nack true) m before after s q e final = absurd (final refl)
  settle_left (nack false) m before after s q e final =
      let sum = ap length e in
      (
        omega (arith, sum, length-append before (m ∷ after), length-append before after),
        omega (arith, sum, length-append before (m ∷ after), length-append before after),
      )

module _ {E M S : Type 0} (prefetch : ℕ) (handler : E → M → S → Option Verdict × S) where
  Step-held : (p : M → Bool) {q t : Consumer M S} → Step prefetch handler q t → held p t ≡ held p q
  Step-held p {q} (delivering m ms e room) = omega (arith, ap (count p) e)
  Step-held p {q} (ending e before m after found) =
      settle_held (settled_by (handler e m q.state).0) p m before after (handler e m q.state).1 q
        found

  -- No message is lost or doubled, however the steps of a consumer and the losses of its channel
  -- fall: of every kind there are as many messages ready, unsettled, acknowledged and in the dead
  -- letter queue as before.
  pub Reach-held :
      (p : M → Bool) {q t : Consumer M S} {n c : ℕ}
      → Reach prefetch handler q n c t
      → held p t ≡ held p q
  Reach-held p here = refl
  Reach-held p (step {t} {u} r s) = omega (arith, Reach-held p r, Step-held p s)
  Reach-held p (lost {t} r) = omega (arith, Reach-held p r, count-append p t.unsettled t.ready)

  module _ (final : (e : E) (m : M) (s : S) → settled_by (handler e m s).0 ≢ nack true) where
    Step-left :
        {q t : Consumer M S}
        → Step prefetch handler q t
        → length q.unsettled ≤ prefetch
        → (suc (left t) ≡ left q) × (length t.unsettled ≤ prefetch)
    Step-left {q} (delivering m ms e room) h =
        (omega (arith, ap (length {A = M}) e), omega (arith, room))
    Step-left {q} (ending e before m after found) h =
        let (one, less) =
          settle_left (settled_by (handler e m q.state).0) m before after (handler e m q.state).1 q
            found (final e m q.state) in
        (one, omega (arith, less, h))

    Reach-left :
        {q t : Consumer M S} {n c : ℕ}
        → length q.unsettled ≤ prefetch
        → Reach prefetch handler q n c t
        → (n + left t ≤ left q + c * prefetch) × (length t.unsettled ≤ prefetch)
    Reach-left h here = (omega arith, h)
    Reach-left h (step r s) =
        let (sum, fits) = Reach-left h r in
        let (one, fits') = Step-left s fits in (omega (arith, sum, one), fits')
    Reach-left h (lost {n} {c} {t} r) =
        let (sum, fits) = Reach-left h r in
        (grind (arith, sum, fits, length-append t.unsettled t.ready), omega arith)

  -- A consumer with messages left can take a step.
  next-Step :
      (q : Consumer M S)
      → E
      → 0 < prefetch
      → (left q ≡ 0) ⊎ ((t : Consumer M S) × Step prefetch handler q t)
  next-Step q e some_room = by_lists q.ready q.unsettled refl refl
    where
      by_lists :
          (rs us : List M)
          → q.ready ≡ rs
          → q.unsettled ≡ us
          → (left q ≡ 0) ⊎ ((t : Consumer M S) × Step prefetch handler q t)
      by_lists [] [] r u = inl (omega (arith, ap (length {A = M}) r, ap (length {A = M}) u))
      by_lists (m ∷ ms) [] r u =
          inr (_, delivering m ms r (omega (arith, some_room, ap (length {A = M}) u)))
      by_lists rs (m ∷ us) r u = inr (_, ending e [] m us u)

  -- Where no handler puts a message back, the work of a consumer ends: with any number of losses of
  -- the channel between its steps, it takes two steps at most for each message that is ready, one
  -- for each that is unsettled, and the prefetch count more for each loss; and as long as a message
  -- is ready or unsettled there is a next step.
  pub Reach-ends :
      {q t : Consumer M S} {n c : ℕ}
      → ((e : E) (m : M) (s : S) → settled_by (handler e m s).0 ≢ nack true)
      → E
      → 0 < prefetch
      → length q.unsettled ≤ prefetch
      → Reach prefetch handler q n c t
      → (n + left t ≤ left q + c * prefetch)
        × ((left t ≡ 0) ⊎ ((u : Consumer M S) × Step prefetch handler t u))
  Reach-ends {t} final e some_room h r = ((Reach-left final h r).0, next-Step t e some_room)
