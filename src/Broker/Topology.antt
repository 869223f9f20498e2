-- ===== src/Broker/Topology.antt =====
-- What one declaration of a channel does to a broker that agrees with it.
use bolt_bet.Base.{
  ◌≡◌, ◌⊎◌, ap, sym, subst, ◌∙◌, Bool-cases, inl, inr, true, Option, none, some, arith, ◌&&◌,
  if◌then◌else◌,
}
use bolt_bet.Broker.{
  Name, bet_placement, bet_placement_dlx, notifications, notifications_dlx, name_eq, DeadLetter,
  same_arguments, Broker, Declaration, then_, assert_existing, assert_queue, bind_queue,
  with_dead_letter,
}

-- The arguments that every channel declares a queue with.
abbrev pub agreed : Name → Option DeadLetter
agreed bet_placement = some (record { exchange = bet_placement_dlx; routing_key = bet_placement })
agreed notifications = some (record { exchange = notifications_dlx; routing_key = notifications })
agreed _ = none

abbrev pub IsAgreed : Broker → Type 0
IsAgreed b = (n : Name) → (b.queues n ≡ none) ⊎ (b.queues n ≡ some (agreed n))

name_eq-eq : (n m : Name) → name_eq n m ≡ true → n ≡ m
name_eq-eq n m h = ground arith

name_eq_refl : (n : Name) → name_eq n n ≡ true
name_eq_refl n = ground arith

same_agreed : (n : Name) → same_arguments (agreed n) (agreed n) ≡ true
same_agreed n = ground arith

-- A later state of the broker, which agrees too.
pub record Grown (b b' : Broker) : Type 0 where
  pub agrees : IsAgreed b'
  pub queues : (n : Name) → b.queues n ≡ some (agreed n) → b'.queues n ≡ some (agreed n)
  pub exchanges : (n : Name) → b.exchanges n ≡ true → b'.exchanges n ≡ true
  pub bindings : (q e k : Name) → b.bindings q e k ≡ true → b'.bindings q e k ≡ true

pub Grown-trans : (a b c : Broker) → Grown a b → Grown b c → Grown a c
Grown-trans a b c g g' = record {
  agrees = g'.agrees;
  queues = λ n h. g'.queues n (g.queues n h);
  exchanges = λ n h. g'.exchanges n (g.exchanges n h);
  bindings = λ q e k h. g'.bindings q e k (g.bindings q e k h);
}

-- A declaration that succeeds, and what is known after it.
abbrev pub Succeeds : (Broker → Type 0) → Broker → Declaration → Type 0
Succeeds Q b d = (b' : Broker) × (d b ≡ some b') × Grown b b' × Q b'

module _ (n : Name) (b : Broker) (h : IsAgreed b) where
  declared_agrees :
      (b.queues n ≡ none)
      → (m : Name)
      → ((if name_eq n m then some (agreed n) else b.queues m) ≡ none)
        ⊎ ((if name_eq n m then some (agreed n) else b.queues m) ≡ some (agreed m))
  declared_agrees missing m = elim (Bool-cases (name_eq n m)) [
    | inl hit ↦ rw hit (inr (ap (λ k. some (agreed k)) (name_eq-eq n m hit)))
    | inr apart ↦ rw apart (h m)
  ]

  declared_grows :
      (b.queues n ≡ none)
      → (m : Name) → b.queues m ≡ some (agreed m)
      → (if name_eq n m then some (agreed n) else b.queues m) ≡ some (agreed m)
  declared_grows missing m there = elim (Bool-cases (name_eq n m)) [
    | inl hit ↦ rw hit (ap (λ k. some (agreed k)) (name_eq-eq n m hit))
    | inr apart ↦ rw apart there
  ]

  assert_queue-Succeeds :
      Succeeds (λ b'. b'.queues n ≡ some (agreed n)) b (assert_queue n (agreed n))
  assert_queue-Succeeds = elim (h n) [
    | inl missing ↦ (
      record b { queues = λ m. if name_eq n m then some (agreed n) else b.queues m },
      rw (missing, assert_existing),
      record {
        agrees = declared_agrees missing;
        queues = declared_grows missing;
        exchanges = λ n e. e;
        bindings = λ q e k p. p;
      },
      rw (name_eq_refl n),
    )
    | inr there ↦ (
      b,
      rw (there, assert_existing, same_agreed n),
      record { agrees = h; queues = λ m q. q; exchanges = λ n e. e; bindings = λ q e k p. p },
      there,
    )
  ]

  pub assert_queue_as :
      (a : Option DeadLetter)
      → a ≡ agreed n
      → Succeeds (λ b'. b'.queues n ≡ some (agreed n)) b (assert_queue n a)
  assert_queue_as a e =
      subst (λ a. Succeeds (λ b'. b'.queues n ≡ some (agreed n)) b (assert_queue n a)) (sym e)
        assert_queue-Succeeds

-- What the broker rejects from the queue, it routes to the dead letter queue.
abbrev pub IsRouted : Name → Name → Name → Broker → Type 0
IsRouted queue dlx dead_letter b =
    (b.queues queue ≡ some (agreed queue)) × (b.bindings dead_letter dlx queue ≡ true)

pub IsRouted-Grown :
    (queue dlx dead_letter : Name) (b b' : Broker)
    → Grown b b'
    → IsRouted queue dlx dead_letter b
    → IsRouted queue dlx dead_letter b'
IsRouted-Grown queue dlx dead_letter b b' g r =
    (g.queues queue r.0, g.bindings dead_letter dlx queue r.1)

module _ (queue dlx dead_letter : Name)
    (own : agreed queue ≡ some (record { exchange = dlx; routing_key = queue }))
    (plain : agreed dead_letter ≡ none) where
  abbrev with_exchange : Broker → Broker
  with_exchange b = record b { exchanges = λ m. if name_eq dlx m then true else b.exchanges m }

  with_exchange-Grown : (b : Broker) → IsAgreed b → Grown b (with_exchange b)
  with_exchange-Grown b h = record {
    agrees = h;
    queues = λ n q. q;
    exchanges = λ n e. ground arith;
    bindings = λ q e k p. p;
  }

  abbrev with_binding : Broker → Broker
  with_binding b = record b {
    bindings = λ q e k.
        if name_eq dead_letter q && name_eq dlx e && name_eq queue k
        then true
        else b.bindings q e k;
  }

  bind_queue-Succeeds :
      (b : Broker)
      → IsAgreed b
      → b.queues dead_letter ≡ some (agreed dead_letter)
      → b.exchanges dlx ≡ true
      → Succeeds
          (λ b'. b'.bindings dead_letter dlx queue ≡ true)
          b
          (bind_queue dead_letter dlx queue)
  bind_queue-Succeeds b h declared there = (
    with_binding b,
    rw (declared, bind_queue, there),
    record {
      agrees = h;
      queues = λ n q. q;
      exchanges = λ n e. e;
      bindings = λ q e k p. ground arith;
    },
    rw (name_eq_refl dead_letter, name_eq_refl dlx, name_eq_refl queue),
  )

  pub with_dead_letter-Succeeds :
      (b : Broker)
      → IsAgreed b
      → Succeeds (IsRouted queue dlx dead_letter) b (with_dead_letter queue dlx dead_letter)
  with_dead_letter-Succeeds b h =
      let g₁ = with_exchange-Grown b h in
      let (b₂, e₂, g₂, q₂) = assert_queue_as dead_letter (with_exchange b) h none (sym plain) in
      let there : b₂.exchanges dlx ≡ true =
        g₂.exchanges dlx (ap (λ t. if t then true else b.exchanges dlx) (name_eq_refl dlx)) in
      let (b₃, e₃, g₃, r₃) = bind_queue-Succeeds b₂ g₂.agrees q₂ there in
      let (b₄, e₄, g₄, q₄) = assert_queue_as queue b₃ g₃.agrees _ (sym own) in
      (
        b₄,
        ap (λ o. then_ (then_ o (bind_queue dead_letter dlx queue)) last) e₂
            ∙ ap (λ o. then_ o last) e₃
            ∙ e₄,
        Grown-trans b (with_exchange b) b₄ g₁
            (Grown-trans (with_exchange b) b₂ b₄ g₂ (Grown-trans b₂ b₃ b₄ g₃ g₄)),
        (q₄, g₄.bindings dead_letter dlx queue r₃),
      )
    where
      last : Declaration
      last = assert_queue queue (some (record { exchange = dlx; routing_key = queue }))
