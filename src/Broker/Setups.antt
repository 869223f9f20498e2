-- ===== src/Broker/Setups.antt =====
-- The channels agree on what they declare: no setup is ever refused.
use bolt_bet.Base.{◌≡◌, refl, ap, ◌∙◌, inl, true, List, [], ◌∷◌, some, none}
use bolt_bet.Base.Table.{All}
use bolt_bet.Broker.{
  Name, task_queue, bet_placement, bet_placement_dlx, bet_placement_dead_letter, notifications,
  notifications_dlx, notifications_dead_letter, Broker, empty_broker, then_, Channel, publisher,
  task_consumer, bet_placement_consumer, notifications_consumer, setup, setup_all, dead_letters_to,
  rejects_to, bet_placement_setup, notifications_setup,
}
use bolt_bet.Broker.Topology.{
  agreed, IsAgreed, Grown, Grown-trans, Succeeds, IsRouted, IsRouted-Grown, assert_queue_as,
  with_dead_letter-Succeeds,
}

IsRouted-dead_letters :
    (queue dlx dead_letter : Name)
    (own : agreed queue ≡ some (record { exchange = dlx; routing_key = queue })) (b : Broker)
    → IsRouted queue dlx dead_letter b
    → dead_letters_to b queue dead_letter ≡ true
IsRouted-dead_letters queue dlx dead_letter own b r =
    ap (rejects_to b dead_letter) (r.0 ∙ ap (λ a. some a) own) ∙ r.1

abbrev BetsRouted : Broker → Type 0
BetsRouted = IsRouted bet_placement bet_placement_dlx bet_placement_dead_letter

abbrev NotesRouted : Broker → Type 0
NotesRouted = IsRouted notifications notifications_dlx notifications_dead_letter

-- What a channel relies on.
abbrev Ready : Channel → Broker → Type 0
Ready publisher b = (b.queues task_queue ≡ some (agreed task_queue)) × BetsRouted b × NotesRouted b
Ready task_consumer b = b.queues task_queue ≡ some (agreed task_queue)
Ready bet_placement_consumer b = BetsRouted b
Ready notifications_consumer b = NotesRouted b

Ready-Grown : (c : Channel) (b b' : Broker) → Grown b b' → Ready c b → Ready c b'
Ready-Grown publisher b b' g r = (
  g.queues task_queue r.0,
  IsRouted-Grown bet_placement bet_placement_dlx bet_placement_dead_letter b b' g r.1,
  IsRouted-Grown notifications notifications_dlx notifications_dead_letter b b' g r.2,
)
Ready-Grown task_consumer b b' g r = g.queues task_queue r
Ready-Grown bet_placement_consumer b b' g r =
    IsRouted-Grown bet_placement bet_placement_dlx bet_placement_dead_letter b b' g r
Ready-Grown notifications_consumer b b' g r =
    IsRouted-Grown notifications notifications_dlx notifications_dead_letter b b' g r

bets_succeed : (b : Broker) → IsAgreed b → Succeeds BetsRouted b bet_placement_setup
bets_succeed =
    with_dead_letter-Succeeds bet_placement bet_placement_dlx bet_placement_dead_letter refl refl

notes_succeed : (b : Broker) → IsAgreed b → Succeeds NotesRouted b notifications_setup
notes_succeed =
    with_dead_letter-Succeeds notifications notifications_dlx notifications_dead_letter refl refl

setup-Succeeds : (c : Channel) (b : Broker) → IsAgreed b → Succeeds (Ready c) b (setup c)
setup-Succeeds publisher b h =
    let (b₁, e₁, g₁, q₁) = assert_queue_as task_queue b h none refl in
    let (b₂, e₂, g₂, r₂) = bets_succeed b₁ g₁.agrees in
    let (b₃, e₃, g₃, r₃) = notes_succeed b₂ g₂.agrees in
    let g₂₃ = Grown-trans b₁ b₂ b₃ g₂ g₃ in
    (
      b₃,
      ap (λ o. then_ (then_ o bet_placement_setup) notifications_setup) e₁
          ∙ ap (λ o. then_ o notifications_setup) e₂
          ∙ e₃,
      Grown-trans b b₁ b₃ g₁ g₂₃,
      (
        g₂₃.queues task_queue q₁,
        IsRouted-Grown bet_placement bet_placement_dlx bet_placement_dead_letter b₂ b₃ g₃ r₂,
        r₃,
      ),
    )
setup-Succeeds task_consumer b h = assert_queue_as task_queue b h none refl
setup-Succeeds bet_placement_consumer b h = bets_succeed b h
setup-Succeeds notifications_consumer b h = notes_succeed b h

All-Ready-Grown :
    (cs : List Channel) (b b' : Broker)
    → Grown b b'
    → All (λ c. Ready c b) cs
    → All (λ c. Ready c b') cs
All-Ready-Grown [] b b' g h = tt
All-Ready-Grown (c ∷ cs) b b' g h = (Ready-Grown c b b' g h.0, All-Ready-Grown cs b b' g h.1)

setup_all-Succeeds :
    (cs : List Channel) (b : Broker)
    → IsAgreed b
    → Succeeds (λ b'. All (λ c. Ready c b') cs) b (setup_all cs)
setup_all-Succeeds [] b h = (
  b,
  refl,
  record { agrees = h; queues = λ n q. q; exchanges = λ n e. e; bindings = λ q e k p. p },
  tt,
)
setup_all-Succeeds (c ∷ cs) b h =
    let (b₁, e₁, g₁, r₁) = setup-Succeeds c b h in
    let (b₂, e₂, g₂, r₂) = setup_all-Succeeds cs b₁ g₁.agrees in
    (
      b₂,
      ap (λ o. then_ o (setup_all cs)) e₁ ∙ e₂,
      Grown-trans b b₁ b₂ g₁ g₂,
      (Ready-Grown c b₁ b₂ g₂ r₁, r₂),
    )

-- What a channel is promised: its queues are there, and what is rejected from one with a dead letter
-- queue gets there.
abbrev pub IsServed : Broker → Channel → Type 0
IsServed b publisher =
    (b.queues task_queue ≡ some none)
    × (dead_letters_to b bet_placement bet_placement_dead_letter ≡ true)
    × (dead_letters_to b notifications notifications_dead_letter ≡ true)
IsServed b task_consumer = b.queues task_queue ≡ some none
IsServed b bet_placement_consumer = dead_letters_to b bet_placement bet_placement_dead_letter ≡ true
IsServed b notifications_consumer = dead_letters_to b notifications notifications_dead_letter ≡ true

served : (b : Broker) (c : Channel) → Ready c b → IsServed b c
served b publisher r = (
  r.0,
  IsRouted-dead_letters bet_placement bet_placement_dlx bet_placement_dead_letter refl b r.1,
  IsRouted-dead_letters notifications notifications_dlx notifications_dead_letter refl b r.2,
)
served b task_consumer r = r
served b bet_placement_consumer r =
    IsRouted-dead_letters bet_placement bet_placement_dlx bet_placement_dead_letter refl b r
served b notifications_consumer r =
    IsRouted-dead_letters notifications notifications_dlx notifications_dead_letter refl b r

All-IsServed : (b : Broker) (cs : List Channel) → All (λ c. Ready c b) cs → All (IsServed b) cs
All-IsServed b [] h = tt
All-IsServed b (c ∷ cs) h = (served b c h.0, All-IsServed b cs h.1)

-- In whatever order the channels connect to a new broker, and however often they reconnect, no
-- declaration of any of them is refused, and afterwards each channel that has connected has its
-- queues, with all that is rejected from bet_placement routed to bet_placement_dead_letter and from
-- notifications to notifications_dead_letter.
pub setup_all-IsServed :
    (cs : List Channel) → (b : Broker) × (setup_all cs empty_broker ≡ some b) × All (IsServed b) cs
setup_all-IsServed cs =
    let (b, e, g, r) = setup_all-Succeeds cs empty_broker (λ n. inl refl) in
    (b, e, All-IsServed b cs r)
