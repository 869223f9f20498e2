-- ===== src/Realtime/Rooms.antt =====
-- Who is in a room, and who is told of a bet.
use bolt_bet.Base.{
  ℕ, ◌≡◌, refl, Bool, false, inl, inr, Bool-cases, Option-cases, List, [], ◌∷◌, none, some, String,
  arith, subst, sym, ◌⊎◌, ==_iff, true,
}
use bolt_bet.Base.Table.{select, All}
use bolt_bet.Crypto.{Text, JwtPayload, Crypto, truthy}
use bolt_bet.Model.Types.{Uuid, MarketResult}
use bolt_bet.Model.Entities.{bet_settled}
use bolt_bet.Model.Action.{blacklist_read}
use bolt_bet.Auth.{is_blacklisted}
use bolt_bet.Realtime.{
  Socket, Handshake, Event, settled_event, has_socket_id, join, admit, checked, verified,
  handle_connection, emit, in_room, push_bet_settled, handle_notification, connect_all,
}

module _ (crypto : Crypto) where
  -- One of the handshakes.
  abbrev IsOneOf : Handshake → List Handshake → Type 0
  IsOneOf h [] = ⊥
  IsOneOf h (h' ∷ hs) = (h ≡ h') ⊎ IsOneOf h hs

  -- A handshake of the socket itself, whose token was verified as the user's and was not revoked at
  -- that time.
  pub record IsVouched (hs : List Handshake) (s : Socket) (u : Uuid) : Type 0 where
    pub handshake : Handshake
    pub token : Text
    pub payload : JwtPayload
    pub came : IsOneOf handshake hs
    pub own : handshake.socket_id ≡ s.id
    pub shown : truthy handshake.token ≡ some token
    pub verified_as : crypto.verify handshake.draw.now token ≡ some payload
    pub subject : payload.sub ≡ u
    pub not_revoked :
        is_blacklisted handshake.draw.now payload.jti handshake.world.persistent ≡ false

  -- A socket is in no room, or in one that its own token has vouched for.
  abbrev pub IsRoomed : List Handshake → Socket → Type 0
  IsRoomed hs s = (u : Uuid) → s.room ≡ some u → IsVouched hs s u

  -- One more handshake.
  later :
      (h : Handshake) (hs : List Handshake) (ss : List Socket)
      → All (IsRoomed hs) ss
      → All (IsRoomed (h ∷ hs)) ss
  later h hs [] all = tt
  later h hs (s ∷ ss) all = (λ u e. more (all.0 u e), later h hs ss all.1)
    where
      more : {u : Uuid} → IsVouched hs s u → IsVouched (h ∷ hs) s u
      more v = record {
        handshake = v.handshake;
        token = v.token;
        payload = v.payload;
        came = inr v.came;
        own = v.own;
        shown = v.shown;
        verified_as = v.verified_as;
        subject = v.subject;
        not_revoked = v.not_revoked;
      }

  kept :
      (hs : List Handshake) (q : Socket → Bool) (ss : List Socket)
      → All (IsRoomed hs) ss
      → All (IsRoomed hs) (select q ss)
  kept hs q [] h = tt
  kept hs q (s ∷ ss) h = elim (Bool-cases (q s)) [
    | inl stays ↦ rw stays (h.0, kept hs q ss h.1)
    | inr other ↦ rw other (kept hs q ss h.1)
  ]

  joined :
      (hs : List Handshake) (id : ℕ) (u : Uuid) (ss : List Socket)
      → ((s : Socket) → s.id ≡ id → IsVouched hs s u)
      → All (IsRoomed hs) ss
      → All (IsRoomed hs) (join id u ss)
  joined hs id u [] v h = tt
  joined hs id u (s ∷ ss) v h = elim (Bool-cases (has_socket_id id s)) [
    | inl own ↦ rw own (enters own, joined hs id u ss v h.1)
    | inr other ↦ rw other (h.0, joined hs id u ss v h.1)
  ]
    where
      enters : has_socket_id id s ≡ true → IsRoomed hs (record s { room = some u })
      enters own k e =
          let vouched = v (record s { room = some u }) ((==_iff s.id id).0 own) in
          let same : u ≡ k = ground arith in
          subst (IsVouched hs (record s { room = some u })) same vouched

  -- The four ways in which a handshake ends.
  module _ (h : Handshake) (hs : List Handshake) (ss : List Socket)
      (all : All (IsRoomed (h ∷ hs)) ss) where
    admitted :
        (token : Text) (payload : JwtPayload)
        → truthy h.token ≡ some token
        → crypto.verify h.draw.now token ≡ some payload
        → All (IsRoomed (h ∷ hs)) (admit h payload ss)
    admitted token payload shown ok = elim (Bool-cases (h.draw.fails blacklist_read)) [
      | inl down ↦ rw down all
      | inr up ↦
          rw up (elim (Bool-cases (is_blacklisted h.draw.now payload.jti h.world.persistent)) [
            | inl gone ↦ rw gone (kept (h ∷ hs) _ ss all)
            | inr live ↦ rw live (
                joined (h ∷ hs) h.socket_id payload.sub ss
                  (λ s own. record {
                    handshake = h;
                    token = token;
                    payload = payload;
                    came = inl refl;
                    own = sym own;
                    shown = shown;
                    verified_as = ok;
                    subject = refl;
                    not_revoked = live;
                  })
                  all)
          ])
    ]

    ended : All (IsRoomed (h ∷ hs)) (checked h (verified crypto h (truthy h.token)) ss)
    ended = elim (Option-cases (truthy h.token)) [
      | inl missing ↦ rw missing (kept (h ∷ hs) _ ss all)
      | inr (token, shown) ↦ elim (Option-cases (crypto.verify h.draw.now token)) [
        | inl bad ↦ rw (shown, bad) (kept (h ∷ hs) _ ss all)
        | inr (payload, ok) ↦ rw (shown, ok) (admitted token payload shown ok)
      ]
    ]

  connect_all-IsRoomed : (hs : List Handshake) → All (IsRoomed hs) (connect_all crypto hs)
  unfolding handle_connection
  connect_all-IsRoomed [] = tt
  connect_all-IsRoomed (h ∷ hs) =
      ended h hs (record { id = h.socket_id; room = none } ∷ connect_all crypto hs)
        (λ u e. absurd (cc), later h hs (connect_all crypto hs) (connect_all-IsRoomed hs))

  -- What a user may be sent: the event, in the user's room, on a socket that its token vouched for.
  abbrev pub IsPrivate : List Handshake → Uuid → Event → Socket × Event → Type 0
  IsPrivate hs u event sent = (sent.0.room ≡ some u) × IsVouched hs sent.0 u × (sent.1 ≡ event)

  sent_to_room :
      (hs : List Handshake) (u : Uuid) (event : Event) (ss : List Socket)
      → All (IsRoomed hs) ss
      → All (IsPrivate hs u event) (emit event (select (in_room u) ss))
  sent_to_room hs u event [] h = tt
  sent_to_room hs u event (s ∷ ss) h = elim (Bool-cases (in_room u s)) [
    | inr out ↦ rw out (sent_to_room hs u event ss h.1)
    | inl inside ↦
        let room : s.room ≡ some u = ground arith in
        rw inside ((room, h.0 u room, refl), sent_to_room hs u event ss h.1)
  ]

  -- However many sockets have connected, and whatever their tokens: a settled bet is pushed only to
  -- sockets in the room of its user, with the bet and the payout of the message, and each of them
  -- came with a handshake of its own whose token was verified as that user's and was not blacklisted
  -- at that time.
  pub bet_settled-IsPrivate :
      (hs : List Handshake) (u bet_id : Uuid) (name : String) (result : MarketResult) (payout : ℕ)
      → All
          (IsPrivate hs u (settled_event bet_id name result payout))
          (handle_notification (bet_settled u bet_id name result payout) (connect_all crypto hs))
  unfolding handle_notification push_bet_settled
  bet_settled-IsPrivate hs u bet_id name result payout =
      sent_to_room hs u (settled_event bet_id name result payout) (connect_all crypto hs)
        (connect_all-IsRoomed hs)
