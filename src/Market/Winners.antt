-- ===== src/Market/Winners.antt =====
-- The winners of a settled market: none is closed without its payout.
use bolt_bet.Base.{
  ◌≡◌, ◌⊎◌, inl, inr, refl, true, String, Bool, Bool-cases, some, List, [], ◌∷◌, arith, ap, sym,
  subst, ◌∙◌, ◌==◌, ==_iff,
}
use bolt_bet.Base.Table.{find, select, All, find-update_other}
use bolt_bet.Model.Types.{Uuid, TransactionType, MarketStatus, MarketResult, BetStatus}
use bolt_bet.Model.Entities.{Market, Bet, World, WalletTransaction}
use bolt_bet.Model.Action.{Env}
use bolt_bet.Wallet.Rows.{IsDistinct}
use bolt_bet.Wallet.Posted.{Posted, IsRequested}
use bolt_bet.Wallet.Idempotency.{requested-of_typed_reference}
use bolt_bet.Market.{settle, settle_bet, settle_bets, payout_text, has_bet_id, is_live, with_status}
use bolt_bet.Market.Lookup.{settle_cases, settle_found_cases}
use bolt_bet.Market.Frame.{close_update-Keeps}
use bolt_bet.Wallet.{of_typed_reference}
use bolt_bet.Market.Paid.{IsPaid, IsCredited, closed, settle_bet_cases}

-- The primary key: the row that its key finds is the row.
abbrev pub IsKeyed : List Bet → Type 0
IsKeyed bets = All (λ (b : Bet). find (has_bet_id b.id) bets ≡ some b) bets

All-select :
    {A : Type 0} (P : A → Type 0) (q : A → Bool) (xs : List A) → All P xs → All P (select q xs)
All-select P q [] h = tt
All-select P q (x ∷ xs) h = elim (Bool-cases (q x)) [
  | inl kept ↦ rw kept (h.0, All-select P q xs h.1)
  | inr dropped ↦ rw dropped (All-select P q xs h.1)
]

-- No bet of `w` has a credit under its key that is not of the amount of its payout.
abbrev pub IsFair : World → List WalletTransaction → Type 0
IsFair w ts =
    (b : Bet)
    → find (has_bet_id b.id) w.bets ≡ some b
    → (tx : WalletTransaction) → IsCredited b ts tx
    → tx.amount_cents ≡ b.payout_cents

-- Between `w` and `v`, each bet has kept its row or has been paid.
abbrev pub KeptOrPaid : World → World → Type 0
KeptOrPaid w v =
    (b : Bet)
    → find (has_bet_id b.id) w.bets ≡ some b
    → (find (has_bet_id b.id) v.bets ≡ some b) ⊎ IsPaid b v.transactions

module _ (w : World) where
  abbrev Going : World → Type 0
  Going v = IsDistinct v.wallets × IsFair w v.transactions × KeptOrPaid w v

  -- A payout of `x` stands under the key of no other bet.
  module _ (env : Env) (x : Bet) (text : String) (tx : WalletTransaction)
      (at : find (has_bet_id x.id) w.bets ≡ some x)
      (q : IsRequested env x.user_id TransactionType.credit x.payout_cents x.id text tx) where
    own_amount :
        (b : Bet)
        → find (has_bet_id b.id) w.bets ≡ some b
        → of_typed_reference b.user_id b.id TransactionType.credit tx ≡ true
        → tx.amount_cents ≡ b.payout_cents
    own_amount b found hit =
        let reference = q.reference in
        let key : (x.id == b.id) ≡ true = ground arith in
        let e : x.id ≡ b.id = (==_iff x.id b.id).0 key in
        let this : some x ≡ some b =
          sym (subst (λ k. find (has_bet_id k) w.bets ≡ some x) e at) ∙ found in
        let row : x ≡ b = ground arith in q.sum ∙ ap (λ (z : Bet). z.payout_cents) row

    IsPaid-next :
        (b : Bet) (ts : List WalletTransaction)
        → find (has_bet_id b.id) w.bets ≡ some b
        → IsPaid b ts
        → IsPaid b (tx ∷ ts)
    IsPaid-next b ts found (old, credited, amount) =
        elim (Bool-cases (of_typed_reference b.user_id b.id TransactionType.credit tx)) [
          | inl hit ↦ (tx, rw hit refl, own_amount b found hit)
          | inr miss ↦ (old, rw miss credited, amount)
        ]

    IsFair-next : (ts : List WalletTransaction) → IsFair w ts → IsFair w (tx ∷ ts)
    IsFair-next ts fair b found tx' credited =
        elim (Bool-cases (of_typed_reference b.user_id b.id TransactionType.credit tx)) [
          | inl hit ↦
              let same : tx ≡ tx' = ground arith in
              sym (ap (λ (z : WalletTransaction). z.amount_cents) same) ∙ own_amount b found hit
          | inr miss ↦ fair b found tx' (ground arith)
        ]

    -- A new payout keeps it.
    Posted-Going : (v v' : World) → Posted tx v v' → Going v → Going v'
    Posted-Going v v' p (d, fair, h) =
        (p.distinct, subst (IsFair w) (sym p.logged) (IsFair-next v.transactions fair), kept)
      where
        kept : KeptOrPaid w v'
        kept b found = elim (h b found) [
          | inl still ↦ inl (ap (λ (z : World). find (has_bet_id b.id) z.bets) p.frame ∙ still)
          | inr paid ↦
              inr (subst (IsPaid b) (sym p.logged) (IsPaid-next b v.transactions found paid))
        ]

  -- And so does a mark on a bet that is paid.
  closed-Going :
      (env : Env) (x : Bet) (v : World)
      → find (has_bet_id x.id) w.bets ≡ some x
      → IsPaid x v.transactions
      → Going v
      → Going (closed env x v)
  closed-Going env x v at paid (d, fair, h) = (d, fair, kept)
    where
      kept : KeptOrPaid w (closed env x v)
      kept b found = elim (h b found) [
        | inr done ↦ inr done
        | inl still ↦ elim (Bool-cases (x.id == b.id)) [
          | inr apart ↦ inl (
              find-update_other (has_bet_id b.id) (has_bet_id x.id)
                (λ bet. record bet { status = BetStatus.settled; updated_at = env.now }) v.bets
                (λ y hit. ground arith) (λ y hit. ground arith)
              ∙ still)
          | inl hit ↦
              let e : x.id ≡ b.id = (==_iff x.id b.id).0 hit in
              let this : some x ≡ some b =
                sym (subst (λ k. find (has_bet_id k) w.bets ≡ some x) e at) ∙ found in
              let row : x ≡ b = ground arith in inr (subst (λ z. IsPaid z v.transactions) row paid)
        ]
      ]

  settle_bet-Going :
      (env : Env) (m : Market) (x : Bet) (v : World)
      → find (has_bet_id x.id) w.bets ≡ some x
      → Going v
      → Going (settle_bet env m MarketResult.win x v).1
  settle_bet-Going env m x v at h =
      settle_bet_cases (λ r. Going r.1) env m x v h.0 (λ e. h)
        λ v₁ paid.
          let (going, done) = step v₁ paid in
          (
            λ e. going,
            λ e. closed-Going env x v₁ at done going,
            closed-Going env x v₁ at done going,
          )
    where
      step :
          (v₁ : World)
          → ((v₁ ≡ v) × ((tx : WalletTransaction) × IsCredited x v.transactions tx))
            ⊎ ((tx : WalletTransaction) × Posted tx v v₁
                × IsRequested env x.user_id TransactionType.credit x.payout_cents x.id
                    (payout_text m.name)
                    tx)
          → Going v₁ × IsPaid x v₁.transactions
      step v₁ (inl (e, (tx, old))) = (
        subst Going (sym e) h,
        subst (λ (z : World). IsPaid x z.transactions) (sym e) (tx, old, h.1 x at tx old),
      )
      step v₁ (inr (tx, p, q)) =
          (Posted-Going env x (payout_text m.name) tx at q v v₁ p h, (tx, credited tx p q, q.sum))
        where
          credited :
              (tx : WalletTransaction)
              → Posted tx v v₁
              → IsRequested env x.user_id TransactionType.credit x.payout_cents x.id
                  (payout_text m.name)
                  tx
              → IsCredited x v₁.transactions tx
          credited tx p q =
              rw
                (
                  p.logged,
                  requested-of_typed_reference env x.user_id TransactionType.credit x.payout_cents
                      x.id (payout_text m.name) tx q,
                )
                refl

  settle_bets-Going :
      (envs : Uuid → Env) (m : Market) (bets : List Bet) (v : World)
      → All (λ (x : Bet). find (has_bet_id x.id) w.bets ≡ some x) bets
      → Going v
      → Going (settle_bets envs m MarketResult.win bets v)
  unfolding settle_bets
  settle_bets-Going envs m [] v at h = h
  settle_bets-Going envs m (x ∷ bets) v at h =
      settle_bets-Going envs m bets _ at.1 (settle_bet-Going (envs x.id) m x v at.0 h)

-- Where no user has two wallets, no two bets share their key, and no bet has a credit of another
-- amount than its payout: settling a market as won closes no bet without its payout, whatever fails
-- in the middle of it. Afterwards each bet has its row as before, or a credit of exactly its payout
-- is among the transactions under its key.
pub settle-KeptOrPaid :
    (env : Env) (envs : Uuid → Env) (id : Uuid) (w : World)
    → IsDistinct w.wallets
    → IsKeyed w.bets
    → IsFair w w.transactions
    → KeptOrPaid w (settle env envs id MarketResult.win w).1
settle-KeptOrPaid env envs id w d keyed fair =
    settle_cases (λ r. KeptOrPaid w r.1) env envs id MarketResult.win w (λ e. untouched)
      λ m found still_open.
        settle_found_cases (λ r. KeptOrPaid w r.1) env envs id MarketResult.win m w (λ e. untouched)
          (close_update-Keeps (KeptOrPaid w) env (with_status env m MarketStatus.settled)
            (λ n v h. h) (λ n v h. h) _
            (settle_bets-Going w envs m (select (is_live id) w.bets) w
              (All-select (λ (x : Bet). find (has_bet_id x.id) w.bets ≡ some x) (is_live id) w.bets
                keyed)
              (d, fair, untouched)).2)
  where
    untouched : KeptOrPaid w w
    untouched b found = inl found
