-- ===== src/Wallet/Locks/Soundness.antt =====
-- The books under the locks.
use bolt_bet.Base.{
  ℕ, ◌≡◌, ◌≢◌, ◌⊎◌, refl, ap, sym, subst, ◌∙◌, Bool-cases, Option-cases, inl, inr, false, some,
  none, Option, ◌∷◌, arith, ◌==◌, ◌||◌, ==_iff,
}
use bolt_bet.Base.Table.{find-taken, find_holds}
use bolt_bet.Model.Types.{Uuid}
use bolt_bet.Model.Entities.{Wallet, WalletTransaction, World}
use bolt_bet.Model.Action.{Env, commit_or_rollback}
use bolt_bet.Wallet.{
  find_wallet, wallet_taken, new_wallet, insert_wallet, of_user, post_transaction,
}
use bolt_bet.Wallet.Ledger.{IsLedger, posted-IsLedger}
use bolt_bet.Wallet.Posted.{Locked, Locked-found, Locked-new, post_transaction_cases}
use bolt_bet.Wallet.Interleaving.{Request}
use bolt_bet.Wallet.Locks.{
  Stage, after_look, holding, missing, finished, Server, put, post, insert_and_post, IsFree, Step,
  look, lock, miss, commit, commit_new, fail, Reach, here, next,
}

-- A row that was read under its lock is the row that the table still has.
abbrev IsHeld : Server → Type 0
IsHeld s =
    (i : ℕ) (r : Request) (row : Wallet)
    → s.stage i ≡ holding r row
    → find_wallet r.user_id s.world.wallets ≡ some row

-- One request at a time holds the row of a user.
abbrev IsAlone : Server → Type 0
IsAlone s =
    (i j : ℕ) (r r' : Request) (row row' : Wallet)
    → s.stage i ≡ holding r row
    → s.stage j ≡ holding r' row'
    → r.user_id ≡ r'.user_id
    → i ≡ j

abbrev IsSound : Server → Type 0
IsSound s = IsLedger s.world × IsHeld s × IsAlone s

-- The stage of a request after a step of `i` to a stage that holds nothing.
kept_stage :
    (i j : ℕ) (p : Stage) (f : ℕ → Stage) {q : Stage}
    → put i p f j ≡ q
    → p ≢ q
    → (f j ≡ q) × ((i == j) ≡ false)
kept_stage i j p f e other = elim (Bool-cases (i == j)) [
  | inl hit ↦ absurd (other (rw hit at e))
  | inr apart ↦ (rw apart at e, apart)
]

-- What a transaction of one user does to the books and to the others' rows.
abbrev Touches : Uuid → World → World → Type 0
Touches u w w' =
    IsLedger w'
    × ((v : Uuid) → (u == v) ≡ false → find_wallet v w'.wallets ≡ find_wallet v w.wallets)

module _ (env : Env) (r : Request) (w : World) (h : IsLedger w) where
  -- From a row that is the user's in `w₁`, which is `w` with that row locked or inserted.
  posted_from :
      (row : Wallet) (w₁ : World)
      → Locked r.user_id w row w₁
      → Touches r.user_id w
          (commit_or_rollback w
            (post_transaction env r.user_id r.type r.amount r.reference_id r.text row w₁)).1
  posted_from row w₁ l =
      post_transaction_cases (λ z. Touches r.user_id w (commit_or_rollback w z).1) env r.user_id
        r.type r.amount r.reference_id r.text w row w₁ l (λ e w'. (h, λ v n. refl))
        λ tx w' p q. (
          posted-IsLedger tx w w' p h,
          subst
              (λ u.
                (v : Uuid) → (u == v) ≡ false → find_wallet v w'.wallets ≡ find_wallet v w.wallets)
              q.user p.untouched,
        )

  post-Touches :
      (row : Wallet)
      → find_wallet r.user_id w.wallets ≡ some row
      → Touches r.user_id w (post env r row w)
  post-Touches row found = posted_from row w (Locked-found r.user_id w h.distinct found)

  no_wallet :
      wallet_taken (new_wallet env r.user_id) w.wallets ≡ false
      → find_wallet r.user_id w.wallets ≡ none
  no_wallet free = elim (Option-cases (find_wallet r.user_id w.wallets)) [
    | inl none_there ↦ none_there
    | inr (row, e) ↦
        let apart =
          find-taken (λ y. y.id == env.wallet_id || y.user_id == r.user_id) (of_user r.user_id)
            w.wallets free e in
        let own = find_holds (of_user r.user_id) w.wallets e in absurd (ground arith)
  ]

  -- An insert goes through only where the user has no wallet.
  insert_and_post_keeps :
      IsLedger (insert_and_post env r w)
      × ((v : Uuid) (row : Wallet)
          → find_wallet v w.wallets ≡ some row
          → find_wallet v (insert_and_post env r w).wallets ≡ some row)
  unfolding insert_wallet
  insert_and_post_keeps = elim (Bool-cases (wallet_taken (new_wallet env r.user_id) w.wallets)) [
    | inl clash ↦ rw (clash, insert_and_post) (h, λ v row found. found)
    | inr free ↦ rw (free, insert_and_post) (inserted free)
  ]
    where
      inserted :
          wallet_taken (new_wallet env r.user_id) w.wallets ≡ false
          → IsLedger
              (commit_or_rollback w (
                post_transaction env r.user_id r.type r.amount r.reference_id r.text
                  (new_wallet env r.user_id)
                  (record w { wallets = new_wallet env r.user_id ∷ w.wallets }))).1
            × ((v : Uuid) (row : Wallet)
                → find_wallet v w.wallets ≡ some row
                → find_wallet v
                    (commit_or_rollback w (
                      post_transaction env r.user_id r.type r.amount r.reference_id r.text
                        (new_wallet env r.user_id)
                        (record w { wallets = new_wallet env r.user_id ∷ w.wallets }))).1.wallets
                  ≡ some row)
      inserted free =
          let absent = no_wallet free in
          let (books, others) =
            posted_from (new_wallet env r.user_id)
              (record w { wallets = new_wallet env r.user_id ∷ w.wallets })
              (Locked-new r.user_id w h.distinct env absent free) in
          (
            books,
            λ v row found. elim (Bool-cases (r.user_id == v)) [
              | inr other ↦ others v other ∙ found
              | inl hit ↦
                  let same : r.user_id ≡ v = (==_iff r.user_id v).0 hit in
                  let clash : find_wallet v w.wallets ≡ none =
                    subst (λ u. find_wallet u w.wallets ≡ none) same absent in
                  absurd (cc)
            ],
          )

-- A step of `i` to a stage that holds no row.
module _ (s : Server) (i : ℕ) (p : Stage) (w' : World)
    (holds_none : (r : Request) (row : Wallet) → p ≢ holding r row) where
  abbrev moved : Server
  moved = record { world = w'; stage = put i p s.stage }

  moved-IsSound :
      IsAlone s
      → IsLedger w'
      → ((j : ℕ) (r : Request) (row : Wallet)
          → s.stage j ≡ holding r row
          → (i == j) ≡ false
          → find_wallet r.user_id w'.wallets ≡ some row)
      → IsSound moved
  moved-IsSound alone books held = (
    books,
    λ j r row e.
        let (before, apart) = kept_stage i j p s.stage e (holds_none r row) in
        held j r row before apart,
    λ j k r r' row row' e e' same.
        alone j k r r' row row' (kept_stage i j p s.stage e (holds_none r row)).0
          (kept_stage i k p s.stage e' (holds_none r' row')).0 same,
  )

-- Who holds a row after a step of `i` to a stage that holds one.
holder :
    (i j : ℕ) (r q : Request) (row other : Wallet) (f : ℕ → Stage)
    → put i (holding r row) f j ≡ holding q other
    → ((i ≡ j) × (r ≡ q) × (row ≡ other)) ⊎ (f j ≡ holding q other)
holder i j r q row other f e = elim (Bool-cases (i == j)) [
  | inl hit ↦
      let same : holding r row ≡ holding q other = rw hit at e in inl ((==_iff i j).0 hit, cc, cc)
  | inr apart ↦ inr (rw apart at e)
]

-- A row is locked for one request only.
lock-IsSound :
    (s : Server) (i : ℕ) (r : Request) (row : Wallet)
    → IsSound s
    → find_wallet r.user_id s.world.wallets ≡ some row
    → IsFree row s.stage
    → IsSound (record s { stage = put i (holding r row) s.stage })
lock-IsSound s i r row (books, held, alone) found free = (books, held', alone')
  where
    t : Server
    t = record s { stage = put i (holding r row) s.stage }

    -- Nobody else holds the row of that user.
    unheld :
        (j : ℕ) (q : Request) (other : Wallet) → s.stage j ≡ holding q other → r.user_id ≢ q.user_id
    unheld j q other e same =
        let theirs = held j q other e in
        let mine : find_wallet q.user_id s.world.wallets ≡ some row =
          subst (λ u. find_wallet u s.world.wallets ≡ some row) same found in
        let one : other ≡ row = ground arith in
        let apart = free j q other e in absurd (ground arith)

    held' : IsHeld t
    held' j q other e = elim (holder i j r q row other s.stage e) [
      | inl (at, one, read) ↦
          subst (λ (z : Request). find_wallet z.user_id s.world.wallets ≡ some other) one
            (found ∙ ap some read)
      | inr before ↦ held j q other before
    ]

    alone' : IsAlone t
    alone' j k q q' other other' e e' same = elim (holder i j r q row other s.stage e) [
      | inl (at, one, read) ↦ elim (holder i k r q' row other' s.stage e') [
        | inl (at', one', read') ↦ sym at ∙ at'
        | inr before ↦
            absurd (unheld k q' other' before (ap (λ (z : Request). z.user_id) one ∙ same))
      ]
      | inr before ↦ elim (holder i k r q' row other' s.stage e') [
        | inl (at', one', read') ↦
            absurd (unheld j q other before (ap (λ (z : Request). z.user_id) one' ∙ sym same))
        | inr before' ↦ alone j k q q' other other' before before' same
      ]
    ]

no_hold : {p : Stage} → (p ≡ finished) → (r : Request) (row : Wallet) → p ≢ holding r row
no_hold e r row e' = cc

looked_holds_none :
    (r q : Request) (o : Option WalletTransaction) (row : Wallet) → after_look q o ≢ holding r row
looked_holds_none r q none row e = cc
looked_holds_none r q (some tx) row e = cc

step-IsSound : {s t : Server} → Step s t → IsSound s → IsSound t
step-IsSound {s = s} (look i r e) (books, held, alone) =
    moved-IsSound s i _ s.world (λ q row. looked_holds_none q r _ row) alone books
      (λ j q row before apart. held j q row before)
step-IsSound {s = s} (lock i r row e found free) h = lock-IsSound s i r row h found free
step-IsSound {s = s} (miss i r e absent) (books, held, alone) =
    moved-IsSound s i (missing r) s.world (λ q row e'. cc) alone books
      (λ j q row before apart. held j q row before)
step-IsSound {s = s} (commit i r row env e) (books, held, alone) =
    let (books', others) = post-Touches env r s.world books row (held i r row e) in
    moved-IsSound s i finished (post env r row s.world) (no_hold refl) alone books'
      λ j q other before apart. elim (Bool-cases (r.user_id == q.user_id)) [
        | inr away ↦ others q.user_id away ∙ held j q other before
        | inl hit ↦
            let same : r.user_id ≡ q.user_id = (==_iff r.user_id q.user_id).0 hit in
            let one : i ≡ j = alone i j r q row other e before same in absurd (ground arith)
      ]
step-IsSound {s = s} (commit_new i r env e) (books, held, alone) =
    let (books', kept) = insert_and_post_keeps env r s.world books in
    moved-IsSound s i finished (insert_and_post env r s.world) (no_hold refl) alone books'
      (λ j q other before apart. kept q.user_id other (held j q other before))
step-IsSound {s = s} (fail i) (books, held, alone) =
    moved-IsSound s i finished s.world (no_hold refl) alone books
      (λ j q row before apart. held j q row before)

-- However the steps of any number of requests interleave, and whichever of them fail: if the books
-- are right and no row is locked at the beginning, they are right at every moment. A balance is
-- computed from a row that was read some steps before it is written, and the lock alone keeps the
-- others from changing that row in between; so no update of a balance is lost, and no debit is paid
-- from money that is not there.
pub locked-IsLedger :
    {s t : Server}
    → IsLedger s.world
    → ((i : ℕ) (r : Request) (row : Wallet) → s.stage i ≢ holding r row)
    → Reach s t
    → IsLedger t.world
locked-IsLedger {s = s} {t = t} books unlocked run = (sound run).0
  where
    sound : {u : Server} → Reach s u → IsSound u
    sound here = (
      books,
      λ i r row e. absurd (unlocked i r row e),
      λ i j r r' row row' e e' same. absurd (unlocked i r row e),
    )
    sound (next before step) = step-IsSound step (sound before)
