-- ===== src/Wallet/Interleaving.antt =====
-- Wallet requests that run at the same time. The look for an earlier transaction is one read; the
-- change of the balance is one database transaction under the row lock. Between the two, other
-- requests run.
use bolt_bet.Base.{
  ℕ, ◌+◌, ◌≡◌, ◌≤◌, refl, ap, sym, subst, ◌∙◌, Bool, Option, some, none, String, List, ◌∷◌, arith,
  ◌==◌, if◌then◌else◌,
}
use bolt_bet.Base.Table.{find, count}
use bolt_bet.Model.Types.{Uuid, TransactionType}
use bolt_bet.Model.Entities.{WalletTransaction, World}
use bolt_bet.Model.Action.{Env, WhenOk}
use bolt_bet.Wallet.{apply_transaction, of_reference, of_typed_reference}
use bolt_bet.Wallet.Once.{IsOnce}
use bolt_bet.Wallet.Rows.{IsDistinct}
use bolt_bet.Wallet.Posted.{IsRequested}
use bolt_bet.Wallet.Effect.{apply_transaction_cases}
use bolt_bet.Wallet.Idempotency.{requested-of_typed_reference}

pub record Request : Type 0 where
  pub user_id : Uuid
  pub type : TransactionType
  pub amount : ℕ
  pub reference_id : Uuid
  pub text : String

-- The `where` clause of the look-up.
abbrev pub looks_for : Request → WalletTransaction → Bool
looks_for r = by_type r.type
  where
    by_type : TransactionType → WalletTransaction → Bool
    by_type TransactionType.deposit = of_reference r.user_id r.reference_id
    by_type t = of_typed_reference r.user_id r.reference_id t

pub data Phase : Type 0 where
  waiting : Request → Phase
  -- the look-up found nothing
  cleared : Request → Phase
  finished : Phase

abbrev pub after_look : Request → Option WalletTransaction → Phase
after_look r none = cleared r
after_look r (some tx) = finished

pub record System : Type 0 where
  pub world : World
  pub phase : ℕ → Phase

abbrev pub put : ℕ → Phase → (ℕ → Phase) → ℕ → Phase
put i p f j = if i == j then p else f j

abbrev pub change : Env → Request → World → World
change env r w = (apply_transaction env r.user_id r.type r.amount r.reference_id r.text w).1

-- One request takes its next step.
pub data Step (s : System) : System → Type 0 where
  look :
      (i : ℕ) (r : Request)
      → s.phase i ≡ waiting r
      → Step s (record s {
        phase = put i (after_look r (find (looks_for r) s.world.transactions)) s.phase;
      })
  apply :
      (i : ℕ) (r : Request) (env : Env)
      → s.phase i ≡ cleared r
      → Step s (record { world = change env r s.world; phase = put i finished s.phase })

pub data Reach (s : System) : System → Type 0 where
  here : Reach s s
  next : {t u : System} → Reach s t → Step t u → Reach s u

-- Two copies of one request, and nothing else.
abbrev pub doubled : Request → World → System
doubled r w = record { world = w; phase = put 0 (waiting r) (put 1 (waiting r) (λ i. finished)) }

module _ (r : Request) (env env' : Env) (w : World) where
  both_apply :
      find (looks_for r) w.transactions ≡ none
      → (t : System) × Reach (doubled r w) t × (t.world ≡ change env' r (change env r w))
  both_apply new = (
    _,
    next
        (next (next (next here (look 0 r refl)) (look 1 r refl))
          (apply 0 r env (ap (after_look r) new)))
        (apply 1 r env' (ap (after_look r) new)),
    refl,
  )

  -- The first change is followed by the second, and each may have been refused.
  abbrev pub BreaksOnce : Type 0
  BreaksOnce =
      WhenOk
        (λ dto w'.
          WhenOk (λ dto' w''. ¬ IsOnce w''.transactions)
            (apply_transaction env' r.user_id r.type r.amount r.reference_id r.text w'))
        (apply_transaction env r.user_id r.type r.amount r.reference_id r.text w)

  two_rows :
      (tx tx' : WalletTransaction) (ts : List WalletTransaction)
      → IsRequested env r.user_id r.type r.amount r.reference_id r.text tx
      → IsRequested env' r.user_id r.type r.amount r.reference_id r.text tx'
      → ¬ IsOnce (tx' ∷ tx ∷ ts)
  two_rows tx tx' ts q q' once =
      let least = once r.user_id r.reference_id r.type in
      let first =
        requested-of_typed_reference env r.user_id r.type r.amount r.reference_id r.text tx q in
      let second =
        requested-of_typed_reference env' r.user_id r.type r.amount r.reference_id r.text tx' q' in
      let two : 1 + (1 + count (of_typed_reference r.user_id r.reference_id r.type) ts) ≤ 1 =
        rw (second, first) at least in
      omega arith

  twice_posted : IsDistinct w.wallets → BreaksOnce
  twice_posted d =
      apply_transaction_cases
        (WhenOk (λ dto w'.
          WhenOk (λ dto' w''. ¬ IsOnce w''.transactions)
            (apply_transaction env' r.user_id r.type r.amount r.reference_id r.text w')))
        env r.user_id r.type r.amount r.reference_id r.text w d (λ e. tt)
        λ tx w' p q.
          apply_transaction_cases (WhenOk (λ dto w''. ¬ IsOnce w''.transactions)) env' r.user_id
            r.type r.amount r.reference_id r.text w' p.distinct (λ e. tt)
            λ tx' w'' p' q'.
              subst (λ ts. ¬ IsOnce ts) (sym (p'.logged ∙ ap (◌∷◌ tx') p.logged))
                (two_rows tx tx' w.transactions q q')

  -- The look-up is not part of the database transaction: two copies of one request, of whatever
  -- type, whose reference is new, can both look before either changes the balance. Both changes are
  -- then made in turn, and if neither is refused the reference is no longer used once, where no
  -- user has two wallets.
  pub duplicate_applied_twice :
      IsDistinct w.wallets
      → find (looks_for r) w.transactions ≡ none
      → ((t : System) × Reach (doubled r w) t × (t.world ≡ change env' r (change env r w)))
        × BreaksOnce
  duplicate_applied_twice d new = (both_apply new, twice_posted d)
