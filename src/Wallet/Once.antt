-- ===== src/Wallet/Once.antt =====
-- A reference moves a user's money once: requests that run one after the other leave at most one
-- transaction of each type under it.
use bolt_bet.Base.{
  ℕ, ◌≡◌, ◌≤◌, refl, Bool-cases, inl, inr, true, Option, some, none, String, List, [], ◌∷◌, arith,
}
use bolt_bet.Base.Table.{find, count, count-none}
use bolt_bet.Model.Types.{Uuid, TransactionType}
use bolt_bet.Model.Entities.{WalletTransaction, World}
use bolt_bet.Model.Action.{Env}
use bolt_bet.Wallet
use bolt_bet.Wallet.{of_reference, of_typed_reference}
use bolt_bet.Wallet.Rows.{IsDistinct}
use bolt_bet.Wallet.Posted.{IsRequested}
use bolt_bet.Wallet.Effect.{deposit_cases, debit_cases, credit_cases}

abbrev pub IsOnce : List WalletTransaction → Type 0
IsOnce ts =
    (u : Uuid) (ref : Uuid) (type : TransactionType) → count (of_typed_reference u ref type) ts ≤ 1

-- Where no transaction has the reference, none of a type has it.
find-typed_none :
    (u ref : Uuid) (type : TransactionType) (ts : List WalletTransaction)
    → find (of_reference u ref) ts ≡ none
    → find (of_typed_reference u ref type) ts ≡ none
find-typed_none u ref type [] h = refl
find-typed_none u ref type (tx ∷ ts) h = elim (Bool-cases (of_reference u ref tx)) [
  | inl hit ↦ let clash : some tx ≡ none = rw hit at h in absurd (cc)
  | inr miss ↦ rw miss (find-typed_none u ref type ts (rw miss at h))
]

module _ (env : Env) (u : Uuid) (type : TransactionType) (amount : ℕ) (ref : Uuid) (text : String)
    (tx : WalletTransaction) (q : IsRequested env u type amount ref text tx) where
  requested_key :
      (v r : Uuid) (t : TransactionType)
      → of_typed_reference v r t tx ≡ true
      → (u ≡ v) × (ref ≡ r) × (type ≡ t)
  requested_key v r t h = ground arith

  posted-IsOnce :
      (ts : List WalletTransaction)
      → IsOnce ts
      → find (of_typed_reference u ref type) ts ≡ none
      → IsOnce (tx ∷ ts)
  posted-IsOnce ts h new v r t = elim (Bool-cases (of_typed_reference v r t tx)) [
    | inl hit ↦
        let k = requested_key v r t hit in
        let at_key : count (of_typed_reference u ref type) (tx ∷ ts) ≤ 1 =
          ground (arith, count-none (of_typed_reference u ref type) ts new) in
        let same : count (of_typed_reference u ref type) (tx ∷ ts)
            ≡ count (of_typed_reference v r t) (tx ∷ ts) =
          λ i. count (of_typed_reference (k.0 i) (k.1 i) (k.2 i)) (tx ∷ ts) in
        omega (arith, at_key, same)
    | inr miss ↦ rw miss (omega (arith, h v r t))
  ]

module _ (env : Env) (u : Uuid) (amount : ℕ) (ref : Uuid) (text : Option String) (w : World) where
  -- One request after another, each user has at most one transaction of each type under a
  -- reference: a deposit, a debit or a credit keeps it so, whatever fails on the way, where no user
  -- has two wallets.
  pub requests-IsOnce :
      IsDistinct w.wallets
      → IsOnce w.transactions
      → IsOnce
          (Wallet.deposit env u
            (record { amount_cents = amount; client_mutation_id = ref })
            w).1.transactions
        × IsOnce (Wallet.debit env u amount ref text w).1.transactions
        × IsOnce (Wallet.credit env u amount ref text w).1.transactions
  requests-IsOnce d h = (
    deposit_cases (λ r. IsOnce r.1.transactions) env u _ w d (λ e. h) (λ tx old. h)
        (λ tx w' new p q. rw p.logged (
          posted-IsOnce env u _ amount ref _ tx q w.transactions h
            (find-typed_none u ref _ w.transactions new))),
    debit_cases (λ r. IsOnce r.1.transactions) env u amount ref text w d (λ e. h) (λ tx old. h)
        (λ tx w' new p q.
          rw p.logged (posted-IsOnce env u _ amount ref _ tx q w.transactions h new)),
    credit_cases (λ r. IsOnce r.1.transactions) env u amount ref text w d (λ e. h) (λ tx old. h)
        (λ tx w' new p q.
          rw p.logged (posted-IsOnce env u _ amount ref _ tx q w.transactions h new)),
  )
