-- ===== src/Wallet/Rows.antt =====
-- The wallets table: what each user's balance is after an insert or an update of one row.
use bolt_bet.Base.{
  ℕ, ◌≡◌, refl, Bool-cases, inl, inr, true, false, some, none, List, [], ◌∷◌, arith, ◌==◌, ◌||◌,
  if◌then◌else◌,
}
use bolt_bet.Base.Table.{taken, find-taken, update_none, taken-update}
use bolt_bet.Model.Types.{Uuid}
use bolt_bet.Model.Entities.{Wallet}
use bolt_bet.Wallet.{of_user, find_wallet, wallet_taken, save_wallet}

-- No two wallets share their key or their user.
abbrev pub IsDistinct : List Wallet → Type 0
IsDistinct [] = Unit
IsDistinct (x ∷ ws) = (wallet_taken x ws ≡ false) × IsDistinct ws

-- A user with no wallet has a balance of zero.
abbrev pub balance_of : Uuid → List Wallet → ℕ
balance_of u [] = 0
balance_of u (x ∷ ws) = if x.user_id == u then x.balance_cents else balance_of u ws

pub balance_of-find :
    (u : Uuid) (ws : List Wallet) {row : Wallet}
    → find_wallet u ws ≡ some row
    → (balance_of u ws ≡ row.balance_cents) × (row.user_id ≡ u)
balance_of-find u [] h = cc
balance_of-find u (x ∷ ws) {row} h = ground (arith, balance_of-find u ws {row = row})

pub balance_of-none : (u : Uuid) (ws : List Wallet) → find_wallet u ws ≡ none → balance_of u ws ≡ 0
balance_of-none u [] h = refl
balance_of-none u (x ∷ ws) h = ground (arith, balance_of-none u ws)

-- Whether a wallet clashes depends on its key and its user only.
wallet_taken_eq :
    (a b : Wallet) (ws : List Wallet)
    → a.id ≡ b.id
    → a.user_id ≡ b.user_id
    → wallet_taken a ws ≡ wallet_taken b ws
wallet_taken_eq a b ws p q = λ i. taken (λ y. y.id == p i || y.user_id == q i) ws

module _ (row row' : Wallet) (same_id : row'.id ≡ row.id)
    (same_user : row'.user_id ≡ row.user_id) where
  -- The state of the table after a save of a found row under its own key and user.
  abbrev Saved : List Wallet → List Wallet → Type 0
  Saved before after =
      IsDistinct after
      × ((v : Uuid)
          → balance_of v after
            ≡ (if row.user_id == v then row'.balance_cents else balance_of v before))
      × ((v : Uuid) → (row.user_id == v) ≡ false → find_wallet v after ≡ find_wallet v before)

  save_at_head :
      (x : Wallet) (ws : List Wallet)
      → IsDistinct (x ∷ ws)
      → x ≡ row
      → Saved (x ∷ ws) (save_wallet row' (x ∷ ws))
  save_at_head x ws d e =
      rw (at_head, rest)
        (
          (rw (wallet_taken_eq row' x ws (ground arith) (ground arith)) d.0, d.1),
          λ v. ground arith,
          λ v n. ground arith,
        )
    where
      at_head : (x.id == row'.id) ≡ true
      at_head = ground arith

      rest : save_wallet row' ws ≡ ws
      rest =
          update_none (λ y. y.id == x.id || y.user_id == x.user_id) (λ y. y.id == row'.id)
            (λ _. row') ws d.0 (λ y n. ground arith)

  save_behind :
      (x : Wallet) (ws : List Wallet) (u : Uuid)
      → IsDistinct (x ∷ ws)
      → find_wallet u ws ≡ some row
      → Saved ws (save_wallet row' ws)
      → Saved (x ∷ ws) (save_wallet row' (x ∷ ws))
  save_behind x ws u d found ih = rw apart (
    (
      taken-update (λ y. y.id == x.id || y.user_id == x.user_id) (λ y. y.id == row'.id) row' ws d.0
          free,
      ih.0,
    ),
    λ v. ground (arith, clear, ih.1 v),
    λ v n. ground (arith, ih.2 v n),
  )
    where
      clear : (row.id == x.id || row.user_id == x.user_id) ≡ false
      clear = find-taken (λ y. y.id == x.id || y.user_id == x.user_id) (of_user u) ws d.0 found

      free : (row'.id == x.id || row'.user_id == x.user_id) ≡ false
      free = ground (arith, clear)

      apart : (x.id == row'.id) ≡ false
      apart = ground (arith, clear)

  pub save_wallet_lem :
      (u : Uuid) (ws : List Wallet)
      → IsDistinct ws
      → find_wallet u ws ≡ some row
      → Saved ws (save_wallet row' ws)
  save_wallet_lem u [] d h = absurd (cc)
  save_wallet_lem u (x ∷ ws) d h = elim (Bool-cases (x.user_id == u)) [
    | inl hit ↦ save_at_head x ws d (ground arith)
    | inr miss ↦ save_behind x ws u d (rw miss at h) (save_wallet_lem u ws d.1 (rw miss at h))
  ]
