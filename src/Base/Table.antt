-- ===== src/Base/Table.antt =====
-- A database table as the list of its rows, the newest first: what the repositories' `findOne`,
-- `find`, `update` and `count` do with a `where` clause, which is a Boolean test on a row.
use Prim.Native.Nat.{ℕ, zero, suc, ◌+◌}
use mathlib.Core.Path.{◌≡◌, refl, sym, ap, subst, ◌∙◌}
use mathlib.Core.Logic.{inl, inr}
use mathlib.Core.Bool.{Bool, true, false, false≢true}
use mathlib.Core.Option
use mathlib.Core.Option.{Option, none, some}
use mathlib.Core.List.{List, [], ◌∷◌}
use native.Mathlib.Omega.{arith}
use bolt_bet.Base.Tests.{if◌then◌else◌, is_some, Bool-cases}

module _ {ℓ} {A : Type ℓ} where
  abbrev pub length : List A → ℕ
  length [] = 0
  length (x ∷ xs) = suc (length xs)

  -- `findOne({ where })`
  abbrev pub find : (A → Bool) → List A → Option A
  find p [] = none
  find p (x ∷ xs) = if p x then some x else find p xs

  -- `find({ where })`
  abbrev pub select : (A → Bool) → List A → List A
  select p [] = []
  select p (x ∷ xs) = let rest = select p xs in if p x then x ∷ rest else rest

  -- `update(where, change)`
  abbrev pub update : (A → Bool) → (A → A) → List A → List A
  update p f [] = []
  update p f (x ∷ xs) = (if p x then f x else x) ∷ update p f xs

  -- A unique index refuses a row whose key is taken.
  abbrev pub taken : (A → Bool) → List A → Bool
  taken p xs = is_some (find p xs)

  -- `count({ where })`
  abbrev pub count : (A → Bool) → List A → ℕ
  count p [] = 0
  count p (x ∷ xs) = (if p x then 1 else 0) + count p xs

  abbrev pub take : ℕ → List A → List A
  take zero xs = []
  take (suc n) [] = []
  take (suc n) (x ∷ xs) = x ∷ take n xs

  abbrev pub drop : ℕ → List A → List A
  drop zero xs = xs
  drop (suc n) [] = []
  drop (suc n) (x ∷ xs) = drop n xs

  -- A statement about every row.
  abbrev pub All {κ} : (A → Type κ) → List A → Type κ
  All P [] = Unit
  All P (x ∷ xs) = P x × All P xs

  pub count-none : (p : A → Bool) (xs : List A) → find p xs ≡ none → count p xs ≡ 0
  count-none p [] h = refl
  count-none p (x ∷ xs) h = elim (Bool-cases (p x)) [
    | inl hit ↦ let clash : some x ≡ none = rw hit at h in absurd (cc)
    | inr miss ↦ rw miss (omega (arith, count-none p xs (rw miss at h)))
  ]

  pub find_holds : (p : A → Bool) (xs : List A) {x : A} → find p xs ≡ some x → p x ≡ true
  find_holds p [] h = cc
  find_holds p (x ∷ xs) h = elim (Bool-cases (p x)) [
    | inl hit ↦ ground arith
    | inr miss ↦ find_holds p xs (ground arith)
  ]

  pub All-find {κ} :
      (P : A → Type κ) (p : A → Bool) (xs : List A) {x : A} → find p xs ≡ some x → All P xs → P x
  All-find P p [] h all = absurd (cc)
  All-find P p (y ∷ xs) {x} h all = elim (Bool-cases (p y)) [
    | inl hit ↦ let e : y ≡ x = ground arith in subst P e all.0
    | inr miss ↦ All-find P p xs (rw miss at h) all.1
  ]

  -- No row passes a test that is not taken.
  pub find-taken :
      (p q : A → Bool) (xs : List A) {x : A} → taken p xs ≡ false → find q xs ≡ some x → p x ≡ false
  find-taken p q [] free h = absurd (cc)
  find-taken p q (y ∷ xs) {x} free h = elim (Bool-cases (p y)) [
    | inl clash ↦ absurd (false≢true (sym (rw clash at free)))
    | inr apart ↦ elim (Bool-cases (q y)) [
      | inl hit ↦ let e : y ≡ x = ground arith in subst (λ z. p z ≡ false) e apart
      | inr miss ↦ find-taken p q xs (rw apart at free) (rw miss at h)
    ]
  ]

  -- An update that reaches no row changes nothing.
  pub update_none :
      (p q : A → Bool) (f : A → A) (xs : List A)
      → taken p xs ≡ false
      → ((x : A) → p x ≡ false → q x ≡ false)
      → update q f xs ≡ xs
  update_none p q f [] free sub = refl
  update_none p q f (y ∷ xs) free sub = elim (Bool-cases (p y)) [
    | inl clash ↦ absurd (false≢true (sym (rw clash at free)))
    | inr apart ↦ rw (sub y apart) (ap (◌∷◌ y) (update_none p q f xs (rw apart at free) sub))
  ]

  -- A key that no row has, nor the new value, is free after the update.
  pub taken-update :
      (p q : A → Bool) (r : A) (xs : List A)
      → taken p xs ≡ false
      → p r ≡ false
      → taken p (update q (λ _. r) xs) ≡ false
  taken-update p q r [] free fresh = refl
  taken-update p q r (y ∷ xs) free fresh = elim (Bool-cases (p y)) [
    | inl clash ↦ absurd (false≢true (sym (rw clash at free)))
    | inr apart ↦ elim (Bool-cases (q y)) [
      | inl hit ↦ rw (hit, fresh) (taken-update p q r xs (rw apart at free) fresh)
      | inr miss ↦ rw (miss, apart) (taken-update p q r xs (rw apart at free) fresh)
    ]
  ]

  -- The row that an update by a key finds is the one that it has written.
  pub find-update_self :
      (p : A → Bool) (r : A) (xs : List A) {x : A}
      → find p xs ≡ some x
      → p r ≡ true
      → find p (update p (λ _. r) xs) ≡ some r
  find-update_self p r [] h hit = absurd (cc)
  find-update_self p r (y ∷ xs) h hit = elim (Bool-cases (p y)) [
    | inl at_head ↦ rw (at_head, hit)
    | inr behind ↦ rw (behind, behind) (find-update_self p r xs (rw behind at h) hit)
  ]

  -- The row that a key finds, after a change of it that keeps its key.
  pub find-update_key :
      (p : A → Bool) (f : A → A) (xs : List A) {x : A}
      → find p xs ≡ some x
      → ((y : A) → p (f y) ≡ p y)
      → find p (update p f xs) ≡ some (f x)
  find-update_key p f [] h stays = absurd (cc)
  find-update_key p f (y ∷ xs) {x} h stays = elim (Bool-cases (p y)) [
    | inl hit ↦
        let e : some y ≡ some x = rw hit at h in
        let kept : p (f y) ≡ true = stays y ∙ hit in rw (hit, kept) (ap (Option.map f) e)
    | inr miss ↦ rw (miss, miss) (find-update_key p f xs (rw miss at h) stays)
  ]

  -- A key is as free after an update that keeps it as before.
  pub taken-update_same :
      (p q : A → Bool) (f : A → A) (xs : List A)
      → ((y : A) → p (f y) ≡ p y)
      → taken p (update q f xs) ≡ taken p xs
  taken-update_same p q f [] stays = refl
  taken-update_same p q f (y ∷ xs) stays = elim (Bool-cases (q y)) [
    | inl hit ↦ elim (Bool-cases (p y)) [
      | inl own ↦ rw (hit, stays y, own)
      | inr other ↦ rw (hit, stays y, other) (taken-update_same p q f xs stays)
    ]
    | inr miss ↦ elim (Bool-cases (p y)) [
      | inl own ↦ rw (miss, own)
      | inr other ↦ rw (miss, other) (taken-update_same p q f xs stays)
    ]
  ]

  -- An update does not reach a row that another key finds.
  pub find-update_other :
      (p q : A → Bool) (f : A → A) (xs : List A)
      → ((y : A) → p y ≡ true → q y ≡ false)
      → ((y : A) → q y ≡ true → p (f y) ≡ false)
      → find p (update q f xs) ≡ find p xs
  find-update_other p q f [] apart stays = refl
  find-update_other p q f (y ∷ xs) apart stays = elim (Bool-cases (p y)) [
    | inl hit ↦ rw (apart y hit, hit)
    | inr miss ↦ elim (Bool-cases (q y)) [
      | inl reached ↦ rw (reached, stays y reached, miss) (find-update_other p q f xs apart stays)
      | inr not_reached ↦ rw (not_reached, miss) (find-update_other p q f xs apart stays)
    ]
  ]

  -- A selection keeps the row that a stronger test finds.
  pub find-select :
      (p q : A → Bool) (xs : List A)
      → ((y : A) → p y ≡ true → q y ≡ true)
      → find p (select q xs) ≡ find p xs
  find-select p q [] sub = refl
  find-select p q (y ∷ xs) sub = elim (Bool-cases (q y)) [
    | inl kept ↦
        rw kept (elim (Bool-cases (p y)) [
          | inl hit ↦ rw hit
          | inr miss ↦ rw miss (find-select p q xs sub)
        ])
    | inr dropped ↦ elim (Bool-cases (p y)) [
      | inl hit ↦ absurd (false≢true (sym dropped ∙ sub y hit))
      | inr miss ↦ rw (dropped, miss) (find-select p q xs sub)
    ]
  ]
