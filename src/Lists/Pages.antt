-- ===== src/Lists/Pages.antt =====
-- What a page of a list has.
use bolt_bet.Base.{
  ℕ, zero, suc, ◌*◌, ◌-◌, ◌≡◌, ◌≤◌, refl, ◌∙◌, List, [], ◌∷◌, map, arith, Bool, true, false, ◌==◌,
  ◌&&◌, not, Bool-cases, inl, inr, Option,
}
use bolt_bet.Base.Table.{take, drop, length, count, select, All}
use bolt_bet.Model.Types.{Uuid, MarketStatus}
use bolt_bet.Model.Entities.{WalletTransaction, Bet, World}
use bolt_bet.Model.Action.{Env, Result, ok, wallet_read, bet_read, market_read}
use bolt_bet.Wallet.{to_transaction_dto}
use bolt_bet.Betting.{to_bet_dto}
use bolt_bet.Market.{to_market_dto}
use bolt_bet.Lists.{
  Page, insert_newest, newest_first, page_rows, is_newer, find_and_count, get_transactions,
  get_bets, list, of_status,
}

module _ {A : Type 0} (created : A → ℕ) where
  -- No row is older than one behind it.
  abbrev pub IsNewestFirst : List A → Type 0
  IsNewestFirst [] = Unit
  IsNewestFirst (x ∷ xs) = All (λ y. created y ≤ created x) xs × IsNewestFirst xs

  -- A list in pages of `limit` rows, one behind the other; a limit of zero is none.
  abbrev pub slice : ℕ → ℕ → List A → List A
  slice page zero rows = rows
  slice page (suc limit) rows = take (suc limit) (drop ((page - 1) * suc limit) rows)

  -- The rows of a page: some order of the table's rows that pass the filter, each as often as in the
  -- table and the newest first, is cut into pages, and this is the page of that number.
  abbrev pub IsPage : (A → Bool) → ℕ → ℕ → List A → List A → Type 0
  IsPage filter page limit table rows =
      (sorted : List A) × ((p : A → Bool) → count p sorted ≡ count (λ x. filter x && p x) table)
      × IsNewestFirst sorted
      × (rows ≡ slice page limit sorted)

  -- The answer of a list: such a page with its number and the number of all rows, and no change.
  abbrev pub Answered :
      {B : Type 0}
      → (A → Bool)
      → (A → B)
      → ℕ
      → ℕ
      → List A
      → World
      → Result (Page B) × World
      → Type 0
  Answered filter to_dto page limit table w result =
      (rows : List A) × (result ≡ (
        ok (record {
          rows = map to_dto rows;
          total = count filter table;
          page = page;
          limit = limit;
        }),
        w,
      ))
      × IsPage filter page limit table rows

module _ {A : Type 0} where
  length-select : (p : A → Bool) (xs : List A) → length (select p xs) ≡ count p xs
  length-select p [] = refl
  length-select p (x ∷ xs) = ground (arith, length-select p xs)

  count-select : (q p : A → Bool) (xs : List A) → count q (select p xs) ≡ count (λ x. p x && q x) xs
  count-select q p [] = refl
  count-select q p (x ∷ xs) = elim (Bool-cases (p x)) [
    | inl hit ↦ rw hit (omega (arith, count-select q p xs))
    | inr miss ↦ rw miss (omega (arith, count-select q p xs))
  ]

-- The order, which any rank of the rows of one time agrees with.
module _ {A : Type 0} (env : Env) (created : A → ℕ) (id : A → Uuid) where
  abbrev before : A → A → Bool
  before = is_newer env created id

  before-true : (x y : A) → before x y ≡ true → created y ≤ created x
  before-true x y h = ground arith

  before-false : (x y : A) → before x y ≡ false → created x ≤ created y
  before-false x y h = ground arith

  count-insert_newest :
      (p : A → Bool) (x : A) (xs : List A) → count p (insert_newest before x xs) ≡ count p (x ∷ xs)
  count-insert_newest p x [] = refl
  count-insert_newest p x (y ∷ ys) = elim (Bool-cases (before x y)) [
    | inl first ↦ rw first
    | inr later ↦ rw later (omega (arith, count-insert_newest p x ys))
  ]

  count-newest_first : (p : A → Bool) (xs : List A) → count p (newest_first before xs) ≡ count p xs
  count-newest_first p [] = refl
  count-newest_first p (x ∷ xs) =
      count-insert_newest p x (newest_first before xs) ∙ (omega (arith, count-newest_first p xs))

  All-insert_newest :
      (Q : A → Type 0) (x : A) (xs : List A) → Q x → All Q xs → All Q (insert_newest before x xs)
  All-insert_newest Q x [] q h = (q, tt)
  All-insert_newest Q x (y ∷ ys) q h = elim (Bool-cases (before x y)) [
    | inl first ↦ rw first (q, h)
    | inr later ↦ rw later (h.0, All-insert_newest Q x ys q h.1)
  ]

  All-older :
      (y : A) (n : ℕ) (xs : List A)
      → n ≤ created y
      → All (λ z. created z ≤ n) xs
      → All (λ z. created z ≤ created y) xs
  All-older y n [] h all = tt
  All-older y n (x ∷ xs) h all = (omega (arith, h, all.0), All-older y n xs h all.1)

  insert_newest-IsNewestFirst :
      (x : A) (xs : List A)
      → IsNewestFirst created xs
      → IsNewestFirst created (insert_newest before x xs)
  insert_newest-IsNewestFirst x [] h = (tt, tt)
  insert_newest-IsNewestFirst x (y ∷ ys) h = elim (Bool-cases (before x y)) [
    | inl first ↦
        let order = before-true x y first in
        rw first ((order, All-older x (created y) ys order h.0), h)
    | inr later ↦
        let order = before-false x y later in
        rw later (
          All-insert_newest (λ z. created z ≤ created y) x ys order h.0,
          insert_newest-IsNewestFirst x ys h.1,
        )
  ]

  newest_first-IsNewestFirst : (xs : List A) → IsNewestFirst created (newest_first before xs)
  newest_first-IsNewestFirst [] = tt
  newest_first-IsNewestFirst (x ∷ xs) =
      insert_newest-IsNewestFirst x (newest_first before xs) (newest_first-IsNewestFirst xs)

  page_rows-slice :
      (page limit : ℕ) (rows : List A)
      → page_rows before page limit rows ≡ slice created page limit (newest_first before rows)
  page_rows-slice page zero rows = refl
  page_rows-slice page (suc limit) rows = refl

  page_rows-IsPage :
      (filter : A → Bool) (page limit : ℕ) (table : List A)
      → IsPage created filter page limit table (page_rows before page limit (select filter table))
  page_rows-IsPage filter page limit table = (
    newest_first before (select filter table),
    λ p. count-newest_first p (select filter table) ∙ count-select p filter table,
    newest_first-IsNewestFirst (select filter table),
    page_rows-slice page limit (select filter table),
  )

-- The answers of the three lists, where the database answers and the page is not zero, unless the
-- limit is. The total is the number of the rows that are listed: of the user's own transactions and
-- of the user's own bets in the replica, and of the markets of the status, if one is asked for. The
-- rows are those of the page, when the listed rows are put in an order with the newest first and cut
-- into pages; of rows of the same time that order may be another one in each request. Nothing has
-- changed.
pub lists_answer :
    (env : Env) (u : Uuid) (page limit : ℕ) (status : Option MarketStatus) (w : World)
    → env.fails wallet_read ≡ false
    → env.fails bet_read ≡ false
    → env.fails market_read ≡ false
    → (page == 0 && not (limit == 0)) ≡ false
    → Answered
        (λ tx. tx.created_at)
        (λ tx. tx.user_id == u)
        to_transaction_dto
        page
        limit
        w.replica.transactions
        w
        (get_transactions env u page limit w)
      × Answered
          (λ bet. bet.created_at)
          (λ bet. bet.user_id == u)
          to_bet_dto
          page
          limit
          w.replica.bets
          w
          (get_bets env u page limit w)
      × Answered
          (λ market. market.created_at)
          (of_status status)
          to_market_dto
          page
          limit
          w.markets
          w
          (list env page limit status w)
unfolding get_transactions get_bets list find_and_count
lists_answer env u page limit status w up up' up'' fits = (
  (
    _,
    rw
        (
          up,
          fits,
          get_transactions,
          find_and_count,
          length-select (λ (tx : WalletTransaction). tx.user_id == u) w.replica.transactions,
        )
        refl,
    page_rows-IsPage env (λ tx. tx.created_at) (λ tx. tx.id) (λ tx. tx.user_id == u) page limit
        w.replica.transactions,
  ),
  (
    _,
    rw
        (
          up',
          fits,
          get_bets,
          find_and_count,
          length-select (λ (bet : Bet). bet.user_id == u) w.replica.bets,
        )
        refl,
    page_rows-IsPage env (λ bet. bet.created_at) (λ bet. bet.id) (λ bet. bet.user_id == u) page
        limit w.replica.bets,
  ),
  (
    _,
    rw (up'', fits, list, find_and_count, length-select (of_status status) w.markets) refl,
    page_rows-IsPage env (λ market. market.created_at) (λ market. market.id) (of_status status) page
        limit w.markets,
  ),
)
