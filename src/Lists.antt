-- ===== src/Lists.antt =====
-- The paginated lists: getTransactions, getBets and list of the markets.
pub mod Frame
pub mod Pages
use bolt_bet.Base.{
  ℕ, zero, suc, ◌-◌, ◌*◌, ◌==◌, leb, ltb, ◌&&◌, ◌||◌, not, Bool, true, false, List, [], ◌∷◌, map,
  Option, none, some, if◌then◌else◌,
}
use bolt_bet.Base.Table.{take, drop, select, length}
use bolt_bet.Model.Types.{Uuid, MarketStatus, market_status_eq}
use bolt_bet.Model.Entities.{WalletTransaction, Bet, Market, World}
use bolt_bet.Model.Action.{
  Action, Env, pure, gets, ◌>>=◌, ◌>>◌, raise_if, external, wallet_read, bet_read, market_read,
  negative_offset,
}
use bolt_bet.Wallet.{TransactionResponseDto, to_transaction_dto}
use bolt_bet.Betting.{BetResponseDto, to_bet_dto}
use bolt_bet.Market.{MarketResponseDto, to_market_dto}

module _ {A : Type 0} where
  -- `order: { createdAt: 'DESC' }`, by a test whether a row comes before another.
  abbrev pub insert_newest : (A → A → Bool) → A → List A → List A
  insert_newest before x [] = x ∷ []
  insert_newest before x (y ∷ ys) =
      let rest = insert_newest before x ys in if before x y then x ∷ y ∷ ys else y ∷ rest

  abbrev pub newest_first : (A → A → Bool) → List A → List A
  newest_first before [] = []
  newest_first before (x ∷ xs) = insert_newest before x (newest_first before xs)

  -- `skip: (page - 1) * limit, take: limit`, for a page above zero; TypeORM sends no LIMIT for a
  -- limit of zero, and no OFFSET for one of zero.
  abbrev pub page_rows : (A → A → Bool) → ℕ → ℕ → List A → List A
  page_rows before page zero rows = newest_first before rows
  page_rows before page (suc limit) rows =
      take (suc limit) (drop ((page - 1) * suc limit) (newest_first before rows))

  -- The later row; of two of the same time, either may come first, in this query as the rank has it.
  abbrev pub is_newer : Env → (A → ℕ) → (A → Uuid) → A → A → Bool
  is_newer env created id x y =
      ltb (created y) (created x)
      || created x == created y && leb (env.rank (id x)) (env.rank (id y))

pub record Page (A : Type 0) : Type 0 where
  pub rows : List A
  pub total : ℕ
  pub page : ℕ
  pub limit : ℕ

abbrev pub TransactionListResponseDto : Type 0
TransactionListResponseDto = Page TransactionResponseDto

abbrev pub BetListResponseDto : Type 0
BetListResponseDto = Page BetResponseDto

abbrev pub MarketListResponseDto : Type 0
MarketListResponseDto = Page MarketResponseDto

-- `findAndCount`, and its rows as the answer shows them.
pub find_and_count : {A B : Type 0} → (A → A → Bool) → (A → B) → ℕ → ℕ → List A → Action (Page B)
find_and_count before to_dto page limit rows = do
  raise_if (page == 0 && not (limit == 0)) negative_offset
  pure (record {
    rows = map to_dto (page_rows before page limit rows);
    total = length rows;
    page = page;
    limit = limit;
  })

pub get_transactions : Env → Uuid → ℕ → ℕ → Action TransactionListResponseDto
get_transactions env user_id page limit = do
  external env wallet_read
  rows ← gets λ w. select (λ tx. tx.user_id == user_id) w.replica.transactions
  find_and_count (is_newer env (λ tx. tx.created_at) (λ tx. tx.id)) to_transaction_dto page limit
      rows

pub get_bets : Env → Uuid → ℕ → ℕ → Action BetListResponseDto
get_bets env user_id page limit = do
  external env bet_read
  rows ← gets λ w. select (λ bet. bet.user_id == user_id) w.replica.bets
  find_and_count (is_newer env (λ bet. bet.created_at) (λ bet. bet.id)) to_bet_dto page limit rows

-- `status ? { status } : {}`
abbrev pub of_status : Option MarketStatus → Market → Bool
of_status none market = true
of_status (some status) market = market_status_eq market.status status

pub list : Env → ℕ → ℕ → Option MarketStatus → Action MarketListResponseDto
list env page limit status = do
  external env market_read
  rows ← gets λ w. select (of_status status) w.markets
  find_and_count (is_newer env (λ market. market.created_at) (λ market. market.id)) to_market_dto
      page limit rows
