-- ===== src/Format.antt =====
-- The display of money and odds: `formatCents` and `formatOdds` of WalletService, BettingService and
-- MarketService. A text is a list of character codes. `(n / 100).toFixed(2)` is exact for
-- the integers below 2 ^ 46 that the columns hold, so the division is of integers here.
pub mod Grouping
use bolt_bet.Base.{
  ℕ, zero, suc, ◌+◌, ◌-◌, ◌*◌, ◌/◌, ◌%◌, Bool, true, false, ◌&&◌, ◌||◌, List, [], ◌∷◌, ◌++◌, leb,
  ltb, ◌==◌, if◌then◌else◌,
}

abbrev pub is_digit : ℕ → Bool
is_digit c = leb b'0' c && leb c b'9'

-- `\w` of a regular expression.
abbrev pub is_word : ℕ → Bool
is_word c = is_digit c || (leb b'a' c && leb c b'z') || (leb b'A' c && leb c b'Z') || c == b'_'

abbrev pub digit : ℕ → ℕ
digit d = b'0' + d

-- The decimal digits of a number. Dividing by ten `n` times leaves nothing of it.
pub to_digits : ℕ → ℕ → List ℕ → List ℕ
to_digits zero n acc = acc
to_digits (suc f) n acc =
    let rest = to_digits f (n / 10) (digit (n % 10) ∷ acc) in
    if ltb n 10 then digit n ∷ acc else rest

pub to_string : ℕ → List ℕ
unfolding to_digits
to_string n = to_digits (suc n) n []

-- `(n / 100).toFixed(2)`
pub to_fixed : ℕ → List ℕ
to_fixed n = to_string (n / 100) ++ (b'.' ∷ digit (n % 100 / 10) ∷ digit (n % 10) ∷ [])

-- The number of digits at the head of a text.
abbrev pub run_length : List ℕ → ℕ
run_length [] = 0
run_length (c ∷ s) = if is_digit c then suc (run_length s) else 0

-- Where `/\B(?=(\d{3})+(?!\d))/` matches, between `before` and the text `s`: groups of three digits
-- make up the whole run of digits that follows, and no word begins here.
abbrev pub matches_here : ℕ → List ℕ → Bool
matches_here before s = is_word before && ltb 0 (run_length s) && run_length s % 3 == 0

-- `.replace(/\B(?=(\d{3})+(?!\d))/g, ',')` behind the character `before`
pub insert_commas : ℕ → List ℕ → List ℕ
insert_commas before [] = []
insert_commas before (c ∷ s) =
    let rest = insert_commas c s in
    if matches_here before (c ∷ s) then b',' ∷ c ∷ rest else c ∷ rest

-- A text begins a word, or no digit follows, so nothing is inserted in front of it.
pub replace_thousands : List ℕ → List ℕ
replace_thousands [] = []
replace_thousands (c ∷ s) = c ∷ insert_commas c s

-- 1050 → "$10.50"
pub format_cents : ℕ → List ℕ
format_cents cents = b'$' ∷ replace_thousands (to_fixed cents)

-- 240 → "2.40"
pub format_odds : ℕ → List ℕ
format_odds odds_int = to_fixed odds_int
