-- ===== src/Validation.antt =====
-- The pipes that read a request: the ValidationPipe of main.ts with the decorators of the dto
-- classes, ParseUUIDPipe, and DefaultValuePipe with ParseIntPipe. The tests of the packages for
-- addresses and UUIDs are parameters.
pub mod Bounds
use Prim.Native.Char.{code}
use Prim.Native.String
use Prim.Native.String.{String}
use text.Mathlib.Text.{◌==◌ as str_eq}
use bolt_bet.Base.{
  ℕ, ◌+◌, ◌==◌, leb, Bool, true, false, ◌&&◌, ◌||◌, not, List, [], ◌∷◌, Option, none, some,
  if◌then◌else◌,
}
use bolt_bet.Base.Table.{length}
use bolt_bet.Crypto.{Text}
use bolt_bet.Model.Types.{Uuid, MarketResult}
use bolt_bet.Model.Entities.{Value, whole, negative, fraction, string, other, Body}
use bolt_bet.Wallet.{DepositDto}
use bolt_bet.Betting.{PlaceBetDto}
use bolt_bet.Market.{CreateMarketDto}
use bolt_bet.Identity.{Credentials}

-- What the packages test and read: class-validator's `@IsEmail()` and `@IsUUID('4')`, and the UUIDs
-- that ParseUUIDPipe lets through.
pub record Packages : Type 0 where
  pub is_email : Text → Bool
  pub uuid_v4 : String → Option Uuid
  pub any_uuid : String → Option Uuid

-- What becomes of a request in the pipes: 400, an exception of the code itself, or a value.
pub data Piped (A : Type 0) : Type 0 where
  bad_request : Piped A
  thrown : Piped A
  passed : A → Piped A

abbrev pub codes : String → Text
codes String.[] = []
codes (String.◌∷◌ c s) = code c ∷ codes s

-- A property of the object.
abbrev pub property : String → Body → Option Value
property name [] = none
property name ((key, value) ∷ body) = if str_eq key name then some value else property name body

-- `forbidNonWhitelisted`: every property is one of the dto's.
abbrev pub is_listed : String → List String → Bool
is_listed name [] = false
is_listed name (key ∷ keys) = str_eq key name || is_listed name keys

abbrev pub is_whitelisted : List String → Body → Bool
is_whitelisted keys [] = true
is_whitelisted keys ((name, value) ∷ body) = is_listed name keys && is_whitelisted keys body

-- `@IsInt() @Min(…) @Max(…)`, where the maximum may be missing.
abbrev pub at_most : ℕ → Option ℕ → Bool
at_most n none = true
at_most n (some max) = leb n max

abbrev pub int_between : ℕ → Option ℕ → Option Value → Option ℕ
int_between min max (some (whole n)) = if leb min n && at_most n max then some n else none
int_between min max _ = none

-- `@IsUUID('4')`
abbrev pub uuid_v4_of : Packages → Option Value → Option Uuid
uuid_v4_of packages (some (string s)) = packages.uuid_v4 s
uuid_v4_of packages _ = none

-- `@IsString() @MaxLength(…)`
abbrev pub string_up_to : ℕ → Option Value → Option String
string_up_to max (some (string s)) = if leb (length (codes s)) max then some s else none
string_up_to max _ = none

-- `@IsString() @MinLength(…) @MaxLength(…)`
abbrev pub string_between : ℕ → Option ℕ → Option Value → Option Text
string_between min max (some (string s)) =
    if leb min (length (codes s)) && at_most (length (codes s)) max then some (codes s) else none
string_between min max _ = none

-- `toLowerCase()` and `trim()`, for letters and blanks of ASCII.
abbrev pub lower : Text → Text
lower [] = []
lower (c ∷ s) = (if leb b'A' c && leb c b'Z' then c + 32 else c) ∷ lower s

abbrev pub is_blank : ℕ → Bool
is_blank c = c == 32 || leb 9 c && leb c 13

abbrev pub trim_start : Text → Text
trim_start [] = []
trim_start (c ∷ s) = let rest = trim_start s in if is_blank c then rest else c ∷ s

-- A blank is dropped if nothing but blanks follows it.
abbrev pub keep_unless_last : ℕ → Text → Text
keep_unless_last c [] = if is_blank c then [] else c ∷ []
keep_unless_last c (d ∷ s) = c ∷ d ∷ s

abbrev pub trim_end : Text → Text
trim_end [] = []
trim_end (c ∷ s) = keep_unless_last c (trim_end s)

abbrev pub trim : Text → Text
trim s = trim_end (trim_start s)

module _ {A : Type 0} where
  abbrev pub from_option : Option A → Piped A
  from_option none = bad_request
  from_option (some a) = passed a

-- `@IsEmail() @Transform(({ value }) => value?.toLowerCase().trim())`: the transform comes first, and
-- raises a TypeError for a value that has no such method.
abbrev pub email_of : Packages → Option Value → Piped Text
email_of packages none = bad_request
email_of packages (some (string s)) =
    if packages.is_email (trim (lower (codes s)))
    then passed (trim (lower (codes s)))
    else bad_request
email_of packages (some _) = thrown

-- The members of a dto are read one by one; one that is missing or refused refuses all.
infixl 5 ◌>>=◌
abbrev pub ◌>>=◌ : {A B : Type 0} → Option A → (A → Option B) → Option B
none >>= f = none
some a >>= f = f a

abbrev pub whitelisted : {A : Type 0} → List String → Body → Option A → Piped A
whitelisted keys body dto = from_option (if is_whitelisted keys body then dto else none)

unfoldable pub deposit_dto : Packages → Body → Piped DepositDto
deposit_dto packages body = whitelisted ("amountCents" ∷ "clientMutationId" ∷ []) body do
  amount ← int_between 100 (some 1000000) (property "amountCents" body)
  id ← uuid_v4_of packages (property "clientMutationId" body)
  some (record { amount_cents = amount; client_mutation_id = id })

unfoldable pub place_bet_dto : Packages → Body → Piped PlaceBetDto
place_bet_dto packages body =
    whitelisted ("marketId" ∷ "stakeCents" ∷ "clientMutationId" ∷ []) body do
      market ← uuid_v4_of packages (property "marketId" body)
      stake ← int_between 100 (some 1000000) (property "stakeCents" body)
      id ← uuid_v4_of packages (property "clientMutationId" body)
      some (record { market_id = market; stake_cents = stake; client_mutation_id = id })

pub create_market_dto : Packages → Body → Piped CreateMarketDto
create_market_dto packages body = whitelisted ("eventId" ∷ "name" ∷ "oddsInt" ∷ []) body do
  event ← uuid_v4_of packages (property "eventId" body)
  name ← string_up_to 255 (property "name" body)
  odds ← int_between 101 none (property "oddsInt" body)
  some (record { event_id = event; name = name; odds_int = odds })

-- `@IsEnum(MarketResult)`
abbrev pub result_of : Option Value → Option MarketResult
result_of (some (string s)) =
    if str_eq s "WIN"
    then some MarketResult.win
    else if str_eq s "LOSS"
    then some MarketResult.loss
    else none
result_of _ = none

unfoldable pub settle_market_dto : Body → Piped MarketResult
settle_market_dto body = whitelisted ("result" ∷ []) body (result_of (property "result" body))

-- The address is transformed before anything is validated.
abbrev pub credentials : List String → Body → Option Text → Piped Text → Piped Credentials
credentials keys body password thrown = thrown
credentials keys body password bad_request = bad_request
credentials keys body password (passed email) =
    whitelisted keys body (password >>= λ text. some (record { email = email; password = text }))

pub login_dto : Packages → Body → Piped Credentials
login_dto packages body =
    credentials ("email" ∷ "password" ∷ []) body (string_between 0 none (property "password" body))
      (email_of packages (property "email" body))

unfoldable pub register_dto : Packages → Body → Piped Credentials
register_dto packages body =
    credentials ("email" ∷ "password" ∷ []) body
      (string_between 10 (some 128) (property "password" body))
      (email_of packages (property "email" body))

-- ParseUUIDPipe
pub id_param : Packages → String → Piped Uuid
id_param packages s = from_option (packages.any_uuid s)

-- A parameter of the query.
pub data Query : Type 0 where
  absent : Query
  number : ℕ → Query
  below_zero : Query
  fractional : Query
  malformed : Query

-- The ValidationPipe makes a number of the text, DefaultValuePipe replaces a missing one and NaN, and
-- ParseIntPipe refuses a fraction. A number below zero is let through, and is refused by PostgreSQL.
abbrev pub int_param : ℕ → Query → Piped (Option ℕ)
int_param default absent = passed (some default)
int_param default (number n) = passed (some n)
int_param default below_zero = passed none
int_param default fractional = bad_request
int_param default malformed = passed (some default)

-- `Math.min(limit, 100)`
abbrev pub safe_limit : ℕ → ℕ
safe_limit limit = if leb limit 100 then limit else 100
