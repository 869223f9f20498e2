-- ===== src/Model/Types.antt =====
-- The enumerations of identity/types, wallet/types, market/types and betting/types. An identifier
-- is a UUID that the code only compares, so it is a number here.
use bolt_bet.Base.{ℕ, Bool, true, false}

abbrev pub Uuid : Type 0
Uuid = ℕ

pub data Role : Type 0 where
  user vip_user admin : Role

pub data TransactionType : Type 0 where
  deposit debit credit : TransactionType

pub data MarketStatus : Type 0 where
  opened suspended settled : MarketStatus

pub data MarketResult : Type 0 where
  win loss : MarketResult

pub data BetStatus : Type 0 where
  pending accepted settled void cancelled : BetStatus

-- `===` on each enumeration.
abbrev pub role_eq : Role → Role → Bool
role_eq user user = true
role_eq vip_user vip_user = true
role_eq admin admin = true
role_eq _ _ = false

abbrev pub type_eq : TransactionType → TransactionType → Bool
type_eq deposit deposit = true
type_eq debit debit = true
type_eq credit credit = true
type_eq _ _ = false

abbrev pub status_eq : BetStatus → BetStatus → Bool
status_eq pending pending = true
status_eq accepted accepted = true
status_eq BetStatus.settled BetStatus.settled = true
status_eq void void = true
status_eq cancelled cancelled = true
status_eq _ _ = false

abbrev pub market_status_eq : MarketStatus → MarketStatus → Bool
market_status_eq opened opened = true
market_status_eq suspended suspended = true
market_status_eq MarketStatus.settled MarketStatus.settled = true
market_status_eq _ _ = false

abbrev pub result_eq : MarketResult → MarketResult → Bool
result_eq win win = true
result_eq loss loss = true
result_eq _ _ = false
