-- ===== src/Web/Queries.antt =====
-- lib/queryClient.ts: when a failed query is sent again. That the query client asks `retry` after
-- each failure, with the number of failures before, is TanStack Query's.
use bolt_bet.Base.{
  ℕ, zero, suc, ◌+◌, ◌≤◌, ◌≡◌, ◌==◌, inl, inr, Bool, Bool-cases, Option-cases, true, false, Option,
  none, some, ltb, if◌then◌else◌, arith,
}

-- An ApiError with its status, or another error.
pub data QueryError : Type 0 where
  api_error : ℕ → QueryError
  other : QueryError

pub retry : ℕ → QueryError → Bool
retry failure_count (api_error status) =
    if status == 401 then false else if status == 403 then false else ltb failure_count 2
retry failure_count other = ltb failure_count 2

-- The fetches of a query: `outcome n` is the error of the fetch after `n` failures, if it fails. The
-- result is how many there were and the error that is shown; `none` means that the fuel ran out.
pub fetches : ℕ → ℕ → (ℕ → Option QueryError) → Option (ℕ × Option QueryError)
unfolding retry
fetches zero n outcome = none
fetches (suc fuel) n outcome =
    let rest = fetches fuel (n + 1) outcome in
    elim (outcome n) [
      | none ↦ some (n + 1, none)
      | some e ↦ if retry n e then rest else some (n + 1, some e)
    ]

one_fetch :
    (fuel n : ℕ) (outcome : ℕ → Option QueryError)
    → n ≤ 2
    → 3 ≤ n + fuel
    → (k : ℕ) × (e : Option QueryError) × (fetches fuel n outcome ≡ some (k, e))
      × (n + 1 ≤ k)
      × (k ≤ 3)
unfolding fetches retry
one_fetch zero n outcome h g = absurd (omega arith)
one_fetch (suc fuel) n outcome h g = elim (Option-cases (outcome n)) [
  | inl fine ↦ (n + 1, none, rw (fine, fetches), omega arith, omega arith)
  | inr (e, failed) ↦ elim (Bool-cases (retry n e)) [
    | inr final ↦ (n + 1, some e, rw (failed, fetches, final), omega arith, omega arith)
    | inl again ↦
        let (k, e', eq, low, high) = one_fetch fuel (n + 1) outcome (few n e again) (omega arith) in
        (k, e', rw (failed, fetches, again) eq, omega (arith, low), high)
  ]
]
  where
    few : (n : ℕ) (e : QueryError) → retry n e ≡ true → n + 1 ≤ 2
    few n (api_error status) h = ground arith
    few n other h = ground arith

-- A query always ends: whatever fails, it is fetched once at least and three times at most, and fuel
-- for three fetches is enough.
pub fetches_end :
    (outcome : ℕ → Option QueryError)
    → (k : ℕ) × (e : Option QueryError) × (fetches 3 0 outcome ≡ some (k, e)) × (1 ≤ k) × (k ≤ 3)
fetches_end outcome = one_fetch 3 0 outcome (omega arith) (omega arith)
