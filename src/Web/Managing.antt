-- ===== src/Web/Managing.antt =====
-- The page of an administrator as a machine: presses of the buttons that are shown and enabled, the
-- answers, and new lists, in any order.
use bolt_bet.Base.{
  ℕ, ◌+◌, ◌≡◌, ◌≤◌, ◌⊎◌, inl, inr, refl, ap, Bool, true, false, ◌||◌, List, ◌∷◌, ◌++◌, Option, none,
  some, arith, ==_iff, is_some,
}
use bolt_bet.Base.Table.{length}
use bolt_bet.Model.Types.{Uuid, MarketStatus, MarketResult}
use bolt_bet.Web.{ApiCall, call_suspend, call_reopen, call_settle}
use bolt_bet.Web.AdminMarkets.{
  MarketAction, suspend, reopen, Button, act, ask, cancel, confirm, Row, AdminPage, is_pending,
  is_confirming, includes_action, non_settle_actions, shows, press, action_answered,
  settle_answered, fetched,
}

-- A row of the table.
abbrev pub IsListed : Row → List Row → Type 0
IsListed row rows = (before : List Row) × (after : List Row) × (rows ≡ before ++ (row ∷ after))

pub data Step (s : AdminPage) : AdminPage → Type 0 where
  pressed :
      (row : Row) (button : Button)
      → IsListed row s.rows
      → shows s.settle_confirm row button ≡ true
      → is_pending s ≡ false
      → Step s (press row button s)
  acted :
      (action : MarketAction) (succeeds : Bool)
      → s.acting ≡ some action
      → Step s (action_answered action succeeds s)
  decided :
      (result : MarketResult) (succeeds : Bool)
      → s.settling ≡ some result
      → Step s (settle_answered result succeeds s)
  reloaded : (rows : List Row) → Step s (fetched rows s)

abbrev pub answers : {s t : AdminPage} → Step s t → ℕ
answers (pressed row button l v e) = 0
answers (acted action succeeds e) = 1
answers (decided result succeeds e) = 1
answers (reloaded rows) = 0

-- `Steps s n t`: from `s` to `t`, with `n` answers.
pub data Steps (s : AdminPage) : ℕ → AdminPage → Type 0 where
  start : Steps s 0 s
  more : {n : ℕ} {t u : AdminPage} → Steps s n t → (st : Step t u) → Steps s (answers st + n) u

abbrev pub tally : {A : Type 0} → Option A → ℕ
tally none = 0
tally (some a) = 1

-- The calls without an answer.
abbrev pub in_flight : AdminPage → ℕ
in_flight s = tally s.acting + tally s.settling

idle_none :
    {A B : Type 0} (o : Option A) (p : Option B)
    → (is_some o || is_some p) ≡ false
    → tally o + tally p ≡ 0
idle_none none none h = refl
idle_none none (some b) h = absurd (cc)
idle_none (some a) p h = absurd (cc)

idle_empty : (s : AdminPage) → is_pending s ≡ false → in_flight s ≡ 0
idle_empty s h = idle_none s.acting s.settling h

tally-some : {A : Type 0} {a : A} (o : Option A) → o ≡ some a → tally o ≡ 1
tally-some o e = ap tally e

-- What one step does to the two numbers.
abbrev Counted : AdminPage → AdminPage → ℕ → Type 0
Counted s t n =
    (in_flight t ≤ 1)
    × (length t.browser.sent + in_flight s ≡ length s.browser.sent + in_flight t + n)

press-Counted :
    (row : Row) (button : Button) (s : AdminPage)
    → in_flight s ≡ 0
    → Counted s (press row button s) 0
unfolding press
press-Counted row (act action) s idle = (omega (arith, idle), omega (arith, idle))
press-Counted row ask s idle = (omega (arith, idle), omega (arith, idle))
press-Counted row cancel s idle = (omega (arith, idle), omega (arith, idle))
press-Counted row (confirm result) s idle = (omega (arith, idle), omega (arith, idle))

step-Counted : {s t : AdminPage} (st : Step s t) → in_flight s ≤ 1 → Counted s t (answers st)
unfolding action_answered settle_answered
step-Counted {s = s} (pressed row button listed shown idle) h =
    press-Counted row button s (idle_empty s idle)
step-Counted {s = s} (acted action true e) h =
    let one = tally-some s.acting e in (omega (arith, one, h), omega (arith, one))
step-Counted {s = s} (acted action false e) h =
    let one = tally-some s.acting e in (omega (arith, one, h), omega (arith, one))
step-Counted {s = s} (decided result true e) h =
    let one = tally-some s.settling e in (omega (arith, one, h), omega (arith, one))
step-Counted {s = s} (decided result false e) h =
    let one = tally-some s.settling e in (omega (arith, one, h), omega (arith, one))
step-Counted (reloaded rows) h = (h, omega arith)

-- From a page that waits for nothing, whatever is pressed and answered in whatever order: at most one
-- call of the two mutations is without an answer, and the calls sent are as many as the answers and
-- that one.
pub managing-IsSingle :
    {s t : AdminPage} {n : ℕ}
    → is_pending s ≡ false
    → Steps s n t
    → (in_flight t ≤ 1) × (length t.browser.sent ≡ length s.browser.sent + n + in_flight t)
managing-IsSingle {s = s} idle start =
    let none_sent = idle_empty s idle in (omega (arith, none_sent), omega (arith, none_sent))
managing-IsSingle {s = s} idle (more rest st) =
    let before = managing-IsSingle {s = s} idle rest in
    let now = step-Counted st before.0 in (now.0, omega (arith, now.1, before.1))

-- What the page may send: a change of a row whose status allows it, or a result for the row whose
-- confirmation is open.
pub data IsOffered (s : AdminPage) : ApiCall → Type 0 where
  suspending :
      (row : Row)
      → IsListed row s.rows
      → row.status ≡ MarketStatus.opened
      → IsOffered s (call_suspend row.id)
  reopening :
      (row : Row)
      → IsListed row s.rows
      → row.status ≡ MarketStatus.suspended
      → IsOffered s (call_reopen row.id)
  settling :
      (row : Row) (result : MarketResult)
      → IsListed row s.rows
      → s.settle_confirm ≡ some row.id
      → IsOffered s (call_settle row.id result)

suspends :
    (status : MarketStatus)
    → includes_action (non_settle_actions status) suspend ≡ true
    → status ≡ MarketStatus.opened
suspends MarketStatus.opened h = refl
suspends MarketStatus.suspended h = absurd (cc)
suspends MarketStatus.settled h = absurd (cc)

reopens :
    (status : MarketStatus)
    → includes_action (non_settle_actions status) reopen ≡ true
    → status ≡ MarketStatus.suspended
reopens MarketStatus.opened h = absurd (cc)
reopens MarketStatus.suspended h = refl
reopens MarketStatus.settled h = absurd (cc)

confirms : (o : Option Uuid) (id : Uuid) → is_confirming o id ≡ true → o ≡ some id
confirms none id h = absurd (cc)
confirms (some market) id h = ap some ((==_iff market id).0 h)

-- Every step sends nothing, or one call that the page offers at that moment and while no other call
-- waits for its answer.
pub step-IsOffered :
    {s t : AdminPage}
    → Step s t
    → (t.browser.sent ≡ s.browser.sent)
      ⊎ ((c : ApiCall) × (t.browser.sent ≡ c ∷ s.browser.sent)
          × IsOffered s c
          × (is_pending s ≡ false))
unfolding action_answered settle_answered press shows
step-IsOffered {s = s} (pressed row (act suspend) listed shown idle) =
    inr (call_suspend row.id, refl, suspending row listed (suspends row.status shown), idle)
step-IsOffered {s = s} (pressed row (act reopen) listed shown idle) =
    inr (call_reopen row.id, refl, reopening row listed (reopens row.status shown), idle)
step-IsOffered (pressed row ask listed shown idle) = inl refl
step-IsOffered (pressed row cancel listed shown idle) = inl refl
step-IsOffered {s = s} (pressed row (confirm result) listed shown idle) = inr (
  call_settle row.id result,
  refl,
  settling row result listed (confirms s.settle_confirm row.id shown),
  idle,
)
step-IsOffered (acted action true e) = inl refl
step-IsOffered (acted action false e) = inl refl
step-IsOffered (decided result true e) = inl refl
step-IsOffered (decided result false e) = inl refl
step-IsOffered (reloaded rows) = inl refl
