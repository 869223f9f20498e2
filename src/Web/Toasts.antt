-- ===== src/Web/Toasts.antt =====
-- components/ui/ToastContainer.tsx: the latest toast is removed after four seconds. Whenever the
-- toasts change, the timer is cleared and set for the toast that is then the latest.
use bolt_bet.Base.{
  ℕ, zero, suc, ◌≤◌, ◌≡◌, ◌==◌, refl, inl, inr, Bool-cases, true, List, [], ◌∷◌, Option, none, some,
  arith, sym, ◌∙◌,
}
use bolt_bet.Base.Table.{length}
use bolt_bet.Web.{Toast, ToastVariant, Message, add_toast, remove_toast}

abbrev pub latest : List Toast → Option ℕ
latest [] = none
latest (t ∷ []) = some t.id
latest (t ∷ u ∷ ts) = latest (u ∷ ts)

-- The toasts and the toast that the timer removes.
pub record Container : Type 0 where
  pub toasts : List Toast
  pub timer : Option ℕ

-- The effect of a change: the old timer is cleared, and a new one is set.
abbrev pub changed : List Toast → Container
changed toasts = record { toasts = toasts; timer = latest toasts }

pub data Event : Type 0 where
  added : ℕ → Message → ToastVariant → Event
  dismissed : ℕ → Event
  timed_out : Event

abbrev pub time_out : Option ℕ → Container → Container
time_out none c = c
time_out (some id) c = changed (remove_toast id c.toasts)

pub happen : Event → Container → Container
happen (added id message variant) c = changed (add_toast id message variant c.toasts)
happen (dismissed id) c = changed (remove_toast id c.toasts)
happen timed_out c = time_out c.timer c

abbrev pub run : List Event → Container → Container
run [] c = c
run (e ∷ es) c = run es (happen e c)

-- The timer goes off so many times.
abbrev pub wait : ℕ → Container → Container
wait zero c = c
wait (suc n) c = wait n (happen timed_out c)

remove_le : (id : ℕ) (ts : List Toast) → length (remove_toast id ts) ≤ length ts
remove_le id [] = omega arith
remove_le id (t ∷ ts) = elim (Bool-cases (t.id == id)) [
  | inl hit ↦ rw hit (omega (arith, remove_le id ts))
  | inr miss ↦ rw miss (omega (arith, remove_le id ts))
]

-- The latest toast is one of them, so that removing it leaves fewer.
latest_lt :
    (ts : List Toast) {id : ℕ} → latest ts ≡ some id → suc (length (remove_toast id ts)) ≤ length ts
latest_lt [] h = absurd (cc)
latest_lt (t ∷ []) {id} h = let hit : (t.id == id) ≡ true = ground arith in rw hit (omega arith)
latest_lt (t ∷ u ∷ ts) {id} h = elim (Bool-cases (t.id == id)) [
  | inl hit ↦ rw hit (omega (arith, remove_le id (u ∷ ts)))
  | inr miss ↦ rw miss (omega (arith, latest_lt (u ∷ ts) {id = id} h))
]

abbrev IsArmed : Container → Type 0
IsArmed c = c.timer ≡ latest c.toasts

happen-IsArmed : (e : Event) (c : Container) → IsArmed c → IsArmed (happen e c)
unfolding happen
happen-IsArmed (added id message variant) c h = refl
happen-IsArmed (dismissed id) c h = refl
happen-IsArmed timed_out c h = by_timer c.timer refl
  where
    by_timer : (o : Option ℕ) → c.timer ≡ o → IsArmed (time_out o c)
    by_timer none e = h
    by_timer (some id) e = refl

run-IsArmed : (es : List Event) (c : Container) → IsArmed c → IsArmed (run es c)
run-IsArmed [] c h = h
run-IsArmed (e ∷ es) c h = run-IsArmed es (happen e c) (happen-IsArmed e c h)

latest-none : (ts : List Toast) → latest ts ≡ none → ts ≡ []
latest-none [] h = refl
latest-none (t ∷ []) h = cc
latest-none (t ∷ u ∷ ts) h = absurd (nonempty (latest-none (u ∷ ts) h))
  where
    nonempty : (u ∷ ts ≡ []) → ⊥
    nonempty e = cc

wait_empties : (n : ℕ) (c : Container) → IsArmed c → length c.toasts ≤ n → (wait n c).toasts ≡ []
unfolding happen
wait_empties zero c h few = none_left c.toasts few
  where
    none_left : (ts : List Toast) → length ts ≤ 0 → ts ≡ []
    none_left [] few = refl
    none_left (t ∷ ts) few = absurd (omega arith)
wait_empties (suc n) c h few = by_timer (wait_empties n) c.timer refl
  where
    by_timer :
        ((d : Container) → IsArmed d → length d.toasts ≤ n → (wait n d).toasts ≡ [])
        → (o : Option ℕ) → c.timer ≡ o
        → (wait n (time_out o c)).toasts ≡ []
    by_timer rest none e = rest c h (empty (latest-none c.toasts (sym h ∙ e)))
      where
        empty : c.toasts ≡ [] → length c.toasts ≤ n
        empty q = rw q (omega arith)
    by_timer rest (some id) e =
        rest (changed (remove_toast id c.toasts)) refl
          (omega (arith, latest_lt c.toasts {id = id} (sym h ∙ e), few))

-- No toast stays for ever: whatever has been added and dismissed before, once nothing more is added
-- or dismissed the timer goes off for one toast after the other, and after as many times as there
-- are toasts none is left.
pub toasts_end :
    (es : List Event) → let c = run es (changed []) in (wait (length c.toasts) c).toasts ≡ []
toasts_end es =
    let c = run es (changed []) in
    wait_empties (length c.toasts) c (run-IsArmed es (changed []) refl) (omega arith)
