-- ===== src/Format/Grouping.antt =====
-- `formatCents` and the usual notation of an amount: whole dollars in groups of three digits.
use bolt_bet.Base.{
  ℕ, zero, suc, ◌+◌, ◌/◌, ◌%◌, ◌≤◌, ◌<◌, ◌≡◌, ◌∙◌, refl, sym, ap, List, [], ◌∷◌, ◌++◌, arith, Bool,
  true, false, Bool-cases, inl, inr, if◌then◌else◌, ltb, ◌==◌,
}
use bolt_bet.Base.Table.{length, All}
use bolt_bet.Format.{
  is_digit, digit, to_digits, to_string, run_length, matches_here, to_fixed, insert_commas,
  replace_thousands, format_cents,
}

-- The three digits of a number below a thousand, in front of a text.
abbrev pub three_digits : ℕ → List ℕ → List ℕ
three_digits n s = digit (n / 100) ∷ digit (n / 10 % 10) ∷ digit (n % 10) ∷ s

-- The one to three digits of a number below a thousand.
abbrev pub few_digits : ℕ → List ℕ
few_digits n =
    if ltb n 10
    then digit n ∷ []
    else if ltb n 100
    then digit (n / 10) ∷ digit (n % 10) ∷ []
    else three_digits n []

-- A number below a thousand is written without a comma; any other one as its thousands, a comma, and
-- the three digits of the rest. The fuel bounds the number of groups.
abbrev pub grouped : ℕ → ℕ → List ℕ
grouped zero n = []
grouped (suc fuel) n =
    let rest = grouped fuel (n / 1000) in
    if ltb n 1000 then few_digits n else rest ++ (b',' ∷ three_digits (n % 1000) [])

-- The digits of a text with commas, behind its first digit.
abbrev commas : List ℕ → List ℕ
commas [] = []
commas (c ∷ s) = if length (c ∷ s) % 3 == 0 then b',' ∷ c ∷ commas s else c ∷ commas s

abbrev IsDigits : List ℕ → Type 0
IsDigits = All (λ c. is_digit c ≡ true)

abbrev point : List ℕ → List ℕ
point s = b'.' ∷ s

is_digit-digit : (d : ℕ) → d < 10 → is_digit (digit d) ≡ true
is_digit-digit d h = ground arith

-- Inside a number, the length of the run of digits decides.
matches_here-run :
    (before l : ℕ) (s : List ℕ)
    → is_digit before ≡ true
    → run_length s ≡ suc l
    → matches_here before s ≡ (suc l % 3 == 0)
matches_here-run before l s d run =
    let some_digit : ltb 0 (suc l) ≡ true = ground arith in rw (d, run, some_digit) refl

run_length-point : (s t : List ℕ) → IsDigits s → run_length (s ++ point t) ≡ length s
run_length-point [] t h = refl
run_length-point (c ∷ s) t h = rw h.0 (ap suc (run_length-point s t h.1))

-- Cents: two digits, which no comma breaks.
abbrev cents_of : ℕ → List ℕ
cents_of n = digit (n % 100 / 10) ∷ digit (n % 10) ∷ []

insert_commas-cents :
    (before n : ℕ)
    → is_digit before ≡ true
    → insert_commas before (point (cents_of n)) ≡ point (cents_of n)
unfolding insert_commas
insert_commas-cents before n d =
    let one = is_digit-digit (n % 10) (omega arith) in
    rw (d, one, is_digit-digit (n % 100 / 10) (omega arith)) refl

insert_commas-point :
    (before n : ℕ) (s : List ℕ)
    → is_digit before ≡ true
    → IsDigits s
    → insert_commas before (s ++ point (cents_of n)) ≡ commas s ++ point (cents_of n)
unfolding insert_commas
insert_commas-point before n [] d h = insert_commas-cents before n d
insert_commas-point before n (c ∷ s) d h =
    rw
      (
        matches_here-run before (length s) (c ∷ (s ++ point (cents_of n))) d
            (run_length-point (c ∷ s) (cents_of n) h),
        insert_commas-point c n s h.0 h.1,
      )
      (by_test _)
  where
    by_test :
        (b : Bool)
        → (if b
            then b',' ∷ c ∷ (commas s ++ point (cents_of n))
            else c ∷ (commas s ++ point (cents_of n)))
          ≡ (if b then b',' ∷ c ∷ commas s else c ∷ commas s) ++ point (cents_of n)
    by_test true = refl
    by_test false = refl

-- The digits of a number, with the fuel and what follows apart.
to_digits-append : (f n : ℕ) (acc t : List ℕ) → to_digits f n (acc ++ t) ≡ to_digits f n acc ++ t
unfolding to_digits
to_digits-append zero n acc t = refl
to_digits-append (suc f) n acc t = elim (Bool-cases (ltb n 10)) [
  | inl last ↦ rw last refl
  | inr more ↦ rw more (to_digits-append f (n / 10) (digit (n % 10) ∷ acc) t)
]

to_digits_enough :
    (f g n : ℕ) (acc : List ℕ) → n < f → n < g → to_digits f n acc ≡ to_digits g n acc
unfolding to_digits
to_digits_enough zero g n acc h h' = absurd (omega arith)
to_digits_enough (suc f) zero n acc h h' = absurd (omega arith)
to_digits_enough (suc f) (suc g) n acc h h' = elim (Bool-cases (ltb n 10)) [
  | inl last ↦ rw last refl
  | inr more ↦
      rw more (to_digits_enough f g (n / 10) (digit (n % 10) ∷ acc) (ground arith) (ground arith))
]

-- The first digit, and the others.
abbrev IsNumeral : List ℕ → Type 0
IsNumeral s = (c : ℕ) × (r : List ℕ) × (s ≡ c ∷ r) × (is_digit c ≡ true) × IsDigits r

to_digits-IsNumeral :
    (f n : ℕ) (acc : List ℕ) → n < f → IsDigits acc → IsNumeral (to_digits f n acc)
unfolding to_digits
to_digits-IsNumeral zero n acc h all = absurd (omega arith)
to_digits-IsNumeral (suc f) n acc h all = elim (Bool-cases (ltb n 10)) [
  | inl last ↦ rw last (digit n, acc, refl, is_digit-digit n (ground arith), all)
  | inr more ↦ rw more (
      to_digits-IsNumeral f (n / 10) (digit (n % 10) ∷ acc) (ground arith)
        (is_digit-digit (n % 10) (omega arith), all))
]

to_digits-next :
    (f n : ℕ) (acc : List ℕ)
    → 10 ≤ n
    → to_digits (suc f) n acc ≡ to_digits f (n / 10) (digit (n % 10) ∷ acc)
unfolding to_digits
to_digits-next f n acc h = let many : ltb n 10 ≡ false = ground arith in rw many refl

to_string-split :
    (n : ℕ) → 1000 ≤ n → to_string n ≡ to_string (n / 1000) ++ three_digits (n % 1000) []
unfolding to_string
to_string-split n h =
    to_digits_enough (suc n) (suc (suc (suc n))) n [] (omega arith) (omega arith)
    ∙ to_digits-next (suc (suc n)) n [] (omega arith)
    ∙ to_digits-next (suc n) (n / 10) (digit (n % 10) ∷ []) (omega arith)
    ∙ to_digits-next n (n / 10 / 10) (digit (n / 10 % 10) ∷ digit (n % 10) ∷ []) (omega arith)
    ∙ ap (λ s. to_digits n (n / 10 / 10 / 10) s) same_digits
    ∙ ap (λ m. to_digits n m (three_digits (n % 1000) [])) thousands
    ∙ to_digits_enough n (suc (n / 1000)) (n / 1000) (three_digits (n % 1000) []) (omega arith)
        (omega arith)
    ∙ to_digits-append (suc (n / 1000)) (n / 1000) [] (three_digits (n % 1000) [])
  where
    thousands : n / 10 / 10 / 10 ≡ n / 1000
    thousands = omega arith

    hundreds : n / 10 / 10 % 10 ≡ n % 1000 / 100
    hundreds = omega arith

    tens : n / 10 % 10 ≡ n % 1000 / 10 % 10
    tens = omega arith

    ones : n % 10 ≡ n % 1000 % 10
    ones = omega arith

    same_digits :
        digit (n / 10 / 10 % 10) ∷ digit (n / 10 % 10) ∷ digit (n % 10) ∷ []
        ≡ three_digits (n % 1000) []
    same_digits i = digit (hundreds i) ∷ digit (tens i) ∷ digit (ones i) ∷ []

-- A numeral with its commas.
abbrev with_commas : List ℕ → List ℕ
with_commas [] = []
with_commas (c ∷ s) = c ∷ commas s

replace_thousands-point :
    (s : List ℕ) (n : ℕ)
    → IsNumeral s
    → replace_thousands (s ++ point (cents_of n)) ≡ with_commas s ++ point (cents_of n)
unfolding replace_thousands
replace_thousands-point s n (c, r, e, d, h) =
    rw e (ap (λ (t : List ℕ). c ∷ t) (insert_commas-point c n r d h))

length-group : (s t : List ℕ) → length (s ++ t) ≡ length s + length t
length-group [] t = omega arith
length-group (c ∷ s) t = omega (arith, length-group s t)

-- Commas come from the right: a group more in the numeral is a group more in the text.
commas-group :
    (s : List ℕ) (k : ℕ) → commas (s ++ three_digits k []) ≡ commas s ++ (b',' ∷ three_digits k [])
commas-group [] k = refl
commas-group (c ∷ s) k =
    rw (length-group s (three_digits k []), three_more (length s), commas-group s k) (by_test _)
  where
    three_more : (l : ℕ) → (suc (l + 3) % 3 == 0) ≡ (suc l % 3 == 0)
    three_more l = ap (λ m. m == 0) (omega arith)

    by_test :
        (b : Bool)
        → (if b
            then b',' ∷ c ∷ (commas s ++ (b',' ∷ three_digits k []))
            else c ∷ (commas s ++ (b',' ∷ three_digits k [])))
          ≡ (if b then b',' ∷ c ∷ commas s else c ∷ commas s) ++ (b',' ∷ three_digits k [])
    by_test true = refl
    by_test false = refl

with_commas-group :
    (s : List ℕ) (k : ℕ)
    → IsNumeral s
    → with_commas (s ++ three_digits k []) ≡ with_commas s ++ (b',' ∷ three_digits k [])
with_commas-group s k (c, r, e, d, h) = rw e (ap (λ (t : List ℕ). c ∷ t) (commas-group r k))

to_string-IsNumeral : (n : ℕ) → IsNumeral (to_string n)
unfolding to_string
to_string-IsNumeral n = to_digits-IsNumeral (suc n) n [] (omega arith) tt

to_digits-last : (f n : ℕ) (acc : List ℕ) → n < 10 → to_digits (suc f) n acc ≡ digit n ∷ acc
unfolding to_digits
to_digits-last f n acc h = let one : ltb n 10 ≡ true = ground arith in rw one refl

to_string-few : (n : ℕ) → n < 1000 → to_string n ≡ few_digits n
unfolding to_string
to_string-few n h = elim (Bool-cases (ltb n 10)) [
  | inl one ↦ rw one refl
  | inr more ↦ elim (Bool-cases (ltb n 100)) [
    | inl two ↦
        let form : few_digits n ≡ digit (n / 10) ∷ digit (n % 10) ∷ [] = rw (more, two) refl in
        (to_digits_enough (suc n) (suc (suc n)) n [] (omega arith) (omega arith)
          ∙ to_digits-next (suc n) n [] (ground arith)
          ∙ to_digits-last n (n / 10) (digit (n % 10) ∷ []) (ground arith)
          ∙ sym form)
    | inr three ↦
        let form : few_digits n ≡ three_digits n [] = rw (more, three) refl in
        (to_digits_enough (suc n) (suc (suc (suc n))) n [] (omega arith) (omega arith)
          ∙ to_digits-next (suc (suc n)) n [] (ground arith)
          ∙ to_digits-next (suc n) (n / 10) (digit (n % 10) ∷ []) (ground arith)
          ∙ to_digits-last n (n / 10 / 10) (digit (n / 10 % 10) ∷ digit (n % 10) ∷ [])
              (omega (arith, h))
          ∙ ap (λ m. digit m ∷ digit (n / 10 % 10) ∷ digit (n % 10) ∷ []) hundreds
          ∙ sym form)
  ]
]
  where
    hundreds : n / 10 / 10 ≡ n / 100
    hundreds = omega arith

with_commas-few : (n : ℕ) → with_commas (few_digits n) ≡ few_digits n
with_commas-few n = elim (Bool-cases (ltb n 10)) [
  | inl one ↦ rw one refl
  | inr more ↦ elim (Bool-cases (ltb n 100)) [
    | inl two ↦ rw (more, two) refl
    | inr three ↦ rw (more, three) refl
  ]
]

with_commas-grouped : (f n : ℕ) → n < f → with_commas (to_string n) ≡ grouped f n
with_commas-grouped zero n h = absurd (omega arith)
with_commas-grouped (suc f) n h = elim (Bool-cases (ltb n 1000)) [
  | inl small ↦ rw small (ap with_commas (to_string-few n (ground arith)) ∙ with_commas-few n)
  | inr large ↦
      let high : 1000 ≤ n = ground arith in
      rw large (
        ap with_commas (to_string-split n high)
        ∙ with_commas-group (to_string (n / 1000)) (n % 1000) (to_string-IsNumeral (n / 1000))
        ∙ ap (λ (t : List ℕ). t ++ (b',' ∷ three_digits (n % 1000) []))
            (with_commas-grouped f (n / 1000) (omega (arith, high, h))))
]

-- An amount of money is displayed as a dollar sign, the whole dollars in groups of three digits with
-- commas between them, a point, and two digits of cents: what the regular expression makes of the
-- text of the number is what is written down group by group.
pub format_cents-grouped :
    (cents : ℕ)
    → format_cents cents
      ≡ b'$'
        ∷ (grouped (suc (cents / 100)) (cents / 100)
            ++ (b'.' ∷ digit (cents % 100 / 10) ∷ digit (cents % 10) ∷ []))
unfolding format_cents to_fixed
format_cents-grouped cents =
    ap (λ (t : List ℕ). b'$' ∷ t)
      (replace_thousands-point (to_string (cents / 100)) cents (to_string-IsNumeral (cents / 100))
        ∙ ap (λ (t : List ℕ). t ++ point (cents_of cents))
            (with_commas-grouped (suc (cents / 100)) (cents / 100) (omega arith)))
