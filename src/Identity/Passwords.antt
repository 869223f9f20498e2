-- ===== src/Identity/Passwords.antt =====
-- bcrypt reads the first 72 bytes of a text, and the pepper stands in front of the password.
use bolt_bet.Base.{
  ℕ, suc, ◌+◌, ◌≡◌, refl, ap, sym, ◌∙◌, transport, [], ◌∷◌, ◌++◌, arith, Bool-cases, inl, inr,
}
use bolt_bet.Base.Table.{take, find, length}
use bolt_bet.Crypto.{Text, Crypto, Config, Draw}
use bolt_bet.Model.Entities.{World}
use bolt_bet.Model.Action.{user_read}
use bolt_bet.Identity.{login, hash_of, has_email}

-- bcrypt's documented limit: what is behind the 72nd byte makes no difference.
abbrev pub Truncates : Crypto → Type 0
Truncates crypto =
    (s t : Text) (h : ℕ) → take 72 s ≡ take 72 t → crypto.compare s h ≡ crypto.compare t h

abbrev beyond : Text → ℕ → ℕ
beyond [] n = n
beyond (c ∷ s) n = suc (beyond s n)

beyond_lem : (s : Text) (n : ℕ) → beyond s n ≡ length s + n
beyond_lem [] n = omega arith
beyond_lem (c ∷ s) n = omega (arith, beyond_lem s n)

take-append : (s t : Text) (n : ℕ) → take (beyond s n) (s ++ t) ≡ s ++ take n t
take-append [] t n = refl
take-append (c ∷ s) t n = ap (λ (r : Text). c ∷ r) (take-append s t n)

-- Behind a pepper of 64 characters only the first eight of the password are read.
same_prefix :
    (pepper p q : Text)
    → length pepper ≡ 64
    → take 8 p ≡ take 8 q
    → take 72 (pepper ++ p) ≡ take 72 (pepper ++ q)
same_prefix pepper p q long same =
    let e : beyond pepper 8 ≡ 72 = omega (arith, beyond_lem pepper 8, long) in
    transport (λ i. take (e i) (pepper ++ p) ≡ take (e i) (pepper ++ q))
      (take-append pepper p 8 ∙ ap (λ (r : Text). pepper ++ r) same ∙ sym (take-append pepper q 8))

-- With a pepper of 64 characters, as scripts/gen-keys.sh makes it, two passwords that agree on their
-- first eight characters are the same to a login, whatever follows: the answer, the exception and
-- the state are the same, where bcrypt reads 72 bytes.
pub login-take :
    (crypto : Crypto) (config : Config) (d : Draw) (email p q : Text) (w : World)
    → Truncates crypto
    → length config.password_pepper ≡ 64
    → take 8 p ≡ take 8 q
    → login crypto config d (record { email = email; password = p }) w
      ≡ login crypto config d (record { email = email; password = q }) w
unfolding login
login-take crypto config d email p q w reads long same = elim (Bool-cases (d.fails user_read)) [
  | inl down ↦ rw (down, login)
  | inr up ↦
      let alike =
        reads (config.password_pepper ++ p) (config.password_pepper ++ q)
          (hash_of crypto config (find (has_email email) w.users))
          (same_prefix config.password_pepper p q long same) in
      rw (up, login, alike)
]
