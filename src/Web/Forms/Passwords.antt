-- ===== src/Web/Forms/Passwords.antt =====
-- The form of a new account and the API.
use text.Mathlib.Text.{◌==◌ as str_eq}
use text.Mathlib.TextPositions.{eq_refl}
use bolt_bet.Base.{
  ◌≡◌, ◌≢◌, ◌∙◌, ◌≤◌, ◌<◌, refl, ap, inl, inr, Bool-cases, true, List, [], ◌∷◌, none, some, String,
  arith,
}
use bolt_bet.Base.Table.{length}
use bolt_bet.Crypto.{Text}
use bolt_bet.Model.Entities.{Body, string}
use bolt_bet.Validation.{
  Packages, Piped, bad_request, thrown, passed, codes, register_dto, email_of, string_between,
  credentials, is_whitelisted,
}
use bolt_bet.Web.{Browser, send_call, call_register}
use bolt_bet.Web.Forms.{register_submit}

-- `JSON.stringify({ email, password })`
abbrev pub register_body : String → String → Body
register_body email password = ("email", string email) ∷ ("password", string password) ∷ []

refused_any_email :
    (keys : List String) (body : Body) (email : Piped Text)
    → email ≢ thrown
    → credentials keys body none email ≡ bad_request
refused_any_email keys body thrown h = absurd (h refl)
refused_any_email keys body bad_request h = refl
refused_any_email keys body (passed email) h = elim (Bool-cases (is_whitelisted keys body)) [
  | inl listed ↦ rw listed
  | inr other ↦ rw other
]

email-ne-thrown :
    (packages : Packages) (email : String) → email_of packages (some (string email)) ≢ thrown
email-ne-thrown packages email h = ground arith

too_short :
    (password : String)
    → length (codes password) < 10
    → string_between 10 (some 128) (some (string password)) ≡ none
too_short password h = ground arith

-- The form of a new account and the API disagree on short passwords: one of eight or nine
-- characters passes the checks of the page, which sends the request, and the API refuses it with
-- 400, whatever the address is.
pub register_short_password :
    (packages : Packages) (email password : String) (b : Browser)
    → 8 ≤ length (codes password)
    → length (codes password) < 10
    → (register_submit email password password b ≡ (
      true,
      send_call (call_register (record { email = codes email; password = codes password })) b,
    ))
      × (register_dto packages (register_body email password) ≡ bad_request)
unfolding register_submit register_dto
register_short_password packages email password b long short = (sends (eq_refl password), refuses)
  where
    sends :
        str_eq password password ≡ true
        → register_submit email password password b ≡ (
          true,
          send_call (call_register (record { email = codes email; password = codes password })) b,
        )
    sends same = ground arith

    refuses : register_dto packages (register_body email password) ≡ bad_request
    refuses =
        ap
          (λ p.
            credentials ("email" ∷ "password" ∷ []) (register_body email password) p
              (email_of packages (some (string email))))
          (too_short password short)
        ∙ refused_any_email ("email" ∷ "password" ∷ []) (register_body email password)
            (email_of packages (some (string email))) (email-ne-thrown packages email)
