-- ===== src/Web/Forms.antt =====
-- The forms of the folder app/(auth): what `handleSubmit` does before the call of the API, with the
-- new value of `loading`, and after it.
pub mod Passwords
use text.Mathlib.Text.{◌==◌ as str_eq}
use bolt_bet.Base.{ltb, Bool, true, false, not, Option, none, some, String, if◌then◌else◌}
use bolt_bet.Base.Table.{length}
use bolt_bet.Crypto.{Text, truthy}
use bolt_bet.Client.{AuthUser}
use bolt_bet.Validation.{codes}
use bolt_bet.Web.{
  Page, Browser, success, error, fire, send_call, go_to, call_login, call_register,
  call_request_reset, call_reset, passwords_differ, password_short, account_created, api_message,
  invalid_login, password_reset, reset_failed,
}
use bolt_bet.Web.Session.{login}

-- The two checks of a new password, and the call.
abbrev pub with_new_password : String → String → (Browser → Browser) → Browser → Bool × Browser
with_new_password password confirm call b =
    if not (str_eq password confirm)
    then (false, fire error passwords_differ b)
    else if ltb (length (codes password)) 8
    then (false, fire error password_short b)
    else (true, call b)

-- RegisterPage
pub register_submit : String → String → String → Browser → Bool × Browser
register_submit email password confirm =
    with_new_password password confirm
      (send_call (call_register (record { email = codes email; password = codes password })))

-- The message of the error, if the call fails.
pub register_answered : Option Text → Browser → Bool × Browser
register_answered none b = (false, go_to Page.login (fire success account_created b))
register_answered (some message) b = (false, fire error (api_message message) b)

-- ResetPasswordForm, for the token of the link.
pub reset_submit : Text → String → String → Browser → Bool × Browser
reset_submit token password confirm =
    with_new_password password confirm (send_call (call_reset token (codes password)))

pub reset_answered : Bool → Browser → Bool × Browser
reset_answered true b = (false, go_to Page.login (fire success password_reset b))
reset_answered false b = (false, fire error reset_failed b)

-- A link without a token shows no form.
abbrev pub shows_form : Option Text → Bool
shows_form token = elim (truthy token) [ none ↦ false | some t ↦ true ]

-- LoginPage
pub login_submit : String → String → Browser → Bool × Browser
login_submit email password b =
    (true, send_call (call_login (record { email = codes email; password = codes password })) b)

abbrev pub after_login : Bool × Browser → Bool × Browser
after_login (true, b) = (false, b)
after_login (false, b) = (false, fire error invalid_login b)

pub login_answered : (Text → Option AuthUser) → Option Text → Browser → Bool × Browser
login_answered decode_token token b = after_login (login decode_token token b)

-- ForgotPasswordPage: `sent` is set whether or not the call succeeds.
pub request_reset_submit : Text → Browser → Bool × Browser
request_reset_submit email b = (true, send_call (call_request_reset email) b)

pub request_reset_answered : Bool → Bool
request_reset_answered succeeded = true
