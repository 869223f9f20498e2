-- ===== src/Tests/Sessions.antt =====
-- The identity service, the guards and the gateway on the small state, with a toy for the packages.
use bolt_bet.Base.{
  ℕ, zero, suc, ◌≡◌, ◌+◌, ◌-◌, ◌*◌, ◌==◌, ==_iff, ltb, refl, ap, true, false, Option, some, none,
  List, [], ◌∷◌, ◌++◌, arith, if◌then◌else◌,
}
use bolt_bet.Base.Table.{take, All}
use bolt_bet.Crypto.{Text, JwtPayload, Crypto, Config, Draw, free}
use bolt_bet.Model.Types.{Uuid, Role, MarketResult}
use bolt_bet.Model.Entities.{User, RefreshToken, World, bet_settled}
use bolt_bet.Model.Action.{ok, err, WhenOk, token_reused, token_revoked, access_token_revoked}
use bolt_bet.Identity.{Session, Credentials, refresh, login, logout}
use bolt_bet.Identity.Rotation.{Rotated, refresh-Rotated}
use bolt_bet.Identity.Revocation.{IsUuidText, refresh-replayed}
use bolt_bet.Identity.Login.{login-refresh}
use bolt_bet.Identity.Passwords.{Truncates, login-take}
use bolt_bet.Auth.{authenticate, bearer}
use bolt_bet.Auth.Logout.{logout-refused}
use bolt_bet.Realtime.{Handshake, handle_notification, connect_all, settled_event}
use bolt_bet.Realtime.Rooms.{IsPrivate, bet_settled-IsPrivate}
use bolt_bet.Tests.{ada, shop}

abbrev pub code : Text → ℕ
code [] = 0
code (c ∷ s) = suc c + 256 * code s

abbrev pub read_one : Text → Option Uuid
read_one (c ∷ []) = some (c - 100)
read_one _ = none

abbrev pub read_token : ℕ → Text → Option JwtPayload
read_token now (sub ∷ jti ∷ exp ∷ []) =
    if ltb now (exp * 1000)
    then some (record { sub = sub; role = Role.user; tier = free; jti = jti; iat = 0; exp = exp })
    else none
read_token now _ = none

-- A UUID is one character; a hash is a sum of the first 72 characters.
abbrev pub toy : Crypto
toy = record {
  hash = λ salt t. code (take 72 t);
  compare = λ t h. code (take 72 t) == h;
  sign = λ p. p.sub ∷ p.jti ∷ p.exp ∷ [];
  verify = read_token;
  show_uuid = λ id. (id + 100) ∷ [];
  read_uuid = read_one;
}

toy-IsUuidText : IsUuidText toy
toy-IsUuidText = record {
  read_back = λ id. ap (λ (n : ℕ). some n) (omega arith);
  no_colon = λ id. ground arith;
}

toy-Truncates : Truncates toy
toy-Truncates s t h e = ap (λ (r : Text). code r == h) e

toy_accepts : (salt : ℕ) (t : Text) → toy.compare t (toy.hash salt t) ≡ true
toy_accepts salt t = (==_iff (code (take 72 t)) (code (take 72 t))).1 refl

abbrev pub repeat : ℕ → ℕ → Text
repeat zero c = []
repeat (suc n) c = c ∷ repeat n c

abbrev pub settings : Config
settings = record {
  access_ttl = 900;
  refresh_ttl = 604800;
  password_pepper = repeat 64 b'f';
  dummy_hash = 0;
}

abbrev pub draw : Draw
draw = record {
  now = 1000000;
  user_id = 2;
  token_id = 7;
  family_id = 8;
  jti = 9;
  salt = 0;
  secret = b's' ∷ b'1' ∷ [];
  user_agent = none;
  fails = λ c. false;
}

abbrev pub next_draw : Draw
next_draw = record draw {
  now = 1500000;
  token_id = 17;
  family_id = 18;
  jti = 19;
  secret = b's' ∷ b'2' ∷ [];
}

abbrev last_draw : Draw
last_draw = record draw { now = 1600000; token_id = 27; family_id = 28; jti = 29 }

abbrev pub entry : Credentials
entry = record {
  email = b'a' ∷ [];
  password = b'h' ∷ b'u' ∷ b'n' ∷ b't' ∷ b'e' ∷ b'r' ∷ b'-' ∷ b'2' ∷ b'x' ∷ [];
}

abbrev pub member : User
member = record {
  id = ada;
  email = b'a' ∷ [];
  password_hash = code (take 72 (repeat 64 b'f' ++ entry.password));
  role = Role.user;
  created_at = 0;
  updated_at = 0;
}

abbrev pub old_token : RefreshToken
old_token = record {
  id = 5;
  family_id = 6;
  token_hash = code (b's' ∷ b'0' ∷ []);
  user_id = ada;
  user_agent = none;
  used = false;
  revoked = false;
  expires_at = 2000000;
  created_at = 0;
}

abbrev pub club : World
club = record shop { users = member ∷ []; refresh_tokens = old_token ∷ [] }

-- The UUID 5, a colon, and the secret.
abbrev crumb : Option Text
crumb = some (105 ∷ b':' ∷ b's' ∷ b'0' ∷ [])

refresh-Rotated_example :
    WhenOk (Rotated toy settings draw crumb club) (refresh toy settings draw crumb club)
refresh-Rotated_example = refresh-Rotated toy settings draw crumb club

refresh-replayed_example :
    WhenOk
      (λ session w'.
        (w'' : World) × (refresh toy settings next_draw crumb w' ≡ (err token_reused, w''))
        × (refresh toy settings last_draw (some session.cookie) w'' ≡ (err token_revoked, w'')))
      (refresh toy settings draw crumb club)
refresh-replayed_example =
    refresh-replayed toy settings draw next_draw last_draw crumb club toy-IsUuidText refl refl refl

login-refresh_example :
    WhenOk
      (λ session w'.
        (session' : Session) × (w'' : World) × (refresh toy settings next_draw
            (some session.cookie)
            w'
          ≡ (ok session', w'')))
      (login toy settings draw entry club)
login-refresh_example =
    login-refresh toy settings draw next_draw entry club toy-IsUuidText toy_accepts (refl, tt) refl
      refl refl (ground arith) refl refl

-- The ninth character is another.
login-take_example :
    login toy settings draw entry club
    ≡ login toy settings draw
        (record {
          email = b'a' ∷ [];
          password = b'h' ∷ b'u' ∷ b'n' ∷ b't' ∷ b'e' ∷ b'r' ∷ b'-' ∷ b'2' ∷ b'y' ∷ b'z' ∷ [];
        })
        club
login-take_example =
    login-take toy settings draw entry.email entry.password
      (b'h' ∷ b'u' ∷ b'n' ∷ b't' ∷ b'e' ∷ b'r' ∷ b'-' ∷ b'2' ∷ b'y' ∷ b'z' ∷ []) club toy-Truncates
      refl refl

abbrev pub pass : Text
pass = ada ∷ 9 ∷ 1900 ∷ []

abbrev pub claims : JwtPayload
claims = record { sub = ada; role = Role.user; tier = free; jti = 9; iat = 0; exp = 1900 }

logout-refused_example :
    WhenOk
      (λ done w'. authenticate toy next_draw (some pass) w' ≡ (err access_token_revoked, w'))
      (logout toy settings draw claims crumb club)
logout-refused_example =
    logout-refused toy settings draw next_draw claims pass (ground arith) (ground arith) refl refl
      refl crumb club

abbrev pub header : Option Text
header = some (bearer ++ (32 ∷ pass))

-- Ada in two tabs, a stranger without a token.
abbrev hellos : List Handshake
hellos =
    record { draw = draw; world = club; socket_id = 3; token = some pass }
    ∷ record { draw = draw; world = club; socket_id = 2; token = none }
    ∷ record { draw = draw; world = club; socket_id = 1; token = some pass }
    ∷ []

bet_settled-IsPrivate_example :
    All
      (IsPrivate toy hellos ada (settled_event 30 "Cup" MarketResult.win 500))
      (handle_notification (bet_settled ada 30 "Cup" MarketResult.win 500) (connect_all toy hellos))
bet_settled-IsPrivate_example = bet_settled-IsPrivate toy hellos ada 30 "Cup" MarketResult.win 500
