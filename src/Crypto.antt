-- ===== src/Crypto.antt =====
-- What the identity service and the guards take from other packages (bcrypt, the JWT signer, the
-- UUIDs of PostgreSQL) as parameters, the settings, and the handling of texts.
use bolt_bet.Base.{
  ℕ, ◌==◌, Bool, true, false, ◌&&◌, List, [], ◌∷◌, Option, none, some, String, if◌then◌else◌,
}
use bolt_bet.Model.Types.{Uuid, Role}
use bolt_bet.Model.Action.{Action, raise_if, Call, unavailable}

abbrev pub Text : Type 0
Text = List ℕ

pub data Tier : Type 0 where
  free vip admin_tier : Tier

-- `ROLE_TIER`
abbrev pub role_tier : Role → Tier
role_tier Role.user = free
role_tier Role.vip_user = vip
role_tier Role.admin = admin_tier

pub record JwtPayload : Type 0 where
  pub sub : Uuid
  pub role : Role
  pub tier : Tier
  pub jti : Uuid
  pub iat : ℕ
  pub exp : ℕ

-- The packages that the service calls: bcrypt, with the salt of a hash written out, the signer of
-- tokens, and the text of a UUID, as it is printed and as PostgreSQL reads it.
pub record Crypto : Type 0 where
  pub hash : ℕ → Text → ℕ
  pub compare : Text → ℕ → Bool
  pub sign : JwtPayload → Text
  pub verify : ℕ → Text → Option JwtPayload
  pub show_uuid : Uuid → Text
  pub read_uuid : Text → Option Uuid

-- The settings of JwtConfig and SecurityConfig, the times in seconds, and the dummy hash that
-- onModuleInit computes.
pub record Config : Type 0 where
  pub access_ttl : ℕ
  pub refresh_ttl : ℕ
  pub password_pepper : Text
  pub dummy_hash : ℕ

-- What a request of this service draws from outside.
pub record Draw : Type 0 where
  pub now : ℕ
  pub user_id : Uuid
  pub token_id : Uuid
  pub family_id : Uuid
  pub jti : Uuid
  pub salt : ℕ
  pub secret : Text
  pub user_agent : Option String
  pub fails : Call → Bool

abbrev pub call : Draw → Call → Action (Unit {0})
call d c = raise_if (d.fails c) (unavailable c)

abbrev pub text_eq : Text → Text → Bool
text_eq [] [] = true
text_eq (c ∷ s) (k ∷ t) = c == k && text_eq s t
text_eq _ _ = false

abbrev pub longer : ℕ → Option (Text × Text) → Option (Text × Text)
longer c none = none
longer c (some (s, t)) = some (c ∷ s, t)

-- The part of a text before the first colon and the part behind it.
abbrev pub split_colon : Text → Option (Text × Text)
split_colon [] = none
split_colon (c ∷ s) = let rest = split_colon s in if c == b':' then some ([], s) else longer c rest

-- A value that is there and is not the empty text: what JavaScript takes for true.
abbrev pub truthy : Option Text → Option Text
truthy none = none
truthy (some []) = none
truthy (some (c ∷ s)) = some (c ∷ s)

-- `slice(0, -1)`
abbrev pub but_last : Text → Text
but_last [] = []
but_last (c ∷ []) = []
but_last (c ∷ d ∷ s) = c ∷ but_last (d ∷ s)
