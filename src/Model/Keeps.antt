-- ===== src/Model/Keeps.antt =====
-- Rules for what an action keeps, one for each way to build an action: `P` holds after it if it
-- held before it, whether it returns or raises.
use bolt_bet.Base.{◌≡◌, refl, Bool, true, false, Option, some, none}
use bolt_bet.Model.Entities.{World}
use bolt_bet.Model.Action.{Action, Error, Result, ok, err, bind, raise_if, or_raise}

abbrev pub Keeps {ℓ} : {A : Type 0} → (World → Type ℓ) → Action A → Type ℓ
Keeps P m = (w : World) → P w → P (m w).1

module _ {ℓ} (P : World → Type ℓ) where
  pub bind-Keeps :
      {A B : Type 0} (m : Action A) (f : A → Action B)
      → Keeps P m
      → ((a : A) → Keeps P (f a))
      → Keeps P (λ w. bind (m w) f)
  bind-Keeps m f km kf w h = after (m w) (km w h)
    where
      after : (r : Result _ × World) → P r.1 → P (bind r f).1
      after (ok a, w') h' = kf a w' h'
      after (err e, w') h' = h'

  -- A test, then the rest.
  pub guard-Keeps :
      {B : Type 0} (c : Bool) (e : Error) (k : Action B)
      → Keeps P k
      → Keeps P (λ w. bind (raise_if c e w) (λ _. k))
  guard-Keeps true e k kk w h = h
  guard-Keeps false e k kk w h = kk w h

  pub or_raise-Keeps :
      {A B : Type 0} (o : Option A) (e : Error) (f : A → Action B)
      → ((a : A) → o ≡ some a → Keeps P (f a))
      → Keeps P (λ w. bind (or_raise o e w) f)
  or_raise-Keeps none e f kf w h = h
  or_raise-Keeps (some a) e f kf w h = kf a refl w h
