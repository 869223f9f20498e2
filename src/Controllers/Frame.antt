-- ===== src/Controllers/Frame.antt =====
-- What a request keeps, from what the service that it reaches keeps.
use bolt_bet.Base.{
  ℕ, String, Bool-cases, ◌≡◌, ◌⊎◌, refl, sym, subst, inl, inr, List, [], ◌∷◌, Option, none, some,
}
use bolt_bet.Crypto.{JwtPayload, Crypto, Config}
use bolt_bet.Model.Types.{Role, Uuid, MarketStatus, MarketResult}
use bolt_bet.Model.Entities.{Body, World}
use bolt_bet.Model.Action.{Action, Env, Result, ok, err, publish}
use bolt_bet.Model.Keeps.{Keeps}
use bolt_bet.Wallet
use bolt_bet.Wallet.{DepositDto}
use bolt_bet.Betting
use bolt_bet.Betting.{PlaceBetDto}
use bolt_bet.Market
use bolt_bet.Market.{CreateMarketDto}
use bolt_bet.Market.Frame.{get_market_same}
use bolt_bet.Betting.Frame.{get_bet_by_id_same}
use bolt_bet.Lists.Frame.{get_transactions_same, get_bets_same, list_same}
use bolt_bet.Identity
use bolt_bet.Identity.Frame.{IsOwnWrite, register-IsOwnWrite, login-IsOwnWrite, refresh-IsOwnWrite}
use bolt_bet.Validation.{
  Packages, Piped, bad_request, thrown, passed, Query, int_param, deposit_dto, place_bet_dto,
  id_param, create_market_dto, settle_market_dto, register_dto, login_dto,
}
use bolt_bet.Validation.Bounds.{IsWithin, deposit_dto-IsWithin, place_bet_dto-IsWithin}
use bolt_bet.Controllers.{
  Route, get_hello, publish_message, register, login, refresh, logout, get_balance, deposit,
  get_transactions, place_bet, get_bets, get_bet_by_id, list, get_market, create, suspend, settle,
  reopen, Request, roles, handler, public_handler,
}
use bolt_bet.Http.{Response, Answer, market, respond, piped, read_page, paged}
use bolt_bet.AppController.{publish_task}
use bolt_bet.MarketController.{StatusFilter, every, only, unknown, list_filtered}

pub respond_keeps {ℓ} :
    {A : Type 0} (P : World → Type ℓ) (code : ℕ) (answer : A → Answer) (r : Result A × World)
    → P r.1
    → P (respond code answer r).1
respond_keeps P code answer (ok a, w) h = h
respond_keeps P code answer (err e, w) h = h

pub piped_keeps {ℓ} :
    {A : Type 0} (P : World → Type ℓ) (p : Piped A) (next : A → World → Response × World)
    (w : World)
    → P w
    → ((a : A) → p ≡ passed a → P (next a w).1)
    → P (piped p next w).1
piped_keeps P bad_request next w h k = h
piped_keeps P thrown next w h k = h
piped_keeps P (passed a) next w h k = k a refl

-- Reading a page changes nothing.
pub read_page_keeps {ℓ} :
    {A : Type 0} (P : World → Type ℓ) (page limit : Query) (answer : A → Answer)
    (read : ℕ → ℕ → Action A) (w : World)
    → ((p l : ℕ) → (read p l w).1 ≡ w)
    → P w
    → P (read_page page limit answer read w).1
read_page_keeps P page limit answer read w same h = piped_keeps P (int_param 1 page) _ w h λ p e.
    piped_keeps P (int_param 20 limit) _ w h
      λ l e'. respond_keeps P 200 answer (paged p l read w) (read_one p l)
  where
    read_one : (p l : Option ℕ) → P (paged p l read w).1
    read_one (some p) (some l) = subst P (sym (same p _)) h
    read_one (some p) none = h
    read_one none (some l) = h
    read_one none none = h

-- A route names no role, or the administrator's.
pub roles_cases : (route : Route) → (roles route ≡ []) ⊎ (roles route ≡ Role.admin ∷ [])
roles_cases (create body) = inr refl
roles_cases (suspend id) = inr refl
roles_cases (settle id body) = inr refl
roles_cases (reopen id) = inr refl
roles_cases _ = inl refl

list_filtered_same :
    (env : Env) (status : StatusFilter) (p l : ℕ) (w : World)
    → (list_filtered env status p l w).1 ≡ w
list_filtered_same env every p l w = list_same env p l w none
list_filtered_same env (only status) p l w = list_same env p l w (some status)
list_filtered_same env unknown p l w = refl

-- What the operations that need no role keep; the sums are those that the pipes let through.
pub record Kept {ℓ} (P : World → Type ℓ) (crypto : Crypto) (config : Config) (r : Request)
    (user : JwtPayload) : Type ℓ where
  pub tasks : (ts : List Body) (w : World) → P w → P (record w { task_queue = ts })
  pub logouts : Keeps P (Identity.logout crypto config r.draw user r.cookie)
  pub balances : Keeps P (Wallet.get_balance r.env user.sub)
  pub deposits :
      (dto : DepositDto) → IsWithin dto.amount_cents → Keeps P (Wallet.deposit r.env user.sub dto)
  pub bets :
      (dto : PlaceBetDto)
      → IsWithin dto.stake_cents
      → Keeps P (Betting.place_bet r.env user.sub user.role dto)

module _ {ℓ} (P : World → Type ℓ) (packages : Packages) (crypto : Crypto) (config : Config)
    (r : Request) (user : JwtPayload) (k : Kept P crypto config r user) where
  publish_task-Keeps : (body : Body) → Keeps P (publish_task r.env body)
  unfolding publish_task
  publish_task-Keeps body w h = elim (Bool-cases (r.env.fails publish)) [
    | inl down ↦ rw (down, publish_task) h
    | inr up ↦ rw (up, publish_task) (k.tasks _ w h)
  ]

  by_id_keeps :
      {A : Type 0} (id : String) (answer : A → Answer) (read : Uuid → Action A) (w : World)
      → ((i : Uuid) → (read i w).1 ≡ w)
      → P w
      → P (piped (id_param packages id) (λ i v. respond 200 answer (read i v)) w).1
  by_id_keeps id answer read w same h =
      piped_keeps P (id_param packages id) _ w h
        λ i e. respond_keeps P 200 answer (read i w) (subst P (sym (same i)) h)

  pub handler-Keeps :
      (route : Route) (w : World)
      → roles route ≡ []
      → P w
      → P (handler packages crypto config r user route w).1
  unfolding handler
  handler-Keeps get_hello w free h = h
  handler-Keeps (publish_message body) w free h =
      respond_keeps P 201 _ (publish_task r.env body w) (publish_task-Keeps body w h)
  handler-Keeps (register body) w free h = h
  handler-Keeps (login body) w free h = h
  handler-Keeps refresh w free h = h
  handler-Keeps logout w free h = respond_keeps P 204 _ _ (k.logouts w h)
  handler-Keeps get_balance w free h = respond_keeps P 200 _ _ (k.balances w h)
  handler-Keeps (deposit body) w free h = piped_keeps P (deposit_dto packages body) _ w h λ dto e.
      respond_keeps P 201 _ (Wallet.deposit r.env user.sub dto w)
        (k.deposits dto (deposit_dto-IsWithin packages body e) w h)
  handler-Keeps (get_transactions page limit) w free h =
      read_page_keeps P page limit _ _ w (λ p l. get_transactions_same r.env p l w user.sub) h
  handler-Keeps (place_bet body) w free h =
      piped_keeps P (place_bet_dto packages body) _ w h λ dto e.
        respond_keeps P 201 _ (Betting.place_bet r.env user.sub user.role dto w)
          (k.bets dto (place_bet_dto-IsWithin packages body e) w h)
  handler-Keeps (get_bets page limit) w free h =
      read_page_keeps P page limit _ _ w (λ p l. get_bets_same r.env p l w user.sub) h
  handler-Keeps (get_bet_by_id id) w free h =
      by_id_keeps id _ (Betting.get_bet_by_id r.env user.sub user.role) w
        (λ i. get_bet_by_id_same r.env user.sub user.role i w) h
  handler-Keeps (list page limit status) w free h =
      read_page_keeps P page limit _ _ w (λ p l. list_filtered_same r.env status p l w) h
  handler-Keeps (get_market id) w free h =
      by_id_keeps id _ (Market.get_market r.env) w (λ i. get_market_same r.env i w) h
  handler-Keeps (create body) w free h = cc
  handler-Keeps (suspend id) w free h = cc
  handler-Keeps (settle id body) w free h = cc
  handler-Keeps (reopen id) w free h = cc

  -- What the administrator's routes keep.
  module _ (creates : (dto : CreateMarketDto) → Keeps P (Market.create_market r.env dto))
      (updates : (id : Uuid) (s : MarketStatus) → Keeps P (Market.update_status r.env id s))
      (settles : (id : Uuid) (result : MarketResult)
        → Keeps P (Market.settle r.env r.envs id result)) where
    updated :
        (id : String) (s : MarketStatus) (w : World)
        → P w
        → P
            (piped
              (id_param packages id)
              (λ i v. respond 200 market (Market.update_status r.env i s v))
              w).1
    updated id s w h =
        piped_keeps P (id_param packages id) _ w h λ i e. respond_keeps P 200 _ _ (updates i s w h)

    pub any_handler-Keeps :
        (route : Route) (w : World) → P w → P (handler packages crypto config r user route w).1
    unfolding handler
    any_handler-Keeps (create body) w h =
        piped_keeps P (create_market_dto packages body) _ w h
          λ dto e. respond_keeps P 201 _ (Market.create_market r.env dto w) (creates dto w h)
    any_handler-Keeps (suspend id) w h = updated id MarketStatus.suspended w h
    any_handler-Keeps (settle id body) w h = piped_keeps P (id_param packages id) _ w h λ i e.
        piped_keeps P (settle_market_dto body) _ w h λ result e'.
          respond_keeps P 200 _ (Market.settle r.env r.envs i result w) (settles i result w h)
    any_handler-Keeps (reopen id) w h = updated id MarketStatus.opened w h
    any_handler-Keeps route w h = handler-Keeps route w refl h

-- The public routes write what the identity service writes.
pub public_handler-IsOwnWrite :
    (packages : Packages) (crypto : Crypto) (config : Config) (r : Request) (route : Route)
    (w : World)
    → IsOwnWrite w (public_handler packages crypto config r route w).1
unfolding public_handler
public_handler-IsOwnWrite packages crypto config r (register body) w =
    piped_keeps (IsOwnWrite w) (register_dto packages body) _ w refl
      λ dto e. respond_keeps (IsOwnWrite w) 201 _ _ (register-IsOwnWrite crypto config r.draw w dto)
public_handler-IsOwnWrite packages crypto config r (login body) w =
    piped_keeps (IsOwnWrite w) (login_dto packages body) _ w refl
      λ dto e. respond_keeps (IsOwnWrite w) 200 _ _ (login-IsOwnWrite crypto config r.draw w dto)
public_handler-IsOwnWrite packages crypto config r refresh w =
    respond_keeps (IsOwnWrite w) 200 _ _ (refresh-IsOwnWrite crypto config r.draw w r.cookie)
public_handler-IsOwnWrite packages crypto config r _ w = refl
