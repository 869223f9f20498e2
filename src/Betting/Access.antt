-- ===== src/Betting/Access.antt =====
-- Who may see a bet.
use bolt_bet.Base.{
  ◌≡◌, ◌≢◌, ◌⊎◌, refl, inl, inr, Bool-cases, Option-cases, true, false, some, none, ◌==◌, ==_iff,
  arith,
}
use bolt_bet.Base.Table.{find}
use bolt_bet.Model.Types.{Uuid, Role, role_eq}
use bolt_bet.Model.Entities.{Bet, World}
use bolt_bet.Model.Action.{Env, Result, ok, err, bet_read, bet_not_found, no_access_to_bet}
use bolt_bet.Market.{has_bet_id}
use bolt_bet.Betting.{BetResponseDto, get_bet_by_id, to_bet_dto}

-- What a reader gets who may see it, and who may not.
abbrev pub Seen : Uuid → Role → Uuid → World → Result BetResponseDto × World → Type 0
Seen u role id w r =
    ((bet : Bet) × (find (has_bet_id id) w.replica.bets ≡ some bet)
      × ((bet.user_id ≡ u) ⊎ (role ≡ Role.admin))
      × (r ≡ (ok (to_bet_dto bet), w)))
    ⊎ ((bet : Bet) × (find (has_bet_id id) w.replica.bets ≡ some bet)
        × (bet.user_id ≢ u)
        × (role ≢ Role.admin)
        × (r ≡ (err no_access_to_bet, w)))
    ⊎ ((find (has_bet_id id) w.replica.bets ≡ none) × (r ≡ (err (bet_not_found id), w)))

role_eq-admin : (r : Role) → role_eq r Role.admin ≡ true → r ≡ Role.admin
role_eq-admin Role.admin h = refl
role_eq-admin Role.user h = cc
role_eq-admin Role.vip_user h = cc

role_eq_other : (r : Role) → role_eq r Role.admin ≡ false → r ≢ Role.admin
role_eq_other r h e = let clash : role_eq Role.admin Role.admin ≡ false = rw e at h in absurd (cc)

-- Where the replica answers, a bet is shown to its owner and to an administrator, as it is there;
-- anyone else is refused, and a bet that the replica does not have is reported as not found.
pub get_bet_by_id-Seen :
    (env : Env) (u : Uuid) (role : Role) (id : Uuid) (w : World)
    → env.fails bet_read ≡ false
    → Seen u role id w (get_bet_by_id env u role id w)
unfolding get_bet_by_id
get_bet_by_id-Seen env u role id w up = elim (Option-cases (find (has_bet_id id) w.replica.bets)) [
  | inl missing ↦ inr (inr (missing, rw (up, missing, get_bet_by_id)))
  | inr (bet, found) ↦ elim (Bool-cases (bet.user_id == u)) [
    | inl own ↦
        inl (bet, found, inl ((==_iff bet.user_id u).0 own), rw (up, found, get_bet_by_id, own))
    | inr other ↦ elim (Bool-cases (role_eq role Role.admin)) [
      | inl admin ↦
          inl (
            bet,
            found,
            inr (role_eq-admin role admin),
            rw (up, found, get_bet_by_id, other, admin),
          )
      | inr stranger ↦ inr (
          inl (
            bet,
            found,
            ground (arith, other),
            role_eq_other role stranger,
            rw (up, found, get_bet_by_id, other, stranger),
          ))
    ]
  ]
]
