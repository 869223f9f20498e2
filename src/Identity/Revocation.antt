-- ===== src/Identity/Revocation.antt =====
-- A refresh token that is shown twice, and a logout.
use bolt_bet.Base.{
  ◌≡◌, refl, ap, sym, ◌∙◌, subst, true, false, inl, inr, Bool-cases, Option, some, none, List, [],
  ◌∷◌, ◌++◌, ◌==◌, ==_iff, arith,
}
use bolt_bet.Base.Table.{find, update, find-taken, find-update_key, find_holds}
use bolt_bet.Crypto.{Text, Crypto, Config, Draw, split_colon, truthy, longer}
use bolt_bet.Model.Types.{Uuid}
use bolt_bet.Model.Entities.{RefreshToken, World}
use bolt_bet.Model.Action.{
  err, WhenOk, WhenOk-map, token_read, token_write, token_reused, token_revoked,
}
use bolt_bet.Identity.{Session, new_token, cookie_of, refresh, has_token_id, of_family}
use bolt_bet.Identity.Rotation.{
  IsShown, Rotated, refresh-Rotated, refresh-IsShown, check_token_used, check_token_revoked, spent,
  opened, banned,
}

-- What PostgreSQL and the printing of UUIDs promise: a printed UUID is read back, is not empty, and
-- has no colon in it.
pub record IsUuidText (crypto : Crypto) : Type 0 where
  pub read_back : (id : Uuid) → crypto.read_uuid (crypto.show_uuid id) ≡ some id
  pub no_colon : (id : Uuid) → split_colon (crypto.show_uuid id) ≡ none

split_colon-append :
    (s t : Text) → split_colon s ≡ none → split_colon (s ++ (b':' ∷ t)) ≡ some (s, t)
split_colon-append [] t h = refl
split_colon-append (c ∷ s) t h = elim (Bool-cases (c == b':')) [
  | inl colon ↦
      let first : Option (Text × Text) = some ([], s) in
      let clash : first ≡ none = rw colon at h in absurd (cc)
  | inr other ↦ rw other (rw (split_colon-append s t (shorter (split_colon s) (rw other at h))))
]
  where
    shorter : (o : Option (Text × Text)) → longer c o ≡ none → o ≡ none
    shorter none e = refl
    shorter (some p) e = absurd (cc)

truthy-append : (s t : Text) → truthy (some (s ++ (b':' ∷ t))) ≡ some (s ++ (b':' ∷ t))
truthy-append [] t = refl
truthy-append (c ∷ s) t = refl

-- A token whose family is banned is revoked.
banned-found :
    (crypto : Crypto) (config : Config) (d : Draw) (id family : Uuid) (w : World)
    (token : RefreshToken)
    → find (has_token_id id) w.refresh_tokens ≡ some token
    → of_family family token ≡ true
    → (t : RefreshToken) × (find (has_token_id id) (banned crypto config d family w).refresh_tokens
        ≡ some t)
      × (t.revoked ≡ true)
banned-found crypto config d id family w token found own = by_rows w.refresh_tokens found
  where
    by_rows :
        (rows : List RefreshToken)
        → find (has_token_id id) rows ≡ some token
        → (t : RefreshToken) × (find
              (has_token_id id)
              (update (of_family family) (λ row. record row { revoked = true }) rows)
            ≡ some t)
          × (t.revoked ≡ true)
    by_rows [] h = absurd (cc)
    by_rows (r ∷ rows) h = elim (Bool-cases (has_token_id id r)) [
      | inl hit ↦
          let e : some r ≡ some token = rw hit at h in
          let same : r ≡ token = ground arith in
          let in_family : of_family family r ≡ true =
            subst (λ x. of_family family x ≡ true) (sym same) own in
          rw (in_family, hit) (record r { revoked = true }, refl, refl)
      | inr miss ↦
          let (t, f, gone) = by_rows rows (rw miss at h) in
          elim (Bool-cases (of_family family r)) [
            | inl inside ↦ rw (inside, miss) (t, f, gone)
            | inr outside ↦ rw (outside, miss) (t, f, gone)
          ]
    ]

module _ (crypto : Crypto) (laws : IsUuidText crypto) (config : Config) (d : Draw) where
  -- The cookie of a new token names it, in a table where its id is found.
  pub cookie_of-IsShown :
      (w : World) (t : RefreshToken)
      → find (has_token_id d.token_id) w.refresh_tokens ≡ some t
      → IsShown crypto (some (cookie_of crypto config d)) w d.secret t
  cookie_of-IsShown w t found = record {
    cookie = cookie_of crypto config d;
    id_text = crypto.show_uuid d.token_id;
    id = d.token_id;
    present = truthy-append (crypto.show_uuid d.token_id) d.secret;
    parts = split_colon-append (crypto.show_uuid d.token_id) d.secret (laws.no_colon d.token_id);
    is_uuid = laws.read_back d.token_id;
    found = found;
  }

  module _ (raw : Option Text) (w : World) (session : Session) (w' : World)
      (r : Rotated crypto config d raw w session w') where
    abbrev used_token : RefreshToken
    used_token = record r.token { used = true }

    abbrev next : World
    next = opened crypto config d r.good.owner r.token.family_id (spent crypto config d r.token w)

    spent_found :
        find (has_token_id r.shown.id) (spent crypto config d r.token w).refresh_tokens
        ≡ some used_token
    spent_found =
        let e : r.token.id ≡ r.shown.id =
          (==_iff r.token.id r.shown.id).0
            (find_holds (has_token_id r.shown.id) w.refresh_tokens r.shown.found) in
        subst
          (λ k.
            find (has_token_id r.shown.id)
              (update (has_token_id k) (λ row. record row { used = true }) w.refresh_tokens)
            ≡ some used_token)
          (sym e)
          (find-update_key (has_token_id r.shown.id) (λ row. record row { used = true })
            w.refresh_tokens r.shown.found (λ y. refl))

    next_found : find (has_token_id r.shown.id) next.refresh_tokens ≡ some used_token
    next_found =
        let apart =
          find-taken (has_token_id d.token_id) (has_token_id r.shown.id)
            (spent crypto config d r.token w).refresh_tokens r.new_id spent_found in
        let own =
          find_holds (has_token_id r.shown.id) (spent crypto config d r.token w).refresh_tokens
            spent_found in
        let other : (d.token_id == r.shown.id) ≡ false = ground (arith, apart, own) in
        rw other spent_found

    IsShown-again : IsShown crypto raw next r.secret used_token
    IsShown-again = record {
      cookie = r.shown.cookie;
      id_text = r.shown.id_text;
      id = r.shown.id;
      present = r.shown.present;
      parts = r.shown.parts;
      is_uuid = r.shown.is_uuid;
      found = next_found;
    }

    module _ (d' d'' : Draw) (up : d'.fails token_read ≡ false) (up' : d'.fails token_write ≡ false)
        (up'' : d''.fails token_read ≡ false) where
      abbrev theft : World
      theft = banned crypto config d' r.token.family_id next

      replayed : refresh crypto config d' raw next ≡ (err token_reused, theft)
      replayed =
          refresh-IsShown crypto config d' raw next r.secret used_token up IsShown-again
          ∙ check_token_used crypto config d' r.secret used_token next up' r.good.not_revoked refl

      successor :
          refresh crypto config d'' (some (cookie_of crypto config d)) theft
          ≡ (err token_revoked, theft)
      successor =
          let (t, found, gone) =
            banned-found crypto config d' d.token_id r.token.family_id next
              (new_token crypto config d r.good.owner r.token.family_id) (ground arith)
              ((==_iff r.token.family_id r.token.family_id).1 refl) in
          refresh-IsShown crypto config d'' (some (cookie_of crypto config d)) theft d.secret t up''
            (cookie_of-IsShown theft t found)
          ∙ check_token_revoked crypto config d'' d.secret t theft gone

-- A refresh token that was exchanged and is shown again, by a thief or by its owner, is refused, and
-- its whole family is revoked: the token that it was exchanged for is then refused too. This is so
-- where the tokens can be read, and written by the second request.
pub refresh-replayed :
    (crypto : Crypto) (config : Config) (d d' d'' : Draw) (raw : Option Text) (w : World)
    → IsUuidText crypto
    → d'.fails token_read ≡ false
    → d'.fails token_write ≡ false
    → d''.fails token_read ≡ false
    → WhenOk
        (λ session w'.
          (w'' : World) × (refresh crypto config d' raw w' ≡ (err token_reused, w''))
          × (refresh crypto config d'' (some session.cookie) w'' ≡ (err token_revoked, w'')))
        (refresh crypto config d raw w)
refresh-replayed crypto config d d' d'' raw w laws up up' up'' =
    WhenOk-map
      (λ session w' r. (
        theft crypto laws config d raw w session w' r d' d'' up up' up'',
        ap (refresh crypto config d' raw) r.after
            ∙ replayed crypto laws config d raw w session w' r d' d'' up up' up'',
        ap
              (λ (c : Text).
                refresh crypto config d'' (some c)
                  (theft crypto laws config d raw w session w' r d' d'' up up' up''))
              r.answered
            ∙ successor crypto laws config d raw w session w' r d' d'' up up' up'',
      ))
      (refresh crypto config d raw w) (refresh-Rotated crypto config d raw w)
