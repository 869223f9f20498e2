-- ===== src/Client/Requests.antt =====
-- What one call of the wrapper may send, and what it leaves in the store.
use bolt_bet.Base.{
  ◌≡◌, ◌≤◌, refl, inl, inr, Bool, true, false, ◌&&◌, not, Bool-cases, [], ◌∷◌, Option, none, some,
  is_some, if◌then◌else◌, arith, ◌==◌,
}
use bolt_bet.Base.Table.{length, count}
use bolt_bet.Crypto.{Text, truthy}
use bolt_bet.Client.{
  AuthUser, AuthState, Sent, original, refresh_call, Response, Network, Outcome, Tab, is_ok, retry,
  with_data, refreshed, answered, request,
}

-- The store agrees with itself: signed in just if there are a token and a user.
abbrev pub IsConsistent : AuthState → Type 0
IsConsistent a =
    (a.is_authenticated ≡ is_some a.access_token) × (is_some a.user ≡ is_some a.access_token)

abbrev pub is_refresh : Sent → Bool
is_refresh refresh_call = true
is_refresh (original token) = false

-- At most three fetches, at most one of them for a new token, and a consistent store.
abbrev pub IsBounded : Outcome × Tab → Type 0
IsBounded r = (length r.1.sent ≤ 3) × (count is_refresh r.1.sent ≤ 1) × IsConsistent r.1.auth

module _ (network : Network) (decode_token : Text → Option AuthUser) (skip_auth : Bool)
    (auth : AuthState) (h : IsConsistent auth) where
  abbrev asked : Option Text → Tab
  asked token = record { auth = auth; sent = refresh_call ∷ original token ∷ [] }

  retry-IsBounded :
      (token : Option Text) (new : Text) (user : Option AuthUser)
      → IsBounded (retry network decode_token new user (asked token))
  retry-IsBounded token new none = (ground arith, ground arith, h)
  retry-IsBounded token new (some user) = (ground arith, ground arith, (refl, refl))

  refreshed-IsBounded :
      (token : Option Text) (r : Option Response)
      → IsBounded (refreshed network decode_token r (asked token))
  refreshed-IsBounded token none = (ground arith, ground arith, h)
  refreshed-IsBounded token (some r) = elim (Bool-cases (is_ok r)) [
    | inr bad ↦ rw bad (ground arith, ground arith, (refl, refl))
    | inl fine ↦ rw fine (by_body r.body)
  ]
    where
      by_body : (body : Option Text) → IsBounded (with_data network decode_token body (asked token))
      by_body none = (ground arith, ground arith, h)
      by_body (some new) = retry-IsBounded token new (decode_token new)

  answered-IsBounded :
      (token : Option Text) (r : Option Response)
      → IsBounded (
          answered network decode_token skip_auth r
            (record { auth = auth; sent = original token ∷ [] }))
  answered-IsBounded token none = (ground arith, ground arith, h)
  answered-IsBounded token (some r) = elim (Bool-cases (r.status == 401 && not skip_auth)) [
    | inr other ↦ rw other (ground arith, ground arith, h)
    | inl denied ↦
        rw denied (refreshed-IsBounded token (network (refresh_call ∷ original token ∷ [])))
  ]

  -- Whatever the network replies, a call of the API client sends at most three requests, at most one
  -- of them for a new token, so that it never loops, and it leaves a store in which the user is
  -- signed in just if there are a token and a user, where the store was so before.
  pub request-IsBounded : IsBounded (request network decode_token skip_auth auth)
  unfolding request
  request-IsBounded =
      let token = if skip_auth then none else truthy auth.access_token in
      answered-IsBounded token (network (original token ∷ []))
