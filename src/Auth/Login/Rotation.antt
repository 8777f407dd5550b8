-- ===== src/Auth/Login/Rotation.antt =====
-- handler.go, `Refresh` and `Logout`: a refresh token that was exchanged or given back is refused.
use blazelog.Base.{
  ℕ, ◌≡◌, refl, sym, ap, subst, ◌∙◌, inl, inr, String, Bool, true, false, Option, none, some, List,
  Option-cases,
}
use blazelog.Base.Dict.{str_eq}
use blazelog.Access.{User}
use blazelog.Auth.Tokens.{
  RefreshToken, Validation, valid_for, lookup_failed, token_not_found, expired_or_revoked,
  user_lookup_failed, user_not_found, validate_refresh_token, revoke_refresh_token,
  rotate_refresh_token,
}
use blazelog.Auth.Tokens.Laws.{rotate_refresh_token-revokes}
use blazelog.Auth.Login.{
  Services, State, Readings, unauthorized, ok, no_content, refresh, logout, renew, answer,
}

module _ (s : Services) (token : String) (given : str_eq token "" ≡ false) where
  -- The hash of the token that a request makes is another one.
  abbrev pub Another : Readings → Type 0
  Another r =
      (plain : String) → r.random ≡ some plain → str_eq (s.hash plain) (s.hash token) ≡ false

  abbrev pub Invalid : State → Type 0
  Invalid st =
      (found : Bool) (now : ℕ) (user : User)
      → validate_refresh_token s.hash s.user_by_id found now token st.tokens ≡ valid_for user
      → ⊥

  renew-unauthorized :
      (v : Validation) (r : Readings) (st : State)
      → ((user : User) → v ≡ valid_for user → ⊥)
      → renew s token v r st ≡ (unauthorized, st)
  renew-unauthorized (valid_for user) r st f = absurd (f user refl)
  renew-unauthorized lookup_failed r st f = refl
  renew-unauthorized token_not_found r st f = refl
  renew-unauthorized expired_or_revoked r st f = refl
  renew-unauthorized user_lookup_failed r st f = refl
  renew-unauthorized user_not_found r st f = refl

  refresh-Invalid :
      (r : Readings) (st : State) → Invalid st → refresh s (some token) r st ≡ (unauthorized, st)
  unfolding refresh
  refresh-Invalid r st f = rw given (
      renew-unauthorized
        (validate_refresh_token s.hash s.user_by_id r.finds r.at_tokens token st.tokens) r st
        (λ user. f r.finds r.at_tokens user))

  answer_tokens :
      (access : String) (p : Option String × List RefreshToken) (st : State)
      → (answer s access p st).1.tokens ≡ p.1
  answer_tokens access (none, rows) st = refl
  answer_tokens access (some refreshed, rows) st = refl

  renew-Invalid :
      (v : Validation) (r : Readings) (st : State) (access refreshed : String)
      → r.revokes ≡ true
      → Another r
      → (renew s token v r st).0 ≡ ok access refreshed
      → Invalid (renew s token v r st).1
  renew-Invalid (valid_for user) r st access refreshed revokes other e =
      elim (Option-cases (s.access_token user)) [
        | inl broken ↦ let e1 = rw (broken, renew) at e in absurd (cc)
        | inr (made, signed) ↦
            rw (signed, renew)
              (λ found now owner valid.
                rotate_refresh_token-revokes s.hash s.user_by_id s.refresh_ttl r.random r.uuid
                  r.creates token user.id r.at_tokens r.at_tokens st.tokens found now owner other
                  (subst
                    (λ rows.
                      validate_refresh_token s.hash s.user_by_id found now token rows
                      ≡ valid_for owner)
                    (answer_tokens made _ st
                      ∙ ap
                          (λ b.
                            (rotate_refresh_token s.hash s.refresh_ttl b r.random r.uuid r.creates
                              token user.id r.at_tokens r.at_tokens st.tokens).1)
                          revokes)
                    valid))
      ]
  renew-Invalid lookup_failed r st access refreshed revokes other e = absurd (cc)
  renew-Invalid token_not_found r st access refreshed revokes other e = absurd (cc)
  renew-Invalid expired_or_revoked r st access refreshed revokes other e = absurd (cc)
  renew-Invalid user_lookup_failed r st access refreshed revokes other e = absurd (cc)
  renew-Invalid user_not_found r st access refreshed revokes other e = absurd (cc)

  refresh-renew :
      (r : Readings) (st : State)
      → refresh s (some token) r st
        ≡ renew s token
            (validate_refresh_token s.hash s.user_by_id r.finds r.at_tokens token st.tokens)
            r
            st
  unfolding refresh
  refresh-renew r st = rw given refl

  -- When Refresh has exchanged a token, its revocation being executed and the new token's hash being
  -- another, a second Refresh with the same token is refused and changes nothing, at any time.
  pub refresh_once :
      (r again : Readings) (st : State) (access refreshed : String)
      → r.revokes ≡ true
      → Another r
      → (refresh s (some token) r st).0 ≡ ok access refreshed
      → refresh s (some token) again (refresh s (some token) r st).1
        ≡ (unauthorized, (refresh s (some token) r st).1)
  refresh_once r again st access refreshed revokes other e =
      let v = validate_refresh_token s.hash s.user_by_id r.finds r.at_tokens token st.tokens in
      let step = refresh-renew r st in
      refresh-Invalid again (refresh s (some token) r st).1 (
        subst (λ x. Invalid x.1) (sym step)
          (renew-Invalid v r st access refreshed revokes other
            (subst (λ x. x.0 ≡ ok access refreshed) step e)))

  revoke-Invalid :
      (st : State) (now : ℕ)
      → Invalid (record st { tokens = revoke_refresh_token s.hash true now token st.tokens })
  unfolding rotate_refresh_token revoke_refresh_token
  revoke-Invalid st now found t user e =
      rotate_refresh_token-revokes s.hash s.user_by_id 0 none "" true token "" now now st.tokens
        found t user (λ plain none_is. absurd (cc)) e

  -- When Logout has revoked a token, Refresh with it is refused and changes nothing, at any time.
  logout-refresh :
      (r again : Readings) (st : State)
      → r.revokes ≡ true
      → ((logout s (some token) r st).0 ≡ no_content)
        × (refresh s (some token) again (logout s (some token) r st).1
            ≡ (unauthorized, (logout s (some token) r st).1))
  unfolding logout
  logout-refresh r again st revokes = rw given (
      rw revokes (
        refl,
        refresh-Invalid again
            (record st { tokens = revoke_refresh_token s.hash true r.at_tokens token st.tokens })
            (revoke-Invalid st r.at_tokens),
      ))
