-- ===== src/Auth/Tokens/Laws.antt =====
-- tokens.go and sqlite_tokens.go: which tokens are valid after the operations.
use text.Mathlib.TextEquality.{eq_iff}
use blazelog.Base.{
  ℕ, ◌+◌, ◌≡◌, refl, sym, ap, subst, ◌∙◌, inl, inr, String, Bool, true, false, Option, none, some,
  List, [], ◌∷◌, ltb, if◌then◌else◌, Bool-cases, Option-cases,
}
use blazelog.Base.Dict.{str_eq, str_eq_refl}
use blazelog.Access.{User}
use blazelog.Auth.Tokens.{
  RefreshToken, create_row, get_by_token_hash, revoked_since, revoke_by_token_hash, valid_for,
  expired_or_revoked, new_refresh_token, create_refresh_token, validate_refresh_token,
  rotate_refresh_token,
}

abbrev revoked_if : Bool → ℕ → Option RefreshToken → Option RefreshToken
revoked_if b now none = none
revoked_if b now (some t) = some (if b then revoked_since now t else t)

get-revoke_by_token_hash :
    (now : ℕ) (h other : String) (rows : List RefreshToken)
    → get_by_token_hash other (revoke_by_token_hash now h rows)
      ≡ revoked_if (str_eq h other) now (get_by_token_hash other rows)
unfolding get_by_token_hash revoke_by_token_hash
get-revoke_by_token_hash now h other [] = refl
get-revoke_by_token_hash now h other (t ∷ rest) =
    let later = get-revoke_by_token_hash now h other rest in
    elim (Bool-cases (str_eq t.token_hash h)) [
      | inl this ↦
          let same : t.token_hash ≡ h = (eq_iff t.token_hash h).0 this in
          elim (Bool-cases (str_eq t.token_hash other)) [
            | inl asked ↦
                let is : str_eq h other ≡ true = subst (λ x. str_eq x other ≡ true) same asked in
                rw this (rw asked (rw is refl))
            | inr another ↦ rw this (rw another later)
          ]
      | inr differs ↦ elim (Bool-cases (str_eq t.token_hash other)) [
        | inl asked ↦
            let same : t.token_hash ≡ other = (eq_iff t.token_hash other).0 asked in
            let is_not : str_eq h other ≡ false = elim (Bool-cases (str_eq h other)) [
              | inr e ↦ e
              | inl e ↦
                  let there : h ≡ t.token_hash = (eq_iff h other).0 e ∙ sym same in
                  let clash : str_eq t.token_hash h ≡ true =
                    subst (λ x. str_eq t.token_hash x ≡ true) (sym there)
                      (str_eq_refl t.token_hash) in
                  absurd (cc)
            ] in
            rw differs (rw asked (rw is_not refl))
        | inr another ↦ rw differs (rw another later)
      ]
    ]

get-create_row :
    (uuid h : String) (t : RefreshToken) (rows : List RefreshToken)
    → str_eq t.token_hash h ≡ false
    → get_by_token_hash h (create_row uuid t rows) ≡ get_by_token_hash h rows
unfolding get_by_token_hash create_row
get-create_row uuid h t [] e = elim (Bool-cases (str_eq t.id "")) [
  | inl unnamed ↦ rw unnamed (rw e refl)
  | inr named ↦ rw named (rw e refl)
]
get-create_row uuid h t (u ∷ rest) e = elim (Bool-cases (str_eq u.token_hash h)) [
  | inl this ↦ rw this refl
  | inr differs ↦ rw differs (get-create_row uuid h t rest e)
]

module _ (hash : String → String) (user_by_id : String → Option (Option User)) where
  not_valid :
      (rows : List RefreshToken) (ok : Bool) (now : ℕ) (plain : String) (user : User)
      → ((t : RefreshToken) → get_by_token_hash (hash plain) rows ≡ some t → t.revoked ≡ true)
      → validate_refresh_token hash user_by_id ok now plain rows ≡ valid_for user
      → ⊥
  unfolding validate_refresh_token
  not_valid rows true now plain user f e =
      elim (Option-cases (get_by_token_hash (hash plain) rows)) [
        | inl missing ↦ let e1 = rw missing at e in cc
        | inr (t, found) ↦
            let gone = f t found in let e1 = rw found at e in let e2 = rw gone at e1 in cc
      ]
  not_valid rows false now plain user f e = cc

  get-create_refresh_token :
      (ttl : ℕ) (random : Option String) (uuid : String) (creates : Bool) (old user_id : String)
      (later : ℕ) (rows : List RefreshToken)
      → ((plain : String) → random ≡ some plain → str_eq (hash plain) (hash old) ≡ false)
      → get_by_token_hash
          (hash old)
          (create_refresh_token hash ttl random uuid creates user_id later rows).1
        ≡ get_by_token_hash (hash old) rows
  unfolding create_refresh_token
  get-create_refresh_token ttl none uuid creates old user_id later rows other = refl
  get-create_refresh_token ttl (some plain) uuid true old user_id later rows other =
      get-create_row uuid (hash old) (new_refresh_token hash user_id ttl plain later) rows
        (other plain refl)
  get-create_refresh_token ttl (some plain) uuid false old user_id later rows other = refl

  -- After a token is rotated, its revocation being executed and the hash of the new token being another,
  -- it is never valid again in that table, whatever the database and the clock answer.
  pub rotate_refresh_token-revokes :
      (ttl : ℕ) (random : Option String) (uuid : String) (creates : Bool) (old user_id : String)
      (now later : ℕ) (rows : List RefreshToken) (ok : Bool) (t : ℕ) (user : User)
      → ((plain : String) → random ≡ some plain → str_eq (hash plain) (hash old) ≡ false)
      → validate_refresh_token hash user_by_id ok t old
          (rotate_refresh_token hash ttl true random uuid creates old user_id now later rows).1
        ≡ valid_for user
      → ⊥
  unfolding rotate_refresh_token
  rotate_refresh_token-revokes ttl random uuid creates old user_id now later rows ok t user other =
      let revoked = revoke_by_token_hash now (hash old) rows in
      not_valid (create_refresh_token hash ttl random uuid creates user_id later revoked).1 ok t old
        user
        (λ row found. gone (get_by_token_hash (hash old) rows) row (
          sym (
            get-create_refresh_token ttl random uuid creates old user_id later revoked other
            ∙ get-revoked)
          ∙ found))
    where
      get-revoked :
          get_by_token_hash (hash old) (revoke_by_token_hash now (hash old) rows)
          ≡ revoked_if true now (get_by_token_hash (hash old) rows)
      get-revoked =
          get-revoke_by_token_hash now (hash old) (hash old) rows
          ∙ ap (λ b. revoked_if b now (get_by_token_hash (hash old) rows)) (str_eq_refl (hash old))

      gone :
          (o : Option RefreshToken) (row : RefreshToken)
          → revoked_if true now o ≡ some row
          → row.revoked ≡ true
      gone none row e = absurd (cc)
      gone (some r) row e =
          let same : revoked_since now r ≡ row = cc in subst (λ x. x.revoked ≡ true) same refl

  -- A new token whose hash no row has is valid, for the user of its id, until it expires and no longer.
  create-validate :
      (ttl : ℕ) (plain uuid : String) (user_id : String) (now t : ℕ) (rows : List RefreshToken)
      (user : User)
      → get_by_token_hash (hash plain) rows ≡ none
      → user_by_id user_id ≡ some (some user)
      → validate_refresh_token hash user_by_id true t plain
          (create_refresh_token hash ttl (some plain) uuid true user_id now rows).1
        ≡ (if ltb (now + ttl) t then expired_or_revoked else valid_for user)
  unfolding validate_refresh_token create_refresh_token
  create-validate ttl plain uuid user_id now t rows user free known =
      rw (get-new rows free) (elim (Bool-cases (ltb (now + ttl) t)) [
        | inl late ↦ rw late refl
        | inr early ↦ rw early (rw known refl)
      ])
    where
      fresh : RefreshToken
      fresh = record (new_refresh_token hash user_id ttl plain now) { id = uuid }

      get-new :
          (rows : List RefreshToken)
          → get_by_token_hash (hash plain) rows ≡ none
          → get_by_token_hash
              (hash plain)
              (create_row uuid (new_refresh_token hash user_id ttl plain now) rows)
            ≡ some fresh
      get-new [] e = rw (str_eq_refl (hash plain)) refl
      get-new (r ∷ rest) e = elim (Bool-cases (str_eq r.token_hash (hash plain))) [
        | inl this ↦ let e1 = rw this at e in absurd (cc)
        | inr differs ↦ let e1 = rw differs at e in rw differs (get-new rest e1)
      ]
