-- ===== src/Web/Session/Lookup.antt =====
-- store.go: which sessions `Get` finds after the operations.
use blazelog.Base.{
  ℕ, ◌+◌, ◌≡◌, ◌≤◌, refl, ap, ◌∙◌, inl, inr, String, Bool, true, false, not, Option, none, some,
  ltb, ltb→lt, lt→ltb, if◌then◌else◌, arith, Bool-cases,
}
use blazelog.Base.Dict.{str_eq, lookup, kept, Distinct, lookup-insert, lookup-keep}
use blazelog.Web.Session.{
  Session, Store, evict, create_with_ttl, delete_by_user_id, cleanup, get, if_alive,
}

-- The session that was made is found until it expires; another id is found as it was after the eviction.
get-create :
    (id user_id username role other : String) (ttl now later t : ℕ) (st : Store)
    → get other t (create_with_ttl (some id) user_id username role ttl now later st).1 ≡ (
        if str_eq id other
        then if_alive t (create_with_ttl (some id) user_id username role ttl now later st).0
        else if_alive t (lookup other (evict st.sessions)))
unfolding get create_with_ttl
get-create id user_id username role other ttl now later t st =
    let session : Session = record {
      id = id;
      user_id = user_id;
      username = username;
      role = role;
      created_at = now;
      expires_at = later + ttl;
    } in
    let e = lookup-insert id other session (evict st.sessions) in
    rw e (by_key (str_eq id other) (some session) (lookup other (evict st.sessions)))
  where
    by_key :
        (b : Bool) (x y : Option Session)
        → if_alive t (if b then x else y) ≡ (if b then if_alive t x else if_alive t y)
    by_key true x y = refl
    by_key false x y = refl

-- A tick of cleanup at a time does not change what Get finds then or later.
get-cleanup :
    (id : String) (now t : ℕ) (st : Store)
    → Distinct st.sessions
    → now ≤ t
    → get id t (cleanup now st) ≡ get id t st
unfolding get cleanup
get-cleanup id now t st d le =
    ap (if_alive t) (lookup-keep (λ s. not (ltb s.expires_at now)) id st.sessions d)
    ∙ alive (lookup id st.sessions)
  where
    alive :
        (o : Option Session) → if_alive t (kept (λ s. not (ltb s.expires_at now)) o) ≡ if_alive t o
    alive none = refl
    alive (some s) = elim (Bool-cases (ltb s.expires_at now)) [
      | inl gone ↦
          let late : ltb s.expires_at t ≡ true = lt→ltb _ _ (omega (arith, ltb→lt _ _ gone)) in
          rw gone (rw late refl)
      | inr stays ↦ rw stays refl
    ]

-- After the sessions of a user are deleted, Get finds the sessions of the other users as before, and
-- none of his.
get-delete_by_user_id :
    (id user_id : String) (t : ℕ) (st : Store)
    → Distinct st.sessions
    → get id t (delete_by_user_id user_id st)
      ≡ kept (λ s. not (str_eq s.user_id user_id)) (get id t st)
unfolding get delete_by_user_id
get-delete_by_user_id id user_id t st d =
    ap (if_alive t) (lookup-keep (λ s. not (str_eq s.user_id user_id)) id st.sessions d)
    ∙ either (lookup id st.sessions)
  where
    either :
        (o : Option Session)
        → if_alive t (kept (λ s. not (str_eq s.user_id user_id)) o)
          ≡ kept (λ s. not (str_eq s.user_id user_id)) (if_alive t o)
    either none = refl
    either (some s) = elim (Bool-cases (str_eq s.user_id user_id)) [
      | inl his ↦ rw his (elim (Bool-cases (ltb s.expires_at t)) [
        | inl e ↦ rw e refl
        | inr e ↦ rw e (rw his refl)
      ])
      | inr other ↦ rw other (elim (Bool-cases (ltb s.expires_at t)) [
        | inl e ↦ rw e refl
        | inr e ↦ rw e (rw other refl)
      ])
    ]
