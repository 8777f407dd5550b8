-- ===== src/Web/Session/Reach.antt =====
-- store.go: what holds of the sessions after any sequence of operations.
use blazelog.Base.{
  ℕ, ◌≡◌, ◌≤◌, ◌<◌, sym, subst, inl, inr, String, Bool, false, not, none, some, List, [], ◌∷◌,
  length, ltb, leb, arith, Bool-cases,
}
use blazelog.Base.Dict.{
  str_eq, insert, remove, keep, Distinct, insert-Distinct, remove-Distinct, keep-Distinct,
}
use blazelog.Web.Session.{
  Session, Store, max_sessions, evict, create_with_ttl, delete, delete_by_user_id, cleanup,
  new_store,
}
use blazelog.Web.Session.Capacity.{
  Named, evict_one_lem, length-remove, remove-shorter, length-insert, length-keep, remove-Named,
  insert-Named, keep-Named,
}

pub data Step : Store → Store → Type 0 where
  creates :
      (id user_id username role : String) (ttl now later : ℕ) (st : Store)
      → str_eq id "" ≡ false
      → Step st (create_with_ttl (some id) user_id username role ttl now later st).1
  refuses :
      (user_id username role : String) (ttl now later : ℕ) (st : Store)
      → Step st (create_with_ttl none user_id username role ttl now later st).1
  deletes : (id : String) (st : Store) → Step st (delete id st)
  deletes_user : (user_id : String) (st : Store) → Step st (delete_by_user_id user_id st)
  cleans : (now : ℕ) (st : Store) → Step st (cleanup now st)

-- What `NewStore` can come to.
pub data Reachable : Store → Type 0 where
  fresh : (ttl : ℕ) → Reachable (new_store ttl)
  next : (st st' : Store) → Reachable st → Step st st' → Reachable st'

abbrev pub Sound : List (String × Session) → Type 0
Sound m = (length m ≤ max_sessions) × Distinct m × Named m

abbrev Room : List (String × Session) → Type 0
Room m = (length m < max_sessions) × Distinct m × Named m

evict-Room : (m : List (String × Session)) → Sound m → Room (evict m)
evict-Room [] h = (omega arith, tt, tt)
evict-Room (p ∷ m) h = elim (Bool-cases (leb max_sessions (length (p ∷ m)))) [
  | inr below ↦ rw below (ground (arith, below), h.1, h.2)
  | inl full ↦
      let gone = evict_one_lem p m h.2 in
      let same : evict (p ∷ m) ≡ remove gone.0 (p ∷ m) = rw full gone.3 in
      subst Room (sym same) (
        omega (arith, remove-shorter gone.0 gone.1 (p ∷ m) gone.2),
        remove-Distinct gone.0 (p ∷ m) h.1,
        remove-Named gone.0 (p ∷ m) h.2,
      )
]

insert-Sound :
    (id : String) (s : Session) (m : List (String × Session))
    → str_eq id "" ≡ false
    → Room m
    → Sound (insert id s m)
insert-Sound id s m e r =
    (omega (arith, length-insert id s m), insert-Distinct id s m r.1, insert-Named id s m e r.2)

keep-Sound : (p : Session → Bool) (m : List (String × Session)) → Sound m → Sound (keep p m)
keep-Sound p m h = (omega (arith, length-keep p m), keep-Distinct p m h.1, keep-Named p m h.2)

Step-Sound : (st st' : Store) → Step st st' → Sound st.sessions → Sound st'.sessions
unfolding create_with_ttl delete delete_by_user_id cleanup
Step-Sound _ _ (creates id user_id username role ttl now later st e) h =
    insert-Sound id _ (evict st.sessions) e (evict-Room st.sessions h)
Step-Sound _ _ (refuses user_id username role ttl now later st) h = h
Step-Sound _ _ (deletes id st) h = (
  omega (arith, length-remove id st.sessions),
  remove-Distinct id st.sessions h.1,
  remove-Named id st.sessions h.2,
)
Step-Sound _ _ (deletes_user user_id st) h =
    keep-Sound (λ s. not (str_eq s.user_id user_id)) st.sessions h
Step-Sound _ _ (cleans now st) h = keep-Sound (λ s. not (ltb s.expires_at now)) st.sessions h

-- After any sequence of operations there are at most 10,000 sessions, no id stands twice, and none is empty.
pub Reachable-Sound : (st : Store) → Reachable st → Sound st.sessions
unfolding new_store
Reachable-Sound _ (fresh ttl) = (omega arith, tt, tt)
Reachable-Sound _ (next st st' r step) = Step-Sound st st' step (Reachable-Sound st r)
