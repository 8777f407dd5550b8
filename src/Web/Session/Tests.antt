-- ===== src/Web/Session/Tests.antt =====
-- internal/web/session/store.go, on two sessions.
use blazelog.Base.{refl, String, some, [], ◌∷◌}
use blazelog.Base.Dict.{lookup, Distinct}
use blazelog.Web.Session.{Session, Store, create_with_ttl, new_store}
use blazelog.Web.Session.Reach.{Reachable, fresh, next, creates, Sound, Reachable-Sound}

abbrev session_of : String → String → Session
session_of id user_id = record {
  id = id;
  user_id = user_id;
  username = user_id;
  role = "viewer";
  created_at = 5;
  expires_at = 105;
}

abbrev two : Store
two = record {
  sessions = ("a", session_of "a" "eve") ∷ ("b", session_of "b" "bob") ∷ [];
  ttl = 100;
}

two_Distinct : Distinct two.sessions
unfolding lookup
two_Distinct = (refl, (refl, tt))

abbrev made : Store
made = (create_with_ttl (some "a") "eve" "eve" "viewer" 100 5 5 (new_store 100)).1

made-Reachable : Reachable made
made-Reachable =
    next (new_store 100) made (fresh 100)
      (creates "a" "eve" "eve" "viewer" 100 5 5 (new_store 100) refl)

Reachable-Sound_example : Sound made.sessions
Reachable-Sound_example = Reachable-Sound made made-Reachable
