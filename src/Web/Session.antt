-- ===== src/Web/Session.antt =====
-- internal/web/session/store.go: the sessions of the web interface, by their id. A new id stands for
-- what crypto/rand gives, none for its error; a time is handed in where the code asks the clock.
pub mod Capacity
pub mod Reach
pub mod Lookup
mod Tests
use blazelog.Base.{
  ℕ, ◌+◌, String, Bool, true, false, not, ◌||◌, Option, none, some, List, [], ◌∷◌, length, ltb, leb,
  if◌then◌else◌,
}
use blazelog.Base.Dict.{str_eq, lookup, insert, remove, keep}

abbrev pub max_sessions : ℕ
max_sessions = 10_000

pub record Session : Type 0 where
  pub id : String
  pub user_id : String
  pub username : String
  pub role : String
  pub created_at : ℕ
  pub expires_at : ℕ

-- `Store`, without its lock and its channel
pub record Store : Type 0 where
  pub sessions : List (String × Session)
  pub ttl : ℕ

unfoldable pub new_store : ℕ → Store
new_store ttl = record { sessions = []; ttl = ttl }

-- The loop that looks for the oldest session, from the oldest one so far.
abbrev pub oldest : List (String × Session) → String → ℕ → String
oldest [] id time = id
oldest ((k, s) ∷ rest) id time =
    if str_eq id "" || ltb s.created_at time
    then oldest rest k s.created_at
    else oldest rest id time

abbrev pub evict_one : List (String × Session) → List (String × Session)
evict_one sessions =
    let id = oldest sessions "" 0 in if not (str_eq id "") then remove id sessions else sessions

abbrev pub evict : List (String × Session) → List (String × Session)
evict sessions = if leb max_sessions (length sessions) then evict_one sessions else sessions

-- `CreateWithTTL`, which reads the clock twice
unfoldable pub create_with_ttl :
    Option String → String → String → String → ℕ → ℕ → ℕ → Store → Option Session × Store
create_with_ttl none user_id username role ttl now later st = (none, st)
create_with_ttl (some id) user_id username role ttl now later st =
    let session : Session = record {
      id = id;
      user_id = user_id;
      username = username;
      role = role;
      created_at = now;
      expires_at = later + ttl;
    } in
    (some session, record st { sessions = insert id session (evict st.sessions) })

unfoldable pub create :
    Option String → String → String → String → ℕ → ℕ → Store → Option Session × Store
unfolding create_with_ttl
create fresh user_id username role now later st =
    create_with_ttl fresh user_id username role st.ttl now later st

abbrev pub if_alive : ℕ → Option Session → Option Session
if_alive now none = none
if_alive now (some s) = if ltb s.expires_at now then none else some s

unfoldable pub get : String → ℕ → Store → Option Session
get id now st = if_alive now (lookup id st.sessions)

unfoldable pub delete : String → Store → Store
delete id st = record st { sessions = remove id st.sessions }

unfoldable pub delete_by_user_id : String → Store → Store
delete_by_user_id user_id st = record st {
  sessions = keep (λ s. not (str_eq s.user_id user_id)) st.sessions;
}

-- One tick of `cleanup`
unfoldable pub cleanup : ℕ → Store → Store
cleanup now st = record st { sessions = keep (λ s. not (ltb s.expires_at now)) st.sessions }
