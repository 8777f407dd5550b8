-- ===== src/Ssh/Pool.antt =====
-- internal/ssh/pool.go: the pool of SSH connections. A client is the number of its object; whether it is
-- connected is asked of `connected`, and `shut` lists the calls of its Close. A host's slice is its
-- backing array with a length, since `removeConnection` shifts the array that `range` is going over.
pub mod Upkeep
pub mod Scan
pub mod InUse
pub mod Bounds
pub mod Closing
mod Tests
use blazelog.Base.{
  ℕ, zero, suc, ◌+◌, ◌-◌, String, Bool, true, false, not, ◌&&◌, ◌||◌, Option, none, some, List, [],
  ◌∷◌, ◌++◌, length, take, drop, ltb, leb, ◌==◌, if◌then◌else◌,
}
use blazelog.Base.Int.{ℤ, or_default}
use blazelog.Base.Dict.{str_eq, lookup, insert}

-- `pooledConnection`
pub record Conn : Type 0 where
  pub client : ℕ
  pub last_used : ℕ
  pub in_use : Bool
  pub key : String

pub record Config : Type 0 where
  pub max_per_host : ℕ
  pub idle_timeout : ℕ
  pub health_check_interval : ℕ

-- The defaults that `NewPool` puts in
unfoldable pub new_config : ℤ → ℤ → ℤ → Config
new_config max_per_host idle_timeout interval = record {
  max_per_host = or_default max_per_host 5;
  idle_timeout = or_default idle_timeout 300_000_000_000;
  health_check_interval = or_default interval 30_000_000_000;
}

-- `clientKeys`, with `delete` and assignment
abbrev pub key_of : ℕ → List (ℕ × String) → Option String
key_of c [] = none
key_of c ((d, k) ∷ rest) = if d == c then some k else key_of c rest

abbrev pub drop_key : ℕ → List (ℕ × String) → List (ℕ × String)
drop_key c [] = []
drop_key c ((d, k) ∷ rest) =
    let others = drop_key c rest in if d == c then others else (d, k) ∷ others

abbrev pub drop_keys : List ℕ → List (ℕ × String) → List (ℕ × String)
drop_keys [] keys = keys
drop_keys (c ∷ rest) keys = drop_keys rest (drop_key c keys)

pub record Pool : Type 0 where
  pub config : Config
  pub clients : List (String × List Conn)
  pub client_keys : List (ℕ × String)
  pub closed : Bool
  -- Whether closeCh is closed, and whether it was closed a second time, which panics.
  pub close_ch_closed : Bool
  pub panicked : Bool
  pub shut : List ℕ

unfoldable pub new_pool : ℤ → ℤ → ℤ → Pool
unfolding new_config
new_pool max_per_host idle_timeout interval = record {
  config = new_config max_per_host idle_timeout interval;
  clients = [];
  client_keys = [];
  closed = false;
  close_ch_closed = false;
  panicked = false;
  shut = [];
}

abbrev pub conns_of : Option (List Conn) → List Conn
conns_of none = []
conns_of (some conns) = conns

-- The place of the client's connection in a slice, the length where there is none.
abbrev pub place : ℕ → List Conn → ℕ
place c [] = 0
place c (x ∷ rest) = let later = place c rest in if x.client == c then 0 else later + 1

-- `removeConnection` on the first `live` elements of the array: `append` moves what comes after one
-- place down, and leaves what stands behind the slice.
unfoldable pub remove_connection : List Conn → ℕ → ℕ → List Conn × ℕ
remove_connection array live c =
    let slice = take live array in
    let i = place c slice in
    if ltb i (length slice)
    then (take i array ++ drop (i + 1) slice ++ drop (live - 1) array, live - 1)
    else (array, live)

pub data Scanned : Type 0 where
  -- The idle connection that was found, the clients found dead, and the slice.
  healthy : ℕ → List ℕ → List Conn → Scanned
  nothing : List ℕ → List Conn → Scanned

abbrev pub take_use : ℕ → ℕ → List Conn → List Conn
take_use now c [] = []
take_use now c (x ∷ rest) =
    let others = take_use now c rest in
    (if x.client == c then record x { in_use = true; last_used = now } else x) ∷ others

module _ (now : ℕ) (connected : ℕ → Bool) where
  -- The body of the loop of `getFromHostPool`, at the first connection of the rest of the array: what
  -- the loop does after it, and after a dead connection was removed.
  abbrev pub inspect : List Conn → ℕ → List ℕ → Scanned → (ℕ → Scanned) → List Conn → Scanned
  inspect array live dead next next_removed [] = nothing dead (take live array)
  inspect array live dead next next_removed (conn ∷ _) =
      if not conn.in_use
      then (if connected conn.client
          then healthy conn.client dead (take_use now conn.client (take live array))
          else next_removed conn.client)
      else next

  -- The loop, with so many steps to go, at an index.
  unfoldable pub scan : ℕ → ℕ → List Conn → ℕ → List ℕ → Scanned
  unfolding remove_connection
  scan zero i array live dead = nothing dead (take live array)
  scan (suc n) i array live dead =
      inspect array live dead (scan n (i + 1) array live dead)
        (λ c.
          let removed = remove_connection array live c in
          scan n (i + 1) removed.0 removed.1 (dead ++ c ∷ []))
        (drop i array)

pub data Outcome : Type 0 where
  got : ℕ → Outcome
  pool_closed max_reached connect_failed : Outcome

abbrev pub conn_of : ℕ → ℕ → String → Conn
conn_of now c key = record { client = c; last_used = now; in_use = true; key = key }

abbrev pub without : ℕ → List Conn → List Conn
without c conns = let removed = remove_connection conns (length conns) c in take removed.1 removed.0

-- What a call leaves: the outcome, the clients found dead, the slice and the new client, if one was
-- connected.
pub record Served : Type 0 where
  pub outcome : Outcome
  pub dead : List ℕ
  pub conns : List Conn
  pub added : Option ℕ

-- `getFromHostPool` after its loop. `fresh` is the new client, and `connects` says whether its Connect
-- succeeds.
unfoldable pub after_scan : ℕ → ℕ → Bool → ℕ → String → Scanned → Served
unfolding remove_connection
after_scan max fresh connects now key (healthy c dead conns) = record {
  outcome = got c;
  dead = dead;
  conns = conns;
  added = none;
}
after_scan max fresh connects now key (nothing dead conns) =
    if leb max (length conns)
    then record { outcome = max_reached; dead = dead; conns = conns; added = none }
    else if connects
    then record {
      outcome = got fresh;
      dead = dead;
      conns = conns ++ conn_of now fresh key ∷ [];
      added = some fresh;
    }
    else record {
      outcome = connect_failed;
      dead = dead;
      conns = without fresh (conns ++ conn_of now fresh key ∷ []);
      added = none;
    }

unfoldable pub get_from_host_pool : ℕ → (ℕ → Bool) → ℕ → ℕ → Bool → String → List Conn → Served
unfolding scan after_scan
get_from_host_pool now connected max fresh connects key conns =
    after_scan max fresh connects now key
      (scan now connected (length conns) 0 conns (length conns) [])

abbrev pub add_key : Option ℕ → String → List (ℕ × String) → List (ℕ × String)
add_key none key keys = keys
add_key (some c) key keys = (c, key) ∷ keys

-- `Get`
unfoldable pub get : ℕ → (ℕ → Bool) → ℕ → Bool → String → Pool → Outcome × Pool
unfolding get_from_host_pool
get now connected fresh connects key p =
    if p.closed
    then (pool_closed, p)
    else let served =
        get_from_host_pool now connected p.config.max_per_host fresh connects key
          (conns_of (lookup key p.clients)) in
      (
        served.outcome,
        record p {
          clients = insert key served.conns p.clients;
          client_keys = add_key served.added key (drop_keys served.dead p.client_keys);
          shut = p.shut ++ served.dead;
        },
      )
