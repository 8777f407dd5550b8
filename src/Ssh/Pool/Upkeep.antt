-- ===== src/Ssh/Pool/Upkeep.antt =====
-- pool.go: `Release`, `Close`, `cleanup` and `Stats`.
use blazelog.Base.{
  ℕ, ◌+◌, ◌-◌, String, Bool, true, false, not, ◌&&◌, ◌||◌, Option, none, some, List, [], ◌∷◌, ◌++◌,
  ltb, ◌==◌, if◌then◌else◌,
}
use blazelog.Base.Dict.{lookup, insert}
use blazelog.Ssh.Pool.{Conn, Pool, key_of, drop_keys}

abbrev pub free : ℕ → ℕ → List Conn → List Conn
free now c [] = []
free now c (x ∷ rest) =
    let others = free now c rest in
    if x.client == c then record x { in_use = false; last_used = now } ∷ rest else x ∷ others

abbrev pub holds : ℕ → List Conn → Bool
holds c [] = false
holds c (x ∷ rest) = x.client == c || holds c rest

abbrev pub close_client : ℕ → Pool → Pool
close_client c p = record p { shut = p.shut ++ c ∷ [] }

abbrev pub release_to : ℕ → ℕ → String → Option (List Conn) → Pool → Pool
release_to now c key none p = close_client c p
release_to now c key (some conns) p =
    if holds c conns
    then record p { clients = insert key (free now c conns) p.clients }
    else close_client c p

abbrev pub release_by_key : ℕ → ℕ → Option String → Pool → Pool
release_by_key now c none p = close_client c p
release_by_key now c (some key) p = release_to now c key (lookup key p.clients) p

-- `Release`; no client is nil.
unfoldable pub release : ℕ → Option ℕ → Pool → Pool
release now none p = p
release now (some c) p =
    if p.closed then close_client c p else release_by_key now c (key_of c p.client_keys) p

abbrev pub clients_in : List Conn → List ℕ
clients_in [] = []
clients_in (x ∷ rest) = x.client ∷ clients_in rest

abbrev pub all_clients : List (String × List Conn) → List ℕ
all_clients [] = []
all_clients ((k, conns) ∷ rest) = clients_in conns ++ all_clients rest

-- `Close`
unfoldable pub close : Pool → Pool
close p = if p.closed then p else record p {
  closed = true;
  close_ch_closed = true;
  panicked = p.panicked || p.close_ch_closed;
  clients = [];
  client_keys = [];
  shut = p.shut ++ all_clients p.clients;
}

-- The connections that `cleanup` leaves.
module _ (now : ℕ) (connected : ℕ → Bool) (timeout : ℕ) where
  abbrev pub is_stale : Conn → Bool
  is_stale x =
      if not x.in_use && ltb timeout (now - x.last_used)
      then true
      else if not x.in_use && not (connected x.client)
      then true
      else false

  abbrev pub remaining : List Conn → List Conn
  remaining [] = []
  remaining (x ∷ rest) = let others = remaining rest in if is_stale x then others else x ∷ others

  abbrev pub stale : List Conn → List ℕ
  stale [] = []
  stale (x ∷ rest) = let others = stale rest in if is_stale x then x.client ∷ others else others

  abbrev pub remaining_all : List (String × List Conn) → List (String × List Conn)
  remaining_all [] = []
  remaining_all ((k, conns) ∷ rest) = (k, remaining conns) ∷ remaining_all rest

  abbrev pub stale_all : List (String × List Conn) → List ℕ
  stale_all [] = []
  stale_all ((k, conns) ∷ rest) = stale conns ++ stale_all rest

-- `cleanup`
unfoldable pub cleanup : ℕ → (ℕ → Bool) → Pool → Pool
cleanup now connected p =
    if p.closed
    then p
    else let gone = stale_all now connected p.config.idle_timeout p.clients in
      record p {
        clients = remaining_all now connected p.config.idle_timeout p.clients;
        client_keys = drop_keys gone p.client_keys;
        shut = p.shut ++ gone;
      }

pub record HostStats : Type 0 where
  pub total : ℕ
  pub used : ℕ
  pub idle : ℕ

abbrev pub host_stats : List Conn → HostStats
host_stats [] = record { total = 0; used = 0; idle = 0 }
host_stats (x ∷ rest) =
    let s = host_stats rest in
    if x.in_use
    then record { total = s.total + 1; used = s.used + 1; idle = s.idle }
    else record { total = s.total + 1; used = s.used; idle = s.idle + 1 }

abbrev pub hosts_stats : List (String × List Conn) → List (String × HostStats) × ℕ
hosts_stats [] = ([], 0)
hosts_stats ((k, conns) ∷ rest) =
    let others = hosts_stats rest in
    ((k, host_stats conns) ∷ others.0, (host_stats conns).total + others.1)

-- `Stats`: those of the hosts, and the number of connections.
unfoldable pub stats : Pool → List (String × HostStats) × ℕ
stats p = hosts_stats p.clients
