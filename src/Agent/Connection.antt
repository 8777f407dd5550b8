-- ===== src/Agent/Connection.antt =====
-- internal/agent/connmgr.go, with the counter of backoff.go: the connection to the server and its states.
-- A client is the number of its object; what the network and the context do is handed in, try by try.
pub mod Retries
pub mod Changes
pub mod Closed
mod Tests
use blazelog.Base.{
  ℕ, ◌+◌, String, Bool, true, false, not, ◌&&◌, Option, none, some, List, [], ◌∷◌, ◌++◌, ltb, leb,
  if◌then◌else◌,
}

pub data ConnState : Type 0 where
  disconnected connecting registering connected reconnecting : ConnState

abbrev pub same_state : ConnState → ConnState → Bool
same_state disconnected disconnected = true
same_state connecting connecting = true
same_state registering registering = true
same_state connected connected = true
same_state reconnecting reconnecting = true
same_state _ _ = false

-- `ConnManager`: `attempt` is the backoff's counter, `pending` whether reconnectCh holds a signal,
-- `changes` lists the calls of onStateChange, `shut` those of a client's Close, and `greeted` and
-- `parted` count those of onConnected and onDisconnected.
pub record Manager : Type 0 where
  pub max_retries : ℕ
  pub state : ConnState
  pub closed : Bool
  pub client : Option ℕ
  pub agent_id : String
  pub attempt : ℕ
  pub pending : Bool
  pub changes : List ConnState
  pub shut : List ℕ
  pub greeted : ℕ
  pub parted : ℕ

unfoldable pub new_manager : ℕ → Manager
new_manager max_retries = record {
  max_retries = max_retries;
  state = disconnected;
  closed = false;
  client = none;
  agent_id = "";
  attempt = 0;
  pending = false;
  changes = [];
  shut = [];
  greeted = 0;
  parted = 0;
}

abbrev pub set_state : ConnState → Manager → Manager
set_state s m = record m {
  state = s;
  changes = if not (same_state m.state s) then m.changes ++ s ∷ [] else m.changes;
}

unfoldable pub is_connected : Manager → Bool
is_connected m = same_state m.state connected

-- How a try of `doConnect` goes: where it ends, with the client that was made and the agent's id.
pub data Try : Type 0 where
  cancelled_first no_client : Try
  cancelled_before_register register_failed cancelled_before_stream stream_failed : ℕ → Try
  succeeds : ℕ → String → Try

abbrev pub shut_client : ℕ → Manager → Manager
shut_client c m = record m { shut = m.shut ++ c ∷ [] }

-- `doConnect`: whether it succeeds
unfoldable pub do_connect : Try → Manager → Bool × Manager
do_connect cancelled_first m = (false, m)
do_connect no_client m = (false, m)
do_connect (cancelled_before_register c) m = (false, shut_client c m)
do_connect (register_failed c) m = (false, shut_client c (set_state registering m))
do_connect (cancelled_before_stream c) m = (false, shut_client c (set_state registering m))
do_connect (stream_failed c) m = (false, shut_client c (set_state registering m))
do_connect (succeeds c id) m =
    (true, record (set_state registering m) { client = some c; agent_id = id })

-- One pass of the loop of `Connect`: whether the context is done before it, the try, and whether the
-- context is done before the delay is over.
pub record Round : Type 0 where
  pub done_before : Bool
  pub trial : Try
  pub done_waiting : Bool

pub data Outcome : Type 0 where
  established cancelled retries_exceeded : Outcome
  -- The passes are used up before the loop has ended.
  still_trying : Outcome

abbrev pub finish : Outcome → Manager → Outcome × Manager
finish o m = (o, set_state disconnected m)

abbrev pub welcome : Manager → Manager
welcome m =
    let up = set_state connected (record m { attempt = 0 }) in
    record up { greeted = up.greeted + 1 }

-- The loop of `Connect` after so many failed attempts.
unfoldable pub attempts_from : ℕ → List Round → Manager → Outcome × Manager
unfolding do_connect
attempts_from attempts [] m = (still_trying, m)
attempts_from attempts (r ∷ rest) m =
    let tried = do_connect r.trial m in
    let waiting = record tried.1 { attempt = tried.1.attempt + 1 } in
    let next = attempts_from (attempts + 1) rest waiting in
    if r.done_before
    then finish cancelled m
    else if tried.0
    then (established, welcome tried.1)
    else if ltb 0 m.max_retries && leb m.max_retries (attempts + 1)
    then finish retries_exceeded tried.1
    else if r.done_waiting
    then finish cancelled waiting
    else next

-- `Connect`
unfoldable pub connect : List Round → Manager → Outcome × Manager
unfolding attempts_from
connect rounds m = attempts_from 0 rounds (set_state connecting m)

unfoldable pub trigger_reconnect : Manager → Manager
trigger_reconnect m = record m { pending = true }

abbrev pub shut_current : Option ℕ → Manager → Manager
shut_current none m = m
shut_current (some c) m = record (shut_client c m) { client = none }

-- `handleReconnect`
unfoldable pub handle_reconnect : List Round → Manager → Outcome × Manager
unfolding connect
handle_reconnect rounds m =
    let off = shut_current m.client (set_state reconnecting m) in
    connect rounds (record off { parted = off.parted + 1 })

-- The case of reconnectCh in `RunReconnectLoop`
unfoldable pub take_signal : List Round → Manager → Manager
unfolding handle_reconnect
take_signal rounds m =
    if m.pending then (handle_reconnect rounds (record m { pending = false })).1 else m

abbrev pub shut_last : Option ℕ → Manager → Manager
shut_last none m = m
shut_last (some c) m = shut_client c m

-- `Close`
unfoldable pub close : Manager → Manager
close m =
    if m.closed
    then m
    else let off = set_state disconnected (record m { closed = true }) in shut_last off.client off
