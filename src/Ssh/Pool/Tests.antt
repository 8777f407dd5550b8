-- ===== src/Ssh/Pool/Tests.antt =====
-- internal/ssh/pool.go, on a host with a few connections.
use blazelog.Base.{
  ℕ, zero, suc, ◌≡◌, ◌≢◌, refl, arith, Bool, true, false, some, List, [], ◌∷◌, ◌⊎◌, inl, inr,
}
use blazelog.Ssh.Pool.{Conn, Pool, Config, got, get_from_host_pool, conn_of}
use blazelog.Ssh.Pool.Scan.{In, get_from_host_pool-idle}
use blazelog.Ssh.Pool.InUse.{get_from_host_pool-In}
use blazelog.Ssh.Pool.Bounds.{Operation, gets, releases, cleans, closes, run, Bounded, run-Bounded}
use blazelog.Base.Int.{pos}
use blazelog.Ssh.Pool.{new_pool}
use blazelog.Ssh.Pool.Closing.{Ended, run-Ended}

abbrev idle_conn : ℕ → Conn
idle_conn c = record { client = c; last_used = 10; in_use = false; key = "web1" }

abbrev busy : Conn
busy = conn_of 10 3 "web1"

abbrev two : ℕ
two = 2

-- Clients 2 and up are connected; 1 is dead.
abbrev up : ℕ → Bool
up zero = false
up (suc zero) = false
up (suc (suc n)) = true

-- After the dead connection of client 1 is removed, the idle connection of client 2 is passed over, and a
-- new connection is made.
idle_skipped :
    (get_from_host_pool 20 up 5 9 true "web1" (idle_conn 1 ∷ idle_conn 2 ∷ busy ∷ [])).outcome
    ≡ got 9
unfolding get_from_host_pool
idle_skipped = refl

idle_reused : (get_from_host_pool 20 up 5 9 true "web1" (busy ∷ idle_conn 2 ∷ [])).outcome ≡ got 2
unfolding get_from_host_pool
idle_reused = refl

get_from_host_pool-idle_example :
    (two ≡ 9)
    ⊎ ((x : Conn) × In x (busy ∷ idle_conn 2 ∷ [])
        × (x.client ≡ 2)
        × (x.in_use ≡ false)
        × (up 2 ≡ true))
get_from_host_pool-idle_example =
    get_from_host_pool-idle 20 up 5 9 true "web1" (busy ∷ idle_conn 2 ∷ []) 2 idle_reused

three_is_new : busy.client ≢ 9
three_is_new = λ e. omega arith

get_from_host_pool-In_example :
    In busy (get_from_host_pool 20 up 5 9 true "web1" (idle_conn 1 ∷ busy ∷ [])).conns
get_from_host_pool-In_example =
    get_from_host_pool-In 20 up busy refl 5 9 true "web1" (idle_conn 1 ∷ busy ∷ [])
      ((λ e. absurd (omega arith)), ((λ e. refl), tt)) three_is_new (inr (inl refl))

abbrev config : Config
config = record { max_per_host = 2; idle_timeout = 100; health_check_interval = 30 }

abbrev pool : Pool
pool = record {
  config = config;
  clients = ("web1", busy ∷ idle_conn 2 ∷ []) ∷ [];
  client_keys = (3, "web1") ∷ (2, "web1") ∷ [];
  closed = false;
  close_ch_closed = false;
  panicked = false;
  shut = [];
}

abbrev operations : List Operation
operations = releases 20 (some 3) ∷ gets 30 up 9 true "web2" ∷ cleans 40 up ∷ closes ∷ []

run-Bounded_example : Bounded config (run operations pool)
run-Bounded_example = run-Bounded config operations pool (refl, (omega arith, tt))

run-Ended_example : Ended (run operations (new_pool (pos 2) (pos 100) (pos 30)))
run-Ended_example = run-Ended operations (pos 2) (pos 100) (pos 30)
