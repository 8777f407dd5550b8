-- ===== src/Api/RateLimit.antt =====
-- internal/api/middleware/ratelimit.go: the address a request counts for, and a token bucket per key.
pub mod Buckets
pub mod Address
mod Tests
use Prim.Native.Char.{Char, code}
use blazelog.Base.{
  ℕ, ◌-◌, String, Bool, true, false, not, ◌&&◌, ◌||◌, Option, none, some, List, [], ◌∷◌, ltb, ◌==◌,
  if◌then◌else◌,
}
use blazelog.Base.Dict.{str_eq, lookup, insert, keep}

-- The package net with strings.TrimSpace and EqualFold: the host of an address, addresses in text, and
-- the networks that are parsed from an address or a range. `network` is ParseCIDR, and behind it the
-- network of a single address.
pub record Net (Network : Type 0) : Type 0 where
  pub split_host_port : String → Option String
  pub is_ip : String → Bool
  pub network : String → Option Network
  pub contains : Network → String → Bool
  pub trim_space : String → String
  pub equal_fold : String → String → Bool

-- What the middleware reads of a request.
pub record Request : Type 0 where
  pub remote_addr : String
  pub forwarded_for : String
  pub real_ip : String
  pub forwarded_proto : String
  pub tls : Bool

-- The text before the first comma, the first of `strings.Split(s, ",")`.
unfoldable pub before_comma : String → String
before_comma String.[] = ""
before_comma (String.◌∷◌ d s) = if code d == b',' then "" else String.◌∷◌ d (before_comma s)

module _ {Network : Type 0} (net : Net Network) where
  abbrev pub with_network : Option Network → Option (List Network) → Option (List Network)
  with_network none parsed = none
  with_network (some n) none = none
  with_network (some n) (some rest) = some (n ∷ rest)

  -- `SetTrustedProxies`: none is the error
  unfoldable pub set_trusted_proxies : List String → Option (List Network)
  set_trusted_proxies [] = some []
  set_trusted_proxies (p ∷ proxies) = with_network (net.network p) (set_trusted_proxies proxies)

  unfoldable pub any_contains : String → List Network → Bool
  any_contains ip [] = false
  any_contains ip (n ∷ rest) = net.contains n ip || any_contains ip rest

  abbrev pub is_trusted_proxy : List Network → String → Bool
  is_trusted_proxy [] ip = false
  is_trusted_proxy (n ∷ rest) ip = if not (net.is_ip ip) then false else any_contains ip (n ∷ rest)

  abbrev pub direct_ip : Request → String
  direct_ip r = elim (net.split_host_port r.remote_addr) [ none ↦ r.remote_addr | some host ↦ host ]

  abbrev pub from_real_ip : Request → String → String
  from_real_ip r direct =
      let address = net.trim_space r.real_ip in
      if not (str_eq r.real_ip "") && net.is_ip address then address else direct

  abbrev pub from_headers : Request → String → String
  from_headers r direct =
      let client = net.trim_space (before_comma r.forwarded_for) in
      if not (str_eq r.forwarded_for "") && net.is_ip client then client else from_real_ip r direct

  -- `getClientIP`
  unfoldable pub get_client_ip : List Network → Request → String
  get_client_ip proxies r =
      let direct = direct_ip r in
      if is_trusted_proxy proxies direct then from_headers r direct else direct

  -- `IsRequestSecure`
  unfoldable pub is_request_secure : List Network → Request → Bool
  is_request_secure proxies r =
      if r.tls
      then true
      else if not (is_trusted_proxy proxies (direct_ip r))
      then false
      else net.equal_fold r.forwarded_proto "https"

-- The package golang.org/x/time/rate: a new limiter, and what it says at a time.
pub record Rate (Limiter : Type 0) : Type 0 where
  pub new_limiter : Limiter
  pub allow : Limiter → ℕ → Limiter × Bool

pub record Entry (Limiter : Type 0) : Type 0 where
  pub limiter : Limiter
  pub last_access : ℕ

module _ {Limiter : Type 0} (rate : Rate Limiter) where
  -- The limiter that is stored, or a new one.
  abbrev pub limiter_of : Option (Entry Limiter) → Limiter
  limiter_of none = rate.new_limiter
  limiter_of (some e) = e.limiter

  -- `Allow`, with one reading of the clock
  unfoldable pub allow :
      ℕ → String → List (String × Entry Limiter) → List (String × Entry Limiter) × Bool
  allow now key limiters =
      let answer = rate.allow (limiter_of (lookup key limiters)) now in
      (insert key (record { limiter = answer.0; last_access = now }) limiters, answer.1)

  -- `cleanup`
  unfoldable pub cleanup : ℕ → ℕ → List (String × Entry Limiter) → List (String × Entry Limiter)
  cleanup window now limiters = keep (λ e. not (ltb e.last_access (now - window))) limiters

-- The key of `RateLimitByUser`.
abbrev pub user_key : String → String → String
user_key user_id ip = if str_eq user_id "" then ip else user_id

module _ {Network Limiter : Type 0} (net : Net Network) (rate : Rate Limiter)
    (proxies : List Network) where
  -- `RateLimitByIP` and `RateLimitByUser`: whether the request goes on to the handler behind
  abbrev pub rate_limit_by_ip :
      ℕ → Request → List (String × Entry Limiter) → List (String × Entry Limiter) × Bool
  rate_limit_by_ip now r limiters = allow rate now (get_client_ip net proxies r) limiters

  abbrev pub rate_limit_by_user :
      ℕ → String → Request → List (String × Entry Limiter) → List (String × Entry Limiter) × Bool
  rate_limit_by_user now user_id r limiters =
      allow rate now (user_key user_id (get_client_ip net proxies r)) limiters
