-- ===== src/Api/RateLimit/Address.antt =====
-- ratelimit.go, `getClientIP`: whose headers are believed.
use blazelog.Base.{
  ◌≡◌, ◌⊎◌, refl, inl, inr, String, Bool, true, false, not, ◌&&◌, List, if◌then◌else◌, Bool-cases,
}
use blazelog.Base.Dict.{str_eq}
use blazelog.Api.RateLimit.{
  Net, Request, before_comma, is_trusted_proxy, direct_ip, from_real_ip, from_headers,
  get_client_ip, is_request_secure,
}

named_or :
    (present valid : Bool) (P : String → Type 0) (named other : String)
    → (valid ≡ true → P named)
    → P other
    → P (if present && valid then named else other)
named_or true true P named other y n = y refl
named_or true false P named other y n = n
named_or false v P named other y n = n

-- The address is one, and the first of X-Forwarded-For or the one in X-Real-IP.
abbrev pub Named : {Network : Type 0} → Net Network → Request → String → Type 0
Named net r ip =
    (net.is_ip ip ≡ true)
    × ((ip ≡ net.trim_space (before_comma r.forwarded_for)) ⊎ (ip ≡ net.trim_space r.real_ip))

-- It is the address that the headers name, or they name none.
abbrev Believed : {Network : Type 0} → Net Network → Request → String → String → Type 0
Believed net r direct ip = (ip ≡ direct) ⊎ Named net r ip

from_headers-Believed :
    {Network : Type 0} (net : Net Network) (r : Request) (direct : String)
    → Believed net r direct (from_headers net r direct)
from_headers-Believed net r direct =
    let client = net.trim_space (before_comma r.forwarded_for) in
    let address = net.trim_space r.real_ip in
    named_or (not (str_eq r.forwarded_for "")) (net.is_ip client) (Believed net r direct) client
      (from_real_ip net r direct) (λ e. inr (e, inl refl))
      (named_or (not (str_eq r.real_ip "")) (net.is_ip address) (Believed net r direct) address
        direct (λ e. inr (e, inr refl)) (inl refl))

true_or_false : (b : Bool) → (if b then true else false) ≡ b
true_or_false true = refl
true_or_false false = refl

-- The address a request counts for is the one it comes from, or the request comes from a trusted proxy
-- and it is an address that stands first in X-Forwarded-For, or in X-Real-IP. A request that comes from no trusted proxy counts for the
-- address it comes from whatever its headers are, and it is secure only when it came over TLS.
pub get_client_ip_lem :
    {Network : Type 0} (net : Net Network) (proxies : List Network) (r : Request)
    → ((get_client_ip net proxies r ≡ direct_ip net r)
        ⊎ ((is_trusted_proxy net proxies (direct_ip net r) ≡ true)
            × Named net r (get_client_ip net proxies r)))
      × (is_trusted_proxy net proxies (direct_ip net r) ≡ false
          → (get_client_ip net proxies r ≡ direct_ip net r)
            × (is_request_secure net proxies r ≡ r.tls))
unfolding get_client_ip is_request_secure
get_client_ip_lem net proxies r =
    elim (Bool-cases (is_trusted_proxy net proxies (direct_ip net r))) [
      | inl trusted ↦
          let named = from_headers-Believed net r (direct_ip net r) in
          rw trusted
            (elim named [ inl same ↦ inl same | inr valid ↦ inr (refl, valid) ], λ h. absurd (cc))
      | inr untrusted ↦ rw untrusted (inl refl, λ h. (refl, true_or_false r.tls))
    ]
