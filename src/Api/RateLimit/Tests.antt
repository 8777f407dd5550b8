-- ===== src/Api/RateLimit/Tests.antt =====
-- internal/api/middleware/ratelimit.go, on a proxy and two clients.
use blazelog.Base.{
  ℕ, ◌+◌, ◌≡◌, ◌<◌, ◌≤◌, ◌⊎◌, refl, inl, inr, String, Bool, true, false, not, Option, none, some,
  List, [], ◌∷◌, ltb, if◌then◌else◌, arith, Bool-cases, lt→ltb,
}
use blazelog.Base.Dict.{str_eq, lookup, insert, keep}
use blazelog.Api.RateLimit.{
  Net, Request, Rate, allow, cleanup, before_comma, direct_ip, is_trusted_proxy, any_contains,
  get_client_ip, is_request_secure, set_trusted_proxies,
}
use blazelog.Api.RateLimit.Address.{Named, get_client_ip_lem}
use blazelog.Api.RateLimit.Buckets.{
  Used, unused, used, Event, request, clean, Refills, answers, alone, answers-alone,
}

abbrev plain_net : Net String
plain_net = record {
  split_host_port = λ a. some a;
  is_ip = λ a. not (str_eq a "nonsense");
  network = λ a. if str_eq a "nonsense" then none else some a;
  contains = λ n a. str_eq n a;
  trim_space = λ s. s;
  equal_fold = λ s t. str_eq s t;
}

abbrev through_proxy : Request
through_proxy = record {
  remote_addr = "10.0.0.1";
  forwarded_for = "7.7.7.7,10.0.0.1";
  real_ip = "";
  forwarded_proto = "https";
  tls = false;
}

believed : get_client_ip plain_net ("10.0.0.1" ∷ []) through_proxy ≡ "7.7.7.7"
unfolding get_client_ip any_contains before_comma
believed = refl

ignored : get_client_ip plain_net ("10.0.0.2" ∷ []) through_proxy ≡ "10.0.0.1"
unfolding get_client_ip any_contains before_comma
ignored = refl

refused : set_trusted_proxies plain_net ("10.0.0.1" ∷ "nonsense" ∷ []) ≡ none
unfolding set_trusted_proxies
refused = refl

get_client_ip_lem_example :
    ((get_client_ip plain_net ("10.0.0.1" ∷ []) through_proxy ≡ direct_ip plain_net through_proxy)
      ⊎ ((is_trusted_proxy plain_net ("10.0.0.1" ∷ []) (direct_ip plain_net through_proxy) ≡ true)
          × Named plain_net through_proxy
              (get_client_ip plain_net ("10.0.0.1" ∷ []) through_proxy)))
    × (is_trusted_proxy plain_net ("10.0.0.1" ∷ []) (direct_ip plain_net through_proxy) ≡ false
        → (get_client_ip plain_net ("10.0.0.1" ∷ []) through_proxy
            ≡ direct_ip plain_net through_proxy)
          × (is_request_secure plain_net ("10.0.0.1" ∷ []) through_proxy ≡ through_proxy.tls))
get_client_ip_lem_example = get_client_ip_lem plain_net ("10.0.0.1" ∷ []) through_proxy

-- A bucket of one request, which is full again ten units of time after a request.
abbrev taken : Option ℕ → ℕ → Option ℕ × Bool
taken none now = (some now, true)
taken (some last) now = if ltb (last + 10) now then (some now, true) else (some last, false)

abbrev slow : Rate (Option ℕ)
slow = record { new_limiter = none; allow = taken }

abbrev Past : Option ℕ → ℕ → Type 0
Past none a = Unit {0}
Past (some l) a = l ≤ a

taken-Past : (o : Option ℕ) (t now : ℕ) → Past o t → t ≤ now → Past (taken o now).0 now
taken-Past none t now p le = omega arith
taken-Past (some l) t now p le = elim (Bool-cases (ltb (l + 10) now)) [
  | inl full ↦ rw full (omega arith)
  | inr empty ↦ rw empty (omega (arith, p))
]

Used-Past : (o : Option ℕ) (a : ℕ) → Used slow o a → Past o a
Used-Past _ _ (unused t) = tt
Used-Past _ _ (used l t now u le) = taken-Past l t now (Used-Past l t u) le

refills_at : (o : Option ℕ) (a b : ℕ) → Past o a → a + 10 < b → taken o b ≡ taken none b
refills_at none a b p late = refl
refills_at (some l) a b p late =
    let full : ltb (l + 10) b ≡ true = lt→ltb _ _ (omega (arith, p, late)) in rw full refl

refills : Refills slow 10
refills o a b u late = refills_at o a b (Used-Past o a u) late

abbrev events : List (ℕ × Event)
events =
    (1, request "eve")
    ∷ (2, request "bob")
    ∷ (20, clean)
    ∷ (21, request "eve")
    ∷ (22, request "eve")
    ∷ []

answered : answers slow "eve" 10 events [] ≡ true ∷ true ∷ false ∷ []
unfolding answers allow cleanup lookup insert keep
answered = refl

answers-alone_example : answers slow "eve" 10 events [] ≡ alone slow "eve" events none
answers-alone_example =
    answers-alone slow "eve" 10 0 events refills
      (omega arith, (omega arith, (omega arith, (omega arith, (omega arith, tt)))))
