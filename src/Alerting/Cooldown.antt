-- ===== src/Alerting/Cooldown.antt =====
-- internal/alerting/engine.go, `CooldownManager`: until when no further alert of a rule is raised.
use blazelog.Base.{ℕ, ◌+◌, ◌-◌, String, Bool, false, Option, none, some, List, [], ltb}
use blazelog.Base.Dict.{lookup, insert, remove}

-- `map[string]time.Time`
abbrev pub Cooldowns : Type 0
Cooldowns = List (String × ℕ)

-- `now.Before(expiresAt)`, for a rule that has an entry
abbrev pub before : Option ℕ → ℕ → Bool
before none now = false
before (some expires_at) now = ltb now expires_at

unfoldable pub is_on_cooldown : Cooldowns → String → ℕ → Bool
is_on_cooldown m name now = before (lookup name m) now

unfoldable pub set_cooldown : Cooldowns → String → ℕ → ℕ → Cooldowns
set_cooldown m name duration now = insert name (now + duration) m

unfoldable pub clear_cooldown : Cooldowns → String → Cooldowns
clear_cooldown m name = remove name m

unfoldable pub clear_all_cooldowns : Cooldowns → Cooldowns
clear_all_cooldowns m = []

abbrev pub left_of : Option ℕ → ℕ → ℕ
left_of none now = 0
left_of (some expires_at) now = expires_at - now

unfoldable pub get_cooldown_remaining : Cooldowns → String → ℕ → ℕ
get_cooldown_remaining m name now = left_of (lookup name m) now
