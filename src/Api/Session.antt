-- ===== src/Api/Session.antt =====
-- src/api/session.ts: the sessions of the browser, by token. The token that a request carries is an
-- argument, `none` without a cookie (Cookies reads it); a new token is one, too.
use abracadabra.Common.{
  ℕ, ◌+◌, ◌<◌, leb, ltb, String, str_eq, eq_iff, Bool, true, false, ◌≡◌, ◌↔◌, refl, if◌then◌else◌,
  Option, none, some, get_or, [], ◌∷◌, arith,
}
use abracadabra.Common.Maps
use abracadabra.Common.Maps.{Map, has, IsMap, get-set_self, set-IsMap}

abbrev pub session_ttl_ms : ℕ
session_ttl_ms = 43200000

unfoldable pub prune_sessions : Map ℕ → (now : ℕ) → Map ℕ
prune_sessions [] now = []
prune_sessions ((token, expires_at) ∷ sessions) now =
    let rest = prune_sessions sessions now in
    if leb expires_at now then rest else (token, expires_at) ∷ rest

unfoldable pub is_authed : Map ℕ → Option String → (now : ℕ) → Map ℕ × Bool
is_authed sessions none now = (prune_sessions sessions now, false)
is_authed sessions (some token) now =
    let s = prune_sessions sessions now in
    (s, if str_eq token "" then false else ltb now (get_or (Maps.get token s) 0))

unfoldable pub issue_session : Map ℕ → (token : String) → (now : ℕ) → Map ℕ
issue_session sessions token now =
    Maps.set token (now + session_ttl_ms) (prune_sessions sessions now)

-- The handler answers with an empty cookie, and leaves the sessions as they are.
unfoldable pub logout : Map ℕ → Map ℕ
logout sessions = sessions

abbrev live : ℕ → Option ℕ → Option ℕ
live now none = none
live now (some e) = if leb e now then none else some e

prune_sessions-get :
    (k : String) (m : Map ℕ) (now : ℕ)
    → IsMap m
    → Maps.get k (prune_sessions m now) ≡ live now (Maps.get k m)
unfolding prune_sessions Maps.get
prune_sessions-get k [] now h = refl
prune_sessions-get k ((j, g) ∷ m) now h =
    ground (arith, eq_iff j k, prune_sessions-get j m now h.1, prune_sessions-get k m now h.1)

prune_sessions-IsMap : (m : Map ℕ) (now : ℕ) → IsMap m → IsMap (prune_sessions m now)
unfolding prune_sessions
prune_sessions-IsMap [] now h = tt
prune_sessions-IsMap ((j, g) ∷ m) now h =
    ground (arith, prune_sessions-get j m now h.1, prune_sessions-IsMap m now h.1)

-- A request is let in exactly when it carries a token that is not empty, of a session whose time
-- of expiry lies ahead.
pub is_authed_iff :
    (m : Map ℕ) (token : String) (now : ℕ)
    → IsMap m
    → ((is_authed m (some token) now).1 ≡ true)
      ↔ ((str_eq token "" ≡ false) × (now < get_or (Maps.get token m) 0))
unfolding is_authed
is_authed_iff m token now h = ground (arith, prune_sessions-get token m now h)

-- A session outlives its logout: after `logout` the token that was issued at time `t` lets requests
-- in until 12 hours after `t`, as if no one had logged out.
pub is_authed-logout :
    (m : Map ℕ) (token : String) (t now : ℕ)
    → IsMap m
    → str_eq token "" ≡ false
    → (is_authed (logout (issue_session m token t)) (some token) now).1
      ≡ ltb now (t + session_ttl_ms)
unfolding is_authed logout issue_session
is_authed-logout m token t now h e =
    let s = issue_session m token t in
    let v : IsMap s =
      set-IsMap token (t + session_ttl_ms) (prune_sessions m t) (prune_sessions-IsMap m t h) in
    let found : Maps.get token s ≡ some (t + session_ttl_ms) =
      get-set_self token (t + session_ttl_ms) (prune_sessions m t) in
    ground (arith, prune_sessions-get token s now v, found)
