-- ===== src/Api/Tests.antt =====
-- Grants and sessions of the servers, run.
use abracadabra.Common.{ℕ, true, ◌≡◌, refl, some, [], ◌∷◌}
use abracadabra.Common.Maps
use abracadabra.Common.Maps.{Map}
use abracadabra.Api.Grants.{key, find_grant, issue_grant, prune_grants}
use abracadabra.Api.Session.{is_authed, issue_session, logout, is_authed-logout}

find_test :
    (find_grant (issue_grant [] "app" "web" 60 1000).0 "app" "web" 60999).1
    ≡ some (record { app_id = "app"; project = "web"; expires_at = 61000 })
unfolding find_grant issue_grant prune_grants key Maps.get Maps.set
find_test = refl

abbrev sessions : Map ℕ
sessions = ("tok", 5000) ∷ []

is_authed-logout_example :
    (is_authed (logout (issue_session sessions "new" 1000)) (some "new") 2000).1 ≡ true
unfolding Maps.get
is_authed-logout_example = is_authed-logout sessions "new" 1000 2000 (refl, tt) refl
