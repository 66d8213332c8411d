-- ===== src/Api/Grants.antt =====
-- src/api/grants.ts and src/mcp/grants.ts: the grants of a running server, by app and project. The
-- two files differ in the names only. The time is an argument, and a TTL is a whole number.
use Prim.Native.String.{◌++◌ as join}
use abracadabra.Common.{
  ℕ, ◌+◌, ◌-◌, ◌*◌, ◌/◌, leb, String, str_eq, eq_iff, ◌≡◌, refl, if◌then◌else◌, Option, none, some,
  List, [], ◌∷◌, length, arith, inl, inr, Bool-cases,
}
use abracadabra.Common.Maps
use abracadabra.Common.Maps.{Map, has, IsMap, get-set, set-IsMap}

pub record AppGrant : Type 0 where
  pub app_id : String
  pub project : String
  pub expires_at : ℕ

unfoldable pub key : String → String → String
key app_id project = join app_id (join "\0" project)

unfoldable pub prune_grants : Map AppGrant → (now : ℕ) → Map AppGrant
prune_grants [] now = []
prune_grants ((k, g) ∷ grants) now =
    let rest = prune_grants grants now in if leb g.expires_at now then rest else (k, g) ∷ rest

unfoldable pub find_grant :
    Map AppGrant → (app_id project : String) → (now : ℕ) → Map AppGrant × Option AppGrant
find_grant grants app_id project now =
    let s = prune_grants grants now in (s, Maps.get (key app_id project) s)

unfoldable pub issue_grant :
    Map AppGrant → (app_id project : String) → (ttl_seconds now : ℕ) → Map AppGrant × AppGrant
issue_grant grants app_id project ttl_seconds now =
    let g : AppGrant = record {
      app_id = app_id;
      project = project;
      expires_at = now + ttl_seconds * 1000;
    } in
    (Maps.set (key app_id project) g grants, g)

remaining : Map AppGrant → ℕ → List (AppGrant × ℕ)
remaining [] now = []
remaining ((k, g) ∷ grants) now = (g, (g.expires_at - now + 500) / 1000) ∷ remaining grants now

unfoldable pub list_grants : Map AppGrant → (now : ℕ) → Map AppGrant × List (AppGrant × ℕ)
unfolding remaining
list_grants grants now = let s = prune_grants grants now in (s, remaining s now)

unfoldable pub revoke_all : Map AppGrant → Map AppGrant × ℕ
revoke_all grants = ([], length grants)

-- A grant that has not expired.
abbrev pub live : ℕ → Option AppGrant → Option AppGrant
live now none = none
live now (some g) = if leb g.expires_at now then none else some g

prune_grants-get :
    (k : String) (m : Map AppGrant) (now : ℕ)
    → IsMap m
    → Maps.get k (prune_grants m now) ≡ live now (Maps.get k m)
unfolding prune_grants Maps.get
prune_grants-get k [] now h = refl
prune_grants-get k ((j, g) ∷ m) now h =
    ground (arith, eq_iff j k, prune_grants-get j m now h.1, prune_grants-get k m now h.1)

-- A grant that is issued is found until its TTL is over and not later, and the grants of other
-- keys are found as before.
pub find-issue :
    (m : Map AppGrant) (a p b q : String) (ttl t now : ℕ)
    → IsMap m
    → (find_grant (issue_grant m a p ttl t).0 b q now).1 ≡ (
        if str_eq (key a p) (key b q)
        then live now (some (issue_grant m a p ttl t).1)
        else (find_grant m b q now).1)
unfolding find_grant issue_grant
find-issue m a p b q ttl t now h =
    rw
      (
        prune_grants-get (key b q) (issue_grant m a p ttl t).0 now (set-IsMap (key a p) _ m h),
        prune_grants-get (key b q) m now h,
      )
      (rw (get-set (key a p) (key b q) _ m)
        (elim (Bool-cases (str_eq (key a p) (key b q))) [ inl e ↦ rw e refl | inr e ↦ rw e refl ]))
