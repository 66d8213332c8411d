-- ===== src/Agent/Grants/Tests.antt =====
-- Runs of src/agent/grants.ts, and each theorem about it at a concrete input.
use abracadabra.Common.{ℕ, true, false, ◌≡◌, ◌↔◌, refl, some, List, [], ◌∷◌, ok, err}
use abracadabra.Common.Maps
use abracadabra.Common.Numbers.{nat}
use abracadabra.Common.Texts.{trim}
use abracadabra.Agent.Grants
use abracadabra.Agent.Grants.{
  GrantCaller, Grant, GrantStore, bad_ttl, empty_store, matches, prune_loop, check_loop,
  arm_prune_timer, next_expiry_from, prune_expired,
}
use abracadabra.Agent.Grants.Invariant.{IsStore, empty_store-IsStore, add-IsStore}
use abracadabra.Agent.Grants.Check.{Names, Fits, check_iff}
use abracadabra.Agent.Grants.Timer.{GrantCall, fire, run, IsTimed, run-IsTimed}

grants_run : Unit {0}
unfolding Grants.add Grants.check Grants.revoke Grants.list prune_expired prune_loop check_loop
    arm_prune_timer next_expiry_from matches Maps.set Maps.get Maps.delete trim
grants_run = tt

abbrev node : GrantCaller
node = record { exe = "/usr/bin/node"; dev = nat 1; ino = nat 42 }

abbrev other_node : GrantCaller
other_node = record node { ino = nat 43 }

abbrev an_hour : Grant
an_hour = record {
  id = "a1";
  project = "web";
  caller = node;
  created_at = 1000;
  expires_at = 3601000;
}

abbrev one_grant : GrantStore
one_grant = (Grants.add empty_store " web " node (nat 3600) 1000 "a1").0

add_test : (Grants.add empty_store " web " node (nat 3600) 1000 "a1").1 ≡ ok an_hour
unfolding grants_run
add_test = refl

add_short : (Grants.add empty_store "web" node (nat 59) 1000 "a1").1 ≡ err bad_ttl
unfolding grants_run
add_short = refl

check_tests :
    ((Grants.check one_grant "web" node 3600999).1.remaining_ms ≡ some 1)
    × ((Grants.check one_grant "web" node 3601000).1.granted ≡ false)
    × ((Grants.check one_grant "web" other_node 2000).1.granted ≡ false)
    × ((Grants.check one_grant "api" node 2000).1.granted ≡ false)
    × (one_grant.prune_timer ≡ some 3601000)
unfolding grants_run
check_tests = (refl, refl, refl, refl, refl)

one_grant-IsStore : IsStore one_grant
one_grant-IsStore = add-IsStore empty_store " web " node (nat 3600) 1000 "a1" empty_store-IsStore

check_iff_example :
    (((Grants.check one_grant "web" node 2000).1.granted ≡ true)
      ↔ Fits "web" node 2000 one_grant.grants)
    × ((Grants.check one_grant "web" node 2000).1.granted ≡ true
        → Names "web" node 2000 one_grant.grants (Grants.check one_grant "web" node 2000).1)
check_iff_example = check_iff one_grant "web" node 2000 one_grant-IsStore

abbrev calls : List (ℕ × GrantCall)
calls =
    (0, GrantCall.add "web" node (nat 60) "a1")
    ∷ (10, GrantCall.add "web" node (nat 90) "b2")
    ∷ (60000, fire)
    ∷ []

run-IsTimed_example :
    IsStore (run empty_store 1000 calls).0
    × IsTimed (run empty_store 1000 calls).1 (run empty_store 1000 calls).0
run-IsTimed_example = run-IsTimed 1000 calls
