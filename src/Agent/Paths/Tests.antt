-- ===== src/Agent/Paths/Tests.antt =====
-- The settings of the agent, run.
use abracadabra.Common.{◌≤◌, String, str_eq, true, false, ◌≡◌, ◌↔◌, refl, none, some, if◌then◌else◌}
use abracadabra.Common.Texts.{trim}
use abracadabra.Agent.Paths.{
  Seconds, thousandths, not_finite, variable, is_agent_enabled, resolve_max_age_seconds, IsFraction,
  resolve_max_age_seconds_lem, Stats,
}

abbrev to_number : String → Seconds
to_number s = if str_eq s "0.5" then thousandths 500 else not_finite

enabled_test : is_agent_enabled (some " 1 ") "darwin" none ≡ true
unfolding is_agent_enabled trim
enabled_test = refl

-- Half a second switches the max age off.
half_test : resolve_max_age_seconds to_number (some "0.5") ≡ 0
unfolding resolve_max_age_seconds trim
half_test = refl

resolve_max_age_seconds_lem_example :
    (resolve_max_age_seconds to_number (some "0.5") ≤ 28800)
    × ((resolve_max_age_seconds to_number (some "0.5") ≡ 0) ↔ (
        (str_eq (variable (some "0.5")) "" ≡ false)
        × IsFraction to_number (to_number (variable (some "0.5")))))
resolve_max_age_seconds_lem_example = resolve_max_age_seconds_lem to_number (some "0.5")

abbrev run_dir : Stats
run_dir = record { is_symbolic_link = false; is_directory = true; uid = 1000; mode = 16832 }
