-- ===== src/Core/Scope/Tests.antt =====
-- Scoped syncs, run.
use abracadabra.Common.{String, true, false, ◌≡◌, refl, some, List, [], ◌∷◌, ok, err}
use abracadabra.Common.Maps
use abracadabra.Common.Maps.{Map}
use abracadabra.Common.Texts.{trim}
use abracadabra.Core.Vault.{VarEntry, Project, Vault, empty_vault, var_at}
use abracadabra.Core.Scope.{
  assert_scope_names_allowed, clean_names, is_reserved, merge_scoped_projects, merge_scoped_loop,
  merge_scoped_project, merge_scoped_vars, merge_scoped_entry, entry_content_eq, refused,
}
use abracadabra.Core.Scope.Merge.{IsProjects, merge_scoped_projects-var_at}
use abracadabra.Common.Maps.{contains}

abbrev entry : String → VarEntry
entry v = record { value = v; secret = false; updated_at = 9 }

abbrev local : Vault
local = record empty_vault {
  projects =
      ("app", record { created_at = 1; vars = ("A", entry "1") ∷ ("B", entry "2") ∷ [] }) ∷ [];
}

abbrev incoming : Map Project
incoming =
    ("app", record { created_at = 2; vars = ("A", entry "5") ∷ ("C", entry "3") ∷ [] })
    ∷ ("web", record { created_at = 3; vars = [] })
    ∷ []

incoming-IsProjects : IsProjects incoming
unfolding Maps.get
incoming-IsProjects = ((refl, (refl, tt)), ((refl, (refl, tt)), (tt, tt)))

abbrev asked : List String
asked = " app" ∷ []

abbrev accepted : List String
accepted = "app" ∷ []

names_test : assert_scope_names_allowed (" app" ∷ "web" ∷ "app " ∷ []) ≡ ok ("app" ∷ "web" ∷ [])
unfolding assert_scope_names_allowed clean_names trim contains is_reserved
names_test = refl

refused_test : assert_scope_names_allowed ("app" ∷ "__abra_x" ∷ []) ≡ err (refused "__abra_x")
unfolding assert_scope_names_allowed clean_names trim contains is_reserved
refused_test = refl

merge_test :
    (merge_scoped_projects local incoming false).report.conflicts
    ≡ record { project = "app"; key = "A" } ∷ []
unfolding merge_scoped_projects merge_scoped_loop merge_scoped_project merge_scoped_vars
    merge_scoped_entry entry_content_eq Maps.get Maps.set
merge_test = refl

merge_scoped_projects-var_at_example :
    var_at (merge_scoped_projects local incoming true).merged "app" "A" ≡ some (entry "5")
unfolding Maps.get entry_content_eq
merge_scoped_projects-var_at_example =
    merge_scoped_projects-var_at local incoming true "app" "A" incoming-IsProjects
