-- ===== src/Core/Scope.antt =====
-- src/core/sync-scope.ts: the sync of some projects only. A name is a text, so the tests of the
-- types at run time (Array.isArray, typeof) are left out, and so are the lines of the report.
pub mod Names
pub mod Merge
mod Tests
use text.Mathlib.Text.{starts_with}
use abracadabra.Common.{
  ℕ, String, str_eq, Bool, true, false, ◌&&◌, ◌||◌, not, ltb, if◌then◌else◌, Option, none, some,
  is_some, List, [], ◌∷◌, ◌++◌, length, Result, ok, err,
}
use abracadabra.Common.Maps
use abracadabra.Common.Maps.{Map, has, contains}
use abracadabra.Common.Texts.{trim}
use abracadabra.Core.Vault.{VarEntry, Project, Vault}

abbrev pub treasury_project : String
treasury_project = "__abra_treasury__"

abbrev pub reserved_project_prefix : String
reserved_project_prefix = "__abra_"

unfoldable pub is_reserved : String → Bool
is_reserved name = str_eq name treasury_project || starts_with name reserved_project_prefix

pub data ScopeError : Type 0 where
  no_name empty_name : ScopeError
  refused : String → ScopeError
  unknown_projects : List String → ScopeError

-- The loop of `assertScopeNamesAllowed`; `seen` and `cleaned` hold the same names.
unfoldable pub clean_names : List String → (cleaned : List String) → Result ScopeError (List String)
clean_names [] cleaned = ok cleaned
clean_names (raw ∷ names) cleaned =
    let name = trim raw in
    let rest =
      clean_names names (if contains name cleaned then cleaned else cleaned ++ name ∷ []) in
    if str_eq name "" then err empty_name else if is_reserved name then err (refused name) else rest

abbrev pub require_one : Result ScopeError (List String) → Result ScopeError (List String)
require_one (ok []) = err no_name
require_one r = r

unfoldable pub assert_scope_names_allowed : List String → Result ScopeError (List String)
assert_scope_names_allowed [] = err no_name
assert_scope_names_allowed (n ∷ ns) = require_one (clean_names (n ∷ ns) [])

unfoldable pub unknown : Map Project → List String → List String
unknown projects [] = []
unknown projects (n ∷ ns) =
    let rest = unknown projects ns in if has n projects then rest else n ∷ rest

abbrev pub check_known : Vault → Result ScopeError (List String) → Result ScopeError (List String)
check_known vault (err e) = err e
check_known vault (ok cleaned) = elim (unknown vault.projects cleaned) [
  | [] ↦ ok cleaned
  | n ∷ ns ↦ err (unknown_projects (n ∷ ns))
]

unfoldable pub validate_scope : Vault → List String → Result ScopeError (List String)
unfolding unknown
validate_scope vault names = check_known vault (assert_scope_names_allowed names)

unfoldable pub extract_loop :
    Map Project → List String → Map Project → Result ScopeError (Map Project)
extract_loop projects [] out = ok out
extract_loop projects (name ∷ names) out = elim (Maps.get name projects) [
  | none ↦ err (unknown_projects (name ∷ []))
  | some p ↦ extract_loop projects names (Maps.set name p out)
]

unfoldable pub extract_scoped_projects : Vault → List String → Result ScopeError (Map Project)
extract_scoped_projects vault names = extract_loop vault.projects names []

unfoldable pub entry_content_eq : VarEntry → VarEntry → Bool
entry_content_eq a b = str_eq a.value b.value && same a.secret b.secret
  where
    same : Bool → Bool → Bool
    same true true = true
    same false false = true
    same _ _ = false

pub record Place : Type 0 where
  pub project : String
  pub key : String

pub record ScopedMergeReport : Type 0 where
  pub new_projects : List (String × ℕ)
  pub added : List Place
  pub changed : List Place
  pub conflicts : List Place

-- The turn of the inner loop for one variable.
unfoldable pub merge_scoped_entry :
    (theirs : Bool) (project key : String)
    → VarEntry
    → Map VarEntry × ScopedMergeReport
    → Map VarEntry × ScopedMergeReport
merge_scoped_entry theirs project key incoming (vars, report) =
    let place : Place = record { project = project; key = key } in
    elim (Maps.get key vars) [
      | none ↦ (Maps.set key incoming vars, record report { added = report.added ++ place ∷ [] })
      | some mine ↦
          if entry_content_eq mine incoming
          then (vars, report)
          else if theirs
          then (
            Maps.set key incoming vars,
            record report { changed = report.changed ++ place ∷ [] },
          )
          else (vars, record report { conflicts = report.conflicts ++ place ∷ [] })
    ]

unfoldable pub merge_scoped_vars :
    (theirs : Bool) (project : String)
    → Map VarEntry
    → Map VarEntry × ScopedMergeReport
    → Map VarEntry × ScopedMergeReport
merge_scoped_vars theirs project [] acc = acc
merge_scoped_vars theirs project ((key, e) ∷ entries) acc =
    merge_scoped_vars theirs project entries (merge_scoped_entry theirs project key e acc)

-- The turn of the outer loop for one project.
unfoldable pub merge_scoped_project :
    (theirs : Bool) (name : String)
    → Project
    → Map Project × ScopedMergeReport
    → Map Project × ScopedMergeReport
merge_scoped_project theirs name incoming (projects, report) = elim (Maps.get name projects) [
  | none ↦ (
    Maps.set name incoming projects,
    record report { new_projects = report.new_projects ++ (name, length incoming.vars) ∷ [] },
  )
  | some mine ↦
      let r = merge_scoped_vars theirs name incoming.vars (mine.vars, report) in
      (Maps.set name (record { created_at = mine.created_at; vars = r.0 }) projects, r.1)
]

unfoldable pub merge_scoped_loop :
    (theirs : Bool)
    → Map Project
    → Map Project × ScopedMergeReport
    → Map Project × ScopedMergeReport
merge_scoped_loop theirs [] acc = acc
merge_scoped_loop theirs ((name, p) ∷ incoming) acc =
    merge_scoped_loop theirs incoming (merge_scoped_project theirs name p acc)

pub record ScopedMergeResult : Type 0 where
  pub merged : Vault
  pub report : ScopedMergeReport
  pub changed : Bool

unfoldable pub merge_scoped_projects : Vault → Map Project → (theirs : Bool) → ScopedMergeResult
merge_scoped_projects local incoming theirs =
    let r =
      merge_scoped_loop theirs incoming
        (local.projects, record { new_projects = []; added = []; changed = []; conflicts = [] }) in
    record {
      merged = record local { projects = r.0 };
      report = r.1;
      changed =
          ltb 0 (length r.1.new_projects) || ltb 0 (length r.1.added) || ltb 0 (length r.1.changed);
    }
