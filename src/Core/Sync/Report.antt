-- ===== src/Core/Sync/Report.antt =====
-- The lines that a merge reports, as values: the loops of mergeProjects and mergeConnections, of which
-- Projects and Connections model the rest. applyLanSync writes nothing for an empty report.

use mathlib.Core.Path.{subst}
use abracadabra.Common.{
  ℕ, String, str_eq, eq_iff, true, false, ◌||◌, ◌≡◌, refl, ap, ◌∙◌, if◌then◌else◌, Option, none,
  some, is_some, get_or, List, [], ◌∷◌, ◌++◌, length, arith, inl, inr, Bool-cases, ℕ_discrete,
}
use abracadabra.Common.Maps
use abracadabra.Common.Maps.{Map, has, contains, contains-keys}
use abracadabra.Core.Vault.{VarEntry, Project, Connection, Vault, String-discrete, decided, vars_of}
use abracadabra.Core.Sync.{Resolutions, Side, here, peer, key_set, merge_var_maps}
use abracadabra.Core.Sync.Vars.{key_set-contains, append-contains}
use abracadabra.Core.Sync.Projects.{sort, sort-contains, outcome}
use abracadabra.Core.Sync.Whole.{base_projects, three_way_merge, merged-projects}

pub data ReportLine : Type 0 where
  pushed pulled : String → ReportLine
  was_deleted : String → Side → ReportLine
  -- how many variables there were, and how many there are
  vars_changed : String → (before after : ℕ) → ReportLine
  connection_synced : String → ReportLine

unfoldable pub vars-discrete : Discrete (Map VarEntry)
unfolding ℕ_discrete String-discrete
vars-discrete = hlevel (ℕ_discrete, String-discrete)

-- `JSON.stringify(vars) !== JSON.stringify(o.vars)`
unfoldable pub vars_line : String → (vars old : Map VarEntry) → List ReportLine
unfolding vars-discrete
vars_line name vars old =
    if decided (vars-discrete vars old)
    then []
    else vars_changed name (length old) (length vars) ∷ []

unfoldable pub project_lines : Resolutions → String → (o t b : Option Project) → List ReportLine
unfolding vars_line
project_lines resolutions name (some o) (some t) b =
    vars_line name (merge_var_maps name o.vars t.vars (vars_of b) resolutions []).0 o.vars
project_lines resolutions name (some o) none none = pushed name ∷ []
project_lines resolutions name (some o) none (some b) = was_deleted name peer ∷ []
project_lines resolutions name none (some t) none = pulled name ∷ []
project_lines resolutions name none (some t) (some b) = was_deleted name here ∷ []
project_lines resolutions name none none b = []

-- Where both machines have the connection nothing is reported.
unfoldable pub connection_lines : String → (o t : Option Connection) → List ReportLine
connection_lines name (some o) (some t) = []
connection_lines name (some o) none = connection_synced name ∷ []
connection_lines name none (some t) = connection_synced name ∷ []
connection_lines name none none = []

abbrev pub connection_line_at : (ours theirs : Vault) → String → List ReportLine
connection_line_at ours theirs name =
    connection_lines name (Maps.get name (get_or ours.connections []))
      (Maps.get name (get_or theirs.connections []))

-- The lines of each turn of a loop, in order.
abbrev pub lines_of : (String → List ReportLine) → List String → List ReportLine
lines_of lines [] = []
lines_of lines (name ∷ names) = lines name ++ lines_of lines names

abbrev pub report_of : (String → List ReportLine) → (ours theirs : List String) → List ReportLine
report_of lines ours theirs = lines_of lines (sort (key_set [] (ours ++ theirs)))

module _ (ours theirs : Vault) (base : Option Vault) (resolutions : Resolutions) where
  abbrev pub project_line_at : String → List ReportLine
  project_line_at name =
      project_lines resolutions name (Maps.get name ours.projects) (Maps.get name theirs.projects)
        (Maps.get name (base_projects base))

  -- The `report` of `threeWayMerge`.
  unfoldable pub merge_report : List ReportLine
  unfolding project_lines connection_lines
  merge_report =
      report_of project_line_at (Maps.keys ours.projects) (Maps.keys theirs.projects)
      ++ report_of (connection_line_at ours theirs) (Maps.keys (get_or ours.connections []))
          (Maps.keys (get_or theirs.connections []))

append-eq-nil {ℓ} : {A : Type ℓ} (xs ys : List A) → xs ++ ys ≡ [] → (xs ≡ []) × (ys ≡ [])
append-eq-nil [] ys h = (refl, h)
append-eq-nil (x ∷ xs) ys h = absurd (cc)

lines_of-eq-nil :
    (lines : String → List ReportLine) (names : List String) (k : String)
    → lines_of lines names ≡ []
    → contains k names ≡ true
    → lines k ≡ []
unfolding contains
lines_of-eq-nil lines [] k h c = absurd (cc)
lines_of-eq-nil lines (name ∷ names) k h c =
    let parts = append-eq-nil (lines name) (lines_of lines names) h in
    elim (Bool-cases (str_eq name k)) [
      | inl e ↦ subst (λ n. lines n ≡ []) ((eq_iff name k).0 e) parts.0
      | inr e ↦ lines_of-eq-nil lines names k parts.1 (rw e at c)
    ]

decided-eq {ℓ} : {A : Type ℓ} {a b : A} (d : Dec (a ≡ b)) → decided d ≡ true → a ≡ b
decided-eq (yes p) h = p
decided-eq (no n) h = absurd (cc)

vars_line-eq-nil :
    (name : String) (vars old : Map VarEntry) → vars_line name vars old ≡ [] → vars ≡ old
unfolding vars_line
vars_line-eq-nil name vars old h = elim (Bool-cases (decided (vars-discrete vars old))) [
  | inl e ↦ decided-eq (vars-discrete vars old) e
  | inr e ↦ absurd (cc (rw e at h))
]

project_lines-eq-nil :
    (resolutions : Resolutions) (name : String) (o t b : Option Project)
    → project_lines resolutions name o t b ≡ []
    → outcome resolutions name o t b ≡ o
unfolding project_lines
project_lines-eq-nil resolutions name (some o) (some t) b h =
    ap (λ (vars : Map VarEntry). some (record { created_at = o.created_at; vars = vars }))
      (vars_line-eq-nil name _ o.vars h)
project_lines-eq-nil resolutions name (some o) none none h = absurd (cc)
project_lines-eq-nil resolutions name (some o) none (some b) h = absurd (cc)
project_lines-eq-nil resolutions name none (some t) none h = absurd (cc)
project_lines-eq-nil resolutions name none (some t) (some b) h = absurd (cc)
project_lines-eq-nil resolutions name none none b h = refl

report_of-eq-nil :
    {A : Type 0} (lines : String → List ReportLine) (ours theirs : Map A) (k : String)
    → report_of lines (Maps.keys ours) (Maps.keys theirs) ≡ []
    → (has k ours || has k theirs) ≡ true
    → lines k ≡ []
unfolding contains
report_of-eq-nil lines ours theirs k h e =
    lines_of-eq-nil lines (sort (key_set [] (Maps.keys ours ++ Maps.keys theirs))) k h (
      rw
        (
          sort-contains k (key_set [] (Maps.keys ours ++ Maps.keys theirs)),
          key_set-contains k [] (Maps.keys ours ++ Maps.keys theirs),
          append-contains k (Maps.keys ours) (Maps.keys theirs),
          contains-keys k ours,
          contains-keys k theirs,
        )
        e)

outcome-neither :
    (resolutions : Resolutions) (name : String) (o t b : Option Project)
    → (is_some o || is_some t) ≡ false
    → outcome resolutions name o t b ≡ o
outcome-neither resolutions name none none b h = refl
outcome-neither resolutions name (some o) t b h = absurd (cc)
outcome-neither resolutions name none (some t) b h = absurd (cc)

connection_lines-eq-nil :
    (name : String) (o t : Option Connection)
    → connection_lines name o t ≡ []
    → is_some o ≡ is_some t
unfolding connection_lines
connection_lines-eq-nil name (some o) (some t) h = refl
connection_lines-eq-nil name (some o) none h = absurd (cc)
connection_lines-eq-nil name none (some t) h = absurd (cc)
connection_lines-eq-nil name none none h = refl

module _ (ours theirs : Vault) (base : Option Vault) (resolutions : Resolutions) where
  report-projects :
      (k : String)
      → report_of
          (project_line_at ours theirs base resolutions)
          (Maps.keys ours.projects)
          (Maps.keys theirs.projects)
        ≡ []
      → Maps.get k (three_way_merge ours theirs base resolutions).merged.projects
        ≡ Maps.get k ours.projects
  report-projects k h =
      let os = ours.projects in
      let ts = theirs.projects in
      merged-projects ours theirs base resolutions k ∙ elim (Bool-cases (has k os || has k ts)) [
        | inl e ↦
            project_lines-eq-nil resolutions k (Maps.get k os) (Maps.get k ts)
              (Maps.get k (base_projects base))
              (report_of-eq-nil (project_line_at ours theirs base resolutions) os ts k h e)
        | inr e ↦
            outcome-neither resolutions k (Maps.get k os) (Maps.get k ts)
              (Maps.get k (base_projects base)) e
      ]

  report-connections :
      (k : String)
      → report_of
          (connection_line_at ours theirs)
          (Maps.keys (get_or ours.connections []))
          (Maps.keys (get_or theirs.connections []))
        ≡ []
      → has k (get_or ours.connections []) ≡ has k (get_or theirs.connections [])
  report-connections k h =
      let os = get_or ours.connections [] in
      let ts = get_or theirs.connections [] in
      elim (Bool-cases (has k os || has k ts)) [
        | inl e ↦
            connection_lines-eq-nil k (Maps.get k os) (Maps.get k ts)
              (report_of-eq-nil (connection_line_at ours theirs) os ts k h e)
        | inr e ↦ ground arith
      ]

  -- When `threeWayMerge` reports nothing, the merge has exactly our projects, each with our
  -- variables and time of creation, and both machines have connections to the same providers.
  pub merge_report-eq-nil :
      (k : String)
      → merge_report ours theirs base resolutions ≡ []
      → (Maps.get k (three_way_merge ours theirs base resolutions).merged.projects
          ≡ Maps.get k ours.projects)
        × (has k (get_or ours.connections []) ≡ has k (get_or theirs.connections []))
  unfolding merge_report
  merge_report-eq-nil k h =
      let parts =
        append-eq-nil
          (report_of (project_line_at ours theirs base resolutions) (Maps.keys ours.projects)
            (Maps.keys theirs.projects))
          (report_of (connection_line_at ours theirs) (Maps.keys (get_or ours.connections []))
            (Maps.keys (get_or theirs.connections [])))
          h in
      (report-projects k parts.0, report-connections k parts.1)
