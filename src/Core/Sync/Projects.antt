-- ===== src/Core/Sync/Projects.antt =====
-- The merge of the projects, `mergeProjects`, and which of them it drops.
use Prim.Native.String.{compare}
use text.Mathlib.Text.{is_le}
use abracadabra.Common.{
  String, str_eq, eq_iff, Bool, true, false, ◌&&◌, ◌||◌, ◌≡◌, refl, ◌∙◌, if◌then◌else◌, Option,
  none, some, is_some, List, [], ◌∷◌, ◌++◌, arith, inl, inr, Bool-cases,
}
use abracadabra.Common.Maps
use abracadabra.Common.Maps.{Map, has, contains, get-set, contains-keys}
use abracadabra.Core.Vault.{Project, vars_of}
use abracadabra.Core.Sync.{
  Conflict, Resolutions, ProjectDeletion, Side, here, peer, key_set, merge_var_maps,
}
use abracadabra.Core.Sync.Vars.{
  or_else, or_else-twice, or_else-none, key_set-contains, append-contains, merge_var_maps-conflicts,
}

-- `[...scopes].sort()`.
unfoldable pub insert : String → List String → List String
insert k [] = k ∷ []
insert k (j ∷ js) = if is_le (compare k j) then k ∷ j ∷ js else j ∷ insert k js

unfoldable pub sort : List String → List String
sort [] = []
sort (k ∷ ks) = insert k (sort ks)

insert-contains :
    (i k : String) (ks : List String) → contains i (insert k ks) ≡ (str_eq k i || contains i ks)
unfolding insert contains
insert-contains i k [] = refl
insert-contains i k (j ∷ js) = ground (arith, insert-contains i k js)

pub sort-contains : (i : String) (ks : List String) → contains i (sort ks) ≡ contains i ks
unfolding sort contains
sort-contains i [] = refl
sort-contains i (k ∷ ks) = insert-contains i k (sort ks) ∙ rw (sort-contains i ks) refl

pub record ProjectsMerge : Type 0 where
  pub projects : Map Project
  pub project_deletions : List ProjectDeletion
  pub conflicts : List Conflict

-- A project that only one machine has.
unfoldable pub one_sided :
    String → Side → (winner : Project) → Option Project → ProjectsMerge → ProjectsMerge
one_sided name side winner none acc = record acc { projects = Maps.set name winner acc.projects }
one_sided name side winner (some b) acc = record acc {
  project_deletions = acc.project_deletions ++ record { project = name; side = side } ∷ [];
}

unfoldable pub merge_project :
    Resolutions → String → (o t b : Option Project) → ProjectsMerge → ProjectsMerge
merge_project resolutions name (some o) (some t) b acc =
    let m = merge_var_maps name o.vars t.vars (vars_of b) resolutions acc.conflicts in
    record acc {
      projects = Maps.set name (record { created_at = o.created_at; vars = m.0 }) acc.projects;
      conflicts = m.1;
    }
merge_project resolutions name (some o) none b acc = one_sided name peer o b acc
merge_project resolutions name none (some t) b acc = one_sided name here t b acc
merge_project resolutions name none none b acc = acc

module _ (ours theirs base : Map Project) (resolutions : Resolutions) where
  unfoldable pub merge_scopes : List String → ProjectsMerge → ProjectsMerge
  merge_scopes [] acc = acc
  merge_scopes (name ∷ names) acc = merge_scopes names (
      merge_project resolutions name (Maps.get name ours) (Maps.get name theirs)
        (Maps.get name base) acc)

  unfoldable pub merge_projects : List Conflict → ProjectsMerge
  merge_projects conflicts =
      merge_scopes (sort (key_set [] (Maps.keys ours ++ Maps.keys theirs)))
        (record { projects = []; project_deletions = []; conflicts = conflicts })

-- What becomes of a project.
abbrev pub outcome : Resolutions → String → (o t b : Option Project) → Option Project
outcome resolutions name (some o) (some t) b = some (record {
  created_at = o.created_at;
  vars = (merge_var_maps name o.vars t.vars (vars_of b) resolutions []).0;
})
outcome resolutions name (some o) none none = some o
outcome resolutions name none (some t) none = some t
outcome resolutions name _ _ _ = none

merge_project-get :
    (resolutions : Resolutions) (name k : String) (o t b : Option Project) (acc : ProjectsMerge)
    → Maps.get k (merge_project resolutions name o t b acc).projects ≡ (
        if str_eq name k
        then or_else (outcome resolutions name o t b) (Maps.get k acc.projects)
        else Maps.get k acc.projects)
unfolding merge_project one_sided
merge_project-get resolutions name k (some o) (some t) b acc =
    rw (merge_var_maps-conflicts name o.vars t.vars (vars_of b) resolutions acc.conflicts [])
      (get-set name k _ acc.projects)
merge_project-get resolutions name k (some o) none none acc = get-set name k o acc.projects
merge_project-get resolutions name k (some o) none (some b) acc = ground arith
merge_project-get resolutions name k none (some t) none acc = get-set name k t acc.projects
merge_project-get resolutions name k none (some t) (some b) acc = ground arith
merge_project-get resolutions name k none none (some b) acc = ground arith
merge_project-get resolutions name k none none none acc = ground arith

abbrev same_side : Side → Side → Bool
same_side here here = true
same_side peer peer = true
same_side _ _ = false

-- Whether a deletion of this project on this side is reported.
abbrev pub reports : String → Side → List ProjectDeletion → Bool
reports name side [] = false
reports name side (d ∷ ds) =
    (str_eq d.project name && same_side d.side side) || reports name side ds

-- A side deleted a project: the base has it and so does the other side.
abbrev pub deleted : Side → (o t b : Option Project) → Bool
deleted peer (some o) none (some b) = true
deleted here none (some t) (some b) = true
deleted _ _ _ _ = false

append-reports :
    (name : String) (side : Side) (ds es : List ProjectDeletion)
    → reports name side (ds ++ es) ≡ (reports name side ds || reports name side es)
append-reports name side [] es = refl
append-reports name side (d ∷ ds) es = ground (arith, append-reports name side ds es)

merge_project-reports :
    (resolutions : Resolutions) (name k : String) (side : Side) (o t b : Option Project)
    (acc : ProjectsMerge)
    → reports k side (merge_project resolutions name o t b acc).project_deletions
      ≡ (reports k side acc.project_deletions || (str_eq name k && deleted side o t b))
unfolding merge_project one_sided
merge_project-reports resolutions name k side (some o) (some t) b acc = ground arith
merge_project-reports resolutions name k side (some o) none none acc = ground arith
merge_project-reports resolutions name k here (some o) none (some b) acc =
    append-reports k here acc.project_deletions _ ∙ ground arith
merge_project-reports resolutions name k peer (some o) none (some b) acc =
    append-reports k peer acc.project_deletions _ ∙ ground arith
merge_project-reports resolutions name k side none (some t) none acc = ground arith
merge_project-reports resolutions name k here none (some t) (some b) acc =
    append-reports k here acc.project_deletions _ ∙ ground arith
merge_project-reports resolutions name k peer none (some t) (some b) acc =
    append-reports k peer acc.project_deletions _ ∙ ground arith
merge_project-reports resolutions name k side none none b acc = ground arith

deleted-absent : (b : Option Project) (side : Side) → deleted side none none b ≡ false
deleted-absent (some b) here = refl
deleted-absent (some b) peer = refl
deleted-absent none here = refl
deleted-absent none peer = refl

module _ (resolutions : Resolutions) (name : String) where
  outcome-absent :
      (o t b : Option Project)
      → (is_some o || is_some t) ≡ false
      → (outcome resolutions name o t b ≡ none) × ((side : Side) → deleted side o t b ≡ false)
  outcome-absent (some o) t b h = absurd (cc)
  outcome-absent none (some t) b h = absurd (cc)
  outcome-absent none none (some b) h = (refl, deleted-absent (some b))
  outcome-absent none none none h = (refl, deleted-absent none)

  dropped :
      (o t b : Option Project)
      → (is_some o || is_some t) ≡ true
      → is_some (outcome resolutions name o t b) ≡ false
      → (deleted here o t b || deleted peer o t b) ≡ true
  dropped (some o) (some t) b h d = absurd (cc)
  dropped (some o) none none h d = absurd (cc)
  dropped (some o) none (some b) h d = refl
  dropped none (some t) none h d = absurd (cc)
  dropped none (some t) (some b) h d = refl
  dropped none none b h d = absurd (cc)

module _ (ours theirs base : Map Project) (resolutions : Resolutions) where
  abbrev fate : String → Option Project
  fate k = outcome resolutions k (Maps.get k ours) (Maps.get k theirs) (Maps.get k base)

  abbrev gone : Side → String → Bool
  gone side k = deleted side (Maps.get k ours) (Maps.get k theirs) (Maps.get k base)

  abbrev scopes : List String
  scopes = sort (key_set [] (Maps.keys ours ++ Maps.keys theirs))

  visited : (k : String) → contains k scopes ≡ (has k ours || has k theirs)
  unfolding contains
  visited k =
      sort-contains k _
      ∙ key_set-contains k [] (Maps.keys ours ++ Maps.keys theirs)
      ∙ append-contains k (Maps.keys ours) (Maps.keys theirs)
      ∙ rw (contains-keys k ours, contains-keys k theirs) refl

  merge_scopes-get :
      (k : String) (ks : List String) (acc : ProjectsMerge)
      → Maps.get k (merge_scopes ours theirs base resolutions ks acc).projects ≡ (
          if contains k ks
          then or_else (fate k) (Maps.get k acc.projects)
          else Maps.get k acc.projects)
  unfolding merge_scopes contains
  merge_scopes-get k [] acc = refl
  merge_scopes-get k (j ∷ ks) acc = merge_scopes-get k ks _ ∙ elim (Bool-cases (str_eq j k)) [
    | inl e ↦ elim (Bool-cases (contains k ks)) [
      | inl f ↦
          rw
            (
              merge_project-get resolutions j k (Maps.get j ours) (Maps.get j theirs)
                  (Maps.get j base) acc,
              e,
              f,
              (eq_iff j k).0 e,
            )
            (or_else-twice (fate k) (Maps.get k acc.projects))
      | inr f ↦
          rw
            (
              merge_project-get resolutions j k (Maps.get j ours) (Maps.get j theirs)
                  (Maps.get j base) acc,
              e,
              f,
              (eq_iff j k).0 e,
            )
            refl
    ]
    | inr e ↦
        rw
          (
            merge_project-get resolutions j k (Maps.get j ours) (Maps.get j theirs)
                (Maps.get j base) acc,
            e,
          )
          refl
  ]

  merge_scopes-reports :
      (k : String) (side : Side) (ks : List String) (acc : ProjectsMerge)
      → reports k side (merge_scopes ours theirs base resolutions ks acc).project_deletions
        ≡ (reports k side acc.project_deletions || (contains k ks && gone side k))
  unfolding merge_scopes contains
  merge_scopes-reports k side [] acc = ground arith
  merge_scopes-reports k side (j ∷ ks) acc =
      merge_scopes-reports k side ks _ ∙ elim (Bool-cases (str_eq j k)) [
        | inl e ↦
            rw
              (
                merge_project-reports resolutions j k side (Maps.get j ours) (Maps.get j theirs)
                    (Maps.get j base) acc,
                e,
                (eq_iff j k).0 e,
              )
              (ground arith)
        | inr e ↦
            rw
              (
                merge_project-reports resolutions j k side (Maps.get j ours) (Maps.get j theirs)
                    (Maps.get j base) acc,
                e,
              )
              (ground arith)
      ]

  absent :
      (k : String)
      → (has k ours || has k theirs) ≡ false
      → (fate k ≡ none) × ((side : Side) → gone side k ≡ false)
  absent k h =
      outcome-absent resolutions k (Maps.get k ours) (Maps.get k theirs) (Maps.get k base) h

  -- `mergeProjects` gives every project name what the rules say: a project of both machines is
  -- there with our time of creation and the merge of its variables; one that only one machine has
  -- is there as it is when the base lacks it, and is dropped when the base has it.
  pub merge_projects-get :
      (k : String) (conflicts : List Conflict)
      → Maps.get k (merge_projects ours theirs base resolutions conflicts).projects ≡ fate k
  unfolding merge_projects Maps.get
  merge_projects-get k conflicts =
      merge_scopes-get k scopes _ ∙ elim (Bool-cases (has k ours || has k theirs)) [
        | inl h ↦ rw (visited k, h) (or_else-none (fate k))
        | inr h ↦ rw (visited k, h, (absent k h).0) refl
      ]

  -- `mergeProjects` reports a project as deleted on a side exactly when that side lacks it while
  -- the other side and the base have it.
  pub merge_projects-reports :
      (k : String) (side : Side) (conflicts : List Conflict)
      → reports k side (merge_projects ours theirs base resolutions conflicts).project_deletions
        ≡ gone side k
  unfolding merge_projects
  merge_projects-reports k side conflicts =
      merge_scopes-reports k side scopes _ ∙ elim (Bool-cases (has k ours || has k theirs)) [
        | inl h ↦ rw (visited k, h) refl
        | inr h ↦ rw (visited k, h, (absent k h).1 side) refl
      ]

  -- What `mergeProjects` drops, it reports: a project that one of the machines has and the merge
  -- has not is listed as a deletion on one of the sides.
  pub dropped_is_reported :
      (k : String) (conflicts : List Conflict)
      → (has k ours || has k theirs) ≡ true
      → has k (merge_projects ours theirs base resolutions conflicts).projects ≡ false
      → (reports k here (merge_projects ours theirs base resolutions conflicts).project_deletions
          || reports k peer
              (merge_projects ours theirs base resolutions conflicts).project_deletions)
        ≡ true
  dropped_is_reported k conflicts h d =
      rw (merge_projects-reports k here conflicts, merge_projects-reports k peer conflicts)
        (dropped resolutions k (Maps.get k ours) (Maps.get k theirs) (Maps.get k base) h
          (rw (merge_projects-get k conflicts) at d))
