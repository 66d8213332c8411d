-- ===== src/Core/Scope/Merge.antt =====
-- What `mergeScopedProjects` makes of each variable.
use abracadabra.Common.{
  String, str_eq, eq_iff, Bool, true, false, ◌≡◌, refl, sym, ◌∙◌, if◌then◌else◌, Option, none, some,
  is_some, [], ◌∷◌, All, arith, inl, inr, Bool-cases, Option-cases,
}
use abracadabra.Common.Maps
use abracadabra.Common.Maps.{Map, has, IsMap, get-set, All-get}
use abracadabra.Core.Vault.{VarEntry, Project, Vault, var_in, var_at}
use abracadabra.Core.Scope.{
  entry_content_eq, ScopedMergeReport, merge_scoped_entry, merge_scoped_vars, merge_scoped_project,
  merge_scoped_loop, merge_scoped_projects,
}

-- The entry that comes of ours and the incoming one.
abbrev pub combine : (theirs : Bool) → (mine incoming : Option VarEntry) → Option VarEntry
combine theirs none incoming = incoming
combine theirs (some m) none = some m
combine theirs (some m) (some i) =
    if entry_content_eq m i then some m else if theirs then some i else some m

-- As an object of JSON is: no name stands twice, of a project or of a variable.
abbrev pub IsProjects : Map Project → Type 0
IsProjects ps = IsMap ps × All (λ kv. IsMap kv.1.vars) ps

combine-none : (theirs : Bool) (m : Option VarEntry) → combine theirs m none ≡ m
combine-none theirs none = refl
combine-none theirs (some m) = refl

absent_none : {A : Type 0} (k : String) (m : Map A) → has k m ≡ false → Maps.get k m ≡ none
absent_none k m h = go (Maps.get k m) h
  where
    go : {A : Type 0} (o : Option A) → is_some o ≡ false → o ≡ none
    go none h = refl
    go (some a) h = absurd (cc)

merge_scoped_entry-get :
    (theirs : Bool) (project key k : String) (i : VarEntry) (vars : Map VarEntry)
    (r : ScopedMergeReport)
    → Maps.get k (merge_scoped_entry theirs project key i (vars, r)).0
      ≡ (if str_eq key k then combine theirs (Maps.get k vars) (some i) else Maps.get k vars)
unfolding merge_scoped_entry
merge_scoped_entry-get theirs project key k i vars r =
    ground (arith, eq_iff key k, get-set key k i vars)

merge_scoped_vars-get :
    (theirs : Bool) (project k : String) (m vars : Map VarEntry) (r : ScopedMergeReport)
    → IsMap m
    → Maps.get k (merge_scoped_vars theirs project m (vars, r)).0
      ≡ combine theirs (Maps.get k vars) (Maps.get k m)
unfolding merge_scoped_vars Maps.get
merge_scoped_vars-get theirs project k [] vars r h = rw (combine-none theirs (Maps.get k vars)) refl
merge_scoped_vars-get theirs project k ((key, i) ∷ m) vars r h =
    let next : Map VarEntry × ScopedMergeReport =
      merge_scoped_entry theirs project key i (vars, r) in
    merge_scoped_vars-get theirs project k m next.0 next.1 h.1 ∙ elim (Bool-cases (str_eq key k)) [
      | inl e ↦
          rw
            (
              merge_scoped_entry-get theirs project key k i vars r,
              e,
              sym ((eq_iff key k).0 e),
              absent_none key m h.0,
            )
            (combine-none theirs (combine theirs (Maps.get key vars) (some i)))
      | inr e ↦ rw (merge_scoped_entry-get theirs project key k i vars r, e) refl
    ]

no_vars : (j : String) → Maps.get {V = VarEntry} j [] ≡ none
unfolding Maps.get
no_vars j = refl

-- What becomes of a variable, by the project on the two sides.
merge_scoped_project-get :
    (theirs : Bool) (name k j : String) (p : Project) (ps : Map Project) (r : ScopedMergeReport)
    → IsMap p.vars
    → var_in (Maps.get k (merge_scoped_project theirs name p (ps, r)).0) j ≡ (
        if str_eq name k
        then combine theirs (var_in (Maps.get k ps) j) (Maps.get j p.vars)
        else var_in (Maps.get k ps) j)
unfolding merge_scoped_project
merge_scoped_project-get theirs name k j p ps r h = elim (Option-cases (Maps.get name ps)) [
  | inl e ↦
      rw (e, merge_scoped_project, get-set name k p ps)
        (elim (Bool-cases (str_eq name k)) [
          | inl f ↦ rw (f, sym ((eq_iff name k).0 f), e, no_vars j) refl
          | inr f ↦ rw f refl
        ])
  | inr (mine, e) ↦
      rw (e, merge_scoped_project, get-set name k _ ps)
        (elim (Bool-cases (str_eq name k)) [
          | inl f ↦
              rw (f, sym ((eq_iff name k).0 f), e)
                (merge_scoped_vars-get theirs name j p.vars mine.vars r h)
          | inr f ↦ rw f refl
        ])
]

merge_scoped_loop-get :
    (theirs : Bool) (k j : String) (m ps : Map Project) (r : ScopedMergeReport)
    → IsProjects m
    → var_in (Maps.get k (merge_scoped_loop theirs m (ps, r)).0) j
      ≡ combine theirs (var_in (Maps.get k ps) j) (var_in (Maps.get k m) j)
unfolding merge_scoped_loop Maps.get
merge_scoped_loop-get theirs k j [] ps r h =
    rw (combine-none theirs (var_in (Maps.get k ps) j)) refl
merge_scoped_loop-get theirs k j ((name, p) ∷ m) ps r h =
    let next : Map Project × ScopedMergeReport = merge_scoped_project theirs name p (ps, r) in
    merge_scoped_loop-get theirs k j m next.0 next.1 (h.0.1, h.1.1)
    ∙ elim (Bool-cases (str_eq name k)) [
      | inl e ↦
          rw
            (
              merge_scoped_project-get theirs name k j p ps r h.1.0,
              e,
              sym ((eq_iff name k).0 e),
              absent_none name m h.0.0,
            )
            (combine-none theirs (combine theirs (var_in (Maps.get name ps) j) (Maps.get j p.vars)))
      | inr e ↦ rw (merge_scoped_project-get theirs name k j p ps r h.1.0, e) refl
    ]

-- `mergeScopedProjects` gives every variable the incoming entry where we have none, ours where
-- none is incoming or its content is the same, and otherwise ours unless `theirs` is set: each
-- incoming name stands once.
pub merge_scoped_projects-var_at :
    (local : Vault) (incoming : Map Project) (theirs : Bool) (k j : String)
    → IsProjects incoming
    → var_at (merge_scoped_projects local incoming theirs).merged k j
      ≡ combine theirs (var_at local k j) (var_in (Maps.get k incoming) j)
unfolding merge_scoped_projects
merge_scoped_projects-var_at local incoming theirs k j h =
    merge_scoped_loop-get theirs k j incoming local.projects _ h

kept : (m i : Option VarEntry) → is_some m ≡ true → combine false m i ≡ m
kept (some m) none h = refl
kept (some m) (some i) h = ground arith
kept none i h = absurd (cc)

-- Without `theirs`, `mergeScopedProjects` changes no variable that we have: each incoming name
-- stands once.
pub merge_scoped_projects-keeps :
    (local : Vault) (incoming : Map Project) (k j : String)
    → IsProjects incoming
    → is_some (var_at local k j) ≡ true
    → var_at (merge_scoped_projects local incoming false).merged k j ≡ var_at local k j
merge_scoped_projects-keeps local incoming k j h g =
    rw (merge_scoped_projects-var_at local incoming false k j h) (kept (var_at local k j) _ g)
