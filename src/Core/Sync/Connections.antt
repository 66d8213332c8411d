-- ===== src/Core/Sync/Connections.antt =====
-- The merge of the connections, `mergeConnections`.
use Prim.Native.String.{◌++◌ as join}
use abracadabra.Common.{
  String, str_eq, eq_iff, false, ◌||◌, ◌≡◌, refl, ◌∙◌, if◌then◌else◌, Option, none, some, is_some,
  List, [], ◌∷◌, ◌++◌, arith, inl, inr, Bool-cases,
}
use abracadabra.Common.Maps
use abracadabra.Common.Maps.{Map, has, contains, get-set, contains-keys}
use abracadabra.Core.Vault.{VarEntry, Connection}
use abracadabra.Core.Sync.{Conflict, Resolutions, key_set, merge_var_maps}
use abracadabra.Core.Sync.Vars.{
  or_else, or_else-twice, or_else-none, key_set-contains, append-contains, merge_var_maps-conflicts,
}
use abracadabra.Core.Sync.Projects.{sort, sort-contains}

-- `{ ...m, ...over }`.
unfoldable pub spread : Map String → Map String → Map String
spread m [] = m
spread m ((k, v) ∷ over) = spread (Maps.set k v m) over

abbrev pub connection_vars : Option Connection → Map VarEntry
connection_vars (some c) = c.vars
connection_vars none = []

unfoldable pub merge_connection :
    Resolutions
    → String
    → (o t b : Option Connection) → Map Connection × List Conflict
    → Map Connection × List Conflict
merge_connection resolutions provider (some o) (some t) b (merged, conflicts) =
    let m =
      merge_var_maps (join "connections/" provider) o.vars t.vars (connection_vars b) resolutions
        conflicts in
    (Maps.set provider (record o { meta = spread t.meta o.meta; vars = m.0 }) merged, m.1)
merge_connection resolutions provider (some o) none b (merged, conflicts) =
    (Maps.set provider o merged, conflicts)
merge_connection resolutions provider none (some t) b (merged, conflicts) =
    (Maps.set provider t merged, conflicts)
merge_connection resolutions provider none none b acc = acc

module _ (ours theirs base : Map Connection) (resolutions : Resolutions) where
  unfoldable pub merge_providers :
      List String → Map Connection × List Conflict → Map Connection × List Conflict
  merge_providers [] acc = acc
  merge_providers (name ∷ names) acc = merge_providers names (
      merge_connection resolutions name (Maps.get name ours) (Maps.get name theirs)
        (Maps.get name base) acc)

  unfoldable pub merge_connections : List Conflict → Map Connection × List Conflict
  merge_connections conflicts =
      merge_providers (sort (key_set [] (Maps.keys ours ++ Maps.keys theirs))) ([], conflicts)

-- What becomes of a connection.
abbrev pub united : Resolutions → String → (o t b : Option Connection) → Option Connection
united resolutions name (some o) (some t) b = some (record o {
  meta = spread t.meta o.meta;
  vars =
      (merge_var_maps (join "connections/" name) o.vars t.vars (connection_vars b) resolutions
        []).0;
})
united resolutions name (some o) none b = some o
united resolutions name none t b = t

merge_connection-get :
    (resolutions : Resolutions) (name k : String) (o t b : Option Connection)
    (acc : Map Connection × List Conflict)
    → Maps.get k (merge_connection resolutions name o t b acc).0 ≡ (
        if str_eq name k
        then or_else (united resolutions name o t b) (Maps.get k acc.0)
        else Maps.get k acc.0)
unfolding merge_connection
merge_connection-get resolutions name k (some o) (some t) b (merged, conflicts) =
    rw
      (merge_var_maps-conflicts (join "connections/" name) o.vars t.vars (connection_vars b)
        resolutions conflicts [])
      (get-set name k _ merged)
merge_connection-get resolutions name k (some o) none b (merged, conflicts) =
    get-set name k o merged
merge_connection-get resolutions name k none (some t) b (merged, conflicts) =
    get-set name k t merged
merge_connection-get resolutions name k none none b (merged, conflicts) = ground arith

module _ (ours theirs base : Map Connection) (resolutions : Resolutions) where
  abbrev fate : String → Option Connection
  fate k = united resolutions k (Maps.get k ours) (Maps.get k theirs) (Maps.get k base)

  abbrev providers : List String
  providers = sort (key_set [] (Maps.keys ours ++ Maps.keys theirs))

  visited : (k : String) → contains k providers ≡ (has k ours || has k theirs)
  unfolding contains
  visited k =
      sort-contains k _
      ∙ key_set-contains k [] (Maps.keys ours ++ Maps.keys theirs)
      ∙ append-contains k (Maps.keys ours) (Maps.keys theirs)
      ∙ rw (contains-keys k ours, contains-keys k theirs) refl

  merge_providers-get :
      (k : String) (ks : List String) (acc : Map Connection × List Conflict)
      → Maps.get k (merge_providers ours theirs base resolutions ks acc).0
        ≡ (if contains k ks then or_else (fate k) (Maps.get k acc.0) else Maps.get k acc.0)
  unfolding merge_providers contains
  merge_providers-get k [] acc = refl
  merge_providers-get k (j ∷ ks) acc = merge_providers-get k ks _ ∙ elim (Bool-cases (str_eq j k)) [
    | inl e ↦ elim (Bool-cases (contains k ks)) [
      | inl f ↦
          rw
            (
              merge_connection-get resolutions j k (Maps.get j ours) (Maps.get j theirs)
                  (Maps.get j base) acc,
              e,
              f,
              (eq_iff j k).0 e,
            )
            (or_else-twice (fate k) (Maps.get k acc.0))
      | inr f ↦
          rw
            (
              merge_connection-get resolutions j k (Maps.get j ours) (Maps.get j theirs)
                  (Maps.get j base) acc,
              e,
              f,
              (eq_iff j k).0 e,
            )
            refl
    ]
    | inr e ↦
        rw
          (
            merge_connection-get resolutions j k (Maps.get j ours) (Maps.get j theirs)
                (Maps.get j base) acc,
            e,
          )
          refl
  ]

  absent : (k : String) → (has k ours || has k theirs) ≡ false → fate k ≡ none
  absent k h = united-absent k (Maps.get k ours) (Maps.get k theirs) (Maps.get k base) h
    where
      united-absent :
          (k : String) (o t b : Option Connection)
          → (is_some o || is_some t) ≡ false
          → united resolutions k o t b ≡ none
      united-absent k (some o) t b h = absurd (cc)
      united-absent k none (some t) b h = absurd (cc)
      united-absent k none none b h = refl

  pub merge_connections-get :
      (k : String) (conflicts : List Conflict)
      → Maps.get k (merge_connections ours theirs base resolutions conflicts).0 ≡ fate k
  unfolding merge_connections Maps.get
  merge_connections-get k conflicts =
      merge_providers-get k providers ([], conflicts)
      ∙ elim (Bool-cases (has k ours || has k theirs)) [
        | inl h ↦ rw (visited k, h) (or_else-none (fate k))
        | inr h ↦ rw (visited k, h, absent k h) refl
      ]

  -- A merge drops no connection: a provider has one in the result of `mergeConnections` exactly
  -- when one of the machines has one.
  pub merge_connections-has :
      (k : String) (conflicts : List Conflict)
      → has k (merge_connections ours theirs base resolutions conflicts).0
        ≡ (has k ours || has k theirs)
  merge_connections-has k conflicts =
      rw (merge_connections-get k conflicts)
        (kept k (Maps.get k ours) (Maps.get k theirs) (Maps.get k base))
    where
      kept :
          (k : String) (o t b : Option Connection)
          → is_some (united resolutions k o t b) ≡ (is_some o || is_some t)
      kept k (some o) (some t) b = refl
      kept k (some o) none b = refl
      kept k none t b = refl
