-- ===== src/Core/Sync/Vars.antt =====
-- The merge of the variables of one project.
use abracadabra.Common.{
  String, str_eq, eq_iff, Bool, true, false, ◌&&◌, ◌||◌, ◌≡◌, ◌≢◌, ◌↔◌, refl, ◌∙◌, if◌then◌else◌,
  Option, none, some, is_some, List, [], ◌∷◌, ◌++◌, arith, inl, inr, Bool-cases,
}
use abracadabra.Common.Maps
use abracadabra.Common.Maps.{Map, has, contains, get-set, contains-keys}
use abracadabra.Core.Vault.{VarEntry, decided}
use abracadabra.Core.Sync.{
  Conflict, Resolutions, entry_discrete, entry_eq, Merged, keep, conflict, merge_entry, write, note,
  key_set, resolution_key, merged_at, conflict_at, merge_keys, merge_var_maps,
}

decided_iff : {A : Type 0} (d : Dec A) → (decided d ≡ true) ↔ A
decided_iff (yes a) = ((λ h. a), (λ h. refl))
decided_iff (no n) = ((λ h. absurd (cc)), (λ a. absurd (n a)))

pub entry_eq_iff : (a b : Option VarEntry) → (entry_eq a b ≡ true) ↔ (a ≡ b)
unfolding entry_eq
entry_eq_iff a b = decided_iff (entry_discrete a b)

-- The value that a key comes to: none for a conflict.
abbrev pub value : Merged → Option VarEntry
value (keep e) = e
value conflict = none

abbrev pub is_conflict : Merged → Bool
is_conflict conflict = true
is_conflict (keep e) = false

-- The rules of a three-way merge of one entry, and the value that each gives.
pub data Resolved (o t b : Option VarEntry) (manual : Option (Option VarEntry))
    : Option VarEntry → Type 0 where
  agree : o ≡ t → Resolved o t b manual o
  chosen : (v : Option VarEntry) → o ≢ t → manual ≡ some v → Resolved o t b manual v
  only_ours : o ≢ t → manual ≡ none → t ≡ b → Resolved o t b manual o
  only_theirs : o ≢ t → manual ≡ none → o ≡ b → Resolved o t b manual t
  clash : o ≢ t → manual ≡ none → o ≢ b → t ≢ b → Resolved o t b manual none

ne_of_false : (a b : Option VarEntry) → entry_eq a b ≡ false → a ≢ b
ne_of_false a b h p = cc (h, (entry_eq_iff a b).1 p)

merge_entry-Resolved :
    (o t b : Option VarEntry) (manual : Option (Option VarEntry))
    → Resolved o t b manual (value (merge_entry o t b manual))
unfolding merge_entry
merge_entry-Resolved o t b manual = elim (Bool-cases (entry_eq o t)) [
  | inl e ↦ rw e (agree ((entry_eq_iff o t).0 e))
  | inr e ↦ rw e (go manual refl (ne_of_false o t e))
]
  where
    go :
        (m : Option (Option VarEntry))
        → manual ≡ m
        → o ≢ t
        → Resolved o t b manual (
            value (elim m [
              | some v ↦ keep v
              | none ↦ if entry_eq t b then keep o else if entry_eq o b then keep t else conflict
            ]))
    go (some v) p ne = chosen v ne p
    go none p ne = elim (Bool-cases (entry_eq t b)) [
      | inl f ↦ rw f (only_ours ne p ((entry_eq_iff t b).0 f))
      | inr f ↦ elim (Bool-cases (entry_eq o b)) [
        | inl g ↦ rw (f, g) (only_theirs ne p ((entry_eq_iff o b).0 g))
        | inr g ↦ rw (f, g) (clash ne p (ne_of_false o b g) (ne_of_false t b f))
      ]
    ]

pub append-contains :
    (k : String) (xs ys : List String) → contains k (xs ++ ys) ≡ (contains k xs || contains k ys)
unfolding contains
append-contains k [] ys = refl
append-contains k (x ∷ xs) ys = ground (arith, append-contains k xs ys)

pub key_set-contains :
    (k : String) (seen xs : List String)
    → contains k (key_set seen xs) ≡ (contains k seen || contains k xs)
unfolding key_set contains
key_set-contains k seen [] = ground arith
key_set-contains k seen (x ∷ xs) = elim (Bool-cases (contains x seen)) [
  | inl e ↦ ground (arith, key_set-contains k seen xs, eq_iff x k)
  | inr e ↦ ground (arith, key_set-contains k (seen ++ x ∷ []) xs, append-contains k seen (x ∷ []))
]

-- The keys that a list of conflicts names.
abbrev pub conflict_keys : List Conflict → List String
conflict_keys [] = []
conflict_keys (c ∷ cs) = c.key ∷ conflict_keys cs

append-conflict_keys :
    (xs ys : List Conflict) → conflict_keys (xs ++ ys) ≡ conflict_keys xs ++ conflict_keys ys
append-conflict_keys [] ys = refl
append-conflict_keys (x ∷ xs) ys = rw (append-conflict_keys xs ys) refl

abbrev pub or_else {ℓ} : {A : Type ℓ} → Option A → Option A → Option A
or_else (some v) old = some v
or_else none old = old

get-write :
    (k j : String) (w : Merged) (m : Map VarEntry)
    → Maps.get j (write k w m)
      ≡ (if str_eq k j then or_else (value w) (Maps.get j m) else Maps.get j m)
get-write k j (keep (some e)) m = get-set k j e m
get-write k j (keep none) m = ground arith
get-write k j conflict m = ground arith

pub or_else-twice {ℓ} : {A : Type ℓ} (a old : Option A) → or_else a (or_else a old) ≡ or_else a old
or_else-twice (some v) old = refl
or_else-twice none old = refl

note-contains :
    (k : String) (c : Conflict) (w : Merged) (cs : List Conflict)
    → contains k (conflict_keys (note c w cs))
      ≡ (contains k (conflict_keys cs) || (str_eq c.key k && is_conflict w))
unfolding contains
note-contains k c conflict cs =
    ground
      (arith, append-conflict_keys cs (c ∷ []), append-contains k (conflict_keys cs) (c.key ∷ []))
note-contains k c (keep e) cs = ground arith

pub or_else-none {ℓ} : {A : Type ℓ} (a : Option A) → or_else a none ≡ a
or_else-none (some v) = refl
or_else-none none = refl

merge_entry-absent :
    (o t b : Option VarEntry) (manual : Option (Option VarEntry))
    → (is_some o || is_some t) ≡ false
    → merge_entry o t b manual ≡ keep none
unfolding merge_entry
merge_entry-absent (some v) t b manual h = absurd (cc)
merge_entry-absent none (some v) b manual h = absurd (cc)
merge_entry-absent none none b manual h = rw ((entry_eq_iff none none).1 refl) refl

-- What makes a conflict: both sides changed, to different entries, and no one has decided.
abbrev pub Clash : (o t b : Option VarEntry) → Option (Option VarEntry) → Type 0
Clash o t b manual = (o ≢ t) × (manual ≡ none) × (o ≢ b) × (t ≢ b)

is_conflict_lem :
    (o t b : Option VarEntry) (manual : Option (Option VarEntry))
    → (is_conflict (merge_entry o t b manual) ≡ true) ↔ Clash o t b manual
unfolding merge_entry
is_conflict_lem o t b manual = ground (arith, entry_eq_iff o t, entry_eq_iff o b, entry_eq_iff t b)

merge_entry-swap :
    (o t b : Option VarEntry) (manual : Option (Option VarEntry))
    → (value (merge_entry o t b manual) ≡ value (merge_entry t o b manual))
      × (is_conflict (merge_entry o t b manual) ≡ is_conflict (merge_entry t o b manual))
unfolding merge_entry
merge_entry-swap o t b manual =
    ground (arith, entry_eq_iff o t, entry_eq_iff t o, entry_eq_iff o b, entry_eq_iff t b)

module _ (scope : String) (ours theirs base : Map VarEntry) (resolutions : Resolutions) where
  abbrev at : String → Merged
  at = merged_at scope ours theirs base resolutions

  abbrev visits : List String
  visits = key_set [] (Maps.keys ours ++ Maps.keys theirs)

  merge_keys_lem :
      (k : String) (ks : List String) (m : Map VarEntry) (cs : List Conflict)
      → Maps.get k (merge_keys scope ours theirs base resolutions ks m cs).0
        ≡ (if contains k ks then or_else (value (at k)) (Maps.get k m) else Maps.get k m)
  unfolding merge_keys contains
  merge_keys_lem k [] m cs = refl
  merge_keys_lem k (j ∷ ks) m cs = elim (Bool-cases (str_eq j k)) [
    | inl e ↦ elim (Bool-cases (contains k ks)) [
      | inl f ↦
          merge_keys_lem k ks (write j (at j) m) _
          ∙ rw (f, get-write j k (at j) m, e, (eq_iff j k).0 e)
              (or_else-twice (value (at k)) (Maps.get k m))
      | inr f ↦
          merge_keys_lem k ks (write j (at j) m) _
          ∙ rw (f, get-write j k (at j) m, e, (eq_iff j k).0 e) refl
    ]
    | inr e ↦ merge_keys_lem k ks (write j (at j) m) _ ∙ rw (get-write j k (at j) m, e) refl
  ]

  merge_keys-conflicts :
      (ks : List String) (m : Map VarEntry) (cs ds : List Conflict)
      → (merge_keys scope ours theirs base resolutions ks m cs).0
        ≡ (merge_keys scope ours theirs base resolutions ks m ds).0
  unfolding merge_keys
  merge_keys-conflicts [] m cs ds = refl
  merge_keys-conflicts (j ∷ ks) m cs ds = merge_keys-conflicts ks (write j (at j) m) _ _

  -- The variables do not depend on the conflicts that came before.
  pub merge_var_maps-conflicts :
      (cs ds : List Conflict)
      → (merge_var_maps scope ours theirs base resolutions cs).0
        ≡ (merge_var_maps scope ours theirs base resolutions ds).0
  unfolding merge_var_maps
  merge_var_maps-conflicts cs ds = merge_keys-conflicts visits [] cs ds

  merge_keys-conflict_keys :
      (k : String) (ks : List String) (m : Map VarEntry) (cs : List Conflict)
      → contains k (conflict_keys (merge_keys scope ours theirs base resolutions ks m cs).1)
        ≡ (contains k (conflict_keys cs) || (contains k ks && is_conflict (at k)))
  unfolding merge_keys contains
  merge_keys-conflict_keys k [] m cs = ground arith
  merge_keys-conflict_keys k (j ∷ ks) m cs =
      merge_keys-conflict_keys k ks (write j (at j) m) _ ∙ elim (Bool-cases (str_eq j k)) [
        | inl e ↦
            rw
              (
                note-contains k (conflict_at scope ours theirs base resolutions j) (at j) cs,
                e,
                (eq_iff j k).0 e,
              )
              (ground arith)
        | inr e ↦
            rw (note-contains k (conflict_at scope ours theirs base resolutions j) (at j) cs, e)
              (ground arith)
      ]

  visited : (k : String) → contains k visits ≡ (has k ours || has k theirs)
  unfolding contains
  visited k =
      key_set-contains k [] (Maps.keys ours ++ Maps.keys theirs)
      ∙ append-contains k (Maps.keys ours) (Maps.keys theirs)
      ∙ rw (contains-keys k ours, contains-keys k theirs) refl

  -- A key that neither side has comes to nothing.
  absent : (k : String) → (has k ours || has k theirs) ≡ false → at k ≡ keep none
  unfolding merged_at
  absent k h = merge_entry-absent (Maps.get k ours) (Maps.get k theirs) _ _ h

  pub merge_var_maps-get :
      (k : String) (conflicts : List Conflict)
      → Maps.get k (merge_var_maps scope ours theirs base resolutions conflicts).0 ≡ value (at k)
  unfolding merge_var_maps Maps.get
  merge_var_maps-get k conflicts =
      merge_keys_lem k visits [] conflicts ∙ elim (Bool-cases (has k ours || has k theirs)) [
        | inl h ↦ rw (visited k, h) (or_else-none (value (at k)))
        | inr h ↦ rw (visited k, h, absent k h) refl
      ]

  pub merge_var_maps-conflict_keys :
      (k : String)
      → contains k (conflict_keys (merge_var_maps scope ours theirs base resolutions []).1)
        ≡ is_conflict (at k)
  unfolding merge_var_maps contains
  merge_var_maps-conflict_keys k =
      merge_keys-conflict_keys k visits [] [] ∙ elim (Bool-cases (has k ours || has k theirs)) [
        | inl h ↦ rw (visited k, h) refl
        | inr h ↦ rw (visited k, h, absent k h) refl
      ]

  -- `mergeVarMaps` follows the rules of a three-way merge for every key: the value that it gives
  -- is the one both sides agree on, else the one that was chosen, else the one of the side that
  -- alone changed since the base, and none where both changed.
  pub merge_var_maps-Resolved :
      (k : String) (conflicts : List Conflict)
      → Resolved
          (Maps.get k ours)
          (Maps.get k theirs)
          (Maps.get k base)
          (Maps.get (resolution_key scope k) resolutions)
          (Maps.get k (merge_var_maps scope ours theirs base resolutions conflicts).0)
  unfolding merged_at
  merge_var_maps-Resolved k conflicts = rw (merge_var_maps-get k conflicts) (
      merge_entry-Resolved (Maps.get k ours) (Maps.get k theirs) (Maps.get k base)
        (Maps.get (resolution_key scope k) resolutions))

  -- `mergeVarMaps` reports a conflict for a key exactly when both sides changed it since the base,
  -- not to the same entry, and no resolution is given for it.
  pub conflict_iff :
      (k : String)
      → (contains k (conflict_keys (merge_var_maps scope ours theirs base resolutions []).1) ≡ true)
        ↔ Clash
            (Maps.get k ours)
            (Maps.get k theirs)
            (Maps.get k base)
            (Maps.get (resolution_key scope k) resolutions)
  unfolding merged_at
  conflict_iff k = rw (merge_var_maps-conflict_keys k) (
      is_conflict_lem (Maps.get k ours) (Maps.get k theirs) (Maps.get k base)
        (Maps.get (resolution_key scope k) resolutions))

-- The two machines come to the same: with the sides swapped, `mergeVarMaps` gives every key the
-- same value and reports conflicts for the same keys.
pub merge_var_maps-swap :
    (scope : String) (ours theirs base : Map VarEntry) (resolutions : Resolutions) (k : String)
    → (Maps.get k (merge_var_maps scope ours theirs base resolutions []).0
        ≡ Maps.get k (merge_var_maps scope theirs ours base resolutions []).0)
      × (contains k (conflict_keys (merge_var_maps scope ours theirs base resolutions []).1)
          ≡ contains k (conflict_keys (merge_var_maps scope theirs ours base resolutions []).1))
unfolding merged_at
merge_var_maps-swap scope ours theirs base resolutions k =
    rw
      (
        merge_var_maps-get scope ours theirs base resolutions k [],
        merge_var_maps-get scope theirs ours base resolutions k [],
        merge_var_maps-conflict_keys scope ours theirs base resolutions k,
        merge_var_maps-conflict_keys scope theirs ours base resolutions k,
      )
      (merge_entry-swap (Maps.get k ours) (Maps.get k theirs) (Maps.get k base)
        (Maps.get (resolution_key scope k) resolutions))
