-- ===== src/Core/ApiKeys.antt =====
-- src/core/apikeys.ts: the keys of the API. `hash` is hashKey, `from_hex` reads hexadecimal, and the id
-- and the secret of a new key, which are drawn at random, are arguments.
mod Tests
use Prim.Native.Char.{code}
use Prim.Native.String.{◌++◌ as join}
use abracadabra.Common.{
  ℕ, zero, suc, ◌+◌, ◌*◌, ◌≤◌, leb, ltb, ◌==◌, ==_iff, String, str_eq, eq_iff, Bool, Bool-cases,
  inl, inr, ◌⊎◌, ◌↔◌, ◌≢◌, true, false, ◌&&◌, ◌||◌, not, ◌≡◌, refl, ◌∙◌, sym, ap, if◌then◌else◌,
  Option, none, some, get_or, List, [], ◌∷◌, arith,
}
use abracadabra.Common.Maps
use abracadabra.Common.Maps.{Map, contains, get-set_self}
use abracadabra.Agent.Buffers.{Bytes}
use abracadabra.Core.Vault.{Vault, ApiKey}

is_lower_hex : ℕ → Bool
is_lower_hex c = (leb b'0' c && leb c b'9') || (leb b'a' c && leb c b'f')

is_secret_char : ℕ → Bool
is_secret_char c =
    (leb b'A' c && leb c b'Z')
    || (leb b'a' c && leb c b'z')
    || (leb b'0' c && leb c b'9')
    || c == b'_'
    || c == b'-'

all_secret_chars : String → Bool
all_secret_chars String.[] = true
all_secret_chars (String.◌∷◌ c s) = is_secret_char (code c) && all_secret_chars s

-- `_` and one or more characters of a secret.
is_tail : String → Bool
is_tail String.[] = false
is_tail (String.◌∷◌ c String.[]) = false
is_tail (String.◌∷◌ c (String.◌∷◌ d s)) =
    code c == b'_' && is_secret_char (code d) && all_secret_chars s

-- `n` more hexadecimal digits of the id, and then the tail.
id_then_tail : ℕ → String → Option String
id_then_tail zero s = if is_tail s then some "" else none
id_then_tail (suc n) String.[] = none
id_then_tail (suc n) (String.◌∷◌ c s) =
    let rest = id_then_tail n s in
    if is_lower_hex (code c)
    then elim rest [ none ↦ none | some id ↦ some (String.◌∷◌ c id) ]
    else none

-- What follows a prefix.
after : String → String → Option String
after String.[] s = some s
after (String.◌∷◌ p ps) String.[] = none
after (String.◌∷◌ p ps) (String.◌∷◌ c s) =
    let rest = after ps s in if code p == code c then rest else none

-- The id of a token of the shape /^abra_([0-9a-f]{8})_([A-Za-z0-9_-]+)$/.
unfoldable pub key_id : String → Option String
unfolding after id_then_tail is_tail all_secret_chars is_secret_char is_lower_hex
key_id token = elim (after "abra_" token) [ none ↦ none | some s ↦ id_then_tail 8 s ]

abbrev take : ℕ → String → String
take n String.[] = String.[]
take zero (String.◌∷◌ c s) = String.[]
take (suc n) (String.◌∷◌ c s) = String.◌∷◌ c (take n s)

unfoldable pub full_key : (id secret : String) → String
full_key id secret = join "abra_" (join id (join "_" secret))

abbrev pub or_all : Option (List String) → Option (List String)
or_all (some (p ∷ ps)) = some (p ∷ ps)
or_all _ = none

-- `opts?.expiresInDays`, where 0 is falsy.
abbrev pub expiry : (now : ℕ) → Option ℕ → Option ℕ
expiry now none = none
expiry now (some days) = if days == 0 then none else some (now + days * 86400000)

unfoldable pub same_bytes : Bytes → Bytes → Bool
same_bytes [] [] = true
same_bytes [] (b ∷ bs) = false
same_bytes (a ∷ xs) [] = false
same_bytes (a ∷ xs) (b ∷ bs) = a == b && same_bytes xs bs

-- An `expiresAt` of 0 is falsy.
unfoldable pub expired : ApiKey → (now : ℕ) → Bool
expired key now = elim key.expires_at [ none ↦ false | some e ↦ not (e == 0) && ltb e now ]

unfoldable pub api_key_has_access : ApiKey → (project : String) → Bool
api_key_has_access key project = elim key.projects [ none ↦ true | some ps ↦ contains project ps ]

module _ (hash : String → String) (from_hex : String → Bytes) where
  unfoldable pub generate_api_key :
      (id secret name : String)
      → (projects : Option (List String)) → (days : Option ℕ) → (now : ℕ) → ApiKey × String
  generate_api_key id secret name projects days now = (
    record {
      id = id;
      name = name;
      key_hash = hash (full_key id secret);
      prefix = take 13 (full_key id secret);
      projects = or_all projects;
      created_at = now;
      expires_at = expiry now days;
      github = none;
    },
    full_key id secret,
  )

  unfoldable pub find_valid_api_key : Vault → (token : String) → (now : ℕ) → Option ApiKey
  find_valid_api_key vault token now = elim (key_id token) [
    | none ↦ none
    | some id ↦ elim (Maps.get id (get_or vault.api_keys [])) [
      | none ↦ none
      | some key ↦
          if not (same_bytes (from_hex (hash token)) (from_hex key.key_hash))
          then none
          else if expired key now
          then none
          else some key
    ]
  ]

same_bytes_self : (bs : Bytes) → same_bytes bs bs ≡ true
unfolding same_bytes
same_bytes_self [] = refl
same_bytes_self (b ∷ bs) = ground (arith, same_bytes_self bs)

stored_key :
    (hash : String → String) (from_hex : String → Bytes) (vault : Vault) (token id : String)
    (key : ApiKey) (now : ℕ)
    → key_id token ≡ some id
    → Maps.get id (get_or vault.api_keys []) ≡ some key
    → key.key_hash ≡ hash token
    → find_valid_api_key hash from_hex vault token now
      ≡ (if expired key now then none else some key)
unfolding find_valid_api_key
stored_key hash from_hex vault token id key now h g k =
    rw (find_valid_api_key, h, g, k, same_bytes_self (from_hex (hash token))) refl

-- The vault with a new key, as the commands store it.
abbrev pub with_key : Vault → ApiKey → Vault
with_key vault key = record vault {
  api_keys = some (Maps.set key.id key (get_or vault.api_keys []));
}

same_bytes_sound : (xs ys : Bytes) → same_bytes xs ys ≡ true → xs ≡ ys
unfolding same_bytes
same_bytes_sound [] [] h = refl
same_bytes_sound [] (b ∷ bs) h = absurd (cc)
same_bytes_sound (a ∷ xs) [] h = absurd (cc)
same_bytes_sound (a ∷ xs) (b ∷ bs) h = ground (arith, same_bytes_sound xs bs, ==_iff a b)

-- No days, or none that count, or not later than so many days after the key was made.
pub IsInTime : (days : Option ℕ) → (made now : ℕ) → Type 0
IsInTime none made now = Unit
IsInTime (some days) made now = days ≢ 0 → now ≤ made + days * 86400000

pub OneOf : String → List String → Type 0
OneOf p [] = ⊥
OneOf p (q ∷ qs) = (q ≡ p) ⊎ OneOf p qs

-- No list of projects, an empty one, or one with this project.
pub Covers : Option (List String) → String → Type 0
Covers none p = Unit
Covers (some []) p = Unit
Covers (some (q ∷ qs)) p = OneOf p (q ∷ qs)

contains-OneOf : (p : String) (qs : List String) → (contains p qs ≡ true) ↔ OneOf p qs
unfolding OneOf contains
contains-OneOf p [] = ((λ h. cc), (λ h. absurd h))
contains-OneOf p (q ∷ qs) = elim (Bool-cases (str_eq q p)) [
  | inl e ↦ ((λ h. inl ((eq_iff q p).0 e)), (λ h. rw e refl))
  | inr e ↦ (
    (λ h. inr ((contains-OneOf p qs).0 (rw e at h))),
    (λ h. elim h [ inl f ↦ cc (e, (eq_iff q p).1 f) | inr g ↦ rw e ((contains-OneOf p qs).1 g) ]),
  )
]

module _ (hash : String → String) (from_hex : String → Bytes) (id secret name : String)
    (projects : Option (List String)) (days : Option ℕ) (made : ℕ) where
  abbrev new_key : ApiKey
  new_key = (generate_api_key hash from_hex id secret name projects days made).0

  expired-IsInTime :
      (now : ℕ)
      → ((expired new_key now ≡ false) → IsInTime days made now)
        × (IsInTime days made now → expired new_key now ≡ false)
  unfolding expired IsInTime generate_api_key
  expired-IsInTime now = go days
    where
      go :
          (d : Option ℕ)
          → ((elim (expiry made d) [ none ↦ false | some e ↦ not (e == 0) && ltb e now ] ≡ false)
              → IsInTime d made now)
            × (IsInTime d made now
                → elim (expiry made d) [ none ↦ false | some e ↦ not (e == 0) && ltb e now ]
                  ≡ false)
      go none = ((λ h. tt), (λ h. refl))
      go (some n) = ((λ h z. ground arith), (λ h. ground arith))

  access-Covers : (p : String) → (api_key_has_access new_key p ≡ true) ↔ Covers projects p
  unfolding api_key_has_access Covers generate_api_key
  access-Covers p = go projects
    where
      go :
          (o : Option (List String))
          → (elim (or_all o) [ none ↦ true | some ps ↦ contains p ps ] ≡ true) ↔ Covers o p
      go none = ((λ h. tt), (λ h. refl))
      go (some []) = ((λ h. tt), (λ h. refl))
      go (some (q ∷ qs)) = contains-OneOf p (q ∷ qs)

  -- A key that is generated, with an id and a secret of the right shape, and stored is found by its
  -- full text exactly while no more than its days have passed since it was made, and always where no
  -- days, or 0 days, were asked for. A text with the same id whose hash reads as other bytes finds
  -- nothing. The key gives access to exactly the projects it was made for, and to all where none
  -- were named.
  pub find_valid_api_key-generate_api_key :
      (vault : Vault)
      → key_id (full_key id secret) ≡ some id
      → let made_key = generate_api_key hash from_hex id secret name projects days made in
        let stored = with_key vault made_key.0 in
        ((now : ℕ)
          → (find_valid_api_key hash from_hex stored made_key.1 now ≡ some made_key.0)
            ↔ IsInTime days made now)
        × ((other : String) (now : ℕ)
            → key_id other ≡ some id
            → from_hex (hash other) ≢ from_hex (hash made_key.1)
            → find_valid_api_key hash from_hex stored other now ≡ none)
        × ((p : String) → (api_key_has_access made_key.0 p ≡ true) ↔ Covers projects p)
  unfolding generate_api_key find_valid_api_key
  find_valid_api_key-generate_api_key vault h =
      let kept = get_or vault.api_keys [] in
      let found = λ (now : ℕ).
        stored_key hash from_hex (with_key vault new_key) (full_key id secret) id new_key now h
          (get-set_self id new_key kept) refl in
      (
        (λ now. elim (Bool-cases (expired new_key now)) [
          | inl e ↦ (
            (λ f. absurd (cc (f, found now, e))),
            (λ t. absurd (cc (e, (expired-IsInTime now).1 t))),
          )
          | inr e ↦ ((λ f. (expired-IsInTime now).0 e), (λ t. found now ∙ rw e refl))
        ]),
        (λ other now k n.
            elim (Bool-cases (same_bytes (from_hex (hash other)) (from_hex new_key.key_hash))) [
              | inl e ↦ absurd (n (same_bytes_sound _ _ e))
              | inr e ↦ rw (find_valid_api_key, k, get-set_self id new_key kept, e) refl
            ]),
        access-Covers,
      )
