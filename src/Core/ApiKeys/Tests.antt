-- ===== src/Core/ApiKeys/Tests.antt =====
-- Tests of src/core/apikeys.ts.
use Prim.Native.Char.{code}
use abracadabra.Common.{ℕ, String, true, ◌≡◌, ◌≢◌, ◌↔◌, refl, none, some, [], ◌∷◌}
use abracadabra.Agent.Buffers.{Bytes}
use abracadabra.Core.Vault.{ApiKey, empty_vault}
use abracadabra.Core.ApiKeys.{
  key_id, full_key, expired, same_bytes, IsInTime, Covers, generate_api_key, find_valid_api_key,
  api_key_has_access, with_key, find_valid_api_key-generate_api_key,
}

key_id_test : key_id "abra_0123abcd_-x_Y" ≡ some "0123abcd"
unfolding key_id
key_id_test = refl

no_key_id_test : key_id "abra_0123abcD_x" ≡ none
unfolding key_id
no_key_id_test = refl

abbrev hash : String → String
hash s = s

abbrev from_hex : String → Bytes
from_hex String.[] = []
from_hex (String.◌∷◌ c s) = code c ∷ from_hex s

abbrev made : ApiKey
made = record {
  id = "0123abcd";
  name = "ci";
  key_hash = "abra_0123abcd_xy";
  prefix = "abra_0123abcd";
  projects = some ("web" ∷ []);
  created_at = 5;
  expires_at = some 86400005;
  github = none;
}

generate_test :
    generate_api_key hash from_hex "0123abcd" "xy" "ci" (some ("web" ∷ [])) (some 1) 5
    ≡ (made, "abra_0123abcd_xy")
unfolding generate_api_key full_key
generate_test = refl

find_valid_api_key-generate_api_key_example :
    let stored = with_key empty_vault made in
    ((now : ℕ)
      → (find_valid_api_key hash from_hex stored "abra_0123abcd_xy" now ≡ some made)
        ↔ IsInTime (some 1) 5 now)
    × ((other : String) (now : ℕ)
        → key_id other ≡ some "0123abcd"
        → from_hex (hash other) ≢ from_hex (hash "abra_0123abcd_xy")
        → find_valid_api_key hash from_hex stored other now ≡ none)
    × ((p : String) → (api_key_has_access made p ≡ true) ↔ Covers (some ("web" ∷ [])) p)
unfolding generate_api_key full_key key_id
find_valid_api_key-generate_api_key_example =
    find_valid_api_key-generate_api_key hash from_hex "0123abcd" "xy" "ci" (some ("web" ∷ []))
      (some 1) 5 empty_vault refl

found_test :
    find_valid_api_key hash from_hex (with_key empty_vault made) "abra_0123abcd_xy" 86400005
    ≡ some made
unfolding find_valid_api_key key_id same_bytes expired abracadabra.Common.Maps.get
    abracadabra.Common.Maps.set
found_test = refl

expired_test :
    find_valid_api_key hash from_hex (with_key empty_vault made) "abra_0123abcd_xy" 86400006 ≡ none
unfolding find_valid_api_key key_id same_bytes expired abracadabra.Common.Maps.get
    abracadabra.Common.Maps.set
expired_test = refl
