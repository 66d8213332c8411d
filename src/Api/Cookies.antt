-- ===== src/Api/Cookies.antt =====
-- src/api/session.ts: getSessionToken, the token in the Cookie header of a request.
use Prim.Native.Char.{code}
use abracadabra.Common.{
  ℕ, ◌==◌, String, str_eq, Bool, ◌≡◌, refl, if◌then◌else◌, Option, none, some, List, [], ◌∷◌,
}
use abracadabra.Common.Maps.{Map}
use abracadabra.Common.Texts.{trim}
use abracadabra.Api.Session.{is_authed}

abbrev session_cookie : String
session_cookie = "abra_session"

abbrev put_first : String → List String → List String
put_first c [] = c ∷ []
put_first c (s ∷ parts) = Prim.Native.String.◌++◌ c s ∷ parts

-- `header.split(";")`
unfoldable split_cookies : String → List String
split_cookies String.[] = "" ∷ []
split_cookies (String.◌∷◌ c s) =
    let parts = split_cookies s in
    if code c == b';' then "" ∷ parts else put_first (String.◌∷◌ c String.[]) parts

-- What stands before the first `=`, and after it.
unfoldable cookie_name : String → String
cookie_name String.[] = String.[]
cookie_name (String.◌∷◌ c s) =
    let rest = cookie_name s in if code c == b'=' then String.[] else String.◌∷◌ c rest

unfoldable cookie_value : String → String
cookie_value String.[] = String.[]
cookie_value (String.◌∷◌ c s) = let rest = cookie_value s in if code c == b'=' then s else rest

unfoldable find_token : List String → Option String
unfolding cookie_name cookie_value
find_token [] = none
find_token (part ∷ parts) =
    let cookie = trim part in
    let rest = find_token parts in
    if str_eq (cookie_name cookie) session_cookie then some (cookie_value cookie) else rest

unfoldable pub get_session_token : Option String → Option String
unfolding split_cookies find_token
get_session_token none = none
get_session_token (some header) =
    if str_eq header "" then none else find_token (split_cookies header)

-- `isAuthed` of a request with this Cookie header.
unfoldable pub is_authed_request : Map ℕ → (cookie : Option String) → (now : ℕ) → Map ℕ × Bool
is_authed_request sessions cookie now = is_authed sessions (get_session_token cookie) now

token_test : get_session_token (some "theme=dark; abra_session=ab=c ;x") ≡ some "ab=c"
unfolding get_session_token trim
token_test = refl

no_token_test : get_session_token (some "my_abra_session=ab; Abra_session=x") ≡ none
unfolding get_session_token trim
no_token_test = refl
