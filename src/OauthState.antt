-- ===== src/OauthState.antt =====
-- api/src/auth/oauth-state.ts: the signed nonce that a browser carries through a Google sign-in, in a
-- cookie and in the `state` of the request. Bytes are numbers, as code units are.
pub mod Cookies
pub mod RoundTrip
pub mod Verified
use systemvitals.Base.{
  ℕ, zero, suc, ◌+◌, ◌*◌, ◌-◌, ◌^◌, Bool, true, false, ◌&&◌, ◌||◌, not, Option, none, some, List,
  [], ◌∷◌, ◌++◌, ◌==◌, leb, ltb, length, take, if◌then◌else◌,
}
use systemvitals.Base.Text.{
  Text, codes, text_eq, truthy, trim, last_index_of, index_of, drop, split, join, all_digits,
  number_from,
}
use systemvitals.Base.Decimal.{decimal}

abbrev pub oauth_state_cookie : Text
oauth_state_cookie = codes "sv_oauth_state"

abbrev pub cookie_path : Text
cookie_path = codes "/auth"

abbrev pub max_age_seconds : ℕ
max_age_seconds = 600

abbrev pub max_age_ms : ℕ
max_age_ms = max_age_seconds * 1000

abbrev pub future_skew_ms : ℕ
future_skew_ms = 60000

abbrev pub derivation_label : Text
derivation_label = codes "sv-oauth-state-cookie"

-- What the source takes from node: the UTF-8 bytes of a string, HMAC-SHA256 of a key and a message, and
-- base64url.
pub record Crypto : Type 0 where
  pub utf8 : Text → Text
  pub mac : Text → Text → Text
  pub base64url : Text → Text

abbrev pub payload_of : Text → ℕ → Text
payload_of nonce issued_at = nonce ++ b'.' ∷ decimal issued_at

-- What stands before the last dot and behind it; neither may be empty.
unfoldable pub split_last_dot : Text → Option (Text × Text)
split_last_dot value = elim (last_index_of b'.' value) [
  | none ↦ none
  | some dot ↦
      if leb dot 0 || (dot == length value - 1)
      then none
      else some (take dot value, drop (suc dot) value)
]

-- `Number.isSafeInteger` of digits: from 2 ^ 53 on, rounding leads to no safe integer.
abbrev pub is_safe : ℕ → Bool
is_safe n = ltb n (2 ^ 53)

-- No older than the window, and no further in the future than the skew.
abbrev pub is_fresh : ℕ → ℕ → Bool
is_fresh now issued_at = leb (now - issued_at) max_age_ms && leb (issued_at - now) future_skew_ms

unfoldable pub verify_payload : Text → ℕ → Option Text
verify_payload payload now = elim (split_last_dot payload) [
  | none ↦ none
  | some parts ↦
      if all_digits parts.1
        && is_safe (number_from 0 parts.1)
        && is_fresh now (number_from 0 parts.1)
      then some parts.0
      else none
]

module _ (crypto : Crypto) where
  unfoldable pub derive_secret : Text → Text
  derive_secret jwt_secret = crypto.mac (crypto.utf8 jwt_secret) (crypto.utf8 derivation_label)

  unfoldable pub hmac : Text → Text → Text
  hmac secret value = crypto.base64url (crypto.mac secret (crypto.utf8 value))

  unfoldable pub timing_safe_strings_equal : Text → Text → Bool
  timing_safe_strings_equal a b =
      if length (crypto.utf8 a) == length (crypto.utf8 b)
      then text_eq (crypto.utf8 a) (crypto.utf8 b)
      else false

  -- The random bytes are an argument.
  unfoldable pub generate_nonce : Text → Text
  generate_nonce bytes = crypto.base64url bytes

  unfoldable pub sign_nonce : Text → Text → ℕ → Text
  sign_nonce jwt_secret nonce now =
      let payload = payload_of nonce now in
      payload ++ b'.' ∷ hmac (derive_secret jwt_secret) payload

  unfoldable pub verify_signed_cookie : Text → Text → ℕ → Option Text
  verify_signed_cookie jwt_secret cookie_value now = elim (split_last_dot cookie_value) [
    | none ↦ none
    | some parts ↦
        if timing_safe_strings_equal parts.1 (hmac (derive_secret jwt_secret) parts.0)
        then verify_payload parts.0 now
        else none
  ]

-- `string | string[] | undefined`
pub data CookieHeader : Type 0 where
  no_header : CookieHeader
  one_header : Text → CookieHeader
  headers : List Text → CookieHeader

-- The value of one part of a cookie header, if its name is this one.
unfoldable pub read_part : Text → Text → Option Text
read_part name part = elim (index_of b'=' part) [
  | none ↦ none
  | some eq ↦ if text_eq (trim (take eq part)) name then some (trim (drop (suc eq) part)) else none
]

unfoldable pub read_parts : Text → List Text → Option Text
read_parts name [] = none
read_parts name (part ∷ parts) = elim (read_part name part) [
  | some value ↦ some value
  | none ↦ read_parts name parts
]

unfoldable pub read_cookie : CookieHeader → Text → Option Text
read_cookie no_header name = none
read_cookie (one_header header) name =
    if truthy header then read_parts name (split b';' header) else none
read_cookie (headers hs) name = read_parts name (split b';' (join (codes "; ") hs))

-- `if (!value)` of a string that may be missing
abbrev pub present : Option Text → Option Text
present none = none
present (some s) = if truthy s then some s else none

unfoldable pub verify_state : Crypto → CookieHeader → Option Text → Text → ℕ → Bool
verify_state crypto header state_param jwt_secret now = elim (present state_param) [
  | none ↦ false
  | some state ↦ elim (present (read_cookie header oauth_state_cookie)) [
    | none ↦ false
    | some cookie_value ↦ elim (present (verify_signed_cookie crypto jwt_secret cookie_value now)) [
      | none ↦ false
      | some nonce ↦ timing_safe_strings_equal crypto nonce state
    ]
  ]
]

abbrev pub cookie_attrs : Bool → Text → List Text
cookie_attrs secure extra =
    let attrs =
      (codes "Path=" ++ cookie_path) ∷ codes "HttpOnly" ∷ codes "SameSite=Lax" ∷ extra ∷ [] in
    if secure then attrs ++ codes "Secure" ∷ [] else attrs

unfoldable pub build_state_cookie_header : Text → Bool → Text
build_state_cookie_header value secure = join (codes "; ") (
    (oauth_state_cookie ++ b'=' ∷ value)
    ∷ cookie_attrs secure (codes "Max-Age=" ++ decimal max_age_seconds))

unfoldable pub build_clear_state_cookie_header : Bool → Text
build_clear_state_cookie_header secure =
    join (codes "; ") ((oauth_state_cookie ++ b'=' ∷ []) ∷ cookie_attrs secure (codes "Max-Age=0"))
