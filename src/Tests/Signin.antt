-- ===== src/Tests/Signin.antt =====
-- A sign-in with a toy hash, and the texts of its cookies.
use systemvitals.Base.{
  ℕ, ◌*◌, ◌+◌, ◌^◌, ◌%◌, ◌≤◌, ◌<◌, ◌≡◌, refl, true, false, not, some, List, [], ◌∷◌, ◌++◌, any, ltb,
  ltb→lt, arith,
}
use systemvitals.Base.Text.{Text, codes, truthy, join}
use systemvitals.OauthState.{
  Crypto, CookieHeader, one_header, headers, generate_nonce, sign_nonce, verify_state,
  build_state_cookie_header, build_clear_state_cookie_header,
}
use systemvitals.OauthState.Cookies.{ours}
use systemvitals.OauthState.RoundTrip.{IsCrypto, is_base64url, verify_state-sign_nonce}
use systemvitals.OauthState.Verified.{IsVerified, verify_state-IsVerified}

-- The last two bits of each byte, as `A`, `B`, `C` or `D`.
abbrev letters : Text → Text
letters [] = []
letters (c ∷ s) = (b'A' + c % 4) ∷ letters s

abbrev toy : Crypto
toy = record { utf8 = λ s. s; mac = λ key message. 7 ∷ key ++ message; base64url = letters }

letters-charset : (s : Text) → any (λ c. not (is_base64url c)) (letters s) ≡ false
letters-charset [] = refl
letters-charset (c ∷ s) = ground (arith, letters-charset s)

letters-truthy : (s : Text) → truthy s ≡ true → truthy (letters s) ≡ true
letters-truthy [] h = h
letters-truthy (c ∷ s) h = refl

toy-IsCrypto : IsCrypto toy
toy-IsCrypto = record {
  digest = λ key message. refl;
  filled = letters-truthy;
  charset = letters-charset;
}

abbrev session : Text
session = codes "session=1"

abbrev request : CookieHeader
request = one_header (
    join (codes "; ")
      (session ∷ ours (sign_nonce toy (codes "k") (generate_nonce toy (1 ∷ 2 ∷ [])) 1000) ∷ []))

verify_state-sign_nonce_example :
    verify_state toy request (some (generate_nonce toy (1 ∷ 2 ∷ []))) (codes "k") 2000 ≡ true
unfolding systemvitals.OauthState.read_part systemvitals.Base.Text.trim
verify_state-sign_nonce_example =
    verify_state-sign_nonce toy toy-IsCrypto (codes "k") (1 ∷ 2 ∷ []) 1000 2000 (session ∷ []) []
      refl (ltb→lt 1000 (2 ^ 53) refl) (omega arith) (omega arith) ((refl, refl), tt)

verify_state-IsVerified_example :
    IsVerified toy request (some (generate_nonce toy (1 ∷ 2 ∷ []))) (codes "k") 2000
verify_state-IsVerified_example =
    verify_state-IsVerified toy request (some (generate_nonce toy (1 ∷ 2 ∷ []))) (codes "k") 2000
      verify_state-sign_nonce_example

clear_header :
    build_clear_state_cookie_header true
    ≡ codes "sv_oauth_state=; Path=/auth; HttpOnly; SameSite=Lax; Max-Age=0; Secure"
unfolding build_clear_state_cookie_header
clear_header = refl
