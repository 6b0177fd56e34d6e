-- ===== src/OauthState/RoundTrip.antt =====
-- A nonce that was signed, carried by a browser among its other cookies, and verified.
use systemvitals.Base.{
  ℕ, ◌+◌, ◌-◌, ◌^◌, ◌≤◌, ◌<◌, ◌≡◌, refl, Bool, true, false, ◌&&◌, ◌||◌, not, some, List, [], ◌∷◌,
  ◌++◌, arith, leb, le→leb, lt→ltb, ◌==◌, ==_refl, length, length-append, any, All,
}
use systemvitals.Base.Text.{Text, codes, text_eq_iff, truthy, join, is_digit}
use systemvitals.Base.Decimal.{decimal, number_from-decimal, all_digits-decimal, decimal-truthy}
use systemvitals.Base.Split.{
  any-append, any-narrow, all_digits-any, take-length-append, drop-suc-length, last_index_of-append,
}
use systemvitals.OauthState.Cookies.{breaks, IsOther, ours, truthy-append, read_cookie-ours}
use systemvitals.OauthState.{
  max_age_ms, future_skew_ms, Crypto, derive_secret, hmac, timing_safe_strings_equal,
  generate_nonce, payload_of, sign_nonce, split_last_dot, verify_payload, verify_signed_cookie,
  one_header, verify_state,
}

-- The two sides of a dot, behind which there is none.
split_last_dot-append :
    (s t : Text)
    → truthy s ≡ true
    → truthy t ≡ true
    → any (λ d. d == b'.') t ≡ false
    → split_last_dot (s ++ b'.' ∷ t) ≡ some (s, t)
unfolding split_last_dot
split_last_dot-append [] t hs ht h = ground arith
split_last_dot-append s [] hs ht h = ground arith
split_last_dot-append (a ∷ s) (b ∷ t) hs ht h =
    let inside : (length (a ∷ s) == length ((a ∷ s) ++ b'.' ∷ b ∷ t) - 1) ≡ false =
      ground (arith, length-append {0} (a ∷ s) (b'.' ∷ b ∷ t)) in
    let full : leb (length (a ∷ s)) 0 ≡ false = ground arith in
    rw
      (
        last_index_of-append b'.' (a ∷ s) (b ∷ t) h,
        full,
        inside,
        take-length-append (a ∷ s) (b'.' ∷ b ∷ t),
        drop-suc-length (a ∷ s) (b ∷ t) b'.',
      )
      refl

digit_no_dot : (c : ℕ) → is_digit c ≡ true → (c == b'.') ≡ false
digit_no_dot c h = ground arith

verify_payload-payload_of :
    (nonce : Text) (issued now : ℕ)
    → truthy nonce ≡ true
    → issued < 2 ^ 53
    → now ≤ issued + max_age_ms
    → issued ≤ now + future_skew_ms
    → verify_payload (payload_of nonce issued) now ≡ some nonce
unfolding verify_payload
verify_payload-payload_of nonce issued now full safe young past =
    rw
      (
        verify_payload,
        split_last_dot-append nonce (decimal issued) full (decimal-truthy issued)
            (all_digits-any _ digit_no_dot (decimal issued) (all_digits-decimal issued)),
        all_digits-decimal issued,
        number_from-decimal issued,
        lt→ltb issued (2 ^ 53) safe,
        le→leb (now - issued) max_age_ms (omega arith),
        le→leb (issued - now) future_skew_ms (omega arith),
      )
      refl

equal_refl : (crypto : Crypto) (a : Text) → timing_safe_strings_equal crypto a a ≡ true
unfolding timing_safe_strings_equal
equal_refl crypto a =
    rw (==_refl (length (crypto.utf8 a)), (text_eq_iff (crypto.utf8 a) (crypto.utf8 a)).1 refl) refl

-- The characters of base64url.
abbrev pub is_base64url : ℕ → Bool
is_base64url c =
    is_digit c
    || (leb b'A' c && leb c b'Z')
    || (leb b'a' c && leb c b'z')
    || (c == b'-')
    || (c == b'_')

-- What is documented of HMAC-SHA256 and base64url: a digest has bytes, bytes have characters, and each is
-- a letter, a digit, `-` or `_`.
pub record IsCrypto (crypto : Crypto) : Type 0 where
  pub digest : (key message : Text) → truthy (crypto.mac key message) ≡ true
  pub filled : (bytes : Text) → truthy bytes ≡ true → truthy (crypto.base64url bytes) ≡ true
  pub charset : (bytes : Text) → any (λ c. not (is_base64url c)) (crypto.base64url bytes) ≡ false

base64url_no_dot : (c : ℕ) → not (is_base64url c) ≡ false → (c == b'.') ≡ false
base64url_no_dot c h = ground arith

base64url_no_break : (c : ℕ) → not (is_base64url c) ≡ false → breaks c ≡ false
base64url_no_break c h = ground arith

digit_no_break : (c : ℕ) → is_digit c ≡ true → breaks c ≡ false
digit_no_break c h = ground arith

module _ (crypto : Crypto) (h : IsCrypto crypto) where
  verify_signed_cookie-sign_nonce :
      (jwt_secret nonce : Text) (issued now : ℕ)
      → truthy nonce ≡ true
      → issued < 2 ^ 53
      → now ≤ issued + max_age_ms
      → issued ≤ now + future_skew_ms
      → verify_signed_cookie crypto jwt_secret (sign_nonce crypto jwt_secret nonce issued) now
        ≡ some nonce
  unfolding verify_signed_cookie sign_nonce
  verify_signed_cookie-sign_nonce jwt_secret nonce issued now full safe young past =
      let payload : Text = payload_of nonce issued in
      let signature : Text = hmac crypto (derive_secret crypto jwt_secret) payload in
      let signed : truthy signature ≡ true = unfold hmac in h.filled _ (h.digest _ _) in
      let no_dot : any (λ d. d == b'.') signature ≡ false =
        unfold hmac in any-narrow _ _ base64url_no_dot signature (h.charset _) in
      rw
        (
          verify_signed_cookie,
          split_last_dot-append payload signature (truthy-append nonce (decimal issued) b'.') signed
              no_dot,
          equal_refl crypto signature,
          verify_payload-payload_of nonce issued now full safe young past,
        )
        refl

  sign_nonce-breaks :
      (jwt_secret bytes : Text) (issued : ℕ)
      → any breaks (sign_nonce crypto jwt_secret (generate_nonce crypto bytes) issued) ≡ false
  unfolding sign_nonce generate_nonce hmac
  sign_nonce-breaks jwt_secret bytes issued =
      let nonce : Text = crypto.base64url bytes in
      let payload : Text = payload_of nonce issued in
      let signature : Text = hmac crypto (derive_secret crypto jwt_secret) payload in
      rw
        (
          any-append breaks payload (b'.' ∷ signature),
          any-append breaks nonce (b'.' ∷ decimal issued),
          any-narrow _ _ base64url_no_break nonce (h.charset bytes),
          any-narrow _ _ base64url_no_break signature (h.charset _),
          all_digits-any _ digit_no_break (decimal issued) (all_digits-decimal issued),
        )
        refl

  -- A browser that signs in with Google sends back the state that it was given, and the cookie among its
  -- others: the state is accepted, up to ten minutes after it was made and up to a minute before.
  pub verify_state-sign_nonce :
      (jwt_secret bytes : Text) (issued now : ℕ) (others after : List Text)
      → truthy bytes ≡ true
      → issued < 2 ^ 53
      → now ≤ issued + max_age_ms
      → issued ≤ now + future_skew_ms
      → All IsOther others
      → let nonce = generate_nonce crypto bytes in
        let value = sign_nonce crypto jwt_secret nonce issued in
        verify_state crypto
          (one_header (join (codes "; ") (others ++ ours value ∷ after)))
          (some nonce)
          jwt_secret
          now
        ≡ true
  unfolding verify_state
  verify_state-sign_nonce jwt_secret bytes issued now others after some_bytes safe young past hs =
      let nonce : Text = generate_nonce crypto bytes in
      let value : Text = sign_nonce crypto jwt_secret nonce issued in
      let full : truthy nonce ≡ true = unfold generate_nonce in h.filled bytes some_bytes in
      let present_value : truthy value ≡ true =
        unfold sign_nonce in truthy-append (payload_of nonce issued) _ _ in
      rw
        (
          verify_state,
          full,
          read_cookie-ours value others after (sign_nonce-breaks jwt_secret bytes issued) hs,
          present_value,
          verify_signed_cookie-sign_nonce jwt_secret nonce issued now full safe young past,
          full,
          equal_refl crypto nonce,
        )
        refl
