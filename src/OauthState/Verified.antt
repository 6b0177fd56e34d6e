-- ===== src/OauthState/Verified.antt =====
-- What a state that is accepted goes back to.
use systemvitals.Base.{
  ℕ, suc, ◌+◌, ◌-◌, ◌≤◌, ◌≡◌, inl, inr, true, Option, none, some, ◌∷◌, ◌++◌, arith, leb→le, take,
  Option-cases,
}
use mathlib.Core.Path.{subst}
use systemvitals.Base.Text.{Text, text_eq_iff, last_index_of, drop, all_digits, number_from}
use systemvitals.Base.Split.{last_index_of-found}
use systemvitals.OauthState.{
  oauth_state_cookie, max_age_ms, future_skew_ms, Crypto, derive_secret, hmac,
  timing_safe_strings_equal, split_last_dot, verify_payload, verify_signed_cookie, CookieHeader,
  read_cookie, present, verify_state,
}

split_last_dot-found :
    (value : Text) (parts : Text × Text)
    → split_last_dot value ≡ some parts
    → value ≡ parts.0 ++ b'.' ∷ parts.1
unfolding split_last_dot
split_last_dot-found value parts h = elim (Option-cases (last_index_of b'.' value)) [
  | inl e ↦ ground arith
  | inr (dot, e) ↦
      let same : (take dot value, drop (suc dot) value) ≡ parts = ground arith in
      subst (λ (p : Text × Text). value ≡ p.0 ++ b'.' ∷ p.1) same
        (last_index_of-found b'.' value dot e)
]

equal_bytes :
    (crypto : Crypto) (a b : Text)
    → timing_safe_strings_equal crypto a b ≡ true
    → crypto.utf8 a ≡ crypto.utf8 b
unfolding timing_safe_strings_equal
equal_bytes crypto a b h = ground (arith, text_eq_iff (crypto.utf8 a) (crypto.utf8 b))

-- A payload that is valid now.
pub record IsFresh (payload : Text) (now : ℕ) (nonce : Text) : Type 0 where
  pub issued : Text
  pub shape : payload ≡ nonce ++ b'.' ∷ issued
  pub digits : all_digits issued ≡ true
  pub young : now ≤ number_from 0 issued + max_age_ms
  pub past : number_from 0 issued ≤ now + future_skew_ms

verify_payload-IsFresh :
    (payload : Text) (now : ℕ) (nonce : Text)
    → verify_payload payload now ≡ some nonce
    → IsFresh payload now nonce
unfolding verify_payload
verify_payload-IsFresh payload now nonce h = elim (Option-cases (split_last_dot payload)) [
  | inl e ↦ ground arith
  | inr (parts, e) ↦
      let same : parts.0 ≡ nonce = ground arith in
      record {
        issued = parts.1;
        shape =
            subst (λ n. payload ≡ n ++ b'.' ∷ parts.1) same (split_last_dot-found payload parts e);
        digits = ground arith;
        young = ground (arith, leb→le (now - number_from 0 parts.1) max_age_ms);
        past = ground (arith, leb→le (number_from 0 parts.1 - now) future_skew_ms);
      }
]

-- A cookie that was signed with the secret.
pub record IsSigned (crypto : Crypto) (jwt_secret value : Text) (now : ℕ) (nonce : Text)
    : Type 0 where
  pub payload : Text
  pub signature : Text
  pub shape : value ≡ payload ++ b'.' ∷ signature
  pub signed :
      crypto.utf8 signature ≡ crypto.utf8 (hmac crypto (derive_secret crypto jwt_secret) payload)
  pub fresh : IsFresh payload now nonce

verify_signed_cookie-IsSigned :
    (crypto : Crypto) (jwt_secret value : Text) (now : ℕ) (nonce : Text)
    → verify_signed_cookie crypto jwt_secret value now ≡ some nonce
    → IsSigned crypto jwt_secret value now nonce
unfolding verify_signed_cookie
verify_signed_cookie-IsSigned crypto jwt_secret value now nonce h =
    elim (Option-cases (split_last_dot value)) [
      | inl e ↦ ground arith
      | inr (parts, e) ↦
          let same : timing_safe_strings_equal crypto parts.1
                (hmac crypto (derive_secret crypto jwt_secret) parts.0)
              ≡ true =
            ground arith in
          record {
            payload = parts.0;
            signature = parts.1;
            shape = split_last_dot-found value parts e;
            signed = equal_bytes crypto _ _ same;
            fresh = verify_payload-IsFresh parts.0 now nonce (ground arith);
          }
    ]

present-some : (o : Option Text) (s : Text) → present o ≡ some s → o ≡ some s
present-some none s h = ground arith
present-some (some t) s h = ground arith

-- The request that is accepted came with a state, and with a cookie that holds the same nonce.
pub record IsVerified (crypto : Crypto) (header : CookieHeader) (state_param : Option Text)
    (jwt_secret : Text) (now : ℕ) : Type 0 where
  pub state : Text
  pub given : state_param ≡ some state
  pub value : Text
  pub carried : read_cookie header oauth_state_cookie ≡ some value
  pub nonce : Text
  pub issued : IsSigned crypto jwt_secret value now nonce
  pub same : crypto.utf8 nonce ≡ crypto.utf8 state

-- A state is accepted only with a cookie of three fields between dots, a nonce, the time of issue in
-- decimal digits and a signature: the signature is the one that the secret gives for the first two, the
-- time is at most ten minutes old and at most a minute ahead, and the nonce has the bytes of the state.
pub verify_state-IsVerified :
    (crypto : Crypto) (header : CookieHeader) (state_param : Option Text) (jwt_secret : Text)
    (now : ℕ)
    → verify_state crypto header state_param jwt_secret now ≡ true
    → IsVerified crypto header state_param jwt_secret now
unfolding verify_state
verify_state-IsVerified crypto header state_param jwt_secret now h =
    elim (Option-cases (present state_param)) [
      | inl e ↦ ground arith
      | inr (state, e) ↦ elim (Option-cases (present (read_cookie header oauth_state_cookie))) [
        | inl f ↦ ground arith
        | inr (value, f) ↦
            elim (Option-cases (present (verify_signed_cookie crypto jwt_secret value now))) [
              | inl g ↦ ground arith
              | inr (nonce, g) ↦ record {
                state = state;
                given = present-some state_param state e;
                value = value;
                carried = present-some _ value f;
                nonce = nonce;
                issued =
                    verify_signed_cookie-IsSigned crypto jwt_secret value now nonce
                      (present-some _ nonce g);
                same = equal_bytes crypto nonce state (ground arith);
              }
            ]
      ]
    ]
