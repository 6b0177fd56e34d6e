-- ===== src/TokenPolicy/Laws.antt =====
-- What the policy of api/src/tokens/token-policy.ts lets a credential do.
use systemvitals.Base.{
  ℕ, ◌≡◌, ◌⊎◌, inl, inr, refl, ◌↔◌, Bool, true, false, ◌&&◌, ◌||◌, Option, none, some, List, [],
  ◌∷◌, ◌++◌, arith, any, In, Bool-cases,
}
use systemvitals.Base.Text.{Text, codes, text_eq_iff}
use systemvitals.Base.Result.{ok, err}
use systemvitals.Routing.Laws.{In-any}
use systemvitals.TokenPolicy.{
  TokenCapability, checks_read, checks_write, account_manage, ApiTokenMetadata, PolicyError,
  api_token, scoped_token_operations, session_only_operations, has, same_capability,
  is_account_token, is_scoped, is_legacy_broad, require_operation_access, is_bound_elsewhere,
  is_read, has_legacy_access, require_check_access,
}

has_iff : (o : Text) (set : List Text) → (has o set ≡ true) ↔ In o set
unfolding has
has_iff o [] = ground arith
has_iff o (s ∷ set) = ground (arith, has_iff o set, text_eq_iff s o)

any-false :
    {A : Type 0} (p : A → Bool) (xs : List A) (a : A) → any p xs ≡ false → In a xs → p a ≡ false
any-false p xs a h m = elim (Bool-cases (p a)) [
  | inl e ↦ ground (arith, In-any p a xs m e)
  | inr e ↦ e
]

-- No operation is both for scoped credentials and for sessions only.
disjoint : (o : Text) → has o scoped_token_operations ≡ true → has o session_only_operations ≡ false
unfolding has
disjoint o h =
    any-false (λ s. has s session_only_operations) scoped_token_operations o refl
      ((has_iff o scoped_token_operations).0 h)

has-append : (o : Text) (a b : List Text) → has o (a ++ b) ≡ (has o a || has o b)
unfolding has
has-append o [] b = refl
has-append o (s ∷ a) b = ground (arith, has-append o a b)

refused : {A : Type 0} {e : PolicyError} {a : A} → err e ≡ ok a → ⊥
refused h = ground arith

-- A credential that is bound to a project or lists capabilities, and is not an account credential, may
-- call exactly the operations of the scoped list, whatever legacy scopes it has.
pub scoped_operations :
    (t : ApiTokenMetadata) (operation : Text)
    → is_scoped t ≡ true
    → is_account_token (api_token t) ≡ false
    → (require_operation_access (api_token t) operation ≡ ok tt)
      ↔ (has operation scoped_token_operations ≡ true)
unfolding require_operation_access is_legacy_broad
scoped_operations t operation s a = (
  (λ h. elim (Bool-cases (has operation scoped_token_operations)) [
    | inl e ↦ e
    | inr e ↦ elim (Bool-cases (has operation session_only_operations)) [
      | inl f ↦ absurd (refused (rw (a, f, require_operation_access) at h))
      | inr f ↦ absurd (refused (rw (a, f, is_legacy_broad, s, e, require_operation_access) at h))
    ]
  ]),
  (λ h. rw (a, disjoint operation h, is_legacy_broad, s, h) refl),
)

same_capability_iff : (a b : TokenCapability) → (same_capability a b ≡ true) ↔ (a ≡ b)
same_capability_iff checks_read checks_read = ((λ h. refl), (λ h. refl))
same_capability_iff checks_read checks_write = ground arith
same_capability_iff checks_read account_manage = ground arith
same_capability_iff checks_write checks_read = ground arith
same_capability_iff checks_write checks_write = ((λ h. refl), (λ h. refl))
same_capability_iff checks_write account_manage = ground arith
same_capability_iff account_manage checks_read = ground arith
same_capability_iff account_manage checks_write = ground arith
same_capability_iff account_manage account_manage = ((λ h. refl), (λ h. refl))

-- What a token grants on a check of a project.
abbrev pub Grants : ApiTokenMetadata → TokenCapability → Type 0
Grants t capability =
    In capability t.capabilities
    ⊎ (In (codes "write") t.legacy_scopes
        ⊎ ((capability ≡ checks_read) × In (codes "read") t.legacy_scopes))

true_not_false : false ≡ true → ⊥
true_not_false h = ground arith

capability_iff :
    (c : TokenCapability) (cs : List TokenCapability)
    → (any (λ d. same_capability d c) cs ≡ true) ↔ In c cs
capability_iff c [] = ground arith
capability_iff c (d ∷ cs) = ground (arith, capability_iff c cs, same_capability_iff d c)

or_iff : {P Q : Type 0} (a b : Bool) → (a ≡ true) ↔ P → (b ≡ true) ↔ Q → ((a || b) ≡ true) ↔ (P ⊎ Q)
or_iff true b p q = ((λ h. inl (p.0 h)), (λ h. refl))
or_iff false b p q =
    ((λ h. inr (q.0 h)), (λ h. elim h [ inl x ↦ absurd (true_not_false (p.1 x)) | inr x ↦ q.1 x ]))

and_iff :
    {P Q : Type 0} (a b : Bool) → (a ≡ true) ↔ P → (b ≡ true) ↔ Q → ((a && b) ≡ true) ↔ (P × Q)
and_iff true b p q = ((λ h. (p.0 refl, q.0 h)), (λ (x, y). q.1 y))
and_iff false b p q = ((λ h. absurd (true_not_false h)), (λ (x, y). p.1 x))

Grants-iff :
    (t : ApiTokenMetadata) (c : TokenCapability)
    → ((any (λ d. same_capability d c) t.capabilities || has_legacy_access t c) ≡ true) ↔ Grants t c
unfolding has_legacy_access
Grants-iff t c =
    or_iff (any (λ d. same_capability d c) t.capabilities) (has_legacy_access t c)
      (capability_iff c t.capabilities)
      (or_iff (has (codes "write") t.legacy_scopes)
        (is_read c && has (codes "read") t.legacy_scopes) (has_iff (codes "write") t.legacy_scopes)
        (and_iff (is_read c) (has (codes "read") t.legacy_scopes)
          (same_capability_iff c checks_read) (has_iff (codes "read") t.legacy_scopes)))

bound_iff : (o : Option ℕ) (p : ℕ) → (is_bound_elsewhere o p ≡ false) ↔ ((o ≡ none) ⊎ (o ≡ some p))
bound_iff none p = ((λ h. inl refl), (λ h. refl))
bound_iff (some q) p = ground arith

-- A token that is not an account credential reaches a check with a capability exactly where it is bound
-- to no project or to the check's, and either lists the capability, or has the legacy scope `write`,
-- or has the legacy scope `read` and the capability is reading.
pub check_access_exact :
    (t : ApiTokenMetadata) (capability : TokenCapability) (project_id : ℕ)
    → is_account_token (api_token t) ≡ false
    → (require_check_access (api_token t) capability project_id ≡ ok tt)
      ↔ (((t.project_id ≡ none) ⊎ (t.project_id ≡ some project_id)) × Grants t capability)
unfolding require_check_access
check_access_exact t capability project_id n = (
  (λ h. elim (Bool-cases (is_bound_elsewhere t.project_id project_id)) [
    | inl b ↦ absurd (refused (rw (n, b, require_check_access) at h))
    | inr b ↦
        elim (Bool-cases (
          any (λ d. same_capability d capability) t.capabilities
          || has_legacy_access t capability)) [
            | inl g ↦ ((bound_iff t.project_id project_id).0 b, (Grants-iff t capability).0 g)
            | inr g ↦ absurd (refused (rw (n, b, g, require_check_access) at h))
          ]
  ]),
  (λ (p, g). rw (n, (bound_iff t.project_id project_id).1 p, (Grants-iff t capability).1 g) refl),
)
