-- ===== src/TokenPolicy.antt =====
-- api/src/tokens/token-policy.ts and api-principal.ts: which operations a credential may call, and on
-- which checks.
pub mod Laws
use systemvitals.Base.{
  ℕ, ◌≡◌, Bool, true, false, ◌&&◌, ◌||◌, not, Option, none, some, List, [], ◌∷◌, ◌++◌, ◌==◌, ltb,
  any, length, is_some, if◌then◌else◌,
}
use systemvitals.Base.Text.{Text, codes, text_eq}
use systemvitals.Base.Result.{Result, ok, err, guard, ◌>>=◌, ◌>>◌}

pub data TokenCapability : Type 0 where
  checks_read checks_write account_manage : TokenCapability

pub record ApiTokenMetadata : Type 0 where
  pub id : ℕ
  pub project_id : Option ℕ
  pub capabilities : List TokenCapability
  pub legacy_scopes : List Text

-- The user of a credential plays no part in the policy.
pub data ApiPrincipal : Type 0 where
  session : ApiPrincipal
  api_token : ApiTokenMetadata → ApiPrincipal

pub data PolicyError : Type 0 where
  account_credential_refused session_required scoped_credential_refused bound_to_another_project
        missing_capability :
      PolicyError

abbrev pub scoped_token_operations : List Text
scoped_token_operations =
    codes "apiCredential"
    ∷ codes "managedTelegramBot"
    ∷ codes "checks"
    ∷ codes "check"
    ∷ codes "checkBySlug"
    ∷ codes "checkByOrganizationSlug"
    ∷ codes "events"
    ∷ codes "nextExpectedAt"
    ∷ codes "notificationChannelIds"
    ∷ codes "createCheck"
    ∷ codes "createActiveCheck"
    ∷ codes "updateCheck"
    ∷ codes "setCheckChannelEnabled"
    ∷ codes "pauseCheck"
    ∷ codes "resumeCheck"
    ∷ codes "deleteCheck"
    ∷ []

abbrev pub session_only_operations : List Text
session_only_operations =
    codes "telegramConnectionPreview"
    ∷ codes "connectTelegramChannel"
    ∷ codes "moveCheck"
    ∷ codes "organizationCheckAllowance"
    ∷ codes "accountOverview"
    ∷ []

abbrev pub account_only_operations : List Text
account_only_operations =
    codes "telegramConnectionPreview"
    ∷ codes "connectTelegramChannel"
    ∷ codes "moveCheck"
    ∷ codes "organizationCheckAllowance"
    ∷ codes "accountOverview"
    ∷ codes "me"
    ∷ codes "projects"
    ∷ codes "mySubscription"
    ∷ codes "createOrganization"
    ∷ codes "updateOrganization"
    ∷ codes "updateOrganizationSlug"
    ∷ codes "transferOrganizationCreatorship"
    ∷ codes "deleteOrganization"
    ∷ codes "regenerateOrganizationPingKey"
    ∷ codes "regeneratePingKey"
    ∷ codes "channels"
    ∷ codes "createChannel"
    ∷ codes "resendEmailChannelVerification"
    ∷ codes "deleteChannel"
    ∷ codes "organizationMembers"
    ∷ codes "organizationInvites"
    ∷ codes "inviteMember"
    ∷ codes "revokeInvite"
    ∷ codes "acceptInvite"
    ∷ codes "updateMemberRole"
    ∷ codes "removeMember"
    ∷ codes "leaveOrganization"
    ∷ codes "statusPages"
    ∷ codes "createStatusPage"
    ∷ codes "updateStatusPage"
    ∷ codes "deleteStatusPage"
    ∷ codes "createBillingCheckout"
    ∷ codes "createBillingPortal"
    ∷ []

abbrev pub account_token_operations : List Text
account_token_operations = scoped_token_operations ++ account_only_operations

-- `set.has(operationName)`
unfoldable pub has : Text → List Text → Bool
has operation set = any (λ s. text_eq s operation) set

abbrev pub same_capability : TokenCapability → TokenCapability → Bool
same_capability checks_read checks_read = true
same_capability checks_write checks_write = true
same_capability account_manage account_manage = true
same_capability _ _ = false

abbrev pub is_account_manage_alone : List TokenCapability → Bool
is_account_manage_alone (c ∷ []) = same_capability c account_manage
is_account_manage_alone _ = false

abbrev pub is_empty : {A : Type 0} → List A → Bool
is_empty [] = true
is_empty (x ∷ xs) = false

unfoldable pub is_account_token : ApiPrincipal → Bool
is_account_token session = false
is_account_token (api_token t) =
    not (is_some t.project_id) && is_account_manage_alone t.capabilities && is_empty t.legacy_scopes

-- `isScoped` and `isLegacyBroad`
unfoldable pub is_scoped : ApiTokenMetadata → Bool
is_scoped t = is_some t.project_id || not (is_empty t.capabilities)

unfoldable pub is_legacy_broad : ApiTokenMetadata → Bool
is_legacy_broad t = not (is_scoped t) && not (is_empty t.legacy_scopes)

unfoldable pub require_operation_access : ApiPrincipal → Text → Result PolicyError (Unit {0})
require_operation_access session operation = ok tt
require_operation_access (api_token t) operation =
    if is_account_token (api_token t)
    then guard (has operation account_token_operations) account_credential_refused
    else if has operation session_only_operations
    then err session_required
    else if is_legacy_broad t
    then ok tt
    else guard (has operation scoped_token_operations) scoped_credential_refused

-- `token.projectId !== null && token.projectId !== projectId`
abbrev pub is_bound_elsewhere : Option ℕ → ℕ → Bool
is_bound_elsewhere none project_id = false
is_bound_elsewhere (some p) project_id = not (p == project_id)

abbrev pub is_read : TokenCapability → Bool
is_read c = same_capability c checks_read

unfoldable pub has_legacy_access : ApiTokenMetadata → TokenCapability → Bool
has_legacy_access t capability =
    has (codes "write") t.legacy_scopes
    || (is_read capability && has (codes "read") t.legacy_scopes)

unfoldable pub require_check_access :
    ApiPrincipal → TokenCapability → ℕ → Result PolicyError (Unit {0})
require_check_access session capability project_id = ok tt
require_check_access (api_token t) capability project_id =
    if is_account_token (api_token t)
    then ok tt
    else if is_bound_elsewhere t.project_id project_id
    then err bound_to_another_project
    else guard
        (any (λ c. same_capability c capability) t.capabilities || has_legacy_access t capability)
        missing_capability
