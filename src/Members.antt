-- ===== src/Members.antt =====
-- MembersService of api/src/members/members.service.ts. What a request reads first it reads in one state,
-- `start`; its transaction, or its write where it has none, runs in a later one, `app`. The transactions
-- that take ownership away lock the OWNER rows of their organization first, so they run one at a time.
-- `lower` is `toLowerCase`. Keys and tokens of new rows are arguments.
pub mod Roles
pub mod Ownership
pub mod Stale
use systemvitals.Base.{
  ℕ, zero, suc, ◌+◌, ◌*◌, ◌≡◌, Bool, true, false, ◌&&◌, ◌||◌, not, Option, none, some, List, [],
  ◌∷◌, ◌++◌, ◌==◌, leb, ltb, is_some, any, find, filter, count, take, if◌then◌else◌,
}
use systemvitals.Base.Table.{find_key, update_key, delete_key}
use systemvitals.Base.Text.{Text, codes, text_eq, trim}
use systemvitals.Base.Result.{Result, ok, err, guard, require, ◌>>=◌, ◌>>◌}
use systemvitals.Schema.{Role, owner, admin, member}
use systemvitals.Tenancy.{
  App, User, Organization, Membership, Invite, find_organization, find_membership, is_member,
}

pub data MembersError : Type 0 where
  not_a_member requires_manager requires_owner admins_manage_members invite_as_owner already_member
        pending_exists invite_not_found invite_accepted invite_revoked invite_expired user_not_found
        other_email member_not_found transfer_first last_owner record_missing :
      MembersError

abbrev pub invite_ttl_days : ℕ
invite_ttl_days = 7

abbrev pub is_owner_role : Role → Bool
is_owner_role owner = true
is_owner_role _ = false

abbrev pub same_role : Role → Role → Bool
same_role owner owner = true
same_role admin admin = true
same_role member member = true
same_role _ _ = false

-- `normalizeEmail` of api/src/common/email.ts
unfoldable pub normalize_email : (Text → Text) → Text → Text
normalize_email lower email = lower (trim email)

unfoldable pub require_membership : ℕ → ℕ → App → Result MembersError Membership
require_membership user organization app =
    require (find_membership user organization app) not_a_member

unfoldable pub require_manager : ℕ → ℕ → App → Result MembersError Role
unfolding require_membership
require_manager user organization app = do
  m ← require_membership user organization app
  guard (is_owner_role m.role || same_role m.role admin) requires_manager
  ok m.role

unfoldable pub assert_rank_allows : Role → Role → Result MembersError (Unit {0})
assert_rank_allows actor target =
    guard (not (same_role actor admin && not (same_role target member))) admins_manage_members

unfoldable pub find_user_by_email : Text → App → Option User
find_user_by_email email app = find (λ u. text_eq u.email email) app.users

unfoldable pub find_invite_by_token : Text → App → Option Invite
find_invite_by_token token app = find (λ i. text_eq i.token token) app.invites

-- Neither accepted nor revoked, and still to expire.
unfoldable pub is_open : ℕ → Invite → Bool
is_open now i = not (is_some i.accepted_at) && not (is_some i.revoked_at) && ltb now i.expires_at

unfoldable pub has_pending : ℕ → ℕ → Text → App → Bool
unfolding is_open
has_pending now organization email app =
    any (λ i. i.organization_id == organization && text_eq i.email email && is_open now i)
      app.invites

unfoldable pub already_in : ℕ → Text → App → Bool
unfolding find_user_by_email is_member
already_in organization email app = elim (find_user_by_email email app) [
  | none ↦ false
  | some u ↦ is_member u.id organization app
]

unfoldable pub new_invite : ℕ → Text → Text → ℕ → ℕ → Role → ℕ → Invite
new_invite id email token user organization role now = record {
  id = id;
  email = email;
  organization_id = organization;
  role = role;
  token = token;
  invited_by_user_id = user;
  expires_at = now + invite_ttl_days * 24 * 60 * 60 * 1000;
  accepted_at = none;
  revoked_at = none;
  created_at = now;
}

-- The invite goes to the queue under its key.
unfoldable pub invite :
    (Text → Text)
    → ℕ
    → ℕ
    → Text
    → Role
    → ℕ
    → Text
    → ℕ
    → App
    → App
    → Result MembersError (App × Invite)
unfolding require_manager assert_rank_allows normalize_email already_in has_pending new_invite
invite lower user organization email role id token now start app = do
  actor ← require_manager user organization start
  guard (not (is_owner_role role)) invite_as_owner
  assert_rank_allows actor role
  let normalized = normalize_email lower email
  guard (not (already_in organization normalized start)) already_member
  guard (not (has_pending now organization normalized start)) pending_exists
  let row = new_invite id normalized token user organization role now
  ok (record app { invites = app.invites ++ row ∷ [] }, row)

unfoldable pub set_revoked : ℕ → Invite → Invite
set_revoked now i = record i { revoked_at = some now }

-- The write of `revokeInvite`, where the invite was open when it was read.
unfoldable pub revoke_commit : ℕ → ℕ → App → Result MembersError App
unfolding set_revoked
revoke_commit id now app = do
  row ← require (find_key (λ i. i.id) id app.invites) record_missing
  ok (record app { invites = update_key (λ i. i.id) id (set_revoked now) app.invites })

unfoldable pub revoke_invite : ℕ → ℕ → ℕ → App → App → Result MembersError App
unfolding require_manager assert_rank_allows revoke_commit
revoke_invite user id now start app = do
  i ← require (find_key (λ i. i.id) id start.invites) invite_not_found
  actor ← require_manager user i.organization_id start
  assert_rank_allows actor i.role
  guard (not (is_some i.accepted_at)) invite_accepted
  if is_some i.revoked_at then ok app else revoke_commit id now app

pub data InviteStatus : Type 0 where
  pending accepted revoked expired not_found : InviteStatus

unfoldable pub invite_status : ℕ → Invite → InviteStatus
invite_status now i =
    if is_some i.accepted_at
    then accepted
    else if is_some i.revoked_at
    then revoked
    else if leb i.expires_at now
    then expired
    else pending

-- The `switch` of `accept`.
unfoldable pub assert_pending : InviteStatus → Result MembersError (Unit {0})
assert_pending accepted = err invite_accepted
assert_pending revoked = err invite_revoked
assert_pending expired = err invite_expired
assert_pending _ = ok tt

-- `email.slice(at)`
abbrev pub from_at : Text → Text
from_at [] = []
from_at (c ∷ s) = let rest = from_at s in if c == b'@' then c ∷ s else rest

-- The first character of the local part, and the domain.
unfoldable pub mask_email : Text → Text
mask_email [] = codes "***"
mask_email (c ∷ s) =
    let at = λ (x : ℕ). x == b'@' in
    if at c || not (any at s) then codes "***" else c ∷ codes "***" ++ from_at s

pub record InvitePreview : Type 0 where
  pub organization_name : Text
  pub masked_email : Text
  pub status : InviteStatus

unfoldable pub preview_invite : Text → ℕ → App → Result MembersError InvitePreview
unfolding find_invite_by_token find_organization invite_status mask_email
preview_invite token now app = elim (find_invite_by_token token app) [
  | none ↦ ok (record { organization_name = []; masked_email = []; status = not_found })
  | some i ↦ do
    o ← require (find_organization i.organization_id app) record_missing
    ok (record {
      organization_name = o.name;
      masked_email = mask_email i.email;
      status = invite_status now i;
    })
]

unfoldable pub set_accepted : ℕ → Invite → Invite
set_accepted now i = record i { accepted_at = some now }

-- The transaction of `accept`; the unique index on user and organization gives the same error as the
-- check before it.
unfoldable pub accept_commit : ℕ → Invite → ℕ → ℕ → App → Result MembersError (App × Membership)
unfolding set_accepted
accept_commit user i id now app = do
  guard (not (is_member user i.organization_id app)) already_member
  row ← require (find_key (λ i. i.id) i.id app.invites) record_missing
  let m : Membership = record {
    id = id;
    user_id = user;
    organization_id = i.organization_id;
    role = i.role;
    created_at = now;
  }
  ok (
    record app {
      memberships = app.memberships ++ m ∷ [];
      invites = update_key (λ i. i.id) i.id (set_accepted now) app.invites;
    },
    m,
  )

unfoldable pub accept :
    (Text → Text) → ℕ → Text → ℕ → ℕ → App → App → Result MembersError (App × Membership)
unfolding accept_commit
accept lower user token id now start app = do
  i ← require (find_invite_by_token token start) invite_not_found
  assert_pending (invite_status now i)
  u ← require (find_key (λ u. u.id) user start.users) user_not_found
  guard (text_eq (normalize_email lower u.email) i.email) other_email
  accept_commit user i id now app
