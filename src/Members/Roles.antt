-- ===== src/Members/Roles.antt =====
-- updateRole, removeMember and leave of api/src/members/members.service.ts.
use systemvitals.Base.{ℕ, Bool, false, ◌&&◌, ◌||◌, not, none, some, ◌==◌, ltb, count, if◌then◌else◌}
use systemvitals.Base.Table.{find_key, update_key, delete_key}
use systemvitals.Base.Result.{Result, ok, guard, require, ◌>>=◌, ◌>>◌}
use systemvitals.Schema.{Role}
use systemvitals.Tenancy.{App, Membership, find_organization}
use systemvitals.Members.{
  MembersError, assert_rank_allows, is_owner_role, last_owner, member_not_found, require_manager,
  require_membership, requires_owner, same_role, transfer_first,
}

unfoldable pub is_owner_of : ℕ → Membership → Bool
is_owner_of organization m = m.organization_id == organization && is_owner_role m.role

unfoldable pub assert_not_last_owner : ℕ → Role → App → Result MembersError (Unit {0})
assert_not_last_owner organization target app =
    if is_owner_role target
    then guard (ltb 1 (count (is_owner_of organization) app.memberships)) last_owner
    else ok tt

-- `userId === organization?.creatorUserId`
unfoldable pub is_creator : ℕ → ℕ → App → Bool
is_creator user organization app = elim (find_organization organization app) [
  | none ↦ false
  | some o ↦ user == o.creator_user_id
]

unfoldable pub set_role : Role → Membership → Membership
set_role role m = record m { role = role }

-- The transaction of `updateRole`, behind the lock; the organization is the one first read.
unfoldable pub update_role_commit : ℕ → ℕ → Role → App → Result MembersError App
unfolding is_creator assert_not_last_owner set_role
update_role_commit organization id role app = do
  fresh ← require (find_key (λ m. m.id) id app.memberships) member_not_found
  guard (same_role fresh.role role || not (is_creator fresh.user_id organization app))
      transfer_first
  if same_role fresh.role role
      then ok tt
      else assert_not_last_owner fresh.organization_id fresh.role app
  ok (record app { memberships = update_key (λ m. m.id) id (set_role role) app.memberships })

unfoldable pub update_role : ℕ → ℕ → Role → App → App → Result MembersError App
unfolding require_membership update_role_commit
update_role user id role start app = do
  target ← require (find_key (λ m. m.id) id start.memberships) member_not_found
  actor ← require_membership user target.organization_id start
  guard (is_owner_role actor.role) requires_owner
  update_role_commit target.organization_id id role app

-- The transaction that `removeMember` and `leave` have in common.
unfoldable pub remove_commit : ℕ → ℕ → App → Result MembersError App
unfolding is_creator assert_not_last_owner
remove_commit organization id app = do
  fresh ← require (find_key (λ m. m.id) id app.memberships) member_not_found
  guard (not (is_creator fresh.user_id organization app)) transfer_first
  assert_not_last_owner fresh.organization_id fresh.role app
  ok (record app { memberships = delete_key (λ m. m.id) id app.memberships })

unfoldable pub remove_member : ℕ → ℕ → App → App → Result MembersError App
unfolding require_manager assert_rank_allows remove_commit
remove_member user id start app = do
  target ← require (find_key (λ m. m.id) id start.memberships) member_not_found
  actor ← require_manager user target.organization_id start
  assert_rank_allows actor target.role
  remove_commit target.organization_id id app

unfoldable pub leave : ℕ → ℕ → App → App → Result MembersError App
unfolding require_membership remove_commit
leave user organization start app = do
  m ← require_membership user organization start
  remove_commit organization m.id app
