-- ===== src/Tests/People.antt =====
-- Members and invites of an organization whose creator is user 3.
use systemvitals.Base.{◌≤◌, ◌≡◌, refl, none, some, [], ◌∷◌, All, count, arith}
use systemvitals.Base.Text.{codes, trim}
use systemvitals.Base.Table.{find_key, delete_key}
use systemvitals.Base.Result.{Result, ok, err}
use systemvitals.Schema.{owner, admin, member}
use systemvitals.Tenancy.{App, Membership, Invite, find_organization, find_membership, is_member}
use systemvitals.Members.{
  MembersError, accept, find_invite_by_token, invite_status, normalize_email, set_revoked,
}
use systemvitals.Members.Roles.{set_role, is_owner_of, is_creator, remove_member}
use systemvitals.Members.Ownership.{IsOwned}
use systemvitals.Organizations.History.{Keeps, here, next, removed, creators_stay_owners}
use systemvitals.Members.Stale.{admin_removes_owner, revoked_invite_accepted}
use systemvitals.Tests.Sample.{sample}

abbrev founder : Membership
founder = record { id = 60; user_id = 3; organization_id = 70; role = owner; created_at = 0 }

abbrev second : Membership
second = record { id = 61; user_id = 4; organization_id = 70; role = member; created_at = 1 }

abbrev third : Membership
third = record { id = 62; user_id = 5; organization_id = 70; role = admin; created_at = 2 }

abbrev letter : Invite
letter = record {
  id = 80;
  email = codes "x@y.z";
  organization_id = 70;
  role = member;
  token = codes "t";
  invited_by_user_id = 3;
  expires_at = 1000;
  accepted_at = none;
  revoked_at = none;
  created_at = 0;
}

abbrev club : App
club = record {
  monitor = sample;
  users = record { id = 9; email = codes " x@y.z" } ∷ [];
  organizations =
      record { id = 70; name = codes "Home"; slug = codes "home"; creator_user_id = 3 } ∷ [];
  projects = [];
  memberships = founder ∷ second ∷ third ∷ [];
  invites = letter ∷ [];
  legacy_subscriptions = [];
  subscriptions = [];
  status_pages = [];
}

-- The second member has become an owner.
abbrev pub promoted : App
promoted = record club { memberships = founder ∷ set_role owner second ∷ third ∷ [] }

abbrev smaller : App
smaller = record promoted { memberships = delete_key (λ m. m.id) 61 promoted.memberships }

admin_removes_owner_example : remove_member 5 61 club promoted ≡ ok smaller
unfolding find_membership is_creator find_organization is_owner_of set_role
admin_removes_owner_example =
    admin_removes_owner 5 61 club promoted second (set_role owner second) third refl refl refl refl
      refl refl refl (omega arith)

club-Keeps : Keeps club promoted
unfolding set_role
club-Keeps m m_in m' found = ground arith

club-IsOwned : IsOwned promoted
unfolding find_organization set_role
club-IsOwned = (
  (
    refl,
    record {
      membership = founder;
      stored = refl;
      by_creator = refl;
      of_organization = refl;
      as_owner = refl;
    },
  ),
  tt,
)

creators_stay_owners_example :
    IsOwned smaller
    × All (λ o. 1 ≤ count (is_owner_of o.id) smaller.memberships) smaller.organizations
creators_stay_owners_example =
    creators_stay_owners (next here (removed 5 61 club club-Keeps admin_removes_owner_example))
      club-IsOwned

abbrev answer : App × Membership → Result MembersError (App × Membership) → App × Membership
answer a (ok b) = b
answer a (err e) = a

abbrev joined : App × Membership
joined = answer (club, founder) (accept (λ s. s) 9 (codes "t") 63 500 club club)

abbrev withdrawn : App
withdrawn = record club { invites = set_revoked 400 letter ∷ [] }

revoked_invite_accepted_example :
    (after : App) × (m : Membership) × (accept (λ s. s) 9 (codes "t") 63 500 club withdrawn
      ≡ ok (after, m))
    × (stored : Invite) × (find_key (λ i. i.id) 80 after.invites ≡ some stored)
    × (stored.accepted_at ≡ some 500)
    × (stored.revoked_at ≡ some 400)
    × (m.organization_id ≡ 70)
unfolding find_invite_by_token invite_status normalize_email trim is_member find_membership
    set_revoked
revoked_invite_accepted_example =
    revoked_invite_accepted (λ s. s) 9 (codes "t") 63 500 400 club withdrawn letter
      (set_revoked 400 letter) (record { id = 9; email = codes " x@y.z" }) refl refl refl refl refl
      refl refl
