-- ===== src/Members/Stale.antt =====
-- Accepting an invite, and what happens to requests whose checks have gone stale.
use systemvitals.Base.{ℕ, ◌<◌, ◌≡◌, refl, true, false, some, [], ◌∷◌, ◌++◌, ==_refl, count, lt→ltb}
use systemvitals.Base.Text.{Text, text_eq}
use systemvitals.Base.Table.{find_key, update_key, delete_key, find-update_key}
use systemvitals.Base.Result.{ok}
use systemvitals.Schema.{owner, admin, member}
use systemvitals.Tenancy.{App, User, Membership, Invite, find_membership, is_member}
use systemvitals.Members.{
  pending, require_manager, require_membership, assert_rank_allows, set_accepted, accept_commit,
  accept, find_invite_by_token, invite_status, assert_pending, normalize_email,
}
use systemvitals.Members.Roles.{
  is_owner_of, is_creator, assert_not_last_owner, remove_commit, remove_member,
}

-- An admin may manage plain members only, but the rank of the target is the one that was read before
-- the transaction: an admin who asks to remove a member removes it also when it has meanwhile become
-- an owner, as long as another owner is left and it is not the creator.
pub admin_removes_owner :
    (user id : ℕ) (start app : App) (target fresh actor : Membership)
    → find_key (λ m. m.id) id start.memberships ≡ some target
    → target.role ≡ member
    → find_membership user target.organization_id start ≡ some actor
    → actor.role ≡ admin
    → find_key (λ m. m.id) id app.memberships ≡ some fresh
    → fresh.role ≡ owner
    → is_creator fresh.user_id target.organization_id app ≡ false
    → 1 < count (is_owner_of fresh.organization_id) app.memberships
    → remove_member user id start app
      ≡ ok (record app { memberships = delete_key (λ m. m.id) id app.memberships })
unfolding remove_member require_manager require_membership assert_rank_allows remove_commit
    assert_not_last_owner
admin_removes_owner user id start app target fresh actor t tr a ar f fr c n =
    rw (t, a, ar, tr, f, c, fr, lt→ltb _ _ n) refl

-- What an invite has to be when it is read, and what its acceptance leaves.
pub record IsJoined (lower : Text → Text) (user : ℕ) (token : Text) (id now : ℕ)
    (start app next : App) (m : Membership) : Type 0 where
  pub invite : Invite
  pub found : find_invite_by_token token start ≡ some invite
  pub was_pending : invite_status now invite ≡ pending
  pub addressed :
      (u : User) × (find_key (λ u. u.id) user start.users ≡ some u)
      × (text_eq (normalize_email lower u.email) invite.email ≡ true)
  pub was_outside : is_member user invite.organization_id app ≡ false
  pub membership : m ≡ record {
    id = id;
    user_id = user;
    organization_id = invite.organization_id;
    role = invite.role;
    created_at = now;
  }
  pub memberships : next.memberships ≡ app.memberships ++ m ∷ []
  pub closed :
      (i : Invite) × (find_key (λ i. i.id) invite.id next.invites ≡ some i)
      × (i.accepted_at ≡ some now)

-- An invite that is revoked after `accept` has read it as pending is accepted all the same: the user
-- becomes a member, and the row is then both revoked and accepted.
pub revoked_invite_accepted :
    (lower : Text → Text) (user : ℕ) (token : Text) (id now at : ℕ) (start app : App)
    (i stored : Invite) (u : User)
    → find_invite_by_token token start ≡ some i
    → invite_status now i ≡ pending
    → find_key (λ u. u.id) user start.users ≡ some u
    → text_eq (normalize_email lower u.email) i.email ≡ true
    → is_member user i.organization_id app ≡ false
    → find_key (λ i. i.id) i.id app.invites ≡ some stored
    → stored.revoked_at ≡ some at
    → (next : App) × (m : Membership) × (accept lower user token id now start app ≡ ok (next, m))
      × (row : Invite) × (find_key (λ i. i.id) i.id next.invites ≡ some row)
      × (row.accepted_at ≡ some now)
      × (row.revoked_at ≡ some at)
      × (m.organization_id ≡ i.organization_id)
unfolding accept accept_commit set_accepted assert_pending
revoked_invite_accepted lower user token id now at start app i stored u fi fs fu fe outside fj r = (
  record app {
    memberships = app.memberships ++ joined ∷ [];
    invites = update_key (λ i. i.id) i.id (set_accepted now) app.invites;
  },
  joined,
  rw (fi, fs, fu, fe, outside, fj) refl,
  set_accepted now stored,
  rw
      (
        find-update_key (λ (i : Invite). i.id) i.id i.id (set_accepted now) app.invites (λ i. refl),
        fj,
        ==_refl i.id,
      )
      refl,
  refl,
  r,
  refl,
)
  where
    joined : Membership
    joined = record {
      id = id;
      user_id = user;
      organization_id = i.organization_id;
      role = i.role;
      created_at = now;
    }
