-- ===== src/Organizations/History.antt =====
-- Every history of requests to MembersService and OrganizationsService keeps the creators' memberships.
use mathlib.Core.Path.{subst}
use systemvitals.Base.{
  ℕ, ◌≤◌, ◌≡◌, refl, sym, inl, inr, true, not, ◌&&◌, some, List, [], ◌∷◌, arith, ◌==◌, ==_refl,
  count, All, In, is_some, Bool-cases,
}
use systemvitals.Base.Text.{Text, text_eq}
use systemvitals.Base.Table.{find_key, find-In}
use systemvitals.Base.Result.{
  ok, Accepts, Accepts->>=, Accepts-guard, Accepts-require, Accepts-if, Accepts-at,
}
use systemvitals.Schema.{Role, owner}
use systemvitals.Tenancy.{App, Membership, Invite, find_membership}
use systemvitals.Members.{
  is_owner_role, invite, revoke_invite, revoke_commit, accept, require_manager, require_membership,
  assert_rank_allows, already_in, has_pending, normalize_email, find_invite_by_token,
  assert_pending, invite_status,
}
use systemvitals.Members.Roles.{update_role, remove_member, leave, is_owner_of}
use systemvitals.Organizations.{
  NewKeys, CreateAttempt, create_organization, UpdateOrganizationInput, update_organization,
}
use systemvitals.Organizations.Endings.{transfer_creatorship, remove_organization}
use systemvitals.Organizations.Owners.{
  IsKeyed, IsNew, update_organization-IsOwned, transfer_creatorship-IsOwned,
  remove_organization-IsOwned,
}
use systemvitals.Organizations.Created.{Ran, create_organization-IsOwned}
use systemvitals.Members.Ownership.{
  row, IsOwned, All-lift, Stays, IsOwned-write, remove_commit-IsOwned, update_role_commit-IsOwned,
  accept_commit-IsOwned,
}

-- Memberships are never moved: a key that was read names a membership of the same organization later.
abbrev pub Keeps : App → App → Type 0
Keeps start app = (m : Membership) → In m start.memberships → Stays m.id m.organization_id app

-- What a request of the service may do to the database, its checks made on any earlier state.
pub data Change (app : App) : App → Type 0 where
  invited :
      (lower : Text → Text) (user organization : ℕ) (email : Text) (role : Role) (id : ℕ)
      (token : Text) (now : ℕ) (start : App) {r : App × Invite}
      → invite lower user organization email role id token now start app ≡ ok r
      → Change app r.0
  revoked :
      (user id now : ℕ) (start : App) {next : App}
      → revoke_invite user id now start app ≡ ok next
      → Change app next
  accepted :
      (lower : Text → Text) (user : ℕ) (token : Text) (id now : ℕ) (start : App)
      {r : App × Membership}
      → accept lower user token id now start app ≡ ok r
      → Change app r.0
  role_updated :
      (user id : ℕ) (role : Role) (start : App) {next : App}
      → Keeps start app
      → update_role user id role start app ≡ ok next
      → Change app next
  removed :
      (user id : ℕ) (start : App) {next : App}
      → Keeps start app
      → remove_member user id start app ≡ ok next
      → Change app next
  left :
      (user organization : ℕ) (start : App) {next : App}
      → Keeps start app
      → leave user organization start app ≡ ok next
      → Change app next
  created :
      (nfd lower : Text → Text) (keys : NewKeys) (user : ℕ) (name : Text) (now : ℕ)
      (attempts : ℕ → CreateAttempt) {next : App}
      → Ran keys user name now attempts app
      → IsNew keys app
      → create_organization nfd lower keys user name now attempts ≡ ok next
      → Change app next
  updated :
      (lower : Text → Text) (user organization : ℕ) (input : UpdateOrganizationInput) {next : App}
      → update_organization lower user organization input app ≡ ok next
      → Change app next
  transferred :
      (caller organization recipient : ℕ) (start : App) {next : App}
      → IsKeyed app
      → transfer_creatorship caller organization recipient start app ≡ ok next
      → Change app next
  deleted :
      (user organization : ℕ) (start : App) {next : App}
      → remove_organization user organization start app ≡ ok next
      → Change app next

pub data Reach (s : App) : App → Type 0 where
  here : Reach s s
  next : {t u : App} → Reach s t → Change t u → Reach s u

revoke_commit-IsOwned :
    (id now : ℕ) (app : App) → IsOwned app → Accepts IsOwned (revoke_commit id now app)
unfolding revoke_commit
revoke_commit-IsOwned id now app h =
    Accepts-require _ (find_key (λ i. i.id) id app.invites) _ _
      λ i _. IsOwned-write app app.memberships _ (λ o f own. own) h

invite-IsOwned :
    (lower : Text → Text) (user organization : ℕ) (email : Text) (role : Role) (id : ℕ)
    (token : Text) (now : ℕ) (start app : App)
    → IsOwned app
    → Accepts (λ r. IsOwned r.0) (invite lower user organization email role id token now start app)
unfolding invite
invite-IsOwned lower user organization email role id token now start app h =
    Accepts->>= _ (require_manager user organization start) _ λ actor _.
      Accepts-guard _ (not (is_owner_role role)) _ _ λ _.
        Accepts->>= _ (assert_rank_allows actor role) _ λ _ _.
          Accepts-guard _ (not (already_in organization (normalize_email lower email) start)) _ _
            λ _.
              Accepts-guard _
                (not (has_pending now organization (normalize_email lower email) start)) _ _
                λ _. IsOwned-write app app.memberships _ (λ o f own. own) h

revoke_invite-IsOwned :
    (user id now : ℕ) (start app : App)
    → IsOwned app
    → Accepts IsOwned (revoke_invite user id now start app)
unfolding revoke_invite
revoke_invite-IsOwned user id now start app h =
    Accepts-require _ (find_key (λ i. i.id) id start.invites) _ _ λ i _.
      Accepts->>= _ (require_manager user i.organization_id start) _ λ actor _.
        Accepts->>= _ (assert_rank_allows actor i.role) _ λ _ _.
          Accepts-guard _ (not (is_some i.accepted_at)) _ _ λ _.
            Accepts-if _ (is_some i.revoked_at) _ _ (λ _. h)
              (λ _. revoke_commit-IsOwned id now app h)

accept-IsOwned :
    (lower : Text → Text) (user : ℕ) (token : Text) (id now : ℕ) (start app : App)
    → IsOwned app
    → Accepts (λ r. IsOwned r.0) (accept lower user token id now start app)
unfolding accept
accept-IsOwned lower user token id now start app h =
    Accepts-require _ (find_invite_by_token token start) _ _ λ i _.
      Accepts->>= _ (assert_pending (invite_status now i)) _ λ _ _.
        Accepts-require _ (find_key (λ u. u.id) user start.users) _ _ λ u _.
          Accepts-guard _ (text_eq (normalize_email lower u.email) i.email) _ _
            λ _. accept_commit-IsOwned user i id now app h

-- The membership that a request reads under a key, as `Keeps` takes it.
Keeps-row :
    (id : ℕ) (start app : App) (target : Membership)
    → Keeps start app
    → row id start.memberships ≡ some target
    → Stays id target.organization_id app
Keeps-row id start app target keeps found =
    let (m, e) = find-In (λ (m : Membership). m.id == id) start.memberships target found in
    let key : target.id ≡ id = ground arith in
    subst (λ k. Stays k target.organization_id app) key (keeps target m)

update_role-IsOwned :
    (user id : ℕ) (role : Role) (start app : App)
    → Keeps start app
    → IsOwned app
    → Accepts IsOwned (update_role user id role start app)
unfolding update_role
update_role-IsOwned user id role start app keeps h =
    Accepts-require _ (row id start.memberships) _ _ λ target found.
      Accepts->>= _ (require_membership user target.organization_id start) _ λ actor _.
        Accepts-guard _ (is_owner_role actor.role) _ _ λ _.
          update_role_commit-IsOwned target.organization_id id role app
            (Keeps-row id start app target keeps found) h

remove_member-IsOwned :
    (user id : ℕ) (start app : App)
    → Keeps start app
    → IsOwned app
    → Accepts IsOwned (remove_member user id start app)
unfolding remove_member
remove_member-IsOwned user id start app keeps h =
    Accepts-require _ (row id start.memberships) _ _ λ target found.
      Accepts->>= _ (require_manager user target.organization_id start) _ λ actor _.
        Accepts->>= _ (assert_rank_allows actor target.role) _ λ _ _.
          remove_commit-IsOwned target.organization_id id app
            (Keeps-row id start app target keeps found) h

leave-IsOwned :
    (user organization : ℕ) (start app : App)
    → Keeps start app
    → IsOwned app
    → Accepts IsOwned (leave user organization start app)
unfolding leave require_membership find_membership
leave-IsOwned user organization start app keeps h =
    Accepts-require _ (find_membership user organization start) _ _ λ m found.
      let (stored, e) =
        find-In (λ (m : Membership). m.user_id == user && m.organization_id == organization)
          start.memberships m found in
      let key : m.organization_id ≡ organization = ground arith in
      remove_commit-IsOwned organization m.id app
        (subst (λ o. Stays m.id o app) key (keeps m stored)) h

Change-IsOwned : {app next : App} → Change app next → IsOwned app → IsOwned next
Change-IsOwned {app = app} (invited lower user organization email role id token now start {r} e) h =
    Accepts-at (λ (r : App × Invite). IsOwned r.0) _ r
      (invite-IsOwned lower user organization email role id token now start app h) e
Change-IsOwned {app = app} (revoked user id now start {next} e) h =
    Accepts-at IsOwned _ next (revoke_invite-IsOwned user id now start app h) e
Change-IsOwned {app = app} (accepted lower user token id now start {r} e) h =
    Accepts-at (λ (r : App × Membership). IsOwned r.0) _ r
      (accept-IsOwned lower user token id now start app h) e
Change-IsOwned {app = app} (role_updated user id role start {next} keeps e) h =
    Accepts-at IsOwned _ next (update_role-IsOwned user id role start app keeps h) e
Change-IsOwned {app = app} (removed user id start {next} keeps e) h =
    Accepts-at IsOwned _ next (remove_member-IsOwned user id start app keeps h) e
Change-IsOwned {app = app} (left user organization start {next} keeps e) h =
    Accepts-at IsOwned _ next (leave-IsOwned user organization start app keeps h) e
Change-IsOwned {app = app} (created nfd lower keys user name now attempts {next} ran fresh e) h =
    Accepts-at IsOwned _ next
      (create_organization-IsOwned nfd lower keys user name now attempts app ran fresh h) e
Change-IsOwned {app = app} (updated lower user organization input {next} e) h =
    Accepts-at IsOwned _ next (update_organization-IsOwned lower user organization input app h) e
Change-IsOwned {app = app} (transferred caller organization recipient start {next} keyed e) h =
    Accepts-at IsOwned _ next
      (transfer_creatorship-IsOwned caller organization recipient start app keyed h) e
Change-IsOwned {app = app} (deleted user organization start {next} e) h =
    Accepts-at IsOwned _ next (remove_organization-IsOwned user organization start app h) e

Reach-IsOwned : {s t : App} → Reach s t → IsOwned s → IsOwned t
Reach-IsOwned here h = h
Reach-IsOwned (next path change) h = Change-IsOwned change (Reach-IsOwned path h)

owner_counted :
    (o : ℕ) (ms : List Membership) (j : ℕ) (m : Membership)
    → row j ms ≡ some m
    → m.organization_id ≡ o
    → m.role ≡ owner
    → 1 ≤ count (is_owner_of o) ms
unfolding is_owner_of
owner_counted o [] j m found e r = ground arith
owner_counted o (x ∷ ms) j m found e r = elim (Bool-cases (x.id == j)) [
  | inl k ↦
      let same : x ≡ m = ground arith in
      let here : is_owner_of o x ≡ true =
        subst (λ y. is_owner_of o y ≡ true) (sym same) (rw (e, r, ==_refl o) refl) in
      rw here (omega arith)
  | inr k ↦
      let rest : 1 ≤ count (is_owner_of o) ms = owner_counted o ms j m (ground arith) e r in
      omega arith
]

-- Whatever requests on members, invites and organizations commit, in any order and with checks made on
-- any earlier state, the creation, transfer and deletion of organizations included: if every
-- organization was owned by its creator, it still is, so it has an owner. Assumed: keys are unique,
-- new rows have unused ones, and a membership stays in its organization.
pub creators_stay_owners :
    {s t : App}
    → Reach s t
    → IsOwned s
    → IsOwned t × All (λ o. 1 ≤ count (is_owner_of o.id) t.memberships) t.organizations
creators_stay_owners {t = t} path h =
    let owned : IsOwned t = Reach-IsOwned path h in
    (
      owned,
      All-lift _ _ t.organizations
          (λ o (f, own).
            owner_counted o.id t.memberships own.membership.id own.membership own.stored
              own.of_organization own.as_owner)
          owned,
    )
