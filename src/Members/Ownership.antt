-- ===== src/Members/Ownership.antt =====
-- The creator of an organization stays an owner of it, whatever members do.
use mathlib.Core.Path.{subst}
use systemvitals.Base.{
  ℕ, ◌≡◌, refl, inl, inr, true, false, not, ◌||◌, Option, none, some, List, [], ◌∷◌, ◌++◌, arith,
  ◌==◌, All, Bool-cases, if◌then◌else◌,
}
use systemvitals.Base.Table.{
  find_key, update_key, delete_key, find-update_key, find-delete_key, find-append,
}
use systemvitals.Base.Result.{ok, Accepts, Accepts->>=, Accepts-guard, Accepts-require}
use systemvitals.Schema.{Role, owner, admin, member}
use systemvitals.Tenancy.{App, Organization, Membership, Invite, find_organization, is_member}
use systemvitals.Members.{same_role, accept_commit}
use systemvitals.Members.Roles.{
  is_creator, set_role, assert_not_last_owner, remove_commit, update_role_commit,
}

abbrev pub row : ℕ → List Membership → Option Membership
row = find_key (λ m. m.id)

-- The creator's membership of an organization, with the role of an owner.
pub record OwnedBy (ms : List Membership) (o : Organization) : Type 0 where
  pub membership : Membership
  pub stored : row membership.id ms ≡ some membership
  pub by_creator : membership.user_id ≡ o.creator_user_id
  pub of_organization : membership.organization_id ≡ o.id
  pub as_owner : membership.role ≡ owner

-- Every organization has its own key and is owned by its creator.
abbrev pub IsOwned : App → Type 0
IsOwned app =
    All (λ o. (find_organization o.id app ≡ some o) × OwnedBy app.memberships o) app.organizations

pub All-lift :
    {A : Type 0} (P Q : A → Type 0) (xs : List A) → ((x : A) → P x → Q x) → All P xs → All Q xs
All-lift P Q [] f h = tt
All-lift P Q (x ∷ xs) f h = (f x h.0, All-lift P Q xs f h.1)

-- A write of memberships and invites that keeps the creators' memberships keeps the invariant.
pub IsOwned-write :
    (app : App) (ms : List Membership) (is : List Invite)
    → ((o : Organization)
        → find_organization o.id app ≡ some o
        → OwnedBy app.memberships o
        → OwnedBy ms o)
    → IsOwned app
    → IsOwned (record app { memberships = ms; invites = is })
unfolding find_organization
IsOwned-write app ms is keep h = All-lift _ _ app.organizations (λ o (f, own). (f, keep o f own)) h

-- The row that a key finds has that key.
row-id : (j : ℕ) (ms : List Membership) (m : Membership) → row j ms ≡ some m → m.id ≡ j
row-id j [] m h = ground arith
row-id j (x ∷ ms) m h = ground (arith, row-id j ms m)

-- A creator is recognized by the transaction that has found its membership.
is_creator-own :
    (app : App) (o : Organization) (fresh : Membership) (organization : ℕ)
    → find_organization o.id app ≡ some o
    → (own : OwnedBy app.memberships o) → row own.membership.id app.memberships ≡ some fresh
    → fresh.organization_id ≡ organization
    → is_creator fresh.user_id organization app ≡ true
unfolding is_creator
is_creator-own app o fresh organization f own found same =
    let e : own.membership ≡ fresh = ground (arith, own.stored) in
    let key : organization ≡ o.id = ground (arith, own.of_organization) in
    rw (key, f, is_creator) (ground (arith, own.by_creator))

-- A membership of the creator is never the one that is taken away.
kept_apart :
    (app : App) (o : Organization) (fresh : Membership) (organization id : ℕ)
    → find_organization o.id app ≡ some o
    → (own : OwnedBy app.memberships o) → row id app.memberships ≡ some fresh
    → fresh.organization_id ≡ organization
    → is_creator fresh.user_id organization app ≡ false
    → (id == own.membership.id) ≡ false
kept_apart app o fresh organization id f own found same other =
    elim (Bool-cases (id == own.membership.id)) [
      | inl e ↦
          let key : id ≡ own.membership.id = ground arith in
          let yes' : is_creator fresh.user_id organization app ≡ true =
            is_creator-own app o fresh organization f own
              (subst (λ k. row k app.memberships ≡ some fresh) key found) same in
          ground arith
      | inr e ↦ e
    ]

OwnedBy-delete :
    (o : Organization) (id : ℕ) (ms : List Membership) (own : OwnedBy ms o)
    → (id == own.membership.id) ≡ false
    → OwnedBy (delete_key (λ m. m.id) id ms) o
OwnedBy-delete o id ms own e = record {
  membership = own.membership;
  stored = rw (find-delete_key (λ (m : Membership). m.id) id own.membership.id ms, e) own.stored;
  by_creator = own.by_creator;
  of_organization = own.of_organization;
  as_owner = own.as_owner;
}

-- A change of the roles of one membership, which is not the creator's or keeps its role.
OwnedBy-set_role :
    (o : Organization) (id : ℕ) (role : Role) (ms : List Membership) (own : OwnedBy ms o)
    → (if id == own.membership.id then role else own.membership.role) ≡ owner
    → OwnedBy (update_key (λ m. m.id) id (set_role role) ms) o
unfolding set_role
OwnedBy-set_role o id role ms own e = elim (Bool-cases (id == own.membership.id)) [
  | inl here ↦ record {
    membership = set_role role own.membership;
    stored = rw (found, own.stored, here) refl;
    by_creator = own.by_creator;
    of_organization = own.of_organization;
    as_owner = ground arith;
  }
  | inr apart ↦ record {
    membership = own.membership;
    stored = rw (found, own.stored, apart) refl;
    by_creator = own.by_creator;
    of_organization = own.of_organization;
    as_owner = own.as_owner;
  }
]
  where
    found :
        row own.membership.id (update_key (λ m. m.id) id (set_role role) ms)
        ≡ elim (row own.membership.id ms) [
          | none ↦ none
          | some x ↦ some (if id == own.membership.id then set_role role x else x)
        ]
    found =
        find-update_key (λ (m : Membership). m.id) id own.membership.id (set_role role) ms
          (λ m. refl)

pub OwnedBy-append :
    (o : Organization) (ms : List Membership) (m : Membership)
    → OwnedBy ms o
    → OwnedBy (ms ++ m ∷ []) o
OwnedBy-append o ms m own = record {
  membership = own.membership;
  stored =
      find-append (λ (m : Membership). m.id) own.membership.id ms (m ∷ []) own.membership
        own.stored;
  by_creator = own.by_creator;
  of_organization = own.of_organization;
  as_owner = own.as_owner;
}

-- Memberships are never moved to another organization: what the transaction finds under a key is a
-- membership of the organization that was read before.
abbrev pub Stays : ℕ → ℕ → App → Type 0
Stays id organization app =
    (m : Membership) → row id app.memberships ≡ some m → m.organization_id ≡ organization

pub remove_commit-IsOwned :
    (organization id : ℕ) (app : App)
    → Stays id organization app
    → IsOwned app
    → Accepts IsOwned (remove_commit organization id app)
unfolding remove_commit
remove_commit-IsOwned organization id app same h =
    Accepts-require _ (row id app.memberships) _ _ λ fresh found.
      Accepts-guard _ (not (is_creator fresh.user_id organization app)) _ _ λ other.
        Accepts->>= _ (assert_not_last_owner fresh.organization_id fresh.role app) _ λ _ _.
          IsOwned-write app (delete_key (λ m. m.id) id app.memberships) app.invites
            (λ o f own. OwnedBy-delete o id app.memberships own (
              kept_apart app o fresh organization id f own found (same fresh found) (ground arith)))
            h

same_role-owner : (r : Role) → same_role owner r ≡ true → r ≡ owner
same_role-owner owner h = refl
same_role-owner admin h = ground arith
same_role-owner member h = ground arith

-- A creator's role changes only into the role of an owner.
role_kept :
    (app : App) (o : Organization) (fresh : Membership) (organization id : ℕ) (role : Role)
    → find_organization o.id app ≡ some o
    → (own : OwnedBy app.memberships o) → row id app.memberships ≡ some fresh
    → fresh.organization_id ≡ organization
    → (same_role fresh.role role || not (is_creator fresh.user_id organization app)) ≡ true
    → (if id == own.membership.id then role else own.membership.role) ≡ owner
role_kept app o fresh organization id role f own found same other =
    elim (Bool-cases (id == own.membership.id)) [
      | inl e ↦
          let key : id ≡ own.membership.id = ground arith in
          let here : row own.membership.id app.memberships ≡ some fresh =
            subst (λ k. row k app.memberships ≡ some fresh) key found in
          let creator : is_creator fresh.user_id organization app ≡ true =
            is_creator-own app o fresh organization f own here same in
          let it : own.membership ≡ fresh = ground (arith, own.stored) in
          let as_owner : fresh.role ≡ owner =
            subst (λ (m : Membership). m.role ≡ owner) it own.as_owner in
          let kept : same_role owner role ≡ true =
            subst (λ r. same_role r role ≡ true) as_owner (ground arith) in
          rw e (same_role-owner role kept)
      | inr e ↦ rw e own.as_owner
    ]

pub update_role_commit-IsOwned :
    (organization id : ℕ) (role : Role) (app : App)
    → Stays id organization app
    → IsOwned app
    → Accepts IsOwned (update_role_commit organization id role app)
unfolding update_role_commit
update_role_commit-IsOwned organization id role app same h =
    Accepts-require _ (row id app.memberships) _ _ λ fresh found.
      Accepts-guard _ (same_role fresh.role role || not (is_creator fresh.user_id organization app))
        _ _
        λ other.
          Accepts->>= _
            (if same_role fresh.role role
              then ok tt
              else assert_not_last_owner fresh.organization_id fresh.role app)
            _
            λ _ _.
              IsOwned-write app (update_key (λ m. m.id) id (set_role role) app.memberships)
                app.invites
                (λ o f own.
                  OwnedBy-set_role o id role app.memberships own (
                    role_kept app o fresh organization id role f own found (same fresh found)
                      other))
                h

pub accept_commit-IsOwned :
    (user : ℕ) (i : Invite) (id now : ℕ) (app : App)
    → IsOwned app
    → Accepts (λ r. IsOwned r.0) (accept_commit user i id now app)
unfolding accept_commit
accept_commit-IsOwned user i id now app h =
    Accepts-guard _ (not (is_member user i.organization_id app)) _ _ λ fresh.
      Accepts-require _ (find_key (λ i. i.id) i.id app.invites) _ _
        λ x found. IsOwned-write app _ _ (λ o f own. OwnedBy-append o app.memberships _ own) h
