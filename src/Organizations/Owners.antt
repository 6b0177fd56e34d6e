-- ===== src/Organizations/Owners.antt =====
-- The creator stays an owner when organizations are made, given away and deleted.
use systemvitals.Base.{
  ℕ, ◌≡◌, refl, inl, inr, true, false, not, ◌&&◌, Option, none, some, List, [], ◌∷◌, ◌++◌, arith,
  ◌==◌, ==_refl, ltb, is_some, ◌||◌, All, All-append, Bool-cases, Option-cases,
}
use systemvitals.Base.Text.{Text}
use systemvitals.Base.Table.{
  find_key, update_key, find-update_key, find-delete_key, find-append, find-In, All-In, All-filter,
  All-update_key, find_key-filter,
}
use systemvitals.Base.Result.{Accepts, Accepts->>=, Accepts-guard, Accepts-require}
use systemvitals.Schema.{Role, owner, admin, member}
use systemvitals.Tenancy.{
  App, Organization, Membership, find_organization, find_membership, is_owner,
}
use systemvitals.Members.{is_owner_role}
use systemvitals.Members.Ownership.{row, OwnedBy-append, IsOwned, All-lift}
use systemvitals.Organizations.{
  NewKeys, add_organization, UpdateOrganizationInput, valid_name, valid_slug, is_manager_of,
  slug_clashes, set_fields, update_organization, has_project,
}
use systemvitals.Organizations.Endings.{
  set_creator, memberships_of, assert_no_unresolved_legacy_billing, assert_recipient,
  transfer_commit, transfer_creatorship, delete_organization, delete_commit, remove_organization,
}

-- Keys of rows are unique.
abbrev pub IsKeyed : App → Type 0
IsKeyed app = All (λ m. row m.id app.memberships ≡ some m) app.memberships

-- New rows have keys that no row has.
abbrev pub IsNew : NewKeys → App → Type 0
IsNew keys app =
    (find_organization keys.organization app ≡ none) × (row keys.membership app.memberships ≡ none)

find_key-last :
    {A : Type 0} (key : A → ℕ) (xs : List A) (a : A)
    → find_key key (key a) xs ≡ none
    → find_key key (key a) (xs ++ a ∷ []) ≡ some a
find_key-last key [] a h = rw (==_refl (key a)) refl
find_key-last key (x ∷ xs) a h = elim (Bool-cases (key x == key a)) [
  | inl e ↦ ground arith
  | inr e ↦ rw e (find_key-last key xs a (ground arith))
]

pub add_organization-IsOwned :
    (keys : NewKeys) (user : ℕ) (name slug : Text) (now : ℕ) (app : App)
    → IsNew keys app
    → IsOwned app
    → IsOwned (add_organization keys user name slug now app)
unfolding find_organization
add_organization-IsOwned keys user name slug now app (fresh, unused) h =
    let o : Organization = record {
      id = keys.organization;
      name = name;
      slug = slug;
      creator_user_id = user;
    } in
    let m : Membership = record {
      id = keys.membership;
      user_id = user;
      organization_id = keys.organization;
      role = owner;
      created_at = now;
    } in
    All-append _ app.organizations (o ∷ [])
      (All-lift _ _ app.organizations
        (λ p (f, own). (
          find-append (λ (x : Organization). x.id) p.id app.organizations (o ∷ []) p f,
          OwnedBy-append p app.memberships m own,
        ))
        h)
      (
        (
          find_key-last (λ (x : Organization). x.id) app.organizations o fresh,
          record {
            membership = m;
            stored = find_key-last (λ (x : Membership). x.id) app.memberships m unused;
            by_creator = refl;
            of_organization = refl;
            as_owner = refl;
          },
        ),
        tt,
      )

role-owner : (r : Role) → is_owner_role r ≡ true → r ≡ owner
role-owner owner h = refl
role-owner admin h = ground arith
role-owner member h = ground arith

-- An owner has a membership with the role of an owner.
is_owner-OwnedBy :
    (user organization : ℕ) (app : App)
    → IsKeyed app
    → is_owner user organization app ≡ true
    → (m : Membership) × (row m.id app.memberships ≡ some m)
      × (m.user_id ≡ user)
      × (m.organization_id ≡ organization)
      × (m.role ≡ owner)
unfolding is_owner find_membership
is_owner-OwnedBy user organization app keyed h =
    elim (Option-cases (find_membership user organization app)) [
      | inl e ↦ absurd (ground arith)
      | inr (m, e) ↦
          let (stored, fits) =
            find-In (λ (m : Membership). m.user_id == user && m.organization_id == organization)
              app.memberships m e in
          let as_owner : is_owner_role m.role ≡ true = ground arith in
          (
            m,
            All-In _ app.memberships m keyed stored,
            ground arith,
            ground arith,
            role-owner m.role as_owner,
          )
    ]

==_sym : (a b : ℕ) → (b == a) ≡ (a == b)
==_sym a b = ground arith

-- The organization that has changed hands, or another one.
set_creator-IsOwned :
    (organization user : ℕ) (app : App)
    → IsKeyed app
    → is_owner user organization app ≡ true
    → IsOwned app
    → IsOwned (record app {
      organizations = update_key (λ o. o.id) organization (set_creator user) app.organizations;
    })
unfolding find_organization set_creator
set_creator-IsOwned organization user app keyed own h =
    let (m, stored, by_creator, of_organization, as_owner) =
      is_owner-OwnedBy user organization app keyed own in
    All-update_key (λ (o : Organization). o.id) _ _ organization (set_creator user)
      app.organizations
      (λ o here (f, was). (
        rw
            (
              find-update_key (λ (o : Organization). o.id) organization o.id (set_creator user)
                  app.organizations (λ o. refl),
              f,
              ==_sym o.id organization,
              here,
            )
            refl,
        record {
          membership = m;
          stored = stored;
          by_creator = by_creator;
          of_organization = ground arith;
          as_owner = as_owner;
        },
      ))
      (λ o apart (f, was). (
        rw
            (
              find-update_key (λ (o : Organization). o.id) organization o.id (set_creator user)
                  app.organizations (λ o. refl),
              f,
              ==_sym o.id organization,
              apart,
            )
            refl,
        was,
      ))
      h

set_fields-IsOwned :
    (organization : ℕ) (name slug : Option Text) (app : App)
    → IsOwned app
    → IsOwned (record app {
      organizations = update_key (λ o. o.id) organization (set_fields name slug) app.organizations;
    })
unfolding find_organization
set_fields-IsOwned organization name slug app h =
    All-update_key (λ (o : Organization). o.id) _ _ organization (set_fields name slug)
      app.organizations
      (λ o here (f, was). (
        rw
            (
              find-update_key (λ (o : Organization). o.id) organization o.id (set_fields name slug)
                  app.organizations (λ o. refl),
              f,
              ==_sym o.id organization,
              here,
            )
            refl,
        record {
          membership = was.membership;
          stored = was.stored;
          by_creator = was.by_creator;
          of_organization = was.of_organization;
          as_owner = was.as_owner;
        },
      ))
      (λ o apart (f, was). (
        rw
            (
              find-update_key (λ (o : Organization). o.id) organization o.id (set_fields name slug)
                  app.organizations (λ o. refl),
              f,
              ==_sym o.id organization,
              apart,
            )
            refl,
        was,
      ))
      h

pub update_organization-IsOwned :
    (lower : Text → Text) (user organization : ℕ) (input : UpdateOrganizationInput) (app : App)
    → IsOwned app
    → Accepts IsOwned (update_organization lower user organization input app)
unfolding update_organization
update_organization-IsOwned lower user organization input app h =
    Accepts-guard _ (is_some input.name || is_some input.slug) _ _ λ _.
      Accepts->>= _ (valid_name input.name) _ λ name _.
        Accepts->>= _ (valid_slug lower input.slug) _ λ _ _.
          Accepts-guard _ (is_manager_of user organization app) _ _ λ _.
            Accepts-require _ (find_organization organization app) _ _ λ o _.
              Accepts-guard _ (not (slug_clashes organization input.slug app)) _ _ λ _.
                Accepts-guard _ (has_project organization app) _ _
                  λ _. set_fields-IsOwned organization name input.slug app h

pub transfer_creatorship-IsOwned :
    (caller organization recipient : ℕ) (start app : App)
    → IsKeyed app
    → IsOwned app
    → Accepts IsOwned (transfer_creatorship caller organization recipient start app)
unfolding transfer_creatorship transfer_commit
transfer_creatorship-IsOwned caller organization recipient start app keyed h =
    Accepts-require _ (find_organization organization start) _ _ λ initial _.
      Accepts-guard _ (not (caller == recipient)) _ _ λ _.
        Accepts-require _ (find_organization organization app) _ _ λ o _.
          Accepts-guard _ (o.creator_user_id == initial.creator_user_id) _ _ λ _.
            Accepts-guard _ (o.creator_user_id == caller && is_owner caller organization app) _ _
              λ _. Accepts-guard _ (is_owner recipient organization app) _ _ λ own.
                Accepts->>= _ (assert_no_unresolved_legacy_billing organization app) _ λ _ _.
                  Accepts->>= _ (assert_recipient recipient organization app) _ λ _ _.
                    Accepts-guard _ (has_project organization app) _ _
                      λ _. set_creator-IsOwned organization recipient app keyed own h

delete_organization-IsOwned :
    (organization : ℕ) (app : App) → IsOwned app → IsOwned (delete_organization organization app)
unfolding delete_organization find_organization
delete_organization-IsOwned organization app h =
    All-filter _ _ (λ (o : Organization). not (o.id == organization)) app.organizations
      (λ o apart (f, was).
        let other : (o.id == organization) ≡ false = ground arith in
        (
          rw
              (
                find-delete_key (λ (o : Organization). o.id) organization o.id app.organizations,
                ==_sym o.id organization,
                other,
              )
              f,
          record {
            membership = was.membership;
            stored =
                find_key-filter (λ (m : Membership). m.id)
                  (λ m. not (m.organization_id == organization)) was.membership.id app.memberships
                  was.membership was.stored (rw (was.of_organization, other) refl);
            by_creator = was.by_creator;
            of_organization = was.of_organization;
            as_owner = was.as_owner;
          },
        ))
      h

pub remove_organization-IsOwned :
    (user organization : ℕ) (start app : App)
    → IsOwned app
    → Accepts IsOwned (remove_organization user organization start app)
unfolding remove_organization delete_commit
remove_organization-IsOwned user organization start app h =
    Accepts-require _ (find_organization organization start) _ _ λ initial _.
      Accepts-guard _ (is_owner user organization app) _ _ λ _.
        Accepts-require _ (find_organization organization app) _ _ λ o _.
          Accepts-guard _ (o.creator_user_id == initial.creator_user_id) _ _ λ _.
            Accepts-guard _ (ltb 1 (memberships_of user app)) _ _ λ _.
              Accepts->>= _ (assert_no_unresolved_legacy_billing organization app) _
                λ _ _. delete_organization-IsOwned organization app h
