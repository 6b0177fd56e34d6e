-- ===== src/Organizations/Deletion.antt =====
-- The deletion of an organization.
use systemvitals.Base.{
  ℕ, ◌+◌, ◌≤◌, ◌≡◌, refl, inl, inr, Bool, true, false, not, ◌&&◌, List, [], ◌∷◌, arith, ◌==◌, ltb,
  ltb→lt, any, filter, count, All, Bool-cases,
}
use systemvitals.Base.Result.{ok, Accepts, Accepts->>=, Accepts-guard, Accepts-require, Accepts-at}
use systemvitals.Tenancy.{App, Membership, find_organization, is_owner}
use systemvitals.Organizations.Endings.{
  is_unresolved, assert_no_unresolved_legacy_billing, in_organization, delete_organization,
  memberships_of, delete_commit, remove_organization,
}

module _ {A : Type 0} where
  count-filter :
      (p q : A → Bool) (xs : List A)
      → count p (filter (λ x. not (q x)) xs) + count (λ x. p x && q x) xs ≡ count p xs
  count-filter p q [] = refl
  count-filter p q (x ∷ xs) = ground (arith, count-filter p q xs)

  All-passes : (p : A → Bool) (xs : List A) → All (λ x. p x ≡ true) (filter p xs)
  All-passes p [] = tt
  All-passes p (x ∷ xs) = elim (Bool-cases (p x)) [
    | inl e ↦ rw e (e, All-passes p xs)
    | inr e ↦ rw e (All-passes p xs)
  ]

-- What a deletion has tested, and what it leaves of the organization: nothing.
pub record IsRemoved (user organization : ℕ) (app next : App) : Type 0 where
  pub owned : is_owner user organization app ≡ true
  pub resolved : any (is_unresolved organization) app.legacy_subscriptions ≡ false
  pub shape : next ≡ delete_organization organization app
  pub no_organization : All (λ o. not (o.id == organization) ≡ true) next.organizations
  pub no_membership : All (λ m. not (m.organization_id == organization) ≡ true) next.memberships
  pub no_project : All (λ p. not (p.organization_id == organization) ≡ true) next.projects
  pub no_check :
      All (λ c. not (in_organization organization app c.project_id) ≡ true) next.monitor.checks
  pub no_page :
      All (λ s. not (in_organization organization app s.project_id) ≡ true) next.status_pages
  pub remains : 1 ≤ memberships_of user next

-- Whether a membership is the user's in the organization.
abbrev pub is_of : ℕ → ℕ → Membership → Bool
is_of user organization m = m.user_id == user && m.organization_id == organization

removed :
    (user organization : ℕ) (app : App)
    → count (is_of user organization) app.memberships ≤ 1
    → is_owner user organization app ≡ true
    → any (is_unresolved organization) app.legacy_subscriptions ≡ false
    → ltb 1 (memberships_of user app) ≡ true
    → IsRemoved user organization app (delete_organization organization app)
unfolding delete_organization
removed user organization app once owned resolved more = record {
  owned = owned;
  resolved = resolved;
  shape = refl;
  no_organization = All-passes (λ o. not (o.id == organization)) app.organizations;
  no_membership = All-passes (λ m. not (m.organization_id == organization)) app.memberships;
  no_project = All-passes (λ p. not (p.organization_id == organization)) app.projects;
  no_check =
      All-passes (λ c. not (in_organization organization app c.project_id)) app.monitor.checks;
  no_page = All-passes (λ s. not (in_organization organization app s.project_id)) app.status_pages;
  remains = omega (
    arith,
    ltb→lt 1 (memberships_of user app) more,
    once,
    count-filter (λ m. m.user_id == user) (λ m. m.organization_id == organization) app.memberships,
  );
}

remove_organization-IsRemoved :
    (user organization : ℕ) (start app : App)
    → count (is_of user organization) app.memberships ≤ 1
    → Accepts (IsRemoved user organization app) (remove_organization user organization start app)
unfolding remove_organization delete_commit
remove_organization-IsRemoved user organization start app once =
    let Gone : App → Type 0 = IsRemoved user organization app in
    Accepts-require Gone (find_organization organization start) _ _ λ initial _.
      Accepts-guard Gone (is_owner user organization app) _ _ λ owned.
        Accepts-require Gone (find_organization organization app) _ _ λ o _.
          Accepts-guard Gone (o.creator_user_id == initial.creator_user_id) _ _ λ _.
            Accepts-guard Gone (ltb 1 (memberships_of user app)) _ _ λ more.
              Accepts->>= Gone (assert_no_unresolved_legacy_billing organization app) _ λ _ settled.
                removed user organization app once owned
                  (unfold assert_no_unresolved_legacy_billing in ground arith) more

-- Only an owner deletes an organization, and only one without an unresolved subscription. Its members,
-- project, checks and status pages go with it, and the user, who has one membership in it at most,
-- is still a member of another organization.
pub remove_organization_exact :
    (user organization : ℕ) (start app next : App)
    → count (is_of user organization) app.memberships ≤ 1
    → remove_organization user organization start app ≡ ok next
    → IsRemoved user organization app next
remove_organization_exact user organization start app next once h =
    Accepts-at (IsRemoved user organization app) _ next
      (remove_organization-IsRemoved user organization start app once) h
