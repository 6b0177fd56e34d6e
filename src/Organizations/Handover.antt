-- ===== src/Organizations/Handover.antt =====
-- The transfer of an organization.
use systemvitals.Base.{
  ℕ, ◌+◌, ◌≡◌, refl, sym, ap, ◌∙◌, inl, inr, Bool, true, false, not, ◌&&◌, ◌||◌, Option, none, some,
  List, [], ◌∷◌, arith, ◌==◌, ==_refl, any, count, Bool-cases, Option-cases, if◌then◌else◌,
}
use systemvitals.Base.Int.{pos, ◌≤ℤ◌}
use systemvitals.Base.Table.{update_key, find-update_key}
use systemvitals.Base.Result.{
  map_err, map_err-ok, ok, Accepts, Accepts->>=, Accepts-guard, Accepts-require, Accepts-at,
  Result-cases,
}
use systemvitals.Tenancy.{
  App, Organization, Project, find_organization, find_project, is_owner, is_created_by, account_of,
}
use systemvitals.Plan.{Subscription, for_user, assert_can_add_organization}
use systemvitals.Organizations.{not_entitled, has_project}
use systemvitals.Organizations.Endings.{
  is_unresolved, assert_no_unresolved_legacy_billing, in_organization, checks_of, set_creator,
  assert_recipient, transfer_commit, transfer_creatorship,
}

module _ {A : Type 0} where
  -- Of two tests that never both hold, the counts add up.
  count-disjoint :
      (p q r : A → Bool) (xs : List A)
      → ((x : A) → r x ≡ (p x || q x))
      → ((x : A) → (p x && q x) ≡ false)
      → count r xs ≡ count p xs + count q xs
  count-disjoint p q r [] h k = refl
  count-disjoint p q r (x ∷ xs) h k = ground (arith, h x, k x, count-disjoint p q r xs h k)

for_user-check_count : (s : Option Subscription) (c o : ℕ) → (for_user s c o).check_count ≡ c
unfolding for_user
for_user-check_count none c o = refl
for_user-check_count (some s) c o = refl

for_user-limits :
    (s : Option Subscription) (c o d p : ℕ) → (for_user s c o).limits ≡ (for_user s d p).limits
unfolding for_user
for_user-limits none c o d p = refl
for_user-limits (some s) c o d p = refl

account_of-check_count :
    (user : ℕ) (app : App)
    → (account_of user app).check_count
      ≡ count (λ c. is_created_by user app c.project_id) app.monitor.checks
unfolding account_of
account_of-check_count user app = for_user-check_count _ _ _

abbrev given_to : ℕ → ℕ → App → App
given_to organization recipient app = record app {
  organizations = update_key (λ o. o.id) organization (set_creator recipient) app.organizations;
}

created_by-none :
    (user project : ℕ) (app : App)
    → find_project project app ≡ none
    → is_created_by user app project ≡ false
unfolding is_created_by
created_by-none user project app e = rw (is_created_by, e) refl

created_by-orphan :
    (user project : ℕ) (app : App) (p : Project)
    → find_project project app ≡ some p
    → find_organization p.organization_id app ≡ none
    → is_created_by user app project ≡ false
unfolding is_created_by
created_by-orphan user project app p e f = rw (is_created_by, e, f) refl

created_by-some :
    (user project : ℕ) (app : App) (p : Project) (o : Organization)
    → find_project project app ≡ some p
    → find_organization p.organization_id app ≡ some o
    → is_created_by user app project ≡ (o.creator_user_id == user)
unfolding is_created_by
created_by-some user project app p o e f = rw (is_created_by, e, f) refl

in_organization-none :
    (organization project : ℕ) (app : App)
    → find_project project app ≡ none
    → in_organization organization app project ≡ false
unfolding in_organization
in_organization-none organization project app e = rw (in_organization, e) refl

in_organization-some :
    (organization project : ℕ) (app : App) (p : Project)
    → find_project project app ≡ some p
    → in_organization organization app project ≡ (p.organization_id == organization)
unfolding in_organization
in_organization-some organization project app p e = rw (in_organization, e) refl

find-given_to :
    (organization recipient id : ℕ) (app : App)
    → find_organization id (given_to organization recipient app) ≡ elim (find_organization id app) [
      | none ↦ none
      | some o ↦ some (if organization == id then set_creator recipient o else o)
    ]
unfolding find_organization set_creator
find-given_to organization recipient id app =
    find-update_key (λ (x : Organization). x.id) organization id (set_creator recipient)
      app.organizations (λ x. refl)

-- Whose organization a project stands in, after the transfer.
abbrev Splits : ℕ → ℕ → App → ℕ → Type 0
Splits organization recipient app project =
    (is_created_by recipient (given_to organization recipient app) project
      ≡ (is_created_by recipient app project || in_organization organization app project))
    × ((is_created_by recipient app project && in_organization organization app project) ≡ false)

module _ (organization recipient : ℕ) (app : App) (o : Organization)
    (found : find_organization organization app ≡ some o)
    (other : (o.creator_user_id == recipient) ≡ false) where
  same_organization : (id : ℕ) → (id == organization) ≡ true → find_organization id app ≡ some o
  same_organization id k = let e : id ≡ organization = ground arith in rw e found

  project-Splits :
      (project : ℕ) (p : Project)
      → find_project project app ≡ some p
      → Splits organization recipient app project
  unfolding set_creator find_project
  project-Splits project p e = elim (Option-cases (find_organization p.organization_id app)) [
    | inl f ↦
        let gone : find_organization p.organization_id (given_to organization recipient app)
            ≡ none =
          rw (find-given_to organization recipient p.organization_id app, f) refl in
        let apart : (p.organization_id == organization) ≡ false =
          elim (Bool-cases (p.organization_id == organization)) [
            | inl k ↦
                let there : find_organization p.organization_id app ≡ some o =
                  same_organization p.organization_id k in
                absurd (ground arith)
            | inr k ↦ k
          ] in
        rw
          (
            created_by-orphan recipient project app p e f,
            created_by-orphan recipient project (given_to organization recipient app) p e gone,
            in_organization-some organization project app p e,
            apart,
          )
          (refl, refl)
    | inr (x, f) ↦
        let kept : find_organization p.organization_id (given_to organization recipient app)
            ≡ some (if organization == p.organization_id then set_creator recipient x else x) =
          rw (find-given_to organization recipient p.organization_id app, f) refl in
        rw
          (
            created_by-some recipient project app p x e f,
            created_by-some recipient project (given_to organization recipient app) p _ e kept,
            in_organization-some organization project app p e,
          )
          (elim (Bool-cases (p.organization_id == organization)) [
            | inl k ↦
                let there : find_organization p.organization_id app ≡ some o =
                  same_organization p.organization_id k in
                let same : x ≡ o = ground arith in
                let here : (organization == p.organization_id) ≡ true = ground arith in
                rw (here, k, same, other) (==_refl recipient, refl)
            | inr k ↦
                let apart : (organization == p.organization_id) ≡ false = ground arith in
                rw (apart, k) (ground arith, ground arith)
          ])
  ]

  created_by-given_to : (project : ℕ) → Splits organization recipient app project
  unfolding find_project
  created_by-given_to project = elim (Option-cases (find_project project app)) [
    | inl e ↦
        rw
          (
            created_by-none recipient project app e,
            created_by-none recipient project (given_to organization recipient app) e,
            in_organization-none organization project app e,
          )
          (refl, refl)
    | inr (p, e) ↦ project-Splits project p e
  ]

  count-given_to :
      (account_of recipient (given_to organization recipient app)).check_count
      ≡ (account_of recipient app).check_count + checks_of organization app
  count-given_to =
      account_of-check_count recipient (given_to organization recipient app)
      ∙ count-disjoint (λ c. is_created_by recipient app c.project_id)
          (λ c. in_organization organization app c.project_id)
          (λ c. is_created_by recipient (given_to organization recipient app) c.project_id)
          app.monitor.checks (λ c. (created_by-given_to c.project_id).0)
          (λ c. (created_by-given_to c.project_id).1)
      ∙ ap (λ n. n + checks_of organization app) (sym (account_of-check_count recipient app))

  limits-given_to :
      (account_of recipient (given_to organization recipient app)).limits
      ≡ (account_of recipient app).limits
  unfolding account_of
  limits-given_to = for_user-limits _ _ _ _ _

-- What a transfer has tested and written.
pub record IsTransferred (caller organization recipient : ℕ) (app next : App) : Type 0 where
  pub o : Organization
  pub found : find_organization organization app ≡ some o
  pub by_creator : o.creator_user_id ≡ caller
  pub apart : (caller == recipient) ≡ false
  pub caller_owns : is_owner caller organization app ≡ true
  pub recipient_owns : is_owner recipient organization app ≡ true
  pub resolved : any (is_unresolved organization) app.legacy_subscriptions ≡ false
  pub allowed : assert_can_add_organization (account_of recipient app) ≡ ok tt
  pub shape : next ≡ given_to organization recipient app
  pub within :
      pos (account_of recipient next).check_count ≤ℤ (account_of recipient next).limits.max_checks

-- The two tests of the recipient's account.
assert_recipient-ok :
    (recipient organization : ℕ) (app : App) (u : Unit {0})
    → assert_recipient recipient organization app ≡ ok u
    → (assert_can_add_organization (account_of recipient app) ≡ ok tt)
      × (pos ((account_of recipient app).check_count + checks_of organization app)
          ≤ℤ (account_of recipient app).limits.max_checks)
unfolding assert_recipient
assert_recipient-ok recipient organization app u h =
    elim (Result-cases
      (map_err not_entitled (assert_can_add_organization (account_of recipient app)))) [
        | inl (v, e) ↦ (map_err-ok not_entitled _ v e, ground arith)
        | inr (x, e) ↦ absurd (ground arith)
      ]

given :
    (organization recipient caller : ℕ) (app : App) (o : Organization)
    → find_organization organization app ≡ some o
    → not (caller == recipient) ≡ true
    → (o.creator_user_id == caller && is_owner caller organization app) ≡ true
    → is_owner recipient organization app ≡ true
    → any (is_unresolved organization) app.legacy_subscriptions ≡ false
    → (assert_can_add_organization (account_of recipient app) ≡ ok tt)
      × (pos ((account_of recipient app).check_count + checks_of organization app)
          ≤ℤ (account_of recipient app).limits.max_checks)
    → IsTransferred caller organization recipient app (given_to organization recipient app)
given organization recipient caller app o found apart own recipient_owns resolved (allowed, fits) =
    let other : (o.creator_user_id == recipient) ≡ false = ground arith in
    record {
      o = o;
      found = found;
      by_creator = ground arith;
      apart = ground arith;
      caller_owns = ground arith;
      recipient_owns = recipient_owns;
      resolved = resolved;
      allowed = allowed;
      shape = refl;
      within =
          rw
            (
              count-given_to organization recipient app o found other,
              limits-given_to organization recipient app o found other,
            )
            fits;
    }

transfer_creatorship-IsTransferred :
    (caller organization recipient : ℕ) (start app : App)
    → Accepts
        (IsTransferred caller organization recipient app)
        (transfer_creatorship caller organization recipient start app)
unfolding transfer_creatorship transfer_commit
transfer_creatorship-IsTransferred caller organization recipient start app =
    let Given : App → Type 0 = IsTransferred caller organization recipient app in
    Accepts-require Given (find_organization organization start) _ _ λ initial _.
      Accepts-guard Given (not (caller == recipient)) _ _ λ apart.
        Accepts-require Given (find_organization organization app) _ _ λ o found.
          Accepts-guard Given (o.creator_user_id == initial.creator_user_id) _ _ λ _.
            Accepts-guard Given (o.creator_user_id == caller && is_owner caller organization app) _
              _
              λ own. Accepts-guard Given (is_owner recipient organization app) _ _ λ recipient_owns.
                Accepts->>= Given (assert_no_unresolved_legacy_billing organization app) _
                  λ _ settled.
                    Accepts->>= Given (assert_recipient recipient organization app) _ λ u checked.
                      Accepts-guard Given (has_project organization app) _ _ λ _.
                        given organization recipient caller app o found apart own recipient_owns
                          (unfold assert_no_unresolved_legacy_billing in ground arith)
                          (assert_recipient-ok recipient organization app u checked)

-- A transfer is one of the caller's own organization, which it owns, to another owner; no subscription
-- of the organization is unresolved; the organization gets the new creator and nothing else changes;
-- and the new creator's account, with the checks that come along, is within its limit of checks.
pub transfer_creatorship_exact :
    (caller organization recipient : ℕ) (start app next : App)
    → transfer_creatorship caller organization recipient start app ≡ ok next
    → IsTransferred caller organization recipient app next
transfer_creatorship_exact caller organization recipient start app next h =
    Accepts-at (IsTransferred caller organization recipient app) _ next
      (transfer_creatorship-IsTransferred caller organization recipient start app) h
