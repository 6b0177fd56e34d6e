-- ===== src/Checks/Created.antt =====
-- What the creation of a check has tested and written.
use mathlib.Core.Path.{subst}
use systemvitals.Base.{
  ℕ, ◌≤◌, ◌<◌, ◌≡◌, refl, inl, inr, true, not, ◌||◌, some, List, [], ◌∷◌, ◌++◌, arith, ◌==◌, any,
  length, Bool-cases, Option-cases,
}
use systemvitals.Base.Int.{ℤ}
use systemvitals.Base.Text.{Text, text_eq}
use systemvitals.Base.Decimal.{power_of_ten}
use systemvitals.Base.Result.{
  map_err, map_err-ok, Result, ok, err, Accepts, Accepts->>=, Accepts-guard, Accepts-require,
  Accepts-at,
}
use systemvitals.Schema.{Check}
use systemvitals.Plan.{assert_interval, assert_can_add_check}
use systemvitals.Tenancy.{
  App, Project, Membership, find_project, find_membership, is_member, account_of,
}
use systemvitals.Slug.{is_valid_slug}
use systemvitals.Slug.Series.{unique_slug_valid}
use systemvitals.SlugCreation.{Accepts-create_with_unique_slug}
use systemvitals.Checks.{ChecksError, not_entitled, creator_of, with_creator_retry}
use systemvitals.Plan.Laws.{
  HasRoom, AllowsInterval, assert_interval-AllowsInterval, assert_can_add_check-HasRoom,
}
use systemvitals.Checks.Slugs.{IsFree, taken-IsFree}
use systemvitals.Checks.Guarded.{retry_from-ok, IsCreatorOf, creator_of-IsCreatorOf}
use systemvitals.Checks.Creation.{
  CreationAttempt, within_account_quota, taken_check_slugs, add_check, insert_check, load_slugs,
  create_row, create_within_account_quota,
}

is_member-some :
    (user organization : ℕ) (app : App)
    → is_member user organization app ≡ true
    → (m : Membership) × (find_membership user organization app ≡ some m)
unfolding is_member
is_member-some user organization app h =
    elim (Option-cases (find_membership user organization app)) [
      | inl e ↦ absurd (ground arith)
      | inr (m, e) ↦ (m, e)
    ]

-- The database behind the locks of an attempt.
abbrev pub locked_of : CreationAttempt → App
locked_of a = a.before_membership (a.before_users a.start)

-- The account whose quota counts, and what it allowed.
pub record IsAllowed (user project : ℕ) (interval : ℤ) (a : CreationAttempt) : Type 0 where
  pub p : Project
  pub found : find_project project (a.before_users a.start) ≡ some p
  pub member : (m : Membership) × (find_membership user p.organization_id (locked_of a) ≡ some m)
  pub creator : ℕ
  pub created : IsCreatorOf creator p (a.before_users a.start)
  pub interval_allowed : AllowsInterval (account_of creator (locked_of a)) interval
  pub room : HasRoom (account_of creator (locked_of a))

-- The row that was inserted.
pub record IsInserted (project : ℕ) (row : Text → Check) (a : CreationAttempt) (next : App)
    : Type 0 where
  pub round : ℕ
  pub slug : Text
  pub valid : is_valid_slug slug ≡ true
  pub free : IsFree project slug (a.before_insert round (locked_of a)).monitor.checks
  pub shape :
      let app = a.before_insert round (locked_of a) in
      next
      ≡ record app { monitor = record app.monitor { checks = app.monitor.checks ++ row slug ∷ [] } }

-- An accepted transaction was allowed, and its operation was.
within_account_quota-IsAllowed :
    (user project : ℕ) (interval : ℤ) (operation : App → Result ChecksError App)
    (a : CreationAttempt)
    → Accepts
        (λ next. IsAllowed user project interval a × (operation (locked_of a) ≡ ok next))
        (within_account_quota user project interval operation a)
unfolding within_account_quota
within_account_quota-IsAllowed user project interval operation a =
    let Done : App → Type 0 =
      λ next. IsAllowed user project interval a × (operation (locked_of a) ≡ ok next) in
    Accepts-require Done (find_project project a.start) _ _ λ initial _.
      Accepts->>= Done (creator_of initial a.start) _ λ creator _.
        Accepts-require Done (find_project project (a.before_users a.start)) _ _ λ p found.
          Accepts->>= Done (creator_of p (a.before_users a.start)) _ λ same creator_found.
            Accepts-guard Done (same == creator) _ _ λ _.
              Accepts-guard Done (is_member user p.organization_id (locked_of a)) _ _ λ member.
                Accepts->>= Done
                  (map_err not_entitled (assert_interval (account_of same (locked_of a)) interval))
                  _
                  λ u fast.
                    Accepts->>= Done
                      (map_err not_entitled (assert_can_add_check (account_of same (locked_of a))))
                      _
                      λ v room.
                        done
                          (record {
                            p = p;
                            found = found;
                            member = is_member-some user p.organization_id (locked_of a) member;
                            creator = same;
                            created =
                                creator_of-IsCreatorOf p (a.before_users a.start) same
                                  creator_found;
                            interval_allowed =
                                assert_interval-AllowsInterval _ interval
                                  (map_err-ok not_entitled _ u fast);
                            room =
                                assert_can_add_check-HasRoom _ (map_err-ok not_entitled _ v room);
                          })
                          (operation (locked_of a))
  where
    done :
        IsAllowed user project interval a
        → (r : Result ChecksError App)
        → Accepts (λ next. IsAllowed user project interval a × (r ≡ ok next)) r
    done allowed (ok next) = (allowed, refl)
    done allowed (err e) = tt

-- The slugs of a project that each load finds are not beyond counting.
abbrev pub IsCounted : ℕ → CreationAttempt → Type 0
IsCounted project a =
    (n : ℕ) → length (taken_check_slugs project (a.before_load n (locked_of a))) < power_of_ten 20

load_slugs-found :
    (a : CreationAttempt) (project : ℕ) (app : App) (n : ℕ) (taken : List Text)
    → load_slugs a project app n ≡ ok taken
    → taken_check_slugs project (a.before_load n app) ≡ taken
load_slugs-found a project app n taken h = elim (Bool-cases (a.resumes || (n == 1))) [
  | inl e ↦ ground arith
  | inr e ↦ absurd (ground arith)
]

module _ (project : ℕ) (row : Text → Check) (a : CreationAttempt)
    (of_project : (s : Text) → (row s).project_id ≡ project)
    (of_slug : (s : Text) → (row s).slug ≡ s) where
  insert_check-IsInserted :
      (n : ℕ) (slug : Text)
      → is_valid_slug slug ≡ true
      → Accepts
          (IsInserted project row a)
          (insert_check (row slug) (a.before_insert n (locked_of a)))
  unfolding insert_check
  insert_check-IsInserted n slug valid =
      let Put : App → Type 0 = IsInserted project row a in
      let app : App = a.before_insert n (locked_of a) in
      Accepts-require Put (find_project (row slug).project_id app) _ _ λ p _.
        Accepts-guard Put
          (not (any (λ s. text_eq s (row slug).slug) (taken_check_slugs (row slug).project_id app)))
          _ _
          λ free.
            let here : not (any (λ s. text_eq s slug) (taken_check_slugs project app)) ≡ true =
              rw (of_project slug, of_slug slug) at free in
            let put : Put (add_check (row slug) app) = record {
              round = n;
              slug = slug;
              valid = valid;
              free = taken-IsFree project slug app (ground arith);
              shape = refl;
            } in
            put

  create_row-IsInserted :
      (base : Text)
      → is_valid_slug base ≡ true
      → IsCounted project a
      → Accepts (IsInserted project row a) (create_row base project row a (locked_of a))
  unfolding create_row
  create_row-IsInserted base valid few =
      Accepts-create_with_unique_slug (IsInserted project row a) _ _ base
        (load_slugs a project (locked_of a)) _
        λ n taken slug loaded free.
          let same : taken_check_slugs project (a.before_load n (locked_of a)) ≡ taken =
            load_slugs-found a project (locked_of a) n taken loaded in
          insert_check-IsInserted n slug (
            unique_slug_valid base taken slug valid
              (subst (λ t. length t < power_of_ten 20) same (few n)) free)

-- An attempt of the three that was allowed and has inserted a row.
pub record IsDone (user project : ℕ) (interval : ℤ) (row : Text → Check)
    (attempts : ℕ → CreationAttempt) (next : App) : Type 0 where
  pub attempt : ℕ
  pub first : 1 ≤ attempt
  pub last : attempt ≤ 3
  pub allowed : IsAllowed user project interval (attempts attempt)
  pub inserted : IsInserted project row (attempts attempt) next

pub create_within_account_quota-IsDone :
    (user project : ℕ) (interval : ℤ) (base : Text) (row : Text → Check)
    (attempts : ℕ → CreationAttempt) (next : App)
    → ((s : Text) → (row s).project_id ≡ project)
    → ((s : Text) → (row s).slug ≡ s)
    → is_valid_slug base ≡ true
    → ((n : ℕ) → IsCounted project (attempts n))
    → create_within_account_quota user project interval base row attempts ≡ ok next
    → IsDone user project interval row attempts next
unfolding create_within_account_quota with_creator_retry
create_within_account_quota-IsDone user project interval base row attempts next of_project of_slug
      valid few h =
    let operation : ℕ → Result ChecksError App = λ n.
      within_account_quota user project interval (create_row base project row (attempts n))
        (attempts n) in
    let (n, lo, hi, e) = retry_from-ok operation 2 1 next h in
    let both : IsAllowed user project interval (attempts n)
        × (create_row base project row (attempts n) (locked_of (attempts n)) ≡ ok next) =
      Accepts-at _ _ next
        (within_account_quota-IsAllowed user project interval
          (create_row base project row (attempts n)) (attempts n))
        e in
    record {
      attempt = n;
      first = lo;
      last = omega (arith, hi);
      allowed = both.0;
      inserted =
          Accepts-at _ _ next
            (create_row-IsInserted project row (attempts n) of_project of_slug base valid (few n))
            both.1;
    }
