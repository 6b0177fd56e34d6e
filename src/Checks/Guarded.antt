-- ===== src/Checks/Guarded.antt =====
-- What a retried transaction on a check has established when it succeeds.
use mathlib.Core.Path.{subst}
use systemvitals.Base.{
  ◌∙◌, ap, ℕ, zero, suc, ◌+◌, ◌≤◌, ◌≡◌, inl, inr, refl, true, some, arith, ◌==◌, Bool-cases,
}
use systemvitals.Base.Result.{
  Result, ok, err, ◌>>=◌, Result-cases, Accepts, Accepts->>=, Accepts-guard, Accepts-require,
  Accepts-at,
}
use systemvitals.Schema.{find_check}
use systemvitals.Tenancy.{App, Organization, Project, find_organization, find_project, is_member}
use systemvitals.Checks.{
  ChecksError, is_creator_changed, Attempt, Locked, retry_from, with_creator_retry, creator_of,
  lock_and_assert_expected_check, expected_check, with_creator_stable_expected_check,
}

pub ok_not_err : {E A : Type 0} {e : E} {a : A} → err e ≡ ok a → ⊥
ok_not_err h = ground arith

module _ {A : Type 0} (operation : ℕ → Result ChecksError A) where
  pub retry_from-ok :
      (more attempt : ℕ) (a : A)
      → retry_from operation attempt more ≡ ok a
      → (n : ℕ) × (attempt ≤ n) × (n ≤ attempt + more) × (operation n ≡ ok a)
  unfolding retry_from
  retry_from-ok zero attempt a h = elim (Result-cases (operation attempt)) [
    | inl (b, e) ↦ (attempt, omega arith, omega arith, rw e (rw (e, retry_from) at h))
    | inr (x, e) ↦ elim (Bool-cases (is_creator_changed x)) [
      | inl c ↦ absurd (ok_not_err (rw (e, c, retry_from) at h))
      | inr c ↦ absurd (ok_not_err (rw (e, c, retry_from) at h))
    ]
  ]
  retry_from-ok (suc more) attempt a h = elim (Result-cases (operation attempt)) [
    | inl (b, e) ↦ (attempt, omega arith, omega arith, rw e (rw (e, retry_from) at h))
    | inr (x, e) ↦ elim (Bool-cases (is_creator_changed x)) [
      | inl c ↦
          let (n, lo, hi, k) = retry_from-ok more (suc attempt) a (rw (e, c, retry_from) at h) in
          (n, omega arith, omega arith, k)
      | inr c ↦ absurd (ok_not_err (rw (e, c, retry_from) at h))
    ]
  ]

-- The project stands in an organization that the user created.
abbrev pub IsCreatorOf : ℕ → Project → App → Type 0
IsCreatorOf user p app =
    (o : Organization) × (find_organization p.organization_id app ≡ some o)
    × (o.creator_user_id ≡ user)

pub creator_of-IsCreatorOf :
    (p : Project) (app : App) (user : ℕ) → creator_of p app ≡ ok user → IsCreatorOf user p app
unfolding creator_of
creator_of-IsCreatorOf p app user h =
    Accepts-at (λ u. IsCreatorOf u p app) (creator_of p app) user
      (unfold creator_of in
        Accepts-require (λ u. IsCreatorOf u p app) (find_organization p.organization_id app) _ _
          λ o found. (o, found, refl))
      h

-- The transaction of an expected check has found it, with the creator of its organization unchanged
-- since before the creator's account was locked, in the project that the caller was authorized for,
-- and the caller is a member of the organization.
pub record IsGuarded (user check_id expected : ℕ) (a : Attempt) (l : Locked) : Type 0 where
  pub found : find_check check_id (a.before_check (a.before_users a.start)).monitor ≡ some l.check
  pub in_project : l.check.project_id ≡ expected
  pub project :
      find_project l.check.project_id (a.before_check (a.before_users a.start)) ≡ some l.project
  pub app : l.app ≡ a.before_membership (a.before_check (a.before_users a.start))
  pub is_member : is_member user l.project.organization_id l.app ≡ true
  pub creator :
      (p : Project) × (find_project expected (a.before_users a.start) ≡ some p)
      × IsCreatorOf l.creator p (a.before_users a.start)

the_same : (a b : ℕ) → (a == b) ≡ true → a ≡ b
the_same a b h = ground arith

expected_check-IsGuarded :
    (user check_id expected : ℕ) (a : Attempt)
    → Accepts (IsGuarded user check_id expected a) (expected_check user check_id expected a)
unfolding expected_check lock_and_assert_expected_check
expected_check-IsGuarded user check_id expected a =
    Accepts-require _ (find_check check_id a.start.monitor) _ _ λ initial e1.
      Accepts-require _ (find_project initial.project_id a.start) _ _ λ p e2.
        Accepts->>= _ (creator_of p a.start) _ λ creator e3.
          Accepts-guard _ (initial.project_id == expected) _ _ λ e4.
            Accepts-require _ (find_project initial.project_id (a.before_users a.start)) _ _
              λ stable e5.
                Accepts->>= _ (creator_of stable (a.before_users a.start)) _ λ stable_creator e6.
                  Accepts-guard _ (stable_creator == creator) _ _ λ e7.
                    Accepts-require _
                      (find_check check_id (a.before_check (a.before_users a.start)).monitor) _ _
                      λ check e8.
                        Accepts-require _
                          (find_project check.project_id (a.before_check (a.before_users a.start)))
                          _ _
                          λ project e9. Accepts-guard _ (check.project_id == expected) _ _ λ e10.
                            Accepts-guard _
                              (is_member user project.organization_id
                                (a.before_membership (a.before_check (a.before_users a.start))))
                              _ _
                              λ e11. record {
                                found = e8;
                                in_project = ground arith;
                                project = e9;
                                app = refl;
                                is_member = e11;
                                creator = (
                                  stable,
                                  subst (λ i. find_project i (a.before_users a.start) ≡ some stable)
                                      (the_same initial.project_id expected e4) e5,
                                  creator_of-IsCreatorOf stable (a.before_users a.start) creator
                                      (e6 ∙ ap ok (the_same stable_creator creator e7)),
                                );
                              }

-- An operation on a check that succeeds has run once, in one of at most three attempts, on a check that
-- was found behind its lock, that stood in the project the caller was authorized for, and whose
-- organization the caller was a member of behind the lock of the membership.
pub operation-IsGuarded :
    {A : Type 0} (user check_id expected : ℕ) (operation : Locked → Result ChecksError A)
    (attempts : ℕ → Attempt) (a : A)
    → with_creator_stable_expected_check user check_id expected operation attempts ≡ ok a
    → (n : ℕ) × (1 ≤ n)
      × (n ≤ 3)
      × ((l : Locked) × IsGuarded user check_id expected (attempts n) l × (operation l ≡ ok a))
unfolding with_creator_stable_expected_check with_creator_retry
operation-IsGuarded user check_id expected operation attempts a h =
    let (n, lo, hi, k) =
      retry_from-ok (λ n. expected_check user check_id expected (attempts n) >>= operation) 2 1 a
        h in
    elim (Result-cases (expected_check user check_id expected (attempts n))) [
      | inl (l, e) ↦ (
        n,
        lo,
        hi,
        (
          l,
          Accepts-at _ (expected_check user check_id expected (attempts n)) l
              (expected_check-IsGuarded user check_id expected (attempts n)) e,
          rw e at k,
        ),
      )
      | inr (x, e) ↦ absurd (ok_not_err (rw e at k))
    ]
