-- ===== src/Checks/Lifecycle.antt =====
-- What pausing, resuming, deleting and editing a check leave behind.
use systemvitals.Base.{
  ℕ, ◌≡◌, ◌≢◌, inl, inr, refl, ap, Option, if◌then◌else◌, ◌∙◌, Bool, true, false, not, none, some,
  List, [], ◌∷◌, arith, ◌==◌, ==_refl, find, filter, All, Bool-cases,
}
use systemvitals.Base.Text.{Text}
use systemvitals.Base.Result.{
  Result, map_err, map_err-ok, ok, require, ◌>>=◌, Accepts, Accepts->>=, Accepts-guard,
  Accepts-require, Accepts-at, Accepts-map,
}
use systemvitals.Schema.{Check, CheckEvent, CheckChannelExclusion, paused, find_check}
use systemvitals.Schema.Laws.{find-update_check}
use systemvitals.Watchdog.{is_candidate, is_sweepable}
use systemvitals.Probe.{is_probed, is_paused}
use systemvitals.CheckUpdate.{resolve_check_update, apply_update}
use systemvitals.CheckUpdate.Fields.{CronLib, CheckUpdateInput, ResolvedCheckUpdate}
use systemvitals.Plan.{assert_interval}
use systemvitals.Plan.Laws.{AllowsInterval, assert_interval-AllowsInterval}
use systemvitals.Base.Int.{ℤ}
use systemvitals.Tenancy.{App, account_of}
use systemvitals.Checks.Slugs.{IsOnly, slug_clash-IsOnly}
use mathlib.Core.Path.{subst}
use systemvitals.Checks.{
  ChecksError, Attempt, Locked, write_check, set_paused, pause, delete, delete_check,
  record_missing, invalid, not_entitled, with_creator_stable_expected_check,
}
use systemvitals.Checks.Operation.{
  slug_clash, resolved_row, assert_resolved_interval, update_locked, update,
}
use systemvitals.Checks.Guarded.{IsGuarded, operation-IsGuarded}

-- The lock of a row: nobody changes the check between its lock and the end of the transaction.
abbrev pub RowIsLocked : ℕ → (ℕ → Attempt) → Type 0
RowIsLocked check_id attempts =
    (n : ℕ) (app : App)
    → find_check check_id ((attempts n).before_membership app).monitor
      ≡ find_check check_id app.monitor

guarded_row :
    (user check_id expected n : ℕ) (attempts : ℕ → Attempt) (l : Locked)
    → RowIsLocked check_id attempts
    → IsGuarded user check_id expected (attempts n) l
    → find_check check_id l.app.monitor ≡ some l.check
guarded_row user check_id expected n attempts l locked g =
    rw g.app (
      locked n ((attempts n).before_check ((attempts n).before_users (attempts n).start)) ∙ g.found)

write_check-row :
    (k : ℕ) (f : Check → Check) (app : App) (c : Check)
    → ((c : Check) → (f c).id ≡ c.id)
    → find_check k app.monitor ≡ some c
    → Accepts (λ app'. find_check k app'.monitor ≡ some (f c)) (write_check k f app)
unfolding write_check
write_check-row k f app c same found =
    rw found (rw (find-update_check k k f app.monitor same, found, ==_refl k) refl)

-- The row of an edit: the resolved columns, with a fresh ping slug where one is due.
abbrev pub edited : Text → ResolvedCheckUpdate → Check → Check
edited uuid r c =
    if r.mint_ping_slug
    then record (apply_update r.update c) { ping_slug = some uuid }
    else apply_update r.update c

-- What an edit has written and tested, on the row and under the creator that it was given.
pub record IsEdited (lib : CronLib) (uuid : Text) (check_id : ℕ) (input : CheckUpdateInput)
    (l : Locked) (app : App) : Type 0 where
  pub r : ResolvedCheckUpdate
  pub resolved : resolve_check_update lib l.check input ≡ ok r
  pub row : find_check check_id app.monitor ≡ some (edited uuid r l.check)
  pub interval_allowed :
      (i : ℤ) → r.interval_to_validate ≡ some i → AllowsInterval (account_of l.creator l.app) i
  pub slug_free :
      IsOnly l.check.project_id (edited uuid r l.check).slug check_id l.app.monitor.checks

assert_resolved_interval-AllowsInterval :
    (creator : ℕ) (app : App) (o : Option ℤ) (i : ℤ)
    → assert_resolved_interval creator app o ≡ ok tt
    → o ≡ some i
    → AllowsInterval (account_of creator app) i
unfolding assert_resolved_interval
assert_resolved_interval-AllowsInterval creator app none i h e = ground arith
assert_resolved_interval-AllowsInterval creator app (some j) i h e =
    let same : j ≡ i = ground arith in
    subst (AllowsInterval (account_of creator app)) same (
      assert_interval-AllowsInterval (account_of creator app) j
        (map_err-ok not_entitled (assert_interval (account_of creator app) j) tt h))

resolved_row_lem :
    (uuid : Text) (r : ResolvedCheckUpdate) (c : Check) → resolved_row uuid r c ≡ edited uuid r c
unfolding resolved_row
resolved_row_lem uuid r c = refl

resolved_row-id :
    (uuid : Text) (r : ResolvedCheckUpdate) (c : Check) → (resolved_row uuid r c).id ≡ c.id
unfolding resolved_row
resolved_row-id uuid r c = elim (Bool-cases r.mint_ping_slug) [
  | inl e ↦ rw e refl
  | inr e ↦ rw e refl
]

not-true : (b : Bool) → not b ≡ true → b ≡ false
not-true b h = ground arith

update_locked-Updated :
    (lib : CronLib) (uuid : Text) (check_id : ℕ) (input : CheckUpdateInput) (l : Locked)
    → find_check check_id l.app.monitor ≡ some l.check
    → Accepts (IsEdited lib uuid check_id input l) (update_locked lib uuid check_id input l)
unfolding update_locked
update_locked-Updated lib uuid check_id input l found =
    Accepts->>= _ (map_err invalid (resolve_check_update lib l.check input)) _ λ r h1.
      Accepts->>= _ (assert_resolved_interval l.creator l.app r.interval_to_validate) _ λ _ h2.
        Accepts-guard _
          (not (
            slug_clash l.check.project_id (resolved_row uuid r l.check).slug check_id
              l.app.monitor))
          _ _
          λ h3.
            Accepts-map _ _ (write_check check_id (resolved_row uuid r) l.app)
              (λ app' m. record {
                r = r;
                resolved = map_err-ok invalid (resolve_check_update lib l.check input) r h1;
                row = m ∙ ap some (resolved_row_lem uuid r l.check);
                interval_allowed = λ i e.
                    assert_resolved_interval-AllowsInterval l.creator l.app r.interval_to_validate i
                      h2 e;
                slug_free =
                    subst (λ row. IsOnly l.check.project_id row.slug check_id l.app.monitor.checks)
                      (resolved_row_lem uuid r l.check)
                      (slug_clash-IsOnly l.check.project_id (resolved_row uuid r l.check).slug
                        check_id l.app.monitor
                        (not-true
                          (slug_clash l.check.project_id (resolved_row uuid r l.check).slug check_id
                            l.app.monitor)
                          h3));
              })
              (write_check-row check_id (resolved_row uuid r) l.app l.check (resolved_row-id uuid r)
                found)

module _ (user check_id expected : ℕ) (attempts : ℕ → Attempt)
    (locked : RowIsLocked check_id attempts) (app : App) where
  -- What an operation leaves of the row that its guard has found.
  abbrev pub Leaves : (Check → Check → Type 0) → Type 0
  Leaves P =
      (n : ℕ) × (l : Locked) × IsGuarded user check_id expected (attempts n) l
      × (c : Check) × (find_check check_id app.monitor ≡ some c)
      × P l.check c

  written :
      (f : Check → Check)
      → ((c : Check) → (f c).id ≡ c.id)
      → with_creator_stable_expected_check user check_id expected
          (λ l. write_check check_id f l.app)
          attempts
        ≡ ok app
      → Leaves λ before c. c ≡ f before
  written f same h =
      let (n, lo, hi, (l, g, k)) =
        operation-IsGuarded user check_id expected (λ l. write_check check_id f l.app) attempts app
          h in
      (
        n,
        l,
        g,
        f l.check,
        Accepts-at _ (write_check check_id f l.app) app
            (write_check-row check_id f l.app l.check same
              (guarded_row user check_id expected n attempts l locked g))
            k,
        refl,
      )

  -- A check that a member has paused is neither swept by the watchdog nor probed, and nothing of it but
  -- its status has changed.
  pub pause_exact :
      pause user check_id expected attempts ≡ ok app
      → Leaves λ before c.
        (c ≡ record before { status = paused }) × (is_candidate c ≡ false) × (is_probed c ≡ false)
  unfolding pause set_paused is_candidate is_sweepable is_probed is_paused
  pause_exact h =
      let (n, l, g, c, found, e) = written set_paused (λ c. refl) h in
      (n, l, g, c, found, (e, rw e refl, rw e refl))

  -- Where nobody changes the check between its lock and the end of the transaction: an edit that
  -- succeeds was resolved against the row behind its lock, and the row is then the
  -- resolved one, with a fresh ping slug where one was due. An interval to validate, if there is one, is
  -- one that the plan of the user allows who, behind the lock of the account, had created the check's
  -- organization; no other check of the project has the slug.
  pub update_exact :
      (lib : CronLib) (uuid : Text) (input : CheckUpdateInput)
      → update lib uuid user check_id expected input attempts ≡ ok app
      → (n : ℕ) × (l : Locked) × IsGuarded user check_id expected (attempts n) l
        × IsEdited lib uuid check_id input l app
  unfolding update
  update_exact lib uuid input h =
      let (n, lo, hi, (l, g, k)) =
        operation-IsGuarded user check_id expected (update_locked lib uuid check_id input) attempts
          app h in
      (
        n,
        l,
        g,
        Accepts-at (IsEdited lib uuid check_id input l) (update_locked lib uuid check_id input l)
            app
            (update_locked-Updated lib uuid check_id input l
              (guarded_row user check_id expected n attempts l locked g))
            k,
      )

find-deleted :
    (k : ℕ) (xs : List Check) → find (λ c. c.id == k) (filter (λ c. not (c.id == k)) xs) ≡ none
find-deleted k [] = refl
find-deleted k (x ∷ xs) = ground (arith, find-deleted k xs)

All-deleted :
    {A : Type 0} (key : A → ℕ) (k : ℕ) (xs : List A)
    → All (λ x. key x ≢ k) (filter (λ x. not (key x == k)) xs)
All-deleted key k [] = tt
All-deleted key k (x ∷ xs) = elim (Bool-cases (key x == k)) [
  | inl e ↦ rw e (All-deleted key k xs)
  | inr e ↦ rw e ((λ h. ground arith), All-deleted key k xs)
]

-- No trace of the check in the tables of the monitor.
abbrev pub IsGone : ℕ → App → Type 0
IsGone check_id app =
    (find_check check_id app.monitor ≡ none)
    × All (λ e. e.check_id ≢ check_id) app.monitor.events
    × All (λ x. x.check_id ≢ check_id) app.monitor.exclusions

delete-IsGone :
    (k : ℕ) (l : Locked)
    → Accepts (IsGone k) (
        require (find_check k l.app.monitor) record_missing >>= λ row.
        ok (record l.app { monitor = delete_check k l.app.monitor }))
unfolding find_check delete_check
delete-IsGone k l = Accepts-require _ (find_check k l.app.monitor) _ _ λ row found. (
  find-deleted k l.app.monitor.checks,
  All-deleted (λ (e : CheckEvent). e.check_id) k l.app.monitor.events,
  All-deleted (λ (x : CheckChannelExclusion). x.check_id) k l.app.monitor.exclusions,
)

-- A check that a member has deleted is gone, with its events and its choices of channels.
pub delete_exact :
    (user check_id expected : ℕ) (attempts : ℕ → Attempt) (app : App)
    → delete user check_id expected attempts ≡ ok app
    → IsGone check_id app
unfolding delete
delete_exact user check_id expected attempts app h =
    let erase : Locked → Result ChecksError App = λ l.
      require (find_check check_id l.app.monitor) record_missing >>= λ row.
      ok (record l.app { monitor = delete_check check_id l.app.monitor }) in
    let (n, lo, hi, (l, g, k)) = operation-IsGuarded user check_id expected erase attempts app h in
    Accepts-at (IsGone check_id) (erase l) app (delete-IsGone check_id l) k
