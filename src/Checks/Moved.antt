-- ===== src/Checks/Moved.antt =====
-- What a move leaves behind and what it establishes.
use mathlib.Core.Path.{subst}
use systemvitals.Base.{
  ℕ, ◌≤◌, ◌≡◌, ◌≢◌, Option-cases, inl, inr, refl, true, false, ◌&&◌, not, some, List, [], ◌∷◌, map,
  arith, ◌==◌, ==_refl, elem, filter, All, Bool-cases,
}
use systemvitals.Base.Result.{
  ok, map_err-ok, Accepts, Accepts->>=, Accepts-guard, Accepts-require, Accepts-at, Accepts-map,
}
use systemvitals.Schema.{owner, Check, CheckChannelExclusion, find_check, update_check}
use systemvitals.Schema.Laws.{find_check-id, find-update_check}
use systemvitals.Routing.{is_excluded}
use systemvitals.Tenancy.{
  App, StatusPage, Membership, find_membership, find_project, is_owner, account_of,
}
use systemvitals.Checks.{Attempt, not_entitled, with_creator_retry, write_check, creator_of}
use systemvitals.Checks.Operation.{slug_clash}
use systemvitals.Checks.Transfer.{
  Ends, without_check, delete_exclusions, set_project, move_commit, find_ends, assert_elsewhere,
  assert_room, move_locked, move_attempt, move,
}
use systemvitals.Checks.Guarded.{retry_from-ok, ok_not_err, IsCreatorOf, creator_of-IsCreatorOf}
use systemvitals.Checks.Slugs.{IsOnly, slug_clash-IsOnly}
use systemvitals.Plan.{assert_can_add_check}
use systemvitals.Plan.Laws.{HasRoom, assert_can_add_check-HasRoom}

is_excluded-deleted :
    (k i : ℕ) (xs : List CheckChannelExclusion)
    → is_excluded (filter (λ x. not (x.check_id == k)) xs) k i ≡ false
unfolding is_excluded
is_excluded-deleted k i [] = refl
is_excluded-deleted k i (x ∷ xs) = ground (arith, is_excluded-deleted k i xs)

elem-filter_out : (k : ℕ) (xs : List ℕ) → elem k (filter (λ id. not (id == k)) xs) ≡ false
elem-filter_out k [] = refl
elem-filter_out k (x ∷ xs) = ground (arith, elem-filter_out k xs)

-- The page does not show the check, if it is a page of the project.
abbrev pub Forgets : ℕ → ℕ → StatusPage → Type 0
Forgets project_id check_id page =
    (page.project_id == project_id && elem check_id page.check_ids) ≡ false

without_check-Forgets : (p k : ℕ) (page : StatusPage) → Forgets p k (without_check p k page)
unfolding without_check
without_check-Forgets p k page = elim (Bool-cases (page.project_id == p && elem k page.check_ids)) [
  | inl e ↦ rw (e, elem-filter_out k page.check_ids) (ground arith)
  | inr e ↦ rw (e, e) refl
]

All-Forgets :
    (p k : ℕ) (pages : List StatusPage) → All (Forgets p k) (map (without_check p k) pages)
All-Forgets p k [] = tt
All-Forgets p k (page ∷ pages) = (without_check-Forgets p k page, All-Forgets p k pages)

-- What a move leaves in `app` of the database `before` its writes.
pub record IsMoved (source destination check_id : ℕ) (before app : App) : Type 0 where
  pub moved :
      (c : Check) × (find_check check_id before.monitor ≡ some c)
      × (find_check check_id app.monitor ≡ some (record c { project_id = destination }))
  pub unlisted : All (Forgets source check_id) app.status_pages
  pub unexcluded : (i : ℕ) → is_excluded app.monitor.exclusions check_id i ≡ false

move_commit-IsMoved :
    (k source destination : ℕ) (app : App)
    → Accepts (IsMoved source destination k app) (move_commit k source destination app)
unfolding move_commit write_check set_project delete_exclusions update_check find_check
move_commit-IsMoved k source destination app =
    Accepts-require _ (find_check k app.monitor) _ _ λ c found. record {
      moved = (
        c,
        found,
        rw
            (
              find-update_check k k (set_project destination) (delete_exclusions k app.monitor)
                  (λ c. refl),
              found,
              ==_refl k,
            )
            refl,
      );
      unlisted = All-Forgets source k app.status_pages;
      unexcluded = λ i. is_excluded-deleted k i app.monitor.exclusions;
    }

-- The database behind the lock of the source's membership, and behind that of the destination's too.
abbrev pub at_source : Attempt → App
at_source a = a.before_membership (a.before_check (a.before_users a.start))

abbrev pub at_both : Attempt → App
at_both a = a.before_destination (at_source a)

-- The user is an owner of the organization.
abbrev pub Owns : ℕ → ℕ → App → Type 0
Owns user organization app =
    (m : Membership) × (find_membership user organization app ≡ some m) × (m.role ≡ owner)

-- What the transaction of a move has established behind its locks.
pub record IsAllowed (user destination_id : ℕ) (a : Attempt) (e : Ends) : Type 0 where
  pub elsewhere : e.source.organization_id ≢ e.destination.organization_id
  pub owns_source : Owns user e.source.organization_id (at_source a)
  pub owns_destination : Owns user e.destination.organization_id (at_both a)
  pub room :
      e.source_creator ≢ e.destination_creator
      → HasRoom (account_of e.destination_creator (at_both a))
  pub slug_free : IsOnly destination_id e.check.slug e.check.id (at_both a).monitor.checks

is_owner-Owns :
    (user organization : ℕ) (app : App)
    → is_owner user organization app ≡ true
    → Owns user organization app
unfolding is_owner
is_owner-Owns user organization app h =
    elim (Option-cases (find_membership user organization app)) [
      | inl e ↦ absurd (ground arith)
      | inr (m, e) ↦ (m, e, ground arith)
    ]

assert_room-HasRoom :
    (app : App) (e : Ends)
    → assert_room app e ≡ ok tt
    → e.source_creator ≢ e.destination_creator
    → HasRoom (account_of e.destination_creator app)
unfolding assert_room
assert_room-HasRoom app e h other =
    let differ : (e.source_creator == e.destination_creator) ≡ false = ground arith in
    assert_can_add_check-HasRoom (account_of e.destination_creator app) (
      map_err-ok not_entitled (assert_can_add_check (account_of e.destination_creator app)) tt
        (rw (differ, assert_room) at h))

elsewhere_lem :
    (destination_id : ℕ) (e : Ends)
    → assert_elsewhere destination_id e ≡ ok tt
    → e.source.organization_id ≢ e.destination.organization_id
unfolding assert_elsewhere
elsewhere_lem destination_id e h =
    elim (Bool-cases (e.source.organization_id == e.destination.organization_id)) [
      | inl s ↦ elim (Bool-cases (e.check.project_id == destination_id)) [
        | inl p ↦ absurd (ok_not_err (rw (p, assert_elsewhere) at h))
        | inr p ↦ absurd (ok_not_err (rw (p, s, assert_elsewhere) at h))
      ]
      | inr s ↦ λ same. ground arith
    ]

move_locked-IsMoved :
    (user destination_id : ℕ) (a : Attempt) (e : Ends)
    → Accepts
        (λ app.
          IsAllowed user destination_id a e
          × IsMoved e.check.project_id destination_id e.check.id (a.before_pages (at_both a)) app)
        (move_locked user destination_id a (a.before_check (a.before_users a.start)) e)
unfolding move_locked
move_locked-IsMoved user destination_id a e =
    Accepts->>= _ (assert_elsewhere destination_id e) _ λ _ h1.
      Accepts-guard _ (is_owner user e.source.organization_id (at_source a)) _ _ λ h2.
        Accepts-guard _ (is_owner user e.destination.organization_id (at_both a)) _ _ λ h3.
          Accepts-guard _
            (not (slug_clash destination_id e.check.slug e.check.id (at_both a).monitor)) _ _
            λ h4. Accepts->>= _ (assert_room (at_both a) e) _ λ _ h5.
              Accepts-map _ _
                (move_commit e.check.id e.check.project_id destination_id
                  (a.before_pages (at_both a)))
                (λ app m. (
                  record {
                    elsewhere = elsewhere_lem destination_id e h1;
                    owns_source = is_owner-Owns user e.source.organization_id (at_source a) h2;
                    owns_destination =
                        is_owner-Owns user e.destination.organization_id (at_both a) h3;
                    room = assert_room-HasRoom (at_both a) e h5;
                    slug_free =
                        slug_clash-IsOnly destination_id e.check.slug e.check.id (at_both a).monitor
                          (ground arith);
                  },
                  m,
                ))
                (move_commit-IsMoved e.check.id e.check.project_id destination_id
                  (a.before_pages (at_both a)))

-- The check and the destination are the ones asked for, and the creators are those of the organizations.
pub record IsFound (check_id destination_id : ℕ) (app : App) (e : Ends) : Type 0 where
  pub check : find_check check_id app.monitor ≡ some e.check
  pub source : find_project e.check.project_id app ≡ some e.source
  pub destination : find_project destination_id app ≡ some e.destination
  pub source_created : IsCreatorOf e.source_creator e.source app
  pub destination_created : IsCreatorOf e.destination_creator e.destination app

find_ends-IsFound :
    (check_id destination_id : ℕ) (app : App)
    → Accepts (IsFound check_id destination_id app) (find_ends check_id destination_id app)
unfolding find_ends
find_ends-IsFound check_id destination_id app =
    Accepts-require _ (find_check check_id app.monitor) _ _ λ check e1.
      Accepts-require _ (find_project check.project_id app) _ _ λ source e2.
        Accepts->>= _ (creator_of source app) _ λ source_creator e3.
          Accepts-require _ (find_project destination_id app) _ _ λ destination e4.
            Accepts->>= _ (creator_of destination app) _ λ destination_creator e5. record {
              check = e1;
              source = e2;
              destination = e4;
              source_created = creator_of-IsCreatorOf source app source_creator e3;
              destination_created = creator_of-IsCreatorOf destination app destination_creator e5;
            }

abbrev MovedFrom : ℕ → ℕ → ℕ → Attempt → App → Type 0
MovedFrom user check_id destination_id a app =
    (e : Ends) × IsFound check_id destination_id (a.before_check (a.before_users a.start)) e
    × IsAllowed user destination_id a e
    × IsMoved e.check.project_id destination_id check_id (a.before_pages (at_both a)) app

move_attempt-Moved :
    (user check_id destination_id : ℕ) (a : Attempt)
    → Accepts
        (MovedFrom user check_id destination_id a)
        (move_attempt user check_id destination_id a)
unfolding move_attempt
move_attempt-Moved user check_id destination_id a =
    let app : App = a.before_check (a.before_users a.start) in
    Accepts->>= _ (find_ends check_id destination_id a.start) _ λ initial h1.
      Accepts->>= _ (assert_elsewhere destination_id initial) _ λ _ h2.
        Accepts->>= _ (find_ends check_id destination_id app) _ λ e h3.
          Accepts-guard _
            (e.source_creator == initial.source_creator
              && e.destination_creator == initial.destination_creator)
            _ _
            λ h4.
              let f : IsFound check_id destination_id app e =
                Accepts-at (IsFound check_id destination_id app)
                  (find_ends check_id destination_id app) e
                  (find_ends-IsFound check_id destination_id app) h3 in
              let same : e.check.id ≡ check_id =
                find_check-id check_id e.check app.monitor f.check in
              Accepts-map _ _ (move_locked user destination_id a app e)
                (λ app' (allowed, moved). (
                  e,
                  f,
                  allowed,
                  subst
                      (λ i.
                        IsMoved e.check.project_id destination_id i (a.before_pages (at_both a))
                          app')
                      same moved,
                ))
                (move_locked-IsMoved user destination_id a e)

-- A move that succeeds has run once, in one of at most three attempts. The user owned both
-- organizations, which differ; no other check of the destination had the slug; and where the
-- destination's organization has another creator, that creator's account had fewer checks than its plan
-- allows. Afterwards the check
-- stands in the destination with nothing else of its row changed, no status page of its old project lists it, and none of its old choices
-- of channels is left.
pub move_exact :
    (user check_id destination_id : ℕ) (attempts : ℕ → Attempt) (app : App)
    → move user check_id destination_id attempts ≡ ok app
    → (n : ℕ) × (1 ≤ n)
      × (n ≤ 3)
      × (e : Ends) × IsFound check_id destination_id
          ((attempts n).before_check ((attempts n).before_users (attempts n).start))
          e
      × IsAllowed user destination_id (attempts n) e
      × IsMoved e.check.project_id destination_id check_id
          ((attempts n).before_pages (at_both (attempts n)))
          app
unfolding move with_creator_retry
move_exact user check_id destination_id attempts app h =
    let (n, lo, hi, k) =
      retry_from-ok (λ n. move_attempt user check_id destination_id (attempts n)) 2 1 app h in
    let (e, f, a, m) =
      Accepts-at (MovedFrom user check_id destination_id (attempts n))
        (move_attempt user check_id destination_id (attempts n)) app
        (move_attempt-Moved user check_id destination_id (attempts n)) k in
    (n, lo, hi, e, f, a, m)
