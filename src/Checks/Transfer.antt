-- ===== src/Checks/Transfer.antt =====
-- `move` of api/src/checks/checks.service.ts: a check goes to another organization's project.
use systemvitals.Base.{ℕ, ◌&&◌, not, map, ◌==◌, elem, filter, if◌then◌else◌}
use systemvitals.Base.Result.{map_err, Result, ok, guard, require, ◌>>=◌, ◌>>◌}
use systemvitals.Schema.{Check, Db, find_check}
use systemvitals.Plan.{assert_can_add_check}
use systemvitals.Tenancy.{App, Project, StatusPage, find_project, is_owner, account_of}
use systemvitals.Checks.{
  ChecksError, check_not_found, broken_reference, destination_not_found, already_there,
  creator_changed, not_the_owner, slug_taken, not_entitled, Attempt, with_creator_retry, creator_of,
  write_check,
}
use systemvitals.Checks.Operation.{slug_clash}

-- `removeCheckFromSourceStatusPages`
unfoldable pub without_check : ℕ → ℕ → StatusPage → StatusPage
without_check project_id check_id page =
    if page.project_id == project_id && elem check_id page.check_ids
    then record page { check_ids = filter (λ id. not (id == check_id)) page.check_ids }
    else page

-- `checkChannelExclusion.deleteMany({ where: { checkId } })`
unfoldable pub delete_exclusions : ℕ → Db → Db
delete_exclusions check_id db = record db {
  exclusions = filter (λ x. not (x.check_id == check_id)) db.exclusions;
}

unfoldable pub set_project : ℕ → Check → Check
set_project project_id c = record c { project_id = project_id }

-- The writes of a move.
unfoldable pub move_commit : ℕ → ℕ → ℕ → App → Result ChecksError App
unfolding without_check delete_exclusions set_project write_check
move_commit check_id source destination app =
    write_check check_id (set_project destination) (record app {
      status_pages = map (without_check source check_id) app.status_pages;
      monitor = delete_exclusions check_id app.monitor;
    })

-- The two ends of a move, as both reads find them.
pub record Ends : Type 0 where
  pub check : Check
  pub source : Project
  pub destination : Project
  pub source_creator : ℕ
  pub destination_creator : ℕ

unfoldable pub find_ends : ℕ → ℕ → App → Result ChecksError Ends
unfolding find_check find_project creator_of
find_ends check_id destination_id app = do
  check ← require (find_check check_id app.monitor) check_not_found
  source ← require (find_project check.project_id app) broken_reference
  source_creator ← creator_of source app
  destination ← require (find_project destination_id app) destination_not_found
  destination_creator ← creator_of destination app
  ok (record {
    check = check;
    source = source;
    destination = destination;
    source_creator = source_creator;
    destination_creator = destination_creator;
  })

unfoldable pub assert_elsewhere : ℕ → Ends → Result ChecksError (Unit {0})
assert_elsewhere destination_id e = do
  guard (not (e.check.project_id == destination_id)) already_there
  guard (not (e.source.organization_id == e.destination.organization_id)) already_there

-- A check counts against the creator of the destination, unless it already does.
unfoldable pub assert_room : App → Ends → Result ChecksError (Unit {0})
unfolding account_of
assert_room app e =
    if e.source_creator == e.destination_creator
    then ok tt
    else map_err not_entitled (assert_can_add_check (account_of e.destination_creator app))

-- The checks behind the locks, and the writes.
unfoldable pub move_locked : ℕ → ℕ → Attempt → App → Ends → Result ChecksError App
unfolding assert_elsewhere is_owner slug_clash assert_room move_commit
move_locked user destination_id a app e = do
  assert_elsewhere destination_id e
  let at_source = a.before_membership app
  guard (is_owner user e.source.organization_id at_source) not_the_owner
  let at_both = a.before_destination at_source
  guard (is_owner user e.destination.organization_id at_both) not_the_owner
  guard (not (slug_clash destination_id e.check.slug e.check.id at_both.monitor)) slug_taken
  assert_room at_both e
  move_commit e.check.id e.check.project_id destination_id (a.before_pages at_both)

unfoldable pub move_attempt : ℕ → ℕ → ℕ → Attempt → Result ChecksError App
unfolding find_ends assert_elsewhere move_locked
move_attempt user check_id destination_id a = do
  initial ← find_ends check_id destination_id a.start
  assert_elsewhere destination_id initial
  let app = a.before_check (a.before_users a.start)
  e ← find_ends check_id destination_id app
  guard
      (e.source_creator == initial.source_creator
        && e.destination_creator == initial.destination_creator)
      creator_changed
  move_locked user destination_id a app e

unfoldable pub move : ℕ → ℕ → ℕ → (ℕ → Attempt) → Result ChecksError App
unfolding with_creator_retry move_attempt
move user check_id destination_id attempts =
    with_creator_retry λ n. move_attempt user check_id destination_id (attempts n)
