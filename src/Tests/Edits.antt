-- ===== src/Tests/Edits.antt =====
-- The operations on checks, in two organizations of one owner.
use systemvitals.Base.{ℕ, ◌≤◌, ◌≡◌, refl, false, none, some, List, [], ◌∷◌}
use systemvitals.Base.Int.{pos}
use systemvitals.Base.Text.{Text, codes, trim}
use systemvitals.Base.Result.{Result, ok, err}
use systemvitals.Schema.{owner, paused}
use systemvitals.Watchdog.{is_candidate}
use systemvitals.Probe.{is_probed}
use systemvitals.CheckUpdate.Fields.{CheckUpdateInput}
use systemvitals.Plan.{assert_can_add_check, for_user, effective_limits, plan_limits_for}
use systemvitals.Tenancy.{App}
use systemvitals.Checks.{ChecksError, Attempt, Locked, pause, delete, write_check, set_paused}
use systemvitals.Checks.Operation.{set_check_channel_enabled, update}
use systemvitals.Checks.Transfer.{Ends, move}
use systemvitals.Checks.Guarded.{IsGuarded, operation-IsGuarded}
use systemvitals.Checks.Toggle.{IsToggled, set_check_channel_enabled_exact}
use systemvitals.Checks.Moved.{IsFound, IsAllowed, IsMoved, move_exact}
use systemvitals.Checks.Lifecycle.{
  RowIsLocked, Leaves, IsEdited, IsGone, pause_exact, update_exact, delete_exact,
}
use systemvitals.Tests.Sample.{sample}
use systemvitals.Tests.Accounts.{minutes, unchanged}

abbrev home : App
home = record {
  monitor = sample;
  users = [];
  invites = [];
  organizations =
      record { id = 70; name = codes "Home"; slug = codes "home"; creator_user_id = 3 }
      ∷ record { id = 71; name = codes "Work"; slug = codes "work"; creator_user_id = 4 }
      ∷ [];
  projects =
      record { id = 7; slug = codes "main"; organization_id = 70 }
      ∷ record { id = 8; slug = codes "main"; organization_id = 71 }
      ∷ [];
  memberships =
      record { id = 60; user_id = 3; organization_id = 70; role = owner; created_at = 0 }
      ∷ record { id = 61; user_id = 3; organization_id = 71; role = owner; created_at = 0 }
      ∷ [];
  legacy_subscriptions = [];
  subscriptions =
      record { user_id = 4; subscription = record { plan = codes "SIGNAL"; limits = none } } ∷ [];
  status_pages = record { id = 9; project_id = 7; check_ids = 1 ∷ 2 ∷ [] } ∷ [];
}

-- Nobody else writes.
abbrev quiet : ℕ → Attempt
quiet n = record {
  start = home;
  before_users = λ app. app;
  before_check = λ app. app;
  before_membership = λ app. app;
  before_destination = λ app. app;
  before_pages = λ app. app;
}

quiet-Locked : RowIsLocked 1 quiet
quiet-Locked n app = refl

abbrev answer : {A : Type 0} → A → Result ChecksError A → A
answer a (ok b) = b
answer a (err e) = a

operation-IsGuarded_example :
    (n : ℕ) × (1 ≤ n)
    × (n ≤ 3)
    × ((l : Locked) × IsGuarded 3 1 7 (quiet n) l
        × (write_check 1 set_paused l.app ≡ ok (answer home (pause 3 1 7 quiet))))
unfolding pause
operation-IsGuarded_example =
    operation-IsGuarded 3 1 7 (λ l. write_check 1 set_paused l.app) quiet
      (answer home (pause 3 1 7 quiet)) refl

pause_exact_example : Leaves 3 1 7 quiet quiet-Locked (answer home (pause 3 1 7 quiet)) λ before c.
    (c ≡ record before { status = paused }) × (is_candidate c ≡ false) × (is_probed c ≡ false)
unfolding pause
pause_exact_example = pause_exact 3 1 7 quiet quiet-Locked (answer home (pause 3 1 7 quiet)) refl

abbrev toggled : App × List ℕ
toggled = answer (home, []) (set_check_channel_enabled 3 1 7 6 false quiet)

set_check_channel_enabled_exact_example :
    (n : ℕ) × (l : Locked) × IsGuarded 3 1 7 (quiet n) l × IsToggled 1 6 false l toggled.0 toggled.1
unfolding set_check_channel_enabled
set_check_channel_enabled_exact_example =
    set_check_channel_enabled_exact 3 1 7 6 false quiet toggled.0 toggled.1 refl

move_exact_example :
    (n : ℕ) × (1 ≤ n)
    × (n ≤ 3)
    × (e : Ends) × IsFound 1 8 home e
    × IsAllowed 3 8 (quiet n) e
    × IsMoved e.check.project_id 8 1 home (answer home (move 3 1 8 quiet))
unfolding move assert_can_add_check for_user effective_limits plan_limits_for
move_exact_example = move_exact 3 1 8 quiet (answer home (move 3 1 8 quiet)) refl

abbrev renamed : CheckUpdateInput
renamed = record unchanged {
  name = some (some (codes "nightly"));
  period_seconds = some (some (pos 600));
}

abbrev uuid : Text
uuid = codes "ping-9"

abbrev updated : App
updated = answer home (update minutes uuid 3 1 7 renamed quiet)

update_exact_example :
    (n : ℕ) × (l : Locked) × IsGuarded 3 1 7 (quiet n) l × IsEdited minutes uuid 1 renamed l updated
unfolding update trim for_user effective_limits plan_limits_for
update_exact_example = update_exact 3 1 7 quiet quiet-Locked updated minutes uuid renamed refl

delete_exact_example : IsGone 1 (answer home (delete 3 1 7 quiet))
unfolding delete
delete_exact_example = delete_exact 3 1 7 quiet (answer home (delete 3 1 7 quiet)) refl
