-- ===== src/Checks/Toggle.antt =====
-- What turning a channel on or off for a check does to the channels that its alerts go to.
use mathlib.Core.Path.{subst}
use systemvitals.Base.{
  ℕ, ◌≡◌, inl, inr, refl, Bool, true, false, ◌&&◌, not, some, List, [], ◌∷◌, arith, ◌==◌, ==_refl,
  filter, In, elem, Bool-cases, if◌then◌else◌,
}
use systemvitals.Base.Table.{find-In}
use systemvitals.Base.Result.{ok, Accepts, Accepts-guard, Accepts-require, Accepts-at}
use systemvitals.Schema.{Check, NotificationChannel, CheckChannelExclusion, Db}
use systemvitals.Schema.Laws.{find_check-id}
use systemvitals.Routing.{is_excluded, snapshot_selected_channel_ids}
use systemvitals.Routing.Laws.{Receives, snapshot_exact, not_excluded_of, any-In}
use systemvitals.Tenancy.{App}
use systemvitals.Checks.{Attempt, Locked}
use systemvitals.Checks.Operation.{
  delete_exclusion, upsert_exclusion, toggle_exclusion, find_channel,
  effective_notification_channel_ids, toggle_channel, set_check_channel_enabled,
}
use systemvitals.Checks.Guarded.{IsGuarded, operation-IsGuarded}

is_excluded-filter :
    (k c j i : ℕ) (xs : List CheckChannelExclusion)
    → is_excluded (filter (λ x. not (x.check_id == k && x.channel_id == c)) xs) j i
      ≡ (is_excluded xs j i && not (k == j && c == i))
unfolding is_excluded
is_excluded-filter k c j i [] = refl
is_excluded-filter k c j i (x ∷ xs) = ground (arith, is_excluded-filter k c j i xs)

-- After the change the pair is excluded exactly where the channel is turned off.
toggle_exclusion-same :
    (enabled : Bool) (k c : ℕ) (db : Db)
    → is_excluded (toggle_exclusion enabled k c db).exclusions k c ≡ not enabled
unfolding toggle_exclusion delete_exclusion upsert_exclusion
toggle_exclusion-same true k c db =
    ground (arith, is_excluded-filter k c k c db.exclusions, ==_refl k, ==_refl c)
toggle_exclusion-same false k c db = elim (Bool-cases (is_excluded db.exclusions k c)) [
  | inl e ↦ rw (e, e) refl
  | inr e ↦ rw (e, is_excluded, ==_refl k, ==_refl c) refl
]

toggle_exclusion-other :
    (enabled : Bool) (k c j i : ℕ) (db : Db)
    → (k == j && c == i) ≡ false
    → is_excluded (toggle_exclusion enabled k c db).exclusions j i ≡ is_excluded db.exclusions j i
unfolding toggle_exclusion delete_exclusion upsert_exclusion
toggle_exclusion-other true k c j i db h = ground (arith, is_excluded-filter k c j i db.exclusions)
toggle_exclusion-other false k c j i db h = elim (Bool-cases (is_excluded db.exclusions k c)) [
  | inl e ↦ rw e refl
  | inr e ↦ rw (e, is_excluded, h) refl
]

toggle_exclusion_lem :
    (enabled : Bool) (k c j i : ℕ) (db : Db)
    → is_excluded (toggle_exclusion enabled k c db).exclusions j i
      ≡ (if k == j && c == i then not enabled else is_excluded db.exclusions j i)
toggle_exclusion_lem enabled k c j i db = elim (Bool-cases (k == j && c == i)) [
  | inl e ↦
      let a : k ≡ j = ground arith in
      let b : c ≡ i = ground arith in rw (e, ← a, ← b) (toggle_exclusion-same enabled k c db)
  | inr e ↦ rw e (toggle_exclusion-other enabled k c j i db e)
]

-- What the change has done to the database behind the locks.
pub record IsToggled (check_id channel_id : ℕ) (enabled : Bool) (l : Locked) (app : App)
    (ids : List ℕ) : Type 0 where
  pub listed : elem channel_id ids ≡ enabled
  pub alerted : ids ≡ snapshot_selected_channel_ids app.monitor l.check
  pub exclusions :
      (j i : ℕ)
      → is_excluded app.monitor.exclusions j i ≡ (
          if check_id == j && channel_id == i
          then not enabled
          else is_excluded l.app.monitor.exclusions j i)
  pub checks : app.monitor.checks ≡ l.app.monitor.checks
  pub channels : app.monitor.channels ≡ l.app.monitor.channels

module _ (k channel_id : ℕ) (db : Db) where
  toggled-channels :
      (enabled : Bool) → (toggle_exclusion enabled k channel_id db).channels ≡ db.channels
  unfolding toggle_exclusion delete_exclusion upsert_exclusion
  toggled-channels true = refl
  toggled-channels false = elim (Bool-cases (is_excluded db.exclusions k channel_id)) [
    | inl e ↦ rw e refl
    | inr e ↦ rw e refl
  ]

  toggled-checks : (enabled : Bool) → (toggle_exclusion enabled k channel_id db).checks ≡ db.checks
  unfolding toggle_exclusion delete_exclusion upsert_exclusion
  toggled-checks true = refl
  toggled-checks false = elim (Bool-cases (is_excluded db.exclusions k channel_id)) [
    | inl e ↦ rw e refl
    | inr e ↦ rw e refl
  ]

excluded_one :
    (xs : List CheckChannelExclusion) (k i : ℕ)
    → is_excluded xs k i ≡ true
    → (x : CheckChannelExclusion) × In x xs × (x.check_id ≡ k) × (x.channel_id ≡ i)
unfolding is_excluded
excluded_one xs k i h =
    let (x, m, e) =
      any-In (λ (x : CheckChannelExclusion). x.check_id == k && x.channel_id == i) xs h in
    (x, m, ground arith, ground arith)

listed_lem :
    (channel_id : ℕ) (enabled : Bool) (db : Db) (c : Check) (h : NotificationChannel)
    → find_channel channel_id c.project_id db ≡ some h
    → h.enabled ≡ true
    → elem channel_id
        (snapshot_selected_channel_ids (toggle_exclusion enabled c.id channel_id db) c)
      ≡ enabled
unfolding find_channel
listed_lem channel_id true db c h found on =
    let (m, e) =
      find-In (λ (h : NotificationChannel). h.id == channel_id && h.project_id == c.project_id)
        db.channels h found in
    (snapshot_exact (toggle_exclusion true c.id channel_id db) c channel_id).1 (record {
      channel = h;
      stored = rw (toggled-channels c.id channel_id db true) m;
      key = ground arith;
      same_project = ground arith;
      enabled = on;
      not_excluded =
          not_excluded_of (toggle_exclusion true c.id channel_id db).exclusions c.id channel_id
            (toggle_exclusion-same true c.id channel_id db);
    })
listed_lem channel_id false db c h found on =
    let db' : Db = toggle_exclusion false c.id channel_id db in
    elim (Bool-cases (elem channel_id (snapshot_selected_channel_ids db' c))) [
      | inl e ↦
          let r : Receives db' c channel_id = (snapshot_exact db' c channel_id).0 e in
          let (x, m, a, b) =
            excluded_one db'.exclusions c.id channel_id
              (toggle_exclusion-same false c.id channel_id db) in
          absurd (r.not_excluded x m (a, b))
      | inr e ↦ e
    ]

toggle_channel-IsToggled :
    (channel_id : ℕ) (enabled : Bool) (l : Locked)
    → Accepts
        (λ r. IsToggled l.check.id channel_id enabled l r.0 r.1)
        (toggle_channel l.check.id channel_id enabled l)
unfolding toggle_channel effective_notification_channel_ids snapshot_selected_channel_ids
toggle_channel-IsToggled channel_id enabled l =
    Accepts-require _ (find_channel channel_id l.check.project_id l.app.monitor) _ _ λ h found.
      Accepts-guard _ h.enabled _ _ λ on. record {
        listed = listed_lem channel_id enabled l.app.monitor l.check h found on;
        alerted = refl;
        exclusions = λ j i. toggle_exclusion_lem enabled l.check.id channel_id j i l.app.monitor;
        checks = toggled-checks l.check.id channel_id l.app.monitor enabled;
        channels = toggled-channels l.check.id channel_id l.app.monitor enabled;
      }

-- When a channel is turned on or off for a check and this succeeds, the caller was a member on a check
-- of the authorized project; the answer names the channel exactly where it was turned on, and names
-- the very channels that the worker's snapshot selects for the check's next transition; no other
-- pair of check and channel is excluded or admitted by it, and no check and no channel changes.
pub set_check_channel_enabled_exact :
    (user check_id expected channel_id : ℕ) (enabled : Bool) (attempts : ℕ → Attempt) (app : App)
    (ids : List ℕ)
    → set_check_channel_enabled user check_id expected channel_id enabled attempts ≡ ok (app, ids)
    → (n : ℕ) × (l : Locked) × IsGuarded user check_id expected (attempts n) l
      × IsToggled check_id channel_id enabled l app ids
unfolding set_check_channel_enabled
set_check_channel_enabled_exact user check_id expected channel_id enabled attempts app ids h =
    let (n, lo, hi, (l, g, k)) =
      operation-IsGuarded user check_id expected (toggle_channel check_id channel_id enabled)
        attempts (app, ids) h in
    let same : l.check.id ≡ check_id =
      find_check-id check_id l.check
        ((attempts n).before_check ((attempts n).before_users (attempts n).start)).monitor
        g.found in
    (
      n,
      l,
      g,
      Accepts-at (λ r. IsToggled check_id channel_id enabled l r.0 r.1)
          (toggle_channel check_id channel_id enabled l) (app, ids)
          (subst
            (λ i.
              Accepts (λ r. IsToggled i channel_id enabled l r.0 r.1)
                (toggle_channel i channel_id enabled l))
            same (toggle_channel-IsToggled channel_id enabled l))
          k,
    )
