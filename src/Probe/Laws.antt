-- ===== src/Probe/Laws.antt =====
-- What a probe's transaction writes and when it alerts.
use mathlib.Core.Option
use systemvitals.Base.{
  ℕ, ◌≡◌, ◌≢◌, refl, ◌⊎◌, inl, inr, Bool, true, false, none, some, [], ◌∷◌, ◌++◌, arith, ◌==◌,
  ==_iff, if◌then◌else◌, not, Bool-cases, Option-cases,
}
use systemvitals.Schema.{
  up, http, tcp, paused, CheckStatus, Check, Db, AlertJob, AlertKind, find_check, create_event,
}
use systemvitals.Schema.Laws.{find-update_check}
use systemvitals.Routing.{snapshot_selected_channel_ids}
use systemvitals.Ping.{is_down}
use systemvitals.Ping.Laws.{was_down}
use systemvitals.Probe.{
  ProbeResult, is_probed, alert_kind, set_status, probe_event, probe_transaction, handle_probe,
}

-- How every row reads after a probe's transaction.
pub find-probe_transaction :
    (at now : ℕ) (r : ProbeResult) (id j : ℕ) (db : Db)
    → find_check j (probe_transaction at now r id db).0 ≡ elim (find_check j db) [
      | none ↦ none
      | some c ↦ some (if (id == j) then (if is_probed c then set_status r now c else c) else c)
    ]
unfolding probe_transaction
find-probe_transaction at now r id j db = ground (
  arith,
  find-update_check id j (set_status r now) (create_event (probe_event id at r) db) (λ c. refl),
)

-- The alert of a probe, with the routing of the moment.
pub alert-probe_transaction :
    (at now : ℕ) (r : ProbeResult) (id : ℕ) (db : Db)
    → (probe_transaction at now r id db).1 ≡ elim (find_check id db) [
      | none ↦ none
      | some c ↦
          if is_probed c
          then Option.map
              (λ kind. record {
                check_id = id;
                kind = kind;
                channel_ids = some (snapshot_selected_channel_ids db c);
              })
              (alert_kind r c.status)
          else none
    ]
unfolding probe_transaction snapshot_selected_channel_ids
alert-probe_transaction at now r id db = ground arith

module _ (at now : ℕ) (r : ProbeResult) (id : ℕ) (db : Db) where
  -- A check that is DOWN after a probe with no alert was DOWN before.
  pub down_after_silent_probe :
      (j : ℕ) (c : Check)
      → (probe_transaction at now r id db).1 ≡ none
      → find_check j (probe_transaction at now r id db).0 ≡ some c
      → is_down c.status ≡ true
      → (c₀ : Check) × (find_check j db ≡ some c₀) × (is_down c₀.status ≡ true)
  unfolding alert_kind
  down_after_silent_probe j c silent f d = elim (Option-cases (find_check j db)) [
    | inl e ↦ absurd (ground (arith, e, find-probe_transaction at now r id j db))
    | inr (c₀, e) ↦ (
      c₀,
      e,
      ground (
        arith,
        e,
        find-probe_transaction at now r id j db,
        alert-probe_transaction at now r id db,
        ==_iff id j,
      ),
    )
  ]

  -- What an alert of a probe says: its check is probed, a recovery was DOWN, and a row that is DOWN
  -- afterwards is either another row as it was or the row of a down alert.
  pub probe_alert :
      (a : AlertJob)
      → (probe_transaction at now r id db).1 ≡ some a
      → (a.check_id ≡ id)
        × (a.kind ≡ AlertKind.recovery
            → (c : Check) × (find_check id db ≡ some c) × (is_down c.status ≡ true))
  unfolding alert_kind
  probe_alert a h = elim (Option-cases (find_check id db)) [
    | inl e ↦ absurd (ground (arith, e, alert-probe_transaction at now r id db))
    | inr (c, e) ↦ (
      ground (arith, e, alert-probe_transaction at now r id db),
      λ k. (c, e, ground (arith, e, alert-probe_transaction at now r id db)),
    )
  ]

  pub down_after_probe :
      (a : AlertJob) (j : ℕ) (c : Check)
      → (probe_transaction at now r id db).1 ≡ some a
      → find_check j (probe_transaction at now r id db).0 ≡ some c
      → is_down c.status ≡ true
      → ((id ≡ j) × (a.kind ≡ AlertKind.down)) ⊎ ((id ≡ j → ⊥) × (find_check j db ≡ some c))
  unfolding alert_kind
  down_after_probe a j c h f d = elim (Option-cases (find_check j db)) [
    | inl e ↦ absurd (ground (arith, e, find-probe_transaction at now r id j db))
    | inr (c₀, e) ↦ elim (Bool-cases (id == j)) [
      | inl s ↦
          let same : id ≡ j = ground arith in
          inl (
            same,
            ground (
              arith,
              e,
              find-probe_transaction at now r id j db,
              alert-probe_transaction at now r id db,
            ),
          )
      | inr s ↦
          inr (λ same. ground arith, ground (arith, e, find-probe_transaction at now r id j db))
    ]
  ]

abbrev pub xnor : Bool → Bool → Bool
xnor true b = b
xnor false b = not b

-- An HTTP or TCP check that is not paused.
abbrev pub IsProbed : Check → Type 0
IsProbed c = ((c.type ≡ http) ⊎ (c.type ≡ tcp)) × (c.status ≢ paused)

is_probed_lem : (c : Check) → IsProbed c → is_probed c ≡ true
unfolding is_probed
is_probed_lem c h = ground arith

-- A probe that found its check active and running, and finds it so again under the lock, records one
-- event with the probe's status, answer time, status code and error, and writes that status and the time
-- to its row and to no other. It alerts, with the channels selected at that moment, exactly when the
-- check goes from not DOWN to DOWN or from DOWN to UP.
pub handle_probe_exact :
    (probe_fn : Check → ProbeResult) (others : Db → Db) (at now id : ℕ) (db : Db)
    (seen current : Check)
    → find_check id db ≡ some seen
    → IsProbed seen
    → find_check id (others db) ≡ some current
    → IsProbed current
    → let (db', alert) = handle_probe probe_fn others at now id db in
      let r = probe_fn seen in
      (find_check id db'
        ≡ some (record current {
          status = if r.up then up else CheckStatus.down;
          last_event_at = some now;
        }))
      × ((j : ℕ) → id ≢ j → find_check j db' ≡ find_check j (others db))
      × (db'.events
          ≡ (others db).events
            ++ record {
              id = (others db).next_event_id;
              check_id = id;
              timestamp = at;
              status = if r.up then up else CheckStatus.down;
              response_time_ms = some r.response_time_ms;
              status_code = r.status_code;
              error = r.error;
              source_ip = none;
            }
              ∷ [])
      × (alert ≡ (
          if xnor (was_down current.status) (not r.up)
          then none
          else some (record {
            check_id = id;
            kind = if r.up then AlertKind.recovery else AlertKind.down;
            channel_ids = some (snapshot_selected_channel_ids (others db) current);
          })))
unfolding handle_probe snapshot_selected_channel_ids probe_event is_down
handle_probe_exact probe_fn others at now id db seen current f p g q =
    let r = probe_fn seen in
    let p' : is_probed seen ≡ true = is_probed_lem seen p in
    let q' : is_probed current ≡ true = is_probed_lem current q in
    (
      ground (
        arith,
        find-update_check id id (set_status r now) (create_event (probe_event id at r) (others db))
            (λ c. refl),
      ),
      λ j other. ground (
        arith,
        find-update_check id j (set_status r now) (create_event (probe_event id at r) (others db))
            (λ c. refl),
      ),
      ground arith,
      ground arith,
    )
