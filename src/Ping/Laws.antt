-- ===== src/Ping/Laws.antt =====
-- What a ping does on each branch, and how long it keeps the watchdog away.
use systemvitals.Base.{
  ℕ, ◌≡◌, ◌≢◌, refl, ap, ◌∙◌, inl, inr, Bool, true, false, Option, none, some, List, [], ◌∷◌, ◌++◌,
  arith, if◌then◌else◌, ◌==◌, Option-cases,
}
use systemvitals.Base.Text.{Text, text_eq, text_eq_iff}
use systemvitals.Base.Table.{find-In}
use systemvitals.Base.Result.{ok}
use systemvitals.Schema.{
  up, heartbeat, CheckStatus, Check, Db, AlertKind, AlertJob, find_check, create_event,
}
use systemvitals.Schema.Laws.{find_check-id, find-update_check}
use systemvitals.Routing.{snapshot_selected_channel_ids}
use systemvitals.Ping.{
  has_slug, is_heartbeat, is_down, ping_event, set_up, find_by_ping_slug, ping_transaction,
  record_ping,
}

abbrev pub recovery : ℕ → List ℕ → AlertJob
recovery id ids = record { check_id = id; kind = AlertKind.recovery; channel_ids = some ids }

find_by_ping_slug-has_slug :
    (slug : Text) (db : Db) (c : Check)
    → find_by_ping_slug slug db ≡ some c
    → c.ping_slug ≡ some slug
unfolding find_by_ping_slug
find_by_ping_slug-has_slug slug db c h =
    let (i, k) = find-In (λ (c : Check). has_slug slug c.ping_slug) db.checks c h in
    elim (Option-cases c.ping_slug) [
      | inl e ↦ absurd (ground arith)
      | inr (s, e) ↦
          let same : text_eq s slug ≡ true = ground arith in
          e ∙ ap some ((text_eq_iff s slug).0 same)
    ]

-- The status is DOWN.
abbrev pub was_down : CheckStatus → Bool
was_down CheckStatus.down = true
was_down _ = false

-- A ping of the heartbeat check that has the slug, whatever its status, makes it UP as of `now`, changes nothing else of
-- its row and no other row, and records one event that is UP, of that time and with the caller's
-- address. It reports a recovery, and sends one alert to the channels selected at that moment, exactly
-- when the check was DOWN under its lock.
pub record_ping_heartbeat :
    (slug : Text) (source_ip : Option Text) (others : Db → Db) (now : ℕ) (db : Db)
    (seen locked : Check)
    → find_by_ping_slug slug db ≡ some seen
    → seen.type ≡ heartbeat
    → find_check seen.id (others db) ≡ some locked
    → locked.type ≡ heartbeat
    → let r = record_ping slug source_ip others now db in
      (seen.ping_slug ≡ some slug)
      × (r.answer ≡ ok (record { recovered = was_down locked.status; check_id = seen.id }))
      × (r.alert ≡ (
          if was_down locked.status
          then some (recovery seen.id (snapshot_selected_channel_ids (others db) locked))
          else none))
      × (find_check seen.id r.db ≡ some (record locked { status = up; last_event_at = some now }))
      × ((j : ℕ) → seen.id ≢ j → find_check j r.db ≡ find_check j (others db))
      × (r.db.events
          ≡ (others db).events
            ++ record {
              id = (others db).next_event_id;
              check_id = seen.id;
              timestamp = now;
              status = up;
              response_time_ms = none;
              status_code = none;
              error = none;
              source_ip = source_ip;
            }
              ∷ [])
unfolding record_ping snapshot_selected_channel_ids ping_event ping_transaction is_heartbeat is_down
record_ping_heartbeat slug ip others now db seen locked f h g k =
    let same : locked.id ≡ seen.id = find_check-id seen.id locked (others db) g in
    (
      find_by_ping_slug-has_slug slug db seen f,
      ground (arith, same),
      ground (arith, same),
      ground (
        arith,
        same,
        find-update_check locked.id seen.id (set_up now)
            (create_event (ping_event locked.id now ip) (others db)) (λ c. refl),
      ),
      λ j other. ground (
        arith,
        same,
        find-update_check locked.id j (set_up now)
            (create_event (ping_event locked.id now ip) (others db)) (λ c. refl),
      ),
      ground (arith, same),
    )

-- How every row reads after a ping's transaction.
pub find-ping_transaction :
    (now : ℕ) (ip : Option Text) (id j : ℕ) (db : Db)
    → find_check j (ping_transaction now ip id db).db ≡ elim (find_check j db) [
      | none ↦ none
      | some c ↦ some (if (id == j) then (if is_heartbeat c.type then set_up now c else c) else c)
    ]
unfolding ping_transaction
find-ping_transaction now ip id j db = elim (Option-cases (find_check id db)) [
  | inl e ↦ ground (arith, e)
  | inr (c, e) ↦ ground (
    arith,
    e,
    find_check-id id c db e,
    find-update_check c.id j (set_up now) (create_event (ping_event c.id now ip) db) (λ c. refl),
  )
]

-- A ping alerts only about its own check, and only when that check is a heartbeat check and DOWN.
pub alert-ping_transaction :
    (now : ℕ) (ip : Option Text) (id : ℕ) (db : Db) (a : AlertJob)
    → (ping_transaction now ip id db).alert ≡ some a
    → (a.check_id ≡ id)
      × (a.kind ≡ AlertKind.recovery)
      × ((c : Check) × (find_check id db ≡ some c)
          × (is_heartbeat c.type ≡ true)
          × (is_down c.status ≡ true))
unfolding ping_transaction
alert-ping_transaction now ip id db a h = elim (Option-cases (find_check id db)) [
  | inl e ↦ absurd (ground (arith, e))
  | inr (c, e) ↦
      (ground (arith, e), ground (arith, e), (c, e, ground (arith, e), ground (arith, e)))
]

-- A row that is DOWN after a ping was DOWN before, and the ping was not for it.
pub down_after_ping :
    (now : ℕ) (ip : Option Text) (id j : ℕ) (db : Db) (c : Check)
    → find_check j (ping_transaction now ip id db).db ≡ some c
    → is_down c.status ≡ true
    → (find_check j db ≡ some c) × (id ≡ j → is_heartbeat c.type ≡ false)
unfolding is_down
down_after_ping now ip id j db c f d = elim (Option-cases (find_check j db)) [
  | inl e ↦ absurd (ground (arith, e, find-ping_transaction now ip id j db))
  | inr (c', e) ↦ (
    ground (arith, e, find-ping_transaction now ip id j db),
    λ same. ground (arith, e, find-ping_transaction now ip id j db),
  )
]
