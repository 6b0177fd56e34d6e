-- ===== src/Watchdog/Guard.antt =====
-- What the transaction of one overdue check does, on each of its branches.
use systemvitals.Base.{
  ℕ, ◌≡◌, refl, Bool, true, false, ◌&&◌, none, some, [], ◌∷◌, ◌++◌, arith, ◌==◌, if◌then◌else◌,
  Option-cases, inl, inr,
}
use systemvitals.Schema.{Check, Db, find_check}
use systemvitals.Schema.Laws.{find-update_rows}
use systemvitals.Routing.{snapshot_selected_channel_ids}
use systemvitals.Watchdog.{is_sweepable, has_cadence, set_down, missed_heartbeat, mark_down}

abbrev pub swept : Check → Check
swept c = if is_sweepable c.status && has_cadence c then set_down c else c

pub swept-swept : (c : Check) → swept (swept c) ≡ swept c
unfolding is_sweepable
swept-swept c = ground arith

abbrev pub after : Bool → Check → Check
after hit c = if hit then swept c else c

-- How every row reads after the transaction.
pub find-mark_down :
    (at id j : ℕ) (db : Db)
    → find_check j (mark_down at id db).0
      ≡ elim (find_check j db) [ none ↦ none | some c ↦ some (after (id == j) c) ]
unfolding mark_down
find-mark_down at id j db = ground (arith, find-update_rows id j set_down db.checks (λ c. refl))

-- A check that is UP or GRACE and has a period or a schedule goes DOWN: its event is recorded, the
-- alert carries that event and the channels selected before the change, and routing is untouched.
pub mark_down_hit :
    (at id : ℕ) (db : Db) (c : Check)
    → find_check id db ≡ some c
    → is_sweepable c.status ≡ true
    → has_cadence c ≡ true
    → let (db', t) = mark_down at id db in
      (t
        ≡ some (record {
          event_id = db.next_event_id;
          channel_ids = snapshot_selected_channel_ids db c;
        }))
      × (db'.events ≡ db.events ++ missed_heartbeat id at db.next_event_id ∷ [])
      × (find_check id db' ≡ some (set_down c))
unfolding mark_down
mark_down_hit at id db c h s p =
    ground (arith, find-update_rows id id set_down db.checks (λ c. refl))

-- Any other check, and a check that is gone, is left alone together with the whole database.
pub mark_down_miss :
    (at id : ℕ) (db : Db)
    → ((c : Check) → find_check id db ≡ some c → (is_sweepable c.status && has_cadence c) ≡ false)
    → mark_down at id db ≡ (db, none)
unfolding mark_down
mark_down_miss at id db h = elim (Option-cases (find_check id db)) [
  | inl e ↦ ground arith
  | inr (c, e) ↦ ground (arith, h c e)
]

-- Without a transition nothing is written.
pub mark_down_silent :
    (at id : ℕ) (db : Db) → (mark_down at id db).1 ≡ none → (mark_down at id db).0 ≡ db
unfolding mark_down
mark_down_silent at id db h = ground arith
