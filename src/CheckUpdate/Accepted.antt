-- ===== src/CheckUpdate/Accepted.antt =====
-- What an edit that is accepted leaves in the row.
use systemvitals.Base.{◌≡◌, refl, ◌≢◌, inl, inr, Bool, false, ◌&&◌, not, Option, none, some, arith}
use systemvitals.Base.Text.{Text}
use systemvitals.Base.Result.{ok, Accepts, Accepts->>=, Accepts-at, Accepts-map}
use systemvitals.Schema.{Check, CheckType, heartbeat, http, tcp, ping}
use systemvitals.CheckUpdate.{
  resolve_active, resolve_mode, resolve_fields, resolve_check_update, apply_update,
  is_heartbeat_type,
}
use systemvitals.CheckUpdate.Heartbeat.{base_update, resolve_heartbeat}
use systemvitals.CheckUpdate.Fields.{
  CronLib, CheckUpdateInput, CheckUpdateData, ResolvedCheckUpdate, requested_type,
  max_check_description_length, max_check_agent_instructions_length, Field, editable_type,
  resolve_name, resolve_slug, resolve_text, same_type,
}
use systemvitals.CheckUpdate.Shape.{
  HasShape, Restarts, IsBlank, IsHeartbeatRow, IsActiveRow, resolve_heartbeat-IsHeartbeatRow,
  resolve_active-IsActiveRow,
}

-- A row of the type that the edit asked for, complete for it, and restarted where it becomes a
-- heartbeat check.
abbrev pub Edited : CronLib → Check → CheckType → ResolvedCheckUpdate → Type 0
Edited lib c t r =
    ((apply_update r.update c).type ≡ t)
    × HasShape lib t (apply_update r.update c)
    × Restarts (is_heartbeat_type t && not (same_type t c.type)) r.update c

base_update-IsBlank :
    (t : CheckType) (name slug : Option Text) (description agent : Option (Option Text))
    → IsBlank (base_update t name slug description agent)
unfolding base_update
base_update-IsBlank t name slug description agent = record {
  status = refl;
  last_event_at = refl;
  period_seconds = refl;
  grace_seconds = refl;
  schedule = refl;
  tz = refl;
  target = refl;
  method = refl;
  expected_status = refl;
  interval_seconds = refl;
  timeout_ms = refl;
}

requested_type-IsEditable :
    (t : CheckType) (f : Field Text) (current : CheckType)
    → requested_type f current ≡ some t
    → t ≢ ping
unfolding requested_type editable_type
requested_type-IsEditable t none heartbeat h e = ground arith
requested_type-IsEditable t none http h e = ground arith
requested_type-IsEditable t none tcp h e = ground arith
requested_type-IsEditable t none ping h e = ground arith
requested_type-IsEditable t (some none) heartbeat h e = ground arith
requested_type-IsEditable t (some none) http h e = ground arith
requested_type-IsEditable t (some none) tcp h e = ground arith
requested_type-IsEditable t (some none) ping h e = ground arith
requested_type-IsEditable t (some (some s)) current h e = ground arith

module _ (lib : CronLib) (c : Check) where
  resolve_mode-Edited :
      (t : CheckType) (name slug : Option Text) (description agent : Option (Option Text))
      (input : CheckUpdateInput)
      → t ≢ ping
      → Accepts
          (Edited lib c t)
          (resolve_mode lib c input (base_update t name slug description agent))
  unfolding resolve_mode apply_update base_update
  resolve_mode-Edited heartbeat name slug description agent input n =
      let d : CheckUpdateData = base_update heartbeat name slug description agent in
      let conv : Bool = not (same_type heartbeat c.type) in
      Accepts-map (λ r. IsHeartbeatRow lib (apply_update r.update c) × Restarts conv r.update c)
        (Edited lib c heartbeat) (resolve_heartbeat lib c input d conv) (λ r (a, b). (a.type, a, b))
        (resolve_heartbeat-IsHeartbeatRow lib c d
          (base_update-IsBlank heartbeat name slug description agent) conv input refl)
  resolve_mode-Edited http name slug description agent input n =
      let d : CheckUpdateData = base_update http name slug description agent in
      let conv : Bool = not (same_type http c.type) in
      Accepts-map
        (λ r.
          IsActiveRow (apply_update r.update c)
          × Restarts false r.update c
          × (r.update.type ≡ http))
        (Edited lib c http) (resolve_active c input d conv) (λ r (a, b, e). (e, a, b))
        (resolve_active-IsActiveRow lib c d (base_update-IsBlank http name slug description agent)
          conv input (inl refl))
  resolve_mode-Edited tcp name slug description agent input n =
      let d : CheckUpdateData = base_update tcp name slug description agent in
      let conv : Bool = not (same_type tcp c.type) in
      Accepts-map
        (λ r.
          IsActiveRow (apply_update r.update c) × Restarts false r.update c × (r.update.type ≡ tcp))
        (Edited lib c tcp) (resolve_active c input d conv) (λ r (a, b, e). (e, a, b))
        (resolve_active-IsActiveRow lib c d (base_update-IsBlank tcp name slug description agent)
          conv input (inr refl))
  resolve_mode-Edited ping name slug description agent input n = elim (n refl) [ ]

  resolve_fields-Edited :
      (t : CheckType) (input : CheckUpdateInput)
      → t ≢ ping
      → Accepts (Edited lib c t) (resolve_fields lib c input t)
  unfolding resolve_fields
  resolve_fields-Edited t input n = Accepts->>= _ (resolve_name input.name) _ λ name en.
      Accepts->>= _ (resolve_slug input.slug) _ λ slug es.
        Accepts->>= _ (resolve_text max_check_description_length input.description) _
          λ description ed.
            Accepts->>= _
              (resolve_text max_check_agent_instructions_length input.agent_instructions) _
              λ agent ea. resolve_mode-Edited t name slug description agent input n

  -- An edit that is accepted leaves a row of the requested type, which is never PING, with exactly the
  -- columns of its mode, whatever the row held before: a heartbeat check has a grace period and either
  -- a period or a valid schedule with a valid zone, never both; an HTTP or TCP check has a non-empty
  -- target that fits the type, an interval and a timeout; the columns of the other mode are null. The
  -- status becomes NEW and the last event null exactly where another type becomes a heartbeat check;
  -- no other edit changes them.
  pub resolve_check_update-Edited :
      (input : CheckUpdateInput) (t : CheckType) (r : ResolvedCheckUpdate)
      → requested_type input.type c.type ≡ some t
      → resolve_check_update lib c input ≡ ok r
      → Edited lib c t r
  unfolding resolve_check_update
  resolve_check_update-Edited input t r e h =
      Accepts-at (Edited lib c t) (resolve_check_update lib c input) r
        (rw e (resolve_fields-Edited t input (requested_type-IsEditable t input.type c.type e))) h
