-- ===== src/Tests/Sample.antt =====
-- A project with a heartbeat check that is overdue, an HTTP check, and two channels.
use mathlib.Core.Path.{subst}
use systemvitals.Base.{true, none, some, [], ◌∷◌, ◌≡◌, refl, inl, inr}
use systemvitals.Base.Int.{pos}
use systemvitals.Base.Text.{codes}
use systemvitals.Schema.{
  Check, NotificationChannel, Db, heartbeat, http, up, email, telegram, find_check,
}
use systemvitals.Schema.Laws.{Keyed}

abbrev pub backup : Check
backup = record {
  id = 1;
  name = codes "backup";
  slug = codes "backup";
  description = some (codes "restart it");
  agent_instructions = none;
  type = heartbeat;
  status = up;
  project_id = 7;
  ping_slug = some (codes "ping-1");
  period_seconds = some (pos 60);
  grace_seconds = some (pos 10);
  schedule = none;
  tz = none;
  target = none;
  method = none;
  expected_status = none;
  interval_seconds = none;
  timeout_ms = none;
  last_event_at = some 1000;
  created_at = 500;
}

abbrev pub site : Check
site = record backup {
  id = 2;
  name = codes "site";
  slug = codes "site";
  type = http;
  ping_slug = none;
  period_seconds = none;
  grace_seconds = none;
  target = some (codes "https://example.com");
  interval_seconds = some (pos 60);
  timeout_ms = some (pos 5000);
}

abbrev pub mail : NotificationChannel
mail = record { id = 5; project_id = 7; type = email; enabled = true; created_at = 10 }

abbrev pub chat : NotificationChannel
chat = record { id = 6; project_id = 7; type = telegram; enabled = true; created_at = 5 }

abbrev pub sample : Db
sample = record {
  checks = backup ∷ site ∷ [];
  events = [];
  channels = mail ∷ chat ∷ [];
  exclusions = record { check_id = 1; channel_id = 5 } ∷ [];
  next_event_id = 100;
}

pub sample-Keyed : Keyed sample
unfolding find_check
sample-Keyed c (inl e) = subst (λ d. find_check d.id sample ≡ some d) e refl
sample-Keyed c (inr (inl e)) = subst (λ d. find_check d.id sample ≡ some d) e refl
sample-Keyed c (inr (inr e)) = absurd e
