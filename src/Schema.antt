-- ===== src/Schema.antt =====
-- The tables that the monitor reads and writes (database/prisma/schema.prisma): rows as records,
-- tables as lists. Identifiers are cuids, which the code compares for equality and order only, so
-- they are numbers here. Dates are milliseconds since the epoch. Int columns are signed.
use systemvitals.Base.{
  ℕ, suc, ◌+◌, ◌≡◌, Bool, true, false, Option, none, some, List, [], ◌∷◌, ◌++◌, ◌==◌, if◌then◌else◌,
  find,
}
use systemvitals.Base.Int.{ℤ}
use systemvitals.Base.Text.{Text}
pub mod Laws

pub data CheckType : Type 0 where
  heartbeat http tcp ping : CheckType

pub data CheckStatus : Type 0 where
  new up grace down paused : CheckStatus

pub data ChannelType : Type 0 where
  email slack telegram webhook : ChannelType

pub data Role : Type 0 where
  owner admin member : Role

pub record Check : Type 0 where
  pub id : ℕ
  pub name : Text
  pub slug : Text
  pub description : Option Text
  pub agent_instructions : Option Text
  pub type : CheckType
  pub status : CheckStatus
  pub project_id : ℕ
  pub ping_slug : Option Text
  pub period_seconds : Option ℤ
  pub grace_seconds : Option ℤ
  pub schedule : Option Text
  pub tz : Option Text
  pub target : Option Text
  pub method : Option Text
  pub expected_status : Option ℤ
  pub interval_seconds : Option ℤ
  pub timeout_ms : Option ℤ
  pub last_event_at : Option ℕ
  pub created_at : ℕ

pub record CheckEvent : Type 0 where
  pub id : ℕ
  pub check_id : ℕ
  pub timestamp : ℕ
  pub status : CheckStatus
  pub response_time_ms : Option ℕ
  pub status_code : Option ℕ
  pub error : Option Text
  pub source_ip : Option Text

pub record NotificationChannel : Type 0 where
  pub id : ℕ
  pub project_id : ℕ
  pub type : ChannelType
  pub enabled : Bool
  pub created_at : ℕ

pub record CheckChannelExclusion : Type 0 where
  pub check_id : ℕ
  pub channel_id : ℕ

-- Events stand in the order of their creation; `next_event_id` is the key that the next one gets.
pub record Db : Type 0 where
  pub checks : List Check
  pub events : List CheckEvent
  pub channels : List NotificationChannel
  pub exclusions : List CheckChannelExclusion
  pub next_event_id : ℕ

-- `check.findUnique({ where: { id } })`
unfoldable pub find_check : ℕ → Db → Option Check
find_check id db = find (λ c. c.id == id) db.checks

-- The rows with the key `id` are changed by `f`.
unfoldable pub update_rows : ℕ → (Check → Check) → List Check → List Check
update_rows id f [] = []
update_rows id f (c ∷ cs) = (if c.id == id then f c else c) ∷ update_rows id f cs

-- `check.update({ where: { id }, data })`
unfoldable pub update_check : ℕ → (Check → Check) → Db → Db
update_check id f db = record db { checks = update_rows id f db.checks }

-- `checkEvent.create`: the row is given the next key.
unfoldable pub create_event : (ℕ → CheckEvent) → Db → Db
create_event row db = record db {
  events = db.events ++ row db.next_event_id ∷ [];
  next_event_id = suc db.next_event_id;
}

-- An alert job of the queue, with the channels selected at the transition; `none` is a job of an
-- older release, which carries no snapshot.
pub data AlertKind : Type 0 where
  down recovery : AlertKind

pub record AlertJob : Type 0 where
  pub check_id : ℕ
  pub kind : AlertKind
  pub channel_ids : Option (List ℕ)
