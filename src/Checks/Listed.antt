-- ===== src/Checks/Listed.antt =====
-- The channels of a list of checks.
use systemvitals.Base.{ℕ, List, map}
use systemvitals.Schema.{Check}
use systemvitals.Tenancy.{App}
use systemvitals.Checks.Operation.{effective_notification_channel_ids}
use systemvitals.Checks.Reads.{checks_in}

-- The checks of a project, the oldest first, each with the channels that are effective for it.
abbrev pub listing : ℕ → App → List (Check × List ℕ)
listing project app =
    map (λ c. (c, effective_notification_channel_ids c.id project app.monitor))
      (checks_in project app)
