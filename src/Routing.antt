-- ===== src/Routing.antt =====
-- worker/src/notification-routing.ts: which channels an alert of a check goes to.
pub mod Laws
use systemvitals.Base.{ℕ, Bool, ◌&&◌, ◌||◌, not, List, map, ltb, leb, ◌==◌, any, filter, sort}
use systemvitals.Schema.{Check, NotificationChannel, CheckChannelExclusion, Db}

-- `orderBy: [{ createdAt: "asc" }, { id: "asc" }]`
unfoldable pub created_before : NotificationChannel → NotificationChannel → Bool
created_before a b =
    ltb a.created_at b.created_at || (a.created_at == b.created_at && leb a.id b.id)

-- `checkExclusions: { none: { checkId } }`
unfoldable pub is_excluded : List CheckChannelExclusion → ℕ → ℕ → Bool
is_excluded xs check_id channel_id =
    any (λ x. x.check_id == check_id && x.channel_id == channel_id) xs

-- The `where` of the query.
unfoldable pub is_selected : Db → ℕ → ℕ → NotificationChannel → Bool
unfolding is_excluded
is_selected db check_id project_id ch =
    (ch.project_id == project_id) && ch.enabled && not (is_excluded db.exclusions check_id ch.id)

unfoldable pub selected_channels : Db → ℕ → ℕ → List NotificationChannel
unfolding is_selected created_before
selected_channels db check_id project_id =
    sort created_before (filter (is_selected db check_id project_id) db.channels)

unfoldable pub snapshot_selected_channel_ids : Db → Check → List ℕ
unfolding selected_channels
snapshot_selected_channel_ids db c = map (λ ch. ch.id) (selected_channels db c.id c.project_id)
