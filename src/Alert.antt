-- ===== src/Alert.antt =====
-- worker/src/alert-handler.ts: an alert job is sent to its channels, and each attempt is logged.
-- The notifiers are a parameter: `dispatch` gives the error text of a channel that failed, and
-- `log_error` that of a log of a success that could not be written. A log of a failure is written.
pub mod Laws
use systemvitals.Base.{
  ℕ, zero, suc, ◌+◌, Bool, true, false, ◌&&◌, not, Option, none, some, List, [], ◌∷◌, ◌++◌, ◌==◌,
  if◌then◌else◌, filter, sort, elem,
}
use systemvitals.Base.Text.{Text, codes, truthy}
use systemvitals.Schema.{
  Check, CheckStatus, NotificationChannel, Db, AlertKind, AlertJob, up, find_check,
}
use systemvitals.Routing.{created_before, is_excluded}

pub record AlertLog : Type 0 where
  pub check_id : ℕ
  pub channel_id : ℕ
  pub status : CheckStatus
  pub error : Option Text

abbrev pub alert_status : AlertKind → CheckStatus
alert_status AlertKind.down = CheckStatus.down
alert_status AlertKind.recovery = up

-- A snapshot names its channels; a job without one takes those that the check does not exclude.
unfoldable pub is_recipient : Db → Check → Option (List ℕ) → NotificationChannel → Bool
unfolding is_excluded
is_recipient db check none ch =
    (ch.project_id == check.project_id)
    && ch.enabled
    && not (is_excluded db.exclusions check.id ch.id)
is_recipient db check (some ids) ch =
    (ch.project_id == check.project_id) && ch.enabled && elem ch.id ids

unfoldable pub alert_channels : Db → Check → Option (List ℕ) → List NotificationChannel
unfolding is_recipient created_before
alert_channels db check ids = sort created_before (filter (is_recipient db check ids) db.channels)

-- The line feeds of the message templates.
abbrev pub blank_line : Text
blank_line = 10 ∷ 10 ∷ []

abbrev pub feed : Text
feed = 10 ∷ []

unfoldable pub fix_instructions : Option Text → Text
fix_instructions none = []
fix_instructions (some d) =
    if truthy d then blank_line ++ (codes "How to fix:" ++ (feed ++ d)) else []

-- `text`, at the ISO time `now`.
unfoldable pub alert_text : AlertKind → Check → Text → Text
unfolding fix_instructions
alert_text AlertKind.down check now =
    codes "ALERT: "
    ++ (34 ∷ check.name
        ++ (34 ∷ codes " is DOWN."
            ++ (blank_line
                ++ (codes "Status: DOWN"
                    ++ (feed
                        ++ (codes "Detected at: "
                            ++ (now
                                ++ (blank_line
                                    ++ (codes "Please investigate immediately."
                                        ++ fix_instructions check.description)))))))))
alert_text AlertKind.recovery check now =
    codes "RECOVERY: "
    ++ (34 ∷ check.name
        ++ (34 ∷ codes " has recovered."
            ++ (blank_line ++ (codes "Status: UP" ++ (feed ++ (codes "Recovered at: " ++ now))))))

abbrev pub log_of : ℕ → AlertKind → NotificationChannel → Option Text → AlertLog
log_of check_id kind ch error = record {
  check_id = check_id;
  channel_id = ch.id;
  status = alert_status kind;
  error = error;
}

-- What the `try` of a channel throws: an error of its dispatch, or else of the log of its success.
abbrev pub failure_of :
    (NotificationChannel → Option Text)
    → (NotificationChannel → Option Text)
    → NotificationChannel
    → Option Text
failure_of dispatch log_error ch = elim (dispatch ch) [ none ↦ log_error ch | some e ↦ some e ]

-- The loop over the channels: the logs, and the number of successes.
unfoldable pub dispatch_each :
    (NotificationChannel → Option Text)
    → ℕ
    → AlertKind
    → List NotificationChannel
    → List AlertLog × ℕ
dispatch_each failure check_id kind [] = ([], 0)
dispatch_each failure check_id kind (ch ∷ chs) =
    let (logs, successes) = dispatch_each failure check_id kind chs in
    (
      log_of check_id kind ch (failure ch) ∷ logs,
      elim (failure ch) [ none ↦ successes + 1 | some e ↦ successes ],
    )

unfoldable pub subject : AlertKind → Check → Text
subject AlertKind.down check = codes "[SystemVitals] " ++ (check.name ++ codes " is DOWN")
subject AlertKind.recovery check = codes "[SystemVitals] " ++ (check.name ++ codes " is recovered")

-- `dispatch subject text ch`; `now` is the ISO time of the message.
unfoldable pub handle_alert :
    (Text → Text → NotificationChannel → Option Text)
    → (NotificationChannel → Option Text)
    → Text
    → Db
    → AlertJob
    → List AlertLog × ℕ
handle_alert dispatch log_error now db job = elim (find_check job.check_id db) [
  | none ↦ ([], 0)
  | some check ↦
      dispatch_each
        (failure_of (dispatch (subject job.kind check) (alert_text job.kind check now)) log_error)
        job.check_id job.kind (alert_channels db check job.channel_ids)
]
