-- ===== src/Alert/Laws.antt =====
-- What an alert job sends and logs.
use systemvitals.Base.{
  ℕ, ◌≡◌, refl, sym, ap, ◌∙◌, Bool, false, ◌&&◌, not, Option, none, some, List, [], ◌∷◌, map, arith,
  ◌==◌, is_some, count, filter, sort, elem, Bool-cases, Option-cases, inl, inr, In,
}
use systemvitals.Base.Text.{Text}
use systemvitals.Schema.{
  CheckStatus, up, Check, NotificationChannel, Db, AlertKind, AlertJob, find_check,
}
use systemvitals.Routing.{created_before, is_excluded, is_selected, snapshot_selected_channel_ids}
use systemvitals.Routing.Laws.{elem-snapshot, any-In, In-any}
use systemvitals.Alert.{
  AlertLog, log_of, failure_of, is_recipient, alert_channels, dispatch_each, handle_alert,
  alert_text, subject,
}

abbrev pub succeeded : AlertLog → Bool
succeeded l = not (is_some l.error)

module _ (failure : NotificationChannel → Option Text) (check_id : ℕ) (kind : AlertKind) where
  dispatch_each-log_of :
      (chs : List NotificationChannel)
      → (dispatch_each failure check_id kind chs).0
        ≡ map (λ ch. log_of check_id kind ch (failure ch)) chs
  unfolding dispatch_each
  dispatch_each-log_of [] = refl
  dispatch_each-log_of (ch ∷ chs) = rw (dispatch_each-log_of chs)

  dispatch_each-count :
      (chs : List NotificationChannel)
      → (dispatch_each failure check_id kind chs).1
        ≡ count succeeded (dispatch_each failure check_id kind chs).0
  unfolding dispatch_each
  dispatch_each-count [] = refl
  dispatch_each-count (ch ∷ chs) = ground (arith, dispatch_each-count chs)

-- The status that an alert reports.
abbrev pub reported_status : AlertKind → CheckStatus
reported_status AlertKind.down = CheckStatus.down
reported_status AlertKind.recovery = up

-- The enabled channels of the check's project, in order of creation: those of the job's snapshot, or
-- without one those that are not excluded for the check.
abbrev pub recipients : Db → Check → Option (List ℕ) → List NotificationChannel
recipients db c none = sort created_before (
    filter
      (λ ch.
        (ch.project_id == c.project_id) && ch.enabled && not (is_excluded db.exclusions c.id ch.id))
      db.channels)
recipients db c (some ids) =
    sort created_before
      (filter (λ ch. (ch.project_id == c.project_id) && ch.enabled && elem ch.id ids) db.channels)

recipients_lem :
    (db : Db) (c : Check) (ids : Option (List ℕ)) → alert_channels db c ids ≡ recipients db c ids
unfolding alert_channels is_recipient
recipients_lem db c none = refl
recipients_lem db c (some ids) = refl

-- An alert for a check that exists logs one attempt for each recipient in order of creation: the
-- enabled channels of the check's project that the job's snapshot names, or without a snapshot those
-- that the check does not exclude. A log is DOWN for a down alert and UP for a recovery, and has the
-- error of the dispatch, or else of the log of its success, whether earlier attempts failed or not; the
-- number of attempts that are logged without an error is returned. An alert for a check that is gone
-- does nothing.
pub handle_alert_exact :
    (dispatch : Text → Text → NotificationChannel → Option Text)
    (log_error : NotificationChannel → Option Text) (now : Text) (db : Db) (job : AlertJob)
    → let (logs, successes) = handle_alert dispatch log_error now db job in
      (successes ≡ count succeeded logs)
      × (logs ≡ elim (find_check job.check_id db) [
        | none ↦ []
        | some c ↦
            map
              (λ ch. record {
                check_id = job.check_id;
                channel_id = ch.id;
                status = reported_status job.kind;
                error = elim (dispatch (subject job.kind c) (alert_text job.kind c now) ch) [
                  | none ↦ log_error ch
                  | some e ↦ some e
                ];
              })
              (recipients db c job.channel_ids)
      ])
unfolding handle_alert
handle_alert_exact dispatch log_error now db job =
    elim (Option-cases (find_check job.check_id db)) [
      | inl e ↦ rw (e, handle_alert) (refl, refl)
      | inr (c, e) ↦
          let fails =
            failure_of (dispatch (subject job.kind c) (alert_text job.kind c now)) log_error in
          let chs = alert_channels db c job.channel_ids in
          rw (e, handle_alert)
            (
              dispatch_each-count fails job.check_id job.kind chs,
              dispatch_each-log_of fails job.check_id job.kind chs
                  ∙ ap (map (λ ch. log_of job.check_id job.kind ch (fails ch)))
                      (recipients_lem db c job.channel_ids),
            )
    ]

filter_same :
    (p q : NotificationChannel → Bool) (xs : List NotificationChannel)
    → ((ch : NotificationChannel) → In ch xs → p ch ≡ q ch)
    → filter p xs ≡ filter q xs
filter_same p q [] h = refl
filter_same p q (x ∷ xs) h = rw (h x (inl refl), filter_same p q xs (λ ch m. h ch (inr m)))

same_recipient :
    (db : Db) (c : Check) (ch : NotificationChannel)
    → In ch db.channels
    → is_recipient db c (some (snapshot_selected_channel_ids db c)) ch ≡ is_recipient db c none ch
unfolding is_recipient is_selected
same_recipient db c ch m = elim (Bool-cases (elem ch.id (snapshot_selected_channel_ids db c))) [
  | inl e ↦
      let (x, k, h) = any-In _ db.channels (sym (elem-snapshot ch.id db c) ∙ e) in
      let same : x.id ≡ ch.id = ground arith in
      let free : is_excluded db.exclusions c.id ch.id ≡ false = rw (← same) (ground arith) in
      rw (e, free)
  | inr e ↦ elim (Bool-cases (is_selected db c.id c.project_id ch)) [
    | inl d ↦
        let t = sym (elem-snapshot ch.id db c) ∙ e in
        let u =
          In-any (λ x. is_selected db c.id c.project_id x && (x.id == ch.id)) ch db.channels m
            (ground arith) in
        cc (t, u)
    | inr d ↦ rw e (ground arith)
  ]
]

-- While routing does not change, a job with the transition's snapshot reaches exactly the channels
-- that a job without a snapshot reaches.
pub snapshot_reaches_selected :
    (db : Db) (c : Check)
    → alert_channels db c (some (snapshot_selected_channel_ids db c)) ≡ alert_channels db c none
unfolding alert_channels
snapshot_reaches_selected db c = ap (sort created_before) (
    filter_same (is_recipient db c (some (snapshot_selected_channel_ids db c)))
      (is_recipient db c none) db.channels (same_recipient db c))
