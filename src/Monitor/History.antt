-- ===== src/Monitor/History.antt =====
-- Alerts tell the truth about transitions, in every order of steps.
use systemvitals.Base.{
  ℕ, ◌≡◌, sym, ◌∙◌, true, false, Option, none, some, List, [], ◌∷◌, arith, ◌==◌, if◌then◌else◌,
  Bool-cases, Option-cases, inl, inr,
}
use systemvitals.Base.Text.{Text}
use systemvitals.Schema.{Check, Db, AlertJob, AlertKind, find_check}
use systemvitals.Ping.{is_down, ping_transaction}
use systemvitals.Probe.{ProbeResult, probe_transaction}
use systemvitals.Ping.Laws.{alert-ping_transaction, down_after_ping}
use systemvitals.Probe.Laws.{probe_alert, down_after_probe, down_after_silent_probe}
use systemvitals.Watchdog.{mark_down, down_alert}
use systemvitals.Watchdog.Guard.{find-mark_down, mark_down_silent}
use systemvitals.Monitor.{
  World, push, watchdog_alert, Step, pinged, probed, swept, managed, Reach, here, next,
}

-- The kind of the newest alert of a check.
abbrev pub last_kind : ℕ → List AlertJob → Option AlertKind
last_kind j [] = none
last_kind j (a ∷ h) = let rest = last_kind j h in if a.check_id == j then some a.kind else rest

-- Every recovery follows a down alert of the same check, with no other alert of it in between.
abbrev pub Paired : List AlertJob → Type 0
Paired [] = Unit
Paired (a ∷ h) =
    (a.kind ≡ AlertKind.recovery → last_kind a.check_id h ≡ some AlertKind.down) × Paired h

pub record Told (db : Db) (h : List AlertJob) : Type 0 where
  pub down_told :
      (j : ℕ) (c : Check)
      → find_check j db ≡ some c
      → is_down c.status ≡ true
      → last_kind j h ≡ some AlertKind.down
  pub paired : Paired h

-- An alert about another check is not seen by this one.
last_kind-skip :
    (j : ℕ) (a : AlertJob) (h : List AlertJob)
    → (a.check_id ≡ j → ⊥)
    → last_kind j (a ∷ h) ≡ last_kind j h
last_kind-skip j a h ne = elim (Bool-cases (a.check_id == j)) [
  | inl e ↦ absurd (ne (ground arith))
  | inr e ↦ rw e
]

module _ (db : Db) (h : List AlertJob) (told : Told db h) where
  Told-ping :
      (now : ℕ) (ip : Option Text) (id : ℕ)
      → Told (ping_transaction now ip id db).db (push (ping_transaction now ip id db).alert h)
  Told-ping now ip id = elim (Option-cases (ping_transaction now ip id db).alert) [
    | inl e ↦ rw e (record {
      down_told = λ j c f d. told.down_told j c (down_after_ping now ip id j db c f d).0 d;
      paired = told.paired;
    })
    | inr (a, e) ↦
        let (key, kind, (c₀, g, beat, was_down)) = alert-ping_transaction now ip id db a e in
        rw e (record {
          down_told = λ j c f d.
              let (old, other) = down_after_ping now ip id j db c f d in
              last_kind-skip j a h (λ same. cc (other (sym key ∙ same), beat, g, old, key, same))
              ∙ told.down_told j c old d;
          paired = (λ _. rw key (told.down_told id c₀ g was_down), told.paired);
        })
  ]

  Told-probe :
      (at now : ℕ) (r : ProbeResult) (id : ℕ)
      → Told (probe_transaction at now r id db).0 (push (probe_transaction at now r id db).1 h)
  Told-probe at now r id = elim (Option-cases (probe_transaction at now r id db).1) [
    | inl e ↦ rw e (record {
      down_told = λ j c f d.
          let (c₀, g, old) = down_after_silent_probe at now r id db j c e f d in
          told.down_told j c₀ g old;
      paired = told.paired;
    })
    | inr (a, e) ↦
        let (key, was_down) = probe_alert at now r id db a e in
        rw e (record {
          down_told = λ j c f d. elim (down_after_probe at now r id db a j c e f d) [
            | inl (same, kind) ↦ ground (arith, key)
            | inr (other, old) ↦
                last_kind-skip j a h (λ same. other (sym key ∙ same)) ∙ told.down_told j c old d
          ];
          paired = (
            λ k. let (c₀, g, old) = was_down k in rw key (told.down_told id c₀ g old),
            told.paired,
          );
        })
  ]

  Told-sweep :
      (at id : ℕ) → Told (mark_down at id db).0 (push (watchdog_alert id (mark_down at id db).1) h)
  unfolding down_alert
  Told-sweep at id = elim (Option-cases (mark_down at id db).1) [
    | inl e ↦
        rw (e, mark_down_silent at id db e)
          (record { down_told = told.down_told; paired = told.paired })
    | inr (t, e) ↦ rw e (record {
      down_told = λ j c f d. elim (Bool-cases (id == j)) [
        | inl same ↦ rw same
        | inr other ↦
            rw other (told.down_told j c (ground (arith, f, find-mark_down at id j db, other)) d)
      ];
      paired = (λ k. cc, told.paired);
    })
  ]

Step-Told : {w w' : World} → Step w w' → Told w.db w.history → Told w'.db w'.history
Step-Told (pinged w now ip id) t = Told-ping w.db w.history t now ip id
Step-Told (probed w at now r id) t = Told-probe w.db w.history t at now r id
Step-Told (swept w at id) t = Told-sweep w.db w.history t at id
Step-Told (managed w db' keeps) t = record {
  down_told = λ j c f d. let (c₀, g, old) = keeps j c f d in t.down_told j c₀ g old;
  paired = t.paired;
}

-- From a database with no check DOWN and no alert sent, whatever is committed and in whatever order:
-- the newest alert of a check that is DOWN is a down alert, and each recovery alert follows a down
-- alert of the same check with no other alert of that check between them.
pub Reach-Told :
    {s w : World}
    → ((j : ℕ) (c : Check) → find_check j s.db ≡ some c → is_down c.status ≡ false)
    → s.history ≡ []
    → Reach s w
    → Told w.db w.history
Reach-Told none_down empty here =
    rw empty (record { down_told = λ j c f d. cc (none_down j c f, d); paired = tt })
Reach-Told none_down empty (next r st) = Step-Told st (Reach-Told none_down empty r)
