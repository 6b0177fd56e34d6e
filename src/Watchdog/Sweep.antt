-- ===== src/Watchdog/Sweep.antt =====
-- The sweep as a whole: what it returns on any schedule of turns, and what it leaves when nothing
-- else happens meanwhile.
use mathlib.Core.Path.{subst}
use systemvitals.Base.{
  ℕ, suc, ◌+◌, ◌≡◌, refl, sym, ap, ◌∙◌, Bool, true, false, ◌&&◌, ◌||◌, Option, none, some, List, [],
  ◌∷◌, ◌++◌, map, arith, ◌==◌, if◌then◌else◌, filter, elem, Bool-cases, Option-cases, inl, inr, In,
}
use systemvitals.Base.Text.{Text}
use systemvitals.Schema.{Check, CheckStatus, Db, find_check, AlertJob}
use systemvitals.Schema.Laws.{Keyed, In-find}
use systemvitals.Watchdog.{
  is_candidate, is_overdue, overdue_checks, mark_down, JobId, Turn, Swept, down_alert, sweep_turn,
  sweep_each, sweep_overdue,
}
use systemvitals.Watchdog.Guard.{swept-swept, after, find-mark_down}

-- A turn in which the sweep is alone, and is neither aborted nor refused by the queue.
pub record IsQuiet (t : Turn) : Type 0 where
  pub alone : (db : Db) → t.others db ≡ db
  pub not_aborted : t.aborted ≡ false
  pub accepted : t.enqueue_fails ≡ false

abbrev keys : List Check → List ℕ
keys cs = map (λ c. c.id) cs

after-after : (a b : Bool) (c : Check) → after a (after b c) ≡ after (b || a) c
after-after a b c = ground (arith, swept-swept c)

-- One quiet turn.
quiet_turn :
    (turn : Turn) (c : Check) (rest : Db → List (AlertJob × JobId) → ℕ → Swept) (db : Db)
    (alerts : List (AlertJob × JobId)) (n : ℕ)
    → IsQuiet turn
    → sweep_turn turn c rest db alerts n ≡ (
        let (db', transition) = mark_down turn.at c.id db in
        elim transition [
          | none ↦ rest db' alerts n
          | some t ↦ rest db' (alerts ++ down_alert c.id t ∷ []) (n + 1)
        ])
unfolding sweep_turn
quiet_turn turn c rest db alerts n q =
    rw (q.not_aborted, q.alone db)
      (elim (Option-cases (mark_down turn.at c.id db).1) [
        | inl e ↦ rw (e, q.alone db)
        | inr (t, e) ↦ rw (e, q.accepted, q.alone db)
      ])

module _ (turns : ℕ → Turn) (quiet : (k : ℕ) → IsQuiet (turns k)) where
  -- Every row that the list names is swept, and no other row changes.
  find-sweep_each :
      (k : ℕ) (cs : List Check) (db : Db) (alerts : List (AlertJob × JobId)) (n j : ℕ)
      → find_check j (sweep_each turns k cs db alerts n).db
        ≡ elim (find_check j db) [ none ↦ none | some c ↦ some (after (elem j (keys cs)) c) ]
  unfolding sweep_each
  find-sweep_each k [] db alerts n j = ground arith
  find-sweep_each k (c ∷ cs) db alerts n j =
      let (db', t) = mark_down (turns k).at c.id db in
      rw (quiet_turn (turns k) c (sweep_each turns (suc k) cs) db alerts n (quiet k))
        (elim (Option-cases t) [
          | inl e ↦ rw e (
              ground (
                arith,
                find-sweep_each (suc k) cs db' alerts n j,
                find-mark_down (turns k).at c.id j db,
              ))
          | inr (t', e) ↦ rw e (
              ground (
                arith,
                find-sweep_each (suc k) cs db' (alerts ++ down_alert c.id t' ∷ []) (n + 1) j,
                find-mark_down (turns k).at c.id j db,
              ))
        ])

In-filter :
    (p q : Check → Bool) (c : Check) (cs : List Check)
    → In c (filter p (filter q cs))
    → In c cs × (p c ≡ true) × (q c ≡ true)
In-filter p q c [] h = absurd h
In-filter p q c (x ∷ xs) h = elim (Bool-cases (q x)) [
  | inl e ↦ elim (Bool-cases (p x)) [
    | inl d ↦ elim (rw (e, d) at h) [
      | inl same ↦ (inl same, rw (← same) d, rw (← same) e)
      | inr m ↦ let (i, k, l) = In-filter p q c xs m in (inr i, k, l)
    ]
    | inr d ↦ let (i, k, l) = In-filter p q c xs (rw (e, d) at h) in (inr i, k, l)
  ]
  | inr e ↦ let (i, k, l) = In-filter p q c xs (rw e at h) in (inr i, k, l)
]

elem-keys : (j : ℕ) (cs : List Check) → elem j (keys cs) ≡ true → (c : Check) × In c cs × (c.id ≡ j)
elem-keys j [] h = ground arith
elem-keys j (x ∷ xs) h = elim (Bool-cases (x.id == j)) [
  | inl e ↦ (x, inl refl, ground arith)
  | inr e ↦ let (c, m, k) = elem-keys j xs (ground arith) in (c, inr m, k)
]

keys-elem : (c : Check) (cs : List Check) → In c cs → elem c.id (keys cs) ≡ true
keys-elem c [] h = absurd h
keys-elem c (x ∷ xs) h = elim h [
  | inl e ↦ let d : x.id ≡ c.id = ap (λ y. y.id) e in ground arith
  | inr m ↦ ground (arith, keys-elem c xs m)
]

In-filter_back :
    (p q : Check → Bool) (c : Check) (cs : List Check)
    → In c cs
    → p c ≡ true
    → q c ≡ true
    → In c (filter p (filter q cs))
In-filter_back p q c [] h _ _ = absurd h
In-filter_back p q c (x ∷ xs) h d e = elim h [
  | inl same ↦ rw (ap q same ∙ e, ap p same ∙ d) (inl same)
  | inr m ↦
      let rest = In-filter_back p q c xs m d e in
      elim (Bool-cases (q x)) [
        | inl y ↦ rw y (elim (Bool-cases (p x)) [ inl z ↦ rw z (inr rest) | inr z ↦ rw z rest ])
        | inr y ↦ rw y rest
      ]
]

module _ (next_cron_fire : Text → Text → ℕ → Option ℕ) (now : ℕ) where
  -- What a sweep that runs alone does to one row.
  abbrev pub after_sweep : Check → Check
  after_sweep c =
      if is_candidate c && is_overdue next_cron_fire now c
      then record c { status = CheckStatus.down }
      else c

  -- For a row of the table, to be on the list of overdue checks is to pass both tests.
  elem-overdue :
      (db : Db) (j : ℕ) (c : Check)
      → Keyed db
      → find_check j db ≡ some c
      → elem j (keys (overdue_checks next_cron_fire now db))
        ≡ (is_candidate c && is_overdue next_cron_fire now c)
  unfolding overdue_checks
  elem-overdue db j c keyed h = elim (Bool-cases (elem j (keys listed))) [
    | inl e ↦ let (c', m, k) = elem-keys j listed e in rw e (sym (passes c' m k))
    | inr e ↦ elim (Bool-cases (is_candidate c && is_overdue next_cron_fire now c)) [
      | inl d ↦
          let m =
            In-filter_back (is_overdue next_cron_fire now) is_candidate c db.checks stored.0
              (ground arith) (ground arith) in
          let t : elem j (keys listed) ≡ true = rw (← stored.1) (keys-elem c listed m) in cc t
      | inr d ↦ e ∙ sym d
    ]
  ]
    where
      listed : List Check
      listed = filter (is_overdue next_cron_fire now) (filter is_candidate db.checks)

      stored : In c db.checks × (c.id ≡ j)
      stored = In-find j c db.checks (unfold find_check in h)

      passes :
          (c' : Check)
          → In c' listed
          → c'.id ≡ j
          → (is_candidate c && is_overdue next_cron_fire now c) ≡ true
      passes c' m k =
          let (i, o, a) = In-filter (is_overdue next_cron_fire now) is_candidate c' db.checks m in
          let same : c' ≡ c = cc (subst (λ n. find_check n db ≡ some c') k (keyed c' i), h) in
          rw (← same) (ground (arith, o, a))

  -- A sweep that runs alone marks every overdue candidate DOWN and changes no other row.
  pub sweep_exact :
      (turns : ℕ → Turn) (db : Db) (j : ℕ)
      → ((k : ℕ) → IsQuiet (turns k))
      → Keyed db
      → find_check j (sweep_overdue next_cron_fire false turns now db).db
        ≡ elim (find_check j db) [ none ↦ none | some c ↦ some (after_sweep c) ]
  unfolding sweep_overdue
  sweep_exact turns db j quiet keyed =
      rw (find-sweep_each turns quiet 0 (overdue_checks next_cron_fire now db) db [] 0 j)
        (elim (Option-cases (find_check j db)) [
          | inl e ↦ rw e
          | inr (c, e) ↦
              rw e (ap some (unfold is_candidate in ground (arith, elem-overdue db j c keyed e)))
        ])
