-- ===== src/Schema/Laws.antt =====
-- How a changed row is found again.
use systemvitals.Base.{
  sym, ℕ, suc, ◌≡◌, refl, ap, inl, inr, none, some, List, [], ◌∷◌, arith, ◌==◌, if◌then◌else◌, find,
  length, Bool-cases, In,
}
use systemvitals.Schema.{Check, CheckEvent, Db, find_check, update_rows, update_check, create_event}

pub length-update_rows :
    (id : ℕ) (f : Check → Check) (cs : List Check) → length (update_rows id f cs) ≡ length cs
unfolding update_rows
length-update_rows id f [] = refl
length-update_rows id f (c ∷ cs) = ap suc (length-update_rows id f cs)

-- A change that keeps the key is seen at that key, and nowhere else.
pub find-update_rows :
    (id j : ℕ) (f : Check → Check) (cs : List Check)
    → ((c : Check) → (f c).id ≡ c.id)
    → find (λ c. c.id == j) (update_rows id f cs) ≡ elim (find (λ (c : Check). c.id == j) cs) [
      | none ↦ none
      | some c ↦ some (if id == j then f c else c)
    ]
unfolding update_rows
find-update_rows id j f [] h = refl
find-update_rows id j f (c ∷ cs) h = ground (arith, h c, find-update_rows id j f cs h)

pub In-find :
    (j : ℕ) (c : Check) (cs : List Check)
    → find (λ (c : Check). c.id == j) cs ≡ some c
    → In c cs × (c.id ≡ j)
In-find j c [] h = cc
In-find j c (x ∷ xs) h = elim (Bool-cases (x.id == j)) [
  | inl e ↦ let same : x ≡ c = ground arith in (inl same, rw (← same) (ground arith))
  | inr e ↦ let (m, k) = In-find j c xs (rw e at h) in (inr m, k)
]

-- The row that a key finds has that key.
pub find_check-id : (j : ℕ) (c : Check) (db : Db) → find_check j db ≡ some c → c.id ≡ j
unfolding find_check
find_check-id j c db h = (In-find j c db.checks h).1

-- How every row reads after one row is changed.
pub find-update_check :
    (id j : ℕ) (f : Check → Check) (db : Db)
    → ((c : Check) → (f c).id ≡ c.id)
    → find_check j (update_check id f db)
      ≡ elim (find_check j db) [ none ↦ none | some c ↦ some (if id == j then f c else c) ]
unfolding find_check update_check
find-update_check id j f db h = find-update_rows id j f db.checks h

-- A new event changes no row.
pub find-create_event :
    (j : ℕ) (row : ℕ → CheckEvent) (db : Db) → find_check j (create_event row db) ≡ find_check j db
unfolding find_check create_event
find-create_event j row db = refl

-- The rows have distinct keys: each row is the one that its key finds.
abbrev pub Keyed : Db → Type 0
Keyed db = (c : Check) → In c db.checks → find_check c.id db ≡ some c

In-update_rows :
    (id : ℕ) (f : Check → Check) (c : Check) (cs : List Check)
    → In c (update_rows id f cs)
    → (d : Check) × In d cs × (c ≡ (if d.id == id then f d else d))
unfolding update_rows
In-update_rows id f c [] h = absurd h
In-update_rows id f c (x ∷ xs) h = elim h [
  | inl e ↦ (x, inl refl, sym e)
  | inr m ↦ let (d, k, e) = In-update_rows id f c xs m in (d, inr k, e)
]

-- Distinct keys stay distinct.
pub Keyed-update_check :
    (id : ℕ) (f : Check → Check) (db : Db)
    → ((c : Check) → (f c).id ≡ c.id)
    → Keyed db
    → Keyed (update_check id f db)
Keyed-update_check id f db h keyed c m =
    let (d, k, e) = In-update_rows id f c db.checks (unfold update_check in m) in
    ground
      (arith, h d, keyed d k, find-update_check id c.id f db h, find-update_check id d.id f db h)
