-- ===== src/Slug/Series.antt =====
-- The series `base`, `base-2`, `base-3`, … of `uniqueSlug` comes to a free slug.
use mathlib.Core.Path.{subst}
use systemvitals.Base.{
  ℕ, zero, suc, ◌+◌, ◌-◌, ◌*◌, ◌≤◌, ◌<◌, ◌≡◌, ◌⊎◌, refl, sym, ◌∙◌, ap, inl, inr, Bool, true, false,
  not, some, List, [], ◌∷◌, ◌++◌, map, arith, if◌then◌else◌, le→leb, ◌==◌, ==_refl, length,
  length-append, take, elem, filter, Bool-cases, In,
}
use systemvitals.Base.Text.{Text, text_eq, text_eq_iff, all_digits, number_from, truthy}
use systemvitals.Base.Decimal.{
  decimal, number_from-decimal, all_digits-decimal, length-decimal, decimal-ne-nil, power_of_ten,
}
use systemvitals.Slug.{
  max_slug_length, is_slug_char, slug_runs, is_valid_slug, trim_hyphens, trim_start_hyphens,
  trim_end_hyphens, is_taken, suffix, candidate, unique_from, unique_slug,
}
use systemvitals.Slug.Shape.{
  is_loose-take, is_loose-weaken, slug_runs-is_loose, slug_runs-trim_hyphens, length-take,
  length-trim_hyphens, cons_char, char-ne-hyphen,
}

-- The number behind the last hyphen.
tail_number : ℕ → Text → ℕ
tail_number n [] = n
tail_number n (c ∷ s) = tail_number (if c == b'-' then 0 else n * 10 + (c - b'0')) s

tail_number-digits : (n : ℕ) (s : Text) → all_digits s ≡ true → tail_number n s ≡ number_from n s
unfolding tail_number number_from
tail_number-digits n [] h = refl
tail_number-digits n (c ∷ s) h =
    let char : (c == b'-') ≡ false = ground arith in
    rw char (tail_number-digits (n * 10 + (c - b'0')) s (ground arith))

tail_number-append : (n k : ℕ) (t : Text) → tail_number n (t ++ suffix k) ≡ k
unfolding tail_number
tail_number-append n k [] =
    tail_number-digits 0 (decimal k) (all_digits-decimal k) ∙ number_from-decimal k
tail_number-append n k (c ∷ t) =
    tail_number-append (if c == b'-' then 0 else n * 10 + (c - b'0')) k t

-- A candidate tells its number, however much of the base is left.
tail_number-candidate : (base : Text) (k : ℕ) → tail_number 0 (candidate base k) ≡ k
unfolding candidate
tail_number-candidate base k =
    tail_number-append 0 k (trim_hyphens (take (max_slug_length - length (suffix k)) base))

elem-taken :
    (s : Text) (taken : List Text)
    → is_taken s taken ≡ true
    → elem (tail_number 0 s) (map (tail_number 0) taken) ≡ true
unfolding is_taken
elem-taken s [] h = ground arith
elem-taken s (t ∷ taken) h = elim (Bool-cases (text_eq t s)) [
  | inl e ↦
      let same : t ≡ s = (text_eq_iff t s).0 e in
      rw (ap (tail_number 0) same, ==_refl (tail_number 0 s)) refl
  | inr e ↦ ground (arith, elem-taken s taken)
]

elem-without :
    (a b : ℕ) (xs : List ℕ)
    → (a == b) ≡ false
    → elem b xs ≡ true
    → elem b (filter (λ x. not (x == a)) xs) ≡ true
elem-without a b [] n h = ground arith
elem-without a b (x ∷ xs) n h = ground (arith, elem-without a b xs)

length-without-le : (a : ℕ) (xs : List ℕ) → length (filter (λ x. not (x == a)) xs) ≤ length xs
length-without-le a [] = omega arith
length-without-le a (x ∷ xs) = ground (arith, length-without-le a xs)

length-without :
    (a : ℕ) (xs : List ℕ) → elem a xs ≡ true → length (filter (λ x. not (x == a)) xs) < length xs
length-without a [] h = ground arith
length-without a (x ∷ xs) h = ground (arith, length-without a xs, length-without-le a xs)

-- A list that holds `k` numbers in a row has at least `k` places.
pigeonhole :
    (k lo : ℕ) (xs : List ℕ) → ((i : ℕ) → lo ≤ i → i < lo + k → elem i xs ≡ true) → k ≤ length xs
pigeonhole zero lo xs h = omega arith
pigeonhole (suc k) lo xs h =
    let rest : k ≤ length (filter (λ x. not (x == lo)) xs) =
      pigeonhole k (suc lo) (filter (λ x. not (x == lo)) xs)
        λ i a b. elem-without lo i xs (ground arith) (h i (omega arith) (omega arith)) in
    omega (arith, length-without lo xs (h lo (omega arith) (omega arith)))

length-map : {A B : Type 0} (f : A → B) (xs : List A) → length (map f xs) ≡ length xs
length-map f [] = refl
length-map f (x ∷ xs) = ap suc (length-map f xs)

-- The number of the slug that the loop stops at.
pub record StopsAt (base : Text) (taken : List Text) (n rounds : ℕ) (k : ℕ) : Type 0 where
  pub from : n ≤ k
  pub below : k < n + rounds
  pub result : unique_from rounds n base taken ≡ some (candidate base k)
  pub free : is_taken (candidate base k) taken ≡ false
  pub passed : (i : ℕ) → n ≤ i → i < k → is_taken (candidate base i) taken ≡ true

abbrev AllTaken : Text → List Text → ℕ → ℕ → Type 0
AllTaken base taken n rounds =
    (i : ℕ) → n ≤ i → i < n + rounds → is_taken (candidate base i) taken ≡ true

unique_from_cases :
    (base : Text) (taken : List Text) (rounds n : ℕ)
    → ((k : ℕ) × StopsAt base taken n rounds k) ⊎ AllTaken base taken n rounds
unfolding unique_from
unique_from_cases base taken zero n = inr λ i a b. absurd (omega arith)
unique_from_cases base taken (suc rounds) n =
    elim (Bool-cases (is_taken (candidate base n) taken)) [
      | inr e ↦ inl (
        n,
        record {
          from = omega arith;
          below = omega arith;
          result = rw e refl;
          free = e;
          passed = λ i a b. absurd (omega arith);
        },
      )
      | inl e ↦ elim (unique_from_cases base taken rounds (suc n)) [
        | inl (k, s) ↦ inl (
          k,
          record {
            from = omega (arith, s.from);
            below = omega (arith, s.below);
            result = rw e s.result;
            free = s.free;
            passed = λ i a b. elim (Bool-cases (n == i)) [
              | inl same ↦
                  let it : n ≡ i = ground arith in
                  subst (λ j. is_taken (candidate base j) taken ≡ true) it e
              | inr other ↦ s.passed i (ground arith) b
            ];
          },
        )
        | inr all ↦ inr λ i a b. elim (Bool-cases (n == i)) [
          | inl same ↦
              let it : n ≡ i = ground arith in
              subst (λ j. is_taken (candidate base j) taken ≡ true) it e
          | inr other ↦ all i (ground arith) (omega arith)
        ]
      ]
    ]

unique_from_total :
    (base : Text) (taken : List Text) (n : ℕ)
    → (k : ℕ) × StopsAt base taken n (suc (length taken)) k
unique_from_total base taken n = elim (unique_from_cases base taken (suc (length taken)) n) [
  | inl s ↦ s
  | inr all ↦
      let many : suc (length taken) ≤ length (map (tail_number 0) taken) =
        pigeonhole (suc (length taken)) n (map (tail_number 0) taken) λ i a b.
          subst (λ j. elem j (map (tail_number 0) taken) ≡ true) (tail_number-candidate base i)
            (elem-taken (candidate base i) taken (all i a b)) in
      absurd (omega (arith, length-map (tail_number 0) taken))
]

slug_runs-append :
    (inside : Bool) (s t : Text)
    → slug_runs inside s ≡ true
    → slug_runs true t ≡ true
    → slug_runs inside (s ++ t) ≡ true
unfolding slug_runs
slug_runs-append inside [] t h k = ground arith
slug_runs-append inside (c ∷ s) t h k =
    ground (arith, slug_runs-append true s t, slug_runs-append false s t)

slug_runs-digits : (s : Text) → all_digits s ≡ true → slug_runs true s ≡ true
unfolding slug_runs is_slug_char
slug_runs-digits [] h = refl
slug_runs-digits (c ∷ s) h = ground (arith, slug_runs-digits s)

slug_runs-suffix_digits :
    (s : Text) → all_digits s ≡ true → (s ≡ [] → ⊥) → slug_runs true (b'-' ∷ s) ≡ true
unfolding slug_runs is_slug_char
slug_runs-suffix_digits [] h n = absurd (n refl)
slug_runs-suffix_digits (c ∷ s) h n = ground (arith, slug_runs-digits s)

-- A prefix of a slug does not vanish when its hyphens are trimmed.
trim-take-truthy :
    (room : ℕ) (base : Text)
    → slug_runs false base ≡ true
    → truthy (trim_hyphens (take (suc room) base)) ≡ true
unfolding slug_runs trim_hyphens trim_start_hyphens trim_end_hyphens
trim-take-truthy room [] h = ground arith
trim-take-truthy room (c ∷ s) h =
    let char : (c == b'-') ≡ false = char-ne-hyphen c (ground arith) in
    rw (char, cons_char c (trim_end_hyphens (take room s)) char) refl

candidate_runs :
    (base : Text) (k room : ℕ)
    → slug_runs false base ≡ true
    → slug_runs false (trim_hyphens (take (suc room) base) ++ suffix k) ≡ true
candidate_runs base k room h =
    slug_runs-append false (trim_hyphens (take (suc room) base)) (suffix k)
      (slug_runs-trim_hyphens false (take (suc room) base)
        (is_loose-take (suc room) false base
          (is_loose-weaken base (slug_runs-is_loose false base h)))
        (trim-take-truthy room base h))
      (slug_runs-suffix_digits (decimal k) (all_digits-decimal k) (decimal-ne-nil k))

candidate_valid :
    (base : Text) (k : ℕ)
    → is_valid_slug base ≡ true
    → k < power_of_ten 21
    → is_valid_slug (candidate base k) ≡ true
unfolding is_valid_slug candidate
candidate_valid base k h lt =
    let short : length (decimal k) ≤ 21 = length-decimal k 20 lt in
    let room : ℕ = max_slug_length - length (suffix k) in
    let some_room : max_slug_length - length (suffix k) ≡ suc (room - 1) = omega arith in
    let runs : slug_runs false
          (trim_hyphens (take (max_slug_length - length (suffix k)) base) ++ suffix k)
        ≡ true =
      subst (λ r. slug_runs false (trim_hyphens (take r base) ++ suffix k) ≡ true) (sym some_room)
        (candidate_runs base k (room - 1) (ground arith)) in
    let fits : length (trim_hyphens (take (max_slug_length - length (suffix k)) base) ++ suffix k)
        ≤ 60 =
      omega (
        arith,
        length-append {0} (trim_hyphens (take (max_slug_length - length (suffix k)) base))
            (suffix k),
        length-trim_hyphens (take (max_slug_length - length (suffix k)) base),
        length-take (max_slug_length - length (suffix k)) base,
      ) in
    rw (runs, le→leb _ _ fits) refl

is_taken-In : (s : Text) (taken : List Text) → is_taken s taken ≡ true → In s taken
unfolding is_taken
is_taken-In s [] h = ground arith
is_taken-In s (t ∷ taken) h = elim (Bool-cases (text_eq t s)) [
  | inl e ↦ inl ((text_eq_iff t s).0 e)
  | inr e ↦ inr (is_taken-In s taken (ground arith))
]

In-is_taken : (s : Text) (taken : List Text) → In s taken → is_taken s taken ≡ true
unfolding is_taken
In-is_taken s [] i = absurd i
In-is_taken s (t ∷ taken) (inl e) =
    let same : text_eq t s ≡ true = (text_eq_iff t s).1 e in ground arith
In-is_taken s (t ∷ taken) (inr i) = ground (arith, In-is_taken s taken i)

not-In : (s : Text) (taken : List Text) → is_taken s taken ≡ false → In s taken → ⊥
not-In s taken h i = let yes : is_taken s taken ≡ true = In-is_taken s taken i in ground arith

-- The base with a number behind it, cut so that both have 60 characters at most, without a hyphen at the
-- cut.
abbrev pub numbered : Text → ℕ → Text
numbered base k = trim_hyphens (take (60 - length (b'-' ∷ decimal k)) base) ++ (b'-' ∷ decimal k)

-- The slug of the series `base`, `base-2`, `base-3`, … that comes first among those that are not taken.
abbrev pub IsFirstFree : Text → List Text → Text → Type 0
IsFirstFree base taken slug =
    (In slug taken → ⊥)
    × ((slug ≡ base)
        ⊎ (In base taken
            × ((k : ℕ) × (2 ≤ k)
                × (slug ≡ numbered base k)
                × ((i : ℕ) → 2 ≤ i → i < k → In (numbered base i) taken))))

-- The search for a free slug ends after at most one round more than there are taken slugs, whatever the
-- base. The slug it gives is not taken. It is the base itself, or the base is taken and it is the
-- first of base-2, base-3 and so on that is not taken, where the base is cut to make room for the number.
pub unique_slug_total :
    (base : Text) (taken : List Text)
    → (slug : Text) × (unique_slug base taken ≡ some slug) × IsFirstFree base taken slug
unfolding unique_slug candidate
unique_slug_total base taken = elim (Bool-cases (is_taken base taken)) [
  | inr e ↦ (base, rw e refl, (not-In base taken e, inl refl))
  | inl e ↦
      let (k, s) = unique_from_total base taken 2 in
      (
        candidate base k,
        rw e s.result,
        (
          not-In (candidate base k) taken s.free,
          inr (
            is_taken-In base taken e,
            (k, s.from, refl, λ i a b. is_taken-In (candidate base i) taken (s.passed i a b)),
          ),
        ),
      )
]

-- From a valid base, and fewer than 10 ^ 20 taken slugs, the search gives a valid slug.
pub unique_slug_valid :
    (base : Text) (taken : List Text) (slug : Text)
    → is_valid_slug base ≡ true
    → length taken < power_of_ten 20
    → unique_slug base taken ≡ some slug
    → is_valid_slug slug ≡ true
unfolding unique_slug
unique_slug_valid base taken slug valid few h = elim (Bool-cases (is_taken base taken)) [
  | inr e ↦ let same : base ≡ slug = ground arith in subst (λ s. is_valid_slug s ≡ true) same valid
  | inl e ↦
      let (k, s) = unique_from_total base taken 2 in
      let found : unique_from (suc (length taken)) 2 base taken ≡ some (candidate base k) =
        s.result in
      let same : candidate base k ≡ slug = ground arith in
      subst (λ s. is_valid_slug s ≡ true) same
        (candidate_valid base k valid (omega (arith, s.below)))
]
