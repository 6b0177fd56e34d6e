-- ===== src/Slug/Shape.antt =====
-- What the steps of `slugify` leave: letters, digits and single hyphens, none at either end.
use systemvitals.Base.{
  ℕ, zero, suc, ◌≤◌, ◌≡◌, refl, inl, inr, Bool, true, false, ◌&&◌, ◌||◌, not, [], ◌∷◌, arith,
  if◌then◌else◌, le→leb, ◌==◌, length, take, Bool-cases,
}
use systemvitals.Base.Text.{Text, truthy}
use systemvitals.Slug.{
  max_slug_length, fallback_slug, is_slug_char, slug_runs, is_valid_slug, fold_text, hyphenate,
  trim_start_hyphens, trim_end_hyphens, trim_hyphens, cons_unless_hyphen, or_fallback, slugify,
}

-- Letters, digits and single hyphens; `after` tells whether a hyphen stands before.
unfoldable pub is_loose : Bool → Text → Bool
is_loose after [] = true
is_loose after (c ∷ s) =
    let in_run = is_loose false s in
    let gap = is_loose true s in
    if is_slug_char c then in_run else if not after && (c == b'-') then gap else false

hyphen_lem : is_slug_char b'-' ≡ false
unfolding is_slug_char
hyphen_lem = refl

pub is_loose-weaken : (s : Text) → is_loose true s ≡ true → is_loose false s ≡ true
unfolding is_loose
is_loose-weaken [] h = refl
is_loose-weaken (c ∷ s) h = ground arith

is_loose-hyphenate : (in_gap : Bool) (s : Text) → is_loose in_gap (hyphenate in_gap s) ≡ true
unfolding is_loose hyphenate
is_loose-hyphenate in_gap [] = refl
is_loose-hyphenate true (c ∷ s) =
    ground (arith, is_loose-hyphenate false s, is_loose-hyphenate true s)
is_loose-hyphenate false (c ∷ s) =
    ground (arith, hyphen_lem, is_loose-hyphenate false s, is_loose-hyphenate true s)

is_loose-trim_start :
    (after : Bool) (s : Text)
    → is_loose after s ≡ true
    → is_loose true (trim_start_hyphens s) ≡ true
unfolding is_loose trim_start_hyphens
is_loose-trim_start after [] h = refl
is_loose-trim_start after (c ∷ s) h =
    ground (arith, hyphen_lem, is_loose-trim_start true s, is_loose-trim_start false s)

pub cons_char : (c : ℕ) (t : Text) → (c == b'-') ≡ false → cons_unless_hyphen c t ≡ c ∷ t
cons_char c [] h = rw h refl
cons_char c (d ∷ t) h = refl

length-cons_unless_hyphen : (c : ℕ) (t : Text) → length (cons_unless_hyphen c t) ≤ suc (length t)
length-cons_unless_hyphen c [] = ground arith
length-cons_unless_hyphen c (d ∷ t) = omega arith

pub char-ne-hyphen : (c : ℕ) → is_slug_char c ≡ true → (c == b'-') ≡ false
unfolding is_slug_char
char-ne-hyphen c h = ground arith

-- A hyphen that is kept has something behind it.
slug_runs-hyphen :
    (c : ℕ) (t : Text)
    → is_slug_char c ≡ false
    → (c == b'-') ≡ true
    → (truthy t ≡ true → slug_runs false t ≡ true)
    → slug_runs true (cons_unless_hyphen c t) ≡ true
unfolding slug_runs
slug_runs-hyphen c [] n e h = rw e refl
slug_runs-hyphen c (d ∷ t) n e h = rw (n, e) (h refl)

-- Without its trailing hyphens a loose text is made of runs.
slug_runs-trim_end :
    (after : Bool) (s : Text)
    → is_loose after s ≡ true
    → (truthy (trim_end_hyphens s) || not after) ≡ true
    → slug_runs (not after) (trim_end_hyphens s) ≡ true
unfolding is_loose trim_end_hyphens slug_runs
slug_runs-trim_end true [] h k = ground arith
slug_runs-trim_end false [] h k = refl
slug_runs-trim_end after (c ∷ s) h k = elim (Bool-cases (is_slug_char c)) [
  | inl e ↦
      rw (cons_char c (trim_end_hyphens s) (char-ne-hyphen c e), e)
        (slug_runs-trim_end false s (ground arith) (ground arith))
  | inr e ↦
      let here : after ≡ false = ground arith in
      rw here (
        slug_runs-hyphen c (trim_end_hyphens s) e (ground arith)
          λ t. slug_runs-trim_end true s (ground arith) (ground arith))
]

pub is_loose-take :
    (n : ℕ) (after : Bool) (s : Text) → is_loose after s ≡ true → is_loose after (take n s) ≡ true
unfolding is_loose
is_loose-take zero after s h = refl
is_loose-take (suc n) after [] h = refl
is_loose-take (suc n) after (c ∷ s) h =
    ground (arith, is_loose-take n true s, is_loose-take n false s)

pub length-take : (n : ℕ) (s : Text) → length (take n s) ≤ n
length-take zero s = omega arith
length-take (suc n) [] = omega arith
length-take (suc n) (c ∷ s) = omega (arith, length-take n s)

length-trim_start : (s : Text) → length (trim_start_hyphens s) ≤ length s
unfolding trim_start_hyphens
length-trim_start [] = omega arith
length-trim_start (c ∷ s) = ground (arith, length-trim_start s)

length-trim_end : (s : Text) → length (trim_end_hyphens s) ≤ length s
unfolding trim_end_hyphens
length-trim_end [] = omega arith
length-trim_end (c ∷ s) =
    omega (arith, length-trim_end s, length-cons_unless_hyphen c (trim_end_hyphens s))

pub length-trim_hyphens : (s : Text) → length (trim_hyphens s) ≤ length s
unfolding trim_hyphens
length-trim_hyphens s = omega (arith, length-trim_end (trim_start_hyphens s), length-trim_start s)

pub slug_runs-trim_hyphens :
    (after : Bool) (s : Text)
    → is_loose after s ≡ true
    → truthy (trim_hyphens s) ≡ true
    → slug_runs false (trim_hyphens s) ≡ true
unfolding trim_hyphens
slug_runs-trim_hyphens after s h k =
    slug_runs-trim_end true (trim_start_hyphens s) (is_loose-trim_start after s h) (ground arith)

fallback_valid : is_valid_slug fallback_slug ≡ true
unfolding is_valid_slug slug_runs is_slug_char
fallback_valid = refl

take_valid :
    (s : Text)
    → is_loose false s ≡ true
    → is_valid_slug (or_fallback (trim_hyphens (take max_slug_length s))) ≡ true
unfolding is_valid_slug
take_valid s h = elim (Bool-cases (truthy (trim_hyphens (take max_slug_length s)))) [
  | inl e ↦
      rw
        (
          e,
          slug_runs-trim_hyphens false (take max_slug_length s)
              (is_loose-take max_slug_length false s h) e,
          le→leb (length (trim_hyphens (take max_slug_length s))) max_slug_length (
              omega (
                arith,
                length-trim_hyphens (take max_slug_length s),
                length-take max_slug_length s,
              )),
        )
        refl
  | inr e ↦ rw e fallback_valid
]

pub slug_runs-is_loose :
    (inside : Bool) (s : Text) → slug_runs inside s ≡ true → is_loose (not inside) s ≡ true
unfolding slug_runs is_loose
slug_runs-is_loose inside [] h = refl
slug_runs-is_loose inside (c ∷ s) h =
    ground (arith, slug_runs-is_loose true s, slug_runs-is_loose false s)

-- Whatever text comes in, and whatever Unicode normalization and lower case make of it, `slugify` gives
-- a valid slug: at most 60 characters, letters a to z, digits and single hyphens, none at either end.
pub slugify_valid :
    (nfd lower : Text → Text) (input : Text) → is_valid_slug (slugify nfd lower input) ≡ true
unfolding slugify
slugify_valid nfd lower input =
    let hyphenated : Text = hyphenate false (fold_text nfd lower input) in
    elim (Bool-cases (truthy (trim_hyphens hyphenated))) [
      | inl e ↦ rw e (
          take_valid (trim_hyphens hyphenated) (
            is_loose-weaken (trim_hyphens hyphenated) (
              slug_runs-is_loose false (trim_hyphens hyphenated) (
                slug_runs-trim_hyphens false hyphenated
                  (is_loose-hyphenate false (fold_text nfd lower input)) e))))
      | inr e ↦ rw e fallback_valid
    ]
