-- ===== src/Slug.antt =====
-- api/src/common/slug.ts and create-with-unique-slug.ts: slugs of organizations, projects and checks.
-- `nfd` is `normalize('NFD')` and `lower` is `toLowerCase`, on UTF-16 code units.
pub mod Shape
pub mod Series
use systemvitals.Base.{
  ℕ, zero, suc, ◌+◌, ◌-◌, ◌≡◌, Bool, true, false, ◌&&◌, ◌||◌, not, Option, none, some, List, [],
  ◌∷◌, ◌++◌, if◌then◌else◌, leb, ◌==◌, length, take, any, filter,
}
use systemvitals.Base.Text.{Text, codes, text_eq, is_digit, truthy}
use systemvitals.Base.Decimal.{decimal}
use systemvitals.Base.Result.{Result, ok, err}

abbrev pub max_slug_length : ℕ
max_slug_length = 60

abbrev pub fallback_slug : Text
fallback_slug = codes "untitled"

unfoldable pub is_slug_char : ℕ → Bool
is_slug_char c = (leb b'a' c && leb c b'z') || is_digit c

-- `SLUG_PATTERN`, from inside a run of letters and digits (`true`) or where one must begin.
unfoldable pub slug_runs : Bool → Text → Bool
slug_runs inside [] = inside
slug_runs inside (c ∷ s) =
    let in_run = slug_runs true s in
    let at_start = slug_runs false s in
    if is_slug_char c then in_run else if inside && (c == b'-') then at_start else false

unfoldable pub is_valid_slug : Text → Bool
is_valid_slug slug = leb (length slug) max_slug_length && slug_runs false slug

-- `NON_DECOMPOSING_LATIN`
unfoldable pub transliterate : ℕ → Text
transliterate c =
    if (c == 0xF8) || (c == 0xD8)
    then codes "o"
    else if (c == 0x142) || (c == 0x141)
    then codes "l"
    else if (c == 0x111) || (c == 0x110) || (c == 0xF0) || (c == 0xD0)
    then codes "d"
    else if (c == 0xFE) || (c == 0xDE)
    then codes "th"
    else if c == 0xDF
    then codes "ss"
    else if (c == 0xE6) || (c == 0xC6)
    then codes "ae"
    else if (c == 0x153) || (c == 0x152)
    then codes "oe"
    else if c == 0x131
    then codes "i"
    else c ∷ []

unfoldable pub transliterate_non_decomposing : Text → Text
unfolding transliterate
transliterate_non_decomposing [] = []
transliterate_non_decomposing (c ∷ s) = transliterate c ++ transliterate_non_decomposing s

-- The combining marks that NFD splits off.
abbrev pub is_combining : ℕ → Bool
is_combining c = leb 0x300 c && leb c 0x36F

unfoldable pub fold_text : (Text → Text) → (Text → Text) → Text → Text
unfolding transliterate_non_decomposing
fold_text nfd lower input =
    lower (filter (λ c. not (is_combining c)) (nfd (transliterate_non_decomposing input)))

-- `replace(/[^a-z0-9]+/g, '-')`: one hyphen for each run of other characters, `true` inside such a run.
unfoldable pub hyphenate : Bool → Text → Text
hyphenate in_gap [] = []
hyphenate in_gap (c ∷ s) =
    let kept = c ∷ hyphenate false s in
    let gap = hyphenate true s in
    if is_slug_char c then kept else if in_gap then gap else b'-' ∷ gap

unfoldable pub trim_start_hyphens : Text → Text
trim_start_hyphens [] = []
trim_start_hyphens (c ∷ s) = let rest = trim_start_hyphens s in if c == b'-' then rest else c ∷ s

abbrev pub cons_unless_hyphen : ℕ → Text → Text
cons_unless_hyphen c [] = if c == b'-' then [] else c ∷ []
cons_unless_hyphen c (d ∷ t) = c ∷ d ∷ t

unfoldable pub trim_end_hyphens : Text → Text
trim_end_hyphens [] = []
trim_end_hyphens (c ∷ s) = cons_unless_hyphen c (trim_end_hyphens s)

unfoldable pub trim_hyphens : Text → Text
trim_hyphens s = trim_end_hyphens (trim_start_hyphens s)

abbrev pub or_fallback : Text → Text
or_fallback s = if truthy s then s else fallback_slug

unfoldable pub slugify : (Text → Text) → (Text → Text) → Text → Text
slugify nfd lower input =
    let hyphenated = trim_hyphens (hyphenate false (fold_text nfd lower input)) in
    if truthy hyphenated
    then or_fallback (trim_hyphens (take max_slug_length hyphenated))
    else fallback_slug

-- `used.has(slug)`
unfoldable pub is_taken : Text → List Text → Bool
is_taken slug taken = any (λ t. text_eq t slug) taken

abbrev pub suffix : ℕ → Text
suffix n = b'-' ∷ decimal n

-- `slice(0, room)` for a suffix shorter than the longest slug.
unfoldable pub candidate : Text → ℕ → Text
candidate base n = trim_hyphens (take (max_slug_length - length (suffix n)) base) ++ suffix n

-- The loop of `uniqueSlug` from a number on; `none` where the rounds run out.
unfoldable pub unique_from : ℕ → ℕ → Text → List Text → Option Text
unique_from zero n base taken = none
unique_from (suc rounds) n base taken =
    let rest = unique_from rounds (suc n) base taken in
    if is_taken (candidate base n) taken then rest else some (candidate base n)

-- One round more than there are taken slugs is enough.
unfoldable pub unique_slug : Text → List Text → Option Text
unfolding unique_from
unique_slug base taken =
    if is_taken base taken then unique_from (suc (length taken)) 2 base taken else some base
