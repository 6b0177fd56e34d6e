-- ===== src/Tests/Names.antt =====
-- Slugs of concrete names.
use systemvitals.Base.{◌≡◌, refl, true, some, List, [], ◌∷◌}
use systemvitals.Base.Text.{Text, codes}
use systemvitals.Slug.{
  trim_hyphens, trim_end_hyphens, trim_start_hyphens, hyphenate, fold_text, is_valid_slug,
  is_slug_char, slugify, unique_slug,
}
use systemvitals.Slug.Shape.{slugify_valid}
use systemvitals.Slug.Series.{IsFirstFree, unique_slug_total}

slugify_runs : slugify (λ s. s) (λ s. s) (codes " nightly  back-up! ") ≡ codes "nightly-back-up"
unfolding slugify trim_hyphens trim_end_hyphens trim_start_hyphens hyphenate fold_text is_slug_char
slugify_runs = refl

slugify_valid_example : is_valid_slug (slugify (λ s. s) (λ s. s) (codes "back-up!")) ≡ true
slugify_valid_example = slugify_valid (λ s. s) (λ s. s) (codes "back-up!")

abbrev used : List Text
used = codes "job" ∷ codes "job-2" ∷ []

unique_slug_total_example :
    (slug : Text) × (unique_slug (codes "job") used ≡ some slug)
    × IsFirstFree (codes "job") used slug
unique_slug_total_example = unique_slug_total (codes "job") used
