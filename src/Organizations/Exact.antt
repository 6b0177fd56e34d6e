-- ===== src/Organizations/Exact.antt =====
-- What an accepted request on an organization has tested, and what it leaves.
use systemvitals.Base.{ℕ, ◌≡◌, Bool, true, false, not, ◌&&◌, ◌||◌, [], ◌∷◌, ◌++◌, map}
use systemvitals.Base.Text.{Text, codes, truthy, trim, is_digit}
use systemvitals.Base.Result.{ok}
use systemvitals.Tenancy.{App, account_of}
use systemvitals.Plan.{assert_can_add_organization}
use systemvitals.Slug.{is_valid_slug, is_taken}
use systemvitals.Organizations.{
  NewKeys, CreateAttempt, add_organization, is_reserved_org_slug, reserved_org_slugs,
}

-- A valid slug that is reserved and would not serve with `-org` behind it: there is none.
is_stuck : Text → Bool
is_stuck slug =
    is_valid_slug slug
    && (is_taken (slug ++ codes "-org") reserved_org_slugs
        || not (is_valid_slug (slug ++ codes "-org")))

ends_in_digit : Text → Bool
ends_in_digit [] = false
ends_in_digit (c ∷ []) = is_digit c
ends_in_digit (c ∷ d ∷ s) = ends_in_digit (d ∷ s)

-- What is documented of `toLowerCase`: it leaves small letters, digits and hyphens alone.
abbrev pub KeepsSlugs : (Text → Text) → Type 0
KeepsSlugs lower = (slug : Text) → is_valid_slug slug ≡ true → lower slug ≡ slug

-- What the creation of an organization has tested and written.
pub record IsFounded (lower : Text → Text) (keys : NewKeys) (user : ℕ) (name : Text) (now : ℕ)
    (attempts : ℕ → CreateAttempt) (next : App) : Type 0 where
  pub attempt : ℕ
  pub slug : Text
  pub shape : next ≡ add_organization keys user (trim name) slug now (attempts attempt).locked
  pub named : truthy (trim name) ≡ true
  pub valid : is_valid_slug slug ≡ true
  pub unreserved : is_reserved_org_slug lower slug ≡ false
  pub untaken : is_taken slug (map (λ o. o.slug) (attempts attempt).locked.organizations) ≡ false
  pub allowed : assert_can_add_organization (account_of user (attempts attempt).locked) ≡ ok tt
