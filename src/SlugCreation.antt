-- ===== src/SlugCreation.antt =====
-- api/src/common/create-with-unique-slug.ts. The list of taken slugs and the insertion of an attempt are
-- functions of its number, since others may commit between attempts.
use systemvitals.Base.{ℕ, zero, suc, ◌≡◌, Bool, some, List, if◌then◌else◌, Bool-cases, inl, inr}
use systemvitals.Base.Text.{Text}
use systemvitals.Base.Result.{
  Result, ok, err, require, ◌>>=◌, Accepts, Accepts->>=, Accepts-require,
}
use systemvitals.Slug.{unique_slug}

abbrev pub max_slug_create_attempts : ℕ
max_slug_create_attempts = 20

-- The loop from an attempt on, with the number of attempts left. `is_conflict` is `isSlugUniqueConflict`.
unfoldable pub create_from :
    {E A : Type 0}
    → (E → Bool)
    → E
    → Text
    → (ℕ → Result E (List Text))
    → (ℕ → Text → Result E A)
    → ℕ
    → ℕ
    → Result E A
create_from is_conflict exhausted base load create attempt zero = err exhausted
create_from is_conflict exhausted base load create attempt (suc more) =
    let rest = create_from is_conflict exhausted base load create (suc attempt) more in
    load attempt >>= λ taken. require (unique_slug base taken) exhausted >>= λ slug.
    elim (create attempt slug) [ ok a ↦ ok a | err e ↦ if is_conflict e then rest else err e ]

unfoldable pub create_with_unique_slug :
    {E A : Type 0}
    → (E → Bool)
    → E
    → Text
    → (ℕ → Result E (List Text))
    → (ℕ → Text → Result E A)
    → Result E A
unfolding create_from
create_with_unique_slug is_conflict exhausted base load create =
    create_from is_conflict exhausted base load create 1 max_slug_create_attempts

module _ {E A : Type 0} (P : A → Type 0) (is_conflict : E → Bool) (exhausted : E)
    (base : Text) where
  Accepts-conflict :
      (r rest : Result E A)
      → Accepts P r
      → Accepts P rest
      → Accepts P (elim r [ ok a ↦ ok a | err e ↦ if is_conflict e then rest else err e ])
  Accepts-conflict (ok a) rest h k = h
  Accepts-conflict (err e) rest h k = elim (Bool-cases (is_conflict e)) [
    | inl c ↦ rw c k
    | inr c ↦ rw c tt
  ]

  Accepts-create_from :
      (load : ℕ → Result E (List Text)) (create : ℕ → Text → Result E A)
      → ((n : ℕ) (taken : List Text) (slug : Text)
          → load n ≡ ok taken
          → unique_slug base taken ≡ some slug
          → Accepts P (create n slug))
      → (attempt more : ℕ)
      → Accepts P (create_from is_conflict exhausted base load create attempt more)
  unfolding create_from
  Accepts-create_from load create h attempt zero = tt
  Accepts-create_from load create h attempt (suc more) = Accepts->>= P (load attempt) _ λ taken e.
      Accepts-require P (unique_slug base taken) exhausted _ λ slug f.
        Accepts-conflict (create attempt slug) _ (h attempt taken slug e f)
          (Accepts-create_from load create h (suc attempt) more)

  -- What every insertion of a free slug gives, the creation gives.
  pub Accepts-create_with_unique_slug :
      (load : ℕ → Result E (List Text)) (create : ℕ → Text → Result E A)
      → ((n : ℕ) (taken : List Text) (slug : Text)
          → load n ≡ ok taken
          → unique_slug base taken ≡ some slug
          → Accepts P (create n slug))
      → Accepts P (create_with_unique_slug is_conflict exhausted base load create)
  unfolding create_with_unique_slug
  Accepts-create_with_unique_slug load create h =
      Accepts-create_from load create h 1 max_slug_create_attempts
