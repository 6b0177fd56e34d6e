-- ===== src/Organizations/Created.antt =====
-- What the creation of an organization has tested and written.
use mathlib.Core.Path.{subst}
use systemvitals.Base.{ℕ, ◌≡◌, refl, sym, inl, inr, ◌⊎◌, true, false, not, some, arith, map}
use systemvitals.Base.Text.{Text, truthy, trim}
use systemvitals.Base.Table.{find_key}
use systemvitals.Base.Result.{
  map_err, map_err-ok, Result, ok, err, Accepts, Accepts->>=, Accepts-guard, Accepts-require,
  Accepts-map, Accepts-at,
}
use systemvitals.Tenancy.{App, account_of}
use systemvitals.Plan.{assert_can_add_organization}
use systemvitals.Members.Ownership.{IsOwned}
use systemvitals.Slug.{is_taken, unique_slug}
use systemvitals.SlugCreation.{Accepts-create_with_unique_slug}
use systemvitals.Organizations.{
  NewKeys, not_entitled, base_slug, add_organization, create_commit, CreateAttempt,
  create_organization,
}
use systemvitals.Organizations.Owners.{IsNew, add_organization-IsOwned}

-- What an accepted creation has done.
pub record IsCreated (keys : NewKeys) (user : ℕ) (name base : Text) (now : ℕ)
    (attempts : ℕ → CreateAttempt) (next : App) : Type 0 where
  pub attempt : ℕ
  pub slug : Text
  pub named : truthy (trim name) ≡ true
  pub free : unique_slug base (map (λ o. o.slug) (attempts attempt).read.organizations) ≡ some slug
  pub accepted : create_commit keys user (trim name) now (attempts attempt).locked slug ≡ ok next

Accepts-self : {E A : Type 0} (r : Result E A) → Accepts (λ a. r ≡ ok a) r
Accepts-self (ok a) = refl
Accepts-self (err e) = tt

pub create_organization-IsCreated :
    (nfd lower : Text → Text) (keys : NewKeys) (user : ℕ) (name : Text) (now : ℕ)
    (attempts : ℕ → CreateAttempt)
    → Accepts
        (IsCreated keys user name (base_slug nfd lower (trim name)) now attempts)
        (create_organization nfd lower keys user name now attempts)
unfolding create_organization
create_organization-IsCreated nfd lower keys user name now attempts =
    let Made : App → Type 0 =
      IsCreated keys user name (base_slug nfd lower (trim name)) now attempts in
    Accepts-guard Made (truthy (trim name)) _ _ λ named.
      Accepts-create_with_unique_slug Made _ _ _ _ _ λ n taken slug loaded free.
        let same : map (λ o. o.slug) (attempts n).read.organizations ≡ taken = ground arith in
        Accepts-map
          (λ next. create_commit keys user (trim name) now (attempts n).locked slug ≡ ok next) Made
          (create_commit keys user (trim name) now (attempts n).locked slug)
          (λ next accepted. record {
            attempt = n;
            slug = slug;
            named = named;
            free = rw same free;
            accepted = accepted;
          })
          (Accepts-self (create_commit keys user (trim name) now (attempts n).locked slug))

-- What the transaction of a creation tests and writes.
pub record IsAdded (keys : NewKeys) (user : ℕ) (name slug : Text) (now : ℕ) (app next : App)
    : Type 0 where
  pub shape : next ≡ add_organization keys user name slug now app
  pub untaken : is_taken slug (map (λ o. o.slug) app.organizations) ≡ false
  pub allowed : assert_can_add_organization (account_of user app) ≡ ok tt

pub create_commit-IsAdded :
    (keys : NewKeys) (user : ℕ) (name : Text) (now : ℕ) (app : App) (slug : Text)
    → Accepts (IsAdded keys user name slug now app) (create_commit keys user name now app slug)
unfolding create_commit
create_commit-IsAdded keys user name now app slug =
    Accepts->>= _ (map_err not_entitled (assert_can_add_organization (account_of user app))) _
      λ u can. Accepts-require _ (find_key (λ u. u.id) user app.users) _ _ λ creator _.
        Accepts-guard _ (not (is_taken slug (map (λ o. o.slug) app.organizations))) _ _ λ new.
          let added : IsAdded keys user name slug now app
              (add_organization keys user name slug now app) =
            record {
              shape = refl;
              untaken = ground arith;
              allowed = map_err-ok not_entitled _ u can;
            } in
          added

-- The attempts of a creation: each ran on this database, or was refused.
abbrev pub Ran : NewKeys → ℕ → Text → ℕ → (ℕ → CreateAttempt) → App → Type 0
Ran keys user name now attempts app =
    (n : ℕ)
    → ((attempts n).locked ≡ app)
      ⊎ ((slug : Text) (next : App)
          → create_commit keys user (trim name) now (attempts n).locked slug ≡ ok next
          → ⊥)

pub create_organization-IsOwned :
    (nfd lower : Text → Text) (keys : NewKeys) (user : ℕ) (name : Text) (now : ℕ)
    (attempts : ℕ → CreateAttempt) (app : App)
    → Ran keys user name now attempts app
    → IsNew keys app
    → IsOwned app
    → Accepts IsOwned (create_organization nfd lower keys user name now attempts)
create_organization-IsOwned nfd lower keys user name now attempts app ran fresh h =
    Accepts-map (IsCreated keys user name (base_slug nfd lower (trim name)) now attempts) IsOwned
      (create_organization nfd lower keys user name now attempts)
      (λ next made. elim (ran made.attempt) [
        | inl here ↦
            let accepted : create_commit keys user (trim name) now app made.slug ≡ ok next =
              subst (λ a. create_commit keys user (trim name) now a made.slug ≡ ok next) here
                made.accepted in
            let added : IsAdded keys user (trim name) made.slug now app next =
              Accepts-at (IsAdded keys user (trim name) made.slug now app) _ next
                (create_commit-IsAdded keys user (trim name) now app made.slug) accepted in
            subst IsOwned (sym added.shape)
              (add_organization-IsOwned keys user (trim name) made.slug now app fresh h)
        | inr refused ↦ absurd (refused made.slug next made.accepted)
      ])
      (create_organization-IsCreated nfd lower keys user name now attempts)
