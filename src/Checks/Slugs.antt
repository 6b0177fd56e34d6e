-- ===== src/Checks/Slugs.antt =====
-- The tests on the slugs of a project, in terms of its checks.
use mathlib.Core.Path.{subst}
use systemvitals.Base.{
  ℕ, ◌≡◌, ◌≢◌, sym, inl, inr, Bool, true, false, not, ◌&&◌, List, [], ◌∷◌, map, arith, ◌==◌, any,
  filter, In, Bool-cases,
}
use systemvitals.Base.Text.{Text, text_eq, text_eq_iff}
use systemvitals.Schema.{Check, Db}
use systemvitals.Tenancy.{App}
use systemvitals.Checks.Operation.{slug_clash}
use systemvitals.Checks.Creation.{taken_check_slugs}

-- No check of the project but the one with the key `id` has the slug.
abbrev pub IsOnly : ℕ → Text → ℕ → List Check → Type 0
IsOnly project slug id checks =
    (c : Check) → In c checks → c.project_id ≡ project → c.slug ≡ slug → c.id ≡ id

-- No check of the project has the slug.
abbrev pub IsFree : ℕ → Text → List Check → Type 0
IsFree project slug checks = (c : Check) → In c checks → c.project_id ≡ project → c.slug ≢ slug

any-false-In :
    {A : Type 0} (p : A → Bool) (a : A) (xs : List A) → any p xs ≡ false → In a xs → p a ≡ false
any-false-In p a [] h i = absurd i
any-false-In p a (x ∷ xs) h (inl e) = subst (λ y. p y ≡ false) e (ground arith)
any-false-In p a (x ∷ xs) h (inr i) = any-false-In p a xs (ground arith) i

pub slug_clash-IsOnly :
    (project : ℕ) (slug : Text) (id : ℕ) (db : Db)
    → slug_clash project slug id db ≡ false
    → IsOnly project slug id db.checks
unfolding slug_clash
slug_clash-IsOnly project slug id db h c i p s =
    let no =
      any-false-In
        (λ (c : Check). c.project_id == project && text_eq c.slug slug && not (c.id == id)) c
        db.checks h i in
    let same : text_eq c.slug slug ≡ true = (text_eq_iff c.slug slug).1 s in ground arith

slugs-IsFree :
    (project : ℕ) (slug : Text) (checks : List Check)
    → any
        (λ s. text_eq s slug)
        (map (λ c. c.slug) (filter (λ (c : Check). c.project_id == project) checks))
      ≡ false
    → IsFree project slug checks
slugs-IsFree project slug [] h c i p s = absurd i
slugs-IsFree project slug (x ∷ xs) h c i p s = elim (Bool-cases (x.project_id == project)) [
  | inl e ↦ elim i [
    | inl here ↦
        let same : text_eq x.slug slug ≡ true =
          (text_eq_iff x.slug slug).1 (subst (λ (y : Check). y.slug ≡ slug) (sym here) s) in
        ground arith
    | inr there ↦ slugs-IsFree project slug xs (ground arith) c there p s
  ]
  | inr e ↦ elim i [
    | inl here ↦
        let of : x.project_id ≡ project =
          subst (λ (y : Check). y.project_id ≡ project) (sym here) p in
        ground arith
    | inr there ↦ slugs-IsFree project slug xs (ground arith) c there p s
  ]
]

pub taken-IsFree :
    (project : ℕ) (slug : Text) (app : App)
    → any (λ s. text_eq s slug) (taken_check_slugs project app) ≡ false
    → IsFree project slug app.monitor.checks
taken-IsFree project slug app h = slugs-IsFree project slug app.monitor.checks h
