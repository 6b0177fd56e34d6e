-- ===== src/Base/Table.antt =====
-- Tables as lists of rows under a numeric key: what is found after a write.
use Prim.Native.Nat.{ℕ}
use mathlib.Core.Path.{◌≡◌, refl, sym, ap, subst}
use mathlib.Core.Bool.{Bool, true, false, not}
use mathlib.Core.Option.{Option, none, some}
use mathlib.Core.List.{List, [], ◌∷◌, ◌++◌}
use mathlib.Core.Logic.{inl, inr}
use native.Mathlib.Omega.{arith}
use systemvitals.Base.Tests.{◌==◌, if◌then◌else◌, Bool-cases}
use systemvitals.Base.Lists.{find, filter, In, All}

-- The first row that passes a test is stored and passes it.
pub find-In :
    {A : Type 0} (p : A → Bool) (xs : List A) (a : A) → find p xs ≡ some a → In a xs × (p a ≡ true)
find-In p [] a h = ground arith
find-In p (x ∷ xs) a h = elim (Bool-cases (p x)) [
  | inl e ↦ (inl (ground arith), ground arith)
  | inr e ↦ let (m, k) = find-In p xs a (ground arith) in (inr m, k)
]

module _ {A : Type 0} (key : A → ℕ) where
  abbrev pub find_key : ℕ → List A → Option A
  find_key j xs = find (λ x. key x == j) xs

  -- `update({ where: { id }, data })`
  abbrev pub update_key : ℕ → (A → A) → List A → List A
  update_key i f [] = []
  update_key i f (x ∷ xs) = (if key x == i then f x else x) ∷ update_key i f xs

  -- `delete({ where: { id } })`
  abbrev pub delete_key : ℕ → List A → List A
  delete_key i xs = filter (λ x. not (key x == i)) xs

  pub find-update_key :
      (i j : ℕ) (f : A → A) (xs : List A)
      → ((x : A) → key (f x) ≡ key x)
      → find_key j (update_key i f xs)
        ≡ elim (find_key j xs) [ none ↦ none | some x ↦ some (if i == j then f x else x) ]
  find-update_key i j f [] h = refl
  find-update_key i j f (x ∷ xs) h = ground (arith, h x, find-update_key i j f xs h)

  pub find-delete_key :
      (i j : ℕ) (xs : List A)
      → find_key j (delete_key i xs) ≡ (if i == j then none else find_key j xs)
  find-delete_key i j [] = ground arith
  find-delete_key i j (x ∷ xs) = ground (arith, find-delete_key i j xs)

  -- A row that is found is found with a further one behind it.
  pub find-append :
      (j : ℕ) (xs ys : List A) (a : A) → find_key j xs ≡ some a → find_key j (xs ++ ys) ≡ some a
  find-append j [] ys a h = ground arith
  find-append j (x ∷ xs) ys a h = ground (arith, find-append j xs ys a)

-- What holds of all rows holds of a stored one.
pub All-In : {A : Type 0} (P : A → Type 0) (xs : List A) (a : A) → All P xs → In a xs → P a
All-In P [] a h i = absurd i
All-In P (x ∷ xs) a (h, hs) (inl e) = subst P e h
All-In P (x ∷ xs) a (h, hs) (inr i) = All-In P xs a hs i

pub All-filter :
    {A : Type 0} (P Q : A → Type 0) (p : A → Bool) (xs : List A)
    → ((x : A) → p x ≡ true → P x → Q x)
    → All P xs
    → All Q (filter p xs)
All-filter P Q p [] k h = tt
All-filter P Q p (x ∷ xs) k (h, hs) = elim (Bool-cases (p x)) [
  | inl e ↦ rw e (k x e h, All-filter P Q p xs k hs)
  | inr e ↦ rw e (All-filter P Q p xs k hs)
]

pub All-update_key :
    {A : Type 0} (key : A → ℕ) (P Q : A → Type 0) (i : ℕ) (f : A → A) (xs : List A)
    → ((x : A) → (key x == i) ≡ true → P x → Q (f x))
    → ((x : A) → (key x == i) ≡ false → P x → Q x)
    → All P xs
    → All Q (update_key key i f xs)
All-update_key key P Q i f [] k l h = tt
All-update_key key P Q i f (x ∷ xs) k l (h, hs) = elim (Bool-cases (key x == i)) [
  | inl e ↦ rw e (k x e h, All-update_key key P Q i f xs k l hs)
  | inr e ↦ rw e (l x e h, All-update_key key P Q i f xs k l hs)
]

-- A row that is found and passes a test is found among those that pass it.
pub find_key-filter :
    {A : Type 0} (key : A → ℕ) (p : A → Bool) (j : ℕ) (xs : List A) (a : A)
    → find_key key j xs ≡ some a
    → p a ≡ true
    → find_key key j (filter p xs) ≡ some a
find_key-filter key p j [] a h e = ground arith
find_key-filter key p j (x ∷ xs) a h e = elim (Bool-cases (key x == j)) [
  | inl k ↦
      let same : x ≡ a = ground arith in
      let passes : p x ≡ true = subst (λ y. p y ≡ true) (sym same) e in
      rw (passes, k) (ap some same)
  | inr k ↦ elim (Bool-cases (p x)) [
    | inl q ↦ rw (q, k) (find_key-filter key p j xs a (ground arith) e)
    | inr q ↦ rw q (find_key-filter key p j xs a (ground arith) e)
  ]
]
