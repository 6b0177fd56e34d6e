-- ===== src/Base/Sort.antt =====
-- A stable sort by a Boolean order: what `ORDER BY` and `Array.prototype.sort` promise.
use Prim.Native.Nat.{◌+◌}
use mathlib.Core.Path.{◌≡◌, refl, sym}
use mathlib.Core.Logic.{inl, inr}
use mathlib.Core.Bool.{Bool, true, false}
use mathlib.Core.List.{List, [], ◌∷◌}
use native.Mathlib.Omega.{arith}
use systemvitals.Base.Tests.{if◌then◌else◌, Bool-cases}
use systemvitals.Base.Lists.{count, length, All, filter}

module _ {ℓ} {A : Type ℓ} (le : A → A → Bool) where
  abbrev pub insert : A → List A → List A
  insert a [] = a ∷ []
  insert a (x ∷ xs) = let rest = insert a xs in if le a x then a ∷ x ∷ xs else x ∷ rest

  abbrev pub sort : List A → List A
  sort [] = []
  sort (x ∷ xs) = insert x (sort xs)

  abbrev pub IsSorted : List A → Type 0
  IsSorted [] = Unit
  IsSorted (x ∷ xs) = All (λ y. le x y ≡ true) xs × IsSorted xs

  pub count-insert :
      (p : A → Bool) (a : A) (xs : List A)
      → count p (insert a xs) ≡ (if p a then 1 else 0) + count p xs
  count-insert p a [] = refl
  count-insert p a (x ∷ xs) = elim (Bool-cases (le a x)) [
    | inl e ↦ rw e
    | inr e ↦ rw e (omega (arith, count-insert p a xs))
  ]

  -- Sorting keeps every element as often as it stands.
  pub count-sort : (p : A → Bool) (xs : List A) → count p (sort xs) ≡ count p xs
  count-sort p [] = refl
  count-sort p (x ∷ xs) = omega (arith, count-insert p x (sort xs), count-sort p xs)

  pub length-insert : (a : A) (xs : List A) → length (insert a xs) ≡ 1 + length xs
  length-insert a [] = omega arith
  length-insert a (x ∷ xs) = elim (Bool-cases (le a x)) [
    | inl e ↦ rw e (omega arith)
    | inr e ↦ rw e (omega (arith, length-insert a xs))
  ]

  pub length-sort : (xs : List A) → length (sort xs) ≡ length xs
  length-sort [] = refl
  length-sort (x ∷ xs) = omega (arith, length-insert x (sort xs), length-sort xs)

  module _ {κ} (P : A → Type κ) where
    pub All-insert : (a : A) (xs : List A) → P a → All P xs → All P (insert a xs)
    All-insert a [] h k = (h, tt)
    All-insert a (x ∷ xs) h k = elim (Bool-cases (le a x)) [
      | inl e ↦ rw e (h, (k.0, k.1))
      | inr e ↦ rw e (k.0, All-insert a xs h k.1)
    ]

    pub All-sort : (xs : List A) → All P xs → All P (sort xs)
    All-sort [] h = tt
    All-sort (x ∷ xs) h = All-insert x (sort xs) h.0 (All-sort xs h.1)

  module _ (total : (a b : A) → le a b ≡ false → le b a ≡ true)
      (trans : (a b c : A) → le a b ≡ true → le b c ≡ true → le a c ≡ true) where
    above :
        (a x : A) (xs : List A)
        → le a x ≡ true
        → All (λ y. le x y ≡ true) xs
        → All (λ y. le a y ≡ true) xs
    above a x [] e h = tt
    above a x (y ∷ ys) e h = (trans a x y e h.0, above a x ys e h.1)

    insert-IsSorted : (a : A) (xs : List A) → IsSorted xs → IsSorted (insert a xs)
    insert-IsSorted a [] h = (tt, tt)
    insert-IsSorted a (x ∷ xs) h = elim (Bool-cases (le a x)) [
      | inl e ↦ rw e ((e, above a x xs e h.0), h)
      | inr e ↦
          rw e (All-insert (λ y. le x y ≡ true) a xs (total a x e) h.0, insert-IsSorted a xs h.1)
    ]

    pub sort-IsSorted : (xs : List A) → IsSorted (sort xs)
    sort-IsSorted [] = tt
    sort-IsSorted (x ∷ xs) = insert-IsSorted x (sort xs) (sort-IsSorted xs)

    insert-least : (a : A) (xs : List A) → All (λ y. le a y ≡ true) xs → insert a xs ≡ a ∷ xs
    insert-least a [] h = refl
    insert-least a (x ∷ xs) h = rw h.0 refl

    All-kept :
        (a : A) (q : A → Bool) (xs : List A)
        → All (λ y. le a y ≡ true) xs
        → All (λ y. le a y ≡ true) (filter q xs)
    All-kept a q [] h = tt
    All-kept a q (x ∷ xs) h = elim (Bool-cases (q x)) [
      | inl e ↦ rw e (h.0, All-kept a q xs h.1)
      | inr e ↦ rw e (All-kept a q xs h.1)
    ]

    filter-insert :
        (q : A → Bool) (a : A) (xs : List A)
        → IsSorted xs
        → filter q (insert a xs) ≡ (if q a then insert a (filter q xs) else filter q xs)
    filter-insert q a [] h = refl
    filter-insert q a (x ∷ xs) h = elim (Bool-cases (le a x)) [
      | inl e ↦ elim (Bool-cases (q a)) [
        | inl k ↦
            rw (e, k)
              (sym (
                insert-least a (filter q (x ∷ xs)) (All-kept a q (x ∷ xs) (e, above a x xs e h.0))))
        | inr k ↦ rw (e, k) refl
      ]
      | inr e ↦ elim (Bool-cases (q x)) [
        | inl k ↦ elim (Bool-cases (q a)) [
          | inl l ↦ rw (e, k, filter-insert q a xs h.1, l, e) refl
          | inr l ↦ rw (e, k, filter-insert q a xs h.1, l) refl
        ]
        | inr k ↦ rw (e, k, filter-insert q a xs h.1) refl
      ]
    ]

    -- Of a sorted list, a part is the sorted part.
    pub filter-sort : (q : A → Bool) (xs : List A) → filter q (sort xs) ≡ sort (filter q xs)
    filter-sort q [] = refl
    filter-sort q (x ∷ xs) = elim (Bool-cases (q x)) [
      | inl e ↦ rw (filter-insert q x (sort xs) (sort-IsSorted xs), e, filter-sort q xs) refl
      | inr e ↦ rw (filter-insert q x (sort xs) (sort-IsSorted xs), e) (filter-sort q xs)
    ]
