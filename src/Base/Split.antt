-- ===== src/Base/Split.antt =====
-- Searching, cutting and joining strings.
use Prim.Native.Nat.{ℕ, suc}
use mathlib.Core.Path.{◌≡◌, refl, ap}
use mathlib.Core.Logic.{inl, inr}
use mathlib.Core.Bool.{Bool, true, false, ◌||◌}
use mathlib.Core.Option.{none, some}
use mathlib.Core.List.{[], ◌∷◌, ◌++◌}
use native.Mathlib.Omega.{arith}
use systemvitals.Base.Tests.{◌==◌, ==_refl, Option-cases}
use systemvitals.Base.Lists.{length, take, any}
use systemvitals.Base.Text.{
  Text, is_space, trim, trim_start, trim_end, last_index_of, drop, split, is_digit, all_digits,
}

pub any-append : (p : ℕ → Bool) (s t : Text) → any p (s ++ t) ≡ (any p s || any p t)
any-append p [] t = refl
any-append p (c ∷ s) t = ground (arith, any-append p s t)

-- A string without characters of one kind has none of a narrower kind.
pub any-narrow :
    (p q : ℕ → Bool)
    → ((c : ℕ) → p c ≡ false → q c ≡ false)
    → (s : Text) → any p s ≡ false
    → any q s ≡ false
any-narrow p q h [] e = refl
any-narrow p q h (c ∷ s) e = ground (arith, h c, any-narrow p q h s)

pub all_digits-any :
    (q : ℕ → Bool)
    → ((c : ℕ) → is_digit c ≡ true → q c ≡ false)
    → (s : Text) → all_digits s ≡ true
    → any q s ≡ false
all_digits-any q h [] e = refl
all_digits-any q h (c ∷ s) e = ground (arith, h c, all_digits-any q h s)

pub take-length-append : (s t : Text) → take (length s) (s ++ t) ≡ s
take-length-append [] t = refl
take-length-append (c ∷ s) t = ap (λ r. c ∷ r) (take-length-append s t)

pub drop-suc-length : (s t : Text) (c : ℕ) → drop (suc (length s)) (s ++ c ∷ t) ≡ t
drop-suc-length [] t c = refl
drop-suc-length (d ∷ s) t c = drop-suc-length s t c

last_index_of-none : (c : ℕ) (s : Text) → any (λ d. d == c) s ≡ false → last_index_of c s ≡ none
last_index_of-none c [] h = refl
last_index_of-none c (d ∷ s) h =
    let e : (d == c) ≡ false = ground arith in rw (last_index_of-none c s (ground arith), e) refl

-- The last place of a character is the one behind which it does not occur.
pub last_index_of-append :
    (c : ℕ) (s t : Text)
    → any (λ d. d == c) t ≡ false
    → last_index_of c (s ++ c ∷ t) ≡ some (length s)
last_index_of-append c [] t h = rw (last_index_of-none c t h, ==_refl c) refl
last_index_of-append c (d ∷ s) t h = rw (last_index_of-append c s t h) refl

-- What is found is there.
pub last_index_of-found :
    (c : ℕ) (s : Text) (i : ℕ) → last_index_of c s ≡ some i → s ≡ take i s ++ c ∷ drop (suc i) s
last_index_of-found c [] i h = ground arith
last_index_of-found c (d ∷ s) i h = elim (Option-cases (last_index_of c s)) [
  | inl e ↦
      let same : (d == c) ≡ true = ground arith in
      let here : d ≡ c = ground arith in
      let at : i ≡ 0 = ground arith in rw at (ap (λ x. x ∷ s) here)
  | inr (j, e) ↦
      let at : i ≡ suc j = ground arith in rw at (ap (λ r. d ∷ r) (last_index_of-found c s j e))
]

trim_start-id : (s : Text) → any is_space s ≡ false → trim_start s ≡ s
unfolding trim_start
trim_start-id [] h = refl
trim_start-id (c ∷ s) h = let e : is_space c ≡ false = ground arith in rw e refl

trim_end-id : (s : Text) → any is_space s ≡ false → trim_end s ≡ s
unfolding trim_end
trim_end-id [] h = refl
trim_end-id (c ∷ []) h = let e : is_space c ≡ false = ground arith in rw e refl
trim_end-id (c ∷ d ∷ s) h = rw (trim_end-id (d ∷ s) (ground arith)) refl

pub trim-id : (s : Text) → any is_space s ≡ false → trim s ≡ s
unfolding trim
trim-id s h = rw (trim_start-id s h) (trim_end-id s h)

pub split-lacks : (c : ℕ) (s : Text) → any (λ d. d == c) s ≡ false → split c s ≡ s ∷ []
split-lacks c [] h = refl
split-lacks c (d ∷ s) h =
    let e : (d == c) ≡ false = ground arith in rw (e, split-lacks c s (ground arith)) refl

pub split-append :
    (c : ℕ) (s t : Text) → any (λ d. d == c) s ≡ false → split c (s ++ c ∷ t) ≡ s ∷ split c t
split-append c [] t h = rw (==_refl c) refl
split-append c (d ∷ s) t h =
    let e : (d == c) ≡ false = ground arith in rw (e, split-append c s t (ground arith)) refl
