-- ===== src/Base/Decimal.antt =====
-- `String(n)` of a whole number below 10 ^ 21, and its digits read back.
use Prim.Native.Nat.{ℕ, zero, suc, ◌+◌, ◌-◌, ◌*◌, ◌/◌, ◌%◌, ◌≤◌, ◌<◌}
use mathlib.Core.Path.{◌≡◌, refl, ap}
use mathlib.Core.Bool.{true, ◌&&◌}
use mathlib.Core.Logic.{◌⊎◌, inl, inr}
use mathlib.Core.List.{[], ◌∷◌, ◌++◌}
use native.Mathlib.Omega.{arith}
use systemvitals.Base.Tests.{ltb, if◌then◌else◌, Bool-cases}
use systemvitals.Base.Lists.{length, length-append}
use systemvitals.Base.Text.{Text, truthy, all_digits, number_from}

decimal_of : ℕ → ℕ → Text
decimal_of zero n = []
decimal_of (suc f) n =
    let rest = decimal_of f (n / 10) ++ (b'0' + n % 10) ∷ [] in
    if ltb n 10 then (b'0' + n) ∷ [] else rest

-- One round for each digit; `n + 1` rounds are enough.
unfoldable pub decimal : ℕ → Text
unfolding decimal_of
decimal n = decimal_of (suc n) n

pub number_from-append :
    (a : ℕ) (s t : Text) → number_from a (s ++ t) ≡ number_from (number_from a s) t
unfolding number_from
number_from-append a [] t = refl
number_from-append a (c ∷ s) t = number_from-append (a * 10 + (c - b'0')) s t

decimal_of-number : (f n : ℕ) → n < f → number_from 0 (decimal_of f n) ≡ n
unfolding decimal_of
decimal_of-number zero n h = absurd (omega arith)
decimal_of-number (suc f) n h = elim (Bool-cases (ltb n 10)) [
  | inl e ↦ rw e (unfold number_from in omega arith)
  | inr e ↦
      rw
        (
          e,
          number_from-append 0 (decimal_of f (n / 10)) ((b'0' + n % 10) ∷ []),
          decimal_of-number f (n / 10) (ground arith),
        )
        (unfold number_from in omega arith)
]

-- A number is read back from its digits.
pub number_from-decimal : (n : ℕ) → number_from 0 (decimal n) ≡ n
unfolding decimal
number_from-decimal n = decimal_of-number (suc n) n (omega arith)

pub all_digits-append : (s t : Text) → all_digits (s ++ t) ≡ (all_digits s && all_digits t)
all_digits-append [] t = refl
all_digits-append (c ∷ s) t = ground (arith, all_digits-append s t)

decimal_of-digits : (f n : ℕ) → all_digits (decimal_of f n) ≡ true
unfolding decimal_of
decimal_of-digits zero n = refl
decimal_of-digits (suc f) n = ground (
  arith,
  all_digits-append (decimal_of f (n / 10)) ((b'0' + n % 10) ∷ []),
  decimal_of-digits f (n / 10),
)

pub all_digits-decimal : (n : ℕ) → all_digits (decimal n) ≡ true
unfolding decimal
all_digits-decimal n = decimal_of-digits (suc n) n

abbrev pub power_of_ten : ℕ → ℕ
power_of_ten zero = 1
power_of_ten (suc k) = 10 * power_of_ten k

decimal_of-length : (f n k : ℕ) → n < power_of_ten (suc k) → length (decimal_of f n) ≤ suc k
unfolding decimal_of
decimal_of-length zero n k h = omega arith
decimal_of-length (suc f) n zero h = ground arith
decimal_of-length (suc f) n (suc k) h = ground (
  arith,
  length-append {0} (decimal_of f (n / 10)) ((b'0' + n % 10) ∷ []),
  decimal_of-length f (n / 10) k,
)

-- A number below 10 ^ (k + 1) has at most k + 1 digits.
pub length-decimal : (n k : ℕ) → n < power_of_ten (suc k) → length (decimal n) ≤ suc k
unfolding decimal
length-decimal n k h = decimal_of-length (suc n) n k h

decimal_of-ne-nil : (f n : ℕ) → decimal_of (suc f) n ≡ [] → ⊥
unfolding decimal_of
decimal_of-ne-nil f n h =
    ground (arith, ap length h, length-append {0} (decimal_of f (n / 10)) ((b'0' + n % 10) ∷ []))

pub decimal-ne-nil : (n : ℕ) → decimal n ≡ [] → ⊥
unfolding decimal
decimal-ne-nil n h = decimal_of-ne-nil n n h

truthy-cases : (s : Text) → (s ≡ []) ⊎ (truthy s ≡ true)
truthy-cases [] = inl refl
truthy-cases (c ∷ s) = inr refl

pub decimal-truthy : (n : ℕ) → truthy (decimal n) ≡ true
decimal-truthy n = elim (truthy-cases (decimal n)) [
  | inl e ↦ absurd (decimal-ne-nil n e)
  | inr e ↦ e
]
