-- ===== src/Base/Result.antt =====
-- Calls that return or throw. `E` is what the caller can tell apart of what is thrown.
use mathlib.Core.Path.{◌≡◌, refl, subst}
use native.Mathlib.Omega.{arith}
use mathlib.Core.Option.{Option, none, some}
use mathlib.Core.Bool.{Bool, true, false}
use systemvitals.Base.Tests.{if◌then◌else◌}
use mathlib.Core.Logic.{◌⊎◌, inl, inr}

pub data Result {ℓ} (E : Type 0) (A : Type ℓ) : Type ℓ where
  ok : A → Result E A
  err : E → Result E A

infixl 5 ◌>>=◌ ◌>>◌
abbrev pub ◌>>=◌ {ℓ κ} :
    {E : Type 0} {A : Type ℓ} {B : Type κ} → Result E A → (A → Result E B) → Result E B
ok a >>= f = f a
err e >>= f = err e

abbrev pub ◌>>◌ {κ} : {E : Type 0} {B : Type κ} → Result E (Unit {0}) → Result E B → Result E B
m >> k = m >>= λ _. k

-- `if (!b) throw e`
abbrev pub guard : {E : Type 0} → Bool → E → Result E (Unit {0})
guard true e = ok tt
guard false e = err e

-- `if (x == null) throw e`
abbrev pub require : {E : Type 0} {A : Type 0} → Option A → E → Result E A
require none e = err e
require (some a) e = ok a

-- The error of a callee in the terms of the caller.
abbrev pub map_err : {A E F : Type 0} → (E → F) → Result E A → Result F A
map_err f (ok a) = ok a
map_err f (err e) = err (f e)

module _ {ℓ} {E : Type 0} {A : Type ℓ} where
  pub Result-cases : (r : Result E A) → ((a : A) × (r ≡ ok a)) ⊎ ((e : E) × (r ≡ err e))
  Result-cases (ok a) = inl (a, refl)
  Result-cases (err e) = inr (e, refl)

-- What holds of a result where there is one.
abbrev pub Accepts : {E : Type 0} {A : Type 0} → (A → Type 0) → Result E A → Type 0
Accepts P (ok a) = P a
Accepts P (err e) = Unit {0}

module _ {E : Type 0} {B : Type 0} where
  pub Accepts->>= :
      {A : Type 0} (P : B → Type 0) (m : Result E A) (f : A → Result E B)
      → ((a : A) → m ≡ ok a → Accepts P (f a))
      → Accepts P (m >>= f)
  Accepts->>= P (ok a) f h = h a refl
  Accepts->>= P (err e) f h = tt

  pub Accepts-guard :
      (P : B → Type 0) (b : Bool) (e : E) (k : Result E B)
      → (b ≡ true → Accepts P k)
      → Accepts P (guard b e >> k)
  Accepts-guard P true e k h = h refl
  Accepts-guard P false e k h = tt

  pub Accepts-if :
      (P : B → Type 0) (b : Bool) (x y : Result E B)
      → (b ≡ true → Accepts P x)
      → (b ≡ false → Accepts P y)
      → Accepts P (if b then x else y)
  Accepts-if P true x y h k = h refl
  Accepts-if P false x y h k = k refl

  pub Accepts-require :
      {A : Type 0} (P : B → Type 0) (o : Option A) (e : E) (f : A → Result E B)
      → ((a : A) → o ≡ some a → Accepts P (f a))
      → Accepts P (require o e >>= f)
  Accepts-require P none e f h = tt
  Accepts-require P (some a) e f h = h a refl

  pub Accepts-at : (P : B → Type 0) (r : Result E B) (b : B) → Accepts P r → r ≡ ok b → P b
  Accepts-at P r b h e = subst (Accepts P) e h

  pub Accepts-map :
      (P Q : B → Type 0) (r : Result E B) → ((b : B) → P b → Q b) → Accepts P r → Accepts Q r
  Accepts-map P Q (ok b) f h = f b h
  Accepts-map P Q (err e) f h = tt

pub map_err-ok :
    {A E F : Type 0} (f : E → F) (r : Result E A) (a : A) → map_err f r ≡ ok a → r ≡ ok a
map_err-ok f (ok b) a h = ground arith
map_err-ok f (err e) a h = absurd (ground arith)

-- Where a chain of calls returns, its first call has returned.
pub >>=-ok :
    {E A B : Type 0} (m : Result E A) (f : A → Result E B) (b : B)
    → (m >>= f) ≡ ok b
    → (a : A) × (m ≡ ok a) × (f a ≡ ok b)
>>=-ok (ok a) f b h = (a, refl, h)
>>=-ok (err e) f b h = absurd (ground arith)
