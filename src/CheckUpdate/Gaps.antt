-- ===== src/CheckUpdate/Gaps.antt =====
-- minCronGapSeconds of api/src/checks/cron.ts finds the least gap.
use mathlib.Core.Path.{subst}
use systemvitals.Base.{
  ℕ, zero, suc, ◌+◌, ◌-◌, ◌/◌, ◌≤◌, ◌<◌, ◌≡◌, refl, sym, ap, ◌∙◌, leb, inl, inr, Option, some,
  arith, min, ◌==◌, Bool-cases, Option-cases,
}
use systemvitals.Base.Int.{ℤ, pos}
use systemvitals.Base.Text.{Text}
use systemvitals.CheckUpdate.Fields.{CronLib, least_gap, gap_after, min_cron_gap_seconds}

-- `g` seconds lie between the fires number `k` and `k + 1`.
abbrev pub IsGap : (ℕ → Option ℕ) → ℕ → ℕ → Type 0
IsGap fire k g = (a b : ℕ) × (fire k ≡ some a) × (fire (suc k) ≡ some b) × (g ≡ (b - a) / 1000)

-- The least of the gaps between the fires `lo` to `hi`.
pub record IsLeastGap (fire : ℕ → Option ℕ) (lo hi g : ℕ) : Type 0 where
  pub attained : (k : ℕ) × (lo ≤ k) × (k < hi) × IsGap fire k g
  pub least : (k h : ℕ) → lo ≤ k → k < hi → IsGap fire k h → g ≤ h

some-injective : {x y : ℕ} → some x ≡ some y → x ≡ y
some-injective h = ground arith

-- One more gap.
IsLeastGap-min :
    (fire : ℕ → Option ℕ) (lo n least a b : ℕ)
    → lo ≤ n
    → IsLeastGap fire lo n least
    → fire n ≡ some a
    → fire (suc n) ≡ some b
    → IsLeastGap fire lo (suc n) (min least ((b - a) / 1000))
IsLeastGap-min fire lo n least a b from l fa fb = record {
  attained = elim (Bool-cases (leb least ((b - a) / 1000))) [
    | inl e ↦
        let (k, p, q, gap) = l.attained in
        let same : least ≡ min least ((b - a) / 1000) = ground arith in
        (k, p, omega (arith, q), subst (IsGap fire k) same gap)
    | inr e ↦ (n, from, omega arith, (a, b, fa, fb, ground arith))
  ];
  least = λ k h p q gap. elim (Bool-cases (k == n)) [
    | inl e ↦
        let same : k ≡ n = ground arith in
        let (a', b', fa', fb', at) = subst (λ j. IsGap fire j h) same gap in
        let same_a : a' ≡ a = some-injective (sym fa' ∙ fa) in
        let same_b : b' ≡ b = some-injective (sym fb' ∙ fb) in
        let here : h ≡ (b - a) / 1000 =
          at ∙ ap (λ x. (b' - x) / 1000) same_a ∙ ap (λ x. (x - a) / 1000) same_b in
        rw here (omega arith)
    | inr e ↦ let other : k < n = ground arith in omega (arith, l.least k h p other gap)
  ];
}

least_gap-IsLeastGap :
    (fire : ℕ → Option ℕ) (k n prev least lo g : ℕ)
    → lo < n
    → fire n ≡ some prev
    → IsLeastGap fire lo n least
    → least_gap fire k (suc n) prev least ≡ some g
    → IsLeastGap fire lo (n + k) g
unfolding least_gap
least_gap-IsLeastGap fire zero n prev least lo g p f l h =
    let same : least ≡ g = some-injective h in
    let end : n ≡ n + 0 = omega arith in
    subst (λ m. IsLeastGap fire lo m g) end (subst (IsLeastGap fire lo n) same l)
least_gap-IsLeastGap fire (suc k) n prev least lo g p f l h = elim (Option-cases (fire (suc n))) [
  | inl e ↦ absurd (ground arith)
  | inr (next, e) ↦
      let end : suc n + k ≡ n + suc k = omega arith in
      subst (λ m. IsLeastGap fire lo m g) end
        (least_gap-IsLeastGap fire k (suc n) next (min least ((next - prev) / 1000)) lo g
          (omega arith) e (IsLeastGap-min fire lo n least prev next (omega arith) l f e)
          (rw (e, least_gap) at h))
]

first_gap :
    (fire : ℕ → Option ℕ) (a b : ℕ)
    → fire 0 ≡ some a
    → fire 1 ≡ some b
    → IsLeastGap fire 0 1 ((b - a) / 1000)
first_gap fire a b fa fb = record {
  attained = (0, omega arith, omega arith, (a, b, fa, fb, refl));
  least = λ k h p q gap.
      let same : k ≡ 0 = omega arith in
      let (a', b', fa', fb', at) = subst (λ j. IsGap fire j h) same gap in
      let same_a : a' ≡ a = some-injective (sym fa' ∙ fa) in
      let same_b : b' ≡ b = some-injective (sym fb' ∙ fb) in
      let here : h ≡ (b - a) / 1000 =
        at ∙ ap (λ x. (b' - x) / 1000) same_a ∙ ap (λ x. (x - a) / 1000) same_b in
      rw here (omega arith);
}

pub min_cron_gap_seconds-IsLeastGap :
    (lib : CronLib) (expr tz : Text) (gap : ℤ)
    → min_cron_gap_seconds lib expr tz ≡ some gap
    → (g : ℕ) × (gap ≡ pos g) × IsLeastGap (lib.fire expr tz) 0 10 g
unfolding min_cron_gap_seconds gap_after
min_cron_gap_seconds-IsLeastGap lib expr tz gap h =
    let fire : ℕ → Option ℕ = lib.fire expr tz in
    elim (Option-cases (lib.fire expr tz 0)) [
      | inl e ↦ absurd (ground arith)
      | inr (a, fa) ↦ elim (Option-cases (lib.fire expr tz 1)) [
        | inl e ↦ absurd (ground arith)
        | inr (b, fb) ↦ elim (Option-cases (least_gap (lib.fire expr tz) 9 2 b ((b - a) / 1000))) [
          | inl e ↦ absurd (ground arith)
          | inr (g, e) ↦ (
            g,
            ground arith,
            least_gap-IsLeastGap (lib.fire expr tz) 9 1 b ((b - a) / 1000) 0 g (omega arith) fb
                (first_gap (lib.fire expr tz) a b fa fb) e,
          )
        ]
      ]
    ]
