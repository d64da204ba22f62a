-- ===== src/Base/Sums.antt =====
-- Sums of a function over the numbers below a bound.
use Prim.Native.Nat.{ℕ, zero, suc, ◌+◌, ◌<◌, ◌≤◌}
use mathlib.Core.Path.{◌≡◌, refl}
use mathlib.Core.Logic.{◌≢◌}
use native.Mathlib.Omega.{arith}
use native.Mathlib.Decide.{dec_lt}
use inf.Base.Tests.{nat_eq, if◌then◌else◌}

unfoldable pub total : ℕ → (ℕ → ℕ) → ℕ
total zero f = 0
total (suc n) f = total n f + f n

pub total-ext : (n : ℕ) (f g : ℕ → ℕ) → ((i : ℕ) → g i ≡ f i) → total n g ≡ total n f
unfolding total
total-ext zero f g h = refl
total-ext (suc n) f g h = omega (arith, h n, total-ext n f g h)

module _ (f g : ℕ → ℕ) (i k : ℕ) (bump : (j : ℕ) → g j ≡ f j + (if nat_eq i j then k else 0)) where
  total-bump_above : (n : ℕ) → n ≤ i → total n g ≡ total n f
  unfolding total
  total-bump_above zero h = refl
  total-bump_above (suc n) h = ground (arith, bump n, total-bump_above n)

  -- A function that grows at one number below the bound.
  pub total-bump : (n : ℕ) → i < n → total n g ≡ total n f + k
  unfolding total
  total-bump zero h = absurd (omega arith)
  total-bump (suc n) h = elim (dec_lt i n) [
    | yes below ↦ ground (arith, bump n, total-bump n below)
    | no last ↦ ground (arith, bump n, total-bump_above n)
  ]

pub total-le : (n : ℕ) (f : ℕ → ℕ) → ((i : ℕ) → f i ≤ 1) → total n f ≤ n
unfolding total
total-le zero f h = omega arith
total-le (suc n) f h = omega (arith, h n, total-le n f h)

pub total-zero : (n : ℕ) → total n (λ i. 0) ≡ 0
unfolding total
total-zero zero = refl
total-zero (suc n) = omega (arith, total-zero n)

-- A function changed at one number, and the sum of a weight over a family.
abbrev pub update {ℓ} : {A : Type ℓ} → (ℕ → A) → ℕ → A → ℕ → A
update f i a j = if nat_eq i j then a else f j

module _ {ℓ} {A : Type ℓ} (w : A → ℕ) where
  unfoldable pub weight : ℕ → (ℕ → A) → ℕ
  weight zero f = 0
  weight (suc n) f = weight n f + w (f n)

  weight-update_above :
      (n : ℕ) (f : ℕ → A) (i : ℕ) (a : A) → n ≤ i → weight n (update f i a) ≡ weight n f
  unfolding weight
  weight-update_above zero f i a h = refl
  weight-update_above (suc n) f i a h = ground (arith, weight-update_above n f i a)

  pub weight-update :
      (n : ℕ) (f : ℕ → A) (i : ℕ) (a : A)
      → i < n
      → weight n (update f i a) + w (f i) ≡ weight n f + w a
  unfolding weight
  weight-update zero f i a h = absurd (omega arith)
  weight-update (suc n) f i a h = elim (dec_lt i n) [
    | yes below ↦ ground (arith, weight-update n f i a below)
    | no last ↦ ground (arith, weight-update_above n f i a)
  ]

  pub weight-ge : (n : ℕ) (f : ℕ → A) (i : ℕ) → i < n → w (f i) ≤ weight n f
  unfolding weight
  weight-ge zero f i h = absurd (omega arith)
  weight-ge (suc n) f i h = elim (dec_lt i n) [
    | yes below ↦ omega (arith, weight-ge n f i below)
    | no last ↦ ground arith
  ]

  -- Two of the family add up.
  pub weight-two :
      (n : ℕ) (f : ℕ → A) (i j : ℕ) → i < n → j < n → i ≢ j → w (f i) + w (f j) ≤ weight n f
  unfolding weight
  weight-two zero f i j h k ne = absurd (omega arith)
  weight-two (suc n) f i j h k ne = elim (dec_lt i n) [
    | yes below ↦ elim (dec_lt j n) [
      | yes below' ↦ omega (arith, weight-two n f i j below below' ne)
      | no last ↦ ground (arith, weight-ge n f i below)
    ]
    | no last ↦ ground (arith, weight-ge n f j)
  ]

  -- If there is any weight, some member of the family has it.
  pub weight-member : (n : ℕ) (f : ℕ → A) → 0 < weight n f → (i : ℕ) × (i < n) × (0 < w (f i))
  unfolding weight
  weight-member zero f h = absurd (omega arith)
  weight-member (suc n) f h = elim (dec_lt 0 (w (f n))) [
    | yes here ↦ (n, omega arith, here)
    | no none_here ↦
        let (i, below, some_weight) = weight-member n f (omega arith) in
        (i, omega arith, some_weight)
  ]

  pub weight-none : (n : ℕ) (f : ℕ → A) → ((i : ℕ) → w (f i) ≡ 0) → weight n f ≡ 0
  unfolding weight
  weight-none zero f h = refl
  weight-none (suc n) f h = omega (arith, h n, weight-none n f h)
