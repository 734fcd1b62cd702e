-- ===== src/Base/Counting.antt =====
-- How many numbers below a bound pass a test.
use native.Mathlib.Decide.{ℕ_discrete}
use Prim.Native.Nat.{ℕ, zero, suc, ◌+◌, ◌≤◌, ◌<◌}
use mathlib.Core.Path.{◌≡◌, refl}
use mathlib.Core.Logic.{◌≢◌}
use mathlib.Core.Bool.{Bool, true, false, ◌||◌}
use native.Mathlib.Omega.{arith}
use core_cleanup_test.Base.Tests.{if◌then◌else◌}

-- How many numbers below `n` pass a test.
unfoldable pub count_below : ℕ → (ℕ → Bool) → ℕ
count_below zero p = 0
count_below (suc n) p = (if p n then 1 else 0) + count_below n p

-- Disjoint tests are counted apart.
pub count_below-disjoint :
    (n : ℕ) (p q : ℕ → Bool)
    → ((x : ℕ) → p x ≡ true → q x ≡ false)
    → count_below n (λ x. p x || q x) ≡ count_below n p + count_below n q
unfolding count_below
count_below-disjoint zero p q h = refl
count_below-disjoint (suc n) p q h = ground (arith, h n, count_below-disjoint n p q h)

pub count_below-nothing : (n : ℕ) → count_below n (λ x. false) ≡ 0
unfolding count_below
count_below-nothing zero = refl
count_below-nothing (suc n) = omega (arith, count_below-nothing n)

-- A count reaches its bound only where every number passes.
pub count_below-le : (n : ℕ) (p : ℕ → Bool) → count_below n p ≤ n
unfolding count_below
count_below-le zero p = omega arith
count_below-le (suc n) p = ground (arith, count_below-le n p)

pub count_below-full : (n : ℕ) (p : ℕ → Bool) (x : ℕ) → count_below n p ≡ n → x < n → p x ≡ true
unfolding count_below
count_below-full zero p x e h = absurd (omega arith)
count_below-full (suc n) p x e h = elim (ℕ_discrete x n) [
  | yes q ↦ rw q (ground (arith, count_below-le n p))
  | no q ↦ count_below-full n p x (ground (arith, count_below-le n p)) (omega arith)
]

-- Two tests that agree below the bound have one count.
pub count_below_congr :
    (n : ℕ) (p q : ℕ → Bool) → ((x : ℕ) → x < n → p x ≡ q x) → count_below n p ≡ count_below n q
unfolding count_below
count_below_congr zero p q h = refl
count_below_congr (suc n) p q h =
    ground (arith, h n (omega arith), count_below_congr n p q (λ x l. h x (omega arith)))

-- One number more passes.
pub count_below_insert :
    (n i : ℕ) (p q : ℕ → Bool)
    → i < n
    → p i ≡ false
    → q i ≡ true
    → ((x : ℕ) → x ≢ i → q x ≡ p x)
    → count_below n q ≡ suc (count_below n p)
unfolding count_below
count_below_insert zero i p q l f t h = absurd (omega arith)
count_below_insert (suc n) i p q l f t h = elim (ℕ_discrete n i) [
  | yes e ↦
      let below = count_below_congr n q p (λ x k. h x (omega arith)) in
      let f' : p n ≡ false = rw e f in let t' : q n ≡ true = rw e t in ground (arith, f', t', below)
  | no ne ↦ ground (arith, h n ne, count_below_insert n i p q (omega arith) f t h)
]

-- Where not all numbers pass, there is one that does not.
pub count_below-lt :
    (n : ℕ) (p : ℕ → Bool) → count_below n p < n → (i : ℕ) × (i < n) × (p i ≡ false)
unfolding count_below
count_below-lt zero p h = absurd (omega arith)
count_below-lt (suc n) p h = by_last (p n) refl (count_below-lt n p)
  where
    by_last :
        (b : Bool)
        → p n ≡ b
        → (count_below n p < n → (i : ℕ) × (i < n) × (p i ≡ false))
        → (i : ℕ) × (i < suc n) × (p i ≡ false)
    by_last false e rest = (n, omega arith, e)
    by_last true e rest = let (i, l, f) = rest (ground arith) in (i, omega arith, f)
