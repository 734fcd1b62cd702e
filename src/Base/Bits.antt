-- ===== src/Base/Bits.antt =====
-- The exclusive or of two words stays a word.
use Prim.Native.Nat.{ℕ, zero, suc, ◌/◌, ◌%◌, ◌^◌, ◌<◌, digits, differ, bit_xor, bit_xor-bitwise}
use native.Mathlib.Nat.{two-pow-succ}
use native.Mathlib.Omega.{arith}

-- The exclusive or of two numbers below a bound of at least one.
differ-lt : (m x y : ℕ) → x < suc m → y < suc m → differ x y < suc m
differ-lt m zero y p q = q
differ-lt m (suc x) zero p q = p
differ-lt m (suc x) (suc y) p q = differ-lt m x y (omega arith) (omega arith)

-- Digit by digit, on `fuel` digits: a word below 2 ^ w and one of as many bits.
digits_below :
    (fuel w : ℕ) (a b : ℕ) → (a < 2 ^ w) × (b < 2 ^ w) → digits (λ y. y) differ fuel a b < 2 ^ w
digits_below zero w a b p = p.1
digits_below (suc fuel) w zero b p = p.1
digits_below (suc fuel) zero (suc a) b p = absurd (omega (arith, p.0))
digits_below (suc fuel) (suc w) (suc a) b p =
    let double = two-pow-succ w in
    let digit = differ-lt 1 (suc a % 2) (b % 2) (omega arith) (omega arith) in
    let higher =
      digits_below fuel w (suc a / 2) (b / 2)
        (omega (arith, p.0, double), omega (arith, p.1, double)) in
    omega (arith, double, digit, higher)

pub bit_xor-lt : (w a b : ℕ) → a < 2 ^ w → b < 2 ^ w → bit_xor a b < 2 ^ w
bit_xor-lt w a b p q = rw bit_xor-bitwise (digits_below a w a b (p, q))
