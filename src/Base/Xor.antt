-- ===== src/Base/Xor.antt =====
-- The laws of the exclusive or, from its law for the lowest digit.
use Prim.Native.Nat.{
  ℕ, zero, suc, ◌+◌, ◌-◌, ◌*◌, ◌/◌, ◌%◌, ◌^◌, ◌≤◌, ◌<◌, bit_xor, differ, digits, bit_xor-bitwise,
}
use mathlib.Core.Path.{◌≡◌, refl, sym, ap, ◌∙◌}
use native.Mathlib.Omega.{arith}
use native.Mathlib.Nat.{pow-suc}

-- More digits to go than the first number has change nothing.
extra_fuel :
    (k n a b : ℕ) → a ≤ n → digits (λ y. y) differ (n + k) a b ≡ digits (λ y. y) differ n a b
extra_fuel k n a b h = more (n + k) n a b h (omega arith)
  where
    more :
        (m n a b : ℕ) → a ≤ n → n ≤ m → digits (λ y. y) differ m a b ≡ digits (λ y. y) differ n a b
    more zero zero a b h l = refl
    more (suc m) zero zero b h l = refl
    more (suc m) (suc n) zero b h l = refl
    more zero (suc n) a b h l = absurd (omega (arith, l))
    more (suc m) zero (suc a) b h l = absurd (omega (arith, h))
    more (suc m) (suc n) (suc a) b h l =
        let later = more m n (suc a / 2) (b / 2) (omega (arith, h)) (omega (arith, l)) in
        ap (λ d. d * 2 + differ (suc a % 2) (b % 2)) later

differ_bits : (x y : ℕ) → x < 2 → y < 2 → differ x y ≡ (x + y) % 2
differ_bits zero y p q = omega (arith, q)
differ_bits (suc zero) zero p q = refl
differ_bits (suc zero) (suc zero) p q = refl
differ_bits (suc zero) (suc (suc y)) p q = absurd (omega (arith, q))
differ_bits (suc (suc x)) y p q = absurd (omega (arith, p))

pub zero-bit_xor : (b : ℕ) → bit_xor 0 b ≡ b
zero-bit_xor b = bit_xor-bitwise 0 b

pub bit_xor_step : (a b : ℕ) → bit_xor a b ≡ bit_xor (a / 2) (b / 2) * 2 + (a + b) % 2
bit_xor_step zero b = omega (arith, zero-bit_xor b, zero-bit_xor (b / 2))
bit_xor_step (suc a) b =
    let half = suc a / 2 in
    let fuel : half + (a - half) ≡ a = omega arith in
    let digit = differ_bits (suc a % 2) (b % 2) (omega arith) (omega arith) in
    let later : digits (λ y. y) differ a half (b / 2) ≡ bit_xor half (b / 2) =
      ap (λ n. digits (λ y. y) differ n half (b / 2)) (sym fuel)
      ∙ extra_fuel (a - half) half half (b / 2) (omega arith)
      ∙ sym (bit_xor-bitwise half (b / 2)) in
    omega (arith, bit_xor-bitwise (suc a) b, later, digit)

pub bit_xor_half : (a b : ℕ) → bit_xor a b / 2 ≡ bit_xor (a / 2) (b / 2)
bit_xor_half a b = omega (arith, bit_xor_step a b)

pub bit_xor_parity : (a b : ℕ) → bit_xor a b % 2 ≡ (a + b) % 2
bit_xor_parity a b = omega (arith, bit_xor_step a b)

comm_fuel : (n a b : ℕ) → a ≤ n → b ≤ n → bit_xor a b ≡ bit_xor b a
comm_fuel zero zero zero p q = refl
comm_fuel zero zero (suc b) p q = absurd (omega (arith, q))
comm_fuel zero (suc a) b p q = absurd (omega (arith, p))
comm_fuel (suc n) a b p q = omega (
  arith,
  bit_xor_step a b,
  bit_xor_step b a,
  comm_fuel n (a / 2) (b / 2) (omega (arith, p)) (omega (arith, q)),
)

pub bit_xor_comm : (a b : ℕ) → bit_xor a b ≡ bit_xor b a
bit_xor_comm a b = comm_fuel (a + b) a b (omega arith) (omega arith)

assoc_fuel : (n a b c : ℕ) → a + b + c ≤ n → bit_xor (bit_xor a b) c ≡ bit_xor a (bit_xor b c)
assoc_fuel zero a b c p = let (x, y, z) = zeros in rw (x, y, z) refl
  where
    zeros : (a ≡ 0) × (b ≡ 0) × (c ≡ 0)
    zeros = omega (arith, p)
assoc_fuel (suc n) a b c p = omega (
  arith,
  bit_xor_step (bit_xor a b) c,
  bit_xor_step a (bit_xor b c),
  ap (λ x. bit_xor x (c / 2)) (bit_xor_half a b),
  ap (bit_xor (a / 2)) (bit_xor_half b c),
  bit_xor_parity a b,
  bit_xor_parity b c,
  assoc_fuel n (a / 2) (b / 2) (c / 2) (omega (arith, p)),
)

pub bit_xor_assoc : (a b c : ℕ) → bit_xor (bit_xor a b) c ≡ bit_xor a (bit_xor b c)
bit_xor_assoc a b c = assoc_fuel (a + b + c) a b c (omega arith)

pub bit_xor-zero : (a : ℕ) → bit_xor a 0 ≡ a
bit_xor-zero a = bit_xor_comm a 0 ∙ zero-bit_xor a

-- The inner two of four change places.
pub bit_xor_swap :
    (a b c d : ℕ) → bit_xor (bit_xor a b) (bit_xor c d) ≡ bit_xor (bit_xor a c) (bit_xor b d)
bit_xor_swap a b c d =
    bit_xor_assoc a b (bit_xor c d)
    ∙ ap (bit_xor a)
        (sym (bit_xor_assoc b c d) ∙ ap (λ x. bit_xor x d) (bit_xor_comm b c) ∙ bit_xor_assoc c b d)
    ∙ sym (bit_xor_assoc a c (bit_xor b d))

pub doubled : (q k : ℕ) → q * 2 ^ suc k ≡ 2 * (q * 2 ^ k)
doubled q k = omega (arith, ap (λ (p : ℕ). q * p) (pow-suc 2 k))

-- Digits that do not meet are added.
pub bit_xor_fields : (k q r : ℕ) → r < 2 ^ k → bit_xor (q * 2 ^ k) r ≡ q * 2 ^ k + r
bit_xor_fields zero q r h = ground (arith, h, bit_xor-zero q)
bit_xor_fields (suc k) q r h = ground (
  arith,
  bit_xor_step (q * 2 ^ suc k) r,
  doubled q k,
  pow-suc 2 k,
  h,
  bit_xor_fields k q (r / 2) (omega (arith, h, pow-suc 2 k)),
)
