-- ===== src/Tnc/Sequence.antt =====
-- The frame check sequence of libraries/device/general/kisstnc_lib.cpp, by a table, and the checksum
-- of libraries/support/sliplib.cpp, bit by bit.
use Prim.Native.Nat.{◌*◌, bit_xor}
use core_cleanup_test.Base.{
  ◌+◌, length, ℕ, zero, suc, ◌-◌, ◌/◌, ◌%◌, ◌^◌, ◌<◌, ◌≡◌, refl, sym, ap, ◌∙◌, arith, List, [], ◌∷◌,
  Bool, true, ◌&&◌, ◌==◌, false, All-take, if◌then◌else◌, take, get_or, All, Bool-cases, inl, inr,
}
use core_cleanup_test.Base.Xor.{
  zero-bit_xor, bit_xor-zero, bit_xor_half, bit_xor_parity, bit_xor_assoc, bit_xor_comm,
  bit_xor_swap, bit_xor_fields, doubled,
}
use core_cleanup_test.Base.Bits.{bit_xor-lt}
use native.Mathlib.Nat.{pow-suc}
use core_cleanup_test.Base.Result.{ok, ◌>>=◌}
use core_cleanup_test.Slip.{crc_bit, crc_bits, crc_bytes, calc_crc}
use core_cleanup_test.Tnc.Table.{fcstab}
use core_cleanup_test.Tnc.{fcs_loop, calc_fcs}

-- The polynomial where the lowest bit is set.
abbrev tap : ℕ → ℕ
tap c = if c % 2 == 1 then 0x8408 else 0

crc_bit-zero : (c : ℕ) → crc_bit c 0 ≡ bit_xor (c / 2) (tap c)
unfolding crc_bit
crc_bit-zero c = rw (zero-bit_xor c) refl

tap-bit_xor : (a b : ℕ) → tap (bit_xor a b) ≡ bit_xor (tap a) (tap b)
tap-bit_xor a b = elim (Bool-cases (a % 2 == 1)) [
  | inl p ↦ elim (Bool-cases (b % 2 == 1)) [
    | inl q ↦ rw (p, q) (ground (arith, p, q, bit_xor_parity a b))
    | inr q ↦ rw (p, q) (ground (arith, p, q, bit_xor_parity a b))
  ]
  | inr p ↦ elim (Bool-cases (b % 2 == 1)) [
    | inl q ↦ rw (p, q) (ground (arith, p, q, bit_xor_parity a b))
    | inr q ↦ rw (p, q) (ground (arith, p, q, bit_xor_parity a b))
  ]
]

-- A round is linear, and so are eight.
crc_bit_linear : (a b : ℕ) → crc_bit (bit_xor a b) 0 ≡ bit_xor (crc_bit a 0) (crc_bit b 0)
crc_bit_linear a b =
    crc_bit-zero (bit_xor a b)
    ∙ rw (bit_xor_half a b, tap-bit_xor a b)
        (bit_xor_swap (a / 2) (b / 2) (tap a) (tap b)
          ∙ rw (← crc_bit-zero a, ← crc_bit-zero b) refl)

crc_bits_linear :
    (n a b : ℕ) → crc_bits n (bit_xor a b) 0 ≡ bit_xor (crc_bits n a 0) (crc_bits n b 0)
unfolding crc_bits
crc_bits_linear zero a b = refl
crc_bits_linear (suc n) a b =
    ap (λ c. crc_bits n c 0) (crc_bit_linear a b) ∙ crc_bits_linear n (crc_bit a 0) (crc_bit b 0)

-- The bits of the byte may be mixed into the register first.
crc_bit_mixed : (crc ch : ℕ) → bit_xor (crc_bit crc ch) (ch / 2) ≡ crc_bit (bit_xor crc ch) 0
crc_bit_mixed crc ch =
    let parity : bit_xor ch crc % 2 ≡ bit_xor crc ch % 2 = rw (bit_xor_comm ch crc) refl in
    unfold crc_bit in
    rw (zero-bit_xor (bit_xor crc ch), bit_xor_half crc ch, parity)
      (bit_xor_assoc (crc / 2) (tap (bit_xor crc ch)) (ch / 2)
        ∙ ap (bit_xor (crc / 2)) (bit_xor_comm (tap (bit_xor crc ch)) (ch / 2))
        ∙ sym (bit_xor_assoc (crc / 2) (ch / 2) (tap (bit_xor crc ch))))

crc_bits_mixed : (n crc ch : ℕ) → ch < 2 ^ n → crc_bits n crc ch ≡ crc_bits n (bit_xor crc ch) 0
unfolding crc_bits
crc_bits_mixed zero crc ch h =
    let none_left : ch ≡ 0 = omega (arith, h) in rw (none_left, bit_xor-zero crc) refl
crc_bits_mixed (suc n) crc ch h =
    crc_bits_mixed n (crc_bit crc ch) (ch / 2) (omega (arith, h, pow-suc 2 n))
    ∙ ap (λ c. crc_bits n c 0) (crc_bit_mixed crc ch)

-- Zero bits only shift.
crc_bits_shift : (n h : ℕ) → crc_bits n (h * 2 ^ n) 0 ≡ h
unfolding crc_bits
crc_bits_shift zero h = omega arith
crc_bits_shift (suc n) h =
    let even : h * 2 ^ suc n ≡ 2 * (h * 2 ^ n) = doubled h n in
    let half : h * 2 ^ suc n / 2 ≡ h * 2 ^ n = omega (arith, even) in
    let none_set : (h * 2 ^ suc n % 2 == 1) ≡ false = ground (arith, even) in
    ap (λ c. crc_bits n c 0)
      (crc_bit-zero (h * 2 ^ suc n) ∙ rw (half, none_set) (bit_xor-zero (h * 2 ^ n)))
    ∙ crc_bits_shift n h

-- A register of any width: its upper part is shifted, and its lowest byte goes through the rounds.
crc_bits_split : (x : ℕ) → crc_bits 8 x 0 ≡ bit_xor (x / 256) (crc_bits 8 (x % 256) 0)
crc_bits_split x =
    let fields : x ≡ bit_xor (x / 256 * 2 ^ 8) (x % 256) =
      omega (arith, bit_xor_fields 8 (x / 256) (x % 256) (omega arith)) in
    ap (λ c. crc_bits 8 c 0) fields
    ∙ crc_bits_linear 8 (x / 256 * 2 ^ 8) (x % 256)
    ∙ ap (λ c. bit_xor c (crc_bits 8 (x % 256) 0)) (crc_bits_shift 8 (x / 256))

-- A byte leaves the upper part of the register alone.
upper_kept : (crc ch : ℕ) → ch < 256 → bit_xor crc ch / 256 ≡ crc / 256
upper_kept crc ch h =
    let fields : crc ≡ bit_xor (crc / 256 * 2 ^ 8) (crc % 256) =
      omega (arith, bit_xor_fields 8 (crc / 256) (crc % 256) (omega arith)) in
    let low : bit_xor (crc % 256) ch < 2 ^ 8 = bit_xor-lt 8 (crc % 256) ch (omega arith) h in
    omega (
      arith,
      ap (λ c. bit_xor c ch) fields,
      bit_xor_assoc (crc / 256 * 2 ^ 8) (crc % 256) ch,
      bit_xor_fields 8 (crc / 256) (bit_xor (crc % 256) ch) low,
      low,
    )

-- The entries of a table from index `i` on are what eight rounds make of their indices.
abbrev agrees : ℕ → List ℕ → Bool
agrees i [] = true
agrees i (t ∷ table) = (t == crc_bits 8 i 0) && agrees (i + 1) table

get_or-agrees :
    (table : List ℕ) (i j x : ℕ)
    → agrees i table ≡ true
    → x ≡ i + j
    → j < length table
    → get_or table j 0 ≡ crc_bits 8 x 0
get_or-agrees [] i j x h e l = absurd (omega (arith, l))
get_or-agrees (t ∷ table) i zero x h e l =
    let same : x ≡ i = omega (arith, e) in rw same (ground (arith, h))
get_or-agrees (t ∷ table) i (suc j) x h e l =
    get_or-agrees table (i + 1) j x (ground (arith, h)) (omega (arith, e)) (omega (arith, l))

agrees-fcstab : agrees 0 fcstab ≡ true
unfolding fcstab crc_bits crc_bit
agrees-fcstab = refl

length-fcstab : length fcstab ≡ 256
unfolding fcstab
length-fcstab = refl

get_or-fcstab : (x : ℕ) → x < 256 → get_or fcstab x 0 ≡ crc_bits 8 x 0
get_or-fcstab x h =
    get_or-agrees fcstab 0 x x agrees-fcstab (omega arith) (omega (arith, h, length-fcstab))

byte_round :
    (crc ch : ℕ)
    → ch < 256
    → bit_xor (crc / 256) (get_or fcstab (bit_xor crc ch % 256) 0) ≡ crc_bits 8 crc ch
byte_round crc ch h =
    ap (bit_xor (crc / 256)) (get_or-fcstab (bit_xor crc ch % 256) (omega arith))
    ∙ ap (λ c. bit_xor c (crc_bits 8 (bit_xor crc ch % 256) 0)) (sym (upper_kept crc ch h))
    ∙ sym (crc_bits_split (bit_xor crc ch))
    ∙ sym (crc_bits_mixed 8 crc ch h)

fcs_loop-crc_bytes :
    (bytes : List ℕ) (crc : ℕ) → All (λ b. b < 256) bytes → fcs_loop crc bytes ≡ crc_bytes crc bytes
unfolding fcs_loop crc_bytes
fcs_loop-crc_bytes [] crc h = refl
fcs_loop-crc_bytes (d ∷ more) crc h =
    ap (λ c. fcs_loop c more) (byte_round crc d h.0)
    ∙ fcs_loop-crc_bytes more (crc_bits 8 crc d) h.1

-- `kisstnc_calc_fcs`, which goes through the table of 256 words, returns for bytes below 256 the
-- complement of what `slip_calc_crc` computes bit by bit, and leaves the buffer where that does.
pub calc_fcs-calc_crc :
    (bytes : List ℕ) (size : ℕ)
    → All (λ b. b < 256) bytes
    → calc_fcs bytes size ≡ (calc_crc bytes size >>= λ crc. ok (65535 - crc))
unfolding calc_fcs calc_crc
calc_fcs-calc_crc bytes size h =
    rw (fcs_loop-crc_bytes (take size bytes) 0xffff (All-take (λ b. b < 256) size bytes h))
      (ground arith)
