-- ===== src/Json/Numbers.antt =====
-- The numbers of libraries/support/jsonlib.cpp: how far json_parse_number moves.
use core_cleanup_test.Base.{ℕ, ◌≤◌, arith, List, [], ◌∷◌, length}
use core_cleanup_test.Json.Scan.{Status, done, eos, scan, noentry, nojmap, skip_white}
use core_cleanup_test.Json.Lengths.{length-skip_white}
use core_cleanup_test.Json.Brackets.{
  skip_digits, skip_one, skip_fraction, skip_exponent, number_at, parse_number,
}

length-skip_digits : (s : List ℕ) → length (skip_digits s) ≤ length s
unfolding skip_digits
length-skip_digits [] = omega arith
length-skip_digits (c ∷ s) = ground (arith, length-skip_digits s)

length-skip_one : (d : ℕ) (s : List ℕ) → length (skip_one d s) ≤ length s
length-skip_one d [] = omega arith
length-skip_one d (c ∷ s) = ground arith

length-skip_fraction : (s : List ℕ) → length (skip_fraction s) ≤ length s
length-skip_fraction [] = omega arith
length-skip_fraction (c ∷ s) = ground (arith, length-skip_digits s)

length-skip_exponent : (s : List ℕ) → length (skip_exponent s) ≤ length s
length-skip_exponent [] = omega arith
length-skip_exponent (c ∷ s) =
    ground (arith, length-skip_digits (skip_one b'-' s), length-skip_one b'-' s)

length-number_at : (r : Status × List ℕ) → length (number_at r).1 ≤ length r.1
unfolding number_at
length-number_at (done, s) =
    let a = skip_digits (skip_one b'-' s) in
    omega (
      arith,
      length-skip_exponent (skip_fraction a),
      length-skip_fraction a,
      length-skip_digits (skip_one b'-' s),
      length-skip_one b'-' s,
    )
length-number_at (eos, s) = omega arith
length-number_at (scan, s) = omega arith
length-number_at (noentry, s) = omega arith
length-number_at (nojmap, s) = omega arith

pub length-parse_number : (s : List ℕ) → length (parse_number s).1 ≤ length s
unfolding parse_number
length-parse_number [] = omega arith
length-parse_number (c ∷ s) =
    omega (arith, length-number_at (skip_white (c ∷ s)), length-skip_white (c ∷ s))
