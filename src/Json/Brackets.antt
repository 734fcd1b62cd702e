-- ===== src/Json/Brackets.antt =====
-- libraries/support/jsonlib.cpp: the texts of equations and numbers.
use core_cleanup_test.Base.{
  ◌%◌, zero, suc, ℕ, ◌+◌, ◌-◌, List, [], ◌∷◌, ◌++◌, Bool, true, false, ◌&&◌, ◌||◌, ◌==◌, leb,
  if◌then◌else◌, Option, none, some,
}
use core_cleanup_test.Json.Scan.{Status, done, eos, scan, is_space, skip_white, last_byte}

unfoldable pub next_depth : ℕ → ℕ → ℕ
next_depth depth c =
    if c == b')' then depth - 1 else if c == b'(' then (depth + 1) % 65536 else depth

-- White space is not appended.
abbrev pub append_byte : ℕ → List ℕ → List ℕ
append_byte c v = if is_space c then v else c ∷ v

-- One turn of the loop, at the closing bracket or before.
abbrev pub equation_turn :
    Bool → ℕ → List ℕ → Option (List ℕ × Option (List ℕ)) → Option (List ℕ × Option (List ℕ))
equation_turn true c s later = some (append_byte c [], some s)
equation_turn false c s none = none
equation_turn false c s (some (v, rest)) = some (append_byte c v, rest)

-- The loop of `json_parse_equation`, with `depth` brackets open and the number of turns left until
-- `i2`, which has 16 bits, is back at 0: what it appends, and the rest behind the closing bracket if
-- there is one. The turns from there on are not followed.
unfoldable pub equation_loop : ℕ → ℕ → List ℕ → Option (List ℕ × Option (List ℕ))
unfolding next_depth
equation_loop zero depth s = none
equation_loop (suc left) depth [] = some ([], none)
equation_loop (suc left) depth (c ∷ s) =
    let depth' = next_depth depth c in equation_turn (depth' == 0) c s (equation_loop left depth' s)

unfoldable pub equation_ended :
    ℕ → List ℕ → List ℕ → Option (List ℕ × Option (List ℕ)) → Option (Status × List ℕ × List ℕ)
equation_ended c s equation none = none
equation_ended c s equation (some (v, none)) = some (scan, last_byte c s, equation ++ (c ∷ v))
equation_ended c s equation (some (v, some rest)) = some (done, rest, equation ++ (c ∷ v))

-- `json_parse_equation(ptr, equation)` from behind the white space on.
unfoldable pub equation_at : List ℕ → List ℕ → Option (Status × List ℕ × List ℕ)
unfolding equation_loop equation_ended
equation_at [] equation = some (scan, [], equation)
equation_at (c ∷ s) equation =
    if c == b'('
    then equation_ended c s equation (equation_loop 65535 1 s)
    else some (scan, c ∷ s, equation)

-- `json_parse_equation(ptr, equation)`: the status, the pointer and the equation, or none where `i2`
-- wraps.
unfoldable pub parse_equation : List ℕ → List ℕ → Option (Status × List ℕ × List ℕ)
unfolding equation_at skip_white
parse_equation [] equation = some (eos, [], equation)
parse_equation (c ∷ s) equation = equation_at (skip_white (c ∷ s)).1 equation

-- The digits at the front are passed over.
unfoldable pub skip_digits : List ℕ → List ℕ
skip_digits [] = []
skip_digits (c ∷ s) = let rest = skip_digits s in if leb b'0' c && leb c b'9' then rest else c ∷ s

abbrev pub skip_one : ℕ → List ℕ → List ℕ
skip_one d [] = []
skip_one d (c ∷ s) = if c == d then s else c ∷ s

-- The fraction and the exponent of a number, if there are any.
abbrev pub skip_fraction : List ℕ → List ℕ
skip_fraction [] = []
skip_fraction (c ∷ s) = if c == b'.' then skip_digits s else c ∷ s

abbrev pub skip_exponent : List ℕ → List ℕ
skip_exponent [] = []
skip_exponent (c ∷ s) = if (c == b'e') || (c == b'E') then skip_digits (skip_one b'-' s) else c ∷ s

-- What `json_parse_number(ptr, number)` scans, after the white space: the status, the pointer, and the
-- text that `sscanf` reads.
unfoldable pub number_at : Status × List ℕ → Status × List ℕ × Option (List ℕ)
number_at (done, s) = (done, skip_exponent (skip_fraction (skip_digits (skip_one b'-' s))), some s)
number_at (reason, s) = (reason, s, none)

unfoldable pub parse_number : List ℕ → Status × List ℕ × Option (List ℕ)
unfolding number_at skip_digits skip_white
parse_number [] = (eos, [], none)
parse_number (c ∷ s) = number_at (skip_white (c ∷ s))
