-- ===== src/Json/Scan.antt =====
-- libraries/support/jsonlib.cpp: the scanner of JSON text, and `json_out_string`. A C string is the
-- list of its bytes without the closing zero, and a pointer into one is the rest of the list from
-- there on. A routine that moves the pointer returns where it leaves it beside its status.
-- `char` is signed: a byte from 128 on is negative. `isspace` of such a byte is false. The lengths
-- are below 2^32.
use core_cleanup_test.Base.{
  ℕ, zero, suc, ◌+◌, ◌-◌, List, [], ◌∷◌, ◌++◌, Bool, true, false, ◌&&◌, ◌||◌, ◌==◌, leb,
  if◌then◌else◌, length, take, Option, none, some,
}
use core_cleanup_test.Base.Result.{Result, ok, fault}

-- What a scanning routine returns: zero, or one of the negative errors.
pub data Status : Type 0 where
  done eos scan noentry nojmap : Status

abbrev pub is_space : ℕ → Bool
is_space c = (c == 32) || (leb 9 c && leb c 13)

abbrev pub at_end : List ℕ → Bool
at_end [] = true
at_end (c ∷ s) = false

-- `json_skip_white(ptr)`
unfoldable pub skip_white : List ℕ → Status × List ℕ
skip_white [] = (eos, [])
skip_white (c ∷ s) = let rest = skip_white s in if is_space c then rest else (done, c ∷ s)

-- `json_skip_character(ptr, character)`
abbrev pub skip_character : List ℕ → ℕ → Status × List ℕ
skip_character [] character = (eos, [])
skip_character (c ∷ s) character = if c == character then (done, s) else (scan, c ∷ s)

-- `json_skip_value(ptr)`: to the next opening brace.
unfoldable pub skip_value : List ℕ → Status × List ℕ
skip_value [] = (eos, [])
skip_value (c ∷ s) =
    let rest = skip_value s in if c == b'{' then ((if at_end s then eos else done), c ∷ s) else rest

-- The loop of `json_extract_value` over what braces or brackets hold: `count` are open. What it has
-- read, and the rest behind the closing one.
unfoldable pub extract_nested : ℕ → ℕ → ℕ → List ℕ → Option (List ℕ × List ℕ)
extract_nested opening closing count [] = none
extract_nested opening closing count (c ∷ s) =
    let count' = if c == closing then count - 1 else if c == opening then count + 1 else count in
    let rest = extract_nested opening closing count' s in
    if count' == 0
    then some (c ∷ [], s)
    else elim rest [ none ↦ none | some (v, s') ↦ some (c ∷ v, s') ]

-- The same for what quotes hold.
unfoldable pub extract_quoted : List ℕ → Option (List ℕ × List ℕ)
extract_quoted [] = none
extract_quoted (c ∷ s) =
    let rest = extract_quoted s in
    if c == b'"'
    then some (c ∷ [], s)
    else elim rest [ none ↦ none | some (v, s') ↦ some (c ∷ v, s') ]

-- A byte that goes on with a number.
abbrev pub in_number : ℕ → Bool
in_number c =
    (leb b'0' c && leb c b'9') || ((c == b'e') || ((c == b'E') || ((c == b'.') || (c == b'-'))))

unfoldable pub extract_number : List ℕ → List ℕ × List ℕ
extract_number [] = ([], [])
extract_number (c ∷ s) =
    let (v, s') = extract_number s in if in_number c then (c ∷ v, s') else ([], c ∷ s)

-- With no closing brace the pointer is left at the end, and the value stays as it was.
abbrev pub closed : ℕ → List ℕ → Option (List ℕ × List ℕ) → Status × List ℕ × List ℕ
closed c value none = (eos, [], value)
closed c value (some (v, s)) = (done, s, c ∷ v)

-- `json_extract_value(ptr, value)`: the status, the pointer and the value. At the end of the string
-- the pointer moves past the closing zero.
unfoldable pub extract_value : List ℕ → List ℕ → Result (Status × List ℕ × List ℕ)
unfolding extract_nested extract_quoted extract_number
extract_value [] value = fault
extract_value (c ∷ s) value =
    if c == b'{'
    then ok (closed c value (extract_nested b'{' b'}' 1 s))
    else if c == b'['
    then ok (closed c value (extract_nested b'[' b']' 1 s))
    else if c == b'"'
    then ok (closed c value (extract_quoted s))
    else (let (v, s') = extract_number s in ok (done, s', c ∷ v))

-- `JSON_MAX_DATA`
abbrev pub max_data : ℕ
max_data = 1024

abbrev pub unescaped : ℕ → Option ℕ
unescaped e =
    if (e == b'"') || ((e == b'\\') || (e == b'/'))
    then some e
    else if e == b'b'
    then some 8
    else if e == b'f'
    then some 12
    else if e == b'n'
    then some 10
    else if e == b'r'
    then some 13
    else if e == b't'
    then some 9
    else none

-- `ptr[i2+1]`, which is the closing zero at the end.
abbrev pub next_byte : List ℕ → ℕ
next_byte [] = 0
next_byte (e ∷ s) = e

-- What the loop of `json_extract_string` appends at a byte, and by how much it moves `i2` ahead of the
-- `i2++` of the loop: 4 after an escape that it does not know.
abbrev pub appends : ℕ → ℕ → List ℕ × ℕ
appends c e =
    if c == b'\\' then elim (unescaped e) [ some d ↦ (d ∷ [], 1) | none ↦ ([], 4) ] else (c ∷ [], 0)

-- The loop of `json_extract_string`, with the number of bytes to pass over: the string that it has read,
-- and the rest behind the closing quote if there is one.
unfoldable pub extract_loop : ℕ → List ℕ → List ℕ × Option (List ℕ)
extract_loop skip [] = ([], none)
extract_loop (suc skip) (c ∷ s) = extract_loop skip s
extract_loop zero (c ∷ s) =
    let (pushed, skip) = appends c (next_byte s) in
    let (v, rest) = extract_loop skip s in if c == b'"' then ([], some s) else (pushed ++ v, rest)

-- The last byte of a string that has one.
abbrev pub last_byte : ℕ → List ℕ → List ℕ
last_byte c [] = c ∷ []
last_byte c (d ∷ s) = last_byte d s

-- The end of `json_extract_string` on a string of a first byte and a rest, after the loop.
abbrev pub loop_ended : ℕ → List ℕ → List ℕ × Option (List ℕ) → Status × List ℕ × List ℕ
loop_ended c s (v, none) = (scan, last_byte c s, v)
loop_ended c s (v, some rest) =
    (done, rest, if leb max_data (length v) then take (max_data - 1) v else v)

-- `json_extract_string(ptr, ostring)`: the status, the pointer and the string. The first byte that is
-- no space is passed over, whatever it is.
unfoldable pub extract_string : List ℕ → List ℕ → Status × List ℕ × List ℕ
unfolding skip_white extract_loop
extract_string s ostring = elim (skip_white s).1 [
  | [] ↦ (eos, [], ostring)
  | c ∷ s' ↦ loop_ended c s' (extract_loop 0 s')
]

-- `json_convert_string(object)`
unfoldable pub convert_string : List ℕ → List ℕ
unfolding extract_string
convert_string object = (extract_string object []).2

-- The next step of a scan, unless this one failed.
infixl 5 ◌>>>◌
abbrev pub ◌>>>◌ : Status × List ℕ → (List ℕ → Status × List ℕ) → Status × List ℕ
(done, s) >>> f = f s
(eos, s) >>> f = (eos, s)
(scan, s) >>> f = (scan, s)
(noentry, s) >>> f = (noentry, s)
(nojmap, s) >>> f = (nojmap, s)
