-- ===== src/Strings.antt =====
-- libraries/support/stringlib.cpp: words, wildcards and delimited fields. A C string is the list of
-- its bytes without the closing zero; a pointer into one is the rest of the list from there on.
-- Indices of `string_parse` are of type `uint16_t`: the strings are shorter than 2^16 bytes. The
-- conversion of a field to a number is left out.
pub mod Wildcard
pub mod Words
pub mod Fields
pub mod Runs
use Prim.Native.Nat.{◌*◌}
use core_cleanup_test.Base.{
  ℕ, zero, suc, ◌+◌, ◌-◌, ◌%◌, ◌^◌, List, [], ◌∷◌, ◌++◌, Bool, true, false, ◌&&◌, ◌||◌, ltb, leb,
  ◌==◌, if◌then◌else◌, length, get_elem?, get_or, Option, none, some, add32, sub32,
}
use core_cleanup_test.Base.Result.{Result, ok, fault}

-- A space or a tab.
abbrev pub is_blank : ℕ → Bool
is_blank c = (c == b' ') || (c == b'\t')

-- The loop of `string_parse` after the blanks at the front, and the inner loop over blanks: `word` is
-- what stands at `words[wcount]` so far, and is empty while blanks are skipped. The words that are
-- complete are in `words`.
unfoldable pub parse_loop : ℕ → List ℕ → List ℕ → List (List ℕ) → List (List ℕ)
parse_loop wmax [] [] words = words
parse_loop wmax [] (w ∷ word) words = words ++ ((w ∷ word) ∷ [])
parse_loop wmax (c ∷ s) [] words =
    if is_blank c then parse_loop wmax s [] words else parse_loop wmax s (c ∷ []) words
parse_loop wmax (c ∷ s) (w ∷ word) words =
    let next = words ++ ((w ∷ word) ∷ []) in
    let skipped = parse_loop wmax s [] next in
    let longer = parse_loop wmax s (w ∷ (word ++ (c ∷ []))) words in
    if is_blank c then (if length next + 1 == wmax then next else skipped) else longer

-- `string_parse(string, words, wmax)`: the words; their number is what the call returns. The closing
-- null pointer goes to `words[wcount]`, which has to be inside the array.
unfoldable pub string_parse : List ℕ → ℕ → Result (List (List ℕ))
unfolding parse_loop
string_parse s wmax =
    let words = parse_loop wmax s [] [] in
    if leb wmax (length words) then (if length words == 0 then ok [] else fault) else ok words

-- `'*'` and `'?'`
abbrev pub star : ℕ
star = 42

abbrev pub any_one : ℕ
any_one = 63

-- Whether a byte of the pattern that is not `*` stands for a byte of the string.
abbrev pub byte_fits : ℕ → ℕ → Bool
byte_fits w c = (w == c) || (w == any_one)

-- The last loop: only stars are left.
unfoldable pub only_stars : List ℕ → Bool
only_stars [] = true
only_stars (w ∷ wild) = if w == star then only_stars wild else false

-- The second loop, with `mp` and `cp` once they are set. `cp` is moved one behind the end of the
-- string at most, where it is not read; it stays at the end in the model.
abbrev pub Back : Type 0
Back = Option (List ℕ × List ℕ)

abbrev pub tail : List ℕ → List ℕ
tail [] = []
tail (c ∷ s) = s

unfoldable pub cmp_loop : ℕ → List ℕ → List ℕ → Back → Result Bool
unfolding only_stars
cmp_loop fuel wild [] back = ok (only_stars wild)
cmp_loop zero wild (c ∷ s) back = fault
cmp_loop (suc fuel) [] (c ∷ s) none = fault
cmp_loop (suc fuel) [] (c ∷ s) (some (mp, cp)) = cmp_loop fuel mp cp (some (mp, tail cp))
cmp_loop (suc fuel) (w ∷ wild) (c ∷ s) none =
    let starred = cmp_loop fuel wild (c ∷ s) (some (wild, s)) in
    let onward = cmp_loop fuel wild s none in
    if w == star
    then elim wild [ [] ↦ ok true | _ ∷ _ ↦ starred ]
    else if byte_fits w c
    then onward
    else fault
cmp_loop (suc fuel) (w ∷ wild) (c ∷ s) (some (mp, cp)) =
    let starred = cmp_loop fuel wild (c ∷ s) (some (wild, s)) in
    let onward = cmp_loop fuel wild s (some (mp, cp)) in
    let retried = cmp_loop fuel mp cp (some (mp, tail cp)) in
    if w == star
    then elim wild [ [] ↦ ok true | _ ∷ _ ↦ starred ]
    else if byte_fits w c
    then onward
    else retried

-- The first loop, up to the first star.
unfoldable pub cmp_front : ℕ → List ℕ → List ℕ → Result Bool
unfolding cmp_loop only_stars
cmp_front fuel wild [] = ok (only_stars wild)
cmp_front fuel [] (c ∷ s) = ok false
cmp_front fuel (w ∷ wild) (c ∷ s) =
    let onward = cmp_front fuel wild s in
    if w == star
    then cmp_loop fuel (w ∷ wild) (c ∷ s) none
    else if byte_fits w c
    then onward
    else ok false

-- `string_cmp(wild, string)`. The second loop gives up a byte of the string each time it goes back.
unfoldable pub string_cmp : List ℕ → List ℕ → Result Bool
unfolding cmp_front
string_cmp wild string = cmp_front ((length string + 1) * (length wild + 2)) wild string

-- The loop of `splitString`: `token` is what `getline` has read of the field so far. A field that
-- is empty at the end of the text is none.
unfoldable pub fields : ℕ → List ℕ → List ℕ → List (List ℕ)
fields delimiter [] [] = []
fields delimiter [] (t ∷ token) = (t ∷ token) ∷ []
fields delimiter (c ∷ s) token =
    let next = token ∷ fields delimiter s [] in
    let longer = fields delimiter s (token ++ (c ∷ [])) in if c == delimiter then next else longer

-- `StringParser`: the fields, and the offset of their numbers as `uint32_t`.
pub record StringParser : Type 0 where
  pub vect : List (List ℕ)
  pub offset : ℕ

-- `StringParser(str, delimiter)`
unfoldable pub split_string : List ℕ → ℕ → StringParser
unfolding fields
split_string str delimiter = record { vect = fields delimiter str []; offset = 2 ^ 32 - 1 }

-- `getFieldNumber(index)`
unfoldable pub field_number : StringParser → ℕ → List ℕ
field_number p index =
    let real_offset = add32 index p.offset in
    if ltb 0 index && (leb real_offset (length p.vect) && ltb real_offset (length p.vect))
    then get_or p.vect real_offset []
    else []
