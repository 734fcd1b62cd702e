-- ===== src/Json/Output.antt =====
-- libraries/support/jsonlib.cpp: `json_out_string` and what it calls. A string is the list of its
-- bytes; `char` is signed, so a byte from 128 on is negative.
use core_cleanup_test.Base.{
  ℕ, zero, suc, ◌+◌, ◌%◌, ◌/◌, List, [], ◌∷◌, ◌++◌, ◌||◌, ◌==◌, ltb, leb, if◌then◌else◌,
}
use core_cleanup_test.Base.Result.{Result, ok, fault, ◌>>=◌}
use core_cleanup_test.Json.Names.{cosmos_max_name}
use core_cleanup_test.Json.Scan.{max_data}

-- `json_append(jstring, tstring)` and `json_out_character(jstring, character)`
abbrev pub append : List ℕ → List ℕ → List ℕ
append jstring tstring = jstring ++ tstring

abbrev pub out_character : List ℕ → ℕ → List ℕ
out_character jstring character = append jstring (character ∷ [])

abbrev pub hex_digit : ℕ → ℕ
hex_digit d = if ltb d 10 then 48 + d else 87 + d

-- `sprintf(tstring, "%04x", c)` of a byte below 128.
abbrev pub hex4 : ℕ → List ℕ
hex4 c = 48 ∷ 48 ∷ hex_digit (c / 16) ∷ hex_digit (c % 16) ∷ []

-- The body of the loop of `json_out_string`: what it appends for a byte. `hex` is the call of
-- `json_out_string` on the four digits. Those of a negative byte are eight, for a buffer of five.
abbrev pub out_byte : (ℕ → Result (List ℕ)) → ℕ → Result (List ℕ)
out_byte hex c =
    if (c == b'"') || ((c == b'\\') || (c == b'/'))
    then ok (b'\\' ∷ c ∷ [])
    else if leb 128 c
    then fault
    else if c == 8
    then ok (b'\\' ∷ b'b' ∷ [])
    else if c == 12
    then ok (b'\\' ∷ b'f' ∷ [])
    else if c == 10
    then ok (b'\\' ∷ b'n' ∷ [])
    else if c == 13
    then ok (b'\\' ∷ b'r' ∷ [])
    else if c == 9
    then ok (b'\\' ∷ b't' ∷ [])
    else if ltb c 32 || leb 127 c
    then (hex c >>= λ digits. ok (b'\\' ∷ b'u' ∷ digits))
    else ok (c ∷ [])

-- The loop, with the number of bytes that it may still take.
unfoldable pub out_loop : (ℕ → Result (List ℕ)) → ℕ → List ℕ → Result (List ℕ)
out_loop hex left [] = ok []
out_loop hex zero (c ∷ s) = ok []
out_loop hex (suc left) (c ∷ s) = do b ← out_byte hex c; rest ← out_loop hex left s; ok (b ++ rest)

-- What `json_out_string` appends. The first argument bounds how deep it calls itself: once, since the
-- four digits need no further call. The loop ends only when `i` is over the limit.
unfoldable pub quoted : ℕ → List ℕ → ℕ → Result (List ℕ)
unfolding out_loop
quoted zero s len = fault
quoted (suc depth) s len = do
  let limit = if ltb max_data len then max_data else len
  body ← out_loop (λ c. quoted depth (hex4 c) 4) (limit + 1) s
  ok (b'"' ∷ (body ++ (b'"' ∷ [])))

-- `json_out_string(jstring, ostring, len)`
unfoldable pub out_string : List ℕ → List ℕ → ℕ → Result (List ℕ)
unfolding quoted
out_string jstring ostring len = quoted 2 ostring len >>= λ q. ok (append jstring q)

-- `json_out_name(jstring, name)`
unfoldable pub out_name : List ℕ → List ℕ → Result (List ℕ)
unfolding out_string
out_name jstring name = out_string jstring name cosmos_max_name >>= λ j. ok (out_character j b':')
