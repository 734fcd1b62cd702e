-- ===== src/Json/RoundTrip.antt =====
-- Lemmas on `json_out_string` and `json_extract_string` of libraries/support/jsonlib.cpp together.
use mathlib.Core.List.{append_assoc}
use core_cleanup_test.Base.{
  ℕ, zero, suc, ◌+◌, ◌<◌, ◌≤◌, ◌≡◌, ◌≢◌, ◌⊎◌, inl, inr, refl, sym, ap, ◌∙◌, arith, List, [], ◌∷◌,
  ◌++◌, false, ◌==◌, ltb, leb, if◌then◌else◌, length, take, All, some, length-take, take_all,
  Bool-cases,
}
use core_cleanup_test.Base.Result.{Result, ok}
use core_cleanup_test.Json.Scan.{
  done, unescaped, extract_loop, extract_string, max_data, loop_ended, skip_white,
}
use core_cleanup_test.Json.Output.{hex4, out_byte, out_loop, quoted, out_string}

-- A printable byte, or one with an escape of its own.
abbrev pub IsPlain : ℕ → Type 0
IsPlain c = (32 ≤ c) × (c < 127) ⊎ (8 ≤ c) × (c ≤ 10) ⊎ (12 ≤ c) × (c ≤ 13)

-- The letter of the escape of a byte.
letter : ℕ → ℕ
letter c =
    if c == 8
    then b'b'
    else if c == 12
    then b'f'
    else if c == 10
    then b'n'
    else if c == 13
    then b'r'
    else if c == 9
    then b't'
    else c

out_byte-cases :
    (hex : ℕ → Result (List ℕ)) (c : ℕ)
    → IsPlain c
    → (out_byte hex c ≡ ok (b'\\' ∷ letter c ∷ [])) × (unescaped (letter c) ≡ some c)
      ⊎ (out_byte hex c ≡ ok (c ∷ [])) × (c ≢ b'"') × (c ≢ b'\\')
unfolding letter
out_byte-cases hex c plain = ground (arith, plain)

extract_loop-escaped :
    (e c : ℕ) (rest : List ℕ)
    → unescaped e ≡ some c
    → extract_loop 0 (b'\\' ∷ e ∷ rest) ≡ (c ∷ (extract_loop 0 rest).0, (extract_loop 0 rest).1)
unfolding extract_loop
extract_loop-escaped e c rest h = ground (arith, h)

extract_loop-plain :
    (c : ℕ) (rest : List ℕ)
    → c ≢ b'"'
    → c ≢ b'\\'
    → extract_loop 0 (c ∷ rest) ≡ (c ∷ (extract_loop 0 rest).0, (extract_loop 0 rest).1)
unfolding extract_loop
extract_loop-plain c rest no_quote no_escape = ground (arith, no_quote, no_escape)

-- What is written for the byte reads as the byte.
IsReadBack : ℕ → List ℕ → Type 0
IsReadBack c b =
    (rest : List ℕ)
    → extract_loop 0 (b ++ rest) ≡ (c ∷ (extract_loop 0 rest).0, (extract_loop 0 rest).1)

out_byte-IsReadBack :
    (hex : ℕ → Result (List ℕ)) (c : ℕ)
    → IsPlain c
    → (b : List ℕ) × (out_byte hex c ≡ ok b) × IsReadBack c b
unfolding IsReadBack
out_byte-IsReadBack hex c plain = elim (out_byte-cases hex c plain) [
  | inl (e, u) ↦ (b'\\' ∷ letter c ∷ [], e, λ rest. extract_loop-escaped (letter c) c rest u)
  | inr (e, no_quote, no_escape) ↦ (c ∷ [], e, λ rest. extract_loop-plain c rest no_quote no_escape)
]

extract_loop-out_loop :
    (hex : ℕ → Result (List ℕ)) (left : ℕ) (s : List ℕ)
    → All IsPlain s
    → (body : List ℕ) × (out_loop hex left s ≡ ok body)
      × ((rest : List ℕ) → extract_loop 0 (body ++ (b'"' ∷ rest)) ≡ (take left s, some rest))
unfolding out_loop IsReadBack
extract_loop-out_loop hex zero [] plain = ([], refl, λ rest. unfold extract_loop in ground arith)
extract_loop-out_loop hex (suc left) [] plain =
    ([], refl, λ rest. unfold extract_loop in ground arith)
extract_loop-out_loop hex zero (c ∷ s) plain =
    ([], refl, λ rest. unfold extract_loop in ground arith)
extract_loop-out_loop hex (suc left) (c ∷ s) plain =
    let (b, written, read) = out_byte-IsReadBack hex c plain.0 in
    let (body, loop, back) = extract_loop-out_loop hex left s plain.1 in
    (
      b ++ body,
      rw (written, loop) refl,
      λ rest. rw (append_assoc b body (b'"' ∷ rest), read (body ++ (b'"' ∷ rest)), back rest) refl,
    )

pub extract_string-found :
    (s v rest old : List ℕ)
    → extract_loop 0 s ≡ (v, some rest)
    → length v < max_data
    → extract_string (b'"' ∷ s) old ≡ (done, rest, v)
unfolding extract_string skip_white
extract_string-found s v rest old e short =
    let fits : leb max_data (length v) ≡ false = ground (arith, short) in
    ap (loop_ended b'"' s) e ∙ rw fits refl

take_limit :
    (s : List ℕ) (len : ℕ)
    → length s < max_data
    → take ((if ltb max_data len then max_data else len) + 1) s ≡ take (len + 1) s
take_limit s len short = elim (Bool-cases (ltb max_data len)) [
  | inl long ↦ rw long (
      take_all (max_data + 1) s (omega (arith, short))
      ∙ sym (take_all (len + 1) s (ground (arith, short, long))))
  | inr fine ↦ rw fine refl
]

-- A string of fewer than 1024 bytes, printable or with an escape of their own, is read back from
-- what `json_out_string` appends for it, whatever follows, up to one byte more than the limit
-- `len`.
pub extract_string-out_string :
    (s : List ℕ) (len : ℕ)
    → All IsPlain s
    → length s < max_data
    → (out : List ℕ) × ((jstring : List ℕ) → out_string jstring s len ≡ ok (jstring ++ out))
      × ((rest old : List ℕ) → extract_string (out ++ rest) old ≡ (done, rest, take (len + 1) s))
unfolding out_string quoted
extract_string-out_string s len plain short =
    let limit = if ltb max_data len then max_data else len in
    let (body, loop, back) = extract_loop-out_loop (λ c. quoted 1 (hex4 c) 4) (limit + 1) s plain in
    (
      b'"' ∷ (body ++ (b'"' ∷ [])),
      (λ jstring. rw loop refl),
      λ rest old.
          extract_string-found ((body ++ (b'"' ∷ [])) ++ rest) (take (len + 1) s) rest old
            (ap (extract_loop 0) (append_assoc body (b'"' ∷ []) rest)
              ∙ rw (sym (take_limit s len short)) (back rest))
            (omega (arith, short, length-take (len + 1) s)),
    )
