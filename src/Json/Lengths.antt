-- ===== src/Json/Lengths.antt =====
-- Lemmas on the scanner of libraries/support/jsonlib.cpp: where each routine leaves the pointer.
use core_cleanup_test.Base.{
  ℕ, zero, suc, ◌+◌, ◌-◌, ◌≤◌, ◌≡◌, inl, inr, refl, arith, List, [], ◌∷◌, ◌==◌, if◌then◌else◌,
  length, Option, none, some, Bool-cases,
}
use core_cleanup_test.Base.Result.{ok}
use core_cleanup_test.Json.Scan.{
  Status, done, eos, scan, noentry, nojmap, is_space, skip_white, skip_character, skip_value,
  extract_nested, extract_quoted, extract_number, closed, extract_value, next_byte, appends,
  extract_loop, last_byte, loop_ended, extract_string,
}
use core_cleanup_test.Json.Tokens.{skipped}

pub length-skip_white : (s : List ℕ) → length (skip_white s).1 ≤ length s
unfolding skip_white
length-skip_white [] = omega arith
length-skip_white (c ∷ s) = ground (arith, length-skip_white s)

pub length-skip_character : (s : List ℕ) (c : ℕ) → length (skip_character s c).1 ≤ length s
length-skip_character [] c = omega arith
length-skip_character (d ∷ s) c = ground arith

pub length-skip_value : (s : List ℕ) → length (skip_value s).1 ≤ length s
unfolding skip_value
length-skip_value [] = omega arith
length-skip_value (c ∷ s) = ground (arith, length-skip_value s)

-- What is left, if anything is, is no longer than `n`.
Within : ℕ → Option (List ℕ) → Type 0
Within n none = Unit
Within n (some rest) = length rest ≤ n

Within-suc : (n : ℕ) (r : Option (List ℕ)) → Within n r → Within (suc n) r
unfolding Within
Within-suc n none h = tt
Within-suc n (some rest) h = omega (arith, h)

extract_loop-Within : (skip : ℕ) (s : List ℕ) → Within (length s) (extract_loop skip s).1
unfolding extract_loop Within
extract_loop-Within skip [] = tt
extract_loop-Within (suc skip) (c ∷ s) =
    Within-suc (length s) (extract_loop skip s).1 (extract_loop-Within skip s)
extract_loop-Within zero (c ∷ s) =
    let skip = (appends c (next_byte s)).1 in
    let later = Within-suc (length s) (extract_loop skip s).1 (extract_loop-Within skip s) in
    elim (Bool-cases (c == b'"')) [
      | inl quote ↦ rw quote (omega arith)
      | inr other ↦ rw other later
    ]

-- The same of a value that is read, and the rest behind it.
Behind : ℕ → Option (List ℕ × List ℕ) → Type 0
Behind n none = Unit
Behind n (some (v, rest)) = length rest ≤ n

Behind-cons :
    (c n : ℕ) (r : Option (List ℕ × List ℕ))
    → Behind n r
    → Behind (suc n) (elim r [ none ↦ none | some (v, s) ↦ some (c ∷ v, s) ])
unfolding Behind
Behind-cons c n none h = tt
Behind-cons c n (some (_, _)) h = omega (arith, h)

extract_nested-Behind :
    (opening closing count : ℕ) (s : List ℕ)
    → Behind (length s) (extract_nested opening closing count s)
unfolding extract_nested Behind
extract_nested-Behind opening closing count [] = tt
extract_nested-Behind opening closing count (c ∷ s) =
    let count' = if c == closing then count - 1 else if c == opening then count + 1 else count in
    let later =
      Behind-cons c (length s) (extract_nested opening closing count' s)
        (extract_nested-Behind opening closing count' s) in
    elim (Bool-cases (count' == 0)) [ inl last ↦ rw last (omega arith) | inr more ↦ rw more later ]

extract_quoted-Behind : (s : List ℕ) → Behind (length s) (extract_quoted s)
unfolding extract_quoted Behind
extract_quoted-Behind [] = tt
extract_quoted-Behind (c ∷ s) =
    let later = Behind-cons c (length s) (extract_quoted s) (extract_quoted-Behind s) in
    elim (Bool-cases (c == b'"')) [ inl last ↦ rw last (omega arith) | inr more ↦ rw more later ]

length-closed :
    (c n : ℕ) (value : List ℕ) (r : Option (List ℕ × List ℕ))
    → Behind n r
    → length (closed c value r).1 ≤ n
unfolding Behind
length-closed c n value none h = omega arith
length-closed c n value (some (_, _)) h = h

length-extract_number : (s : List ℕ) → length (extract_number s).1 ≤ length s
unfolding extract_number
length-extract_number [] = omega arith
length-extract_number (c ∷ s) = ground (arith, length-extract_number s)

length-last_byte : (c : ℕ) (s : List ℕ) → length (last_byte c s) ≡ 1
length-last_byte c [] = refl
length-last_byte c (d ∷ s) = length-last_byte d s

-- At a byte, a value is extracted, and the byte is behind the pointer.
pub extract_value-total :
    (c : ℕ) (s value : List ℕ)
    → (status : Status) × (s' : List ℕ) × (v : List ℕ) × (extract_value (c ∷ s) value
        ≡ ok (status, s', v))
      × (length s' ≤ length s)
unfolding extract_value
extract_value-total c s value =
    let braces = closed c value (extract_nested b'{' b'}' 1 s) in
    let brackets = closed c value (extract_nested b'[' b']' 1 s) in
    let quotes = closed c value (extract_quoted s) in
    let number = extract_number s in
    elim (Bool-cases (c == b'{')) [
      | inl e ↦ (
        braces.0,
        braces.1,
        braces.2,
        rw e refl,
        length-closed c (length s) value (extract_nested b'{' b'}' 1 s)
            (extract_nested-Behind b'{' b'}' 1 s),
      )
      | inr e1 ↦ elim (Bool-cases (c == b'[')) [
        | inl e ↦ (
          brackets.0,
          brackets.1,
          brackets.2,
          rw (e1, e) refl,
          length-closed c (length s) value (extract_nested b'[' b']' 1 s)
              (extract_nested-Behind b'[' b']' 1 s),
        )
        | inr e2 ↦ elim (Bool-cases (c == b'"')) [
          | inl e ↦ (
            quotes.0,
            quotes.1,
            quotes.2,
            rw (e1, e2, e) refl,
            length-closed c (length s) value (extract_quoted s) (extract_quoted-Behind s),
          )
          | inr e3 ↦ (done, number.1, c ∷ number.0, rw (e1, e2, e3) refl, length-extract_number s)
        ]
      ]
    ]

length-loop_ended :
    (c n : ℕ) (s : List ℕ) (r : List ℕ × Option (List ℕ))
    → Within n r.1
    → length (loop_ended c s r).1 ≤ suc n
unfolding Within
length-loop_ended c n s (v, none) h = omega (arith, length-last_byte c s)
length-loop_ended c n s (v, some rest) h = omega (arith, h)

length-extract_string_at :
    (old r : List ℕ)
    → length
        (elim r as (λ _. Status × List ℕ × List ℕ) [
          | [] ↦ (eos, [], old)
          | c ∷ s' ↦ loop_ended c s' (extract_loop 0 s')
        ]).1
      ≤ length r
length-extract_string_at old [] = omega arith
length-extract_string_at old (c ∷ s) =
    length-loop_ended c (length s) s (extract_loop 0 s) (extract_loop-Within 0 s)

pub length-extract_string : (s old : List ℕ) → length (extract_string s old).1 ≤ length s
unfolding extract_string
length-extract_string s old =
    omega (arith, length-extract_string_at old (skip_white s).1, length-skip_white s)

pub skip_white-done :
    (s : List ℕ) → (skip_white s).0 ≡ done → (c : ℕ) × (s' : List ℕ) × ((skip_white s).1 ≡ c ∷ s')
unfolding skip_white
skip_white-done [] e = absurd (ground (arith, e))
skip_white-done (c ∷ s) e = elim (Bool-cases (is_space c)) [
  | inl blank ↦ let (d, s', at) = skip_white-done s (rw blank at e) in (d, s', rw blank at)
  | inr byte ↦ (c, s, rw byte refl)
]

pub length-skipped : (n : ℕ) (p : Status × List ℕ) → length p.1 ≤ n → length (skipped p).1 ≤ n
length-skipped n (done, s) h = h
length-skipped n (eos, s) h = h
length-skipped n (scan, s) h = h
length-skipped n (noentry, s) h = h
length-skipped n (nojmap, s) h = h
