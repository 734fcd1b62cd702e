-- ===== src/Strings/Fields.antt =====
-- Lemmas on `StringParser` of libraries/support/stringlib.cpp.
use mathlib.Core.List.{append_assoc, append-nil}
use core_cleanup_test.Base.{
  ℕ, zero, suc, ◌-◌, ◌^◌, ◌<◌, ◌≡◌, ◌≢◌, refl, ap, ◌∙◌, arith, List, [], ◌∷◌, ◌++◌, if◌then◌else◌,
  length, get_or, All, ltb, leb, ◌&&◌, add32,
}
use core_cleanup_test.Strings.{fields, split_string, field_number}

-- A list of fields as text, each with the delimiter behind it.
pub delimited : ℕ → List (List ℕ) → List ℕ
delimited d [] = []
delimited d (p ∷ ps) = p ++ (d ∷ delimited d ps)

fields-append :
    (d : ℕ) (p rest token : List ℕ)
    → All (λ c. c ≢ d) p
    → fields d (p ++ (d ∷ rest)) token ≡ (token ++ p) ∷ fields d rest []
unfolding fields
fields-append d [] rest token h = rw append-nil (ground arith)
fields-append d (c ∷ p) rest token h =
    ground
      (arith, h.0, fields-append d p rest (token ++ (c ∷ [])) h.1, append_assoc token (c ∷ []) p)

fields-delimited :
    (d : ℕ) (ps : List (List ℕ)) → All (All (λ c. c ≢ d)) ps → fields d (delimited d ps) [] ≡ ps
unfolding delimited
fields-delimited d [] h = unfold fields in refl
fields-delimited d (p ∷ ps) h =
    fields-append d p (delimited d ps) [] h.0 ∙ ap (λ l. p ∷ l) (fields-delimited d ps h.1)

-- Fewer than 2^31 fields without a delimiter inside, each with a delimiter behind it, are found
-- again under their numbers, which begin at 1; under 0 and past the last there is the empty
-- string.
pub field_number-delimited :
    (d : ℕ) (ps : List (List ℕ)) (index : ℕ)
    → All (All (λ c. c ≢ d)) ps
    → length ps < 2 ^ 31
    → index < 2 ^ 32
    → field_number (split_string (delimited d ps) d) index
      ≡ (if ltb 0 index && leb index (length ps) then get_or ps (index - 1) [] else [])
unfolding field_number split_string
field_number-delimited d ps zero h small word = ground arith
field_number-delimited d ps (suc i) h small word =
    let e : add32 (suc i) (2 ^ 32 - 1) ≡ i = omega (arith, word) in
    let e' : suc i - 1 ≡ i = omega arith in
    rw (fields-delimited d ps h, e, e') (ground (arith, small))
