-- ===== src/Strings/Words.antt =====
-- Lemmas on `string_parse` of libraries/support/stringlib.cpp.
use mathlib.Core.List.{append_assoc, append-nil}
use core_cleanup_test.Base.{
  ℕ, ◌+◌, ◌-◌, ◌<◌, ◌≡◌, sym, ap, ◌∙◌, arith, inl, inr, List, [], ◌∷◌, ◌++◌, ◌==◌, if◌then◌else◌,
  length, take, take-append, take_all, length-append, length-take, Bool-cases,
}
use core_cleanup_test.Base.Result.{ok}
use core_cleanup_test.Strings.{is_blank, parse_loop, string_parse}

-- The parts between blanks, empty ones included, and the same with `front` before the first.
parts : List ℕ → List ℕ → List (List ℕ)
parts front [] = front ∷ []
parts front (c ∷ s) = if is_blank c then front ∷ parts [] s else parts (front ++ (c ∷ [])) s

drop_empty : List (List ℕ) → List (List ℕ)
drop_empty [] = []
drop_empty ([] ∷ ws) = drop_empty ws
drop_empty ((c ∷ w) ∷ ws) = (c ∷ w) ∷ drop_empty ws

-- The words of a string: the parts between blanks that are not empty.
pub words_of : List ℕ → List (List ℕ)
unfolding parts drop_empty
words_of s = drop_empty (parts [] s)

-- A word that is complete: it may fill the array.
parse_loop_next :
    (wmax : ℕ) (words more : List (List ℕ)) (word : List ℕ) (rest : List (List ℕ))
    → length words + 1 < wmax
    → (length (words ++ (word ∷ [])) + 1 < wmax
        → rest ≡ take (wmax - 1) ((words ++ (word ∷ [])) ++ more))
    → (if length (words ++ (word ∷ [])) + 1 == wmax then words ++ (word ∷ []) else rest)
      ≡ take (wmax - 1) (words ++ (word ∷ more))
parse_loop_next wmax words more word rest h ih =
    let next = words ++ (word ∷ []) in
    let len = length-append words (word ∷ []) in
    let whole = append_assoc words (word ∷ []) more in
    elim (Bool-cases (length next + 1 == wmax)) [
      | inl e ↦
          let n : wmax - 1 ≡ length next = ground (arith, e) in
          rw (e, n) (sym (take-append next more) ∙ ap (take (length next)) whole)
      | inr e ↦ rw e (ih (ground (arith, e, h, len)) ∙ ap (take (wmax - 1)) whole)
    ]

-- The words up to the bound, with those that are there.
parse_loop-parts :
    (wmax : ℕ) (s word : List ℕ) (words : List (List ℕ))
    → length words + 1 < wmax
    → parse_loop wmax s word words ≡ take (wmax - 1) (words ++ drop_empty (parts word s))
unfolding parse_loop parts drop_empty
parse_loop-parts wmax [] [] words h =
    rw append-nil (sym (take_all (wmax - 1) words (omega (arith, h))))
parse_loop-parts wmax [] (w ∷ word) words h = sym (
    take_all (wmax - 1) (words ++ ((w ∷ word) ∷ []))
      (omega (arith, h, length-append words ((w ∷ word) ∷ []))))
parse_loop-parts wmax (c ∷ s) [] words h = elim (Bool-cases (is_blank c)) [
  | inl b ↦ rw b (parse_loop-parts wmax s [] words h)
  | inr b ↦ rw b (parse_loop-parts wmax s (c ∷ []) words h)
]
parse_loop-parts wmax (c ∷ s) (w ∷ word) words h = elim (Bool-cases (is_blank c)) [
  | inl b ↦
      let next = words ++ ((w ∷ word) ∷ []) in
      rw b (
        parse_loop_next wmax words (drop_empty (parts [] s)) (w ∷ word) (parse_loop wmax s [] next)
          h (λ k. parse_loop-parts wmax s [] next k))
  | inr b ↦ rw b (parse_loop-parts wmax s (w ∷ (word ++ (c ∷ []))) words h)
]

-- With room for more than one pointer, `string_parse` finds the words between blanks, in order, as
-- many as the array has room for with the closing null pointer.
pub string_parse-words_of :
    (s : List ℕ) (wmax : ℕ) → 1 < wmax → string_parse s wmax ≡ ok (take (wmax - 1) (words_of s))
unfolding string_parse words_of
string_parse-words_of s wmax h =
    let p = parse_loop-parts wmax s [] [] (omega (arith, h)) in
    let len = length-take (wmax - 1) (drop_empty (parts [] s)) in rw p (ground (arith, len, h))
