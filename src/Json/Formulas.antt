-- ===== src/Json/Formulas.antt =====
-- The equations of libraries/support/jsonlib.cpp: how their texts are read.
use core_cleanup_test.Base.{
  zero, ◌%◌, ℕ, suc, ◌+◌, ◌-◌, ◌<◌, ◌≤◌, ◌≡◌, ◌≢◌, refl, ap, ◌∙◌, arith, List, [], ◌∷◌, ◌++◌, Bool,
  true, false, ◌&&◌, ◌==◌, ltb, if◌then◌else◌, length, Option, none, some, All, Bool-cases, inl,
  inr,
}
use core_cleanup_test.Json.Scan.{Status, done, is_space, skip_white}
use core_cleanup_test.Json.Lengths.{length-skip_white}
use core_cleanup_test.Json.Brackets.{
  next_depth, equation_turn, equation_loop, equation_ended, equation_at, parse_equation,
}

-- A text whose last byte is the closing bracket of the first of `depth` brackets that are open.
unfoldable pub closes : ℕ → List ℕ → Bool
closes depth [] = false
closes depth (c ∷ []) = (c == b')') && (depth == 1)
closes depth (c ∷ d ∷ s) =
    if c == b')'
    then ltb 1 depth && closes (depth - 1) (d ∷ s)
    else if c == b'('
    then closes (depth + 1) (d ∷ s)
    else closes depth (d ∷ s)

-- One byte more, as the loop counts it.
closes-next_depth :
    (c d : ℕ) (s : List ℕ) (depth : ℕ)
    → 0 < depth
    → depth + 1 < 65536
    → closes depth (c ∷ d ∷ s) ≡ true
    → (0 < next_depth depth c) × (closes (next_depth depth c) (d ∷ s) ≡ true)
unfolding closes next_depth
closes-next_depth c d s depth l b h = elim (Bool-cases (c == b')')) [
  | inl e ↦
      let h' : (ltb 1 depth && closes (depth - 1) (d ∷ s)) ≡ true = rw e at h in
      rw e (ground (arith, h'), ground (arith, h'))
  | inr e ↦ elim (Bool-cases (c == b'(')) [
    | inl q ↦
        let up : (depth + 1) % 65536 ≡ depth + 1 = omega (arith, b) in
        rw (e, q, up) (omega arith, rw (e, q) at h)
    | inr q ↦ rw (e, q) (l, rw (e, q) at h)
  ]
]

-- A text without its white space.
unfoldable pub packed : List ℕ → List ℕ
packed [] = []
packed (c ∷ s) = let rest = packed s in if is_space c then rest else c ∷ rest

closed-next_depth : (c depth : ℕ) → closes depth (c ∷ []) ≡ true → next_depth depth c ≡ 0
unfolding closes next_depth
closed-next_depth c depth h = ground (arith, h)

next_depth-le : (depth c : ℕ) → next_depth depth c ≤ depth + 1
unfolding next_depth
next_depth-le depth c = ground arith

closes-ne : (depth : ℕ) → closes depth [] ≢ true
unfolding closes
closes-ne depth h = absurd (ground (arith, h))

equation_loop-closes :
    (text rest : List ℕ) (left depth : ℕ)
    → 0 < depth
    → length text ≤ left
    → depth + length text ≤ 65536
    → closes depth text ≡ true
    → equation_loop left depth (text ++ rest) ≡ some (packed text, some rest)
unfolding equation_loop packed
equation_loop-closes [] rest left depth l f b h = absurd (closes-ne depth h)
equation_loop-closes (c ∷ text) rest zero depth l f b h = absurd (omega (arith, f))
equation_loop-closes (c ∷ []) rest (suc left) depth l f b h = rw (closed-next_depth c depth h) refl
equation_loop-closes (c ∷ d ∷ text) rest (suc left) depth l f b h =
    let (more, h') = closes-next_depth c d text depth l (omega (arith, b)) h in
    let e : (next_depth depth c == 0) ≡ false = ground (arith, more) in
    let later =
      equation_loop-closes (d ∷ text) rest left (next_depth depth c) more (omega (arith, f))
        (omega (arith, b, next_depth-le depth c)) h' in
    rw e (ap (λ r. equation_turn false c (d ∷ (text ++ rest)) r) later)

skip_white-append :
    (white s : List ℕ) (c : ℕ)
    → All (λ b. is_space b ≡ true) white
    → is_space c ≡ false
    → skip_white (white ++ (c ∷ s)) ≡ (done, c ∷ s)
unfolding skip_white
skip_white-append [] s c h k = rw k refl
skip_white-append (b ∷ white) s c h k = rw h.0 (skip_white-append white s c h.1 k)

equation_at-closes :
    (text rest old : List ℕ)
    → length text < 65536
    → closes 1 text ≡ true
    → equation_at (b'(' ∷ (text ++ rest)) old ≡ some (done, rest, old ++ (b'(' ∷ packed text))
unfolding equation_at equation_ended
equation_at-closes text rest old l k =
    ap (equation_ended b'(' (text ++ rest) old)
      (equation_loop-closes text rest 65535 1 (omega arith) (omega (arith, l)) (omega (arith, l)) k)

-- Where the text behind an opening bracket has fewer than 2^16 bytes and ends with the bracket
-- that closes it, and white space may stand in front, `json_parse_equation` succeeds, appends the
-- bracket and the text without its white space, and leaves the pointer right behind.
pub parse_equation-closes :
    (white text rest old : List ℕ)
    → All (λ b. is_space b ≡ true) white
    → length text < 65536
    → closes 1 text ≡ true
    → parse_equation (white ++ (b'(' ∷ (text ++ rest))) old
      ≡ some (done, rest, old ++ (b'(' ∷ packed text))
unfolding parse_equation
parse_equation-closes [] text rest old h l k =
    ap (λ r. equation_at r.1 old) (skip_white-append [] (text ++ rest) b'(' tt refl)
    ∙ equation_at-closes text rest old l k
parse_equation-closes (b ∷ white) text rest old h l k =
    ap (λ r. equation_at r.1 old) (skip_white-append (b ∷ white) (text ++ rest) b'(' h refl)
    ∙ equation_at-closes text rest old l k

-- The bytes of an equation and those behind it.
IsCut : ℕ → Option (List ℕ × Option (List ℕ)) → Type 0
IsCut n none = ⊥
IsCut n (some (v, none)) = length v ≤ n
IsCut n (some (v, some rest)) = length v + length rest ≤ n

equation_turn-IsCut :
    (n c : ℕ) (s : List ℕ) (later : Option (List ℕ × Option (List ℕ)))
    → IsCut n later
    → IsCut (suc n) (equation_turn false c s later)
unfolding IsCut
equation_turn-IsCut n c s none h = h
equation_turn-IsCut n c s (some (v, none)) h = ground (arith, h)
equation_turn-IsCut n c s (some (v, some rest)) h = ground (arith, h)

equation_loop-IsCut :
    (s : List ℕ) (left depth : ℕ) → length s < left → IsCut (length s) (equation_loop left depth s)
unfolding equation_loop IsCut
equation_loop-IsCut s zero depth l = absurd (omega (arith, l))
equation_loop-IsCut [] (suc left) depth l = omega arith
equation_loop-IsCut (c ∷ s) (suc left) depth l = elim (Bool-cases (next_depth depth c == 0)) [
  | inl e ↦ rw e (ground arith)
  | inr e ↦ rw e (
      equation_turn-IsCut (length s) c s (equation_loop left (next_depth depth c) s)
        (equation_loop-IsCut s left (next_depth depth c) (omega (arith, l))))
]

-- What is read of an equation of at most `n` bytes; of a whole one the text and the rest.
abbrev pub IsRead : ℕ → Option (Status × List ℕ × List ℕ) → Type 0
IsRead n none = ⊥
IsRead n (some (done, s, text)) = length s + length text ≤ n
IsRead n (some (status, s, text)) = Unit

IsCut-weaken :
    (n k : ℕ) (found : Option (List ℕ × Option (List ℕ))) → n ≤ k → IsCut n found → IsCut k found
unfolding IsCut
IsCut-weaken n k none l h = h
IsCut-weaken n k (some (v, none)) l h = omega (arith, l, h)
IsCut-weaken n k (some (v, some rest)) l h = omega (arith, l, h)

equation_ended-IsRead :
    (n c : ℕ) (s : List ℕ) (found : Option (List ℕ × Option (List ℕ)))
    → IsCut n found
    → IsRead (suc n) (equation_ended c s [] found)
unfolding equation_ended IsCut
equation_ended-IsRead n c s none h = h
equation_ended-IsRead n c s (some (v, none)) h = tt
equation_ended-IsRead n c s (some (v, some rest)) h = omega (arith, h)

equation_at-IsRead :
    (s : List ℕ) (n : ℕ) → length s ≤ n → length s < 65536 → IsRead n (equation_at s [])
unfolding equation_at
equation_at-IsRead [] n h l = tt
equation_at-IsRead (c ∷ s) zero h l = absurd (omega (arith, h))
equation_at-IsRead (c ∷ s) (suc n) h l = elim (Bool-cases (c == b'(')) [
  | inl e ↦ rw e (
      equation_ended-IsRead n c s (equation_loop 65535 1 s) (
        IsCut-weaken (length s) n (equation_loop 65535 1 s) (omega (arith, h))
          (equation_loop-IsCut s 65535 1 (omega (arith, l)))))
  | inr e ↦ rw e tt
]

pub parse_equation-IsRead :
    (s : List ℕ) (n : ℕ) → length s ≤ n → length s < 65536 → IsRead n (parse_equation s [])
unfolding parse_equation
parse_equation-IsRead [] n h l = tt
parse_equation-IsRead (c ∷ s) n h l =
    let less = length-skip_white (c ∷ s) in
    equation_at-IsRead (skip_white (c ∷ s)).1 n (omega (arith, h, less)) (omega (arith, l, less))
