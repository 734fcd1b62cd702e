-- ===== src/Base/Search.antt =====
-- The search of libraries/support/jsonlib.cpp in a row: a loop whose index has 16 bits.
use core_cleanup_test.Base.{
  ℕ, zero, suc, ◌+◌, ◌%◌, ◌<◌, ◌≡◌, ◌≢◌, refl, sym, ap, ◌∙◌, arith, List, [], ◌∷◌, Bool, true,
  false, ltb, if◌then◌else◌, length, get_elem?, Option, none, some, Bool-cases, Option-cases, inl,
  inr,
}

-- The index at the end of the loop, with the number of rounds left. After 2^16 rounds the index is what
-- it was at first, and the loop never ends.
unfoldable pub search {ℓ} : {A : Type ℓ} → ℕ → (A → Bool) → List A → ℕ → Option ℕ
search zero hit row i = none
search (suc n) hit row i = elim (get_elem? row i) [
  | none ↦ some i
  | some a ↦ elim (hit a) [ true ↦ some i | false ↦ search n hit row ((i + 1) % 65536) ]
]

abbrev pub rounds : ℕ
rounds = 65536

-- The place of the first hit, or the length of the row.
abbrev pub first_hit {ℓ} : {A : Type ℓ} → (A → Bool) → List A → ℕ
first_hit hit [] = 0
first_hit hit (a ∷ row) = let rest = first_hit hit row in if hit a then 0 else suc rest

search-end :
    {A : Type 0} (n : ℕ) (hit : A → Bool) (row : List A) (i : ℕ)
    → get_elem? row i ≡ none
    → search (suc n) hit row i ≡ some i
unfolding search
search-end n hit row i e =
    ap
      (λ o. elim o [
        | none ↦ some i
        | some a ↦ elim (hit a) [ true ↦ some i | false ↦ search n hit row ((i + 1) % 65536) ]
      ])
      e

search-at :
    {A : Type 0} (n : ℕ) (hit : A → Bool) (row : List A) (i : ℕ) (a : A)
    → get_elem? row i ≡ some a
    → search (suc n) hit row i ≡ (if hit a then some i else search n hit row ((i + 1) % 65536))
unfolding search
search-at n hit row i a e =
    ap
      (λ o. elim o [
        | none ↦ some i
        | some b ↦ elim (hit b) [ true ↦ some i | false ↦ search n hit row ((i + 1) % 65536) ]
      ])
      e
    ∙ elim (Bool-cases (hit a)) [ inl h ↦ rw h refl | inr h ↦ rw h refl ]

search-from :
    {A : Type 0} (n : ℕ) (hit : A → Bool) (row rest : List A) (i : ℕ)
    → ((k : ℕ) → get_elem? row (i + k) ≡ get_elem? rest k)
    → length rest < n
    → i + length rest < 65536
    → search n hit row i ≡ some (i + first_hit hit rest)
search-from zero hit row rest i h l b = absurd (omega (arith, l))
search-from (suc n) hit row [] i h l b =
    let z : i + 0 ≡ i = omega arith in
    search-end n hit row i (ap (get_elem? row) (sym z) ∙ h 0) ∙ ap some (sym z)
search-from (suc n) hit row (a ∷ rest) i h l b =
    let z : i + 0 ≡ i = omega arith in
    search-at n hit row i a (ap (get_elem? row) (sym z) ∙ h 0) ∙ elim (Bool-cases (hit a)) [
      | inl e ↦ rw e (ap some (sym z))
      | inr e ↦
          let next : (i + 1) % 65536 ≡ i + 1 = omega (arith, b) in
          let place : i + 1 + first_hit hit rest ≡ i + suc (first_hit hit rest) = omega arith in
          rw (e, next)
            (search-from n hit row rest (i + 1)
                (λ k.
                  ap (get_elem? row) (let s : i + 1 + k ≡ i + suc k = omega arith in s) ∙ h (suc k))
                (omega (arith, l)) (omega (arith, b))
              ∙ ap some place)
    ]

-- In a row of fewer than 2^16 entries the search ends at the first hit, or at the end.
pub search-first_hit :
    {A : Type 0} (hit : A → Bool) (row : List A)
    → length row < 65536
    → search rounds hit row 0 ≡ some (first_hit hit row)
search-first_hit hit row l =
    search-from rounds hit row row 0
      (λ k. ap (get_elem? row) (let z : 0 + k ≡ k = omega arith in z)) l (omega (arith, l))
    ∙ ap some (let z : 0 + first_hit hit row ≡ first_hit hit row = omega arith in z)

get_elem?-out :
    {A : Type 0} (row : List A) (i : ℕ) → get_elem? row i ≡ none → ltb i (length row) ≡ false
get_elem?-out [] i e = ground arith
get_elem?-out (a ∷ row) zero e = absurd (ground (arith, e))
get_elem?-out (a ∷ row) (suc i) e = ground (arith, get_elem?-out row i e)

search-ne : {A : Type 0} (hit : A → Bool) (row : List A) (i j : ℕ) → search zero hit row i ≢ some j
unfolding search
search-ne hit row i j e = absurd (ground (arith, e))

some_inj : {A : Type 0} {x y : A} → some x ≡ some y → x ≡ y
some_inj e = ground (arith, e)

-- What the search ends at, inside of the row, is a hit.
pub search-hit :
    {A : Type 0} (n : ℕ) (hit : A → Bool) (row : List A) (i j : ℕ)
    → search n hit row i ≡ some j
    → ltb j (length row) ≡ true
    → (a : A) × (get_elem? row j ≡ some a) × (hit a ≡ true)
search-hit zero hit row i j e l = absurd (search-ne hit row i j e)
search-hit (suc n) hit row i j e l = elim (Option-cases (get_elem? row i)) [
  | inl out ↦
      let same : i ≡ j = some_inj (sym (search-end n hit row i out) ∙ e) in
      absurd (ground (arith, ap (λ k. ltb k (length row)) same, get_elem?-out row i out, l))
  | inr (a, at) ↦
      let found : (if hit a then some i else search n hit row ((i + 1) % 65536)) ≡ some j =
        sym (search-at n hit row i a at) ∙ e in
      elim (Bool-cases (hit a)) [
        | inl h ↦ (a, ap (get_elem? row) (sym (some_inj (rw h at found))) ∙ at, h)
        | inr h ↦ search-hit n hit row ((i + 1) % 65536) j (rw h at found) l
      ]
]

-- Each row is shorter than `n`.
abbrev pub rows_below {ℓ} : {A : Type ℓ} → ℕ → List (List A) → Bool
rows_below n [] = true
rows_below n (row ∷ rows) =
    let rest = rows_below n rows in if ltb (length row) n then rest else false

pub rows_below-at :
    {A : Type 0} (n : ℕ) (rows : List (List A)) (i : ℕ) (row : List A)
    → rows_below n rows ≡ true
    → get_elem? rows i ≡ some row
    → length row < n
rows_below-at n [] i row h e = absurd (ground (arith, e))
rows_below-at n (r ∷ rows) zero row h e = ground (arith, ap length (some_inj e), h)
rows_below-at n (r ∷ rows) (suc i) row h e = ground (arith, h, rows_below-at n rows i row, e)
