-- ===== src/Json/Places.antt =====
-- Where the equations of libraries/support/jsonlib.cpp stand in their rows.
use core_cleanup_test.Base.{
  ◌<◌, ℕ, zero, suc, ◌≡◌, ◌≢◌, refl, ap, ◌∙◌, arith, List, [], ◌∷◌, ◌++◌, Bool, true, false, ◌||◌,
  not, ◌==◌, ltb, if◌then◌else◌, length, get_elem?, none, some, Bool-cases, inl, inr, same_text,
  ◌&&◌,
}
use core_cleanup_test.Base.Search.{first_hit, search-first_hit}
use core_cleanup_test.Base.Result.{ok}
use core_cleanup_test.Json.Names.{JsonHandle, json_hash}
use core_cleanup_test.Json.Equations.{
  has_text, at_place, EquationMeta, Equation, gives, equation_of, new_equation, in_row,
  equation_map, ends_in,
}

-- A text that begins and ends with a bracket.
abbrev is_bracketed : List ℕ → Bool
is_bracketed [] = false
is_bracketed (c ∷ s) = (c == b'(') && ends_in b')' (c ∷ s)

get_elem?-length :
    (rows : List (List Equation)) (i : ℕ) (row : List Equation)
    → get_elem? rows i ≡ some row
    → (length rows == 0) ≡ false
get_elem?-length [] i row p = absurd (ground (arith, p))
get_elem?-length (r ∷ rows) i row p = ground arith

same_text_refl : (text : List ℕ) → same_text text text ≡ true
same_text_refl [] = refl
same_text_refl (c ∷ s) = ground (arith, same_text_refl s)

pub equation_of-lem :
    (h : JsonHandle) (m : EquationMeta) (row : List Equation) (e : Equation)
    → get_elem? m.emap h.hash ≡ some row
    → get_elem? row h.index ≡ some e
    → m.names.jmapped ≢ 0
    → equation_of h m ≡ some e
unfolding equation_of
equation_of-lem h m row e p q k =
    let z : (m.names.jmapped == 0) ≡ false = ground (arith, k) in
    ap
      (λ r. elim r [
        | none ↦ none
        | some b ↦ if m.names.jmapped == 0 then none else get_elem? b h.index
      ])
      p
    ∙ rw z q

pub get_elem?-end :
    (row : List Equation) (e : Equation) → get_elem? (row ++ (e ∷ [])) (length row) ≡ some e
get_elem?-end [] e = refl
get_elem?-end (x ∷ row) e = get_elem?-end row e

pub length-end : (row : List Equation) (e : Equation) → length (row ++ (e ∷ [])) ≡ suc (length row)
length-end [] e = refl
length-end (x ∷ row) e = ap suc (length-end row e)

pub first_hit-length :
    (text : List ℕ) (row : List Equation) (i : ℕ) (e : Equation)
    → get_elem? row i ≡ some e
    → e.text ≡ text
    → ltb (first_hit (has_text text) row) (length row) ≡ true
first_hit-length text [] i e p q = absurd (ground (arith, p))
first_hit-length text (x ∷ row) zero e p q =
    let same : same_text text x.text ≡ true =
      ap (same_text text) (ap (λ o. elim o [ none ↦ [] | some y ↦ y.text ]) p ∙ q)
      ∙ same_text_refl text in
    rw same (ground arith)
first_hit-length text (x ∷ row) (suc i) e p q = ground (arith, first_hit-length text row i e p q)

-- An equation in brackets that is in its row is found there.
pub equation_map_found :
    (k : ℕ) (text : List ℕ) (m : EquationMeta) (row : List Equation)
    → get_elem? m.emap (json_hash text) ≡ some row
    → length row < 65536
    → ltb (first_hit (has_text text) row) (length row) ≡ true
    → m.names.jmapped ≢ 0
    → is_bracketed text ≡ true
    → equation_map (suc k) text m
      ≡ some
          (ok (gives (record { hash = json_hash text; index = first_hit (has_text text) row }), m))
unfolding equation_map in_row at_place
equation_map_found k [] m row p short l j b = absurd (ground (arith, b))
equation_map_found k (c ∷ s) m row p short l j b =
    let some_rows : (length m.emap == 0) ≡ false =
      get_elem?-length m.emap (json_hash (c ∷ s)) row p in
    let names : (m.names.jmapped == 0) ≡ false = ground (arith, j) in
    let inside : (not (c == b'(') || not (ends_in b')' (c ∷ s))) ≡ false = ground (arith, b) in
    let added = new_equation (equation_map k) (c ∷ s) s m in
    rw (names, some_rows, inside)
      (ap (λ r. in_row (c ∷ s) m r added) p
        ∙ ap (at_place (c ∷ s) m row added) (search-first_hit (has_text (c ∷ s)) row short)
        ∙ rw l refl)

pub equation_map-is_bracketed :
    (n : ℕ) (text : List ℕ) (m m' : EquationMeta) (h : JsonHandle)
    → equation_map n text m ≡ some (ok (gives h, m'))
    → is_bracketed text ≡ true
unfolding equation_map
equation_map-is_bracketed zero text m m' h e = absurd (ground (arith, e))
equation_map-is_bracketed (suc n) [] m m' h e =
    elim (Bool-cases ((m.names.jmapped == 0) || (length m.emap == 0))) [
      | inl p ↦ absurd (ground (arith, rw p at e))
      | inr p ↦ absurd (ground (arith, rw p at e))
    ]
equation_map-is_bracketed (suc n) (c ∷ s) m m' h e =
    elim (Bool-cases ((m.names.jmapped == 0) || (length m.emap == 0))) [
      | inl p ↦ absurd (ground (arith, rw p at e))
      | inr p ↦ elim (Bool-cases (not (c == b'(') || not (ends_in b')' (c ∷ s)))) [
        | inl q ↦ absurd (ground (arith, rw (p, q) at e))
        | inr q ↦ ground (arith, q)
      ]
    ]
