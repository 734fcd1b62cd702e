-- ===== src/Json/Mapped.antt =====
-- Equations of libraries/support/jsonlib.cpp: where the handle of `json_equation_map` leads, and what a
-- second call does.
use core_cleanup_test.Base.{
  same_text-eq, ℕ, zero, suc, ◌<◌, ◌≡◌, ◌≢◌, ◌%◌, refl, sym, ap, ◌∙◌, arith, List, [], ◌∷◌, ◌++◌,
  Bool, true, false, ◌||◌, not, ◌==◌, ltb, if◌then◌else◌, length, get_elem?, get_elem?-set, Option,
  none, some, Bool-cases, inl, inr, subst,
}
use core_cleanup_test.Base.Search.{search, rounds, first_hit, search-hit}
use core_cleanup_test.Base.Result.{ok, err, fault}
use core_cleanup_test.Json.Names.{JsonHandle, json_hash}
use core_cleanup_test.Json.Scan.{skip_white}
use core_cleanup_test.Json.Equations.{
  Operand, EquationMeta, Equation, gives, refuses, unmapped, Mapping, ◌>->◌, equation_of,
  operand_at, has_text, at_place, operators, operator_of, append_equation, from_operation,
  new_equation, in_row, equation_map, ends_in,
}
use core_cleanup_test.Json.Places.{
  equation_of-lem, get_elem?-end, length-end, first_hit-length, equation_map_found,
  equation_map-is_bracketed,
}

-- The handle leads to an equation of the map with this text, if the map has names and its row of the
-- text has fewer than 2^16 equations.
abbrev Leads : List ℕ → JsonHandle → EquationMeta → Type 0
Leads text h m =
    (row : List Equation)
    → get_elem? m.emap (json_hash text) ≡ some row
    → length row < 65536
    → (e : Equation) × (get_elem? row h.index ≡ some e)
      × (e.text ≡ text)
      × (h.hash ≡ json_hash text)

abbrev IsRight : List ℕ → Mapping JsonHandle → Type 0
IsRight text none = Unit
IsRight text (some (ok (gives h, m))) = Leads text h m
IsRight text (some (ok (refuses, m))) = Unit
IsRight text (some (ok (unmapped, m))) = Unit
IsRight text (some (err e)) = Unit
IsRight text (some fault) = Unit

after_operand-IsRight :
    (text : List ℕ) (r : Mapping (List ℕ × Operand))
    → (f : List ℕ × Operand → EquationMeta → Mapping JsonHandle)
    → ((o : List ℕ × Operand) (m : EquationMeta) → IsRight text (f o m))
    → IsRight text (r >-> f)
after_operand-IsRight text none f h = tt
after_operand-IsRight text (some (ok (gives o, m))) f h = h o m
after_operand-IsRight text (some (ok (refuses, m))) f h = tt
after_operand-IsRight text (some (ok (unmapped, m))) f h = tt
after_operand-IsRight text (some (err e)) f h = tt
after_operand-IsRight text (some fault) f h = tt

append_equation-IsRight :
    (e : Equation) (m : EquationMeta) (row : Option (List Equation))
    → get_elem? m.emap (json_hash e.text) ≡ row
    → IsRight e.text (append_equation (json_hash e.text) e m row)
unfolding append_equation
append_equation-IsRight e m none p = tt
append_equation-IsRight e m (some row) p = λ row' q less.
    let at_hash = get_elem?-set m.emap (json_hash e.text) (row ++ (e ∷ [])) row p in
    let same : row' ≡ row ++ (e ∷ []) =
      ap (λ r. elim r [ none ↦ [] | some v ↦ v ]) (sym q ∙ at_hash) in
    let short : length row < 65536 = omega (arith, ap length same, length-end row e, less) in
    let index : length row % 65536 ≡ length row = omega (arith, short) in
    (
      e,
      ap (λ r. get_elem? r (length row % 65536)) same ∙ rw index (get_elem?-end row e),
      refl,
      refl,
    )

at_place-IsRight :
    (text : List ℕ) (m : EquationMeta) (row : List Equation) (added : Mapping JsonHandle)
    (place : Option ℕ)
    → get_elem? m.emap (json_hash text) ≡ some row
    → search rounds (has_text text) row 0 ≡ place
    → IsRight text added
    → IsRight text (at_place text m row added place)
unfolding at_place
at_place-IsRight text m row added none p q h = tt
at_place-IsRight text m row added (some i) p q h = elim (Bool-cases (ltb i (length row))) [
  | inl l ↦ rw l (λ row' q' less.
      let same : row ≡ row' = ap (λ r. elim r [ none ↦ [] | some v ↦ v ]) (sym p ∙ q') in
      let (e, found, hit) = search-hit rounds (has_text text) row 0 i q l in
      (e, ap (λ r. get_elem? r i) (sym same) ∙ found, sym (same_text-eq text e.text hit), refl))
  | inr l ↦ rw l h
]

in_row-IsRight :
    (text : List ℕ) (m : EquationMeta) (row : Option (List Equation)) (added : Mapping JsonHandle)
    → get_elem? m.emap (json_hash text) ≡ row
    → IsRight text added
    → IsRight text (in_row text m row added)
unfolding in_row
in_row-IsRight text m none added p h = tt
in_row-IsRight text m (some row) added p h =
    at_place-IsRight text m row added (search rounds (has_text text) row 0) p refl h

from_operation-IsRight :
    (f : List ℕ → EquationMeta → Mapping JsonHandle)
    → (text : List ℕ) (first : Operand) (m : EquationMeta) (s : List ℕ)
    → IsRight text (from_operation f text first m s)
unfolding from_operation
from_operation-IsRight f text first m [] = tt
from_operation-IsRight f text first m (c ∷ s) =
    elim (Bool-cases (operator_of c operators == length operators)) [
      | inl e ↦ rw e tt
      | inr e ↦ rw e (
          after_operand-IsRight text (operand_at f (skip_white s).1 m) _ (λ o m2.
            append_equation-IsRight
              (record {
                text = text;
                operation = operator_of c operators;
                first = first;
                second = o.1;
              })
              m2 (get_elem? m2.emap (json_hash text)) refl))
    ]

if-IsRight :
    (text : List ℕ) (b : Bool) (r r' : Mapping JsonHandle)
    → IsRight text r
    → IsRight text r'
    → IsRight text (if b then r else r')
if-IsRight text true r r' h k = h
if-IsRight text false r r' h k = k

equation_map-IsRight :
    (n : ℕ) (text : List ℕ) (m : EquationMeta) → IsRight text (equation_map n text m)
unfolding equation_map new_equation
equation_map-IsRight zero text m = tt
equation_map-IsRight (suc n) [] m =
    elim (Bool-cases ((m.names.jmapped == 0) || (length m.emap == 0))) [
      | inl e ↦ rw e tt
      | inr e ↦ rw e tt
    ]
equation_map-IsRight (suc n) (c ∷ s) m =
    let text = c ∷ s in
    let row = get_elem? m.emap (json_hash text) in
    let added = new_equation (equation_map n) text s m in
    if-IsRight text ((m.names.jmapped == 0) || (length m.emap == 0)) (some (ok (unmapped, m)))
      (if not (c == b'(') || not (ends_in b')' text)
        then some (ok (refuses, m))
        else in_row text m row added)
      tt
      (if-IsRight text (not (c == b'(') || not (ends_in b')' text)) (some (ok (refuses, m)))
        (in_row text m row added) tt
        (in_row-IsRight text m row added refl (
          after_operand-IsRight text (operand_at (equation_map n) (skip_white s).1 m) _ (λ first m1.
            from_operation-IsRight (equation_map n) text first.1 m1 (skip_white first.0).1))))

equation_of-equation_map :
    (n : ℕ) (text : List ℕ) (m m' : EquationMeta) (h : JsonHandle) (row : List Equation)
    → equation_map n text m ≡ some (ok (gives h, m'))
    → get_elem? m'.emap (json_hash text) ≡ some row
    → length row < 65536
    → m'.names.jmapped ≢ 0
    → (e : Equation) × (equation_of h m' ≡ some e) × (e.text ≡ text)
equation_of-equation_map n text m m' h row e p less j =
    let (x, found, same, hash) =
      subst (IsRight text) e (equation_map-IsRight n text m) row p less in
    (x, equation_of-lem h m' row x (ap (get_elem? m'.emap) hash ∙ p) found j, same)

-- Where `json_equation_map` returns a handle, the map has names and its row of the text has fewer
-- than 2^16 equations, `json_equation_of` follows the handle to an equation with this text, and a
-- further call for the text returns a handle and leaves the map as it is.
pub equation_map-again :
    (n k : ℕ) (text : List ℕ) (m m' : EquationMeta) (h : JsonHandle) (row : List Equation)
    → equation_map n text m ≡ some (ok (gives h, m'))
    → get_elem? m'.emap (json_hash text) ≡ some row
    → length row < 65536
    → m'.names.jmapped ≢ 0
    → (e : Equation) × (equation_of h m' ≡ some e)
      × (e.text ≡ text)
      × (h' : JsonHandle) × (equation_map (suc k) text m' ≡ some (ok (gives h', m')))
equation_map-again n k text m m' h row e p less j =
    let (x, found, same, _) = subst (IsRight text) e (equation_map-IsRight n text m) row p less in
    let (one, leads, text_eq) = equation_of-equation_map n text m m' h row e p less j in
    (
      one,
      leads,
      text_eq,
      record { hash = json_hash text; index = first_hit (has_text text) row },
      equation_map_found k text m' row p less (first_hit-length text row h.index x found same) j
          (equation_map-is_bracketed n text m m' h e),
    )
