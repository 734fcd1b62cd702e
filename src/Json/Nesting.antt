-- ===== src/Json/Nesting.antt =====
-- Equations of libraries/support/jsonlib.cpp inside of equations: `json_equation_map` ends.
use core_cleanup_test.Base.{
  ℕ, zero, suc, ◌+◌, ◌-◌, ◌<◌, ◌≤◌, ◌≡◌, ◌≢◌, refl, sym, ap, ◌∙◌, arith, List, [], ◌∷◌, ◌++◌, Bool,
  true, false, ◌||◌, not, ◌==◌, ltb, if◌then◌else◌, length, get_elem?, set, length-set,
  get_elem?-set, none, some, Bool-cases, inl, inr,
}
use core_cleanup_test.Base.Search.{first_hit, search-first_hit, rows_below, rows_below-at}
use core_cleanup_test.Base.Result.{ok, err, fault}
use core_cleanup_test.Json.Names.{max_hash, JsonHandle, json_hash}
use core_cleanup_test.Json.Lookup.{get_elem?-in, get_elem?-set_ne, json_hash-lt, some_inj}
use core_cleanup_test.Json.Scan.{skip_white}
use core_cleanup_test.Json.Lengths.{length-skip_white}
use core_cleanup_test.Json.Equations.{
  Operand, EquationMeta, Equation, Outcome, gives, refuses, unmapped, Mapping, ◌>->◌, operand_at,
  append_equation, from_operation, new_equation, has_text, at_place, in_row, equation_map, ends_in,
  operator_of, operators,
}
use core_cleanup_test.Json.Places.{length-end}
use core_cleanup_test.Json.Operands.{
  HasRoom, HasRoom-weaken, IsShort, IsDone, Handles, operand_at-IsShort,
}

-- What goes on with an operand is reached with what the operand leaves.
after_operand :
    (n j j' : ℕ) (r : Mapping (List ℕ × Operand))
    → (f : List ℕ × Operand → EquationMeta → Mapping JsonHandle) → IsShort n j r
    → ((s : List ℕ) (o : Operand) (m : EquationMeta)
        → length s ≤ n
        → HasRoom (length s + j) m
        → IsDone j' (f (s, o) m))
    → IsDone j' (r >-> f)
after_operand n j j' none f h k = h
after_operand n j j' (some (ok (gives (s, o), m))) f h k = k s o m h.0 h.1
after_operand n j j' (some (ok (refuses, m))) f h k = tt
after_operand n j j' (some (ok (unmapped, m))) f h k = tt
after_operand n j j' (some (err e)) f h k = h
after_operand n j j' (some fault) f h k = h

room_after :
    (rows : List (List Equation)) (hash k : ℕ) (old row : List Equation) (e : Equation)
    → get_elem? rows hash ≡ some old
    → ((i : ℕ) (row : List Equation) → get_elem? rows i ≡ some row → length row + suc k < 65536)
    → (i : ℕ) → get_elem? (set rows hash (old ++ (e ∷ []))) i ≡ some row
    → length row + k < 65536
room_after rows hash k old row e at room i there = elim (Bool-cases (i == hash)) [
  | inl p ↦
      let same : i ≡ hash = ground (arith, p) in
      let new : old ++ (e ∷ []) ≡ row = some_inj (
        sym (get_elem?-set rows hash (old ++ (e ∷ [])) old at)
        ∙ ap (get_elem? (set rows hash (old ++ (e ∷ [])))) (sym same)
        ∙ there) in
      omega (arith, ap length new, length-end old e, room hash old at)
  | inr p ↦
      let other : i ≢ hash = λ q. absurd (ground (arith, p, q)) in
      omega (arith, room i row (sym (get_elem?-set_ne rows i hash (old ++ (e ∷ [])) other) ∙ there))
]

append_equation-IsDone :
    (hash j : ℕ) (e : Equation) (m : EquationMeta) (row : List Equation)
    → get_elem? m.emap hash ≡ some row
    → HasRoom (suc j) m
    → IsDone j (append_equation hash e m (some row))
unfolding append_equation
append_equation-IsDone hash j e m row at h = record {
  rows = length-set m.emap hash (row ++ (e ∷ [])) ∙ h.rows;
  room = λ i row' there. room_after m.emap hash j row row' e at h.room i there;
  names_rows = h.names_rows;
  names_short = h.names_short;
}

append_equation_row-IsDone :
    (text : List ℕ) (j : ℕ) (e : Equation) (m : EquationMeta)
    → HasRoom (suc j) m
    → IsDone j (append_equation (json_hash text) e m (get_elem? m.emap (json_hash text)))
append_equation_row-IsDone text j e m h =
    let (row, at) =
      get_elem?-in m.emap (json_hash text) (omega (arith, json_hash-lt text, h.rows)) in
    rw at (append_equation-IsDone (json_hash text) j e m row at h)

from_operation-IsDone :
    (f : List ℕ → EquationMeta → Mapping JsonHandle)
    → (text : List ℕ) (first : Operand) (m : EquationMeta) (s : List ℕ) (j : ℕ) → length s < 65536
    → HasRoom (length s + suc j) m
    → Handles f (length s)
    → IsDone j (from_operation f text first m s)
unfolding from_operation
from_operation-IsDone f text first m [] j b k h = tt
from_operation-IsDone f text first m (c ∷ s) j b k h =
    elim (Bool-cases (operator_of c operators == length operators)) [
      | inl e ↦ rw e tt
      | inr e ↦
          let s1 = (skip_white s).1 in
          let n = length s in
          rw e (
            after_operand n (suc j) j (operand_at f s1 m) _
              (operand_at-IsShort f s1 m n (suc j) (length-skip_white s) (omega (arith, b))
                (HasRoom-weaken (n + suc j) (length (c ∷ s) + suc j) m (omega arith) k)
                (λ t m' i l. h t m' i (omega (arith, l))))
              (λ s2 o m2 l room.
                append_equation_row-IsDone text j _ m2
                  (HasRoom-weaken (suc j) (length s2 + suc j) m2 (omega arith) room)))
    ]

new_equation-IsDone :
    (f : List ℕ → EquationMeta → Mapping JsonHandle)
    → (text s : List ℕ) (m : EquationMeta) (j : ℕ) → length s < 65536
    → HasRoom (length s + suc j) m
    → Handles f (length s)
    → IsDone j (new_equation f text s m)
unfolding new_equation
new_equation-IsDone f text s m j b k h =
    let n = length s in
    after_operand n (suc j) j (operand_at f (skip_white s).1 m) _
      (operand_at-IsShort f (skip_white s).1 m n (suc j) (length-skip_white s) b k h)
      (λ s1 o m1 l room.
        let less = length-skip_white s1 in
        from_operation-IsDone f text o m1 (skip_white s1).1 j (omega (arith, less, l, b))
          (HasRoom-weaken (length (skip_white s1).1 + suc j) (length s1 + suc j) m1
            (omega (arith, less)) room)
          (λ t m' i q. h t m' i (omega (arith, q, less, l))))

in_row-IsDone :
    (text : List ℕ) (m : EquationMeta) (row : List Equation) (added : Mapping JsonHandle) (j : ℕ)
    → length row < 65536
    → HasRoom j m
    → IsDone j added
    → IsDone j (in_row text m (some row) added)
unfolding in_row at_place
in_row-IsDone text m row added j l k h =
    rw (search-first_hit (has_text text) row l)
      (elim (Bool-cases (ltb (first_hit (has_text text) row) (length row))) [
        | inl e ↦ rw e k
        | inr e ↦ rw e h
      ])

if-IsDone :
    (b : Bool) (j : ℕ) (r r' : Mapping JsonHandle)
    → IsDone j r
    → IsDone j r'
    → IsDone j (if b then r else r')
if-IsDone true j r r' h k = h
if-IsDone false j r r' h k = k

equation_map-IsDone :
    (n : ℕ) (text : List ℕ) (m : EquationMeta) (j : ℕ)
    → length text < n
    → length text < 65536
    → HasRoom (length text + j) m
    → IsDone j (equation_map n text m)
unfolding equation_map
equation_map-IsDone zero text m j h b k = absurd (omega (arith, h))
equation_map-IsDone (suc n) [] m j h b k =
    elim (Bool-cases ((m.names.jmapped == 0) || (length m.emap == 0))) [
      | inl e ↦ rw e tt
      | inr e ↦ rw e tt
    ]
equation_map-IsDone (suc n) (c ∷ s) m j h b k =
    let text = c ∷ s in
    let hash = json_hash text in
    let added = new_equation (equation_map n) text s m in
    let (row, at) = get_elem?-in m.emap hash (omega (arith, json_hash-lt text, k.rows)) in
    if-IsDone ((m.names.jmapped == 0) || (length m.emap == 0)) j (some (ok (unmapped, m)))
      (if not (c == b'(') || not (ends_in b')' text)
        then some (ok (refuses, m))
        else in_row text m (get_elem? m.emap hash) added)
      tt
      (if-IsDone (not (c == b'(') || not (ends_in b')' text)) j (some (ok (refuses, m)))
        (in_row text m (get_elem? m.emap hash) added) tt
        (rw at (
          in_row-IsDone text m row added j (omega (arith, k.room hash row at))
            (HasRoom-weaken j (length text + j) m (omega arith) k)
            (new_equation-IsDone (equation_map n) text s m j (omega (arith, b))
              (HasRoom-weaken (length s + suc j) (length text + j) m (omega arith) k)
              (λ t m' i l q room. equation_map-IsDone n t m' i (omega (arith, h, l)) q room)))))

returned :
    (j : ℕ) (r : Mapping JsonHandle)
    → IsDone j r
    → (outcome : Outcome JsonHandle) × (m : EquationMeta) × (r ≡ some (ok (outcome, m)))
returned j none h = absurd h
returned j (some (ok (gives h, m))) k = (gives h, m, refl)
returned j (some (ok (refuses, m))) k = (refuses, m, refl)
returned j (some (ok (unmapped, m))) k = (unmapped, m, refl)
returned j (some (err e)) h = absurd h
returned j (some fault) h = absurd h

-- Where a text has fewer than 2^16 bytes, the maps have all their rows, the rows of names have
-- fewer than 2^16 entries, and each row of equations, with as many more as the text has bytes, has
-- fewer than 2^16, `json_equation_map`, which calls itself through `json_parse_operand` for the
-- equations inside of an equation, ends and never reads outside of the maps: as many calls inside
-- of each other as the text has bytes, and one more, are enough.
pub equation_map-total :
    (n : ℕ) (text : List ℕ) (m : EquationMeta)
    → length text < n
    → length text < 65536
    → length m.emap ≡ max_hash
    → rows_below (65536 - length text) m.emap ≡ true
    → length m.names.jmap ≡ max_hash
    → rows_below 65536 m.names.jmap ≡ true
    → (outcome : Outcome JsonHandle) × (m' : EquationMeta) × (equation_map n text m
        ≡ some (ok (outcome, m')))
equation_map-total n text m h b rows room names short = returned 0 (equation_map n text m) (
    equation_map-IsDone n text m 0 h b (record {
      rows = rows;
      room = λ i row at. omega (arith, rows_below-at (65536 - length text) m.emap i row room at);
      names_rows = names;
      names_short = short;
    }))
