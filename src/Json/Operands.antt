-- ===== src/Json/Operands.antt =====
-- Operands of the equations of libraries/support/jsonlib.cpp: what they leave of the text and of the
-- room in the map.
use core_cleanup_test.Base.{
  ◌+◌, ◌<◌, ◌≡◌, true, ltb, get_elem?, same_text, ℕ, ◌≤◌, ◌≢◌, refl, arith, List, [], ◌∷◌, ◌==◌,
  length, Option, none, some, Bool-cases, inl, inr,
}
use core_cleanup_test.Base.Search.{first_hit, rows_below, rows_below-at}
use core_cleanup_test.Base.Result.{Result, ok, err, fault}
use core_cleanup_test.Json.Names.{
  max_hash, CosmosMeta, JsonEntry, JsonHandle, json_hash, handle_at, name_map,
}
use core_cleanup_test.Json.Lookup.{get_elem?-in, json_hash-lt}
use core_cleanup_test.Json.Progress.{bucket-at, index_in-short}
use core_cleanup_test.Json.Scan.{Status, done, eos, scan, noentry, nojmap, extract_string}
use core_cleanup_test.Json.Lengths.{length-extract_string}
use core_cleanup_test.Json.Formulas.{IsRead, parse_equation-IsRead}
use core_cleanup_test.Json.Numbers.{length-parse_number}
use core_cleanup_test.Json.Brackets.{parse_equation, parse_number}
use core_cleanup_test.Json.Equations.{
  Operand, Equation, equation_operand, EquationMeta, gives, refuses, unmapped, Mapping, ◌>->◌,
  named, from_string, from_number, from_equation, operand_at, begins_number,
}

-- The maps have all their rows, the lists of names are shorter than 2^16, and each row has room for `k`
-- equations more.
pub record HasRoom (k : ℕ) (m : EquationMeta) : Type 0 where
  pub rows : length m.emap ≡ max_hash
  pub room : (i : ℕ) (row : List Equation) → get_elem? m.emap i ≡ some row → length row + k < 65536
  pub names_rows : length m.names.jmap ≡ max_hash
  pub names_short : rows_below 65536 m.names.jmap ≡ true

pub HasRoom-weaken : (k l : ℕ) (m : EquationMeta) → k ≤ l → HasRoom l m → HasRoom k m
HasRoom-weaken k l m less h = record {
  rows = h.rows;
  room = λ i row e. omega (arith, less, h.room i row e);
  names_rows = h.names_rows;
  names_short = h.names_short;
}

-- It returns, and if it gives an operand, the pointer has at most `n` bytes to go, and there is room
-- for as many equations and `j` more.
abbrev pub IsShort : ℕ → ℕ → Mapping (List ℕ × Operand) → Type 0
IsShort n j none = ⊥
IsShort n j (some (ok (gives (s, o), m))) = (length s ≤ n) × HasRoom (length s + j) m
IsShort n j (some (ok (refuses, m))) = Unit
IsShort n j (some (ok (unmapped, m))) = Unit
IsShort n j (some (err e)) = ⊥
IsShort n j (some fault) = ⊥

-- It returns, and if it gives an equation, there is room for `j` more.
abbrev pub IsDone : ℕ → Mapping JsonHandle → Type 0
IsDone j none = ⊥
IsDone j (some (ok (gives h, m))) = HasRoom j m
IsDone j (some (ok (refuses, m))) = Unit
IsDone j (some (ok (unmapped, m))) = Unit
IsDone j (some (err e)) = ⊥
IsDone j (some fault) = ⊥

-- A mapping of the equations of at most `n` bytes.
abbrev pub Handles : (List ℕ → EquationMeta → Mapping JsonHandle) → ℕ → Type 0
Handles f n =
    (t : List ℕ) (m : EquationMeta) (j : ℕ)
    → length t ≤ n
    → length t < 65536
    → HasRoom (length t + j) m
    → IsDone j (f t m)

handle_at-ne-fault : (name : List ℕ) (b : List JsonEntry) (i : ℕ) → handle_at name b i ≢ fault
handle_at-ne-fault name b i = elim (Bool-cases (ltb i (length b))) [
  | inl l ↦ rw l (λ e. absurd (ground (arith, e)))
  | inr l ↦ rw l (λ e. absurd (ground (arith, e)))
]

name_map-ne-fault :
    (name : List ℕ) (m : CosmosMeta)
    → length m.jmap ≡ max_hash
    → rows_below 65536 m.jmap ≡ true
    → name_map name m ≢ fault
unfolding name_map
name_map-ne-fault name m rows short = elim (Bool-cases (m.jmapped == 0)) [
  | inl p ↦ rw p (λ e. absurd (ground (arith, e)))
  | inr p ↦ elim (Bool-cases (length m.jmap == 0)) [
    | inl q ↦ rw (p, q) (λ e. absurd (ground (arith, e)))
    | inr q ↦
        let (b, at) =
          get_elem?-in m.jmap (json_hash name) (omega (arith, json_hash-lt name, rows)) in
        let l = rows_below-at 65536 m.jmap (json_hash name) b short at in
        rw (p, q, bucket-at m b (json_hash name) at, index_in-short name b l)
          (handle_at-ne-fault name b (first_hit (λ e. same_text name e.name) b))
  ]
]

named-IsShort :
    (n j : ℕ) (s : List ℕ) (m : EquationMeta) (r : Result JsonHandle)
    → length s ≤ n
    → HasRoom (length s + j) m
    → r ≢ fault
    → IsShort n j (named s m r)
unfolding named
named-IsShort n j s m (ok h) l k f = (l, k)
named-IsShort n j s m (err e) l k f = tt
named-IsShort n j s m fault l k f = absurd (f refl)

from_string-IsShort :
    (n j : ℕ) (m : EquationMeta) (r : Status × List ℕ × List ℕ)
    → length r.1 ≤ n
    → HasRoom (n + j) m
    → IsShort n j (from_string m r)
unfolding from_string
from_string-IsShort n j m (done, s, text) l k =
    named-IsShort n j s m (name_map text m.names) l
      (HasRoom-weaken (length s + j) (n + j) m (omega (arith, l)) k)
      (name_map-ne-fault text m.names k.names_rows k.names_short)
from_string-IsShort n j m (eos, s, text) l k = tt
from_string-IsShort n j m (scan, s, text) l k = tt
from_string-IsShort n j m (noentry, s, text) l k = tt
from_string-IsShort n j m (nojmap, s, text) l k = tt

from_number-IsShort :
    (n j : ℕ) (m : EquationMeta) (r : Status × List ℕ × Option (List ℕ))
    → length r.1 ≤ n
    → HasRoom (n + j) m
    → IsShort n j (from_number m r)
unfolding from_number
from_number-IsShort n j m (done, s, some text) l k =
    (l, HasRoom-weaken (length s + j) (n + j) m (omega (arith, l)) k)
from_number-IsShort n j m (done, s, none) l k = tt
from_number-IsShort n j m (eos, s, text) l k = tt
from_number-IsShort n j m (scan, s, text) l k = tt
from_number-IsShort n j m (noentry, s, text) l k = tt
from_number-IsShort n j m (nojmap, s, text) l k = tt

found_nested :
    (n j : ℕ) (s : List ℕ) (r : Mapping JsonHandle)
    → IsDone (length s + j) r
    → length s ≤ n
    → IsShort n j (r >-> λ h m'. some (ok (gives (s, equation_operand h), m')))
found_nested n j s none h l = h
found_nested n j s (some (ok (gives x, m))) h l = (l, h)
found_nested n j s (some (ok (refuses, m))) h l = tt
found_nested n j s (some (ok (unmapped, m))) h l = tt
found_nested n j s (some (err e)) h l = h
found_nested n j s (some fault) h l = h

from_equation-IsShort :
    (f : List ℕ → EquationMeta → Mapping JsonHandle)
    → (n j : ℕ) (m : EquationMeta) (r : Option (Status × List ℕ × List ℕ)) → IsRead n r
    → n < 65536
    → HasRoom (n + j) m
    → Handles f n
    → IsShort n j (from_equation f m r)
unfolding from_equation
from_equation-IsShort f n j m none h b k g = h
from_equation-IsShort f n j m (some (done, s, text)) h b k g =
    found_nested n j s (f text m)
      (g text m (length s + j) (omega (arith, h)) (omega (arith, h, b))
        (HasRoom-weaken (length text + (length s + j)) (n + j) m (omega (arith, h)) k))
      (omega (arith, h))
from_equation-IsShort f n j m (some (eos, s, text)) h b k g = tt
from_equation-IsShort f n j m (some (scan, s, text)) h b k g = tt
from_equation-IsShort f n j m (some (noentry, s, text)) h b k g = tt
from_equation-IsShort f n j m (some (nojmap, s, text)) h b k g = tt

pub operand_at-IsShort :
    (f : List ℕ → EquationMeta → Mapping JsonHandle)
    → (s : List ℕ) (m : EquationMeta) (n j : ℕ) → length s ≤ n
    → n < 65536
    → HasRoom (n + j) m
    → Handles f n
    → IsShort n j (operand_at f s m)
unfolding operand_at
operand_at-IsShort f [] m n j l b k g =
    (omega arith, HasRoom-weaken (0 + j) (n + j) m (omega arith) k)
operand_at-IsShort f (c ∷ s) m n j l b k g = elim (Bool-cases (c == b'(')) [
  | inl p ↦ rw p (
      from_equation-IsShort f n j m (parse_equation (c ∷ s) [])
        (parse_equation-IsRead (c ∷ s) n l (omega (arith, l, b))) b k g)
  | inr p ↦ elim (Bool-cases (c == b'"')) [
    | inl q ↦
        rw (p, q)
          (from_string-IsShort n j m (extract_string (c ∷ s) [])
            (omega (arith, l, length-extract_string (c ∷ s) [])) k)
    | inr q ↦ elim (Bool-cases (begins_number c)) [
      | inl r ↦
          rw (p, q, r)
            (from_number-IsShort n j m (parse_number (c ∷ s))
              (omega (arith, l, length-parse_number (c ∷ s))) k)
      | inr r ↦ rw (p, q, r) (l, HasRoom-weaken (length (c ∷ s) + j) (n + j) m (omega (arith, l)) k)
    ]
  ]
]
