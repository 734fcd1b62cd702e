-- ===== src/Json/Equations.antt =====
-- libraries/support/jsonlib.cpp: the equations of the JSON namespace. A constant is kept as the text
-- that `sscanf` reads. An equation may hold equations: `none` means that the fuel ran out, or that an
-- index of 16 bits wraps. `unit_index`, which the code never sets, is left out.
use core_cleanup_test.Base.{
  ℕ, zero, suc, ◌+◌, ◌%◌, List, [], ◌∷◌, ◌++◌, Bool, false, ◌&&◌, ◌||◌, not, ◌==◌, ltb, leb,
  if◌then◌else◌, length, get_elem?, set, Option, none, some, same_text, codes,
}
use core_cleanup_test.Base.Search.{search, rounds}
use core_cleanup_test.Base.Result.{Result, ok, err, fault}
use core_cleanup_test.Json.Names.{CosmosMeta, JsonHandle, json_hash, name_map}
use core_cleanup_test.Json.Scan.{Status, done, skip_white, extract_string}
use core_cleanup_test.Json.Brackets.{parse_equation, parse_number}

-- An operand. A constant is kept as the text that it is read from.
pub data Operand : Type 0 where
  no_operand : Operand
  equation_operand : JsonHandle → Operand
  constant_operand : List ℕ → Operand
  name_operand : JsonHandle → Operand

pub record Equation : Type 0 where
  pub text : List ℕ
  pub operation : ℕ
  pub first : Operand
  pub second : Operand

-- The names and the equations of `cosmosmetastruc`.
pub record EquationMeta : Type 0 where
  pub names : CosmosMeta
  pub emap : List (List Equation)

-- `json_equation_of(handle, cmeta)`
unfoldable pub equation_of : JsonHandle → EquationMeta → Option Equation
equation_of h m = elim (get_elem? m.emap h.hash) [
  | none ↦ none
  | some b ↦ if m.names.jmapped == 0 then none else get_elem? b h.index
]

-- An error, or a value.
pub data Outcome {ℓ} (A : Type ℓ) : Type ℓ where
  gives : A → Outcome A
  refuses : Outcome A
  unmapped : Outcome A

-- What a routine that maps equations gives, unless it runs out of fuel: the outcome and the map.
abbrev pub Mapping : Type 0 → Type 0
Mapping A = Option (Result (Outcome A × EquationMeta))

-- What a routine goes on with: JSON_ERROR_SCAN for any error.
infixl 5 ◌>->◌
abbrev pub ◌>->◌ : {A B : Type 0} → Mapping A → (A → EquationMeta → Mapping B) → Mapping B
some (ok (gives a, m)) >-> f = f a m
some (ok (refuses, m)) >-> f = some (ok (refuses, m))
some (ok (unmapped, m)) >-> f = some (ok (refuses, m))
some (err e) >-> f = some (err e)
some fault >-> f = some fault
none >-> f = none

-- A byte that begins a number.
abbrev pub begins_number : ℕ → Bool
begins_number c =
    (leb b'0' c && leb c b'9') || ((c == b'+') || ((c == b'-') || ((c == b'.') || (c == b'%'))))

-- `json_name_map` for an operand.
unfoldable pub named : List ℕ → EquationMeta → Result JsonHandle → Mapping (List ℕ × Operand)
named s m (ok h) = some (ok (gives (s, name_operand h), m))
named s m (err e) = some (ok (refuses, m))
named s m fault = some fault

unfoldable pub from_string : EquationMeta → Status × List ℕ × List ℕ → Mapping (List ℕ × Operand)
unfolding named name_map
from_string m (done, s, text) = named s m (name_map text m.names)
from_string m (reason, s, text) = some (ok (refuses, m))

unfoldable pub from_number :
    EquationMeta → Status × List ℕ × Option (List ℕ) → Mapping (List ℕ × Operand)
from_number m (done, s, some text) = some (ok (gives (s, constant_operand text), m))
from_number m (reason, s, text) = some (ok (refuses, m))

unfoldable pub from_equation :
    (List ℕ → EquationMeta → Mapping JsonHandle)
    → EquationMeta
    → Option (Status × List ℕ × List ℕ)
    → Mapping (List ℕ × Operand)
from_equation map_nested m none = none
from_equation map_nested m (some (done, s, text)) =
    map_nested text m >-> λ h m'. some (ok (gives (s, equation_operand h), m'))
from_equation map_nested m (some (reason, s, text)) = some (ok (refuses, m))

-- `json_parse_operand(ptr, operand, cmeta)` from behind the white space on, with `json_equation_map`
-- for the equations inside.
unfoldable pub operand_at :
    (List ℕ → EquationMeta → Mapping JsonHandle)
    → List ℕ
    → EquationMeta
    → Mapping (List ℕ × Operand)
unfolding from_equation from_string from_number parse_equation parse_number extract_string
operand_at map_nested [] m = some (ok (gives ([], no_operand), m))
operand_at map_nested (c ∷ s) m =
    if c == b'('
    then from_equation map_nested m (parse_equation (c ∷ s) [])
    else if c == b'"'
    then from_string m (extract_string (c ∷ s) [])
    else if begins_number c
    then from_number m (parse_number (c ∷ s))
    else some (ok (gives (c ∷ s, no_operand), m))

abbrev pub operators : List ℕ
operators = codes "+-*/%&|><=!~"

-- The place of an operation, or the number of the operations.
abbrev pub operator_of : ℕ → List ℕ → ℕ
operator_of c [] = 0
operator_of c (d ∷ ops) = let rest = operator_of c ops in if c == d then 0 else rest + 1

-- The new equation goes to the end of its row.
unfoldable pub append_equation :
    ℕ → Equation → EquationMeta → Option (List Equation) → Mapping JsonHandle
append_equation hash e m none = some fault
append_equation hash e m (some row) = some (
    ok (
      gives (record { hash = hash; index = length row % 65536 }),
      record { names = m.names; emap = set m.emap hash (row ++ (e ∷ [])) },
    ))

-- `json_equation_map` behind the first operand and the white space.
unfoldable pub from_operation :
    (List ℕ → EquationMeta → Mapping JsonHandle)
    → List ℕ
    → Operand
    → EquationMeta
    → List ℕ
    → Mapping JsonHandle
unfolding operand_at append_equation
from_operation map_nested text first m [] = some (ok (refuses, m))
from_operation map_nested text first m (c ∷ s) =
    if operator_of c operators == length operators
    then some (ok (refuses, m))
    else (operand_at map_nested (skip_white s).1 m >-> λ second m2.
        append_equation (json_hash text)
          (record {
            text = text;
            operation = operator_of c operators;
            first = first;
            second = second.1;
          })
          m2 (get_elem? m2.emap (json_hash text)))

-- `json_equation_map` for an equation that is not in the map, behind its opening bracket.
unfoldable pub new_equation :
    (List ℕ → EquationMeta → Mapping JsonHandle)
    → List ℕ
    → List ℕ
    → EquationMeta
    → Mapping JsonHandle
unfolding operand_at from_operation
new_equation map_nested text s m = operand_at map_nested (skip_white s).1 m >-> λ first m1.
    from_operation map_nested text first.1 m1 (skip_white first.0).1

abbrev pub has_text : List ℕ → Equation → Bool
has_text text e = same_text text e.text

-- Behind the search in a row: none where it never ends.
unfoldable pub at_place :
    List ℕ → EquationMeta → List Equation → Mapping JsonHandle → Option ℕ → Mapping JsonHandle
at_place text m row added none = none
at_place text m row added (some index) =
    if ltb index (length row)
    then some (ok (gives (record { hash = json_hash text; index = index }), m))
    else added

-- The search in a row, whose index has 16 bits, and what is done for an equation that is not there.
unfoldable pub in_row :
    List ℕ → EquationMeta → Option (List Equation) → Mapping JsonHandle → Mapping JsonHandle
unfolding at_place search
in_row text m none added = some fault
in_row text m (some row) added = at_place text m row added (search rounds (has_text text) row 0)

abbrev pub ends_in : ℕ → List ℕ → Bool
ends_in d [] = false
ends_in d (c ∷ []) = c == d
ends_in d (c ∷ b ∷ s) = ends_in d (b ∷ s)

-- `json_equation_map(equation, cmeta, handle)`. A map of no rows is refused, and a missing row is read.
unfoldable pub equation_map : ℕ → List ℕ → EquationMeta → Mapping JsonHandle
unfolding new_equation in_row
equation_map zero text m = none
equation_map (suc n) [] m =
    some (ok (if (m.names.jmapped == 0) || (length m.emap == 0) then unmapped else refuses, m))
equation_map (suc n) (c ∷ s) m =
    let text = c ∷ s in
    let added = new_equation (equation_map n) text s m in
    if (m.names.jmapped == 0) || (length m.emap == 0)
    then some (ok (unmapped, m))
    else if not (c == b'(') || not (ends_in b')' text)
    then some (ok (refuses, m))
    else in_row text m (get_elem? m.emap (json_hash text)) added
