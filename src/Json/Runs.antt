-- ===== src/Json/Runs.antt =====
-- Runs of the model of libraries/support/jsonlib.cpp on a small map and small texts.
use core_cleanup_test.Base.{
  suc, get_elem?, Option, none, some, length, false, ℕ, ◌+◌, ◌≡◌, refl, arith, List, [], ◌∷◌, ◌++◌,
  map, true, set, replicate, take, codes,
}
use core_cleanup_test.Base.Result.{ok, err, fault, ◌>>=◌}
use core_cleanup_test.Json.Names.{
  JsonHandle, json_hash, toggle_entry, enable, JsonEntry, CosmosMeta, add_entry, count_total,
  name_map,
}
use core_cleanup_test.Json.Lookup.{lookup, IsNamespace, or_added}
use core_cleanup_test.Json.Insert.{add_entry-IsNamespace, lookup-add_entry}
use core_cleanup_test.Json.Scan.{Status, done, extract_string, extract_value}
use core_cleanup_test.Json.Output.{out_string}
use core_cleanup_test.Json.RoundTrip.{extract_string-out_string}
use core_cleanup_test.Json.Objects.{number}
use core_cleanup_test.Json.Stream.{tokenize-total}
use core_cleanup_test.Json.Brackets.{parse_equation}
use core_cleanup_test.Json.Equations.{
  constant_operand, EquationMeta, Equation, Outcome, gives, refuses, unmapped, equation_of,
  equation_map,
}
use core_cleanup_test.Json.Formulas.{closes, packed, parse_equation-closes}
use core_cleanup_test.Json.Nesting.{equation_map-total}
use core_cleanup_test.Json.Mapped.{equation_map-again}
use core_cleanup_test.Json.Tokens.{JsonToken, stream_utc, tokenize}
use core_cleanup_test.Json.Written.{Item, IsItem, out_objects, token_of, tokenize-out_objects}

-- The map of `json_create`, and an entry.
abbrev no_entries : CosmosMeta
no_entries = record { jmapped = 0; jmap = replicate 1480 [] }

abbrev battery : JsonEntry
battery = record {
  enabled = true;
  type = 12;
  group = 1;
  name = codes "bat_v";
  offset = 0;
  size = 4;
  data_bytes = [];
  unit_index = 0;
  alert_index = 0;
  alarm_index = 0;
  maximum_index = 0;
  minimum_index = 0;
  subsystem = 0;
}

no_entries-IsNamespace : IsNamespace no_entries
unfolding count_total
no_entries-IsNamespace = record { rows = refl; counted = refl }

add_entry-IsNamespace_example :
    (m' : CosmosMeta) × (add_entry battery no_entries ≡ ok (0 + 1, m')) × IsNamespace m'
add_entry-IsNamespace_example =
    add_entry-IsNamespace battery no_entries no_entries-IsNamespace (omega arith)

lookup-add_entry_example :
    (m' : CosmosMeta) × (add_entry battery no_entries ≡ ok (0 + 1, m'))
    × ((name : List ℕ)
        → lookup name m' ≡ (lookup name no_entries >>= λ found. ok (or_added battery name found)))
lookup-add_entry_example = lookup-add_entry battery no_entries no_entries-IsNamespace (omega arith)

-- A name with a quote and a tab in it.
abbrev label : List ℕ
label = 97 ∷ 34 ∷ 9 ∷ 98 ∷ []

extract_string-out_string_example :
    (out : List ℕ) × ((jstring : List ℕ) → out_string jstring label 40 ≡ ok (jstring ++ out))
    × ((rest old : List ℕ) → extract_string (out ++ rest) old ≡ (done, rest, take (40 + 1) label))
extract_string-out_string_example = extract_string-out_string label 40 (ground arith) (omega arith)

tokenize-total_example :
    (status : Status) × (tokens : List JsonToken) × (tokenize (codes "{\"bat_v\":1") no_entries
      ≡ ok (status, tokens))
tokenize-total_example = tokenize-total (codes "{\"bat_v\":1") no_entries refl refl

abbrev one_entry : CosmosMeta
one_entry = record { jmapped = 1; jmap = set (replicate 1480 []) 228 (battery ∷ []) }

abbrev one_disabled : CosmosMeta
one_disabled = record {
  jmapped = 1;
  jmap = set (replicate 1480 []) 228 (enable false battery ∷ []);
}

one_toggled : toggle_entry (codes "bat_v") 65535 65535 one_entry false ≡ ok one_disabled
unfolding toggle_entry
one_toggled = refl

abbrev reading : Item
reading = record {
  name = codes "bat_v";
  value = codes "-1.5e3";
  handle = record { hash = 228; index = 0 };
}

reading-IsItem : IsItem one_entry reading
unfolding name_map
reading-IsItem = record {
  known = refl;
  plain = ground arith;
  short = omega arith;
  written = number b'-' (codes "1.5e3") refl (refl, (refl, (refl, (refl, (refl, tt)))));
}

tokenize-out_objects_example :
    (jstring utc : List ℕ) × (out_objects [] (reading ∷ reading ∷ []) ≡ ok jstring)
    × (stream_utc jstring ≡ ok utc)
    × (tokenize jstring one_entry ≡ ok (done, map (token_of utc) (reading ∷ reading ∷ [])))
tokenize-out_objects_example =
    tokenize-out_objects one_entry reading (reading ∷ []) (reading-IsItem, (reading-IsItem, tt))

-- A byte from 128 on overruns the buffer of the digits, and the digits of `\u` get quotes of their own.
out_string_overrun : out_string [] (195 ∷ []) 40 ≡ fault
unfolding out_string
out_string_overrun = refl

out_string_control : out_string [] (1 ∷ []) 40 ≡ ok (codes "\"\\u\"0001\"\"")
unfolding out_string
out_string_control = refl

-- The fourth digit of `\u` is taken for a byte of the string.
extract_string_unicode : extract_string (codes "\"\\u0041\"") [] ≡ (done, [], codes "1")
unfolding extract_string
extract_string_unicode = refl

-- A quote that is escaped ends a value.
extract_value_escaped :
    extract_value (codes "\"a\\\"b\"}") [] ≡ ok (done, codes "b\"}", codes "\"a\\\"")
unfolding extract_value
extract_value_escaped = refl

-- A map of one name, and no equations.
abbrev no_equations : EquationMeta
no_equations = record { names = one_entry; emap = replicate 1480 [] }

parse_equation-closes_example :
    parse_equation ((32 ∷ []) ++ (b'(' ∷ (codes "1 + (2*3))" ++ codes ", 4"))) []
    ≡ some (done, codes ", 4", [] ++ (b'(' ∷ codes "1+(2*3))"))
unfolding closes packed
parse_equation-closes_example =
    parse_equation-closes (32 ∷ []) (codes "1 + (2*3))") (codes ", 4") [] (refl, tt) (omega arith)
      refl

equation_map-total_example :
    (outcome : Outcome JsonHandle) × (m' : EquationMeta) × (equation_map 10
        (codes "(1+(2*3))")
        no_equations
      ≡ some (ok (outcome, m')))
equation_map-total_example =
    equation_map-total 10 (codes "(1+(2*3))") no_equations (omega arith) (omega arith) refl refl
      refl refl

-- What is mapped for a text: its equation, once `json_equation_of` has followed the handle.
abbrev mapped : List ℕ → Option Equation
mapped text = elim (equation_map (length text + 1) text no_equations) [
  | none ↦ none
  | some (ok (gives h, m)) ↦ equation_of h m
  | some (ok (refuses, m)) ↦ none
  | some (ok (unmapped, m)) ↦ none
  | some (err e) ↦ none
  | some fault ↦ none
]

-- What is mapped for a product.
abbrev product : Equation
product = record {
  text = codes "(5*2)";
  operation = 2;
  first = constant_operand (codes "5*2)");
  second = constant_operand (codes "2)");
}

equation_map_product : mapped (codes "(5*2)") ≡ some product
unfolding equation_map equation_of
equation_map_product = refl

-- A plus sign in front of a number is taken for the operation, and the second operand is the number.
equation_map_signed :
    mapped (codes "(+5*2)")
    ≡ some (record {
      text = codes "(+5*2)";
      operation = 0;
      first = constant_operand (codes "+5*2)");
      second = constant_operand (codes "5*2)");
    })
unfolding equation_map equation_of
equation_map_signed = refl

-- The map with it.
abbrev product_mapped : EquationMeta
product_mapped = record {
  names = one_entry;
  emap = set (replicate 1480 []) (json_hash (codes "(5*2)")) (product ∷ []);
}

product_mapped-lem :
    equation_map 6 (codes "(5*2)") no_equations
    ≡ some (ok (gives (record { hash = json_hash (codes "(5*2)"); index = 0 }), product_mapped))
unfolding equation_map json_hash
product_mapped-lem = refl

product_row : get_elem? product_mapped.emap (json_hash (codes "(5*2)")) ≡ some (product ∷ [])
unfolding json_hash
product_row = refl

equation_map-again_example :
    (e : Equation) × (equation_of
        (record { hash = json_hash (codes "(5*2)"); index = 0 })
        product_mapped
      ≡ some e)
    × (e.text ≡ codes "(5*2)")
    × (h : JsonHandle) × (equation_map (suc 5) (codes "(5*2)") product_mapped
        ≡ some (ok (gives h, product_mapped)))
equation_map-again_example =
    equation_map-again 6 5 (codes "(5*2)") no_equations product_mapped
      (record { hash = json_hash (codes "(5*2)"); index = 0 }) (product ∷ []) product_mapped-lem
      product_row (omega arith) (ground arith)
