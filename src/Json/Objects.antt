-- ===== src/Json/Objects.antt =====
-- Lemmas on `json_out_name` and `json_tokenize_namedobject` of libraries/support/jsonlib.cpp together:
-- one object of a name and a value.
use mathlib.Core.List.{append_assoc}
use core_cleanup_test.Base.{
  Bool-cases, inl, inr, false, ltb, ℕ, ◌+◌, ◌≤◌, ◌≡◌, ◌≢◌, inl, inr, refl, sym, ap, ◌∙◌, arith,
  List, [], ◌∷◌, ◌++◌, true, false, ◌==◌, length, All, some, take_all,
}
use core_cleanup_test.Base.Result.{Result, ok, bind-ok, ◌>>=◌}
use core_cleanup_test.Json.Names.{
  cosmos_max_name, JsonEntry, JsonHandle, CosmosMeta, name_map, json_hash, bucket, index_in,
  handle_at,
}
use core_cleanup_test.Json.Lookup.{ok_inj}
use core_cleanup_test.Json.Scan.{
  done, at_end, skip_white, extract_quoted, extract_number, in_number, extract_value,
  extract_string,
}
use core_cleanup_test.Json.Output.{append, out_character, out_name}
use core_cleanup_test.Json.RoundTrip.{IsPlain, extract_string-out_string}
use core_cleanup_test.Json.Tokens.{
  attempt, JsonToken, tokenize_end, tokenize_value, tokenize_spaced, tokenize_colon, found_entry,
  tokenize_named, tokenize_namedobject,
}

-- A number, and a string with no quote inside.
pub data IsValue : List ℕ → Type 0 where
  number :
      (c : ℕ) (s : List ℕ) → in_number c ≡ true → All (λ d. in_number d ≡ true) s → IsValue (c ∷ s)
  text : (s : List ℕ) → All (λ c. c ≢ b'"') s → IsValue (b'"' ∷ (s ++ (b'"' ∷ [])))

extract_number-All :
    (s rest : List ℕ)
    → All (λ d. in_number d ≡ true) s
    → extract_number (s ++ (b'}' ∷ rest)) ≡ (s, b'}' ∷ rest)
unfolding extract_number
extract_number-All [] rest h = ground arith
extract_number-All (c ∷ s) rest h = rw (h.0, extract_number-All s rest h.1) refl

extract_quoted-All :
    (s rest : List ℕ)
    → All (λ c. c ≢ b'"') s
    → extract_quoted (s ++ (b'"' ∷ rest)) ≡ some (s ++ (b'"' ∷ []), rest)
unfolding extract_quoted
extract_quoted-All [] rest h = ground arith
extract_quoted-All (c ∷ s) rest h = ground (arith, h.0, extract_quoted-All s rest h.1)

extract_value-IsValue :
    (v rest : List ℕ)
    → IsValue v
    → extract_value (v ++ (b'}' ∷ rest)) [] ≡ ok (done, b'}' ∷ rest, v)
unfolding extract_value
extract_value-IsValue [] rest v = elim v [ ]
extract_value-IsValue (c ∷ s) rest (number _ _ h hs) =
    ground (arith, h, extract_number-All s rest hs)
extract_value-IsValue (_ ∷ _) rest (text s h) =
    rw (append_assoc s (b'"' ∷ []) (b'}' ∷ rest), extract_quoted-All s (b'}' ∷ rest) h) refl

-- A value does not start with a space, and is not empty.
IsValue-start :
    (v rest : List ℕ)
    → IsValue v
    → (skip_white (v ++ rest) ≡ (done, v ++ rest)) × (at_end v ≡ false)
unfolding skip_white
IsValue-start [] rest v = elim v [ ]
IsValue-start (c ∷ s) rest (number _ _ h hs) = (ground (arith, h), refl)
IsValue-start (_ ∷ _) rest (text s h) = (refl, refl)

-- A name that the library writes, read back.
out_name-read :
    (name : List ℕ)
    → All IsPlain name
    → length name ≤ cosmos_max_name + 1
    → (q : List ℕ) × ((jstring : List ℕ)
        → out_name jstring name ≡ ok (jstring ++ (q ++ (b':' ∷ []))))
      × ((rest : List ℕ) → extract_string (q ++ rest) [] ≡ (done, rest, name))
unfolding out_name
out_name-read name plain short =
    let (q, written, read) =
      extract_string-out_string name cosmos_max_name plain (omega (arith, short)) in
    (
      q,
      (λ jstring. rw (written jstring) (ap ok (append_assoc jstring q (b':' ∷ [])))),
      λ rest. read rest [] ∙ ap (λ n. (done, rest, n)) (take_all (cosmos_max_name + 1) name short),
    )

tokenize_colon-value :
    (handle : JsonHandle) (token : JsonToken) (v rest : List ℕ)
    → IsValue v
    → (skip_white rest).1 ≡ rest
    → tokenize_colon handle token (b':' ∷ (v ++ (b'}' ∷ rest)))
      ≡ ok (done, rest, record { handle = handle; value = v; utc = token.utc })
unfolding tokenize_colon tokenize_spaced tokenize_value tokenize_end attempt
tokenize_colon-value handle token v rest ok_value next =
    let (front, some_value) = IsValue-start v (b'}' ∷ rest) ok_value in
    rw (front, extract_value-IsValue v rest ok_value, some_value, next) refl

place_of : List ℕ → ℕ → JsonHandle
place_of name i = record { hash = json_hash name; index = i }

handle_at-ok :
    (name : List ℕ) (b : List JsonEntry) (i : ℕ) (handle : JsonHandle)
    → handle_at name b i ≡ ok handle
    → (i ≢ length b) × (handle ≡ place_of name i)
unfolding place_of
handle_at-ok name b i handle e = elim (Bool-cases (ltb i (length b))) [
  | inl l ↦ (ground (arith, l), sym (ok_inj (rw l at e)))
  | inr l ↦ absurd (ground (arith, rw l at e))
]

-- What a successful `json_name_map` says of the table.
name_map-ok :
    (name : List ℕ) (m : CosmosMeta) (handle : JsonHandle)
    → name_map name m ≡ ok handle
    → (m.jmapped ≢ 0)
      × (b : List JsonEntry) × (i : ℕ) × (bucket (json_hash name) m ≡ ok b)
      × (index_in name b ≡ ok i)
      × (i ≢ length b)
      × (handle ≡ place_of name i)
unfolding name_map
name_map-ok name m handle e = elim (Bool-cases (m.jmapped == 0)) [
  | inl p ↦ absurd (ground (arith, rw p at e))
  | inr p ↦ elim (Bool-cases (length m.jmap == 0)) [
    | inl q ↦ absurd (ground (arith, rw (p, q) at e))
    | inr q ↦
        let (b, at, e1) =
          bind-ok (bucket (json_hash name) m) (λ b. index_in name b >>= handle_at name b) handle
            (rw (p, q) at e) in
        let (i, found, e2) = bind-ok (index_in name b) (handle_at name b) handle e1 in
        let (inside, same) = handle_at-ok name b i handle e2 in
        (ground (arith, p), b, i, at, found, inside, same)
  ]
]

-- The text of an object, as `json_out_entry` writes it around a value.
pub out_object : List ℕ → List ℕ → List ℕ → Result (List ℕ)
out_object jstring name value =
    out_name (out_character jstring b'{') name >>= λ j. ok (out_character (append j value) b'}')

object_parts :
    (j q v : List ℕ)
    → (((j ++ (b'{' ∷ [])) ++ (q ++ (b':' ∷ []))) ++ v) ++ (b'}' ∷ [])
      ≡ j ++ (b'{' ∷ (q ++ (b':' ∷ (v ++ (b'}' ∷ [])))))
object_parts j q v =
    append_assoc ((j ++ (b'{' ∷ [])) ++ (q ++ (b':' ∷ []))) v (b'}' ∷ [])
    ∙ append_assoc (j ++ (b'{' ∷ [])) (q ++ (b':' ∷ [])) (v ++ (b'}' ∷ []))
    ∙ append_assoc j (b'{' ∷ []) ((q ++ (b':' ∷ [])) ++ (v ++ (b'}' ∷ [])))
    ∙ ap (λ l. j ++ (b'{' ∷ l)) (append_assoc q (b':' ∷ []) (v ++ (b'}' ∷ [])))

object_behind :
    (q v rest : List ℕ)
    → (q ++ (b':' ∷ (v ++ (b'}' ∷ [])))) ++ rest ≡ q ++ (b':' ∷ (v ++ (b'}' ∷ rest)))
object_behind q v rest =
    append_assoc q (b':' ∷ (v ++ (b'}' ∷ []))) rest
    ∙ ap (λ l. q ++ (b':' ∷ l)) (append_assoc v (b'}' ∷ []) rest)

-- At an object whose name is in the table, the call goes on to the colon.
tokenize_object :
    (m : CosmosMeta) (token : JsonToken) (name : List ℕ) (b : List JsonEntry) (i : ℕ) (q s : List ℕ)
    → m.jmapped ≢ 0
    → bucket (json_hash name) m ≡ ok b
    → index_in name b ≡ ok i
    → i ≢ length b
    → extract_string (q ++ (b':' ∷ s)) [] ≡ (done, b':' ∷ s, name)
    → tokenize_namedobject (b'{' ∷ (q ++ (b':' ∷ s))) m token
      ≡ tokenize_colon (place_of name i) token (b':' ∷ s)
unfolding tokenize_namedobject tokenize_named found_entry attempt place_of
tokenize_object m token name b i q s mapped at index found read =
    let any : (m.jmapped == 0) ≡ false = ground (arith, mapped) in
    let there : (i == length b) ≡ false = ground (arith, found) in
    rw (any, read, at, index, there) refl

pub tokenize_namedobject-out_object :
    (m : CosmosMeta) (name value : List ℕ) (handle : JsonHandle)
    → name_map name m ≡ ok handle
    → All IsPlain name
    → length name ≤ cosmos_max_name + 1
    → IsValue value
    → (object : List ℕ) × ((jstring : List ℕ)
        → out_object jstring name value ≡ ok (jstring ++ (b'{' ∷ object)))
      × ((rest : List ℕ) (token : JsonToken)
          → (skip_white rest).1 ≡ rest
          → tokenize_namedobject (b'{' ∷ (object ++ rest)) m token
            ≡ ok (done, rest, record { handle = handle; value = value; utc = token.utc }))
unfolding out_object
tokenize_namedobject-out_object m name value handle known plain short ok_value =
    let (q, written, read) = out_name-read name plain short in
    let (mapped, b, i, at, index, found, e) = name_map-ok name m handle known in
    (
      q ++ (b':' ∷ (value ++ (b'}' ∷ []))),
      (λ jstring. rw (written (jstring ++ (b'{' ∷ []))) (ap ok (object_parts jstring q value))),
      λ rest token next. rw (object_behind q value rest) (
          tokenize_object m token name b i q (value ++ (b'}' ∷ rest)) mapped at index found
            (read (b':' ∷ (value ++ (b'}' ∷ rest))))
          ∙ tokenize_colon-value (place_of name i) token value rest ok_value next
          ∙ ap (λ h. ok (done, rest, record { handle = h; value = value; utc = token.utc }))
              (sym e)),
    )
