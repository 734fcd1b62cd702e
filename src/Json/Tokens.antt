-- ===== src/Json/Tokens.antt =====
-- libraries/support/jsonlib.cpp: `json_extract_namedobject` and the tokens of a JSON stream. The
-- conversion of a time to `double` is left out: a token keeps the text that is converted, which is
-- empty where the program converts none. A search among the names that never ends is a `fault`.
use core_cleanup_test.Base.{
  ℕ, zero, suc, ◌+◌, List, [], ◌∷◌, ◌++◌, Bool, true, false, ◌==◌, if◌then◌else◌, length, Option,
  none, some, codes,
}
use core_cleanup_test.Base.Result.{Result, ok, fault, ◌>>=◌}
use core_cleanup_test.Json.Names.{JsonEntry, JsonHandle, CosmosMeta, json_hash, bucket, index_in}
use core_cleanup_test.Json.Scan.{
  Status, done, eos, scan, noentry, nojmap, at_end, skip_white, skip_character, skip_value,
  extract_value, extract_string, ◌>>>◌,
}

-- The next step, or what is returned once this one failed.
abbrev pub step {ℓ} : {A : Type ℓ} → Status × List ℕ → (List ℕ → A) → (Status → List ℕ → A) → A
step (status, s) next failed = elim status [ done ↦ next s | other ↦ failed other s ]

-- `json_parse_name(ptr, ostring)`
unfoldable pub parse_name : List ℕ → List ℕ → Status × List ℕ × List ℕ
unfolding skip_white extract_string
parse_name [] ostring = (eos, [], ostring)
parse_name (c ∷ s) ostring =
    step (skip_white (c ∷ s))
      (λ s1.
        let (status, s2, name) = extract_string s1 ostring in
        let (status', s3) =
          ((status, s2) >>> skip_white >>> λ r. skip_character r b':') >>> skip_white in
        (status', s3, name))
      (λ status s1. (status, s1, ostring))

-- `strstr`, and then past the end of what it has found.
abbrev pub drop_prefix : List ℕ → List ℕ → Option (List ℕ)
drop_prefix [] s = some s
drop_prefix (t ∷ token) [] = none
drop_prefix (t ∷ token) (c ∷ s) = if t == c then drop_prefix token s else none

abbrev pub behind_token : List ℕ → List ℕ → Option (List ℕ)
behind_token token [] = drop_prefix token []
behind_token token (c ∷ s) =
    let later = behind_token token s in
    elim (drop_prefix token (c ∷ s)) [ some rest ↦ some rest | none ↦ later ]

abbrev pub skip_quote : List ℕ → List ℕ
skip_quote [] = []
skip_quote (c ∷ s) = if c == b'"' then s else c ∷ s

-- The value behind a name that has been found.
unfoldable pub extract_behind : Option (List ℕ) → Result (List ℕ)
unfolding skip_white extract_value
extract_behind none = ok []
extract_behind (some s) =
    step ((skip_white (skip_quote s) >>> λ r. skip_character r b':') >>> skip_white)
      (λ s2. extract_value s2 [] >>= λ r. ok r.2) (λ _ _. ok [])

-- `json_extract_namedobject(json, token)`: the text of the value, empty where there is none.
unfoldable pub extract_namedobject : List ℕ → List ℕ → Result (List ℕ)
unfolding extract_behind
extract_namedobject json token = extract_behind (behind_token token json)

pub record JsonToken : Type 0 where
  pub handle : JsonHandle
  pub value : List ℕ
  pub utc : List ℕ

abbrev pub Scanned : Type 0
Scanned = Status × List ℕ × JsonToken

-- After an error that is not the end of the string: on to the next value, and `JSON_ERROR_SCAN`.
abbrev pub skipped : Status × List ℕ → Status × List ℕ
skipped (done, s) = (scan, s)
skipped (eos, s) = (eos, s)
skipped (scan, s) = (scan, s)
skipped (noentry, s) = (noentry, s)
skipped (nojmap, s) = (nojmap, s)

unfoldable pub recover : Status → List ℕ → Status × List ℕ
unfolding skip_value
recover eos s = (eos, s)
recover _ s = skipped (skip_value s)

-- The next step, unless this one failed.
unfoldable pub attempt : Status × List ℕ → JsonToken → (List ℕ → Result Scanned) → Result Scanned
unfolding recover
attempt here token next =
    step here next (λ status s. let (status', s') = recover status s in ok (status', s', token))

-- From behind the value on: the closing brace, and the space around it.
abbrev pub close_object : JsonToken → List ℕ → Result Scanned
close_object token s =
    step (skip_character s b'}') (λ s'. ok (done, (skip_white s').1, token))
      (λ _ s'. let (status, s2) = skipped (skip_value s') in ok (status, s2, token))

unfoldable pub tokenize_end : List ℕ → JsonToken → Result Scanned
unfolding skip_white skip_value
tokenize_end s token =
    step (skip_white s) (close_object token) (λ status s'. ok (status, s', token))

abbrev pub take_value : JsonHandle → List ℕ → JsonToken → JsonToken
take_value handle input token =
    if at_end input then token else record { handle = handle; value = input; utc = token.utc }

-- From the value on.
unfoldable pub tokenize_value : JsonHandle → JsonToken → List ℕ → Result Scanned
unfolding attempt extract_value tokenize_end
tokenize_value handle token s = extract_value s [] >>= λ r.
    let (status, s1, input) = r in
    attempt (status, s1) token (λ s2. tokenize_end s2 (take_value handle input token))

-- From behind the colon on, and from behind the name on.
unfoldable pub tokenize_spaced : JsonHandle → JsonToken → List ℕ → Result Scanned
unfolding attempt tokenize_value skip_white
tokenize_spaced handle token s = attempt (skip_white s) token (tokenize_value handle token)

unfoldable pub tokenize_colon : JsonHandle → JsonToken → List ℕ → Result Scanned
unfolding attempt tokenize_spaced
tokenize_colon handle token s = attempt (skip_character s b':') token (tokenize_spaced handle token)

-- From behind the name on: the entry is looked for in the list of its hash.
unfoldable pub found_entry :
    List ℕ → CosmosMeta → JsonToken → List ℕ → List JsonEntry → Result Scanned
unfolding json_hash index_in attempt tokenize_colon skip_white skip_value
found_entry name m token s b = index_in name b >>= λ index.
    if index == length b
    then ok (noentry, (skip_value s).1, token)
    else attempt (skip_white s) token
        (tokenize_colon (record { hash = json_hash name; index = index }) token)

unfoldable pub tokenize_named : List ℕ → CosmosMeta → JsonToken → List ℕ → Result Scanned
unfolding json_hash found_entry
tokenize_named name m token s = bucket (json_hash name) m >>= found_entry name m token s

-- `json_tokenize_namedobject(ptr, cmeta, token)`
unfoldable pub tokenize_namedobject : List ℕ → CosmosMeta → JsonToken → Result Scanned
unfolding attempt tokenize_named extract_string skip_value
tokenize_namedobject s m token = if m.jmapped == 0 then ok (nojmap, s, token) else elim s [
  | [] ↦ ok (eos, [], token)
  | c ∷ s1 ↦
      if c == b'{'
      then (let (status, s2, name) = extract_string s1 [] in
          attempt (status, s2) token (tokenize_named name m token))
      else (let (status, s2) = skipped (skip_value (c ∷ s1)) in ok (status, s2, token))
]

abbrev pub is_done : Status → Bool
is_done done = true
is_done _ = false

-- The errors that end `json_tokenize`.
abbrev pub is_ending : Status → Bool
is_ending eos = true
is_ending nojmap = true
is_ending _ = false

-- The bytes before the first opening brace are passed over.
unfoldable pub skip_to_brace : List ℕ → List ℕ
skip_to_brace [] = []
skip_to_brace (c ∷ s) = let rest = skip_to_brace s in if c == b'{' then c ∷ s else rest

-- The loop of `json_tokenize`: how it ended, and the tokens so far. `iretn` is zero at its end unless
-- it is one of the two errors that end it.
unfoldable pub token_loop :
    ℕ → List ℕ → CosmosMeta → JsonToken → List JsonToken → Result (Status × List JsonToken)
unfolding tokenize_namedobject
token_loop zero s m ttoken tokens = fault
token_loop (suc fuel) [] m ttoken tokens = ok (eos, tokens)
token_loop (suc fuel) (c ∷ s) m ttoken tokens = tokenize_namedobject (c ∷ s) m ttoken >>= λ r.
    let (status, s', ttoken') = r in
    let tokens' = if is_done status then tokens ++ (ttoken' ∷ []) else tokens in
    let onward = token_loop fuel s' m ttoken' tokens' in
    if is_ending status
    then ok (status, tokens')
    else if at_end s'
    then ok (done, tokens')
    else onward

-- The two calls for the time of the stream.
unfoldable pub stream_utc : List ℕ → Result (List ℕ)
unfolding extract_namedobject
stream_utc jstring = do
  val ← extract_namedobject jstring (codes "node_utc")
  if at_end val
      then (do
        pos ← extract_namedobject jstring (codes "node_loc_pos_eci")
        if at_end pos then ok [] else extract_namedobject pos (codes "utc"))
      else ok val

-- `json_tokenize(jstring, cmeta, tokens)`: where it ends well the call returns the number of tokens.
-- Each turn passes a byte.
unfoldable pub tokenize : List ℕ → CosmosMeta → Result (Status × List JsonToken)
unfolding stream_utc token_loop skip_to_brace
tokenize jstring m = do
  utc ← stream_utc jstring
  let start = skip_to_brace jstring
  token_loop (length start + 1) start m
      (record { handle = record { hash = 0; index = 0 }; value = []; utc = utc }) []
