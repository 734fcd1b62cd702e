-- ===== src/Json/Names.antt =====
-- libraries/support/jsonlib.cpp and jsondef.h: the map of the JSON names, a table of lists of entries
-- under the hash of their name. A pointer to an entry is the place of the entry in the table, its
-- `JsonHandle`. A search that never ends, since its index wraps at 2^16, is a `fault` as well; the
-- lists of json_entry_of and of the counts are taken to be shorter. Of `cosmosmetastruc` the table and the number of entries are kept.
use Prim.Native.Nat.{◌*◌}
use core_cleanup_test.Base.{
  ℕ, zero, suc, ◌+◌, ◌%◌, ◌/◌, ◌^◌, List, [], ◌∷◌, ◌++◌, Bool, false, ◌==◌, ltb, if◌then◌else◌,
  length, get_elem?, set, Option, none, some, same_text,
}
use core_cleanup_test.Base.Search.{search, rounds}
use core_cleanup_test.Base.Result.{
  Result, ok, err, fault, json_error_nojmap, json_error_noentry, ◌>>=◌,
}

-- `COSMOS_MAX_NAME` and `JSON_MAX_HASH`
abbrev pub cosmos_max_name : ℕ
cosmos_max_name = 40

abbrev pub max_hash : ℕ
max_hash = 1480

pub record JsonEntry : Type 0 where
  pub enabled : Bool
  pub type : ℕ
  pub group : ℕ
  pub name : List ℕ
  pub offset : ℕ
  pub size : ℕ
  pub data_bytes : List ℕ
  pub unit_index : ℕ
  pub alert_index : ℕ
  pub alarm_index : ℕ
  pub maximum_index : ℕ
  pub minimum_index : ℕ
  pub subsystem : ℕ

pub record JsonHandle : Type 0 where
  pub hash : ℕ
  pub index : ℕ

pub record CosmosMeta : Type 0 where
  pub jmapped : ℕ
  pub jmap : List (List JsonEntry)

-- The loop of `json_hash`, with the wrap of `uint16_t` after each of its two steps.
abbrev pub hash_loop : ℕ → List ℕ → ℕ
hash_loop hashval [] = hashval
hash_loop hashval (val ∷ s) = hash_loop ((hashval * 31 % 2 ^ 16 + val) % 2 ^ 16) s

-- `json_hash(hstring)`
unfoldable pub json_hash : List ℕ → ℕ
json_hash hstring = hash_loop 0 hstring % max_hash

-- `jmap[hash]`
abbrev pub bucket : ℕ → CosmosMeta → Result (List JsonEntry)
bucket hash m = elim (get_elem? m.jmap hash) [ none ↦ fault | some b ↦ ok b ]

-- `json_addentry(entry, cmeta)`: the new number of entries.
unfoldable pub add_entry : JsonEntry → CosmosMeta → Result (ℕ × CosmosMeta)
unfolding json_hash
add_entry e m = do
  let hash = json_hash e.name
  b ← bucket hash m
  let jmapped' = (m.jmapped + 1) % 2 ^ 16
  if length (b ++ (e ∷ [])) == length b + 1
      then ok (jmapped', record { jmapped = jmapped'; jmap = set m.jmap hash (b ++ (e ∷ [])) })
      else err json_error_noentry

-- The loop that looks for a name in a list of entries, with the index that it stops at.
abbrev pub index_of : List ℕ → List JsonEntry → ℕ
index_of name [] = 0
index_of name (e ∷ b) = let rest = index_of name b in if same_text name e.name then 0 else suc rest

-- `json_entry_of(token, cmeta)`
unfoldable pub entry_of : List ℕ → CosmosMeta → Result (Option JsonHandle)
unfolding json_hash
entry_of token m =
    if m.jmapped == 0
    then ok none
    else (bucket (json_hash token) m >>= λ b.
        let n = index_of token b in
        if ltb n (length b)
        then ok (some (record { hash = json_hash token; index = n }))
        else ok none)

-- `json_entry_of(handle, cmeta)`, and what a pointer to an entry points to.
unfoldable pub entry_at : JsonHandle → CosmosMeta → Option JsonEntry
entry_at h m =
    if m.jmapped == 0
    then none
    else elim (get_elem? m.jmap h.hash) [ none ↦ none | some b ↦ get_elem? b h.index ]

-- The index at the end of a loop that looks for a name in a list of entries, counting in `uint16_t`.
unfoldable pub index_in : List ℕ → List JsonEntry → Result ℕ
unfolding search
index_in name b = elim (search rounds (λ e. same_text name e.name) b 0) [
  | none ↦ fault
  | some index ↦ ok index
]

-- The end of `json_name_map` behind its loop.
abbrev pub handle_at : List ℕ → List JsonEntry → ℕ → Result JsonHandle
handle_at name b index =
    if ltb index (length b)
    then ok (record { hash = json_hash name; index = index })
    else err json_error_noentry

-- `json_name_map(name, cmeta, handle)`
unfoldable pub name_map : List ℕ → CosmosMeta → Result JsonHandle
unfolding json_hash index_in
name_map name m =
    if m.jmapped == 0
    then err json_error_nojmap
    else if length m.jmap == 0
    then err json_error_nojmap
    else (bucket (json_hash name) m >>= λ b. index_in name b >>= handle_at name b)

-- `json_count_hash(hash, cmeta)`
abbrev pub count_hash : ℕ → CosmosMeta → Result ℕ
count_hash hash m = bucket hash m >>= λ b. ok (length b)

-- The loop of `json_count_total` from row `j` on, with the number of rows left. The row is passed on as
-- `uint16_t`.
unfoldable pub count_loop : ℕ → ℕ → CosmosMeta → Result ℕ
count_loop zero j m = ok 0
count_loop (suc left) j m = do
  n ← count_hash (j % 2 ^ 16) m
  more ← count_loop left (suc j) m
  ok (n + more)

-- `json_count_total(cmeta)`
unfoldable pub count_total : CosmosMeta → Result ℕ
unfolding count_loop
count_total m = count_loop (length m.jmap) 0 m

-- `sprintf("_%03u", d)` of a number of at most five digits.
abbrev pub three_digits : ℕ → List ℕ
three_digits d =
    let low = (48 + d / 100 % 10) ∷ (48 + d / 10 % 10) ∷ (48 + d % 10) ∷ [] in
    if ltb d 1000
    then b'_' ∷ low
    else if ltb d 10000
    then b'_' ∷ (48 + d / 1000) ∷ low
    else b'_' ∷ (48 + d / 10000) ∷ (48 + d / 1000 % 10) ∷ low

-- The extended name, in a buffer of `COSMOS_MAX_NAME+1` bytes.
unfoldable pub extended_name : List ℕ → ℕ → ℕ → Result (List ℕ)
extended_name name d1 d2 =
    let ename1 = if ltb d1 65535 then name ++ three_digits d1 else name in
    let ename2 = if ltb d2 65535 then ename1 ++ three_digits d2 else ename1 in
    if ltb cosmos_max_name (length ename2) then fault else ok ename2

-- A write through a pointer to an entry.
abbrev pub update_entry : JsonHandle → (JsonEntry → JsonEntry) → CosmosMeta → CosmosMeta
update_entry h f m = elim (get_elem? m.jmap h.hash) [
  | none ↦ m
  | some b ↦ elim (get_elem? b h.index) [
    | none ↦ m
    | some e ↦ record { jmapped = m.jmapped; jmap = set m.jmap h.hash (set b h.index (f e)) }
  ]
]

abbrev pub enable : Bool → JsonEntry → JsonEntry
enable state e = record {
  enabled = state;
  type = e.type;
  group = e.group;
  name = e.name;
  offset = e.offset;
  size = e.size;
  data_bytes = e.data_bytes;
  unit_index = e.unit_index;
  alert_index = e.alert_index;
  alarm_index = e.alarm_index;
  maximum_index = e.maximum_index;
  minimum_index = e.minimum_index;
  subsystem = e.subsystem;
}

-- `json_toggleentry(name, d1, d2, cmeta, state)`
unfoldable pub toggle_entry : List ℕ → ℕ → ℕ → CosmosMeta → Bool → Result CosmosMeta
unfolding entry_of extended_name
toggle_entry name d1 d2 m state = do
  ename ← extended_name name d1 d2
  found ← entry_of ename m
  elim found [ none ↦ err json_error_noentry | some h ↦ ok (update_entry h (enable state) m) ]

-- `json_checkentry(name, d1, d2, cmeta)`
unfoldable pub check_entry : List ℕ → ℕ → ℕ → CosmosMeta → Result Bool
unfolding entry_of extended_name entry_at
check_entry name d1 d2 m = do
  ename ← extended_name name d1 d2
  found ← entry_of ename m
  elim found [
    | none ↦ ok false
    | some h ↦ elim (entry_at h m) [ none ↦ fault | some e ↦ ok e.enabled ]
  ]
