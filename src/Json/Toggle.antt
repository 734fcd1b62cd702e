-- ===== src/Json/Toggle.antt =====
-- Lemmas on `json_toggleentry` and `json_checkentry` of libraries/support/jsonlib.cpp.
use core_cleanup_test.Base.{
  ℕ, zero, suc, ◌<◌, ◌≡◌, ◌≢◌, inl, inr, refl, sym, ap, ◌∙◌, subst, arith, List, [], ◌∷◌, Bool,
  length, get_elem?, set, Option, none, some, length-set, get_elem?-set, Option-cases,
}
use core_cleanup_test.Base.Result.{Result, ok, fault, bind-ok}
use core_cleanup_test.Json.Lookup.{get_elem?-in, some_inj, ok_inj}
use core_cleanup_test.Json.Names.{
  JsonEntry, JsonHandle, CosmosMeta, json_hash, index_of, entry_of, entry_at, extended_name,
  update_entry, enable, toggle_entry, check_entry,
}

-- Enabling an entry leaves its name, so a name is found where it was.
index_of-set :
    (name : List ℕ) (b : List JsonEntry) (i : ℕ) (e : JsonEntry) (state : Bool)
    → get_elem? b i ≡ some e
    → index_of name (set b i (enable state e)) ≡ index_of name b
index_of-set name [] i e state at = refl
index_of-set name (x ∷ b) zero e state at = ground (arith, at)
index_of-set name (x ∷ b) (suc i) e state at = ground (arith, index_of-set name b i e state at)

-- What it takes for a name to be found.
record IsFound (name : List ℕ) (m : CosmosMeta) (b : List JsonEntry) (e : JsonEntry) : Type 0 where
  mapped : m.jmapped ≢ 0
  row : get_elem? m.jmap (json_hash name) ≡ some b
  entry : get_elem? b (index_of name b) ≡ some e
  inside : index_of name b < length b

place_in : List ℕ → List JsonEntry → JsonHandle
place_in name b = record { hash = json_hash name; index = index_of name b }

entry_of-IsFound :
    (name : List ℕ) (m : CosmosMeta) (b : List JsonEntry) (e : JsonEntry)
    → IsFound name m b e
    → (entry_of name m ≡ ok (some (place_in name b))) × (entry_at (place_in name b) m ≡ some e)
unfolding entry_of entry_at place_in
entry_of-IsFound name m b e h =
    (ground (arith, h.mapped, h.row, h.inside), ground (arith, h.mapped, h.row, h.entry))

IsFound-entry_of :
    (name : List ℕ) (m : CosmosMeta) (h : JsonHandle)
    → entry_of name m ≡ ok (some h)
    → (b : List JsonEntry) × (e : JsonEntry) × IsFound name m b e
unfolding entry_of
IsFound-entry_of name m h e = elim (Option-cases (get_elem? m.jmap (json_hash name))) [
  | inl out ↦ absurd (ground (arith, e, out))
  | inr (b, at) ↦
      let inside : index_of name b < length b = ground (arith, e, at) in
      let (x, found) = get_elem?-in b (index_of name b) inside in
      (b, x, record { mapped = ground (arith, e); row = at; entry = found; inside = inside })
]

updated : List ℕ → CosmosMeta → List JsonEntry → CosmosMeta
updated name m b = record { jmapped = m.jmapped; jmap = set m.jmap (json_hash name) b }

IsFound-update :
    (name : List ℕ) (m : CosmosMeta) (b : List JsonEntry) (e : JsonEntry) (state : Bool)
    → IsFound name m b e
    → (b' : List JsonEntry) × IsFound name
        (update_entry (place_in name b) (enable state) m)
        b'
        (enable state e)
unfolding place_in updated
IsFound-update name m b e state h =
    let i = index_of name b in
    let b' = set b i (enable state e) in
    let same = index_of-set name b i e state h.entry in
    let written : update_entry (place_in name b) (enable state) m ≡ updated name m b' =
      ground (arith, h.row, h.entry) in
    let found : IsFound name (updated name m b') b' (enable state e) = record {
      mapped = h.mapped;
      row = get_elem?-set m.jmap (json_hash name) b' b h.row;
      entry = ap (get_elem? b') same ∙ get_elem?-set b i (enable state e) e h.entry;
      inside = omega (arith, same, h.inside, length-set b i (enable state e));
    } in
    (b', subst (λ m'. IsFound name m' b' (enable state e)) (sym written) found)

extended_name-ok :
    (name : List ℕ) (d1 d2 : ℕ) (m m' : CosmosMeta) (state : Bool)
    → toggle_entry name d1 d2 m state ≡ ok m'
    → (ename : List ℕ) × (extended_name name d1 d2 ≡ ok ename)
      × (h : JsonHandle) × (entry_of ename m ≡ ok (some h))
      × (update_entry h (enable state) m ≡ m')
unfolding toggle_entry
extended_name-ok name d1 d2 m m' state e =
    let (ename, named, rest) = bind-ok (extended_name name d1 d2) _ m' e in
    let (found, at, last) = bind-ok (entry_of ename m) _ m' rest in
    elim (Option-cases found) [
      | inl missing ↦ absurd (ground (arith, last, missing))
      | inr (h, there) ↦ (ename, named, h, at ∙ ap ok there, ground (arith, last, there))
    ]

pick :
    (r : Option JsonEntry) (e : JsonEntry)
    → r ≡ some e
    → elim r as (λ _. Result Bool) [ none ↦ fault | some x ↦ ok x.enabled ] ≡ ok e.enabled
pick none e h = absurd (ground (arith, h))
pick (some x) e h = ap (λ k. ok k.enabled) (some_inj h)

check_entry-at :
    (name ename : List ℕ) (d1 d2 : ℕ) (m : CosmosMeta) (h : JsonHandle) (e : JsonEntry)
    → extended_name name d1 d2 ≡ ok ename
    → entry_of ename m ≡ ok (some h)
    → entry_at h m ≡ some e
    → check_entry name d1 d2 m ≡ ok e.enabled
unfolding check_entry
check_entry-at name ename d1 d2 m h e named at value = rw (named, at) (pick (entry_at h m) e value)

-- Where `json_toggleentry` finds a name with its indices in any map and returns 0,
-- `json_checkentry` of the same name and indices returns the state that was set.
pub check_entry-toggle_entry :
    (name : List ℕ) (d1 d2 : ℕ) (m m' : CosmosMeta) (state : Bool)
    → toggle_entry name d1 d2 m state ≡ ok m'
    → check_entry name d1 d2 m' ≡ ok state
check_entry-toggle_entry name d1 d2 m m' state e =
    let (ename, named, h, at, written) = extended_name-ok name d1 d2 m m' state e in
    let (b, x, found) = IsFound-entry_of ename m h at in
    let (b', found') = IsFound-update ename m b x state found in
    let same : h ≡ place_in ename b =
      some_inj (ok_inj (sym at ∙ (entry_of-IsFound ename m b x found).0)) in
    let (at', value) = entry_of-IsFound ename m' b' (enable state x) (
      subst (λ r. IsFound ename r b' (enable state x))
        (ap (λ k. update_entry k (enable state) m) (sym same) ∙ written) found') in
    check_entry-at name ename d1 d2 m' (place_in ename b') (enable state x) named at' value
