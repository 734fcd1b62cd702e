-- ===== src/Json/Lookup.antt =====
-- Lemmas on the map of the JSON names of libraries/support/jsonlib.cpp: what a name leads to.
use core_cleanup_test.Base.{
  ℕ, zero, suc, ◌<◌, ◌≤◌, ◌≡◌, ◌≢◌, ◌⊎◌, inr, refl, ap, arith, List, [], ◌∷◌, ◌++◌, false,
  if◌then◌else◌, length, get_elem?, set, Option, none, some, same_text,
}
use core_cleanup_test.Base.Result.{Result, ok, ◌>>=◌}
use core_cleanup_test.Json.Names.{
  max_hash, JsonEntry, CosmosMeta, json_hash, index_of, entry_of, entry_at, count_total,
}

pub some_inj : {A : Type 0} {x y : A} → some x ≡ some y → x ≡ y
some_inj e = ground (arith, e)

pub ok_inj : {A : Type 0} {x y : A} → ok x ≡ ok y → x ≡ y
ok_inj e = ground (arith, e)

-- The first entry of a name in a list.
pub find : List ℕ → List JsonEntry → Option JsonEntry
find name [] = none
find name (e ∷ b) = if same_text name e.name then some e else find name b

-- The entry that a name leads to.
pub lookup : List ℕ → CosmosMeta → Result (Option JsonEntry)
lookup name m = entry_of name m >>= λ found. ok (elim found [ none ↦ none | some h ↦ entry_at h m ])

-- The table has all its rows, and the number of entries is right.
pub record IsNamespace (m : CosmosMeta) : Type 0 where
  pub rows : length m.jmap ≡ max_hash
  pub counted : count_total m ≡ ok m.jmapped

pub json_hash-lt : (s : List ℕ) → json_hash s < max_hash
unfolding json_hash
json_hash-lt s = omega arith

get_elem?-index_of :
    (name : List ℕ) (b : List JsonEntry)
    → (index_of name b < length b) × (get_elem? b (index_of name b) ≡ find name b)
      ⊎ (length b ≤ index_of name b) × (find name b ≡ none)
unfolding find
get_elem?-index_of name [] = inr (omega arith, refl)
get_elem?-index_of name (e ∷ b) = ground (arith, get_elem?-index_of name b)

-- The entry that a name leads to once `e` is behind all the others.
pub or_added : JsonEntry → List ℕ → Option JsonEntry → Option JsonEntry
or_added e name (some x) = some x
or_added e name none = if same_text name e.name then some e else none

pub find-append :
    (name : List ℕ) (b : List JsonEntry) (e : JsonEntry)
    → find name (b ++ (e ∷ [])) ≡ or_added e name (find name b)
unfolding find or_added
find-append name [] e = ground arith
find-append name (x ∷ b) e = ground (arith, find-append name b e)

pub or_added-other :
    (e : JsonEntry) (name : List ℕ) (found : Option JsonEntry)
    → same_text name e.name ≡ false
    → or_added e name found ≡ found
unfolding or_added
or_added-other e name found other = ground (arith, other)

pub get_elem?-in :
    {A : Type 0} (xs : List A) (i : ℕ) → i < length xs → (x : A) × (get_elem? xs i ≡ some x)
get_elem?-in [] i h = absurd (omega arith)
get_elem?-in (x ∷ xs) zero h = (x, refl)
get_elem?-in (x ∷ xs) (suc i) h = get_elem?-in xs i (omega (arith, h))

pub get_elem?-set_ne :
    {A : Type 0} (xs : List A) (i j : ℕ) (v : A) → i ≢ j → get_elem? (set xs j v) i ≡ get_elem? xs i
get_elem?-set_ne [] i j v h = refl
get_elem?-set_ne (x ∷ xs) zero zero v h = absurd (h refl)
get_elem?-set_ne (x ∷ xs) zero (suc j) v h = refl
get_elem?-set_ne (x ∷ xs) (suc i) zero v h = refl
get_elem?-set_ne (x ∷ xs) (suc i) (suc j) v h = get_elem?-set_ne xs i j v (λ e. h (ap suc e))

-- On a table that counts any entries, a name leads to the first entry of its list.
pub lookup-find :
    (name : List ℕ) (m : CosmosMeta) (b : List JsonEntry)
    → m.jmapped ≢ 0
    → get_elem? m.jmap (json_hash name) ≡ some b
    → lookup name m ≡ ok (find name b)
unfolding lookup entry_of entry_at
lookup-find name m b some_mapped at = ground (arith, some_mapped, at, get_elem?-index_of name b)

pub lookup-zero :
    (name : List ℕ) (m : CosmosMeta) → m.jmapped ≡ 0 → lookup name m ≡ ok (find name [])
unfolding lookup entry_of find
lookup-zero name m z = ground (arith, z)
