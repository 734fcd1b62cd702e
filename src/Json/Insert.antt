-- ===== src/Json/Insert.antt =====
-- Lemmas on `json_addentry` and `json_count_total` of libraries/support/jsonlib.cpp.
use core_cleanup_test.Base.{
  ℕ, zero, suc, ◌+◌, ◌%◌, ◌^◌, ◌<◌, ◌≤◌, ◌≡◌, ◌≢◌, ◌⊎◌, inl, inr, refl, sym, ap, ◌∙◌, arith, List,
  [], ◌∷◌, ◌++◌, false, ◌==◌, length, get_elem?, set, drop, some, same_text, length-set,
  get_elem?-set, length-append, same_text-eq, Bool-cases,
}
use core_cleanup_test.Base.Result.{ok, ◌>>=◌}
use core_cleanup_test.Json.Names.{
  max_hash, JsonEntry, CosmosMeta, json_hash, add_entry, count_loop, count_total,
}
use core_cleanup_test.Json.Lookup.{
  some_inj, ok_inj, find, lookup, lookup-zero, or_added, or_added-other, IsNamespace, json_hash-lt,
  get_elem?-in, get_elem?-set_ne, lookup-find, find-append,
}

total : List (List JsonEntry) → ℕ
total [] = 0
total (b ∷ bs) = length b + total bs

drop-get_elem? :
    {A : Type 0} (n : ℕ) (xs : List A) (x : A)
    → get_elem? xs n ≡ some x
    → drop n xs ≡ x ∷ drop (suc n) xs
drop-get_elem? n [] x e = absurd (ground (arith, e))
drop-get_elem? zero (y ∷ xs) x e = ground (arith, e)
drop-get_elem? (suc n) (y ∷ xs) x e = drop-get_elem? n xs x e

drop_all : {A : Type 0} (n : ℕ) (xs : List A) → length xs ≤ n → drop n xs ≡ []
drop_all zero [] h = refl
drop_all zero (x ∷ xs) h = absurd (omega (arith, h))
drop_all (suc n) [] h = refl
drop_all (suc n) (x ∷ xs) h = drop_all n xs (omega (arith, h))

count_loop-total :
    (left j : ℕ) (m : CosmosMeta)
    → j + left ≡ length m.jmap
    → length m.jmap < 2 ^ 16
    → count_loop left j m ≡ ok (total (drop j m.jmap))
unfolding count_loop total
count_loop-total zero j m e small = rw (drop_all j m.jmap (omega (arith, e))) refl
count_loop-total (suc left) j m e small =
    let (b, at) = get_elem?-in m.jmap j (omega (arith, e)) in
    let short : j % 2 ^ 16 ≡ j = omega (arith, e, small) in
    ground (
      arith,
      at,
      short,
      drop-get_elem? j m.jmap b at,
      count_loop-total left (suc j) m (omega (arith, e)) small,
    )

total-set :
    (bs : List (List JsonEntry)) (h : ℕ) (b : List JsonEntry) (e : JsonEntry)
    → get_elem? bs h ≡ some b
    → total (set bs h (b ++ (e ∷ []))) ≡ total bs + 1
unfolding total
total-set [] h b e at = absurd (ground (arith, at))
total-set (c ∷ bs) zero b e at = ground (arith, at, length-append b (e ∷ []))
total-set (c ∷ bs) (suc h) b e at = omega (arith, total-set bs h b e at)

total-zero :
    (bs : List (List JsonEntry)) (h : ℕ) (b : List JsonEntry)
    → total bs ≡ 0
    → get_elem? bs h ≡ some b
    → b ≡ []
unfolding total
total-zero [] h b z at = absurd (ground (arith, at))
total-zero ([] ∷ bs) zero b z at = ground (arith, at)
total-zero ((x ∷ c) ∷ bs) zero b z at = absurd (omega (arith, z))
total-zero (c ∷ bs) (suc h) b z at = total-zero bs h b (omega (arith, z)) at

count_total-total : (m : CosmosMeta) → length m.jmap ≡ max_hash → count_total m ≡ ok (total m.jmap)
unfolding count_total
count_total-total m rows = count_loop-total (length m.jmap) 0 m (omega arith) (omega (arith, rows))

-- Where the entry has been put.
pub appended : JsonEntry → List JsonEntry → CosmosMeta → CosmosMeta
appended e b m = record {
  jmapped = m.jmapped + 1;
  jmap = set m.jmap (json_hash e.name) (b ++ (e ∷ []));
}

pub add_entry-appended :
    (e : JsonEntry) (m : CosmosMeta)
    → IsNamespace m
    → m.jmapped + 1 < 2 ^ 16
    → (b : List JsonEntry) × (get_elem? m.jmap (json_hash e.name) ≡ some b)
      × (add_entry e m ≡ ok (m.jmapped + 1, appended e b m))
unfolding add_entry appended
add_entry-appended e m wf room =
    let (b, at) =
      get_elem?-in m.jmap (json_hash e.name) (omega (arith, json_hash-lt e.name, wf.rows)) in
    let short : (m.jmapped + 1) % 2 ^ 16 ≡ m.jmapped + 1 = omega (arith, room) in
    (b, at, ground (arith, at, short, length-append b (e ∷ [])))

appended-IsNamespace :
    (e : JsonEntry) (b : List JsonEntry) (m : CosmosMeta)
    → IsNamespace m
    → get_elem? m.jmap (json_hash e.name) ≡ some b
    → IsNamespace (appended e b m)
unfolding appended
appended-IsNamespace e b m wf at =
    let rows = length-set m.jmap (json_hash e.name) (b ++ (e ∷ [])) ∙ wf.rows in
    let now : total m.jmap ≡ m.jmapped = ok_inj (sym (count_total-total m wf.rows) ∙ wf.counted) in
    record {
      rows = rows;
      counted =
          count_total-total (appended e b m) rows
          ∙ ap ok (total-set m.jmap (json_hash e.name) b e at ∙ ap (λ n. n + 1) now);
    }

same_text-hash : (s t : List ℕ) → json_hash s ≢ json_hash t → same_text s t ≡ false
same_text-hash s t apart = elim (Bool-cases (same_text s t)) [
  | inl same ↦ absurd (apart (ap json_hash (same_text-eq s t same)))
  | inr other ↦ other
]

lookup-found :
    (name : List ℕ) (m : CosmosMeta) (b : List JsonEntry)
    → IsNamespace m
    → get_elem? m.jmap (json_hash name) ≡ some b
    → lookup name m ≡ ok (find name b)
lookup-found name m b wf at = elim (Bool-cases (m.jmapped == 0)) [
  | inl none_mapped ↦
      let z : m.jmapped ≡ 0 = ground (arith, none_mapped) in
      let now : total m.jmap ≡ m.jmapped =
        ok_inj (sym (count_total-total m wf.rows) ∙ wf.counted) in
      rw (total-zero m.jmap (json_hash name) b (now ∙ z) at) (lookup-zero name m z)
  | inr mapped ↦ lookup-find name m b (ground (arith, mapped)) at
]

compare_hash : (s t : List ℕ) → (json_hash s ≡ json_hash t) ⊎ (json_hash s ≢ json_hash t)
compare_hash s t = ground arith

lookup-appended :
    (e : JsonEntry) (b : List JsonEntry) (m : CosmosMeta) (name : List ℕ)
    → IsNamespace m
    → get_elem? m.jmap (json_hash e.name) ≡ some b
    → lookup name (appended e b m) ≡ (lookup name m >>= λ found. ok (or_added e name found))
unfolding appended
lookup-appended e b m name wf at =
    let mapped : m.jmapped + 1 ≢ 0 = omega arith in
    let (c, at') =
      get_elem?-in m.jmap (json_hash name) (omega (arith, json_hash-lt name, wf.rows)) in
    rw (lookup-found name m c wf at') (elim (compare_hash name e.name) [
      | inl same ↦
          let both : c ≡ b = some_inj (sym at' ∙ ap (get_elem? m.jmap) same ∙ at) in
          rw
            (
              lookup-find name (appended e b m) (b ++ (e ∷ [])) mapped (
                  ap (get_elem? (appended e b m).jmap) same
                  ∙ get_elem?-set m.jmap (json_hash e.name) (b ++ (e ∷ [])) b at),
              both,
            )
            (ap ok (find-append name b e))
      | inr apart ↦ rw (or_added-other e name (find name c) (same_text-hash name e.name apart)) (
          lookup-find name (appended e b m) c mapped (
            get_elem?-set_ne m.jmap (json_hash name) (json_hash e.name) (b ++ (e ∷ [])) apart
            ∙ at'))
    ])

-- In a map with all its rows that counts its entries, fewer than 2^16 - 1, `json_addentry` keeps
-- the rows, and `json_count_total` finds as many entries as `jmapped` says.
pub add_entry-IsNamespace :
    (e : JsonEntry) (m : CosmosMeta)
    → IsNamespace m
    → m.jmapped + 1 < 2 ^ 16
    → (m' : CosmosMeta) × (add_entry e m ≡ ok (m.jmapped + 1, m')) × IsNamespace m'
add_entry-IsNamespace e m wf room =
    let (b, at, added) = add_entry-appended e m wf room in
    (appended e b m, added, appended-IsNamespace e b m wf at)

-- In a map with all its rows that counts its entries, fewer than 2^16 - 1, `json_addentry` returns
-- the count with one more, and each name leads to the entry that it led to before, or else to the
-- new one if that has the name.
pub lookup-add_entry :
    (e : JsonEntry) (m : CosmosMeta)
    → IsNamespace m
    → m.jmapped + 1 < 2 ^ 16
    → (m' : CosmosMeta) × (add_entry e m ≡ ok (m.jmapped + 1, m'))
      × ((name : List ℕ) → lookup name m' ≡ (lookup name m >>= λ found. ok (or_added e name found)))
lookup-add_entry e m wf room =
    let (b, at, added) = add_entry-appended e m wf room in
    (appended e b m, added, λ name. lookup-appended e b m name wf at)
