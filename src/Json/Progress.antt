-- ===== src/Json/Progress.antt =====
-- Lemmas on the tokens of libraries/support/jsonlib.cpp: how far each routine moves.
use core_cleanup_test.Base.{
  ◌<◌, true, none, same_text, ℕ, ◌≤◌, ◌≡◌, ◌≢◌, inl, inr, refl, ap, arith, List, [], ◌∷◌, false,
  ◌==◌, length, get_elem?, some, Bool-cases,
}
use core_cleanup_test.Base.Search.{first_hit, search-first_hit, rows_below, rows_below-at}
use core_cleanup_test.Base.Result.{Result, ok, fault, ◌>>=◌}
use core_cleanup_test.Json.Names.{
  max_hash, JsonEntry, JsonHandle, CosmosMeta, json_hash, bucket, index_in,
}
use core_cleanup_test.Json.Lookup.{get_elem?-in, json_hash-lt}
use core_cleanup_test.Json.Scan.{
  Status, done, eos, scan, noentry, nojmap, skip_white, skip_character, skip_value, extract_string,
}
use core_cleanup_test.Json.Lengths.{
  length-skip_white, length-skip_character, length-skip_value, extract_value-total,
  length-extract_string, skip_white-done, length-skipped,
}
use core_cleanup_test.Json.Tokens.{
  JsonToken, Scanned, step, skipped, recover, attempt, close_object, tokenize_end, take_value,
  tokenize_value, tokenize_spaced, tokenize_colon, found_entry, tokenize_named,
  tokenize_namedobject,
}

-- The call returns, with the pointer at most `n` bytes before the end.
unfoldable pub Moved : ℕ → Result Scanned → Type 0
Moved n r =
    (status : Status) × (s : List ℕ) × (token : JsonToken) × (r ≡ ok (status, s, token))
    × (length s ≤ n)

length-recover : (status : Status) (s : List ℕ) → length (recover status s).1 ≤ length s
unfolding recover
length-recover eos s = omega arith
length-recover done s = length-skipped (length s) (skip_value s) (length-skip_value s)
length-recover scan s = length-skipped (length s) (skip_value s) (length-skip_value s)
length-recover noentry s = length-skipped (length s) (skip_value s) (length-skip_value s)
length-recover nojmap s = length-skipped (length s) (skip_value s) (length-skip_value s)

recover-Moved :
    (n : ℕ) (status : Status) (s : List ℕ) (token : JsonToken)
    → length s ≤ n
    → Moved n (let (status', s') = recover status s in ok (status', s', token))
unfolding Moved
recover-Moved n status s token h = (
  (recover status s).0,
  (recover status s).1,
  token,
  refl,
  omega (arith, h, length-recover status s),
)

attempt-Moved :
    (n : ℕ) (here : Status × List ℕ) (token : JsonToken) (next : List ℕ → Result Scanned)
    → length here.1 ≤ n
    → (here.0 ≡ done → Moved n (next here.1))
    → Moved n (attempt here token next)
unfolding attempt
attempt-Moved n (done, s) token next h k = k refl
attempt-Moved n (eos, s) token next h k = recover-Moved n eos s token h
attempt-Moved n (scan, s) token next h k = recover-Moved n scan s token h
attempt-Moved n (noentry, s) token next h k = recover-Moved n noentry s token h
attempt-Moved n (nojmap, s) token next h k = recover-Moved n nojmap s token h

Moved-done :
    (n : ℕ) (status : Status) (s : List ℕ) (token : JsonToken)
    → length s ≤ n
    → Moved n (ok (status, s, token))
unfolding Moved
Moved-done n status s token h = (status, s, token, refl, h)

step-Moved :
    (n : ℕ) (here : Status × List ℕ) (next : List ℕ → Result Scanned)
    (failed : Status → List ℕ → Result Scanned)
    → Moved n (next here.1)
    → ((status : Status) → Moved n (failed status here.1))
    → Moved n (step here next failed)
step-Moved n (done, s) next failed h k = h
step-Moved n (eos, s) next failed h k = k eos
step-Moved n (scan, s) next failed h k = k scan
step-Moved n (noentry, s) next failed h k = k noentry
step-Moved n (nojmap, s) next failed h k = k nojmap

close_object-Moved :
    (n : ℕ) (token : JsonToken) (s : List ℕ) → length s ≤ n → Moved n (close_object token s)
close_object-Moved n token s h =
    let s' = (skip_character s b'}').1 in
    let l = length-skip_character s b'}' in
    let broken = skipped (skip_value s') in
    step-Moved n (skip_character s b'}') (λ r. ok (done, (skip_white r).1, token))
      (λ _ r. ok ((skipped (skip_value r)).0, (skipped (skip_value r)).1, token))
      (Moved-done n done (skip_white s').1 token (omega (arith, h, l, length-skip_white s')))
      (λ _.
        Moved-done n broken.0 broken.1 token
          (omega (arith, h, l, length-skipped (length s') (skip_value s') (length-skip_value s'))))

tokenize_end-Moved :
    (n : ℕ) (s : List ℕ) (token : JsonToken) → length s ≤ n → Moved n (tokenize_end s token)
unfolding tokenize_end
tokenize_end-Moved n s token h =
    let short : length (skip_white s).1 ≤ n = omega (arith, h, length-skip_white s) in
    step-Moved n (skip_white s) (close_object token) (λ status r. ok (status, r, token))
      (close_object-Moved n token (skip_white s).1 short)
      (λ status. Moved-done n status (skip_white s).1 token short)

tokenize_value-Moved :
    (n : ℕ) (handle : JsonHandle) (token : JsonToken) (c : ℕ) (s : List ℕ)
    → length s ≤ n
    → Moved n (tokenize_value handle token (c ∷ s))
unfolding tokenize_value
tokenize_value-Moved n handle token c s h =
    let (status, s1, input, e, l) = extract_value-total c s [] in
    rw e (
      attempt-Moved n (status, s1) token (λ s2. tokenize_end s2 (take_value handle input token))
        (omega (arith, h, l))
        (λ _. tokenize_end-Moved n s1 (take_value handle input token) (omega (arith, h, l))))

tokenize_colon-Moved :
    (n : ℕ) (handle : JsonHandle) (token : JsonToken) (s : List ℕ)
    → length s ≤ n
    → Moved n (tokenize_colon handle token s)
unfolding tokenize_colon tokenize_spaced
tokenize_colon-Moved n handle token s h =
    let s' = (skip_character s b':').1 in
    let l : length s' ≤ n = omega (arith, h, length-skip_character s b':') in
    let l' : length (skip_white s').1 ≤ n = omega (arith, l, length-skip_white s') in
    attempt-Moved n (skip_character s b':') token (tokenize_spaced handle token) l (λ _.
      attempt-Moved n (skip_white s') token (tokenize_value handle token) l' (λ white.
        let (c, r, e) = skip_white-done s' white in
        let short : length r ≤ n = omega (arith, l', ap length e) in
        rw e (tokenize_value-Moved n handle token c r short)))

bind-Moved :
    {A : Type 0} (n : ℕ) (r : Result A) (a : A) (f : A → Result Scanned)
    → r ≡ ok a
    → Moved n (f a)
    → Moved n (r >>= f)
bind-Moved n r a f e h = rw e h

pub bucket-at :
    (m : CosmosMeta) (b : List JsonEntry) (hash : ℕ)
    → get_elem? m.jmap hash ≡ some b
    → bucket hash m ≡ ok b
bucket-at m b hash at = ground (arith, at)

pub index_in-short :
    (name : List ℕ) (b : List JsonEntry)
    → length b < 65536
    → index_in name b ≡ ok (first_hit (λ e. same_text name e.name) b)
unfolding index_in
index_in-short name b l =
    ap (λ o. elim o [ none ↦ fault | some index ↦ ok index ])
      (search-first_hit (λ e. same_text name e.name) b l)

found_entry-Moved :
    (n : ℕ) (name : List ℕ) (m : CosmosMeta) (token : JsonToken) (s : List ℕ) (b : List JsonEntry)
    → length b < 65536
    → length s ≤ n
    → Moved n (found_entry name m token s b)
unfolding found_entry
found_entry-Moved n name m token s b l h =
    let i = first_hit (λ e. same_text name e.name) b in
    let handle : JsonHandle = record { hash = json_hash name; index = i } in
    let none_of =
      Moved-done n noentry (skip_value s).1 token (omega (arith, h, length-skip_value s)) in
    let short : length (skip_white s).1 ≤ n = omega (arith, h, length-skip_white s) in
    let onward =
      attempt-Moved n (skip_white s) token (tokenize_colon handle token) short
        (λ _. tokenize_colon-Moved n handle token (skip_white s).1 short) in
    rw (index_in-short name b l) (elim (Bool-cases (i == length b)) [
      | inl missing ↦ rw missing none_of
      | inr found ↦ rw found onward
    ])

tokenize_named-Moved :
    (n : ℕ) (name : List ℕ) (m : CosmosMeta) (token : JsonToken) (s : List ℕ)
    → length m.jmap ≡ max_hash
    → rows_below 65536 m.jmap ≡ true
    → length s ≤ n
    → Moved n (tokenize_named name m token s)
unfolding tokenize_named
tokenize_named-Moved n name m token s rows short h =
    let (b, at) = get_elem?-in m.jmap (json_hash name) (omega (arith, json_hash-lt name, rows)) in
    bind-Moved n (bucket (json_hash name) m) b (found_entry name m token s)
      (bucket-at m b (json_hash name) at)
      (found_entry-Moved n name m token s b (rows_below-at 65536 m.jmap (json_hash name) b short at)
        h)

-- On a map with entries, a call on a string that is not at its end passes a byte.
pub tokenize_namedobject-Moved :
    (c : ℕ) (s : List ℕ) (m : CosmosMeta) (token : JsonToken)
    → length m.jmap ≡ max_hash
    → rows_below 65536 m.jmap ≡ true
    → m.jmapped ≢ 0
    → Moved (length s) (tokenize_namedobject (c ∷ s) m token)
unfolding tokenize_namedobject
tokenize_namedobject-Moved c s m token rows short mapped =
    let any : (m.jmapped == 0) ≡ false = ground (arith, mapped) in
    let (status, s2, name) = extract_string s [] in
    let l = length-extract_string s [] in
    let off = skipped (skip_value s) in
    rw any (elim (Bool-cases (c == b'{')) [
      | inl brace ↦ rw brace (
          attempt-Moved (length s) (status, s2) token (tokenize_named name m token) l
            (λ _. tokenize_named-Moved (length s) name m token s2 rows short l))
      | inr other ↦ rw other (
          Moved-done (length s) off.0 off.1 token
            (length-skipped (length s) (skip_value s) (length-skip_value s)))
    ])
