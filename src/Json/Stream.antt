-- ===== src/Json/Stream.antt =====
-- Lemmas on `json_tokenize` of libraries/support/jsonlib.cpp: every stream, and the streams of objects
-- that the library writes.
use core_cleanup_test.Base.{
  ℕ, zero, suc, ◌+◌, ◌<◌, ◌≡◌, ◌≢◌, inl, inr, refl, arith, List, [], ◌∷◌, ◌++◌, Bool, true, false,
  ◌==◌, if◌then◌else◌, length, Option, none, some, Bool-cases, codes,
}
use core_cleanup_test.Base.Search.{rows_below}
use core_cleanup_test.Base.Result.{Result, ok, ◌>>=◌}
use core_cleanup_test.Json.Names.{max_hash, CosmosMeta}
use core_cleanup_test.Json.Scan.{
  Status, done, eos, scan, noentry, nojmap, at_end, skip_white, skip_character, extract_value,
  ◌>>>◌,
}
use core_cleanup_test.Json.Lengths.{skip_white-done, extract_value-total}
use core_cleanup_test.Json.Progress.{Moved, tokenize_namedobject-Moved}
use core_cleanup_test.Json.Tokens.{
  behind_token, skip_quote, step, extract_behind, extract_namedobject, JsonToken,
  tokenize_namedobject, is_done, is_ending, skip_to_brace, token_loop, stream_utc, tokenize,
}

IsOk : {A : Type 0} → Result A → Type 0
IsOk r = (a : _) × (r ≡ ok a)

token_loop-IsOk :
    (fuel : ℕ) (s : List ℕ) (m : CosmosMeta) (token : JsonToken) (tokens : List JsonToken)
    → length m.jmap ≡ max_hash
    → rows_below 65536 m.jmap ≡ true
    → m.jmapped ≢ 0
    → length s < fuel
    → IsOk (token_loop fuel s m token tokens)
unfolding IsOk token_loop Moved
token_loop-IsOk zero s m token tokens rows short mapped h = absurd (omega (arith, h))
token_loop-IsOk (suc fuel) [] m token tokens rows short mapped h = ((eos, tokens), refl)
token_loop-IsOk (suc fuel) (c ∷ s) m token tokens rows short mapped h =
    let (status, s', token', e, l) = tokenize_namedobject-Moved c s m token rows short mapped in
    let tokens' = if is_done status then tokens ++ (token' ∷ []) else tokens in
    let (r, more) =
      token_loop-IsOk fuel s' m token' tokens' rows short mapped (omega (arith, h, l)) in
    rw e (elim (Bool-cases (is_ending status)) [
      | inl ending ↦ rw ending ((status, tokens'), refl)
      | inr on ↦ elim (Bool-cases (at_end s')) [
        | inl last ↦ rw (on, last) ((done, tokens'), refl)
        | inr more_left ↦ rw (on, more_left) (r, more)
      ]
    ])

token_loop-nojmap :
    (fuel : ℕ) (s : List ℕ) (m : CosmosMeta) (token : JsonToken) (tokens : List JsonToken)
    → m.jmapped ≡ 0
    → IsOk (token_loop (suc fuel) s m token tokens)
unfolding IsOk token_loop tokenize_namedobject
token_loop-nojmap fuel [] m token tokens z = ((eos, tokens), refl)
token_loop-nojmap fuel (c ∷ s) m token tokens z = rw z ((nojmap, tokens), refl)

step_value-IsOk :
    (p : Status × List ℕ)
    → (p.0 ≡ done → (c : ℕ) × (s : List ℕ) × (p.1 ≡ c ∷ s))
    → IsOk (step p (λ s. extract_value s [] >>= λ r. ok r.2) (λ _ _. ok []))
unfolding IsOk
step_value-IsOk (done, s) h =
    let (c, s', e) = h refl in
    let (status, s2, v, e', _) = extract_value-total c s' [] in rw e (v, rw e' refl)
step_value-IsOk (eos, s) h = ([], refl)
step_value-IsOk (scan, s) h = ([], refl)
step_value-IsOk (noentry, s) h = ([], refl)
step_value-IsOk (nojmap, s) h = ([], refl)

then_white-done :
    (p : Status × List ℕ)
    → (p >>> skip_white).0 ≡ done
    → (c : ℕ) × (s : List ℕ) × ((p >>> skip_white).1 ≡ c ∷ s)
then_white-done (done, s) e = skip_white-done s e
then_white-done (eos, s) e = absurd (ground (arith, e))
then_white-done (scan, s) e = absurd (ground (arith, e))
then_white-done (noentry, s) e = absurd (ground (arith, e))
then_white-done (nojmap, s) e = absurd (ground (arith, e))

extract_behind-IsOk : (found : Option (List ℕ)) → IsOk (extract_behind found)
unfolding IsOk extract_behind
extract_behind-IsOk none = ([], refl)
extract_behind-IsOk (some s) =
    let p = skip_white (skip_quote s) >>> λ r. skip_character r b':' in
    step_value-IsOk (p >>> skip_white) (then_white-done p)

extract_namedobject-IsOk : (json token : List ℕ) → IsOk (extract_namedobject json token)
unfolding extract_namedobject
extract_namedobject-IsOk json token = extract_behind-IsOk (behind_token token json)

bind-IsOk :
    {A B : Type 0} (r : Result A) (f : A → Result B)
    → IsOk r
    → ((a : A) → IsOk (f a))
    → IsOk (r >>= f)
unfolding IsOk
bind-IsOk r f (a, e) h = rw e (h a)

if-IsOk : {A : Type 0} (b : Bool) (r t : Result A) → IsOk r → IsOk t → IsOk (if b then r else t)
if-IsOk true r t h k = h
if-IsOk false r t h k = k

ok-IsOk : {A : Type 0} (a : A) → IsOk (ok a)
unfolding IsOk
ok-IsOk a = (a, refl)

stream_utc-IsOk : (jstring : List ℕ) → IsOk (stream_utc jstring)
unfolding stream_utc
stream_utc-IsOk jstring =
    bind-IsOk (extract_namedobject jstring (codes "node_utc")) _
      (extract_namedobject-IsOk jstring (codes "node_utc"))
      (λ val.
        if-IsOk (at_end val) _ _
          (bind-IsOk (extract_namedobject jstring (codes "node_loc_pos_eci")) _
            (extract_namedobject-IsOk jstring (codes "node_loc_pos_eci"))
            (λ pos.
              if-IsOk (at_end pos) _ _ (ok-IsOk []) (extract_namedobject-IsOk pos (codes "utc"))))
          (ok-IsOk val))

pub stream_utc-total : (jstring : List ℕ) → (utc : List ℕ) × (stream_utc jstring ≡ ok utc)
unfolding IsOk
stream_utc-total jstring = stream_utc-IsOk jstring

-- On a map with all its rows, each of fewer than 2^16 entries, `json_tokenize` ends on every text,
-- and never reads past its end: one turn of its loop for each byte is enough.
pub tokenize-total :
    (jstring : List ℕ) (m : CosmosMeta)
    → length m.jmap ≡ max_hash
    → rows_below 65536 m.jmap ≡ true
    → (status : Status) × (tokens : List JsonToken) × (tokenize jstring m ≡ ok (status, tokens))
unfolding tokenize IsOk
tokenize-total jstring m rows short =
    let start = skip_to_brace jstring in
    let (utc, e) = stream_utc-IsOk jstring in
    let token : JsonToken = record {
      handle = record { hash = 0; index = 0 };
      value = [];
      utc = utc;
    } in
    let (r, e') : IsOk (token_loop (length start + 1) start m token []) =
      elim (Bool-cases (m.jmapped == 0)) [
        | inl z ↦
            let one : length start + 1 ≡ suc (length start) = omega arith in
            rw one (token_loop-nojmap (length start) start m token [] (ground (arith, z)))
        | inr mapped ↦
            token_loop-IsOk (length start + 1) start m token [] rows short (ground (arith, mapped))
              (omega arith)
      ] in
    (r.0, r.1, rw (e, e') refl)
