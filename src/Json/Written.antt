-- ===== src/Json/Written.antt =====
-- Lemmas on `json_tokenize` of libraries/support/jsonlib.cpp on the objects that the library writes.
use mathlib.Core.List.{append_assoc, append-nil}
use core_cleanup_test.Base.{
  ℕ, zero, suc, ◌+◌, ◌<◌, ◌≤◌, ◌≡◌, refl, sym, ap, ◌∙◌, arith, List, [], ◌∷◌, ◌++◌, map,
  if◌then◌else◌, length, All, length-append,
}
use core_cleanup_test.Base.Result.{Result, ok, ◌>>=◌}
use core_cleanup_test.Json.Names.{cosmos_max_name, JsonHandle, CosmosMeta, name_map}
use core_cleanup_test.Json.Scan.{done, at_end, skip_white}
use core_cleanup_test.Json.RoundTrip.{IsPlain}
use core_cleanup_test.Json.Objects.{IsValue, out_object, tokenize_namedobject-out_object}
use core_cleanup_test.Json.Stream.{stream_utc-total}
use core_cleanup_test.Json.Tokens.{
  JsonToken, tokenize_namedobject, skip_to_brace, token_loop, stream_utc, tokenize,
}

-- A name of the table and the text of a value, with the place of the name.
pub record Item : Type 0 where
  pub name : List ℕ
  pub value : List ℕ
  pub handle : JsonHandle

pub record IsItem (m : CosmosMeta) (i : Item) : Type 0 where
  pub known : name_map i.name m ≡ ok i.handle
  pub plain : All IsPlain i.name
  pub short : length i.name ≤ cosmos_max_name + 1
  pub written : IsValue i.value

-- The objects one after the other, as `json_out_entry` appends them.
pub out_objects : List ℕ → List Item → Result (List ℕ)
out_objects jstring [] = ok jstring
out_objects jstring (i ∷ items) = out_object jstring i.name i.value >>= λ j. out_objects j items

pub token_of : List ℕ → Item → JsonToken
token_of utc i = record { handle = i.handle; value = i.value; utc = utc }

-- What the objects write, and how the loop reads it.
record IsText (m : CosmosMeta) (items : List Item) (text : List ℕ) : Type 0 where
  out : (jstring : List ℕ) → out_objects jstring items ≡ ok (jstring ++ text)
  front : ((skip_white text).1 ≡ text) × (skip_to_brace text ≡ text)
  read :
      (fuel : ℕ) (token : JsonToken) (tokens : List JsonToken)
      → length text < fuel
      → (if at_end text then ok (done, tokens) else token_loop fuel text m token tokens)
        ≡ ok (done, tokens ++ map (token_of token.utc) items)

no-IsText : (m : CosmosMeta) → IsText m [] []
unfolding out_objects skip_white skip_to_brace
no-IsText m = record {
  out = λ jstring. ap ok (sym (append-nil jstring));
  front = (refl, refl);
  read = λ fuel token tokens h. ap (λ l. ok (done, l)) (sym (append-nil tokens));
}

token_loop-step :
    (fuel c : ℕ) (s rest : List ℕ) (m : CosmosMeta) (token next : JsonToken)
    (tokens : List JsonToken)
    → tokenize_namedobject (c ∷ s) m token ≡ ok (done, rest, next)
    → token_loop (suc fuel) (c ∷ s) m token tokens ≡ (
        if at_end rest
        then ok (done, tokens ++ (next ∷ []))
        else token_loop fuel rest m next (tokens ++ (next ∷ [])))
unfolding token_loop
token_loop-step fuel c s rest m token next tokens e = rw e refl

read_object :
    (m : CosmosMeta) (i : Item) (items : List Item) (object text : List ℕ)
    → ((token : JsonToken)
        → tokenize_namedobject (b'{' ∷ (object ++ text)) m token
          ≡ ok (done, text, token_of token.utc i))
    → IsText m items text
    → (fuel : ℕ) (token : JsonToken) (tokens : List JsonToken)
    → suc (length (object ++ text)) < fuel
    → token_loop fuel (b'{' ∷ (object ++ text)) m token tokens
      ≡ ok (done, tokens ++ map (token_of token.utc) (i ∷ items))
unfolding token_of
read_object m i items object text one more zero token tokens h = absurd (omega (arith, h))
read_object m i items object text one more (suc fuel) token tokens h =
    let next = token_of token.utc i in
    token_loop-step fuel b'{' (object ++ text) text m token next tokens (one token)
    ∙ more.read fuel next (tokens ++ (next ∷ [])) (omega (arith, h, length-append object text))
    ∙ ap (λ l. ok (done, l)) (append_assoc tokens (next ∷ []) (map (token_of token.utc) items))

one_more-IsText :
    (m : CosmosMeta) (i : Item) (items : List Item) (text : List ℕ)
    → IsItem m i
    → IsText m items text
    → (object : List ℕ) × IsText m (i ∷ items) (b'{' ∷ (object ++ text))
unfolding out_objects token_of
one_more-IsText m i items text item more =
    let (object, written, back) =
      tokenize_namedobject-out_object m i.name i.value i.handle item.known item.plain item.short
        item.written in
    (
      object,
      record {
        out = λ jstring. rw (written jstring) (
            more.out (jstring ++ (b'{' ∷ object))
            ∙ ap ok (append_assoc jstring (b'{' ∷ object) text));
        front = (unfold skip_white in refl, unfold skip_to_brace in refl);
        read = read_object m i items object text (λ token. back text token more.front.0) more;
      },
    )

All-IsText :
    (m : CosmosMeta) (items : List Item)
    → All (IsItem m) items
    → (text : List ℕ) × IsText m items text
All-IsText m [] h = ([], no-IsText m)
All-IsText m (i ∷ items) h =
    let (text, more) = All-IsText m items h.1 in
    let (object, whole) = one_more-IsText m i items text h.0 more in
    (b'{' ∷ (object ++ text), whole)

-- One or more objects, each of a name that `json_name_map` finds and that `json_out_name` can
-- write whole (41 bytes at most, printable or with an escape of their own) and of a number or a
-- text without a quote inside, are written, and `json_tokenize` reads them back: one token for
-- each, in order, with the place of its name and the text of its value.
pub tokenize-out_objects :
    (m : CosmosMeta) (i : Item) (items : List Item)
    → All (IsItem m) (i ∷ items)
    → (text utc : List ℕ) × (out_objects [] (i ∷ items) ≡ ok text)
      × (stream_utc text ≡ ok utc)
      × (tokenize text m ≡ ok (done, map (token_of utc) (i ∷ items)))
unfolding tokenize
tokenize-out_objects m i items h =
    let (text, more) = All-IsText m items h.1 in
    let (object, whole) = one_more-IsText m i items text h.0 more in
    let jstring = b'{' ∷ (object ++ text) in
    let (utc, e) = stream_utc-total jstring in
    let start : JsonToken = record {
      handle = record { hash = 0; index = 0 };
      value = [];
      utc = utc;
    } in
    (
      jstring,
      utc,
      whole.out [],
      e,
      rw (e, whole.front.1) (whole.read (length jstring + 1) start [] (omega arith)),
    )
