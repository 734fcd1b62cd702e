-- ===== src/Kiss/Handles.antt =====
-- `kissEncode` of libraries/device/general/kisslib.cpp with a handle.
use core_cleanup_test.Base.{
  ℕ, suc, ◌*◌, ◌%◌, sym, ◌<◌, ◌≤◌, ◌≡◌, refl, ap, ◌∙◌, arith, List, [], ◌∷◌, ◌++◌, map, some, ltb,
  length, take, length-take, length-overwrite, length-append, Bool-cases, inl, inr,
}
use core_cleanup_test.Base.Result.{ok, bind-ok}
use core_cleanup_test.Serial.{Answer, got}
use core_cleanup_test.Kiss.{
  KissHandle, packet_header, packet, handle_header, encode_handle, text_in, copy_text, decode_kiss,
}
use core_cleanup_test.Kiss.Packets.{decode_kiss-packet}

length-copy_text : (old text new : List ℕ) → copy_text old text ≡ ok new → length new ≡ length old
unfolding copy_text
length-copy_text old text new e = ground (arith, e, length-overwrite old 0 (text ++ (0 ∷ [])))

length-map : (f : ℕ → ℕ) (xs : List ℕ) → length (map f xs) ≡ length xs
length-map f [] = refl
length-map f (x ∷ xs) = ap suc (length-map f xs)

length-packet_header :
    (dest source : List ℕ) (a b c d : ℕ)
    → length dest ≡ 5
    → length source ≡ 5
    → length (packet_header dest a source b c d) ≡ 18
unfolding packet_header
length-packet_header dest source a b c d h k =
    let shift = λ (x : ℕ). x * 2 % 256 in
    let tail = map shift source ++ (0x40 ∷ b ∷ c ∷ d ∷ []) in
    omega (
      arith,
      length-append (map shift dest) (0x40 ∷ a ∷ tail),
      length-append (map shift source) (0x40 ∷ b ∷ c ∷ d ∷ []),
      length-map shift dest,
      length-map shift source,
      h,
      k,
    )

first_five :
    (old text new : List ℕ) → length old ≡ 6 → copy_text old text ≡ ok new → length (take 5 new) ≡ 5
first_five old text new h e = omega (arith, length-take 5 new, length-copy_text old text new e, h)

length-handle_header :
    (h : KissHandle) (old old' header : List ℕ)
    → length old ≡ 6
    → length old' ≡ 6
    → handle_header h old old' ≡ ok header
    → length header ≡ 18
unfolding handle_header
length-handle_header h old old' header six six' e =
    let (text, e1, rest1) = bind-ok (text_in h.destination_callsign) _ header e in
    let (dest, e2, rest2) = bind-ok (copy_text old text) _ header rest1 in
    let (text', e3, rest3) = bind-ok (text_in h.source_callsign) _ header rest2 in
    let (source, e4, last) = bind-ok (copy_text old' text') _ header rest3 in
    let made =
      length-packet_header (take 5 dest) (take 5 source) h.destination_station h.source_station
        h.control h.protocol (first_five old text dest six e2)
        (first_five old' text' source six' e4) in
    ap length (sym (ok_inj last)) ∙ made
  where
    ok_inj : {x y : List ℕ} → ok x ≡ ok y → x ≡ y
    ok_inj e = ground (arith, e)

-- Where `kissEncode` with a handle returns a number for a payload that is not empty, the payload
-- has at most 255 bytes, the number is that of the bytes of the packet, and `kissDecode` of the
-- packet, whatever follows it and whatever its array held, ends within 256 rounds with the payload
-- and its length. The arrays for the callsigns have 6 bytes, and that of `kissDecode` has 1024.
pub decode_kiss-encode_handle :
    (bytes : List ℕ) (h : KissHandle) (old old' array more out : List ℕ) (a : ℕ)
    → length old ≡ 6
    → length old' ≡ 6
    → length array ≡ 1024
    → 0 < length bytes
    → encode_handle bytes h old old' ≡ ok (got a, out)
    → (length bytes ≤ 255)
      × (a ≡ length out)
      × (decode_kiss 256 array (out ++ more) ≡ some (ok (length bytes, bytes)))
unfolding encode_handle
decode_kiss-encode_handle bytes h old old' array more out a six six' all some_bytes e =
    elim (Bool-cases (ltb 255 (length bytes))) [
      | inl large ↦ absurd (ground (arith, rw large at e))
      | inr small ↦
          let few : length bytes ≤ 255 = ground (arith, small) in
          let (header, made, last) =
            bind-ok (handle_header h old old') _ (got a, out) (rw small at e) in
          let eighteen = length-handle_header h old old' header six six' made in
          let (count, read) =
            decode_kiss-packet header bytes array more eighteen some_bytes few all in
          let same : packet header bytes ≡ (got a, out) = ok_inj last in
          let out_same : (packet header bytes).1 ≡ out = ap (λ r. r.1) same in
          (
            few,
            got_inj (ap (λ r. r.0) (sym same) ∙ count ∙ ap (λ l. got (length l)) out_same),
            ap (λ l. decode_kiss 256 array (l ++ more)) (sym out_same) ∙ read,
          )
    ]
  where
    ok_inj : {x y : Answer × List ℕ} → ok x ≡ ok y → x ≡ y
    ok_inj e = ground (arith, e)

    got_inj : {x y : ℕ} → got x ≡ got y → x ≡ y
    got_inj e = ground (arith, e)
