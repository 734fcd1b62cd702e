-- ===== src/Kiss/Endless.antt =====
-- Packets of libraries/device/general/kisslib.cpp that `kissDecode` and `kissInspect` do not survive.
use Prim.Native.Nat.{max}
use mathlib.Core.List.{append_assoc}
use core_cleanup_test.Base.{
  ℕ, zero, suc, ◌+◌, ◌<◌, ◌≤◌, ◌≡◌, ◌≢◌, refl, sym, ap, ◌∙◌, arith, List, [], ◌∷◌, ◌++◌, none,
  false, ltb, leb, length, drop, All, length-append, drop-append,
}
use core_cleanup_test.Base.Result.{fault}
use core_cleanup_test.Slip.{fend, fesc, tfend, tfesc}
use core_cleanup_test.Slip.Framing.{escape, escape-ne-fend}
use core_cleanup_test.Kiss.{
  encode_fixed, text_in, decode_rounds, decode_copied, decode_kiss, inspect, set_destination,
}
use core_cleanup_test.Kiss.Packets.{until_end-append, byte_round, copied}

still_round :
    (d : ℕ) (n : ℕ) (more out : List ℕ)
    → d ≢ tfend
    → d ≢ tfesc
    → decode_rounds n (fesc ∷ d ∷ more) out ≡ none
unfolding decode_rounds
still_round d zero more out h k = refl
still_round d (suc n) more out h k = ground (arith, h, k, still_round d n more out h k)

decode_rounds_endless :
    (bytes more out : List ℕ) (d n : ℕ)
    → d ≢ tfend
    → d ≢ tfesc
    → decode_rounds n (escape bytes ++ (fesc ∷ d ∷ more)) out ≡ none
decode_rounds_endless bytes more out d zero h k = unfold decode_rounds in refl
decode_rounds_endless [] more out d (suc n) h k =
    unfold escape in still_round d (suc n) more out h k
decode_rounds_endless (c ∷ bytes) more out d (suc n) h k =
    byte_round c n bytes (fesc ∷ d ∷ more) out
    ∙ decode_rounds_endless bytes more (out ++ (c ∷ [])) d n h k

-- On a packet with 18 bytes of header whose payload has, behind some bytes that are escaped as
-- they should be, an FESC that a byte other than TFEND, TFESC and FEND follows, and that fits the
-- array of 1024 bytes with its end, `kissDecode` does not end in any number of rounds.
pub decode_kiss_endless :
    (header bytes rest more old : List ℕ) (d n : ℕ)
    → length header ≡ 18
    → d ≢ tfend
    → d ≢ tfesc
    → All (λ c. c ≢ fend) (d ∷ rest)
    → length (escape bytes) + 2 + length rest < 1024
    → length old ≡ 1024
    → decode_kiss n old (header ++ ((escape bytes ++ (fesc ∷ d ∷ rest)) ++ (fend ∷ more))) ≡ none
unfolding decode_kiss decode_copied
decode_kiss_endless header bytes rest more old d n h p q plain room all =
    let body = escape bytes ++ (fesc ∷ d ∷ rest) in
    let behind : drop 18 (header ++ (body ++ (fend ∷ more))) ≡ body ++ (fend ∷ more) =
      ap (λ k. drop k (header ++ (body ++ (fend ∷ more)))) (sym h)
      ∙ drop-append header (body ++ (fend ∷ more)) in
    let quiet : All (λ c. c ≢ fend) body =
      All-append (escape bytes) (fesc ∷ d ∷ rest) (escape-ne-fend bytes) (ground arith, plain) in
    let len : length body ≡ length (escape bytes) + (2 + length rest) =
      length-append (escape bytes) (fesc ∷ d ∷ rest) ∙ omega arith in
    let (tail, e) = copied old body (omega (arith, len)) (omega (arith, len, room, all)) in
    let inside : leb 1024 (max 1 (length body)) ≡ false = ground (arith, len, room) in
    rw (behind, until_end-append body more quiet)
      (rw (inside, e, append_assoc (escape bytes) (fesc ∷ d ∷ rest) (fend ∷ tail))
        (decode_rounds_endless bytes (rest ++ (fend ∷ tail)) [] d n p q))
  where
    All-append :
        (xs ys : List ℕ)
        → All (λ c. c ≢ fend) xs
        → All (λ c. c ≢ fend) ys
        → All (λ c. c ≢ fend) (xs ++ ys)
    All-append [] ys hx hy = hy
    All-append (x ∷ xs) ys hx hy = (hx.0, All-append xs ys hx.1 hy)

-- `kissInspect` of a packet that `kissEncode` without a handle makes of at most 255 bytes reads
-- past its array of six letters, whatever the arrays of the handle held.
pub inspect-encode_fixed :
    (bytes old old' : List ℕ) → length bytes ≤ 255 → inspect (encode_fixed bytes).1 old old' ≡ fault
unfolding inspect encode_fixed set_destination text_in
inspect-encode_fixed bytes old old' h =
    let small : ltb 255 (length bytes) ≡ false = ground (arith, h) in rw small (ground arith)
