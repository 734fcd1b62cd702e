-- ===== src/Kiss/Packets.antt =====
-- What `kissEncode` of libraries/device/general/kisslib.cpp writes, and `kissDecode` reads.
use Prim.Native.Nat.{max}
use mathlib.Core.List.{append_assoc, append-nil}
use core_cleanup_test.Base.{
  ℕ, zero, suc, ◌+◌, ◌<◌, ◌≤◌, ◌≡◌, ◌≢◌, refl, sym, ap, ◌∙◌, arith, List, [], ◌∷◌, ◌++◌, some,
  false, ltb, leb, length, drop, set, overwrite, All, length-append, overwrite-eq_parts,
  drop-append,
}
use core_cleanup_test.Base.Result.{ok}
use core_cleanup_test.Slip.{fend, fesc, tfend, tfesc}
use core_cleanup_test.Slip.Framing.{escape, length-escape, escape-ne-fend}
use core_cleanup_test.Serial.{got}
use core_cleanup_test.Kiss.{
  encode_payload, packet, until_end, decode_rounds, decode_copied, decode_kiss,
}

-- The payload is escaped as in a SLIP frame.
pub encode_payload-escape : (bytes : List ℕ) → encode_payload bytes ≡ escape bytes
unfolding encode_payload escape
encode_payload-escape [] = refl
encode_payload-escape (c ∷ more) = rw (encode_payload-escape more) refl

pub until_end-append :
    (xs more : List ℕ) → All (λ c. c ≢ fend) xs → until_end (xs ++ (fend ∷ more)) ≡ ok xs
unfolding until_end
until_end-append [] more h = refl
until_end-append (c ∷ xs) more h = ground (arith, h.0, until_end-append xs more h.1)

-- One round of the second loop takes one byte of the payload.
plain_round :
    (c n : ℕ) (more out : List ℕ)
    → c ≢ fend
    → c ≢ fesc
    → decode_rounds (suc n) (c ∷ more) out ≡ decode_rounds n more (out ++ (c ∷ []))
unfolding decode_rounds
plain_round c n [] out h k = ground (arith, h, k)
plain_round c n (d ∷ more) out h k = ground (arith, h, k)

end_round :
    (n : ℕ) (more out : List ℕ)
    → decode_rounds (suc n) (fesc ∷ tfend ∷ more) out ≡ decode_rounds n more (out ++ (fend ∷ []))
unfolding decode_rounds
end_round n more out = refl

escape_round :
    (n : ℕ) (more out : List ℕ)
    → decode_rounds (suc n) (fesc ∷ tfesc ∷ more) out ≡ decode_rounds n more (out ++ (fesc ∷ []))
unfolding decode_rounds
escape_round n more out = refl

pub byte_round :
    (c n : ℕ) (more tail out : List ℕ)
    → decode_rounds (suc n) (escape (c ∷ more) ++ tail) out
      ≡ decode_rounds n (escape more ++ tail) (out ++ (c ∷ []))
unfolding escape
byte_round c n more tail out = ground (
  arith,
  plain_round c n (escape more ++ tail) out,
  end_round n (escape more ++ tail) out,
  escape_round n (escape more ++ tail) out,
)

last_round :
    (n : ℕ) (more out : List ℕ)
    → decode_rounds (suc n) (fend ∷ more) out ≡ some (ok (length out, out))
unfolding decode_rounds
last_round n [] out = refl
last_round n (d ∷ more) out = refl

decode_rounds-escape :
    (bytes tail out : List ℕ) (n : ℕ)
    → length bytes < n
    → decode_rounds n (escape bytes ++ (fend ∷ tail)) out
      ≡ some (ok (length (out ++ bytes), out ++ bytes))
decode_rounds-escape bytes tail out zero h = absurd (omega (arith, h))
decode_rounds-escape [] tail out (suc n) h = rw append-nil (unfold escape in last_round n tail out)
decode_rounds-escape (c ∷ more) tail out (suc n) h =
    byte_round c n more (fend ∷ tail) out
    ∙ decode_rounds-escape more tail (out ++ (c ∷ [])) n (omega (arith, h))
    ∙ rw append_assoc refl

-- The copied bytes, and the FEND behind them.
pub copied :
    (old xs : List ℕ)
    → 0 < length xs
    → length xs < length old
    → (tail : List ℕ) × (set (overwrite old 0 xs) (max 1 (length xs)) fend ≡ xs ++ (fend ∷ tail))
copied old xs h k =
    let (b, tail, e) = more_left in
    (
      tail,
      ap (λ n. set (overwrite old 0 xs) n fend) longest
          ∙ ap (λ l. set l (length xs) fend)
              (overwrite-eq_parts old 0 xs (omega (arith, k)) ∙ ap (λ l. xs ++ l) e)
          ∙ set_behind xs b tail,
    )
  where
    longest : max 1 (length xs) ≡ length xs
    longest = omega (arith, h)

    split : (n : ℕ) (l : List ℕ) → n < length l → (b : ℕ) × (t : List ℕ) × (drop n l ≡ b ∷ t)
    split n [] p = absurd (omega (arith, p))
    split zero (x ∷ l) p = (x, l, refl)
    split (suc n) (x ∷ l) p = split n l (omega (arith, p))

    more_left : (b : ℕ) × (t : List ℕ) × (drop (0 + length xs) old ≡ b ∷ t)
    more_left = split (0 + length xs) old (omega (arith, k))

    set_behind :
        (l : List ℕ) (b : ℕ) (t : List ℕ) → set (l ++ (b ∷ t)) (length l) fend ≡ l ++ (fend ∷ t)
    set_behind [] b t = refl
    set_behind (x ∷ l) b t = ap (λ r. x ∷ r) (set_behind l b t)

decode_kiss-escape :
    (header bytes old more : List ℕ) (n : ℕ)
    → length header ≡ 18
    → 0 < length bytes
    → length (escape bytes) < length old
    → length old ≡ 1024
    → length bytes < n
    → decode_kiss n old (header ++ (escape bytes ++ (fend ∷ more)))
      ≡ some (ok (length bytes, bytes))
unfolding decode_kiss decode_copied
decode_kiss-escape header bytes old more n h some_bytes room all fuel =
    let body = escape bytes in
    let behind : drop 18 (header ++ (body ++ (fend ∷ more))) ≡ body ++ (fend ∷ more) =
      ap (λ k. drop k (header ++ (body ++ (fend ∷ more)))) (sym h)
      ∙ drop-append header (body ++ (fend ∷ more)) in
    let long = length-escape bytes in
    let (tail, e) = copied old body (omega (arith, some_bytes, long)) room in
    let inside : leb 1024 (max 1 (length body)) ≡ false =
      ground (arith, room, all, some_bytes, long) in
    rw (behind, until_end-append body more (escape-ne-fend bytes))
      (rw (inside, e) (decode_rounds-escape bytes tail [] n fuel))

pub decode_kiss-packet :
    (header bytes old more : List ℕ)
    → length header ≡ 18
    → 0 < length bytes
    → length bytes ≤ 255
    → length old ≡ 1024
    → let (a, out) = packet header bytes in
      (a ≡ got (length out)) × (decode_kiss 256 old (out ++ more) ≡ some (ok (length bytes, bytes)))
unfolding packet
decode_kiss-packet header bytes old more h some_bytes few all =
    let body = escape bytes in
    let small : ltb 255 (length bytes) ≡ false = ground (arith, few) in
    let long = length-escape bytes in
    let n : length (header ++ (body ++ (fend ∷ []))) ≡ length body + 19 =
      omega
        (arith, length-append header (body ++ (fend ∷ [])), length-append body (fend ∷ []), h) in
    rw (small, encode_payload-escape bytes)
      (
        ap got (sym n),
        ap (decode_kiss 256 old) (
              append_assoc header (body ++ (fend ∷ [])) more
              ∙ ap (λ l. header ++ l) (append_assoc body (fend ∷ []) more))
            ∙ decode_kiss-escape header bytes old more 256 h some_bytes
                (omega (arith, long, few, all)) all (omega (arith, few)),
      )
