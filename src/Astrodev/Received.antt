-- ===== src/Astrodev/Received.antt =====
-- Lemmas on `astrodev_recvframe` of libraries/device/astrodev/astrodev_lib.cpp: a frame on the line.
use Prim.Native.Nat.{◌*◌}
use core_cleanup_test.Base.{
  get_or-append, get_or-take, ℕ, zero, suc, ◌+◌, ◌≤◌, ◌≡◌, ◌≢◌, refl, sym, ap, ◌∙◌, arith, List, [],
  ◌∷◌, ◌++◌, true, false, ◌==◌, leb, length, take, drop, set, get_or, All, overwrite, length-set,
  length-overwrite, length-take, overwrite-eq_parts, take-append_le,
}
use core_cleanup_test.Base.Result.{ok}
use core_cleanup_test.Astrodev.{
  Frame, replied, header_size, header_cs, set_size, from_type, cs_loop, set_payload, setupframe,
  is_simple,
}
use core_cleanup_test.Astrodev.Line.{wait_sync0, read_header, read_payload, recv_payload, recvframe}
use core_cleanup_test.Astrodev.Checks.{IsFrame, IsReady, setupframe-IsReady}
use core_cleanup_test.Astrodev.Payload.{calc_cs-fits, six_more, check_payload-sum}

wait_sync0-append :
    (noise line : List ℕ)
    → All (λ c. c ≢ b'H') noise
    → wait_sync0 (noise ++ (b'H' ∷ line)) ≡ (true, line)
unfolding wait_sync0
wait_sync0-append [] line h = refl
wait_sync0-append (c ∷ noise) line h = ground (arith, h.0, wait_sync0-append noise line h.1)

read_payload-append :
    (xs more payload : List ℕ) (i : ℕ)
    → i + length xs ≤ length payload
    → read_payload (length xs) i payload (xs ++ more) ≡ ok (true, overwrite payload i xs, more)
unfolding read_payload
read_payload-append [] more payload i h = refl
read_payload-append (x ∷ xs) more payload i h =
    let inside : leb (length payload) i ≡ false = ground (arith, h) in
    rw inside (
      read_payload-append xs more (set payload i x) (i + 1)
        (omega (arith, h, length-set payload i x)))

take-take : (m n : ℕ) (xs : List ℕ) → m ≤ n → take m (take n xs) ≡ take m xs
take-take zero n xs h = refl
take-take (suc m) zero xs h = absurd (omega (arith, h))
take-take (suc m) (suc n) [] h = refl
take-take (suc m) (suc n) (x ∷ xs) h = ap (λ l. x ∷ l) (take-take m n xs (omega (arith, h)))

-- What `astrodev_sendframe` means to put on the line for a frame with `size` bytes.
pub on_line : Frame → ℕ → List ℕ
on_line f size = f.sync0 ∷ f.sync1 ∷ take (6 + (size + 2)) (from_type f)

-- The header, read behind noise.
recvframe-header :
    (f g : Frame) (noise rest : List ℕ)
    → All (λ c. c ≢ b'H') noise
    → f.sync0 ≡ b'H'
    → f.sync1 ≡ b'e'
    → recvframe g
        (noise ++ (b'H' ∷ b'e' ∷ f.type ∷ f.command ∷ f.size0 ∷ f.size1 ∷ f.cs0 ∷ f.cs1 ∷ rest))
      ≡ recv_payload (set_payload g.payload f) rest
unfolding recvframe read_header
recvframe-header f g noise rest quiet first second =
    let tail = b'e' ∷ f.type ∷ f.command ∷ f.size0 ∷ f.size1 ∷ f.cs0 ∷ f.cs1 ∷ rest in
    rw (wait_sync0-append noise tail quiet, first, second) refl

on_line-bytes :
    (f : Frame) (size : ℕ) (more : List ℕ)
    → f.sync0 ≡ b'H'
    → f.sync1 ≡ b'e'
    → on_line f size ++ more
      ≡ b'H'
        ∷ b'e'
        ∷ f.type
        ∷ f.command
        ∷ f.size0
        ∷ f.size1
        ∷ f.cs0
        ∷ f.cs1
        ∷ (take (size + 2) f.payload ++ more)
unfolding on_line
on_line-bytes f size more first second = rw (six_more (size + 2), first, second) refl

-- The received bytes over an old payload.
overwritten :
    (old payload : List ℕ) (n : ℕ)
    → length old ≡ 274
    → length payload ≡ 274
    → n ≤ 272
    → let new = overwrite old 0 (take (n + 2) payload) in
      (length new ≡ 274)
      × (take n new ≡ take n payload)
      × (get_or new n 0 ≡ get_or payload n 0)
      × (get_or new (n + 1) 0 ≡ get_or payload (n + 1) 0)
overwritten old payload n room room' fits =
    let xs = take (n + 2) payload in
    let rest = drop (0 + length xs) old in
    let len : length xs ≡ n + 2 = omega (arith, length-take (n + 2) payload, room', fits) in
    let parts = overwrite-eq_parts old 0 xs (omega (arith, len, room, fits)) in
    (
      length-overwrite old 0 xs ∙ room,
      rw parts (
          take-append_le n xs rest (omega (arith, len))
          ∙ take-take n (n + 2) payload (omega arith)),
      rw parts (
          get_or-append xs rest n 0 (omega (arith, len))
          ∙ get_or-take (n + 2) n payload 0 (omega arith)),
      rw parts (
          get_or-append xs rest (n + 1) 0 (omega (arith, len))
          ∙ get_or-take (n + 2) (n + 1) payload 0 (omega arith)),
    )

read_payload-take :
    (old payload more : List ℕ) (n : ℕ)
    → length old ≡ 274
    → length payload ≡ 274
    → n ≤ 272
    → read_payload (n + 2) 0 old (take (n + 2) payload ++ more)
      ≡ ok (true, overwrite old 0 (take (n + 2) payload), more)
read_payload-take old payload more n room room' fits =
    let xs = take (n + 2) payload in
    let len : length xs ≡ n + 2 = omega (arith, length-take (n + 2) payload, room', fits) in
    ap (λ k. read_payload k 0 old (xs ++ more)) (sym len)
    ∙ read_payload-append xs more old 0 (omega (arith, len, room, fits))

recv_payload-IsReady :
    (f f1 g : Frame) (more : List ℕ)
    → IsReady f f1
    → header_size f ≤ 272
    → is_simple f.command ≡ false
    → length g.payload ≡ 274
    → let payload = overwrite g.payload 0 (take (header_size f + 2) f1.payload) in
      recv_payload (set_payload g.payload f1) (take (header_size f + 2) f1.payload ++ more)
      ≡ ok (replied f.command, set_size (header_size f) (set_payload payload f1), more)
unfolding recv_payload
recv_payload-IsReady f f1 g more ready fits long room =
    let size = header_size f in
    let f2 = set_payload g.payload f1 in
    let (len, bytes, low, high) =
      overwritten g.payload f1.payload size room ready.length_kept fits in
    let new = overwrite g.payload 0 (take (size + 2) f1.payload) in
    let same : (header_cs f1 == header_cs f1) ≡ true = ground arith in
    let nack : (header_size f1 == 65535) ≡ false = ground (arith, ready.no_nack) in
    let sum : get_or new size 0 + 256 * get_or new (size + 1) 0
        ≡ cs_loop 0 0 (take (6 + size) (from_type f1)) =
      rw (low, high) ready.sum in
    rw
      (
        calc_cs-fits (from_type f2) 4 (omega arith),
        ready.header,
        same,
        nack,
        ap is_simple ready.same_command ∙ long,
        ready.size_read,
        read_payload-take g.payload f1.payload more size room ready.length_kept fits,
        check_payload-sum f1 new size len fits bytes sum,
        ready.same_command,
      )
      refl

-- A frame of a payload of 274 bytes, of which at most 272 are used, set up for a command that has
-- an answer with a payload, and put on the line whole behind bytes that are no `H`, is received
-- whatever the frame before was: `astrodev_recvframe` returns the command and the size, the bytes
-- that are used are those of the frame, and it stops right behind it.
pub recvframe-setupframe :
    (f g : Frame) (noise more : List ℕ)
    → IsFrame f
    → is_simple f.command ≡ false
    → length g.payload ≡ 274
    → All (λ c. c ≢ b'H') noise
    → (f1 f2 : Frame) × (setupframe f ≡ ok f1)
      × (recvframe g (noise ++ (on_line f1 (header_size f) ++ more))
          ≡ ok (replied f.command, f2, more))
      × (header_size f2 ≡ header_size f)
      × (take (header_size f) f2.payload ≡ take (header_size f) f.payload)
recvframe-setupframe f g noise more h long room quiet =
    let (f1, set_up, ready) = setupframe-IsReady f h in
    let size = header_size f in
    let new = overwrite g.payload 0 (take (size + 2) f1.payload) in
    let (_, bytes, _, _) = overwritten g.payload f1.payload size room ready.length_kept h.fits in
    (
      f1,
      set_size size (set_payload new f1),
      set_up,
      ap (λ l. recvframe g (noise ++ l)) (on_line-bytes f1 size more ready.first ready.second)
          ∙ recvframe-header f1 g noise (take (size + 2) f1.payload ++ more) quiet ready.first
              ready.second
          ∙ recv_payload-IsReady f f1 g more ready h.fits long room,
      omega arith,
      bytes ∙ ready.bytes_kept,
    )
