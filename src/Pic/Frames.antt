-- ===== src/Pic/Frames.antt =====
-- A frame of libraries/device/general/pic_lib.cpp, put and received.
use Prim.Native.Nat.{min}
use mathlib.Core.List.{append_assoc}
use core_cleanup_test.Base.{
  ℕ, ◌+◌, ◌≤◌, ◌≡◌, ◌≢◌, refl, sym, ap, ◌∙◌, arith, List, ◌++◌, length, take, drop, overwrite, All,
  length-append, length-take, get_or-append, overwrite-eq_parts, take-append, take-append_le,
  take_all, take-drop,
}
use core_cleanup_test.Base.Memory.{bytes2}
use core_cleanup_test.Base.Result.{ok, ◌>>=◌}
use core_cleanup_test.Slip.{fend, calc_crc, get_crc, u16_bytes}
use core_cleanup_test.Slip.Framing.{escape, frame}
use core_cleanup_test.Slip.Checksum.{calc_crc-append, get_crc-append, crc_of, crc_of-lt}
use core_cleanup_test.Serial.{Answer, got}
use core_cleanup_test.Serial.Slip.{arriving}
use core_cleanup_test.Cssl.Frames.{quiet_line, putslip-eq, getslip-frame}
use core_cleanup_test.Pic.{Pic, frame_size, put_summed, putframe, check_frame, getframe}

-- The size stands in the first bytes.
frame_size-append :
    (front more more' : List ℕ)
    → 6 ≤ length front
    → frame_size (front ++ more) ≡ frame_size (front ++ more')
unfolding frame_size
frame_size-append front more more' h =
    rw
      (
        get_or-append front more 4 0 (omega (arith, h)),
        get_or-append front more 5 0 (omega (arith, h)),
        get_or-append front more' 4 0 (omega (arith, h)),
        get_or-append front more' 5 0 (omega (arith, h)),
      )
      refl

-- A buffer with the checksum behind the size it says passes.
check_frame-passes :
    (raw : List ℕ) (n w : ℕ) (rest : List Answer)
    → get_crc raw (frame_size raw) ≡ ok w
    → calc_crc raw (frame_size raw) ≡ ok w
    → check_frame (got n, raw, rest) ≡ ok (got n, raw, rest)
unfolding check_frame
check_frame-passes raw n w rest h k = rw (h, k) (ground arith)

passes :
    (body more : List ℕ) (n : ℕ) (rest : List Answer)
    → frame_size (body ++ (bytes2 (crc_of body) ++ more)) ≡ length body
    → check_frame (got n, body ++ (bytes2 (crc_of body) ++ more), rest)
      ≡ ok (got n, body ++ (bytes2 (crc_of body) ++ more), rest)
passes body more n rest h =
    let tail = bytes2 (crc_of body) ++ more in
    check_frame-passes (body ++ tail) n (crc_of body) rest
      (unfold u16_bytes in
        get_crc-append body more (crc_of body) (frame_size (body ++ tail)) h
          (omega (arith, crc_of-lt body)))
      (calc_crc-append body tail (frame_size (body ++ tail)) h)

calc_crc_fits :
    (raw : List ℕ) (size : ℕ) → size ≤ length raw → calc_crc raw size ≡ ok (crc_of (take size raw))
unfolding calc_crc
calc_crc_fits raw size h = ground (arith, h)

put_summed-sent :
    (raw summed sent : List ℕ) (seq size crc : ℕ) (e : Answer)
    → size + 2 ≤ length raw
    → summed ≡ take size raw ++ bytes2 crc
    → put_summed (record { raw = raw; seq = seq; line = quiet_line e sent }) size crc
      ≡ ok (
        got (length (escape summed)),
        record {
          raw = summed ++ drop (size + 2) raw;
          seq = seq;
          line = quiet_line e (sent ++ frame summed);
        },
      )
unfolding put_summed
put_summed-sent raw summed sent seq size crc e h k =
    let rest = drop (size + 2) raw in
    let whole : overwrite raw size (bytes2 crc) ≡ summed ++ rest =
      overwrite-eq_parts raw size (bytes2 crc) (omega (arith, h))
      ∙ sym (append_assoc (take size raw) (bytes2 crc) rest)
      ∙ ap (λ l. l ++ rest) (sym k) in
    let len : length summed ≡ size + 2 =
      ap length k
      ∙ omega (arith, h, length-append (take size raw) (bytes2 crc), length-take size raw) in
    let front : take (size + 2) (summed ++ rest) ≡ summed =
      ap (λ n. take n (summed ++ rest)) (sym len) ∙ take-append summed rest in
    rw (whole, front, putslip-eq summed sent e) (ground (arith, h))

-- What `pic_putframe` leaves in the buffer, and on a line that takes everything.
putframe-sent :
    (raw sent : List ℕ) (seq : ℕ) (e : Answer)
    → frame_size raw + 2 ≤ length raw
    → let body = take (frame_size raw) raw in
      let summed = body ++ bytes2 (crc_of body) in
      putframe (record { raw = raw; seq = seq; line = quiet_line e sent })
      ≡ ok (
        got (length (escape summed)),
        record {
          raw = summed ++ drop (frame_size raw + 2) raw;
          seq = seq;
          line = quiet_line e (sent ++ frame summed);
        },
      )
unfolding putframe
putframe-sent raw sent seq e h =
    let size = frame_size raw in
    let p : Pic = record { raw = raw; seq = seq; line = quiet_line e sent } in
    let body = take size raw in
    ap (λ r. r >>= put_summed p size) (calc_crc_fits raw size (omega (arith, h)))
    ∙ put_summed-sent raw (body ++ bytes2 (crc_of body)) sent seq size (crc_of body) e h refl

-- A frame with a good checksum, over an old buffer of the same length.
getframe-summed :
    (raw other noise : List ℕ) (line : List Answer)
    → All (λ c. c ≢ fend) noise
    → 6 ≤ frame_size raw
    → frame_size raw + 2 ≤ length raw
    → length other ≡ length raw
    → let n = frame_size raw + 2 in
      let body = take (frame_size raw) raw in
      let summed = body ++ bytes2 (crc_of body) in
      getframe other (arriving (noise ++ frame summed) ++ line)
      ≡ ok (got n, summed ++ drop n other, line)
unfolding getframe
getframe-summed raw other noise line quiet low high room =
    let size = frame_size raw in
    let body = take size raw in
    let crc = bytes2 (crc_of body) in
    let summed = body ++ crc in
    let rest = drop (size + 2) other in
    let len : length body ≡ size = omega (arith, high, length-take size raw) in
    let n : length summed ≡ size + 2 = omega (arith, len, length-append body crc) in
    let least : min (length other) (length summed) ≡ size + 2 = omega (arith, n, high, room) in
    let all : take (length other) summed ≡ summed =
      take_all (length other) summed (omega (arith, n, high, room)) in
    let laid : overwrite other 0 summed ≡ summed ++ rest =
      overwrite-eq_parts other 0 summed (omega (arith, n, high, room))
      ∙ ap (λ k. summed ++ drop k other) (omega (arith, n)) in
    let same : frame_size (body ++ (crc ++ rest)) ≡ length body =
      frame_size-append body (crc ++ rest) (drop size raw) (omega (arith, len, low))
      ∙ ap frame_size (sym (take-drop size raw))
      ∙ sym len in
    ap check_frame (
      getslip-frame noise summed other line (length other) quiet
      ∙ rw (least, all, laid, append_assoc body crc rest) refl)
    ∙ passes body rest (size + 2) line same
    ∙ rw (append_assoc body crc rest) refl

-- A buffer whose header gives a size that lies with the checksum inside it is put on a line on
-- which all writes succeed, behind bytes that are no FEND: `pic_putframe` returns, and leaves the
-- header and the data. `pic_getframe` into another buffer of the same length returns the number of
-- bytes with the checksum, and these stand at the front of the buffer.
pub getframe-putframe :
    (raw other noise : List ℕ) (seq : ℕ) (e : Answer) (line : List Answer)
    → All (λ c. c ≢ fend) noise
    → 6 ≤ frame_size raw
    → frame_size raw + 2 ≤ length raw
    → length other ≡ length raw
    → let n = frame_size raw + 2 in
      (a : Answer) × (p : Pic) × (putframe
          (record { raw = raw; seq = seq; line = quiet_line e noise })
        ≡ ok (a, p))
      × (take (frame_size raw) p.raw ≡ take (frame_size raw) raw)
      × (getframe other (arriving p.line.sent ++ line)
          ≡ ok (got n, take n p.raw ++ drop n other, line))
getframe-putframe raw other noise seq e line quiet low high room =
    let size = frame_size raw in
    let body = take size raw in
    let crc = bytes2 (crc_of body) in
    let summed = body ++ crc in
    let rest = drop (size + 2) raw in
    let len : length body ≡ size = omega (arith, high, length-take size raw) in
    let n : length summed ≡ size + 2 = omega (arith, len, length-append body crc) in
    let p : Pic = record {
      raw = summed ++ rest;
      seq = seq;
      line = quiet_line e (noise ++ frame summed);
    } in
    let front : take (size + 2) (summed ++ rest) ≡ summed =
      ap (λ k. take k (summed ++ rest)) (sym n) ∙ take-append summed rest in
    let kept : take size (summed ++ rest) ≡ body =
      take-append_le size summed rest (omega (arith, n))
      ∙ ap (λ k. take k summed) (sym len)
      ∙ take-append body crc in
    (
      got (length (escape summed)),
      p,
      putframe-sent raw noise seq e high,
      kept,
      getframe-summed raw other noise line quiet low high room
          ∙ ap (λ l. ok (got (size + 2), l ++ drop (size + 2) other, line)) (sym front),
    )
