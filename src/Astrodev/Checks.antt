-- ===== src/Astrodev/Checks.antt =====
-- Lemmas on `astrodev_setupframe` and `astrodev_checkframe` of
-- libraries/device/astrodev/astrodev_lib.cpp.
use Prim.Native.Nat.{◌*◌}
use core_cleanup_test.Base.{
  ℕ, ◌+◌, ◌/◌, ◌%◌, ◌^◌, ◌≤◌, ◌≡◌, ◌≢◌, refl, sym, ap, ◌∙◌, arith, ◌∷◌, true, false, ◌==◌, ltb, leb,
  if◌then◌else◌, length, take, get_or,
}
use core_cleanup_test.Base.Result.{ok, fault}
use core_cleanup_test.Astrodev.Line.{sendframe}
use core_cleanup_test.Astrodev.{
  Frame, replied, header_size, header_cs, set_size, from_type, cs_loop, addressed, set_cs,
  set_payload, setupframe, is_simple, check_payload, checkframe,
}
use core_cleanup_test.Astrodev.Payload.{
  summed, calc_cs-fits, length-summed, take-summed, read-summed, take_front, check_payload-summed,
}

-- The checksum of the header of an addressed frame, and that of its header and payload.
header_sum : Frame → ℕ
header_sum f = cs_loop 0 0 (take 4 (from_type (addressed f)))

with_header : Frame → Frame
with_header f = set_cs (header_sum f) (addressed f)

payload_sum : Frame → ℕ
payload_sum f = cs_loop 0 0 (take (6 + header_size f) (from_type (with_header f)))

-- The frame that is set up.
pub ready_frame : Frame → Frame
ready_frame f = set_payload (summed (header_size f) (payload_sum f) f.payload) (with_header f)

-- The frame has its payload, with room for the checksum.
pub record IsFrame (f : Frame) : Type 0 where
  pub room : length f.payload ≡ 274
  pub fits : header_size f ≤ 272

setupframe-eq : (f : Frame) → IsFrame f → setupframe f ≡ ok (ready_frame f)
unfolding setupframe ready_frame summed payload_sum with_header header_sum
setupframe-eq f h =
    let wide : (6 + header_size f) % 2 ^ 16 ≡ 6 + header_size f = omega (arith, h.fits) in
    let inside : leb (length f.payload) (header_size f + 1) ≡ false =
      ground (arith, h.fits, h.room) in
    rw
      (
        calc_cs-fits (from_type (addressed f)) 4 (omega arith),
        wide,
        calc_cs-fits (from_type (with_header f)) (6 + header_size f)
            (omega (arith, h.fits, h.room)),
        inside,
      )
      refl

-- Past the header, the check goes on to the payload.
checkframe-header :
    (g : Frame)
    → g.sync0 ≡ b'H'
    → g.sync1 ≡ b'e'
    → cs_loop 0 0 (take 4 (from_type g)) ≡ header_cs g
    → header_size g ≢ 65535
    → is_simple g.command ≡ false
    → checkframe g ≡ check_payload g (g.size1 + 256 * g.size0)
unfolding checkframe
checkframe-header g s0 s1 cs ack long =
    let same : (header_cs g == header_cs g) ≡ true = ground arith in
    let nack : (header_size g == 65535) ≡ false = ground (arith, ack) in
    rw (s0, s1, calc_cs-fits (from_type g) 4 (omega arith), cs, same, nack, long) refl

header_sum-ready : (f : Frame) → cs_loop 0 0 (take 4 (from_type (ready_frame f))) ≡ header_sum f
unfolding ready_frame with_header header_sum
header_sum-ready f = refl

-- A frame of a payload of 274 bytes, of which at most 272 are used, set up for a command that has
-- an answer with a payload, passes `astrodev_checkframe`, which returns the command and restores
-- the size; the bytes that are used are as before.
pub checkframe-setupframe :
    (f : Frame)
    → IsFrame f
    → is_simple f.command ≡ false
    → (f1 f2 : Frame) × (setupframe f ≡ ok f1)
      × (checkframe f1 ≡ ok (replied f.command, f2))
      × (header_size f2 ≡ header_size f)
      × (take (header_size f) f2.payload ≡ take (header_size f) f.payload)
unfolding ready_frame payload_sum with_header
checkframe-setupframe f h long =
    let f1 = ready_frame f in
    let size = header_size f in
    let again : f1.size1 + 256 * f1.size0 ≡ size = omega arith in
    let header =
      checkframe-header f1 refl refl (header_sum-ready f ∙ omega arith) (omega (arith, h.fits))
        long in
    (
      f1,
      set_size size f1,
      setupframe-eq f h,
      header
          ∙ ap (check_payload f1) again
          ∙ check_payload-summed (with_header f) size h.room h.fits,
      omega arith,
      take-summed size (payload_sum f) f.payload,
    )

-- What a frame `f1` has that is set up from `f`.
pub record IsReady (f f1 : Frame) : Type 0 where
  pub first : f1.sync0 ≡ b'H'
  pub second : f1.sync1 ≡ b'e'
  pub same_command : f1.command ≡ f.command
  pub header : cs_loop 0 0 (take 4 (from_type f1)) ≡ header_cs f1
  pub no_nack : header_size f1 ≢ 65535
  pub size_read : f1.size1 + 256 * f1.size0 ≡ header_size f
  pub length_kept : length f1.payload ≡ 274
  pub bytes_kept : take (header_size f) f1.payload ≡ take (header_size f) f.payload
  pub sum :
      get_or f1.payload (header_size f) 0 + 256 * get_or f1.payload (header_size f + 1) 0
      ≡ cs_loop 0 0 (take (6 + header_size f) (from_type f1))

pub setupframe-IsReady :
    (f : Frame) → IsFrame f → (f1 : Frame) × (setupframe f ≡ ok f1) × IsReady f f1
unfolding ready_frame payload_sum with_header
setupframe-IsReady f h =
    let size = header_size f in
    let payload = summed size (payload_sum f) f.payload in
    let kept = take-summed size (payload_sum f) f.payload in
    (
      ready_frame f,
      setupframe-eq f h,
      record {
        first = refl;
        second = refl;
        same_command = refl;
        header = header_sum-ready f ∙ omega arith;
        no_nack = omega (arith, h.fits);
        size_read = omega arith;
        length_kept = length-summed size (payload_sum f) f.payload ∙ h.room;
        bytes_kept = kept;
        sum =
            read-summed size (payload_sum f) f.payload (omega (arith, h.fits, h.room))
            ∙ ap (cs_loop 0 0) (sym (take_front (with_header f) payload size kept));
      },
    )

swapped_size :
    (f : Frame)
    → header_size (ready_frame f) + 2 ≡ header_size f / 256 + 256 * (header_size f % 256) + 2
unfolding ready_frame with_header
swapped_size f = refl

length-ready_frame : (f : Frame) → IsFrame f → length (ready_frame f).payload ≡ 274
unfolding ready_frame
length-ready_frame f h = length-summed (header_size f) (payload_sum f) f.payload ∙ h.room

-- For a frame of a payload of 274 bytes, of which at most 272 are used, `astrodev_sendframe` sends
-- as many bytes of the payload as the size with its two bytes swapped says, and two more; where
-- these are more than 274 it reads past the payload.
pub sendframe-eq :
    (f : Frame)
    → IsFrame f
    → let n = header_size f / 256 + 256 * (header_size f % 256) + 2 in
      sendframe f ≡ (
        if ltb 274 n
        then fault
        else ok (ready_frame f, b'H' ∷ b'e' ∷ take (6 + n) (from_type (ready_frame f))))
unfolding sendframe ready_frame with_header
sendframe-eq f h = rw (setupframe-eq f h, length-ready_frame f h, swapped_size f) refl
