-- ===== src/Pic/Runs.antt =====
-- Runs of the model of libraries/device/general/pic_lib.cpp.
use core_cleanup_test.Base.{ℕ, ◌+◌, ◌≡◌, refl, arith, List, [], ◌∷◌, ◌++◌, replicate, take, drop}
use core_cleanup_test.Base.Result.{ok, fault}
use core_cleanup_test.Slip.{get_crc}
use core_cleanup_test.Slip.Framing.{frame}
use core_cleanup_test.Serial.{Answer, got}
use core_cleanup_test.Serial.Slip.{arriving}
use core_cleanup_test.Cssl.Frames.{quiet_line}
use core_cleanup_test.Cssl.Reading.{getslip, getslip_begun, getslip_loop, look_for}
use core_cleanup_test.Pic.{Pic, frame_size, putframe, check_frame, getframe}
use core_cleanup_test.Pic.Frames.{getframe-putframe}

-- The command that switches heater 3 on, and an empty buffer.
abbrev heater_on : List ℕ
heater_on = 0x10 ∷ 0 ∷ 0 ∷ 0 ∷ 2 ∷ 0 ∷ 3 ∷ 0 ∷ replicate 300 0

abbrev empty_buffer : List ℕ
empty_buffer = replicate 308 0

getframe-putframe_example :
    let n = frame_size heater_on + 2 in
    (a : Answer) × (p : Pic) × (putframe
        (record { raw = heater_on; seq = 0; line = quiet_line (got 0) [] })
      ≡ ok (a, p))
    × (take (frame_size heater_on) p.raw ≡ take (frame_size heater_on) heater_on)
    × (getframe empty_buffer (arriving p.line.sent ++ [])
        ≡ ok (got n, take n p.raw ++ drop n empty_buffer, []))
getframe-putframe_example =
    getframe-putframe heater_on empty_buffer [] 0 (got 0) [] tt (unfold frame_size in omega arith)
      (unfold frame_size in omega arith) refl

-- A frame that says it is longer than the buffer is read past its end.
overlong : getframe empty_buffer (arriving (frame (0 ∷ 0 ∷ 0 ∷ 0 ∷ 0 ∷ 2 ∷ []))) ≡ fault
unfolding getframe getslip look_for getslip_begun getslip_loop check_frame frame_size get_crc frame
overlong = refl
