-- ===== src/Cssl/Runs.antt =====
-- Runs of the model of libraries/device/general/cssl_lib.cpp.
use core_cleanup_test.Base.{◌≡◌, refl, [], ◌∷◌, true, false}
use core_cleanup_test.Slip.Framing.{frame}
use core_cleanup_test.Serial.{got}
use core_cleanup_test.Serial.Slip.{arriving}
use core_cleanup_test.Cssl.{putslip, putslip_loop, putchar, write_char}
use core_cleanup_test.Cssl.Reading.{getslip, getslip_begun, getslip_loop, look_for}
use core_cleanup_test.Cssl.Bounds.{IsWithin, getslip-IsWithin}

-- A frame of three bytes into a buffer of four, of which two may be used.
getslip-IsWithin_example :
    IsWithin 2
      (7 ∷ 7 ∷ 7 ∷ 7 ∷ [])
      (getslip 2 (7 ∷ 7 ∷ 7 ∷ 7 ∷ []) (arriving (frame (1 ∷ 2 ∷ 3 ∷ []))))
getslip-IsWithin_example =
    getslip-IsWithin 2 (7 ∷ 7 ∷ 7 ∷ 7 ∷ []) (arriving (frame (1 ∷ 2 ∷ 3 ∷ [])))

-- Nothing is sent before `cssl_start`, and the count is that of a frame that was.
unstarted :
    (putslip
      (1 ∷ 2 ∷ [])
      (record { started = false; opened = true; error = got 0; writes = []; sent = [] })).0
    ≡ got 2
unfolding putslip putslip_loop putchar write_char
unstarted = refl

-- A FEND right behind an FESC ends the frame, with a byte that was never written.
broken_escape :
    getslip 4 (7 ∷ 7 ∷ 7 ∷ 7 ∷ []) (arriving (0xC0 ∷ 1 ∷ 0xDB ∷ 0xC0 ∷ []))
    ≡ (got 2, 1 ∷ 7 ∷ 7 ∷ 7 ∷ [], [])
unfolding getslip look_for getslip_begun getslip_loop
broken_escape = refl
