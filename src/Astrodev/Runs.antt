-- ===== src/Astrodev/Runs.antt =====
-- Runs of the model of libraries/device/astrodev/astrodev_lib.cpp on small frames.
use core_cleanup_test.Base.{[], ◌++◌, ◌≡◌, refl, arith, ◌∷◌, take, replicate}
use core_cleanup_test.Base.Result.{ok, fault, ◌>>=◌}
use core_cleanup_test.Astrodev.{Frame, replied, header_size, from_type, setupframe}
use core_cleanup_test.Astrodev.Line.{sendframe, recvframe}
use core_cleanup_test.Astrodev.Received.{on_line, recvframe-setupframe}
use core_cleanup_test.Astrodev.Checks.{IsFrame}

-- A frame of the command RECEIVE with three bytes.
abbrev three_bytes : Frame
three_bytes = record {
  sync0 = 0;
  sync1 = 0;
  type = 0;
  command = 4;
  size0 = 3;
  size1 = 0;
  cs0 = 0;
  cs1 = 0;
  payload = 7 ∷ 8 ∷ 9 ∷ replicate 271 0;
}

three_bytes-IsFrame : IsFrame three_bytes
three_bytes-IsFrame = record { room = refl; fits = omega arith }

-- Three bytes are sent as 768: the loop leaves the payload.
sendframe_overrun : sendframe three_bytes ≡ fault
unfolding sendframe
sendframe_overrun = refl

recvframe-setupframe_example :
    (f1 f2 : Frame) × (setupframe three_bytes ≡ ok f1)
    × (recvframe three_bytes ((1 ∷ 2 ∷ []) ++ (on_line f1 (header_size three_bytes) ++ (5 ∷ [])))
        ≡ ok (replied 4, f2, 5 ∷ []))
    × (header_size f2 ≡ header_size three_bytes)
    × (take (header_size three_bytes) f2.payload
        ≡ take (header_size three_bytes) three_bytes.payload)
recvframe-setupframe_example =
    recvframe-setupframe three_bytes three_bytes (1 ∷ 2 ∷ []) (5 ∷ []) three_bytes-IsFrame refl refl
      (ground arith)

-- What the frame of three bytes is on the line, with noise in front, is received.
recvframe_run :
    (setupframe three_bytes >>= λ f.
    recvframe three_bytes (1 ∷ 2 ∷ f.sync0 ∷ f.sync1 ∷ take 11 (from_type f)) >>= λ r. ok r.0)
    ≡ ok (replied 4)
unfolding setupframe recvframe
recvframe_run = refl
