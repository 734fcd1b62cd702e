-- ===== src/Serial/Phase.antt =====
-- A receiver of libraries/device/serial/serialclass.cpp that begins to listen inside of a frame.
use mathlib.Core.List.{append_assoc}
use core_cleanup_test.Base.{
  ℕ, ◌≡◌, ◌≢◌, refl, ap, ◌∙◌, arith, List, [], ◌∷◌, ◌++◌, length, All, replicate,
}
use core_cleanup_test.Slip.{fend}
use core_cleanup_test.Slip.Framing.{escape, frame, escape-ne-fend}
use core_cleanup_test.Serial.{Answer, got}
use core_cleanup_test.Serial.Receiving.{get_slip_loop, slip_begun, get_slip}
use core_cleanup_test.Serial.Slip.{arriving, arriving-append, wait_for-arriving, get_slips, frames}

fend_twice :
    (noise : List ℕ) (line : List Answer) (size : ℕ)
    → All (λ c. c ≢ fend) noise
    → get_slip size [] (arriving noise ++ (got fend ∷ got fend ∷ line)) ≡ (got 0, [], line)
unfolding get_slip slip_begun get_slip_loop
fend_twice noise line size quiet =
    rw (wait_for-arriving fend noise (got fend ∷ line) quiet) (ground arith)

-- Where the line begins with bytes up to a FEND, such as the end of a frame, and goes on with
-- frames, then as many calls of `Serial::get_slip` as there are frames return zero, with no bytes:
-- each takes the end of a frame for the start of the next.
pub get_slips_out_of_phase :
    (payloads : List (List ℕ)) (noise : List ℕ) (line : List Answer) (size : ℕ)
    → All (λ c. c ≢ fend) noise
    → get_slips (length payloads) size (arriving (noise ++ (fend ∷ frames payloads)) ++ line)
      ≡ replicate (length payloads) (got 0, [])
unfolding get_slips frames frame
get_slips_out_of_phase [] noise line size quiet = refl
get_slips_out_of_phase (bytes ∷ more) noise line size quiet =
    let rest = arriving (escape bytes ++ (fend ∷ frames more)) ++ line in
    let e : arriving (noise ++ (fend ∷ frames (bytes ∷ more))) ++ line
        ≡ arriving noise ++ (got fend ∷ got fend ∷ rest) =
      simp (arriving-append, append_assoc) in
    ap (λ l. let r = get_slip size [] l in (r.0, r.1) ∷ get_slips (length more) size r.2) e
    ∙ ap (λ r. (r.0, r.1) ∷ get_slips (length more) size r.2) (fend_twice noise rest size quiet)
    ∙ ap (λ l. (got 0, []) ∷ l)
        (get_slips_out_of_phase more (escape bytes) line size (escape-ne-fend bytes))
