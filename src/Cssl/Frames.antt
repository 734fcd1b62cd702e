-- ===== src/Cssl/Frames.antt =====
-- Frames put by `cssl_putslip` and received by `cssl_getslip` of libraries/device/general/cssl_lib.cpp.
use Prim.Native.Nat.{min}
use mathlib.Core.Path.{ap₂}
use mathlib.Core.List.{append_assoc, append-nil}
use core_cleanup_test.Base.{
  ℕ, zero, suc, ◌+◌, ◌<◌, ◌≤◌, ◌≡◌, ◌≢◌, refl, ap, ◌∙◌, arith, List, [], ◌∷◌, ◌++◌, true, false,
  length, take, set, All, none, overwrite,
}
use core_cleanup_test.Slip.{fend, fesc, tfend, tfesc}
use core_cleanup_test.Slip.Framing.{escape, frame}
use core_cleanup_test.Serial.{Answer, got}
use core_cleanup_test.Serial.Slip.{arriving, arriving-append}
use core_cleanup_test.Cssl.{Cssl, write_char, putchar, put_any, putslip_loop, putslip}
use core_cleanup_test.Cssl.Reading.{look_for, getslip_loop, getslip_begun, getslip}

-- An open line on which every write succeeds.
abbrev pub quiet_line : Answer → List ℕ → Cssl
quiet_line error sent = record {
  started = true;
  opened = true;
  error = error;
  writes = [];
  sent = sent;
}

putslip_loop-count :
    (bytes : List ℕ) (i : ℕ) (s : Cssl) → (putslip_loop bytes i s).0 ≡ i + length (escape bytes)
unfolding putslip_loop putchar escape
putslip_loop-count [] i s = omega arith
putslip_loop-count (b ∷ more) i s = ground (
  arith,
  putslip_loop-count more (i + 2) (put_any tfend (put_any fesc s)),
  putslip_loop-count more (i + 2) (put_any tfesc (put_any fesc s)),
  putslip_loop-count more (i + 1) (put_any b s),
)

pub putslip_count : (bytes : List ℕ) (s : Cssl) → (putslip bytes s).0 ≡ got (length (escape bytes))
unfolding putslip putchar
putslip_count bytes s = ap got (putslip_loop-count bytes 0 (put_any fend s) ∙ omega arith)

putslip_loop-sent :
    (bytes sent : List ℕ) (e : Answer) (i : ℕ)
    → (putslip_loop bytes i (quiet_line e sent)).1 ≡ quiet_line e (sent ++ escape bytes)
unfolding putslip_loop putchar write_char escape
putslip_loop-sent [] sent e i = rw append-nil refl
putslip_loop-sent (b ∷ more) sent e i = ground (
  arith,
  putslip_loop-sent more ((sent ++ (fesc ∷ [])) ++ (tfend ∷ [])) e (i + 2),
  putslip_loop-sent more ((sent ++ (fesc ∷ [])) ++ (tfesc ∷ [])) e (i + 2),
  putslip_loop-sent more (sent ++ (b ∷ [])) e (i + 1),
  append_assoc (sent ++ (fesc ∷ [])) (tfend ∷ []) (escape more),
  append_assoc (sent ++ (fesc ∷ [])) (tfesc ∷ []) (escape more),
  append_assoc sent (fesc ∷ []) (tfend ∷ escape more),
  append_assoc sent (fesc ∷ []) (tfesc ∷ escape more),
  append_assoc sent (b ∷ []) (escape more),
)

putslip-sent :
    (bytes sent : List ℕ) (e : Answer)
    → (putslip bytes (quiet_line e sent)).1 ≡ quiet_line e (sent ++ frame bytes)
unfolding putslip putchar write_char frame
putslip-sent bytes sent e =
    ap (put_any fend) (putslip_loop-sent bytes (sent ++ (fend ∷ [])) e 0)
    ∙ ap (quiet_line e) (simp append_assoc)

pub putslip-eq :
    (bytes sent : List ℕ) (e : Answer)
    → putslip bytes (quiet_line e sent)
      ≡ (got (length (escape bytes)), quiet_line e (sent ++ frame bytes))
putslip-eq bytes sent e =
    ap₂ (λ a s. (a, s)) (putslip_count bytes (quiet_line e sent)) (putslip-sent bytes sent e)

look_for-arriving :
    (start : ℕ) (noise : List ℕ) (line : List Answer)
    → All (λ c. c ≢ start) noise
    → look_for start (arriving noise ++ (got start ∷ line)) ≡ (none, line)
unfolding look_for
look_for-arriving start [] line h = ground arith
look_for-arriving start (c ∷ noise) line h =
    ground (arith, h.0, look_for-arriving start noise line h.1)

full_round :
    (bytes buf : List ℕ) (line : List Answer) (size i : ℕ)
    → size ≤ i
    → getslip_loop false size i buf (arriving (escape bytes) ++ (got fend ∷ line))
      ≡ (got i, buf, line)
unfolding getslip_loop escape
full_round [] buf line size i h = ground (arith, h)
full_round (b ∷ more) buf line size i h = ground (arith, h, full_round more buf line size i h)

-- One byte of the payload, with room left.
byte_round :
    (b size i : ℕ) (more buf : List ℕ) (line : List Answer)
    → i < size
    → getslip_loop false size i buf (arriving (escape (b ∷ more)) ++ line)
      ≡ getslip_loop false size (i + 1) (set buf i b) (arriving (escape more) ++ line)
unfolding escape getslip_loop
byte_round b size i more buf line h = ground (arith, h)

getslip_loop-escape :
    (bytes buf : List ℕ) (line : List Answer) (size i room n : ℕ)
    → i + room ≡ size
    → n ≡ i + min room (length bytes)
    → getslip_loop false size i buf (arriving (escape bytes) ++ (got fend ∷ line))
      ≡ (got n, overwrite buf i (take room bytes), line)
getslip_loop-escape [] buf line size i zero n e k =
    let k' : n ≡ i = omega (arith, k) in rw k' (full_round [] buf line size i (omega (arith, e)))
getslip_loop-escape [] buf line size i (suc room) n e k =
    let k' : n ≡ i = omega (arith, k) in rw k' (unfold getslip_loop escape in ground arith)
getslip_loop-escape (b ∷ more) buf line size i zero n e k =
    let k' : n ≡ i = omega (arith, k) in
    rw k' (full_round (b ∷ more) buf line size i (omega (arith, e)))
getslip_loop-escape (b ∷ more) buf line size i (suc room) n e k =
    byte_round b size i more buf (got fend ∷ line) (omega (arith, e))
    ∙ getslip_loop-escape more (set buf i b) line size (i + 1) room n (omega (arith, e))
        (omega (arith, k))

pub getslip-frame :
    (noise bytes buf : List ℕ) (line : List Answer) (size : ℕ)
    → All (λ c. c ≢ fend) noise
    → getslip size buf (arriving (noise ++ frame bytes) ++ line)
      ≡ (got (min size (length bytes)), overwrite buf 0 (take size bytes), line)
unfolding getslip getslip_begun frame
getslip-frame noise bytes buf line size quiet =
    let tail = arriving (escape bytes) ++ (got fend ∷ line) in
    let e : arriving (noise ++ (fend ∷ (escape bytes ++ (fend ∷ [])))) ++ line
        ≡ arriving noise ++ (got fend ∷ tail) =
      simp (arriving-append, append_assoc) in
    rw (e, look_for-arriving fend noise tail quiet)
      (getslip_loop-escape bytes buf line size 0 size (min size (length bytes)) (omega arith)
        (omega arith))

pub getslip-putslip :
    (noise bytes buf : List ℕ) (e : Answer) (line : List Answer) (size : ℕ)
    → All (λ c. c ≢ fend) noise
    → let wire = (putslip bytes (quiet_line e noise)).1.sent in
      getslip size buf (arriving wire ++ line)
      ≡ (got (min size (length bytes)), overwrite buf 0 (take size bytes), line)
getslip-putslip noise bytes buf e line size quiet =
    rw (putslip-sent bytes noise e) (getslip-frame noise bytes buf line size quiet)
