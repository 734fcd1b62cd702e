-- ===== src/Serial/Slip.antt =====
-- Frames received by `Serial::get_slip` of libraries/device/serial/serialclass.cpp.
use Prim.Native.Nat.{min}
use mathlib.Core.List.{append_assoc, append-nil}
use core_cleanup_test.Base.{
  ℕ, zero, suc, ◌+◌, ◌%◌, ◌<◌, ◌≤◌, ◌≡◌, ◌≢◌, refl, ap, ◌∙◌, arith, List, [], ◌∷◌, ◌++◌, false,
  length, take, take_all, All, none,
}
use core_cleanup_test.Slip.{fend, fesc, tfend, tfesc}
use core_cleanup_test.Slip.Framing.{escape, frame}
use core_cleanup_test.Serial.{Answer, got}
use core_cleanup_test.Serial.Receiving.{wait_for, get_slip_loop, slip_begun, get_slip}

-- Bytes that arrive one after the other.
abbrev pub arriving : List ℕ → List Answer
arriving [] = []
arriving (c ∷ more) = got c ∷ arriving more

pub arriving-append : (xs ys : List ℕ) → arriving (xs ++ ys) ≡ arriving xs ++ arriving ys
arriving-append [] ys = refl
arriving-append (x ∷ xs) ys = ap (λ l. got x ∷ l) (arriving-append xs ys)

pub wait_for-arriving :
    (start : ℕ) (noise : List ℕ) (line : List Answer)
    → All (λ c. c ≢ start) noise
    → wait_for start (arriving noise ++ (got start ∷ line)) ≡ (none, line)
unfolding wait_for
wait_for-arriving start [] line h = ground arith
wait_for-arriving start (c ∷ noise) line h =
    ground (arith, h.0, wait_for-arriving start noise line h.1)

-- Past the size of the caller nothing is kept.
skip_rest :
    (bytes old : List ℕ) (line : List Answer) (size i : ℕ)
    → size ≤ i
    → get_slip_loop false size i old (arriving (escape bytes) ++ (got fend ∷ line))
      ≡ (got i, old, line)
unfolding get_slip_loop escape
skip_rest [] old line size i h = ground (arith, h)
skip_rest (b ∷ more) old line size i h = ground (arith, h, skip_rest more old line size i h)

-- One round of the loop, with room left.
plain_round :
    (b size i : ℕ) (old : List ℕ) (line : List Answer)
    → i < size
    → size < 65536
    → b ≢ fend
    → b ≢ fesc
    → get_slip_loop false size i old (got b ∷ line)
      ≡ get_slip_loop false size (i + 1) (old ++ (b ∷ [])) line
unfolding get_slip_loop
plain_round b size i old line h k p q =
    let e : (i + 1) % 65536 ≡ i + 1 = omega (arith, h, k) in rw e (ground (arith, h, p, q))

fend_round :
    (size i : ℕ) (old : List ℕ) (line : List Answer)
    → i < size
    → size < 65536
    → get_slip_loop false size i old (got fesc ∷ got tfend ∷ line)
      ≡ get_slip_loop false size (i + 1) (old ++ (fend ∷ [])) line
unfolding get_slip_loop
fend_round size i old line h k =
    let e : (i + 1) % 65536 ≡ i + 1 = omega (arith, h, k) in rw e (ground (arith, h))

fesc_round :
    (size i : ℕ) (old : List ℕ) (line : List Answer)
    → i < size
    → size < 65536
    → get_slip_loop false size i old (got fesc ∷ got tfesc ∷ line)
      ≡ get_slip_loop false size (i + 1) (old ++ (fesc ∷ [])) line
unfolding get_slip_loop
fesc_round size i old line h k =
    let e : (i + 1) % 65536 ≡ i + 1 = omega (arith, h, k) in rw e (ground (arith, h))

escape_round :
    (b size i : ℕ) (more old : List ℕ) (line : List Answer)
    → i < size
    → size < 65536
    → get_slip_loop false size i old (arriving (escape (b ∷ more)) ++ line)
      ≡ get_slip_loop false size (i + 1) (old ++ (b ∷ [])) (arriving (escape more) ++ line)
unfolding escape
escape_round b size i more old line h k =
    let later = arriving (escape more) ++ line in
    ground (
      arith,
      plain_round b size i old later h k,
      fend_round size i old later h k,
      fesc_round size i old later h k,
    )

-- The loop keeps the bytes that were escaped, as many as there is room for.
get_slip_loop-escape :
    (bytes old : List ℕ) (line : List Answer) (size i room n : ℕ)
    → i + room ≡ size
    → size < 65536
    → n ≡ i + min room (length bytes)
    → get_slip_loop false size i old (arriving (escape bytes) ++ (got fend ∷ line))
      ≡ (got n, old ++ take room bytes, line)
get_slip_loop-escape [] old line size i zero n e h k =
    let k' : n ≡ i = omega (arith, k) in
    rw (k', append-nil) (skip_rest [] old line size i (omega (arith, e)))
get_slip_loop-escape [] old line size i (suc room) n e h k =
    let k' : n ≡ i = omega (arith, k) in
    rw (k', append-nil) (unfold get_slip_loop escape in ground arith)
get_slip_loop-escape (b ∷ more) old line size i zero n e h k =
    let k' : n ≡ i = omega (arith, k) in
    rw (k', append-nil) (skip_rest (b ∷ more) old line size i (omega (arith, e)))
get_slip_loop-escape (b ∷ more) old line size i (suc room) n e h k =
    escape_round b size i more old (got fend ∷ line) (omega (arith, e)) h
    ∙ get_slip_loop-escape more (old ++ (b ∷ [])) line size (i + 1) room n (omega (arith, e)) h
        (omega (arith, k))
    ∙ rw append_assoc refl

pub get_slip-frame :
    (noise bytes old : List ℕ) (line : List Answer) (size : ℕ)
    → All (λ c. c ≢ fend) noise
    → size < 65536
    → get_slip size old (arriving (noise ++ frame bytes) ++ line)
      ≡ (got (min size (length bytes)), old ++ take size bytes, line)
unfolding get_slip slip_begun frame
get_slip-frame noise bytes old line size quiet h =
    let tail = arriving (escape bytes) ++ (got fend ∷ line) in
    let e : arriving (noise ++ (fend ∷ (escape bytes ++ (fend ∷ [])))) ++ line
        ≡ arriving noise ++ (got fend ∷ tail) =
      simp (arriving-append, append_assoc) in
    rw (e, wait_for-arriving fend noise tail quiet)
      (get_slip_loop-escape bytes old line size 0 size (min size (length bytes)) (omega arith) h
        (omega arith))

-- The calls of `get_slip` for a number of frames, each into an empty vector.
unfoldable pub get_slips : ℕ → ℕ → List Answer → List (Answer × List ℕ)
unfolding get_slip
get_slips zero size line = []
get_slips (suc n) size line = let r = get_slip size [] line in (r.0, r.1) ∷ get_slips n size r.2

-- The frames of a list of payloads, one behind the other.
unfoldable pub frames : List (List ℕ) → List ℕ
unfolding frame
frames [] = []
frames (bytes ∷ more) = frame bytes ++ frames more

-- What a caller hopes to receive.
abbrev pub counted : List (List ℕ) → List (Answer × List ℕ)
counted [] = []
counted (bytes ∷ more) = (got (length bytes), bytes) ∷ counted more

-- Payloads no longer than the size of the caller, which is below 2^16, each put on the line as a
-- frame, are all received by as many calls of `Serial::get_slip`, in order: each call returns the
-- length of the next payload, and its bytes.
pub get_slips-frames :
    (payloads : List (List ℕ)) (size : ℕ) (line : List Answer)
    → All (λ bytes. length bytes ≤ size) payloads
    → size < 65536
    → get_slips (length payloads) size (arriving (frames payloads) ++ line) ≡ counted payloads
unfolding get_slips frames
get_slips-frames [] size line h k = refl
get_slips-frames (bytes ∷ more) size line h k =
    let tail = arriving (frames more) ++ line in
    let e : arriving (frame bytes ++ frames more) ++ line ≡ arriving (frame bytes) ++ tail =
      simp (arriving-append, append_assoc) in
    let n : min size (length bytes) ≡ length bytes = omega (arith, h.0) in
    let first : get_slip size [] (arriving (frame bytes ++ frames more) ++ line)
        ≡ (got (length bytes), bytes, tail) =
      ap (get_slip size []) e
      ∙ get_slip-frame [] bytes [] tail size tt k
      ∙ rw (n, take_all size bytes h.0) refl in
    ap (λ r. (r.0, r.1) ∷ get_slips (length more) size r.2) first
    ∙ ap (λ l. (got (length bytes), bytes) ∷ l) (get_slips-frames more size line h.1 k)
