-- ===== src/Tnc/Frames.antt =====
-- What one TNC of libraries/device/general/kisstnc_lib.cpp loads and sends, another receives.
use Prim.Native.Nat.{min}
use mathlib.Core.List.{append_assoc}
use core_cleanup_test.Base.{
  ℕ, ◌+◌, ◌-◌, ◌<◌, ◌≤◌, ◌≡◌, ◌≢◌, refl, sym, ap, ◌∙◌, arith, List, [], ◌∷◌, ◌++◌, ltb, leb, true,
  false, length, take, drop, set, overwrite, All, length-append, length-take, length-set,
  length-overwrite, overwrite-eq_parts, take-append, take_all, Bool-cases, inl, inr,
}
use core_cleanup_test.Base.Memory.{slice_middle}
use core_cleanup_test.Base.Result.{Result, ok, ◌>>=◌}
use core_cleanup_test.Slip.{fend}
use core_cleanup_test.Slip.Framing.{escape, frame}
use core_cleanup_test.Serial.{Answer, got}
use core_cleanup_test.Serial.Slip.{arriving}
use core_cleanup_test.Cssl.{Cssl}
use core_cleanup_test.Cssl.Reading.{getslip}
use core_cleanup_test.Cssl.Frames.{quiet_line, putslip-eq, getslip-frame}
use core_cleanup_test.Tnc.{
  Tnc, addresses, set_header, load_bytes, send_frame, recv_frame, recv_kept, unload_vec,
}

set_front :
    (front more : List ℕ) (v : ℕ)
    → 0 < length front
    → set (front ++ more) 0 v ≡ set front 0 v ++ more
set_front [] more v h = absurd (omega (arith, h))
set_front (x ∷ front) more v h = refl

length-set_header : (flag : ℕ) (full : List ℕ) → length (set_header flag full) ≡ length full
unfolding set_header
length-set_header flag full =
    length-overwrite (set (set full 0 flag) 16 0xF0) 1 addresses
    ∙ length-set (set full 0 flag) 16 0xF0
    ∙ length-set full 0 flag

-- The header and the payload that `send_frame` puts, with the flag.
outgoing : ℕ → List ℕ → List ℕ → List ℕ
outgoing flag full xs = set (take 17 (set_header flag full)) 0 flag ++ xs

length-outgoing :
    (flag : ℕ) (full xs : List ℕ)
    → length full ≡ 273
    → length (set (take 17 (set_header flag full)) 0 flag) ≡ 17
length-outgoing flag full xs h =
    length-set (take 17 (set_header flag full)) 0 flag
    ∙ omega (arith, length-take 17 (set_header flag full), length-set_header flag full, h)

send_loaded :
    (flag n : ℕ) (full xs sent : List ℕ) (e : Answer)
    → length full ≡ 273
    → length xs ≡ n
    → n ≤ 254
    → (full' : List ℕ) × (send_frame (record {
      full = overwrite (set_header flag full) 17 xs;
      size = n + 17;
      flag = flag;
      line = quiet_line e sent;
    })
        ≡ ok (
          got (length (escape (outgoing flag full xs))),
          record {
            full = full';
            size = n + 17;
            flag = flag;
            line = quiet_line e (sent ++ frame (outgoing flag full xs));
          },
        ))
unfolding send_frame outgoing
send_loaded flag n full xs sent e h k room =
    let old = set_header flag full in
    let front = take 17 old in
    let rest = drop (17 + length xs) old in
    let old_len : length old ≡ 273 = length-set_header flag full ∙ h in
    let front_len : length front ≡ 17 = omega (arith, length-take 17 old, old_len) in
    let new = set (overwrite old 17 xs) 0 flag in
    let parts : new ≡ (set front 0 flag ++ xs) ++ rest =
      ap (λ l. set l 0 flag) (overwrite-eq_parts old 17 xs (omega (arith, old_len, k, room)))
      ∙ set_front front (xs ++ rest) flag (omega (arith, front_len))
      ∙ sym (append_assoc (set front 0 flag) xs rest) in
    let len : length (set front 0 flag ++ xs) ≡ n + 17 =
      omega (arith, length-append (set front 0 flag) xs, length-outgoing flag full xs h, k) in
    let taken_all : take (n + 17) new ≡ set front 0 flag ++ xs =
      ap (take (n + 17)) parts
      ∙ ap (λ m. take m ((set front 0 flag ++ xs) ++ rest)) (sym len)
      ∙ take-append (set front 0 flag ++ xs) rest in
    let whole : length new ≡ 273 =
      length-set (overwrite old 17 xs) 0 flag ∙ length-overwrite old 17 xs ∙ old_len in
    let inside : ltb (length new) (n + 17) ≡ false = ground (arith, whole, room) in
    (new, rw (inside, taken_all, putslip-eq (set front 0 flag ++ xs) sent e) refl)

unload_front :
    (n flag : ℕ) (front xs rest : List ℕ) (line : Cssl)
    → length front ≡ 17
    → length xs ≡ n
    → unload_vec (record { full = front ++ (xs ++ rest); size = n + 17; flag = flag; line = line })
      ≡ ok (n, xs)
unfolding unload_vec
unload_front n flag front xs rest line h k =
    let whole = length-append front (xs ++ rest) in
    let tail = length-append xs rest in
    let found = slice_middle front xs rest 17 n (sym h) (sym k) in
    let back : n + 17 - 17 ≡ n = omega arith in
    let behind_header : leb 17 (n + 17) ≡ true = ground arith in
    let inside : ltb (length (front ++ (xs ++ rest))) (17 + n) ≡ false =
      ground (arith, whole, tail, h, k) in
    rw (behind_header, back) (rw (inside, found) refl)

-- The payload of a frame that another handle receives over its old one.
unload_received :
    (flag n : ℕ) (full xs noise : List ℕ) (other : Tnc) (line : List Answer)
    → length full ≡ 273
    → length xs ≡ n
    → n ≤ 254
    → length other.full ≡ 273
    → All (λ c. c ≢ fend) noise
    → unload_vec (recv_frame other (arriving (noise ++ frame (outgoing flag full xs)) ++ line)).1
      ≡ ok (n, xs)
unfolding recv_frame outgoing
unload_received flag n full xs noise other line h k room room' quiet =
    let front = set (take 17 (set_header flag full)) 0 flag in
    let bytes = front ++ xs in
    let front_len : length front ≡ 17 = length-outgoing flag full xs h in
    let len : length bytes ≡ n + 17 = omega (arith, length-append front xs, front_len, k) in
    let least : min (length other.full) (length bytes) ≡ n + 17 = omega (arith, len, room, room') in
    let all : take (length other.full) bytes ≡ bytes =
      take_all (length other.full) bytes (omega (arith, len, room, room')) in
    let rest = drop (0 + length bytes) other.full in
    let laid : overwrite other.full 0 bytes ≡ front ++ (xs ++ rest) =
      overwrite-eq_parts other.full 0 bytes (omega (arith, len, room, room'))
      ∙ append_assoc front xs rest in
    let received : getslip (length other.full) other.full (arriving (noise ++ frame bytes) ++ line)
        ≡ (got (n + 17), front ++ (xs ++ rest), line) =
      getslip-frame noise bytes other.full line (length other.full) quiet
      ∙ rw (least, all, laid) refl in
    ap (λ r. unload_vec (recv_kept other r).1) received
    ∙ unload_front n other.flag front xs rest other.line front_len k

-- Bytes loaded and sent by one handle, received by another from a line that goes on, and unloaded.
unfoldable pub relay : List ℕ → Tnc → Tnc → List Answer → Result (ℕ × List ℕ)
unfolding load_bytes send_frame recv_frame unload_vec
relay bytes t other line = do
  (n, t1) ← load_bytes bytes (length bytes) t
  (a, t2) ← send_frame t1
  unload_vec (recv_frame other (arriving t2.line.sent ++ line)).1

load_whole :
    (bytes full noise : List ℕ) (size flag : ℕ) (e : Answer)
    → let n = min 254 (length bytes) in
      load_bytes bytes
        (length bytes)
        (record { full = full; size = size; flag = flag; line = quiet_line e noise })
      ≡ ok (
        n,
        record {
          full = overwrite (set_header flag full) 17 (take 254 bytes);
          size = n + 17;
          flag = flag;
          line = quiet_line e noise;
        },
      )
unfolding load_bytes
load_whole bytes full noise size flag e = elim (Bool-cases (leb (length bytes) 254)) [
  | inl h ↦
      let small : length bytes ≤ 254 = ground (arith, h) in
      let least : min 254 (length bytes) ≡ length bytes = omega (arith, small) in
      let inside : ltb (length bytes) (length bytes) ≡ false = ground arith in
      let all : take (length bytes) bytes ≡ bytes = take_all (length bytes) bytes (omega arith) in
      rw (h, least, take_all 254 bytes small) (rw (inside, all) refl)
  | inr h ↦
      let large : 254 < length bytes = ground (arith, h) in
      let least : min 254 (length bytes) ≡ 254 = omega (arith, large) in
      let inside : ltb (length bytes) 254 ≡ false = ground (arith, large) in
      rw (h, least) (rw inside refl)
]

-- Bytes loaded into a frame of 273 bytes by `kisstnc_loadframe`, sent by `kisstnc_sendframe` on a
-- line on which all writes succeed, behind bytes that are no FEND, received by `kisstnc_recvframe`
-- into another frame of 273 bytes and unloaded into a vector, are the first 254 of the bytes, or
-- all if there are fewer.
pub relay-eq :
    (bytes full noise : List ℕ) (size flag : ℕ) (e : Answer) (other : Tnc) (line : List Answer)
    → length full ≡ 273
    → length other.full ≡ 273
    → All (λ c. c ≢ fend) noise
    → relay bytes
        (record { full = full; size = size; flag = flag; line = quiet_line e noise })
        other
        line
      ≡ ok (min 254 (length bytes), take 254 bytes)
unfolding relay
relay-eq bytes full noise size flag e other line h room quiet =
    let n = min 254 (length bytes) in
    let xs = take 254 bytes in
    let len : length xs ≡ n = length-take 254 bytes in
    let (full', sent) = send_loaded flag n full xs noise e h len (omega arith) in
    rw (load_whole bytes full noise size flag e, sent)
      (unload_received flag n full xs noise other line h len (omega arith) room quiet)
