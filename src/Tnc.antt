-- ===== src/Tnc.antt =====
-- libraries/device/general/kisstnc_lib.cpp and kisstnc_lib.h: frames for a TNC in KISS mode. The frame
-- is the 273 bytes of `full`: the flag, the two addresses of 7 bytes, the control byte, the protocol
-- and the payload. A read or write outside of it, or of the bytes of a caller, is `fault`.
-- mixwtnc_lib.cpp and kpc9612p_lib.cpp have the same check sequence.
pub mod Table
pub mod Sequence
pub mod Frames
pub mod Runs
use Prim.Native.Nat.{◌*◌, bit_xor, min}
use core_cleanup_test.Base.{
  ℕ, ◌+◌, ◌-◌, ◌/◌, ◌%◌, List, [], ◌∷◌, ◌++◌, map, ltb, leb, if◌then◌else◌, length, take, set,
  get_or, overwrite, codes,
}
use core_cleanup_test.Base.Memory.{slice, resize}
use core_cleanup_test.Base.Result.{Result, ok, fault}
use core_cleanup_test.Serial.{Answer, got, failed}
use core_cleanup_test.Serial.Receiving.{Received}
use core_cleanup_test.Cssl.{Cssl, put_any, putslip, putstring}
use core_cleanup_test.Cssl.Reading.{getslip}
use core_cleanup_test.Tnc.Table.{fcstab}

-- The loop of `kisstnc_calc_fcs`.
unfoldable pub fcs_loop : ℕ → List ℕ → ℕ
unfolding fcstab
fcs_loop fcs [] = fcs
fcs_loop fcs (d ∷ more) =
    fcs_loop (bit_xor (fcs / 256) (get_or fcstab (bit_xor fcs d % 256) 0)) more

-- `kisstnc_calc_fcs(data, length)`: the complement in 16 bits.
unfoldable pub calc_fcs : List ℕ → ℕ → Result ℕ
unfolding fcs_loop
calc_fcs bytes size =
    if ltb (length bytes) size then fault else ok (65535 - fcs_loop 0xffff (take size bytes))

-- `KISSTNC_PAYLOAD_SIZE`
abbrev pub payload_room : ℕ
payload_room = 254

pub record Tnc : Type 0 where
  pub full : List ℕ
  pub size : ℕ
  pub flag : ℕ
  pub line : Cssl

-- An address, each byte shifted by a bit.
abbrev pub shifted : List ℕ → List ℕ
shifted = map (λ c. c * 2 % 256)

abbrev pub addresses : List ℕ
addresses = shifted (codes "ABCDEFG") ++ shifted (codes "GROUND ")

-- The header of `kisstnc_loadframe`: all but the control byte.
unfoldable pub set_header : ℕ → List ℕ → List ℕ
set_header flag full = overwrite (set (set full 0 flag) 16 0xF0) 1 addresses

-- `kisstnc_loadframe(handle, data, size)`, and the overload over a vector, whose size is its length.
unfoldable pub load_bytes : List ℕ → ℕ → Tnc → Result (ℕ × Tnc)
unfolding set_header
load_bytes bytes size t =
    let tsize = if leb size payload_room then size else payload_room in
    if ltb (length bytes) tsize
    then fault
    else ok (
      tsize,
      record {
        full = overwrite (set_header t.flag t.full) 17 (take tsize bytes);
        size = tsize + 17;
        flag = t.flag;
        line = t.line;
      },
    )

-- `kisstnc_unloadframe(handle, data, size)`: the bytes of the caller from then on. Of a frame of
-- fewer than 17 bytes the difference is negative, and in 16 bits it is large.
unfoldable pub unload_bytes : List ℕ → ℕ → Tnc → Result (ℕ × List ℕ)
unload_bytes out size t =
    let less = if ltb t.size 17 then 65536 + t.size - 17 else t.size - 17 in
    let tsize = if ltb t.size 17 then less else if leb less size then less else size in
    if ltb (length t.full) (17 + tsize)
    then fault
    else if ltb (length out) (tsize + 1)
    then fault
    else ok (tsize, set (overwrite out 0 (slice t.full 17 tsize)) tsize 0)

-- `kisstnc_unloadframe(handle, data)`: the vector.
unfoldable pub unload_vec : Tnc → Result (ℕ × List ℕ)
unload_vec t =
    let tsize = if leb 17 t.size then t.size - 17 else 0 in
    if ltb (length t.full) (17 + tsize) then fault else ok (tsize, slice t.full 17 tsize)

-- `kisstnc_sendframe(handle)`
unfoldable pub send_frame : Tnc → Result (Answer × Tnc)
send_frame t =
    let full = set t.full 0 t.flag in
    let r = putslip (take t.size full) t.line in
    if ltb (length full) t.size
    then fault
    else ok (r.0, record { full = full; size = t.size; flag = t.flag; line = r.1 })

abbrev pub received_size : Answer → ℕ
received_size (got n) = n
received_size (failed errno) = 0

-- `kisstnc_recvframe(handle)`: what it returns, the handle, and the calls of `cssl_getchar` to come.
abbrev pub recv_kept : Tnc → Received → Answer × Tnc × List Answer
recv_kept t (a, full, rest) =
    (a, record { full = full; size = received_size a; flag = t.flag; line = t.line }, rest)

unfoldable pub recv_frame : Tnc → List Answer → Answer × Tnc × List Answer
recv_frame t incoming = recv_kept t (getslip (length t.full) t.full incoming)

abbrev pub with_line : Cssl → Tnc → Tnc
with_line line t = record { full = t.full; size = t.size; flag = t.flag; line = line }

-- `kisstnc_exitkiss(handle)`
unfoldable pub exit_kiss : Tnc → Answer × Tnc
exit_kiss t = (got 0, with_line (put_any 0xc0 (put_any 0xff (put_any 0xc0 t.line))) t)

-- `kisstnc_enterkiss(handle)`
unfoldable pub enter_kiss : Tnc → Answer × Tnc
unfolding putstring
enter_kiss t =
    let line = (putstring (codes "INTFACE KISS" ++ (13 ∷ [])) t.line).1 in
    (got 0, with_line (putstring (codes "RESET" ++ (13 ∷ [])) line).1 t)
