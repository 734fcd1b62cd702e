-- ===== src/Astrodev.antt =====
-- libraries/device/astrodev/astrodev_lib.cpp and astrodev_lib.h: the frames of the Astrodev radio.
-- A frame is its eight header bytes (`preamble`, or the fields of `header` on a little endian machine)
-- and the bytes of `payload`. The serial line is the list of the bytes that are still to come; at
-- its end `cssl_getchar` fails. An access outside of `payload` is `fault`.
pub mod Line
pub mod Payload
pub mod Checks
pub mod Received
pub mod Runs
use Prim.Native.Nat.{◌*◌}
use core_cleanup_test.Base.{
  ℕ, zero, suc, ◌+◌, ◌/◌, ◌%◌, ◌^◌, List, [], ◌∷◌, ◌++◌, Bool, true, false, ◌==◌, ◌||◌, ltb, leb,
  if◌then◌else◌, length, take, set, get_or, overwrite,
}
use core_cleanup_test.Base.Result.{Result, ok, fault, ◌>>=◌}

pub record Frame : Type 0 where
  pub sync0 : ℕ
  pub sync1 : ℕ
  pub type : ℕ
  pub command : ℕ
  pub size0 : ℕ
  pub size1 : ℕ
  pub cs0 : ℕ
  pub cs1 : ℕ
  pub payload : List ℕ

-- The return value: the command of the frame, or an error.
pub data RadioReply : Type 0 where
  replied : ℕ → RadioReply
  error_sync0 error_sync1 error_header error_header_cs error_nack : RadioReply
  error_payload error_payload_cs : RadioReply

-- `ASTRODEV_MTU`
abbrev pub mtu : ℕ
mtu = 254

-- `header.size` and `header.cs`
abbrev pub header_size : Frame → ℕ
header_size f = f.size0 + 256 * f.size1

abbrev pub header_cs : Frame → ℕ
header_cs f = f.cs0 + 256 * f.cs1

abbrev pub set_size : ℕ → Frame → Frame
set_size size f = record {
  sync0 = f.sync0;
  sync1 = f.sync1;
  type = f.type;
  command = f.command;
  size0 = size % 256;
  size1 = size / 256;
  cs0 = f.cs0;
  cs1 = f.cs1;
  payload = f.payload;
}

-- The bytes from `preamble[2]` on.
abbrev pub from_type : Frame → List ℕ
from_type f = f.type ∷ f.command ∷ f.size0 ∷ f.size1 ∷ f.cs0 ∷ f.cs1 ∷ f.payload

-- The loop of `astrodev_calc_cs`, on two sums of eight bits.
unfoldable pub cs_loop : ℕ → ℕ → List ℕ → ℕ
cs_loop ck_a ck_b [] = ck_a + 256 * ck_b
cs_loop ck_a ck_b (d ∷ data_bytes) =
    let ck_a' = (ck_a + d) % 256 in cs_loop ck_a' ((ck_b + ck_a') % 256) data_bytes

-- `astrodev_calc_cs(data, size)`
unfoldable pub calc_cs : List ℕ → ℕ → Result ℕ
unfolding cs_loop
calc_cs data_bytes size =
    if ltb (length data_bytes) size then fault else ok (cs_loop 0 0 (take size data_bytes))

-- The header that `astrodev_setupframe` writes, less its checksum: the size goes high byte first.
abbrev pub addressed : Frame → Frame
addressed f = record {
  sync0 = b'H';
  sync1 = b'e';
  type = 0x10;
  command = f.command;
  size0 = header_size f / 256;
  size1 = header_size f % 256;
  cs0 = f.cs0;
  cs1 = f.cs1;
  payload = f.payload;
}

abbrev pub set_cs : ℕ → Frame → Frame
set_cs cs f = record {
  sync0 = f.sync0;
  sync1 = f.sync1;
  type = f.type;
  command = f.command;
  size0 = f.size0;
  size1 = f.size1;
  cs0 = cs % 256;
  cs1 = cs / 256;
  payload = f.payload;
}

abbrev pub set_payload : List ℕ → Frame → Frame
set_payload payload f = record {
  sync0 = f.sync0;
  sync1 = f.sync1;
  type = f.type;
  command = f.command;
  size0 = f.size0;
  size1 = f.size1;
  cs0 = f.cs0;
  cs1 = f.cs1;
  payload = payload;
}

-- `astrodev_setupframe(frame)`
unfoldable pub setupframe : Frame → Result Frame
unfolding calc_cs
setupframe f = do
  let size = header_size f
  hcs ← calc_cs (from_type (addressed f)) 4
  let f1 = set_cs hcs (addressed f)
  pcs ← calc_cs (from_type f1) ((6 + size) % 2 ^ 16)
  if leb (length f.payload) (size + 1)
      then fault
      else ok (set_payload (set (set f.payload size (pcs % 256)) (size + 1) (pcs / 256)) f1)

-- The commands that are answered without a payload.
abbrev pub is_simple : ℕ → Bool
is_simple c =
    (c == 0x01)
    || ((c == 0x02)
        || ((c == 0x03)
            || ((c == 0x06)
                || ((c == 0x08)
                    || ((c == 0x09)
                        || ((c == 0x10)
                            || ((c == 0x11)
                                || ((c == 0x13)
                                    || ((c == 0x14) || ((c == 0x15) || (c == 0x20)))))))))))

-- The last part of `astrodev_checkframe` and of `astrodev_recvframe`: the checksum of the payload.
unfoldable pub check_payload : Frame → ℕ → Result (RadioReply × Frame)
unfolding calc_cs
check_payload f size =
    if leb (length f.payload) (size + 1)
    then fault
    else (calc_cs (from_type f) ((6 + size) % 2 ^ 16) >>= λ cs.
        if get_or f.payload size 0 + 256 * get_or f.payload (size + 1) 0 == cs
        then ok (replied f.command, set_size size f)
        else ok (error_payload_cs, f))

-- `astrodev_checkframe(frame)`
unfoldable pub checkframe : Frame → Result (RadioReply × Frame)
unfolding calc_cs check_payload
checkframe f =
    if f.sync0 == b'H'
    then (if f.sync1 == b'e'
        then (calc_cs (from_type f) 4 >>= λ cs.
            if cs == header_cs f
            then (if header_size f == 65535
                then ok (error_nack, f)
                else if is_simple f.command
                then ok (replied f.command, f)
                else check_payload f (f.size1 + 256 * f.size0))
            else ok (error_header_cs, f))
        else ok (error_sync1, f))
    else ok (error_sync0, f)

-- `astrodev_loadframe(handle, data, size)`, of an array of at least that size.
unfoldable pub loadframe : Frame → List ℕ → ℕ → ℕ × Frame
loadframe f data_bytes size =
    let tsize = if leb size mtu then size else mtu in
    (tsize, set_payload (overwrite f.payload 0 (take tsize data_bytes)) (set_size tsize f))

-- `astrodev_unloadframe(handle, data, size)`: how many bytes, and the bytes that are copied.
unfoldable pub unloadframe : Frame → ℕ → Result (ℕ × List ℕ)
unloadframe f size =
    let tsize = if leb (header_size f) size then header_size f else size in
    if ltb (length f.payload) tsize then fault else ok (tsize, take tsize f.payload)
