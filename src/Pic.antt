-- ===== src/Pic.antt =====
-- libraries/device/general/pic_lib.cpp and pic_lib.h: frames of a PIC, as `cssl_putslip` puts them,
-- with the checksum of sliplib.cpp behind. The buffer is the bytes of `raw`, 308 of them; a `uint16_t`
-- of the header is two of them, low byte first. A read or write outside of `raw` is `fault`.
pub mod Frames
pub mod Runs
use Prim.Native.Nat.{◌*◌}
use core_cleanup_test.Base.{
  ℕ, ◌+◌, ◌%◌, List, [], ◌∷◌, ◌++◌, ◌==◌, ltb, if◌then◌else◌, length, take, get_or, overwrite,
}
use core_cleanup_test.Base.Memory.{bytes2}
use core_cleanup_test.Base.Result.{Result, ok, fault, ◌>>=◌}
use core_cleanup_test.Slip.{calc_crc, get_crc}
use core_cleanup_test.Serial.{Answer, got, failed}
use core_cleanup_test.Serial.Receiving.{Received}
use core_cleanup_test.Cssl.{Cssl, putslip}
use core_cleanup_test.Cssl.Reading.{getslip}

pub record Pic : Type 0 where
  pub raw : List ℕ
  pub seq : ℕ
  pub line : Cssl

abbrev pub slip_error_crc_number : ℕ
slip_error_crc_number = 261

-- `buffer.packet.header.size + PIC_HEADER_SIZE` in 16 bits.
unfoldable pub frame_size : List ℕ → ℕ
frame_size raw = (get_or raw 4 0 + 256 * get_or raw 5 0 + 6) % 65536

-- `pic_putframe` with the checksum.
unfoldable pub put_summed : Pic → ℕ → ℕ → Result (Answer × Pic)
put_summed p size crc =
    let raw = overwrite p.raw size (bytes2 crc) in
    let (answer, line) = putslip (take (size + 2) raw) p.line in
    if ltb (length p.raw) (size + 2)
    then fault
    else ok (answer, record { raw = raw; seq = p.seq; line = line })

-- `pic_putframe(handle)`
unfoldable pub putframe : Pic → Result (Answer × Pic)
unfolding frame_size put_summed
putframe p = let size = frame_size p.raw in calc_crc p.raw size >>= put_summed p size

-- `pic_getframe` from behind `cssl_getslip` on.
unfoldable pub check_frame : Received → Result Received
unfolding frame_size
check_frame (failed errno, raw, rest) = ok (failed errno, raw, rest)
check_frame (got n, raw, rest) = do
  crc ← get_crc raw (frame_size raw)
  crc' ← calc_crc raw (frame_size raw)
  ok (if crc == crc' then got n else failed slip_error_crc_number, raw, rest)

-- `pic_getframe(handle)`: what it returns, `raw`, and the calls of `cssl_getchar` to come.
unfoldable pub getframe : List ℕ → List Answer → Result Received
getframe raw incoming = check_frame (getslip (length raw) raw incoming)

-- The header, the argument, and then `pic_putframe`, whose answer is dropped.
unfoldable pub pic_command : ℕ → ℕ → List ℕ → Pic → Result (Answer × Pic)
unfolding putframe
pic_command cmd size args p =
    let header = cmd ∷ 0 ∷ (bytes2 p.seq ++ bytes2 size) in
    putframe (record {
      raw = overwrite p.raw 0 (header ++ args);
      seq = (p.seq + 1) % 65536;
      line = p.line;
    })
    >>= λ r. ok (got 0, r.1)

-- `suchi_heater(handle, number, state)`
unfoldable pub suchi_heater : ℕ → ℕ → Pic → Result (Answer × Pic)
unfolding pic_command
suchi_heater number state p = pic_command (if state == 0 then 0x11 else 0x10) 2 (bytes2 number) p

unfoldable pub suchi_shutter : ℕ → ℕ → Pic → Result (Answer × Pic)
unfolding pic_command
suchi_shutter number state p = pic_command (if state == 0 then 0x21 else 0x20) 2 (bytes2 number) p

-- `sizeof(pic_cmd_args0)` is 1.
unfoldable pub suchi_camera : ℕ → Pic → Result (Answer × Pic)
unfolding pic_command
suchi_camera state p = pic_command (if state == 0 then 0x31 else 0x30) 1 [] p

unfoldable pub suchi_report : Pic → Result (Answer × Pic)
unfolding pic_command
suchi_report p = pic_command 0x41 1 [] p
