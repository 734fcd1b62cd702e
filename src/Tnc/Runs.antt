-- ===== src/Tnc/Runs.antt =====
-- Runs of the model of libraries/device/general/kisstnc_lib.cpp.
use core_cleanup_test.Base.{◌-◌, ◌≡◌, refl, arith, [], ◌∷◌, replicate, codes}
use core_cleanup_test.Base.Result.{ok, fault, ◌>>=◌}
use core_cleanup_test.Slip.{calc_crc}
use core_cleanup_test.Serial.{got}
use core_cleanup_test.Cssl.Frames.{quiet_line}
use core_cleanup_test.Tnc.{Tnc, calc_fcs, fcs_loop, unload_bytes}
use core_cleanup_test.Tnc.Table.{fcstab}
use core_cleanup_test.Tnc.Sequence.{calc_fcs-calc_crc}
use core_cleanup_test.Tnc.Frames.{relay, relay-eq}

abbrev idle : Tnc
idle = record { full = replicate 273 0; size = 0; flag = 0; line = quiet_line (got 0) (1 ∷ 2 ∷ []) }

relay-eq_example : relay (0xC0 ∷ 3 ∷ []) idle idle [] ≡ ok (2, 0xC0 ∷ 3 ∷ [])
relay-eq_example =
    relay-eq (0xC0 ∷ 3 ∷ []) (replicate 273 0) (1 ∷ 2 ∷ []) 0 0 (got 0) idle [] refl refl
      (ground arith)

calc_fcs-calc_crc_example :
    calc_fcs (codes "123456789") 9 ≡ (calc_crc (codes "123456789") 9 >>= λ crc. ok (65535 - crc))
calc_fcs-calc_crc_example = calc_fcs-calc_crc (codes "123456789") 9 (ground arith)

-- The check value of CRC-16/X-25.
nine_digits : calc_fcs (codes "123456789") 9 ≡ ok 0x906E
unfolding calc_fcs fcs_loop fcstab
nine_digits = refl

-- Nothing received: the array overload takes 65519 bytes.
nothing_received : unload_bytes (replicate 254 0) 254 idle ≡ fault
unfolding unload_bytes
nothing_received = refl

-- A full frame into 254 bytes: the closing zero goes behind them.
closing_zero :
    unload_bytes
      (replicate 254 0)
      254
      (record { full = replicate 273 0; size = 271; flag = 0; line = quiet_line (got 0) [] })
    ≡ fault
unfolding unload_bytes
closing_zero = refl
