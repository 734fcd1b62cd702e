-- ===== src/Serial/Runs.antt =====
-- Runs of the model of libraries/device/serial/serialclass.cpp on short lines.
use core_cleanup_test.Base.{
  ℕ, ◌≡◌, refl, arith, List, [], ◌∷◌, ◌++◌, ◌==◌, if◌then◌else◌, take, replicate, codes,
}
use core_cleanup_test.Slip.{fend}
use core_cleanup_test.Slip.Framing.{escape, frame}
use core_cleanup_test.Serial.{
  Answer, got, failed, accepted, refused, write, put_char, put_written, serial_error_checksum,
}
use core_cleanup_test.Serial.Sending.{
  put_slip, put_nmea, put_nmea_loop, sum_loop, first_digit, second_digit,
}
use core_cleanup_test.Serial.Receiving.{get_data, get_nmea, get_block, numbered, get_xmodem}
use core_cleanup_test.Serial.Wire.{port, put_slip-refused}
use core_cleanup_test.Serial.Slip.{arriving, get_slips, frames, counted, get_slips-frames}
use core_cleanup_test.Serial.Phase.{get_slips_out_of_phase}
use core_cleanup_test.Serial.Nmea.{get_nmea-put_nmea}
use core_cleanup_test.Serial.Xmodem.{IsXmodem, get_xmodem_sound}

-- Two payloads, with bytes that are escaped.
abbrev two : List (List ℕ)
two = (1 ∷ 0xC0 ∷ 2 ∷ []) ∷ (0xDB ∷ []) ∷ []

get_slips-frames_example : get_slips 2 100 (arriving (frames two) ++ (got 7 ∷ [])) ≡ counted two
get_slips-frames_example =
    get_slips-frames two 100 (got 7 ∷ []) (omega arith, (omega arith, tt)) (omega arith)

get_slips_out_of_phase_example :
    get_slips 2 100 (arriving ((5 ∷ []) ++ (fend ∷ frames two)) ++ []) ≡ replicate 2 (got 0, [])
get_slips_out_of_phase_example = get_slips_out_of_phase two (5 ∷ []) [] 100 (omega arith, tt)

-- The third write fails.
put_slip-refused_example :
    put_slip (1 ∷ 2 ∷ []) (port (got 0) (replicate 2 (accepted 1) ++ (refused 5 ∷ [])) [])
    ≡ (failed 5, port (failed 5) [] (take 2 (frame (1 ∷ 2 ∷ []))))
put_slip-refused_example =
    put_slip-refused (1 ∷ 2 ∷ []) [] (got 0) 2 5 [] (unfold frame escape in omega arith)

get_nmea-put_nmea_example :
    let bytes = codes "VNRRG,11" in
    let wire = (put_nmea bytes (port (got 0) [] (7 ∷ []))).1.sent in
    get_nmea 150 [] (arriving wire ++ []) ≡ (
      if sum_loop 0 bytes == 16
      then (failed serial_error_checksum, bytes, got 10 ∷ [])
      else (got 8, bytes, []))
get_nmea-put_nmea_example =
    get_nmea-put_nmea (7 ∷ []) (codes "VNRRG,11") [] (got 0) [] 150 (ground arith) (ground arith)
      (ground arith) (omega arith) (omega arith)

-- The sentence of the comment in the source.
sent_sentence :
    (put_nmea (codes "VNRRG,11") (port (got 0) [] [])).1.sent ≡ codes "$VNRRG,11*73" ++ (10 ∷ [])
unfolding put_nmea sum_loop put_nmea_loop put_char write put_written first_digit second_digit
sent_sentence = refl

-- A payload whose sum is 16 is sent with the sum 00.
sixteen : (put_nmea (0x30 ∷ 0x20 ∷ []) (port (got 0) [] [])).1.sent ≡ codes "$0 *00" ++ (10 ∷ [])
unfolding put_nmea sum_loop put_nmea_loop put_char write put_written first_digit second_digit
sixteen = refl

-- A block of zeros with the number 3.
abbrev zeros : List Answer
zeros = got 1 ∷ got 3 ∷ got 252 ∷ (arriving (replicate 128 0) ++ (got 0 ∷ got 9 ∷ []))

zeros_read : get_xmodem [] zeros ≡ (got 3, replicate 128 0, got 9 ∷ [])
unfolding get_xmodem numbered get_block
zeros_read = refl

get_xmodem_sound_example : IsXmodem 3 [] (replicate 128 0) zeros (got 9 ∷ [])
get_xmodem_sound_example = get_xmodem_sound [] (replicate 128 0) zeros (got 9 ∷ []) 3 zeros_read

-- A line that falls silent: the bytes are in the vector, and the call fails.
silent : get_data 3 0 [] (arriving (1 ∷ 2 ∷ [])) ≡ (failed 11, 1 ∷ 2 ∷ [], [])
unfolding get_data
silent = refl
