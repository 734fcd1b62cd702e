-- ===== src/Kiss/Runs.antt =====
-- Runs of the model of libraries/device/general/kisslib.cpp.
use core_cleanup_test.Base.{
  ℕ, ◌≤◌, ◌≡◌, refl, arith, List, [], ◌∷◌, ◌++◌, none, some, replicate, length, codes,
}
use core_cleanup_test.Base.Result.{ok, fault}
use core_cleanup_test.Slip.{fend, fesc}
use core_cleanup_test.Slip.Framing.{escape}
use core_cleanup_test.Serial.{got}
use core_cleanup_test.Kiss.{
  KissHandle, new_handle, encode_fixed, encode_handle, handle_header, packet, packet_header,
  encode_payload, text_in, copy_text, decode_kiss, decode_copied, decode_rounds, until_end, inspect,
  with_destination, with_source,
}
use core_cleanup_test.Kiss.Endless.{decode_kiss_endless, inspect-encode_fixed}
use core_cleanup_test.Kiss.Handles.{decode_kiss-encode_handle}

abbrev six : List ℕ
six = replicate 6 0

-- A handle with two callsigns.
abbrev station : KissHandle
station =
    with_source (codes "KH6AB" ++ (0 ∷ []))
      (with_destination (codes "WH7LG" ++ (0 ∷ [])) (new_handle six six))

abbrev station_packet : List ℕ
station_packet =
    0xC0 ∷ 0x10 ∷ 174 ∷ 144 ∷ 110 ∷ 152 ∷ 142 ∷ 64 ∷ 0x60 ∷ 150 ∷ 144 ∷ 108 ∷ 130 ∷ 132 ∷ 64 ∷ 0x61
    ∷ 0x31 ∷ 0xF0 ∷ 0xDB ∷ 0xDC ∷ 7 ∷ 0xC0 ∷ []

station_encoded : encode_handle (0xC0 ∷ 7 ∷ []) station six six ≡ ok (got 22, station_packet)
unfolding encode_handle handle_header packet packet_header encode_payload text_in copy_text
station_encoded = refl

decode_kiss-encode_handle_example :
    (2 ≤ 255)
    × (22 ≡ length station_packet)
    × (decode_kiss 256 (replicate 1024 5) (station_packet ++ []) ≡ some (ok (2, 0xC0 ∷ 7 ∷ [])))
decode_kiss-encode_handle_example =
    decode_kiss-encode_handle (0xC0 ∷ 7 ∷ []) station six six (replicate 1024 5) [] station_packet
      22 refl refl refl (omega arith) station_encoded

decode_kiss_endless_example :
    decode_kiss 5
      (replicate 1024 5)
      (replicate 18 1 ++ ((escape (9 ∷ []) ++ (fesc ∷ 4 ∷ [])) ++ (fend ∷ [])))
    ≡ none
decode_kiss_endless_example =
    decode_kiss_endless (replicate 18 1) (9 ∷ []) [] [] (replicate 1024 5) 4 5 refl (omega arith)
      (omega arith) (omega arith, tt) (unfold escape in omega arith) refl

inspect-encode_fixed_example : inspect (encode_fixed (1 ∷ [])).1 six six ≡ fault
inspect-encode_fixed_example = inspect-encode_fixed (1 ∷ []) six six (omega arith)

-- A packet without a payload: a byte that was never written is decoded.
no_payload : decode_kiss 256 (replicate 1024 5) (encode_fixed []).1 ≡ some (ok (1, 5 ∷ []))
unfolding decode_kiss decode_copied decode_rounds until_end encode_fixed packet encode_payload
    packet_header
no_payload = refl
