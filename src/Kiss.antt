-- ===== src/Kiss.antt =====
-- libraries/device/general/kisslib.cpp and kisslib.h: packets of the KISS protocol with an AX.25 header.
-- A routine that fills a buffer of the caller returns the bytes that it writes from the start of that
-- buffer on. What an array holds before it is written is an argument, `old`. A read or write outside
-- of an array is `fault`; `none` means that the loop of `kissDecode` has not ended yet.
pub mod Packets
pub mod Endless
pub mod Handles
pub mod Runs
use Prim.Native.Nat.{◌*◌, max}
use core_cleanup_test.Base.{
  ℕ, zero, suc, ◌+◌, ◌-◌, ◌/◌, ◌%◌, List, [], ◌∷◌, ◌++◌, Option, none, some, ◌==◌, ltb, leb,
  if◌then◌else◌, length, take, drop, set, get_or, overwrite, map, codes,
}
use core_cleanup_test.Base.Memory.{slice}
use core_cleanup_test.Base.Result.{Result, ok, fault, ◌>>=◌}
use core_cleanup_test.Serial.{Answer, got, failed}

abbrev pub frame_end : ℕ
frame_end = 0xC0

abbrev pub frame_escape : ℕ
frame_escape = 0xDB

abbrev pub transposed_end : ℕ
transposed_end = 0xDC

abbrev pub transposed_escape : ℕ
transposed_escape = 0xDD

-- `PACKETMAX`
abbrev pub packet_max : ℕ
packet_max = 1024

pub record KissHandle : Type 0 where
  pub port_number : ℕ
  pub command : ℕ
  pub destination_callsign : List ℕ
  pub destination_station : ℕ
  pub source_callsign : List ℕ
  pub source_station : ℕ
  pub control : ℕ
  pub protocol : ℕ

-- The loop over the payload.
unfoldable pub encode_payload : List ℕ → List ℕ
encode_payload [] = []
encode_payload (c ∷ more) =
    let rest = encode_payload more in
    if c == frame_end
    then frame_escape ∷ transposed_end ∷ rest
    else if c == frame_escape
    then frame_escape ∷ transposed_escape ∷ rest
    else c ∷ rest

-- The 18 bytes before the payload. The first five letters of a callsign are shifted by a bit.
unfoldable pub packet_header : List ℕ → ℕ → List ℕ → ℕ → ℕ → ℕ → List ℕ
packet_header dest dest_station source source_station control protocol =
    frame_end
    ∷ 0x10
    ∷ (map (λ c. c * 2 % 256) dest
        ++ (0x40
            ∷ dest_station
            ∷ (map (λ c. c * 2 % 256) source ++ (0x40 ∷ source_station ∷ control ∷ protocol ∷ []))))

-- A whole packet, or the refusal of more than 255 bytes.
unfoldable pub packet : List ℕ → List ℕ → Answer × List ℕ
unfolding encode_payload
packet header bytes =
    let body = encode_payload bytes in
    if ltb 255 (length bytes)
    then (failed 1, [])
    else (got (length body + 19), header ++ (body ++ (frame_end ∷ [])))

-- `kissEncode(input, count, encoded_packet)` for the bytes `input[0 .. count)`.
unfoldable pub encode_fixed : List ℕ → Answer × List ℕ
unfolding packet packet_header
encode_fixed bytes =
    packet (packet_header (codes "WH7LG") 0x60 (codes "WH7LE") 0x61 0x31 0xF0) bytes

-- The bytes of an array before its first zero, as `strcpy` reads them.
unfoldable pub text_in : List ℕ → Result (List ℕ)
text_in [] = fault
text_in (c ∷ more) = let rest = text_in more in if c == 0 then ok [] else (rest >>= λ t. ok (c ∷ t))

-- `strcpy` into an array of six bytes.
unfoldable pub copy_text : List ℕ → List ℕ → Result (List ℕ)
copy_text old text = if ltb 5 (length text) then fault else ok (overwrite old 0 (text ++ (0 ∷ [])))

-- The header of `kissEncode` with a handle; `old` and `old'` are what its two arrays hold before.
unfoldable pub handle_header : KissHandle → List ℕ → List ℕ → Result (List ℕ)
handle_header h old old' = do
  text ← text_in h.destination_callsign
  dest ← copy_text old text
  text' ← text_in h.source_callsign
  source ← copy_text old' text'
  ok (
      packet_header (take 5 dest) h.destination_station (take 5 source) h.source_station h.control
        h.protocol)

-- `kissEncode(input, count, encoded_packet, handle)`
unfoldable pub encode_handle : List ℕ → KissHandle → List ℕ → List ℕ → Result (Answer × List ℕ)
encode_handle bytes h old old' =
    if ltb 255 (length bytes)
    then ok (failed 1, [])
    else (handle_header h old old' >>= λ header. ok (packet header bytes))

abbrev pub with_destination : List ℕ → KissHandle → KissHandle
with_destination callsign h = record {
  port_number = h.port_number;
  command = h.command;
  destination_callsign = callsign;
  destination_station = h.destination_station;
  source_callsign = h.source_callsign;
  source_station = h.source_station;
  control = h.control;
  protocol = h.protocol;
}

abbrev pub with_source : List ℕ → KissHandle → KissHandle
with_source callsign h = record {
  port_number = h.port_number;
  command = h.command;
  destination_callsign = h.destination_callsign;
  destination_station = h.destination_station;
  source_callsign = callsign;
  source_station = h.source_station;
  control = h.control;
  protocol = h.protocol;
}

-- `KissHandle::set_destination_callsign` and `KissHandle::set_source_callsign` with an array.
unfoldable pub set_destination : List ℕ → KissHandle → Result KissHandle
unfolding text_in copy_text
set_destination callsign h = do
  text ← text_in callsign
  copied ← copy_text h.destination_callsign text
  ok (with_destination copied h)

unfoldable pub set_source : List ℕ → KissHandle → Result KissHandle
unfolding text_in copy_text
set_source callsign h = do
  text ← text_in callsign
  copied ← copy_text h.source_callsign text
  ok (with_source copied h)

-- `KissHandle()`, of arrays that hold `old` and `old'`.
abbrev pub new_handle : List ℕ → List ℕ → KissHandle
new_handle old old' = record {
  port_number = 1;
  command = 0;
  destination_callsign = set old 0 0;
  destination_station = 0x60;
  source_callsign = set old' 0 0;
  source_station = 0x61;
  control = 0x31;
  protocol = 0xF0;
}

abbrev pub with_stations : List ℕ → KissHandle → KissHandle
with_stations input h = record {
  port_number = h.port_number;
  command = h.command;
  destination_callsign = h.destination_callsign;
  destination_station = get_or input 8 0;
  source_callsign = h.source_callsign;
  source_station = get_or input 15 0;
  control = get_or input 16 0;
  protocol = get_or input 17 0;
}

-- `kissInspect(input)`. No zero stands behind the six shifted letters: without one among them,
-- `strcpy` reads past their array.
unfoldable pub inspect : List ℕ → List ℕ → List ℕ → Result KissHandle
unfolding set_destination set_source
inspect input old old' = if ltb (length input) 18 then fault else (do
  h ← set_destination (map (λ c. c / 2) (slice input 2 6)) (new_handle old old')
  h' ← set_source (map (λ c. c / 2) (slice input 9 6)) h
  ok (with_stations input h'))

-- The first loop of `kissDecode`: the bytes before the next FEND.
unfoldable pub until_end : List ℕ → Result (List ℕ)
until_end [] = fault
until_end (c ∷ more) =
    let rest = until_end more in if c == frame_end then ok [] else (rest >>= λ xs. ok (c ∷ xs))

-- The second loop, with the number of rounds that are looked at: the bytes of `encoded_payload` from
-- `j` on, and the bytes decoded. The bytes that the loop overwrites are never read again. Behind an
-- FESC that is neither end nor escape, neither `i` nor `j` moves.
unfoldable pub decode_rounds : ℕ → List ℕ → List ℕ → Option (Result (ℕ × List ℕ))
decode_rounds zero rest out = none
decode_rounds (suc n) [] out = some fault
decode_rounds (suc n) (c ∷ []) out =
    let later = decode_rounds n [] (out ++ (c ∷ [])) in
    if c == frame_end
    then some (ok (length out, out))
    else if c == frame_escape
    then some fault
    else later
decode_rounds (suc n) (c ∷ d ∷ rest) out =
    let as_end = decode_rounds n rest (out ++ (frame_end ∷ [])) in
    let as_escape = decode_rounds n rest (out ++ (frame_escape ∷ [])) in
    let again = decode_rounds n (c ∷ d ∷ rest) out in
    let later = decode_rounds n (d ∷ rest) (out ++ (c ∷ [])) in
    if c == frame_end
    then some (ok (length out, out))
    else if c == frame_escape
    then (if d == transposed_end
        then as_end
        else if d == transposed_escape
        then as_escape
        else again)
    else later

-- The FEND behind the copied bytes goes to index `j + 1`, and `j` is zero if there are none.
unfoldable pub decode_copied : ℕ → List ℕ → Result (List ℕ) → Option (Result (ℕ × List ℕ))
unfolding decode_rounds
decode_copied n old fault = some fault
decode_copied n old (ok xs) =
    let later = decode_rounds n (set (overwrite old 0 xs) (max 1 (length xs)) frame_end) [] in
    if leb packet_max (max 1 (length xs)) then some fault else later
decode_copied n old other = some fault

-- `kissDecode(kissed_input, count, decoded_payload)` with `old` in the array `encoded_payload`.
unfoldable pub decode_kiss : ℕ → List ℕ → List ℕ → Option (Result (ℕ × List ℕ))
unfolding decode_copied until_end
decode_kiss n old input = decode_copied n old (until_end (drop 18 input))
