-- ===== src/Astrodev/Line.antt =====
-- libraries/device/astrodev/astrodev_lib.cpp: frames over the serial line, and the commands. What a
-- failed call has left in the frame is kept, as far as the bytes that were read.
use Prim.Native.Nat.{◌*◌}
use core_cleanup_test.Base.{
  ℕ, zero, suc, ◌+◌, List, [], ◌∷◌, ◌++◌, Bool, true, false, ◌==◌, ltb, leb, if◌then◌else◌, length,
  take, set,
}
use core_cleanup_test.Base.Result.{Result, ok, fault, ◌>>=◌}
use core_cleanup_test.Astrodev.{
  Frame, RadioReply, replied, error_sync0, error_sync1, error_header, error_header_cs, error_nack,
  error_payload, header_size, header_cs, set_size, from_type, calc_cs, set_payload, setupframe,
  is_simple, check_payload, loadframe, unloadframe,
}

-- A frame, the bytes to come and the bytes sent.
pub record Handle : Type 0 where
  pub frame : Frame
  pub incoming : List ℕ
  pub sent : List ℕ

-- `preamble[i] = v`, for the bytes of the header.
abbrev pub set_preamble : ℕ → ℕ → Frame → Frame
set_preamble i v f = record {
  sync0 = if i == 0 then v else f.sync0;
  sync1 = if i == 1 then v else f.sync1;
  type = if i == 2 then v else f.type;
  command = if i == 3 then v else f.command;
  size0 = if i == 4 then v else f.size0;
  size1 = if i == 5 then v else f.size1;
  cs0 = if i == 6 then v else f.cs0;
  cs1 = if i == 7 then v else f.cs1;
  payload = f.payload;
}

-- The wait for the first byte of a frame: whether it came, and the bytes behind it.
unfoldable pub wait_sync0 : List ℕ → Bool × List ℕ
wait_sync0 [] = (false, [])
wait_sync0 (ch ∷ line) = let later = wait_sync0 line in if ch == b'H' then (true, line) else later

-- The loop over the bytes of the header from `i` on, with their number.
unfoldable pub read_header : ℕ → ℕ → Frame → List ℕ → Bool × Frame × List ℕ
read_header zero i f line = (true, f, line)
read_header (suc n) i f [] = (false, f, [])
read_header (suc n) i f (ch ∷ line) = read_header n (i + 1) (set_preamble i ch f) line

-- The loop over the bytes of the payload.
unfoldable pub read_payload : ℕ → ℕ → List ℕ → List ℕ → Result (Bool × List ℕ × List ℕ)
read_payload zero i payload line = ok (true, payload, line)
read_payload (suc n) i payload [] = ok (false, payload, [])
read_payload (suc n) i payload (ch ∷ line) =
    let more = read_payload n (i + 1) (set payload i ch) line in
    if leb (length payload) i then fault else more

-- `astrodev_recvframe` from behind the header on.
unfoldable pub recv_payload : Frame → List ℕ → Result (RadioReply × Frame × List ℕ)
unfolding calc_cs read_payload check_payload
recv_payload f line = calc_cs (from_type f) 4 >>= λ cs.
    if cs == header_cs f
    then (if header_size f == 65535
        then ok (error_nack, f, line)
        else if is_simple f.command
        then ok (replied f.command, f, line)
        else (let size = f.size1 + 256 * f.size0 in
            read_payload (size + 2) 0 f.payload line >>= λ r.
            let (whole, payload, rest) = r in
            let f' = set_payload payload f in
            if whole
            then (check_payload f' size >>= λ c. ok (c.0, c.1, rest))
            else ok (error_payload, f', rest)))
    else ok (error_header_cs, f, line)

-- `astrodev_recvframe(handle)`
unfoldable pub recvframe : Frame → List ℕ → Result (RadioReply × Frame × List ℕ)
unfolding wait_sync0 read_header recv_payload
recvframe f line =
    let (came, line1) = wait_sync0 line in
    let f0 = set_preamble 0 b'H' f in
    if came
    then elim line1 [
      | [] ↦ ok (error_sync1, f0, [])
      | ch ∷ line2 ↦
          if ch == b'e'
          then (let (whole, f1, line3) = read_header 6 2 (set_preamble 1 ch f0) line2 in
              if whole then recv_payload f1 line3 else ok (error_header, f1, line3))
          else ok (error_sync1, f0, line2)
    ]
    else ok (error_sync0, f, line1)

-- `astrodev_sendframe(handle)`: the frame, and the bytes that go to the line. The number of bytes of
-- the payload is read from the header that `astrodev_setupframe` has written.
unfoldable pub sendframe : Frame → Result (Frame × List ℕ)
unfolding setupframe
sendframe f = do
  f' ← setupframe f
  let n = header_size f' + 2
  if ltb (length f'.payload) n
      then fault
      else ok (f', f'.sync0 ∷ f'.sync1 ∷ take (6 + n) (from_type f'))

abbrev pub set_command : ℕ → Frame → Frame
set_command command f = set_preamble 3 command f

-- `astrodev_sendframe` and then `astrodev_recvframe`, as all the commands call them. The commands
-- return zero in place of the command that `astrodev_recvframe` returns.
unfoldable pub exchange : Handle → Result (RadioReply × Handle)
unfolding sendframe recvframe
exchange h = do
  (f1, out) ← sendframe h.frame
  (reply, f2, rest) ← recvframe f1 h.incoming
  ok (reply, record { frame = f2; incoming = rest; sent = h.sent ++ out })

abbrev pub with_frame : (Frame → Frame) → Handle → Handle
with_frame change h = record { frame = change h.frame; incoming = h.incoming; sent = h.sent }

-- `astrodev_ping`, and the other commands that send no bytes of the caller.
unfoldable pub ping : Handle → Result (RadioReply × Handle)
unfolding exchange
ping h = exchange (with_frame (λ f. set_size 0 (set_command 0x01 f)) h)

unfoldable pub gettcvconfig : Handle → Result (RadioReply × Handle)
unfolding exchange
gettcvconfig h = exchange (with_frame (λ f. set_size 0 (set_command 0x05 f)) h)

unfoldable pub rfconfig : Handle → Result (RadioReply × Handle)
unfolding exchange
rfconfig h = exchange (with_frame (λ f. set_size 0 (set_command 0x09 f)) h)

unfoldable pub firmwarerev : Handle → Result (RadioReply × Handle)
unfolding exchange
firmwarerev h = exchange (with_frame (λ f. set_size 0 (set_command 0x12 f)) h)

unfoldable pub telemetry : Handle → Result (RadioReply × Handle)
unfolding exchange
telemetry h = exchange (with_frame (λ f. set_size 0 (set_command 0x07 f)) h)

-- `sizeof(astrodev_tcv_config)` is 36.
unfoldable pub settcvconfig : Handle → Result (RadioReply × Handle)
unfolding exchange
settcvconfig h = exchange (with_frame (λ f. set_size 36 (set_command 0x06 f)) h)

-- `astrodev_receive(handle, data, size)`: the bytes that are copied out of the answer.
unfoldable pub receive : Handle → ℕ → Result (RadioReply × Handle × List ℕ)
unfolding exchange unloadframe
receive h size = do
  (reply, h') ← exchange (with_frame (λ f. set_size 0 (set_command 0x04 f)) h)
  elim reply [
    | replied c ↦ unloadframe h'.frame size >>= λ r. ok (replied c, h', r.1)
    | other ↦ ok (other, h', [])
  ]

-- `astrodev_transmit(handle, data, size)`
unfoldable pub transmit : Handle → List ℕ → ℕ → Result (RadioReply × Handle)
unfolding exchange loadframe
transmit h data_bytes size =
    exchange (with_frame (λ f. (loadframe (set_command 0x03 f) data_bytes size).1) h)
