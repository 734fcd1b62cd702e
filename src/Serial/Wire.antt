-- ===== src/Serial/Wire.antt =====
-- What `Serial::put_slip` and `Serial::put_nmea` of libraries/device/serial/serialclass.cpp put on
-- the line.
use mathlib.Core.List.{append_assoc, append-nil}
use core_cleanup_test.Base.{
  ℕ, zero, suc, ◌+◌, ◌<◌, ◌≡◌, refl, sym, ◌∙◌, arith, List, [], ◌∷◌, ◌++◌, true, ◌==◌, length,
  length-append, take, replicate, Bool-cases, inl, inr,
}
use core_cleanup_test.Slip.{fend, fesc, tfend, tfesc}
use core_cleanup_test.Slip.Framing.{escape, frame}
use core_cleanup_test.Serial.{
  Answer, got, failed, Writing, accepted, refused, Port, write, put_char, put, ◌&>◌, put_written,
}
use core_cleanup_test.Serial.Sending.{
  put_slip_loop, put_slip, put_nmea, put_nmea_loop, sum_loop, first_digit, second_digit,
}

-- An open port.
abbrev pub port : Answer → List Writing → List ℕ → Port
port error writes sent = record { is_open = true; error = error; writes = writes; sent = sent }

-- Bytes put one after the other, up to the first error.
unfoldable pub puts : List ℕ → Port → Answer × Port
unfolding put_char
puts [] p = (got 0, p)
puts (b ∷ more) p = put b p &> puts more

bind_assoc : (r : Answer × Port) (f g : Port → Answer × Port) → r &> f &> g ≡ r &> λ q. f q &> g
bind_assoc (got n, p) f g = refl
bind_assoc (failed errno, p) f g = refl

bind_same :
    (r : Answer × Port) {f g : Port → Answer × Port} → ((q : Port) → f q ≡ g q) → r &> f ≡ r &> g
bind_same (got n, p) h = h p
bind_same (failed errno, p) h = refl

puts-cons :
    (b : ℕ) (more : List ℕ) (p : Port) (f : Port → Answer × Port)
    → puts (b ∷ more) p &> f ≡ put b p &> λ q. puts more q &> f
unfolding puts put_char
puts-cons b more p f = bind_assoc (put b p) (puts more) f

one_put :
    (b n : ℕ) (rest : List ℕ) (p : Port) (f : Port → Answer × Port)
    → ((q : Port) → f q ≡ puts rest q &> λ q'. (got n, q'))
    → put b p &> f ≡ puts (b ∷ rest) p &> λ q. (got n, q)
unfolding put_char
one_put b n rest p f h = bind_same (put b p) h ∙ sym (puts-cons b rest p (λ q. (got n, q)))

two_puts :
    (a b n : ℕ) (rest : List ℕ) (p : Port) (f : Port → Answer × Port)
    → ((q : Port) → f q ≡ puts rest q &> λ q'. (got n, q'))
    → put a p &> put b &> f ≡ puts (a ∷ b ∷ rest) p &> λ q. (got n, q)
unfolding put_char
two_puts a b n rest p f h =
    bind_assoc (put a p) (put b) f
    ∙ one_put a n (b ∷ rest) p (λ q. put b q &> f) (λ q. one_put b n rest q f h)

-- The routine for frames puts the frame, and counts the escaped bytes.
put_slip_loop-puts :
    (bytes : List ℕ) (i n : ℕ)
    → n ≡ i + length (escape bytes)
    → (p : Port) → put_slip_loop bytes i p ≡ puts (escape bytes ++ (fend ∷ [])) p &> λ q. (got n, q)
unfolding put_slip_loop escape put_char
put_slip_loop-puts [] i n e p =
    let e' : n ≡ i = omega (arith, e) in
    rw e' (one_put fend i [] p (λ q. (got i, q)) (λ q. unfold puts in refl))
put_slip_loop-puts (b ∷ more) i n e p = elim (Bool-cases (b == fend)) [
  | inl h ↦ rw h (
      two_puts fesc tfend n (escape more ++ (fend ∷ [])) p (put_slip_loop more (i + 2))
        (put_slip_loop-puts more (i + 2) n (ground (arith, e))))
  | inr h ↦ elim (Bool-cases (b == fesc)) [
    | inl k ↦
        rw (h, k)
          (two_puts fesc tfesc n (escape more ++ (fend ∷ [])) p (put_slip_loop more (i + 2))
            (put_slip_loop-puts more (i + 2) n (ground (arith, e))))
    | inr k ↦
        rw (h, k)
          (one_put b n (escape more ++ (fend ∷ [])) p (put_slip_loop more (i + 1))
            (put_slip_loop-puts more (i + 1) n (ground (arith, e))))
  ]
]

put_slip-puts :
    (bytes sent : List ℕ) (e : Answer) (ws : List Writing)
    → put_slip bytes (port e ws sent)
      ≡ puts (frame bytes) (port e ws sent) &> λ q. (got (length (escape bytes)), q)
unfolding put_slip frame put_char
put_slip-puts bytes sent e ws =
    let n = length (escape bytes) in
    one_put fend n (escape bytes ++ (fend ∷ [])) (port e ws sent) (put_slip_loop bytes 0)
      (put_slip_loop-puts bytes 0 n (omega arith))

puts-port :
    (b : ℕ) (more : List ℕ) (e : Answer) (s : List ℕ)
    → puts (b ∷ more) (port e [] s) ≡ (got 0, port (got 0) [] (s ++ (b ∷ more)))
unfolding puts put_char write put_written
puts-port b [] e s = refl
puts-port b (c ∷ more) e s = puts-port c more (got 0) (s ++ (b ∷ [])) ∙ rw append_assoc refl

puts-refused :
    (bytes : List ℕ) (n errno : ℕ) (ws : List Writing) (e : Answer) (s : List ℕ)
    → n < length bytes
    → puts bytes (port e (replicate n (accepted 1) ++ (refused errno ∷ ws)) s)
      ≡ (failed errno, port (failed errno) ws (s ++ take n bytes))
unfolding puts put_char write put_written
puts-refused [] n errno ws e s h = absurd (omega (arith, h))
puts-refused (b ∷ more) zero errno ws e s h = rw append-nil refl
puts-refused (b ∷ more) (suc n) errno ws e s h =
    puts-refused more n errno ws (got 0) (s ++ (b ∷ [])) (omega (arith, h)) ∙ rw append_assoc refl

pub put_slip-frame :
    (bytes sent : List ℕ) (e : Answer)
    → put_slip bytes (port e [] sent)
      ≡ (got (length (escape bytes)), port (got 0) [] (sent ++ frame bytes))
unfolding frame
put_slip-frame bytes sent e =
    put_slip-puts bytes sent e [] ∙ rw (puts-port fend (escape bytes ++ (fend ∷ [])) e sent) refl

-- Where an open port takes the first `n` bytes one by one and refuses the next, and `n` is less
-- than the length of the frame, `Serial::put_slip` returns that error and keeps it in `error`, and
-- exactly the first `n` bytes of the frame were sent.
pub put_slip-refused :
    (bytes sent : List ℕ) (e : Answer) (n errno : ℕ) (ws : List Writing)
    → n < length (frame bytes)
    → put_slip bytes (port e (replicate n (accepted 1) ++ (refused errno ∷ ws)) sent)
      ≡ (failed errno, port (failed errno) ws (sent ++ take n (frame bytes)))
put_slip-refused bytes sent e n errno ws h =
    put_slip-puts bytes sent e (replicate n (accepted 1) ++ (refused errno ∷ ws))
    ∙ rw (puts-refused (frame bytes) n errno ws e sent h) refl

-- A whole sentence.
unfoldable pub sentence : List ℕ → List ℕ
unfolding sum_loop first_digit second_digit
sentence bytes =
    let cs = sum_loop 0 bytes in
    b'$' ∷ (bytes ++ (b'*' ∷ first_digit cs ∷ second_digit cs ∷ 10 ∷ []))

put_nmea_loop-port :
    (bytes : List ℕ) (s : List ℕ)
    → put_nmea_loop bytes (port (got 0) [] s) ≡ port (got 0) [] (s ++ bytes)
unfolding put_nmea_loop put_char write put_written
put_nmea_loop-port [] s = rw append-nil refl
put_nmea_loop-port (b ∷ more) s = put_nmea_loop-port more (s ++ (b ∷ [])) ∙ rw append_assoc refl

pub put_nmea-sentence :
    (bytes sent : List ℕ) (e : Answer)
    → put_nmea bytes (port e [] sent)
      ≡ (got (length (sentence bytes)), port (got 0) [] (sent ++ sentence bytes))
unfolding put_nmea sentence put_char write put_written
put_nmea-sentence bytes sent e =
    let cs = sum_loop 0 bytes in
    let tail = b'*' ∷ first_digit cs ∷ second_digit cs ∷ 10 ∷ [] in
    let n : suc (length (bytes ++ tail)) ≡ length bytes + 5 =
      omega (arith, length-append bytes tail) in
    rw (n, put_nmea_loop-port bytes (sent ++ (b'$' ∷ []))) (simp append_assoc)
