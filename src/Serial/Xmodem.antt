-- ===== src/Serial/Xmodem.antt =====
-- Blocks received by `Serial::get_xmodem` of libraries/device/serial/serialclass.cpp.
use mathlib.Core.List.{append_assoc, append-nil}
use core_cleanup_test.Base.{
  ℕ, zero, suc, ◌+◌, ◌-◌, ◌%◌, ◌≡◌, refl, ap, sym, ◌∙◌, arith, List, [], ◌∷◌, ◌++◌, true, false,
  length, Bool, Bool-cases, inl, inr, if◌then◌else◌, ==_iff,
}
use core_cleanup_test.Serial.{Answer, got, failed, eagain, serial_error_checksum}
use core_cleanup_test.Serial.Receiving.{
  Received, taken, byte_of, is_got, get_block, numbered, get_xmodem,
}
use core_cleanup_test.Serial.Slip.{arriving}

-- The sum of the bytes in 8 bits.
unfoldable pub sum8 : ℕ → List ℕ → ℕ
sum8 cs [] = cs
sum8 cs (b ∷ more) = sum8 ((cs + b) % 256) more

is_got-true : (c : ℕ) (a : Answer) → is_got c a ≡ true → a ≡ got c
is_got-true c (got d) h = ap got (sym ((==_iff c d).0 h))
is_got-true c (failed errno) h = absurd (ground (arith, h))

-- The calls were those of `m` bytes and of their sum, and the bytes were appended.
pub record IsBlock (m csum : ℕ) (old bytes : List ℕ) (line rest : List Answer) : Type 0 where
  pub block : List ℕ
  pub long : length block ≡ m
  pub summed : line ≡ arriving block ++ (got (sum8 csum block) ∷ rest)
  pub appended : bytes ≡ old ++ block

IsBlock-end :
    (b : Bool) (n k csum : ℕ) (a : Answer) (old bytes : List ℕ) (line rest : List Answer)
    → (b ≡ true → a ≡ got csum)
    → if◌then◌else◌ {A = Received} b (got n, old, line) (failed serial_error_checksum, old, line)
      ≡ (got k, bytes, rest)
    → (k ≡ n) × IsBlock 0 csum old bytes (a ∷ line) rest
unfolding sum8
IsBlock-end true n k csum a old bytes line rest h e = (
  ground (arith, e),
  record {
    block = [];
    long = refl;
    summed = rw (h refl) (ground (arith, e));
    appended = rw append-nil (ground (arith, e));
  },
)
IsBlock-end false n k csum a old bytes line rest h e = absurd (ground (arith, e))

get_block-IsBlock :
    (m n csum k : ℕ) (old bytes : List ℕ) (line rest : List Answer)
    → get_block m n csum old line ≡ (got k, bytes, rest)
    → (k ≡ n) × IsBlock m csum old bytes line rest
unfolding get_block sum8
get_block-IsBlock zero n csum k old bytes [] rest e = absurd (ground (arith, e))
get_block-IsBlock zero n csum k old bytes (a ∷ line) rest e =
    IsBlock-end (is_got csum a) n k csum a old bytes line rest (is_got-true csum a) e
get_block-IsBlock (suc m) n csum k old bytes [] rest e = absurd (ground (arith, e))
get_block-IsBlock (suc m) n csum k old bytes (failed errno ∷ line) rest e =
    absurd (ground (arith, e))
get_block-IsBlock (suc m) n csum k old bytes (got c ∷ line) rest e =
    let (same, later) =
      get_block-IsBlock m n ((csum + c) % 256) k (old ++ (c ∷ [])) bytes line rest e in
    (
      same,
      record {
        block = c ∷ later.block;
        long = ap suc later.long;
        summed = ap (λ l. got c ∷ l) later.summed;
        appended = later.appended ∙ append_assoc old (c ∷ []) later.block;
      },
    )

get_block-arriving :
    (block old : List ℕ) (n csum : ℕ) (line : List Answer)
    → get_block (length block) n csum old (arriving block ++ (got (sum8 csum block) ∷ line))
      ≡ (got n, old ++ block, line)
unfolding get_block sum8
get_block-arriving [] old n csum line = rw append-nil (ground arith)
get_block-arriving (c ∷ block) old n csum line =
    get_block-arriving block (old ++ (c ∷ [])) n ((csum + c) % 256) line ∙ rw append_assoc refl

is_got_self : (c : ℕ) → is_got c (got c) ≡ true
is_got_self c = ground arith

pub get_xmodem-block :
    (block old : List ℕ) (n : ℕ) (line : List Answer)
    → length block ≡ 128
    → get_xmodem old
        (got 1 ∷ got n ∷ got (255 - n) ∷ (arriving block ++ (got (sum8 0 block) ∷ line)))
      ≡ (got n, old ++ block, line)
unfolding get_xmodem numbered
get_xmodem-block block old n line h =
    let e = get_block-arriving block old n 0 line in rw (is_got_self (255 - n)) (rw h at e)

-- The head of a block, with what was read for its number, and its body.
pub record IsXmodem (k : ℕ) (old bytes : List ℕ) (line rest : List Answer) : Type 0 where
  pub number : Answer
  pub behind : List Answer
  pub head : line ≡ got 1 ∷ number ∷ got (255 - k) ∷ behind
  pub same : byte_of number ≡ k
  pub body : IsBlock 128 0 old bytes behind rest

numbered_sound :
    (b c : Answer) (k : ℕ) (old bytes : List ℕ) (line rest : List Answer)
    → numbered b c old line ≡ (got k, bytes, rest)
    → (c ≡ got (255 - k)) × (byte_of b ≡ k) × IsBlock 128 0 old bytes line rest
unfolding numbered
numbered_sound b c k old bytes line rest e = elim (Bool-cases (is_got (255 - byte_of b) c)) [
  | inl h ↦
      let (same, body) = get_block-IsBlock 128 (byte_of b) 0 k old bytes line rest (rw h at e) in
      (is_got-true (255 - byte_of b) c h ∙ rw same refl, sym same, body)
  | inr h ↦ absurd (ground (arith, rw h at e))
]

begun :
    (a : Answer) (k : ℕ) (old bytes : List ℕ) (line rest : List Answer)
    → get_xmodem old (a ∷ line) ≡ (got k, bytes, rest)
    → (a ≡ got 1)
      × (let (b, line2) = taken line in
          let (c, line3) = taken line2 in numbered b c old line3 ≡ (got k, bytes, rest))
unfolding get_xmodem
begun a k old bytes line rest e = elim (Bool-cases (is_got 0x01 a)) [
  | inl h ↦ (is_got-true 1 a h, rw h at e)
  | inr h ↦ absurd (ground (arith, rw h at e))
]

-- Where `Serial::get_xmodem` returns a number, the calls of `get_char` gave the start byte, what
-- is read as that number in 8 bits, 255 less that number, 128 bytes and their sum in 8 bits, and
-- exactly those 128 bytes were appended to the vector.
pub get_xmodem_sound :
    (old bytes : List ℕ) (line rest : List Answer) (k : ℕ)
    → get_xmodem old line ≡ (got k, bytes, rest)
    → IsXmodem k old bytes line rest
get_xmodem_sound old bytes [] rest k e = absurd (unfold get_xmodem numbered in ground (arith, e))
get_xmodem_sound old bytes (a ∷ []) rest k e =
    let e' = begun a k old bytes [] rest e in
    absurd (ground (arith, numbered_sound (failed eagain) (failed eagain) k old bytes [] rest e'.1))
get_xmodem_sound old bytes (a ∷ b ∷ []) rest k e =
    let e' = begun a k old bytes (b ∷ []) rest e in
    absurd (ground (arith, numbered_sound b (failed eagain) k old bytes [] rest e'.1))
get_xmodem_sound old bytes (a ∷ b ∷ c ∷ line) rest k e =
    let (first, e') = begun a k old bytes (b ∷ c ∷ line) rest e in
    let (second, same, body) = numbered_sound b c k old bytes line rest e' in
    record { number = b; behind = line; head = rw (first, second) refl; same = same; body = body }
