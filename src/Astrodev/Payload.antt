-- ===== src/Astrodev/Payload.antt =====
-- Lemmas on the checksum of a payload of libraries/device/astrodev/astrodev_lib.cpp.
use Prim.Native.Nat.{◌*◌}
use core_cleanup_test.Base.{
  ℕ, zero, suc, ◌+◌, ◌/◌, ◌%◌, ◌^◌, ◌<◌, ◌≤◌, ◌≡◌, refl, ap, ◌∙◌, arith, List, [], ◌∷◌, true, false,
  ◌==◌, leb, length, take, set, get_or, length-set,
}
use core_cleanup_test.Base.Result.{ok}
use core_cleanup_test.Astrodev.{
  Frame, replied, set_size, from_type, cs_loop, calc_cs, set_payload, check_payload,
}

-- The payload with a checksum behind its first `size` bytes.
unfoldable pub summed : ℕ → ℕ → List ℕ → List ℕ
summed size cs payload = set (set payload size (cs % 256)) (size + 1) (cs / 256)

pub calc_cs-fits :
    (data_bytes : List ℕ) (n : ℕ)
    → n ≤ length data_bytes
    → calc_cs data_bytes n ≡ ok (cs_loop 0 0 (take n data_bytes))
unfolding calc_cs
calc_cs-fits data_bytes n h = ground (arith, h)

take-set : (n i v : ℕ) (xs : List ℕ) → n ≤ i → take n (set xs i v) ≡ take n xs
take-set zero i v xs h = refl
take-set (suc n) i v [] h = refl
take-set (suc n) zero v (x ∷ xs) h = absurd (omega (arith, h))
take-set (suc n) (suc i) v (x ∷ xs) h = ap (λ l. x ∷ l) (take-set n i v xs (omega (arith, h)))

get_or-set : (xs : List ℕ) (i v d : ℕ) → i < length xs → get_or (set xs i v) i d ≡ v
get_or-set [] i v d h = absurd (omega (arith, h))
get_or-set (x ∷ xs) zero v d h = refl
get_or-set (x ∷ xs) (suc i) v d h = get_or-set xs i v d (omega (arith, h))

get_or-set_ne : (xs : List ℕ) (i j v d : ℕ) → i < j → get_or (set xs j v) i d ≡ get_or xs i d
get_or-set_ne [] i j v d h = refl
get_or-set_ne (x ∷ xs) i zero v d h = absurd (omega (arith, h))
get_or-set_ne (x ∷ xs) zero (suc j) v d h = refl
get_or-set_ne (x ∷ xs) (suc i) (suc j) v d h = get_or-set_ne xs i j v d (omega (arith, h))

pub length-summed :
    (size cs : ℕ) (payload : List ℕ) → length (summed size cs payload) ≡ length payload
unfolding summed
length-summed size cs payload =
    length-set (set payload size (cs % 256)) (size + 1) (cs / 256)
    ∙ length-set payload size (cs % 256)

pub take-summed :
    (size cs : ℕ) (payload : List ℕ) → take size (summed size cs payload) ≡ take size payload
unfolding summed
take-summed size cs payload =
    take-set size (size + 1) (cs / 256) (set payload size (cs % 256)) (omega arith)
    ∙ take-set size size (cs % 256) payload (omega arith)

-- The checksum is read back from where it stands.
pub read-summed :
    (size cs : ℕ) (payload : List ℕ)
    → size + 1 < length payload
    → get_or (summed size cs payload) size 0 + 256 * get_or (summed size cs payload) (size + 1) 0
      ≡ cs
unfolding summed
read-summed size cs payload h =
    let inner = set payload size (cs % 256) in
    let low =
      get_or-set_ne inner size (size + 1) (cs / 256) 0 (omega arith)
      ∙ get_or-set payload size (cs % 256) 0 (omega (arith, h)) in
    let high =
      get_or-set inner (size + 1) (cs / 256) 0
        (omega (arith, h, length-set payload size (cs % 256))) in
    rw (low, high) (omega arith)

pub six_more : (n : ℕ) → 6 + n ≡ suc (suc (suc (suc (suc (suc n)))))
six_more n = omega arith

pub take_front :
    (g : Frame) (payload : List ℕ) (n : ℕ)
    → take n payload ≡ take n g.payload
    → take (6 + n) (from_type (set_payload payload g)) ≡ take (6 + n) (from_type g)
take_front g payload n e =
    rw (six_more n) (ap (λ l. g.type ∷ g.command ∷ g.size0 ∷ g.size1 ∷ g.cs0 ∷ g.cs1 ∷ l) e)

-- A payload with the right bytes and the right checksum behind them passes.
pub check_payload-sum :
    (g : Frame) (payload : List ℕ) (size : ℕ)
    → length payload ≡ 274
    → size ≤ 272
    → take size payload ≡ take size g.payload
    → get_or payload size 0 + 256 * get_or payload (size + 1) 0
      ≡ cs_loop 0 0 (take (6 + size) (from_type g))
    → let g' = set_payload payload g in
      check_payload g' size ≡ ok (replied g.command, set_size size g')
unfolding check_payload
check_payload-sum g payload size room fits bytes sum =
    let cs = cs_loop 0 0 (take (6 + size) (from_type g)) in
    let wide : (6 + size) % 2 ^ 16 ≡ 6 + size = omega (arith, fits) in
    let inside : leb (length payload) (size + 1) ≡ false = ground (arith, fits, room) in
    let six = take_front g payload size bytes in
    let equal : (cs == cs) ≡ true = ground arith in
    rw
      (
        inside,
        wide,
        calc_cs-fits (from_type (set_payload payload g)) (6 + size) (omega (arith, fits, room)),
        six,
        sum,
        equal,
      )
      refl

pub check_payload-summed :
    (g : Frame) (size : ℕ)
    → length g.payload ≡ 274
    → size ≤ 272
    → let cs = cs_loop 0 0 (take (6 + size) (from_type g)) in
      let g' = set_payload (summed size cs g.payload) g in
      check_payload g' size ≡ ok (replied g.command, set_size size g')
check_payload-summed g size room fits =
    let cs = cs_loop 0 0 (take (6 + size) (from_type g)) in
    check_payload-sum g (summed size cs g.payload) size (length-summed size cs g.payload ∙ room)
      fits (take-summed size cs g.payload)
      (read-summed size cs g.payload (omega (arith, fits, room)))
