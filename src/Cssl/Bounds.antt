-- ===== src/Cssl/Bounds.antt =====
-- Where `cssl_getslip` of libraries/device/general/cssl_lib.cpp writes, whatever comes over the line.
use core_cleanup_test.Base.{
  ℕ, zero, suc, ◌+◌, ◌<◌, ◌≤◌, ◌≡◌, refl, ◌∙◌, arith, List, [], ◌∷◌, Bool, true, false, ◌==◌, ltb,
  if◌then◌else◌, set, drop, Option, none, some,
}
use core_cleanup_test.Slip.{fend, fesc, tfend, tfesc}
use core_cleanup_test.Serial.{Answer, got, failed}
use core_cleanup_test.Serial.Receiving.{Received}
use core_cleanup_test.Cssl.Reading.{
  look_for, getslip_loop, getslip_begun, getslip, slip_failure, cssl_error_slipin,
  cssl_error_slipout,
}

-- At most `size` bytes are counted, and the buffer is as before from `size` on.
abbrev pub IsWithin : ℕ → List ℕ → Received → Type 0
IsWithin size buf (got n, buf', line) = (n ≤ size) × (drop size buf' ≡ drop size buf)
IsWithin size buf (failed errno, buf', line) = drop size buf' ≡ drop size buf

drop-set : (size i v : ℕ) (buf : List ℕ) → i < size → drop size (set buf i v) ≡ drop size buf
drop-set size i v [] h = refl
drop-set zero i v (x ∷ buf) h = absurd (omega (arith, h))
drop-set (suc size) zero v (x ∷ buf) h = refl
drop-set (suc size) (suc i) v (x ∷ buf) h = drop-set size i v buf (omega (arith, h))

if-IsWithin :
    (b : Bool) (size : ℕ) (buf : List ℕ) (r r' : Received)
    → (b ≡ true → IsWithin size buf r)
    → (b ≡ false → IsWithin size buf r')
    → IsWithin size buf (if b then r else r')
if-IsWithin true size buf r r' h k = h refl
if-IsWithin false size buf r r' h k = k refl

moved-IsWithin :
    (size : ℕ) (buf buf' : List ℕ) (r : Received)
    → drop size buf' ≡ drop size buf
    → IsWithin size buf' r
    → IsWithin size buf r
moved-IsWithin size buf buf' (got n, buf2, line) e h = (h.0, h.1 ∙ e)
moved-IsWithin size buf buf' (failed errno, buf2, line) e h = h ∙ e

failure-IsWithin :
    (reason errno size : ℕ) (buf : List ℕ) (line : List Answer)
    → IsWithin size buf (slip_failure reason errno, buf, line)
failure-IsWithin reason errno size buf line = ground arith

never {ℓ} : {P : Type ℓ} → false ≡ true → P
never e = absurd (ground (arith, e))

getslip_loop-IsWithin :
    (line : List Answer) (escaped : Bool) (size i : ℕ) (buf : List ℕ)
    → i ≤ size
    → (escaped ≡ true → i < size)
    → IsWithin size buf (getslip_loop escaped size i buf line)
unfolding getslip_loop
getslip_loop-IsWithin [] escaped size i buf h k = refl
getslip_loop-IsWithin (failed errno ∷ line) false size i buf h k =
    failure-IsWithin cssl_error_slipout errno size buf line
getslip_loop-IsWithin (failed errno ∷ line) true size i buf h k =
    getslip_loop-IsWithin line false size (i + 1) buf (omega (arith, k refl)) never
getslip_loop-IsWithin (got c ∷ line) false size i buf h k =
    let done : Received = (got i, buf, line) in
    let kept = getslip_loop false size (i + 1) (set buf i c) line in
    let skipped = getslip_loop false size i buf line in
    let escaping = getslip_loop true size i buf line in
    if-IsWithin (ltb i size) size buf _ _
      (λ p.
        let p' : i < size = ground (arith, p) in
        if-IsWithin (c == fesc) size buf escaping _
          (λ q. getslip_loop-IsWithin line true size i buf h (λ e. p'))
          (λ q.
            if-IsWithin (c == fend) size buf done kept (λ r. (h, refl))
              (λ r. moved-IsWithin size buf (set buf i c) kept (drop-set size i c buf p') (
                getslip_loop-IsWithin line false size (i + 1) (set buf i c) (omega (arith, p'))
                  never))))
      (λ p.
        if-IsWithin (c == fend) size buf done skipped (λ r. (h, refl))
          (λ r. getslip_loop-IsWithin line false size i buf h never))
getslip_loop-IsWithin (got c ∷ line) true size i buf h k =
    let buf' = if c == tfend then set buf i fend else if c == tfesc then set buf i fesc else buf in
    let later = getslip_loop false size (i + 1) buf' line in
    let same : drop size buf' ≡ drop size buf =
      ground (arith, drop-set size i fend buf (k refl), drop-set size i fesc buf (k refl)) in
    if-IsWithin (c == fend) size buf (got (i + 1), buf', line) later
      (λ r. (omega (arith, k refl), same))
      (λ r.
        moved-IsWithin size buf buf' later same
          (getslip_loop-IsWithin line false size (i + 1) buf' (omega (arith, k refl)) never))

begun-IsWithin :
    (start : Option ℕ × List Answer) (size : ℕ) (buf : List ℕ)
    → IsWithin size buf (getslip_begun size buf start)
unfolding getslip_begun
begun-IsWithin (some errno, line) size buf = failure-IsWithin cssl_error_slipin errno size buf line
begun-IsWithin (none, line) size buf =
    getslip_loop-IsWithin line false size 0 buf (omega arith) never

-- Whatever comes over the line, `cssl_getslip` leaves the buffer as it was from index `size` on,
-- and the number that it returns is an error or at most `size`.
pub getslip-IsWithin :
    (size : ℕ) (buf : List ℕ) (line : List Answer) → IsWithin size buf (getslip size buf line)
unfolding getslip
getslip-IsWithin size buf line = begun-IsWithin (look_for fend line) size buf
