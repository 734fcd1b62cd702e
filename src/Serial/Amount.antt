-- ===== src/Serial/Amount.antt =====
-- `Serial::get_data` and `Serial::get_string` of libraries/device/serial/serialclass.cpp: how much is
-- read.
use mathlib.Core.List.{append_assoc, append-nil}
use core_cleanup_test.Base.{ℕ, ◌+◌, ◌%◌, ◌<◌, ◌≤◌, ◌≡◌, ◌≢◌, arith, List, [], ◌∷◌, ◌++◌, length}
use core_cleanup_test.Serial.{Answer, got, failed, eagain}
use core_cleanup_test.Serial.Receiving.{get_data}
use core_cleanup_test.Serial.Slip.{arriving}

get_data_whole :
    (bytes old : List ℕ) (line : List Answer) (size i : ℕ)
    → i + length bytes ≡ size
    → size < 65536
    → get_data size i old (arriving bytes ++ line) ≡ (got size, old ++ bytes, line)
unfolding get_data
get_data_whole [] old [] size i e h = rw append-nil (ground (arith, e))
get_data_whole [] old (got c ∷ line) size i e h = rw append-nil (ground (arith, e))
get_data_whole [] old (failed errno ∷ line) size i e h = rw append-nil (ground (arith, e))
get_data_whole (b ∷ more) old line size i e h =
    let w : (i + 1) % 65536 ≡ i + 1 = omega (arith, e, h) in
    let later = get_data_whole more (old ++ (b ∷ [])) line size (i + 1) (omega (arith, e)) h in
    rw w (ground (arith, e, later, append_assoc old (b ∷ []) more))

get_data_short :
    (bytes old : List ℕ) (size i : ℕ)
    → i + length bytes < size
    → size < 65536
    → get_data size i old (arriving bytes) ≡ (failed eagain, old ++ bytes, [])
unfolding get_data
get_data_short [] old size i e h = rw append-nil (ground (arith, e))
get_data_short (b ∷ more) old size i e h =
    let w : (i + 1) % 65536 ≡ i + 1 = omega (arith, e, h) in
    let later = get_data_short more (old ++ (b ∷ [])) size (i + 1) (omega (arith, e)) h in
    rw w (ground (arith, e, later, append_assoc old (b ∷ []) more))

pub get_data-arriving :
    (bytes old : List ℕ) (line : List Answer) (size : ℕ)
    → size < 65536
    → (length bytes ≡ size
        → get_data size 0 old (arriving bytes ++ line) ≡ (got size, old ++ bytes, line))
      × (length bytes < size
          → get_data size 0 old (arriving bytes) ≡ (failed eagain, old ++ bytes, []))
get_data-arriving bytes old line size h = (
  (λ e. get_data_whole bytes old line size 0 (omega (arith, e)) h),
  λ e. get_data_short bytes old size 0 (omega (arith, e)) h,
)

pub get_data_endless :
    (line : List Answer) (old : List ℕ) (size i : ℕ)
    → i < 65536
    → 65536 ≤ size
    → (get_data size i old line).0 ≢ got size
unfolding get_data
get_data_endless [] old size i h k = ground (arith, h, k)
get_data_endless (failed errno ∷ line) old size i h k = ground (arith, h, k)
get_data_endless (got c ∷ line) old size i h k =
    ground
      (arith, h, k, get_data_endless line (old ++ (c ∷ [])) size ((i + 1) % 65536) (omega arith) k)
