-- ===== src/Serial/Attempts.antt =====
-- What the calls of `Serial::get_char` of libraries/device/serial/serialclass.cpp return, one after
-- the other.
use core_cleanup_test.Base.{◌≡◌, refl, arith, List, [], ◌∷◌, not, ◌&&◌, ◌==◌, if◌then◌else◌}
use core_cleanup_test.Serial.{
  Answer, got, failed, eagain, Reading, arrived, nothing, broken, get_char,
}
use core_cleanup_test.Serial.Receiving.{taken}

-- An outcome for each reading that ends a call.
unfoldable pub answers : List Reading → List Answer
answers [] = []
answers (arrived c ∷ later) = got c ∷ answers later
answers (nothing late ∷ later) =
    let more = answers later in if late then failed eagain ∷ more else more
answers (broken errno late ∷ later) =
    let more = answers later in if (errno == eagain) && not late then more else failed errno ∷ more

-- `Serial::get_char` with its loop over the attempts to read returns the next of the outcomes that
-- the attempts leave, in which an attempt without a byte counts only if the time is over, and the
-- outcomes behind it are those of the attempts behind.
pub taken-answers :
    (line : List Reading)
    → let (a, later) = get_char line in taken (answers line) ≡ (a, answers later)
unfolding answers get_char
taken-answers [] = refl
taken-answers (arrived c ∷ later) = refl
taken-answers (nothing late ∷ later) = ground (arith, taken-answers later)
taken-answers (broken errno late ∷ later) = ground (arith, taken-answers later)
