-- ===== src/FileAgent/Handlers/Requested.antt =====
-- What the PACKET_REQDATA case of programs/agents/agent_file.cpp makes of the list to send.
use core_cleanup_test.Base.{ℕ, ◌≡◌, arith, List, [], ◌∷◌, true, ◌||◌, All}
use core_cleanup_test.Transfer.{FileProgress}
use core_cleanup_test.FileAgent.Chunks.Coverage.{in_chunk, covered, IsChunk}
use core_cleanup_test.FileAgent.Handlers.{place_request}

-- For a hole and chunks that are not empty and end below 2^32 - 1, the list after a request covers
-- whatever it covered before, and besides only bytes of the hole.
pub place_request-covered :
    (tp : FileProgress) (count : ℕ) (cs : List FileProgress) (x : ℕ)
    → IsChunk tp
    → All IsChunk cs
    → (covered cs x ≡ true → covered (place_request tp count cs).0 x ≡ true)
      × (covered (place_request tp count cs).0 x ≡ true → (covered cs x || in_chunk tp x) ≡ true)
unfolding place_request
place_request-covered tp count [] x t h = (λ e. ground (arith, e), λ e. ground (arith, e))
place_request-covered tp count (c ∷ cs) x t h =
    let (more, only) = place_request-covered tp count cs x t h.1 in
    let a = t.ordered in
    let b = t.small in
    let d = h.0.ordered in
    let f = h.0.small in
    (λ e. ground (arith, e, more, a, b, d, f), λ e. ground (arith, e, only, a, b, d, f))
