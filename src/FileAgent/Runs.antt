-- ===== src/FileAgent/Runs.antt =====
-- Runs of the file agent's model on concrete transactions.
use core_cleanup_test.Base.{
  codes, ℕ, zero, suc, ◌+◌, ◌<◌, ◌≤◌, ◌≡◌, refl, arith, inl, List, [], ◌∷◌, Bool, true, false,
  get_elem?, ltb, ◌==◌, ◌&&◌, ◌||◌, not, if◌then◌else◌, none, some, All, get_or, replicate, leb,
}
use core_cleanup_test.Base.Counting.{count_below}
use core_cleanup_test.Base.Result.{ok, ◌>>=◌}
use core_cleanup_test.FileAgent.Send.{chunk_count, pop_done, send_chunk}
use core_cleanup_test.FileAgent.Send.Progress.{send_chunk-rest}
use core_cleanup_test.FileAgent.Meta.{TxMeta, write_meta, read_meta}
use core_cleanup_test.FileAgent.Meta.Restart.{read_meta-write_meta}
use core_cleanup_test.Transfer.{FileProgress, TxProgress}
use core_cleanup_test.FileAgent.Chunks.{merge_chunks_overlap, find_chunks_missing}
use core_cleanup_test.FileAgent.Chunks.Coverage.{in_chunk, covered, IsChunk, Separated}
use core_cleanup_test.FileAgent.Chunks.Merging.{merge_chunks_overlap_exact}
use core_cleanup_test.FileAgent.Chunks.Gaps.{find_chunks_missing_exact}
use core_cleanup_test.FileAgent.Receive.{DataChunk, chunk_of, receive_data, place}
use core_cleanup_test.FileAgent.Receive.Writing.{IsReceiving, IsNew, receive_data-IsReceiving}
use core_cleanup_test.FileAgent.Receive.Faults.{
  Overlaps, receive_data_misplaced, receive_data_reopened,
}
use core_cleanup_test.FileAgent.Queue.{
  TxEntry, TxQueue, choose_incoming_tx_id, check_node_name, find_node, merge_progress, choose_loop,
  choose_round,
}
use core_cleanup_test.FileAgent.Queue.Choosing.{
  is_candidate, bytes_left, choose_incoming_tx_id-least,
}
use core_cleanup_test.FileAgent.Transactions.{outgoing_tx_add_file}
use core_cleanup_test.FileAgent.Transactions.Tables.{taken, IsTable}
use core_cleanup_test.FileAgent.Transactions.Slots.{IsFree}
use core_cleanup_test.FileAgent.Transactions.Adding.{
  outgoing_tx, with_outgoing, outgoing_tx_add_file-adds,
}
use core_cleanup_test.FileAgent.Handlers.{take_queue, listed}
use core_cleanup_test.FileAgent.Handlers.{place_request}
use core_cleanup_test.FileAgent.Handlers.Requested.{place_request-covered}
use core_cleanup_test.FileAgent.Handlers.Queued.{take_queue-taken}

-- A file of four bytes.
abbrev file_bytes : List ℕ
file_bytes = 10 ∷ 20 ∷ 30 ∷ 40 ∷ []

abbrev source : ℕ → ℕ
source x = get_or file_bytes x 0

-- The transaction with the bytes of these chunks.
abbrev with_chunks : List FileProgress → ℕ → Bool → TxProgress
with_chunks cs total fp = record {
  tx_id = 1;
  havemeta = true;
  complete = false;
  node_name = "hiakasat";
  agent_name = "file";
  file_name = "a.txt";
  file_size = 4;
  total_bytes = total;
  file_info = cs;
  fp = fp;
  partial = λ x. if covered cs x then some (source x) else none;
}

abbrev span : ℕ → ℕ → FileProgress
span a b = record { chunk_start = a; chunk_end = b }

abbrev second_half : DataChunk
second_half = record { byte_count = 2; chunk_start = 2; chunk = 30 ∷ 40 ∷ [] }

first_half-IsReceiving : IsReceiving source 4 (with_chunks (span 0 1 ∷ []) 2 true)
first_half-IsReceiving = record {
  ordered = (omega arith, record { ordered = omega arith; small = omega arith }, tt);
  inside = (omega arith, tt);
  counted = refl;
  stored = λ x h. rw h refl;
  stream = inl refl;
}

second_half-bytes : (k : ℕ) → k < 2 → get_elem? (30 ∷ 40 ∷ []) k ≡ some (source (2 + k))
second_half-bytes zero h = refl
second_half-bytes (suc zero) h = refl
second_half-bytes (suc (suc k)) h = absurd (omega (arith, h))

second_half-IsNew : IsNew source 4 (with_chunks (span 0 1 ∷ []) 2 true) second_half
second_half-IsNew = record {
  some_bytes = omega arith;
  small = omega arith;
  fits = omega arith;
  bytes = second_half-bytes;
  unseen = λ x a b. ground (arith, a, b);
}

receive_data-IsReceiving_example :
    IsReceiving source 4 (receive_data true second_half (with_chunks (span 0 1 ∷ []) 2 true))
    × ((x : ℕ)
        → covered (receive_data true second_half (with_chunks (span 0 1 ∷ []) 2 true)).file_info x
          ≡ (covered (span 0 1 ∷ []) x || in_chunk (chunk_of second_half) x))
receive_data-IsReceiving_example =
    receive_data-IsReceiving source 4 (with_chunks (span 0 1 ∷ []) 2 true) second_half
      first_half-IsReceiving second_half-IsNew (omega arith)

all-IsReceiving : IsReceiving source 4 (with_chunks (span 0 1 ∷ span 2 3 ∷ []) 4 true)
all-IsReceiving = record {
  ordered = (
    omega arith,
    record { ordered = omega arith; small = omega arith },
    (omega arith, record { ordered = omega arith; small = omega arith }, tt),
  );
  inside = (omega arith, (omega arith, tt));
  counted = refl;
  stored = λ x h. rw h refl;
  stream = inl refl;
}

-- Three chunks, of which the first two overlap.
abbrev overlapping : List FileProgress
overlapping = span 3 5 ∷ span 0 4 ∷ span 8 9 ∷ []

overlapping-IsChunk : All IsChunk overlapping
overlapping-IsChunk = (
  record { ordered = omega arith; small = omega arith },
  (
    record { ordered = omega arith; small = omega arith },
    (record { ordered = omega arith; small = omega arith }, tt),
  ),
)

merge_chunks_overlap_exact_example :
    Separated 0 (merge_chunks_overlap overlapping).0
    × ((x : ℕ) → covered (merge_chunks_overlap overlapping).0 x ≡ covered overlapping x)
    × ((merge_chunks_overlap overlapping).1 ≡ count_below 12 (covered overlapping))
merge_chunks_overlap_exact_example =
    merge_chunks_overlap_exact overlapping 12 overlapping-IsChunk
      (omega arith, (omega arith, (omega arith, tt)))

find_chunks_missing_exact_example :
    ((x : ℕ)
      → covered (find_chunks_missing overlapping 12).missing x
        ≡ (ltb x 12 && not (covered overlapping x)))
    × ((x : ℕ) → covered (find_chunks_missing overlapping 12).file_info x ≡ covered overlapping x)
    × ((find_chunks_missing overlapping 12).total_bytes ≡ count_below 12 (covered overlapping))
find_chunks_missing_exact_example =
    find_chunks_missing_exact overlapping 12 overlapping-IsChunk
      (omega arith, (omega arith, (omega arith, tt))) (omega arith) (omega arith)

-- A packet for the bytes 1 to 3, of which byte 1 is there.
abbrev late : DataChunk
late = record { byte_count = 3; chunk_start = 1; chunk = 20 ∷ 30 ∷ 40 ∷ [] }

late-Overlaps : Overlaps (span 0 1) late
late-Overlaps = record {
  chunk = record { ordered = omega arith; small = omega arith };
  small = omega arith;
  fits = omega arith;
  after = omega arith;
  within = omega arith;
  longer = omega arith;
}

receive_data_misplaced_example :
    ((receive_data true late (with_chunks (span 0 1 ∷ []) 2 true)).partial 2 ≡ some 20) × (1 < 2)
receive_data_misplaced_example =
    receive_data_misplaced late (with_chunks (span 0 1 ∷ []) 2 true) (span 0 1) [] 2 refl
      late-Overlaps refl (omega arith) (omega arith)

receive_data_reopened_example :
    ((receive_data true second_half (with_chunks (span 0 1 ∷ []) 2 false)).partial 0 ≡ none)
    × (covered (receive_data true second_half (with_chunks (span 0 1 ∷ []) 2 false)).file_info 0
        ≡ true)
unfolding place chunk_of
receive_data_reopened_example =
    receive_data_reopened second_half (with_chunks (span 0 1 ∷ []) 2 false) 0
      (record {
        chunk = record { ordered = omega arith; small = omega arith };
        counted = refl;
        small = omega arith;
      })
      (record { ordered = omega arith; small = omega arith }, tt) refl refl refl

-- A table with one transaction, in slot 1.
abbrev free_slot : TxProgress
free_slot = record (with_chunks [] 0 false) { tx_id = 0; havemeta = false }

abbrev one_slot : ℕ → TxProgress
one_slot i = if i == 1 then with_chunks [] 0 false else free_slot

abbrev one_entry : TxEntry
one_entry = record { progress = one_slot; size = 1; id = 1; next_id = 1 }

one_entry-IsTable : IsTable one_entry
unfolding count_below
one_entry-IsTable = record { own = λ i h. ground arith; counted = refl }

take_queue-taken_example :
    taken (take_queue "hiakasat" (7 ∷ []) one_entry).progress 7 ≡ listed 7 (7 ∷ [])
take_queue-taken_example =
    take_queue-taken "hiakasat" (7 ∷ []) one_entry 7 one_entry-IsTable (omega arith, tt)
      (omega arith) (omega arith)

abbrev one_node : TxQueue
one_node = record {
  node_name = "hiakasat";
  node_id = 0;
  incoming = one_entry;
  outgoing = one_entry;
}

outgoing_tx_add_file-adds_example :
    (id : ℕ) × IsFree one_slot id
    × (outgoing_tx_add_file 4 true "hiakasat" "file" "b.txt" (one_node ∷ [])
        ≡ (ok 0, with_outgoing one_node (outgoing_tx 4 "hiakasat" "file" "b.txt" id) ∷ []))
    × IsTable (with_outgoing one_node (outgoing_tx 4 "hiakasat" "file" "b.txt" id)).outgoing
unfolding check_node_name find_node
outgoing_tx_add_file-adds_example =
    outgoing_tx_add_file-adds "hiakasat" "file" "b.txt" (one_node ∷ []) 0 one_node 4 refl refl
      one_entry-IsTable (omega arith) (omega arith) (omega arith)

choose_incoming_tx_id-least_example :
    (is_candidate
        ((choose_incoming_tx_id one_entry).entry.progress (choose_incoming_tx_id one_entry).tx_id)
      ≡ true)
    × (bytes_left
          ((choose_incoming_tx_id one_entry).entry.progress (choose_incoming_tx_id one_entry).tx_id)
        ≤ bytes_left ((choose_incoming_tx_id one_entry).entry.progress 1))
unfolding choose_incoming_tx_id choose_loop choose_round merge_progress merge_chunks_overlap
choose_incoming_tx_id-least_example =
    choose_incoming_tx_id-least one_entry 1 (λ i h. ground arith) (omega arith) refl (omega arith)

send_chunk-rest_example :
    (0 < chunk_count 0 (span 100 900))
    × (100 + chunk_count 0 (span 100 900) ≤ 900 + 1)
    × (covered
          (pop_done
            (send_chunk 0 (λ a b. []) 3 (with_chunks [] 0 true) (span 100 900) []).0).file_info
          400
        ≡ (covered (span 100 900 ∷ []) 400
            && not (leb 100 400 && ltb 400 (100 + chunk_count 0 (span 100 900)))))
send_chunk-rest_example =
    send_chunk-rest 0 (λ a b. []) 3 (with_chunks [] 0 true) (span 100 900) [] 400
      (omega arith, record { ordered = omega arith; small = omega arith }, tt)

-- The `.meta` file of a transaction with one chunk, and what stands behind its names in memory.
abbrev some_meta : TxMeta
some_meta = record {
  node_name = codes "node";
  tx_id = 17;
  agent_name = codes "file";
  file_name = codes "image.raw";
  file_size = 70010;
}

abbrev noise_behind : List ℕ → List ℕ
noise_behind s = replicate 128 7

read_meta-write_meta_example :
    (write_meta 5 noise_behind some_meta (span 0 99 ∷ []) >>= read_meta [])
    ≡ ok (record {
      meta = some_meta;
      file_info = (merge_chunks_overlap (span 0 99 ∷ [])).0;
      total_bytes = (merge_chunks_overlap (span 0 99 ∷ [])).1;
    })
read_meta-write_meta_example =
    read_meta-write_meta 5 noise_behind [] (span 0 99 ∷ []) some_meta (ground arith, omega arith)
      (ground arith, omega arith) (ground arith, omega arith) (λ s. omega arith)

place_request-covered_example :
    (covered (span 5 9 ∷ []) 7 ≡ true
      → covered (place_request (span 3 20) 18 (span 5 9 ∷ [])).0 7 ≡ true)
    × (covered (place_request (span 3 20) 18 (span 5 9 ∷ [])).0 7 ≡ true
        → (covered (span 5 9 ∷ []) 7 || in_chunk (span 3 20) 7) ≡ true)
place_request-covered_example =
    place_request-covered (span 3 20) 18 (span 5 9 ∷ []) 7
      (record { ordered = omega arith; small = omega arith })
      (record { ordered = omega arith; small = omega arith }, tt)
